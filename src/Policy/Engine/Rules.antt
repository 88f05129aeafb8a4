-- ===== src/Policy/Engine/Rules.antt =====
-- Denials that no configuration can lift, for an engine that `PolicyEngine::new` built.
use zymi_core.Prelude.{
  ℕ, zero, suc, ◌+◌, ◌≤◌, ◌<◌, ◌≡◌, refl, ap, ◌∙◌, ◌⊎◌, inl, inr, true, Option, none, some,
  Option-cases, Bool-cases, List, [], ◌∷◌, ◌++◌, arith, length, get_elem?, done, Text, codes,
  contains,
}
use zymi_core.Policy.Subshell.Balance.{Lacks}
use zymi_core.Policy.ShellWrapper.{RegexCrate}
use zymi_core.Policy.Command.{normalize_command}
use zymi_core.Policy.Docker.{
  check_docker_escape, is_sensitive_path, normalize_path, contains_any, escape_flags,
  has_sensitive_mount,
}
use zymi_core.Policy.Docker.Mounts.{IsAscii, IsHost}
use zymi_core.Policy.Docker.Escape.{mounting, has_sensitive_mount-volume}
use zymi_core.Policy.Danger.{raw_danger, parsed_danger, host_danger, check_dangerous}
use zymi_core.Policy.Engine.{
  PolicyConfig, denied, Host, first_match, deny_reason, evaluate_single, compile_all, new_engine,
  glob_to_regex,
}

length-compile_all : (rx : RegexCrate) (ps : List Text) → length (compile_all rx ps) ≤ length ps
unfolding compile_all
length-compile_all rx [] = omega arith
length-compile_all rx (p ∷ ps) = elim (Option-cases (glob_to_regex rx p)) [
  | inl n ↦ ground (arith, length-compile_all rx ps)
  | inr (re, n) ↦ ground (arith, length-compile_all rx ps)
]

first_match-lt :
    (rx : RegexCrate) (res : List Text) (i k : ℕ) (command : Text)
    → first_match rx res i command ≡ some k
    → (i ≤ k) × (k < i + length res)
unfolding first_match
first_match-lt rx [] i k command h = cc
first_match-lt rx (re ∷ res) i k command h = ground (arith, first_match-lt rx res (suc i) k command)

get_elem?-lt {ℓ} :
    {A : Type ℓ} (xs : List A) (k : ℕ) → k < length xs → (a : A) × (get_elem? xs k ≡ some a)
get_elem?-lt [] k h = absurd (omega arith)
get_elem?-lt (x ∷ xs) zero h = (x, refl)
get_elem?-lt (x ∷ xs) (suc k) h = get_elem?-lt xs k (omega arith)

module _ (host : Host) (config : PolicyConfig) (command : Text) where
  -- The index into the deny rules never leaves them.
  deny_rule :
      (k : ℕ)
      → first_match host.regex (new_engine host.regex config).deny_patterns 0 command ≡ some k
      → (rule : Text) × (get_elem? config.deny k ≡ some rule)
  unfolding new_engine
  deny_rule k h = get_elem?-lt config.deny k (
      omega (
        arith,
        first_match-lt host.regex (compile_all host.regex config.deny) 0 k command h,
        length-compile_all host.regex config.deny,
      ))

  -- A deny rule that matches denies the command, whatever else the configuration holds.
  rule-denied :
      (k : ℕ)
      → first_match host.regex (new_engine host.regex config).deny_patterns 0 command ≡ some k
      → (reason : Text) × (evaluate_single host (new_engine host.regex config) command
          ≡ done (denied reason))
  unfolding evaluate_single new_engine
  rule-denied k h =
      let (rule, found) = deny_rule k h in
      (codes "Command matches deny rule: " ++ rule, rw (h, evaluate_single) (by_rule found))
    where
      by_rule :
          {o : Option Text} {rule : Text}
          → o ≡ some rule
          → deny_reason o ≡ done (denied (codes "Command matches deny rule: " ++ rule))
      by_rule e = rw e

  danger-denied :
      (reason : Text)
      → first_match host.regex (new_engine host.regex config).deny_patterns 0 command ≡ none
      → check_dangerous host.to_lowercase command ≡ done (some reason)
      → evaluate_single host (new_engine host.regex config) command ≡ done (denied reason)
  unfolding evaluate_single
  danger-denied reason h d = rw (h, evaluate_single, d)

  -- `evaluate_single`, by which an enabled engine judges each fragment, denies a command that a deny
  -- rule matches or that is inherently dangerous, whatever the lists of rules: no allow or approval
  -- rule lifts the denial, and the lookup of the deny rule's text does not panic.
  pub evaluate_single-always_denied :
      ((k : ℕ) × (first_match host.regex (new_engine host.regex config).deny_patterns 0 command
            ≡ some k))
        ⊎ ((danger : Text) × (check_dangerous host.to_lowercase command ≡ done (some danger)))
      → (reason : Text) × (evaluate_single host (new_engine host.regex config) command
          ≡ done (denied reason))
  evaluate_single-always_denied (inl (k, h)) = rule-denied k h
  evaluate_single-always_denied (inr (danger, d)) =
      elim (Option-cases
        (first_match host.regex (new_engine host.regex config).deny_patterns 0 command)) [
          | inl n ↦ (danger, danger-denied danger n d)
          | inr (j, h) ↦ rule-denied j h
        ]

check_dangerous-host :
    (to_lowercase : Text → Text) (command reason : Text)
    → host_danger (to_lowercase command) ≡ done (some reason)
    → (r : Text) × (check_dangerous to_lowercase command ≡ done (some r))
unfolding check_dangerous
check_dangerous-host to_lowercase command reason h =
    elim (Option-cases (raw_danger (to_lowercase command))) [
      | inr (r, e) ↦ (r, ground arith)
      | inl e ↦ elim (Option-cases (parsed_danger (normalize_command command))) [
        | inr (r, k) ↦ (r, ground arith)
        | inl k ↦ (reason, ground arith)
      ]
    ]

host_danger-mount :
    (lower : Text)
    → contains lower (codes "docker") ≡ true
    → has_sensitive_mount lower ≡ done true
    → host_danger lower
      ≡ done (some (codes "Blocked: Docker privilege escalation (container escape to host root)"))
unfolding host_danger check_docker_escape
host_danger-mount lower d m = elim (Bool-cases (contains_any lower escape_flags)) [
  | inl e ↦ rw (d, e)
  | inr e ↦ rw (d, e, m)
]

-- By `evaluate_single`, under every configuration, a command whose lower-case form is ASCII, names docker, and has as its
-- first dash a `-v` flag with a sensitive host path is denied.
pub evaluate_single-docker_mount :
    (host : Host) (config : PolicyConfig) (command start rest : Text) (c : ℕ) (path : Text)
    → host.to_lowercase command ≡ mounting start (c ∷ path) rest
    → contains (mounting start (c ∷ path) rest) (codes "docker") ≡ true
    → IsAscii (mounting start (c ∷ path) rest)
    → Lacks b'-' start
    → IsHost (c ∷ path)
    → is_sensitive_path (normalize_path (c ∷ path)) ≡ true
    → (reason : Text) × (evaluate_single host (new_engine host.regex config) command
        ≡ done (denied reason))
evaluate_single-docker_mount host config command start rest c path l d ascii lacks h sensitive =
    let mounted = has_sensitive_mount-volume start rest c path ascii lacks h sensitive in
    let (r, e) =
      check_dangerous-host host.to_lowercase command
        (codes "Blocked: Docker privilege escalation (container escape to host root)")
        (ap host_danger l ∙ host_danger-mount (mounting start (c ∷ path) rest) d mounted) in
    evaluate_single-always_denied host config command (inr (r, e))
