-- ===== src/Policy/Engine.antt =====
-- policy.rs, `PolicyConfig`, `PolicyEngine` and `merge_decisions`.
pub mod Allow
pub mod Deny
pub mod Merge
pub mod Rules
pub mod Panic
use zymi_core.Prelude.{
  ℕ, zero, suc, Bool, true, false, ◌&&◌, ◌||◌, Option, none, some, List, [], ◌∷◌, ◌++◌, ◌==◌,
  if◌then◌else◌, get_elem?, Outcome, done, fault, panic, ◌>>=◌, Text, codes, text_eq, trim,
  is_empty,
}
use zymi_core.Policy.Split.{backslash}
use zymi_core.Policy.ShellWrapper.{RegexCrate}
use zymi_core.Policy.Fragments.{holds, collect_all_fragments}
use zymi_core.Policy.Command.{normalize_command}
use zymi_core.Policy.Danger.{check_dangerous}
use zymi_core.Policy.Variables.{has_variable_expansion}

pub record PolicyConfig : Type 0 where
  pub enabled : Bool
  pub allow : List Text
  pub deny : List Text
  pub require_approval : List Text

pub data PolicyDecision : Type 0 where
  allowed needs_approval : PolicyDecision
  denied : Text → PolicyDecision

-- The crate and the standard library's `to_lowercase`.
pub record Host : Type 0 where
  pub regex : RegexCrate
  pub to_lowercase : Text → Text

pub record PolicyEngine : Type 0 where
  pub config : PolicyConfig
  pub allow_patterns : List Text
  pub deny_patterns : List Text
  pub approval_patterns : List Text

abbrev is_meta : ℕ → Bool
is_meta c =
    c == b'.'
    || c == b'+'
    || c == b'('
    || c == b')'
    || c == b'['
    || c == b']'
    || c == b'{'
    || c == b'}'
    || c == b'^'
    || c == b'$'
    || c == b'|'
    || c == backslash

unfoldable pub glob_char : ℕ → Text
glob_char c =
    if c == b'*'
    then codes ".*"
    else if c == b'?'
    then codes "."
    else if is_meta c
    then backslash ∷ c ∷ []
    else c ∷ []

unfoldable pub glob_body : Text → Text
unfolding glob_char
glob_body [] = []
glob_body (c ∷ s) = glob_char c ++ glob_body s

-- `glob_to_regex`; `none` where the crate rejects the pattern.
unfoldable pub glob_to_regex : RegexCrate → Text → Option Text
unfolding glob_body
glob_to_regex rx pattern' =
    let regex_str = codes "(?i)^" ++ glob_body pattern' ++ codes "$" in
    if rx.compiles regex_str then some regex_str else none

-- `iter().filter_map(glob_to_regex).collect()`.
unfoldable pub compile_all : RegexCrate → List Text → List Text
unfolding glob_to_regex
compile_all rx [] = []
compile_all rx (p ∷ ps) = elim (glob_to_regex rx p) [
  | none ↦ compile_all rx ps
  | some re ↦ re ∷ compile_all rx ps
]

-- `PolicyEngine::new`.
unfoldable pub new_engine : RegexCrate → PolicyConfig → PolicyEngine
unfolding compile_all
new_engine rx config = record {
  config = config;
  allow_patterns = compile_all rx config.allow;
  deny_patterns = compile_all rx config.deny;
  approval_patterns = compile_all rx config.require_approval;
}

-- The index of the first pattern that matches, counted from `i`.
unfoldable pub first_match : RegexCrate → List Text → ℕ → Text → Option ℕ
first_match rx [] i command = none
first_match rx (re ∷ res) i command =
    if rx.is_match re command then some i else first_match rx res (suc i) command

unfoldable pub any_match : RegexCrate → List Text → Text → Bool
any_match rx [] command = false
any_match rx (re ∷ res) command = rx.is_match re command || any_match rx res command

-- `self.config.deny[i]`, which panics out of range.
abbrev deny_reason : Option Text → Outcome PolicyDecision
deny_reason none = fault panic
deny_reason (some rule) = done (denied (codes "Command matches deny rule: " ++ rule))

unfoldable pub by_lists : RegexCrate → PolicyEngine → Text → PolicyDecision
unfolding any_match
by_lists rx e command =
    if any_match rx e.approval_patterns command
    then needs_approval
    else if any_match rx e.allow_patterns command
    then allowed
    else needs_approval

abbrev or_danger : Option Text → PolicyDecision → PolicyDecision
or_danger none d = d
or_danger (some reason) d = denied reason

unfoldable pub evaluate_single : Host → PolicyEngine → Text → Outcome PolicyDecision
evaluate_single host e command = elim (first_match host.regex e.deny_patterns 0 command) [
  | some i ↦ deny_reason (get_elem? e.config.deny i)
  | none ↦ do
    danger ← check_dangerous host.to_lowercase command
    done (or_danger danger (by_lists host.regex e command))
]

unfoldable pub merge_decisions : PolicyDecision → PolicyDecision → PolicyDecision
merge_decisions (denied r) new = denied r
merge_decisions allowed (denied r) = denied r
merge_decisions needs_approval (denied r) = denied r
merge_decisions needs_approval allowed = needs_approval
merge_decisions needs_approval needs_approval = needs_approval
merge_decisions allowed needs_approval = needs_approval
merge_decisions allowed allowed = allowed

abbrev pub is_deny : PolicyDecision → Bool
is_deny (denied r) = true
is_deny allowed = false
is_deny needs_approval = false

-- The loop over the fragments, up to the first denial: `worst` and `any_evaluated`.
unfoldable pub judge :
    Host → PolicyEngine → List Text → PolicyDecision → Bool → Outcome (PolicyDecision × Bool)
judge host e [] worst evaluated = done (worst, evaluated)
judge host e (fragment ∷ fragments) worst evaluated =
    let rest = judge host e fragments in
    if is_empty (trim fragment) then rest worst evaluated else do
      decision ← evaluate_single host e (trim fragment)
      let worst' = merge_decisions worst decision
      if is_deny worst' then done (worst', true) else rest worst' true

-- `SUSPICIOUS_COMMANDS`.
abbrev pub suspicious_commands : List Text
suspicious_commands = codes "eval" ∷ codes "source" ∷ []

unfoldable pub any_suspicious : List Text → Bool
unfolding normalize_command holds
any_suspicious [] = false
any_suspicious (fragment ∷ fragments) =
    holds suspicious_commands (normalize_command (trim fragment)).base || any_suspicious fragments

abbrev pub raise : Bool → PolicyDecision → PolicyDecision
raise b worst = if b then merge_decisions worst needs_approval else worst

-- What `evaluate` does behind the loop, where no fragment was denied.
unfoldable pub conclude : Text → List Text → PolicyDecision → Bool → PolicyDecision
conclude command fragments worst evaluated =
    if is_deny worst
    then worst
    else if evaluated
    then raise (any_suspicious fragments) (raise (has_variable_expansion command) worst)
    else needs_approval

unfoldable pub evaluate : Host → PolicyEngine → Text → Outcome PolicyDecision
evaluate host e command =
    if e.config.enabled
    then (do
      fragments ← collect_all_fragments host.regex (trim command)
      (worst, evaluated) ← judge host e fragments allowed false
      done (conclude (trim command) fragments worst evaluated))
    else done needs_approval
