-- ===== src/Policy/Engine/Allow.antt =====
-- When a command is allowed: every part of it was checked, and each check said Allow.
use zymi_core.Prelude.{
  ◌≡◌, refl, sym, ◌∙◌, ◌⊎◌, inl, inr, ◌↔◌, Bool, true, false, ◌||◌, not, none, List, [], ◌∷◌, arith,
  Bool-cases, Outcome, Outcome-cases, done, fault, ◌>>=◌, Text, trim, is_empty,
}
use zymi_core.Policy.Fragments.{collect_all_fragments}
use zymi_core.Policy.Danger.{check_dangerous}
use zymi_core.Policy.Variables.{has_variable_expansion}
use zymi_core.Policy.Engine.{
  PolicyDecision, allowed, needs_approval, denied, Host, PolicyEngine, first_match, any_match,
  by_lists, evaluate_single, merge_decisions, judge, any_suspicious, conclude, evaluate,
}

-- Every fragment is blank, or was judged Allow by itself.
abbrev pub AllAllowed : Host → PolicyEngine → List Text → Type 0
AllAllowed host e [] = Unit
AllAllowed host e (f ∷ fs) =
    ((is_empty (trim f) ≡ true) ⊎ (evaluate_single host e (trim f) ≡ done allowed))
    × AllAllowed host e fs

-- Some fragment is not blank.
abbrev pub any_shown : List Text → Bool
any_shown [] = false
any_shown (f ∷ fs) = not (is_empty (trim f)) || any_shown fs

merge-allowed :
    (a b : PolicyDecision) → merge_decisions a b ≡ allowed → (a ≡ allowed) × (b ≡ allowed)
unfolding merge_decisions
merge-allowed (denied r) b h = ground arith
merge-allowed allowed b h = ground arith
merge-allowed needs_approval b h = ground arith

module _ (host : Host) (e : PolicyEngine) where
  judge→ :
      (fs : List Text) (worst : PolicyDecision) (ev ev' : Bool)
      → judge host e fs worst ev ≡ done (allowed, ev')
      → (worst ≡ allowed) × AllAllowed host e fs × (ev' ≡ (ev || any_shown fs))
  unfolding judge
  judge→ [] worst ev ev' h = ground arith
  judge→ (f ∷ fs) worst ev ev' h = elim (Bool-cases (is_empty (trim f))) [
    | inl b ↦ ground (arith, judge→ fs worst ev ev')
    | inr b ↦ elim (Outcome-cases (evaluate_single host e (trim f))) [
      | inl (d, q) ↦
          ground (arith, judge→ fs (merge_decisions worst d) true ev', merge-allowed worst d)
      | inr (x, q) ↦ ground arith
    ]
  ]

  judge← :
      (fs : List Text) (ev : Bool)
      → AllAllowed host e fs
      → judge host e fs allowed ev ≡ done (allowed, ev || any_shown fs)
  unfolding judge merge_decisions
  judge← [] ev h = ground arith
  judge← (f ∷ fs) ev (inl b, h) = ground (arith, judge← fs ev h)
  judge← (f ∷ fs) ev (inr q, h) = elim (Bool-cases (is_empty (trim f))) [
    | inl b ↦ ground (arith, judge← fs ev h)
    | inr b ↦ rw (b, q, judge← fs true h) (ground arith)
  ]

conclude-allowed :
    (command : Text) (fs : List Text) (worst : PolicyDecision) (ev : Bool)
    → conclude command fs worst ev ≡ allowed
    → (worst ≡ allowed)
      × (ev ≡ true)
      × (has_variable_expansion command ≡ false)
      × (any_suspicious fs ≡ false)
unfolding conclude merge_decisions
conclude-allowed command fs (denied r) ev h = ground arith
conclude-allowed command fs allowed ev h = ground arith
conclude-allowed command fs needs_approval ev h = ground arith

-- What it takes for a command to be allowed.
pub record IsAllowed (host : Host) (e : PolicyEngine) (command : Text) (fragments : List Text)
    : Type 0 where
  pub enabled : e.config.enabled ≡ true
  pub collected : collect_all_fragments host.regex (trim command) ≡ done fragments
  pub each : AllAllowed host e fragments
  pub shown : any_shown fragments ≡ true
  pub no_variable : has_variable_expansion (trim command) ≡ false
  pub no_suspicious : any_suspicious fragments ≡ false

module _ (host : Host) (e : PolicyEngine) (command : Text) where
  concluded :
      (fs : List Text) (m : Outcome (PolicyDecision × Bool))
      → judge host e fs allowed false ≡ m
      → (do (worst, ev) ← m; done (conclude (trim command) fs worst ev)) ≡ done allowed
      → AllAllowed host e fs
        × (any_shown fs ≡ true)
        × (has_variable_expansion (trim command) ≡ false)
        × (any_suspicious fs ≡ false)
  concluded fs (done (worst, ev)) q h =
      ground (arith, conclude-allowed (trim command) fs worst ev, judge→ host e fs allowed false ev)
  concluded fs (fault x) q h = cc

  pub evaluate-collected :
      {fs : List Text}
      → e.config.enabled ≡ true
      → collect_all_fragments host.regex (trim command) ≡ done fs
      → evaluate host e command ≡ (do
        (worst, ev) ← judge host e fs allowed false
        done (conclude (trim command) fs worst ev))
  unfolding evaluate
  evaluate-collected on c = simp (on, c)

  allowed→ : evaluate host e command ≡ done allowed → (fs : List Text) × IsAllowed host e command fs
  unfolding evaluate
  allowed→ h = elim (Bool-cases e.config.enabled) [
    | inl on ↦ elim (Outcome-cases (collect_all_fragments host.regex (trim command))) [
      | inl (fs, c) ↦
          let (each, shown, no_variable, no_suspicious) =
            concluded fs (judge host e fs allowed false) refl (sym (evaluate-collected on c) ∙ h) in
          (
            fs,
            record {
              enabled = on;
              collected = c;
              each = each;
              shown = shown;
              no_variable = no_variable;
              no_suspicious = no_suspicious;
            },
          )
      | inr (x, c) ↦ ground arith
    ]
    | inr off ↦ ground arith
  ]

  allowed← : (fs : List Text) → IsAllowed host e command fs → evaluate host e command ≡ done allowed
  unfolding conclude merge_decisions
  allowed← fs a =
      evaluate-collected a.enabled a.collected
      ∙ rw (judge← host e fs false a.each, a.shown) (simp (a.no_variable, a.no_suspicious))

-- A command is allowed exactly when the policy is enabled, the command comes apart into fragments
-- each of which is blank or judged Allow by itself, one of them is not blank, and there is neither
-- a variable expansion in the command nor a suspicious base command among the fragments.
pub evaluate-allowed :
    (host : Host) (e : PolicyEngine) (command : Text)
    → (evaluate host e command ≡ done allowed) ↔ ((fs : List Text) × IsAllowed host e command fs)
evaluate-allowed host e command = (allowed→ host e command, λ (fs, a). allowed← host e command fs a)

-- One fragment is judged Allow exactly when no deny rule matches, it is not inherently dangerous,
-- no approval rule matches, and an allow rule does.
pub evaluate_single-allowed :
    (host : Host) (e : PolicyEngine) (command : Text)
    → (evaluate_single host e command ≡ done allowed) ↔ (
        (first_match host.regex e.deny_patterns 0 command ≡ none)
        × (check_dangerous host.to_lowercase command ≡ done none)
        × (any_match host.regex e.approval_patterns command ≡ false)
        × (any_match host.regex e.allow_patterns command ≡ true))
unfolding evaluate_single by_lists
evaluate_single-allowed host e command = (λ h. ground arith, λ h. ground arith)
