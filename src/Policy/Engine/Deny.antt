-- ===== src/Policy/Engine/Deny.antt =====
-- When a command is denied, with which reason, and when the evaluation panics.
use zymi_core.Prelude.{
  ◌≡◌, refl, sym, ap, ◌∙◌, ◌⊎◌, inl, inr, ◌↔◌, Bool, true, false, List, [], ◌∷◌, ◌++◌, arith,
  Bool-cases, Outcome, Outcome-cases, Fault, done, fault, ◌>>=◌, Text, trim, is_empty,
}
use zymi_core.Policy.Fragments.{collect_all_fragments}
use zymi_core.Policy.Engine.{
  PolicyDecision, allowed, needs_approval, denied, Host, PolicyEngine, evaluate_single,
  merge_decisions, is_deny, judge, conclude, evaluate,
}
use zymi_core.Policy.Engine.Allow.{evaluate-collected}

-- Every fragment is blank or was judged, and none was denied.
abbrev pub NoneDenied : Host → PolicyEngine → List Text → Type 0
NoneDenied host e [] = Unit
NoneDenied host e (f ∷ fs) =
    ((is_empty (trim f) ≡ true)
      ⊎ (evaluate_single host e (trim f) ≡ done allowed)
      ⊎ (evaluate_single host e (trim f) ≡ done needs_approval))
    × NoneDenied host e fs

-- The first denial among the fragments has the reason `r`.
pub record FirstDenied (host : Host) (e : PolicyEngine) (fs : List Text) (r : Text) : Type 0 where
  pub earlier : List Text
  pub fragment : Text
  pub later : List Text
  pub parts : fs ≡ earlier ++ fragment ∷ later
  pub passed : NoneDenied host e earlier
  pub shown : is_empty (trim fragment) ≡ false
  pub verdict : evaluate_single host e (trim fragment) ≡ done (denied r)

data Verdict (m : Outcome PolicyDecision) : Type 0 where
  denies : (q : Text) → m ≡ done (denied q) → Verdict m
  passes : (d : PolicyDecision) → m ≡ done d → (d ≡ allowed) ⊎ (d ≡ needs_approval) → Verdict m
  faults : (x : Fault) → m ≡ fault x → Verdict m

Verdict-of : (m : Outcome PolicyDecision) → Verdict m
Verdict-of (done (denied q)) = denies q refl
Verdict-of (done allowed) = passes allowed refl (inl refl)
Verdict-of (done needs_approval) = passes needs_approval refl (inr refl)
Verdict-of (fault x) = faults x refl

is_deny-merge :
    (w d : PolicyDecision)
    → is_deny w ≡ false
    → (d ≡ allowed) ⊎ (d ≡ needs_approval)
    → is_deny (merge_decisions w d) ≡ false
unfolding merge_decisions
is_deny-merge (denied r) d n h = cc
is_deny-merge allowed d n h = ground arith
is_deny-merge needs_approval d n h = ground arith

module _ (host : Host) (e : PolicyEngine) where
  FirstDenied-cons :
      (f : Text) (fs : List Text) (r : Text)
      → ((is_empty (trim f) ≡ true)
          ⊎ (evaluate_single host e (trim f) ≡ done allowed)
          ⊎ (evaluate_single host e (trim f) ≡ done needs_approval))
      → FirstDenied host e fs r
      → FirstDenied host e (f ∷ fs) r
  FirstDenied-cons f fs r ok d = record {
    earlier = f ∷ d.earlier;
    fragment = d.fragment;
    later = d.later;
    parts = ap (◌∷◌ f) d.parts;
    passed = (ok, d.passed);
    shown = d.shown;
    verdict = d.verdict;
  }

  module _ (f : Text) (fs : List Text) (worst : PolicyDecision) (ev : Bool) where
    judge-blank :
        is_empty (trim f) ≡ true → judge host e (f ∷ fs) worst ev ≡ judge host e fs worst ev
    unfolding judge
    judge-blank b = ground arith

    judge-fault :
        {x : Fault}
        → is_empty (trim f) ≡ false
        → evaluate_single host e (trim f) ≡ fault x
        → judge host e (f ∷ fs) worst ev ≡ fault x
    unfolding judge
    judge-fault b k = ground arith

    judge-denied :
        (q : Text)
        → is_empty (trim f) ≡ false
        → evaluate_single host e (trim f) ≡ done (denied q)
        → is_deny worst ≡ false
        → judge host e (f ∷ fs) worst ev ≡ done (denied q, true)
    unfolding judge merge_decisions
    judge-denied q b k n = ground arith

    judge-passed :
        (d : PolicyDecision)
        → is_empty (trim f) ≡ false
        → evaluate_single host e (trim f) ≡ done d
        → is_deny (merge_decisions worst d) ≡ false
        → judge host e (f ∷ fs) worst ev ≡ judge host e fs (merge_decisions worst d) true
    unfolding judge
    judge-passed d b k n = ground arith

  judge-denied→ :
      (fs : List Text) (worst : PolicyDecision) (ev ev' : Bool) (r : Text)
      → is_deny worst ≡ false
      → judge host e fs worst ev ≡ done (denied r, ev')
      → FirstDenied host e fs r
  unfolding judge
  judge-denied→ [] worst ev ev' r n h = ground arith
  judge-denied→ (f ∷ fs) worst ev ev' r n h = elim (Bool-cases (is_empty (trim f))) [
    | inl b ↦
        FirstDenied-cons f fs r (inl b)
          (judge-denied→ fs worst ev ev' r n (sym (judge-blank f fs worst ev b) ∙ h))
    | inr b ↦ elim (Verdict-of (evaluate_single host e (trim f))) [
      | denies q k ↦ record {
        earlier = [];
        fragment = f;
        later = fs;
        parts = refl;
        passed = tt;
        shown = b;
        verdict = k ∙ ground (arith, judge-denied f fs worst ev q b k n);
      }
      | passes d k o ↦ FirstDenied-cons f fs r (ground arith) (
          judge-denied→ fs (merge_decisions worst d) true ev' r (is_deny-merge worst d n o)
            (sym (judge-passed f fs worst ev d b k (is_deny-merge worst d n o)) ∙ h))
      | faults x k ↦ ground (arith, judge-fault f fs worst ev b k)
    ]
  ]

  -- A fragment that is not denied leaves the loop to go on.
  judge_on :
      (g : Text) (rest : List Text) (worst : PolicyDecision) (ev : Bool)
      → is_deny worst ≡ false
      → (is_empty (trim g) ≡ true)
        ⊎ (evaluate_single host e (trim g) ≡ done allowed)
        ⊎ (evaluate_single host e (trim g) ≡ done needs_approval)
      → (w : PolicyDecision) × (v : Bool) × (is_deny w ≡ false)
        × (judge host e (g ∷ rest) worst ev ≡ judge host e rest w v)
  judge_on g rest worst ev n o = elim (Bool-cases (is_empty (trim g))) [
    | inl b ↦ (worst, ev, n, judge-blank g rest worst ev b)
    | inr b ↦ elim (Verdict-of (evaluate_single host e (trim g))) [
      | denies q k ↦ absurd (ground arith)
      | passes d k p ↦
          let m = is_deny-merge worst d n p in
          (merge_decisions worst d, true, m, judge-passed g rest worst ev d b k m)
      | faults x k ↦ absurd (ground arith)
    ]
  ]

  judge-denied← :
      (earlier later : List Text) (f : Text) (worst : PolicyDecision) (ev : Bool) (r : Text)
      → is_deny worst ≡ false
      → NoneDenied host e earlier
      → is_empty (trim f) ≡ false
      → evaluate_single host e (trim f) ≡ done (denied r)
      → judge host e (earlier ++ f ∷ later) worst ev ≡ done (denied r, true)
  judge-denied← [] later f worst ev r n p b k = judge-denied f later worst ev r b k n
  judge-denied← (g ∷ gs) later f worst ev r n p b k =
      let (w, v, m, step) = judge_on g (gs ++ f ∷ later) worst ev n p.0 in
      step ∙ judge-denied← gs later f w v r m p.1 b k

conclude-denied :
    (command : Text) (fs : List Text) (worst : PolicyDecision) (ev : Bool) (r : Text)
    → (conclude command fs worst ev ≡ denied r) ↔ (worst ≡ denied r)
unfolding conclude merge_decisions
conclude-denied command fs (denied q) ev r = (λ h. h, λ h. h)
conclude-denied command fs allowed ev r = (λ h. ground arith, λ h. cc)
conclude-denied command fs needs_approval ev r = (λ h. ground arith, λ h. cc)

-- What it takes for a command to be denied with the reason `r`.
pub record IsDenied (host : Host) (e : PolicyEngine) (command r : Text) : Type 0 where
  pub enabled : e.config.enabled ≡ true
  pub fragments : List Text
  pub collected : collect_all_fragments host.regex (trim command) ≡ done fragments
  pub first : FirstDenied host e fragments r

module _ (host : Host) (e : PolicyEngine) (command r : Text) where
  judged :
      (fs : List Text) (m : Outcome (PolicyDecision × Bool))
      → judge host e fs allowed false ≡ m
      → (do (worst, ev) ← m; done (conclude (trim command) fs worst ev)) ≡ done (denied r)
      → FirstDenied host e fs r
  judged fs (done (worst, ev)) q h =
      judge-denied→ host e fs allowed false ev r refl (
        q
        ∙ ap (λ w. done (w, ev)) ((conclude-denied (trim command) fs worst ev r).0 (ground arith)))
  judged fs (fault x) q h = cc

  denied→ : evaluate host e command ≡ done (denied r) → IsDenied host e command r
  unfolding evaluate
  denied→ h = elim (Bool-cases e.config.enabled) [
    | inl on ↦ elim (Outcome-cases (collect_all_fragments host.regex (trim command))) [
      | inl (fs, c) ↦ record {
        enabled = on;
        fragments = fs;
        collected = c;
        first =
            judged fs (judge host e fs allowed false) refl
              (sym (evaluate-collected host e command on c) ∙ h);
      }
      | inr (x, c) ↦ ground arith
    ]
    | inr off ↦ ground arith
  ]

  denied← : IsDenied host e command r → evaluate host e command ≡ done (denied r)
  denied← d =
      let f = d.first in
      evaluate-collected host e command d.enabled d.collected
      ∙ rw
          (
            f.parts,
            judge-denied← host e f.earlier f.later f.fragment allowed false r refl f.passed f.shown
                f.verdict,
          )
          (ap done (
            (conclude-denied (trim command) (f.earlier ++ f.fragment ∷ f.later) (denied r) true r).1
              refl))

-- A command is denied, with the reason `r`, exactly when the policy is enabled, the command comes
-- apart into fragments, and the first of them that is neither blank nor passed is denied by itself
-- with that reason.
pub evaluate-denied :
    (host : Host) (e : PolicyEngine) (command r : Text)
    → (evaluate host e command ≡ done (denied r)) ↔ IsDenied host e command r
evaluate-denied host e command r = (denied→ host e command r, denied← host e command r)
