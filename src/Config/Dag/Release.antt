-- ===== src/Config/Dag/Release.antt =====
-- config/dag.rs: the inner loops of `build_execution_plan`, which take the nodes of a level out.
use zymi_core.Prelude.{
  ℕ, zero, suc, ◌+◌, ◌≤◌, ◌<◌, ◌≡◌, refl, inl, inr, true, false, List, [], ◌∷◌, ◌++◌, ◌==◌,
  if◌then◌else◌, Outcome, done, Text, text_eq, arith, Bool-cases,
}
use zymi_core.Config.Dag.{put, release, drain}
use zymi_core.Config.Dag.Counts.{
  occurrences, occurrences-nil, occurrences-cons, occurrences_self, occurrences-append, total,
  eq_of, text_eq_refl,
}

-- 1 for a degree that is brought to 0.
unfoldable pub newly : ℕ → ℕ → ℕ
newly zero b = 0
newly (suc a) zero = 1
newly (suc a) (suc b) = 0

-- The degrees are lessened by what `taken` counts, and the texts whose degree that brings to 0 come
-- out, each once.
abbrev pub Takes : (Text → ℕ) → (Text → ℕ) → Outcome ((Text → ℕ) × List Text) → Type 0
Takes deg taken m =
    (after : Text → ℕ) × (next : List Text) × (m ≡ done (after, next))
    × ((v : Text) → after v + taken v ≡ deg v)
    × ((v : Text) → occurrences v next ≡ newly (deg v) (after v))

is_positive : (m : ℕ) → 0 < m → (n : ℕ) × (m ≡ suc n)
is_positive zero h = absurd (omega arith)
is_positive (suc n) h = (n, refl)

newly_self : (n : ℕ) → newly n n ≡ 0
unfolding newly
newly_self zero = refl
newly_self (suc n) = refl

-- What one more decrement does to what comes out.
newly-step_zero : (n b : ℕ) → (n == 0) ≡ true → b ≤ n → newly (suc n) b ≡ suc (newly n b)
unfolding newly
newly-step_zero zero zero e h = refl
newly-step_zero zero (suc b) e h = absurd (omega arith)
newly-step_zero (suc n) b e h = absurd (ground arith)

newly-step : (n b : ℕ) → (n == 0) ≡ false → newly (suc n) b ≡ newly n b
unfolding newly
newly-step zero b e = cc
newly-step (suc n) zero e = refl
newly-step (suc n) (suc b) e = refl

module _ (d : Text) (ts : List Text) (deg : Text → ℕ) (n : ℕ) (e : deg d ≡ suc n) where
  abbrev lessened : Text → ℕ
  lessened = put d n deg

  lessened-fits :
      ((v : Text) → occurrences v (d ∷ ts) ≤ deg v) → (v : Text) → occurrences v ts ≤ lessened v
  lessened-fits h v = elim (Bool-cases (text_eq v d)) [
    | inl t ↦ rw (t, eq_of v d t) (omega (arith, h d, occurrences_self d ts))
    | inr t ↦ rw t (omega (arith, h v, rw t at (occurrences-cons v d ts)))
  ]

  module _ (after : Text → ℕ) (next : List Text)
      (a : (v : Text) → after v + occurrences v ts ≡ lessened v)
      (o : (v : Text) → occurrences v next ≡ newly (lessened v) (after v)) where
    after-step : (v : Text) → after v + occurrences v (d ∷ ts) ≡ deg v
    after-step v = elim (Bool-cases (text_eq v d)) [
      | inl t ↦
          rw (eq_of v d t) (omega (arith, occurrences_self d ts, rw (text_eq_refl d) at (a d)))
      | inr t ↦ omega (arith, rw t at (occurrences-cons v d ts), rw t at (a v))
    ]

    -- At the node itself.
    at_self : (lessened d ≡ n) × (after d ≤ n) × (occurrences d next ≡ newly n (after d))
    at_self = (
      rw (text_eq_refl d) refl,
      omega (arith, rw (text_eq_refl d) at (a d)),
      rw (text_eq_refl d) at (o d),
    )

    released-step :
        (v : Text) → occurrences v (if n == 0 then d ∷ next else next) ≡ newly (deg v) (after v)
    released-step v = elim (Bool-cases (n == 0)) [
      | inl z ↦ rw z (elim (Bool-cases (text_eq v d)) [
        | inl t ↦
            rw (eq_of v d t, e)
              (omega (
                arith,
                occurrences_self d next,
                at_self.2,
                newly-step_zero n (after d) z (at_self.1),
              ))
        | inr t ↦ omega (arith, rw t at (occurrences-cons v d next), rw t at (o v))
      ])
      | inr z ↦ rw z (elim (Bool-cases (text_eq v d)) [
        | inl t ↦ rw (eq_of v d t, e) (omega (arith, at_self.2, newly-step n (after d) z))
        | inr t ↦ rw t at (o v)
      ])
    ]

release-cons :
    (d : Text) (ts : List Text) (deg : Text → ℕ) (n : ℕ) (after : Text → ℕ) (next : List Text)
    → deg d ≡ suc n
    → release ts (put d n deg) ≡ done (after, next)
    → release (d ∷ ts) deg ≡ done (after, (if n == 0 then d ∷ next else next))
unfolding release
release-cons d ts deg n after next e r = rw (release, e, r) refl

release-Takes :
    (ts : List Text) (deg : Text → ℕ)
    → ((v : Text) → occurrences v ts ≤ deg v)
    → Takes deg (λ v. occurrences v ts) (release ts deg)
unfolding release
release-Takes [] deg h = (
  deg,
  [],
  refl,
  λ v. omega (arith, occurrences-nil v),
  λ v. omega (arith, occurrences-nil v, newly_self (deg v)),
)
release-Takes (d ∷ ts) deg h =
    let (n, e) = is_positive (deg d) (omega (arith, h d, occurrences_self d ts)) in
    let (after, next, r, a, o) = release-Takes ts (put d n deg) (lessened-fits d ts deg n e h) in
    (
      after,
      (if n == 0 then d ∷ next else next),
      release-cons d ts deg n after next e r,
      after-step d ts deg n e after next a o,
      released-step d ts deg n e after next a o,
    )

newly-chain : (a b c : ℕ) → b ≤ a → c ≤ b → newly a b + newly b c ≡ newly a c
unfolding newly
newly-chain zero zero c h k = omega arith
newly-chain zero (suc b) c h k = absurd (omega arith)
newly-chain (suc a) zero zero h k = omega arith
newly-chain (suc a) zero (suc c) h k = absurd (omega arith)
newly-chain (suc a) (suc b) zero h k = omega arith
newly-chain (suc a) (suc b) (suc c) h k = omega arith

-- Where every dependent of the queue is counted in its degree, the loop over the queue takes what
-- the dependents of all of the queue count.
pub drain-Takes :
    (dependents : Text → List Text) (queue : List Text) (deg : Text → ℕ)
    → ((v : Text) → total (λ u. occurrences v (dependents u)) queue ≤ deg v)
    → Takes deg (λ v. total (λ u. occurrences v (dependents u)) queue) (drain dependents queue deg)
unfolding drain total
drain-Takes dependents [] deg h =
    (deg, [], refl, λ v. omega arith, λ v. omega (arith, occurrences-nil v, newly_self (deg v)))
drain-Takes dependents (node ∷ queue) deg h =
    let (mid, first, r, a, o) = release-Takes (dependents node) deg (λ v. omega (arith, h v)) in
    let (after, later, s, b, p) = drain-Takes dependents queue mid (λ v. omega (arith, h v, a v)) in
    (
      after,
      first ++ later,
      rw (r, s) refl,
      (λ v. omega (arith, a v, b v)),
      λ v. omega (
        arith,
        occurrences-append v first later,
        o v,
        p v,
        newly-chain (deg v) (mid v) (after v) (omega (arith, a v)) (omega (arith, b v)),
      ),
    )
