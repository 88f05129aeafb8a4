-- ===== src/Config/Dag/Levels.antt =====
-- config/dag.rs: the loop over the levels ends, and puts every node behind the nodes that it depends
-- on.
use zymi_core.Prelude.{
  ℕ, zero, suc, ◌+◌, ◌≤◌, ◌<◌, ◌≡◌, refl, inl, inr, false, List, [], ◌∷◌, ◌++◌, ltb, length,
  length-append, Outcome, done, Text, text_eq, arith, tests, Bool-cases,
}
use zymi_core.Config.Dag.{text_le, insert, sort, run_levels}
use zymi_core.Config.Dag.Counts.{
  occurrences, occurrences-nil, occurrences-cons, occurrences_self, occurrences-append, total,
  total-append, total-Same, total-Sub, Sub, length-Sub, eq_of,
}
use zymi_core.Config.Dag.Release.{newly, drain-Takes}

occurrences-insert :
    (v x : Text) (ys : List Text) → occurrences v (insert x ys) ≡ occurrences v (x ∷ ys)
unfolding insert text_le
occurrences-insert v x [] = refl
occurrences-insert v x (y ∷ ys) = elim (Bool-cases (text_le x y)) [
  | inl e ↦ rw e refl
  | inr e ↦ rw e (
      omega (
        arith,
        occurrences-insert v x ys,
        occurrences-cons v x ys,
        occurrences-cons v y ys,
        occurrences-cons v x (y ∷ ys),
        occurrences-cons v y (insert x ys),
      ))
]

pub occurrences-sort : (v : Text) (xs : List Text) → occurrences v (sort xs) ≡ occurrences v xs
unfolding sort
occurrences-sort v [] = refl
occurrences-sort v (x ∷ xs) = omega (
  arith,
  occurrences-insert v x (sort xs),
  occurrences-sort v xs,
  occurrences-cons v x (sort xs),
  occurrences-cons v x xs,
)

length-sort : (xs : List Text) → length (sort xs) ≡ length xs
length-sort xs = omega (
  arith,
  length-Sub (sort xs) xs (λ v. omega (arith, occurrences-sort v xs)),
  length-Sub xs (sort xs) (λ v. omega (arith, occurrences-sort v xs)),
)

abbrev pub flatten : List (List Text) → List Text
flatten [] = []
flatten (l ∷ ls) = l ++ flatten ls

-- What is taken out once its degree is 0.
unfoldable pub ready : ℕ → ℕ → ℕ
ready zero n = n
ready (suc d) n = 0

ready-newly : (d a n : ℕ) → a ≤ d → (0 < d → n ≡ 1) → ready d n + newly d a ≡ ready a n
unfolding ready newly
ready-newly zero zero n h k = omega arith
ready-newly zero (suc a) n h k = absurd (omega arith)
ready-newly (suc d) zero n h k = omega (arith, k (omega arith))
ready-newly (suc d) (suc a) n h k = omega arith

pub ready-le : (d n : ℕ) → ready d n ≤ n
unfolding ready
ready-le zero n = omega arith
ready-le (suc d) n = omega arith

ready-positive : (d n : ℕ) → 0 < ready d n → d ≡ 0
unfolding ready
ready-positive zero n h = refl
ready-positive (suc d) n h = absurd (omega arith)

not_positive : (n : ℕ) → ltb 0 n ≡ false → n ≡ 0
not_positive n h = ground arith

module _ (ids : List Text) (dependents : Text → List Text) where
  abbrev pub count : Text → Text → ℕ
  count v u = occurrences v (dependents u)

  -- `done_with` are the nodes taken out, `queue` those that are next: together the nodes of degree
  -- 0. A degree counts the edges from the nodes that are not taken out.
  abbrev pub IsRun : List Text → List Text → (Text → ℕ) → Type 0
  IsRun done_with queue deg =
      ((v : Text) → deg v + total (count v) done_with ≡ total (count v) ids)
      × ((v : Text)
          → occurrences v done_with + occurrences v queue ≡ ready (deg v) (occurrences v ids))

  -- A node stands in a level only if all that it depends on stands before the level.
  abbrev pub IsLayered : List Text → List (List Text) → Type 0
  IsLayered before [] = Unit
  IsLayered before (l ∷ ls) =
      ((v u : Text)
        → 0 < occurrences v l
        → 0 < count v u
        → 0 < occurrences u ids
        → 0 < occurrences u before)
      × IsLayered (before ++ l) ls

  IsRun-Sub : (p q : List Text) (deg : Text → ℕ) → IsRun p q deg → Sub (p ++ q) ids
  IsRun-Sub p q deg (_, b) v =
      omega (arith, occurrences-append v p q, b v, ready-le (deg v) (occurrences v ids))

  -- What the queue counts is still counted in the degrees.
  IsRun-fits :
      (p q : List Text) (deg : Text → ℕ) → IsRun p q deg → (v : Text) → total (count v) q ≤ deg v
  IsRun-fits p q deg (a, b) v = omega (
    arith,
    a v,
    total-Sub (count v) (p ++ q) ids (IsRun-Sub p q deg (a, b)),
    total-append (count v) p q,
  )

  one_more-Sub :
      (p : List Text) (u : Text)
      → Sub p ids
      → 0 < occurrences u ids
      → ltb 0 (occurrences u p) ≡ false
      → Sub (u ∷ p) ids
  one_more-Sub p u h i l v = elim (Bool-cases (text_eq v u)) [
    | inl t ↦
        rw (eq_of v u t) (omega (arith, occurrences_self u p, not_positive (occurrences u p) l))
    | inr t ↦ omega (arith, h v, rw t at (occurrences-cons v u p))
  ]

  -- A node of the queue depends on nodes taken out alone.
  queue_sound :
      (p q : List Text) (deg : Text → ℕ)
      → IsRun p q deg
      → (v u : Text) → 0 < occurrences v q
      → 0 < count v u
      → 0 < occurrences u ids
      → 0 < occurrences u p
  unfolding total
  queue_sound p q deg (a, b) v u h c i = elim (Bool-cases (ltb 0 (occurrences u p))) [
    | inl l ↦ omega tests
    | inr l ↦
        let zero_degree = ready-positive (deg v) (occurrences v ids) (omega (arith, b v)) in
        let held =
          one_more-Sub p u (λ w. omega (arith, b w, ready-le (deg w) (occurrences w ids))) i l in
        absurd (omega (arith, a v, total-Sub (count v) (u ∷ p) ids held))
  ]

  -- Each node occurs once, and a node that depends on another is one.
  module _ (once : (v : Text) → occurrences v ids ≤ 1)
      (known : (v : Text) → 0 < total (count v) ids → occurrences v ids ≡ 1) where
    next-IsRun :
        (p q next : List Text) (deg after : Text → ℕ)
        → IsRun p q deg
        → ((v : Text) → after v + total (count v) q ≡ deg v)
        → ((v : Text) → occurrences v next ≡ newly (deg v) (after v))
        → IsRun (p ++ sort q) next after
    next-IsRun p q next deg after (a, b) t n = (
      (λ v. omega (
        arith,
        a v,
        t v,
        total-append (count v) p (sort q),
        total-Same (count v) (sort q) q (λ w. occurrences-sort w q),
      )),
      (λ v. omega (
        arith,
        b v,
        n v,
        occurrences-append v p (sort q),
        occurrences-sort v q,
        ready-newly (deg v) (after v) (occurrences v ids) (omega (arith, t v))
            (λ d. known v (omega (arith, a v))),
      )),
    )

    -- What the loop gives: the nodes taken out at its end are those of the levels.
    abbrev pub RunsTo : List Text → Outcome (List (List Text) × ℕ × (Text → ℕ)) → Type 0
    RunsTo p m =
        (levels : List (List Text)) × (visited : ℕ) × (last : Text → ℕ) × (final : List Text) × (m
          ≡ done (levels, visited, last))
        × IsRun final [] last
        × (visited + length p ≡ length final)
        × IsLayered p levels
        × ((v : Text) → occurrences v p + occurrences v (flatten levels) ≡ occurrences v final)

    pub run_levels-RunsTo :
        (fuel : ℕ) (p q : List Text) (deg : Text → ℕ)
        → IsRun p q deg
        → length ids < length p + fuel
        → RunsTo p (run_levels fuel dependents q deg)
    unfolding run_levels
    run_levels-RunsTo fuel p [] deg h k =
        ([], 0, deg, p, refl, h, omega arith, tt, λ v. omega (arith, occurrences-nil v))
    run_levels-RunsTo zero p (node ∷ q) deg h k = absurd (
        omega (
          arith,
          length-Sub (p ++ node ∷ q) ids (IsRun-Sub p (node ∷ q) deg h),
          length-append p (node ∷ q),
        ))
    run_levels-RunsTo (suc fuel) p (node ∷ q) deg h k =
        let queue = node ∷ q in
        let (after, next, r, t, n) = drain-Takes dependents queue deg (IsRun-fits p queue deg h) in
        let (levels, visited, last, final, e, run, l, layered, o) =
          run_levels-RunsTo fuel (p ++ sort queue) next after
            (next-IsRun p queue next deg after h t n)
            (omega (arith, length-append p (sort queue), length-sort queue)) in
        (
          sort queue ∷ levels,
          length queue + visited,
          last,
          final,
          rw (run_levels, r, e) refl,
          run,
          omega (arith, length-append p (sort queue), length-sort queue),
          (
            (λ v u i. queue_sound p queue deg h v u (omega (arith, occurrences-sort v queue))),
            layered,
          ),
          λ v. omega (
            arith,
            o v,
            occurrences-append v p (sort queue),
            occurrences-append v (sort queue) (flatten levels),
          ),
        )
