-- ===== src/Config/Search/Finished.antt =====
-- config/validate.rs: where the search reports no cycle, the nodes can be put in an order in which
-- each stands behind its dependencies.
use zymi_core.Prelude.{
  ℕ, zero, suc, ◌+◌, ◌<◌, ◌≡◌, ◌≢◌, refl, ap, sym, subst, ◌∙◌, ◌⊎◌, inl, inr, false, Option, none,
  some, List, [], ◌∷◌, get_elem?, take, Outcome, done, Text, text_eq, arith, Bool-cases,
  Option-cases,
}
use zymi_core.Config.Dag.{put}
use zymi_core.Config.Dag.Counts.{
  occurrences, occurrences-nil, occurrences-cons, occurrences_self, eq_of,
}
use zymi_core.Config.Search.{VisitState, stack_ids, search}

abbrev pub In : Text → List Text → Type 0
In v xs = 0 < occurrences v xs

pub In-here : (v : Text) (xs : List Text) → In v (v ∷ xs)
In-here v xs = omega (arith, occurrences_self v xs)

pub In-there : (v x : Text) (xs : List Text) → In v xs → In v (x ∷ xs)
In-there v x xs h = omega (arith, occurrences-cons v x xs)

In-other : (v x : Text) (xs : List Text) → text_eq v x ≡ false → In v (x ∷ xs) → In v xs
In-other v x xs e h = omega (arith, rw e at (occurrences-cons v x xs))

pub In-cases : (v x : Text) (xs : List Text) → In v (x ∷ xs) → (v ≡ x) ⊎ In v xs
In-cases v x xs h = elim (Bool-cases (text_eq v x)) [
  | inl e ↦ inl (eq_of v x e)
  | inr e ↦ inr (omega (arith, rw e at (occurrences-cons v x xs)))
]

pub In-nil : (v : Text) → ¬ In v []
In-nil v h = omega (arith, occurrences-nil v)

same_some : (x d : Text) → Path (Option Text) (some x) (some d) → x ≡ d
same_some x d e = cc

one_more : (i : ℕ) → i + 1 ≡ suc i
one_more i = omega arith

-- One entry more of a list.
take-step_suc :
    (v d : Text) (i : ℕ) (xs : List Text)
    → get_elem? xs i ≡ some d
    → In v (take (suc i) xs)
    → In v (take i xs) ⊎ (v ≡ d)
take-step_suc v d i [] e h = cc
take-step_suc v d zero (x ∷ xs) e h = elim (In-cases v x [] h) [
  | inl c ↦ inr (c ∙ same_some x d e)
  | inr n ↦ absurd (In-nil v n)
]
take-step_suc v d (suc i) (x ∷ xs) e h = elim (In-cases v x (take (suc i) xs) h) [
  | inl c ↦ inl (rw c (In-here x (take i xs)))
  | inr n ↦ elim (take-step_suc v d i xs e n) [
    | inl m ↦ inl (In-there v x (take i xs) m)
    | inr c ↦ inr c
  ]
]

take-step :
    (v d : Text) (i : ℕ) (xs : List Text)
    → get_elem? xs i ≡ some d
    → In v (take (i + 1) xs)
    → In v (take i xs) ⊎ (v ≡ d)
take-step v d i xs e h = take-step_suc v d i xs e (subst (λ n. In v (take n xs)) (one_more i) h)

take_all : (i : ℕ) (xs : List Text) → get_elem? xs i ≡ none → take i xs ≡ xs
take_all zero [] e = refl
take_all (suc i) [] e = refl
take_all zero (x ∷ xs) e = cc
take_all (suc i) (x ∷ xs) e = ap (λ r. x ∷ r) (take_all i xs e)

module _ (deps : Text → List Text) where
  -- Each node stands in front of the nodes that it depends on.
  abbrev pub IsFinished : List Text → Type 0
  IsFinished [] = Unit
  IsFinished (v ∷ order) = ((u : Text) → In u (deps v) → In u order) × IsFinished order

  -- What an entry of the stack has passed is finished, or stands on top of it.
  abbrev pub IsStack : Option Text → List Text → List (Text × ℕ) → Type 0
  IsStack child order [] = Unit
  IsStack child order ((node, idx) ∷ stack) =
      ((u : Text) → In u (take idx (deps node)) → In u order ⊎ (child ≡ some u))
      × IsStack (some node) order stack

  -- A node is unvisited, or in progress and on the stack, or finished.
  abbrev pub AreStates : VisitState → List (Text × ℕ) → List Text → Type 0
  AreStates state stack order =
      (v : Text) → (state v ≡ 0) ⊎ (((state v ≡ 1) × In v (stack_ids stack)) ⊎ In v order)

  abbrev pub IsSearch : VisitState → List (Text × ℕ) → List Text → Type 0
  IsSearch state stack order =
      AreStates state stack order × (IsFinished order × IsStack none order stack)

  IsStack-weaken :
      (child : Option Text) (node : Text) (order : List Text) (stack : List (Text × ℕ))
      → IsStack child order stack
      → IsStack child (node ∷ order) stack
  IsStack-weaken child node order [] h = tt
  IsStack-weaken child node order ((n, idx) ∷ stack) (h, later) = (
    (λ u i. elim (h u i) [ inl o ↦ inl (In-there u node order o) | inr c ↦ inr c ]),
    IsStack-weaken (some n) node order stack later,
  )

  -- The top is finished.
  IsStack-finish :
      (node : Text) (order : List Text) (stack : List (Text × ℕ))
      → IsStack (some node) order stack
      → IsStack none (node ∷ order) stack
  IsStack-finish node order [] h = tt
  IsStack-finish node order ((n, idx) ∷ stack) (h, later) = (
    (λ u i. elim (h u i) [
      | inl o ↦ inl (In-there u node order o)
      | inr c ↦ inl (subst (λ x. In x (node ∷ order)) (same_some node u c) (In-here node order))
    ]),
    IsStack-weaken (some n) node order stack later,
  )

  -- The top passes on a dependency that is finished, or that goes on top of it.
  IsStack-advance :
      (child : Option Text) (order : List Text) (node dep : Text) (idx : ℕ)
      (stack : List (Text × ℕ))
      → get_elem? (deps node) idx ≡ some dep
      → (In dep order ⊎ (child ≡ some dep))
      → IsStack none order ((node, idx) ∷ stack)
      → IsStack child order ((node, idx + 1) ∷ stack)
  IsStack-advance child order node dep idx stack e d (h, later) = (
    (λ u i. elim (take-step u dep idx (deps node) e i) [
      | inl t ↦ elim (h u t) [ inl o ↦ inl o | inr c ↦ cc ]
      | inr c ↦ subst (λ x. In x order ⊎ (child ≡ some x)) (sym c) d
    ]),
    later,
  )

  -- A node goes on top.
  pub push-AreStates :
      (state : VisitState) (stack stack_after : List (Text × ℕ)) (order : List Text) (dep : Text)
      → ((v : Text) → In v (stack_ids stack) → In v (stack_ids stack_after))
      → In dep (stack_ids stack_after)
      → AreStates state stack order
      → AreStates (put dep 1 state) stack_after order
  push-AreStates state stack stack_after order dep f t h v = elim (Bool-cases (text_eq v dep)) [
    | inl e ↦ rw (e, eq_of v dep e) (inr (inl (refl, t)))
    | inr e ↦ rw e (elim (h v) [
      | inl z ↦ inl z
      | inr r ↦ elim r [ inl (o, s) ↦ inr (inl (o, f v s)) | inr o ↦ inr (inr o) ]
    ])
  ]

  -- The top goes off, finished.
  pop-AreStates :
      (state : VisitState) (stack : List (Text × ℕ)) (order : List Text) (node : Text) (idx : ℕ)
      → AreStates state ((node, idx) ∷ stack) order
      → AreStates (put node 2 state) stack (node ∷ order)
  pop-AreStates state stack order node idx h v = elim (Bool-cases (text_eq v node)) [
    | inl e ↦ rw (e, eq_of v node e) (inr (inr (In-here node order)))
    | inr e ↦ rw e (elim (h v) [
      | inl z ↦ inl z
      | inr r ↦ elim r [
        | inl (o, s) ↦ inr (inl (o, In-other v node (stack_ids stack) e s))
        | inr o ↦ inr (inr (In-there v node order o))
      ]
    ])
  ]

  -- What is visited stays visited.
  abbrev pub Keeps : VisitState → VisitState → Type 0
  Keeps before after = (v : Text) → before v ≢ 0 → after v ≢ 0

  pub put-Keeps : (node : Text) (n : ℕ) (state : VisitState) → Keeps state (put node (suc n) state)
  put-Keeps node n state v h = elim (Bool-cases (text_eq v node)) [
    | inl e ↦ rw e (λ c. cc)
    | inr e ↦ rw e h
  ]

  -- What a search that reports no cycle leaves.
  abbrev pub Leaves : VisitState → Outcome (VisitState ⊎ List Text) → Type 0
  Leaves before m =
      (after : VisitState)
      → m ≡ done (inl after)
      → (order : List Text) × IsSearch after [] order × Keeps before after

  done_state :
      (a b : VisitState)
      → Path (Outcome (VisitState ⊎ List Text)) (done (inl a)) (done (inl b))
      → a ≡ b
  done_state a b e = cc

  pop-IsSearch :
      (state : VisitState) (stack : List (Text × ℕ)) (order : List Text) (node : Text) (idx : ℕ)
      → get_elem? (deps node) idx ≡ none
      → IsSearch state ((node, idx) ∷ stack) order
      → IsSearch (put node 2 state) stack (node ∷ order)
  pop-IsSearch state stack order node idx e (a, (f, (h, later))) = (
    pop-AreStates state stack order node idx a,
    (
      (
        (λ u i. elim (h u (subst (In u) (sym (take_all idx (deps node) e)) i)) [
          | inl o ↦ o
          | inr c ↦ cc
        ]),
        f,
      ),
      IsStack-finish node order stack later,
    ),
  )

  push-IsSearch :
      (state : VisitState) (stack : List (Text × ℕ)) (order : List Text) (node dep : Text) (idx : ℕ)
      → get_elem? (deps node) idx ≡ some dep
      → IsSearch state ((node, idx) ∷ stack) order
      → IsSearch (put dep 1 state) ((dep, 0) ∷ (node, idx + 1) ∷ stack) order
  push-IsSearch state stack order node dep idx e (a, (f, st)) = (
    push-AreStates state ((node, idx) ∷ stack) ((dep, 0) ∷ (node, idx + 1) ∷ stack) order dep
        (λ v i. In-there v dep (node ∷ stack_ids stack) i) (In-here dep (node ∷ stack_ids stack)) a,
    (
      f,
      (
        (λ u i. absurd (In-nil u i)),
        IsStack-advance (some dep) order node dep idx stack e (inr refl) st,
      ),
    ),
  )

  -- A dependency that is neither unvisited nor in progress is finished.
  pass-IsSearch :
      (state : VisitState) (stack : List (Text × ℕ)) (order : List Text) (node dep : Text)
      (idx m : ℕ)
      → get_elem? (deps node) idx ≡ some dep
      → state dep ≡ suc (suc m)
      → IsSearch state ((node, idx) ∷ stack) order
      → IsSearch state ((node, idx + 1) ∷ stack) order
  pass-IsSearch state stack order node dep idx m e d (a, (f, st)) =
      (a, (f, IsStack-advance none order node dep idx stack e (inl finished) st))
    where
      finished : In dep order
      finished = elim (a dep) [
        | inl z ↦ absurd (omega arith)
        | inr r ↦ elim r [ inl (o, _) ↦ absurd (omega arith) | inr o ↦ o ]
      ]

  pub three_cases : (n : ℕ) → (n ≡ 0) ⊎ ((n ≡ 1) ⊎ ((m : ℕ) × (n ≡ suc (suc m))))
  three_cases zero = inl refl
  three_cases (suc zero) = inr (inl refl)
  three_cases (suc (suc m)) = inr (inr (m, refl))

  pub Leaves-Keeps :
      (before mid : VisitState) (m : Outcome (VisitState ⊎ List Text))
      → Keeps before mid
      → Leaves mid m
      → Leaves before m
  Leaves-Keeps before mid m k l after e =
      let (order, s, k2) = l after e in (order, s, λ v h. k2 v (k v h))

  pub search-Leaves :
      (fuel : ℕ) (state : VisitState) (stack : List (Text × ℕ)) (order : List Text)
      → IsSearch state stack order
      → Leaves state (search deps fuel state stack)
  unfolding search
  search-Leaves fuel state [] order h = λ after e.
      subst (λ st. (order : List Text) × IsSearch st [] order × Keeps state st)
        (done_state state after e) (order, h, λ v k. k)
  search-Leaves zero state (top ∷ stack) order h = λ after e. cc
  search-Leaves (suc fuel) state ((node, idx) ∷ stack) order h =
      elim (Option-cases (get_elem? (deps node) idx)) [
        | inl n ↦
            rw (search, n)
              (Leaves-Keeps state (put node 2 state) _ (put-Keeps node 1 state) (
                search-Leaves fuel (put node 2 state) stack (node ∷ order)
                  (pop-IsSearch state stack order node idx n h)))
        | inr (dep, d) ↦ elim (three_cases (state dep)) [
          | inl z ↦
              rw (search, d, z)
                (Leaves-Keeps state (put dep 1 state) _ (put-Keeps dep 0 state) (
                  search-Leaves fuel (put dep 1 state) ((dep, 0) ∷ (node, idx + 1) ∷ stack) order
                    (push-IsSearch state stack order node dep idx d h)))
          | inr r ↦ elim r [
            | inl o ↦ rw (search, d, o) (λ after e. cc)
            | inr (m, t) ↦
                rw (search, d, t)
                  (search-Leaves fuel state ((node, idx + 1) ∷ stack) order
                    (pass-IsSearch state stack order node dep idx m d t h))
          ]
        ]
      ]
