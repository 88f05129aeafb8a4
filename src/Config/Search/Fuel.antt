-- ===== src/Config/Search/Fuel.antt =====
-- config/validate.rs: the search for a cycle ends within its fuel.
use zymi_core.Prelude.{
  ℕ, zero, suc, ◌+◌, ◌-◌, ◌≤◌, ◌<◌, ◌≡◌, refl, sym, subst, ◌∙◌, ◌⊎◌, inl, inr, false, Option, some,
  List, [], ◌∷◌, ◌++◌, ◌==◌, get_elem?, length, Outcome, done, ◌>>=◌, Text, text_eq, arith,
  Bool-cases, Option-cases,
}
use zymi_core.Config.Error.{ConfigResult}
use zymi_core.Config.Pipeline.{PipelineStep, PipelineConfig}
use zymi_core.Config.Dag.{put, ids_of, filter}
use zymi_core.Config.Dag.Counts.{
  occurrences, occurrences-nil, occurrences-cons, occurrences_self, occurrences-append,
  occurrences-filter, total, total-Sub, Sub, eq_of, text_eq_refl,
}
use zymi_core.Config.Search.{
  VisitState, search, follow, search_all, adj, deps_of, listed, search_fuel, concluded,
  validate_pipeline_dag,
}
use zymi_core.Config.Search.Finished.{In, In-here, In-there, In-cases, three_cases}

get_elem?-In :
    (xs : List Text) (i : ℕ) (d : Text) → get_elem? xs i ≡ some d → (i < length xs) × In d xs
get_elem?-In [] i d e = cc
get_elem?-In (x ∷ xs) zero d e =
    (omega arith, subst (λ y. In y (x ∷ xs)) (same x d e) (In-here x xs))
  where
    same : (x d : Text) → Path (Option Text) (some x) (some d) → x ≡ d
    same x d e = cc
get_elem?-In (x ∷ xs) (suc i) d e =
    let (l, m) = get_elem?-In xs i d e in (omega arith, In-there d x xs m)

suc_not_zero : (n : ℕ) → (suc n == 0) ≡ false
suc_not_zero n = ground arith

module _ (deps : Text → List Text) (universe : List Text)
    (closed : (v u : Text) → In u (deps v) → In u universe) where
  abbrev weight : Text → ℕ
  weight v = length (deps v) + 2

  abbrev unvisited : VisitState → List Text
  unvisited state = filter (λ v. state v == 0) universe

  left : VisitState → ℕ
  left state = total weight (unvisited state)

  occurrences-visited :
      (state : VisitState) (d : Text) (n : ℕ) → occurrences d (unvisited (put d (suc n) state)) ≡ 0
  occurrences-visited state d n =
      rw (text_eq_refl d, suc_not_zero n) at
        (occurrences-filter (λ v. put d (suc n) state v == 0) d universe)

  occurrences-other :
      (state : VisitState) (d v : Text) (n : ℕ)
      → text_eq v d ≡ false
      → occurrences v (unvisited (put d n state)) ≡ occurrences v (unvisited state)
  occurrences-other state d v n e =
      (rw e at (occurrences-filter (λ x. put d n state x == 0) v universe))
      ∙ sym (occurrences-filter (λ x. state x == 0) v universe)

  occurrences-unvisited :
      (state : VisitState) (d : Text)
      → state d ≡ 0
      → occurrences d (unvisited state) ≡ occurrences d universe
  occurrences-unvisited state d z = rw z at (occurrences-filter (λ x. state x == 0) d universe)

  -- A node is visited, for the first time or again.
  first_visit :
      (state : VisitState) (d : Text) (n : ℕ)
      → In d universe
      → state d ≡ 0
      → Sub (d ∷ unvisited (put d (suc n) state)) (unvisited state)
  first_visit state d n i z v = elim (Bool-cases (text_eq v d)) [
    | inl e ↦ rw (eq_of v d e) (
        omega (
          arith,
          occurrences_self d (unvisited (put d (suc n) state)),
          occurrences-visited state d n,
          occurrences-unvisited state d z,
        ))
    | inr e ↦ omega (
      arith,
      rw e at (occurrences-cons v d (unvisited (put d (suc n) state))),
      occurrences-other state d v (suc n) e,
    )
  ]

  any_visit :
      (state : VisitState) (d : Text) (n : ℕ)
      → Sub (unvisited (put d (suc n) state)) (unvisited state)
  any_visit state d n v = elim (Bool-cases (text_eq v d)) [
    | inl e ↦ rw (eq_of v d e) (omega (arith, occurrences-visited state d n))
    | inr e ↦ omega (arith, occurrences-other state d v (suc n) e)
  ]

  left-first :
      (state : VisitState) (d : Text) (n : ℕ)
      → In d universe
      → state d ≡ 0
      → weight d + left (put d (suc n) state) ≤ left state
  unfolding total left
  left-first state d n i z =
      total-Sub weight (d ∷ unvisited (put d (suc n) state)) (unvisited state)
        (first_visit state d n i z)

  left-any : (state : VisitState) (d : Text) (n : ℕ) → left (put d (suc n) state) ≤ left state
  unfolding left
  left-any state d n =
      total-Sub weight (unvisited (put d (suc n) state)) (unvisited state) (any_visit state d n)

  -- What is to be done for the entries of the stack.
  load : List (Text × ℕ) → ℕ
  load [] = 0
  load ((node, idx) ∷ stack) = suc (length (deps node) - idx) + load stack

  unfoldable IsDone : Outcome (VisitState ⊎ List Text) → Type 0
  IsDone m = (r : VisitState ⊎ List Text) × (m ≡ done r)

  search-IsDone :
      (fuel : ℕ) (state : VisitState) (stack : List (Text × ℕ))
      → left state + load stack ≤ fuel
      → IsDone (search deps fuel state stack)
  unfolding search load IsDone
  search-IsDone fuel state [] h = (inl state, refl)
  search-IsDone zero state ((node, idx) ∷ stack) h = absurd (omega arith)
  search-IsDone (suc fuel) state ((node, idx) ∷ stack) h =
      elim (Option-cases (get_elem? (deps node) idx)) [
        | inl n ↦
            rw (search, n)
              (search-IsDone fuel (put node 2 state) stack (omega (arith, left-any state node 1)))
        | inr (dep, d) ↦
            let (l, i) = get_elem?-In (deps node) idx dep d in
            elim (three_cases deps (state dep)) [
              | inl z ↦
                  rw (search, d, z)
                    (search-IsDone fuel (put dep 1 state) ((dep, 0) ∷ (node, idx + 1) ∷ stack)
                      (omega (arith, left-first state dep 0 (closed node dep i) z)))
              | inr r ↦ elim r [
                | inl o ↦ rw (search, d, o) (_, refl)
                | inr (m, t) ↦
                    rw (search, d, t)
                      (search-IsDone fuel state ((node, idx + 1) ∷ stack) (omega arith))
              ]
            ]
      ]

  -- A single text that occurs.
  single-Sub : (d : Text) → In d universe → Sub (d ∷ []) universe
  single-Sub d i v = elim (Bool-cases (text_eq v d)) [
    | inl e ↦ rw (eq_of v d e) (omega (arith, occurrences_self d [], occurrences-nil d))
    | inr e ↦ omega (arith, rw e at (occurrences-cons v d []), occurrences-nil v)
  ]

  unvisited-Sub : (state : VisitState) → Sub (unvisited state) universe
  unvisited-Sub state v = elim (Bool-cases (state v == 0)) [
    | inl e ↦ omega (arith, rw e at (occurrences-filter (λ x. state x == 0) v universe))
    | inr e ↦ omega (arith, rw e at (occurrences-filter (λ x. state x == 0) v universe))
  ]

  -- The search from one step has fuel enough.
  start-fuel :
      (state : VisitState) (start : Text)
      → In start universe
      → left state + load ((start, 0) ∷ []) ≤ total weight universe + total weight universe
  unfolding left load total
  start-fuel state start i = omega (
    arith,
    total-Sub weight (unvisited state) universe (unvisited-Sub state),
    total-Sub weight (start ∷ []) universe (single-Sub start i),
  )

  follow-IsDone :
      (m : Outcome (VisitState ⊎ List Text)) (f : VisitState → Outcome (VisitState ⊎ List Text))
      → IsDone m
      → ((st : VisitState) → IsDone (f st))
      → IsDone (m >>= follow f)
  unfolding IsDone
  follow-IsDone m f (inl st, e) h = rw e (h st)
  follow-IsDone m f (inr cycle, e) h = rw e (inr cycle, refl)

  search_all-IsDone :
      (fuel : ℕ) (state : VisitState) (starts : List Text)
      → total weight universe + total weight universe ≤ fuel
      → ((v : Text) → In v starts → In v universe)
      → IsDone (search_all deps fuel state starts)
  unfolding search_all IsDone
  search_all-IsDone fuel state [] h k = (inl state, refl)
  search_all-IsDone fuel state (start ∷ starts) h k =
      let later = λ (st : VisitState).
        search_all-IsDone fuel st starts h (λ v i. k v (In-there v start starts i)) in
      let visit =
        follow-IsDone (search deps fuel (put start 1 state) ((start, 0) ∷ []))
          (λ st. search_all deps fuel st starts)
          (search-IsDone fuel (put start 1 state) ((start, 0) ∷ [])
            (omega (arith, start-fuel (put start 1 state) start (k start (In-here start starts)))))
          later in
      elim (three_cases deps (state start)) [
        | inl z ↦ rw (search_all, z) visit
        | inr r ↦ elim r [
          | inl o ↦ rw (search_all, o) visit
          | inr (m, t) ↦ rw (search_all, t) (later state)
        ]
      ]

ids_listed : (steps : List PipelineStep) (v : Text) → In v (ids_of steps) → In v (listed steps)
unfolding listed
ids_listed [] v i = i
ids_listed (s ∷ steps) v i = elim (In-cases v s.id (ids_of steps) i) [
  | inl e ↦ rw e (In-here s.id (s.depends_on ++ listed steps))
  | inr o ↦
      In-there v s.id (s.depends_on ++ listed steps)
        (omega (arith, occurrences-append v s.depends_on (listed steps), ids_listed steps v o))
]

deps_of-cons :
    (s : PipelineStep) (steps : List PipelineStep) (v : Text)
    → (deps_of (s ∷ steps) v ≡ deps_of steps v) ⊎ (deps_of (s ∷ steps) v ≡ s.depends_on)
unfolding deps_of adj
deps_of-cons s steps v = elim (Option-cases (adj steps v)) [
  | inr (d, a) ↦ inl (rw (deps_of, adj, a) refl)
  | inl n ↦ elim (Bool-cases (text_eq s.id v)) [
    | inl e ↦ inr (rw (deps_of, adj, n, e) refl)
    | inr e ↦ inl (rw (deps_of, adj, n, e) refl)
  ]
]

deps_listed :
    (steps : List PipelineStep) (v u : Text) → In u (deps_of steps v) → In u (listed steps)
unfolding listed deps_of adj
deps_listed [] v u i = i
deps_listed (s ∷ steps) v u i = elim (deps_of-cons s steps v) [
  | inl e ↦ In-there u s.id (s.depends_on ++ listed steps) (
      omega (
        arith,
        occurrences-append u s.depends_on (listed steps),
        deps_listed steps v u (subst (In u) e i),
      ))
  | inr e ↦
      In-there u s.id (s.depends_on ++ listed steps)
        (omega (arith, occurrences-append u s.depends_on (listed steps), subst (In u) e i))
]

-- Whatever the steps, the search for a cycle ends: its fuel suffices.
pub validate_pipeline_dag-IsDone :
    (pipeline : PipelineConfig)
    → (r : ConfigResult (Unit {0})) × (validate_pipeline_dag pipeline ≡ done r)
unfolding validate_pipeline_dag search_fuel IsDone
validate_pipeline_dag-IsDone pipeline =
    let steps = pipeline.steps in
    let deps = deps_of steps in
    let (r, e) =
      search_all-IsDone deps (listed steps) (deps_listed steps) (search_fuel steps) (λ _. 0)
        (ids_of steps) (omega arith) (ids_listed steps) in
    (concluded pipeline.name r, rw e refl)
