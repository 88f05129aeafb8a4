-- ===== src/Config/Search/Accepted.antt =====
-- config/validate.rs and config/dag.rs: a pipeline that the search accepts gets a plan.
use zymi_core.Prelude.{
  ℕ, ◌<◌, ◌≡◌, ◌≢◌, refl, sym, subst, ◌⊎◌, inl, inr, true, false, none, List, [], ◌∷◌, Outcome,
  done, fault, ◌>>=◌, Text, text_eq, arith, ltb, ltb→lt, Bool-cases, Option-cases,
}
use zymi_core.Config.Error.{ok}
use zymi_core.Config.Pipeline.{PipelineStep, PipelineConfig}
use zymi_core.Config.Dag.{put, ids_of, build_execution_plan}
use zymi_core.Config.Dag.Counts.{occurrences, text_eq_refl}
use zymi_core.Config.Dag.Edges.{
  Once, needs, if_so-true, if_so-false, occurrences-if_so, text_eq_sym,
}
use zymi_core.Config.Dag.Plan.{IsPlan, build_execution_plan-IsPlanned, needs-listed}
use zymi_core.Config.Search.{
  VisitState, search, follow, search_all, adj, deps_of, search_fuel, concluded,
  validate_pipeline_dag,
}
use zymi_core.Config.Search.Finished.{
  In, In-here, In-cases, In-nil, IsFinished, IsSearch, push-AreStates, Keeps, put-Keeps, Leaves,
  search-Leaves, three_cases,
}

put_self : (v : Text) (n : ℕ) (state : VisitState) → put v n state v ≡ n
put_self v n state = rw (text_eq_refl v) refl

not_positive : (n : ℕ) → ltb 0 n ≡ false → n ≡ 0
not_positive n h = ground arith

module _ (deps : Text → List Text) where
  start-IsSearch :
      (state : VisitState) (order : List Text) (start : Text)
      → IsSearch deps state [] order
      → IsSearch deps (put start 1 state) ((start, 0) ∷ []) order
  start-IsSearch state order start (a, (f, _)) = (
    push-AreStates deps state [] ((start, 0) ∷ []) order start (λ v i. absurd (In-nil v i))
        (In-here start []) a,
    (f, ((λ u i. absurd (In-nil u i)), tt)),
  )

  -- A search of all steps that reports no cycle has visited each.
  abbrev LeavesAll : List Text → VisitState → Outcome (VisitState ⊎ List Text) → Type 0
  LeavesAll starts before m =
      (after : VisitState)
      → m ≡ done (inl after)
      → (order : List Text) × IsSearch deps after [] order
        × Keeps deps before after
        × ((v : Text) → In v starts → after v ≢ 0)

  cons-LeavesAll :
      (start : Text) (starts : List Text) (before mid : VisitState)
      (m : Outcome (VisitState ⊎ List Text))
      → Keeps deps before mid
      → mid start ≢ 0
      → LeavesAll starts mid m
      → LeavesAll (start ∷ starts) before m
  cons-LeavesAll start starts before mid m k n l after e =
      let (order, s, k2, visited) = l after e in
      (
        order,
        s,
        (λ v h. k2 v (k v h)),
        λ v i. elim (In-cases v start starts i) [ inl c ↦ rw c (k2 start n) | inr o ↦ visited v o ],
      )

  follow-LeavesAll :
      (start : Text) (starts : List Text) (before mid : VisitState)
      (m : Outcome (VisitState ⊎ List Text)) (f : VisitState → Outcome (VisitState ⊎ List Text))
      → Keeps deps before mid
      → mid start ≢ 0
      → Leaves deps mid m
      → ((state : VisitState) (order : List Text)
          → IsSearch deps state [] order
          → LeavesAll starts state (f state))
      → LeavesAll (start ∷ starts) before (m >>= follow f)
  follow-LeavesAll start starts before mid (done (inl state)) f k n l g =
      let (order, s, k2) = l state refl in
      cons-LeavesAll start starts before state (f state) (λ v h. k2 v (k v h)) (k2 start n)
        (g state order s)
  follow-LeavesAll start starts before mid (done (inr cycle)) f k n l g = λ after e. cc
  follow-LeavesAll start starts before mid (fault x) f k n l g = λ after e. cc

  same_state :
      (a b : VisitState)
      → Path (Outcome (VisitState ⊎ List Text)) (done (inl a)) (done (inl b))
      → a ≡ b
  same_state a b e = cc

  -- The search from one step, and then from the others.
  visit-LeavesAll :
      (fuel : ℕ) (state : VisitState) (start : Text) (starts order : List Text)
      → IsSearch deps state [] order
      → ((st : VisitState) (o : List Text)
          → IsSearch deps st [] o
          → LeavesAll starts st (search_all deps fuel st starts))
      → LeavesAll (start ∷ starts) state (
          search deps fuel (put start 1 state) ((start, 0) ∷ [])
          >>= follow (λ st. search_all deps fuel st starts))
  visit-LeavesAll fuel state start starts order h later =
      follow-LeavesAll start starts state (put start 1 state)
        (search deps fuel (put start 1 state) ((start, 0) ∷ []))
        (λ st. search_all deps fuel st starts) (put-Keeps deps start 0 state)
        (λ c. absurd (omega (arith, put_self start 1 state)))
        (search-Leaves deps fuel (put start 1 state) ((start, 0) ∷ []) order
          (start-IsSearch state order start h))
        later

  search_all-LeavesAll :
      (fuel : ℕ) (state : VisitState) (starts order : List Text)
      → IsSearch deps state [] order
      → LeavesAll starts state (search_all deps fuel state starts)
  unfolding search_all
  search_all-LeavesAll fuel state [] order h = λ after e.
      subst
        (λ st.
          (order : List Text) × IsSearch deps st [] order
          × Keeps deps state st
          × ((v : Text) → In v [] → st v ≢ 0))
        (same_state state after e) (order, h, (λ v k. k), λ v i. absurd (In-nil v i))
  search_all-LeavesAll fuel state (start ∷ starts) order h = elim (three_cases deps (state start)) [
    | inl z ↦
        rw (search_all, z)
          (visit-LeavesAll fuel state start starts order h
            (λ st o k. search_all-LeavesAll fuel st starts o k))
    | inr r ↦ elim r [
      | inl o ↦
          rw (search_all, o)
            (visit-LeavesAll fuel state start starts order h
              (λ st o k. search_all-LeavesAll fuel st starts o k))
      | inr (m, t) ↦
          rw (search_all, t)
            (cons-LeavesAll start starts state state _ (λ v k. k) (λ c. absurd (omega arith))
              (search_all-LeavesAll fuel state starts order h))
    ]
  ]

  -- No node of a finished order is among nodes of which each depends on another of them.
  finished-NotCyclic :
      (order cycle : List Text)
      → IsFinished deps order
      → ((v : Text) → In v cycle → (u : Text) × In u cycle × In u (deps v))
      → (v : Text) → In v order
      → ¬ In v cycle
  finished-NotCyclic [] cycle h c v i j = In-nil v i
  finished-NotCyclic (x ∷ order) cycle (h, later) c v i j = elim (In-cases v x order i) [
    | inr o ↦ finished-NotCyclic order cycle later c v o j
    | inl e ↦
        let (u, k, d) = c x (subst (λ w. In w cycle) e j) in
        finished-NotCyclic order cycle later c u (h u d) k
  ]

not_listed :
    (steps : List PipelineStep) (v : Text) → occurrences v (ids_of steps) ≡ 0 → adj steps v ≡ none
unfolding adj
not_listed [] v h = refl
not_listed (s ∷ steps) v h = elim (Bool-cases (text_eq v s.id)) [
  | inl e ↦
      absurd
        (omega (arith, occurrences-if_so v s.id (ids_of steps), if_so-true (text_eq v s.id) 1 e))
  | inr e ↦
      rw
        (
          not_listed steps v (omega (arith, occurrences-if_so v s.id (ids_of steps))),
          text_eq_sym s.id v,
          e,
        )
        refl
]

-- The first step of an id, and any other.
deps_of-here :
    (s : PipelineStep) (steps : List PipelineStep) (v : Text)
    → text_eq v s.id ≡ true
    → occurrences v (ids_of steps) ≡ 0
    → deps_of (s ∷ steps) v ≡ s.depends_on
unfolding deps_of adj
deps_of-here s steps v e n = rw (deps_of, adj, not_listed steps v n, text_eq_sym s.id v, e) refl

deps_of-there :
    (s : PipelineStep) (steps : List PipelineStep) (v : Text)
    → text_eq v s.id ≡ false
    → deps_of (s ∷ steps) v ≡ deps_of steps v
unfolding deps_of adj
deps_of-there s steps v e = elim (Option-cases (adj steps v)) [
  | inl n ↦ rw (deps_of, adj, n, text_eq_sym s.id v, e) refl
  | inr (d, a) ↦ rw (deps_of, adj, a) refl
]

listed-Once :
    (s : PipelineStep) (steps : List PipelineStep) (v : Text)
    → Once (ids_of (s ∷ steps))
    → text_eq v s.id ≡ true
    → occurrences v (ids_of steps) ≡ 0
listed-Once s steps v o e =
    omega (arith, o v, occurrences-if_so v s.id (ids_of steps), if_so-true (text_eq v s.id) 1 e)

-- Where no id is repeated, the search follows the dependencies.
needs-deps_of :
    (steps : List PipelineStep)
    → Once (ids_of steps)
    → (v u : Text) → 0 < needs steps v u
    → In u (deps_of steps v)
unfolding needs
needs-deps_of [] o v u h = absurd (omega arith)
needs-deps_of (s ∷ steps) o v u h = elim (Bool-cases (text_eq v s.id)) [
  | inl e ↦
      let none_later = listed-Once s steps v o e in
      subst (In u) (sym (deps_of-here s steps v e none_later))
        (elim (Bool-cases (ltb 0 (needs steps v u))) [
          | inl l ↦ absurd (omega (arith, needs-listed steps v u (ltb→lt 0 (needs steps v u) l)))
          | inr l ↦ omega (
            arith,
            if_so-true (text_eq v s.id) (occurrences u s.depends_on) e,
            not_positive (needs steps v u) l,
          )
        ])
  | inr e ↦ subst (In u) (sym (deps_of-there s steps v e)) (
      needs-deps_of steps (λ w. omega (arith, o w, occurrences-if_so w s.id (ids_of steps))) v u
        (omega (arith, if_so-false (text_eq v s.id) (occurrences u s.depends_on) e)))
]

accepted_search :
    (name : Text) (m : Outcome (VisitState ⊎ List Text))
    → (m >>= λ r. done (concluded name r)) ≡ done (ok tt)
    → (after : VisitState) × (m ≡ done (inl after))
accepted_search name (done (inl after)) e = (after, refl)
accepted_search name (done (inr cycle)) e = cc
accepted_search name (fault x) e = cc

-- What is visited at the end of a search is finished.
visited-In :
    (deps : Text → List Text) (after : VisitState) (order : List Text) (v : Text)
    → IsSearch deps after [] order
    → after v ≢ 0
    → In v order
visited-In deps after order v (a, _) n = elim (a v) [
  | inl z ↦ absurd (n z)
  | inr r ↦ elim r [ inl (_, i) ↦ absurd (In-nil v i) | inr o ↦ o ]
]

-- A pipeline in which no id is repeated and that the search accepts gets a plan.
pub validate_pipeline_dag-IsPlan :
    (iterate : List Text → List Text)
    → ((xs : List Text) (v : Text) → occurrences v (iterate xs) ≡ occurrences v xs)
    → (pipeline : PipelineConfig) → Once (ids_of pipeline.steps)
    → validate_pipeline_dag pipeline ≡ done (ok tt)
    → (levels : List (List Text)) × (build_execution_plan iterate pipeline
        ≡ done (ok (record { levels = levels })))
      × IsPlan pipeline.steps levels
unfolding validate_pipeline_dag
validate_pipeline_dag-IsPlan iterate it pipeline o h =
    elim (build_execution_plan-IsPlanned iterate it pipeline) [
      | inl p ↦ p
      | inr (cycle, _, ((v, i), c)) ↦
          let steps = pipeline.steps in
          let deps = deps_of steps in
          let (after, e) =
            accepted_search pipeline.name
              (search_all deps (search_fuel steps) (λ _. 0) (ids_of steps)) h in
          let (order, s, _, visited) =
            search_all-LeavesAll deps (search_fuel steps) (λ _. 0) (ids_of steps) []
              ((λ w. inl refl), (tt, tt)) after e in
          let listed_in = λ (w : Text) (k : In w cycle).
            let (_, (u, _, n)) = c w k in
            visited-In deps after order w s (visited w (needs-listed steps w u n)) in
          absurd (
            finished-NotCyclic deps order cycle (s.1.0)
              (λ w k. let (_, (u, j, n)) = c w k in (u, j, needs-deps_of steps o w u n)) v
              (listed_in v i) i)
    ]
