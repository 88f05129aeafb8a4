-- ===== src/Config/Dag/Plan.antt =====
-- config/dag.rs: what `build_execution_plan` gives.
use zymi_core.Prelude.{
  ℕ, zero, suc, ◌+◌, ◌≤◌, ◌<◌, ◌≡◌, refl, ap, ◌∙◌, ◌⊎◌, inl, inr, true, false, List, [], ◌∷◌, ◌++◌,
  ◌==◌, ltb, if◌then◌else◌, length, Outcome, done, Text, text_eq, arith, tests, lt→ltb, Bool-cases,
}
use zymi_core.Config.Error.{ConfigResult, ok, err, cyclic_dependency}
use zymi_core.Config.Pipeline.{PipelineStep, PipelineConfig}
use zymi_core.Config.Dag.{
  ExecutionPlan, contains_text, ids_of, step_ids, Graph, empty_graph, add_steps, run_levels,
  of_degree_zero, of_degree_positive, conclude_plan, plan_steps, build_plan, build_execution_plan,
}
use zymi_core.Config.Dag.Counts.{
  occurrences, occurrences-nil, occurrences-filter, total, total_increase, total-one, Sub,
  Sub-same_length, length-Sub,
}
use zymi_core.Config.Dag.Levels.{flatten, ready, ready-le, IsRun, IsLayered, run_levels-RunsTo}
use zymi_core.Config.Dag.Edges.{
  contains_text_lem, occurrences-if_so, step_ids-Once, step_ids-holds, needs, if_so, if_so-true,
  if_so-false, IsGraph, empty_graph-IsGraph, add_steps-IsGraph, add_steps-dependents,
}

reaches :
    (visited : ℕ) (final ids : List Text)
    → visited + 0 ≡ length final
    → (visited == length ids) ≡ true
    → length ids ≤ length final
reaches visited final ids l k = ground arith

falls_short :
    (visited : ℕ) (final ids : List Text)
    → visited + 0 ≡ length final
    → (visited == length ids) ≡ false
    → length final ≤ length ids
    → length final < length ids
falls_short visited final ids l k h = ground arith

-- Each step stands behind the levels of the steps that it lists, so far as these are steps.
abbrev pub IsOrdered : List PipelineStep → List Text → List (List Text) → Type 0
IsOrdered steps before [] = Unit
IsOrdered steps before (l ∷ ls) =
    ((v u : Text)
      → 0 < occurrences v l
      → 0 < needs steps v u
      → 0 < occurrences u (step_ids steps)
      → 0 < occurrences u before)
    × IsOrdered steps (before ++ l) ls

-- Every step stands in one level, once.
abbrev pub IsPlan : List PipelineStep → List (List Text) → Type 0
IsPlan steps levels =
    ((v : Text) → occurrences v (flatten levels) ≡ occurrences v (step_ids steps))
    × IsOrdered steps [] levels

-- Steps of which each lists one of them, itself or another: there is a first, and from any one goes
-- on without an end.
abbrev pub IsCyclic : List PipelineStep → List Text → Type 0
IsCyclic steps cycle =
    ((v : Text) × (0 < occurrences v cycle))
    × ((v : Text)
        → 0 < occurrences v cycle
        → (0 < occurrences v (step_ids steps))
          × ((u : Text) × (0 < occurrences u cycle) × (0 < needs steps v u)))

pub needs-listed :
    (steps : List PipelineStep) (v u : Text)
    → 0 < needs steps v u
    → 0 < occurrences v (ids_of steps)
unfolding needs
needs-listed [] v u h = absurd (omega arith)
needs-listed (s ∷ steps) v u h = elim (Bool-cases (text_eq v s.id)) [
  | inl e ↦ omega (arith, occurrences-if_so v s.id (ids_of steps), if_so-true (text_eq v s.id) 1 e)
  | inr e ↦ omega (
    arith,
    occurrences-if_so v s.id (ids_of steps),
    if_so-false (text_eq v s.id) (occurrences u s.depends_on) e,
    needs-listed steps v u
        (omega (arith, if_so-false (text_eq v s.id) (occurrences u s.depends_on) e)),
  )
]

ready-less : (d n : ℕ) → ready d n < n → 0 < d
unfolding ready
ready-less zero n h = absurd (omega arith)
ready-less (suc d) n h = omega arith

ready_test : (d n : ℕ) → (if d == 0 then n else 0) ≡ ready d n
unfolding ready
ready_test zero n = refl
ready_test (suc d) n = ground arith

module _ (steps : List PipelineStep) where
  abbrev ids : List Text
  ids = step_ids steps

  abbrev graph : Graph
  graph = add_steps ids steps empty_graph

  abbrev deps : Text → List Text
  deps = graph.dependents

  deps_lem : (v u : Text) → occurrences v (deps u) ≡ if_so (contains_text ids u) (needs steps v u)
  deps_lem v u = omega (arith, add_steps-dependents ids steps empty_graph v u, occurrences-nil v)

  needs_of : (v u : Text) → 0 < occurrences v (deps u) → 0 < needs steps v u
  needs_of v u h = elim (Bool-cases (contains_text ids u)) [
    | inl e ↦ omega (arith, deps_lem v u, if_so-true (contains_text ids u) (needs steps v u) e)
    | inr e ↦
        absurd (omega (arith, deps_lem v u, if_so-false (contains_text ids u) (needs steps v u) e))
  ]

  deps_of : (v u : Text) → 0 < needs steps v u → 0 < occurrences u ids → 0 < occurrences v (deps u)
  deps_of v u h k = omega (
    arith,
    deps_lem v u,
    if_so-true (contains_text ids u) (needs steps v u)
        (contains_text_lem ids u ∙ lt→ltb 0 (occurrences u ids) k),
  )

  known : (v : Text) → 0 < total (λ u. occurrences v (deps u)) ids → occurrences v ids ≡ 1
  unfolding total
  known v h =
      let (u, c, _) = total_increase (λ u. occurrences v (deps u)) [] ids h in
      omega (
        arith,
        step_ids-Once steps v,
        step_ids-holds steps v (needs-listed steps v u (needs_of v u c)),
      )

  graph-IsGraph : IsGraph ids graph
  graph-IsGraph =
      add_steps-IsGraph ids steps empty_graph (step_ids-Once steps) (empty_graph-IsGraph ids)

  IsLayered-IsOrdered :
      (before : List Text) (levels : List (List Text))
      → IsLayered ids deps before levels
      → IsOrdered steps before levels
  IsLayered-IsOrdered before [] h = tt
  IsLayered-IsOrdered before (l ∷ ls) (h, later) =
      ((λ v u i n k. h v u i (deps_of v u n k) k), IsLayered-IsOrdered (before ++ l) ls later)

  -- The degrees at the end, where the nodes of `final` are taken out and no more have degree 0.
  module _ (final : List Text) (last : Text → ℕ) (run : IsRun ids deps final [] last) where
    left_over : (v : Text) → occurrences v final ≡ ready (last v) (occurrences v ids)
    left_over v = omega (arith, (run.1) v, occurrences-nil v)

    final-Sub : Sub final ids
    final-Sub v = omega (arith, left_over v, ready-le (last v) (occurrences v ids))

    -- What is not taken out has a degree left.
    has_degree : (u : Text) → occurrences u final < occurrences u ids → 0 < last u
    has_degree u h = ready-less (last u) (occurrences u ids) (omega (arith, left_over u))

    module _ (iterate : List Text → List Text)
        (it : (xs : List Text) (v : Text) → occurrences v (iterate xs) ≡ occurrences v xs) where
      abbrev rest : List Text
      rest = of_degree_positive last (iterate ids)

      rest_lem :
          (u : Text)
          → occurrences u rest ≡ (if ltb 0 (last u) then occurrences u (iterate ids) else 0)
      unfolding of_degree_positive
      rest_lem u = occurrences-filter (λ x. ltb 0 (last x)) u (iterate ids)

      in_rest : (u : Text) → occurrences u final < occurrences u ids → 0 < occurrences u rest
      in_rest u h = omega (arith, it ids u, rw (lt→ltb 0 (last u) (has_degree u h)) at (rest_lem u))

      of_rest : (u : Text) → 0 < occurrences u rest → (0 < last u) × (0 < occurrences u ids)
      of_rest u h = elim (Bool-cases (ltb 0 (last u))) [
        | inl e ↦ (omega tests, omega (arith, it ids u, rw e at (rest_lem u)))
        | inr e ↦ absurd (omega (arith, rw e at (rest_lem u)))
      ]

      rest-IsCyclic : length final < length ids → IsCyclic steps rest
      rest-IsCyclic h =
          let (u, _, l) =
            total_increase (λ _. 1) final ids (omega (arith, total-one final, total-one ids)) in
          (
            (u, in_rest u l),
            λ v k.
                let (d, i) = of_rest v k in
                let (w, c, m) =
                  total_increase (λ x. occurrences v (deps x)) final ids
                    (omega (arith, (run.0) v)) in
                (i, (w, in_rest w m, needs_of v w c)),
          )

module _ (iterate : List Text → List Text)
    (it : (xs : List Text) (v : Text) → occurrences v (iterate xs) ≡ occurrences v xs) where
  -- The queue before the first level.
  first-IsRun :
      (steps : List PipelineStep)
      → IsRun
          (step_ids steps)
          (deps steps)
          []
          (of_degree_zero (graph steps).in_degree (iterate (step_ids steps)))
          (graph steps).in_degree
  unfolding of_degree_zero total
  first-IsRun steps =
      let g = graph steps in
      (
        (λ v. omega (arith, graph-IsGraph steps v)),
        λ v. omega (
          arith,
          occurrences-nil v,
          it (step_ids steps) v,
          occurrences-filter (λ x. g.in_degree x == 0) v (iterate (step_ids steps)),
          ready_test (g.in_degree v) (occurrences v (iterate (step_ids steps))),
          ap (ready (g.in_degree v)) (it (step_ids steps) v),
        ),
      )

  -- A plan of the steps, or an error with steps that go round.
  abbrev pub IsPlanned : Text → List PipelineStep → Outcome (ConfigResult ExecutionPlan) → Type 0
  IsPlanned name steps m =
      ((levels : List (List Text)) × (m ≡ done (ok (record { levels = levels })))
        × IsPlan steps levels)
      ⊎ ((cycle : List Text) × (m ≡ done (err (cyclic_dependency name cycle)))
          × IsCyclic steps cycle)

  -- How the loop's result is concluded.
  module _ (name : Text) (node_ids : List Text) (g : Graph) (levels : List (List Text))
      (visited : ℕ) (last : Text → ℕ)
      (e : run_levels
          (suc (length node_ids))
          g.dependents
          (of_degree_zero g.in_degree (iterate node_ids))
          g.in_degree
        ≡ done (levels, visited, last)) where
    all_visited :
        (visited == length node_ids) ≡ true
        → plan_steps iterate name node_ids g ≡ done (ok (record { levels = levels }))
    unfolding plan_steps conclude_plan run_levels of_degree_zero of_degree_positive
    all_visited k = rw (e, k) refl

    some_left :
        (visited == length node_ids) ≡ false
        → plan_steps iterate name node_ids g
          ≡ done (err (cyclic_dependency name (of_degree_positive last (iterate node_ids))))
    unfolding plan_steps conclude_plan run_levels of_degree_zero of_degree_positive
    some_left k = rw (e, k) refl

  plan_steps-IsPlanned :
      (name : Text) (steps : List PipelineStep)
      → IsPlanned name steps (plan_steps iterate name (step_ids steps) (graph steps))
  plan_steps-IsPlanned name steps =
      let node_ids = step_ids steps in
      let g = graph steps in
      let (levels, visited, last, final, e, run, l, layered, o) =
        run_levels-RunsTo node_ids g.dependents (step_ids-Once steps) (known steps)
          (suc (length node_ids)) [] (of_degree_zero g.in_degree (iterate node_ids)) g.in_degree
          (first-IsRun steps) (omega arith) in
      let held = final-Sub steps final last run in
      elim (Bool-cases (visited == length node_ids)) [
        | inl k ↦ inl (
          levels,
          all_visited name node_ids g levels visited last e k,
          (
            (λ v. omega (
              arith,
              o v,
              occurrences-nil v,
              Sub-same_length final node_ids held (reaches visited final node_ids l k) v,
            )),
            IsLayered-IsOrdered steps [] levels layered,
          ),
        )
        | inr k ↦ inr (
          of_degree_positive last (iterate node_ids),
          some_left name node_ids g levels visited last e k,
          rest-IsCyclic steps final last run iterate it
              (falls_short visited final node_ids l k (length-Sub final node_ids held)),
        )
      ]

  -- Of every pipeline it builds a plan in which each step stands once, in a level behind the levels
  -- of all steps that it depends on; or it reports a cycle, and then each of the steps reported, of
  -- which there is one at least, depends on one of them, which may be itself. It neither panics nor
  -- runs on. Step ids may be repeated and dependencies unknown: a step is an id, and an unknown id is passed over.
  pub build_execution_plan-IsPlanned :
      (pipeline : PipelineConfig)
      → IsPlanned pipeline.name pipeline.steps (build_execution_plan iterate pipeline)
  unfolding build_execution_plan build_plan step_ids
  build_execution_plan-IsPlanned pipeline = go pipeline.name pipeline.steps
    where
      go :
          (name : Text) (steps : List PipelineStep)
          → IsPlanned name steps (build_plan iterate name steps)
      go name [] = inl ([], refl, ((λ v. refl), tt))
      go name (s ∷ steps) = plan_steps-IsPlanned name (s ∷ steps)
