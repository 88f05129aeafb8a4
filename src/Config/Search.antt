-- ===== src/Config/Search.antt =====
-- config/validate.rs, `validate_pipeline_dag`: the search for a cycle, depth first, with a stack.
pub mod Finished
pub mod Accepted
pub mod Fuel
use zymi_core.Prelude.{
  ℕ, zero, suc, ◌+◌, Option, none, some, List, [], ◌∷◌, ◌++◌, if◌then◌else◌, get_elem?, ◌⊎◌, inl,
  inr, reverse, length, Outcome, done, fault, out_of_fuel, ◌>>=◌, Text, text_eq,
}
use zymi_core.Config.Error.{ConfigResult, ok, err, cyclic_dependency}
use zymi_core.Config.Pipeline.{PipelineStep, PipelineConfig}
use zymi_core.Config.Dag.{ids_of, put}
use zymi_core.Config.Dag.Counts.{total}

-- `adj.get(id)`: a later step takes the place of an earlier one of the same id.
unfoldable pub adj : List PipelineStep → Text → Option (List Text)
adj [] id = none
adj (s ∷ steps) id = elim (adj steps id) [
  | some deps ↦ some deps
  | none ↦ if text_eq s.id id then some s.depends_on else none
]

unfoldable pub deps_of : List PipelineStep → Text → List Text
unfolding adj
deps_of steps id = elim (adj steps id) [ none ↦ [] | some deps ↦ deps ]

-- `skip_while(|id| id != dep)`
unfoldable pub skip_to : Text → List Text → List Text
skip_to dep [] = []
skip_to dep (id ∷ ids) = if text_eq id dep then id ∷ ids else skip_to dep ids

abbrev pub stack_ids : List (Text × ℕ) → List Text
stack_ids [] = []
stack_ids ((id, idx) ∷ stack) = id ∷ stack_ids stack

-- The states: 0 unvisited, 1 in progress, 2 done.
abbrev pub VisitState : Type 0
VisitState = Text → ℕ

-- The loop over the stack, with its top first, on fuel: the states, or the path of a cycle.
unfoldable pub search :
    (Text → List Text) → ℕ → VisitState → List (Text × ℕ) → Outcome (VisitState ⊎ List Text)
unfolding skip_to
search deps fuel state [] = done (inl state)
search deps zero state (top ∷ stack) = fault out_of_fuel
search deps (suc fuel) state ((node, idx) ∷ stack) =
    let advanced = (node, idx + 1) ∷ stack in
    elim (get_elem? (deps node) idx) [
      | none ↦ search deps fuel (put node 2 state) stack
      | some dep ↦ elim (state dep) [
        | zero ↦ search deps fuel (put dep 1 state) ((dep, 0) ∷ advanced)
        | suc n ↦ elim n [
          | zero ↦ done (inr (skip_to dep (reverse (stack_ids advanced))))
          | suc m ↦ search deps fuel state advanced
        ]
      ]
    ]

-- A cycle ends the loop over the steps.
abbrev pub follow :
    (VisitState → Outcome (VisitState ⊎ List Text))
    → VisitState ⊎ List Text
    → Outcome (VisitState ⊎ List Text)
follow f (inl state) = f state
follow f (inr cycle) = done (inr cycle)

-- The loop over the steps; only a step that is done is passed over.
unfoldable pub search_all :
    (Text → List Text) → ℕ → VisitState → List Text → Outcome (VisitState ⊎ List Text)
unfolding search
search_all deps fuel state [] = done (inl state)
search_all deps fuel state (start ∷ starts) = elim (state start) [
  | suc (suc n) ↦ search_all deps fuel state starts
  | _ ↦
      search deps fuel (put start 1 state) ((start, 0) ∷ [])
      >>= follow (λ state. search_all deps fuel state starts)
]

abbrev pub concluded : Text → VisitState ⊎ List Text → ConfigResult (Unit {0})
concluded name (inl state) = ok tt
concluded name (inr cycle) = err (cyclic_dependency name cycle)

-- Whatever the search can meet.
unfoldable pub listed : List PipelineStep → List Text
listed [] = []
listed (s ∷ steps) = s.id ∷ s.depends_on ++ listed steps

-- Every round passes over a dependency of a node, or takes the node off the stack.
unfoldable pub search_fuel : List PipelineStep → ℕ
unfolding deps_of listed
search_fuel steps =
    let weight = total (λ v. length (deps_of steps v) + 2) (listed steps) in weight + weight

unfoldable pub validate_pipeline_dag : PipelineConfig → Outcome (ConfigResult (Unit {0}))
unfolding deps_of search_all search_fuel
validate_pipeline_dag pipeline = do
  r ←
      search_all (deps_of pipeline.steps) (search_fuel pipeline.steps) (λ _. 0)
        (ids_of pipeline.steps)
  done (concluded pipeline.name r)
