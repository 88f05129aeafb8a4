-- ===== src/Config/Dag.antt =====
-- config/dag.rs: the levels in which the steps of a pipeline run. A map is a function of the key;
-- `iterate` is the order in which a hash map goes over its keys. `-= 1` on 0 panics, as it does in a
-- debug build.
pub mod Counts
pub mod Release
pub mod Levels
pub mod Edges
pub mod Plan
use zymi_core.Prelude.{
  ℕ, zero, suc, ◌+◌, Bool, true, false, ◌&&◌, ◌||◌, not, Option, none, some, List, [], ◌∷◌, ◌++◌,
  ◌==◌, ltb, if◌then◌else◌, length, Outcome, done, fault, panic, out_of_fuel, ◌>>=◌, Text, text_eq,
}
use zymi_core.Config.Error.{ConfigResult, ok, err, cyclic_dependency}
use zymi_core.Config.Pipeline.{PipelineStep, PipelineConfig}

pub record ExecutionPlan : Type 0 where
  pub levels : List (List Text)

unfoldable pub contains_text : List Text → Text → Bool
contains_text [] v = false
contains_text (x ∷ xs) v = text_eq v x || contains_text xs v

abbrev pub total_length : List (List Text) → ℕ
total_length [] = 0
total_length (l ∷ ls) = length l + total_length ls

unfoldable pub step_count : ExecutionPlan → ℕ
step_count plan = total_length plan.levels

abbrev pub all_single : List (List Text) → Bool
all_single [] = true
all_single (l ∷ ls) = length l == 1 && all_single ls

unfoldable pub is_sequential : ExecutionPlan → Bool
is_sequential plan = all_single plan.levels

-- `position`
unfoldable pub position_from : ℕ → List (List Text) → Text → Option ℕ
unfolding contains_text
position_from i [] step_id = none
position_from i (l ∷ ls) step_id =
    if contains_text l step_id then some i else position_from (suc i) ls step_id

unfoldable pub level_of : ExecutionPlan → Text → Option ℕ
unfolding position_from
level_of plan step_id = position_from 0 plan.levels step_id

-- The elements of a `HashSet`, as they are inserted.
unfoldable pub collect_set : List Text → List Text → List Text
unfolding contains_text
collect_set seen [] = seen
collect_set seen (x ∷ xs) = collect_set (if contains_text seen x then seen else seen ++ x ∷ []) xs

abbrev pub ids_of : List PipelineStep → List Text
ids_of [] = []
ids_of (s ∷ steps) = s.id ∷ ids_of steps

unfoldable pub step_ids : List PipelineStep → List Text
unfolding collect_set
step_ids steps = collect_set [] (ids_of steps)

abbrev pub put {ℓ} : {A : Type ℓ} → Text → A → (Text → A) → Text → A
put key a f = λ k. if text_eq k key then a else f k

-- Keys that were not entered yet have no dependents and degree 0.
pub record Graph : Type 0 where
  pub dependents : Text → List Text
  pub in_degree : Text → ℕ

abbrev pub empty_graph : Graph
empty_graph = record { dependents = λ _. []; in_degree = λ _. 0 }

unfoldable pub add_dep : List Text → Text → Text → Graph → Graph
unfolding contains_text
add_dep ids id dep g =
    if contains_text ids dep
    then record {
      dependents = put dep (g.dependents dep ++ id ∷ []) g.dependents;
      in_degree = put id (g.in_degree id + 1) g.in_degree;
    }
    else g

unfoldable pub add_deps : List Text → Text → List Text → Graph → Graph
unfolding add_dep
add_deps ids id [] g = g
add_deps ids id (dep ∷ deps) g = add_deps ids id deps (add_dep ids id dep g)

unfoldable pub add_steps : List Text → List PipelineStep → Graph → Graph
unfolding add_deps
add_steps ids [] g = g
add_steps ids (s ∷ steps) g = add_steps ids steps (add_deps ids s.id s.depends_on g)

-- `Ord` on `str`: byte by byte, which is the order of the characters.
unfoldable pub text_le : Text → Text → Bool
text_le [] t = true
text_le (a ∷ s) [] = false
text_le (a ∷ s) (b ∷ t) = if ltb a b then true else a == b && text_le s t

unfoldable pub insert : Text → List Text → List Text
unfolding text_le
insert x [] = x ∷ []
insert x (y ∷ ys) = if text_le x y then x ∷ y ∷ ys else y ∷ insert x ys

-- `level.sort()`
unfoldable pub sort : List Text → List Text
unfolding insert
sort [] = []
sort (x ∷ xs) = insert x (sort xs)

-- The inner loop, over the dependents of a node: the degrees after it, and the nodes whose degree it
-- brought to 0.
unfoldable pub release : List Text → (Text → ℕ) → Outcome ((Text → ℕ) × List Text)
release [] deg = done (deg, [])
release (d ∷ ds) deg = elim (deg d) [
  | zero ↦ fault panic
  | suc n ↦ do
    (deg, next) ← release ds (put d n deg)
    done (deg, (if n == 0 then d ∷ next else next))
]

-- The loop over the queue of a level.
unfoldable pub drain :
    (Text → List Text) → List Text → (Text → ℕ) → Outcome ((Text → ℕ) × List Text)
unfolding release
drain dependents [] deg = done (deg, [])
drain dependents (node ∷ queue) deg = do
  (deg, released) ← release (dependents node) deg
  (deg, later) ← drain dependents queue deg
  done (deg, released ++ later)

-- The loop over the levels, on fuel: the levels, the number of nodes visited, the degrees.
unfoldable pub run_levels :
    ℕ → (Text → List Text) → List Text → (Text → ℕ) → Outcome (List (List Text) × ℕ × (Text → ℕ))
unfolding drain sort
run_levels fuel dependents [] deg = done ([], 0, deg)
run_levels zero dependents (node ∷ queue) deg = fault out_of_fuel
run_levels (suc fuel) dependents (node ∷ queue) deg = do
  (deg, next) ← drain dependents (node ∷ queue) deg
  (levels, visited, deg) ← run_levels fuel dependents next deg
  done (sort (node ∷ queue) ∷ levels, length (node ∷ queue) + visited, deg)

-- `filter`
unfoldable pub filter : (Text → Bool) → List Text → List Text
filter p [] = []
filter p (x ∷ xs) = if p x then x ∷ filter p xs else filter p xs

unfoldable pub of_degree_zero : (Text → ℕ) → List Text → List Text
of_degree_zero deg xs = filter (λ x. deg x == 0) xs

unfoldable pub of_degree_positive : (Text → ℕ) → List Text → List Text
of_degree_positive deg xs = filter (λ x. ltb 0 (deg x)) xs

module _ (iterate : List Text → List Text) where
  unfoldable pub conclude_plan :
      Text → List Text → List (List Text) × ℕ × (Text → ℕ) → ConfigResult ExecutionPlan
  unfolding of_degree_positive
  conclude_plan name ids (levels, visited, deg) =
      if not (visited == length ids)
      then err (cyclic_dependency name (of_degree_positive deg (iterate ids)))
      else ok (record { levels = levels })

  -- Every round visits a node at least, so a round more than there are nodes is enough.
  unfoldable pub plan_steps : Text → List Text → Graph → Outcome (ConfigResult ExecutionPlan)
  unfolding run_levels of_degree_zero conclude_plan
  plan_steps name ids g = do
    r ←
        run_levels (suc (length ids)) g.dependents (of_degree_zero g.in_degree (iterate ids))
          g.in_degree
    done (conclude_plan name ids r)

  unfoldable pub build_plan : Text → List PipelineStep → Outcome (ConfigResult ExecutionPlan)
  unfolding step_ids add_steps plan_steps
  build_plan name [] = done (ok (record { levels = [] }))
  build_plan name (s ∷ steps) =
      let ids = step_ids (s ∷ steps) in plan_steps name ids (add_steps ids (s ∷ steps) empty_graph)

  unfoldable pub build_execution_plan : PipelineConfig → Outcome (ConfigResult ExecutionPlan)
  unfolding build_plan
  build_execution_plan pipeline = build_plan pipeline.name pipeline.steps
