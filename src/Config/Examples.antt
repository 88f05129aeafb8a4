-- ===== src/Config/Examples.antt =====
-- config/ at concrete inputs: tests, and the theorems at inputs that meet their hypotheses.
use zymi_core.Prelude.{
  ◌≡◌, All, refl, true, false, none, some, List, [], ◌∷◌, done, Text, codes, len_utf8, text_eq,
  strip_prefix, is_empty,
}
use zymi_core.Config.When
use zymi_core.Config.When.{evaluate, parse_only, Result}
use zymi_core.Config.When.Print.{
  Expression, quoted, bare, or_else, print, meaning, is_value, are_comparisons,
}
use zymi_core.Config.When.RoundTrip.{evaluate-print}
use zymi_core.Config.When.Total.{IsResult, evaluate-IsResult}
use zymi_core.Config.Error
use zymi_core.Config.Pipeline
use zymi_core.Config.Pipeline.{
  PipelineStep, PipelineConfig, ask, tool, any_of, YamlValue, from_raw, to_raw,
}
use zymi_core.Config.Pipeline.RoundTrip.{from_raw-to_raw}
use zymi_core.Config.Dag.{contains_text, step_ids, ids_of, build_execution_plan, filter}
use zymi_core.Config.Dag.Counts.{total}
use zymi_core.Config.Refs.{extract_step_refs, collect_when_refs, collect_step_refs}
use zymi_core.Config.Validate.{
  ToolNameResolver, require, config_knows, resolver, validate_pipeline_refs,
}
use zymi_core.Config.Search.{validate_pipeline_dag, search_fuel, listed}
use zymi_core.Config.Workspace.{validate_workspace}
use zymi_core.Config.Workspace.Accepted.{IsReady, validate_workspace-IsReady}
use zymi_core.Config.Search.Accepted.{validate_pipeline_dag-IsPlan}
use zymi_core.Config.Search.Fuel.{validate_pipeline_dag-IsDone}
use zymi_core.Config.Dag.Edges.{Once, step_ids-Once}
use zymi_core.Config.Dag.Plan.{IsPlan, IsPlanned, build_execution_plan-IsPlanned}

comparison_holds : evaluate (codes "'a b' == 'a b' && x != y") ≡ When.ok true
unfolding evaluate When.is_ascii_whitespace When.at_operator len_utf8 text_eq
comparison_holds = refl

-- `true || …` then `&& false`: from the left.
from_the_left : evaluate (codes "a == a || a == a && a == b") ≡ When.ok false
unfolding evaluate When.is_ascii_whitespace When.at_operator len_utf8 text_eq
from_the_left = refl

unterminated : evaluate (codes "a == 'b") ≡ When.err (When.unterminated_string 5)
unfolding evaluate When.is_ascii_whitespace When.at_operator len_utf8 text_eq
unterminated = refl

lone_ampersand : evaluate (codes "a == b & c") ≡ When.err (When.bad_logic 7 (codes "& "))
unfolding evaluate When.is_ascii_whitespace When.at_operator len_utf8 text_eq
lone_ampersand = refl

abbrev triage : Expression
triage = record {
  first = record { lhs = bare (codes "spam"); is_eq = true; rhs = quoted (codes "not spam") };
  others = or_else (record { lhs = bare (codes "a"); is_eq = false; rhs = bare (codes "b") }) ∷ [];
}

evaluate-print_example : evaluate (print triage) ≡ When.ok (meaning triage)
unfolding is_value When.is_ascii_whitespace When.at_operator are_comparisons
evaluate-print_example = evaluate-print triage refl

evaluate-IsResult_example : IsResult (evaluate (codes "a == b &&"))
evaluate-IsResult_example = evaluate-IsResult (codes "a == b &&")

abbrev step : Text → List Text → PipelineStep
step id deps = record {
  id = id;
  kind = ask (codes "?") none;
  depends_on = deps;
  when = none;
  context = none;
}

abbrev pipeline : List PipelineStep → PipelineConfig
pipeline steps = record {
  name = codes "p";
  description = none;
  inputs = [];
  steps = steps;
  output = none;
  approval_channel = none;
  expose = none;
}

abbrev diamond : PipelineConfig
diamond = pipeline (
    step (codes "d") (codes "b" ∷ codes "c" ∷ [])
    ∷ step (codes "c") (codes "a" ∷ [])
    ∷ step (codes "b") (codes "a" ∷ codes "a" ∷ [])
    ∷ step (codes "a") (codes "unknown" ∷ [])
    ∷ [])

abbrev round : PipelineConfig
round = pipeline (
    step (codes "a") (codes "b" ∷ [])
    ∷ step (codes "b") (codes "a" ∷ [])
    ∷ step (codes "c") []
    ∷ [])

diamond_plan :
    build_execution_plan (λ xs. xs) diamond
    ≡ done (
        Error.ok (record {
          levels = (codes "a" ∷ []) ∷ (codes "b" ∷ codes "c" ∷ []) ∷ (codes "d" ∷ []) ∷ [];
        }))
unfolding build_execution_plan filter text_eq
diamond_plan = refl

round_cycle :
    build_execution_plan (λ xs. xs) round
    ≡ done (Error.err (Error.cyclic_dependency (codes "p") (codes "a" ∷ codes "b" ∷ [])))
unfolding build_execution_plan filter text_eq
round_cycle = refl

build_execution_plan-IsPlanned_example :
    IsPlanned
      (λ xs. xs)
      (λ xs v. refl)
      (codes "p")
      (diamond.steps)
      (build_execution_plan (λ xs. xs) diamond)
build_execution_plan-IsPlanned_example =
    build_execution_plan-IsPlanned (λ xs. xs) (λ xs v. refl) diamond

abbrev read_step : PipelineStep
read_step = record (step (codes "r") []) { kind = tool (codes "read_file") YamlValue.null }

from_raw-to_raw_example : from_raw (to_raw read_step) ≡ Pipeline.ok read_step
from_raw-to_raw_example = from_raw-to_raw read_step

-- A pipeline that runs a tool, asks about its output, and branches on it.
abbrev ask_step : PipelineStep
ask_step = record {
  id = codes "q";
  kind = ask (codes "is ${steps.r.output} spam?") none;
  depends_on = codes "r" ∷ [];
  when = some (codes "${steps.r.output} != ''");
  context = none;
}

abbrev valid : PipelineConfig
valid = record (pipeline (ask_step ∷ read_step ∷ [])) {
  output = some (any_of (codes "q" ∷ codes "r" ∷ []));
}

abbrev builtin : ToolNameResolver
builtin =
    resolver
      (record { declarative_names = []; python_names = []; mcp_server_names = codes "fs" ∷ [] })

-- A place to unfold what a validation runs through.
parts : Unit {0}
unfolding require config_knows resolver strip_prefix contains_text step_ids extract_step_refs
    collect_when_refs collect_step_refs text_eq validate_pipeline_refs validate_pipeline_dag
    evaluate parse_only When.is_ascii_whitespace When.at_operator len_utf8 is_empty search_fuel
    total listed build_execution_plan filter validate_workspace
parts = tt

knows_mcp_tools :
    (builtin.knows (codes "mcp__fs__read") ≡ true) × (builtin.knows (codes "mcp__fs__") ≡ false)
unfolding parts
knows_mcp_tools = (refl, refl)

valid_passes : validate_pipeline_refs (λ xs. xs) (λ _. []) [] builtin valid ≡ Error.ok tt
unfolding parts
valid_passes = refl

valid_acyclic : validate_pipeline_dag valid ≡ done (Error.ok tt)
unfolding parts
valid_acyclic = refl

round_is_reported :
    validate_pipeline_dag round
    ≡ done (Error.err (Error.cyclic_dependency (codes "p") (codes "a" ∷ codes "b" ∷ [])))
unfolding parts
round_is_reported = refl

-- Of two steps of one id the search sees the last alone, and the plan the dependencies of both.
abbrev twice : PipelineConfig
twice = pipeline (
    step (codes "a") (codes "b" ∷ [])
    ∷ step (codes "b") (codes "a" ∷ [])
    ∷ step (codes "a") []
    ∷ [])

twice_is_accepted :
    (validate_pipeline_dag twice ≡ done (Error.ok tt))
    × (build_execution_plan (λ xs. xs) twice
        ≡ done (Error.err (Error.cyclic_dependency (codes "p") (codes "a" ∷ codes "b" ∷ []))))
unfolding parts
twice_is_accepted = (refl, refl)

abbrev same : List Text → List Text
same xs = xs

valid_ids : Once (ids_of valid.steps)
unfolding parts
valid_ids = step_ids-Once valid.steps

validate_pipeline_dag-IsDone_example :
    (r : Error.ConfigResult (Unit {0})) × (validate_pipeline_dag round ≡ done r)
validate_pipeline_dag-IsDone_example = validate_pipeline_dag-IsDone round

validate_pipeline_dag-IsPlan_example :
    (levels : List (List Text)) × (build_execution_plan same valid
      ≡ done (Error.ok (record { levels = levels })))
    × IsPlan valid.steps levels
validate_pipeline_dag-IsPlan_example =
    validate_pipeline_dag-IsPlan same (λ xs v. refl) valid valid_ids valid_acyclic

valid_workspace :
    validate_workspace same (λ _. []) [] builtin ((codes "p", valid) ∷ []) ≡ done (Error.ok tt)
unfolding parts
valid_workspace = refl

validate_workspace-IsReady_example :
    All (IsReady same (λ xs v. refl) (λ _. []) [] builtin) ((codes "p", valid) ∷ [])
validate_workspace-IsReady_example =
    validate_workspace-IsReady same (λ xs v. refl) (λ _. []) [] builtin ((codes "p", valid) ∷ [])
      (valid_ids, tt) valid_workspace
