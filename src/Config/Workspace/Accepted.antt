-- ===== src/Config/Workspace/Accepted.antt =====
-- config/validate.rs: what `validate_workspace` accepts.
use zymi_core.Prelude.{◌≡◌, refl, List, [], ◌∷◌, All, Outcome, done, fault, Text}
use zymi_core.Config.Error.{ConfigResult, ok, err}
use zymi_core.Config.Pipeline.{PipelineConfig}
use zymi_core.Config.Dag.{step_ids, ids_of, build_execution_plan}
use zymi_core.Config.Dag.Counts.{occurrences}
use zymi_core.Config.Dag.Edges.{Once}
use zymi_core.Config.Dag.Plan.{IsPlan}
use zymi_core.Config.Validate.{AgentConfig, ToolNameResolver, validate_pipeline_refs}
use zymi_core.Config.Validate.Valid.{IsStepValid, IsOutputValid, validate_pipeline_refs_iff}
use zymi_core.Config.Search.{validate_pipeline_dag}
use zymi_core.Config.Search.Accepted.{validate_pipeline_dag-IsPlan}
use zymi_core.Config.Workspace.{
  after_check, validate_agents, validate_pipelines, validate_workspace,
}
use zymi_core.Config.When

after_check-ok :
    (m k : Outcome (ConfigResult (Unit {0})))
    → after_check m k ≡ done (ok tt)
    → (m ≡ done (ok tt)) × (k ≡ done (ok tt))
after_check-ok (done (ok tt)) k h = (refl, h)
after_check-ok (done (err e)) k h = cc
after_check-ok (fault x) k h = cc

done_ok :
    (m : ConfigResult (Unit {0}))
    → Path (Outcome (ConfigResult (Unit {0}))) (done m) (done (ok tt))
    → m ≡ ok tt
done_ok m h = cc

module _ (iterate : List Text → List Text)
    (it : (xs : List Text) (v : Text) → occurrences v (iterate xs) ≡ occurrences v xs)
    (show_when_error : When.WhenExprError → Text) (agents : List (Text × AgentConfig))
    (known : ToolNameResolver) where
  abbrev pub HasDistinctIds : Text × PipelineConfig → Type 0
  HasDistinctIds (name, p) = Once (ids_of p.steps)

  -- A pipeline is valid, and gets a plan.
  abbrev pub IsReady : Text × PipelineConfig → Type 0
  IsReady (name, p) =
      All (IsStepValid (step_ids p.steps) agents known) p.steps
      × (IsOutputValid (step_ids p.steps) p.output
          × ((levels : List (List Text)) × (build_execution_plan iterate p
                ≡ done (ok (record { levels = levels })))
              × IsPlan p.steps levels))

  pipelines-IsReady :
      (pipelines : List (Text × PipelineConfig))
      → All HasDistinctIds pipelines
      → validate_pipelines iterate show_when_error agents known pipelines ≡ done (ok tt)
      → All IsReady pipelines
  unfolding validate_pipelines
  pipelines-IsReady [] o h = tt
  pipelines-IsReady ((name, p) ∷ pipelines) (once, more) h =
      let (r, k) =
        after_check-ok (done (validate_pipeline_refs iterate show_when_error agents known p))
          (after_check (validate_pipeline_dag p)
            (validate_pipelines iterate show_when_error agents known pipelines))
          h in
      let (d, later) =
        after_check-ok (validate_pipeline_dag p)
          (validate_pipelines iterate show_when_error agents known pipelines) k in
      let (s, o) =
        (validate_pipeline_refs_iff iterate show_when_error agents known p).0 (done_ok _ r) in
      (
        (s, (o, validate_pipeline_dag-IsPlan iterate it p once d)),
        pipelines-IsReady pipelines more later,
      )

  -- In a workspace that is accepted and in whose pipelines no step id is repeated, every pipeline has
  -- valid steps and a valid output, and gets a plan in which each step stands behind all its
  -- dependencies.
  pub validate_workspace-IsReady :
      (pipelines : List (Text × PipelineConfig))
      → All HasDistinctIds pipelines
      → validate_workspace iterate show_when_error agents known pipelines ≡ done (ok tt)
      → All IsReady pipelines
  unfolding validate_workspace
  validate_workspace-IsReady pipelines once h = pipelines-IsReady pipelines once (
      (after_check-ok (done (validate_agents known agents))
        (validate_pipelines iterate show_when_error agents known pipelines) h).1)
