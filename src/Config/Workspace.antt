-- ===== src/Config/Workspace.antt =====
-- config/validate.rs, `validate_workspace`, and `has_agent_step` of config/mod.rs. A map is the list of
-- its entries in the order of its iteration.
pub mod Accepted
use zymi_core.Prelude.{Bool, true, false, ◌||◌, List, [], ◌∷◌, Outcome, done, fault, Text}
use zymi_core.Config.Error.{ConfigResult, ok, err, ◌>>=◌, ◌>>◌}
use zymi_core.Config.Pipeline.{PipelineStepKind, PipelineStep, PipelineConfig, agent, tool, ask}
use zymi_core.Config.Validate.{
  AgentConfig, ToolNameResolver, validate_agent_tools, validate_pipeline_refs,
}
use zymi_core.Config.Search.{validate_pipeline_dag}
use zymi_core.Config.When

-- `?` on a check that may run out of fuel.
abbrev pub after_check :
    Outcome (ConfigResult (Unit {0}))
    → Outcome (ConfigResult (Unit {0}))
    → Outcome (ConfigResult (Unit {0}))
after_check (done (ok tt)) k = k
after_check (done (err e)) k = done (err e)
after_check (fault x) k = fault x

unfoldable pub validate_agents :
    ToolNameResolver → List (Text × AgentConfig) → ConfigResult (Unit {0})
unfolding validate_agent_tools
validate_agents known [] = ok tt
validate_agents known ((name, a) ∷ agents) = do
  validate_agent_tools known a
  validate_agents known agents

module _ (iterate : List Text → List Text) (show_when_error : When.WhenExprError → Text)
    (agents : List (Text × AgentConfig)) (known : ToolNameResolver) where
  unfoldable pub validate_pipelines :
      List (Text × PipelineConfig) → Outcome (ConfigResult (Unit {0}))
  unfolding validate_pipeline_refs validate_pipeline_dag
  validate_pipelines [] = done (ok tt)
  validate_pipelines ((name, p) ∷ pipelines) =
      after_check (done (validate_pipeline_refs iterate show_when_error agents known p))
        (after_check (validate_pipeline_dag p) (validate_pipelines pipelines))

  unfoldable pub validate_workspace :
      List (Text × PipelineConfig) → Outcome (ConfigResult (Unit {0}))
  unfolding validate_agents validate_pipelines
  validate_workspace pipelines =
      after_check (done (validate_agents known agents)) (validate_pipelines pipelines)

abbrev pub is_agent_kind : PipelineStepKind → Bool
is_agent_kind (agent a task) = true
is_agent_kind (tool t args) = false
is_agent_kind (ask prompt channel) = false

abbrev pub any_agent : List PipelineStep → Bool
any_agent [] = false
any_agent (s ∷ steps) = is_agent_kind s.kind || any_agent steps

unfoldable pub has_agent_step : List (Text × PipelineConfig) → Bool
has_agent_step [] = false
has_agent_step ((name, p) ∷ pipelines) = any_agent p.steps || has_agent_step pipelines
