-- ===== src/Config/Validate.antt =====
-- config/validate.rs, and the part of config/agent.rs and mcp/registry.rs that it uses. `iterate` is
-- the order in which a hash set goes over its elements; the map of the agents is a list of its
-- entries in the order of its iteration.
pub mod Valid
use zymi_core.Prelude.{
  ℕ, zero, suc, ◌+◌, Bool, true, false, not, ◌&&◌, ◌||◌, Option, none, some, List, [], ◌∷◌, ◌++◌,
  ◌==◌, if◌then◌else◌, get_elem?, ◌⊎◌, inl, inr, reverse, length, Outcome, done, fault, out_of_fuel,
  Text, codes, text_eq, strip_prefix, is_empty,
}
use zymi_core.Policy.Engine.{PolicyConfig}
use zymi_core.Config.Error.{ConfigResult, ok, err, validation, cyclic_dependency, ◌>>=◌, ◌>>◌}
use zymi_core.Config.Pipeline.{
  PipelineStepKind, PipelineStep, PipelineOutput, PipelineConfig, agent, tool, ask, any_of,
}
use zymi_core.Config.Dag.{contains_text, step_ids, ids_of, put}
use zymi_core.Config.Refs.{split_at, extract_step_refs, collect_when_refs, collect_step_refs}
use zymi_core.Config.When

pub record AgentConfig : Type 0 where
  pub name : Text
  pub description : Option Text
  pub model : Option Text
  pub system_prompt : Option Text
  pub tools : List Text
  pub max_iterations : Option ℕ
  pub max_tokens : Option ℕ
  pub timeout_secs : Option ℕ
  pub policy : Option PolicyConfig

abbrev pub known_tools : List Text
known_tools =
    codes "execute_shell_command"
    ∷ codes "write_file"
    ∷ codes "read_file"
    ∷ codes "write_memory"
    ∷ codes "spawn_sub_agent"
    ∷ []

pub record ToolNameResolver : Type 0 where
  pub knows : Text → Bool
  pub all_tool_names : List Text

pub record ConfigToolNameResolver : Type 0 where
  pub declarative_names : List Text
  pub python_names : List Text
  pub mcp_server_names : List Text

abbrev pub mcp_prefix : Text
mcp_prefix = codes "mcp__"

-- `split_once` on a text.
unfoldable pub split_once : Text → Text → Option (Text × Text)
split_once [] pattern = none
split_once (c ∷ s) pattern = elim (strip_prefix (c ∷ s) pattern) [
  | some after ↦ some ([], after)
  | none ↦ elim (split_once s pattern) [
    | none ↦ none
    | some (before, after) ↦ some (c ∷ before, after)
  ]
]

abbrev pub knows_mcp : List Text → Option (Text × Text) → Bool
knows_mcp servers none = false
knows_mcp servers (some (server, name)) = not (is_empty name) && contains_text servers server

unfoldable pub config_knows : ConfigToolNameResolver → Text → Bool
unfolding contains_text split_once
config_knows r name =
    if contains_text known_tools name
      || contains_text r.declarative_names name
      || contains_text r.python_names name
    then true
    else (elim (strip_prefix name mcp_prefix) [
      | none ↦ false
      | some rest ↦ knows_mcp r.mcp_server_names (split_once rest (codes "__"))
    ])

unfoldable pub resolver : ConfigToolNameResolver → ToolNameResolver
unfolding config_knows
resolver r = record {
  knows = config_knows r;
  all_tool_names = known_tools ++ r.declarative_names ++ r.python_names ++ r.mcp_server_names;
}

-- `join(", ")`
unfoldable pub join_names : List Text → Text
join_names [] = []
join_names (s ∷ []) = s
join_names (s ∷ t ∷ ts) = s ++ codes ", " ++ join_names (t ∷ ts)

abbrev pub quote : Text → Text
quote s = codes "`" ++ s ++ codes "`"

abbrev pub quote_ref : Text → Text
quote_ref id = codes "`${steps." ++ id ++ codes ".output}`"

-- `if !c { return Err(…) }`
unfoldable pub require : Bool → (message help path : Text) → ConfigResult (Unit {0})
require true message help path = ok tt
require false message help path = err (validation message help path)

module _ (known : ToolNameResolver) where
  abbrev pub known_help : Text
  known_help = codes "known tools: " ++ join_names known.all_tool_names

  unfoldable pub check_tools : Text → List Text → ConfigResult (Unit {0})
  unfolding require join_names
  check_tools agent_name [] = ok tt
  check_tools agent_name (t ∷ tools) = do
    require (known.knows t)
        (codes "agent " ++ quote agent_name ++ codes " references unknown tool " ++ quote t)
        known_help (codes "agents/" ++ agent_name ++ codes ".yml")
    check_tools agent_name tools

  unfoldable pub validate_agent_tools : AgentConfig → ConfigResult (Unit {0})
  unfolding check_tools
  validate_agent_tools a = check_tools a.name a.tools

abbrev pub keys : List (Text × AgentConfig) → List Text
keys [] = []
keys ((name, a) ∷ more) = name ∷ keys more

module _ (iterate : List Text → List Text) where
  abbrev pub available : List Text → Text
  available ids = codes "available steps: " ++ join_names (iterate ids)

  abbrev pub add_help : Text → Text → Text
  add_help other id =
      codes "add " ++ quote other ++ codes " to step " ++ quote id ++ codes "'s depends_on list"

  -- The loop over what a template refers to: `word` is the kind of the step, `place` where the
  -- template stands.
  unfoldable pub check_refs :
      (word place path : Text) → List Text → PipelineStep → List Text → ConfigResult (Unit {0})
  unfolding require contains_text join_names
  check_refs word place path ids s [] = ok tt
  check_refs word place path ids s (other ∷ others) =
      let rest = check_refs word place path ids s others in
      if text_eq other s.id then rest else (do
        require (contains_text s.depends_on other)
            (word
              ++ codes " step "
              ++ quote s.id
              ++ codes " references "
              ++ quote_ref other
              ++ place
              ++ codes " but "
              ++ quote other
              ++ codes " is not in depends_on")
            (add_help other s.id) path
        require (contains_text ids other)
            (word
              ++ codes " step "
              ++ quote s.id
              ++ codes " references unknown step "
              ++ quote_ref other)
            (available ids) path
        rest)

  unfoldable pub check_deps :
      (path : Text) → List Text → PipelineStep → List Text → ConfigResult (Unit {0})
  unfolding require contains_text join_names
  check_deps path ids s [] = ok tt
  check_deps path ids s (dep ∷ deps) = do
    require (contains_text ids dep)
        (codes "step " ++ quote s.id ++ codes " depends on unknown step " ++ quote dep)
        (available ids) path
    check_deps path ids s deps

  unfoldable pub check_when_refs :
      (path : Text) → List Text → PipelineStep → List Text → ConfigResult (Unit {0})
  unfolding require contains_text join_names
  check_when_refs path ids s [] = ok tt
  check_when_refs path ids s (other ∷ others) = do
    require (contains_text ids other)
        (codes "step "
          ++ quote s.id
          ++ codes " `when:` references unknown step "
          ++ quote_ref other)
        (available ids) path
    require (contains_text s.depends_on other)
        (codes "step "
          ++ quote s.id
          ++ codes " `when:` references "
          ++ quote_ref other
          ++ codes " but "
          ++ quote other
          ++ codes " is not in depends_on — would race against an unrelated branch")
        (add_help other s.id) path
    check_when_refs path ids s others

  unfoldable pub check_any_of :
      (path : Text) → List Text → (seen : List Text) → List Text → ConfigResult (Unit {0})
  unfolding require contains_text join_names
  check_any_of path ids seen [] = ok tt
  check_any_of path ids seen (id ∷ more) = do
    require (contains_text ids id) (codes "output `any_of:` references unknown step " ++ quote id)
        (available ids) path
    require (not (contains_text seen id))
        (codes "output `any_of:` lists " ++ quote id ++ codes " more than once")
        (codes "ordered-first-wins makes duplicates unreachable; remove the repeat") path
    check_any_of path ids (seen ++ id ∷ []) more

  unfoldable pub check_output :
      (path : Text) → List Text → Option PipelineOutput → ConfigResult (Unit {0})
  unfolding require contains_text join_names check_any_of
  check_output path ids none = ok tt
  check_output path ids (some (PipelineOutput.step s)) =
      require (contains_text ids s) (codes "output references unknown step " ++ quote s)
        (available ids) path
  check_output path ids (some (any_of steps)) = do
    require (not (is_empty steps)) (codes "output `any_of:` must list at least one step")
        (codes "add the candidate terminal steps in priority order") path
    check_any_of path ids [] steps

  -- `{e}`: the text of an error of `when_expr`, a parameter.
  module _ (show_when_error : When.WhenExprError → Text) where
    -- `parse_only` does not run out of fuel.
    abbrev pub parsed :
        (path : Text) → PipelineStep → When.Result (Unit {0}) → ConfigResult (Unit {0})
    parsed path s (When.ok tt) = ok tt
    parsed path s (When.err e) = err (
        validation
          (codes "step "
            ++ quote s.id
            ++ codes " has invalid `when:` expression: "
            ++ show_when_error e)
          (codes
            "grammar: VALUE (==|!=) VALUE (&&|\\|\\| VALUE (==|!=) VALUE)*, values are bare tokens or single-quoted strings (ADR-0028)")
          path)
    parsed path s When.out_of_fuel = err (validation (codes "out of fuel") [] path)

    unfoldable pub check_when :
        (path : Text) → List Text → PipelineStep → Option Text → ConfigResult (Unit {0})
    unfolding require collect_when_refs check_when_refs
    check_when path ids s none = ok tt
    check_when path ids s (some expr) = do
      require (not (is_empty s.depends_on))
          (codes "step "
            ++ quote s.id
            ++ codes " has `when:` but no `depends_on` — nothing has happened yet to branch on")
          (codes "either remove `when:` or add the steps it reads from to `depends_on`") path
      parsed path s (When.parse_only expr)
      check_when_refs path ids s (collect_when_refs expr)

    module _ (agents : List (Text × AgentConfig)) (known : ToolNameResolver) where
      unfoldable pub check_kind :
          (path : Text) → List Text → PipelineStep → PipelineStepKind → ConfigResult (Unit {0})
      unfolding require contains_text join_names collect_step_refs extract_step_refs check_refs
      check_kind path ids s (agent a task) =
          require (contains_text (keys agents) a)
            (codes "step " ++ quote s.id ++ codes " references unknown agent " ++ quote a)
            (codes "available agents: " ++ join_names (keys agents)) path
      check_kind path ids s (tool t args) = do
        require (known.knows t)
            (codes "tool step " ++ quote s.id ++ codes " references unknown tool " ++ quote t)
            (known_help known) path
        check_refs (codes "tool") (codes " in args") path ids s (collect_step_refs args)
      check_kind path ids s (ask prompt channel) =
          check_refs (codes "ask") (codes " in its prompt") path ids s (extract_step_refs prompt [])

      unfoldable pub check_steps :
          (path : Text) → List Text → List PipelineStep → ConfigResult (Unit {0})
      unfolding check_kind check_deps check_when
      check_steps path ids [] = ok tt
      check_steps path ids (s ∷ steps) = do
        check_kind path ids s s.kind
        check_deps path ids s s.depends_on
        check_when path ids s s.when
        check_steps path ids steps

      unfoldable pub validate_pipeline_refs : PipelineConfig → ConfigResult (Unit {0})
      unfolding check_steps check_output step_ids
      validate_pipeline_refs pipeline =
          let ids = step_ids pipeline.steps in
          let path = codes "pipelines/" ++ pipeline.name ++ codes ".yml" in
          (do check_steps path ids pipeline.steps; check_output path ids pipeline.output)
