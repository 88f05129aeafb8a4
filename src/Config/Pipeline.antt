-- ===== src/Config/Pipeline.antt =====
-- config/pipeline.rs: pipelines, their steps and outputs, and the two forms of a step: the one of
-- the YAML file, with every key optional, and the one of the program. Of the crate `serde_yml` the
-- type of YAML values is written out, as far as the program looks into one.
pub mod RoundTrip
use zymi_core.Prelude.{
  Bool, true, false, ◌||◌, Option, none, some, List, [], ◌∷◌, ◌++◌, Text, codes, is_some,
}

mutual
  pub data YamlValue : Type 0 where
    null : YamlValue
    boolean : Bool → YamlValue
    number : Text → YamlValue
    string : Text → YamlValue
    sequence : YamlValues → YamlValue
    mapping : YamlMembers → YamlValue

  pub data YamlValues : Type 0 where
    no_values : YamlValues
    value_then : YamlValue → YamlValues → YamlValues

  pub data YamlMembers : Type 0 where
    no_members : YamlMembers
    member_then : (key value : YamlValue) → YamlMembers → YamlMembers

pub data McpExposeMode : Type 0 where
  sync async : McpExposeMode

pub record McpExpose : Type 0 where
  pub name : Option Text
  pub description : Option Text
  pub mode : McpExposeMode

pub record PipelineExpose : Type 0 where
  pub mcp : Option McpExpose

pub data PipelineInputType : Type 0 where
  string integer number boolean object array : PipelineInputType

pub record PipelineInput : Type 0 where
  pub name : Text
  pub ty : PipelineInputType
  pub required : Bool
  pub description : Option Text

pub data StepContextMode : Type 0 where
  inherit fresh : StepContextMode

pub record StepContextConfig : Type 0 where
  pub mode : StepContextMode

pub data PipelineStepKind : Type 0 where
  agent : (agent task : Text) → PipelineStepKind
  tool : (tool : Text) → (args : YamlValue) → PipelineStepKind
  ask : (prompt : Text) → (channel : Option Text) → PipelineStepKind

pub record PipelineStep : Type 0 where
  pub id : Text
  pub kind : PipelineStepKind
  pub depends_on : List Text
  pub when : Option Text
  pub context : Option StepContextConfig

pub data PipelineOutput : Type 0 where
  step : Text → PipelineOutput
  any_of : List Text → PipelineOutput

pub record PipelineConfig : Type 0 where
  pub name : Text
  pub description : Option Text
  pub inputs : List PipelineInput
  pub steps : List PipelineStep
  pub output : Option PipelineOutput
  pub approval_channel : Option Text
  pub expose : Option PipelineExpose

pub record PipelineStepRaw : Type 0 where
  pub id : Text
  pub agent : Option Text
  pub task : Option Text
  pub tool : Option Text
  pub args : Option YamlValue
  pub ask : Option Text
  pub channel : Option Text
  pub depends_on : List Text
  pub when : Option Text
  pub context : Option StepContextConfig

-- What `Error::custom` is called with.
pub data StepError : Type 0 where
  more_than_one none_of_them agent_is_required task_is_required tool_is_required ask_is_required :
      (id : Text) → StepError

pub data StepResult {ℓ} (A : Type ℓ) : Type ℓ where
  ok : A → StepResult A
  err : StepError → StepResult A

abbrev pub ok_or {ℓ} : {A : Type ℓ} → Option A → StepError → StepResult A
ok_or none e = err e
ok_or (some a) e = ok a

abbrev pub and_then {ℓ κ} :
    {A : Type ℓ} {B : Type κ} → StepResult A → (A → StepResult B) → StepResult B
and_then (ok a) f = f a
and_then (err e) f = err e

abbrev pub unwrap_or {ℓ} : {A : Type ℓ} → Option A → A → A
unwrap_or none d = d
unwrap_or (some a) d = a

-- The kind by which discriminating keys are present: an agent's, a tool's, `ask`.
unfoldable pub kind_of : Bool → Bool → Bool → PipelineStepRaw → StepResult PipelineStepKind
kind_of true true has_ask raw = err (more_than_one raw.id)
kind_of true false true raw = err (more_than_one raw.id)
kind_of false true true raw = err (more_than_one raw.id)
kind_of false false false raw = err (none_of_them raw.id)
kind_of true false false raw =
    and_then (ok_or raw.agent (agent_is_required raw.id))
      λ a. and_then (ok_or raw.task (task_is_required raw.id)) λ t. ok (agent a t)
kind_of false true false raw =
    and_then (ok_or raw.tool (tool_is_required raw.id))
      λ t. ok (tool t (unwrap_or raw.args YamlValue.null))
kind_of false false true raw =
    and_then (ok_or raw.ask (ask_is_required raw.id)) λ prompt. ok (ask prompt raw.channel)

-- `deserialize`, from the raw form on.
unfoldable pub from_raw : PipelineStepRaw → StepResult PipelineStep
unfolding kind_of
from_raw raw =
    let has_agent = is_some raw.agent || is_some raw.task in
    let has_tool = is_some raw.tool || is_some raw.args in
    let has_ask = is_some raw.ask in
    and_then (kind_of has_agent has_tool has_ask raw) λ kind. ok (record {
      id = raw.id;
      kind = kind;
      depends_on = raw.depends_on;
      when = raw.when;
      context = raw.context;
    })

abbrev pub blank_raw : PipelineStep → PipelineStepRaw
blank_raw s = record {
  id = s.id;
  agent = none;
  task = none;
  tool = none;
  args = none;
  ask = none;
  channel = none;
  depends_on = s.depends_on;
  when = s.when;
  context = s.context;
}

-- `serialize`, up to the raw form.
unfoldable pub to_raw_kind : PipelineStep → PipelineStepKind → PipelineStepRaw
to_raw_kind s (agent a t) = record (blank_raw s) { agent = some a; task = some t }
to_raw_kind s (tool t args) = record (blank_raw s) { tool = some t; args = some args }
to_raw_kind s (ask prompt channel) = record (blank_raw s) { ask = some prompt; channel = channel }

unfoldable pub to_raw : PipelineStep → PipelineStepRaw
unfolding to_raw_kind
to_raw s = to_raw_kind s s.kind
