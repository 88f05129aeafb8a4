-- ===== src/Config/Pipeline/RoundTrip.antt =====
-- config/pipeline.rs: `Serialize` and `Deserialize` of a step.
use zymi_core.Prelude.{◌≡◌, refl}
use zymi_core.Config.Pipeline.{
  PipelineStep, agent, tool, ask, ok, kind_of, from_raw, to_raw, to_raw_kind, PipelineStepKind,
}

kind-round :
    (s : PipelineStep) (k : PipelineStepKind)
    → from_raw (to_raw_kind s k) ≡ ok (record s { kind = k })
unfolding from_raw to_raw_kind kind_of
kind-round s (agent a t) = refl
kind-round s (tool t args) = refl
kind-round s (ask prompt channel) = refl

-- Every step comes back, as it was, from the form in which it is written out.
pub from_raw-to_raw : (s : PipelineStep) → from_raw (to_raw s) ≡ ok s
unfolding to_raw
from_raw-to_raw s = kind-round s s.kind
