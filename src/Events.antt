-- ===== src/Events.antt =====
-- types.rs (messages) and events/mod.rs: what an event is. A `Uuid` is a number. A timestamp counts the
-- nanoseconds from the epoch.
use zymi_core.Prelude.{ℕ, Bool, Option, none, some, List, Text, codes}

abbrev pub Uuid : Type 0
Uuid = ℕ

-- `i64`.
pub data ℤ : Type 0 where
  pos negsuc : ℕ → ℤ

pub record ToolCallInfo : Type 0 where
  pub id : Text
  pub name : Text
  pub arguments : Text

pub data ContentPart : Type 0 where
  text : Text → ContentPart
  image_base64 : (media_type data' : Text) → ContentPart

pub data Message : Type 0 where
  system user : Text → Message
  user_multimodal : (parts : List ContentPart) → Message
  assistant : (content : Option Text) → (tool_calls : List ToolCallInfo) → Message
  tool_result : (tool_call_id content : Text) → Message

pub record TokenUsage : Type 0 where
  pub input_tokens : ℕ
  pub output_tokens : ℕ
  pub cached_input_tokens : ℕ
  pub cache_creation_tokens : ℕ

pub data OutputResolutionVia : Type 0 where
  step : OutputResolutionVia
  any_of : (skipped : List Text) → OutputResolutionVia

pub data EventKind : Type 0 where
  user_message_received : (content : Message) → (connector : Text) → EventKind
  scheduled_task_triggered : (entry_id : Text) → (task : Text) → EventKind
  agent_processing_started : (conversation_id : Text) → EventKind
  agent_processing_completed : (conversation_id : Text) → (success : Bool) → EventKind
  llm_call_started : (iteration : ℕ) → (message_count : ℕ) → (approx_context_chars : ℕ) → EventKind
  llm_call_completed :
      (response_message : Option Message)
      → (has_tool_calls : Bool) → (usage : Option TokenUsage) → (content_preview : Option Text)
      → (finish_reason : Option Text) → EventKind
  llm_call_failed : (iteration : ℕ) → (error : Text) → (elapsed_ms : ℕ) → EventKind
  tool_call_requested : (tool_name : Text) → (arguments : Text) → (call_id : Text) → EventKind
  approval_requested :
      (approval_id : Text)
      → (stream_id : Text) → (description : Text) → (explanation : Option Text) → (channel : Text)
      → EventKind
  approval_granted :
      (approval_id : Text)
      → (stream_id : Text) → (decided_by : Text) → (reason : Option Text) → EventKind
  approval_denied :
      (approval_id : Text)
      → (stream_id : Text) → (decided_by : Text) → (reason : Option Text) → EventKind
  reasoning_requested :
      (request_id : Text) → (stream_id : Text) → (prompt : Text) → (channel : Text) → EventKind
  reasoning_answered :
      (request_id : Text)
      → (stream_id : Text) → (answer : Text) → (answered_by : Text) → (is_error : Bool) → EventKind
  tool_call_completed :
      (call_id : Text)
      → (result : Text) → (result_preview : Text) → (is_error : Bool) → (duration_ms : ℕ)
      → (replayed : Bool) → EventKind
  intention_emitted : (intention_tag : Text) → (intention_data : Text) → EventKind
  intention_evaluated : (intention_tag : Text) → (verdict : Text) → EventKind
  response_ready : (conversation_id : Text) → (content : Text) → EventKind
  workflow_started : (user_message : Text) → (node_count : ℕ) → EventKind
  workflow_node_started : (node_id : Text) → (description : Text) → EventKind
  workflow_node_completed : (node_id : Text) → (success : Bool) → EventKind
  workflow_completed : (success : Bool) → EventKind
  step_skipped : (step_id : Text) → (reason : Text) → EventKind
  output_resolved : (chosen_step : Text) → (via : OutputResolutionVia) → EventKind
  memory_written : (key : Text) → (value : Text) → (previous_value_seq : Option ℕ) → EventKind
  memory_deleted : (key : Text) → (previous_value_seq : ℕ) → EventKind
  context_compacted :
      (replaces_seq_range : (ℕ × ℕ)) → (summary : Text) → (bytes_saved : ℤ) → EventKind
  shell_session_started : (stream_id : Text) → (pid : ℕ) → (shell_path : Text) → EventKind
  shell_session_closed : (stream_id : Text) → (reason : Text) → EventKind
  pipeline_requested : (pipeline : Text) → (inputs : List (Text × Text)) → EventKind
  pipeline_completed :
      (pipeline : Text)
      → (success : Bool) → (final_output : Option Text) → (error : Option Text) → EventKind
  mcp_server_connected : (server : Text) → (tool_count : ℕ) → EventKind
  mcp_server_disconnected : (server : Text) → (reason : Text) → EventKind
  resume_forked :
      (parent_stream_id : Text) → (parent_correlation_id : Uuid) → (fork_at_step : Text) → EventKind
  outbound_dispatched :
      (sink : Text) → (sink_type : Text) → (status : ℕ) → (triggered_by : Text) → EventKind
  outbound_failed :
      (sink : Text) → (sink_type : Text) → (reason : Text) → (triggered_by : Text) → EventKind

unfoldable pub kind_tag : EventKind → Text
kind_tag (user_message_received _ _) = codes "user_message_received"
kind_tag (scheduled_task_triggered _ _) = codes "scheduled_task_triggered"
kind_tag (agent_processing_started _) = codes "agent_processing_started"
kind_tag (agent_processing_completed _ _) = codes "agent_processing_completed"
kind_tag (llm_call_started _ _ _) = codes "llm_call_started"
kind_tag (llm_call_completed _ _ _ _ _) = codes "llm_call_completed"
kind_tag (llm_call_failed _ _ _) = codes "llm_call_failed"
kind_tag (tool_call_requested _ _ _) = codes "tool_call_requested"
kind_tag (approval_requested _ _ _ _ _) = codes "approval_requested"
kind_tag (approval_granted _ _ _ _) = codes "approval_granted"
kind_tag (approval_denied _ _ _ _) = codes "approval_denied"
kind_tag (reasoning_requested _ _ _ _) = codes "reasoning_requested"
kind_tag (reasoning_answered _ _ _ _ _) = codes "reasoning_answered"
kind_tag (tool_call_completed _ _ _ _ _ _) = codes "tool_call_completed"
kind_tag (intention_emitted _ _) = codes "intention_emitted"
kind_tag (intention_evaluated _ _) = codes "intention_evaluated"
kind_tag (response_ready _ _) = codes "response_ready"
kind_tag (workflow_started _ _) = codes "workflow_started"
kind_tag (workflow_node_started _ _) = codes "workflow_node_started"
kind_tag (workflow_node_completed _ _) = codes "workflow_node_completed"
kind_tag (workflow_completed _) = codes "workflow_completed"
kind_tag (step_skipped _ _) = codes "step_skipped"
kind_tag (output_resolved _ _) = codes "output_resolved"
kind_tag (memory_written _ _ _) = codes "memory_written"
kind_tag (memory_deleted _ _) = codes "memory_deleted"
kind_tag (context_compacted _ _ _) = codes "context_compacted"
kind_tag (shell_session_started _ _ _) = codes "shell_session_started"
kind_tag (shell_session_closed _ _) = codes "shell_session_closed"
kind_tag (pipeline_requested _ _) = codes "pipeline_requested"
kind_tag (pipeline_completed _ _ _ _) = codes "pipeline_completed"
kind_tag (mcp_server_connected _ _) = codes "mcp_server_connected"
kind_tag (mcp_server_disconnected _ _) = codes "mcp_server_disconnected"
kind_tag (resume_forked _ _ _) = codes "resume_forked"
kind_tag (outbound_dispatched _ _ _ _) = codes "outbound_dispatched"
kind_tag (outbound_failed _ _ _ _) = codes "outbound_failed"

pub record Event : Type 0 where
  pub id : Uuid
  pub stream_id : Text
  pub sequence : ℕ
  pub timestamp : ℕ
  pub kind : EventKind
  pub correlation_id : Option Uuid
  pub causation_id : Option Uuid
  pub source : Text

-- `Event::new`, with the identifier and the time that it draws.
unfoldable pub new_event : Uuid → ℕ → Text → EventKind → Text → Event
new_event id now stream_id kind source = record {
  id = id;
  stream_id = stream_id;
  sequence = 0;
  timestamp = now;
  kind = kind;
  correlation_id = none;
  causation_id = none;
  source = source;
}

unfoldable pub with_correlation : Uuid → Event → Event
with_correlation corr event = record {
  id = event.id;
  stream_id = event.stream_id;
  sequence = event.sequence;
  timestamp = event.timestamp;
  kind = event.kind;
  correlation_id = some corr;
  causation_id = event.causation_id;
  source = event.source;
}

unfoldable pub with_causation : Uuid → Event → Event
with_causation cause event = record {
  id = event.id;
  stream_id = event.stream_id;
  sequence = event.sequence;
  timestamp = event.timestamp;
  kind = event.kind;
  correlation_id = event.correlation_id;
  causation_id = some cause;
  source = event.source;
}
