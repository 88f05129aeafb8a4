-- ===== src/Esaa/Projections.antt =====
-- esaa/projections.rs: states rebuilt from the events. A `HashMap` is the list of its entries. A
-- `u64` wraps around, as it does in a release build.
pub mod Memory
use zymi_core.Prelude.{
  ℕ, ◌+◌, ◌^◌, Bool, true, false, Option, none, some, List, [], ◌∷◌, ◌++◌, if◌then◌else◌, Text,
  text_eq, is_empty, lookup, insert_entry, remove_entry,
}
use Prim.Native.Nat.{◌%◌}
use zymi_core.Events.{
  Event, EventKind, Message, assistant, TokenUsage, user_message_received, response_ready,
  llm_call_completed, tool_call_completed, memory_written, memory_deleted,
}

pub record ConversationProjection : Type 0 where
  pub conversation_id : Text
  pub messages : List Message

abbrev pub new_conversation : Text → ConversationProjection
new_conversation id = record { conversation_id = id; messages = [] }

abbrev pub said : EventKind → List Message
said (user_message_received content connector) = content ∷ []
said (response_ready id content) = assistant (some content) [] ∷ []
said _ = []

unfoldable pub apply_conversation : ConversationProjection → Event → ConversationProjection
apply_conversation p event =
    if text_eq event.stream_id p.conversation_id
    then record p { messages = p.messages ++ said event.kind }
    else p

-- `+=` on a `u64`.
abbrev pub add_u64 : ℕ → ℕ → ℕ
add_u64 a b = (a + b) % 2 ^ 64

pub record MetricsProjection : Type 0 where
  pub llm_calls : ℕ
  pub tool_calls : ℕ
  pub total_input_tokens : ℕ
  pub total_output_tokens : ℕ
  pub total_cached_input_tokens : ℕ
  pub errors : ℕ

abbrev pub new_metrics : MetricsProjection
new_metrics = record {
  llm_calls = 0;
  tool_calls = 0;
  total_input_tokens = 0;
  total_output_tokens = 0;
  total_cached_input_tokens = 0;
  errors = 0;
}

abbrev pub count_usage : Option TokenUsage → MetricsProjection → MetricsProjection
count_usage none m = m
count_usage (some u) m = record m {
  total_input_tokens = add_u64 m.total_input_tokens u.input_tokens;
  total_output_tokens = add_u64 m.total_output_tokens u.output_tokens;
  total_cached_input_tokens = add_u64 m.total_cached_input_tokens u.cached_input_tokens;
}

abbrev pub count_kind : EventKind → MetricsProjection → MetricsProjection
count_kind (llm_call_completed message has_tool_calls usage preview reason) m =
    count_usage usage (record m { llm_calls = add_u64 m.llm_calls 1 })
count_kind (tool_call_completed id result preview is_error duration replayed) m =
    let counted = record m { tool_calls = add_u64 m.tool_calls 1 } in
    if is_error then record counted { errors = add_u64 counted.errors 1 } else counted
count_kind _ m = m

unfoldable pub apply_metrics : MetricsProjection → Event → MetricsProjection
apply_metrics m event = count_kind event.kind m

pub record MemoryEntry : Type 0 where
  pub value : Text
  pub written_at_seq : ℕ

abbrev pub MemoryProjection : Type 0
MemoryProjection = List (Text × MemoryEntry)

abbrev pub new_memory : MemoryProjection
new_memory = []

abbrev pub value_of : Option MemoryEntry → Option Text
value_of none = none
value_of (some e) = some e.value

abbrev pub seq_of : Option MemoryEntry → Option ℕ
seq_of none = none
seq_of (some e) = some e.written_at_seq

unfoldable pub get : MemoryProjection → Text → Option Text
unfolding lookup
get m key = value_of (lookup key m)

unfoldable pub snapshot : MemoryProjection → List (Text × Text)
snapshot [] = []
snapshot ((key, e) ∷ m) = (key, e.value) ∷ snapshot m

unfoldable pub seq_for : MemoryProjection → Text → Option ℕ
unfolding lookup
seq_for m key = seq_of (lookup key m)

unfoldable pub is_empty_memory : MemoryProjection → Bool
unfolding is_empty
is_empty_memory m = is_empty m

abbrev pub remember : ℕ → EventKind → MemoryProjection → MemoryProjection
remember sequence (memory_written key value previous) m =
    insert_entry key (record { value = value; written_at_seq = sequence }) m
remember sequence (memory_deleted key previous) m = remove_entry key m
remember sequence _ m = m

unfoldable pub apply_memory : MemoryProjection → Event → MemoryProjection
apply_memory m event = remember event.sequence event.kind m

-- The events applied in order.
unfoldable pub replay {ℓ} : {P : Type ℓ} → (P → Event → P) → P → List Event → P
replay apply p [] = p
replay apply p (event ∷ events) = replay apply (apply p event) events
