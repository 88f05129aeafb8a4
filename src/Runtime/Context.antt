-- ===== src/Runtime/Context.antt =====
-- runtime/context_builder.rs: the context of an agent, built from the events of its stream. The model
-- that summarizes is a function; the database does not fail, save that an append may.
pub mod Build
pub mod Fits
pub mod Lost
use zymi_core.Prelude.{
  ℕ, suc, ◌+◌, ◌-◌, Bool, true, false, ◌&&◌, ◌||◌, Option, none, some, List, [], ◌∷◌, ◌++◌, map,
  ◌==◌, leb, ltb, if◌then◌else◌, length, get_elem?, Outcome, done, fault, panic, ◌>>=◌, Text, codes,
  is_empty, byte_len, floor_slice,
}
use zymi_core.Events.{
  Uuid, ℤ, pos, negsuc, Event, EventKind, new_event, with_correlation, user_message_received,
  llm_call_started, llm_call_completed, tool_call_completed, context_compacted, TokenUsage, Message,
  system, user, user_multimodal, assistant, tool_result,
}
use zymi_core.Runtime.Window.{
  SerdeJson, default_observation_window, identify_segments, count_turns, slice, drop_until,
  forget_old_turns, mask_observations, text_chars, approx_chars,
}

pub record ContextConfig : Type 0 where
  pub observation_window : ℕ
  pub soft_cap_chars : ℕ
  pub hard_cap_chars : ℕ
  pub min_tail_turns : ℕ
  pub forget_after_turns : Option ℕ

abbrev pub default_config : ContextConfig
default_config = record {
  observation_window = default_observation_window;
  soft_cap_chars = 400000;
  hard_cap_chars = 600000;
  min_tail_turns = 4;
  forget_after_turns = none;
}

pub data ContextError : Type 0 where
  hard_cap_exceeded : (total_chars hard_cap : ℕ) → ContextError

pub data ContextResult : Type 0 where
  ok : List Message → ContextResult
  err : ContextError → ContextResult

-- `compaction` is the model's answer to the messages it is asked with, where `with_compaction` gave
-- a provider and a bus. `snapshot` is that of the memory, in its order of iteration.
pub record ContextBuilder : Type 1 where
  pub json : SerdeJson
  pub snapshot : List (Text × Text)
  pub stream_id : Text
  pub system_prompt : Text
  pub task : Text
  pub config : ContextConfig
  pub compaction : Option (List Message → Option (Message × TokenUsage))
  pub fresh_after : Option ℕ

-- `ContextBuilder::new`, with what its memory holds.
abbrev pub new_builder :
    SerdeJson → List (Text × Text) → Text → Text → Text → ContextConfig → ContextBuilder
new_builder json snapshot stream_id system_prompt task config = record {
  json = json;
  snapshot = snapshot;
  stream_id = stream_id;
  system_prompt = system_prompt;
  task = task;
  config = config;
  compaction = none;
  fresh_after = none;
}

abbrev pub with_compaction :
    (List Message → Option (Message × TokenUsage)) → ContextBuilder → ContextBuilder
with_compaction chat b = record b { compaction = some chat }

abbrev pub with_fresh_after : ℕ → ContextBuilder → ContextBuilder
with_fresh_after cutoff b = record b { fresh_after = some cutoff }

-- The identifiers and times that are drawn, and which appends succeed.
pub record Draws : Type 0 where
  pub correlation : Uuid
  pub fresh_id : ℕ → Uuid
  pub stamp : ℕ → ℕ
  pub appends : ℕ → Bool

-- The stream in the store, and the number of publications so far.
pub record Trace : Type 0 where
  pub stream : List Event
  pub tick : ℕ

-- A compacted range, from its first to its last sequence, with its summary.
pub record Compaction : Type 0 where
  pub lo : ℕ
  pub hi : ℕ
  pub summary : Text

abbrev pub compaction_of : EventKind → List Compaction
compaction_of (context_compacted (lo, hi) summary bytes_saved) =
    record { lo = lo; hi = hi; summary = summary } ∷ []
compaction_of _ = []

unfoldable pub compactions : List Event → List Compaction
compactions [] = []
compactions (e ∷ es) = compaction_of e.kind ++ compactions es

-- `sort_by_key` by the start, which is stable.
unfoldable pub insert_start : Compaction → List Compaction → List Compaction
insert_start c [] = c ∷ []
insert_start c (d ∷ ds) = if leb c.lo d.lo then c ∷ d ∷ ds else d ∷ insert_start c ds

unfoldable pub sort_starts : List Compaction → List Compaction
unfolding insert_start
sort_starts [] = []
sort_starts (c ∷ cs) = insert_start c (sort_starts cs)

unfoldable pub in_compacted : ℕ → List Compaction → Bool
in_compacted seq [] = false
in_compacted seq (c ∷ cs) = (leb c.lo seq && leb seq c.hi) || in_compacted seq cs

-- The summary that is next, if it is due at this sequence, and those left after it.
abbrev pub due : ℕ → List Compaction → List (Message × ℕ)
due seq [] = []
due seq (c ∷ cs) =
    if c.lo == seq then (system (codes "[compacted history]\n" ++ c.summary), seq) ∷ [] else []

abbrev pub left_after : ℕ → List Compaction → List Compaction
left_after seq [] = []
left_after seq (c ∷ cs) = if c.lo == seq then cs else c ∷ cs

unfoldable pub message_of : EventKind → List Message
unfolding is_empty
message_of (llm_call_completed (some msg) has_tool_calls usage preview reason) = msg ∷ []
message_of (llm_call_completed none has_tool_calls usage preview reason) = assistant preview [] ∷ []
message_of (tool_call_completed id result preview is_error duration replayed) =
    tool_result id (if is_empty result then preview else result) ∷ []
message_of (user_message_received content connector) = content ∷ []
message_of _ = []

-- The second pass over the events, with the summaries that are left.
unfoldable pub convert : List Compaction → List Compaction → List Event → List (Message × ℕ)
unfolding in_compacted message_of
convert ranges summaries [] = []
convert ranges summaries (e ∷ es) =
    let compacted =
      due e.sequence summaries ++ convert ranges (left_after e.sequence summaries) es in
    let shown = map (λ m. (m, e.sequence)) (message_of e.kind) ++ convert ranges summaries es in
    if in_compacted e.sequence ranges then compacted else shown

unfoldable pub events_to_messages_with_seqs : List Event → List (Message × ℕ)
unfolding compactions sort_starts convert
events_to_messages_with_seqs events =
    convert (compactions events) (sort_starts (compactions events)) events

unfoldable pub events_to_messages : List Event → List Message
unfolding events_to_messages_with_seqs
events_to_messages events = map (λ p. p.0) (events_to_messages_with_seqs events)

unfoldable pub msg_chars : Message → ℕ
unfolding byte_len
msg_chars (system s) = byte_len s
msg_chars (user s) = byte_len s
msg_chars (assistant none tool_calls) = 0
msg_chars (assistant (some c) tool_calls) = byte_len c
msg_chars (tool_result id content) = byte_len content
msg_chars (user_multimodal parts) = text_chars parts

unfoldable pub total_chars : List Message → ℕ
unfolding msg_chars
total_chars [] = 0
total_chars (m ∷ ms) = msg_chars m + total_chars ms

abbrev pub format_turn : Message → Text
format_turn (assistant (some c) tool_calls) = codes "Assistant: " ++ c ++ codes "\n"
format_turn (assistant none tool_calls) = []
format_turn (tool_result id content) = codes "Tool result: " ++ content ++ codes "\n"
format_turn (system s) = s ++ codes "\n"
format_turn (user s) = codes "User: " ++ s ++ codes "\n"
format_turn (user_multimodal parts) = []

unfoldable pub format_turns_for_compaction : List Message → Text
format_turns_for_compaction [] = []
format_turns_for_compaction (m ∷ ms) = format_turn m ++ format_turns_for_compaction ms

unfoldable pub truncate_str : Text → ℕ → Text
unfolding byte_len floor_slice
truncate_str s max = if leb (byte_len s) max then s else floor_slice max s

-- `a as i64 - b as i64`
unfoldable pub difference : ℕ → ℕ → ℤ
difference a b = if leb b a then pos (a - b) else negsuc (b - a - 1)
