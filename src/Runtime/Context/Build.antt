-- ===== src/Runtime/Context/Build.antt =====
-- runtime/context_builder.rs: `ContextBuilder::build` and the compaction that it may start.
use zymi_core.Prelude.{
  ℕ, suc, ◌+◌, ◌-◌, false, Option, none, some, List, [], ◌∷◌, ◌++◌, ◌==◌, leb, ltb, if◌then◌else◌,
  length, get_elem?, Outcome, done, fault, panic, ◌>>=◌, Text, codes, is_empty, byte_len,
}
use zymi_core.Events.{
  Event, EventKind, new_event, with_correlation, llm_call_started, llm_call_completed,
  context_compacted, TokenUsage, Message, system, user, assistant,
}
use zymi_core.Runtime.Window.{
  identify_segments, count_turns, slice, drop_until, forget_old_turns, mask_observations,
  approx_chars,
}
use zymi_core.Runtime.Context.{
  ContextBuilder, Draws, Trace, ContextResult, ok, err, hard_cap_exceeded, events_to_messages,
  events_to_messages_with_seqs, total_chars, format_turns_for_compaction, truncate_str, difference,
}

abbrev pub compaction_prompt : Text
compaction_prompt =
    codes "You are compressing a sequence of masked observations from an autonomous "
    ++ codes "agent's history. Each entry shows what tool was called and whether it "
    ++ codes "succeeded. Produce a single paragraph summarizing: (a) what the agent "
    ++ codes "accomplished in this span, (b) any errors or dead ends, (c) any decisions "
    ++ codes "the agent committed to. Do NOT preserve individual tool call details — "
    ++ codes "the summary replaces them entirely."

unfoldable pub max_sequence : List Event → ℕ
max_sequence [] = 0
max_sequence (e ∷ es) =
    let rest = max_sequence es in if ltb rest e.sequence then e.sequence else rest

-- The sequence that the store gives to the next event of a stream.
unfoldable pub next_seq : List Event → ℕ
unfolding max_sequence
next_seq es = max_sequence es + 1

abbrev pub memory_line : Text × Text → Text
memory_line (key, value) = key ++ codes ": " ++ truncate_str value 200 ++ codes "\n"

abbrev pub memory_lines : List (Text × Text) → Text
memory_lines [] = []
memory_lines (p ∷ ps) = memory_line p ++ memory_lines ps

abbrev pub memory_layer : List (Text × Text) → List Message
memory_layer [] = []
memory_layer (p ∷ ps) = system (codes "[memory]\n" ++ memory_lines (p ∷ ps)) ∷ []

unfoldable pub since : ℕ → List Event → List Event
since cutoff [] = []
since cutoff (e ∷ es) = if leb cutoff e.timestamp then e ∷ since cutoff es else since cutoff es

abbrev pub fresh_events : Option ℕ → List Event → List Event
fresh_events none events = events
fresh_events (some cutoff) events = since cutoff events

abbrev pub forget_after : Option ℕ → List Message → Outcome (List Message)
forget_after none tail = done tail
forget_after (some keep) tail = forget_old_turns tail keep

abbrev pub summary_of : Message → Text
summary_of (assistant (some content) tool_calls) = content
summary_of _ = []

-- `tagged[i].1`
abbrev pub seq_at : List (Message × ℕ) → ℕ → Outcome ℕ
seq_at tagged i = elim (get_elem? tagged i) [ none ↦ fault panic | some p ↦ done p.1 ]

module _ (b : ContextBuilder) (w : Draws) where
  -- The messages in front of the tail.
  unfoldable pub prefix : List Message
  unfolding truncate_str is_empty
  prefix =
      system b.system_prompt
      ∷ ((if is_empty b.task then [] else user b.task ∷ []) ++ memory_layer b.snapshot)

  -- The tail that events make.
  unfoldable pub tail_of : List Event → Outcome (List Message)
  unfolding events_to_messages forget_old_turns mask_observations
  tail_of events = do
    tail ← forget_after b.config.forget_after_turns (events_to_messages events)
    mask_observations b.json tail b.config.observation_window

  -- `emit_compaction_event`: an append that fails is only logged.
  unfoldable pub emit_compaction_event : EventKind → Trace → Trace
  unfolding new_event with_correlation next_seq
  emit_compaction_event kind trace =
      let event = with_correlation w.correlation (
        new_event (w.fresh_id trace.tick) (w.stamp trace.tick) b.stream_id kind
          (codes "compaction")) in
      if w.appends trace.tick
      then record {
        stream = trace.stream ++ (record event { sequence = next_seq trace.stream }) ∷ [];
        tick = suc trace.tick;
      }
      else record { stream = trace.stream; tick = suc trace.tick }

  -- What the model's answer adds to the stream.
  unfoldable pub note_reply : List Message → ℕ → ℕ → Message → TokenUsage → Trace → Trace
  unfolding emit_compaction_event total_chars difference truncate_str byte_len
  note_reply batch lo hi reply usage trace =
      let summary = summary_of reply in
      let completed =
        llm_call_completed (some reply) false (some usage) (some (truncate_str summary 100)) none in
      let compacted =
        context_compacted (lo, hi) summary (difference (total_chars batch) (byte_len summary)) in
      emit_compaction_event compacted (emit_compaction_event completed trace)

  -- From the model's answer on.
  unfoldable pub replace_span :
      List Message
      → List Message
      → ℕ
      → ℕ
      → Message
      → TokenUsage
      → Trace
      → Outcome (List Message × Trace)
  unfolding note_reply tail_of
  replace_span front batch lo hi reply usage trace = do
    let after = note_reply batch lo hi reply usage trace
    masked ← tail_of after.stream
    done (front ++ masked, after)

  unfoldable pub compaction_request : List Message → List Message
  unfolding format_turns_for_compaction
  compaction_request batch =
      system compaction_prompt ∷ user (format_turns_for_compaction batch) ∷ []

  unfoldable pub note_request : List Message → Trace → Trace
  unfolding emit_compaction_event approx_chars
  note_request asked trace =
      emit_compaction_event (llm_call_started 0 (length asked) (approx_chars asked)) trace

  unfoldable pub compact_span :
      (List Message → Option (Message × TokenUsage))
      → List Message
      → List Message
      → List Message
      → ℕ
      → ℕ
      → Trace
      → Outcome (List Message × Trace)
  unfolding compaction_request note_request replace_span
  compact_span chat front body batch lo hi trace =
      let asked = compaction_request batch in
      elim (chat asked) [
        | none ↦ done (front ++ body, note_request asked trace)
        | some (reply, usage) ↦
            replace_span front batch lo hi reply usage (note_request asked trace)
      ]

  -- With the end of the compactable span within the body.
  unfoldable pub compact_to :
      (List Message → Option (Message × TokenUsage))
      → List Event
      → List Message
      → List Message
      → ℕ
      → Trace
      → Outcome (List Message × Trace)
  unfolding slice events_to_messages_with_seqs compact_span is_empty
  compact_to chat events front body end trace = do
    batch ← slice body 0 end
    let tagged = events_to_messages_with_seqs events
    let span = (do
      lo ← seq_at tagged 0
      hi ← seq_at tagged (end - 1)
      compact_span chat front body batch lo hi trace)
    if is_empty batch
        then done (front ++ body, trace)
        else if ltb (length tagged) end
        then done (front ++ body, trace)
        else span

  -- The messages are a front and a body.
  unfoldable pub try_compact :
      (List Message → Option (Message × TokenUsage))
      → List Event
      → List Message
      → List Message
      → Trace
      → Outcome (List Message × Trace)
  unfolding identify_segments count_turns drop_until compact_to is_empty
  try_compact chat events front body trace =
      let segs = identify_segments body in
      let compactable_turns = count_turns segs - b.config.min_tail_turns in
      let compacted =
        compact_to chat events front body (drop_until compactable_turns 0 0 segs) trace in
      if is_empty body
      then done (front ++ body, trace)
      else if compactable_turns == 0
      then done (front ++ body, trace)
      else compacted

  abbrev pub within_hard_cap : List Message × Trace → ContextResult × Trace
  within_hard_cap (messages, trace) =
      let final_chars = approx_chars messages in
      (
        if ltb b.config.hard_cap_chars final_chars
            then err (hard_cap_exceeded final_chars b.config.hard_cap_chars)
            else ok messages,
        trace,
      )

  -- With the provider and the bus, if there are.
  unfoldable pub within_soft_cap :
      Option (List Message → Option (Message × TokenUsage))
      → List Event
      → List Message
      → Trace
      → Outcome (List Message × Trace)
  unfolding prefix approx_chars try_compact
  within_soft_cap none events masked trace = done (prefix ++ masked, trace)
  within_soft_cap (some chat) events masked trace =
      let compacted = try_compact chat events prefix masked trace in
      if ltb b.config.soft_cap_chars (approx_chars (prefix ++ masked))
      then compacted
      else done (prefix ++ masked, trace)

  unfoldable pub build : List Event → Outcome (ContextResult × Trace)
  unfolding since tail_of approx_chars within_soft_cap
  build stream = do
    let events = fresh_events b.fresh_after stream
    masked ← tail_of events
    r ← within_soft_cap b.compaction events masked (record { stream = stream; tick = 0 })
    done (within_hard_cap r)
