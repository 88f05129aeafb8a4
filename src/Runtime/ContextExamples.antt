-- ===== src/Runtime/ContextExamples.antt =====
-- runtime/context_builder.rs at concrete streams.
use zymi_core.Prelude.{
  ℕ, ◌+◌, ◌≡◌, refl, true, false, none, some, List, [], ◌∷◌, ◌++◌, done, Outcome, ◌>>=◌, Text,
  codes, is_empty, byte_len, len_utf8, arith,
}
use zymi_core.Events.{
  Event, EventKind, TokenUsage, Message, system, assistant, llm_call_completed, context_compacted,
  pos,
}
use zymi_core.Runtime.Window.{SerdeJson}
use zymi_core.Runtime.Context.{
  new_builder, with_compaction, with_fresh_after, ContextConfig, ContextBuilder, Draws, Trace,
  ContextResult, ok, Compaction, compactions, sort_starts, convert, events_to_messages,
  events_to_messages_with_seqs,
}
use zymi_core.Runtime.Context.Build.{prefix, build}
use zymi_core.Runtime.Context.Fits.{Extends, Fits, build-Fits}
use zymi_core.Runtime.Context.Lost.{events_to_messages_with_seqs-lost}

abbrev nothing_parsed : SerdeJson
nothing_parsed = record {
  Value = Text;
  from_str = λ s. none;
  as_object = λ v. none;
  get = λ v k. none;
  as_str = λ v. none;
}

abbrev at_seq : ℕ → EventKind → Event
at_seq n kind = record {
  id = n;
  stream_id = codes "s";
  sequence = n;
  timestamp = n;
  kind = kind;
  correlation_id = none;
  causation_id = none;
  source = codes "agent";
}

abbrev said : Text → EventKind
said t = llm_call_completed none false none (some t) none

abbrev turn : Text → Message
turn t = assistant (some t) []

abbrev usage : TokenUsage
usage = record {
  input_tokens = 1;
  output_tokens = 1;
  cached_input_tokens = 0;
  cache_creation_tokens = 0;
}

abbrev config : ContextConfig
config = record {
  observation_window = 10;
  soft_cap_chars = 0;
  hard_cap_chars = 1000;
  min_tail_turns = 1;
  forget_after_turns = none;
}

-- The model always answers the same.
abbrev builder : ContextBuilder
builder =
    with_compaction (λ _. some (turn (codes "sum"), usage))
      (new_builder nothing_parsed [] (codes "s") (codes "p") [] config)

abbrev draws : Draws
draws = record {
  correlation = 0;
  fresh_id = λ n. n + 100;
  stamp = λ n. n + 100;
  appends = λ _. true;
}

abbrev three_turns : List Event
three_turns =
    at_seq 1 (said (codes "a")) ∷ at_seq 2 (said (codes "b")) ∷ at_seq 3 (said (codes "c")) ∷ []

abbrev result_of : ContextResult × Trace → Outcome ContextResult
result_of (r, trace) = done r

abbrev compacted : Text → Message
compacted t = system (codes "[compacted history]\n" ++ t)

-- The two oldest turns are summarized; the model's answer comes up as a turn of the agent.
answer_is_shown :
    (build builder draws three_turns >>= result_of)
    ≡ done (
        ok (
          system (codes "p")
          ∷ compacted (codes "sum")
          ∷ turn (codes "c")
          ∷ turn (codes "sum")
          ∷ []))
unfolding build is_empty byte_len len_utf8
answer_is_shown = refl

abbrev compactions_of : ContextResult × Trace → Outcome (List Compaction)
compactions_of (r, trace) = done (compactions trace.stream)

-- With two turns kept of three, it is the second turn that is summarized, but the first one, already
-- forgotten, that the summary is recorded to replace.
wrong_span_is_replaced :
    (build
        (record builder { config = record config { forget_after_turns = some 2 } })
        draws
        three_turns
      >>= compactions_of)
    ≡ done (record { lo = 1; hi = 1; summary = codes "sum" } ∷ [])
unfolding build is_empty byte_len len_utf8 compactions
wrong_span_is_replaced = refl

-- Only what happened from time 2 on is to be shown; the compaction brings the rest back.
old_turn_comes_back :
    (build (with_fresh_after 2 builder) draws three_turns >>= result_of)
    ≡ done (
        ok (
          system (codes "p")
          ∷ turn (codes "a")
          ∷ compacted (codes "sum")
          ∷ turn (codes "c")
          ∷ turn (codes "sum")
          ∷ []))
unfolding build is_empty byte_len len_utf8
old_turn_comes_back = refl

build-Fits_example :
    (rest : List Message) × (after : Trace) × Extends 3 three_turns after.stream
    × Fits builder draws (prefix builder draws ++ rest) after (build builder draws three_turns)
build-Fits_example = build-Fits builder draws three_turns

-- The second summary covers the first one's start, since the first summary stands there.
abbrev first_summary : Compaction
first_summary = record { lo = 1; hi = 1; summary = codes "first" }

abbrev compacted_twice : List Event
compacted_twice =
    at_seq 1 (said (codes "a"))
    ∷ at_seq 2 (said (codes "b"))
    ∷ at_seq 3 (context_compacted (1, 1) (codes "first") (pos 0))
    ∷ at_seq 4 (context_compacted (1, 2) (codes "second") (pos 0))
    ∷ at_seq 5 (said (codes "c"))
    ∷ []

second_is_lost :
    events_to_messages compacted_twice ≡ compacted (codes "first") ∷ turn (codes "c") ∷ []
unfolding events_to_messages
second_is_lost = refl

events_to_messages_with_seqs-lost_example :
    events_to_messages_with_seqs compacted_twice
    ≡ convert (compactions compacted_twice) (first_summary ∷ []) compacted_twice
unfolding compactions sort_starts
events_to_messages_with_seqs-lost_example =
    events_to_messages_with_seqs-lost compacted_twice 0
      (omega arith, (omega arith, (omega arith, (omega arith, (omega arith, tt))))) first_summary
      (record { lo = 1; hi = 2; summary = codes "second" }) [] refl refl
