-- ===== src/Esaa/ProjectionExamples.antt =====
-- esaa/projections.rs at concrete events.
use zymi_core.Prelude.{
  ℕ, ◌≡◌, refl, none, some, List, [], ◌∷◌, reverse, codes, text_eq, lookup, insert_entry,
  remove_entry,
}
use zymi_core.Events.{Event, EventKind, memory_written, memory_deleted}
use zymi_core.Esaa.Projections.{new_memory, value_of, seq_of, get, seq_for, apply_memory, replay}
use zymi_core.Esaa.Projections.Memory.{latest, get-replay}

abbrev numbered : ℕ → EventKind → Event
numbered sequence kind = record {
  id = sequence;
  stream_id = codes "s";
  sequence = sequence;
  timestamp = 0;
  kind = kind;
  correlation_id = none;
  causation_id = none;
  source = codes "test";
}

abbrev written_twice : List Event
written_twice =
    numbered 4 (memory_written (codes "k") (codes "a") none)
    ∷ numbered 6 (memory_written (codes "k") (codes "b") (some 4))
    ∷ numbered 7 (memory_written (codes "l") (codes "c") none)
    ∷ numbered 9 (memory_deleted (codes "l") 7)
    ∷ []

last_value : get (replay apply_memory new_memory written_twice) (codes "k") ≡ some (codes "b")
unfolding get replay apply_memory lookup insert_entry remove_entry text_eq
last_value = refl

deleted_value : get (replay apply_memory new_memory written_twice) (codes "l") ≡ none
unfolding get replay apply_memory lookup insert_entry remove_entry text_eq
deleted_value = refl

get-replay_example :
    (get (replay apply_memory new_memory written_twice) (codes "k")
      ≡ value_of (latest (codes "k") (reverse written_twice)))
    × (seq_for (replay apply_memory new_memory written_twice) (codes "k")
        ≡ seq_of (latest (codes "k") (reverse written_twice)))
get-replay_example = get-replay (codes "k") written_twice
