-- ===== src/Esaa/Projections/Memory.antt =====
-- esaa/projections.rs: the memory that the events make.
use zymi_core.Prelude.{
  ℕ, ◌≡◌, refl, ap, sym, ◌∙◌, Option, none, some, List, [], ◌∷◌, ◌++◌, reverse, if◌then◌else◌, Text,
  text_eq, lookup, lookup-insert_entry, lookup-remove_entry, Bool-cases, inl, inr,
}
use mathlib.Core.List.{reverse-cons}
use zymi_core.Events.{Event, EventKind, memory_written, memory_deleted}
use zymi_core.Esaa.Projections.{
  MemoryEntry, MemoryProjection, new_memory, value_of, seq_of, get, seq_for, remember, apply_memory,
  replay,
}

-- What an event does to a key: nothing, a write, a deletion.
pub data Effect : Type 0 where
  untouched : Effect
  written : MemoryEntry → Effect
  deleted : Effect

abbrev pub effect_on : Text → ℕ → EventKind → Effect
effect_on v sequence (memory_written key value previous) =
    if text_eq v key
    then written (record { value = value; written_at_seq = sequence })
    else untouched
effect_on v sequence (memory_deleted key previous) = if text_eq v key then deleted else untouched
effect_on v sequence _ = untouched

-- What the key held before, if the event does not touch it.
abbrev pub after_effect : Effect → Option MemoryEntry → Option MemoryEntry
after_effect untouched before = before
after_effect (written e) before = some e
after_effect deleted before = none

-- What the last event says that touches the key: the events are given from the last on.
unfoldable pub latest : Text → List Event → Option MemoryEntry
latest v [] = none
latest v (event ∷ earlier) = after_effect (effect_on v event.sequence event.kind) (latest v earlier)

lookup-remember :
    (v : Text) (sequence : ℕ) (k : EventKind) (m : MemoryProjection)
    → lookup v (remember sequence k m) ≡ after_effect (effect_on v sequence k) (lookup v m)
lookup-remember v sequence (memory_written key value previous) m =
    elim (Bool-cases (text_eq v key)) [
      | inl e ↦
          rw (lookup-insert_entry v key (record { value = value; written_at_seq = sequence }) m, e)
            refl
      | inr e ↦
          rw (lookup-insert_entry v key (record { value = value; written_at_seq = sequence }) m, e)
            refl
    ]
lookup-remember v sequence (memory_deleted key previous) m = elim (Bool-cases (text_eq v key)) [
  | inl e ↦ rw (lookup-remove_entry v key m, e) refl
  | inr e ↦ rw (lookup-remove_entry v key m, e) refl
]
lookup-remember v sequence _ m = refl

-- What a key held at the start stands behind all events.
latest_from : Text → Option MemoryEntry → List Event → Option MemoryEntry
latest_from v start [] = start
latest_from v start (event ∷ earlier) =
    after_effect (effect_on v event.sequence event.kind) (latest_from v start earlier)

latest_from-append :
    (v : Text) (start : Option MemoryEntry) (xs : List Event) (event : Event)
    → latest_from v start (xs ++ event ∷ [])
      ≡ latest_from v (after_effect (effect_on v event.sequence event.kind) start) xs
unfolding latest_from
latest_from-append v start [] event = refl
latest_from-append v start (x ∷ xs) event =
    ap (after_effect (effect_on v x.sequence x.kind)) (latest_from-append v start xs event)

latest_from-none : (v : Text) (xs : List Event) → latest_from v none xs ≡ latest v xs
unfolding latest_from latest
latest_from-none v [] = refl
latest_from-none v (x ∷ xs) =
    ap (after_effect (effect_on v x.sequence x.kind)) (latest_from-none v xs)

lookup-replay :
    (v : Text) (m : MemoryProjection) (events : List Event)
    → lookup v (replay apply_memory m events) ≡ latest_from v (lookup v m) (reverse events)
unfolding replay latest_from apply_memory
lookup-replay v m [] = refl
lookup-replay v m (event ∷ events) =
    lookup-replay v (apply_memory m event) events
    ∙ ap (λ s. latest_from v s (reverse events)) (lookup-remember v event.sequence event.kind m)
    ∙ sym (
        ap (latest_from v (lookup v m)) (reverse-cons event events)
        ∙ latest_from-append v (lookup v m) (reverse events) event)

-- The memory that events rebuild, read at a key, is what the last event says that wrote or deleted
-- the key: its value and its sequence, or nothing after a deletion or where no event touches it.
pub get-replay :
    (key : Text) (events : List Event)
    → (get (replay apply_memory new_memory events) key ≡ value_of (latest key (reverse events)))
      × (seq_for (replay apply_memory new_memory events) key ≡ seq_of (latest key (reverse events)))
unfolding get seq_for lookup
get-replay key events =
    let found = lookup-replay key new_memory events ∙ latest_from-none key (reverse events) in
    (ap value_of found, ap seq_of found)
