-- ===== src/Esaa/Replay.antt =====
-- approval.rs, `replay_unfulfilled_approvals`: the approvals that a restart left open. It pages
-- through the store by `tail` (events/store/sqlite.rs) and acts on the bus (events/bus.rs).
pub mod Pages
pub mod Requests
pub mod Loop
pub mod Settled
use zymi_core.Prelude.{
  ℕ, zero, suc, ◌+◌, ◌*◌, Bool, true, false, Option, none, some, List, [], ◌∷◌, ◌++◌, ltb, leb,
  if◌then◌else◌, length, take, is_some, lookup, insert_entry, Outcome, done, fault, panic,
  out_of_fuel, ◌>>=◌, Text, codes,
}
use zymi_core.Events.{
  Uuid, Event, EventKind, approval_requested, approval_granted, approval_denied, new_event,
  with_correlation,
}
use zymi_core.Bus.{EventBus, publish, redeliver}

-- What lies outside of this code: the identifiers and times that are drawn, which appends succeed,
-- the global number that the store gives to the event at a position, the conversion of a duration
-- by the crate `chrono`, and the order in which a map's entries are iterated.
pub record Restart : Type 0 where
  pub fresh_id : ℕ → Uuid
  pub stamp : ℕ → ℕ
  pub now : ℕ
  pub appends : ℕ → Bool
  pub global : ℕ → ℕ
  pub from_std : ℕ → Option ℕ
  pub iterate : List (Text × Event) → List (Text × Event)

pub record TailedEvent : Type 0 where
  pub global_seq : ℕ
  pub event : Event

-- The rows of the store, from a position on.
unfoldable pub numbered : (ℕ → ℕ) → ℕ → List Event → List TailedEvent
numbered global n [] = []
numbered global n (e ∷ es) =
    record { global_seq = global n; event = e } ∷ numbered global (suc n) es

-- `WHERE id > ?1`
unfoldable pub beyond : ℕ → List TailedEvent → List TailedEvent
beyond after [] = []
beyond after (t ∷ ts) = if ltb after t.global_seq then t ∷ beyond after ts else beyond after ts

unfoldable pub tail : List TailedEvent → ℕ → ℕ → List TailedEvent
unfolding beyond
tail rows after limit = take limit (beyond after rows)

-- A time or duration counts nanoseconds.
abbrev pub seconds : ℕ → ℕ
seconds n = n * 1000000000

-- What the first pass collects: the requests, and the set of identifiers decided on.
pub record Collected : Type 0 where
  pub pending : List (Text × Event)
  pub decided : List (Text × Unit {0})

abbrev pub nothing : Collected
nothing = record { pending = []; decided = [] }

abbrev pub note : Event → EventKind → Collected → Collected
note event (approval_requested id stream_id description explanation channel) c = record {
  pending = insert_entry id event c.pending;
  decided = c.decided;
}
note event (approval_granted id stream_id decided_by reason) c = record {
  pending = c.pending;
  decided = insert_entry id tt c.decided;
}
note event (approval_denied id stream_id decided_by reason) c = record {
  pending = c.pending;
  decided = insert_entry id tt c.decided;
}
note event _ c = c

-- The loop over a page.
unfoldable pub note_page : List TailedEvent → Collected → Collected
note_page [] c = c
note_page (t ∷ ts) c = note_page ts (note t.event t.event.kind c)

unfoldable pub last_seq : ℕ → List TailedEvent → ℕ
last_seq seq [] = seq
last_seq seq (t ∷ ts) = last_seq t.global_seq ts

-- The first pass, on fuel.
unfoldable pub collect : ℕ → ℕ → List TailedEvent → ℕ → Collected → Outcome Collected
unfolding tail note_page last_seq
collect zero batch rows from c = fault out_of_fuel
collect (suc fuel) batch rows from c = elim (tail rows from batch) [
  | [] ↦ done c
  | t ∷ ts ↦
      let c' = note_page (t ∷ ts) c in
      let rest = collect fuel batch rows (last_seq t.global_seq ts) c' in
      if ltb (length (t ∷ ts)) batch then done c' else rest
]

-- `pending.retain(…)`
unfoldable pub undecided : List (Text × Unit {0}) → List (Text × Event) → List (Text × Event)
unfolding lookup
undecided decided [] = []
undecided decided ((id, e) ∷ m) =
    if is_some (lookup id decided) then undecided decided m else (id, e) ∷ undecided decided m

pub record ApprovalReplayReport : Type 0 where
  pub expired : List Text
  pub redelivered : List Text

-- The bus, the number of publications so far, and the report.
pub record Replayed : Type 0 where
  pub bus : EventBus
  pub tick : ℕ
  pub report : ApprovalReplayReport

abbrev pub stream_of : EventKind → Outcome Text
stream_of (approval_requested id stream_id description explanation channel) = done stream_id
stream_of _ = fault panic

abbrev pub correlated : Option Uuid → Event → Event
correlated none e = e
correlated (some corr) e = with_correlation corr e

module _ (h : Restart) where
  unfoldable pub restart_denial : Text → Event → Text → ℕ → Event
  unfolding new_event with_correlation
  restart_denial id ev stream_id tick = correlated ev.correlation_id (
      new_event (h.fresh_id tick) (h.stamp tick) stream_id
        (approval_denied id stream_id (codes "orchestrator") (some (codes "restart_timeout")))
        (codes "orchestrator"))

  -- A request that has expired.
  unfoldable pub seal : Text → Event → Text → Replayed → Replayed
  unfolding restart_denial publish
  seal id ev stream_id s =
      let (bus, sent) = publish (h.appends s.tick) (restart_denial id ev stream_id s.tick) s.bus in
      if sent
      then record {
        bus = bus;
        tick = suc s.tick;
        report = record {
          expired = s.report.expired ++ id ∷ [];
          redelivered = s.report.redelivered;
        };
      }
      else record { bus = bus; tick = suc s.tick; report = s.report }

  -- A request that is still in time.
  unfoldable pub repeat_request : Text → Event → Replayed → Replayed
  unfolding redeliver
  repeat_request id ev s = record {
    bus = redeliver ev s.bus;
    tick = s.tick;
    report = record { expired = s.report.expired; redelivered = s.report.redelivered ++ id ∷ [] };
  }

  -- `age >= timeout`
  abbrev pub is_aged : ℕ → Event → Bool
  is_aged timeout ev = leb (ev.timestamp + timeout) h.now

  -- The second pass.
  unfoldable pub replay_all : ℕ → List (Text × Event) → Replayed → Outcome Replayed
  unfolding seal repeat_request
  replay_all timeout [] s = done s
  replay_all timeout ((id, ev) ∷ entries) s =
      let sealed = (do
        stream_id ← stream_of ev.kind
        replay_all timeout entries (seal id ev stream_id s)) in
      let repeated = replay_all timeout entries (repeat_request id ev s) in
      if is_aged timeout ev then sealed else repeated

  -- Five minutes, if the conversion fails.
  abbrev pub timeout_chrono : ℕ → ℕ
  timeout_chrono timeout = elim (h.from_std timeout) [ none ↦ seconds 300 | some t ↦ t ]

  abbrev pub untouched : EventBus → Replayed
  untouched bus = record { bus = bus; tick = 0; report = record { expired = []; redelivered = [] } }

  abbrev pub conclude_replay : ℕ → EventBus → List (Text × Event) → Outcome Replayed
  conclude_replay timeout bus [] = done (untouched bus)
  conclude_replay timeout bus (p ∷ pending) =
      replay_all (timeout_chrono timeout) (h.iterate (p ∷ pending)) (untouched bus)

  -- Pages of 1024. Each round of the first pass passes over an event at least.
  unfoldable pub replay_unfulfilled_approvals : ℕ → EventBus → Outcome Replayed
  unfolding numbered collect undecided replay_all
  replay_unfulfilled_approvals timeout bus = do
    c ← collect (suc (length bus.store)) 1024 (numbered h.global 0 bus.store) 0 nothing
    conclude_replay timeout bus (undecided c.decided c.pending)
