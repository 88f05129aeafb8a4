-- ===== src/Esaa/Approval.antt =====
-- approval.rs, `request_approval_via_bus` and `resolve_channel`, on the log that the bus
-- (events/bus.rs) keeps in the store.
pub mod Decides
use zymi_core.Prelude.{
  ℕ, suc, Bool, true, false, ◌&&◌, Option, none, some, List, [], ◌∷◌, ◌++◌, ◌==◌, if◌then◌else◌,
  Text, codes, text_eq,
}
use zymi_core.Events.{
  Uuid, Event, EventKind, approval_requested, approval_granted, approval_denied, new_event,
  with_correlation,
}
use zymi_core.Bus.{accepts}

-- What a run meets outside of this code: the identifiers and times that are drawn, which of the
-- store's appends succeed, the name of the approval, and the events that the bus carries from the
-- request to the deadline, or to its own end. An event that the bus drops, since the channel of the
-- subscription holds four already, is not among the arrivals.
pub record World : Type 0 where
  pub fresh_id : ℕ → Uuid
  pub now : ℕ → ℕ
  pub appends : ℕ → Bool
  pub approval_id : Text
  pub arrivals : List Event

-- The events in the store, and the number of publications so far.
pub record Journal : Type 0 where
  pub log : List Event
  pub tick : ℕ

-- `EventBus::publish`, as far as the store: `false` if the append fails.
unfoldable pub publish : World → Event → Journal → Journal × Bool
publish w event j =
    if w.appends j.tick
    then (record { log = j.log ++ event ∷ []; tick = suc j.tick }, true)
    else (record { log = j.log; tick = suc j.tick }, false)

-- An event of the orchestrator about one request of a user.
unfoldable pub own_event : World → Text → Uuid → EventKind → Journal → Event
unfolding new_event with_correlation
own_event w stream_id corr kind j =
    with_correlation corr
      (new_event (w.fresh_id j.tick) (w.now j.tick) stream_id kind (codes "orchestrator"))

-- What the subscriber to a correlation receives of the arrivals.
unfoldable pub received : Option Uuid → List Event → List Event
unfolding accepts
received wanted [] = []
received wanted (event ∷ events) =
    if accepts wanted event then event ∷ received wanted events else received wanted events

-- What an event decides on an approval, in one round of the loop.
unfoldable pub decision : Text → EventKind → Option Bool
decision approval_id (approval_granted aid stream_id decided_by reason) =
    if text_eq aid approval_id then some true else none
decision approval_id (approval_denied aid stream_id decided_by reason) =
    if text_eq aid approval_id then some false else none
decision approval_id _ = none

-- The loop: `none` if it is left by `break`.
unfoldable pub await_decision : Text → List Event → Option Bool
await_decision approval_id [] = none
await_decision approval_id (event ∷ events) = elim (decision approval_id event.kind) [
  | some verdict ↦ some verdict
  | none ↦ await_decision approval_id events
]

module _ (w : World) (stream_id : Text) (corr : Uuid) where
  unfoldable pub request : Text → Text → Option Text → EventKind
  request channel description explanation =
      approval_requested w.approval_id stream_id description explanation channel

  unfoldable pub timeout_denial : EventKind
  timeout_denial =
      approval_denied w.approval_id stream_id (codes "orchestrator") (some (codes "timeout"))

  -- What is done once the request is published.
  unfoldable pub conclude_wait : Option Bool → Journal → Journal × Bool
  conclude_wait (some verdict) j = (j, verdict)
  conclude_wait none j = ((publish w (own_event w stream_id corr timeout_denial j) j).0, false)

  unfoldable pub request_approval_via_bus : Text → Text → Option Text → Journal → Journal × Bool
  request_approval_via_bus channel description explanation j =
      let (after, sent) =
        publish w (own_event w stream_id corr (request channel description explanation) j) j in
      if sent
      then conclude_wait (await_decision w.approval_id (received (some corr) w.arrivals)) after
      else (after, false)

-- `resolve_channel`.
unfoldable pub resolve_channel : Option Text → Option Text → Option Text
resolve_channel (some channel) project_default = some channel
resolve_channel none project_default = project_default
