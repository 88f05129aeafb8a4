-- ===== src/Esaa/Orchestrator/Records.antt =====
-- What a run leaves in the log.
pub mod Asks
use zymi_core.Prelude.{
  ℕ, ◌≡◌, refl, sym, ap, ◌∙◌, inl, inr, ◌⊎◌, Bool, true, false, Option, none, some, List, [], ◌∷◌,
  ◌++◌, append_assoc, append-nil, Any, All, Outcome-cases, done, Text, codes,
}
use zymi_core.Events.{
  Uuid, Event, EventKind, intention_emitted, intention_evaluated, approval_requested, new_event,
  with_correlation,
}
use zymi_core.Policy.Engine.{Host}
use zymi_core.Esaa.Intentions.{Intention, tag, IntentionVerdict, requires_human_approval}
use zymi_core.Esaa.Intentions as Intentions
use zymi_core.Esaa.Contracts.{ContractEngine, evaluate_intention}
use zymi_core.Esaa.Approval.{
  World, Journal, publish, own_event, request, timeout_denial, conclude_wait, await_decision,
  received,
}
use zymi_core.Esaa.Approval.Decides.{Verdict, FirstVerdict, await_decision_iff}
use zymi_core.Esaa.Orchestrator.{
  ApprovalContext, denied, upgrade, verdict_str, emit, unrouted_request, unrouted_denial, handle,
  settle, process_intention,
}
use zymi_core.Esaa.Orchestrator.Gate.{request-sent, process-done, process-fault}

module _ (w : World) (stream_id : Text) (corr : Uuid) where
  -- A request of this run's approval, and a decision on it.
  abbrev pub IsRequest : Event → Type 0
  IsRequest event =
      (description channel : Text) × (explanation : Option Text) × (event.kind
        ≡ approval_requested w.approval_id stream_id description explanation channel)

  abbrev pub IsDecision : Event → Type 0
  IsDecision event = Verdict w.approval_id true event.kind ⊎ Verdict w.approval_id false event.kind

  -- No approval is left open by these events: none is requested, or a decision is among them or
  -- among the events that arrived.
  abbrev pub IsClosed : List Event → Type 0
  IsClosed events =
      All (λ event. ¬ IsRequest event) events
      ⊎ (Any IsDecision events ⊎ Any IsDecision (received (some corr) w.arrivals))

  FirstVerdict-decided :
      (verdict : Bool) (events : List Event)
      → FirstVerdict w.approval_id verdict events
      → Any IsDecision events
  FirstVerdict-decided verdict [] h = elim h [ ]
  FirstVerdict-decided true (event ∷ events) (inl v) = inl (inl v)
  FirstVerdict-decided false (event ∷ events) (inl v) = inl (inr v)
  FirstVerdict-decided verdict (event ∷ events) (inr (a, b, c)) =
      inr (FirstVerdict-decided verdict events c)

  module _ (kept : (n : ℕ) → w.appends n ≡ true) where
    emit-log :
        (kind : EventKind) (j : Journal)
        → (emit w stream_id corr kind j).log ≡ j.log ++ own_event w stream_id corr kind j ∷ []
    unfolding emit publish
    emit-log kind j = rw (emit, publish, kept j.tick) refl

    -- The events that a step from `j` adds.
    abbrev Adds : Journal → Journal → List Event → Type 0
    Adds j after events = after.log ≡ j.log ++ events

    Adds-emit :
        (kind : EventKind) (j after : Journal) (events : List Event)
        → Adds j after events
        → Adds j
            (emit w stream_id corr kind after)
            (events ++ own_event w stream_id corr kind after ∷ [])
    Adds-emit kind j after events a =
        emit-log kind after
        ∙ ap (λ (l : List Event). l ++ own_event w stream_id corr kind after ∷ []) a
        ∙ append_assoc j.log events (own_event w stream_id corr kind after ∷ [])

    Any-last :
        (P : Event → Type 0) (events : List Event) (event : Event)
        → P event
        → Any P (events ++ event ∷ [])
    Any-last P [] event p = inl p
    Any-last P (e ∷ events) event p = inr (Any-last P events event p)

    decided-after :
        (kind : EventKind) (j after : Journal) (events : List Event)
        → Verdict w.approval_id false kind
        → Adds j after events
        → (more : List Event) × Adds j (emit w stream_id corr kind after) more × IsClosed more
    unfolding own_event new_event with_correlation
    decided-after kind j after events v a = (
      events ++ own_event w stream_id corr kind after ∷ [],
      Adds-emit kind j after events a,
      inr (inl (Any-last IsDecision events (own_event w stream_id corr kind after) (inr v))),
    )

    conclude_wait-IsClosed :
        (o : Option Bool) (j after : Journal) (events : List Event)
        → await_decision w.approval_id (received (some corr) w.arrivals) ≡ o
        → Adds j after events
        → (more : List Event) × Adds j (conclude_wait w stream_id corr o after).0 more
          × IsClosed more
    unfolding conclude_wait emit timeout_denial
    conclude_wait-IsClosed none j after events e a =
        decided-after (timeout_denial w stream_id corr) j after events (stream_id, _, _, refl) a
    conclude_wait-IsClosed (some verdict) j after events e a =
        let arrived = received (some corr) w.arrivals in
        (
          events,
          a,
          inr (
              inr (
                FirstVerdict-decided verdict arrived
                  ((await_decision_iff w.approval_id verdict arrived).0 e))),
        )

    handle-IsClosed :
        (channel : Option Text) (verdict : IntentionVerdict) (j after : Journal)
        (events : List Event)
        → Adds j after events
        → All (λ event. ¬ IsRequest event) events
        → (more : List Event) × Adds j (handle w stream_id corr channel verdict after).0 more
          × IsClosed more
    unfolding handle unrouted_denial emit
    handle-IsClosed channel Intentions.approved j after events a n = (events, a, inl n)
    handle-IsClosed channel (Intentions.denied reason) j after events a n = (events, a, inl n)
    handle-IsClosed none (requires_human_approval reason) j after events a n =
        decided-after (unrouted_denial w stream_id corr) j _ _ (stream_id, _, _, refl)
          (Adds-emit (unrouted_request w stream_id corr reason) j after events a)
    handle-IsClosed (some channel) (requires_human_approval reason) j after events a n =
        let (more, b, c) =
          conclude_wait-IsClosed _ j _ _ refl
            (Adds-emit (request w stream_id corr channel reason none) j after events a) in
        (
          more,
          ap (λ p. p.0.log)
                (request-sent w stream_id corr channel reason none after (kept after.tick))
              ∙ b,
          c,
        )

    quiet-emitted :
        (name data' : Text) (j : Journal)
        → ¬ IsRequest (own_event w stream_id corr (intention_emitted name data') j)
    unfolding own_event new_event with_correlation
    quiet-emitted name data' j (d, c, x, q) = cc

    quiet-evaluated :
        (name verdict : Text) (j : Journal)
        → ¬ IsRequest (own_event w stream_id corr (intention_evaluated name verdict) j)
    unfolding own_event new_event with_correlation
    quiet-evaluated name verdict j (d, c, x, q) = cc

-- Where every append succeeds, a run only adds to the log, and leaves no approval open that it
-- asked for: a decision on it is among the events added, or among those that arrived. This holds
-- of every verdict, without a channel and on a timeout too, and if the contracts panic.
pub process_intention-IsClosed :
    (w : World) (host : Host) (contracts : ContractEngine) (to_json : Intention → Text)
    (intention : Intention) (approval : ApprovalContext) (stream_id : Text) (corr : Uuid)
    (j : Journal)
    → ((n : ℕ) → w.appends n ≡ true)
    → (events : List Event) × ((process_intention w stream_id corr host contracts to_json intention
          approval j).0.log
        ≡ j.log ++ events)
      × IsClosed w stream_id corr events
unfolding settle
process_intention-IsClosed w host contracts to_json intention approval stream_id corr j kept =
    let start = Adds-emit w stream_id corr kept emitted j j [] (sym (append-nil j.log)) in
    let first = quiet-emitted w stream_id corr kept (tag intention) (to_json intention) j in
    elim (Outcome-cases (evaluate_intention host contracts intention)) [
      | inr (x, e) ↦ (
        _,
        ap (λ p. p.0.log)
              (process-fault w host contracts to_json intention approval stream_id corr j x e)
            ∙ start,
        inl (first, tt),
      )
      | inl (verdict, e) ↦
          let seen = upgrade verdict approval.force_human in
          let (events, a, c) =
            handle-IsClosed w stream_id corr kept approval.channel seen j _ _
              (Adds-emit w stream_id corr kept
                (intention_evaluated (tag intention) (verdict_str seen)) j _ _ start)
              (
                first,
                (
                  quiet-evaluated w stream_id corr kept (tag intention) (verdict_str seen)
                      (emit w stream_id corr emitted j),
                  tt,
                ),
              ) in
          (
            events,
            ap (λ p. p.0.log)
                  (process-done w host contracts to_json intention approval stream_id corr j verdict
                    e)
                ∙ a,
            c,
          )
    ]
  where
    emitted : EventKind
    emitted = intention_emitted (tag intention) (to_json intention)
