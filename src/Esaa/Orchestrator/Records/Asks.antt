-- ===== src/Esaa/Orchestrator/Records/Asks.antt =====
-- When a run asks a human.
use zymi_core.Prelude.{
  ℕ, ◌≡◌, refl, sym, ap, subst, ◌∙◌, inl, inr, true, Bool, Option, none, some, List, [], ◌∷◌, ◌++◌,
  append-nil, Any, All, Any-append, Outcome-cases, Text, codes,
}
use zymi_core.Events.{
  Uuid, Event, EventKind, intention_emitted, intention_evaluated, approval_requested, new_event,
  with_correlation,
}
use zymi_core.Policy.Engine.{Host}
use zymi_core.Esaa.Intentions.{Intention, tag, IntentionVerdict, requires_human_approval}
use zymi_core.Esaa.Intentions as Intentions
use zymi_core.Esaa.Contracts.{ContractEngine, evaluate_intention}
use zymi_core.Esaa.Approval.{
  World, Journal, own_event, request, timeout_denial, conclude_wait, await_decision, received,
}
use zymi_core.Esaa.Orchestrator.{
  ApprovalContext, upgrade, verdict_str, emit, unrouted_request, unrouted_denial, handle, settle,
  process_intention,
}
use zymi_core.Esaa.Orchestrator.Gate.{
  IsAsked, upgrade-IsAsked, request-sent, process-done, process-fault,
}
use zymi_core.Esaa.Orchestrator.Records.{
  IsRequest, Adds, Adds-emit, Any-last, quiet-emitted, quiet-evaluated,
}

All-not-Any :
    (P : Event → Type 0) (events : List Event) → All (λ event. ¬ P event) events → ¬ Any P events
All-not-Any P [] a p = elim p [ ]
All-not-Any P (e ∷ events) (n, a) (inl p) = n p
All-not-Any P (e ∷ events) (n, a) (inr p) = All-not-Any P events a p

-- The channel that a request names.
abbrev pub routed : Option Text → Text
routed none = codes "<none>"
routed (some channel) = channel

module _ (w : World) (stream_id : Text) (corr : Uuid) where
  -- The request of this run's approval, for this reason and on this channel.
  abbrev pub Requests : Option Text → Text → Event → Type 0
  Requests channel reason event =
      event.kind ≡ approval_requested w.approval_id stream_id reason none (routed channel)

  module _ (kept : (n : ℕ) → w.appends n ≡ true) where
    conclude_wait-Adds :
        (o : Option Bool) (j after : Journal) (events : List Event)
        → Adds w stream_id corr kept j after events
        → (more : List Event) × Adds w stream_id corr kept j
            (conclude_wait w stream_id corr o after).0
            (events ++ more)
    unfolding conclude_wait emit
    conclude_wait-Adds none j after events a =
        (_, Adds-emit w stream_id corr kept (timeout_denial w stream_id corr) j after events a)
    conclude_wait-Adds (some verdict) j after events a =
        ([], a ∙ ap (λ xs. j.log ++ xs) (sym (append-nil events)))

    -- What is asked by these events, for a verdict.
    abbrev IsAskedBy : Option Text → IntentionVerdict → List Event → Type 0
    IsAskedBy channel verdict events =
        ((reason : Text)
          → verdict ≡ requires_human_approval reason
          → Any (Requests channel reason) events)
        × (Any (IsRequest w stream_id corr) events
            → (reason : Text) × (verdict ≡ requires_human_approval reason))

    -- A request among the events, for the reason of the verdict.
    asked-by :
        (channel : Option Text) (reason : Text) (events : List Event)
        → Any (Requests channel reason) events
        → IsAskedBy channel (requires_human_approval reason) events
    asked-by channel reason events a = (
      (λ r e. let same : reason ≡ r = cc in subst (λ x. Any (Requests channel x) events) same a),
      (λ _. (reason, refl)),
    )

    handle-asks :
        (channel : Option Text) (verdict : IntentionVerdict) (j after : Journal)
        (events : List Event)
        → Adds w stream_id corr kept j after events
        → All (λ event. ¬ IsRequest w stream_id corr event) events
        → (more : List Event) × Adds w stream_id corr kept j
            (handle w stream_id corr channel verdict after).0
            more
          × IsAskedBy channel verdict more
    unfolding handle unrouted_request emit own_event new_event with_correlation request
    handle-asks channel Intentions.approved j after events a n = (
      events,
      a,
      ((λ r e. cc), (λ p. absurd (All-not-Any (IsRequest w stream_id corr) events n p))),
    )
    handle-asks channel (Intentions.denied reason) j after events a n = (
      events,
      a,
      ((λ r e. cc), (λ p. absurd (All-not-Any (IsRequest w stream_id corr) events n p))),
    )
    handle-asks none (requires_human_approval reason) j after events a n =
        let asked =
          Adds-emit w stream_id corr kept (unrouted_request w stream_id corr reason) j after events
            a in
        (
          _,
          Adds-emit w stream_id corr kept (unrouted_denial w stream_id corr) j _ _ asked,
          asked-by none reason _ (
              Any-append (Requests none reason) _ _
                (Any-last w stream_id corr kept (Requests none reason) events _ refl)),
        )
    handle-asks (some channel) (requires_human_approval reason) j after events a n =
        let asked =
          Adds-emit w stream_id corr kept (request w stream_id corr channel reason none) j after
            events a in
        let (more, b) =
          conclude_wait-Adds (await_decision w.approval_id (received (some corr) w.arrivals)) j _ _
            asked in
        (
          _,
          ap (λ p. p.0.log)
                (request-sent w stream_id corr channel reason none after (kept after.tick))
              ∙ b,
          asked-by (some channel) reason _ (
              Any-append (Requests (some channel) reason) _ more
                (Any-last w stream_id corr kept (Requests (some channel) reason) events _ refl)),
        )

-- Where every append succeeds, a run only adds to the log, and it records a request for approval
-- exactly if the contracts ask for a human, or approve an intention whose tool is marked. Such a
-- request, with that reason and on the channel of the run, or on `<none>` without one, is then among
-- the events added; if the contracts deny the intention, approve an unmarked one or panic, none is.
pub process_intention-asks :
    (w : World) (host : Host) (contracts : ContractEngine) (to_json : Intention → Text)
    (intention : Intention) (approval : ApprovalContext) (stream_id : Text) (corr : Uuid)
    (j : Journal)
    → ((n : ℕ) → w.appends n ≡ true)
    → (events : List Event) × ((process_intention w stream_id corr host contracts to_json intention
          approval j).0.log
        ≡ j.log ++ events)
      × ((reason : Text)
          → IsAsked (evaluate_intention host contracts intention) approval.force_human reason
          → Any (Requests w stream_id corr approval.channel reason) events)
      × (Any (IsRequest w stream_id corr) events
          → (reason : Text) × IsAsked
              (evaluate_intention host contracts intention)
              approval.force_human
              reason)
unfolding settle
process_intention-asks w host contracts to_json intention approval stream_id corr j kept =
    let start = Adds-emit w stream_id corr kept emitted j j [] (sym (append-nil j.log)) in
    let first = quiet-emitted w stream_id corr kept (tag intention) (to_json intention) j in
    elim (Outcome-cases (evaluate_intention host contracts intention)) [
      | inr (x, e) ↦ (
        _,
        ap (λ p. p.0.log)
              (process-fault w host contracts to_json intention approval stream_id corr j x e)
            ∙ start,
        (λ reason a. elim (rw e at a) [ inl q ↦ cc | inr (q, _) ↦ cc ]),
        (λ p. absurd (
            All-not-Any (IsRequest w stream_id corr) (own_event w stream_id corr emitted j ∷ [])
              (first, tt) p)),
      )
      | inl (verdict, e) ↦
          let seen = upgrade verdict approval.force_human in
          let (events, a, (asked, only)) =
            handle-asks w stream_id corr kept approval.channel seen j _ _
              (Adds-emit w stream_id corr kept
                (intention_evaluated (tag intention) (verdict_str seen)) j _ _ start)
              (
                first,
                (
                  quiet-evaluated w stream_id corr kept (tag intention) (verdict_str seen)
                      (emit w stream_id corr emitted j),
                  tt,
                ),
              ) in
          (
            events,
            ap (λ p. p.0.log)
                  (process-done w host contracts to_json intention approval stream_id corr j verdict
                    e)
                ∙ a,
            (λ reason q.
                asked reason ((upgrade-IsAsked verdict approval.force_human reason).1 (rw e at q))),
            λ p.
                let (reason, q) = only p in
                (reason, rw e ((upgrade-IsAsked verdict approval.force_human reason).0 q)),
          )
    ]
  where
    emitted : EventKind
    emitted = intention_emitted (tag intention) (to_json intention)
