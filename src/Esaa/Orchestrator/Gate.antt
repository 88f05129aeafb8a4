-- ===== src/Esaa/Orchestrator/Gate.antt =====
-- When an intention may be executed.
use zymi_core.Prelude.{
  ℕ, suc, ◌≡◌, ◌↔◌, refl, sym, ap, subst, ◌∙◌, inl, inr, ◌⊎◌, Bool, true, false, Option, none, some,
  Bool-cases, Outcome, Outcome-cases, Fault, done, fault, done-injective, Text,
}
use mathlib.Core.Bool.{true≢false}
use zymi_core.Events.{Uuid, EventKind, intention_emitted, intention_evaluated}
use zymi_core.Policy.Engine.{Host}
use zymi_core.Esaa.Intentions.{Intention, tag, IntentionVerdict, requires_human_approval}
use zymi_core.Esaa.Intentions as Intentions
use zymi_core.Esaa.Contracts.{ContractEngine, evaluate_intention}
use zymi_core.Esaa.Approval.{
  World, Journal, publish, own_event, request, conclude_wait, await_decision, received,
  request_approval_via_bus,
}
use zymi_core.Esaa.Approval.Decides.{FirstVerdict, await_decision_iff}
use zymi_core.Esaa.Orchestrator.{
  ApprovalContext, OrchestratorResult, approved, human_rejected, upgrade, verdict_str, emit, handle,
  settle, process_intention,
}

module _ (w : World) (stream_id : Text) (corr : Uuid) where
  -- The event of this number is recorded, and the first decision to arrive is a grant.
  abbrev pub IsGranted : ℕ → Type 0
  IsGranted tick =
      (w.appends tick ≡ true) × FirstVerdict w.approval_id true (received (some corr) w.arrivals)

  publish-sent :
      (kind : EventKind) (j : Journal)
      → (publish w (own_event w stream_id corr kind j) j).1 ≡ w.appends j.tick
  unfolding publish
  publish-sent kind j = elim (Bool-cases (w.appends j.tick)) [
    | inl e ↦ rw e refl
    | inr e ↦ rw e refl
  ]

  emit-tick : (kind : EventKind) (j : Journal) → (emit w stream_id corr kind j).tick ≡ suc j.tick
  unfolding emit publish
  emit-tick kind j = elim (Bool-cases (w.appends j.tick)) [
    | inl e ↦ rw (emit, publish, e) refl
    | inr e ↦ rw (emit, publish, e) refl
  ]

  conclude_wait-granted :
      (o : Option Bool) (j : Journal)
      → ((conclude_wait w stream_id corr o j).1 ≡ true) ↔ (o ≡ some true)
  unfolding conclude_wait
  conclude_wait-granted none j = ((λ h. cc), (λ h. cc))
  conclude_wait-granted (some true) j = ((λ h. refl), (λ h. refl))
  conclude_wait-granted (some false) j = ((λ h. cc), (λ h. cc))

  abbrev sent : Journal × Bool → Bool
  sent p = p.1

  module _ (channel description : Text) (explanation : Option Text) (j : Journal) where
    abbrev pub asked : Journal × Bool
    asked =
        publish w
          (own_event w stream_id corr (request w stream_id corr channel description explanation) j)
          j

    pub request-sent :
        w.appends j.tick ≡ true
        → request_approval_via_bus w stream_id corr channel description explanation j
          ≡ conclude_wait w stream_id corr
              (await_decision w.approval_id (received (some corr) w.arrivals))
              asked.0
    unfolding request_approval_via_bus
    request-sent e =
        rw
          (
            request_approval_via_bus,
            publish-sent (request w stream_id corr channel description explanation) j ∙ e,
          )
          refl

    request-lost :
        w.appends j.tick ≡ false
        → request_approval_via_bus w stream_id corr channel description explanation j
          ≡ (asked.0, false)
    unfolding request_approval_via_bus
    request-lost e =
        rw
          (
            request_approval_via_bus,
            publish-sent (request w stream_id corr channel description explanation) j ∙ e,
          )
          refl

    -- A request is granted iff it is recorded and the first decision on it to arrive is a grant.
    pub request-IsGranted :
        ((request_approval_via_bus w stream_id corr channel description explanation j).1 ≡ true)
        ↔ IsGranted j.tick
    request-IsGranted =
        let decides = await_decision_iff w.approval_id true (received (some corr) w.arrivals) in
        elim (Bool-cases (w.appends j.tick)) [
          | inl e ↦ (
            (λ h. (
              e,
              decides.0 ((conclude_wait-granted _ asked.0).0 (sym (ap sent (request-sent e)) ∙ h)),
            )),
            λ (a, f). ap sent (request-sent e) ∙ (conclude_wait-granted _ asked.0).1 (decides.1 f),
          )
          | inr e ↦ (
            (λ h. absurd (true≢false (sym h ∙ ap sent (request-lost e)))),
            λ (a, f). absurd (true≢false (sym a ∙ e)),
          )
        ]

  abbrev IsAnswered : Option Text → IntentionVerdict → ℕ → Type 0
  IsAnswered channel verdict tick =
      (reason name : Text) × (verdict ≡ requires_human_approval reason)
      × (channel ≡ some name)
      × IsGranted tick

  handle-approved :
      (channel : Option Text) (verdict : IntentionVerdict) (j : Journal)
      → ((handle w stream_id corr channel verdict j).1 ≡ approved)
        ↔ ((verdict ≡ Intentions.approved) ⊎ IsAnswered channel verdict j.tick)
  unfolding handle
  handle-approved channel Intentions.approved j = ((λ h. inl refl), (λ h. refl))
  handle-approved channel (Intentions.denied reason) j =
      ((λ h. cc), (λ h. elim h [ inl e ↦ cc | inr (r, n, e, c, g) ↦ cc ]))
  handle-approved none (requires_human_approval reason) j =
      ((λ h. cc), (λ h. elim h [ inl e ↦ cc | inr (r, n, e, c, g) ↦ cc ]))
  handle-approved (some channel) (requires_human_approval reason) j =
      elim (Bool-cases (request_approval_via_bus w stream_id corr channel reason none j).1) [
        | inl e ↦ (
          (λ h. inr (reason, channel, refl, refl, (request-IsGranted channel reason none j).0 e)),
          λ h. rw e refl,
        )
        | inr e ↦ (
          (λ h. let k : human_rejected ≡ approved = rw e at h in cc),
          λ h. elim h [
            | inl q ↦ cc
            | inr (r, n, q, c, g) ↦
                absurd (true≢false (sym ((request-IsGranted channel reason none j).1 g) ∙ e))
          ],
        )
      ]

-- A verdict after the marking of the tool, in terms of the contracts' own.
abbrev pub IsAsked : Outcome IntentionVerdict → Option Text → Text → Type 0
IsAsked verdict force_human reason =
    (verdict ≡ done (requires_human_approval reason))
    ⊎ ((verdict ≡ done Intentions.approved) × (force_human ≡ some reason))

upgrade-approved :
    (verdict : IntentionVerdict) (force_human : Option Text)
    → (upgrade verdict force_human ≡ Intentions.approved)
      ↔ ((verdict ≡ Intentions.approved) × (force_human ≡ none))
unfolding upgrade
upgrade-approved Intentions.approved none = ((λ h. (refl, refl)), (λ h. refl))
upgrade-approved Intentions.approved (some r) = ((λ h. cc), (λ (h, k). cc))
upgrade-approved (requires_human_approval r) f = ((λ h. cc), (λ (h, k). cc))
upgrade-approved (Intentions.denied r) f = ((λ h. cc), (λ (h, k). cc))

pub upgrade-IsAsked :
    (verdict : IntentionVerdict) (force_human : Option Text) (reason : Text)
    → (upgrade verdict force_human ≡ requires_human_approval reason)
      ↔ IsAsked (done verdict) force_human reason
unfolding upgrade
upgrade-IsAsked Intentions.approved none reason =
    ((λ h. cc), (λ h. elim h [ inl e ↦ cc | inr (e, k) ↦ cc ]))
upgrade-IsAsked Intentions.approved (some r) reason =
    ((λ h. inr (refl, cc)), (λ h. elim h [ inl e ↦ cc | inr (e, k) ↦ cc ]))
upgrade-IsAsked (requires_human_approval r) f reason =
    ((λ h. inl cc), (λ h. elim h [ inl e ↦ cc | inr (e, k) ↦ cc ]))
upgrade-IsAsked (Intentions.denied r) f reason =
    ((λ h. cc), (λ h. elim h [ inl e ↦ cc | inr (e, k) ↦ cc ]))

module _ (w : World) (host : Host) (contracts : ContractEngine) (to_json : Intention → Text)
    (intention : Intention) (approval : ApprovalContext) (stream_id : Text) (corr : Uuid)
    (j : Journal) where
  abbrev pub announced : Journal
  announced = emit w stream_id corr (intention_emitted (tag intention) (to_json intention)) j

  abbrev outcome : Journal × Outcome OrchestratorResult → Outcome OrchestratorResult
  outcome p = p.1

  abbrev pub settled : IntentionVerdict → Journal × OrchestratorResult
  settled verdict =
      settle w stream_id corr intention approval.channel (upgrade verdict approval.force_human)
        announced

  pub process-done :
      (verdict : IntentionVerdict)
      → evaluate_intention host contracts intention ≡ done verdict
      → process_intention w stream_id corr host contracts to_json intention approval j
        ≡ ((settled verdict).0, done (settled verdict).1)
  unfolding process_intention
  process-done verdict e = rw (process_intention, e) refl

  pub process-fault :
      (x : Fault)
      → evaluate_intention host contracts intention ≡ fault x
      → process_intention w stream_id corr host contracts to_json intention approval j
        ≡ (announced, fault x)
  unfolding process_intention
  process-fault x e = rw (process_intention, e) refl

  settled-tick : (kind : EventKind) → (emit w stream_id corr kind announced).tick ≡ suc (suc j.tick)
  settled-tick kind =
      emit-tick w stream_id corr kind announced ∙ ap suc (emit-tick w stream_id corr _ j)

  -- What the contracts said, and what came of asking, when the intention is approved.
  abbrev pub IsCleared : Outcome IntentionVerdict → Type 0
  IsCleared verdict =
      ((verdict ≡ done Intentions.approved) × (approval.force_human ≡ none))
      ⊎ ((reason channel : Text) × IsAsked verdict approval.force_human reason
          × (approval.channel ≡ some channel)
          × IsGranted w stream_id corr (suc (suc j.tick)))

  settled-approved :
      (verdict : IntentionVerdict) → ((settled verdict).1 ≡ approved) ↔ IsCleared (done verdict)
  unfolding settle
  settled-approved verdict =
      let f = approval.force_human in
      let v = upgrade verdict f in
      let seen = intention_evaluated (tag intention) (verdict_str v) in
      let h =
        handle-approved w stream_id corr approval.channel v
          (emit w stream_id corr seen announced) in
      let t = settled-tick seen in
      (
        (λ k. elim (h.0 k) [
          | inl a ↦ let (b, c) = (upgrade-approved verdict f).0 a in inl (ap done b, c)
          | inr (r, n, a, c, g) ↦
              inr
                (r, n, (upgrade-IsAsked verdict f r).0 a, c, subst (IsGranted w stream_id corr) t g)
        ]),
        λ k. h.1 (elim k [
          | inl (a, c) ↦ inl ((upgrade-approved verdict f).1 (done-injective _ _ a, c))
          | inr (r, n, a, c, g) ↦ inr (
            r,
            n,
            (upgrade-IsAsked verdict f r).1 a,
            c,
            subst (IsGranted w stream_id corr) (sym t) g,
          )
        ]),
      )

  not-faulted : (x : Fault) → IsCleared (fault x) → ⊥
  not-faulted x (inl (a, f)) = cc
  not-faulted x (inr (r, n, inl a, c, g)) = cc
  not-faulted x (inr (r, n, inr (a, k), c, g)) = cc

  -- An intention is approved iff the contracts approve it and its tool is not marked, or a human is
  -- asked about it (by the contracts, or because the tool is marked), there is a channel, the
  -- request, which is the third event of the run, is recorded, and the first decision on it to
  -- arrive is a grant.
  pub process_intention-approved :
      ((process_intention w stream_id corr host contracts to_json intention approval j).1
        ≡ done approved)
      ↔ IsCleared (evaluate_intention host contracts intention)
  process_intention-approved = elim (Outcome-cases (evaluate_intention host contracts intention)) [
    | inr (x, e) ↦ (
      (λ h. let k : fault x ≡ done approved = sym (ap outcome (process-fault x e)) ∙ h in cc),
      λ h. absurd (not-faulted x (subst IsCleared e h)),
    )
    | inl (verdict, e) ↦
        let p = process-done verdict e in
        (
          (λ h.
              subst IsCleared (sym e)
                ((settled-approved verdict).0 (done-injective _ _ (sym (ap outcome p) ∙ h)))),
          λ h. ap outcome p ∙ ap done ((settled-approved verdict).1 (subst IsCleared e h)),
        )
  ]
