-- ===== src/Esaa/Orchestrator.antt =====
-- esaa/orchestrator.rs: what becomes of an intention, and what is recorded of it.
pub mod Gate
pub mod Records
use zymi_core.Prelude.{
  ℕ, Bool, true, false, Option, none, some, ◌++◌, if◌then◌else◌, Outcome, done, fault, Text, codes,
}
use zymi_core.Events.{
  Uuid, EventKind, intention_emitted, intention_evaluated, approval_requested, approval_denied,
}
use zymi_core.Policy.Engine.{Host}
use zymi_core.Esaa.Intentions.{Intention, tag, IntentionVerdict, requires_human_approval}
use zymi_core.Esaa.Intentions as Intentions
use zymi_core.Esaa.Contracts.{ContractEngine, evaluate_intention}
use zymi_core.Esaa.Approval.{World, Journal, publish, own_event, request_approval_via_bus}

-- The timeout is what ends the arrivals of the `World`.
pub record ApprovalContext : Type 0 where
  pub channel : Option Text
  pub force_human : Option Text

pub data OrchestratorResult : Type 0 where
  approved : OrchestratorResult
  denied : (reason : Text) → OrchestratorResult
  human_rejected no_approval_handler : OrchestratorResult

-- A marked tool turns an approval into a question to a human.
unfoldable pub upgrade : IntentionVerdict → Option Text → IntentionVerdict
upgrade Intentions.approved (some reason) = requires_human_approval reason
upgrade Intentions.approved none = Intentions.approved
upgrade (requires_human_approval reason) force_human = requires_human_approval reason
upgrade (Intentions.denied reason) force_human = Intentions.denied reason

unfoldable pub verdict_str : IntentionVerdict → Text
verdict_str Intentions.approved = codes "approved"
verdict_str (requires_human_approval reason) = codes "requires_approval: " ++ reason
verdict_str (Intentions.denied reason) = codes "denied: " ++ reason

module _ (w : World) (stream_id : Text) (corr : Uuid) where
  -- A failed append is only logged.
  unfoldable pub emit : EventKind → Journal → Journal
  emit kind j = (publish w (own_event w stream_id corr kind j) j).0

  unfoldable pub unrouted_request : Text → EventKind
  unrouted_request reason = approval_requested w.approval_id stream_id reason none (codes "<none>")

  unfoldable pub unrouted_denial : EventKind
  unrouted_denial =
      approval_denied w.approval_id stream_id (codes "orchestrator")
        (some (codes "no_approval_channel"))

  abbrev answer : Journal × Bool → Journal × OrchestratorResult
  answer (j, given) = (j, if given then approved else human_rejected)

  -- Step 4.
  unfoldable pub handle : Option Text → IntentionVerdict → Journal → Journal × OrchestratorResult
  handle channel Intentions.approved j = (j, approved)
  handle channel (Intentions.denied reason) j = (j, denied reason)
  handle none (requires_human_approval reason) j =
      (emit unrouted_denial (emit (unrouted_request reason) j), no_approval_handler)
  handle (some channel) (requires_human_approval reason) j =
      answer (request_approval_via_bus w stream_id corr channel reason none j)

  -- Steps 3 and 4.
  unfoldable pub settle :
      Intention → Option Text → IntentionVerdict → Journal → Journal × OrchestratorResult
  settle intention channel verdict j =
      handle channel verdict (emit (intention_evaluated (tag intention) (verdict_str verdict)) j)

  abbrev finish : Journal × OrchestratorResult → Journal × Outcome OrchestratorResult
  finish (j, result) = (j, done result)

  -- The contracts may panic, and then the first event alone is recorded. `to_json` is the crate
  -- `serde_json`.
  unfoldable pub process_intention :
      Host
      → ContractEngine
      → (Intention → Text)
      → Intention
      → ApprovalContext
      → Journal
      → Journal × Outcome OrchestratorResult
  process_intention host contracts to_json intention approval j =
      let emitted = emit (intention_emitted (tag intention) (to_json intention)) j in
      elim (evaluate_intention host contracts intention) [
        | fault e ↦ (emitted, fault e)
        | done verdict ↦
            finish
              (settle intention approval.channel (upgrade verdict approval.force_human) emitted)
      ]
