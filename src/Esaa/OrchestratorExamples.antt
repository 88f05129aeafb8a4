-- ===== src/Esaa/OrchestratorExamples.antt =====
-- esaa/orchestrator.rs and approval.rs at concrete inputs: tests, and the theorems at inputs that
-- meet their hypotheses.
use zymi_core.Prelude.{
  Any, ◌≡◌, refl, inl, inr, true, false, none, some, List, [], ◌∷◌, ◌++◌, map, done, Text, codes,
  text_eq,
}
use zymi_core.Bus.{accepts}
use zymi_core.Events.{Event, approval_granted, kind_tag, new_event, with_correlation}
use zymi_core.Policy.Engine.{Host}
use zymi_core.Esaa.Intentions.{Intention, spawn_sub_agent, execute_shell_command, tag}
use zymi_core.Esaa.Intentions as Intentions
use zymi_core.Esaa.Contracts.{ContractEngine, evaluate_intention}
use zymi_core.Esaa.Approval.{
  World, Journal, publish, own_event, received, decision, await_decision, request, timeout_denial,
  conclude_wait, request_approval_via_bus,
}
use zymi_core.Esaa.Orchestrator.{
  ApprovalContext, approved, human_rejected, no_approval_handler, upgrade, verdict_str, emit,
  unrouted_request, unrouted_denial, handle, settle, process_intention,
}
use zymi_core.Esaa.Orchestrator.Gate.{IsAsked, process_intention-approved}
use zymi_core.Esaa.Orchestrator.Records.Asks.{Requests, process_intention-asks}
use zymi_core.Esaa.Orchestrator.Records.{IsClosed, IsRequest, process_intention-IsClosed}

abbrev host : Host
host = record {
  regex = record {
    compiles = λ p. true;
    is_match = λ p s. true;
    escape = λ p. p;
    captures = λ p s. none;
  };
  to_lowercase = λ s. s;
}

-- A policy that denies every command by its one rule.
abbrev contracts : ContractEngine
contracts = record {
  shell_policy = record {
    config = record { enabled = false; allow = []; deny = []; require_approval = [] };
    allow_patterns = [];
    deny_patterns = [];
    approval_patterns = [];
  };
  file_contract = record { allowed_dirs = []; deny_patterns = [] };
  deny_regexes = codes "^.*$" ∷ [];
}

abbrev to_json : Intention → Text
to_json intention = []

abbrev spawn : Intention
spawn = spawn_sub_agent (codes "scout") (codes "look")

abbrev read_all : Intention
read_all = Intentions.read_file (codes "x")

abbrev grant : Text → Event
grant aid = record {
  id = 9;
  stream_id = codes "s";
  sequence = 4;
  timestamp = 0;
  kind = approval_granted aid (codes "s") (codes "terminal:local") none;
  correlation_id = some 7;
  causation_id = none;
  source = codes "approval_channel";
}

-- The grant of another approval comes first.
abbrev world : World
world = record {
  fresh_id = λ n. n;
  now = λ n. n;
  appends = λ n. true;
  approval_id = codes "a1";
  arrivals = grant (codes "") ∷ grant (codes "a1") ∷ [];
}

-- Nothing arrives.
abbrev silent : World
silent = record {
  fresh_id = λ n. n;
  now = λ n. n;
  appends = λ n. true;
  approval_id = codes "a1";
  arrivals = [];
}

abbrev local : ApprovalContext
local = record { channel = some (codes "local"); force_human = none }

abbrev unrouted : ApprovalContext
unrouted = record { channel = none; force_human = some (codes "marked") }

abbrev start : Journal
start = record { log = []; tick = 0 }

-- A place to unfold what a run goes through.
run_parts : Unit {0}
unfolding text_eq publish own_event new_event with_correlation received accepts decision
    await_decision request timeout_denial conclude_wait request_approval_via_bus upgrade verdict_str
    emit unrouted_request unrouted_denial handle settle process_intention evaluate_intention
    kind_tag tag
run_parts = tt

abbrev tags : List Event → List Text
tags events = map (λ event. kind_tag event.kind) events

times_out :
    tags (process_intention silent (codes "s") 7 host contracts to_json spawn local start).0.log
    ≡ codes "intention_emitted"
      ∷ codes "intention_evaluated"
      ∷ codes "approval_requested"
      ∷ codes "approval_denied"
      ∷ []
unfolding run_parts
times_out = refl

rejects :
    (process_intention silent (codes "s") 7 host contracts to_json spawn local start).1
    ≡ done human_rejected
unfolding run_parts
rejects = refl

asks_for_marked :
    (process_intention world
      (codes "s")
      7
      host
      contracts
      to_json
      (Intentions.web_search (codes "q"))
      unrouted
      start).1
    ≡ done no_approval_handler
unfolding run_parts
asks_for_marked = refl

process_intention-approved_example :
    (process_intention world (codes "s") 7 host contracts to_json spawn local start).1
    ≡ done approved
unfolding run_parts
process_intention-approved_example =
    (process_intention-approved world host contracts to_json spawn local (codes "s") 7 start).1 (
      inr (
        codes "Sub-agent spawn requires approval",
        codes "local",
        inl refl,
        refl,
        (
          refl,
          inr (
            (λ (s, d, r, e). cc),
            (λ (s, d, r, e). cc),
            inl (codes "s", codes "terminal:local", none, refl),
          ),
        ),
      ))

process_intention-IsClosed_example :
    (events : List Event) × ((process_intention silent
        (codes "s")
        7
        host
        contracts
        to_json
        spawn
        local
        start).0.log
      ≡ [] ++ events)
    × IsClosed silent (codes "s") 7 events
process_intention-IsClosed_example =
    process_intention-IsClosed silent host contracts to_json spawn local (codes "s") 7 start
      (λ n. refl)

-- A spawn is asked about: the request names its reason and the channel.
process_intention-asks_example :
    (events : List Event) × ((process_intention silent
        (codes "s")
        7
        host
        contracts
        to_json
        spawn
        local
        start).0.log
      ≡ [] ++ events)
    × ((reason : Text)
        → IsAsked (evaluate_intention host contracts spawn) none reason
        → Any (Requests silent (codes "s") 7 (some (codes "local")) reason) events)
    × (Any (IsRequest silent (codes "s") 7) events
        → (reason : Text) × IsAsked (evaluate_intention host contracts spawn) none reason)
process_intention-asks_example =
    process_intention-asks silent host contracts to_json spawn local (codes "s") 7 start (λ n. refl)
