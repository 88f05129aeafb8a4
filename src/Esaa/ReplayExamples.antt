-- ===== src/Esaa/ReplayExamples.antt =====
-- approval.rs, the replay after a restart, at a concrete store.
use zymi_core.Prelude.{
  ℕ, suc, ◌+◌, ◌≡◌, refl, not, true, none, some, [], ◌∷◌, done, Outcome, ◌>>=◌, Text, codes,
  text_eq, lookup, insert_entry, arith,
}
use zymi_core.Events.{Event, EventKind, approval_requested, approval_granted}
use zymi_core.Bus.{EventBus, fan_out}
use zymi_core.Esaa.Replay.{
  Restart, Replayed, ApprovalReplayReport, is_aged, replay_unfulfilled_approvals,
}
use zymi_core.Esaa.Replay.Requests.{open_request}
use zymi_core.Esaa.Replay.Loop.{mentions, passes}
use zymi_core.Esaa.Replay.Settled.{in_time, replay_unfulfilled_approvals-settles}

abbrev restart : Restart
restart = record {
  fresh_id = λ n. n + 100;
  stamp = λ n. n + 1000;
  now = 1000;
  appends = λ _. true;
  global = λ n. suc n;
  from_std = λ t. some t;
  iterate = λ m. m;
}

abbrev event_at : ℕ → EventKind → Event
event_at time kind = record {
  id = time;
  stream_id = codes "s";
  sequence = 0;
  timestamp = time;
  kind = kind;
  correlation_id = some 7;
  causation_id = none;
  source = codes "orchestrator";
}

abbrev asked : Text → EventKind
asked id = approval_requested id (codes "s") (codes "rm x") none (codes "terminal")

-- One request is old, one is young, and one is granted.
abbrev crashed : EventBus
crashed = record {
  store =
      event_at 100 (asked (codes "a"))
      ∷ event_at 200 (asked (codes "c"))
      ∷ event_at 300 (approval_granted (codes "c") (codes "s") (codes "human") none)
      ∷ event_at 900 (asked (codes "b"))
      ∷ [];
  subscribers = [];
  recent_local = record { set = []; queue = [] };
}

abbrev report_of : Replayed → Outcome ApprovalReplayReport
report_of r = done r.report

one_expired :
    (replay_unfulfilled_approvals restart 300 crashed >>= report_of)
    ≡ done (record { expired = codes "a" ∷ []; redelivered = codes "b" ∷ [] })
unfolding replay_unfulfilled_approvals text_eq lookup insert_entry fan_out
one_expired = refl

replay_unfulfilled_approvals-settles_example :
    (r : Replayed) × (replay_unfulfilled_approvals restart 300 crashed ≡ done r)
    × ((v : Text)
        → (open_request v r.bus.store
            ≡ in_time (is_aged restart 300) (open_request v crashed.store))
          × (mentions v r.report.expired
              ≡ passes (is_aged restart 300) (open_request v crashed.store))
          × (mentions v r.report.redelivered
              ≡ passes (λ e. not (is_aged restart 300 e)) (open_request v crashed.store)))
replay_unfulfilled_approvals-settles_example =
    replay_unfulfilled_approvals-settles restart (λ n. refl) (λ m d. (d, λ v. refl)) (omega arith)
      (λ n. omega arith) 300 crashed
