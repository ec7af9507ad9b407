-- ===== src/Tests/Polling.antt =====
-- Polling at concrete inputs.
use ephemeral_sandbox_consol.Base.{
  ap, Bool, Text, ℕ, ◌+◌, ◌*◌, ◌≤◌, ◌≡◌, refl, ◌≢◌, ◌↔◌, ◌⊎◌, true, false, none, some, [], ◌∷◌, map,
  arith, codes, text_discrete,
}
use ephemeral_sandbox_consol.Api.Observability.{in_flight_count}
use ephemeral_sandbox_consol.Core.Activity.{snapshot_has_activity}
use ephemeral_sandbox_consol.Poll.Interval.{
  PollMode, PollTracking, poll_interval, base_interval, fingerprint_of,
}
use ephemeral_sandbox_consol.Poll.Interval.Laws.{
  polls, poll_interval_bounds, poll_interval-decay, poll_interval-recovery,
}
use ephemeral_sandbox_consol.Poll.Snapshot.{SnapshotQuery, requests, ask as ask_snapshot}
use ephemeral_sandbox_consol.Poll.Snapshot.Laws.{requests-le-one}
use ephemeral_sandbox_consol.Tests.Samples.{ready_b, snapshot_of}
use ephemeral_sandbox_consol.Poll.Topology.{
  TopologyHook, visibility, inspected, ask, topology_requests, topology_has_activity,
  should_request_process_topology,
}
use ephemeral_sandbox_consol.Poll.Topology.Laws.{topology_requests-focus}
use ephemeral_sandbox_consol.Poll.FleetSnapshots.{FleetQuery, fleet_ask}
use ephemeral_sandbox_consol.Poll.FleetSnapshots.Laws.{view, fleet_ask-view}

abbrev tracking : PollTracking
tracking = record { at = 100; fingerprint = codes "{}" }

poll_interval_bounds_example :
    (((poll_interval none PollMode.slow tracking 20_000 false).0 ≡ none) ↔ (false ≡ true))
    × ((ms : ℕ)
        → (poll_interval none PollMode.slow tracking 20_000 false).0 ≡ some ms
        → (400 ≤ ms) × (base_interval PollMode.slow ≤ ms) × (ms ≤ 8000))
poll_interval_bounds_example = poll_interval_bounds none PollMode.slow tracking 20_000 false

poll_interval-decay_example :
    (((poll_interval (some (codes "{}")) PollMode.slow tracking 20_000 false).0
        ≡ some (base_interval PollMode.slow))
      ↔ ((fingerprint_of (some (codes "{}")) ≢ codes "{}") ⊎ (20_000 ≤ 100 + 15_000)))
    × (((poll_interval (some (codes "{}")) PollMode.slow tracking 20_000 false).0
          ≢ some (base_interval PollMode.slow))
        → (poll_interval (some (codes "{}")) PollMode.slow tracking 20_000 false).0
          ≡ some (base_interval PollMode.slow * 4))
poll_interval-decay_example = poll_interval-decay (some (codes "{}")) PollMode.slow tracking 20_000

idle_run : (poll_interval (some (codes "{}")) PollMode.slow tracking 20_000 false).0 ≡ some 8000
unfolding poll_interval text_discrete
idle_run = refl

poll_interval-recovery_example :
    (poll_interval
      (some (codes "[1]"))
      PollMode.fast
      (polls PollMode.fast
        ((1000, some (codes "[1]")) ∷ map (λ time. (time, some (codes "[1]"))) (2000 ∷ 3000 ∷ []))
        tracking)
      9000
      false).0
    ≡ some (base_interval PollMode.fast)
poll_interval-recovery_example =
    poll_interval-recovery PollMode.fast (some (codes "[1]")) tracking 1000 9000 (2000 ∷ 3000 ∷ [])
      (ground arith) (omega arith)

abbrev fresh : SnapshotQuery
fresh = record { last_snapshot_revision = none; received = none }

requests-le-one_example :
    requests (codes "b") (some ready_b) (none ∷ some (snapshot_of (codes "b") []) ∷ none ∷ []) fresh
    ≤ 1
unfolding snapshot_has_activity in_flight_count text_discrete
requests-le-one_example =
    requests-le-one (codes "b") ready_b (none ∷ some (snapshot_of (codes "b") []) ∷ none ∷ []) fresh
      refl (tt, (refl, (tt, tt)))

requests_run : requests (codes "b") (some ready_b) (none ∷ none ∷ []) fresh ≡ 1
unfolding requests text_discrete
requests_run = refl

abbrev hidden : TopologyHook
hidden = record {
  sandbox_id = codes "b";
  manager_record = some ready_b;
  updated_at = some 5;
  visible = false;
  floor = some 0;
  last_request = none;
  received = none;
}

topology_requests-focus_example :
    topology_requests (visibility true ∷ ask none ∷ inspected ready_b 4 ∷ ask none ∷ []) hidden ≡ 0
topology_requests-focus_example =
    topology_requests-focus hidden (ask none ∷ inspected ready_b 4 ∷ ask none ∷ []) refl
      (tt, (omega arith, (tt, tt)))

asked_run :
    topology_requests (visibility true ∷ inspected ready_b 6 ∷ ask none ∷ ask none ∷ []) hidden ≡ 1
unfolding topology_requests topology_has_activity should_request_process_topology text_discrete
asked_run = refl

abbrev kept : FleetQuery
kept = record { requested_revisions = (codes "a", some 1) ∷ []; results = [] }

fleet_ask-view_example :
    (view (codes "b") (fleet_ask ready_b none kept)
      ≡ ask_snapshot (codes "b") (some ready_b) none (view (codes "b") kept))
    × ((id : Text) → codes "b" ≢ id → view id (fleet_ask ready_b none kept) ≡ view id kept)
fleet_ask-view_example =
    fleet_ask-view ready_b 4 none kept refl (λ e. let p : true ≡ false = ap is_text e in cc)
  where
    is_text : Text → Bool
    is_text [] = false
    is_text (c ∷ s) = true
