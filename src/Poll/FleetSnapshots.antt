-- ===== src/Poll/FleetSnapshots.antt =====
-- One snapshot query for each sandbox of the fleet (web/src/poll/useFleetSnapshots.ts): the attempts
-- that the hook remembers, and the results that the query library keeps for each sandbox.
pub mod Laws
use ephemeral_sandbox_consol.Base.{
  ℕ, Bool, true, false, not, ◌&&◌, Option, none, some, List, [], ◌∷◌, ◌++◌, map, nat_eq,
  if◌then◌else◌, filter, Text,
}
use ephemeral_sandbox_consol.Base.Keyed.{get, set, has}
use ephemeral_sandbox_consol.Api.Types.{SandboxRecord}
use ephemeral_sandbox_consol.Api.Observability.{SandboxSnapshot, SnapshotResult}
use ephemeral_sandbox_consol.Core.Status.{is_ready}
use ephemeral_sandbox_consol.Core.Activity.{snapshot_has_activity, should_request_sandbox_snapshot}

pub record FleetQuery : Type 0 where
  pub requested_revisions : List (Text × Option ℕ)
  pub results : List (Text × SnapshotResult)

-- `===` on revisions, which are numbers or null
abbrev pub same_revision : Option ℕ → Option ℕ → Bool
same_revision none none = true
same_revision (some a) (some b) = nat_eq a b
same_revision _ _ = false

-- `!has || requested !== revision`
abbrev pub is_untried : Option (Option ℕ) → Option ℕ → Bool
is_untried none revision = true
is_untried (some requested) revision = not (same_revision requested revision)

-- `requested ?? null`
abbrev or_null : Option (Option ℕ) → Option ℕ
or_null none = none
or_null (some requested) = requested

-- `enabled` of a record's query, on what is kept for it.
abbrev pub enabled_with : SandboxRecord → Option SnapshotResult → Option (Option ℕ) → Bool
enabled_with r none requested = is_untried requested r.activity_revision
enabled_with r (some result) requested =
    should_request_sandbox_snapshot (some r) (some result) (some (or_null requested))

unfoldable pub fleet_enabled : SandboxRecord → FleetQuery → Bool
unfolding should_request_sandbox_snapshot
fleet_enabled r q =
    is_ready r.state && enabled_with r (get r.id q.results) (get r.id q.requested_revisions)

-- The query function: the attempt is recorded before the request; a failure keeps the result.
unfoldable pub fleet_request : SandboxRecord → Option SandboxSnapshot → FleetQuery → FleetQuery
fleet_request r none q = record q {
  requested_revisions = set r.id r.activity_revision q.requested_revisions;
}
fleet_request r (some snapshot) q = record q {
  requested_revisions = set r.id r.activity_revision q.requested_revisions;
  results = set r.id (record { sandboxes = snapshot ∷ [] }) q.results;
}

-- One occasion to ask for a record, with the response that a request would get.
unfoldable pub fleet_ask : SandboxRecord → Option SandboxSnapshot → FleetQuery → FleetQuery
unfolding fleet_enabled fleet_request
fleet_ask r response q = if fleet_enabled r q then fleet_request r response q else q

-- The effect that forgets the attempts of sandboxes that are gone.
unfoldable pub forget_gone : List SandboxRecord → FleetQuery → FleetQuery
forget_gone records q = record q {
  requested_revisions =
      filter (λ (entry : Text × Option ℕ). has entry.0 (map (λ r. r.id) records))
        q.requested_revisions;
}

-- `refetchInterval`, of 400 milliseconds or none
unfoldable pub fleet_interval : SandboxRecord → FleetQuery → Option ℕ
fleet_interval r q = if snapshot_has_activity (some r) (get r.id q.results) then some 400 else none

-- `queries.flatMap((query) => query.data?.sandboxes ?? [])`
abbrev sandboxes_in : Option SnapshotResult → List SandboxSnapshot
sandboxes_in none = []
sandboxes_in (some result) = result.sandboxes

abbrev pub snapshots_from : List SandboxRecord → FleetQuery → List SandboxSnapshot
snapshots_from [] q = []
snapshots_from (r ∷ rs) q = sandboxes_in (get r.id q.results) ++ snapshots_from rs q

unfoldable pub fleet_snapshots : List SandboxRecord → FleetQuery → SnapshotResult
fleet_snapshots records q = record { sandboxes = snapshots_from records q }
