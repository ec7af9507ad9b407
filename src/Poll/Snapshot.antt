-- ===== src/Poll/Snapshot.antt =====
-- The revision-gated snapshot query of one sandbox (web/src/poll/useSandboxSnapshot.ts). The query
-- library decides when to ask; each time it asks, it runs the query function if `enabled` says so.
pub mod Laws
use ephemeral_sandbox_consol.Base.{
  ℕ, suc, Bool, not, ◌&&◌, Option, none, some, List, [], ◌∷◌, if◌then◌else◌, Text, ◌==◌,
}
use ephemeral_sandbox_consol.Api.Types.{SandboxRecord}
use ephemeral_sandbox_consol.Api.Observability.{SandboxSnapshot, SnapshotResult}
use ephemeral_sandbox_consol.Core.Activity.{Attempt, should_request_sandbox_snapshot}

pub record SnapshotQuery : Type 0 where
  pub last_snapshot_revision : Attempt
  pub received : Option SnapshotResult

unfoldable pub enabled : Text → Option SandboxRecord → SnapshotQuery → Bool
unfolding should_request_sandbox_snapshot
enabled sandbox_id r q =
    not (sandbox_id == []) && should_request_sandbox_snapshot r q.received q.last_snapshot_revision

-- `typeof record?.activity_revision === "number" ? revision : null`
abbrev revision_or_null : Option SandboxRecord → Option ℕ
revision_or_null none = none
revision_or_null (some r) = r.activity_revision

-- The query function up to its `await`: the attempt is recorded before the request.
unfoldable pub record_attempt : Option SandboxRecord → SnapshotQuery → SnapshotQuery
record_attempt r q = record q { last_snapshot_revision = some (revision_or_null r) }

-- `fetchSandboxSnapshot`: the response becomes a result of one sandbox. A request that fails
-- (`none`) leaves the result as it is.
unfoldable pub settle : Option SandboxSnapshot → SnapshotQuery → SnapshotQuery
settle none q = q
settle (some snapshot) q = record q { received = some (record { sandboxes = snapshot ∷ [] }) }

-- One occasion to ask, with the response that a request would get.
unfoldable pub ask :
    Text → Option SandboxRecord → Option SandboxSnapshot → SnapshotQuery → SnapshotQuery
unfolding enabled record_attempt settle
ask sandbox_id r response q =
    if enabled sandbox_id r q then settle response (record_attempt r q) else q

-- The number of requests that a list of occasions makes.
unfoldable pub requests :
    Text → Option SandboxRecord → List (Option SandboxSnapshot) → SnapshotQuery → ℕ
unfolding ask
requests sandbox_id r [] q = 0
requests sandbox_id r (response ∷ rest) q =
    let later = requests sandbox_id r rest (ask sandbox_id r response q) in
    if enabled sandbox_id r q then suc later else later
