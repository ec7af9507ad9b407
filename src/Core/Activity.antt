-- ===== src/Core/Activity.antt =====
-- When a sandbox is active, and when its snapshot is requested (web/src/core/activity.ts).
pub mod Laws
use ephemeral_sandbox_consol.Base.{
  ℕ, Bool, true, false, not, ◌&&◌, ◌||◌, Option, none, some, Text, ◌==◌, if◌then◌else◌, ltb, nat_eq,
  find,
}
use ephemeral_sandbox_consol.Api.Types.{SandboxRecord}
use ephemeral_sandbox_consol.Api.Observability.{SandboxSnapshot, SnapshotResult, in_flight_count}
use ephemeral_sandbox_consol.Core.Status.{is_ready}

pub data SnapshotPollingMode : Type 0 where
  fast slow : SnapshotPollingMode

unfoldable pub snapshot_for_sandbox : Option SnapshotResult → Text → Option SandboxSnapshot
snapshot_for_sandbox none sandbox_id = none
snapshot_for_sandbox (some snapshot) sandbox_id =
    find (λ entry. entry.sandbox_id == sandbox_id) snapshot.sandboxes

-- The two counts that make a snapshot active.
abbrev busy : Option SandboxSnapshot → Bool
busy none = false
busy (some sandbox) = ltb 0 sandbox.stack.active_leases || ltb 0 (in_flight_count sandbox)

unfoldable pub snapshot_has_activity : Option SandboxRecord → Option SnapshotResult → Bool
unfolding snapshot_for_sandbox
snapshot_has_activity none snapshot = false
snapshot_has_activity (some r) snapshot =
    is_ready r.state && busy (snapshot_for_sandbox snapshot r.id)

-- `lastSnapshotRevision: number | null | undefined`: `none` is `undefined`, no attempt yet, and
-- `some none` is an attempt made while the record had no revision.
abbrev pub Attempt : Type 0
Attempt = Option (Option ℕ)

-- `typeof r.activity_revision === "number" && r.activity_revision !== last`
abbrev pub revision_moved : Option ℕ → Attempt → Bool
revision_moved none last = false
revision_moved (some n) (some (some m)) = not (nat_eq n m)
revision_moved (some n) _ = true

unfoldable pub should_request_sandbox_snapshot :
    Option SandboxRecord → Option SnapshotResult → Attempt → Bool
unfolding snapshot_has_activity
should_request_sandbox_snapshot none snapshot last = false
should_request_sandbox_snapshot (some r) none none = is_ready r.state
should_request_sandbox_snapshot (some r) none (some last) =
    is_ready r.state && revision_moved r.activity_revision (some last)
should_request_sandbox_snapshot (some r) (some snapshot) last =
    is_ready r.state
    && (snapshot_has_activity (some r) (some snapshot) || revision_moved r.activity_revision last)

unfoldable pub snapshot_polling_mode :
    Option SandboxRecord → Option SnapshotResult → SnapshotPollingMode
snapshot_polling_mode r snapshot = if snapshot_has_activity r snapshot then fast else slow

unfoldable pub snapshot_active_command_count : SandboxRecord → Option SnapshotResult → Option ℕ
snapshot_active_command_count r snapshot =
    if is_ready r.state
    then elim (snapshot_for_sandbox snapshot r.id) [
      | none ↦ none
      | some sandbox ↦ some (in_flight_count sandbox)
    ]
    else none
