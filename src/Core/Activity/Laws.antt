-- ===== src/Core/Activity/Laws.antt =====
-- When a snapshot counts as active (web/src/core/activity.ts).
use ephemeral_sandbox_consol.Base.{
  ◌<◌, true, Option, some, ◌≡◌, ◌↔◌, ◌⊎◌, inl, inr, arith, Some, Bool-cases, ltb, ltb→lt, ◌&&◌,
  refl,
}
use ephemeral_sandbox_consol.Api.Types.{SandboxState, SandboxRecord}
use ephemeral_sandbox_consol.Api.Observability.{SandboxSnapshot, SnapshotResult}
use ephemeral_sandbox_consol.Api.Observability.Counts.{IsRunning, in_flight_count-pos_iff}
use ephemeral_sandbox_consol.Core.Status.{is_ready}
use ephemeral_sandbox_consol.Core.Activity.{busy, snapshot_for_sandbox, snapshot_has_activity}

-- A layer lease, or a workspace that runs a command.
abbrev pub IsBusy : SandboxSnapshot → Type 0
IsBusy entry = (0 < entry.stack.active_leases) ⊎ Some IsRunning entry.workspaces

busy→IsBusy : (entry : SandboxSnapshot) → busy (some entry) ≡ true → IsBusy entry
busy→IsBusy entry h = elim (Bool-cases (ltb 0 entry.stack.active_leases)) [
  | inl p ↦ inl (ltb→lt _ _ p)
  | inr q ↦ inr ((in_flight_count-pos_iff entry).0 (ground arith))
]

IsBusy→busy : (entry : SandboxSnapshot) → IsBusy entry → busy (some entry) ≡ true
IsBusy→busy entry (inl p) = ground arith
IsBusy→busy entry (inr q) = ground (arith, (in_flight_count-pos_iff entry).1 q)

-- The test of `snapshot_has_activity`, over the entry that was found.
abbrev Shown : SandboxState → Option SandboxSnapshot → Type 0
Shown state found =
    (entry : SandboxSnapshot) × (state ≡ SandboxState.ready) × (found ≡ some entry) × IsBusy entry

test→Shown :
    (state : SandboxState) (found : Option SandboxSnapshot)
    → (is_ready state && busy found) ≡ true
    → Shown state found
test→Shown SandboxState.ready (some entry) h = (entry, refl, refl, busy→IsBusy entry h)
test→Shown state found h = absurd (ground arith)

Shown→test :
    (state : SandboxState) (found : Option SandboxSnapshot)
    → Shown state found
    → (is_ready state && busy found) ≡ true
Shown→test state found (entry, p, q, b) = rw (p, q) (IsBusy→busy entry b)

-- A snapshot has activity exactly when there is a ready record, the first entry for its id is in
-- the snapshot, and that entry holds a layer lease or a workspace that runs a command.
pub snapshot_has_activity_iff :
    (r : SandboxRecord) (snapshot : Option SnapshotResult)
    → (snapshot_has_activity (some r) snapshot ≡ true) ↔ (
        (entry : SandboxSnapshot) × (r.state ≡ SandboxState.ready)
        × (snapshot_for_sandbox snapshot r.id ≡ some entry)
        × IsBusy entry)
unfolding snapshot_has_activity
snapshot_has_activity_iff r snapshot = (
  test→Shown r.state (snapshot_for_sandbox snapshot r.id),
  Shown→test r.state (snapshot_for_sandbox snapshot r.id),
)
