-- ===== src/Poll/Snapshot/Laws.antt =====
-- A sandbox that does nothing is not asked again (web/src/poll/useSandboxSnapshot.ts).
use ephemeral_sandbox_consol.Base.{
  ℕ, ◌≤◌, ◌≡◌, refl, inl, inr, true, false, Option, none, some, List, [], ◌∷◌, arith, Bool-cases,
  All, Text,
}
use ephemeral_sandbox_consol.Api.Types.{SandboxRecord}
use ephemeral_sandbox_consol.Api.Observability.{SandboxSnapshot, SnapshotResult}
use ephemeral_sandbox_consol.Core.Activity.{
  should_request_sandbox_snapshot, snapshot_has_activity, revision_moved,
}
use ephemeral_sandbox_consol.Poll.Snapshot.{SnapshotQuery, enabled, ask, requests}

-- No result, or one that shows no activity of the record.
abbrev pub IsIdle : SandboxRecord → Option SnapshotResult → Type 0
IsIdle r received = snapshot_has_activity (some r) received ≡ false

-- A failed request, or a snapshot without activity.
abbrev pub IsQuiet : SandboxRecord → Option SandboxSnapshot → Type 0
IsQuiet r none = Unit
IsQuiet r (some snapshot) = IsIdle r (some (record { sandboxes = snapshot ∷ [] }))

-- The revision of the record has been tried, and showed no activity.
record IsSettled (r : SandboxRecord) (q : SnapshotQuery) : Type 0 where
  tried : q.last_snapshot_revision ≡ some r.activity_revision
  idle : IsIdle r q.received

revision_moved_self : (n : Option ℕ) → revision_moved n (some n) ≡ false
revision_moved_self none = refl
revision_moved_self (some n) = ground arith

should_request-settled :
    (r : SandboxRecord) (received : Option SnapshotResult)
    → IsIdle r received
    → should_request_sandbox_snapshot (some r) received (some r.activity_revision) ≡ false
unfolding should_request_sandbox_snapshot
should_request-settled r none h = ground (arith, revision_moved_self r.activity_revision)
should_request-settled r (some s) h = ground (arith, revision_moved_self r.activity_revision)

enabled-settled :
    (sandbox_id : Text) (r : SandboxRecord) (q : SnapshotQuery)
    → IsSettled r q
    → enabled sandbox_id (some r) q ≡ false
unfolding enabled
enabled-settled sandbox_id r q h =
    rw h.tried (ground (arith, should_request-settled r q.received h.idle))

ask-IsSettled :
    (sandbox_id : Text) (r : SandboxRecord) (response : Option SandboxSnapshot) (q : SnapshotQuery)
    → IsIdle r q.received
    → IsQuiet r response
    → enabled sandbox_id (some r) q ≡ true
    → IsSettled r (ask sandbox_id (some r) response q)
unfolding ask
ask-IsSettled sandbox_id r none q h k e = rw e (record { tried = refl; idle = h })
ask-IsSettled sandbox_id r (some s) q h k e = rw e (record { tried = refl; idle = k })

requests-settled :
    (sandbox_id : Text) (r : SandboxRecord) (responses : List (Option SandboxSnapshot))
    (q : SnapshotQuery)
    → IsSettled r q
    → requests sandbox_id (some r) responses q ≡ 0
unfolding requests
requests-settled sandbox_id r [] q h = refl
requests-settled sandbox_id r (response ∷ rest) q h =
    rw (enabled-settled sandbox_id r q h, requests, ask) (requests-settled sandbox_id r rest q h)

-- While a record stays the same and nothing that comes back shows activity, however often the
-- query is asked and however many requests fail, at most one request is made.
pub requests-le-one :
    (sandbox_id : Text) (r : SandboxRecord) (responses : List (Option SandboxSnapshot))
    (q : SnapshotQuery)
    → IsIdle r q.received
    → All (IsQuiet r) responses
    → requests sandbox_id (some r) responses q ≤ 1
unfolding requests
requests-le-one sandbox_id r [] q h k = omega arith
requests-le-one sandbox_id r (response ∷ rest) q h (k, ks) =
    elim (Bool-cases (enabled sandbox_id (some r) q)) [
      | inl e ↦ ground (
        arith,
        requests-settled sandbox_id r rest (ask sandbox_id (some r) response q)
            (ask-IsSettled sandbox_id r response q h k e),
      )
      | inr e ↦ ground (arith, requests-le-one sandbox_id r rest q h ks)
    ]
