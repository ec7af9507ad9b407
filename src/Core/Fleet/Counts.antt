-- ===== src/Core/Fleet/Counts.antt =====
-- Fleet activity and the count of active commands (web/src/core/fleet.ts).
use ephemeral_sandbox_consol.Base.{
  ℕ, ◌+◌, ◌≡◌, refl, sym, ◌∙◌, ◌≢◌, inl, inr, Option, none, some, List, [], ◌∷◌, arith, nat_eq,
  if◌then◌else◌, Option-cases, length, All, Some, Text,
}
use ephemeral_sandbox_consol.Base.Keyed.{get}
use ephemeral_sandbox_consol.Api.Types.{SandboxRecord, SandboxList}
use ephemeral_sandbox_consol.Api.Observability.{SandboxSnapshot, SnapshotResult, in_flight_count}
use ephemeral_sandbox_consol.Core.Fleet.{
  ready_records, total_from, active_command_total, snapshots_by_sandbox,
}

-- The commands of a record in a map of snapshots, 0 for a missing entry.
abbrev pub commands_of : Option SandboxSnapshot → ℕ
commands_of none = 0
commands_of (some entry) = in_flight_count entry

pub total_of : List (Text × SandboxSnapshot) → List SandboxRecord → ℕ
total_of snapshots [] = 0
total_of snapshots (r ∷ rs) = commands_of (get r.id snapshots) + total_of snapshots rs

total_from-some :
    (snapshots : List (Text × SandboxSnapshot)) (total : ℕ) (rs : List SandboxRecord) {n : ℕ}
    → total_from snapshots total rs ≡ some n
    → All (λ r. get r.id snapshots ≢ none) rs × (n ≡ total + total_of snapshots rs)
unfolding total_from total_of
total_from-some snapshots total [] h = (tt, ground arith)
total_from-some snapshots total (r ∷ rs) {n} h = elim (Option-cases (get r.id snapshots)) [
  | inl e ↦ absurd (ground arith)
  | inr (entry, e) ↦
      let (found, sum) =
        total_from-some snapshots (total + in_flight_count entry) rs (rw (e, total_from) at h) in
      ((λ miss. ground arith, found), ground (arith, sum))
]

total_from-none :
    (snapshots : List (Text × SandboxSnapshot)) (total : ℕ) (rs : List SandboxRecord)
    → total_from snapshots total rs ≡ none
    → Some (λ r. get r.id snapshots ≡ none) rs
unfolding total_from
total_from-none snapshots total [] h = absurd (ground arith)
total_from-none snapshots total (r ∷ rs) h = elim (Option-cases (get r.id snapshots)) [
  | inl e ↦ inl e
  | inr (entry, e) ↦
      inr (total_from-none snapshots (total + in_flight_count entry) rs (rw (e, total_from) at h))
]

total_from-guard :
    (snapshots : List (Text × SandboxSnapshot)) (rs : List SandboxRecord)
    → (if nat_eq (length rs) 0 then some 0 else total_from snapshots 0 rs)
      ≡ total_from snapshots 0 rs
unfolding total_from
total_from-guard snapshots [] = refl
total_from-guard snapshots (r ∷ rs) = ground arith

-- With a list and a snapshot at hand, the total is known exactly if every ready record has an entry
-- in the snapshot, and then it is the sum of their counts; no missing entry is counted as zero.
pub active_command_total_lem :
    (list : SandboxList) (snapshot : SnapshotResult)
    → ((n : ℕ)
        → active_command_total (some list) (some snapshot) ≡ some n
        → All
            (λ r. get r.id (snapshots_by_sandbox (some snapshot)) ≢ none)
            (ready_records list.sandboxes)
          × (n ≡ total_of (snapshots_by_sandbox (some snapshot)) (ready_records list.sandboxes)))
      × (active_command_total (some list) (some snapshot) ≡ none
          → Some
              (λ r. get r.id (snapshots_by_sandbox (some snapshot)) ≡ none)
              (ready_records list.sandboxes))
unfolding active_command_total
active_command_total_lem list snapshot =
    let m : List (Text × SandboxSnapshot) = snapshots_by_sandbox (some snapshot) in
    let rs : List SandboxRecord = ready_records list.sandboxes in
    (
      λ n h.
          let (found, sum) = total_from-some m 0 rs (sym (total_from-guard m rs) ∙ h) in
          (found, omega (arith, sum)),
      λ h. total_from-none m 0 rs (sym (total_from-guard m rs) ∙ h),
    )
