-- ===== src/Core/Fleet/Activity.antt =====
-- When the fleet list is polled fast (`hasFleetActivity` of web/src/core/fleet.ts).
use ephemeral_sandbox_consol.Base.{
  ◌≡◌, refl, ◌↔◌, ◌⊎◌, inl, inr, true, ◌&&◌, Option, none, some, List, [], ◌∷◌, arith, ltb,
  Bool-cases, any, Some, Text, text_discrete, Some-map, any→Some, Some→any, Some-filter→Some,
  Some→Some-filter,
}
use ephemeral_sandbox_consol.Base.Keyed.{has}
use ephemeral_sandbox_consol.Api.Types.{SandboxState, SandboxRecord, SandboxList}
use ephemeral_sandbox_consol.Api.Observability.{SandboxSnapshot, SnapshotResult, in_flight_count}
use ephemeral_sandbox_consol.Api.Observability.Counts.{IsRunning, in_flight_count-pos_iff}
use ephemeral_sandbox_consol.Core.Fleet.{
  ids_of, records_of, entries_of, has_fleet_activity, is_changing, ready_records,
}

abbrev IsChanging : SandboxRecord → Type 0
IsChanging r = (r.state ≡ SandboxState.creating) ⊎ (r.state ≡ SandboxState.stopping)

abbrev IsReadyAs : Text → SandboxRecord → Type 0
IsReadyAs id r = (r.state ≡ SandboxState.ready) × (r.id ≡ id)

-- Why the fleet list is polled fast: a create stream, a record on its way up or down, or an entry of
-- a ready record with commands in flight.
abbrev pub Reasons : Option SandboxList → Option SnapshotResult → Option (List Text) → Type 0
Reasons list snapshot create_logs =
    ((logs : List Text) × (create_logs ≡ some logs))
    ⊎ Some IsChanging (records_of list)
    ⊎ Some
        (λ entry.
          Some (IsReadyAs entry.sandbox_id) (records_of list) × Some IsRunning entry.workspaces)
        (entries_of snapshot)

has→Some :
    (id : Text) (rs : List SandboxRecord) → has id (ids_of rs) ≡ true → Some (λ r. r.id ≡ id) rs
has→Some id [] h = absurd (cc)
has→Some id (r ∷ rs) h = elim (text_discrete r.id id) [
  | yes e ↦ inl e
  | no n ↦ inr (has→Some id rs (ground arith))
]

Some→has :
    (id : Text) (rs : List SandboxRecord) → Some (λ r. r.id ≡ id) rs → has id (ids_of rs) ≡ true
Some→has id [] h = elim h [ ]
Some→has id (r ∷ rs) (inl h) = ground arith
Some→has id (r ∷ rs) (inr h) = ground (arith, Some→has id rs h)

-- The set of ready ids, seen through the records.
ready-id_iff :
    (id : Text) (rs : List SandboxRecord)
    → (has id (ids_of (ready_records rs)) ≡ true) ↔ Some (IsReadyAs id) rs
ready-id_iff id rs = (
  λ h.
      Some-map (λ r k. (ground arith, k.1)) rs
        (Some-filter→Some (λ r. r.id ≡ id) _ rs (has→Some id (ready_records rs) h)),
  λ h.
      Some→has id (ready_records rs)
        (Some→Some-filter (λ r. r.id ≡ id) _ rs (Some-map (λ r k. (ground arith, k.1)) rs h)),
)

-- An entry counts exactly if it is of a ready record and runs a command.
entry_iff :
    (rs : List SandboxRecord) (entry : SandboxSnapshot)
    → ((has entry.sandbox_id (ids_of (ready_records rs)) && ltb 0 (in_flight_count entry)) ≡ true)
      ↔ (Some (IsReadyAs entry.sandbox_id) rs × Some IsRunning entry.workspaces)
entry_iff rs entry = (
  λ h. (
    (ready-id_iff entry.sandbox_id rs).0 (ground arith),
    (in_flight_count-pos_iff entry).0 (ground arith),
  ),
  λ (h, k).
      ground (arith, (ready-id_iff entry.sandbox_id rs).1 h, (in_flight_count-pos_iff entry).1 k),
)

-- The fleet is polled fast exactly for one of these reasons.
pub has_fleet_activity_iff :
    (list : Option SandboxList) (snapshot : Option SnapshotResult)
    (create_logs : Option (List Text))
    → (has_fleet_activity list snapshot create_logs ≡ true) ↔ Reasons list snapshot create_logs
unfolding has_fleet_activity
has_fleet_activity_iff list snapshot (some logs) = (λ h. inl (logs, refl), λ h. refl)
has_fleet_activity_iff list snapshot none = (
  λ h. elim (Bool-cases (any (λ r. is_changing r.state) (records_of list))) [
    | inl e ↦
        inr
          (inl (Some-map (λ r k. ground arith) (records_of list) (any→Some _ (records_of list) e)))
    | inr e ↦ inr (
        inr (
          Some-map (λ entry. (entry_iff (records_of list) entry).0) (entries_of snapshot)
            (any→Some _ (entries_of snapshot) (ground arith))))
  ],
  λ h. elim h [
    | inl k ↦ absurd (cc)
    | inr k ↦ elim k [
      | inl c ↦ ground (
        arith,
        Some→any (λ r. is_changing r.state) (records_of list)
            (Some-map (λ r k. ground arith) (records_of list) c),
      )
      | inr c ↦ ground (
        arith,
        Some→any _ (entries_of snapshot)
            (Some-map (λ entry. (entry_iff (records_of list) entry).1) (entries_of snapshot) c),
      )
    ]
  ],
)
