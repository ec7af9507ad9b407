-- ===== src/Core/Fleet/Search.antt =====
-- The search over the fleet (`fleetRecordMatches`, `filterFleetRecords` of web/src/core/fleet.ts).
use ephemeral_sandbox_consol.Base.{
  ◌≡◌, sym, ap, ◌∙◌, subst, ◌≢◌, ◌↔◌, ◌⊎◌, inl, inr, Bool, true, Option, List, [], ◌∷◌, arith,
  if◌then◌else◌, filter, any, Some, Text, ◌==◌, text_discrete, Some-map, any→Some, Some→any,
  Some-filter→Some, Some→Some-filter,
}
use ephemeral_sandbox_consol.Base.Keyed.{get}
use ephemeral_sandbox_consol.Base.Strings.{trim, includes}
use ephemeral_sandbox_consol.Base.Strings.Infix.{IsInfix, includes→IsInfix, includes-append}
use ephemeral_sandbox_consol.Api.Types.{SandboxRecord}
use ephemeral_sandbox_consol.Api.Observability.{SandboxSnapshot, SnapshotResult}
use ephemeral_sandbox_consol.Core.Status.{sandbox_status}
use ephemeral_sandbox_consol.Core.Fleet.{
  fields_of, state_text, display_text, label_text, active_commands_for_record, fleet_record_matches,
  filter_fleet_records, snapshots_by_sandbox,
}

-- What of a record can be searched: its id, its root, its state, and the state and label of its card.
abbrev pub searchable : SandboxRecord → Option SandboxSnapshot → List Text
searchable r snapshot =
    let status = sandbox_status r.state (active_commands_for_record r snapshot) in
    r.id
    ∷ r.workspace_root
    ∷ state_text r.state
    ∷ display_text status.state
    ∷ label_text status.label
    ∷ []

module _ (lower : Text → Text) where
  -- The needle is empty, or stands in one of these texts, in lower case.
  abbrev pub Matches : SandboxRecord → Text → Option SandboxSnapshot → Type 0
  Matches r query snapshot =
      (lower (trim query) ≡ [])
      ⊎ Some (λ value. IsInfix (lower (trim query)) (lower value)) (searchable r snapshot)

  -- The test of `fleet_record_matches`, over the fields.
  found : Text → List Text → Bool
  found needle values =
      if needle == [] then true else any (λ value. includes needle (lower value)) values

  found_iff :
      (needle : Text) (values : List Text)
      → (found needle values ≡ true)
        ↔ ((needle ≡ []) ⊎ Some (λ value. IsInfix needle (lower value)) values)
  unfolding found
  found_iff needle values = elim (text_discrete needle []) [
    | yes e ↦ (λ h. inl e, λ h. ground arith)
    | no n ↦ (
      λ h. inr (
          Some-map (λ value. includes→IsInfix needle (lower value)) values
            (any→Some _ values (ground arith))),
      λ h. elim h [
        | inl e ↦ absurd (n e)
        | inr k ↦ ground (
          arith,
          Some→any (λ value. includes needle (lower value)) values
              (Some-map (λ value (before, after, e). rw e (includes-append needle before after))
                values k),
        )
      ],
    )
  ]

  -- A record matches a query exactly if the trimmed query, in lower case, is empty or stands in its
  -- id, workspace root, state, shown state or label, in lower case.
  pub fleet_record_matches_iff :
      (r : SandboxRecord) (query : Text) (snapshot : Option SandboxSnapshot)
      → (fleet_record_matches lower r query snapshot ≡ true) ↔ Matches r query snapshot
  unfolding fleet_record_matches found fields_of
  fleet_record_matches_iff r query snapshot = found_iff (lower (trim query)) (fields_of r snapshot)

  kept : Text → Option SnapshotResult → SandboxRecord → Bool
  kept query snapshot r =
      fleet_record_matches lower r query (get r.id (snapshots_by_sandbox snapshot))

  filter_fleet_records-blank :
      (records : List SandboxRecord) (query : Text) (snapshot : Option SnapshotResult)
      → trim query ≡ []
      → filter_fleet_records lower records query snapshot ≡ records
  unfolding filter_fleet_records
  filter_fleet_records-blank records query snapshot h = ground arith

  filter_fleet_records-filter :
      (records : List SandboxRecord) (query : Text) (snapshot : Option SnapshotResult)
      → trim query ≢ []
      → filter_fleet_records lower records query snapshot ≡ filter (kept query snapshot) records
  unfolding filter_fleet_records kept
  filter_fleet_records-filter records query snapshot h = ground arith

  -- The filter keeps exactly the records of the list that match, each with its own entry of the
  -- snapshot, where `lower` keeps the empty text.
  pub filter_fleet_records_iff :
      (records : List SandboxRecord) (query : Text) (snapshot : Option SnapshotResult)
      (P : SandboxRecord → Type 0)
      → lower [] ≡ []
      → Some P (filter_fleet_records lower records query snapshot)
        ↔ Some (λ r. Matches r query (get r.id (snapshots_by_sandbox snapshot)) × P r) records
  filter_fleet_records_iff records query snapshot P h = elim (text_discrete (trim query) []) [
    | yes e ↦
        let same = filter_fleet_records-blank records query snapshot e in
        (
          λ k. Some-map (λ r p. (inl (ap lower e ∙ h), p)) records (subst (Some P) same k),
          λ k. subst (Some P) (sym same) (Some-map (λ r p. p.1) records k),
        )
    | no n ↦
        let same = filter_fleet_records-filter records query snapshot n in
        (
          λ k.
              Some-map (λ r p. (unfold kept in (fleet_record_matches_iff r query _).0 p.0, p.1))
                records (Some-filter→Some P (kept query snapshot) records (subst (Some P) same k)),
          λ k. subst (Some P) (sym same) (
              Some→Some-filter P (kept query snapshot) records (
                Some-map (λ r p. (unfold kept in (fleet_record_matches_iff r query _).1 p.0, p.1))
                  records k)),
        )
  ]
