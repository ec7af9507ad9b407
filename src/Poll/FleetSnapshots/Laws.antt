-- ===== src/Poll/FleetSnapshots/Laws.antt =====
-- The fleet's queries are the queries of its sandboxes (web/src/poll/useFleetSnapshots.ts beside
-- web/src/poll/useSandboxSnapshot.ts).
use ephemeral_sandbox_consol.Base.{
  ℕ, ◌≡◌, refl, sym, ap, ap₂, ◌∙◌, ◌≢◌, inl, inr, Bool, true, false, Option, none, some, List, [],
  arith, if◌then◌else◌, Bool-cases, Text, text_eq_refl, text_discrete,
}
use ephemeral_sandbox_consol.Base.Keyed.{get, set, get-set}
use ephemeral_sandbox_consol.Api.Types.{SandboxRecord}
use ephemeral_sandbox_consol.Api.Observability.{SandboxSnapshot, SnapshotResult}
use ephemeral_sandbox_consol.Core.Status.{is_ready}
use ephemeral_sandbox_consol.Core.Activity.{Attempt, should_request_sandbox_snapshot}
use ephemeral_sandbox_consol.Poll.Snapshot.{SnapshotQuery, enabled, ask, settle, record_attempt}
use ephemeral_sandbox_consol.Poll.FleetSnapshots.{
  FleetQuery, enabled_with, fleet_enabled, fleet_request, fleet_ask,
}

-- What the fleet keeps for one sandbox, as the state of that sandbox's own hook.
abbrev pub view : Text → FleetQuery → SnapshotQuery
view id q = record {
  last_snapshot_revision = get id q.requested_revisions;
  received = get id q.results;
}

-- The two hooks read `undefined` and null apart; at a record with a revision that makes no difference.
enabled_with-eq :
    (r : SandboxRecord) (n : ℕ) (received : Option SnapshotResult) (requested : Attempt)
    → r.activity_revision ≡ some n
    → is_ready r.state ≡ true
    → enabled_with r received requested
      ≡ should_request_sandbox_snapshot (some r) received requested
unfolding should_request_sandbox_snapshot
enabled_with-eq r n none none e h = sym h
enabled_with-eq r n none (some none) e h = ground (arith, e, h)
enabled_with-eq r n none (some (some m)) e h = ground (arith, e, h)
enabled_with-eq r n (some s) none e h = ground (arith, e, h)
enabled_with-eq r n (some s) (some none) e h = refl
enabled_with-eq r n (some s) (some (some m)) e h = refl

should_request-not_ready :
    (r : SandboxRecord) (received : Option SnapshotResult) (requested : Attempt)
    → is_ready r.state ≡ false
    → should_request_sandbox_snapshot (some r) received requested ≡ false
unfolding should_request_sandbox_snapshot
should_request-not_ready r none none h = h
should_request-not_ready r none (some last) h = ground (arith, h)
should_request-not_ready r (some s) requested h = ground (arith, h)

fleet_enabled-eq :
    (r : SandboxRecord) (n : ℕ) (q : FleetQuery)
    → r.activity_revision ≡ some n
    → r.id ≢ []
    → fleet_enabled r q ≡ enabled r.id (some r) (view r.id q)
unfolding fleet_enabled enabled
fleet_enabled-eq r n q e named = elim (text_discrete r.id []) [
  | yes empty ↦ absurd (named empty)
  | no filled ↦ elim (Bool-cases (is_ready r.state)) [
    | inl h ↦
        ground
          (arith, h, enabled_with-eq r n (get r.id q.results) (get r.id q.requested_revisions) e h)
    | inr h ↦ ground (
      arith,
      h,
      should_request-not_ready r (get r.id q.results) (get r.id q.requested_revisions) h,
    )
  ]
]

get-set_self {ℓ} :
    {V : Type ℓ} (k : Text) (v : V) (m : List (Text × V)) → get k (set k v m) ≡ some v
get-set_self k v m = get-set k k v m ∙ ground (arith, text_eq_refl k)

get-set_other {ℓ} :
    {V : Type ℓ} (j k : Text) (v : V) (m : List (Text × V)) → k ≢ j → get j (set k v m) ≡ get j m
get-set_other j k v m d = get-set j k v m ∙ ground arith

same_query :
    {a b : Attempt} {s t : Option SnapshotResult}
    → a ≡ b
    → s ≡ t
    → ◌≡◌ {A = SnapshotQuery}
        (record { last_snapshot_revision = a; received = s })
        (record { last_snapshot_revision = b; received = t })
same_query e f =
    ap₂
      (λ (a : Attempt) (s : Option SnapshotResult).
        let q : SnapshotQuery = record { last_snapshot_revision = a; received = s } in q)
      e f

fleet_request-own :
    (r : SandboxRecord) (response : Option SandboxSnapshot) (q : FleetQuery)
    → view r.id (fleet_request r response q)
      ≡ settle response (record_attempt (some r) (view r.id q))
unfolding fleet_request settle record_attempt
fleet_request-own r none q =
    same_query (get-set_self r.id r.activity_revision q.requested_revisions) refl
fleet_request-own r (some snapshot) q =
    same_query (get-set_self r.id r.activity_revision q.requested_revisions)
      (get-set_self r.id _ q.results)

fleet_request-other :
    (r : SandboxRecord) (response : Option SandboxSnapshot) (q : FleetQuery) (id : Text)
    → r.id ≢ id
    → view id (fleet_request r response q) ≡ view id q
unfolding fleet_request
fleet_request-other r none q id d =
    same_query (get-set_other id r.id r.activity_revision q.requested_revisions d) refl
fleet_request-other r (some snapshot) q id d =
    same_query (get-set_other id r.id r.activity_revision q.requested_revisions d)
      (get-set_other id r.id _ q.results d)

-- For a record with a revision and an id, asking the fleet's query does to what is kept for that
-- sandbox exactly what asking the sandbox's own hook does, and nothing to what is kept for others.
pub fleet_ask-view :
    (r : SandboxRecord) (n : ℕ) (response : Option SandboxSnapshot) (q : FleetQuery)
    → r.activity_revision ≡ some n
    → r.id ≢ []
    → (view r.id (fleet_ask r response q) ≡ ask r.id (some r) response (view r.id q))
      × ((id : Text) → r.id ≢ id → view id (fleet_ask r response q) ≡ view id q)
unfolding fleet_ask ask
fleet_ask-view r n response q e named =
    let same : fleet_enabled r q ≡ enabled r.id (some r) (view r.id q) =
      fleet_enabled-eq r n q e named in
    elim (Bool-cases (fleet_enabled r q)) [
      | inl on ↦ (
        ap (λ (b : Bool). view r.id (if b then fleet_request r response q else q)) on
            ∙ fleet_request-own r response q
            ∙ ap
                (λ (b : Bool).
                  if b
                  then settle response (record_attempt (some r) (view r.id q))
                  else view r.id q)
                (sym on ∙ same),
        λ id d.
            ap (λ (b : Bool). view id (if b then fleet_request r response q else q)) on
            ∙ fleet_request-other r response q id d,
      )
      | inr off ↦ (
        ap (λ (b : Bool). view r.id (if b then fleet_request r response q else q)) off
            ∙ ap
                (λ (b : Bool).
                  if b
                  then settle response (record_attempt (some r) (view r.id q))
                  else view r.id q)
                (sym off ∙ same),
        λ id d. ap (λ (b : Bool). view id (if b then fleet_request r response q else q)) off,
      )
    ]
