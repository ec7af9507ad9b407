-- ===== src/Core/Clusters/Resolution.antt =====
-- Resolving the registry splits the records (`resolveSandboxClusters` of
-- web/src/core/sandboxClusters.ts).
use ephemeral_sandbox_consol.Base.{
  ◌≡◌, refl, sym, ap, ◌∙◌, subst, ◌≢◌, ◌↔◌, true, false, not, ◌||◌, List, [], ◌∷◌, ◌++◌,
  append_assoc, append-nil, arith, All, Some, Text, Pairwise, All-map, Some-map, Some-filter→Some,
  Some→Some-filter, All-append, Pairwise-append,
}
use mathlib.Core.List.{map-append}
use ephemeral_sandbox_consol.Base.Keyed.{has}
use ephemeral_sandbox_consol.Api.Types.{SandboxRecord}
use ephemeral_sandbox_consol.Core.Clusters.{
  SandboxClusterRecord, ResolvedSandboxCluster, unique_from, members_of, push_cluster, Progress,
  resolve_from, records_by_id, resolve_sandbox_clusters, Resolved,
}
use ephemeral_sandbox_consol.Core.Clusters.Members.{
  ids, IsById, set_all-IsById, unique_from-has, unique_from-Pairwise, HasOtherId, pick-All,
  pick-unclaimed, pick-Pairwise,
}

-- The members of all clusters, one after the other.
unfoldable pub all_members : List ResolvedSandboxCluster → List SandboxRecord
all_members [] = []
all_members (c ∷ cs) = c.members ++ all_members cs

has-append : (x : Text) (xs ys : List Text) → has x (xs ++ ys) ≡ (has x xs || has x ys)
has-append x [] ys = refl
has-append x (y ∷ xs) ys = ground (arith, has-append x xs ys)

all_members-push :
    (cluster : SandboxClusterRecord) (members : List SandboxRecord) (rest : Progress)
    → (all_members (push_cluster cluster members rest).0 ≡ members ++ all_members rest.0)
      × ((push_cluster cluster members rest).1 ≡ rest.1)
unfolding push_cluster all_members
all_members-push cluster [] rest = (refl, refl)
all_members-push cluster (m ∷ members) rest = (ground arith, ground arith)

-- The ids claimed at the end are those claimed at the start and those of the members found.
claimed-members :
    (by_id : List (Text × SandboxRecord)) (claimed : List Text)
    (registry : List SandboxClusterRecord)
    → (resolve_from by_id claimed registry).1
      ≡ claimed ++ ids (all_members (resolve_from by_id claimed registry).0)
unfolding resolve_from all_members
claimed-members by_id claimed [] = sym (append-nil claimed)
claimed-members by_id claimed (cluster ∷ registry) =
    let members : List SandboxRecord = members_of by_id claimed cluster in
    let rest : Progress = resolve_from by_id (claimed ++ ids members) registry in
    let step = all_members-push cluster members rest in
    step.1
    ∙ claimed-members by_id (claimed ++ ids members) registry
    ∙ append_assoc claimed (ids members) (ids (all_members rest.0))
    ∙ ap (λ xs. claimed ++ xs) (sym (map-append (λ r. r.id) members (all_members rest.0)))
    ∙ ap (λ ms. claimed ++ ids ms) (sym step.0)

has_of_Some : (x : Text) (rs : List SandboxRecord) → has x (ids rs) ≡ false → All (λ r. r.id ≢ x) rs
has_of_Some x [] h = tt
has_of_Some x (r ∷ rs) h = (ground arith, has_of_Some x rs (ground arith))

apart :
    (claimed : List Text) (members later : List SandboxRecord)
    → All (λ r. has r.id (claimed ++ ids members) ≡ false) later
    → All (λ a. All (HasOtherId a) later) members
apart claimed members later h = swap members later (
    All-map
      (λ r k. has_of_Some r.id members (ground (arith, has-append r.id claimed (ids members))))
      later h)
  where
    swap :
        (xs ys : List SandboxRecord)
        → All (λ y. All (λ x. x.id ≢ y.id) xs) ys
        → All (λ x. All (HasOtherId x) ys) xs
    swap [] ys k = tt
    swap (x ∷ xs) ys k = (All-map (λ y l. l.0) ys k, swap xs ys (All-map (λ y l. l.1) ys k))

-- The cluster has members, and each is named by it.
abbrev pub IsNamed : ResolvedSandboxCluster → Type 0
IsNamed c = (c.members ≢ []) × All (λ r. has r.id c.cluster.member_ids ≡ true) c.members

push-members :
    (cluster : SandboxClusterRecord) (members : List SandboxRecord) (rest : Progress)
    → All (λ r. has r.id cluster.member_ids ≡ true) members
    → All IsNamed rest.0
    → All IsNamed (push_cluster cluster members rest).0
unfolding push_cluster
push-members cluster [] rest h k = k
push-members cluster (m ∷ members) rest h k =
    subst (λ (p : Progress). All IsNamed p.0) (sym pushed) ((λ e. ground arith, h), k)
  where
    pushed :
        push_cluster cluster (m ∷ members) rest
        ≡ (record { cluster = cluster; members = m ∷ members } ∷ rest.0, rest.1)
    pushed = ground arith

module _ (by_id : List (Text × SandboxRecord)) (keyed : IsById by_id) where
  -- The members found are not claimed before.
  resolve_from-unclaimed :
      (claimed : List Text) (registry : List SandboxClusterRecord)
      → All (λ r. has r.id claimed ≡ false) (all_members (resolve_from by_id claimed registry).0)
  unfolding resolve_from all_members
  resolve_from-unclaimed claimed [] = tt
  resolve_from-unclaimed claimed (cluster ∷ registry) =
      let members : List SandboxRecord = members_of by_id claimed cluster in
      let rest : Progress = resolve_from by_id (claimed ++ ids members) registry in
      subst (All (λ r. has r.id claimed ≡ false)) (sym (all_members-push cluster members rest).0) (
        All-append _ members (all_members rest.0)
          (unfold members_of in
            pick-unclaimed by_id claimed keyed (unique_from [] cluster.member_ids))
          (All-map (λ r h. ground (arith, has-append r.id claimed (ids members)))
            (all_members rest.0) (resolve_from-unclaimed (claimed ++ ids members) registry)))

  -- No two of the members found share an id.
  resolve_from-Pairwise :
      (claimed : List Text) (registry : List SandboxClusterRecord)
      → Pairwise HasOtherId (all_members (resolve_from by_id claimed registry).0)
  unfolding resolve_from all_members
  resolve_from-Pairwise claimed [] = tt
  resolve_from-Pairwise claimed (cluster ∷ registry) =
      let members : List SandboxRecord = members_of by_id claimed cluster in
      let rest : Progress = resolve_from by_id (claimed ++ ids members) registry in
      subst (Pairwise HasOtherId) (sym (all_members-push cluster members rest).0) (
        Pairwise-append HasOtherId members (all_members rest.0)
          (unfold members_of in
            pick-Pairwise by_id claimed keyed _ (unique_from-Pairwise [] cluster.member_ids))
          (resolve_from-Pairwise (claimed ++ ids members) registry)
          (apart claimed members (all_members rest.0)
            (resolve_from-unclaimed (claimed ++ ids members) registry)))

  -- A cluster that is found has members, and they are records named by the cluster.
  resolve_from-members :
      (claimed : List Text) (registry : List SandboxClusterRecord)
      → All IsNamed (resolve_from by_id claimed registry).0
  unfolding resolve_from
  resolve_from-members claimed [] = tt
  resolve_from-members claimed (cluster ∷ registry) =
      let members : List SandboxRecord = members_of by_id claimed cluster in
      push-members cluster members (resolve_from by_id (claimed ++ ids members) registry)
        (unfold members_of in
          pick-All by_id claimed keyed (λ id. has id cluster.member_ids ≡ true) _
            (unique_from-has [] cluster.member_ids))
        (resolve_from-members (claimed ++ ids members) registry)

-- What a split of the records is. The members of all clusters have different ids; every cluster has
-- members, and only such as it names; and the records shown alone are exactly those whose id no
-- member has.
abbrev pub IsSplit : List SandboxRecord → Resolved → Type 1
IsSplit records out =
    Pairwise HasOtherId (all_members out.clusters)
    × All IsNamed out.clusters
    × ((P : SandboxRecord → Type 0)
        → Some P out.individuals
          ↔ Some (λ r. (has r.id (ids (all_members out.clusters)) ≡ false) × P r) records)

-- Whatever is registered, resolving the registry splits the records: no sandbox is shown in two
-- clusters, or in a cluster and alone, and none is lost.
pub resolve_sandbox_clusters-IsSplit :
    (records : List SandboxRecord) (registry : List SandboxClusterRecord)
    → IsSplit records (resolve_sandbox_clusters records registry)
unfolding resolve_sandbox_clusters
resolve_sandbox_clusters-IsSplit records registry =
    let by_id : List (Text × SandboxRecord) = records_by_id records in
    let keyed : IsById by_id = unfold records_by_id in set_all-IsById [] records tt in
    let end : Progress = resolve_from by_id [] registry in
    let same : end.1 ≡ ids (all_members end.0) = claimed-members by_id [] registry in
    (
      resolve_from-Pairwise by_id keyed [] registry,
      resolve_from-members by_id keyed [] registry,
      λ P. (
        λ h.
            Some-map (λ r (e, p). (ap (has r.id) (sym same) ∙ ground arith, p)) records
              (Some-filter→Some P (λ r. not (has r.id end.1)) records h),
        λ h.
            Some→Some-filter P (λ r. not (has r.id end.1)) records
              (Some-map (λ r (e, p). (ap not (ap (has r.id) same ∙ e), p)) records h),
      ),
    )
