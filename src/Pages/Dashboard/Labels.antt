-- ===== src/Pages/Dashboard/Labels.antt =====
-- The cluster of a sandbox in both views (web/src/pages/dashboard/DashboardPage.tsx).
use ephemeral_sandbox_consol.Base.{
  ◌≡◌, refl, ◌∙◌, ◌≢◌, Bool, true, false, Option, some, List, [], ◌∷◌, ◌++◌, arith, if◌then◌else◌,
  All, Text, ◌==◌, text_eq_iff, text_eq_refl, Pairwise, All-of_append, All-filter,
}
use ephemeral_sandbox_consol.Base.Keyed.{get, set, set_all, get-set}
use ephemeral_sandbox_consol.Api.Types.{SandboxRecord}
use ephemeral_sandbox_consol.Api.Observability.{SnapshotResult}
use ephemeral_sandbox_consol.Core.Fleet.{filter_fleet_records}
use ephemeral_sandbox_consol.Core.Clusters.{
  SandboxClusterRecord, ResolvedSandboxCluster, resolve_sandbox_clusters,
}
use ephemeral_sandbox_consol.Core.Clusters.Members.{HasOtherId}
use ephemeral_sandbox_consol.Core.Clusters.Resolution.{
  all_members, resolve_sandbox_clusters-IsSplit,
}
use ephemeral_sandbox_consol.Base.Strings.{trim}
use ephemeral_sandbox_consol.Pages.Dashboard.{
  pairs_of, all_pairs, cluster_ids_by_sandbox, ClusterSearchResult, shown_members, add_result,
  visible_clusters,
}

abbrev HasOtherKey : Text → Text × Text → Type 0
HasOtherKey k p = k ≢ p.0

-- The pairs of the members of one cluster and of those that follow.
abbrev joined : Text → List SandboxRecord → List ResolvedSandboxCluster → List (Text × Text)
joined id ms cs = pairs_of id ms ++ all_pairs cs

joined-HasOtherKey :
    (k id : Text) (ms : List SandboxRecord) (cs : List ResolvedSandboxCluster)
    → All (λ (m : SandboxRecord). k ≢ m.id) (ms ++ all_members cs)
    → All (HasOtherKey k) (joined id ms cs)
unfolding all_members
joined-HasOtherKey k id [] [] h = tt
joined-HasOtherKey k id [] (c ∷ cs) h = joined-HasOtherKey k c.cluster.id c.members cs h
joined-HasOtherKey k id (m ∷ ms) cs (h, hs) = (h, joined-HasOtherKey k id ms cs hs)

joined-Pairwise :
    (id : Text) (ms : List SandboxRecord) (cs : List ResolvedSandboxCluster)
    → Pairwise HasOtherId (ms ++ all_members cs)
    → Pairwise (λ p q. HasOtherKey p.0 q) (joined id ms cs)
unfolding all_members
joined-Pairwise id [] [] h = tt
joined-Pairwise id [] (c ∷ cs) h = joined-Pairwise c.cluster.id c.members cs h
joined-Pairwise id (m ∷ ms) cs (h, hs) =
    (joined-HasOtherKey m.id id ms cs h, joined-Pairwise id ms cs hs)

get-set_all-other :
    (k : Text) (entries m : List (Text × Text))
    → All (HasOtherKey k) entries
    → get k (set_all m entries) ≡ get k m
get-set_all-other k [] m h = refl
get-set_all-other k ((j, v) ∷ entries) m (h, hs) =
    get-set_all-other k entries (set j v m) hs
    ∙ get-set k j v m
    ∙ ground (arith, h, text_eq_iff j k)

-- An entry of different keys is found.
set_all-AreFound :
    (entries m : List (Text × Text))
    → Pairwise (λ p q. HasOtherKey p.0 q) entries
    → All (λ p. get p.0 (set_all m entries) ≡ some p.1) entries
set_all-AreFound [] m h = tt
set_all-AreFound ((k, v) ∷ entries) m (h, hs) = (
  get-set_all-other k entries (set k v m) h ∙ get-set k k v m ∙ ground (arith, text_eq_refl k),
  set_all-AreFound entries (set k v m) hs,
)

-- The members' label is the id of their cluster.
abbrev IsLabelled : List (Text × Text) → Text → SandboxRecord → Type 0
IsLabelled labels id m = get m.id labels ≡ some id

pairs_of-AreLabelled :
    (labels : List (Text × Text)) (id : Text) (ms : List SandboxRecord)
    → All (λ p. get p.0 labels ≡ some p.1) (pairs_of id ms)
    → All (IsLabelled labels id) ms
pairs_of-AreLabelled labels id [] h = tt
pairs_of-AreLabelled labels id (m ∷ ms) (h, hs) = (h, pairs_of-AreLabelled labels id ms hs)

abbrev AreLabelled : List (Text × Text) → ResolvedSandboxCluster → Type 0
AreLabelled labels c = All (IsLabelled labels c.cluster.id) c.members

all_pairs-AreLabelled :
    (labels : List (Text × Text)) (cs : List ResolvedSandboxCluster)
    → All (λ p. get p.0 labels ≡ some p.1) (all_pairs cs)
    → All (AreLabelled labels) cs
all_pairs-AreLabelled labels [] h = tt
all_pairs-AreLabelled labels (c ∷ cs) h =
    let both =
      All-of_append (λ p. get p.0 labels ≡ some p.1) (pairs_of c.cluster.id c.members)
        (all_pairs cs) h in
    (
      pairs_of-AreLabelled labels c.cluster.id c.members both.0,
      all_pairs-AreLabelled labels cs both.1,
    )

if-All :
    (P : SandboxRecord → Type 0) (b : Bool) (xs ys : List SandboxRecord)
    → All P xs
    → All P ys
    → All P (if b then xs else ys)
if-All P true xs ys h k = h
if-All P false xs ys h k = k

filter_fleet_records-All :
    (lower : Text → Text) (query : Text) (snapshot : Option SnapshotResult)
    (rs : List SandboxRecord) (P : SandboxRecord → Type 0)
    → All P rs
    → All P (filter_fleet_records lower rs query snapshot)
unfolding filter_fleet_records
filter_fleet_records-All lower query snapshot rs P h =
    if-All P (trim query == []) rs _ h (All-filter P _ rs h)

abbrev IsLabelledResult : List (Text × Text) → ClusterSearchResult → Type 0
IsLabelledResult labels v = All (IsLabelled labels v.cluster.cluster.id) v.members

add_result-All :
    (labels : List (Text × Text)) (c : ResolvedSandboxCluster) (ms : List SandboxRecord)
    (results : List ClusterSearchResult)
    → All (IsLabelled labels c.cluster.id) ms
    → All (IsLabelledResult labels) results
    → All (IsLabelledResult labels) (add_result c ms results)
add_result-All labels c [] results h k = k
add_result-All labels c (m ∷ ms) results h k = (h, k)

visible_clusters-AreLabelled :
    (lower : Text → Text) (query : Text) (snapshot : Option SnapshotResult)
    (labels : List (Text × Text)) (cs : List ResolvedSandboxCluster)
    → All (AreLabelled labels) cs
    → All (IsLabelledResult labels) (visible_clusters lower query snapshot cs)
unfolding visible_clusters
visible_clusters-AreLabelled lower query snapshot labels [] h = tt
visible_clusters-AreLabelled lower query snapshot labels (c ∷ cs) (h, hs) =
    add_result-All labels c (shown_members lower query snapshot c) _
      (if-All (IsLabelled labels c.cluster.id) _ c.members _ h (
        filter_fleet_records-All lower query snapshot c.members (IsLabelled labels c.cluster.id) h))
      (visible_clusters-AreLabelled lower query snapshot labels cs hs)

-- Whatever is registered and searched for, a sandbox that the cluster view shows under a cluster bears
-- that cluster's id in the sandbox view too; so no sandbox is shown under clusters of different ids.
pub cluster_ids_by_sandbox_lem :
    (lower : Text → Text) (query : Text) (snapshot : Option SnapshotResult)
    (records : List SandboxRecord) (registry : List SandboxClusterRecord)
    → let clusters = (resolve_sandbox_clusters records registry).clusters in
      All
        (λ (v : ClusterSearchResult).
          All
            (λ (m : SandboxRecord).
              get m.id (cluster_ids_by_sandbox clusters) ≡ some v.cluster.cluster.id)
            v.members)
        (visible_clusters lower query snapshot clusters)
unfolding cluster_ids_by_sandbox
cluster_ids_by_sandbox_lem lower query snapshot records registry =
    let clusters = (resolve_sandbox_clusters records registry).clusters in
    visible_clusters-AreLabelled lower query snapshot (set_all [] (all_pairs clusters)) clusters (
      all_pairs-AreLabelled (set_all [] (all_pairs clusters)) clusters (
        set_all-AreFound (all_pairs clusters) []
          (joined-Pairwise [] [] clusters (resolve_sandbox_clusters-IsSplit records registry).0)))
