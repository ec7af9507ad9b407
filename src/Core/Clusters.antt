-- ===== src/Core/Clusters.antt =====
-- Clusters of sandboxes that were created together (web/src/core/sandboxClusters.ts).
pub mod Registry
pub mod Members
pub mod Resolution
pub mod Storage
use ephemeral_sandbox_consol.Base.{
  Bool, true, false, not, ◌||◌, Option, none, some, List, [], ◌∷◌, ◌++◌, map, ltb, nat_eq,
  if◌then◌else◌, or_else, length, filter, any, head?, take, drop, Text, codes, ◌==◌, filter_map,
}
use ephemeral_sandbox_consol.Base.Keyed.{get, set_all, has}
use ephemeral_sandbox_consol.Base.Strings.{split, starts_with}
use ephemeral_sandbox_consol.Api.Types.{SandboxRecord}

pub record SandboxClusterRecord : Type 0 where
  pub id : Text
  pub member_ids : List Text
  pub workspace_root : Text
  pub created_at : Text

pub record ResolvedSandboxCluster : Type 0 where
  pub cluster : SandboxClusterRecord
  pub members : List SandboxRecord

-- `SandboxRecord | SandboxList`, as it arrives: a value that is no record, for `isSandboxRecord`, is
-- `none`.
pub data CreateResult : Type 0 where
  one : Option SandboxRecord → CreateResult
  many : List (Option SandboxRecord) → CreateResult

records_from_create_result : CreateResult → List SandboxRecord
records_from_create_result (one none) = []
records_from_create_result (one (some r)) = r ∷ []
records_from_create_result (many sandboxes) = filter_map (λ r. r) sandboxes

-- `text || fallback`
abbrev or_text : Text → Text → Text
or_text [] fallback = fallback
or_text (c ∷ s) fallback = c ∷ s

-- `sandboxId.replace(/^eos-/, "")`
abbrev without_prefix : Text → Text
without_prefix sandbox_id =
    if starts_with (codes "eos-") sandbox_id then drop 4 sandbox_id else sandbox_id

cluster_suffix : Text → Text
cluster_suffix sandbox_id =
    let normalized = without_prefix sandbox_id in
    or_text (or_else (head? (split b'-' normalized)) [])
      (or_text (take 8 normalized) (codes "batch"))

unfoldable pub cluster_from_create_result :
    CreateResult → Text → (allow_single_member : Bool) → Option SandboxClusterRecord
unfolding records_from_create_result cluster_suffix
cluster_from_create_result result created_at allow_single_member =
    let records = records_from_create_result result in
    if ltb (length records) (if allow_single_member then 1 else 2)
    then none
    else elim (head? records) [
      | none ↦ none
      | some first ↦ some (record {
        id = codes "cluster-" ++ cluster_suffix first.id;
        member_ids = map (λ r. r.id) records;
        workspace_root = first.workspace_root;
        created_at = created_at;
      })
    ]

-- Whether a registered cluster gives way to another: the same id, or a member in common.
unfoldable pub gives_way : SandboxClusterRecord → SandboxClusterRecord → Bool
gives_way cluster candidate =
    (candidate.id == cluster.id) || any (λ m. has m cluster.member_ids) candidate.member_ids

-- One step of the `reduce`.
unfoldable pub absorb : List SandboxClusterRecord → SandboxClusterRecord → List SandboxClusterRecord
unfolding gives_way
absorb clusters cluster =
    filter (λ candidate. not (gives_way cluster candidate)) clusters ++ cluster ∷ []

unfoldable pub merge_sandbox_clusters :
    List SandboxClusterRecord → List SandboxClusterRecord → List SandboxClusterRecord
unfolding absorb
merge_sandbox_clusters first [] = first
merge_sandbox_clusters first (cluster ∷ second) =
    merge_sandbox_clusters (absorb first cluster) second

-- `[...new Set(ids)]`, without the ids that were seen
pub unique_from : List Text → List Text → List Text
unique_from seen [] = []
unique_from seen (id ∷ ids) = elim (has id seen) [
  | true ↦ unique_from seen ids
  | false ↦ id ∷ unique_from (id ∷ seen) ids
]

-- `recordsById.get(id)`, unless the record is in a cluster already
abbrev unclaimed : List Text → Option SandboxRecord → Option SandboxRecord
unclaimed claimed none = none
unclaimed claimed (some r) = if has r.id claimed then none else some r

members_of : List (Text × SandboxRecord) → List Text → SandboxClusterRecord → List SandboxRecord
unfolding unique_from
members_of by_id claimed cluster =
    filter_map (λ id. unclaimed claimed (get id by_id)) (unique_from [] cluster.member_ids)

-- The clusters found, and the ids claimed by them.
abbrev Progress : Type 0
Progress = List ResolvedSandboxCluster × List Text

-- A cluster without members is passed over.
push_cluster : SandboxClusterRecord → List SandboxRecord → Progress → Progress
push_cluster cluster members rest =
    if nat_eq (length members) 0
    then rest
    else (record { cluster = cluster; members = members } ∷ rest.0, rest.1)

-- The loop over the registry.
resolve_from : List (Text × SandboxRecord) → List Text → List SandboxClusterRecord → Progress
unfolding members_of push_cluster
resolve_from by_id claimed [] = ([], claimed)
resolve_from by_id claimed (cluster ∷ registry) =
    let members = members_of by_id claimed cluster in
    push_cluster cluster members (resolve_from by_id (claimed ++ map (λ r. r.id) members) registry)

pub record Resolved : Type 0 where
  pub clusters : List ResolvedSandboxCluster
  pub individuals : List SandboxRecord

unfoldable pub records_by_id : List SandboxRecord → List (Text × SandboxRecord)
records_by_id records = set_all [] (map (λ r. (r.id, r)) records)

unfoldable pub resolve_sandbox_clusters : List SandboxRecord → List SandboxClusterRecord → Resolved
unfolding records_by_id resolve_from
resolve_sandbox_clusters records registry =
    let resolved = resolve_from (records_by_id records) [] registry in
    record { clusters = resolved.0; individuals = filter (λ r. not (has r.id resolved.1)) records }
