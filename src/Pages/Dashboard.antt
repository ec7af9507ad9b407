-- ===== src/Pages/Dashboard.antt =====
-- The dashboard (web/src/pages/dashboard/DashboardPage.tsx): the connection, the fleet from render to
-- render, the search in both views, and what an empty view says. `toLowerCase` is an argument.
pub mod Labels
use ephemeral_sandbox_consol.Base.{
  ℕ, Bool, true, false, not, ◌&&◌, ◌||◌, Option, none, some, List, [], ◌∷◌, ◌++◌, map, nat_eq,
  if◌then◌else◌, any, Text, codes, ◌==◌,
}
use ephemeral_sandbox_consol.Base.Keyed.{set_all}
use ephemeral_sandbox_consol.Base.Strings.{trim, includes}
use ephemeral_sandbox_consol.Api.Types.{SandboxState, SandboxRecord, SandboxList}
use ephemeral_sandbox_consol.Api.Observability.{SnapshotResult}
use ephemeral_sandbox_consol.Core.Clusters.{SandboxClusterRecord, ResolvedSandboxCluster}
use ephemeral_sandbox_consol.Core.Fleet.{stabilize_fleet_list, filter_fleet_records}

pub data DashboardConnectionState : Type 0 where
  connecting connected stale disconnected : DashboardConnectionState

unfoldable pub connection_for : Option SandboxList → (failed : Bool) → DashboardConnectionState
connection_for (some fleet) true = DashboardConnectionState.stale
connection_for none true = DashboardConnectionState.disconnected
connection_for (some fleet) false = DashboardConnectionState.connected
connection_for none false = DashboardConnectionState.connecting

abbrev pub records_of : Option SandboxList → List SandboxRecord
records_of none = []
records_of (some fleet) = fleet.sandboxes

-- The fleet shown for a source, and the order that the effect keeps for the next one.
unfoldable pub next_fleet : Option SandboxList → List Text → Option SandboxList × List Text
unfolding stabilize_fleet_list
next_fleet source previous_order =
    let fleet = stabilize_fleet_list source previous_order in
    (fleet, map (λ (r : SandboxRecord). r.id) (records_of fleet))

abbrev pub pairs_of : Text → List SandboxRecord → List (Text × Text)
pairs_of id [] = []
pairs_of id (m ∷ ms) = (m.id, id) ∷ pairs_of id ms

abbrev pub all_pairs : List ResolvedSandboxCluster → List (Text × Text)
all_pairs [] = []
all_pairs (c ∷ cs) = pairs_of c.cluster.id c.members ++ all_pairs cs

unfoldable pub cluster_ids_by_sandbox : List ResolvedSandboxCluster → List (Text × Text)
cluster_ids_by_sandbox clusters = set_all [] (all_pairs clusters)

pub record ClusterSearchResult : Type 0 where
  pub cluster : ResolvedSandboxCluster
  pub members : List SandboxRecord

-- `members.length > 0 ? [{ cluster, members }] : []`, before the other results.
abbrev pub add_result :
    ResolvedSandboxCluster
    → List SandboxRecord
    → List ClusterSearchResult
    → List ClusterSearchResult
add_result c [] results = results
add_result c (m ∷ ms) results =
    (let result : ClusterSearchResult = record { cluster = c; members = m ∷ ms } in result)
    ∷ results

module _ (lower : Text → Text) where
  abbrev cluster_matches : Text → SandboxClusterRecord → Bool
  cluster_matches needle c =
      any (λ value. includes needle (lower value)) (c.id ∷ c.workspace_root ∷ [])

  abbrev pub shown_members :
      Text → Option SnapshotResult → ResolvedSandboxCluster → List SandboxRecord
  shown_members query snapshot c =
      let needle = lower (trim query) in
      if (needle == []) || cluster_matches needle c.cluster
      then c.members
      else filter_fleet_records lower c.members query snapshot

  unfoldable pub visible_clusters :
      Text → Option SnapshotResult → List ResolvedSandboxCluster → List ClusterSearchResult
  unfolding trim filter_fleet_records
  visible_clusters query snapshot [] = []
  visible_clusters query snapshot (c ∷ cs) =
      add_result c (shown_members query snapshot c) (visible_clusters query snapshot cs)

pub data DashboardView : Type 0 where
  sandbox cluster : DashboardView

abbrev is_creating : SandboxState → Bool
is_creating SandboxState.creating = true
is_creating _ = false

unfoldable pub show_creation_card : DashboardView → Bool → List SandboxRecord → Bool
show_creation_card DashboardView.cluster has_logs records = false
show_creation_card DashboardView.sandbox has_logs records =
    has_logs && not (any (λ (r : SandboxRecord). is_creating r.state) records)

-- The counts are those of the visible sandboxes and of the visible clusters.
unfoldable pub is_view_empty : DashboardView → (creation_card : Bool) → ℕ → ℕ → Bool
is_view_empty DashboardView.sandbox creation_card sandboxes clusters =
    nat_eq sandboxes 0 && not creation_card
is_view_empty DashboardView.cluster creation_card sandboxes clusters = nat_eq clusters 0

abbrev filtered_title : Text → DashboardView → Text
filtered_title (c ∷ query) view = codes "No matches"
filtered_title [] DashboardView.cluster = codes "No clusters"
filtered_title [] DashboardView.sandbox = codes "No sandboxes"

unfoldable pub empty_title : List SandboxRecord → Text → DashboardView → Text
empty_title [] query view = codes "No sandboxes yet"
empty_title (r ∷ rs) query view = filtered_title query view
