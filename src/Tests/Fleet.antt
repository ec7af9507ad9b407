-- ===== src/Tests/Fleet.antt =====
-- The fleet, its clusters and its figures at concrete inputs.
use ephemeral_sandbox_consol.Base.{
  ◌+◌, ◌≡◌, refl, ◌≢◌, ◌↔◌, ◌⊎◌, ◌&&◌, none, some, List, [], ◌∷◌, map, leb, if◌then◌else◌, Some,
  Text, codes, text_discrete,
}
use ephemeral_sandbox_consol.Base.Keyed.{get}
use ephemeral_sandbox_consol.Api.Types.{SandboxState, SandboxList}
use ephemeral_sandbox_consol.Core.Resources.{SandboxCurrentUsage, current_usage_from_series}
use ephemeral_sandbox_consol.Core.Fleet.{
  filter_fleet_records, snapshots_by_sandbox, sandbox_card_view_model,
}
use ephemeral_sandbox_consol.Core.Fleet.Search.{Matches, filter_fleet_records_iff}
use ephemeral_sandbox_consol.Core.Fleet.Cards.{IsUnobserved, sandbox_card_view_model-IsUnobserved}
use ephemeral_sandbox_consol.Core.Clusters.{
  SandboxClusterRecord, merge_sandbox_clusters, resolve_sandbox_clusters,
}
use ephemeral_sandbox_consol.Core.Clusters.Registry.{
  IsApart, IsExclusive, merge_sandbox_clusters-IsExclusive, merge_sandbox_clusters-register,
}
use ephemeral_sandbox_consol.Core.Clusters.Resolution.{IsSplit, resolve_sandbox_clusters-IsSplit}
use ephemeral_sandbox_consol.Tests.Samples.{ready_a, ready_b, stopped_c, fleet, sample, snapshot_of}

current_usage_run : current_usage_from_series (sample 1 10 ∷ sample 2 20 ∷ []) ≡ record {
  cpu_percent = some (record { num = 100_000; den = 500_000 });
  memory_bytes = some 20;
  sampled_at = some 2;
}
unfolding current_usage_from_series text_discrete
current_usage_run = refl

abbrev usage : List (Text × SandboxCurrentUsage)
usage = (ready_a.id, record { cpu_percent = none; memory_bytes = some 30; sampled_at = none }) ∷ []

abbrev shown : SandboxList
shown = record { sandboxes = ready_b ∷ ready_a ∷ stopped_c ∷ [] }

-- Lower case, for the letters of ASCII.
abbrev lower : Text → Text
lower = map (λ c. if leb b'A' c && leb c b'Z' then c + 32 else c)

filter_fleet_records_iff_example :
    Some (λ r. r ≡ ready_a) (filter_fleet_records lower fleet.sandboxes (codes "EOS") none)
    ↔ Some
        (λ r. Matches lower r (codes "EOS") (get r.id (snapshots_by_sandbox none)) × (r ≡ ready_a))
        fleet.sandboxes
filter_fleet_records_iff_example =
    filter_fleet_records_iff lower fleet.sandboxes (codes "EOS") none (λ r. r ≡ ready_a) refl

filter_fleet_records_run :
    filter_fleet_records lower fleet.sandboxes (codes " EOS ") none ≡ ready_a ∷ []
unfolding filter_fleet_records text_discrete
filter_fleet_records_run = refl

sandbox_card_view_model-IsUnobserved_example :
    (stopped_c.state ≢ SandboxState.ready
      → IsUnobserved stopped_c
          (sandbox_card_view_model stopped_c (some (snapshot_of (codes "b") [])) none)
        × ((sandbox_card_view_model stopped_c (some (snapshot_of (codes "b") [])) none).cpu_percent
            ≡ none)
        × ((sandbox_card_view_model stopped_c (some (snapshot_of (codes "b") [])) none).memory_bytes
            ≡ none))
    × (codes "b" ≢ stopped_c.id
        → IsUnobserved stopped_c
            (sandbox_card_view_model stopped_c (some (snapshot_of (codes "b") [])) none))
sandbox_card_view_model-IsUnobserved_example =
    sandbox_card_view_model-IsUnobserved stopped_c (snapshot_of (codes "b") []) none

abbrev cluster_of : Text → List Text → SandboxClusterRecord
cluster_of id member_ids = record {
  id = id;
  member_ids = member_ids;
  workspace_root = codes "/w";
  created_at = codes "t";
}

abbrev registered : List SandboxClusterRecord
registered = cluster_of (codes "k1") (ready_a.id ∷ ready_b.id ∷ []) ∷ []

abbrev newer : SandboxClusterRecord
newer = cluster_of (codes "k2") (ready_b.id ∷ codes "d" ∷ [])

merge_sandbox_clusters-IsExclusive_example :
    IsExclusive (merge_sandbox_clusters registered (newer ∷ []))
merge_sandbox_clusters-IsExclusive_example =
    merge_sandbox_clusters-IsExclusive registered (newer ∷ []) (tt, tt)

merge_run : merge_sandbox_clusters registered (newer ∷ []) ≡ newer ∷ []
unfolding merge_sandbox_clusters text_discrete
merge_run = refl

merge_sandbox_clusters-register_example :
    (Some (λ c. c ≡ newer) (merge_sandbox_clusters registered (newer ∷ []))
      ↔ (Some (λ c. IsApart c newer × (c ≡ newer)) registered ⊎ (newer ≡ newer)))
    × (merge_sandbox_clusters registered (newer ∷ newer ∷ [])
        ≡ merge_sandbox_clusters registered (newer ∷ []))
merge_sandbox_clusters-register_example =
    merge_sandbox_clusters-register registered newer (λ c. c ≡ newer)

resolve_sandbox_clusters-IsSplit_example :
    IsSplit fleet.sandboxes (resolve_sandbox_clusters fleet.sandboxes registered)
resolve_sandbox_clusters-IsSplit_example =
    resolve_sandbox_clusters-IsSplit fleet.sandboxes registered

resolve_run : (resolve_sandbox_clusters fleet.sandboxes registered).individuals ≡ stopped_c ∷ []
unfolding resolve_sandbox_clusters text_discrete
resolve_run = refl
