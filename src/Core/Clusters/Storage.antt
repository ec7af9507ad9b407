-- ===== src/Core/Clusters/Storage.antt =====
-- The registry of clusters in the browser's storage and at the server (web/src/core/sandboxClusters.ts).
-- `JSON.parse` and `JSON.stringify` are a parameter; so are the answers of `fetch`.
pub mod Written
pub mod Laws
use ephemeral_sandbox_consol.Base.{
  ◌≡◌, ◌≢◌, Bool, true, false, not, Option, none, some, List, [], ◌∷◌, if◌then◌else◌, filter, Text,
  codes, ◌==◌,
}
use ephemeral_sandbox_consol.Base.Json.{
  Json, Items, null, string, array, object, nil, item, end, field, member, nullish,
}
use ephemeral_sandbox_consol.Core.Clusters.{
  SandboxClusterRecord, CreateResult, cluster_from_create_result, merge_sandbox_clusters,
}

-- `JSON`: `parse` is `none` where it throws, and it reads what `stringify` writes.
pub record JsonText : Type 0 where
  pub parse : Text → Option Json
  pub stringify : Json → Text
  pub parse_stringify : (j : Json) → parse (stringify j) ≡ some j
  pub stringify_nonempty : (j : Json) → stringify j ≢ []

abbrev pub id_key : Text
id_key = codes "id"

abbrev pub members_key : Text
members_key = codes "memberIds"

abbrev pub root_key : Text
root_key = codes "workspaceRoot"

abbrev pub created_key : Text
created_key = codes "createdAt"

-- `memberIds.every((id) => typeof id === "string")`, with the ids.
abbrev pub texts_of : Items → Option (List Text)
texts_of nil = some []
texts_of (item (string s) rest) = elim (texts_of rest) [ none ↦ none | some ids ↦ some (s ∷ ids) ]
texts_of (item _ rest) = none

abbrev text_field : Option Json → Option Text
text_field (some (string s)) = some s
text_field _ = none

-- An array of one text or more.
abbrev pub at_least_one : Option (List Text) → Option (List Text)
at_least_one (some (id ∷ ids)) = some (id ∷ ids)
at_least_one _ = none

abbrev members_field : Option Json → Option (List Text)
members_field (some (array ids)) = at_least_one (texts_of ids)
members_field _ = none

abbrev cluster_of_fields :
    Option Text → Option (List Text) → Option Text → Option Text → Option SandboxClusterRecord
cluster_of_fields (some id) (some members) (some root) (some created) =
    some (record { id = id; member_ids = members; workspace_root = root; created_at = created })
cluster_of_fields _ _ _ _ = none

-- `isClusterRecord`, with the record. Fields that it does not name are not read anywhere.
pub cluster_record : Json → Option SandboxClusterRecord
cluster_record candidate =
    cluster_of_fields (text_field (member id_key candidate))
      (members_field (member members_key candidate)) (text_field (member root_key candidate))
      (text_field (member created_key candidate))

-- `parsed.filter(isClusterRecord)`
abbrev pub cluster_records : Items → List SandboxClusterRecord
cluster_records nil = []
cluster_records (item candidate rest) =
    let later = cluster_records rest in
    elim (cluster_record candidate) [ none ↦ later | some c ↦ c ∷ later ]

abbrev pub records_of : Option Json → List SandboxClusterRecord
records_of (some (array candidates)) = cluster_records candidates
records_of _ = []

-- The value of a cluster, which `JSON.stringify` writes.
abbrev pub texts_json : List Text → Items
texts_json [] = nil
texts_json (s ∷ ss) = item (string s) (texts_json ss)

abbrev pub cluster_json : SandboxClusterRecord → Json
cluster_json c = object (
    field id_key (string c.id) (
      field members_key (array (texts_json c.member_ids))
        (field root_key (string c.workspace_root) (field created_key (string c.created_at) end))))

abbrev pub clusters_items : List SandboxClusterRecord → Items
clusters_items [] = nil
clusters_items (c ∷ cs) = item (cluster_json c) (clusters_items cs)

-- The browser's storage under the key of the registry, and whether it lets the page read and write.
pub record Browser : Type 0 where
  pub stored : Option Text
  pub readable : Bool
  pub writable : Bool

-- What `fetch("/api/sandbox-clusters")` gives: it throws, or answers with `response.ok` and the body,
-- which may not be JSON.
pub data ListAnswer : Type 0 where
  unreachable : ListAnswer
  answered : Bool → Option Json → ListAnswer

-- `body.clusters ?? []`, which throws on null.
abbrev clusters_of_body : Option Json → Option Json
clusters_of_body none = none
clusters_of_body (some null) = none
clusters_of_body (some body) = some (nullish (member (codes "clusters") body) (array nil))

module _ (json : JsonText) where
  pub parse_sandbox_clusters : Option Text → List SandboxClusterRecord
  unfolding cluster_record
  parse_sandbox_clusters none = []
  parse_sandbox_clusters (some []) = []
  parse_sandbox_clusters (some (c ∷ s)) = records_of (json.parse (c ∷ s))

  pub read_sandbox_clusters : Browser → List SandboxClusterRecord
  unfolding parse_sandbox_clusters
  read_sandbox_clusters browser =
      if browser.readable then parse_sandbox_clusters browser.stored else []

  -- `localStorage.setItem`, where a failure is caught.
  pub write_clusters : List SandboxClusterRecord → Browser → Browser
  write_clusters clusters browser =
      if browser.writable
      then record browser { stored = some (json.stringify (array (clusters_items clusters))) }
      else browser

  -- The list with the clusters that are sent to the server: all local ones, once it answers.
  abbrev merged_answer :
      List SandboxClusterRecord
      → Option Json
      → List SandboxClusterRecord × List SandboxClusterRecord
  merged_answer local none = (local, [])
  merged_answer local (some clusters) = (
    merge_sandbox_clusters (parse_sandbox_clusters (some (json.stringify clusters))) local,
    local,
  )

  unfoldable pub list_sandbox_clusters :
      Browser → ListAnswer → List SandboxClusterRecord × List SandboxClusterRecord
  unfolding read_sandbox_clusters
  list_sandbox_clusters browser unreachable = (read_sandbox_clusters browser, [])
  list_sandbox_clusters browser (answered false body) = (read_sandbox_clusters browser, [])
  list_sandbox_clusters browser (answered true body) =
      merged_answer (read_sandbox_clusters browser) (clusters_of_body body)

  -- A result that makes no cluster changes nothing. The returned cluster is also sent to the server.
  abbrev register_cluster :
      Option SandboxClusterRecord → Browser → Option SandboxClusterRecord × Browser
  register_cluster none browser = (none, browser)
  register_cluster (some cluster) browser = (
    some cluster,
    write_clusters (merge_sandbox_clusters (read_sandbox_clusters browser) (cluster ∷ [])) browser,
  )

  unfoldable pub register_sandbox_cluster :
      CreateResult → Text → Bool → Browser → Option SandboxClusterRecord × Browser
  unfolding read_sandbox_clusters write_clusters
  register_sandbox_cluster result now allow_single_member browser =
      register_cluster (cluster_from_create_result result now allow_single_member) browser

  -- `none` is the error that is thrown when the server does not confirm.
  unfoldable pub remove_sandbox_cluster : Text → Bool → Browser → Option Browser
  unfolding read_sandbox_clusters write_clusters
  remove_sandbox_cluster cluster_id confirmed browser =
      if confirmed
      then some (
          write_clusters (filter (λ c. not (c.id == cluster_id)) (read_sandbox_clusters browser))
            browser)
      else none
