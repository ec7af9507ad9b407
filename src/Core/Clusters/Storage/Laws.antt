-- ===== src/Core/Clusters/Storage/Laws.antt =====
-- The browser's storage is a registry (web/src/core/sandboxClusters.ts).
use ephemeral_sandbox_consol.Base.{
  ◌≡◌, refl, sym, ap, ◌∙◌, subst, ◌≢◌, inl, inr, Bool, true, false, not, Option, none, some, List,
  [], ◌∷◌, if◌then◌else◌, Bool-cases, Option-cases, or_else, filter, All, Text, ◌==◌, All-append,
}
use ephemeral_sandbox_consol.Base.Json.{array}
use ephemeral_sandbox_consol.Core.Clusters.{
  SandboxClusterRecord, CreateResult, cluster_from_create_result, absorb, merge_sandbox_clusters,
}
use ephemeral_sandbox_consol.Core.Clusters.Storage.{
  JsonText, Browser, records_of, clusters_items, parse_sandbox_clusters, read_sandbox_clusters,
  write_clusters, register_sandbox_cluster, remove_sandbox_cluster,
}
use ephemeral_sandbox_consol.Core.Clusters.Storage.Written.{
  HasMembers, cluster_records-clusters_items, records_of-HasMembers, All-filter_any,
  cluster_from_create_result-HasMembers,
}

pub data Operation : Type 0 where
  register : CreateResult → Text → Bool → Operation
  remove : Text → Bool → Operation

abbrev absorb_result :
    Option SandboxClusterRecord → List SandboxClusterRecord → List SandboxClusterRecord
absorb_result none clusters = clusters
absorb_result (some c) clusters = merge_sandbox_clusters clusters (c ∷ [])

abbrev pub apply : Operation → List SandboxClusterRecord → List SandboxClusterRecord
apply (register result now single) clusters =
    absorb_result (cluster_from_create_result result now single) clusters
apply (remove id confirmed) clusters =
    if confirmed then filter (λ c. not (c.id == id)) clusters else clusters

abbrev pub apply_all : List Operation → List SandboxClusterRecord → List SandboxClusterRecord
apply_all [] clusters = clusters
apply_all (op ∷ ops) clusters = apply_all ops (apply op clusters)

module _ (json : JsonText) where
  abbrev pub run : Operation → Browser → Browser
  run (register result now single) browser =
      (register_sandbox_cluster json result now single browser).1
  run (remove id confirmed) browser =
      or_else (remove_sandbox_cluster json id confirmed browser) browser

  abbrev pub run_all : List Operation → Browser → Browser
  run_all [] browser = browser
  run_all (op ∷ ops) browser = run_all ops (run op browser)

  parse-written :
      (t : Text) → t ≢ [] → parse_sandbox_clusters json (some t) ≡ records_of (json.parse t)
  unfolding parse_sandbox_clusters
  parse-written [] h = absurd (h refl)
  parse-written (c ∷ s) h = refl

  parse-HasMembers : (t : Option Text) → All HasMembers (parse_sandbox_clusters json t)
  unfolding parse_sandbox_clusters
  parse-HasMembers none = tt
  parse-HasMembers (some []) = tt
  parse-HasMembers (some (c ∷ s)) = records_of-HasMembers (json.parse (c ∷ s))

  read-HasMembers : (b : Browser) → All HasMembers (read_sandbox_clusters json b)
  unfolding read_sandbox_clusters
  read-HasMembers b = elim (Bool-cases b.readable) [
    | inl e ↦ rw (e) (parse-HasMembers b.stored)
    | inr e ↦ rw (e) (tt)
  ]

  write_allowed :
      (cs : List SandboxClusterRecord) (b : Browser)
      → b.writable ≡ true
      → write_clusters json cs b
        ≡ record b { stored = some (json.stringify (array (clusters_items cs))) }
  unfolding write_clusters
  write_allowed cs b w =
      ap
        (λ t.
          if t then record b { stored = some (json.stringify (array (clusters_items cs))) } else b)
        w

  read_allowed :
      (b : Browser)
      → b.readable ≡ true
      → read_sandbox_clusters json b ≡ parse_sandbox_clusters json b.stored
  unfolding read_sandbox_clusters
  read_allowed b r = ap (λ t. if t then parse_sandbox_clusters json b.stored else []) r

  -- The storage lets the page read and write.
  abbrev pub IsOpen : Browser → Type 0
  IsOpen b = (b.readable ≡ true) × (b.writable ≡ true)

  -- What is written is read back, and the storage stays open.
  read-write :
      (cs : List SandboxClusterRecord) (b : Browser)
      → IsOpen b
      → All HasMembers cs
      → (read_sandbox_clusters json (write_clusters json cs b) ≡ cs)
        × IsOpen (write_clusters json cs b)
  read-write cs b (r, w) h =
      let written : Browser = record b {
        stored = some (json.stringify (array (clusters_items cs)));
      } in
      subst (λ (b' : Browser). (read_sandbox_clusters json b' ≡ cs) × IsOpen b')
        (sym (write_allowed cs b w))
        (
          read_allowed written r
              ∙ parse-written (json.stringify (array (clusters_items cs)))
                  (json.stringify_nonempty (array (clusters_items cs)))
              ∙ ap records_of (json.parse_stringify (array (clusters_items cs)))
              ∙ cluster_records-clusters_items cs h,
          (r, w),
        )

  merge-HasMembers :
      (clusters : List SandboxClusterRecord) (c : SandboxClusterRecord)
      → All HasMembers clusters
      → HasMembers c
      → All HasMembers (merge_sandbox_clusters clusters (c ∷ []))
  unfolding merge_sandbox_clusters absorb
  merge-HasMembers clusters c h k =
      All-append HasMembers _ (c ∷ []) (All-filter_any HasMembers _ clusters h) (k, tt)

  -- One operation on the storage does to what is read what it does to the registry.
  run_lem :
      (op : Operation) (b : Browser)
      → IsOpen b
      → (read_sandbox_clusters json (run op b) ≡ apply op (read_sandbox_clusters json b))
        × IsOpen (run op b)
  unfolding register_sandbox_cluster remove_sandbox_cluster
  run_lem (register result now single) b h =
      elim (Option-cases (cluster_from_create_result result now single)) [
        | inl e ↦ rw (e, run, register_sandbox_cluster) (refl, h)
        | inr (c, e) ↦
            rw (e, run, register_sandbox_cluster)
              (read-write (merge_sandbox_clusters (read_sandbox_clusters json b) (c ∷ [])) b h (
                merge-HasMembers (read_sandbox_clusters json b) c (read-HasMembers b)
                  (cluster_from_create_result-HasMembers result now single e)))
      ]
  run_lem (remove id false) b h = (refl, h)
  run_lem (remove id true) b h =
      read-write (filter (λ c. not (c.id == id)) (read_sandbox_clusters json b)) b h
        (All-filter_any HasMembers _ (read_sandbox_clusters json b) (read-HasMembers b))

  -- As long as the browser's storage can be read and written, registering and removing clusters
  -- through it, in whatever order and with whatever answers of the server, gives on reading the
  -- registry that the same operations make of the clusters read before.
  pub read-run_all :
      (ops : List Operation) (b : Browser)
      → (b.readable ≡ true) × (b.writable ≡ true)
      → read_sandbox_clusters json (run_all ops b) ≡ apply_all ops (read_sandbox_clusters json b)
  read-run_all [] b h = refl
  read-run_all (op ∷ ops) b h =
      let (same, still) = run_lem op b h in
      read-run_all ops (run op b) still ∙ ap (apply_all ops) same
