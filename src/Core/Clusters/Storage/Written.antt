-- ===== src/Core/Clusters/Storage/Written.antt =====
-- What is written of clusters is read back (web/src/core/sandboxClusters.ts).
use ephemeral_sandbox_consol.Base.{
  ◌≤◌, ◌≡◌, refl, sym, ap, ◌∙◌, subst, inl, inr, Bool, Option, none, some, List, [], ◌∷◌, map,
  arith, ltb, if◌then◌else◌, Bool-cases, Option-cases, length, filter, head?, All, Text,
  text_discrete, filter-kept, filter-dropped,
}
use ephemeral_sandbox_consol.Base.Json.{
  Json, Items, null, boolean, number, string, array, object, nil, item, member,
}
use ephemeral_sandbox_consol.Core.Clusters.{
  SandboxClusterRecord, CreateResult, cluster_from_create_result, records_from_create_result,
}
use ephemeral_sandbox_consol.Api.Types.{SandboxRecord}
use ephemeral_sandbox_consol.Core.Clusters.Storage.{
  members_key, texts_of, texts_json, at_least_one, members_field, cluster_of_fields, cluster_record,
  cluster_records, records_of, cluster_json, clusters_items,
}

-- A cluster has a member.
abbrev pub HasMembers : SandboxClusterRecord → Type 0
HasMembers c = 1 ≤ length c.member_ids

texts_of-texts_json : (ids : List Text) → texts_of (texts_json ids) ≡ some ids
texts_of-texts_json [] = refl
texts_of-texts_json (s ∷ ids) = rw (texts_of-texts_json ids, texts_of) refl

at_least_one_lem : (ids : List Text) → 1 ≤ length ids → at_least_one (some ids) ≡ some ids
at_least_one_lem [] h = absurd (omega (arith, h))
at_least_one_lem (s ∷ ids) h = refl

-- A cluster that is written is read.
cluster_record-cluster_json :
    (c : SandboxClusterRecord) → HasMembers c → cluster_record (cluster_json c) ≡ some c
unfolding cluster_record text_discrete
cluster_record-cluster_json c h =
    ap (λ ids. cluster_of_fields (some c.id) ids (some c.workspace_root) (some c.created_at))
      (ap at_least_one (texts_of-texts_json c.member_ids) ∙ at_least_one_lem c.member_ids h)

pub cluster_records-clusters_items :
    (cs : List SandboxClusterRecord) → All HasMembers cs → cluster_records (clusters_items cs) ≡ cs
cluster_records-clusters_items [] h = refl
cluster_records-clusters_items (c ∷ cs) (h, hs) =
    rw (cluster_record-cluster_json c h, cluster_records)
      (ap (λ later. c ∷ later) (cluster_records-clusters_items cs hs))

-- Whatever is read has members.
at_least_one-some :
    (o : Option (List Text)) {ids : List Text} → at_least_one o ≡ some ids → 1 ≤ length ids
at_least_one-some none h = absurd (cc)
at_least_one-some (some []) h = absurd (cc)
at_least_one-some (some (s ∷ ss)) h = ground arith

members_field-some :
    (o : Option Json) {ids : List Text} → members_field o ≡ some ids → 1 ≤ length ids
members_field-some none h = absurd (cc)
members_field-some (some null) h = absurd (cc)
members_field-some (some (boolean b)) h = absurd (cc)
members_field-some (some (number n)) h = absurd (cc)
members_field-some (some (string s)) h = absurd (cc)
members_field-some (some (object fs)) h = absurd (cc)
members_field-some (some (array ids)) h = at_least_one-some (texts_of ids) h

cluster_of_fields-some :
    (a : Option Text) (m : Option (List Text)) (b d : Option Text) {c : SandboxClusterRecord}
    → ((ids : List Text) → m ≡ some ids → 1 ≤ length ids)
    → cluster_of_fields a m b d ≡ some c
    → HasMembers c
cluster_of_fields-some (some a) (some m) (some b) (some d) h e = ground (arith, h m refl)
cluster_of_fields-some none m b d h e = absurd (cc)
cluster_of_fields-some (some a) none b d h e = absurd (cc)
cluster_of_fields-some (some a) (some m) none d h e = absurd (cc)
cluster_of_fields-some (some a) (some m) (some b) none h e = absurd (cc)

cluster_records-HasMembers : (items : Items) → All HasMembers (cluster_records items)
unfolding cluster_record
cluster_records-HasMembers nil = tt
cluster_records-HasMembers (item j rest) = elim (Option-cases (cluster_record j)) [
  | inl e ↦ rw (e, cluster_records) (cluster_records-HasMembers rest)
  | inr (c, e) ↦
      rw (e, cluster_records)
        (
          cluster_of_fields-some _ _ _ _ (λ ids m. members_field-some (member members_key j) m) e,
          cluster_records-HasMembers rest,
        )
]

pub records_of-HasMembers : (o : Option Json) → All HasMembers (records_of o)
records_of-HasMembers none = tt
records_of-HasMembers (some null) = tt
records_of-HasMembers (some (boolean b)) = tt
records_of-HasMembers (some (number n)) = tt
records_of-HasMembers (some (string s)) = tt
records_of-HasMembers (some (object fs)) = tt
records_of-HasMembers (some (array items)) = cluster_records-HasMembers items

pub All-filter_any {ℓ} :
    {A : Type ℓ} (P : A → Type 0) (p : A → Bool) (xs : List A) → All P xs → All P (filter p xs)
All-filter_any P p [] h = tt
All-filter_any P p (x ∷ xs) (h, hs) = elim (Bool-cases (p x)) [
  | inl e ↦ subst (All P) (sym (filter-kept p x xs e)) (h, All-filter_any P p xs hs)
  | inr e ↦ subst (All P) (sym (filter-dropped p x xs e)) (All-filter_any P p xs hs)
]

head-members :
    (f : SandboxRecord → Text) (rs : List SandboxRecord) {r : SandboxRecord}
    → head? rs ≡ some r
    → 1 ≤ length (map f rs)
head-members f [] e = absurd (cc)
head-members f (r ∷ rs) e = ground arith

-- A cluster made from a result has members.
pub cluster_from_create_result-HasMembers :
    (result : CreateResult) (now : Text) (single : Bool) {c : SandboxClusterRecord}
    → cluster_from_create_result result now single ≡ some c
    → HasMembers c
unfolding cluster_from_create_result
cluster_from_create_result-HasMembers result now single {c} e =
    let records : List SandboxRecord = records_from_create_result result in
    elim (Bool-cases (ltb (length records) (if single then 1 else 2))) [
      | inl few ↦ absurd (ground (arith, few, e))
      | inr enough ↦ elim (Option-cases (head? records)) [
        | inl h ↦ absurd (ground (arith, enough, h, e))
        | inr (first, h) ↦ ground (arith, enough, e, head-members (λ r. r.id) records h)
      ]
    ]

-- What the registry does, without storage: the clusters, and the two operations on them.
