-- ===== src/Core/Clusters/Registry.antt =====
-- The registry after merges (`mergeSandboxClusters` of web/src/core/sandboxClusters.ts).
use ephemeral_sandbox_consol.Base.{
  ◌≡◌, refl, ap, ap₂, ◌∙◌, ◌≢◌, ◌↔◌, text_eq_iff, ◌⊎◌, inl, inr, Bool, true, false, not, List, [],
  ◌∷◌, ◌++◌, append-nil, arith, filter, any, All, Some, Text, Pairwise, All-map, Some-map,
  filter-kept, filter-dropped, Some-filter→Some, Some→Some-filter, All-filter_test, Pairwise-append,
  Pairwise-filter, Some-append_left, Some-append_right, Some-of_append,
}
use ephemeral_sandbox_consol.Base.Keyed.{has}
use ephemeral_sandbox_consol.Core.Clusters.{
  SandboxClusterRecord, gives_way, absorb, merge_sandbox_clusters,
}

-- Two clusters have different ids, and no member of the first is one of the second.
abbrev pub IsApart : SandboxClusterRecord → SandboxClusterRecord → Type 0
IsApart a b = (a.id ≢ b.id) × All (λ m. has m b.member_ids ≡ false) a.member_ids

-- No id stands twice, and no sandbox is in two clusters.
abbrev pub IsExclusive : List SandboxClusterRecord → Type 0
IsExclusive = Pairwise IsApart

any-false→All : (p : Text → Bool) (xs : List Text) → any p xs ≡ false → All (λ x. p x ≡ false) xs
any-false→All p [] h = tt
any-false→All p (x ∷ xs) h = (ground arith, any-false→All p xs (ground arith))

stays→IsApart :
    (cluster candidate : SandboxClusterRecord)
    → not (gives_way cluster candidate) ≡ true
    → IsApart candidate cluster
unfolding gives_way
stays→IsApart cluster candidate h =
    (ground arith, any-false→All _ candidate.member_ids (ground arith))

absorb-IsExclusive :
    (clusters : List SandboxClusterRecord) (cluster : SandboxClusterRecord)
    → IsExclusive clusters
    → IsExclusive (absorb clusters cluster)
unfolding absorb
absorb-IsExclusive clusters cluster h =
    let test : SandboxClusterRecord → Bool = λ candidate. not (gives_way cluster candidate) in
    Pairwise-append IsApart (filter test clusters) (cluster ∷ [])
      (Pairwise-filter IsApart test clusters h) (tt, tt)
      (All-map (λ candidate k. (stays→IsApart cluster candidate k, tt)) (filter test clusters)
        (All-filter_test test clusters))

-- From a registry in which no cluster id stands twice and no sandbox is in two clusters, a merge gives
-- such a registry again, whatever clusters come in.
pub merge_sandbox_clusters-IsExclusive :
    (first second : List SandboxClusterRecord)
    → IsExclusive first
    → IsExclusive (merge_sandbox_clusters first second)
unfolding merge_sandbox_clusters
merge_sandbox_clusters-IsExclusive first [] h = h
merge_sandbox_clusters-IsExclusive first (cluster ∷ second) h =
    merge_sandbox_clusters-IsExclusive (absorb first cluster) second
      (absorb-IsExclusive first cluster h)

apart→any : (p : Text → Bool) (xs : List Text) → All (λ x. p x ≡ false) xs → any p xs ≡ false
apart→any p [] h = refl
apart→any p (x ∷ xs) (h, hs) = ground (arith, h, apart→any p xs hs)

IsApart→stays :
    (cluster candidate : SandboxClusterRecord)
    → IsApart candidate cluster
    → not (gives_way cluster candidate) ≡ true
unfolding gives_way
IsApart→stays cluster candidate (h, k) =
    let members : any (λ m. has m cluster.member_ids) candidate.member_ids ≡ false =
      apart→any (λ m. has m cluster.member_ids) candidate.member_ids k in
    ground (arith, members, h, text_eq_iff candidate.id cluster.id)

gives_way_self : (cluster : SandboxClusterRecord) → gives_way cluster cluster ≡ true
unfolding gives_way
gives_way_self cluster = ground arith

filter-append {ℓ} :
    {A : Type ℓ} (p : A → Bool) (xs ys : List A) → filter p (xs ++ ys) ≡ filter p xs ++ filter p ys
filter-append p [] ys = refl
filter-append p (x ∷ xs) ys = ground (arith, filter-append p xs ys)

filter_of_All {ℓ} :
    {A : Type ℓ} (p : A → Bool) (xs : List A) → All (λ x. p x ≡ true) xs → filter p xs ≡ xs
filter_of_All p [] h = refl
filter_of_All p (x ∷ xs) (h, hs) = filter-kept p x xs h ∙ ap (◌∷◌ x) (filter_of_All p xs hs)

absorb→Some :
    (clusters : List SandboxClusterRecord) (cluster : SandboxClusterRecord)
    (P : SandboxClusterRecord → Type 0)
    → Some P (absorb clusters cluster)
    → Some (λ c. IsApart c cluster × P c) clusters ⊎ P cluster
unfolding absorb
absorb→Some clusters cluster P h =
    let test : SandboxClusterRecord → Bool = λ candidate. not (gives_way cluster candidate) in
    elim (Some-of_append P (filter test clusters) (cluster ∷ []) h) [
      | inl k ↦ inl (
          Some-map (λ c (e, p). (stays→IsApart cluster c e, p)) clusters
            (Some-filter→Some P test clusters k))
      | inr k ↦ inr (elim k [ inl p ↦ p | inr q ↦ elim q [ ] ])
    ]

Some→absorb :
    (clusters : List SandboxClusterRecord) (cluster : SandboxClusterRecord)
    (P : SandboxClusterRecord → Type 0)
    → Some (λ c. IsApart c cluster × P c) clusters ⊎ P cluster
    → Some P (absorb clusters cluster)
unfolding absorb
Some→absorb clusters cluster P (inl h) =
    let test : SandboxClusterRecord → Bool = λ candidate. not (gives_way cluster candidate) in
    Some-append_left P (filter test clusters) (cluster ∷ []) (
      Some→Some-filter P test clusters
        (Some-map (λ c (e, p). (IsApart→stays cluster c e, p)) clusters h))
Some→absorb clusters cluster P (inr h) =
    Some-append_right P (filter (λ candidate. not (gives_way cluster candidate)) clusters)
      (cluster ∷ []) (inl h)

absorb_twice :
    (clusters : List SandboxClusterRecord) (cluster : SandboxClusterRecord)
    → absorb (absorb clusters cluster) cluster ≡ absorb clusters cluster
unfolding absorb
absorb_twice clusters cluster =
    let test : SandboxClusterRecord → Bool = λ candidate. not (gives_way cluster candidate) in
    ap (λ kept. kept ++ cluster ∷ [])
      (filter-append test (filter test clusters) (cluster ∷ [])
        ∙ ap₂ (λ xs ys. xs ++ ys)
            (filter_of_All test (filter test clusters) (All-filter_test test clusters))
            (filter-dropped test cluster [] (ap not (gives_way_self cluster)))
        ∙ append-nil (filter test clusters))

-- After a cluster is registered the registry has that cluster and, of the clusters before, exactly
-- those with another id and no member of the new one; registering it a second time changes nothing.
pub merge_sandbox_clusters-register :
    (clusters : List SandboxClusterRecord) (cluster : SandboxClusterRecord)
    (P : SandboxClusterRecord → Type 0)
    → (Some P (merge_sandbox_clusters clusters (cluster ∷ []))
        ↔ (Some (λ c. IsApart c cluster × P c) clusters ⊎ P cluster))
      × (merge_sandbox_clusters clusters (cluster ∷ cluster ∷ [])
          ≡ merge_sandbox_clusters clusters (cluster ∷ []))
unfolding merge_sandbox_clusters
merge_sandbox_clusters-register clusters cluster P = (
  (absorb→Some clusters cluster P, Some→absorb clusters cluster P),
  absorb_twice clusters cluster,
)
