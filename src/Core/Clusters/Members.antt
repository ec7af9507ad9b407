-- ===== src/Core/Clusters/Members.antt =====
-- The members that a cluster is given (the inner filter of `resolveSandboxClusters` in
-- web/src/core/sandboxClusters.ts).
use ephemeral_sandbox_consol.Base.{
  ◌≡◌, refl, sym, subst, ◌≢◌, inl, inr, true, false, Option, some, List, [], ◌∷◌, map, arith,
  Bool-cases, Option-cases, All, Text, text_discrete, Pairwise, All-map, filter_map,
  filter_map-none, filter_map-some,
}
use ephemeral_sandbox_consol.Base.Keyed.{get, set, set_all, has}
use ephemeral_sandbox_consol.Api.Types.{SandboxRecord}
use ephemeral_sandbox_consol.Core.Clusters.{unclaimed, unique_from}

abbrev pub ids : List SandboxRecord → List Text
ids = map (λ r. r.id)

-- Every entry stands under its record's id.
abbrev pub IsById : List (Text × SandboxRecord) → Type 0
IsById = All (λ entry. entry.0 ≡ entry.1.id)

set-IsById :
    (r : SandboxRecord) (m : List (Text × SandboxRecord)) → IsById m → IsById (set r.id r m)
set-IsById r [] h = (refl, tt)
set-IsById r ((k, v) ∷ m) (h, hs) = ground (arith, set-IsById r m hs)

pub set_all-IsById :
    (m : List (Text × SandboxRecord)) (rs : List SandboxRecord)
    → IsById m
    → IsById (set_all m (map (λ r. (r.id, r)) rs))
set_all-IsById m [] h = h
set_all-IsById m (r ∷ rs) h = set_all-IsById (set r.id r m) rs (set-IsById r m h)

get-IsById :
    (id : Text) (m : List (Text × SandboxRecord)) {r : SandboxRecord}
    → IsById m
    → get id m ≡ some r
    → r.id ≡ id
get-IsById id [] h e = absurd (cc)
get-IsById id ((k, v) ∷ m) {r} (h, hs) e = elim (text_discrete k id) [
  | yes p ↦ ground arith
  | no p ↦ get-IsById id m {r = r} hs (ground arith)
]

-- The ids that `unique_from` keeps are new ones, each once.
unique_from-new : (seen xs : List Text) → All (λ x. has x seen ≡ false) (unique_from seen xs)
unfolding unique_from
unique_from-new seen [] = tt
unique_from-new seen (x ∷ xs) = elim (Bool-cases (has x seen)) [
  | inl e ↦ rw (e, unique_from) (unique_from-new seen xs)
  | inr e ↦ rw (e, unique_from) (e, All-map (λ y h. ground arith) _ (unique_from-new (x ∷ seen) xs))
]

pub unique_from-Pairwise : (seen xs : List Text) → Pairwise (λ x y. x ≢ y) (unique_from seen xs)
unfolding unique_from
unique_from-Pairwise seen [] = tt
unique_from-Pairwise seen (x ∷ xs) = elim (Bool-cases (has x seen)) [
  | inl e ↦ rw (e, unique_from) (unique_from-Pairwise seen xs)
  | inr e ↦
      rw (e, unique_from)
        (
          All-map (λ y h. ground arith) _ (unique_from-new (x ∷ seen) xs),
          unique_from-Pairwise (x ∷ seen) xs,
        )
]

pub unique_from-has : (seen xs : List Text) → All (λ x. has x xs ≡ true) (unique_from seen xs)
unfolding unique_from
unique_from-has seen [] = tt
unique_from-has seen (x ∷ xs) = elim (Bool-cases (has x seen)) [
  | inl e ↦ rw (e, unique_from) (All-map (λ y h. ground arith) _ (unique_from-has seen xs))
  | inr e ↦
      rw (e, unique_from)
        (ground arith, All-map (λ y h. ground arith) _ (unique_from-has (x ∷ seen) xs))
]

abbrev pub HasOtherId : SandboxRecord → SandboxRecord → Type 0
HasOtherId a b = a.id ≢ b.id

-- What `members_of` finds for a list of different ids.
module _ (by_id : List (Text × SandboxRecord)) (claimed : List Text) (keyed : IsById by_id) where
  abbrev pub found : Text → Option SandboxRecord
  found id = unclaimed claimed (get id by_id)

  abbrev pub pick : List Text → List SandboxRecord
  pick = filter_map found

  unclaimed-some :
      (id : Text) {r : SandboxRecord}
      → unclaimed claimed (get id by_id) ≡ some r
      → (r.id ≡ id) × (has r.id claimed ≡ false)
  unclaimed-some id {r} h = elim (Option-cases (get id by_id)) [
    | inl e ↦ absurd (ground arith)
    | inr (found, e) ↦ ground (arith, get-IsById id by_id keyed e)
  ]

  -- Whatever holds of the ids holds of the picked records' ids.
  pub pick-All : (P : Text → Type 0) (xs : List Text) → All P xs → All (λ r. P r.id) (pick xs)
  pick-All P [] h = tt
  pick-All P (x ∷ xs) (h, hs) = elim (Option-cases (found x)) [
    | inl e ↦ subst (All (λ r. P r.id)) (sym (filter_map-none found x xs e)) (pick-All P xs hs)
    | inr (r, e) ↦
        subst (All (λ q. P q.id)) (sym (filter_map-some found x xs e))
          (subst P (sym (unclaimed-some x e).0) h, pick-All P xs hs)
  ]

  pub pick-unclaimed : (xs : List Text) → All (λ r. has r.id claimed ≡ false) (pick xs)
  pick-unclaimed [] = tt
  pick-unclaimed (x ∷ xs) = elim (Option-cases (found x)) [
    | inl e ↦
        subst (All (λ r. has r.id claimed ≡ false)) (sym (filter_map-none found x xs e))
          (pick-unclaimed xs)
    | inr (r, e) ↦
        subst (All (λ q. has q.id claimed ≡ false)) (sym (filter_map-some found x xs e))
          ((unclaimed-some x e).1, pick-unclaimed xs)
  ]

  pub pick-Pairwise : (xs : List Text) → Pairwise (λ x y. x ≢ y) xs → Pairwise HasOtherId (pick xs)
  pick-Pairwise [] h = tt
  pick-Pairwise (x ∷ xs) (h, hs) = elim (Option-cases (found x)) [
    | inl e ↦ subst (Pairwise HasOtherId) (sym (filter_map-none found x xs e)) (pick-Pairwise xs hs)
    | inr (r, e) ↦ subst (Pairwise HasOtherId) (sym (filter_map-some found x xs e)) (
      subst (λ id. All (λ b. id ≢ b.id) (pick xs)) (sym (unclaimed-some x e).0)
          (pick-All (λ y. x ≢ y) xs h),
      pick-Pairwise xs hs,
    )
  ]
