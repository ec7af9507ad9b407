-- ===== src/Base/Sort.antt =====
-- `Array.prototype.sort`, which is stable: an insertion sort that keeps equal elements in order.
-- The test `le a b` says that the comparator puts `a` before `b` or holds them equal.
use mathlib.Core.Path.{◌≡◌}
use mathlib.Core.Logic.{◌⊎◌, inl, inr}
use mathlib.Core.Bool.{Bool, true, false}
use mathlib.Core.List.{List, [], ◌∷◌, Perm}
use mathlib.Core.List.Perm
use native.Mathlib.Omega.{arith}
use ephemeral_sandbox_consol.Base.Tests.{if◌then◌else◌, Bool-cases}
use ephemeral_sandbox_consol.Base.Predicates.{All, Some, Pairwise}

module _ {ℓ} {A : Type ℓ} (le : A → A → Bool) where
  pub insert : A → List A → List A
  insert x [] = x ∷ []
  insert x (y ∷ ys) = let rest = insert x ys in if le x y then x ∷ y ∷ ys else y ∷ rest

  unfoldable pub sort : List A → List A
  unfolding insert
  sort [] = []
  sort (x ∷ xs) = insert x (sort xs)

  abbrev pub IsSorted : List A → Type 0
  IsSorted [] = Unit
  IsSorted (x ∷ xs) = All (λ y. le x y ≡ true) xs × IsSorted xs

  insert-perm : (x : A) (xs : List A) → Perm (insert x xs) (x ∷ xs)
  unfolding insert
  insert-perm x [] = Perm.refl (x ∷ [])
  insert-perm x (y ∷ ys) = elim (Bool-cases (le x y)) [
    | inl e ↦ rw (e, insert) (Perm.refl (x ∷ y ∷ ys))
    | inr e ↦ rw (e, insert) (Perm.trans (Perm.cons y (insert-perm x ys)) (Perm.swap x y ys))
  ]

  -- Nothing is lost and nothing is added.
  pub sort-perm : (xs : List A) → Perm (sort xs) xs
  unfolding sort
  sort-perm [] = Perm.refl []
  sort-perm (x ∷ xs) = Perm.trans (insert-perm x (sort xs)) (Perm.cons x (sort-perm xs))

  All-insert_of : (P : A → Type 0) (x : A) (xs : List A) → P x → All P xs → All P (insert x xs)
  unfolding insert
  All-insert_of P x [] h k = (h, tt)
  All-insert_of P x (y ∷ ys) h (k, ks) = elim (Bool-cases (le x y)) [
    | inl e ↦ rw (e, insert) (h, (k, ks))
    | inr e ↦ rw (e, insert) (k, All-insert_of P x ys h ks)
  ]

  Pairwise-insert :
      (R : A → A → Type 0) (x : A) (xs : List A)
      → ((a b : A) → R a b → R b a)
      → All (R x) xs
      → Pairwise R xs
      → Pairwise R (insert x xs)
  unfolding insert
  Pairwise-insert R x [] symmetric h k = (tt, tt)
  Pairwise-insert R x (y ∷ ys) symmetric (h, hs) (k, ks) = elim (Bool-cases (le x y)) [
    | inl e ↦ rw (e, insert) ((h, hs), (k, ks))
    | inr e ↦
        rw (e, insert)
          (All-insert_of (R y) x ys (symmetric x y h) k, Pairwise-insert R x ys symmetric hs ks)
  ]

  Some-insert : (P : A → Type 0) (x : A) (xs : List A) → P x ⊎ Some P xs → Some P (insert x xs)
  unfolding insert
  Some-insert P x [] h = h
  Some-insert P x (y ∷ ys) h = elim (Bool-cases (le x y)) [
    | inl e ↦ rw (e, insert) h
    | inr e ↦
        rw (e, insert)
          (elim h [
            | inl k ↦ inr (Some-insert P x ys (inl k))
            | inr (inl k) ↦ inl k
            | inr (inr k) ↦ inr (Some-insert P x ys (inr k))
          ])
  ]

  pub All-sort : (P : A → Type 0) (xs : List A) → All P xs → All P (sort xs)
  unfolding sort
  All-sort P [] h = tt
  All-sort P (x ∷ xs) (h, hs) = All-insert_of P x (sort xs) h (All-sort P xs hs)

  pub Some-sort : (P : A → Type 0) (xs : List A) → Some P xs → Some P (sort xs)
  unfolding sort
  Some-sort P [] h = h
  Some-sort P (x ∷ xs) (inl h) = Some-insert P x (sort xs) (inl h)
  Some-sort P (x ∷ xs) (inr h) = Some-insert P x (sort xs) (inr (Some-sort P xs h))

  pub Pairwise-sort :
      (R : A → A → Type 0) (xs : List A)
      → ((a b : A) → R a b → R b a)
      → Pairwise R xs
      → Pairwise R (sort xs)
  unfolding sort
  Pairwise-sort R [] symmetric h = tt
  Pairwise-sort R (x ∷ xs) symmetric (h, hs) =
      Pairwise-insert R x (sort xs) symmetric (All-sort (R x) xs h)
        (Pairwise-sort R xs symmetric hs)

  module _ (total : (a b : A) → le a b ≡ false → le b a ≡ true)
      (le_trans : (a b c : A) → le a b ≡ true → le b c ≡ true → le a c ≡ true) where
    All-insert :
        (a x : A) (xs : List A)
        → le a x ≡ true
        → All (λ y. le a y ≡ true) xs
        → All (λ y. le a y ≡ true) (insert x xs)
    unfolding insert
    All-insert a x [] h k = (h, tt)
    All-insert a x (y ∷ ys) h k = ground (arith, All-insert a x ys h)

    All-weaken :
        (a b : A) (xs : List A)
        → le a b ≡ true
        → All (λ y. le b y ≡ true) xs
        → All (λ y. le a y ≡ true) xs
    All-weaken a b [] h k = tt
    All-weaken a b (x ∷ xs) h (k, ks) = (le_trans a b x h k, All-weaken a b xs h ks)

    insert-IsSorted : (x : A) (xs : List A) → IsSorted xs → IsSorted (insert x xs)
    unfolding insert
    insert-IsSorted x [] h = (tt, tt)
    insert-IsSorted x (y ∷ ys) (h, hs) = elim (Bool-cases (le x y)) [
      | inl e ↦ rw (e, insert) ((e, All-weaken x y ys e h), (h, hs))
      | inr e ↦ rw (e, insert) (All-insert y x ys (total x y e) h, insert-IsSorted x ys hs)
    ]

    pub sort-IsSorted : (xs : List A) → IsSorted (sort xs)
    unfolding sort
    sort-IsSorted [] = tt
    sort-IsSorted (x ∷ xs) = insert-IsSorted x (sort xs) (sort-IsSorted xs)
