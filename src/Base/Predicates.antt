-- ===== src/Base/Predicates.antt =====
-- Predicates on the elements of a list: on every one, on some one, on every two.
use mathlib.Core.Path.{◌≡◌, refl, sym, subst}
use mathlib.Core.Logic.{◌⊎◌, inl, inr}
use mathlib.Core.Bool.{Bool, true, false}
use mathlib.Core.Option.{Option, none, some}
use mathlib.Core.List.{List, [], ◌∷◌, ◌++◌}
use native.Mathlib.Omega.{arith}
use ephemeral_sandbox_consol.Base.Tests.{Bool-cases}
use ephemeral_sandbox_consol.Base.Lists.{filter, any, all, filter_map}

module _ {ℓ κ} {A : Type ℓ} (P : A → Type κ) where
  abbrev pub All : List A → Type κ
  All [] = Unit
  All (x ∷ xs) = P x × All xs

module _ {ℓ} {A : Type ℓ} (P : A → Type 0) where
  -- Some element satisfies the predicate, and the proof says which.
  abbrev pub Some : List A → Type 0
  Some [] = ⊥
  Some (x ∷ xs) = P x ⊎ Some xs

-- Every two elements, in their order, are related.
abbrev pub Pairwise {ℓ} : {A : Type ℓ} → (A → A → Type 0) → List A → Type 0
Pairwise R [] = Unit
Pairwise R (x ∷ xs) = All (R x) xs × Pairwise R xs

module _ {ℓ} {A : Type ℓ} where
  pub All-map {κ μ} :
      {P : A → Type κ} {Q : A → Type μ} (f : (x : A) → P x → Q x) (xs : List A)
      → All P xs
      → All Q xs
  All-map f [] h = tt
  All-map f (x ∷ xs) (h, hs) = (f x h, All-map f xs hs)

  pub Some-map : {P Q : A → Type 0} (f : (x : A) → P x → Q x) (xs : List A) → Some P xs → Some Q xs
  Some-map f [] h = elim h [ ]
  Some-map f (x ∷ xs) (inl h) = inl (f x h)
  Some-map f (x ∷ xs) (inr h) = inr (Some-map f xs h)

  pub any→Some : (p : A → Bool) (xs : List A) → any p xs ≡ true → Some (λ x. p x ≡ true) xs
  any→Some p [] h = absurd (cc)
  any→Some p (x ∷ xs) h = elim (Bool-cases (p x)) [
    | inl e ↦ inl e
    | inr e ↦ inr (any→Some p xs (ground arith))
  ]

  pub Some→any : (p : A → Bool) (xs : List A) → Some (λ x. p x ≡ true) xs → any p xs ≡ true
  Some→any p [] h = elim h [ ]
  Some→any p (x ∷ xs) (inl h) = ground arith
  Some→any p (x ∷ xs) (inr h) = ground (arith, Some→any p xs h)

  pub all→All : (p : A → Bool) (xs : List A) → all p xs ≡ true → All (λ x. p x ≡ true) xs
  all→All p [] h = tt
  all→All p (x ∷ xs) h = (ground arith, all→All p xs (ground arith))

  pub filter-kept :
      (p : A → Bool) (x : A) (xs : List A) → p x ≡ true → filter p (x ∷ xs) ≡ x ∷ filter p xs
  filter-kept p x xs h = ground arith

  pub filter-dropped :
      (p : A → Bool) (x : A) (xs : List A) → p x ≡ false → filter p (x ∷ xs) ≡ filter p xs
  filter-dropped p x xs h = ground arith

  -- What is kept was there and passes the test.
  pub Some-filter→Some :
      (P : A → Type 0) (p : A → Bool) (xs : List A)
      → Some P (filter p xs)
      → Some (λ x. (p x ≡ true) × P x) xs
  Some-filter→Some P p [] h = h
  Some-filter→Some P p (x ∷ xs) h = elim (Bool-cases (p x)) [
    | inl e ↦ elim (subst (Some P) (filter-kept p x xs e) h) [
      | inl k ↦ inl (e, k)
      | inr k ↦ inr (Some-filter→Some P p xs k)
    ]
    | inr e ↦ inr (Some-filter→Some P p xs (subst (Some P) (filter-dropped p x xs e) h))
  ]

  -- What passes the test is kept.
  pub Some→Some-filter :
      (P : A → Type 0) (p : A → Bool) (xs : List A)
      → Some (λ x. (p x ≡ true) × P x) xs
      → Some P (filter p xs)
  Some→Some-filter P p [] h = h
  Some→Some-filter P p (x ∷ xs) (inl (e, k)) = subst (Some P) (sym (filter-kept p x xs e)) (inl k)
  Some→Some-filter P p (x ∷ xs) (inr k) = elim (Bool-cases (p x)) [
    | inl e ↦ subst (Some P) (sym (filter-kept p x xs e)) (inr (Some→Some-filter P p xs k))
    | inr e ↦ subst (Some P) (sym (filter-dropped p x xs e)) (Some→Some-filter P p xs k)
  ]

  pub All-filter : (P : A → Type 0) (p : A → Bool) (xs : List A) → All P xs → All P (filter p xs)
  All-filter P p [] h = tt
  All-filter P p (x ∷ xs) (h, hs) = elim (Bool-cases (p x)) [
    | inl e ↦ subst (All P) (sym (filter-kept p x xs e)) (h, All-filter P p xs hs)
    | inr e ↦ subst (All P) (sym (filter-dropped p x xs e)) (All-filter P p xs hs)
  ]

  pub All-filter_test : (p : A → Bool) (xs : List A) → All (λ x. p x ≡ true) (filter p xs)
  All-filter_test p [] = tt
  All-filter_test p (x ∷ xs) = elim (Bool-cases (p x)) [
    | inl e ↦ subst (All (λ y. p y ≡ true)) (sym (filter-kept p x xs e)) (e, All-filter_test p xs)
    | inr e ↦ subst (All (λ y. p y ≡ true)) (sym (filter-dropped p x xs e)) (All-filter_test p xs)
  ]

  pub All-append {κ} : (P : A → Type κ) (xs ys : List A) → All P xs → All P ys → All P (xs ++ ys)
  All-append P [] ys h k = k
  All-append P (x ∷ xs) ys (h, hs) k = (h, All-append P xs ys hs k)

  pub All-of_append {κ} : (P : A → Type κ) (xs ys : List A) → All P (xs ++ ys) → All P xs × All P ys
  All-of_append P [] ys h = (tt, h)
  All-of_append P (x ∷ xs) ys (h, hs) = let (k, l) = All-of_append P xs ys hs in ((h, k), l)

  pub Pairwise-append :
      (R : A → A → Type 0) (xs ys : List A)
      → Pairwise R xs
      → Pairwise R ys
      → All (λ x. All (R x) ys) xs
      → Pairwise R (xs ++ ys)
  Pairwise-append R [] ys h k l = k
  Pairwise-append R (x ∷ xs) ys (h, hs) k (l, ls) =
      (All-append (R x) xs ys h l, Pairwise-append R xs ys hs k ls)

  pub Pairwise-filter :
      (R : A → A → Type 0) (p : A → Bool) (xs : List A) → Pairwise R xs → Pairwise R (filter p xs)
  Pairwise-filter R p [] h = tt
  Pairwise-filter R p (x ∷ xs) (h, hs) = elim (Bool-cases (p x)) [
    | inl e ↦
        subst (Pairwise R) (sym (filter-kept p x xs e))
          (All-filter (R x) p xs h, Pairwise-filter R p xs hs)
    | inr e ↦ subst (Pairwise R) (sym (filter-dropped p x xs e)) (Pairwise-filter R p xs hs)
  ]

  pub Some-append_left : (P : A → Type 0) (xs ys : List A) → Some P xs → Some P (xs ++ ys)
  Some-append_left P [] ys h = elim h [ ]
  Some-append_left P (x ∷ xs) ys (inl h) = inl h
  Some-append_left P (x ∷ xs) ys (inr h) = inr (Some-append_left P xs ys h)

  pub Some-append_right : (P : A → Type 0) (xs ys : List A) → Some P ys → Some P (xs ++ ys)
  Some-append_right P [] ys h = h
  Some-append_right P (x ∷ xs) ys h = inr (Some-append_right P xs ys h)

  -- What holds of all holds of the one that is found.
  pub All-Some : (P Q : A → Type 0) (xs : List A) → All P xs → Some Q xs → Some (λ x. P x × Q x) xs
  All-Some P Q [] h k = elim k [ ]
  All-Some P Q (x ∷ xs) (h, hs) (inl k) = inl (h, k)
  All-Some P Q (x ∷ xs) (h, hs) (inr k) = inr (All-Some P Q xs hs k)

  pub Some-of_append : (P : A → Type 0) (xs ys : List A) → Some P (xs ++ ys) → Some P xs ⊎ Some P ys
  Some-of_append P [] ys h = inr h
  Some-of_append P (x ∷ xs) ys (inl h) = inl (inl h)
  Some-of_append P (x ∷ xs) ys (inr h) = elim (Some-of_append P xs ys h) [
    | inl k ↦ inl (inr k)
    | inr k ↦ inr k
  ]

  pub filter_map-none {κ} :
      {B : Type κ} (f : A → Option B) (x : A) (xs : List A)
      → f x ≡ none
      → filter_map f (x ∷ xs) ≡ filter_map f xs
  filter_map-none f x xs h = rw (h, filter_map) refl

  pub filter_map-some {κ} :
      {B : Type κ} (f : A → Option B) (x : A) (xs : List A) {y : B}
      → f x ≡ some y
      → filter_map f (x ∷ xs) ≡ y ∷ filter_map f xs
  filter_map-some f x xs h = rw (h, filter_map) refl
