-- ===== src/Base/Windows.antt =====
-- The end of a list that `drop` leaves, and relations between neighbours.
use Prim.Native.Nat.{ℕ, zero, suc, ◌+◌, ◌-◌, ◌≤◌}
use mathlib.Core.Path.{◌≡◌, refl, sym, ap, ◌∙◌, subst}
use mathlib.Core.Option.{some}
use mathlib.Core.List.{List, [], ◌∷◌, ◌++◌}
use native.Mathlib.Omega.{arith}
use ephemeral_sandbox_consol.Base.Lists.{length, last?, drop, last_n, length-drop, take}
use ephemeral_sandbox_consol.Base.Predicates.{All, Pairwise}

module _ {ℓ} {A : Type ℓ} where
  -- Every element is related to the next one.
  abbrev pub Adjacent : (A → A → Type ℓ) → List A → Type ℓ
  Adjacent R [] = Unit
  Adjacent R (x ∷ []) = Unit
  Adjacent R (x ∷ y ∷ xs) = R x y × Adjacent R (y ∷ xs)

  Adjacent-tail : (R : A → A → Type ℓ) (x : A) (xs : List A) → Adjacent R (x ∷ xs) → Adjacent R xs
  Adjacent-tail R x [] h = tt
  Adjacent-tail R x (y ∷ xs) (h, hs) = hs

  pub Adjacent-drop :
      (R : A → A → Type ℓ) (n : ℕ) (xs : List A) → Adjacent R xs → Adjacent R (drop n xs)
  Adjacent-drop R zero xs h = h
  Adjacent-drop R (suc n) [] h = tt
  Adjacent-drop R (suc n) (x ∷ xs) h = Adjacent-drop R n xs (Adjacent-tail R x xs h)

  pub Pairwise-drop :
      (R : A → A → Type 0) (n : ℕ) (xs : List A) → Pairwise R xs → Pairwise R (drop n xs)
  Pairwise-drop R zero xs h = h
  Pairwise-drop R (suc n) [] h = tt
  Pairwise-drop R (suc n) (x ∷ xs) (h, hs) = Pairwise-drop R n xs hs

  -- An element added at the end is related to the one that was last.
  pub Adjacent-snoc :
      (R : A → A → Type ℓ) (xs : List A) {l : A} (y : A)
      → last? xs ≡ some l
      → R l y
      → Adjacent R xs
      → Adjacent R (xs ++ y ∷ [])
  Adjacent-snoc R [] y e r h = tt
  Adjacent-snoc R (x ∷ []) y e r h = (subst (λ z. R z y) (sym (ground arith)) r, tt)
  Adjacent-snoc R (x ∷ z ∷ xs) y e r (h, hs) = (h, Adjacent-snoc R (z ∷ xs) y e r hs)

  -- Under a transitive relation it is related to all before.
  pub Pairwise-snoc :
      (R : A → A → Type 0) (trans : (a b c : A) → R a b → R b c → R a c) (xs : List A) {l : A}
      (y : A)
      → last? xs ≡ some l
      → R l y
      → Pairwise R xs
      → Pairwise R (xs ++ y ∷ [])
  Pairwise-snoc R trans [] y e r h = (tt, tt)
  Pairwise-snoc R trans (x ∷ []) y e r h =
      ((subst (λ z. R z y) (sym (ground arith)) r, tt), (tt, tt))
  Pairwise-snoc R trans (x ∷ z ∷ xs) {l} y e r ((h, hs), k) =
      (end_related x (z ∷ xs) e (h, hs), Pairwise-snoc R trans (z ∷ xs) y e r k)
    where
      end_related :
          (a : A) (zs : List A) → last? zs ≡ some l → All (R a) zs → All (R a) (zs ++ y ∷ [])
      end_related a [] q m = absurd (cc)
      end_related a (b ∷ []) q (m, ms) =
          (m, (trans a b y m (subst (λ w. R w y) (sym (ground arith)) r), tt))
      end_related a (b ∷ c ∷ zs) q (m, ms) = (m, end_related a (c ∷ zs) q ms)

  pub last?-snoc : (xs : List A) (y : A) → last? (xs ++ y ∷ []) ≡ some y
  last?-snoc [] y = refl
  last?-snoc (x ∷ []) y = refl
  last?-snoc (x ∷ z ∷ xs) y = last?-snoc (z ∷ xs) y

  pub drop-append : (n : ℕ) (xs ys : List A) → n ≤ length xs → drop n (xs ++ ys) ≡ drop n xs ++ ys
  drop-append zero xs ys h = refl
  drop-append (suc n) [] ys h = absurd (omega (arith, h))
  drop-append (suc n) (x ∷ xs) ys h = drop-append n xs ys (omega (arith, h))

  pub drop-nil : (n : ℕ) → drop {A = A} n [] ≡ []
  drop-nil zero = refl
  drop-nil (suc n) = refl

  pub drop-drop : (m n : ℕ) (xs : List A) → drop m (drop n xs) ≡ drop (n + m) xs
  drop-drop m zero xs = ap (λ k. drop k xs) (omega arith)
  drop-drop m (suc n) [] = drop-nil m ∙ sym (drop-nil (suc n + m))
  drop-drop m (suc n) (x ∷ xs) = drop-drop m n xs ∙ ap (λ k. drop k (x ∷ xs)) use_suc
    where
      use_suc : suc (n + m) ≡ suc n + m
      use_suc = omega arith

  -- A shorter end of a longer end.
  pub last_n-last_n : (m n : ℕ) (xs : List A) → m ≤ n → last_n m (last_n n xs) ≡ last_n m xs
  last_n-last_n m n xs h =
      drop-drop (length (last_n n xs) - m) (length xs - n) xs
      ∙ ap (λ k. drop k xs) (omega (arith, length-drop (length xs - n) xs))

  pub last?-drop :
      (n : ℕ) (xs : List A) {y : A}
      → last? xs ≡ some y
      → suc n ≤ length xs
      → last? (drop n xs) ≡ some y
  last?-drop zero xs e h = e
  last?-drop (suc n) [] e h = absurd (omega (arith, h))
  last?-drop (suc n) (x ∷ []) e h = absurd (omega (arith, h))
  last?-drop (suc n) (x ∷ z ∷ xs) e h = last?-drop n (z ∷ xs) e (omega (arith, h))

  pub last?-nonempty : (x : A) (xs : List A) → (y : A) × (last? (x ∷ xs) ≡ some y)
  last?-nonempty x [] = (x, refl)
  last?-nonempty x (y ∷ xs) = last?-nonempty y xs

  pub drop-length : (xs : List A) → drop (length xs) xs ≡ []
  drop-length [] = refl
  drop-length (x ∷ xs) = drop-length xs

  pub take-nil : (n : ℕ) → take {A = A} n [] ≡ []
  take-nil zero = refl
  take-nil (suc n) = refl

  pub length-take : (n : ℕ) (xs : List A) → n ≤ length xs → length (take n xs) ≡ n
  length-take zero xs h = refl
  length-take (suc n) [] h = absurd (omega (arith, h))
  length-take (suc n) (x ∷ xs) h = omega (arith, length-take n xs (omega (arith, h)))

  pub take-length : (xs : List A) → take (length xs) xs ≡ xs
  take-length [] = refl
  take-length (x ∷ xs) = ap (λ t. x ∷ t) (take-length xs)

  pub take-append-drop : (m k : ℕ) (xs : List A) → take (k + m) xs ≡ take k xs ++ take m (drop k xs)
  take-append-drop m zero xs = ap (λ j. take j xs) (omega arith)
  take-append-drop m (suc k) [] = take-nil (suc k + m) ∙ sym (take-nil m)
  take-append-drop m (suc k) (x ∷ xs) =
      ap (λ j. take j (x ∷ xs)) same ∙ ap (λ t. x ∷ t) (take-append-drop m k xs)
    where
      same : suc k + m ≡ suc (k + m)
      same = omega arith
