-- ===== src/Base/Strings/Decimal.antt =====
-- The decimal print of a number: it can be read back, and has digits only.
use Prim.Native.Nat.{ℕ, zero, suc, ◌+◌, ◌-◌, ◌*◌, ◌/◌, ◌%◌, ◌<◌}
use mathlib.Core.Path.{◌≡◌, refl, sym, ap, ap₂, ◌∙◌, subst}
use mathlib.Core.Logic.{inl, inr}
use mathlib.Core.Bool.{true, false}
use mathlib.Core.List.{[], ◌∷◌, ◌++◌, append_assoc}
use native.Mathlib.Omega.{arith}
use ephemeral_sandbox_consol.Base.Tests.{nat_eq, ltb, Bool-cases}
use ephemeral_sandbox_consol.Base.Codes.{Text}
use ephemeral_sandbox_consol.Base.Predicates.{All}
use ephemeral_sandbox_consol.Base.Lists.{drop}
use ephemeral_sandbox_consol.Base.Strings.{digits_from, decimal}

abbrev first_of : Text → ℕ
first_of [] = 0
first_of (c ∷ s) = c

-- The number that digits continue.
abbrev value : ℕ → Text → ℕ
value n [] = n
value n (c ∷ s) = value (n * 10 + (c - b'0')) s

value-digits_from :
    (fuel n : ℕ) (out : Text) → n < fuel → value 0 (digits_from fuel n out) ≡ value n out
unfolding digits_from
value-digits_from zero n out h = absurd (omega (arith, h))
value-digits_from (suc fuel) n out h = elim (Bool-cases (ltb n 10)) [
  | inl e ↦ rw (e, digits_from) (ap (λ m. value m out) (omega arith))
  | inr e ↦
      rw (e, digits_from)
        (value-digits_from fuel (n / 10) ((n % 10 + b'0') ∷ out) (ground (arith, e, h))
          ∙ ap (λ m. value m out) (omega arith))
]

value-decimal : (n : ℕ) → value 0 (decimal n) ≡ n
unfolding decimal
value-decimal n = value-digits_from (n + 1) n [] (omega arith)

pub decimal-injective : (m n : ℕ) → decimal m ≡ decimal n → m ≡ n
decimal-injective m n e = sym (value-decimal m) ∙ ap (value 0) e ∙ value-decimal n

-- No colon.
abbrev pub IsColonless : Text → Type 0
IsColonless = All (λ c. nat_eq c b':' ≡ false)

digits_from-IsColonless :
    (fuel n : ℕ) (out : Text) → IsColonless out → IsColonless (digits_from fuel n out)
unfolding digits_from
digits_from-IsColonless zero n out h = h
digits_from-IsColonless (suc fuel) n out h = elim (Bool-cases (ltb n 10)) [
  | inl e ↦ rw (e, digits_from) (ground (arith, e), h)
  | inr e ↦
      rw (e, digits_from)
        (digits_from-IsColonless fuel (n / 10) ((n % 10 + b'0') ∷ out) (ground arith, h))
]

decimal-IsColonless : (n : ℕ) → IsColonless (decimal n)
unfolding decimal
decimal-IsColonless n = digits_from-IsColonless (n + 1) n [] tt

colon_inside : (s t : Text) → IsColonless (s ++ b':' ∷ t) → ⊥
colon_inside [] t (h, hs) = absurd (let p : true ≡ false = h in cc)
colon_inside (c ∷ s) t (h, hs) = colon_inside s t hs

-- The last colon of a text splits it.
split_injective :
    (a b s t : Text)
    → IsColonless s
    → IsColonless t
    → a ++ b':' ∷ s ≡ b ++ b':' ∷ t
    → (a ≡ b) × (s ≡ t)
split_injective [] [] s t h k e = (refl, ap (drop 1) e)
split_injective [] (c ∷ b) s t h k e =
    absurd (colon_inside b t (subst IsColonless (ap (drop 1) e) h))
split_injective (c ∷ a) [] s t h k e =
    absurd (colon_inside a s (subst IsColonless (sym (ap (drop 1) e)) k))
split_injective (c ∷ a) (d ∷ b) s t h k e =
    let (p, q) = split_injective a b s t h k (ap (drop 1) e) in
    (ap₂ (λ x xs. x ∷ xs) (ap first_of e) p, q)

-- A name with two numbers behind it, each after a colon, can be told apart.
pub colons-injective :
    (a b : Text) (m n k l : ℕ)
    → a ++ b':' ∷ (decimal m ++ b':' ∷ decimal n) ≡ b ++ b':' ∷ (decimal k ++ b':' ∷ decimal l)
    → (a ≡ b) × (m ≡ k) × (n ≡ l)
colons-injective a b m n k l e =
    let (p, q) =
      split_injective (a ++ b':' ∷ decimal m) (b ++ b':' ∷ decimal k) (decimal n) (decimal l)
        (decimal-IsColonless n) (decimal-IsColonless l)
        (append_assoc a (b':' ∷ decimal m) (b':' ∷ decimal n)
          ∙ e
          ∙ sym (append_assoc b (b':' ∷ decimal k) (b':' ∷ decimal l))) in
    let (r, s) =
      split_injective a b (decimal m) (decimal k) (decimal-IsColonless m) (decimal-IsColonless k)
        p in
    (r, decimal-injective m k s, decimal-injective n l q)
