-- ===== src/Base/Strings/Infix.antt =====
-- `startsWith` and `includes` find a text where it stands.
use mathlib.Core.Path.{◌≡◌, refl, ap}
use mathlib.Core.Logic.{inl, inr}
use mathlib.Core.Bool.{true}
use mathlib.Core.List.{[], ◌∷◌, ◌++◌}
use native.Mathlib.Omega.{arith}
use ephemeral_sandbox_consol.Base.Tests.{Bool-cases}
use ephemeral_sandbox_consol.Base.Codes.{Text}
use ephemeral_sandbox_consol.Base.Strings.{starts_with, includes}

-- `s` begins with `p`.
abbrev pub IsPrefix : Text → Text → Type 0
IsPrefix p s = (rest : Text) × (s ≡ p ++ rest)

-- `needle` stands somewhere in `s`.
abbrev pub IsInfix : Text → Text → Type 0
IsInfix needle s = (before : Text) × (after : Text) × (s ≡ before ++ (needle ++ after))

pub starts_with→IsPrefix : (p s : Text) → starts_with p s ≡ true → IsPrefix p s
starts_with→IsPrefix [] s h = (s, refl)
starts_with→IsPrefix (a ∷ p) [] h = absurd (ground arith)
starts_with→IsPrefix (a ∷ p) (b ∷ s) h =
    let (rest, e) = starts_with→IsPrefix p s (ground arith) in (rest, ground (arith, e))

pub starts_with-append : (p rest : Text) → starts_with p (p ++ rest) ≡ true
starts_with-append [] rest = refl
starts_with-append (a ∷ p) rest = ground (arith, starts_with-append p rest)

pub includes→IsInfix : (needle s : Text) → includes needle s ≡ true → IsInfix needle s
includes→IsInfix needle [] h = let (rest, e) = starts_with→IsPrefix needle [] h in ([], rest, e)
includes→IsInfix needle (c ∷ s) h = elim (Bool-cases (starts_with needle (c ∷ s))) [
  | inl e ↦ let (rest, same) = starts_with→IsPrefix needle (c ∷ s) e in ([], rest, same)
  | inr e ↦
      let (before, after, same) = includes→IsInfix needle s (ground arith) in
      (c ∷ before, after, ap (◌∷◌ c) same)
]

pub includes-append :
    (needle before after : Text) → includes needle (before ++ (needle ++ after)) ≡ true
includes-append [] [] [] = refl
includes-append [] [] (c ∷ after) = refl
includes-append (a ∷ needle) [] after = ground (arith, starts_with-append (a ∷ needle) after)
includes-append needle (c ∷ before) after = ground (arith, includes-append needle before after)
