-- ===== src/Api/Stream/Boundaries.antt =====
-- The empty lines that separate events.
use ephemeral_sandbox_consol.Base.{
  ◌<◌, ◌≡◌, inl, inr, ◌&&◌, some, [], ◌∷◌, ◌++◌, arith, nat_eq, Bool-cases, length, Text,
}
use mathlib.Core.Option
use ephemeral_sandbox_consol.Api.Stream.{cut}

-- A boundary that is there stays the first one when more text arrives.
pub cut-append :
    (s more : Text) {chunk rest : Text}
    → cut s ≡ some (chunk, rest)
    → cut (s ++ more) ≡ some (chunk, rest ++ more)
unfolding cut
cut-append [] more h = cc
cut-append (a ∷ []) more h = cc
cut-append (a ∷ b ∷ s) more {chunk} {rest} h = elim (Bool-cases (nat_eq a 10 && nat_eq b 10)) [
  | inl e ↦ ground arith
  | inr e ↦
      let (parts, found, same) = (Option.map-eq-some_iff _ _).0 (rw e at h) in
      ground (arith, cut-append (b ∷ s) more found)
]

-- What a cut leaves is shorter.
pub length-cut :
    (s : Text) {chunk rest : Text} → cut s ≡ some (chunk, rest) → length rest < length s
unfolding cut
length-cut [] h = absurd (cc)
length-cut (a ∷ []) h = absurd (cc)
length-cut (a ∷ b ∷ s) h = elim (Bool-cases (nat_eq a 10 && nat_eq b 10)) [
  | inl e ↦ ground arith
  | inr e ↦
      let (parts, found, same) = (Option.map-eq-some_iff _ _).0 (rw e at h) in
      ground (arith, length-cut (b ∷ s) found)
]
