-- ===== src/Core/Blame/Laws.antt =====
-- Whose line it is (`ownerAt` of web/src/pages/sandbox/files/blame.ts).
use ephemeral_sandbox_consol.Base.{
  ℕ, ◌+◌, ◌≤◌, ◌<◌, ◌≡◌, ◌↔◌, ◌⊎◌, inl, inr, false, some, List, [], ◌∷◌, arith, Bool-cases, All,
  Some, Text, Pairwise,
}
use ephemeral_sandbox_consol.Core.Blame.{BlameRange, covers, owner_at}

-- No line is in both.
abbrev pub AreApart : BlameRange → BlameRange → Type 0
AreApart a b =
    (a.start_line + a.line_count ≤ b.start_line) ⊎ (b.start_line + b.line_count ≤ a.start_line)

abbrev pub Owns : ℕ → Text → BlameRange → Type 0
Owns line owner range =
    (range.start_line ≤ line) × (line < range.start_line + range.line_count) × (range.owner ≡ owner)

-- A range apart from one that has the line does not have it.
apart-covers :
    (a b : BlameRange) (line : ℕ) (owner : Text)
    → AreApart a b
    → Owns line owner b
    → covers line a ≡ false
apart-covers a b line owner apart (h, k, _) = elim apart [
  | inl e ↦ ground arith
  | inr e ↦ ground arith
]

covers-later :
    (a : BlameRange) (line : ℕ) (owner : Text) (ranges : List BlameRange)
    → All (AreApart a) ranges
    → Some (Owns line owner) ranges
    → covers line a ≡ false
covers-later a line owner [] h k = elim k [ ]
covers-later a line owner (b ∷ ranges) (h, hs) (inl k) = apart-covers a b line owner h k
covers-later a line owner (b ∷ ranges) (h, hs) (inr k) = covers-later a line owner ranges hs k

owner_at-found :
    (ranges : List BlameRange) (line : ℕ) (owner : Text)
    → Pairwise AreApart ranges
    → Some (Owns line owner) ranges
    → owner_at ranges line ≡ some owner
unfolding owner_at
owner_at-found [] line owner h k = elim k [ ]
owner_at-found (a ∷ ranges) line owner h (inl (k, l, e)) = ground arith
owner_at-found (a ∷ ranges) line owner (h, hs) (inr k) =
    let passed : covers line a ≡ false = covers-later a line owner ranges h k in
    let rest = owner_at-found ranges line owner hs k in rw (passed) rest

owner_at-Some :
    (ranges : List BlameRange) (line : ℕ) (owner : Text)
    → owner_at ranges line ≡ some owner
    → Some (Owns line owner) ranges
unfolding owner_at
owner_at-Some [] line owner e = absurd (cc)
owner_at-Some (a ∷ ranges) line owner e = elim (Bool-cases (covers line a)) [
  | inl f ↦ inl (ground arith, ground arith, ground arith)
  | inr f ↦ inr (owner_at-Some ranges line owner (rw (f) at e))
]

-- When no line is in two ranges, a line has an owner exactly when some range of that owner has the
-- line, in whatever order the ranges come.
pub owner_at_iff :
    (ranges : List BlameRange) (line : ℕ) (owner : Text)
    → Pairwise AreApart ranges
    → (owner_at ranges line ≡ some owner) ↔ Some (Owns line owner) ranges
owner_at_iff ranges line owner h =
    (owner_at-Some ranges line owner, owner_at-found ranges line owner h)
