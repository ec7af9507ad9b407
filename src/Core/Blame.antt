-- ===== src/Core/Blame.antt =====
-- The owner of a line and the look of an owner (web/src/pages/sandbox/files/blame.ts), with the
-- ranges of web/src/api/files.ts.
pub mod Laws
use ephemeral_sandbox_consol.Base.{
  ℕ, ◌+◌, ◌-◌, ◌*◌, ◌%◌, ◌^◌, Bool, true, false, ◌&&◌, Option, none, some, List, [], ◌∷◌, ◌++◌, ltb,
  leb, if◌then◌else◌, Text, codes, ◌==◌, text_discrete,
}
use ephemeral_sandbox_consol.Base.Strings.{decimal}

pub record BlameRange : Type 0 where
  pub start_line : ℕ
  pub line_count : ℕ
  pub owner : Text

pub record BlameOwnerInfo : Type 0 where
  pub owner : Text
  pub color : Text
  pub hatched : Bool

-- `hash * 31 + code | 0`, kept as its residue: the 32-bit word, read without its sign.
unfoldable pub hash_from : ℕ → Text → ℕ
hash_from hash [] = hash
hash_from hash (c ∷ s) = hash_from ((hash * 31 + c) % 2 ^ 32) s

-- `Math.abs` of a 32-bit word read with its sign.
abbrev pub abs_word : ℕ → ℕ
abs_word w = if ltb w (2 ^ 31) then w else 2 ^ 32 - w

unfoldable pub hash_hue : Text → ℕ
unfolding hash_from
hash_hue text = abs_word (hash_from 0 text) % 360

unfoldable pub owner_info : Text → BlameOwnerInfo
unfolding hash_hue decimal text_discrete
owner_info owner =
    if owner == codes "original"
    then record { owner = owner; color = codes "#c8cdd6"; hatched = false }
    else if owner == codes "unknown"
    then record { owner = owner; color = codes "#9aa1ac"; hatched = true }
    else record {
      owner = owner;
      color = codes "hsl(" ++ (decimal (hash_hue owner) ++ codes " 65% 55%)");
      hatched = false;
    }

abbrev pub covers : ℕ → BlameRange → Bool
covers line range = leb range.start_line line && ltb line (range.start_line + range.line_count)

-- The loop of `ownerAt`, over absolute lines.
unfoldable pub owner_at : List BlameRange → ℕ → Option Text
owner_at [] line = none
owner_at (range ∷ ranges) line =
    let later = owner_at ranges line in if covers line range then some range.owner else later
