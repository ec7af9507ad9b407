-- ===== src/Base/Number.antt =====
-- Signed whole numbers and quotients, over the native numbers. A JSON document carries no NaN and
-- no infinity, so a number of the protocol is a whole number, and a quotient that the code computes
-- is kept exact, as its numerator over its denominator.
use Prim.Native.Nat.{ℕ, ◌*◌, ◌-◌, ◌≤◌}
use mathlib.Core.Bool.{Bool, true}
use ephemeral_sandbox_consol.Base.Tests.{leb, nat_eq, if◌then◌else◌}
use mathlib.Core.Option.{Option, none, some}

-- `negsuc n` is -(n + 1).
pub data ℤ : Type 0 where
  pos : ℕ → ℤ
  negsuc : ℕ → ℤ

-- a - b, as an integer.
abbrev pub sub_ℕ : ℕ → ℕ → ℤ
sub_ℕ a b = if leb b a then pos (a - b) else negsuc (b - a - 1)

-- `n <= 0`
abbrev pub at_most_zero : ℤ → Bool
at_most_zero (pos n) = nat_eq n 0
at_most_zero (negsuc n) = true

pub record Ratio : Type 0 where
  pub num : ℕ
  pub den : ℕ

-- The order of two quotients with positive denominators.
abbrev pub ◌≤ᵣ◌ : Ratio → Ratio → Type 0
◌≤ᵣ◌ p q = p.num * q.den ≤ q.num * p.den

-- `typeof value === "number" && Number.isFinite(value) && value >= 0`, on a value that may be
-- missing.
abbrev pub non_negative : Option ℤ → Option ℕ
non_negative (some (pos n)) = some n
non_negative (some (negsuc n)) = none
non_negative none = none
