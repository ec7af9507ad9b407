-- ===== src/Base/Json.antt =====
-- JSON values, as `JSON.parse` returns them, and the access to a field by name.
use mathlib.Core.Bool.{Bool, true, false, not}
use mathlib.Core.Option.{Option, none, some}
use mathlib.Core.List.{[], ◌∷◌}
use ephemeral_sandbox_consol.Base.Tests.{if◌then◌else◌, nat_eq}
use ephemeral_sandbox_consol.Base.Codes.{Text, ◌==◌}
use ephemeral_sandbox_consol.Base.Number.{ℤ, pos, negsuc}

mutual
  pub data Json : Type 0 where
    null : Json
    boolean : Bool → Json
    number : ℤ → Json
    string : Text → Json
    array : Items → Json
    object : Fields → Json

  pub data Items : Type 0 where
    nil : Items
    item : Json → Items → Items

  pub data Fields : Type 0 where
    end : Fields
    field : Text → Json → Fields → Fields

-- The value of a key; the keys of an object are distinct.
abbrev pub field_of : Text → Fields → Option Json
field_of key end = none
field_of key (field k v fs) = let rest = field_of key fs in if k == key then some v else rest

-- `value?.key`, with `none` for `undefined`
abbrev pub member : Text → Json → Option Json
member key (object fs) = field_of key fs
member key _ = none

-- `value ?? fallback`
abbrev pub nullish : Option Json → Json → Json
nullish none fallback = fallback
nullish (some null) fallback = fallback
nullish (some value) fallback = value

-- `value?.key ?? fallback`
abbrev pub member_or : Text → Option Json → Json → Json
member_or key none fallback = fallback
member_or key (some value) fallback = nullish (member key value) fallback

-- Whether a value counts as true in a condition.
abbrev pub truthy : Option Json → Bool
truthy none = false
truthy (some null) = false
truthy (some (boolean b)) = b
truthy (some (number (pos n))) = not (nat_eq n 0)
truthy (some (number (negsuc n))) = true
truthy (some (string [])) = false
truthy (some (string (c ∷ s))) = true
truthy (some (array items)) = true
truthy (some (object fs)) = true

abbrev pub empty_object : Json
empty_object = object end
