-- ===== src/Base/Keyed.antt =====
-- A JavaScript `Map` with strings for keys: its entries in the order of insertion. `set` replaces
-- the value of a key in place, or appends an entry.
use mathlib.Core.Path.{◌≡◌, refl}
use mathlib.Core.Bool.{Bool, false, ◌||◌}
use mathlib.Core.Option.{Option, none, some}
use mathlib.Core.List.{List, [], ◌∷◌}
use native.Mathlib.Omega.{arith}
use ephemeral_sandbox_consol.Base.Tests.{if◌then◌else◌}
use ephemeral_sandbox_consol.Base.Codes.{Text, ◌==◌}

module _ {ℓ} {V : Type ℓ} where
  abbrev pub get : Text → List (Text × V) → Option V
  get k [] = none
  get k ((j, v) ∷ m) = let rest = get k m in if j == k then some v else rest

  abbrev pub set : Text → V → List (Text × V) → List (Text × V)
  set k v [] = (k, v) ∷ []
  set k v ((j, w) ∷ m) = let rest = set k v m in if j == k then (j, v) ∷ m else (j, w) ∷ rest

  -- `map.delete(k)`
  abbrev pub delete : Text → List (Text × V) → List (Text × V)
  delete k [] = []
  delete k ((j, w) ∷ m) = let rest = delete k m in if j == k then m else (j, w) ∷ rest

  -- Entries set one after the other; `new Map(entries)` starts from the empty map.
  abbrev pub set_all : List (Text × V) → List (Text × V) → List (Text × V)
  set_all m [] = m
  set_all m ((k, v) ∷ entries) = set_all (set k v m) entries

  pub get-set :
      (j k : Text) (v : V) (m : List (Text × V))
      → get j (set k v m) ≡ (if k == j then some v else get j m)
  get-set j k v [] = refl
  get-set j k v ((i, w) ∷ m) = ground (arith, get-set j k v m)

-- `new Set(xs).has(x)`
abbrev pub has : Text → List Text → Bool
has x [] = false
has x (y ∷ ys) = y == x || has x ys
