-- ===== src/Api/Catalog.antt =====
-- The catalog of operations, and the arguments built from a form (web/src/api/catalog.ts).
pub mod Laws
use ephemeral_sandbox_consol.Base.{
  ℕ, Bool, ◌&&◌, Option, none, some, List, [], ◌∷◌, ◌++◌, leb, if◌then◌else◌, or_else, all, find,
  Text, codes, ◌==◌,
}
use ephemeral_sandbox_consol.Base.Json.{Json, Items, array}
use ephemeral_sandbox_consol.Base.Keyed.{get, set}
use ephemeral_sandbox_consol.Base.Strings.{trim}

pub data ArgKind : Type 0 where
  string integer float path json_array : ArgKind

pub record ArgSpecDoc : Type 0 where
  pub name : Text
  pub kind : ArgKind
  pub required : Bool
  pub help : Text
  pub default : Option Text

pub record OperationSpecDoc : Type 0 where
  pub name : Text
  pub family : Text
  pub summary : Text
  pub description : Text
  pub args : List ArgSpecDoc
  pub related : List Text

-- `operations.find((operation) => operation.name === name)`
unfoldable pub find_operation : Option (List OperationSpecDoc) → Text → Option OperationSpecDoc
find_operation none name = none
find_operation (some operations) name = find (λ operation. operation.name == name) operations

-- A value of the protocol. A finite number is one of the platform's; an integer is read by `Number`
-- too, and is `none` when it has so many digits that `Number` makes it infinite.
pub data ArgValue {ℓ} (F : Type ℓ) : Type ℓ where
  text : Text → ArgValue F
  unsigned : Option F → ArgValue F
  finite : F → ArgValue F
  items : Items → ArgValue F

-- `{ error }`, `{ value }` or `{}`
pub data ParsedArg {ℓ} (F : Type ℓ) : Type ℓ where
  error : Text → ParsedArg F
  value : ArgValue F → ParsedArg F
  blank : ParsedArg F

abbrev is_digit : ℕ → Bool
is_digit c = leb b'0' c && leb c b'9'

pub record BuiltArgs {ℓ} (F : Type ℓ) : Type ℓ where
  pub args : List (Text × ArgValue F)
  pub errors : List (Text × Text)

-- `Number` on a text, if it is finite, and `JSON.parse`, if it does not throw.
module _ {ℓ} {F : Type ℓ} (number : Text → Option F) (parse_json : Text → Option Json) where
  abbrev array_value : Text → Option Json → ParsedArg F
  array_value name (some (array xs)) = value (items xs)
  array_value name _ = error (name ++ codes " must be a JSON array")

  abbrev float_value : Text → Option F → ParsedArg F
  float_value name none = error (name ++ codes " must be a finite number")
  float_value name (some x) = value (finite x)

  -- The switch on the kind, for a text that is not blank.
  abbrev pub parse_kind : ArgKind → Text → Text → Text → ParsedArg F
  parse_kind ArgKind.integer name raw trimmed =
      if all is_digit trimmed
      then value (unsigned (number trimmed))
      else error (name ++ codes " must be an unsigned integer")
  parse_kind ArgKind.float name raw trimmed = float_value name (number trimmed)
  parse_kind ArgKind.json_array name raw trimmed = array_value name (parse_json trimmed)
  parse_kind ArgKind.string name raw trimmed = value (text raw)
  parse_kind ArgKind.path name raw trimmed = value (text raw)

  abbrev pub parse_trimmed : ArgSpecDoc → Text → Text → ParsedArg F
  parse_trimmed spec raw [] =
      if spec.required then error (spec.name ++ codes " is required") else blank
  parse_trimmed spec raw (c ∷ s) = parse_kind spec.kind spec.name raw (c ∷ s)

  unfoldable pub parse_arg_value : ArgSpecDoc → Text → ParsedArg F
  unfolding trim
  parse_arg_value spec raw = parse_trimmed spec raw (trim raw)

  abbrev pub add_arg : Text → ParsedArg F → BuiltArgs F → BuiltArgs F
  add_arg name (error e) built = record built { errors = set name e built.errors }
  add_arg name (value v) built = record built { args = set name v built.args }
  add_arg name blank built = built

  abbrev pub build_from : List ArgSpecDoc → List (Text × Text) → BuiltArgs F → BuiltArgs F
  build_from [] values built = built
  build_from (spec ∷ specs) values built =
      build_from specs values
        (add_arg spec.name (parse_arg_value spec (or_else (get spec.name values) [])) built)

  unfoldable pub build_args : List ArgSpecDoc → List (Text × Text) → BuiltArgs F
  unfolding parse_arg_value
  build_args specs values = build_from specs values (record { args = []; errors = [] })
