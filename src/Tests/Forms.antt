-- ===== src/Tests/Forms.antt =====
-- The arguments of a form, at concrete texts.
use ephemeral_sandbox_consol.Base.{
  ℕ, ◌≡◌, refl, Bool, true, false, Option, none, List, [], ◌∷◌, Text, codes, text_discrete,
}
use ephemeral_sandbox_consol.Base.Json.{Json}
use ephemeral_sandbox_consol.Api.Catalog.{ArgKind, ArgSpecDoc, build_args}
use ephemeral_sandbox_consol.Api.Catalog.Laws.{AreGiven, build_args-AreGiven}

abbrev field_named : Text → ArgKind → Bool → ArgSpecDoc
field_named name kind required = record {
  name = name;
  kind = kind;
  required = required;
  help = [];
  default = none;
}

abbrev fields : List ArgSpecDoc
fields =
    field_named (codes "limit") ArgKind.integer true
    ∷ field_named (codes "path") ArgKind.path false
    ∷ []

abbrev texts : List (Text × Text)
texts = (codes "limit", codes " 12 ") ∷ []

abbrev no_number : Text → Option ℕ
no_number s = none

abbrev no_json : Text → Option Json
no_json s = none

no_errors : (build_args no_number no_json fields texts).errors ≡ []
unfolding build_args text_discrete
no_errors = refl

build_args-AreGiven_example :
    AreGiven no_number no_json fields (build_args no_number no_json fields texts)
build_args-AreGiven_example = build_args-AreGiven no_number no_json fields texts no_errors
