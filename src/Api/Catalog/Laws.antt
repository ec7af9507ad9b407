-- ===== src/Api/Catalog/Laws.antt =====
-- A form without errors gives every required argument (`buildArgs` of web/src/api/catalog.ts).
use ephemeral_sandbox_consol.Base.{
  ◌≡◌, refl, ◌≢◌, true, false, Option, List, [], ◌∷◌, arith, or_else, is_some, All, Text,
  text_eq_refl,
}
use ephemeral_sandbox_consol.Base.Json.{Json}
use ephemeral_sandbox_consol.Base.Strings.{trim}
use ephemeral_sandbox_consol.Base.Keyed.{get, set, get-set}
use ephemeral_sandbox_consol.Api.Catalog.{
  ArgSpecDoc, ArgKind, ParsedArg, error, value, blank, BuiltArgs, parse_kind, parse_trimmed,
  parse_arg_value, add_arg, build_from, build_args,
}

set_nonempty {ℓ} : {V : Type ℓ} (k : Text) (v : V) (m : List (Text × V)) → set k v m ≢ []
set_nonempty k v [] e = absurd (cc)
set_nonempty k v ((j, w) ∷ m) e = ground arith

module _ {ℓ} {F : Type ℓ} (number : Text → Option F) (parse_json : Text → Option Json) where
  abbrev parsed : ArgSpecDoc → List (Text × Text) → ParsedArg F
  parsed spec values = parse_arg_value number parse_json spec (or_else (get spec.name values) [])

  -- Every required field has an argument.
  abbrev pub AreGiven : List ArgSpecDoc → BuiltArgs F → Type 0
  AreGiven specs built =
      All (λ spec. spec.required ≡ true → is_some (get spec.name built.args) ≡ true) specs

  errors_before :
      (specs : List ArgSpecDoc) (values : List (Text × Text)) (built : BuiltArgs F)
      → (build_from number parse_json specs values built).errors ≡ []
      → built.errors ≡ []
  errors_before [] values built e = e
  errors_before (spec ∷ specs) values built e =
      one (parsed spec values) (errors_before specs values _ e)
    where
      one :
          (p : ParsedArg F)
          → (add_arg number parse_json spec.name p built).errors ≡ []
          → built.errors ≡ []
      one (error x) q = absurd (set_nonempty spec.name x built.errors q)
      one (value v) q = q
      one blank q = q

  args_after :
      (specs : List ArgSpecDoc) (values : List (Text × Text)) (built : BuiltArgs F) (k : Text)
      → is_some (get k built.args) ≡ true
      → is_some (get k (build_from number parse_json specs values built).args) ≡ true
  args_after [] values built k h = h
  args_after (spec ∷ specs) values built k h =
      args_after specs values _ k (one (parsed spec values))
    where
      one :
          (p : ParsedArg F)
          → is_some (get k (add_arg number parse_json spec.name p built).args) ≡ true
      one (error x) = h
      one blank = h
      one (value v) = ground (arith, get-set k spec.name v built.args, h)

  parse_kind-filled :
      (kind : ArgKind) (name raw trimmed : Text)
      → parse_kind number parse_json kind name raw trimmed ≢ blank
  parse_kind-filled ArgKind.string name raw trimmed e = absurd (cc)
  parse_kind-filled ArgKind.path name raw trimmed e = absurd (cc)
  parse_kind-filled ArgKind.integer name raw trimmed e = ground arith
  parse_kind-filled ArgKind.float name raw trimmed e = ground arith
  parse_kind-filled ArgKind.json_array name raw trimmed e = ground arith

  trimmed_blank :
      (spec : ArgSpecDoc) (raw trimmed : Text)
      → parse_trimmed number parse_json spec raw trimmed ≡ blank
      → spec.required ≡ false
  trimmed_blank spec raw [] e = ground arith
  trimmed_blank spec raw (c ∷ s) e = absurd (parse_kind-filled spec.kind spec.name raw (c ∷ s) e)

  -- Only an optional field is left out.
  parsed_blank :
      (spec : ArgSpecDoc) (raw : Text)
      → parse_arg_value number parse_json spec raw ≡ blank
      → spec.required ≡ false
  unfolding parse_arg_value
  parsed_blank spec raw e = trimmed_blank spec raw (trim raw) e

  added :
      (spec : ArgSpecDoc) (p : ParsedArg F) (built : BuiltArgs F)
      → (p ≡ blank → spec.required ≡ false)
      → (add_arg number parse_json spec.name p built).errors ≡ []
      → spec.required ≡ true
      → is_some (get spec.name (add_arg number parse_json spec.name p built).args) ≡ true
  added spec (error x) built h e r = absurd (set_nonempty spec.name x built.errors e)
  added spec blank built h e r = absurd (ground (arith, h refl))
  added spec (value v) built h e r =
      ground (arith, get-set spec.name spec.name v built.args, text_eq_refl spec.name)

  build_from-AreGiven :
      (specs : List ArgSpecDoc) (values : List (Text × Text)) (built : BuiltArgs F)
      → (build_from number parse_json specs values built).errors ≡ []
      → AreGiven specs (build_from number parse_json specs values built)
  build_from-AreGiven [] values built e = tt
  build_from-AreGiven (spec ∷ specs) values built e =
      let next : BuiltArgs F = add_arg number parse_json spec.name (parsed spec values) built in
      (
        λ r. args_after specs values next spec.name (
            added spec (parsed spec values) built
              (parsed_blank spec (or_else (get spec.name values) []))
              (errors_before specs values next e) r),
        build_from-AreGiven specs values next e,
      )

  -- A form for which no error is found gives an argument for every required field, whatever the
  -- fields, their texts and the platform's readings of numbers and of JSON.
  pub build_args-AreGiven :
      (specs : List ArgSpecDoc) (values : List (Text × Text))
      → (build_args number parse_json specs values).errors ≡ []
      → AreGiven specs (build_args number parse_json specs values)
  unfolding build_args
  build_args-AreGiven specs values e =
      build_from-AreGiven specs values (record { args = []; errors = [] }) e
