-- ===== src/Core/Ledger/Kept.antt =====
-- What is saved is loaded (`saveLedger`, `loadLedger` of web/src/pages/sandbox/terminal/ledger.ts).
use ephemeral_sandbox_consol.Base.{
  ◌≡◌, refl, ap, ◌∙◌, ◌≢◌, inl, inr, Bool, true, false, some, List, [], ◌∷◌, arith, if◌then◌else◌,
  Bool-cases, drop, last_n, Text, ◌==◌, text_eq_refl,
}
use ephemeral_sandbox_consol.Base.Keyed.{get, set, get-set}
use ephemeral_sandbox_consol.Core.Ledger.{
  LedgerEntry, EntriesJson, entries_of, storage_key, load_raw, LocalStorage, load_ledger, set_item,
  save_ledger,
}

load_raw-nonempty :
    (json : EntriesJson) (t : Text) → t ≢ [] → load_raw json (some t) ≡ entries_of (json.parse t)
load_raw-nonempty json [] h = absurd (h refl)
load_raw-nonempty json (c ∷ s) h = refl

-- A text that was written is read back.
load_raw-stringify :
    (json : EntriesJson) (es : List LedgerEntry) → load_raw json (some (json.stringify es)) ≡ es
load_raw-stringify json es =
    load_raw-nonempty json (json.stringify es) (json.stringify_nonempty es)
    ∙ ap entries_of (json.parse_stringify es)

-- What is found under a key after an attempt to write.
get-set_item :
    (other key text : Text) (storage : LocalStorage)
    → get other (set_item key text storage).items ≡ (
        if storage.takes (set key text storage.items)
        then (if key == other then some text else get other storage.items)
        else get other storage.items)
get-set_item other key text storage =
    elim (Bool-cases (storage.takes (set key text storage.items))) [
      | inl e ↦ rw (e) (get-set other key text storage.items)
      | inr e ↦ rw (e) refl
    ]

set_item-readable :
    (key text : Text) (storage : LocalStorage)
    → (set_item key text storage).readable ≡ storage.readable
set_item-readable key text storage =
    elim (Bool-cases (storage.takes (set key text storage.items))) [
      | inl e ↦ rw (e) refl
      | inr e ↦ rw (e) refl
    ]

-- What a ledger loads as after a save, by what is then found under its key.
load_after :
    (json : EntriesJson) (storage : LocalStorage) (sandbox_id other_id : Text)
    (es : List LedgerEntry)
    → storage.readable ≡ true
    → load_ledger json (save_ledger json storage sandbox_id es) other_id
      ≡ load_raw json (
          get
            (storage_key other_id)
            (set_item (storage_key sandbox_id) (json.stringify (last_n 200 es)) storage).items)
unfolding load_ledger save_ledger
load_after json storage sandbox_id other_id es h =
    let text : Text = json.stringify (last_n 200 es) in
    let after : LocalStorage = set_item (storage_key sandbox_id) text storage in
    ap (λ (b : Bool). if b then load_raw json (get (storage_key other_id) after.items) else [])
      (set_item-readable (storage_key sandbox_id) text storage ∙ h)

-- When the storage can be read, saving a ledger and loading it again gives its last 200 entries, in
-- their order, if the storage takes them, and the ledger that was there before if it does not (it is
-- full, or cannot be written); the ledger of every other sandbox stays as it was in either case.
pub load_ledger-save_ledger :
    (json : EntriesJson) (storage : LocalStorage) (sandbox_id other_id : Text)
    (es : List LedgerEntry)
    → storage.readable ≡ true
    → sandbox_id ≢ other_id
    → (load_ledger json (save_ledger json storage sandbox_id es) sandbox_id ≡ (
        if storage.takes
          (set (storage_key sandbox_id) (json.stringify (last_n 200 es)) storage.items)
        then last_n 200 es
        else load_ledger json storage sandbox_id))
      × (load_ledger json (save_ledger json storage sandbox_id es) other_id
          ≡ load_ledger json storage other_id)
unfolding load_ledger
load_ledger-save_ledger json storage sandbox_id other_id es h d =
    let key : Text = storage_key sandbox_id in
    let text : Text = json.stringify (last_n 200 es) in
    (
      load_after json storage sandbox_id sandbox_id es h
          ∙ ap (load_raw json) (get-set_item key key text storage)
          ∙ own (storage.takes (set key text storage.items)),
      load_after json storage sandbox_id other_id es h
          ∙ ap (load_raw json) (
              get-set_item (storage_key other_id) key text storage
              ∙ other_key text (storage.takes (set key text storage.items))
                  (λ e. d (ap (drop 19) e)))
          ∙ readable_now other_id,
    )
  where
    readable_now :
        (id : Text)
        → load_raw json (get (storage_key id) storage.items)
          ≡ (if storage.readable then load_raw json (get (storage_key id) storage.items) else [])
    readable_now id = ground (arith, h)

    own :
        (b : Bool)
        → load_raw json (
            if b
            then (if storage_key sandbox_id == storage_key sandbox_id
                then some (json.stringify (last_n 200 es))
                else get (storage_key sandbox_id) storage.items)
            else get (storage_key sandbox_id) storage.items)
          ≡ (if b
              then last_n 200 es
              else (if storage.readable
                  then load_raw json (get (storage_key sandbox_id) storage.items)
                  else []))
    own true =
        ap
          (λ (b : Bool). load_raw json (
            if b
            then some (json.stringify (last_n 200 es))
            else get (storage_key sandbox_id) storage.items))
          (text_eq_refl (storage_key sandbox_id))
        ∙ load_raw-stringify json (last_n 200 es)
    own false = readable_now sandbox_id

    other_key :
        (t : Text) (b : Bool)
        → storage_key sandbox_id ≢ storage_key other_id
        → (if b
            then (if storage_key sandbox_id == storage_key other_id
                then some t
                else get (storage_key other_id) storage.items)
            else get (storage_key other_id) storage.items)
          ≡ get (storage_key other_id) storage.items
    other_key t true k = ground arith
    other_key t false k = refl
