-- ===== src/Core/Controls/Laws.antt =====
-- What is left of an output (web/src/lib/terminalText.ts).
use ephemeral_sandbox_consol.Base.{
  ℕ, ◌+◌, ◌≤◌, ◌≡◌, refl, sym, ap, ap₂, ◌∙◌, ◌⊎◌, inl, inr, Bool, true, false, not, ◌&&◌, [], ◌∷◌,
  arith, nat_eq, if◌then◌else◌, Bool-cases, nat_eq_iff, filter, drop, All, Text, All-map,
  filter-kept, All-filter_test,
}
use ephemeral_sandbox_consol.Core.Controls.{
  is_intermediate, is_escape_final, sequence_length, esc, csi, run_length, starts_in,
  command_length, operating_system_command, control_sequence, escape_sequence, non_text_control,
  replace_all, strip_terminal_control_sequences,
}

-- A unit that stays.
abbrev pub IsText : ℕ → Type 0
IsText c = non_text_control c ≡ false

-- An expression that matches nothing but control units leaves text as it is.
pub replace_all-text :
    (expression : Text → ℕ)
    → ((c : ℕ) (s : Text) → IsText c → expression (c ∷ s) ≡ 0)
    → (s : Text) → All IsText s
    → replace_all expression 0 s ≡ s
unfolding replace_all
replace_all-text expression h [] k = refl
replace_all-text expression h (c ∷ s) (k, ks) =
    rw (h c s k, replace_all) (ap (λ t. c ∷ t) (replace_all-text expression h s ks))

pub text-esc : (c : ℕ) → IsText c → nat_eq c esc ≡ false
text-esc c h = elim (Bool-cases (nat_eq c esc)) [
  | inl e ↦
      absurd (let p : true ≡ false = ap non_text_control (sym ((nat_eq_iff c esc).0 e)) ∙ h in cc)
  | inr e ↦ e
]

text-csi : (c : ℕ) → IsText c → nat_eq c csi ≡ false
text-csi c h = elim (Bool-cases (nat_eq c csi)) [
  | inl e ↦
      absurd (let p : true ≡ false = ap non_text_control (sym ((nat_eq_iff c csi).0 e)) ∙ h in cc)
  | inr e ↦ e
]

pub command-text : (c : ℕ) (s : Text) → IsText c → operating_system_command (c ∷ s) ≡ 0
unfolding operating_system_command
command-text c [] h = refl
command-text c (d ∷ s) h =
    ap (λ (b : Bool). if b && nat_eq d b']' then command_length s else 0) (text-esc c h)

control-text : (c : ℕ) (s : Text) → IsText c → control_sequence (c ∷ s) ≡ 0
unfolding control_sequence
control-text c s h =
    ap₂
      (λ (a b : Bool).
        if a
        then sequence_length 1 s
        else if b && starts_in (λ d. nat_eq d b'[') s
        then sequence_length 2 (drop 1 s)
        else 0)
      (text-csi c h) (text-esc c h)

escape-text : (c : ℕ) (s : Text) → IsText c → escape_sequence (c ∷ s) ≡ 0
unfolding escape_sequence
escape-text c s h =
    let n : ℕ = run_length is_intermediate s in
    ap (λ (b : Bool). if b && starts_in is_escape_final (drop n s) then n + 2 else 0) (text-esc c h)

filter_of_text : (s : Text) → All IsText s → filter (λ c. not (non_text_control c)) s ≡ s
filter_of_text [] h = refl
filter_of_text (c ∷ s) (h, hs) =
    filter-kept (λ c. not (non_text_control c)) c s (ap not h)
    ∙ ap (λ t. c ∷ t) (filter_of_text s hs)

-- A tab, a line feed, a carriage return, or a unit that is in neither block of control units.
abbrev pub IsPrintable : ℕ → Type 0
IsPrintable c = (c ≡ 9) ⊎ (c ≡ 10) ⊎ (c ≡ 13) ⊎ ((32 ≤ c) × (c ≤ 126)) ⊎ (160 ≤ c)

IsText→IsPrintable : (c : ℕ) → IsText c → IsPrintable c
IsText→IsPrintable c h = ground (arith, h)

pub IsPrintable→IsText : (c : ℕ) → IsPrintable c → IsText c
IsPrintable→IsText c h = ground (arith, h)

strip-AreText : (output : Text) → All IsText (strip_terminal_control_sequences output)
unfolding strip_terminal_control_sequences
strip-AreText output =
    All-map {P = λ c. not (non_text_control c) ≡ true} (λ c e. ground (arith, e))
      (strip_terminal_control_sequences output)
      (All-filter_test (λ c. not (non_text_control c))
        (replace_all escape_sequence 0
          (replace_all control_sequence 0 (replace_all operating_system_command 0 output))))

-- What is left of a text once the commands for the operating system are gone from it.
pub rest_of_text :
    (s : Text)
    → All IsText s
    → filter
        (λ c. not (non_text_control c))
        (replace_all escape_sequence 0 (replace_all control_sequence 0 s))
      ≡ s
rest_of_text s h =
    ap (λ t. filter (λ c. not (non_text_control c)) (replace_all escape_sequence 0 t))
      (replace_all-text control_sequence control-text s h)
    ∙ ap (filter (λ c. not (non_text_control c))) (replace_all-text escape_sequence escape-text s h)
    ∙ filter_of_text s h

pub strip_of_text : (s : Text) → All IsText s → strip_terminal_control_sequences s ≡ s
unfolding strip_terminal_control_sequences
strip_of_text s h =
    ap
      (λ t.
        filter (λ c. not (non_text_control c))
          (replace_all escape_sequence 0 (replace_all control_sequence 0 t)))
      (replace_all-text operating_system_command command-text s h)
    ∙ rest_of_text s h

-- All that is left of an output is tabs, line feeds, carriage returns and units outside the two
-- blocks of control units (below 32, and 127 to 159); an output of such units alone is left as it is.
-- So a second removal changes nothing.
pub strip_lem :
    (output : Text)
    → All IsPrintable (strip_terminal_control_sequences output)
      × (All IsPrintable output → strip_terminal_control_sequences output ≡ output)
      × (strip_terminal_control_sequences (strip_terminal_control_sequences output)
          ≡ strip_terminal_control_sequences output)
strip_lem output = (
  All-map IsText→IsPrintable (strip_terminal_control_sequences output) (strip-AreText output),
  λ h. strip_of_text output (All-map IsPrintable→IsText output h),
  strip_of_text (strip_terminal_control_sequences output) (strip-AreText output),
)
