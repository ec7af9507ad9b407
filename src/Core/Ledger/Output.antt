-- ===== src/Core/Ledger/Output.antt =====
-- The lines of a transcript (`absorbOutput` of web/src/pages/sandbox/terminal/ledger.ts).
use ephemeral_sandbox_consol.Base.{
  ℕ, zero, suc, ◌+◌, ◌-◌, ◌<◌, max, ◌≡◌, refl, ap, ◌∙◌, inl, inr, Bool, true, false, ◌&&◌, Option,
  none, some, List, [], ◌∷◌, ◌++◌, arith, ltb, leb, nat_eq, if◌then◌else◌, Bool-cases, length, All,
  Text, All-map, All-append, get_elem?,
}
use ephemeral_sandbox_consol.Base.Strings.{split, join}
use ephemeral_sandbox_consol.Api.Types.{CommandOutput}
use ephemeral_sandbox_consol.Core.Controls.{strip_terminal_control_sequences}
use ephemeral_sandbox_consol.Core.Controls.Laws.{IsText, strip_of_text}
use ephemeral_sandbox_consol.Core.Ledger.{
  TranscriptState, is_true, write_at, write_lines, absorb_lines, absorb_output,
}

-- The line of a number, if it was written.
abbrev pub line_at : List (Option Text) → ℕ → Option Text
line_at [] i = none
line_at (x ∷ xs) zero = x
line_at (x ∷ xs) (suc i) = line_at xs i

line_at-write_at :
    (n : ℕ) (t : Text) (xs : List (Option Text)) (i : ℕ)
    → line_at (write_at n t xs) i ≡ (if nat_eq i n then some t else line_at xs i)
line_at-write_at zero t [] zero = refl
line_at-write_at zero t [] (suc i) = ground arith
line_at-write_at zero t (x ∷ xs) zero = refl
line_at-write_at zero t (x ∷ xs) (suc i) = ground arith
line_at-write_at (suc n) t [] zero = ground arith
line_at-write_at (suc n) t [] (suc i) = ground (arith, line_at-write_at n t [] i)
line_at-write_at (suc n) t (x ∷ xs) zero = ground arith
line_at-write_at (suc n) t (x ∷ xs) (suc i) = ground (arith, line_at-write_at n t xs i)

-- A line of the window, or one that is kept.
abbrev pub merged_line : ℕ → List Text → List (Option Text) → ℕ → Option Text
merged_line start texts lines i =
    if leb start i && ltb i (start + length texts)
    then get_elem? texts (i - start)
    else line_at lines i

get_elem?-first : (t : Text) (texts : List Text) (n : ℕ) → n ≡ 0 → get_elem? (t ∷ texts) n ≡ some t
get_elem?-first t texts n e = ap (get_elem? (t ∷ texts)) e

get_elem?-later :
    (t : Text) (texts : List Text) (n m : ℕ)
    → n ≡ suc m
    → get_elem? (t ∷ texts) n ≡ get_elem? texts m
get_elem?-later t texts n m e = ap (get_elem? (t ∷ texts)) e

line_at-write_lines :
    (start : ℕ) (texts : List Text) (lines : List (Option Text)) (i : ℕ)
    → line_at (write_lines start texts lines) i ≡ merged_line start texts lines i
line_at-write_lines start [] lines i = ground arith
line_at-write_lines start (t ∷ texts) lines i =
    line_at-write_lines (start + 1) texts (write_at start t lines) i
    ∙ elim (Bool-cases (nat_eq i start)) [
      | inl e ↦
          ground (arith, e, line_at-write_at start t lines i, get_elem?-first t texts (i - start))
      | inr e ↦ ground (
        arith,
        e,
        line_at-write_at start t lines i,
        get_elem?-later t texts (i - start) (i - (start + 1)),
      )
    ]

-- No newline.
abbrev pub IsLine : Text → Type 0
IsLine = All (λ c. (nat_eq c 10 ≡ false) × IsText c)

split-append : (x s : Text) → IsLine x → split 10 (x ++ 10 ∷ s) ≡ x ∷ split 10 s
split-append [] s h = refl
split-append (c ∷ x) s ((n, t), hs) =
    rw (split-append x s hs, split)
      (ap (λ (b : Bool). if b then [] ∷ x ∷ split 10 s else (c ∷ x) ∷ split 10 s) n)

split_line : (x : Text) → IsLine x → split 10 x ≡ x ∷ []
split_line [] h = refl
split_line (c ∷ x) ((n, t), hs) =
    rw (split_line x hs, split) (ap (λ (b : Bool). if b then [] ∷ x ∷ [] else (c ∷ x) ∷ []) n)

split-join :
    (x : Text) (xs : List Text) → All IsLine (x ∷ xs) → split 10 (join (10 ∷ []) (x ∷ xs)) ≡ x ∷ xs
split-join x [] (h, hs) = split_line x h
split-join x (y ∷ ys) (h, hs) =
    split-append x (join (10 ∷ []) (y ∷ ys)) h ∙ ap (λ t. x ∷ t) (split-join y ys hs)

-- The text of a window of lines has no control unit but the newlines.
join-IsText :
    (x : Text) (xs : List Text) → All IsLine (x ∷ xs) → All IsText (join (10 ∷ []) (x ∷ xs))
join-IsText x [] (h, hs) = All-map {P = λ c. (nat_eq c 10 ≡ false) × IsText c} (λ c p. p.1) x h
join-IsText x (y ∷ ys) (h, hs) =
    All-append IsText x (10 ∷ join (10 ∷ []) (y ∷ ys))
      (All-map {P = λ c. (nat_eq c 10 ≡ false) × IsText c} (λ c p. p.1) x h)
      (refl, join-IsText y ys hs)

-- What a report of lines leaves of the transcript: the rejection does not touch it.
pub absorb_output-lines :
    (state : TranscriptState) (output : CommandOutput)
    → ((absorb_output state output).lines ≡ (absorb_lines output state).lines)
      × ((absorb_output state output).fetched_to ≡ (absorb_lines output state).fetched_to)
unfolding absorb_output
absorb_output-lines state output = elim (Bool-cases (is_true output.publish_rejected)) [
  | inl e ↦ (rw (e) refl, rw (e) refl)
  | inr e ↦ (rw (e) refl, rw (e) refl)
]

pub absorb_lines-written :
    (state : TranscriptState) (output : CommandOutput)
    → ltb output.start_offset output.end_offset && ltb 0 (length output.output) ≡ true
    → (absorb_lines output state).lines
        ≡ write_lines output.start_offset
            (split 10 (strip_terminal_control_sequences output.output))
            state.lines
      × (absorb_lines output state).fetched_to ≡ max state.fetched_to output.end_offset
unfolding absorb_lines
absorb_lines-written state output e = (rw (e) refl, rw (e) refl)

-- A report that starts before it ends, and whose text is not empty and is lines free of control
-- units joined by newlines: each of its lines stands at its own number, every other line is the one
-- that stood there, and the transcript is fetched up to the end of the report at least.
pub absorb_output_lem :
    (state : TranscriptState) (output : CommandOutput) (x : Text) (xs : List Text)
    → output.start_offset < output.end_offset
    → 0 < length output.output
    → output.output ≡ join (10 ∷ []) (x ∷ xs)
    → All IsLine (x ∷ xs)
    → ((i : ℕ)
        → line_at (absorb_output state output).lines i
          ≡ merged_line output.start_offset (x ∷ xs) state.lines i)
      × ((absorb_output state output).fetched_to ≡ max state.fetched_to output.end_offset)
absorb_output_lem state output x xs before nonempty text h =
    let written = absorb_lines-written state output (ground arith) in
    let plain : strip_terminal_control_sequences output.output ≡ join (10 ∷ []) (x ∷ xs) =
      ap strip_terminal_control_sequences text
      ∙ strip_of_text (join (10 ∷ []) (x ∷ xs)) (join-IsText x xs h) in
    (
      λ i.
          ap (λ lines. line_at lines i) ((absorb_output-lines state output).0 ∙ written.0)
          ∙ ap (λ t. line_at (write_lines output.start_offset (split 10 t) state.lines) i) plain
          ∙ ap (λ ts. line_at (write_lines output.start_offset ts state.lines) i)
              (split-join x xs h)
          ∙ line_at-write_lines output.start_offset (x ∷ xs) state.lines i,
      (absorb_output-lines state output).1 ∙ written.1,
    )
