-- ===== src/Core/Controls.antt =====
-- The removal of terminal control sequences from output (web/src/lib/terminalText.ts). Each regular
-- expression is the length of its match at the start of a text, zero for none.
pub mod Laws
pub mod Swallowed
use ephemeral_sandbox_consol.Base.{
  ℕ, zero, suc, ◌+◌, Bool, false, not, ◌&&◌, ◌||◌, Option, none, some, [], ◌∷◌, ltb, leb, nat_eq,
  if◌then◌else◌, length, filter, drop, Text,
}

-- ESC, and the one-unit form of ESC [.
abbrev pub esc : ℕ
esc = 0x1b

abbrev pub csi : ℕ
csi = 0x9b

-- The length of `[set]*` at the start.
abbrev pub run_length : (ℕ → Bool) → Text → ℕ
run_length p [] = 0
run_length p (c ∷ s) = let more = run_length p s in if p c then suc more else 0

abbrev pub starts_in : (ℕ → Bool) → Text → Bool
starts_in p [] = false
starts_in p (c ∷ s) = p c

-- Where the last ESC \ of a text begins.
abbrev pub last_terminator : Text → Option ℕ
last_terminator [] = none
last_terminator (c ∷ s) =
    let later = last_terminator s in
    elim later [
      | some i ↦ some (suc i)
      | none ↦ if nat_eq c esc && starts_in (λ d. nat_eq d b'\\') s then some 0 else none
    ]

abbrev pub no_bell : ℕ → Bool
no_bell c = not (nat_eq c 7)

abbrev pub terminated_length : Option ℕ → ℕ
terminated_length none = 0
terminated_length (some i) = i + 4

-- `\x1B\][^\x07]*(?:\x07|\x1B\\)`: the set takes all up to the first BEL, which then ends the match.
-- Without a BEL it takes the whole text, and gives back until the last ESC \.
abbrev pub command_length : Text → ℕ
command_length s =
    let free = run_length no_bell s in
    if ltb free (length s) then free + 3 else terminated_length (last_terminator s)

unfoldable pub operating_system_command : Text → ℕ
operating_system_command (c ∷ d ∷ s) = if nat_eq c esc && nat_eq d b']' then command_length s else 0
operating_system_command _ = 0

abbrev is_parameter : ℕ → Bool
is_parameter c = leb b'0' c && leb c b'?'

abbrev pub is_intermediate : ℕ → Bool
is_intermediate c = leb b' ' c && leb c b'/'

abbrev is_final : ℕ → Bool
is_final c = leb b'@' c && leb c b'~'

-- `[0-?]*[ -/]*[@-~]` behind an introducer of the given length. The sets are disjoint, so a run that
-- is not followed by what must follow cannot be shortened to match.
abbrev pub sequence_length : ℕ → Text → ℕ
sequence_length introducer s =
    let parameters = run_length is_parameter s in
    let intermediates = run_length is_intermediate (drop parameters s) in
    if starts_in is_final (drop (parameters + intermediates) s)
    then introducer + parameters + intermediates + 1
    else 0

-- `(?:\x1B\[|\x9B)[0-?]*[ -/]*[@-~]`
unfoldable pub control_sequence : Text → ℕ
control_sequence [] = 0
control_sequence (c ∷ s) =
    if nat_eq c csi
    then sequence_length 1 s
    else if nat_eq c esc && starts_in (λ d. nat_eq d b'[') s
    then sequence_length 2 (drop 1 s)
    else 0

abbrev pub is_escape_final : ℕ → Bool
is_escape_final c = leb b'0' c && leb c b'~'

-- `\x1B[ -/]*[0-~]`
unfoldable pub escape_sequence : Text → ℕ
escape_sequence [] = 0
escape_sequence (c ∷ s) =
    let intermediates = run_length is_intermediate s in
    if nat_eq c esc && starts_in is_escape_final (drop intermediates s)
    then intermediates + 2
    else 0

-- `[\x00-\x08\x0B\x0C\x0E-\x1F\x7F-\x9F]`
abbrev pub non_text_control : ℕ → Bool
non_text_control c =
    leb c 8
    || nat_eq c 0xb
    || nat_eq c 0xc
    || (leb 0xe c && leb c 0x1f)
    || (leb 0x7f c && leb c 0x9f)

-- `s.replace(expression, "")` for a global expression: a match is skipped, and what is no match is
-- kept. The second argument counts the units of a match still to skip.
unfoldable pub replace_all : (Text → ℕ) → ℕ → Text → Text
replace_all expression skip [] = []
replace_all expression (suc skip) (c ∷ s) = replace_all expression skip s
replace_all expression zero (c ∷ s) = elim (expression (c ∷ s)) [
  | zero ↦ c ∷ replace_all expression zero s
  | suc rest ↦ replace_all expression rest s
]

unfoldable pub strip_terminal_control_sequences : Text → Text
unfolding replace_all operating_system_command control_sequence escape_sequence
strip_terminal_control_sequences output =
    filter (λ c. not (non_text_control c))
      (replace_all escape_sequence 0
        (replace_all control_sequence 0 (replace_all operating_system_command 0 output)))
