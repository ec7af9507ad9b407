-- ===== src/Core/Ledger.antt =====
-- The command ledger, its storage, and the cache of transcripts
-- (web/src/pages/sandbox/terminal/ledger.ts). A new entry's random id and the time are arguments.
pub mod Laws
pub mod Output
pub mod Kept
use ephemeral_sandbox_consol.Base.{
  ℕ, zero, suc, ◌+◌, max, ◌≡◌, ◌≢◌, Bool, true, false, not, ◌&&◌, Option, none, some, List, [], ◌∷◌,
  ◌++◌, ltb, if◌then◌else◌, is_some, length, last_n, Text, codes, ℤ,
}
use ephemeral_sandbox_consol.Base.Keyed.{get, set}
use ephemeral_sandbox_consol.Base.Strings.{split}
use ephemeral_sandbox_consol.Api.Types.{CommandStatus, CommandOutput}
use ephemeral_sandbox_consol.Core.Controls.{strip_terminal_control_sequences}

pub record LedgerEntry : Type 0 where
  pub local_id : Text
  pub command_session_id : Option Text
  pub cmd : Text
  pub workspace_session_id : Option Text
  pub auto_publish : Bool
  pub started_at : ℕ
  pub status : CommandStatus
  pub exit_code : Option ℤ
  pub ended_at : Option ℕ
  pub inline_output : Option Text
  pub publish_rejected : Bool
  pub publish_reject_class : Option Text

-- `command || ...`: an empty command is none. 8212 is the dash of the text.
abbrev command_or_note : Text → Option Text → Text
command_or_note id (some (c ∷ s)) = c ∷ s
command_or_note id _ =
    codes "(running command " ++ (id ++ (32 ∷ 8212 ∷ codes " started outside this browser)"))

unfoldable pub entry_from_snapshot : Text → ℕ → Text → Text → Option Text → LedgerEntry
entry_from_snapshot uuid now command_session_id workspace_session_id command = record {
  local_id = uuid;
  command_session_id = some command_session_id;
  cmd = command_or_note command_session_id command;
  workspace_session_id = some workspace_session_id;
  auto_publish = false;
  started_at = now;
  status = CommandStatus.running;
  exit_code = none;
  ended_at = none;
  inline_output = none;
  publish_rejected = false;
  publish_reject_class = none;
}

-- `output.command_session_id ? null : strip(output.output)`: an empty id is none.
abbrev inline_of : Option Text → Text → Option Text
inline_of (some (c ∷ s)) output = none
inline_of _ output = some (strip_terminal_control_sequences output)

abbrev or_null : Option Text → Option Text → Option Text
or_null none fallback = fallback
or_null (some s) fallback = some s

-- `output.publish_rejected === true`
abbrev pub is_true : Option Bool → Bool
is_true none = false
is_true (some b) = b

abbrev is_running : CommandStatus → Bool
is_running CommandStatus.running = true
is_running _ = false

unfoldable pub entry_from_exec : Text → ℕ → Text → Option Text → CommandOutput → LedgerEntry
unfolding strip_terminal_control_sequences
entry_from_exec uuid now cmd workspace_session_id output = record {
  local_id = uuid;
  command_session_id = output.command_session_id;
  cmd = cmd;
  workspace_session_id = or_null output.workspace_session_id workspace_session_id;
  auto_publish = not (is_some workspace_session_id);
  started_at = now;
  status = output.status;
  exit_code = output.exit_code;
  ended_at = if is_running output.status then none else some now;
  inline_output = inline_of output.command_session_id output.output;
  publish_rejected = is_true output.publish_rejected;
  publish_reject_class = output.publish_reject_class;
}

abbrev pub ledger_cap : ℕ
ledger_cap = 200

-- What `JSON.parse` makes of a stored text: it throws, or gives an array, taken for entries, or
-- another value.
pub data ParsedLedger : Type 0 where
  throws : ParsedLedger
  entries : List LedgerEntry → ParsedLedger
  other : ParsedLedger

-- `JSON` on entries: `parse` reads what `stringify` writes.
pub record EntriesJson : Type 0 where
  pub parse : Text → ParsedLedger
  pub stringify : List LedgerEntry → Text
  pub parse_stringify : (es : List LedgerEntry) → parse (stringify es) ≡ entries es
  pub stringify_nonempty : (es : List LedgerEntry) → stringify es ≢ []

abbrev pub entries_of : ParsedLedger → List LedgerEntry
entries_of (entries es) = es
entries_of _ = []

abbrev pub storage_key : Text → Text
storage_key sandbox_id = codes "eos-console:ledger:" ++ sandbox_id

-- The entries of a stored text: none for no text or an empty one.
abbrev pub load_raw : EntriesJson → Option Text → List LedgerEntry
load_raw json none = []
load_raw json (some []) = []
load_raw json (some (c ∷ s)) = entries_of (json.parse (c ∷ s))

-- The browser's storage: what it holds by key, whether it can be read, and what it takes. `setItem`
-- throws, and changes nothing, where it would hold what it does not take.
pub record LocalStorage : Type 0 where
  pub items : List (Text × Text)
  pub readable : Bool
  pub takes : List (Text × Text) → Bool

unfoldable pub load_ledger : EntriesJson → LocalStorage → Text → List LedgerEntry
load_ledger json storage sandbox_id =
    if storage.readable then load_raw json (get (storage_key sandbox_id) storage.items) else []

-- `localStorage.setItem(key, text)` under a `catch` that does nothing.
abbrev pub set_item : Text → Text → LocalStorage → LocalStorage
set_item key text storage =
    let items = set key text storage.items in
    if storage.takes items then record storage { items = items } else storage

unfoldable pub save_ledger : EntriesJson → LocalStorage → Text → List LedgerEntry → LocalStorage
save_ledger json storage sandbox_id es =
    set_item (storage_key sandbox_id) (json.stringify (last_n ledger_cap es)) storage

-- A line that was never written is `none`, a hole of the array.
pub record TranscriptState : Type 0 where
  pub lines : List (Option Text)
  pub fetched_to : ℕ
  pub total_lines : ℕ
  pub status : CommandStatus
  pub exit_code : Option ℤ
  pub publish_rejected : Bool
  pub publish_reject_class : Option Text
  pub error : Option Text
  pub tail_pinned : Bool

abbrev pub new_transcript : TranscriptState
new_transcript = record {
  lines = [];
  fetched_to = 0;
  total_lines = 0;
  status = CommandStatus.running;
  exit_code = none;
  publish_rejected = false;
  publish_reject_class = none;
  error = none;
  tail_pinned = true;
}

-- The state found under a key, or a new one, and the cache after it.
abbrev pub found_or_new :
    Text
    → Option TranscriptState
    → List (Text × TranscriptState)
    → TranscriptState × List (Text × TranscriptState)
found_or_new key (some state) transcripts = (state, transcripts)
found_or_new key none transcripts = (new_transcript, set key new_transcript transcripts)

-- `JSON.stringify` on the pair of the sandbox and the command is an argument.
unfoldable pub transcript_for :
    (Text → Text → Text)
    → Text
    → Text
    → List (Text × TranscriptState)
    → TranscriptState × List (Text × TranscriptState)
transcript_for stringify command_session_id sandbox_id transcripts =
    let key = stringify sandbox_id command_session_id in
    found_or_new key (get key transcripts) transcripts

-- `lines[n] = text`, which leaves holes where it writes past the end.
abbrev pub write_at : ℕ → Text → List (Option Text) → List (Option Text)
write_at zero text [] = some text ∷ []
write_at zero text (x ∷ xs) = some text ∷ xs
write_at (suc n) text [] = none ∷ write_at n text []
write_at (suc n) text (x ∷ xs) = x ∷ write_at n text xs

-- The loop over the incoming lines.
abbrev pub write_lines : ℕ → List Text → List (Option Text) → List (Option Text)
write_lines start [] lines = lines
write_lines start (text ∷ texts) lines = write_lines (start + 1) texts (write_at start text lines)

-- The part under `output.end_offset > output.start_offset && output.output.length > 0`.
unfoldable pub absorb_lines : CommandOutput → TranscriptState → TranscriptState
unfolding strip_terminal_control_sequences
absorb_lines output state =
    if ltb output.start_offset output.end_offset && ltb 0 (length output.output)
    then record state {
      lines =
          write_lines output.start_offset
            (split 10 (strip_terminal_control_sequences output.output)) state.lines;
      fetched_to = max state.fetched_to output.end_offset;
    }
    else state

-- The part under `output.publish_rejected === true`.
abbrev absorb_rejection : CommandOutput → TranscriptState → TranscriptState
absorb_rejection output state =
    if is_true output.publish_rejected
    then record state {
      publish_rejected = true;
      publish_reject_class = output.publish_reject_class;
    }
    else state

unfoldable pub absorb_output : TranscriptState → CommandOutput → TranscriptState
unfolding absorb_lines
absorb_output state output = absorb_rejection output (record (absorb_lines output state) {
  total_lines = output.total_lines;
  status = output.status;
  exit_code = output.exit_code;
})
