-- ===== src/Tests/Entries.antt =====
-- The entries of a ledger as JSON values, in the order of their fields.
use ephemeral_sandbox_consol.Base.{
  ℕ, ◌≡◌, refl, ap, ap₂, ◌∙◌, Bool, true, false, Option, none, some, List, [], ◌∷◌, Text, ℤ, pos,
}
use ephemeral_sandbox_consol.Base.Json.{
  Json, Items, null, boolean, number, string, array, object, nil, item, end,
}
use ephemeral_sandbox_consol.Api.Types.{CommandStatus}
use ephemeral_sandbox_consol.Core.Ledger.{
  LedgerEntry, ParsedLedger, throws, entries, other, EntriesJson,
}
use ephemeral_sandbox_consol.Tests.Codec.{parse, print, parse-print, print-nonempty}

abbrev text_json : Option Text → Json
text_json none = null
text_json (some s) = string s

abbrev text_of : Json → Option Text
text_of (string s) = some s
text_of _ = none

text_of-text_json : (o : Option Text) → text_of (text_json o) ≡ o
text_of-text_json none = refl
text_of-text_json (some s) = refl

abbrev number_json : Option ℤ → Json
number_json none = null
number_json (some n) = number n

abbrev number_of : Json → Option ℤ
number_of (number n) = some n
number_of _ = none

number_of-number_json : (o : Option ℤ) → number_of (number_json o) ≡ o
number_of-number_json none = refl
number_of-number_json (some n) = refl

abbrev time_json : Option ℕ → Json
time_json none = null
time_json (some n) = number (pos n)

abbrev time_of : Json → Option ℕ
time_of (number (pos n)) = some n
time_of _ = none

time_of-time_json : (o : Option ℕ) → time_of (time_json o) ≡ o
time_of-time_json none = refl
time_of-time_json (some n) = refl

abbrev status_json : CommandStatus → Json
status_json CommandStatus.running = null
status_json CommandStatus.ok = boolean true
status_json CommandStatus.error = boolean false
status_json CommandStatus.timed_out = array nil
status_json CommandStatus.cancelled = object end

abbrev status_of : Json → CommandStatus
status_of null = CommandStatus.running
status_of (boolean true) = CommandStatus.ok
status_of (boolean false) = CommandStatus.error
status_of (array xs) = CommandStatus.timed_out
status_of _ = CommandStatus.cancelled

status_of-status_json : (s : CommandStatus) → status_of (status_json s) ≡ s
status_of-status_json CommandStatus.running = refl
status_of-status_json CommandStatus.ok = refl
status_of-status_json CommandStatus.error = refl
status_of-status_json CommandStatus.timed_out = refl
status_of-status_json CommandStatus.cancelled = refl

-- The fields that are never null, and those that may be, apart.
abbrev entry_of_fields :
    (Text × Text × Bool × ℕ × Bool)
    → Option Text
    → Option Text
    → CommandStatus
    → Option ℤ
    → Option ℕ
    → Option Text
    → Option Text
    → LedgerEntry
entry_of_fields (id, cmd, auto, at, rejected) command session status code stop output class =
    record {
      local_id = id;
      command_session_id = command;
      cmd = cmd;
      workspace_session_id = session;
      auto_publish = auto;
      started_at = at;
      status = status;
      exit_code = code;
      ended_at = stop;
      inline_output = output;
      publish_rejected = rejected;
      publish_reject_class = class;
    }

abbrev entry_json : LedgerEntry → Json
entry_json e = array (
    item (string e.local_id) (
      item (string e.cmd) (
        item (boolean e.auto_publish) (
          item (number (pos e.started_at)) (
            item (boolean e.publish_rejected) (
              item (text_json e.command_session_id) (
                item (text_json e.workspace_session_id) (
                  item (status_json e.status) (
                    item (number_json e.exit_code) (
                      item (time_json e.ended_at) (
                        item (text_json e.inline_output)
                          (item (text_json e.publish_reject_class) nil))))))))))))

abbrev entry_of : Json → Option LedgerEntry
entry_of
      (array (
        item (string id) (
          item (string cmd) (
            item (boolean auto) (
              item (number (pos at)) (
                item (boolean rejected) (
                  item command (
                    item session
                      (item status (item code (item stop (item output (item class nil))))))))))))) =
    some (
      entry_of_fields (id, cmd, auto, at, rejected) (text_of command) (text_of session)
        (status_of status) (number_of code) (time_of stop) (text_of output) (text_of class))
entry_of _ = none

entry_of-entry_json : (e : LedgerEntry) → entry_of (entry_json e) ≡ some e
entry_of-entry_json e =
    ap₂
      (λ c w. some (
        entry_of_fields given c w (status_of (status_json e.status))
          (number_of (number_json e.exit_code)) (time_of (time_json e.ended_at))
          (text_of (text_json e.inline_output)) (text_of (text_json e.publish_reject_class))))
      (text_of-text_json e.command_session_id) (text_of-text_json e.workspace_session_id)
    ∙ ap₂
        (λ s n. some (
          entry_of_fields given e.command_session_id e.workspace_session_id s n
            (time_of (time_json e.ended_at)) (text_of (text_json e.inline_output))
            (text_of (text_json e.publish_reject_class))))
        (status_of-status_json e.status) (number_of-number_json e.exit_code)
    ∙ ap₂
        (λ t o. some (
          entry_of_fields given e.command_session_id e.workspace_session_id e.status e.exit_code t o
            (text_of (text_json e.publish_reject_class))))
        (time_of-time_json e.ended_at) (text_of-text_json e.inline_output)
    ∙ ap
        (λ c. some (
          entry_of_fields given e.command_session_id e.workspace_session_id e.status e.exit_code
            e.ended_at e.inline_output c))
        (text_of-text_json e.publish_reject_class)
  where
    given : Text × Text × Bool × ℕ × Bool
    given = (e.local_id, e.cmd, e.auto_publish, e.started_at, e.publish_rejected)

abbrev items_json : List LedgerEntry → Items
items_json [] = nil
items_json (e ∷ es) = item (entry_json e) (items_json es)

abbrev add_entry : Option LedgerEntry → List LedgerEntry → List LedgerEntry
add_entry none es = es
add_entry (some e) es = e ∷ es

abbrev items_of : Items → List LedgerEntry
items_of nil = []
items_of (item x xs) = add_entry (entry_of x) (items_of xs)

pub items_of-items_json : (es : List LedgerEntry) → items_of (items_json es) ≡ es
items_of-items_json [] = refl
items_of-items_json (e ∷ es) = ap₂ add_entry (entry_of-entry_json e) (items_of-items_json es)

abbrev parsed_of : Option Json → ParsedLedger
parsed_of none = throws
parsed_of (some (array xs)) = entries (items_of xs)
parsed_of (some _) = other

abbrev pub entries_codec : EntriesJson
entries_codec = record {
  parse = λ t. parsed_of (parse t);
  stringify = λ es. print (array (items_json es));
  parse_stringify = λ es.
      ap parsed_of (parse-print (array (items_json es))) ∙ ap entries (items_of-items_json es);
  stringify_nonempty = λ es. print-nonempty (array (items_json es));
}
