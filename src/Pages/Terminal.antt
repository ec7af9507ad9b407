-- ===== src/Pages/Terminal.antt =====
-- The terminal tab (web/src/pages/sandbox/terminal/TerminalTab.tsx): the mode, the commands in
-- flight, and what becomes of the ledger. New ids and the time are arguments.
pub mod Maps
pub mod Added
pub mod Shown
pub mod Laws
pub mod Finalize
use ephemeral_sandbox_consol.Base.{
  ℕ, ◌+◌, Bool, true, false, not, ◌&&◌, ◌||◌, Option, none, some, List, [], ◌∷◌, ◌++◌, map,
  if◌then◌else◌, is_some, filter, any, Text, ◌==◌,
}
use ephemeral_sandbox_consol.Base.Keyed.{get, set, has}
use ephemeral_sandbox_consol.Api.Types.{CommandStatus, CommandOutput}
use ephemeral_sandbox_consol.Api.Observability.{ActiveExecution, WorkspaceSnapshot}
use ephemeral_sandbox_consol.Core.Ledger.{LedgerEntry, entry_from_snapshot, is_true}

pub data TerminalMode : Type 0 where
  quick all_commands session : TerminalMode

abbrev has_workspace : Text → List WorkspaceSnapshot → Bool
has_workspace id workspaces = any (λ (w : WorkspaceSnapshot). w.workspace_id == id) workspaces

-- The snapshot's workspaces, `none` while there is no snapshot of the sandbox.
unfoldable pub selected_session_missing :
    Option Text → Option (List WorkspaceSnapshot) → List Text → Bool
selected_session_missing none workspaces optimistic = false
selected_session_missing (some requested) none optimistic = false
selected_session_missing (some requested) (some workspaces) optimistic =
    not (has_workspace requested workspaces) && not (has requested optimistic)

-- `selectedSession ? "session" : ...`: an empty id is no session.
abbrev mode_of : Option Text → Bool → TerminalMode
mode_of (some (c ∷ s)) view_all = TerminalMode.session
mode_of _ true = TerminalMode.all_commands
mode_of _ false = TerminalMode.quick

unfoldable pub mode : Bool → Option Text → Bool → TerminalMode
mode missing requested view_all = if missing then TerminalMode.quick else mode_of requested view_all

-- The optimistic sessions that no snapshot has shown yet.
unfoldable pub still_optimistic : List WorkspaceSnapshot → List Text → List Text
still_optimistic workspaces optimistic = filter (λ id. not (has_workspace id workspaces)) optimistic

pub record InFlight : Type 0 where
  pub workspace_id : Text
  pub command : Option Text

abbrev pub add_executions :
    Text → List ActiveExecution → List (Text × InFlight) → List (Text × InFlight)
add_executions workspace [] map_ = map_
add_executions workspace (x ∷ xs) map_ =
    let found : InFlight = record { workspace_id = workspace; command = x.command } in
    add_executions workspace xs (set x.namespace_execution_id found map_)

abbrev pub add_workspaces : List WorkspaceSnapshot → List (Text × InFlight) → List (Text × InFlight)
add_workspaces [] map_ = map_
add_workspaces (w ∷ ws) map_ =
    add_workspaces ws (add_executions w.workspace_id w.active_namespace_executions map_)

unfoldable pub in_flight : List WorkspaceSnapshot → List (Text × InFlight)
in_flight workspaces = add_workspaces workspaces []

-- `!execution?.command || execution.command === entry.cmd`: no command, an empty one, or the same.
abbrev pub differing : Text → Option Text → Option Text
differing cmd (some (c ∷ s)) = if (c ∷ s) == cmd then none else some (c ∷ s)
differing cmd _ = none

abbrev pub command_of : Option InFlight → Option Text
command_of none = none
command_of (some execution) = execution.command

abbrev pub command_for : List (Text × InFlight) → Text → Option Text → Option Text
command_for map_ cmd (some (c ∷ s)) = differing cmd (command_of (get (c ∷ s) map_))
command_for map_ cmd _ = none

-- The command that an entry takes from its execution, if it is another one.
abbrev pub new_command : List (Text × InFlight) → LedgerEntry → Option Text
new_command map_ entry = command_for map_ entry.cmd entry.command_session_id

abbrev pub with_command : Option Text → LedgerEntry → LedgerEntry
with_command none entry = entry
with_command (some command) entry = record entry { cmd = command }

abbrev pub id_and : Option Text → List Text → List Text
id_and none ids = ids
id_and (some id) ids = id ∷ ids

abbrev pub known_ids : List LedgerEntry → List Text
known_ids [] = []
known_ids (e ∷ es) = id_and e.command_session_id (known_ids es)

-- The executions that the ledger does not know; `fresh` gives the ids of the new entries.
abbrev pub additions : (ℕ → Text) → ℕ → List Text → ℕ → List (Text × InFlight) → List LedgerEntry
additions fresh now known n [] = []
additions fresh now known n ((id, execution) ∷ map_) =
    let skipped = additions fresh now known n map_ in
    let later = additions fresh now known (n + 1) map_ in
    if has id known
    then skipped
    else entry_from_snapshot (fresh n) now id execution.workspace_id execution.command ∷ later

abbrev pub is_empty : List LedgerEntry → Bool
is_empty [] = true
is_empty (e ∷ es) = false

unfoldable pub reconcile :
    (ℕ → Text) → ℕ → List (Text × InFlight) → List LedgerEntry → List LedgerEntry
unfolding entry_from_snapshot
reconcile fresh now map_ current =
    let reconciled = map (λ entry. with_command (new_command map_ entry) entry) current in
    let added = additions fresh now (known_ids reconciled) 0 map_ in
    if not (is_empty added) || any (λ entry. is_some (new_command map_ entry)) current
    then reconciled ++ added
    else current

abbrev pub is_running : CommandStatus → Bool
is_running CommandStatus.running = true
is_running _ = false

-- `!id || inFlight.has(id) || finalizing.has(id)`, negated
abbrev pub ended_unread : List (Text × InFlight) → List Text → Option Text → Bool
ended_unread map_ finalizing (some (c ∷ s)) =
    not (is_some (get (c ∷ s) map_)) && not (has (c ∷ s) finalizing)
ended_unread map_ finalizing _ = false

abbrev pub add_id : Option Text → List Text → List Text
add_id none ids = ids
add_id (some id) ids = ids ++ id ∷ []

-- The entries whose output is asked for, once for each id, and the set `finalizing` after that.
unfoldable pub finalize :
    List (Text × InFlight) → List Text → List LedgerEntry → List LedgerEntry × List Text
finalize map_ finalizing [] = ([], finalizing)
finalize map_ finalizing (e ∷ es) =
    let skipped = finalize map_ finalizing es in
    let later = finalize map_ (add_id e.command_session_id finalizing) es in
    if is_running e.status && ended_unread map_ finalizing e.command_session_id
    then (e ∷ later.0, later.1)
    else skipped

abbrev patched : ℕ → CommandOutput → LedgerEntry → LedgerEntry
patched now output entry = record entry {
  status = output.status;
  exit_code = output.exit_code;
  ended_at = some now;
  publish_rejected = is_true output.publish_rejected;
  publish_reject_class = output.publish_reject_class;
}

-- `patchEntry` on the answer for an entry, if the command is not running.
unfoldable pub settle_entry : ℕ → Text → CommandOutput → List LedgerEntry → List LedgerEntry
settle_entry now local_id output current =
    if is_running output.status
    then current
    else map (λ (e : LedgerEntry). if e.local_id == local_id then patched now output e else e)
        current

abbrev same_session : Option Text → Option Text → Bool
same_session none none = true
same_session (some a) (some b) = a == b
same_session _ _ = false

unfoldable pub visible_ledger : TerminalMode → Option Text → List LedgerEntry → List LedgerEntry
visible_ledger TerminalMode.session selected ledger =
    filter (λ (e : LedgerEntry). same_session e.workspace_session_id selected) ledger
visible_ledger TerminalMode.quick selected ledger =
    filter (λ (e : LedgerEntry). e.auto_publish) ledger
visible_ledger TerminalMode.all_commands selected ledger = ledger
