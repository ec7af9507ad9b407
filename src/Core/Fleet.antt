-- ===== src/Core/Fleet.antt =====
-- The fleet list, its filter and its figures (web/src/core/fleet.ts).
pub mod Order
pub mod Search
pub mod Activity
pub mod Counts
pub mod Cards
use ephemeral_sandbox_consol.Base.{
  ℕ, ◌+◌, Bool, true, false, ◌&&◌, ◌||◌, Option, none, some, List, [], ◌∷◌, map, ltb, nat_eq,
  if◌then◌else◌, or_else, is_some, length, filter, any, Text, codes, ◌==◌, ℤ, pos, negsuc, Ratio,
  sub_ℕ, at_most_zero,
}
use ephemeral_sandbox_consol.Base.Keyed.{get, set_all, has}
use ephemeral_sandbox_consol.Base.Sort.{sort}
use ephemeral_sandbox_consol.Base.Strings.{trim, includes}
use ephemeral_sandbox_consol.Api.Types.{SandboxState, SandboxRecord, SandboxList}
use ephemeral_sandbox_consol.Api.Observability.{SandboxSnapshot, SnapshotResult, in_flight_count}
use ephemeral_sandbox_consol.Core.Status.{
  SandboxDisplayState, SandboxStatusLabel, SandboxStatusPresentation, is_ready, sandbox_status,
}
use ephemeral_sandbox_consol.Core.Resources.{SandboxCurrentUsage, average_memory_bytes}

pub record FleetSummary : Type 0 where
  pub total : Option ℕ
  pub ready : Option ℕ
  pub active_commands : Option ℕ
  pub average_memory : Option Ratio

pub data PrimaryActionKind : Type 0 where
  opens inspect : PrimaryActionKind

-- The label of an action is the name of its kind.
pub record PrimaryAction : Type 0 where
  pub kind : PrimaryActionKind
  pub disabled : Bool

pub record SandboxCardViewModel : Type 0 where
  pub id : Text
  pub workspace_root : Text
  pub lifecycle_state : SandboxState
  pub display_state : SandboxDisplayState
  pub status : SandboxStatusPresentation
  pub cpu_percent : Option Ratio
  pub memory_bytes : Option ℕ
  pub sessions : Option ℕ
  pub active_commands : Option ℕ
  pub primary_action : Option PrimaryAction

abbrev entries_of : Option SnapshotResult → List SandboxSnapshot
entries_of none = []
entries_of (some snapshot) = snapshot.sandboxes

unfoldable pub snapshots_by_sandbox : Option SnapshotResult → List (Text × SandboxSnapshot)
snapshots_by_sandbox snapshot =
    set_all [] (map (λ entry. (entry.sandbox_id, entry)) (entries_of snapshot))

unfoldable pub current_fleet_list :
    Option SandboxList → Option SandboxList → Bool → Option SandboxList
current_fleet_list slow none lifecycle_active = slow
current_fleet_list slow (some fast) lifecycle_active = if lifecycle_active then some fast else slow

-- `new Map(ids.map((id, index) => [id, index]))`, with the indices from `index` on.
positions_from : ℕ → List Text → List (Text × ℕ)
positions_from index [] = []
positions_from index (id ∷ ids) = (id, index) ∷ positions_from (index + 1) ids

pub positions : List Text → List (Text × ℕ)
unfolding positions_from
positions ids = set_all [] (positions_from 0 ids)

-- The comparator of `stabilizeFleetList`, over the positions of both records before and now.
compare_positions : Option ℕ → Option ℕ → ℕ → ℕ → ℤ
compare_positions (some left) (some right) i j = sub_ℕ left right
compare_positions (some left) none i j = negsuc 0
compare_positions none (some right) i j = pos 1
compare_positions none none i j = sub_ℕ i j

abbrev pub ids_of : List SandboxRecord → List Text
ids_of = map (λ r. r.id)

pub goes_first : List (Text × ℕ) → List (Text × ℕ) → SandboxRecord → SandboxRecord → Bool
unfolding compare_positions
goes_first previous incoming left right = at_most_zero (
    compare_positions (get left.id previous) (get right.id previous)
      (or_else (get left.id incoming) 0) (or_else (get right.id incoming) 0))

unfoldable pub stabilize_fleet_list : Option SandboxList → List Text → Option SandboxList
unfolding positions goes_first sort
stabilize_fleet_list none previous_order = none
stabilize_fleet_list (some list) [] = some list
stabilize_fleet_list (some list) (id ∷ ids) = some (record list {
  sandboxes =
      sort (goes_first (positions (id ∷ ids)) (positions (ids_of list.sandboxes))) list.sandboxes;
})

abbrev is_changing : SandboxState → Bool
is_changing SandboxState.creating = true
is_changing SandboxState.stopping = true
is_changing _ = false

abbrev pub records_of : Option SandboxList → List SandboxRecord
records_of none = []
records_of (some list) = list.sandboxes

abbrev pub ready_records : List SandboxRecord → List SandboxRecord
ready_records = filter (λ r. is_ready r.state)

unfoldable pub has_fleet_activity :
    Option SandboxList → Option SnapshotResult → Option (List Text) → Bool
has_fleet_activity list snapshot create_logs =
    is_some create_logs
    || any (λ r. is_changing r.state) (records_of list)
    || any
        (λ entry.
          has entry.sandbox_id (ids_of (ready_records (records_of list)))
          && ltb 0 (in_flight_count entry))
        (entries_of snapshot)

unfoldable pub active_commands_for_record : SandboxRecord → Option SandboxSnapshot → Option ℕ
active_commands_for_record r none = none
active_commands_for_record r (some snapshot) =
    if is_ready r.state && (snapshot.sandbox_id == r.id)
    then some (in_flight_count snapshot)
    else none

-- The string of a state, and of a label.
abbrev pub state_text : SandboxState → Text
state_text SandboxState.creating = codes "creating"
state_text SandboxState.ready = codes "ready"
state_text SandboxState.stopping = codes "stopping"
state_text SandboxState.stopped = codes "stopped"
state_text SandboxState.failed = codes "failed"

abbrev pub display_text : SandboxDisplayState → Text
display_text (SandboxDisplayState.lifecycle s) = state_text s
display_text SandboxDisplayState.active = codes "active"

abbrev pub label_text : SandboxStatusLabel → Text
label_text SandboxStatusLabel.active = codes "Active"
label_text SandboxStatusLabel.ready = codes "Ready"
label_text SandboxStatusLabel.creating = codes "Creating"
label_text SandboxStatusLabel.stopping = codes "Stopping"
label_text SandboxStatusLabel.stopped = codes "Stopped"
label_text SandboxStatusLabel.failed = codes "Failed"

-- The fields that the search reads.
pub fields_of : SandboxRecord → Option SandboxSnapshot → List Text
unfolding sandbox_status active_commands_for_record
fields_of r snapshot =
    let status = sandbox_status r.state (active_commands_for_record r snapshot) in
    r.id
    ∷ r.workspace_root
    ∷ state_text r.state
    ∷ display_text status.state
    ∷ label_text status.label
    ∷ []

-- `toLowerCase` follows the tables of Unicode, and is a parameter.
module _ (lower : Text → Text) where
  unfoldable pub fleet_record_matches : SandboxRecord → Text → Option SandboxSnapshot → Bool
  unfolding fields_of trim
  fleet_record_matches r query snapshot =
      let needle = lower (trim query) in
      if needle == []
      then true
      else any (λ value. includes needle (lower value)) (fields_of r snapshot)

  unfoldable pub filter_fleet_records :
      List SandboxRecord → Text → Option SnapshotResult → List SandboxRecord
  unfolding fleet_record_matches trim snapshots_by_sandbox
  filter_fleet_records records query snapshot =
      if trim query == []
      then records
      else filter (λ r. fleet_record_matches r query (get r.id (snapshots_by_sandbox snapshot)))
          records

-- The loop of `activeCommandTotal`: a ready record without an entry makes the total unknown.
total_from : List (Text × SandboxSnapshot) → ℕ → List SandboxRecord → Option ℕ
total_from snapshots total [] = some total
total_from snapshots total (r ∷ rs) = elim (get r.id snapshots) [
  | none ↦ none
  | some entry ↦ total_from snapshots (total + in_flight_count entry) rs
]

unfoldable pub active_command_total : Option SandboxList → Option SnapshotResult → Option ℕ
unfolding total_from
active_command_total none snapshot = none
active_command_total (some list) none =
    if nat_eq (length (ready_records list.sandboxes)) 0 then some 0 else none
active_command_total (some list) (some snapshot) =
    if nat_eq (length (ready_records list.sandboxes)) 0
    then some 0
    else total_from (snapshots_by_sandbox (some snapshot)) 0 (ready_records list.sandboxes)

unfoldable pub dashboard_summary :
    Option SandboxList → Option SnapshotResult → List (Text × SandboxCurrentUsage) → FleetSummary
dashboard_summary none snapshot usage = record {
  total = none;
  ready = none;
  active_commands = none;
  average_memory = none;
}
dashboard_summary (some list) snapshot usage = record {
  total = some (length list.sandboxes);
  ready = some (length (ready_records list.sandboxes));
  active_commands = active_command_total (some list) snapshot;
  average_memory = average_memory_bytes list.sandboxes usage;
}

primary_action_for : SandboxState → Option PrimaryAction
primary_action_for SandboxState.ready = some (record { kind = opens; disabled = false })
primary_action_for SandboxState.stopping = some (record { kind = opens; disabled = true })
primary_action_for SandboxState.stopped = some (record { kind = inspect; disabled = false })
primary_action_for SandboxState.failed = some (record { kind = inspect; disabled = false })
primary_action_for SandboxState.creating = none

-- `usage?.cpuPercent ?? null` and `usage?.memoryBytes ?? null`
abbrev usage_cpu : Option SandboxCurrentUsage → Option Ratio
usage_cpu none = none
usage_cpu (some usage) = usage.cpu_percent

abbrev usage_memory : Option SandboxCurrentUsage → Option ℕ
usage_memory none = none
usage_memory (some usage) = usage.memory_bytes

sessions_of : SandboxRecord → Option SandboxSnapshot → Option ℕ
sessions_of r none = none
sessions_of r (some snapshot) =
    if is_ready r.state && (snapshot.sandbox_id == r.id)
    then some (length snapshot.workspaces)
    else none

unfoldable pub sandbox_card_view_model :
    SandboxRecord → Option SandboxSnapshot → Option SandboxCurrentUsage → SandboxCardViewModel
unfolding primary_action_for sessions_of active_commands_for_record sandbox_status
sandbox_card_view_model r snapshot usage =
    let active_commands = active_commands_for_record r snapshot in
    let status = sandbox_status r.state active_commands in
    record {
      id = r.id;
      workspace_root = r.workspace_root;
      lifecycle_state = r.state;
      display_state = status.state;
      status = status;
      cpu_percent = if is_ready r.state then usage_cpu usage else none;
      memory_bytes = if is_ready r.state then usage_memory usage else none;
      sessions = sessions_of r snapshot;
      active_commands = active_commands;
      primary_action = primary_action_for r.state;
    }
