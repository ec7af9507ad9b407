-- ===== src/Poll/Topology.antt =====
-- The query of a sandbox's process topology (web/src/poll/useProcessTopology.ts): the hook's state, and
-- the events that change it or ask for a request. The query library decides when to ask.
pub mod Laws
use ephemeral_sandbox_consol.Base.{
  ℕ, suc, Bool, true, false, not, ◌&&◌, ◌||◌, Option, none, some, List, [], ◌∷◌, ltb, if◌then◌else◌,
  or_else, any, Text, ◌==◌,
}
use ephemeral_sandbox_consol.Api.Types.{SandboxRecord}
use ephemeral_sandbox_consol.Api.Topology.{
  WorkspaceState, WorkspaceProcesses, WorkspaceProcessTopology,
}
use ephemeral_sandbox_consol.Core.Status.{is_ready}
use ephemeral_sandbox_consol.Core.Activity.{Attempt, revision_moved}

abbrev is_active : WorkspaceState → Bool
is_active WorkspaceState.active = true
is_active _ = false

-- `null` and `undefined` are `none`.
unfoldable pub topology_has_activity : Option WorkspaceProcessTopology → Bool
topology_has_activity none = false
topology_has_activity (some topology) =
    topology.available && any (λ (w : WorkspaceProcesses). is_active w.state) topology.workspaces

unfoldable pub should_request_process_topology :
    Option SandboxRecord → Option WorkspaceProcessTopology → Attempt → Bool
unfolding topology_has_activity
should_request_process_topology none result last = false
should_request_process_topology (some r) none none = is_ready r.state
should_request_process_topology (some r) none (some last) =
    is_ready r.state && revision_moved r.activity_revision (some last)
should_request_process_topology (some r) (some topology) last =
    is_ready r.state
    && (topology_has_activity (some topology) || revision_moved r.activity_revision last)

-- What is remembered of the last request: its sandbox and the revision then.
pub record LastRequest : Type 0 where
  pub sandbox_id : Text
  pub revision : Option ℕ

-- The arguments of the hook with its own state: the visibility with the manager's floor, the last
-- request, and the result that the query library keeps.
pub record TopologyHook : Type 0 where
  pub sandbox_id : Text
  pub manager_record : Option SandboxRecord
  pub updated_at : Option ℕ
  pub visible : Bool
  pub floor : Option ℕ
  pub last_request : Option LastRequest
  pub received : Option WorkspaceProcessTopology

abbrev same_sandbox : Text → Option SandboxRecord → Bool
same_sandbox id none = false
same_sandbox id (some r) = r.id == id

abbrev pub attempt_of : Text → Option LastRequest → Attempt
attempt_of id none = none
attempt_of id (some last) = if last.sandbox_id == id then some last.revision else none

-- `managerCheckedSinceFocus`
abbrev pub manager_checked : Option ℕ → Option ℕ → Bool
manager_checked none updated_at = true
manager_checked (some floor) none = false
manager_checked (some floor) (some at) = ltb floor at

-- `enabled` of the query
unfoldable pub topology_enabled : TopologyHook → Bool
unfolding should_request_process_topology
topology_enabled h =
    h.visible
    && manager_checked h.floor h.updated_at
    && not (h.sandbox_id == [])
    && same_sandbox h.sandbox_id h.manager_record
    && should_request_process_topology h.manager_record h.received
        (attempt_of h.sandbox_id h.last_request)

-- `refetchInterval`, of 400 milliseconds or none
unfoldable pub topology_interval : TopologyHook → Option ℕ
unfolding topology_has_activity
topology_interval h =
    if h.visible && manager_checked h.floor h.updated_at && topology_has_activity h.received
    then some 400
    else none

abbrev is_ready_record : Option SandboxRecord → Bool
is_ready_record none = false
is_ready_record (some r) = is_ready r.state

unfoldable pub can_refresh : TopologyHook → Bool
can_refresh h =
    h.visible
    && manager_checked h.floor h.updated_at
    && same_sandbox h.sandbox_id h.manager_record
    && is_ready_record h.manager_record

abbrev pub revision_of : Option SandboxRecord → Option ℕ
revision_of none = none
revision_of (some r) = r.activity_revision

-- The query function: the attempt is recorded before the request, whose failure (`none`) leaves the
-- result as it is.
unfoldable pub request_topology : Option WorkspaceProcessTopology → TopologyHook → TopologyHook
request_topology none h = record h {
  last_request =
      some (record { sandbox_id = h.sandbox_id; revision = revision_of h.manager_record });
}
request_topology (some topology) h = record h {
  last_request =
      some (record { sandbox_id = h.sandbox_id; revision = revision_of h.manager_record });
  received = some topology;
}

-- The update of the visibility: the manager's time is taken when the page becomes visible.
unfoldable pub update_visibility : Bool → TopologyHook → TopologyHook
update_visibility true h =
    if h.visible then h else record h { visible = true; floor = some (or_else h.updated_at 0) }
update_visibility false h = record h { visible = false }

pub data TopologyEvent : Type 0 where
  visibility : Bool → TopologyEvent
  inspected : SandboxRecord → ℕ → TopologyEvent
  ask : Option WorkspaceProcessTopology → TopologyEvent

-- Whether an event makes a request.
abbrev pub makes_request : TopologyEvent → TopologyHook → Bool
makes_request (visibility b) h = false
makes_request (inspected r at) h = false
makes_request (ask response) h = topology_enabled h

unfoldable pub handle : TopologyEvent → TopologyHook → TopologyHook
unfolding topology_enabled request_topology update_visibility
handle (visibility b) h = update_visibility b h
handle (inspected r at) h = record h { manager_record = some r; updated_at = some at }
handle (ask response) h = if topology_enabled h then request_topology response h else h

-- The number of requests that a list of events makes.
unfoldable pub topology_requests : List TopologyEvent → TopologyHook → ℕ
unfolding handle
topology_requests [] h = 0
topology_requests (e ∷ es) h =
    let later = topology_requests es (handle e h) in if makes_request e h then suc later else later

-- `useState`'s first visibility.
unfoldable pub mount_topology : Text → Option SandboxRecord → Option ℕ → Bool → TopologyHook
mount_topology sandbox_id r updated_at visible = record {
  sandbox_id = sandbox_id;
  manager_record = r;
  updated_at = updated_at;
  visible = visible;
  floor = if visible then none else some (or_else updated_at 0);
  last_request = none;
  received = none;
}
