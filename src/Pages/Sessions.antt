-- ===== src/Pages/Sessions.antt =====
-- The sidebar of the workspace sessions (web/src/pages/sandbox/terminal/SessionSidebar.tsx): its
-- state, its handlers, and the requests they have under way. A handler sees the state of the last
-- render, which here is the current one; toasts and notifications are left out.
pub mod Problems
pub mod Steps
pub mod Exclusive
use ephemeral_sandbox_consol.Base.{
  Bool, true, false, not, ◌&&◌, ◌||◌, Option, none, some, List, [], ◌∷◌, ◌++◌, nat_eq,
  if◌then◌else◌, is_some, length, filter, any, find, Text, codes, ◌==◌,
}
use ephemeral_sandbox_consol.Base.Keyed.{has}
use ephemeral_sandbox_consol.Base.Json.{Json, string}
use ephemeral_sandbox_consol.Api.Observability.{
  FinalizationState, NetworkProfile, WorkspaceSnapshot,
}
use ephemeral_sandbox_consol.Pages.Sessions.Problems.{
  Thrown, Problem, failed, cleanup, close_problem,
}

pub data Action : Type 0 where
  publish discard : Action

pub record Sidebar : Type 0 where
  pub created_session : Option (Text × NetworkProfile)
  pub create_busy : Bool
  pub busy_session_id : Option Text
  pub busy_action : Option Action
  pub discard_confirm_id : Option Text
  pub action_problem : Option (Text × Problem)
  pub closed_session_ids : List Text
  pub cleanup_required_ids : List Text

abbrev pub new_sidebar : Sidebar
new_sidebar = record {
  created_session = none;
  create_busy = false;
  busy_session_id = none;
  busy_action = none;
  discard_confirm_id = none;
  action_problem = none;
  closed_session_ids = [];
  cleanup_required_ids = [];
}

-- `new Set(current).add(id)`
abbrev pub add_to : Text → List Text → List Text
add_to id ids = if has id ids then ids else ids ++ id ∷ []

abbrev pub remove_from : Text → List Text → List Text
remove_from id ids = filter (λ i. not (i == id)) ids

abbrev pub is_live : List WorkspaceSnapshot → Text → Bool
is_live workspaces id = any (λ (w : WorkspaceSnapshot). w.workspace_id == id) workspaces

abbrev pub is_active : FinalizationState → Bool
is_active FinalizationState.active = true
is_active _ = false

abbrev pub has_failed : FinalizationState → Bool
has_failed FinalizationState.finalize_failed = true
has_failed _ = false

abbrev pub is_idle : WorkspaceSnapshot → Bool
is_idle w = nat_eq (length w.active_namespace_executions) 0

abbrev pub target_of : Text → List WorkspaceSnapshot → Option WorkspaceSnapshot
target_of id workspaces = find (λ (w : WorkspaceSnapshot). w.workspace_id == id) workspaces

-- `createBusy || busyAction !== null`
abbrev pub is_busy : Sidebar → Bool
is_busy s = s.create_busy || is_some s.busy_action

abbrev target_failed : Option WorkspaceSnapshot → Bool
target_failed none = false
target_failed (some w) = has_failed w.finalization_state

abbrev pub needs_cleanup_first : Sidebar → List WorkspaceSnapshot → Text → Bool
needs_cleanup_first s workspaces id =
    has id s.cleanup_required_ids || target_failed (target_of id workspaces)

abbrev can_publish_target : Option WorkspaceSnapshot → Bool
can_publish_target none = false
can_publish_target (some w) = is_active w.finalization_state && is_idle w

abbrev can_destroy_target : Bool → Option WorkspaceSnapshot → Bool
can_destroy_target cleaning none = false
can_destroy_target cleaning (some w) = (cleaning || is_active w.finalization_state) && is_idle w

-- The guards of the three handlers, as what lets them go on.
unfoldable pub may_create : Sidebar → Bool
may_create s = not (is_busy s)

unfoldable pub may_publish : Sidebar → List WorkspaceSnapshot → Text → Bool
may_publish s workspaces id = can_publish_target (target_of id workspaces) && not (is_busy s)

unfoldable pub may_destroy : Sidebar → List WorkspaceSnapshot → Text → Bool
may_destroy s workspaces id =
    can_destroy_target (needs_cleanup_first s workspaces id) (target_of id workspaces)
    && not (is_busy s)

abbrev problem_left : Text → Option (Text × Problem) → Option (Text × Problem)
problem_left id none = none
problem_left id (some (of, problem)) = if of == id then none else some (of, problem)

-- `closeSuccessfulSession`, but for the selection of another view.
unfoldable pub close_successful_session : Text → Sidebar → Sidebar
close_successful_session id s = record s {
  closed_session_ids = add_to id s.closed_session_ids;
  cleanup_required_ids = remove_from id s.cleanup_required_ids;
  discard_confirm_id = none;
  action_problem = problem_left id s.action_problem;
}

-- The catch block of a publish.
abbrev publish_problem : Text → Problem → Sidebar → Sidebar
publish_problem id (cleanup published) s = record s {
  action_problem = some (id, cleanup published);
  cleanup_required_ids = add_to id s.cleanup_required_ids;
}
publish_problem id problem s = record s { action_problem = some (id, problem) }

unfoldable pub publish_failed : Text → Thrown → Sidebar → Sidebar
unfolding close_problem
publish_failed id error s = publish_problem id (close_problem error) s

-- The catch block of a destruction; `message` is the error's.
unfoldable pub destroy_failed : Text → Json → Sidebar → Sidebar
destroy_failed id message s = record s {
  action_problem = some (id, failed (string (codes "Session could not be closed")) message);
}

abbrev cleared : List WorkspaceSnapshot → Option Text → Option Text
cleared workspaces (some (c ∷ id)) = if is_live workspaces (c ∷ id) then some (c ∷ id) else none
cleared workspaces confirming = confirming

abbrev created_left :
    List WorkspaceSnapshot → Option (Text × NetworkProfile) → Option (Text × NetworkProfile)
created_left workspaces none = none
created_left workspaces (some (id, profile)) =
    if is_live workspaces id then none else some (id, profile)

abbrev live_problem : List WorkspaceSnapshot → Option (Text × Problem) → Option (Text × Problem)
live_problem workspaces none = none
live_problem workspaces (some (id, problem)) =
    if is_live workspaces id then some (id, problem) else none

abbrev pub failed_ids : List WorkspaceSnapshot → List Text → List Text
failed_ids [] ids = ids
failed_ids (w ∷ ws) ids =
    failed_ids ws (if has_failed w.finalization_state then add_to w.workspace_id ids else ids)

-- The three effects that follow a new list of workspaces.
unfoldable pub workspaces_seen : List WorkspaceSnapshot → Sidebar → Sidebar
workspaces_seen workspaces s = record s {
  created_session = created_left workspaces s.created_session;
  cleanup_required_ids = failed_ids workspaces s.cleanup_required_ids;
  discard_confirm_id = cleared workspaces s.discard_confirm_id;
  action_problem = live_problem workspaces s.action_problem;
}
