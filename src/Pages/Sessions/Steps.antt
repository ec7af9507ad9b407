-- ===== src/Pages/Sessions/Steps.antt =====
-- The handlers of the sidebar with their requests, as steps of a world
-- (web/src/pages/sandbox/terminal/SessionSidebar.tsx).
use ephemeral_sandbox_consol.Base.{
  ◌≡◌, true, false, Option, none, some, List, [], ◌∷◌, ◌++◌, if◌then◌else◌, Text,
}
use ephemeral_sandbox_consol.Base.Json.{Json}
use ephemeral_sandbox_consol.Api.Observability.{NetworkProfile, WorkspaceSnapshot}
use ephemeral_sandbox_consol.Pages.Sessions.Problems.{Thrown}
use ephemeral_sandbox_consol.Pages.Sessions.{
  Action, Sidebar, new_sidebar, may_create, may_publish, may_destroy, close_successful_session,
  publish_failed, destroy_failed, workspaces_seen,
}

-- A call of a handler that is not over: its request, or what it awaits after the answer, which is
-- nothing for a publish that failed in another way.
pub data Call : Type 0 where
  create_call : NetworkProfile → Call
  publish_call : Text → Call
  destroy_call : Text → Call
  publish_refresh : Text → Call
  destroy_refresh : Text → Call

pub record World : Type 0 where
  pub sidebar : Sidebar
  pub workspaces : List WorkspaceSnapshot
  pub calls : List Call

abbrev pub start : World
start = record { sidebar = new_sidebar; workspaces = []; calls = [] }

abbrev pub begin_create : Sidebar → Sidebar
begin_create s = record s { create_busy = true }

abbrev pub begin_publish : Text → Sidebar → Sidebar
begin_publish id s = record s {
  busy_session_id = some id;
  busy_action = some Action.publish;
  discard_confirm_id = none;
  action_problem = none;
}

abbrev pub begin_destroy : Text → Sidebar → Sidebar
begin_destroy id s = record s {
  busy_session_id = some id;
  busy_action = some Action.discard;
  action_problem = none;
}

-- `createSession` up to its request
unfoldable pub create_session : NetworkProfile → World → World
unfolding may_create
create_session profile w =
    if may_create w.sidebar
    then record w { sidebar = begin_create w.sidebar; calls = w.calls ++ create_call profile ∷ [] }
    else w

-- `publishSession` up to its request
unfoldable pub publish_session : Text → World → World
unfolding may_publish
publish_session id w =
    if may_publish w.sidebar w.workspaces id
    then record w { sidebar = begin_publish id w.sidebar; calls = w.calls ++ publish_call id ∷ [] }
    else w

-- `destroySession` up to its request
unfoldable pub destroy_session : Text → World → World
unfolding may_destroy
destroy_session id w =
    if may_destroy w.sidebar w.workspaces id
    then record w { sidebar = begin_destroy id w.sidebar; calls = w.calls ++ destroy_call id ∷ [] }
    else w

-- The `finally` of a publish or a destruction.
abbrev pub release : Sidebar → Sidebar
release s = record s { busy_action = none; busy_session_id = none }

-- The end of `createSession`, with the session that was created, if one was.
abbrev pub end_create : Option (Text × NetworkProfile) → Sidebar → Sidebar
end_create none s = record s { create_busy = false }
end_create (some created) s = record s { created_session = some created; create_busy = false }

-- A user, the network and the polls take these steps in any order. A call takes part in a step at
-- whatever place it has among the calls.
pub data Step : World → World → Type 0 where
  creates : (w : World) (profile : NetworkProfile) → Step w (create_session profile w)
  publishes : (w : World) (id : Text) → Step w (publish_session id w)
  destroys : (w : World) (id : Text) → Step w (destroy_session id w)
  ask_discard :
      (w : World) (id : Text)
      → Step w (record w {
        sidebar = record w.sidebar { action_problem = none; discard_confirm_id = some id };
      })
  cancel_discard :
      (w : World) → Step w (record w { sidebar = record w.sidebar { discard_confirm_id = none } })
  see :
      (w : World) (workspaces : List WorkspaceSnapshot)
      → Step w
          (record w { sidebar = workspaces_seen workspaces w.sidebar; workspaces = workspaces })
  created :
      (w : World) (earlier later : List Call) (profile : NetworkProfile)
      (session : Option (Text × NetworkProfile))
      → w.calls ≡ earlier ++ create_call profile ∷ later
      → Step w (record w { sidebar = end_create session w.sidebar; calls = earlier ++ later })
  published :
      (w : World) (earlier later : List Call) (id : Text)
      → w.calls ≡ earlier ++ publish_call id ∷ later
      → Step w (record w {
        sidebar = close_successful_session id w.sidebar;
        calls = earlier ++ publish_refresh id ∷ later;
      })
  publish_rejected :
      (w : World) (earlier later : List Call) (id : Text) (error : Thrown)
      → w.calls ≡ earlier ++ publish_call id ∷ later
      → Step w (record w {
        sidebar = publish_failed id error w.sidebar;
        calls = earlier ++ publish_refresh id ∷ later;
      })
  destroyed :
      (w : World) (earlier later : List Call) (id : Text)
      → w.calls ≡ earlier ++ destroy_call id ∷ later
      → Step w (record w {
        sidebar = close_successful_session id w.sidebar;
        calls = earlier ++ destroy_refresh id ∷ later;
      })
  destroy_rejected :
      (w : World) (earlier later : List Call) (id : Text) (message : Json)
      → w.calls ≡ earlier ++ destroy_call id ∷ later
      → Step w (record w {
        sidebar = release (destroy_failed id message w.sidebar);
        calls = earlier ++ later;
      })
  publish_refreshed :
      (w : World) (earlier later : List Call) (id : Text)
      → w.calls ≡ earlier ++ publish_refresh id ∷ later
      → Step w (record w { sidebar = release w.sidebar; calls = earlier ++ later })
  destroy_refreshed :
      (w : World) (earlier later : List Call) (id : Text)
      → w.calls ≡ earlier ++ destroy_refresh id ∷ later
      → Step w (record w { sidebar = release w.sidebar; calls = earlier ++ later })

pub data Reachable : World → Type 0 where
  begins : Reachable start
  steps : {w v : World} → Reachable w → Step w v → Reachable v
