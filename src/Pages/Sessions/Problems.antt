-- ===== src/Pages/Sessions/Problems.antt =====
-- What a failed publish means (`closeProblem` of
-- web/src/pages/sandbox/terminal/SessionSidebar.tsx).
use ephemeral_sandbox_consol.Base.{
  Bool, false, ◌&&◌, ◌||◌, Option, none, some, List, [], ◌∷◌, if◌then◌else◌, is_some, Text, codes,
  ◌==◌,
}
use ephemeral_sandbox_consol.Base.Json.{
  Json, Items, null, boolean, string, array, object, nil, item, member,
}
use ephemeral_sandbox_consol.Api.Rpc.{RpcError}

-- What is thrown: an `RpcError`, or something with a text.
pub data Thrown : Type 0 where
  rpc_error : RpcError → Thrown
  other : Text → Thrown

pub record ProtectedDrop : Type 0 where
  pub path : Option Text
  pub reason : Text
  pub guidance : Text

pub record Retained : Type 0 where
  pub title : Text
  pub message : Text
  pub path : Option Text
  pub reason : Option Text
  pub protected_drop : Option ProtectedDrop
  pub active_command_session_ids : List Text
  pub conflict : Bool

pub data Problem : Type 0 where
  retained : Retained → Problem
  cleanup : Json → Problem
  failed : Json → Json → Problem

-- `isRecord(value) ? value : null`
abbrev pub record_of : Option Json → Option Json
record_of (some (object fs)) = some (object fs)
record_of _ = none

-- `value?.key`
abbrev pub at : Text → Option Json → Option Json
at key none = none
at key (some value) = member key value

-- `typeof value === "string" ? value : undefined`
abbrev pub string_of : Option Json → Option Text
string_of (some (string s)) = some s
string_of _ = none

abbrev pub is_string : Text → Option Json → Bool
is_string text (some (string s)) = s == text
is_string text _ = false

abbrev pub is_true : Option Json → Bool
is_true (some (boolean b)) = b
is_true _ = false

abbrev strings_in : Items → List Text
strings_in nil = []
strings_in (item (string s) items) = s ∷ strings_in items
strings_in (item _ items) = strings_in items

-- `Array.isArray(value) ? value.filter(...) : []`
abbrev pub strings_of : Option Json → List Text
strings_of (some (array items)) = strings_in items
strings_of _ = []

abbrev first_of : Option Text → Option Text → Option Text
first_of none later = later
first_of (some s) later = some s

unfoldable pub protected_drop_guidance : Text → Text
protected_drop_guidance reason =
    if reason == codes "unsupported_special_file"
    then codes "Remove or replace this unsupported special file before retrying."
    else if reason == codes "invalid_layer_path"
    then codes "Rename or remove this invalid LayerStack path before retrying."
    else if reason == codes "command_scratch_path"
    then codes "Move the change outside the command scratch path before retrying."
    else codes "Resolve this blocked change before retrying the publish."

-- The test for a publish that is done while the session could not be destroyed.
abbrev pub needs_cleanup : Option Json → Bool
needs_cleanup details =
    let publish = record_of (at (codes "publish") details) in
    is_string (codes "destroy") (at (codes "stage") details)
    && is_true (at (codes "publish_completed") details)
    && is_some (record_of (at (codes "revision") publish))
    && is_some (record_of (at (codes "route_summary") publish))

abbrev stop_first : List Text → Problem
stop_first ids =
    let problem : Retained = record {
      title = codes "Stop active commands first";
      message = codes "Publishing did not start. The complete session delta was retained.";
      path = none;
      reason = none;
      protected_drop = none;
      active_command_session_ids = ids;
      conflict = false;
    } in
    retained problem

abbrev drop_of : Option Text → Option Text → Option ProtectedDrop
drop_of path none = none
drop_of path (some []) = none
drop_of path (some (c ∷ s)) =
    let drop : ProtectedDrop = record {
      path = path;
      reason = c ∷ s;
      guidance = protected_drop_guidance (c ∷ s);
    } in
    some drop

abbrev is_conflict : Option Text → Bool
is_conflict none = false
is_conflict (some reason) = reason == codes "source_conflict"

abbrev rejected_problem : Option Json → Problem
rejected_problem rejection =
    let source_conflict = record_of (at (codes "source_conflict") rejection) in
    let protected_drop = record_of (at (codes "protected_drop") rejection) in
    let drop_path = string_of (at (codes "path") protected_drop) in
    let reason = string_of (at (codes "reason") rejection) in
    let problem : Retained = record {
      title =
          if is_conflict reason
          then codes "Publish conflict; session retained"
          else codes "Publish rejected; session retained";
      message =
          codes
            "No LayerStack changes were committed. The complete unpublished delta remains available in this session.";
      path =
          first_of (string_of (at (codes "path") rejection))
            (first_of (string_of (at (codes "path") source_conflict)) drop_path);
      reason = reason;
      protected_drop = drop_of drop_path (string_of (at (codes "reason") protected_drop));
      active_command_session_ids = [];
      conflict = is_conflict reason;
    } in
    retained problem

abbrev publish_of : Option Json → Json
publish_of none = null
publish_of (some publish) = publish

-- What is left when the publish is not done, with the ids of the active commands.
abbrev unpublished : Json → Json → Option Json → List Text → Problem
unpublished kind message details (id ∷ ids) = stop_first (id ∷ ids)
unpublished kind message details [] =
    let rejection = record_of (at (codes "publish_rejection") details) in
    if is_true (at (codes "session_retained") details) || is_some rejection
    then rejected_problem rejection
    else failed kind message

-- The details are a record here.
abbrev pub problem_of : Json → Json → Option Json → Problem
problem_of kind message details =
    if needs_cleanup details
    then cleanup (publish_of (at (codes "publish") details))
    else unpublished kind message details
        (strings_of (at (codes "active_command_session_ids") details))

abbrev rpc_problem : RpcError → Option Json → Problem
rpc_problem error none = failed (string (codes "Publish could not be completed")) error.message
rpc_problem error (some details) = problem_of error.kind error.message (some details)

unfoldable pub close_problem : Thrown → Problem
unfolding protected_drop_guidance
close_problem (other message) =
    failed (string (codes "Publish could not be completed")) (string message)
close_problem (rpc_error error) = rpc_problem error (record_of (some error.details))
