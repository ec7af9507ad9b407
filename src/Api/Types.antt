-- ===== src/Api/Types.antt =====
-- The records of the manager and of the runtime (web/src/api/types.ts).
use ephemeral_sandbox_consol.Base.{ℕ, Bool, Option, List, Text, ℤ, Ratio}

pub data SandboxState : Type 0 where
  creating ready stopping stopped failed : SandboxState

pub record Endpoint : Type 0 where
  pub host : Text
  pub port : ℕ

pub record SharedBase : Type 0 where
  pub source : Text
  pub target : Text
  pub root_hash : Text
  pub readonly : Bool

-- `activity_revision` is absent only while connected to a pre-revision manager.
pub record SandboxRecord : Type 0 where
  pub id : Text
  pub workspace_root : Text
  pub state : SandboxState
  pub daemon : Option Endpoint
  pub daemon_http : Option Endpoint
  pub shared_base : Option SharedBase
  pub activity_revision : Option ℕ

pub record SandboxList : Type 0 where
  pub sandboxes : List SandboxRecord

pub data CommandStatus : Type 0 where
  running ok error timed_out cancelled : CommandStatus

pub record CommandOutput : Type 0 where
  pub status : CommandStatus
  pub exit_code : Option ℤ
  pub wall_time_seconds : Ratio
  pub command_total_time_seconds : Ratio
  pub start_offset : ℕ
  pub end_offset : ℕ
  pub total_lines : ℕ
  pub original_token_count : ℕ
  pub output : Text
  pub command_session_id : Option Text
  pub workspace_session_id : Option Text
  pub publish_rejected : Option Bool
  pub publish_reject_class : Option Text
