-- ===== src/Api/Topology.antt =====
-- The processes of a sandbox's workspaces (`WorkspaceProcessTopology` of
-- web/src/api/observability.ts).
use ephemeral_sandbox_consol.Base.{ℕ, Bool, Option, List, Text, ℤ}
use ephemeral_sandbox_consol.Api.Daemon.{DaemonProcessMetrics}

pub data ProcessKind : Type 0 where
  namespace_init process : ProcessKind

pub record WorkspaceProcess : Type 0 where
  pub pid : ℕ
  pub namespace_pid : ℕ
  pub parent_pid : ℕ
  pub name : Text
  pub state : Text
  pub kind : ProcessKind
  pub cgroup_memberships : List Text
  pub resident_memory_bytes : Option ℤ
  pub cpu_time_us : Option ℤ
  pub start_time_ticks : Option ℤ

pub data WorkspaceState : Type 0 where
  active idle partial : WorkspaceState

pub record WorkspaceProcesses : Type 0 where
  pub workspace_id : Text
  pub state : WorkspaceState
  pub holder_pid : ℕ
  pub pid_namespace : Option Text
  pub mount_namespace : Option Text
  pub processes : List WorkspaceProcess

pub record WorkspaceProcessTopology : Type 0 where
  pub available : Bool
  pub source : Option Text
  pub error : Option Text
  pub truncated : Bool
  pub warnings : List Text
  pub workspaces : List WorkspaceProcesses
  pub daemon : Option DaemonProcessMetrics
