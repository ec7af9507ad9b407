-- ===== src/Api/Observability.antt =====
-- The observability views (web/src/api/observability.ts).
pub mod Counts
use ephemeral_sandbox_consol.Base.{ℕ, ◌+◌, Bool, Option, List, [], ◌∷◌, Text, ℤ, length}

pub data MetricValue : Type 0 where
  number : ℤ → MetricValue
  boolean : Bool → MetricValue
  text : Text → MetricValue

-- A `Record<string, T>` is its list of entries.
pub record ResourceSample : Type 0 where
  pub ts : ℤ
  pub sample_delta_ms : Option ℤ
  pub metrics : List (Text × MetricValue)
  pub deltas : List (Text × ℤ)

pub record ResourceSeries : Type 0 where
  pub latest : Option ResourceSample
  pub history : List ResourceSample

pub record ActiveExecution : Type 0 where
  pub namespace_execution_id : Text
  pub operation : Text
  pub lifecycle_state : Text
  pub command : Option Text

pub data FinalizationState : Type 0 where
  active finalizing finalize_failed : FinalizationState

pub data NetworkProfile : Type 0 where
  shared isolated : NetworkProfile

pub record WorkspaceLayers : Type 0 where
  pub base_root_hash : Text
  pub layer_count : ℕ

pub record WorkspaceSnapshot : Type 0 where
  pub workspace_id : Text
  pub lifecycle_state : Text
  pub finalization_state : FinalizationState
  pub network_profile : NetworkProfile
  pub layers : WorkspaceLayers
  pub namespace_fd_count : ℕ
  pub resources : ResourceSeries
  pub active_namespace_executions : List ActiveExecution

pub record DaemonInfo : Type 0 where
  pub daemon_pid : ℕ
  pub runtime_dir : Text

pub record StackInfo : Type 0 where
  pub layer_count : ℕ
  pub layers_bytes : ℕ
  pub active_leases : ℕ

pub record SandboxSnapshot : Type 0 where
  pub sandbox_id : Text
  pub lifecycle_state : Text
  pub availability : Text
  pub sampled_at_unix_ms : ℕ
  pub errors : List Text
  pub daemon : Option DaemonInfo
  pub resources : ResourceSeries
  pub workspaces : List WorkspaceSnapshot
  pub stack : StackInfo

pub record SnapshotResult : Type 0 where
  pub sandboxes : List SandboxSnapshot

-- The sum that `reduce` builds, over the workspaces still to come.
count_from : ℕ → List WorkspaceSnapshot → ℕ
count_from total [] = total
count_from total (w ∷ ws) = count_from (total + length w.active_namespace_executions) ws

unfoldable pub in_flight_count : SandboxSnapshot → ℕ
unfolding count_from
in_flight_count snapshot = count_from 0 snapshot.workspaces
