-- ===== src/Api/Daemon.antt =====
-- The metrics of a sandbox daemon's process (`DaemonProcessMetrics` of
-- web/src/api/observability.ts). Times and counters are unsigned whole numbers. A field that may be
-- null or absent is an `Option`.
use ephemeral_sandbox_consol.Base.{ℕ, Bool, Option, List, Text}

pub record RuntimeUsage : Type 0 where
  pub active_commands : Option ℕ

pub record Ownership : Type 0 where
  pub open_workspaces : ℕ

pub record DaemonProcessMetrics : Type 0 where
  pub available : Bool
  pub error : Option Text
  pub sampled_at_unix_ms : ℕ
  pub pid : ℕ
  pub name : Option Text
  pub state : Option Text
  pub virtual_memory_bytes : Option ℕ
  pub resident_memory_bytes : Option ℕ
  pub peak_resident_memory_bytes : Option ℕ
  pub proportional_set_size_bytes : Option ℕ
  pub unique_set_size_bytes : Option ℕ
  pub private_dirty_bytes : Option ℕ
  pub anonymous_huge_pages_bytes : Option ℕ
  pub anonymous_memory_bytes : Option ℕ
  pub file_memory_bytes : Option ℕ
  pub shared_memory_bytes : Option ℕ
  pub data_memory_bytes : Option ℕ
  pub swap_bytes : Option ℕ
  pub cpu_time_us : Option ℕ
  pub start_time_ticks : Option ℕ
  pub thread_count : Option ℕ
  pub file_descriptor_count : Option ℕ
  pub io_read_bytes : Option ℕ
  pub io_write_bytes : Option ℕ
  pub read_syscalls : Option ℕ
  pub write_syscalls : Option ℕ
  pub voluntary_context_switches : Option ℕ
  pub involuntary_context_switches : Option ℕ
  pub cgroup_memberships : List Text
  pub cgroup_path : Option Text
  pub warnings : List Text
  pub runtime_usage : Option RuntimeUsage
  pub ownership : Option Ownership
