-- ===== src/Tests/Captures.antt =====
-- Captured daemon metrics at concrete samples.
use ephemeral_sandbox_consol.Base.{
  ◌≢◌, ℕ, ◌≤◌, ◌≡◌, refl, inl, true, none, some, List, [], ◌∷◌, arith, length, codes,
}
use ephemeral_sandbox_consol.Api.Daemon.{DaemonProcessMetrics}
use ephemeral_sandbox_consol.Core.DaemonMetrics.{
  DaemonMetricPoint, derive_daemon_metric, append_daemon_metric,
}
use ephemeral_sandbox_consol.Core.DaemonMetrics.Laws.{
  Follows, IsDerived, IsHistory, append_daemon_metric-IsHistory, append_daemon_metric-restart,
}
use ephemeral_sandbox_consol.Core.Capture.{
  Failures, CaptureJob, mount, run_queue, record_sample, clear_capture,
}
use ephemeral_sandbox_consol.Core.Capture.Laws.{run_queue-IsConsistent}
use ephemeral_sandbox_consol.Core.Capture.Extension.{IsConsistent}
use ephemeral_sandbox_consol.Core.Capture.Success.{run_queue-success}

abbrev metrics : ℕ → ℕ → ℕ → DaemonProcessMetrics
metrics pid time cpu = record {
  available = true;
  error = none;
  sampled_at_unix_ms = time;
  pid = pid;
  name = none;
  state = none;
  virtual_memory_bytes = none;
  resident_memory_bytes = some 4096;
  peak_resident_memory_bytes = none;
  proportional_set_size_bytes = none;
  unique_set_size_bytes = none;
  private_dirty_bytes = none;
  anonymous_huge_pages_bytes = none;
  anonymous_memory_bytes = none;
  file_memory_bytes = none;
  shared_memory_bytes = none;
  data_memory_bytes = none;
  swap_bytes = none;
  cpu_time_us = some cpu;
  start_time_ticks = some 7;
  thread_count = none;
  file_descriptor_count = none;
  io_read_bytes = some 10;
  io_write_bytes = none;
  read_syscalls = none;
  write_syscalls = none;
  voluntary_context_switches = some 1;
  involuntary_context_switches = some 2;
  cgroup_memberships = [];
  cgroup_path = none;
  warnings = [];
  runtime_usage = none;
  ownership = none;
}

abbrev first_point : DaemonMetricPoint
first_point = derive_daemon_metric none (metrics 1 1000 500)

abbrev second_point : DaemonMetricPoint
second_point = derive_daemon_metric (some first_point) (metrics 1 2000 900)

-- 400 microseconds in a second are 0.04 percent.
second_point_test : second_point.cpu_percent ≡ some (record { num = 400; den = 10000 })
unfolding derive_daemon_metric
second_point_test = refl

follows : Follows first_point second_point
unfolding derive_daemon_metric
follows = (omega arith, refl, refl)

derived : IsDerived first_point second_point
unfolding derive_daemon_metric
derived = refl

append_daemon_metric-IsHistory_example :
    IsHistory (append_daemon_metric (first_point ∷ []) (metrics 1 2000 900) 300)
    × (length (append_daemon_metric (first_point ∷ []) (metrics 1 2000 900) 300) ≤ 300)
append_daemon_metric-IsHistory_example =
    append_daemon_metric-IsHistory (first_point ∷ []) (metrics 1 2000 900) 300 ((tt, tt), tt)
      (omega arith)

other_pid : ◌≢◌ {A = ℕ} 1 2
other_pid e = omega (arith, e)

append_daemon_metric-restart_example :
    append_daemon_metric (first_point ∷ second_point ∷ []) (metrics 2 3000 5) 300
    ≡ record {
      sample = metrics 2 3000 5;
      sample_period_ms = none;
      cpu_percent = none;
      io_read_bytes_per_second = none;
      io_write_bytes_per_second = none;
      context_switches_per_second = none;
    }
      ∷ []
unfolding derive_daemon_metric
append_daemon_metric-restart_example =
    append_daemon_metric-restart (first_point ∷ second_point ∷ []) (metrics 2 3000 5) 300
      {last = second_point} refl refl (omega arith) (omega arith) (inl other_pid)

abbrev fine : Failures
fine = record { clear = none; append = none }

abbrev full : Failures
full = record { clear = none; append = some (codes "quota exceeded") }

-- Two samples, a sample after a restart, and a sample that is not newer.
abbrev jobs : List (Failures × CaptureJob)
jobs =
    (fine, record_sample (metrics 1 2000 900))
    ∷ (fine, record_sample (metrics 2 3000 5))
    ∷ (full, record_sample (metrics 2 3000 5))
    ∷ []

jobs_ready : (run_queue jobs (mount none (first_point ∷ []))).ready ≡ true
unfolding mount run_queue derive_daemon_metric
jobs_ready = refl

run_queue-IsConsistent_example : IsConsistent (run_queue jobs (mount none (first_point ∷ [])))
run_queue-IsConsistent_example =
    run_queue-IsConsistent none (first_point ∷ []) jobs (omega arith) ((tt, tt), tt) jobs_ready

-- A clearing, and a sample after it.
abbrev jobs_of_success : List (Failures × CaptureJob)
jobs_of_success = (fine, clear_capture) ∷ (fine, record_sample (metrics 1 2000 900)) ∷ []

run_queue-success_example : (run_queue jobs_of_success (mount none (first_point ∷ []))).ready ≡ true
unfolding mount
run_queue-success_example =
    run_queue-success jobs_of_success (mount none (first_point ∷ []))
      ((refl, refl), ((refl, refl), tt)) refl
