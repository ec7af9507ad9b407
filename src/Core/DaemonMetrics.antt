-- ===== src/Core/DaemonMetrics.antt =====
-- The history of a sandbox daemon's metrics, with the rates derived between two samples
-- (web/src/core/daemonMetrics.ts).
pub mod Laws
use ephemeral_sandbox_consol.Base.{
  ℕ, suc, ◌+◌, ◌-◌, ◌*◌, Bool, true, false, not, ◌&&◌, ◌||◌, Option, none, some, List, [], ◌∷◌,
  ◌++◌, ltb, leb, nat_eq, if◌then◌else◌, or_else, length, last?, drop, ℤ, pos, negsuc, Ratio, sub_ℕ,
}
use ephemeral_sandbox_consol.Api.Daemon.{DaemonProcessMetrics}

abbrev pub daemon_history_limit : ℕ
daemon_history_limit = 900

-- A sample (`...sample`) with what is derived from the sample before it.
pub record DaemonMetricPoint : Type 0 where
  pub sample : DaemonProcessMetrics
  pub sample_period_ms : Option ℕ
  pub cpu_percent : Option Ratio
  pub io_read_bytes_per_second : Option Ratio
  pub io_write_bytes_per_second : Option Ratio
  pub context_switches_per_second : Option Ratio

abbrev both : Option ℕ → Option ℕ → Option ℕ
both (some voluntary) (some involuntary) = some (voluntary + involuntary)
both _ _ = none

abbrev pub context_switches : DaemonProcessMetrics → Option ℕ
context_switches s = both s.voluntary_context_switches s.involuntary_context_switches

-- `samplePeriodMs !== null && samplePeriodMs > 0 ? samplePeriodMs : null`
abbrev pub positive : Option ℤ → Option ℕ
positive (some (pos (suc n))) = some (suc n)
positive _ = none

-- `delta >= 0 ? delta * scale / periodMs : null`
abbrev pub rate_of : ℤ → Ratio → ℕ → Option Ratio
rate_of (pos delta) scale period =
    some (record { num = delta * scale.num; den = scale.den * period })
rate_of (negsuc _) scale period = none

unfoldable pub rate : Option ℕ → Option ℕ → Option ℤ → Ratio → Option Ratio
rate (some previous) (some current) (some (pos (suc n))) scale =
    rate_of (sub_ℕ current previous) scale (suc n)
rate _ _ _ scale = none

abbrev percent_scale : Ratio
percent_scale = record { num = 1; den = 10 }

abbrev second_scale : Ratio
second_scale = record { num = 1000; den = 1 }

-- A field of the point before, if there is one.
abbrev before : (DaemonProcessMetrics → Option ℕ) → Option DaemonMetricPoint → Option ℕ
before field none = none
before field (some p) = field p.sample

abbrev period_from : Option DaemonMetricPoint → DaemonProcessMetrics → Option ℤ
period_from none sample = none
period_from (some p) sample = some (sub_ℕ sample.sampled_at_unix_ms p.sample.sampled_at_unix_ms)

unfoldable pub derive_daemon_metric :
    Option DaemonMetricPoint → DaemonProcessMetrics → DaemonMetricPoint
unfolding rate
derive_daemon_metric previous sample =
    let period : Option ℤ = period_from previous sample in
    record {
      sample = sample;
      sample_period_ms = positive period;
      cpu_percent =
          rate (before (λ s. s.cpu_time_us) previous) sample.cpu_time_us period percent_scale;
      io_read_bytes_per_second =
          rate (before (λ s. s.io_read_bytes) previous) sample.io_read_bytes period second_scale;
      io_write_bytes_per_second =
          rate (before (λ s. s.io_write_bytes) previous) sample.io_write_bytes period second_scale;
      context_switches_per_second =
          rate (before context_switches previous) (context_switches sample) period second_scale;
    }

-- `===` on numbers that may be null
abbrev pub same_number : Option ℕ → Option ℕ → Bool
same_number none none = true
same_number (some a) (some b) = nat_eq a b
same_number _ _ = false

unfoldable pub same_process : DaemonMetricPoint → DaemonProcessMetrics → Bool
same_process previous sample =
    nat_eq previous.sample.pid sample.pid
    && same_number previous.sample.start_time_ticks sample.start_time_ticks

-- `next.length > limit ? next.slice(next.length - limit) : next`
abbrev pub trim_to : ℕ → List DaemonMetricPoint → List DaemonMetricPoint
trim_to limit next = if ltb limit (length next) then drop (length next - limit) next else next

-- What becomes of a history whose last point is given, for a sample that is newer.
unfoldable pub extend_history :
    List DaemonMetricPoint
    → Option DaemonMetricPoint
    → DaemonProcessMetrics
    → List DaemonMetricPoint
unfolding derive_daemon_metric same_process
extend_history history none sample = history ++ derive_daemon_metric none sample ∷ []
extend_history history (some last) sample =
    if same_process last sample
    then history ++ derive_daemon_metric (some last) sample ∷ []
    else derive_daemon_metric none sample ∷ []

-- The sample is not newer than the last point.
abbrev pub is_stale : Option DaemonMetricPoint → DaemonProcessMetrics → Bool
is_stale none sample = false
is_stale (some last) sample = leb sample.sampled_at_unix_ms last.sample.sampled_at_unix_ms

-- `none` is the unchanged history, the very array that was given.
unfoldable pub append_changed :
    List DaemonMetricPoint → DaemonProcessMetrics → ℕ → Option (List DaemonMetricPoint)
unfolding extend_history
append_changed history sample limit =
    let last : Option DaemonMetricPoint = last? history in
    if not sample.available || ltb limit 1 || is_stale last sample
    then none
    else some (trim_to limit (extend_history history last sample))

unfoldable pub append_daemon_metric :
    List DaemonMetricPoint → DaemonProcessMetrics → ℕ → List DaemonMetricPoint
unfolding append_changed
append_daemon_metric history sample limit = or_else (append_changed history sample limit) history
