-- ===== src/Core/Capture.antt =====
-- The captured daemon metrics of one sandbox: the browser's store
-- (web/src/core/daemonCaptureStore.ts) and the hook that fills it
-- (web/src/pages/sandbox/observability/useDaemonCapture.ts). The points of the sandbox in the
-- object store are a list in the order of the index `sandbox-time`; another sandbox's rows lie
-- outside the key range and are not part of it.
pub mod Store
pub mod Success
pub mod Extension
pub mod Laws
use ephemeral_sandbox_consol.Base.{
  ℕ, ◌+◌, ◌-◌, min, Bool, true, false, ◌&&◌, Option, none, some, List, [], ◌∷◌, ◌++◌, reverse, ltb,
  nat_eq, if◌then◌else◌, length, last?, last_n, Text, codes,
}
use ephemeral_sandbox_consol.Api.Daemon.{DaemonProcessMetrics}
use ephemeral_sandbox_consol.Core.DaemonMetrics.{
  DaemonMetricPoint, append_changed, daemon_history_limit,
}

abbrev time : DaemonMetricPoint → ℕ
time p = p.sample.sampled_at_unix_ms

-- `cursorPoints`: the loop of the cursor, with the points found so far.
unfoldable pub cursor_points :
    ℕ → List DaemonMetricPoint → List DaemonMetricPoint → List DaemonMetricPoint
cursor_points limit [] points = points
cursor_points limit (row ∷ rows) points =
    let more = cursor_points limit rows (points ++ row ∷ []) in
    if nat_eq (length points) limit then points else more

-- The direction "prev" starts at the newest row.
unfoldable pub read_daemon_capture : List DaemonMetricPoint → ℕ → List DaemonMetricPoint
unfolding cursor_points
read_daemon_capture table limit =
    if ltb limit 1 then [] else reverse (cursor_points limit (reverse table) [])

-- `store.put`: a row takes its place by its key, or replaces the row of that key.
unfoldable pub put : DaemonMetricPoint → List DaemonMetricPoint → List DaemonMetricPoint
put p [] = p ∷ []
put p (q ∷ table) =
    let later = put p table in
    if ltb (time p) (time q)
    then p ∷ q ∷ table
    else if nat_eq (time p) (time q)
    then p ∷ table
    else q ∷ later

-- `deleteOldest`: the loop of the cursor, which has deleted some rows.
unfoldable pub delete_oldest : ℕ → ℕ → List DaemonMetricPoint → List DaemonMetricPoint
delete_oldest limit deleted [] = []
delete_oldest limit deleted (row ∷ rows) =
    let rest = delete_oldest limit (deleted + 1) rows in
    if nat_eq deleted limit then row ∷ rows else rest

unfoldable pub append_daemon_capture :
    DaemonMetricPoint → ℕ → List DaemonMetricPoint → List DaemonMetricPoint
unfolding put delete_oldest
append_daemon_capture point limit table =
    let stored = put point table in
    let excess = length stored - limit in
    if ltb 0 excess then delete_oldest excess 0 stored else stored

abbrev pub daemon_visible_history_limit : ℕ
daemon_visible_history_limit = 300

-- The hook's state for one mounted sandbox, with the rows of the store.
pub record DaemonCapture : Type 0 where
  pub history : List DaemonMetricPoint
  pub stored_count : ℕ
  pub ready : Bool
  pub error : Option Text
  pub table : List DaemonMetricPoint

abbrev report_failure : Text → DaemonCapture → DaemonCapture
report_failure failure c = record c { ready = false; error = some failure }

-- The effect of mounting, and then of the load, which may fail.
unfoldable pub mount : Option Text → List DaemonMetricPoint → DaemonCapture
unfolding read_daemon_capture
mount (some failure) table = record {
  history = [];
  stored_count = 0;
  ready = false;
  error = some failure;
  table = table;
}
mount none table =
    let stored = read_daemon_capture table daemon_history_limit in
    record {
      history = last_n daemon_visible_history_limit stored;
      stored_count = length stored;
      ready = true;
      error = none;
      table = table;
    }

-- How the operations of the store that a job calls turn out: a message where one fails.
pub record Failures : Type 0 where
  pub clear : Option Text
  pub append : Option Text

-- The appending of the newest point, and what follows it. No newest point is a type error of the
-- store's code.
unfoldable pub store_newest :
    Option Text
    → ℕ
    → List DaemonMetricPoint
    → Option DaemonMetricPoint
    → DaemonCapture
    → DaemonCapture
unfolding append_daemon_capture
store_newest failure count next none c = report_failure (codes "TypeError") c
store_newest (some failure) count next (some point) c = report_failure failure c
store_newest none count next (some point) c = record c {
  table = append_daemon_capture point daemon_history_limit c.table;
  history = next;
  stored_count = count;
}

abbrev pub restarted : List DaemonMetricPoint → List DaemonMetricPoint → Bool
restarted before next = ltb 0 (length before) && nat_eq (length next) 1

-- `restarted`, with how the clearing turned out.
unfoldable pub store_next : Failures → Bool → List DaemonMetricPoint → DaemonCapture → DaemonCapture
unfolding store_newest
store_next failures false next c =
    store_newest failures.append (min (c.stored_count + 1) daemon_history_limit) next (last? next) c
store_next failures true next c = elim failures.clear [
  | some failure ↦ report_failure failure c
  | none ↦ store_newest failures.append 1 next (last? next) (record c { table = [] })
]

-- The queued job of `recordSample`.
unfoldable pub run_record : Failures → DaemonProcessMetrics → DaemonCapture → DaemonCapture
unfolding store_next append_changed
run_record failures sample c = elim (append_changed c.history sample daemon_visible_history_limit) [
  | none ↦ c
  | some next ↦ store_next failures (restarted c.history next) next c
]

-- The queued job of `clearCapture`.
unfoldable pub run_clear : Failures → DaemonCapture → DaemonCapture
run_clear failures c = elim failures.clear [
  | some failure ↦ report_failure failure c
  | none ↦ record c { table = []; history = []; stored_count = 0 }
]

pub data CaptureJob : Type 0 where
  record_sample : DaemonProcessMetrics → CaptureJob
  clear_capture : CaptureJob

unfoldable pub run_job : Failures × CaptureJob → DaemonCapture → DaemonCapture
unfolding run_record run_clear
run_job (failures, record_sample sample) c = run_record failures sample c
run_job (failures, clear_capture) c = run_clear failures c

-- The queue runs its jobs one after the other.
unfoldable pub run_queue : List (Failures × CaptureJob) → DaemonCapture → DaemonCapture
unfolding run_job
run_queue [] c = c
run_queue (job ∷ jobs) c = run_queue jobs (run_job job c)
