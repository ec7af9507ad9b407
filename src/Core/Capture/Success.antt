-- ===== src/Core/Capture/Success.antt =====
-- Jobs whose calls of the store succeed leave the hook ready
-- (web/src/pages/sandbox/observability/useDaemonCapture.ts).
use ephemeral_sandbox_consol.Base.{
  ℕ, ◌≡◌, refl, ap, ◌∙◌, inl, inr, Bool, true, false, Option, none, some, List, [], ◌∷◌, arith,
  Bool-cases, Option-cases, last?, All, last?-snoc,
}
use ephemeral_sandbox_consol.Api.Daemon.{DaemonProcessMetrics}
use ephemeral_sandbox_consol.Core.DaemonMetrics.{
  DaemonMetricPoint, derive_daemon_metric, same_process, extend_history, append_changed,
}
use ephemeral_sandbox_consol.Core.Capture.{
  DaemonCapture, Failures, CaptureJob, store_newest, store_next, restarted, run_record, run_clear,
  run_job, run_queue, record_sample, clear_capture,
}
use ephemeral_sandbox_consol.Core.Capture.Laws.{append_changed-some}
use ephemeral_sandbox_consol.Core.Capture.Extension.{last?-last_n, trim_to_lem}

abbrev pub IsSuccess : Failures → Type 0
IsSuccess failures = (failures.clear ≡ none) × (failures.append ≡ none)

abbrev Points : Type 0
Points = List DaemonMetricPoint

extend_history-last :
    (history : Points) (last : Option DaemonMetricPoint) (sample : DaemonProcessMetrics)
    → (p : DaemonMetricPoint) × (last? (extend_history history last sample) ≡ some p)
unfolding extend_history
extend_history-last history none sample =
    (derive_daemon_metric none sample, last?-snoc history (derive_daemon_metric none sample))
extend_history-last history (some l) sample = elim (Bool-cases (same_process l sample)) [
  | inl e ↦ (
    derive_daemon_metric (some l) sample,
    rw (e) (last?-snoc history (derive_daemon_metric (some l) sample)),
  )
  | inr e ↦ (derive_daemon_metric none sample, rw (e) refl)
]

-- A changed history has a newest point.
changed-last :
    (history : Points) (sample : DaemonProcessMetrics) {next : Points}
    → append_changed history sample 300 ≡ some next
    → (p : DaemonMetricPoint) × (last? next ≡ some p)
changed-last history sample {next} e =
    let (_, changed) = append_changed-some history sample 300 e in
    let (p, found) = extend_history-last history (last? history) sample in
    let all : Points = extend_history history (last? history) sample in
    (p, ap last? (changed ∙ trim_to_lem 300 all) ∙ last?-last_n 300 all (omega arith) ∙ found)

module _ (failures : Failures) (fine : IsSuccess failures) where
  store_newest-success :
      (next : Points) (count : ℕ) (p : DaemonMetricPoint) (c : DaemonCapture)
      → (store_newest failures.append count next (some p) c).ready ≡ c.ready
  unfolding store_newest
  store_newest-success next count p c = rw (fine.1, store_newest) refl

  store_next-success :
      (flag : Bool) (next : Points) (p : DaemonMetricPoint) (c : DaemonCapture)
      → last? next ≡ some p
      → (store_next failures flag next c).ready ≡ c.ready
  unfolding store_next
  store_next-success false next p c e = rw (e) (store_newest-success next _ p c)
  store_next-success true next p c e =
      rw (fine.0, store_next) (rw (e) (store_newest-success next 1 p (record c { table = [] })))

  run_job-success :
      (job : CaptureJob) (c : DaemonCapture) → (run_job (failures, job) c).ready ≡ c.ready
  unfolding run_job run_record run_clear
  run_job-success clear_capture c = rw (fine.0, run_clear) refl
  run_job-success (record_sample sample) c =
      elim (Option-cases (append_changed c.history sample 300)) [
        | inl o ↦ rw (o, run_record) refl
        | inr (next, o) ↦
            let (p, found) = changed-last c.history sample o in
            rw (o, run_record) (store_next-success (restarted c.history next) next p c found)
      ]

-- When every call of the store in the jobs of the queue succeeds, running them leaves the hook ready,
-- if it was ready before.
pub run_queue-success :
    (jobs : List (Failures × CaptureJob)) (c : DaemonCapture)
    → All (λ job. IsSuccess job.0) jobs
    → c.ready ≡ true
    → (run_queue jobs c).ready ≡ true
unfolding run_queue
run_queue-success [] c h r = r
run_queue-success ((failures, job) ∷ jobs) c (h, hs) r =
    run_queue-success jobs (run_job (failures, job) c) hs (run_job-success failures h job c ∙ r)
