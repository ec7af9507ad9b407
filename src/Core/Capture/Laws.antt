-- ===== src/Core/Capture/Laws.antt =====
-- The charted history is the end of what the store holds
-- (web/src/pages/sandbox/observability/useDaemonCapture.ts).
use ephemeral_sandbox_consol.Base.{
  ℕ, ◌+◌, ◌-◌, ◌≤◌, min, ◌≡◌, refl, sym, ap, ap₂, ◌∙◌, subst, inl, inr, Bool, true, false, not,
  ◌||◌, Option, none, some, List, [], ◌∷◌, ◌++◌, arith, ltb, Bool-cases, Option-cases, length,
  last?, drop, last_n, Text, last?-snoc,
}
use ephemeral_sandbox_consol.Api.Daemon.{DaemonProcessMetrics}
use ephemeral_sandbox_consol.Core.DaemonMetrics.{
  DaemonMetricPoint, extend_history, append_changed, trim_to, is_stale,
}
use ephemeral_sandbox_consol.Core.DaemonMetrics.Laws.{IsHistory}
use ephemeral_sandbox_consol.Core.Capture.{
  read_daemon_capture, DaemonCapture, Failures, CaptureJob, mount, store_newest, store_next,
  restarted, run_record, run_clear, run_job, run_queue, record_sample, clear_capture,
}
use ephemeral_sandbox_consol.Core.Capture.Store.{read_daemon_capture_lem}
use ephemeral_sandbox_consol.Core.Capture.Extension.{
  Points, IsConsistent, grown-IsConsistent, last?-last_n, Extends, extend_history-Extends,
}

-- What the history is changed to.
pub append_changed-some :
    (history : Points) (sample : DaemonProcessMetrics) (limit : ℕ) {next : Points}
    → append_changed history sample limit ≡ some next
    → (is_stale (last? history) sample ≡ false)
      × (next ≡ trim_to limit (extend_history history (last? history) sample))
unfolding append_changed
append_changed-some history sample limit e =
    elim (Bool-cases (not sample.available || ltb limit 1 || is_stale (last? history) sample)) [
      | inl f ↦ absurd (ground arith)
      | inr f ↦ (ground arith, ground arith)
    ]

-- As long as the hook is ready.
abbrev pub IsFaithful : DaemonCapture → Type 0
IsFaithful c = c.ready ≡ true → IsConsistent c

module _ (failures : Failures) where
  store_newest-IsFaithful :
      (c : DaemonCapture) (table next : Points) (count : ℕ)
      → Extends false table next
      → count ≡ min (length table + 1) 900
      → IsFaithful
          (store_newest failures.append count next (last? next) (record c { table = table }))
  unfolding store_newest
  store_newest-IsFaithful c table next count (p, h, e) f =
      rw (ap last? e ∙ last?-last_n 300 (table ++ p ∷ []) (omega arith) ∙ last?-snoc table p)
        (elim (Option-cases failures.append) [
          | inl o ↦ rw (o) (λ r. grown-IsConsistent c table p next count h e f)
          | inr (failure, o) ↦ rw (o) (λ r. absurd (cc))
        ])

  store_next-IsFaithful :
      (c : DaemonCapture) (flag : Bool) (next : Points)
      → Extends flag c.table next
      → c.stored_count ≡ length c.table
      → IsFaithful (store_next failures flag next c)
  unfolding store_next
  store_next-IsFaithful c false next e f =
      store_newest-IsFaithful c c.table next (min (c.stored_count + 1) 900) e
        (ap (λ k. min (k + 1) 900) f)
  store_next-IsFaithful c true next (p, h, e) f = elim (Option-cases failures.clear) [
    | inl o ↦ rw (o) (store_newest-IsFaithful c [] next 1 (p, h, e) (omega arith))
    | inr (failure, o) ↦ rw (o) (λ r. absurd (cc))
  ]

  run_record-IsFaithful :
      (sample : DaemonProcessMetrics) (c : DaemonCapture)
      → IsConsistent c
      → IsFaithful (run_record failures sample c)
  unfolding run_record
  run_record-IsFaithful sample c (h, count, bound, k) =
      elim (Option-cases (append_changed c.history sample 300)) [
        | inl o ↦ rw (o, run_record) (λ r. (h, count, bound, k))
        | inr (next, o) ↦
            let (stale, changed) = append_changed-some c.history sample 300 o in
            let same_last : last? c.history ≡ last? c.table =
              ap last? h ∙ last?-last_n 300 c.table (omega arith) in
            let extended =
              extend_history-Extends c.table sample k
                (ap (λ l. is_stale l sample) (sym same_last) ∙ stale) in
            let step : trim_to 300 (extend_history (last_n 300 c.table) (last? c.table) sample)
                ≡ next =
              ap₂ (λ xs l. trim_to 300 (extend_history xs l sample)) (sym h) (sym same_last)
              ∙ sym changed in
            rw (o, run_record)
              (store_next-IsFaithful c (restarted c.history next) next
                (subst (λ xs. Extends (restarted xs next) c.table next) (sym h)
                  (subst (λ n. Extends (restarted (last_n 300 c.table) n) c.table n) step extended))
                count)
      ]

  run_clear-IsFaithful : (c : DaemonCapture) → IsFaithful (run_clear failures c)
  unfolding run_clear
  run_clear-IsFaithful c = elim (Option-cases failures.clear) [
    | inl o ↦ rw (o, run_clear) (λ r. (refl, refl, omega arith, (tt, tt)))
    | inr (failure, o) ↦ rw (o, run_clear) (λ r. absurd (cc))
  ]

  -- No job makes the hook ready again.
  store_newest-ready :
      (next : Points) (count : ℕ) (newest : Option DaemonMetricPoint) (c : DaemonCapture)
      → (store_newest failures.append count next newest c).ready ≡ true
      → c.ready ≡ true
  unfolding store_newest
  store_newest-ready next count none c r = absurd (cc)
  store_newest-ready next count (some p) c r = elim (Option-cases failures.append) [
    | inl o ↦ rw (o, store_newest) at r
    | inr (failure, o) ↦ absurd (cc)
  ]

  store_next-ready :
      (flag : Bool) (next : Points) (c : DaemonCapture)
      → (store_next failures flag next c).ready ≡ true
      → c.ready ≡ true
  unfolding store_next
  store_next-ready false next c r = store_newest-ready next _ (last? next) c r
  store_next-ready true next c r = elim (Option-cases failures.clear) [
    | inl o ↦
        store_newest-ready next 1 (last? next) (record c { table = [] }) (rw (o, store_next) at r)
    | inr (failure, o) ↦ absurd (ground (arith, o))
  ]

  run_record-ready :
      (sample : DaemonProcessMetrics) (c : DaemonCapture)
      → (run_record failures sample c).ready ≡ true
      → c.ready ≡ true
  unfolding run_record
  run_record-ready sample c r = elim (Option-cases (append_changed c.history sample 300)) [
    | inl o ↦ rw (o, run_record) at r
    | inr (next, o) ↦ store_next-ready (restarted c.history next) next c (rw (o, run_record) at r)
  ]

  run_job-IsFaithful :
      (job : CaptureJob) (c : DaemonCapture) → IsFaithful c → IsFaithful (run_job (failures, job) c)
  unfolding run_job
  run_job-IsFaithful clear_capture c h r = run_clear-IsFaithful c r
  run_job-IsFaithful (record_sample sample) c h r =
      run_record-IsFaithful sample c (h (run_record-ready sample c r)) r

run_queue-IsFaithful :
    (jobs : List (Failures × CaptureJob)) (c : DaemonCapture)
    → IsFaithful c
    → IsFaithful (run_queue jobs c)
unfolding run_queue
run_queue-IsFaithful [] c h = h
run_queue-IsFaithful ((failures, job) ∷ jobs) c h =
    run_queue-IsFaithful jobs (run_job (failures, job) c) (run_job-IsFaithful failures job c h)

mount-IsFaithful :
    (failure : Option Text) (table : Points)
    → length table ≤ 900
    → IsHistory table
    → IsFaithful (mount failure table)
unfolding mount
mount-IsFaithful (some failure) table h k r = absurd (cc)
mount-IsFaithful none table h k r =
    let none_dropped : length table - 900 ≡ 0 = omega (arith, h) in
    let read : read_daemon_capture table 900 ≡ table =
      read_daemon_capture_lem table 900 ∙ ap (λ n. drop n table) none_dropped in
    (ap (last_n 300) read, ap length read, h, k)

-- Mount the hook on a store that holds a history of one process within the limit, and let its queue
-- run any jobs, each with its own failures of the store. As long as the hook is ready after them, the
-- history on screen is the end of the stored points, the count is theirs, and they are a history of
-- one process within the limit.
pub run_queue-IsConsistent :
    (failure : Option Text) (table : List DaemonMetricPoint) (jobs : List (Failures × CaptureJob))
    → length table ≤ 900
    → IsHistory table
    → (run_queue jobs (mount failure table)).ready ≡ true
    → IsConsistent (run_queue jobs (mount failure table))
run_queue-IsConsistent failure table jobs h k =
    run_queue-IsFaithful jobs (mount failure table) (mount-IsFaithful failure table h k)
