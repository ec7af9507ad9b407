-- ===== src/Core/DaemonMetrics/Laws.antt =====
-- The history of daemon metrics stays a history of one process (`appendDaemonMetric` of
-- web/src/core/daemonMetrics.ts).
use ephemeral_sandbox_consol.Base.{
  ℕ, ◌-◌, ◌≤◌, ◌<◌, ◌≡◌, refl, sym, ap, ◌∙◌, ◌≢◌, ◌⊎◌, inl, inr, true, false, not, ◌||◌, Option,
  none, some, List, [], ◌∷◌, arith, ltb, leb, Bool-cases, length, last?, length-drop, Pairwise,
  Adjacent, Adjacent-drop, Pairwise-drop, Adjacent-snoc, Pairwise-snoc, last?-nonempty,
}
use ephemeral_sandbox_consol.Api.Daemon.{DaemonProcessMetrics}
use ephemeral_sandbox_consol.Core.DaemonMetrics.{
  DaemonMetricPoint, derive_daemon_metric, same_process, same_number, extend_history, rate,
  append_changed, append_daemon_metric, trim_to, is_stale,
}

-- The second point is of the same process and newer.
abbrev pub Follows : DaemonMetricPoint → DaemonMetricPoint → Type 0
Follows p q =
    (p.sample.sampled_at_unix_ms < q.sample.sampled_at_unix_ms)
    × (p.sample.pid ≡ q.sample.pid)
    × (p.sample.start_time_ticks ≡ q.sample.start_time_ticks)

-- The second point's rates are those between the two.
abbrev pub IsDerived : DaemonMetricPoint → DaemonMetricPoint → Type 0
IsDerived p q = q ≡ derive_daemon_metric (some p) q.sample

-- All points are of one process, in the order of their times, and each but the first holds the rates
-- against its predecessor.
abbrev pub IsHistory : List DaemonMetricPoint → Type 0
IsHistory history = Pairwise Follows history × Adjacent IsDerived history

Follows-trans : (p q r : DaemonMetricPoint) → Follows p q → Follows q r → Follows p r
Follows-trans p q r (a, b, c) (d, e, f) = (omega (arith, a, d), b ∙ e, c ∙ f)

same_number_eq : (a b : Option ℕ) → same_number a b ≡ true → a ≡ b
same_number_eq none none h = refl
same_number_eq none (some b) h = absurd (cc)
same_number_eq (some a) none h = absurd (cc)
same_number_eq (some a) (some b) h = ap some (ground arith)

derive-sample :
    (previous : Option DaemonMetricPoint) (sample : DaemonProcessMetrics)
    → (derive_daemon_metric previous sample).sample ≡ sample
unfolding derive_daemon_metric
derive-sample previous sample = refl

-- The point derived for a newer sample of the same process.
derive-Follows :
    (last : DaemonMetricPoint) (sample : DaemonProcessMetrics)
    → same_process last sample ≡ true
    → leb sample.sampled_at_unix_ms last.sample.sampled_at_unix_ms ≡ false
    → Follows last (derive_daemon_metric (some last) sample)
unfolding derive_daemon_metric same_process
derive-Follows last sample h k = (ground arith, ground arith, same_number_eq _ _ (ground arith))

pub extend_history-IsHistory :
    (history : List DaemonMetricPoint) (last : Option DaemonMetricPoint)
    (sample : DaemonProcessMetrics)
    → last? history ≡ last
    → is_stale last sample ≡ false
    → IsHistory history
    → IsHistory (extend_history history last sample)
unfolding extend_history
extend_history-IsHistory [] none sample e f h = ((tt, tt), tt)
extend_history-IsHistory (p ∷ history) none sample e f h =
    let (q, found) = last?-nonempty p history in absurd (cc)
extend_history-IsHistory history (some last) sample e f (h, k) =
    elim (Bool-cases (same_process last sample)) [
      | inl s ↦ rw (s) (
        Pairwise-snoc Follows Follows-trans history _ e (derive-Follows last sample s f) h,
        Adjacent-snoc IsDerived history _ e
            (ap (derive_daemon_metric (some last)) (sym (derive-sample (some last) sample))) k,
      )
      | inr d ↦ rw (d) ((tt, tt), tt)
    ]

-- Trimming keeps a history.
pub trim_to-IsHistory :
    (limit : ℕ) (history : List DaemonMetricPoint)
    → IsHistory history
    → IsHistory (trim_to limit history)
trim_to-IsHistory limit history (h, k) = elim (Bool-cases (ltb limit (length history))) [
  | inl e ↦ rw (e, trim_to) (Pairwise-drop Follows _ history h, Adjacent-drop IsDerived _ history k)
  | inr e ↦ rw (e, trim_to) (h, k)
]

length-trim_to :
    (limit : ℕ) (history : List DaemonMetricPoint) → length (trim_to limit history) ≤ limit
length-trim_to limit history = elim (Bool-cases (ltb limit (length history))) [
  | inl e ↦ rw (e, trim_to) (omega (arith, length-drop (length history - limit) history))
  | inr e ↦ rw (e, trim_to) (ground arith)
]

-- Whatever sample comes, the history keeps to its limit, its points stay those of one process in the
-- order of their times, and each but the first holds the rates against its predecessor, if that was
-- so before.
pub append_daemon_metric-IsHistory :
    (history : List DaemonMetricPoint) (sample : DaemonProcessMetrics) (limit : ℕ)
    → IsHistory history
    → length history ≤ limit
    → IsHistory (append_daemon_metric history sample limit)
      × (length (append_daemon_metric history sample limit) ≤ limit)
unfolding append_daemon_metric append_changed
append_daemon_metric-IsHistory history sample limit h k =
    elim (Bool-cases (not sample.available || ltb limit 1 || is_stale (last? history) sample)) [
      | inl e ↦ rw (e) (h, k)
      | inr e ↦ rw (e) (
        trim_to-IsHistory limit _
            (extend_history-IsHistory history (last? history) sample refl (ground arith) h),
        length-trim_to limit _,
      )
    ]

same_process-other :
    (last : DaemonMetricPoint) (sample : DaemonProcessMetrics)
    → (last.sample.pid ≢ sample.pid) ⊎ (last.sample.start_time_ticks ≢ sample.start_time_ticks)
    → same_process last sample ≡ false
unfolding same_process
same_process-other last sample other = elim (Bool-cases (same_process last sample)) [
  | inl e ↦ elim other [
    | inl d ↦ absurd (d (ground arith))
    | inr d ↦ absurd (d (same_number_eq _ _ (ground arith)))
  ]
  | inr e ↦ e
]

-- A sample of another process than the last point's, available and newer than it, leaves a history of
-- one point only, which holds that sample and no rate, whatever the limit, if that is positive.
pub append_daemon_metric-restart :
    (history : List DaemonMetricPoint) (sample : DaemonProcessMetrics) (limit : ℕ)
    {last : DaemonMetricPoint}
    → last? history ≡ some last
    → sample.available ≡ true
    → 1 ≤ limit
    → last.sample.sampled_at_unix_ms < sample.sampled_at_unix_ms
    → (last.sample.pid ≢ sample.pid) ⊎ (last.sample.start_time_ticks ≢ sample.start_time_ticks)
    → append_daemon_metric history sample limit
      ≡ record {
        sample = sample;
        sample_period_ms = none;
        cpu_percent = none;
        io_read_bytes_per_second = none;
        io_write_bytes_per_second = none;
        context_switches_per_second = none;
      }
        ∷ []
unfolding append_daemon_metric append_changed extend_history derive_daemon_metric rate same_process
append_daemon_metric-restart history sample limit {last} e available positive newer other =
    rw (e) (rw (same_process-other last sample other, available) ground arith)
