-- ===== src/Core/Capture/Extension.antt =====
-- What a sample makes of the history, the table and its window (web/src/core/daemonCaptureStore.ts).
use ephemeral_sandbox_consol.Base.{
  ℕ, ◌+◌, ◌-◌, ◌≤◌, min, ◌≡◌, refl, sym, ap, ◌∙◌, subst, inl, inr, Bool, true, false, none, some,
  List, [], ◌∷◌, ◌++◌, arith, ltb, if◌then◌else◌, Bool-cases, length, length-append, last?, drop,
  length-drop, last_n, Adjacent-drop, Pairwise-drop, drop-append, drop-drop, last_n-last_n,
  last?-drop, last?-nonempty, drop-nil,
}
use ephemeral_sandbox_consol.Api.Daemon.{DaemonProcessMetrics}
use ephemeral_sandbox_consol.Core.DaemonMetrics.{
  DaemonMetricPoint, derive_daemon_metric, same_process, extend_history, trim_to, is_stale,
}
use ephemeral_sandbox_consol.Core.DaemonMetrics.Laws.{
  Follows, IsDerived, IsHistory, extend_history-IsHistory,
}
use ephemeral_sandbox_consol.Core.Capture.{append_daemon_capture, DaemonCapture, restarted}
use ephemeral_sandbox_consol.Core.Capture.Store.{append_daemon_capture_lem}

abbrev pub Points : Type 0
Points = List DaemonMetricPoint

-- The history on screen is the end of the stored points, the count is theirs, they are no more than
-- the store's limit, and they are a history of one process.
abbrev pub IsConsistent : DaemonCapture → Type 0
IsConsistent c =
    (c.history ≡ last_n 300 c.table)
    × (c.stored_count ≡ length c.table)
    × (length c.table ≤ 900)
    × IsHistory c.table

pub trim_to_lem : (n : ℕ) (xs : Points) → trim_to n xs ≡ last_n n xs
trim_to_lem n xs = elim (Bool-cases (ltb n (length xs))) [
  | inl e ↦ rw (e, trim_to) refl
  | inr e ↦ let all : 0 ≡ length xs - n = ground arith in rw (e, trim_to) (ap (λ k. drop k xs) all)
]

last_n-snoc :
    (n : ℕ) (xs : Points) (y : DaemonMetricPoint)
    → last_n n (last_n n xs ++ y ∷ []) ≡ last_n n (xs ++ y ∷ [])
last_n-snoc n xs y =
    let grown : length (xs ++ y ∷ []) ≡ length xs + 1 = length-append xs (y ∷ []) in
    let dropped = length-drop (length xs - n) (xs ++ y ∷ []) in
    ap (last_n n) (sym (drop-append (length xs - n) xs (y ∷ []) (omega arith)))
    ∙ drop-drop (length (drop (length xs - n) (xs ++ y ∷ [])) - n) (length xs - n) (xs ++ y ∷ [])
    ∙ ap (λ k. drop k (xs ++ y ∷ [])) (omega (arith, grown, dropped))

-- A newest point that is stored and shown keeps the two consistent.
pub grown-IsConsistent :
    (c : DaemonCapture) (table : Points) (p : DaemonMetricPoint) (next : Points) (count : ℕ)
    → IsHistory (table ++ p ∷ [])
    → next ≡ last_n 300 (table ++ p ∷ [])
    → count ≡ min (length table + 1) 900
    → IsConsistent (record c {
      table = append_daemon_capture p 900 table;
      history = next;
      stored_count = count;
    })
grown-IsConsistent c table p next count (h, k) e f =
    let stored : Points = table ++ p ∷ [] in
    let grown : length stored ≡ length table + 1 = length-append table (p ∷ []) in
    let kept : length (last_n 900 stored) ≡ length stored - (length stored - 900) =
      length-drop (length stored - 900) stored in
    rw (append_daemon_capture_lem p 900 table h) (
      e ∙ sym (last_n-last_n 300 900 stored (omega arith)),
      f ∙ omega (arith, grown, kept),
      omega (arith, kept),
      (Pairwise-drop Follows _ stored h, Adjacent-drop IsDerived _ stored k),
    )

pub last?-last_n : (n : ℕ) (xs : Points) → 1 ≤ n → last? (last_n n xs) ≡ last? xs
last?-last_n n [] h = ap last? (drop-nil (0 - n))
last?-last_n n (x ∷ xs) h =
    let (l, found) = last?-nonempty x xs in
    last?-drop (length (x ∷ xs) - n) (x ∷ xs) found (omega (arith, h)) ∙ sym found

-- What a changed history is, when the flag says whether the process was restarted: the end of the
-- stored points, or of none after a restart, with one point more.
abbrev pub Extends : Bool → Points → Points → Type 0
Extends flag table next =
    (p : DaemonMetricPoint) × IsHistory ((if flag then [] else table) ++ p ∷ [])
    × (next ≡ last_n 300 ((if flag then [] else table) ++ p ∷ []))

extend_history-same :
    (history : Points) (l : DaemonMetricPoint) (sample : DaemonProcessMetrics)
    → same_process l sample ≡ true
    → extend_history history (some l) sample ≡ history ++ derive_daemon_metric (some l) sample ∷ []
unfolding extend_history
extend_history-same history l sample e = rw (e) refl

extend_history-other :
    (history : Points) (l : DaemonMetricPoint) (sample : DaemonProcessMetrics)
    → same_process l sample ≡ false
    → extend_history history (some l) sample ≡ derive_daemon_metric none sample ∷ []
unfolding extend_history
extend_history-other history l sample e = rw (e) refl

length-last_n_suc : (x : DaemonMetricPoint) (xs : Points) → 1 ≤ length (last_n 300 (x ∷ xs))
length-last_n_suc x xs = omega (arith, length-drop (length (x ∷ xs) - 300) (x ∷ xs))

-- Two points or more are no restart.
not_restarted :
    (history table : Points) (p : DaemonMetricPoint)
    → 1 ≤ length table
    → restarted history (last_n 300 (table ++ p ∷ [])) ≡ false
not_restarted history table p h =
    let grown : length (table ++ p ∷ []) ≡ length table + 1 = length-append table (p ∷ []) in
    let kept = length-drop (length (table ++ p ∷ []) - 300) (table ++ p ∷ []) in
    ground (arith, grown, kept)

pub extend_history-Extends :
    (table : Points) (sample : DaemonProcessMetrics)
    → IsHistory table
    → is_stale (last? table) sample ≡ false
    → let next = trim_to 300 (extend_history (last_n 300 table) (last? table) sample) in
      Extends (restarted (last_n 300 table) next) table next
extend_history-Extends [] sample h stale =
    unfold extend_history in (derive_daemon_metric none sample, ((tt, tt), tt), refl)
extend_history-Extends (x ∷ xs) sample h stale =
    let (l, found) = last?-nonempty x xs in
    let newer : is_stale (some l) sample ≡ false =
      subst (λ o. is_stale o sample ≡ false) found stale in
    let longer : IsHistory (extend_history (x ∷ xs) (some l) sample) =
      extend_history-IsHistory (x ∷ xs) (some l) sample found newer h in
    subst
      (λ o.
        let next = trim_to 300 (extend_history (last_n 300 (x ∷ xs)) o sample) in
        Extends (restarted (last_n 300 (x ∷ xs)) next) (x ∷ xs) next)
      (sym found)
      (elim (Bool-cases (same_process l sample)) [
        | inl e ↦
            let p : DaemonMetricPoint = derive_daemon_metric (some l) sample in
            let same : trim_to 300 (extend_history (last_n 300 (x ∷ xs)) (some l) sample)
                ≡ last_n 300 ((x ∷ xs) ++ p ∷ []) =
              ap (trim_to 300) (extend_history-same (last_n 300 (x ∷ xs)) l sample e)
              ∙ trim_to_lem 300 (last_n 300 (x ∷ xs) ++ p ∷ [])
              ∙ last_n-snoc 300 (x ∷ xs) p in
            subst (λ next. Extends (restarted (last_n 300 (x ∷ xs)) next) (x ∷ xs) next) (sym same)
              (subst (λ flag. Extends flag (x ∷ xs) (last_n 300 ((x ∷ xs) ++ p ∷ [])))
                (sym (not_restarted (last_n 300 (x ∷ xs)) (x ∷ xs) p (omega arith)))
                (p, subst IsHistory (extend_history-same (x ∷ xs) l sample e) longer, refl))
        | inr e ↦
            let p : DaemonMetricPoint = derive_daemon_metric none sample in
            let one : trim_to 300 (extend_history (last_n 300 (x ∷ xs)) (some l) sample) ≡ p ∷ [] =
              ap (trim_to 300) (extend_history-other (last_n 300 (x ∷ xs)) l sample e) in
            let flag : restarted (last_n 300 (x ∷ xs)) (p ∷ []) ≡ true =
              ground (arith, length-last_n_suc x xs) in
            subst (λ next. Extends (restarted (last_n 300 (x ∷ xs)) next) (x ∷ xs) next) (sym one)
              (subst (λ b. Extends b (x ∷ xs) (p ∷ [])) (sym flag) (p, ((tt, tt), tt), refl))
      ])
