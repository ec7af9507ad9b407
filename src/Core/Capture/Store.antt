-- ===== src/Core/Capture/Store.antt =====
-- What the store of captures holds after its operations (web/src/core/daemonCaptureStore.ts).
use ephemeral_sandbox_consol.Base.{
  ℕ, zero, suc, ◌+◌, ◌-◌, ◌≤◌, ◌≡◌, refl, sym, ap, ◌∙◌, inl, inr, List, [], ◌∷◌, ◌++◌, reverse,
  append_assoc, append-nil, arith, ltb, nat_eq, Bool-cases, length, length-append, take, drop,
  last_n, Pairwise, All-of_append, drop-append, drop-nil, drop-length, take-nil,
}
use mathlib.Core.List.{reverse-cons, reverse-reverse}
use ephemeral_sandbox_consol.Core.DaemonMetrics.{DaemonMetricPoint}
use ephemeral_sandbox_consol.Core.DaemonMetrics.Laws.{Follows}
use ephemeral_sandbox_consol.Core.Capture.{
  cursor_points, read_daemon_capture, put, delete_oldest, append_daemon_capture,
}

abbrev Points : Type 0
Points = List DaemonMetricPoint

take-suc :
    (n : ℕ) (x : DaemonMetricPoint) (xs : Points) → 1 ≤ n → take n (x ∷ xs) ≡ x ∷ take (n - 1) xs
take-suc zero x xs h = absurd (omega (arith, h))
take-suc (suc n) x xs h = ap (λ k. x ∷ take k xs) (omega arith)

cursor_points_lem :
    (limit : ℕ) (rows points : Points)
    → length points ≤ limit
    → cursor_points limit rows points ≡ points ++ take (limit - length points) rows
unfolding cursor_points
cursor_points_lem limit [] points h =
    sym (append-nil points) ∙ ap (λ t. points ++ t) (sym (take-nil (limit - length points)))
cursor_points_lem limit (row ∷ rows) points h = elim (Bool-cases (nat_eq (length points) limit)) [
  | inl e ↦
      let none_left : 0 ≡ limit - length points = ground arith in
      rw (e) (sym (append-nil points) ∙ ap (λ k. points ++ take k (row ∷ rows)) none_left)
  | inr e ↦
      let one_more : length (points ++ row ∷ []) ≡ length points + 1 =
        length-append points (row ∷ []) in
      let left : limit - length (points ++ row ∷ []) ≡ limit - length points - 1 =
        omega (arith, one_more) in
      rw (e) (
        cursor_points_lem limit rows (points ++ row ∷ []) (ground (arith, one_more))
        ∙ ap (λ k. (points ++ row ∷ []) ++ take k rows) left
        ∙ append_assoc points (row ∷ []) (take (limit - length points - 1) rows)
        ∙ ap (λ t. points ++ t) (sym (take-suc (limit - length points) row rows (ground arith))))
]

length-reverse_native : (xs : Points) → length (reverse xs) ≡ length xs
length-reverse_native [] = refl
length-reverse_native (x ∷ xs) =
    ap length (reverse-cons x xs)
    ∙ length-append (reverse xs) (x ∷ [])
    ∙ omega (arith, length-reverse_native xs)

reverse-take : (n : ℕ) (ys : Points) → reverse (take n ys) ≡ drop (length ys - n) (reverse ys)
reverse-take zero ys =
    sym (drop-length (reverse ys))
    ∙ ap (λ k. drop k (reverse ys)) (omega (arith, length-reverse_native ys))
reverse-take (suc n) [] = ground arith
reverse-take (suc n) (y ∷ ys) =
    reverse-cons y (take n ys)
    ∙ ap (λ t. t ++ y ∷ []) (reverse-take n ys)
    ∙ sym (
        drop-append (length ys - n) (reverse ys) (y ∷ []) (omega (arith, length-reverse_native ys)))
    ∙ ap (drop (length ys - n)) (sym (reverse-cons y ys))
    ∙ ap (λ k. drop k (reverse (y ∷ ys))) same
  where
    same : length ys - n ≡ length (y ∷ ys) - suc n
    same = omega arith

-- Reading a capture gives its newest points, at most as many as the limit, the oldest of them first,
-- for every limit.
pub read_daemon_capture_lem :
    (table : List DaemonMetricPoint) (limit : ℕ)
    → read_daemon_capture table limit ≡ last_n limit table
unfolding read_daemon_capture
read_daemon_capture_lem table limit = elim (Bool-cases (ltb limit 1)) [
  | inl e ↦ rw (e) (sym (drop-length table) ∙ ap (λ k. drop k table) (ground arith))
  | inr e ↦ rw (e) (
      ap reverse (cursor_points_lem limit (reverse table) [] (omega arith))
      ∙ reverse-take (limit - 0) (reverse table)
      ∙ ap (drop (length (reverse table) - (limit - 0))) (reverse-reverse table)
      ∙ ap (λ k. drop k table) (omega (arith, length-reverse_native table)))
]

-- A row newer than all others is put at the end.
pub put-newest :
    (p : DaemonMetricPoint) (table : Points)
    → Pairwise Follows (table ++ p ∷ [])
    → put p table ≡ table ++ p ∷ []
unfolding put
put-newest p [] h = refl
put-newest p (q ∷ table) (h, hs) =
    let (k, (newer, _)) = All-of_append (Follows q) table (p ∷ []) h in
    ground (arith, put-newest p table hs, newer.0)

delete_oldest_lem :
    (limit deleted : ℕ) (rows : Points)
    → deleted ≤ limit
    → delete_oldest limit deleted rows ≡ drop (limit - deleted) rows
unfolding delete_oldest
delete_oldest_lem limit deleted [] h = sym (drop-nil (limit - deleted))
delete_oldest_lem limit deleted (row ∷ rows) h = elim (Bool-cases (nat_eq deleted limit)) [
  | inl e ↦
      let done : 0 ≡ limit - deleted = ground arith in rw (e) (ap (λ k. drop k (row ∷ rows)) done)
  | inr e ↦
      let more : suc (limit - (deleted + 1)) ≡ limit - deleted = ground arith in
      rw (e) (
        delete_oldest_lem limit (deleted + 1) rows (ground arith)
        ∙ ap (λ k. drop k (row ∷ rows)) more)
]

-- A newest row is added, and the rows beyond the limit are deleted from the oldest on.
pub append_daemon_capture_lem :
    (p : DaemonMetricPoint) (limit : ℕ) (table : Points)
    → Pairwise Follows (table ++ p ∷ [])
    → append_daemon_capture p limit table ≡ last_n limit (table ++ p ∷ [])
unfolding append_daemon_capture
append_daemon_capture_lem p limit table h =
    let stored : List DaemonMetricPoint = table ++ p ∷ [] in
    rw (put-newest p table h) (elim (Bool-cases (ltb 0 (length stored - limit))) [
      | inl e ↦ rw (e) (
          delete_oldest_lem (length stored - limit) 0 stored (omega arith)
          ∙ ap (λ k. drop k stored) (omega arith))
      | inr e ↦
          let all : 0 ≡ length stored - limit = ground arith in rw (e) (ap (λ k. drop k stored) all)
    ])
