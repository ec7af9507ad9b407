-- ===== src/Pages/Terminal/Laws.antt =====
-- The ledger after a snapshot (web/src/pages/sandbox/terminal/TerminalTab.tsx).
use ephemeral_sandbox_consol.Base.{
  take, length, ℕ, ◌≡◌, refl, sym, ap, ap₂, ◌∙◌, inl, inr, true, false, List, [], ◌∷◌, ◌++◌, map,
  append-nil, arith, Bool-cases, Option-cases, is_some, any, All, Text, All-map, All-append,
}
use ephemeral_sandbox_consol.Api.Observability.{WorkspaceSnapshot}
use ephemeral_sandbox_consol.Core.Ledger.{LedgerEntry}
use ephemeral_sandbox_consol.Pages.Terminal.{
  InFlight, add_workspaces, in_flight, new_command, with_command, known_ids, additions, is_empty,
  reconcile,
}
use ephemeral_sandbox_consol.Pages.Terminal.Maps.{IsMap, add_workspaces-IsMap, IsMap-AreFound}
use ephemeral_sandbox_consol.Pages.Terminal.Shown.{
  with_line, IsShowing, IsEntered, IsUpToDate→IsShowing, IsKnownIn→IsEntered, take-map-append,
  map-with_line,
}
use ephemeral_sandbox_consol.Pages.Terminal.Added.{
  IsUpToDate, additions-AreUpToDate, IsKnownIn, IsKnownIn-append_left, IsKnownIn-append_right,
  IsListed, additions-AreKnown, additions-known, reconciled-AreUpToDate, reconciled-same,
}

-- The entries with the commands of their executions, and the entries for the others.
abbrev pub brought_up :
    (ℕ → Text) → ℕ → List (Text × InFlight) → List LedgerEntry → List LedgerEntry
brought_up fresh now m ledger =
    let reconciled = map (λ e. with_command (new_command m e) e) ledger in
    reconciled ++ additions fresh now (known_ids reconciled) 0 m

is_empty_iff : (xs : List LedgerEntry) → is_empty xs ≡ true → xs ≡ []
is_empty_iff [] h = refl
is_empty_iff (x ∷ xs) h = absurd (let q : false ≡ true = h in cc)

unchanged-AreUpToDate :
    (m : List (Text × InFlight)) (ledger : List LedgerEntry)
    → any (λ e. is_some (new_command m e)) ledger ≡ false
    → All (IsUpToDate m) ledger
unchanged-AreUpToDate m [] h = tt
unchanged-AreUpToDate m (e ∷ es) h = elim (Option-cases (new_command m e)) [
  | inl k ↦ (k, unchanged-AreUpToDate m es (ground (arith, k, h)))
  | inr (c, k) ↦ absurd (ground (arith, k, h))
]

AreUpToDate-unchanged :
    (m : List (Text × InFlight)) (ledger : List LedgerEntry)
    → All (IsUpToDate m) ledger
    → any (λ e. is_some (new_command m e)) ledger ≡ false
AreUpToDate-unchanged m [] h = refl
AreUpToDate-unchanged m (e ∷ es) (h, hs) = rw (h) (AreUpToDate-unchanged m es hs)

reconcile-brought_up :
    (fresh : ℕ → Text) (now : ℕ) (m : List (Text × InFlight)) (ledger : List LedgerEntry)
    → reconcile fresh now m ledger ≡ brought_up fresh now m ledger
unfolding reconcile
reconcile-brought_up fresh now m ledger =
    let added =
      additions fresh now (known_ids (map (λ e. with_command (new_command m e) e) ledger)) 0 m in
    elim (Bool-cases (any (λ e. is_some (new_command m e)) ledger)) [
      | inl e ↦ ground (arith, e)
      | inr e ↦ elim (Bool-cases (is_empty added)) [
        | inr d ↦ ground (arith, d)
        | inl d ↦
            rw (e, d)
              (sym (
                ap₂ (λ xs ys. xs ++ ys)
                  (reconciled-same m ledger (unchanged-AreUpToDate m ledger e))
                  (is_empty_iff added d)
                ∙ append-nil ledger))
      ]
    ]

brought_up-AreUpToDate :
    (fresh : ℕ → Text) (now : ℕ) (m : List (Text × InFlight)) (ledger : List LedgerEntry)
    → IsMap m
    → All (IsUpToDate m) (brought_up fresh now m ledger)
brought_up-AreUpToDate fresh now m ledger h =
    let reconciled = map (λ e. with_command (new_command m e) e) ledger in
    All-append (IsUpToDate m) reconciled (additions fresh now (known_ids reconciled) 0 m)
      (reconciled-AreUpToDate m ledger)
      (additions-AreUpToDate m fresh now (known_ids reconciled) 0 m (IsMap-AreFound m h))

brought_up-AreKnown :
    (fresh : ℕ → Text) (now : ℕ) (m : List (Text × InFlight)) (ledger : List LedgerEntry)
    → All (IsKnownIn (brought_up fresh now m ledger)) m
brought_up-AreKnown fresh now m ledger =
    let reconciled = map (λ e. with_command (new_command m e) e) ledger in
    let added = additions fresh now (known_ids reconciled) 0 m in
    All-map {P = IsListed reconciled added}
      (λ p h. elim h [
        | inl k ↦ IsKnownIn-append_left reconciled added p k
        | inr k ↦ IsKnownIn-append_right reconciled added p k
      ])
      m (additions-AreKnown fresh now reconciled 0 m)

brought_up-settled :
    (fresh : ℕ → Text) (now : ℕ) (m : List (Text × InFlight)) (ledger : List LedgerEntry)
    → All (IsUpToDate m) ledger
    → All (IsKnownIn ledger) m
    → brought_up fresh now m ledger ≡ ledger
brought_up-settled fresh now m ledger h k =
    ap (λ xs. xs ++ additions fresh now (known_ids xs) 0 m) (reconciled-same m ledger h)
    ∙ ap (λ ys. ledger ++ ys) (additions-known fresh now ledger 0 m k)
    ∙ append-nil ledger

brought_up-kept :
    (fresh : ℕ → Text) (now : ℕ) (m : List (Text × InFlight)) (ledger : List LedgerEntry)
    → take (length ledger) (brought_up fresh now m ledger) ≡ map (with_line m) ledger
brought_up-kept fresh now m ledger =
    let f : LedgerEntry → LedgerEntry = λ e. with_command (new_command m e) e in
    take-map-append f ledger (additions fresh now (known_ids (map f ledger)) 0 m)
    ∙ map-with_line m ledger

-- After a snapshot the ledger has an entry for every command in flight, and every entry of a command
-- in flight that has a command line shows that line. The entries from before come first, in their
-- order, and keep all else. The same snapshot once more changes nothing, whatever new ids and time
-- it brings.
pub reconcile_lem :
    (fresh again : ℕ → Text) (now later : ℕ) (workspaces : List WorkspaceSnapshot)
    (ledger : List LedgerEntry)
    → let m = in_flight workspaces in
      let reconciled = reconcile fresh now m ledger in
      All (IsEntered reconciled) m
      × All (IsShowing m) reconciled
      × (take (length ledger) reconciled ≡ map (with_line m) ledger)
      × (reconcile again later m reconciled ≡ reconciled)
unfolding in_flight
reconcile_lem fresh again now later workspaces ledger =
    let m = add_workspaces workspaces [] in
    let after = brought_up fresh now m ledger in
    let up = brought_up-AreUpToDate fresh now m ledger (add_workspaces-IsMap workspaces [] tt) in
    let known = brought_up-AreKnown fresh now m ledger in
    rw (reconcile-brought_up fresh now m ledger) (
      All-map (IsKnownIn→IsEntered after) m known,
      All-map (IsUpToDate→IsShowing m) after up,
      brought_up-kept fresh now m ledger,
      reconcile-brought_up again later m after ∙ brought_up-settled again later m after up known,
    )
