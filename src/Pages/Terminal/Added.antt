-- ===== src/Pages/Terminal/Added.antt =====
-- Entries that follow their commands, and new entries
-- (web/src/pages/sandbox/terminal/TerminalTab.tsx).
use ephemeral_sandbox_consol.Base.{
  ℕ, ◌+◌, ◌≡◌, refl, sym, ap, ap₂, ◌∙◌, subst, ◌⊎◌, inl, inr, true, false, Option, none, some, List,
  [], ◌∷◌, ◌++◌, map, arith, Bool-cases, Option-cases, All, Text, text_eq_iff, text_eq_refl,
  All-map,
}
use ephemeral_sandbox_consol.Base.Keyed.{get, has}
use ephemeral_sandbox_consol.Core.Ledger.{LedgerEntry, entry_from_snapshot}
use ephemeral_sandbox_consol.Pages.Terminal.{
  InFlight, differing, command_of, command_for, new_command, with_command, id_and, known_ids,
  additions,
}
use ephemeral_sandbox_consol.Pages.Terminal.Maps.{IsFound}

-- The entry has the command of its execution.
abbrev pub IsUpToDate : List (Text × InFlight) → LedgerEntry → Type 0
IsUpToDate m e = new_command m e ≡ none

differing_again :
    (cmd command : Text) (given : Option Text)
    → differing cmd given ≡ some command
    → differing command given ≡ none
differing_again cmd command none h = absurd (let p : none ≡ some command = h in cc)
differing_again cmd command (some []) h = absurd (let p : none ≡ some command = h in cc)
differing_again cmd command (some (c ∷ s)) h = ground (arith, h, text_eq_iff (c ∷ s) command)

command_for_again :
    (m : List (Text × InFlight)) (cmd command : Text) (id : Option Text)
    → command_for m cmd id ≡ some command
    → command_for m command id ≡ none
command_for_again m cmd command none h = absurd (let p : none ≡ some command = h in cc)
command_for_again m cmd command (some []) h = absurd (let p : none ≡ some command = h in cc)
command_for_again m cmd command (some (c ∷ s)) h =
    differing_again cmd command (command_of (get (c ∷ s) m)) h

with_command-IsUpToDate :
    (m : List (Text × InFlight)) (e : LedgerEntry) → IsUpToDate m (with_command (new_command m e) e)
with_command-IsUpToDate m e = elim (Option-cases (new_command m e)) [
  | inl h ↦ rw (h) h
  | inr (command, h) ↦ rw (h) (command_for_again m e.cmd command e.command_session_id h)
]

noted-UpToDate :
    (uuid id : Text) (now : ℕ) (workspace : Text) (command : Option Text)
    → differing (entry_from_snapshot uuid now id workspace command).cmd command ≡ none
unfolding entry_from_snapshot
noted-UpToDate uuid id now workspace none = refl
noted-UpToDate uuid id now workspace (some []) = refl
noted-UpToDate uuid id now workspace (some (c ∷ s)) = ground (arith, text_eq_refl (c ∷ s))

added-IsUpToDate :
    (m : List (Text × InFlight)) (uuid id : Text) (now : ℕ) (execution : InFlight)
    → get id m ≡ some execution
    → IsUpToDate m (entry_from_snapshot uuid now id execution.workspace_id execution.command)
unfolding entry_from_snapshot
added-IsUpToDate m uuid [] now execution h = refl
added-IsUpToDate m uuid (c ∷ s) now execution h =
    ap
      (λ x.
        differing
          (entry_from_snapshot uuid now (c ∷ s) execution.workspace_id execution.command).cmd
          (command_of x))
      h
    ∙ noted-UpToDate uuid (c ∷ s) now execution.workspace_id execution.command

pub additions-AreUpToDate :
    (whole : List (Text × InFlight)) (fresh : ℕ → Text) (now : ℕ) (known : List Text) (n : ℕ)
    (m : List (Text × InFlight))
    → All (IsFound whole) m
    → All (IsUpToDate whole) (additions fresh now known n m)
additions-AreUpToDate whole fresh now known n [] h = tt
additions-AreUpToDate whole fresh now known n ((id, execution) ∷ m) (h, hs) =
    elim (Bool-cases (has id known)) [
      | inl e ↦ rw (e) (additions-AreUpToDate whole fresh now known n m hs)
      | inr e ↦ rw (e) (
        added-IsUpToDate whole (fresh n) id now execution h,
        additions-AreUpToDate whole fresh now known (n + 1) m hs,
      )
    ]

-- The ledger has an entry of the id.
abbrev pub IsKnownIn : List LedgerEntry → Text × InFlight → Type 0
IsKnownIn ledger p = has p.0 (known_ids ledger) ≡ true

IsKnownIn-cons :
    (e : LedgerEntry) (es : List LedgerEntry) (p : Text × InFlight)
    → IsKnownIn es p
    → IsKnownIn (e ∷ es) p
IsKnownIn-cons e es p h = go e.command_session_id
  where
    go : (id : Option Text) → has p.0 (id_and id (known_ids es)) ≡ true
    go none = h
    go (some id) = ground (arith, h)

pub IsKnownIn-append_left :
    (xs ys : List LedgerEntry) (p : Text × InFlight) → IsKnownIn xs p → IsKnownIn (xs ++ ys) p
IsKnownIn-append_left [] ys p h = absurd (let q : false ≡ true = h in cc)
IsKnownIn-append_left (x ∷ xs) ys p h = go x.command_session_id (IsKnownIn-append_left xs ys p) h
  where
    go :
        (id : Option Text)
        → (IsKnownIn xs p → IsKnownIn (xs ++ ys) p)
        → has p.0 (id_and id (known_ids xs)) ≡ true
        → has p.0 (id_and id (known_ids (xs ++ ys))) ≡ true
    go none later k = later k
    go (some id) later k = elim (Bool-cases (has p.0 (known_ids xs))) [
      | inl e ↦ let l = later e in ground (arith, l)
      | inr e ↦ ground (arith, e, k)
    ]

pub IsKnownIn-append_right :
    (xs ys : List LedgerEntry) (p : Text × InFlight) → IsKnownIn ys p → IsKnownIn (xs ++ ys) p
IsKnownIn-append_right [] ys p h = h
IsKnownIn-append_right (x ∷ xs) ys p h =
    IsKnownIn-cons x (xs ++ ys) p (IsKnownIn-append_right xs ys p h)

additions-skipped :
    (fresh : ℕ → Text) (now : ℕ) (known : List Text) (n : ℕ) (p : Text × InFlight)
    (m : List (Text × InFlight))
    → has p.0 known ≡ true
    → additions fresh now known n (p ∷ m) ≡ additions fresh now known n m
additions-skipped fresh now known n p m e = rw (e) refl

additions-added :
    (fresh : ℕ → Text) (now : ℕ) (known : List Text) (n : ℕ) (p : Text × InFlight)
    (m : List (Text × InFlight))
    → has p.0 known ≡ false
    → additions fresh now known n (p ∷ m)
      ≡ entry_from_snapshot (fresh n) now p.0 p.1.workspace_id p.1.command
        ∷ additions fresh now known (n + 1) m
additions-added fresh now known n p m e = rw (e) refl

-- Known before, or one of the new entries.
abbrev pub IsListed : List LedgerEntry → List LedgerEntry → Text × InFlight → Type 0
IsListed ledger added p = IsKnownIn ledger p ⊎ IsKnownIn added p

pub additions-AreKnown :
    (fresh : ℕ → Text) (now : ℕ) (ledger : List LedgerEntry) (n : ℕ) (m : List (Text × InFlight))
    → All (IsListed ledger (additions fresh now (known_ids ledger) n m)) m
unfolding entry_from_snapshot
additions-AreKnown fresh now ledger n [] = tt
additions-AreKnown fresh now ledger n ((id, execution) ∷ m) =
    elim (Bool-cases (has id (known_ids ledger))) [
      | inl e ↦
          subst (λ added. All (IsListed ledger added) ((id, execution) ∷ m))
            (sym (additions-skipped fresh now (known_ids ledger) n (id, execution) m e))
            (inl e, additions-AreKnown fresh now ledger n m)
      | inr e ↦
          let entry : LedgerEntry =
            entry_from_snapshot (fresh n) now id execution.workspace_id execution.command in
          subst (λ added. All (IsListed ledger added) ((id, execution) ∷ m))
            (sym (additions-added fresh now (known_ids ledger) n (id, execution) m e))
            (
              inr (ground (arith, text_eq_refl id)),
              All-map {P = IsListed ledger (additions fresh now (known_ids ledger) (n + 1) m)}
                  (λ p h. elim h [
                    | inl k ↦ inl k
                    | inr k ↦ inr (
                        IsKnownIn-cons entry (additions fresh now (known_ids ledger) (n + 1) m) p k)
                  ])
                  m (additions-AreKnown fresh now ledger (n + 1) m),
            )
    ]

-- Nothing is added for ids that are known.
pub additions-known :
    (fresh : ℕ → Text) (now : ℕ) (ledger : List LedgerEntry) (n : ℕ) (m : List (Text × InFlight))
    → All (IsKnownIn ledger) m
    → additions fresh now (known_ids ledger) n m ≡ []
additions-known fresh now ledger n [] h = refl
additions-known fresh now ledger n ((id, execution) ∷ m) (h, hs) =
    rw (h) (additions-known fresh now ledger n m hs)

known_ids-reconciled :
    (m : List (Text × InFlight)) (ledger : List LedgerEntry)
    → known_ids (map (λ e. with_command (new_command m e) e) ledger) ≡ known_ids ledger
known_ids-reconciled m [] = refl
known_ids-reconciled m (e ∷ es) = ap₂ id_and (kept (new_command m e)) (known_ids-reconciled m es)
  where
    kept : (c : Option Text) → (with_command c e).command_session_id ≡ e.command_session_id
    kept none = refl
    kept (some c) = refl

pub reconciled-AreUpToDate :
    (m : List (Text × InFlight)) (ledger : List LedgerEntry)
    → All (IsUpToDate m) (map (λ e. with_command (new_command m e) e) ledger)
reconciled-AreUpToDate m [] = tt
reconciled-AreUpToDate m (e ∷ es) = (with_command-IsUpToDate m e, reconciled-AreUpToDate m es)

pub reconciled-same :
    (m : List (Text × InFlight)) (ledger : List LedgerEntry)
    → All (IsUpToDate m) ledger
    → map (λ e. with_command (new_command m e) e) ledger ≡ ledger
reconciled-same m [] h = refl
reconciled-same m (e ∷ es) (h, hs) = ap₂ (λ c t. with_command c e ∷ t) h (reconciled-same m es hs)
