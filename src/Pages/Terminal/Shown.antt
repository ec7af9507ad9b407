-- ===== src/Pages/Terminal/Shown.antt =====
-- The line that an entry shows beside the commands in flight
-- (web/src/pages/sandbox/terminal/TerminalTab.tsx).
use ephemeral_sandbox_consol.Base.{
  ◌≡◌, refl, sym, ap, ap₂, ◌∙◌, inl, inr, Bool, true, false, ◌||◌, Option, none, some, List, [],
  ◌∷◌, ◌++◌, map, arith, if◌then◌else◌, Bool-cases, Option-cases, length, take, Some, Text, ◌==◌,
  text_eq_iff,
}
use ephemeral_sandbox_consol.Base.Keyed.{get, has}
use ephemeral_sandbox_consol.Core.Ledger.{LedgerEntry}
use ephemeral_sandbox_consol.Pages.Terminal.{
  InFlight, differing, command_of, command_for, new_command, with_command, id_and, known_ids,
}
use ephemeral_sandbox_consol.Pages.Terminal.Added.{IsUpToDate, IsKnownIn}

-- The line of a command, unless it has none or a blank one.
abbrev pub line_of : Text → Option Text → Text
line_of line (some (c ∷ s)) = c ∷ s
line_of line _ = line

-- The line of the command that is found in flight.
abbrev pub line_found : Text → Option InFlight → Text
line_found line none = line
line_found line (some execution) = line_of line execution.command

-- The line that an entry with the given line and command id shows: that of its command in flight,
-- if there is one with a line.
abbrev pub line_for : List (Text × InFlight) → Text → Option Text → Text
line_for m line (some (c ∷ s)) = line_found line (get (c ∷ s) m)
line_for m line _ = line

-- The entry with the line of its command, and all else as it was.
abbrev pub with_line : List (Text × InFlight) → LedgerEntry → LedgerEntry
with_line m e = record e { cmd = line_for m e.cmd e.command_session_id }

-- The entry shows the line of its command in flight, if there is one with a line.
abbrev pub IsShowing : List (Text × InFlight) → LedgerEntry → Type 0
IsShowing m e = e.cmd ≡ line_for m e.cmd e.command_session_id

-- The ledger has an entry of the command.
abbrev pub IsEntered : List LedgerEntry → Text × InFlight → Type 0
IsEntered ledger p = Some (λ (e : LedgerEntry). e.command_session_id ≡ some p.0) ledger

with_differing :
    (e : LedgerEntry) (given : Option Text)
    → with_command (differing e.cmd given) e ≡ record e { cmd = line_of e.cmd given }
with_differing e none = refl
with_differing e (some []) = refl
with_differing e (some (c ∷ s)) = elim (Bool-cases ((c ∷ s) == e.cmd)) [
  | inl h ↦
      ap (λ (b : Bool). with_command (if b then none else some (c ∷ s)) e) h
      ∙ ap (λ line. record e { cmd = line }) (sym ((text_eq_iff (c ∷ s) e.cmd).0 h))
  | inr h ↦ ap (λ (b : Bool). with_command (if b then none else some (c ∷ s)) e) h
]

with_found :
    (e : LedgerEntry) (found : Option InFlight)
    → with_command (differing e.cmd (command_of found)) e
      ≡ record e { cmd = line_found e.cmd found }
with_found e none = refl
with_found e (some execution) = with_differing e execution.command

pub with_command-line :
    (m : List (Text × InFlight)) (e : LedgerEntry)
    → with_command (new_command m e) e ≡ with_line m e
with_command-line m e = by_id e.command_session_id
  where
    by_id :
        (id : Option Text)
        → with_command (command_for m e.cmd id) e ≡ record e { cmd = line_for m e.cmd id }
    by_id none = refl
    by_id (some []) = refl
    by_id (some (c ∷ s)) = with_found e (get (c ∷ s) m)

pub IsUpToDate→IsShowing :
    (m : List (Text × InFlight)) (e : LedgerEntry) → IsUpToDate m e → IsShowing m e
IsUpToDate→IsShowing m e h =
    ap (λ (f : LedgerEntry). f.cmd) (ap (λ c. with_command c e) (sym h) ∙ with_command-line m e)

pub IsKnownIn→IsEntered :
    (ledger : List LedgerEntry) (p : Text × InFlight) → IsKnownIn ledger p → IsEntered ledger p
IsKnownIn→IsEntered [] p h = absurd (let q : false ≡ true = h in cc)
IsKnownIn→IsEntered (e ∷ es) p h = elim (Option-cases e.command_session_id) [
  | inl k ↦ inr (IsKnownIn→IsEntered es p (ap (λ o. has p.0 (id_and o (known_ids es))) (sym k) ∙ h))
  | inr (id, k) ↦
      let either : (id == p.0 || has p.0 (known_ids es)) ≡ true =
        ap (λ o. has p.0 (id_and o (known_ids es))) (sym k) ∙ h in
      elim (Bool-cases (id == p.0)) [
        | inl l ↦ inl (k ∙ ap some ((text_eq_iff id p.0).0 l))
        | inr l ↦ inr (IsKnownIn→IsEntered es p (ground (arith, either, l)))
      ]
]

pub take-map-append :
    (f : LedgerEntry → LedgerEntry) (xs ys : List LedgerEntry)
    → take (length xs) (map f xs ++ ys) ≡ map f xs
take-map-append f [] ys = refl
take-map-append f (x ∷ xs) ys = ap (λ t. f x ∷ t) (take-map-append f xs ys)

pub map-with_line :
    (m : List (Text × InFlight)) (ledger : List LedgerEntry)
    → map (λ e. with_command (new_command m e) e) ledger ≡ map (with_line m) ledger
map-with_line m [] = refl
map-with_line m (e ∷ es) = ap₂ (λ x xs. x ∷ xs) (with_command-line m e) (map-with_line m es)
