-- ===== src/Pages/Terminal/Finalize.antt =====
-- The requests for ended commands (web/src/pages/sandbox/terminal/TerminalTab.tsx).
use ephemeral_sandbox_consol.Base.{
  ◌≡◌, refl, sym, ap, ◌∙◌, subst, ◌≢◌, inl, inr, true, false, ◌&&◌, Option, none, some, List, [],
  ◌∷◌, ◌++◌, arith, Bool-cases, Option-cases, or_else, All, Text, text_eq_iff, Pairwise, All-map,
}
use ephemeral_sandbox_consol.Base.Keyed.{get, has}
use ephemeral_sandbox_consol.Core.Ledger.{LedgerEntry}
use ephemeral_sandbox_consol.Pages.Terminal.{InFlight, is_running, ended_unread, add_id, finalize}

-- A running entry whose command is neither in flight nor asked for already.
abbrev pub IsAsked : List (Text × InFlight) → List Text → LedgerEntry → Type 0
IsAsked m finalizing e =
    (is_running e.status ≡ true)
    × ((id : Text) × (e.command_session_id ≡ some id)
        × (get id m ≡ none)
        × (has id finalizing ≡ false))

abbrev pub AskOthers : LedgerEntry → LedgerEntry → Type 0
AskOthers a b = a.command_session_id ≢ b.command_session_id

has-snoc :
    (x y : Text) (xs : List Text) → has x (xs ++ y ∷ []) ≡ false → (has x xs ≡ false) × (y ≢ x)
has-snoc x y [] h = (refl, λ e. ground (arith, h, text_eq_iff y x))
has-snoc x y (z ∷ xs) h =
    let later = has-snoc x y xs (ground (arith, h)) in (ground (arith, h, later.0), later.1)

IsAsked-of :
    (m : List (Text × InFlight)) (finalizing : List Text) (e : LedgerEntry)
    → is_running e.status && ended_unread m finalizing e.command_session_id ≡ true
    → IsAsked m finalizing e
IsAsked-of m finalizing e h = (ground (arith, h), ended e.command_session_id (ground (arith, h)))
  where
    ended :
        (o : Option Text)
        → ended_unread m finalizing o ≡ true
        → (id : Text) × (o ≡ some id) × (get id m ≡ none) × (has id finalizing ≡ false)
    ended none k = absurd (let p : false ≡ true = k in cc)
    ended (some []) k = absurd (let p : false ≡ true = k in cc)
    ended (some (c ∷ s)) k = elim (Option-cases (get (c ∷ s) m)) [
      | inl f ↦ (c ∷ s, refl, f, ground (arith, k, f))
      | inr (x, f) ↦ absurd (ground (arith, k, f))
    ]

IsAsked-fewer :
    (m : List (Text × InFlight)) (finalizing : List Text) (id : Text) (e : LedgerEntry)
    → IsAsked m (finalizing ++ id ∷ []) e
    → IsAsked m finalizing e × (e.command_session_id ≢ some id)
IsAsked-fewer m finalizing id e (running, (own, same, ended, unread)) =
    let fresh = has-snoc own id finalizing unread in
    (
      (running, (own, same, ended, fresh.0)),
      λ k.
          fresh.1 (
            ap (λ (o : Option Text). or_else o [])
              (let p : some id ≡ some own = sym k ∙ same in p)),
    )

abbrev pub AreAsked : List (Text × InFlight) → List Text → List LedgerEntry → Type 0
AreAsked m finalizing es = All (IsAsked m finalizing) es × Pairwise AskOthers es

AreAsked-cons :
    (m : List (Text × InFlight)) (finalizing : List Text) (e : LedgerEntry) (es : List LedgerEntry)
    → IsAsked m finalizing e
    → AreAsked m (add_id e.command_session_id finalizing) es
    → AreAsked m finalizing (e ∷ es)
AreAsked-cons m finalizing e es (running, (own, same, ended, unread)) (h, d) =
    let fewer : (x : LedgerEntry)
        → IsAsked m (add_id e.command_session_id finalizing) x
        → IsAsked m finalizing x × (x.command_session_id ≢ some own) =
      λ x j.
        IsAsked-fewer m finalizing own x (subst (λ o. IsAsked m (add_id o finalizing) x) same j) in
    (
      ((running, (own, same, ended, unread)), All-map (λ x j. (fewer x j).0) es h),
      (All-map (λ x j f. (fewer x j).1 (sym f ∙ same)) es h, d),
    )

-- The last lines of ended commands are asked for only where an entry still runs and its command is
-- not in flight, never for a command that is being asked for, and never twice for one command.
pub finalize-AreAsked :
    (m : List (Text × InFlight)) (ledger : List LedgerEntry) (finalizing : List Text)
    → AreAsked m finalizing (finalize m finalizing ledger).0
unfolding finalize
finalize-AreAsked m [] finalizing = (tt, tt)
finalize-AreAsked m (e ∷ es) finalizing =
    elim (Bool-cases (is_running e.status && ended_unread m finalizing e.command_session_id)) [
      | inl h ↦
          rw (h, finalize)
            (AreAsked-cons m finalizing e _ (IsAsked-of m finalizing e h)
              (finalize-AreAsked m es (add_id e.command_session_id finalizing)))
      | inr h ↦ rw (h, finalize) (finalize-AreAsked m es finalizing)
    ]
