-- ===== src/Pages/Terminal/Maps.antt =====
-- The map of the commands in flight (web/src/pages/sandbox/terminal/TerminalTab.tsx).
use ephemeral_sandbox_consol.Base.{
  ◌≡◌, refl, sym, ap, ◌∙◌, inl, inr, none, some, List, [], ◌∷◌, arith, Bool-cases, All, Text, ◌==◌,
  text_eq_iff, text_eq_refl, text_discrete, All-map,
}
use ephemeral_sandbox_consol.Base.Keyed.{get, set, get-set}
use ephemeral_sandbox_consol.Api.Observability.{ActiveExecution, WorkspaceSnapshot}
use ephemeral_sandbox_consol.Pages.Terminal.{InFlight, add_executions, add_workspaces}

-- The keys of a map differ.
abbrev pub IsMap : List (Text × InFlight) → Type 0
IsMap [] = Unit
IsMap ((k, v) ∷ m) = (get k m ≡ none) × IsMap m

set-IsMap : (k : Text) (v : InFlight) (m : List (Text × InFlight)) → IsMap m → IsMap (set k v m)
set-IsMap k v [] h = (refl, tt)
set-IsMap k v ((j, w) ∷ m) (h, hs) = elim (Bool-cases (j == k)) [
  | inl e ↦ rw (e) (h, hs)
  | inr e ↦
      rw (e) (
        get-set j k v m ∙ ground (arith, e, h, text_eq_iff j k, text_eq_iff k j),
        set-IsMap k v m hs,
      )
]

add_executions-IsMap :
    (workspace : Text) (xs : List ActiveExecution) (m : List (Text × InFlight))
    → IsMap m
    → IsMap (add_executions workspace xs m)
add_executions-IsMap workspace [] m h = h
add_executions-IsMap workspace (x ∷ xs) m h =
    add_executions-IsMap workspace xs _ (set-IsMap x.namespace_execution_id _ m h)

pub add_workspaces-IsMap :
    (ws : List WorkspaceSnapshot) (m : List (Text × InFlight))
    → IsMap m
    → IsMap (add_workspaces ws m)
add_workspaces-IsMap [] m h = h
add_workspaces-IsMap (w ∷ ws) m h =
    add_workspaces-IsMap ws _
      (add_executions-IsMap w.workspace_id w.active_namespace_executions m h)

-- The entry of a map is what its key finds.
abbrev pub IsFound : List (Text × InFlight) → Text × InFlight → Type 0
IsFound m p = get p.0 m ≡ some p.1

IsFound-later :
    (k : Text) (v : InFlight) (m : List (Text × InFlight)) (p : Text × InFlight)
    → get k m ≡ none
    → IsFound m p
    → IsFound ((k, v) ∷ m) p
IsFound-later k v m p h f = elim (text_discrete k p.0) [
  | yes e ↦ absurd (let q : none ≡ some p.1 = sym h ∙ ap (λ t. get t m) e ∙ f in cc)
  | no d ↦ ground (arith, d, f, text_eq_iff k p.0)
]

pub IsMap-AreFound : (m : List (Text × InFlight)) → IsMap m → All (IsFound m) m
IsMap-AreFound [] h = tt
IsMap-AreFound ((k, v) ∷ m) (h, hs) = (
  ground (arith, text_eq_refl k),
  All-map (λ p f. IsFound-later k v m p h f) m (IsMap-AreFound m hs),
)
