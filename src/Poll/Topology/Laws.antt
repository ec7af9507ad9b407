-- ===== src/Poll/Topology/Laws.antt =====
-- When the topology is requested (web/src/poll/useProcessTopology.ts).
use ephemeral_sandbox_consol.Base.{
  ℕ, suc, ◌≤◌, ◌≡◌, refl, sym, ap, ◌∙◌, subst, ◌⊎◌, inl, inr, Bool, true, false, Option, none, some,
  List, [], ◌∷◌, arith, if◌then◌else◌, or_else, All,
}
use ephemeral_sandbox_consol.Poll.Topology.{
  TopologyHook, manager_checked, topology_enabled, request_topology, update_visibility,
  TopologyEvent, visibility, inspected, ask, makes_request, handle, topology_requests,
}

-- The page stays as visible as it is or hides, and no answer of the manager is newer.
abbrev pub IsOld : ℕ → TopologyEvent → Type 0
IsOld time (visibility true) = ⊥
IsOld time (visibility false) = Unit
IsOld time (inspected r at) = at ≤ time
IsOld time (ask response) = Unit

-- The page is hidden, or has been visible since a time that no answer of the manager has passed.
abbrev IsWaiting : ℕ → TopologyHook → Type 0
IsWaiting time h = (h.visible ≡ false) ⊎ ((h.floor ≡ some time) × (or_else h.updated_at 0 ≤ time))

waiting-checked :
    (time : ℕ) (at : Option ℕ) → or_else at 0 ≤ time → manager_checked (some time) at ≡ false
waiting-checked time none h = refl
waiting-checked time (some at) h = ground arith

topology_enabled-waiting :
    (time : ℕ) (h : TopologyHook) → IsWaiting time h → topology_enabled h ≡ false
unfolding topology_enabled
topology_enabled-waiting time h (inl hidden) = ground arith
topology_enabled-waiting time h (inr (e, late)) =
    ground
      (arith, ap (λ f. manager_checked f h.updated_at) e ∙ waiting-checked time h.updated_at late)

handle-IsWaiting :
    (time : ℕ) (e : TopologyEvent) (h : TopologyHook)
    → IsOld time e
    → IsWaiting time h
    → IsWaiting time (handle e h)
unfolding handle update_visibility
handle-IsWaiting time (visibility true) h old w = elim old [ ]
handle-IsWaiting time (visibility false) h old w = inl refl
handle-IsWaiting time (inspected r at) h old (inl hidden) = inl hidden
handle-IsWaiting time (inspected r at) h old (inr (e, late)) = inr (e, old)
handle-IsWaiting time (ask response) h old w =
    subst (λ (b : Bool). IsWaiting time (if b then request_topology response h else h))
      (sym (topology_enabled-waiting time h w)) w

requests-waiting :
    (time : ℕ) (es : List TopologyEvent) (h : TopologyHook)
    → All (IsOld time) es
    → IsWaiting time h
    → topology_requests es h ≡ 0
unfolding topology_requests
requests-waiting time [] h olds w = refl
requests-waiting time (e ∷ es) h (old, olds) w =
    ap
      (λ (b : Bool).
        if b then suc (topology_requests es (handle e h)) else topology_requests es (handle e h))
      (quiet e)
    ∙ requests-waiting time es (handle e h) olds (handle-IsWaiting time e h old w)
  where
    quiet : (e' : TopologyEvent) → makes_request e' h ≡ false
    quiet (visibility b) = refl
    quiet (inspected r at) = refl
    quiet (ask response) = topology_enabled-waiting time h w

-- A page that was hidden and becomes visible makes no request, whatever is asked and whatever answers
-- the manager gave while it was hidden, until the manager answers at a time after the newest of these.
pub topology_requests-focus :
    (h : TopologyHook) (es : List TopologyEvent)
    → h.visible ≡ false
    → All (IsOld (or_else h.updated_at 0)) es
    → topology_requests (visibility true ∷ es) h ≡ 0
unfolding topology_requests handle update_visibility
topology_requests-focus h es hidden olds =
    let time : ℕ = or_else h.updated_at 0 in
    let shown : TopologyHook = record h { visible = true; floor = some time } in
    ap (λ (b : Bool). topology_requests es (if b then h else shown)) hidden
    ∙ requests-waiting time es shown olds (inr (refl, omega arith))
