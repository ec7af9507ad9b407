-- ===== src/Core/Estimates/Before.antt =====
-- The processor time of a process in the sample before
-- (`indexProcesses` of web/src/pages/sandbox/observability/processEstimates.ts).
use ephemeral_sandbox_consol.Base.{
  ℕ, ◌-◌, ◌≡◌, refl, sym, ap, ap₂, ◌∙◌, inl, inr, Bool, true, false, ◌&&◌, Option, none, some, List,
  [], ◌∷◌, ◌++◌, arith, leb, nat_eq, if◌then◌else◌, Bool-cases, Text, ◌==◌, text_eq_iff,
  non_negative,
}
use ephemeral_sandbox_consol.Base.Keyed.{get, get-set}
use ephemeral_sandbox_consol.Base.Strings.{decimal}
use ephemeral_sandbox_consol.Base.Strings.Decimal.{colons-injective}
use ephemeral_sandbox_consol.Api.Topology.{
  WorkspaceProcess, WorkspaceProcesses, WorkspaceProcessTopology,
}
use ephemeral_sandbox_consol.Core.Estimates.{
  process_identity, index_process, index_workspace, index_from, index_processes, cpu_delta,
  identity_of, delta_of, earlier,
}

abbrev pub or_else : Option ℕ → Option ℕ → Option ℕ
or_else none o = o
or_else (some n) o = some n

-- Whether a number is known and is the given one.
abbrev pub is_number : ℕ → Option ℕ → Bool
is_number n none = false
is_number n (some m) = nat_eq m n

-- The time of the last process of a process id and start, if there is one whose time is known.
abbrev pub last_time : ℕ → ℕ → List WorkspaceProcess → Option ℕ
last_time pid start [] = none
last_time pid start (p ∷ ps) = or_else (last_time pid start ps) (
    if nat_eq p.pid pid && is_number start (non_negative p.start_time_ticks)
    then non_negative p.cpu_time_us
    else none)

-- The same over the workspaces of an id.
abbrev pub last_before : Text → ℕ → ℕ → List WorkspaceProcesses → Option ℕ
last_before id pid start [] = none
last_before id pid start (w ∷ ws) =
    or_else (last_before id pid start ws)
      (if w.workspace_id == id then last_time pid start w.processes else none)

-- What a counter has gained, when both numbers are known and it has not gone back.
abbrev pub gained : Option ℕ → Option ℕ → Option ℕ
gained (some before) (some now) = if leb before now then some (now - before) else none
gained _ _ = none

-- What a process of the workspace has gained since the sample before.
abbrev pub gain_of : WorkspaceProcessTopology → Text → WorkspaceProcess → Option ℕ
gain_of previous id p = elim (non_negative p.start_time_ticks) [
  | none ↦ none
  | some start ↦
      gained (last_before id p.pid start previous.workspaces) (non_negative p.cpu_time_us)
]

-- The key of a process in a workspace.
abbrev key_of : Text → ℕ → ℕ → Text
key_of id pid start = id ++ b':' ∷ (decimal pid ++ b':' ∷ decimal start)

key_of_iff :
    (a b : Text) (m n k l : ℕ)
    → (key_of a m n == key_of b k l) ≡ ((a == b) && (nat_eq m k && nat_eq n l))
key_of_iff a b m n k l = elim (Bool-cases (key_of a m n == key_of b k l)) [
  | inl e ↦
      let (p, q, r) =
        colons-injective a b m n k l ((text_eq_iff (key_of a m n) (key_of b k l)).0 e) in
      let same : (a == b) ≡ true = (text_eq_iff a b).1 p in e ∙ sym (ground (arith, same, q, r))
  | inr e ↦ elim (Bool-cases ((a == b) && (nat_eq m k && nat_eq n l))) [
    | inr f ↦ e ∙ sym f
    | inl f ↦
        let p : a ≡ b = (text_eq_iff a b).0 (ground (arith, f)) in
        let q : m ≡ k = ground (arith, f) in
        let r : n ≡ l = ground (arith, f) in
        absurd (
          let s : true ≡ false =
            sym (
              (text_eq_iff (key_of a m n) (key_of b k l)).1
                (ap₂ (λ x y. x ++ b':' ∷ y) p (ap₂ (λ x y. decimal x ++ b':' ∷ decimal y) q r)))
            ∙ e in
          cc)
  ]
]

get-index_process :
    (w : WorkspaceProcesses) (m : ℕ) (s t : Option ℕ) (id : Text) (pid start : ℕ)
    (times : List (Text × ℕ))
    → get (key_of id pid start) (index_process w (identity_of m s) t times)
      ≡ or_else
          (if (w.workspace_id == id) && (nat_eq m pid && is_number start s) then t else none)
          (get (key_of id pid start) times)
get-index_process w m none t id pid start times = ground arith
get-index_process w m (some s) none id pid start times = ground arith
get-index_process w m (some s) (some t) id pid start times =
    let key : Text = key_of id pid start in
    get-set key (key_of w.workspace_id m s) t times
    ∙ ap (λ (b : Bool). if b then some t else get key times)
        (key_of_iff w.workspace_id id m s pid start)
    ∙ merged ((w.workspace_id == id) && (nat_eq m pid && nat_eq s start))
  where
    merged :
        (b : Bool)
        → (if b then some t else get (key_of id pid start) times)
          ≡ or_else (if b then some t else none) (get (key_of id pid start) times)
    merged true = refl
    merged false = refl

or_else-nested :
    (a c : Bool) (later t o : Option ℕ)
    → or_else (if a then later else none) (or_else (if a && c then t else none) o)
      ≡ or_else (if a then or_else later (if c then t else none) else none) o
or_else-nested false c later t o = refl
or_else-nested true c none t o = refl
or_else-nested true c (some n) t o = refl

or_else_assoc : (a b c : Option ℕ) → or_else a (or_else b c) ≡ or_else (or_else a b) c
or_else_assoc none b c = refl
or_else_assoc (some n) b c = refl

get-index_workspace :
    (w : WorkspaceProcesses) (ps : List WorkspaceProcess) (id : Text) (pid start : ℕ)
    (times : List (Text × ℕ))
    → get (key_of id pid start) (index_workspace w ps times)
      ≡ or_else
          (if w.workspace_id == id then last_time pid start ps else none)
          (get (key_of id pid start) times)
unfolding process_identity
get-index_workspace w [] id pid start times = ground arith
get-index_workspace w (p ∷ ps) id pid start times =
    let s : Option ℕ = non_negative p.start_time_ticks in
    let t : Option ℕ = non_negative p.cpu_time_us in
    get-index_workspace w ps id pid start (index_process w (identity_of p.pid s) t times)
    ∙ ap (or_else (if w.workspace_id == id then last_time pid start ps else none))
        (get-index_process w p.pid s t id pid start times)
    ∙ or_else-nested (w.workspace_id == id) (nat_eq p.pid pid && is_number start s)
        (last_time pid start ps) t (get (key_of id pid start) times)

get-index_from :
    (ws : List WorkspaceProcesses) (id : Text) (pid start : ℕ) (times : List (Text × ℕ))
    → get (key_of id pid start) (index_from ws times)
      ≡ or_else (last_before id pid start ws) (get (key_of id pid start) times)
get-index_from [] id pid start times = refl
get-index_from (w ∷ ws) id pid start times =
    get-index_from ws id pid start (index_workspace w w.processes times)
    ∙ ap (or_else (last_before id pid start ws))
        (get-index_workspace w w.processes id pid start times)
    ∙ or_else_assoc (last_before id pid start ws)
        (if w.workspace_id == id then last_time pid start w.processes else none)
        (get (key_of id pid start) times)

or_else-none : (o : Option ℕ) → or_else o none ≡ o
or_else-none none = refl
or_else-none (some n) = refl

delta-eq-gained : (now before : Option ℕ) → delta_of now before ≡ gained before now
delta-eq-gained none none = refl
delta-eq-gained none (some before) = refl
delta-eq-gained (some now) none = refl
delta-eq-gained (some now) (some before) = ground arith

-- What the code takes for the gain of a process is its gain.
pub cpu_delta-eq-gain_of :
    (previous : WorkspaceProcessTopology) (w : WorkspaceProcesses) (p : WorkspaceProcess)
    → cpu_delta (some (index_processes previous)) w p ≡ gain_of previous w.workspace_id p
unfolding cpu_delta index_processes process_identity
cpu_delta-eq-gain_of previous w p = by_start (non_negative p.start_time_ticks)
  where
    by_start :
        (s : Option ℕ)
        → delta_of
            (non_negative p.cpu_time_us)
            (earlier (index_from previous.workspaces []) w (identity_of p.pid s))
          ≡ elim s [
            | none ↦ none
            | some start ↦
                gained
                  (last_before w.workspace_id p.pid start previous.workspaces)
                  (non_negative p.cpu_time_us)
          ]
    by_start none = delta-eq-gained (non_negative p.cpu_time_us) none
    by_start (some start) =
        ap (delta_of (non_negative p.cpu_time_us)) (
          get-index_from previous.workspaces w.workspace_id p.pid start []
          ∙ or_else-none (last_before w.workspace_id p.pid start previous.workspaces))
        ∙ delta-eq-gained (non_negative p.cpu_time_us)
            (last_before w.workspace_id p.pid start previous.workspaces)
