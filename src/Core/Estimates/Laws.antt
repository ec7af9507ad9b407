-- ===== src/Core/Estimates/Laws.antt =====
-- The estimates are sums over the processes that are known
-- (web/src/pages/sandbox/observability/processEstimates.ts).
use ephemeral_sandbox_consol.Base.{
  ℕ, zero, suc, ◌*◌, ◌≡◌, refl, ap, ap₂, ◌∙◌, Bool, true, false, Option, none, some, List, [], ◌∷◌,
  if◌then◌else◌, Text, ◌==◌, Ratio, filter_map,
}
use ephemeral_sandbox_consol.Base.Keyed.{get, set, get-set}
use ephemeral_sandbox_consol.Api.Topology.{
  WorkspaceProcess, WorkspaceProcesses, WorkspaceProcessTopology,
}
use ephemeral_sandbox_consol.Core.Estimates.Sums.{
  sum_or_null, known_memory, known_deltas, percent_or_null, expected, kept, estimate_of_lem,
}
use ephemeral_sandbox_consol.Core.Estimates.Before.{gain_of, cpu_delta-eq-gain_of}
use ephemeral_sandbox_consol.Core.Estimates.{
  index_processes, WorkspaceResourceEstimate, cpu_delta, estimate_of, times_before, estimates_from,
  estimate_workspace_resources,
}

-- The last workspace of an id.
abbrev pub last_of : Text → List WorkspaceProcesses → Option WorkspaceProcesses
last_of id [] = none
last_of id (w ∷ ws) = elim (last_of id ws) [
  | some v ↦ some v
  | none ↦ if w.workspace_id == id then some w else none
]

abbrev pub estimate_or :
    (WorkspaceProcesses → WorkspaceResourceEstimate)
    → Option WorkspaceResourceEstimate
    → Option WorkspaceProcesses
    → Option WorkspaceResourceEstimate
estimate_or f d none = d
estimate_or f d (some w) = some (f w)

estimates_from_lem :
    (times : Option (List (Text × ℕ))) (elapsed : Option ℕ) (id : Text)
    (ws : List WorkspaceProcesses) (estimates : List (Text × WorkspaceResourceEstimate))
    → get id (estimates_from times elapsed ws estimates)
      ≡ estimate_or (expected times elapsed) (get id estimates) (last_of id ws)
estimates_from_lem times elapsed id [] estimates = refl
estimates_from_lem times elapsed id (w ∷ ws) estimates =
    estimates_from_lem times elapsed id ws
      (set w.workspace_id (estimate_of times elapsed w) estimates)
    ∙ ap (λ d. estimate_or (expected times elapsed) d (last_of id ws))
        (get-set id w.workspace_id (estimate_of times elapsed w) estimates
          ∙ ap (λ e. if w.workspace_id == id then some e else get id estimates)
              (estimate_of_lem times elapsed w))
    ∙ rest (last_of id ws) (w.workspace_id == id)
  where
    rest :
        (o : Option WorkspaceProcesses) (b : Bool)
        → estimate_or
            (expected times elapsed)
            (if b then some (expected times elapsed w) else get id estimates)
            o
          ≡ estimate_or
              (expected times elapsed)
              (get id estimates)
              (elim o [ some v ↦ some v | none ↦ if b then some w else none ])
    rest (some v) b = refl
    rest none true = refl
    rest none false = refl

-- The share of a gain in microseconds in a time in milliseconds, in percent.
abbrev pub percentage : ℕ → Option ℕ → Option Ratio
percentage elapsed none = none
percentage elapsed (some gain) = some (record { num = gain * 100; den = elapsed * 1000 })

-- The processor share of a workspace: none without a sample before or without time elapsed.
abbrev pub share : Option WorkspaceProcessTopology → Option ℕ → WorkspaceProcesses → Option Ratio
share (some previous) (some (suc n)) w =
    percentage (suc n) (sum_or_null (filter_map (gain_of previous w.workspace_id) w.processes))
share _ _ w = none

-- The estimate by its description.
abbrev pub described :
    Option WorkspaceProcessTopology → Option ℕ → WorkspaceProcesses → WorkspaceResourceEstimate
described previous elapsed w = record {
  resident_memory_bytes = sum_or_null (known_memory w);
  cpu_percent = share previous elapsed w;
}

filter_map-same :
    (f g : WorkspaceProcess → Option ℕ) (ps : List WorkspaceProcess)
    → ((p : WorkspaceProcess) → f p ≡ g p)
    → filter_map f ps ≡ filter_map g ps
filter_map-same f g [] h = refl
filter_map-same f g (p ∷ ps) h = ap₂ kept (h p) (filter_map-same f g ps h)

filter_map-none : (ps : List WorkspaceProcess) → filter_map {B = ℕ} (λ p. none) ps ≡ []
filter_map-none [] = refl
filter_map-none (p ∷ ps) = filter_map-none ps

known_deltas-none : (w : WorkspaceProcesses) → known_deltas none w ≡ []
unfolding cpu_delta
known_deltas-none w = filter_map-none w.processes

percent_or_null-eq : (n : ℕ) (o : Option ℕ) → percent_or_null (some n) o ≡ percentage n o
percent_or_null-eq n none = refl
percent_or_null-eq n (some gain) = refl

share_lem :
    (previous : Option WorkspaceProcessTopology) (elapsed : Option ℕ) (w : WorkspaceProcesses)
    → percent_or_null elapsed (sum_or_null (known_deltas (times_before previous elapsed) w))
      ≡ share previous elapsed w
share_lem none none w = refl
share_lem (some previous) none w = refl
share_lem none (some n) w =
    ap (λ ns. percent_or_null (some n) (sum_or_null ns)) (known_deltas-none w)
share_lem (some previous) (some zero) w =
    ap (λ ns. percent_or_null (some zero) (sum_or_null ns)) (known_deltas-none w)
share_lem (some previous) (some (suc n)) w =
    ap (λ ns. percent_or_null (some (suc n)) (sum_or_null ns))
      (filter_map-same (cpu_delta (some (index_processes previous)) w)
        (gain_of previous w.workspace_id) w.processes (cpu_delta-eq-gain_of previous w))
    ∙ percent_or_null-eq (suc n)
        (sum_or_null (filter_map (gain_of previous w.workspace_id) w.processes))

estimate_or-same :
    (f g : WorkspaceProcesses → WorkspaceResourceEstimate) (o : Option WorkspaceProcesses)
    → ((w : WorkspaceProcesses) → f w ≡ g w)
    → estimate_or f none o ≡ estimate_or g none o
estimate_or-same f g none h = refl
estimate_or-same f g (some w) h = ap some (h w)

-- The estimate of a workspace is that of the last workspace of its id, and there is none for other
-- ids. Its memory is the sum over the processes whose memory is known, and null without any. Its
-- processor share is the sum of the times that its processes have gained, times 100 over the time
-- elapsed in microseconds, and null without any gain, without a sample before, or without time
-- elapsed. A process gains the difference to its time in the sample before, which is that of the
-- last process there with its workspace, process id and start whose time is known; it gains nothing
-- if there is none, if its own start or time is not known, or if the time has gone back.
pub estimate_workspace_resources_lem :
    (previous : Option WorkspaceProcessTopology) (current : WorkspaceProcessTopology)
    (elapsed : Option ℕ) (id : Text)
    → get id (estimate_workspace_resources previous current elapsed)
      ≡ estimate_or (described previous elapsed) none (last_of id current.workspaces)
unfolding estimate_workspace_resources
estimate_workspace_resources_lem previous current elapsed id =
    estimates_from_lem (times_before previous elapsed) elapsed id current.workspaces []
    ∙ estimate_or-same (expected (times_before previous elapsed) elapsed)
        (described previous elapsed) (last_of id current.workspaces)
        (λ w.
          ap (λ r. record { resident_memory_bytes = sum_or_null (known_memory w); cpu_percent = r })
            (share_lem previous elapsed w))
