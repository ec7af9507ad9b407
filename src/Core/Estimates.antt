-- ===== src/Core/Estimates.antt =====
-- Estimates of what a workspace's processes use, from two topologies
-- (web/src/pages/sandbox/observability/processEstimates.ts).
pub mod Before
pub mod Sums
pub mod Laws
use ephemeral_sandbox_consol.Base.{
  ℕ, suc, ◌+◌, ◌-◌, ◌*◌, Bool, true, false, Option, none, some, List, [], ◌∷◌, ◌++◌, ltb,
  if◌then◌else◌, Text, Ratio, non_negative,
}
use ephemeral_sandbox_consol.Base.Keyed.{get, set}
use ephemeral_sandbox_consol.Base.Strings.{decimal}
use ephemeral_sandbox_consol.Api.Topology.{
  WorkspaceProcess, WorkspaceProcesses, WorkspaceProcessTopology,
}

pub record WorkspaceResourceEstimate : Type 0 where
  pub resident_memory_bytes : Option ℕ
  pub cpu_percent : Option Ratio

-- `${process.pid}:${process.start_time_ticks}`
abbrev pub identity_of : ℕ → Option ℕ → Option Text
identity_of pid none = none
identity_of pid (some ticks) = some (decimal pid ++ b':' ∷ decimal ticks)

unfoldable pub process_identity : WorkspaceProcess → Option Text
process_identity p = identity_of p.pid (non_negative p.start_time_ticks)

-- `${workspace.workspace_id}:${key}`
abbrev pub key_in : WorkspaceProcesses → Text → Text
key_in w key = w.workspace_id ++ b':' ∷ key

abbrev pub index_process :
    WorkspaceProcesses → Option Text → Option ℕ → List (Text × ℕ) → List (Text × ℕ)
index_process w (some key) (some time) times = set (key_in w key) time times
index_process w _ _ times = times

-- The inner loop of `indexProcesses`, and the outer one.
abbrev pub index_workspace :
    WorkspaceProcesses → List WorkspaceProcess → List (Text × ℕ) → List (Text × ℕ)
index_workspace w [] times = times
index_workspace w (p ∷ ps) times =
    index_workspace w ps (index_process w (process_identity p) (non_negative p.cpu_time_us) times)

abbrev pub index_from : List WorkspaceProcesses → List (Text × ℕ) → List (Text × ℕ)
index_from [] times = times
index_from (w ∷ ws) times = index_from ws (index_workspace w w.processes times)

unfoldable pub index_processes : WorkspaceProcessTopology → List (Text × ℕ)
unfolding process_identity
index_processes topology = index_from topology.workspaces []

-- The four variables of the loop over a workspace's processes.
pub record Tally : Type 0 where
  pub memory : ℕ
  pub has_memory : Bool
  pub cpu : ℕ
  pub has_cpu : Bool

abbrev pub add_memory : Option ℕ → Tally → Tally
add_memory none t = t
add_memory (some bytes) t = record t { memory = t.memory + bytes; has_memory = true }

-- What a process's counter has grown by, when both are known and it has not gone back.
abbrev pub delta_of : Option ℕ → Option ℕ → Option ℕ
delta_of (some now) (some before) = if ltb now before then none else some (now - before)
delta_of _ _ = none

abbrev pub earlier : List (Text × ℕ) → WorkspaceProcesses → Option Text → Option ℕ
earlier times w none = none
earlier times w (some key) = get (key_in w key) times

-- The times before are `none` where no processor time can be estimated.
unfoldable pub cpu_delta :
    Option (List (Text × ℕ)) → WorkspaceProcesses → WorkspaceProcess → Option ℕ
unfolding process_identity
cpu_delta none w p = none
cpu_delta (some times) w p =
    delta_of (non_negative p.cpu_time_us) (earlier times w (process_identity p))

abbrev pub add_cpu : Option ℕ → Tally → Tally
add_cpu none t = t
add_cpu (some delta) t = record t { cpu = t.cpu + delta; has_cpu = true }

unfoldable pub tally_from :
    Option (List (Text × ℕ)) → WorkspaceProcesses → List WorkspaceProcess → Tally → Tally
unfolding cpu_delta
tally_from times w [] t = t
tally_from times w (p ∷ ps) t =
    tally_from times w ps
      (add_cpu (cpu_delta times w p) (add_memory (non_negative p.resident_memory_bytes) t))

-- `(cpuDeltaUs / (elapsedMs * 1_000)) * 100`
abbrev pub percent : ℕ → ℕ → Ratio
percent delta elapsed = record { num = delta * 100; den = elapsed * 1000 }

abbrev pub cpu_percent_of : Bool → ℕ → Option ℕ → Option Ratio
cpu_percent_of true delta (some elapsed) = some (percent delta elapsed)
cpu_percent_of _ delta _ = none

unfoldable pub estimate_of :
    Option (List (Text × ℕ)) → Option ℕ → WorkspaceProcesses → WorkspaceResourceEstimate
unfolding tally_from
estimate_of times elapsed w =
    let zeros : Tally = record { memory = 0; has_memory = false; cpu = 0; has_cpu = false } in
    let t : Tally = tally_from times w w.processes zeros in
    record {
      resident_memory_bytes = if t.has_memory then some t.memory else none;
      cpu_percent = cpu_percent_of t.has_cpu t.cpu elapsed;
    }

-- `canEstimateCpu`: the indexed processes, if there are any from before and time has passed.
abbrev pub times_before : Option WorkspaceProcessTopology → Option ℕ → Option (List (Text × ℕ))
times_before (some previous) (some (suc n)) = some (index_processes previous)
times_before _ _ = none

-- `estimates[workspace.workspace_id] = ...`
abbrev pub estimates_from :
    Option (List (Text × ℕ))
    → Option ℕ
    → List WorkspaceProcesses
    → List (Text × WorkspaceResourceEstimate)
    → List (Text × WorkspaceResourceEstimate)
estimates_from times elapsed [] estimates = estimates
estimates_from times elapsed (w ∷ ws) estimates =
    estimates_from times elapsed ws (set w.workspace_id (estimate_of times elapsed w) estimates)

unfoldable pub estimate_workspace_resources :
    Option WorkspaceProcessTopology
    → WorkspaceProcessTopology
    → Option ℕ
    → List (Text × WorkspaceResourceEstimate)
unfolding estimate_of index_processes
estimate_workspace_resources previous current elapsed =
    estimates_from (times_before previous elapsed) elapsed current.workspaces []
