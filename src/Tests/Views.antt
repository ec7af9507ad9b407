-- ===== src/Tests/Views.antt =====
-- What the views compute, at concrete inputs.
use ephemeral_sandbox_consol.Base.{
  ℕ, ◌≡◌, refl, inr, true, false, none, some, List, [], ◌∷◌, arith, codes, text_discrete, pos,
  Pairwise,
}
use ephemeral_sandbox_consol.Base.Keyed.{get}
use ephemeral_sandbox_consol.Base.Strings.{decimal}
use ephemeral_sandbox_consol.Api.Observability.{MetricValue, ResourceSample}
use ephemeral_sandbox_consol.Api.Topology.{
  ProcessKind, WorkspaceProcess, WorkspaceState, WorkspaceProcessTopology,
}
use ephemeral_sandbox_consol.Core.Estimates.{estimate_workspace_resources}
use ephemeral_sandbox_consol.Core.Estimates.Laws.{
  described, last_of, estimate_or, estimate_workspace_resources_lem,
}
use ephemeral_sandbox_consol.Core.Blame.{BlameRange, hash_hue}
use ephemeral_sandbox_consol.Core.Blame.Laws.{AreApart}
use ephemeral_sandbox_consol.Poll.FleetUsage.{Availability, FleetResourcesResult}
use ephemeral_sandbox_consol.Tests.Samples.{ready_b}

abbrev process_at : ℕ → ℕ → WorkspaceProcess
process_at memory cpu = record {
  pid = 12;
  namespace_pid = 2;
  parent_pid = 1;
  name = codes "sh";
  state = codes "S";
  kind = ProcessKind.process;
  cgroup_memberships = [];
  resident_memory_bytes = some (pos memory);
  cpu_time_us = some (pos cpu);
  start_time_ticks = some (pos 77);
}

abbrev topology_at : ℕ → ℕ → WorkspaceProcessTopology
topology_at memory cpu = record {
  available = true;
  source = none;
  error = none;
  truncated = false;
  warnings = [];
  workspaces =
      record {
        workspace_id = codes "w";
        state = WorkspaceState.active;
        holder_pid = 1;
        pid_namespace = none;
        mount_namespace = none;
        processes = process_at memory cpu ∷ [];
      }
      ∷ [];
  daemon = none;
}

-- 500 microseconds more within one second.
estimate_test :
    get
      (codes "w")
      (estimate_workspace_resources (some (topology_at 1 100)) (topology_at 4096 600) (some 1000))
    ≡ some (record {
      resident_memory_bytes = some 4096;
      cpu_percent = some (record { num = 50000; den = 1000000 });
    })
unfolding estimate_workspace_resources decimal text_discrete
estimate_test = refl

estimate_workspace_resources_lem_example :
    get
      (codes "w")
      (estimate_workspace_resources (some (topology_at 1 100)) (topology_at 4096 600) (some 1000))
    ≡ estimate_or
        (described (some (topology_at 1 100)) (some 1000))
        none
        (last_of (codes "w") (topology_at 4096 600).workspaces)
estimate_workspace_resources_lem_example =
    estimate_workspace_resources_lem (some (topology_at 1 100)) (topology_at 4096 600) (some 1000)
      (codes "w")

abbrev sample : ResourceSample
sample = record {
  ts = pos 5;
  sample_delta_ms = some (pos 1000);
  metrics = (codes "mem_cur", MetricValue.number (pos 64)) ∷ [];
  deltas = [];
}

abbrev answer : FleetResourcesResult
answer = record {
  availability = Availability.available;
  errors = [];
  sandboxes =
      (
        ready_b.id,
        record { availability = Availability.available; errors = []; current = some sample },
      )
      ∷ [];
}

abbrev ranges : List BlameRange
ranges =
    record { start_line = 5; line_count = 2; owner = codes "unknown" }
    ∷ record { start_line = 1; line_count = 4; owner = codes "original" }
    ∷ []

apart : Pairwise AreApart ranges
apart = ((inr (omega arith), tt), (tt, tt))

-- The hash of this text leaves the 32 bits.
hash_hue_test : hash_hue (codes "workspace_session:a") ≡ 83
unfolding hash_hue
hash_hue_test = refl
