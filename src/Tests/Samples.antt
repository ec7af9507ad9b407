-- ===== src/Tests/Samples.antt =====
-- Records and snapshots that the tests share.
use ephemeral_sandbox_consol.Base.{ℕ, none, some, List, [], ◌∷◌, Text, codes, pos}
use ephemeral_sandbox_consol.Api.Types.{SandboxState, SandboxRecord, SandboxList}
use ephemeral_sandbox_consol.Api.Observability.{
  MetricValue, ResourceSample, ResourceSeries, ActiveExecution, WorkspaceSnapshot,
  FinalizationState, NetworkProfile, SandboxSnapshot, SnapshotResult,
}

abbrev pub record_of : Text → SandboxState → SandboxRecord
record_of id state = record {
  id = id;
  workspace_root = codes "/w";
  state = state;
  daemon = none;
  daemon_http = none;
  shared_base = none;
  activity_revision = some 4;
}

abbrev pub ready_a : SandboxRecord
ready_a = record_of (codes "eos-a-1") SandboxState.ready

abbrev pub ready_b : SandboxRecord
ready_b = record_of (codes "b") SandboxState.ready

abbrev pub stopped_c : SandboxRecord
stopped_c = record_of (codes "c") SandboxState.stopped

abbrev pub fleet : SandboxList
fleet = record { sandboxes = ready_a ∷ ready_b ∷ stopped_c ∷ [] }

abbrev pub no_series : ResourceSeries
no_series = record { latest = none; history = [] }

abbrev pub execution : ActiveExecution
execution = record {
  namespace_execution_id = codes "x1";
  operation = codes "exec";
  lifecycle_state = codes "running";
  command = some (codes "ls");
}

abbrev pub workspace_with : List ActiveExecution → WorkspaceSnapshot
workspace_with executions = record {
  workspace_id = codes "w1";
  lifecycle_state = codes "open";
  finalization_state = FinalizationState.active;
  network_profile = NetworkProfile.shared;
  layers = record { base_root_hash = codes "h"; layer_count = 1 };
  namespace_fd_count = 2;
  resources = no_series;
  active_namespace_executions = executions;
}

abbrev pub snapshot_of : Text → List ActiveExecution → SandboxSnapshot
snapshot_of id executions = record {
  sandbox_id = id;
  lifecycle_state = codes "ready";
  availability = codes "available";
  sampled_at_unix_ms = 100;
  errors = [];
  daemon = none;
  resources = no_series;
  workspaces = workspace_with executions ∷ [];
  stack = record { layer_count = 1; layers_bytes = 10; active_leases = 0 };
}

abbrev pub both : SnapshotResult
both = record {
  sandboxes = snapshot_of ready_a.id (execution ∷ []) ∷ snapshot_of ready_b.id [] ∷ [];
}

abbrev pub sample : ℕ → ℕ → ResourceSample
sample ts memory = record {
  ts = pos ts;
  sample_delta_ms = some (pos 500);
  metrics = (codes "mem_cur", MetricValue.number (pos memory)) ∷ [];
  deltas = (codes "cpu_usec", pos 1000) ∷ [];
}
