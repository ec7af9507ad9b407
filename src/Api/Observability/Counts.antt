-- ===== src/Api/Observability/Counts.antt =====
-- The count of commands in flight (`inFlightCount` of web/src/api/observability.ts).
use ephemeral_sandbox_consol.Base.{
  ℕ, ◌+◌, ◌≤◌, ◌<◌, List, [], ◌∷◌, ◌↔◌, ◌⊎◌, inl, inr, arith, length, Some,
}
use ephemeral_sandbox_consol.Api.Observability.{
  WorkspaceSnapshot, SandboxSnapshot, count_from, in_flight_count,
}

-- A workspace that runs a command.
abbrev pub IsRunning : WorkspaceSnapshot → Type 0
IsRunning w = 0 < length w.active_namespace_executions

count_from-ge : (total : ℕ) (ws : List WorkspaceSnapshot) → total ≤ count_from total ws
unfolding count_from
count_from-ge total [] = omega arith
count_from-ge total (w ∷ ws) =
    omega (arith, count_from-ge (total + length w.active_namespace_executions) ws)

count_from-pos→Some :
    (total : ℕ) (ws : List WorkspaceSnapshot)
    → 0 < count_from total ws
    → (0 < total) ⊎ Some IsRunning ws
unfolding count_from
count_from-pos→Some total [] h = inl h
count_from-pos→Some total (w ∷ ws) h =
    elim (count_from-pos→Some (total + length w.active_namespace_executions) ws h) [
      | inl p ↦ ground arith
      | inr q ↦ inr (inr q)
    ]

Some→count_from-pos :
    (total : ℕ) (ws : List WorkspaceSnapshot) → Some IsRunning ws → 0 < count_from total ws
unfolding count_from
Some→count_from-pos total [] h = elim h [ ]
Some→count_from-pos total (w ∷ ws) (inl p) =
    omega (arith, count_from-ge (total + length w.active_namespace_executions) ws)
Some→count_from-pos total (w ∷ ws) (inr q) =
    Some→count_from-pos (total + length w.active_namespace_executions) ws q

count_from-zero-pos→Some : (ws : List WorkspaceSnapshot) → 0 < count_from 0 ws → Some IsRunning ws
count_from-zero-pos→Some ws h = elim (count_from-pos→Some 0 ws h) [
  | inl p ↦ absurd (omega arith)
  | inr q ↦ q
]

-- Commands are in flight exactly when some workspace of the snapshot runs one.
pub in_flight_count-pos_iff :
    (s : SandboxSnapshot) → (0 < in_flight_count s) ↔ Some IsRunning s.workspaces
unfolding in_flight_count
in_flight_count-pos_iff s =
    (count_from-zero-pos→Some s.workspaces, Some→count_from-pos 0 s.workspaces)
