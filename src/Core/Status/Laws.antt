-- ===== src/Core/Status/Laws.antt =====
-- What a status says of the record and of the confirmed command count (web/src/core/status.ts).
use ephemeral_sandbox_consol.Base.{ℕ, ◌<◌, true, Option, some, ◌≡◌, ◌↔◌, arith}
use ephemeral_sandbox_consol.Api.Types.{SandboxState}
use ephemeral_sandbox_consol.Core.Status.{SandboxDisplayState, sandbox_status}

-- A status pulses, and shows the active state, exactly when the record is ready and a positive
-- count of commands is confirmed.
pub sandbox_status-active_iff :
    (s : SandboxState) (n : Option ℕ)
    → (((sandbox_status s n).pulse ≡ true)
        ↔ ((s ≡ SandboxState.ready) × (k : ℕ) × (n ≡ some k) × (0 < k)))
      × (((sandbox_status s n).state ≡ SandboxDisplayState.active)
          ↔ ((sandbox_status s n).pulse ≡ true))
unfolding sandbox_status
sandbox_status-active_iff s n = ground arith

-- The label tells everything: two statuses with one label are the same status, so a label never
-- stands for two lifecycle states, tones or pulses.
pub sandbox_status_of_label :
    (s t : SandboxState) (n m : Option ℕ)
    → (sandbox_status s n).label ≡ (sandbox_status t m).label
    → sandbox_status s n ≡ sandbox_status t m
unfolding sandbox_status
sandbox_status_of_label s t n m h = ground arith
