-- ===== src/Core/Fleet/Cards.antt =====
-- A card shows only what is confirmed of its own sandbox (web/src/core/fleet.ts).
use ephemeral_sandbox_consol.Base.{◌≡◌, ◌≢◌, ◌↔◌, ◌⊎◌, false, Option, none, some, arith}
use ephemeral_sandbox_consol.Api.Types.{SandboxState, SandboxRecord}
use ephemeral_sandbox_consol.Api.Observability.{SandboxSnapshot}
use ephemeral_sandbox_consol.Core.Status.{SandboxDisplayState}
use ephemeral_sandbox_consol.Core.Resources.{SandboxCurrentUsage}
use ephemeral_sandbox_consol.Core.Fleet.{
  SandboxCardViewModel, PrimaryActionKind, sandbox_card_view_model,
}

-- Nothing of the daemon is shown: no session and no command count, and the plain lifecycle state.
abbrev pub IsUnobserved : SandboxRecord → SandboxCardViewModel → Type 0
IsUnobserved r card =
    (card.sessions ≡ none)
    × (card.active_commands ≡ none)
    × (card.display_state ≡ SandboxDisplayState.lifecycle r.state)
    × (card.status.pulse ≡ false)

-- A card of a record that is not ready shows no gauge, no count and no pulse, whatever snapshot and
-- usage are at hand; and a snapshot of another sandbox is never shown on a card.
pub sandbox_card_view_model-IsUnobserved :
    (r : SandboxRecord) (s : SandboxSnapshot) (usage : Option SandboxCurrentUsage)
    → (r.state ≢ SandboxState.ready
        → IsUnobserved r (sandbox_card_view_model r (some s) usage)
          × ((sandbox_card_view_model r (some s) usage).cpu_percent ≡ none)
          × ((sandbox_card_view_model r (some s) usage).memory_bytes ≡ none))
      × (s.sandbox_id ≢ r.id → IsUnobserved r (sandbox_card_view_model r (some s) usage))
unfolding sandbox_card_view_model
sandbox_card_view_model-IsUnobserved r s usage = (λ h. ground arith, λ h. ground arith)

-- The one action of a card is enabled exactly if the sandbox is not on its way up or down, and it
-- opens the sandbox exactly if the record is ready or stopping.
pub sandbox_card_view_model-primary_action :
    (r : SandboxRecord) (s : Option SandboxSnapshot) (usage : Option SandboxCurrentUsage)
    (kind : PrimaryActionKind)
    → ((sandbox_card_view_model r s usage).primary_action
        ≡ some (record { kind = kind; disabled = false }))
      ↔ (((kind ≡ PrimaryActionKind.opens) × (r.state ≡ SandboxState.ready))
          ⊎ ((kind ≡ PrimaryActionKind.inspect)
              × ((r.state ≡ SandboxState.stopped) ⊎ (r.state ≡ SandboxState.failed))))
unfolding sandbox_card_view_model
sandbox_card_view_model-primary_action r s usage kind = (λ h. ground arith, λ h. ground arith)
