-- ===== src/Core/Status.antt =====
-- The status shown for a sandbox (web/src/core/status.ts).
pub mod Laws
use ephemeral_sandbox_consol.Base.{
  ℕ, Bool, true, false, ◌&&◌, Option, none, some, if◌then◌else◌, ltb,
}
use ephemeral_sandbox_consol.Api.Types.{SandboxState}

-- `SandboxState | "active"`
pub data SandboxDisplayState : Type 0 where
  lifecycle : SandboxState → SandboxDisplayState
  active : SandboxDisplayState

pub data SandboxStatusTone : Type 0 where
  active success warning walnut neutral danger : SandboxStatusTone

pub data SandboxStatusLabel : Type 0 where
  active ready creating stopping stopped failed : SandboxStatusLabel

-- A presentation without its lifecycle state, as the two constant tables hold it.
pub record Presentation : Type 0 where
  pub state : SandboxDisplayState
  pub label : SandboxStatusLabel
  pub tone : SandboxStatusTone
  pub pulse : Bool

pub record SandboxStatusPresentation : Type 0 where
  pub state : SandboxDisplayState
  pub lifecycle_state : SandboxState
  pub label : SandboxStatusLabel
  pub tone : SandboxStatusTone
  pub pulse : Bool

lifecycle_presentation : SandboxState → Presentation
lifecycle_presentation SandboxState.creating = record {
  state = lifecycle SandboxState.creating;
  label = SandboxStatusLabel.creating;
  tone = SandboxStatusTone.warning;
  pulse = false;
}
lifecycle_presentation SandboxState.ready = record {
  state = lifecycle SandboxState.ready;
  label = SandboxStatusLabel.ready;
  tone = SandboxStatusTone.success;
  pulse = false;
}
lifecycle_presentation SandboxState.stopping = record {
  state = lifecycle SandboxState.stopping;
  label = SandboxStatusLabel.stopping;
  tone = SandboxStatusTone.walnut;
  pulse = false;
}
lifecycle_presentation SandboxState.stopped = record {
  state = lifecycle SandboxState.stopped;
  label = SandboxStatusLabel.stopped;
  tone = SandboxStatusTone.neutral;
  pulse = false;
}
lifecycle_presentation SandboxState.failed = record {
  state = lifecycle SandboxState.failed;
  label = SandboxStatusLabel.failed;
  tone = SandboxStatusTone.danger;
  pulse = false;
}

active_presentation : Presentation
active_presentation = record {
  state = SandboxDisplayState.active;
  label = SandboxStatusLabel.active;
  tone = SandboxStatusTone.active;
  pulse = true;
}

abbrev pub is_ready : SandboxState → Bool
is_ready SandboxState.ready = true
is_ready _ = false

abbrev positive : Option ℕ → Bool
positive (some n) = ltb 0 n
positive none = false

unfoldable pub display_state_for : SandboxState → Option ℕ → SandboxDisplayState
display_state_for state active_commands =
    if is_ready state && positive active_commands
    then SandboxDisplayState.active
    else lifecycle state

presentation_for : SandboxState → SandboxDisplayState → Presentation
unfolding active_presentation lifecycle_presentation
presentation_for state SandboxDisplayState.active = active_presentation
presentation_for state (lifecycle _) = lifecycle_presentation state

unfoldable pub sandbox_status : SandboxState → Option ℕ → SandboxStatusPresentation
unfolding presentation_for display_state_for
sandbox_status state active_commands =
    let shown = presentation_for state (display_state_for state active_commands) in
    record {
      state = shown.state;
      lifecycle_state = state;
      label = shown.label;
      tone = shown.tone;
      pulse = shown.pulse;
    }
