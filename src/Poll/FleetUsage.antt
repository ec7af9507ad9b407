-- ===== src/Poll/FleetUsage.antt =====
-- The current usage of the fleet's ready sandboxes (web/src/poll/useFleetCurrentUsage.ts), from the
-- answer of the resources operation of web/src/api/observability.ts.
pub mod Laws
use ephemeral_sandbox_consol.Base.{
  Bool, true, false, Option, none, some, List, [], ◌∷◌, if◌then◌else◌, any, Text,
}
use ephemeral_sandbox_consol.Base.Keyed.{get, set}
use ephemeral_sandbox_consol.Api.Types.{SandboxState, SandboxRecord}
use ephemeral_sandbox_consol.Api.Observability.{ResourceSample}
use ephemeral_sandbox_consol.Core.Resources.{SandboxCurrentUsage, current_usage_from_series}

pub data Availability : Type 0 where
  available partial : Availability

pub record FleetResourceCurrent : Type 0 where
  pub availability : Availability
  pub errors : List Text
  pub current : Option ResourceSample

pub record FleetResourcesResult : Type 0 where
  pub availability : Availability
  pub errors : List Text
  pub sandboxes : List (Text × FleetResourceCurrent)

-- `record.state === "ready"`
abbrev pub is_ready : SandboxState → Bool
is_ready SandboxState.ready = true
is_ready _ = false

-- `enabled` of the query
unfoldable pub usage_enabled : List SandboxRecord → Bool
usage_enabled records = any (λ r. is_ready r.state) records

-- `query.data?.sandboxes[record.id]?.current`
abbrev sample_in : Option FleetResourceCurrent → Option ResourceSample
sample_in none = none
sample_in (some c) = c.current

abbrev pub sample_for : Option FleetResourcesResult → Text → Option ResourceSample
sample_for none id = none
sample_for (some answer) id = sample_in (get id answer.sandboxes)

-- What one record adds to the map.
abbrev pub add_usage :
    Option ResourceSample
    → SandboxRecord
    → List (Text × SandboxCurrentUsage)
    → List (Text × SandboxCurrentUsage)
add_usage none r usage = usage
add_usage (some sample) r usage =
    if is_ready r.state then set r.id (current_usage_from_series (sample ∷ [])) usage else usage

abbrev pub usage_from :
    Option FleetResourcesResult
    → List SandboxRecord
    → List (Text × SandboxCurrentUsage)
    → List (Text × SandboxCurrentUsage)
usage_from answer [] usage = usage
usage_from answer (r ∷ rs) usage = usage_from answer rs (add_usage (sample_for answer r.id) r usage)

unfoldable pub fleet_current_usage :
    Option FleetResourcesResult → List SandboxRecord → List (Text × SandboxCurrentUsage)
fleet_current_usage answer records = usage_from answer records []
