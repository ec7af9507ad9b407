-- ===== src/Core/Resources.antt =====
-- Current gauges from resource samples, and their average (web/src/core/resources.ts).
pub mod Laws
use ephemeral_sandbox_consol.Base.{
  ℕ, ◌+◌, ◌*◌, Option, none, some, List, [], ◌∷◌, leb, nat_eq, if◌then◌else◌, is_some, last?, Text,
  codes, Ratio, non_negative,
}
use ephemeral_sandbox_consol.Base.Keyed.{get}
use ephemeral_sandbox_consol.Api.Types.{SandboxRecord}
use ephemeral_sandbox_consol.Api.Observability.{MetricValue, ResourceSample}

abbrev pub min_cpu_sample_ms : ℕ
min_cpu_sample_ms = 250

-- A missing value is `none`, never zero.
pub record SandboxCurrentUsage : Type 0 where
  pub cpu_percent : Option Ratio
  pub memory_bytes : Option ℕ
  pub sampled_at : Option ℕ

-- `isFiniteNonNegative` on a metric, which may be no number at all.
abbrev gauge : Option MetricValue → Option ℕ
gauge (some (MetricValue.number n)) = non_negative (some n)
gauge _ = none

abbrev pub memory_of : ResourceSample → Option ℕ
memory_of sample = gauge (get (codes "mem_cur") sample.metrics)

-- The quotient of a sample whose interval is long enough.
cpu_quotient : Option ℕ → Option ℕ → Option Ratio
cpu_quotient (some delta) (some ms) =
    if leb min_cpu_sample_ms ms then some (record { num = delta * 100; den = ms * 1000 }) else none
cpu_quotient _ _ = none

pub cpu_of : ResourceSample → Option Ratio
unfolding cpu_quotient
cpu_of sample =
    cpu_quotient (non_negative (get (codes "cpu_usec") sample.deltas))
      (non_negative sample.sample_delta_ms)

-- The loop from the newest sample, the last one, down to the first that gives a value.
unfoldable pub newest {ℓ} :
    {A : Type ℓ} → (ResourceSample → Option A) → List ResourceSample → Option A
newest value [] = none
newest value (sample ∷ samples) =
    let later = newest value samples in if is_some later then later else value sample

-- `latest?.ts`
abbrev timestamp : Option ResourceSample → Option ℕ
timestamp none = none
timestamp (some sample) = non_negative (some sample.ts)

unfoldable pub current_usage_from_series : List ResourceSample → SandboxCurrentUsage
unfolding newest cpu_of
current_usage_from_series samples = record {
  cpu_percent = newest cpu_of samples;
  memory_bytes = newest memory_of samples;
  sampled_at = timestamp (last? samples);
}

abbrev pub current_memory_bytes : Option SandboxCurrentUsage → Option ℕ
current_memory_bytes none = none
current_memory_bytes (some usage) = usage.memory_bytes

-- `sampleCount === 0 ? null : total / sampleCount`
mean : ℕ → ℕ → Option Ratio
mean total count = if nat_eq count 0 then none else some (record { num = total; den = count })

-- The loop of `averageMemoryBytes`, over the total and the count so far. `usage` is a map.
average_from : List (Text × SandboxCurrentUsage) → ℕ → ℕ → List SandboxRecord → Option Ratio
unfolding mean
average_from usage total count [] = mean total count
average_from usage total count (r ∷ rs) = elim (current_memory_bytes (get r.id usage)) [
  | none ↦ average_from usage total count rs
  | some bytes ↦ average_from usage (total + bytes) (count + 1) rs
]

unfoldable pub average_memory_bytes :
    List SandboxRecord → List (Text × SandboxCurrentUsage) → Option Ratio
unfolding average_from
average_memory_bytes records usage = average_from usage 0 0 records
