-- ===== src/Core/Resources/Laws.antt =====
-- Which sample a gauge comes from, and what the average averages (web/src/core/resources.ts).
use ephemeral_sandbox_consol.Base.{
  ℕ, ◌+◌, ◌*◌, ◌≤◌, ◌≡◌, refl, sym, ap, ap₂, ◌∙◌, ◌↔◌, inl, inr, Option, none, some, List, [], ◌∷◌,
  arith, Option-cases, length, All, Text, Ratio,
}
use ephemeral_sandbox_consol.Base.Keyed.{get}
use ephemeral_sandbox_consol.Api.Types.{SandboxRecord}
use ephemeral_sandbox_consol.Api.Observability.{ResourceSample}
use ephemeral_sandbox_consol.Core.Resources.{
  SandboxCurrentUsage, newest, memory_of, cpu_of, current_usage_from_series, current_memory_bytes,
  average_from, average_memory_bytes, mean,
}

-- `v` is the value of a sample after which no sample has a value.
pub data IsNewest {A : Type 0} (value : ResourceSample → Option A) (v : A)
    : List ResourceSample → Type 0 where
  here :
      (s : ResourceSample) (later : List ResourceSample)
      → value s ≡ some v
      → All (λ l. value l ≡ none) later
      → IsNewest value v (s ∷ later)
  further :
      (s : ResourceSample) (later : List ResourceSample)
      → IsNewest value v later
      → IsNewest value v (s ∷ later)

module _ {A : Type 0} (value : ResourceSample → Option A) where
  newest-none :
      (samples : List ResourceSample)
      → newest value samples ≡ none
      → All (λ s. value s ≡ none) samples
  unfolding newest
  newest-none [] h = tt
  newest-none (s ∷ samples) h = elim (Option-cases (newest value samples)) [
    | inl e ↦ (rw (e, newest) at h, newest-none samples e)
    | inr (v, e) ↦ absurd (ground arith)
  ]

  newest_of_none :
      (samples : List ResourceSample)
      → All (λ s. value s ≡ none) samples
      → newest value samples ≡ none
  unfolding newest
  newest_of_none [] h = refl
  newest_of_none (s ∷ samples) (h, hs) = rw (newest_of_none samples hs, newest) h

  newest→IsNewest :
      (v : A) (samples : List ResourceSample)
      → newest value samples ≡ some v
      → IsNewest value v samples
  unfolding newest
  newest→IsNewest v [] h = absurd (cc)
  newest→IsNewest v (s ∷ samples) h = elim (Option-cases (newest value samples)) [
    | inl e ↦ here s samples (rw (e, newest) at h) (newest-none samples e)
    | inr (w, e) ↦ further s samples (newest→IsNewest v samples (ground arith))
  ]

  IsNewest→newest :
      {v : A} {samples : List ResourceSample}
      → IsNewest value v samples
      → newest value samples ≡ some v
  unfolding newest
  IsNewest→newest (here s later h k) = rw (newest_of_none later k, newest) h
  IsNewest→newest (further s later h) = rw (IsNewest→newest h, newest) refl

cpu_of-den : (s : ResourceSample) (q : Ratio) → cpu_of s ≡ some q → 250_000 ≤ q.den
unfolding cpu_of
cpu_of-den s q h = ground arith

IsNewest-den :
    {q : Ratio} {samples : List ResourceSample} → IsNewest cpu_of q samples → 250_000 ≤ q.den
IsNewest-den {q} (here s later h k) = cpu_of-den s q h
IsNewest-den (further s later h) = IsNewest-den h

-- The gauges of a series: memory is that of the newest sample with a memory gauge, CPU that of the
-- newest sample with a CPU reading, each gauge on its own; and a CPU reading spans at least 250 ms.
pub current_usage_lem :
    (samples : List ResourceSample)
    → ((m : ℕ)
        → ((current_usage_from_series samples).memory_bytes ≡ some m)
          ↔ IsNewest memory_of m samples)
      × ((q : Ratio)
          → ((current_usage_from_series samples).cpu_percent ≡ some q) ↔ IsNewest cpu_of q samples)
      × ((q : Ratio) → (current_usage_from_series samples).cpu_percent ≡ some q → 250_000 ≤ q.den)
unfolding current_usage_from_series
current_usage_lem samples = (
  λ m. (newest→IsNewest memory_of m samples, IsNewest→newest memory_of),
  λ q. (newest→IsNewest cpu_of q samples, IsNewest→newest cpu_of),
  λ q h. IsNewest-den (newest→IsNewest cpu_of q samples h),
)

-- The memory of the records that have one.
pub memories : List (Text × SandboxCurrentUsage) → List SandboxRecord → List ℕ
memories usage [] = []
memories usage (r ∷ rs) = elim (current_memory_bytes (get r.id usage)) [
  | none ↦ memories usage rs
  | some bytes ↦ bytes ∷ memories usage rs
]

pub sum : List ℕ → ℕ
sum [] = 0
sum (n ∷ ns) = n + sum ns

average_from_lem :
    (usage : List (Text × SandboxCurrentUsage)) (total count : ℕ) (rs : List SandboxRecord)
    → average_from usage total count rs
      ≡ mean (total + sum (memories usage rs)) (count + length (memories usage rs))
unfolding average_from memories sum
average_from_lem usage total count [] = ap₂ mean (omega arith) (omega arith)
average_from_lem usage total count (r ∷ rs) =
    elim (Option-cases (current_memory_bytes (get r.id usage))) [
      | inl e ↦ rw (e, average_from, memories) (average_from_lem usage total count rs)
      | inr (b, e) ↦
          rw (e, average_from, memories)
            (average_from_lem usage (total + b) (count + 1) rs
              ∙ ap₂ mean (omega arith) (omega arith))
    ]

sum-le : (n : ℕ) (ns : List ℕ) → All (λ m. m ≤ n) ns → sum ns ≤ n * length ns
unfolding sum
sum-le n [] h = omega arith
sum-le n (m ∷ ns) (h, hs) = grind (arith, sum-le n ns hs)

length-memories-le :
    (usage : List (Text × SandboxCurrentUsage)) (rs : List SandboxRecord)
    → length (memories usage rs) ≤ length rs
unfolding memories
length-memories-le usage [] = omega arith
length-memories-le usage (r ∷ rs) = ground (arith, length-memories-le usage rs)

mean-none→nil : (ms : List ℕ) → mean (sum ms) (length ms) ≡ none → ms ≡ []
unfolding mean
mean-none→nil [] h = refl
mean-none→nil (m ∷ ms) h = absurd (ground arith)

mean-some :
    (records : List SandboxRecord) (usage : List (Text × SandboxCurrentUsage)) (q : Ratio)
    → mean (sum (memories usage records)) (length (memories usage records)) ≡ some q
    → (q.num ≡ sum (memories usage records))
      × (q.den ≡ length (memories usage records))
      × (q.den ≤ length records)
      × ((n : ℕ) → All (λ m. m ≤ n) (memories usage records) → q.num ≤ n * q.den)
unfolding mean
mean-some records usage q h =
    let num_eq : q.num ≡ sum (memories usage records) = ground arith in
    let den_eq : q.den ≡ length (memories usage records) = ground arith in
    (
      num_eq,
      den_eq,
      omega (arith, length-memories-le usage records),
      λ n k. rw (num_eq, den_eq) (sum-le n (memories usage records) k),
    )

-- The average is unknown exactly when no record has a memory value; otherwise it is their sum over
-- their number, which is at most the number of records, and no larger than the largest of them.
pub average_memory_bytes_lem :
    (records : List SandboxRecord) (usage : List (Text × SandboxCurrentUsage))
    → ((average_memory_bytes records usage ≡ none) ↔ (memories usage records ≡ []))
      × ((q : Ratio)
          → average_memory_bytes records usage ≡ some q
          → (q.num ≡ sum (memories usage records))
            × (q.den ≡ length (memories usage records))
            × (q.den ≤ length records)
            × ((n : ℕ) → All (λ m. m ≤ n) (memories usage records) → q.num ≤ n * q.den))
average_memory_bytes_lem records usage =
    let ms : List ℕ = memories usage records in
    let e : average_memory_bytes records usage ≡ mean (sum ms) (length ms) =
      unfold average_memory_bytes in
      average_from_lem usage 0 0 records ∙ ap₂ mean (omega arith) (omega arith) in
    (
      (
        λ h. mean-none→nil ms (sym e ∙ h),
        λ h. e ∙ ap₂ mean (ap sum h) (ap length h) ∙ unfold mean in refl,
      ),
      λ q h. mean-some records usage q (sym e ∙ h),
    )
