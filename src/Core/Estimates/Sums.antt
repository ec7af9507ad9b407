-- ===== src/Core/Estimates/Sums.antt =====
-- The four variables of the loop over a workspace's processes hold sums
-- (web/src/pages/sandbox/observability/processEstimates.ts).
use ephemeral_sandbox_consol.Base.{
  ℕ, ◌+◌, ◌≡◌, refl, ap, ap₂, ◌∙◌, Bool, true, false, not, ◌||◌, Option, none, some, List, [], ◌∷◌,
  arith, if◌then◌else◌, Text, Ratio, non_negative, filter_map,
}
use ephemeral_sandbox_consol.Api.Topology.{WorkspaceProcess, WorkspaceProcesses}
use ephemeral_sandbox_consol.Core.Estimates.{
  WorkspaceResourceEstimate, Tally, tally_from, cpu_delta, add_memory, add_cpu, percent,
  cpu_percent_of, estimate_of,
}

abbrev pub sum : List ℕ → ℕ
sum [] = 0
sum (n ∷ ns) = n + sum ns

-- The sum of some numbers, and no number where there are none.
abbrev pub sum_or_null : List ℕ → Option ℕ
sum_or_null [] = none
sum_or_null (n ∷ ns) = some (sum (n ∷ ns))

abbrev pub known_memory : WorkspaceProcesses → List ℕ
known_memory w =
    filter_map (λ (p : WorkspaceProcess). non_negative p.resident_memory_bytes) w.processes

abbrev pub known_deltas : Option (List (Text × ℕ)) → WorkspaceProcesses → List ℕ
known_deltas times w = filter_map (cpu_delta times w) w.processes

abbrev pub percent_or_null : Option ℕ → Option ℕ → Option Ratio
percent_or_null (some elapsed) (some delta) = some (percent delta elapsed)
percent_or_null _ _ = none

-- The estimate by the numbers that are known.
abbrev pub expected :
    Option (List (Text × ℕ)) → Option ℕ → WorkspaceProcesses → WorkspaceResourceEstimate
expected times elapsed w = record {
  resident_memory_bytes = sum_or_null (known_memory w);
  cpu_percent = percent_or_null elapsed (sum_or_null (known_deltas times w));
}

is_empty : List ℕ → Bool
is_empty [] = true
is_empty (n ∷ ns) = false

abbrev pub kept : Option ℕ → List ℕ → List ℕ
kept o rest = elim o [ none ↦ rest | some n ↦ n ∷ rest ]

-- What the four variables and the numbers still to come give is the same after a process.
abbrev Same : Tally → List ℕ → List ℕ → Tally → List ℕ → List ℕ → Type 0
Same t memory cpu u memory' cpu' =
    (t.memory + sum memory ≡ u.memory + sum memory')
    × ((t.has_memory || not (is_empty memory)) ≡ (u.has_memory || not (is_empty memory')))
    × (t.cpu + sum cpu ≡ u.cpu + sum cpu')
    × ((t.has_cpu || not (is_empty cpu)) ≡ (u.has_cpu || not (is_empty cpu')))

step-Same :
    (m c : Option ℕ) (t : Tally) (memory cpu : List ℕ)
    → Same (add_cpu c (add_memory m t)) memory cpu t (kept m memory) (kept c cpu)
unfolding is_empty
step-Same none none t memory cpu = (refl, refl, refl, refl)
step-Same none (some c) t memory cpu = (refl, refl, omega arith, ground arith)
step-Same (some m) none t memory cpu = (omega arith, ground arith, refl, refl)
step-Same (some m) (some c) t memory cpu = (omega arith, ground arith, omega arith, ground arith)

tally_from-Same :
    (times : Option (List (Text × ℕ))) (w : WorkspaceProcesses) (ps : List WorkspaceProcess)
    (t : Tally)
    → Same
        (tally_from times w ps t)
        []
        []
        t
        (filter_map (λ (p : WorkspaceProcess). non_negative p.resident_memory_bytes) ps)
        (filter_map (cpu_delta times w) ps)
unfolding tally_from is_empty
tally_from-Same times w [] t = (refl, refl, refl, refl)
tally_from-Same times w (p ∷ ps) t =
    let m : Option ℕ = non_negative p.resident_memory_bytes in
    let c : Option ℕ = cpu_delta times w p in
    let (a, b, d, e) = tally_from-Same times w ps (add_cpu c (add_memory m t)) in
    let (f, g, h, i) =
      step-Same m c t
        (filter_map (λ (q : WorkspaceProcess). non_negative q.resident_memory_bytes) ps)
        (filter_map (cpu_delta times w) ps) in
    (a ∙ f, b ∙ g, d ∙ h, e ∙ i)

sum_if :
    (n : ℕ) (b : Bool) (ns : List ℕ)
    → n + 0 ≡ 0 + sum ns
    → (b || false) ≡ (false || not (is_empty ns))
    → (if b then some n else none) ≡ sum_or_null ns
unfolding is_empty
sum_if n true [] e f = absurd (cc)
sum_if n true (m ∷ ms) e f = ap some (omega (arith, e))
sum_if n false [] e f = refl
sum_if n false (m ∷ ms) e f = absurd (cc)

percent_if :
    (n : ℕ) (b : Bool) (ns : List ℕ) (elapsed : Option ℕ)
    → n + 0 ≡ 0 + sum ns
    → (b || false) ≡ (false || not (is_empty ns))
    → cpu_percent_of b n elapsed ≡ percent_or_null elapsed (sum_or_null ns)
unfolding is_empty
percent_if n true ns none e f = refl
percent_if n false ns none e f = refl
percent_if n true [] (some ms) e f = absurd (cc)
percent_if n true (m ∷ ns) (some ms) e f = ap (λ d. some (percent d ms)) (omega (arith, e))
percent_if n false [] (some ms) e f = refl
percent_if n false (m ∷ ns) (some ms) e f = absurd (cc)

pub estimate_of_lem :
    (times : Option (List (Text × ℕ))) (elapsed : Option ℕ) (w : WorkspaceProcesses)
    → estimate_of times elapsed w ≡ expected times elapsed w
unfolding estimate_of is_empty
estimate_of_lem times elapsed w =
    let zeros : Tally = record { memory = 0; has_memory = false; cpu = 0; has_cpu = false } in
    let t : Tally = tally_from times w w.processes zeros in
    let (a, b, c, d) = tally_from-Same times w w.processes zeros in
    ap₂ (λ (m : Option ℕ) (r : Option Ratio). record { resident_memory_bytes = m; cpu_percent = r })
      (sum_if t.memory t.has_memory (known_memory w) a b)
      (percent_if t.cpu t.has_cpu (known_deltas times w) elapsed c d)
