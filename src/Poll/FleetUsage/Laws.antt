-- ===== src/Poll/FleetUsage/Laws.antt =====
-- Which sandboxes have a current usage (web/src/poll/useFleetCurrentUsage.ts).
use ephemeral_sandbox_consol.Base.{
  ◌≡◌, refl, sym, ap, ◌∙◌, inl, inr, Bool, true, false, ◌&&◌, ◌||◌, Option, none, some, List, [],
  ◌∷◌, arith, if◌then◌else◌, Bool-cases, any, Text, ◌==◌, text_eq_iff,
}
use ephemeral_sandbox_consol.Base.Keyed.{get, get-set}
use ephemeral_sandbox_consol.Api.Types.{SandboxRecord}
use ephemeral_sandbox_consol.Api.Observability.{ResourceSample}
use ephemeral_sandbox_consol.Core.Resources.{SandboxCurrentUsage, current_usage_from_series}
use ephemeral_sandbox_consol.Poll.FleetUsage.{
  FleetResourcesResult, is_ready, sample_for, add_usage, usage_from, fleet_current_usage,
}

abbrev pub usage_of : Option ResourceSample → Option SandboxCurrentUsage
usage_of none = none
usage_of (some sample) = some (current_usage_from_series (sample ∷ []))

-- A ready record of the id is in the list.
abbrev pub has_ready : Text → List SandboxRecord → Bool
has_ready id records = any (λ r. is_ready r.state && (r.id == id)) records

abbrev or_before :
    Bool → Option SandboxCurrentUsage → Option SandboxCurrentUsage → Option SandboxCurrentUsage
or_before b none before = before
or_before b (some u) before = if b then some u else before

or_before-false : (o before : Option SandboxCurrentUsage) → or_before false o before ≡ before
or_before-false none before = refl
or_before-false (some u) before = refl

add_usage-get :
    (o : Option ResourceSample) (id : Text) (r : SandboxRecord)
    (usage : List (Text × SandboxCurrentUsage))
    → get id (add_usage o r usage)
      ≡ or_before (is_ready r.state && (r.id == id)) (usage_of o) (get id usage)
add_usage-get none id r usage = refl
add_usage-get (some sample) id r usage = elim (Bool-cases (is_ready r.state)) [
  | inl e ↦ rw (e) (get-set id r.id (current_usage_from_series (sample ∷ [])) usage)
  | inr e ↦ rw (e) refl
]

-- Only the answer for the id matters.
same_sample :
    (answer : Option FleetResourcesResult) (id : Text) (r : SandboxRecord)
    (before : Option SandboxCurrentUsage)
    → or_before (is_ready r.state && (r.id == id)) (usage_of (sample_for answer r.id)) before
      ≡ or_before (is_ready r.state && (r.id == id)) (usage_of (sample_for answer id)) before
same_sample answer id r before = elim (Bool-cases (is_ready r.state && (r.id == id))) [
  | inl e ↦
      let same : r.id ≡ id = (text_eq_iff r.id id).0 (ground arith) in
      ap (λ k. or_before (is_ready r.state && (r.id == id)) (usage_of (sample_for answer k)) before)
        same
  | inr e ↦
      ap (λ b. or_before b (usage_of (sample_for answer r.id)) before) e
      ∙ or_before-false (usage_of (sample_for answer r.id)) before
      ∙ sym (or_before-false (usage_of (sample_for answer id)) before)
      ∙ ap (λ b. or_before b (usage_of (sample_for answer id)) before) (sym e)
]

or_before-or :
    (a b : Bool) (o before : Option SandboxCurrentUsage)
    → or_before b o (or_before a o before) ≡ or_before (a || b) o before
or_before-or a b none before = refl
or_before-or true true (some u) before = refl
or_before-or true false (some u) before = refl
or_before-or false b (some u) before = refl

usage_from_lem :
    (answer : Option FleetResourcesResult) (id : Text) (records : List SandboxRecord)
    (usage : List (Text × SandboxCurrentUsage))
    → get id (usage_from answer records usage)
      ≡ or_before (has_ready id records) (usage_of (sample_for answer id)) (get id usage)
usage_from_lem answer id [] usage =
    sym (or_before-false (usage_of (sample_for answer id)) (get id usage))
usage_from_lem answer id (r ∷ rs) usage =
    usage_from_lem answer id rs (add_usage (sample_for answer r.id) r usage)
    ∙ ap (or_before (has_ready id rs) (usage_of (sample_for answer id)))
        (add_usage-get (sample_for answer r.id) id r usage ∙ same_sample answer id r (get id usage))
    ∙ or_before-or (is_ready r.state && (r.id == id)) (has_ready id rs)
        (usage_of (sample_for answer id)) (get id usage)

-- A sandbox has a current usage exactly when it is among the ready records and the answer has a
-- current sample for it, and the usage is then read off that sample.
pub fleet_current_usage_lem :
    (answer : Option FleetResourcesResult) (records : List SandboxRecord) (id : Text)
    → get id (fleet_current_usage answer records)
      ≡ (if has_ready id records then usage_of (sample_for answer id) else none)
unfolding fleet_current_usage
fleet_current_usage_lem answer records id =
    usage_from_lem answer id records []
    ∙ chosen (has_ready id records) (usage_of (sample_for answer id))
  where
    chosen :
        (b : Bool) (o : Option SandboxCurrentUsage) → or_before b o none ≡ (if b then o else none)
    chosen true none = refl
    chosen true (some u) = refl
    chosen false o = or_before-false o none
