-- ===== src/Pages/Traces/Laws.antt =====
-- The known traces (`knownTraces` of web/src/pages/sandbox/observability/TracesView.tsx).
use ephemeral_sandbox_consol.Base.{
  ℕ, ◌≤◌, ◌≡◌, refl, sym, ap, ◌∙◌, subst, ◌≢◌, ◌⊎◌, inl, inr, true, false, Option, none, some, List,
  [], ◌∷◌, arith, if◌then◌else◌, Bool-cases, All, Some, Text, ◌==◌, text_eq_iff, text_eq_refl,
  Pairwise, All-map,
}
use ephemeral_sandbox_consol.Base.Sort.{
  sort, All-sort, IsSorted, sort-IsSorted, Some-sort, Pairwise-sort,
}
use ephemeral_sandbox_consol.Api.Traces.{TraceEvent}
use ephemeral_sandbox_consol.Pages.Traces.{KnownTrace, seen_has, discover, newer, known_traces}

-- Two traces, not one twice.
abbrev pub AreDistinct : KnownTrace → KnownTrace → Type 0
AreDistinct a b = a.id ≢ b.id

-- Not seen before.
abbrev pub IsUnseen : List Text → KnownTrace → Type 0
IsUnseen seen t = seen_has t.id seen ≡ false

discover-AreUnseen :
    (seen : List Text) (events : List TraceEvent) → All (IsUnseen seen) (discover seen events)
unfolding discover
discover-AreUnseen seen [] = tt
discover-AreUnseen seen (event ∷ events) = elim (Bool-cases (seen_has event.trace seen)) [
  | inl e ↦ rw (e, discover) (discover-AreUnseen seen events)
  | inr e ↦
      rw (e, discover)
        (
          e,
          All-map {P = IsUnseen (event.trace ∷ seen)} (λ t h. ground (arith, h))
              (discover (event.trace ∷ seen) events)
              (discover-AreUnseen (event.trace ∷ seen) events),
        )
]

discover-AreDistinct :
    (seen : List Text) (events : List TraceEvent) → Pairwise AreDistinct (discover seen events)
unfolding discover
discover-AreDistinct seen [] = tt
discover-AreDistinct seen (event ∷ events) = elim (Bool-cases (seen_has event.trace seen)) [
  | inl e ↦ rw (e, discover) (discover-AreDistinct seen events)
  | inr e ↦
      rw (e, discover)
        (
          All-map {P = IsUnseen (event.trace ∷ seen)}
              (λ t h same. ground (arith, h, text_eq_iff event.trace t.id))
              (discover (event.trace ∷ seen) events)
              (discover-AreUnseen (event.trace ∷ seen) events),
          discover-AreDistinct (event.trace ∷ seen) events,
        )
]

-- A trace seen before, or one that the walk finds.
abbrev IsKnown : List Text → List KnownTrace → TraceEvent → Type 0
IsKnown seen found event =
    (seen_has event.trace seen ≡ true) ⊎ Some (λ (t : KnownTrace). t.id ≡ event.trace) found

IsKnown-first :
    (seen : List Text) (first : KnownTrace) (found : List KnownTrace) (event : TraceEvent)
    → IsKnown (first.id ∷ seen) found event
    → IsKnown seen (first ∷ found) event
IsKnown-first seen first found event (inr h) = inr (inr h)
IsKnown-first seen first found event (inl h) = elim (Bool-cases (first.id == event.trace)) [
  | inl e ↦ inr (inl ((text_eq_iff first.id event.trace).0 e))
  | inr e ↦ inl (ground (arith, e, h))
]

discover-seen :
    (seen : List Text) (event : TraceEvent) (events : List TraceEvent)
    → seen_has event.trace seen ≡ true
    → discover seen (event ∷ events) ≡ discover seen events
unfolding discover
discover-seen seen event events e = rw (e, discover) refl

discover-new :
    (seen : List Text) (event : TraceEvent) (events : List TraceEvent)
    → seen_has event.trace seen ≡ false
    → discover seen (event ∷ events)
      ≡ (let first : KnownTrace = record { id = event.trace; ts = event.ts } in first)
        ∷ discover (event.trace ∷ seen) events
unfolding discover
discover-new seen event events e = rw (e, discover) refl

discover-AreKnown :
    (seen : List Text) (events : List TraceEvent) → All (IsKnown seen (discover seen events)) events
discover-AreKnown seen [] = tt
discover-AreKnown seen (event ∷ events) =
    let first : KnownTrace = record { id = event.trace; ts = event.ts } in
    elim (Bool-cases (seen_has event.trace seen)) [
      | inl e ↦
          subst (λ found. All (IsKnown seen found) (event ∷ events))
            (sym (discover-seen seen event events e)) (inl e, discover-AreKnown seen events)
      | inr e ↦
          subst (λ found. All (IsKnown seen found) (event ∷ events))
            (sym (discover-new seen event events e))
            (
              inr (inl refl),
              All-map (IsKnown-first seen first (discover (event.trace ∷ seen) events)) events
                  (discover-AreKnown (event.trace ∷ seen) events),
            )
    ]

known-Some :
    (found : List KnownTrace) (event : TraceEvent)
    → IsKnown [] found event
    → Some (λ (t : KnownTrace). t.id ≡ event.trace) (sort newer found)
known-Some found event (inl h) = absurd (let p : false ≡ true = h in cc)
known-Some found event (inr h) = Some-sort newer (λ (t : KnownTrace). t.id ≡ event.trace) found h

-- The time of the first event of a trace.
abbrev pub first_time : Text → List TraceEvent → Option ℕ
first_time id [] = none
first_time id (event ∷ events) = if event.trace == id then some event.ts else first_time id events

-- Unseen, and with the time of its first event.
abbrev IsTimed : List Text → List TraceEvent → KnownTrace → Type 0
IsTimed seen events t = IsUnseen seen t × (first_time t.id events ≡ some t.ts)

IsTimed-seen :
    (seen : List Text) (event : TraceEvent) (events : List TraceEvent) (t : KnownTrace)
    → seen_has event.trace seen ≡ true
    → IsTimed seen events t
    → IsTimed seen (event ∷ events) t
IsTimed-seen seen event events t e (h, k) = elim (Bool-cases (event.trace == t.id)) [
  | inl same ↦ absurd (
      let p : true ≡ false =
        sym e ∙ ap (λ id. seen_has id seen) ((text_eq_iff event.trace t.id).0 same) ∙ h in
      cc)
  | inr other ↦ (h, ground (arith, other, k))
]

IsTimed-new :
    (seen : List Text) (event : TraceEvent) (events : List TraceEvent) (t : KnownTrace)
    → IsTimed (event.trace ∷ seen) events t
    → IsTimed seen (event ∷ events) t
IsTimed-new seen event events t (h, k) = (ground (arith, h), ground (arith, h, k))

discover-AreTimed :
    (seen : List Text) (events : List TraceEvent) → All (IsTimed seen events) (discover seen events)
unfolding discover
discover-AreTimed seen [] = tt
discover-AreTimed seen (event ∷ events) = elim (Bool-cases (seen_has event.trace seen)) [
  | inl e ↦ subst (All (IsTimed seen (event ∷ events))) (sym (discover-seen seen event events e)) (
      All-map (λ t h. IsTimed-seen seen event events t e h) (discover seen events)
        (discover-AreTimed seen events))
  | inr e ↦ subst (All (IsTimed seen (event ∷ events))) (sym (discover-new seen event events e)) (
    (e, ground (arith, text_eq_refl event.trace)),
    All-map (IsTimed-new seen event events) (discover (event.trace ∷ seen) events)
        (discover-AreTimed (event.trace ∷ seen) events),
  )
]

IsSorted→Pairwise :
    (traces : List KnownTrace)
    → IsSorted newer traces
    → Pairwise (λ (a b : KnownTrace). b.ts ≤ a.ts) traces
IsSorted→Pairwise [] h = tt
IsSorted→Pairwise (t ∷ traces) (h, hs) =
    (All-map (λ u k. ground (arith, k)) traces h, IsSorted→Pairwise traces hs)

-- Every event's trace is in the list of known traces, no trace is there twice, each has the time of the
-- first event of its trace, and no trace comes before one with a later time.
pub known_traces_lem :
    (events : List TraceEvent)
    → All
        (λ (event : TraceEvent).
          Some (λ (t : KnownTrace). t.id ≡ event.trace) (known_traces events))
        events
      × Pairwise AreDistinct (known_traces events)
      × All (λ (t : KnownTrace). first_time t.id events ≡ some t.ts) (known_traces events)
      × Pairwise (λ (a b : KnownTrace). b.ts ≤ a.ts) (known_traces events)
unfolding known_traces
known_traces_lem events = (
  All-map (known-Some (discover [] events)) events (discover-AreKnown [] events),
  Pairwise-sort newer AreDistinct (discover [] events) (λ a b d e. d (sym e))
      (discover-AreDistinct [] events),
  All-sort newer (λ (t : KnownTrace). first_time t.id events ≡ some t.ts) (discover [] events)
      (All-map (λ t h. h.1) (discover [] events) (discover-AreTimed [] events)),
  IsSorted→Pairwise (sort newer (discover [] events)) (
      sort-IsSorted newer (λ a b h. ground arith) (λ a b c h k. ground arith) (discover [] events)),
)
