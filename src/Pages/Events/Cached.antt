-- ===== src/Pages/Events/Cached.antt =====
-- The cache of sorted events (web/src/pages/sandbox/observability/EventsView.tsx).
use ephemeral_sandbox_consol.Base.{
  ℕ, ◌≡◌, refl, sym, ap, ap₂, ◌∙◌, inl, inr, Bool, true, false, Option, none, some, List, [], ◌∷◌,
  map, reverse, arith, nat_eq, if◌then◌else◌, Bool-cases, nat_eq_iff, is_some, Text, codes, ◌==◌,
  text_eq_iff, text_eq_refl, text_discrete,
}
use ephemeral_sandbox_consol.Base.Keyed.{get, get-set}
use ephemeral_sandbox_consol.Base.Sort.{sort}
use ephemeral_sandbox_consol.Api.Traces.{TraceEvent}
use ephemeral_sandbox_consol.Pages.Events.{
  Column, Sorting, column_id, sort_key, not_after, sort_events, SortCache, cache_for, take_sorted,
  render_events, render_all, new_cache,
}

-- The events sorted without a cache and without a key.
abbrev pub sorted_by : Option Sorting → List TraceEvent → List TraceEvent
sorted_by none events = events
sorted_by (some sorting) events =
    let ascending = sort (not_after (column_id sorting.id)) events in
    if sorting.desc then reverse ascending else ascending

-- What a key stands for.
abbrev of_key : Text → List TraceEvent → List TraceEvent
of_key key events = if key == codes "none" then events else sort_events key events

of_key-sort_key :
    (sorting : Option Sorting) (events : List TraceEvent)
    → of_key (sort_key sorting) events ≡ sorted_by sorting events
unfolding sort_events text_discrete
of_key-sort_key none events = refl
of_key-sort_key (some sorting) events = go sorting.id sorting.desc
  where
    go :
        (column : Column) (desc : Bool)
        → of_key
            (sort_key (some (let s : Sorting = record { id = column; desc = desc } in s)))
            events
          ≡ sorted_by (some (let s : Sorting = record { id = column; desc = desc } in s)) events
    go Column.ts true = refl
    go Column.ts false = refl
    go Column.name true = refl
    go Column.name false = refl
    go Column.trace true = refl
    go Column.trace false = refl

of_key-none :
    (key : Text) (events : List TraceEvent) → codes "none" ≡ key → of_key key events ≡ events
of_key-none key events e =
    ap (λ (b : Bool). if b then events else sort_events key events)
      ((text_eq_iff key (codes "none")).1 (sym e))

module _ (contents : ℕ → List TraceEvent) where
  -- Every list of the cache is what its key stands for, and the unsorted list is there.
  abbrev pub IsSound : SortCache → Type 0
  IsSound cache =
      ((key : Text) (found : List TraceEvent)
        → get key cache.values ≡ some found
        → found ≡ of_key key (contents cache.data_ref))
      × (is_some (get (codes "none") cache.values) ≡ true)

  abbrev pub MaybeSound : Option SortCache → Type 0
  MaybeSound none = Unit
  MaybeSound (some cache) = IsSound cache

  new_cache-IsSound : (ref : ℕ) → IsSound (new_cache contents ref)
  new_cache-IsSound ref = (
    λ key found e. elim (Bool-cases (codes "none" == key)) [
      | inl p ↦
          let same : found ≡ contents ref = ground (arith, e, p) in
          same ∙ sym (of_key-none key (contents ref) ((text_eq_iff (codes "none") key).0 p))
      | inr p ↦ absurd (ground (arith, e, p))
    ],
    ground (arith, text_eq_refl (codes "none")),
  )

  cache_for-IsSound :
      (ref : ℕ) (current : Option SortCache)
      → MaybeSound current
      → IsSound (cache_for contents ref current) × ((cache_for contents ref current).data_ref ≡ ref)
  cache_for-IsSound ref none h = (new_cache-IsSound ref, refl)
  cache_for-IsSound ref (some cache) h = elim (Bool-cases (nat_eq cache.data_ref ref)) [
    | inl e ↦ rw (e) (h, (nat_eq_iff cache.data_ref ref).0 e)
    | inr e ↦ rw (e) (new_cache-IsSound ref, refl)
  ]

  abbrev Taken : Text → SortCache → List TraceEvent × SortCache → Type 0
  Taken key cache out = (out.0 ≡ of_key key (contents cache.data_ref)) × IsSound out.1

  unnamed :
      (key : Text) (cache : SortCache)
      → get key cache.values ≡ none
      → IsSound cache
      → (key == codes "none") ≡ false
  unnamed key cache e h = elim (Bool-cases (key == codes "none")) [
    | inl p ↦
        let missing : get (codes "none") cache.values ≡ none =
          ap (λ k. get k cache.values) (sym ((text_eq_iff key (codes "none")).0 p)) ∙ e in
        absurd (let q : false ≡ true = sym (ap is_some missing) ∙ h.1 in cc)
    | inr p ↦ p
  ]

  take_sorted-Taken :
      (key : Text) (cache : SortCache) (looked : Option (List TraceEvent))
      → get key cache.values ≡ looked
      → IsSound cache
      → Taken key cache (take_sorted contents key cache looked)
  take_sorted-Taken key cache (some found) e h = (h.0 key found e, h)
  take_sorted-Taken key cache none e h =
      let events : List TraceEvent = contents cache.data_ref in
      let sorted : List TraceEvent = sort_events key events in
      let own : sorted ≡ of_key key events =
        sym (
          ap (λ (b : Bool). if b then events else sort_events key events)
            (unnamed key cache e h)) in
      (
        own,
        (
          λ j found f. elim (Bool-cases (key == j)) [
            | inl p ↦
                let same : sorted ≡ found =
                  ground (arith, f, p, get-set j key sorted cache.values) in
                sym same ∙ own ∙ ap (λ k. of_key k events) ((text_eq_iff key j).0 p)
            | inr p ↦ h.0 j found (ground (arith, f, p, get-set j key sorted cache.values))
          ],
          ap is_some (get-set (codes "none") key sorted cache.values)
              ∙ ap
                  (λ (b : Bool).
                    is_some (if b then some sorted else get (codes "none") cache.values))
                  (unnamed key cache e h)
              ∙ h.1,
        ),
      )

  render_events-Taken :
      (ref : ℕ) (sorting : Option Sorting) (current : Option SortCache)
      → MaybeSound current
      → ((render_events contents ref sorting current).0 ≡ sorted_by sorting (contents ref))
        × IsSound (render_events contents ref sorting current).1
  unfolding render_events
  render_events-Taken ref sorting current h =
      let cache = cache_for contents ref current in
      let sound = cache_for-IsSound ref current h in
      let taken =
        take_sorted-Taken (sort_key sorting) cache (get (sort_key sorting) cache.values) refl
          sound.0 in
      (
        taken.0
            ∙ ap (λ r. of_key (sort_key sorting) (contents r)) sound.1
            ∙ of_key-sort_key sorting (contents ref),
        taken.1,
      )

-- Over any sequence of renders, of whatever arrays and orders, the table with its cache shows what
-- sorting the events anew would show: the events as they came when there is no order, else sorted by
-- the column, and reversed when it descends.
pub render_all_lem :
    (contents : ℕ → List TraceEvent) (renders : List (ℕ × Option Sorting))
    → render_all contents renders none ≡ map (λ r. sorted_by r.1 (contents r.0)) renders
unfolding render_all
render_all_lem contents renders = go contents renders none tt
  where
    go :
        (contents : ℕ → List TraceEvent) (renders : List (ℕ × Option Sorting))
        (current : Option SortCache)
        → MaybeSound contents current
        → render_all contents renders current ≡ map (λ r. sorted_by r.1 (contents r.0)) renders
    go contents [] current h = refl
    go contents ((ref, sorting) ∷ renders) current h =
        let shown = render_events-Taken contents ref sorting current h in
        ap₂ (λ x xs. x ∷ xs) shown.0
          (go contents renders (some (render_events contents ref sorting current).1) shown.1)
