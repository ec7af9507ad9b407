-- ===== src/Pages/Events.antt =====
-- The events table's order and its cache (web/src/pages/sandbox/observability/EventsView.tsx). The
-- fetched array is its reference, a number; an array is never changed, so that what it holds is a
-- function of it.
pub mod Cached
use ephemeral_sandbox_consol.Base.{
  ℕ, Bool, true, false, not, ◌&&◌, ◌||◌, Option, none, some, List, [], ◌∷◌, ◌++◌, reverse, ltb, leb,
  nat_eq, if◌then◌else◌, or_else, Text, codes, ◌==◌, get_elem?,
}
use ephemeral_sandbox_consol.Base.Keyed.{get, set}
use ephemeral_sandbox_consol.Base.Sort.{sort}
use ephemeral_sandbox_consol.Base.Strings.{split}
use ephemeral_sandbox_consol.Api.Traces.{TraceEvent}

-- The columns that can be sorted, by their ids.
pub data Column : Type 0 where
  ts name trace : Column

abbrev pub column_id : Column → Text
column_id Column.ts = codes "ts"
column_id Column.name = codes "name"
column_id Column.trace = codes "trace"

pub record Sorting : Type 0 where
  pub id : Column
  pub desc : Bool

abbrev colon : Text
colon = codes ":"

abbrev pub sort_key : Option Sorting → Text
sort_key none = codes "none"
sort_key (some current) =
    column_id current.id ++ (colon ++ (if current.desc then codes "desc" else codes "asc"))

-- `a > b` on strings, by their code units
abbrev pub text_after : Text → Text → Bool
text_after [] b = false
text_after (c ∷ s) [] = true
text_after (c ∷ s) (d ∷ t) = ltb d c || (nat_eq c d && text_after s t)

-- `compareEvents` is at most zero.
unfoldable pub not_after : Text → TraceEvent → TraceEvent → Bool
not_after column left right =
    if column == codes "ts"
    then leb left.ts right.ts
    else if column == codes "name"
    then not (text_after left.name right.name)
    else not (text_after left.trace right.trace)

abbrev pub text_at : ℕ → List Text → Text
text_at n parts = or_else (get_elem? parts n) []

-- A copy sorted by the column of a key, and reversed for the direction.
unfoldable pub sort_events : Text → List TraceEvent → List TraceEvent
unfolding sort not_after
sort_events key events =
    let parts = split b':' key in
    let ascending = sort (not_after (text_at 0 parts)) events in
    if text_at 1 parts == codes "desc" then reverse ascending else ascending

pub record SortCache : Type 0 where
  pub data_ref : ℕ
  pub values : List (Text × List TraceEvent)

module _ (contents : ℕ → List TraceEvent) where
  abbrev pub new_cache : ℕ → SortCache
  new_cache ref = record { data_ref = ref; values = (codes "none", contents ref) ∷ [] }

  -- The cache of this array, which another array's makes way for.
  abbrev pub cache_for : ℕ → Option SortCache → SortCache
  cache_for ref none = new_cache ref
  cache_for ref (some cache) =
      let fresh = new_cache ref in if nat_eq cache.data_ref ref then cache else fresh

  -- What the cache has under a key, or what is sorted now and kept there.
  abbrev pub take_sorted : Text → SortCache → Option (List TraceEvent) → List TraceEvent × SortCache
  take_sorted key cache (some found) = (found, cache)
  take_sorted key cache none =
      let sorted = sort_events key (contents cache.data_ref) in
      let kept : SortCache = record cache { values = set key sorted cache.values } in (sorted, kept)

  -- A render: the events in order, and the cache after it.
  unfoldable pub render_events : ℕ → Option Sorting → Option SortCache → List TraceEvent × SortCache
  unfolding sort_events
  render_events ref sorting current =
      let cache = cache_for ref current in
      take_sorted (sort_key sorting) cache (get (sort_key sorting) cache.values)

  -- The tables of one render after the other.
  unfoldable pub render_all : List (ℕ × Option Sorting) → Option SortCache → List (List TraceEvent)
  unfolding render_events
  render_all [] current = []
  render_all ((ref, sorting) ∷ renders) current =
      let shown = render_events ref sorting current in shown.0 ∷ render_all renders (some shown.1)
