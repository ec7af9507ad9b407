-- ===== src/Pages/Traces.antt =====
-- The traces view (web/src/pages/sandbox/observability/TracesView.tsx): the traces known from the
-- latest events, the rows of the waterfall, and the open spans.
pub mod Laws
pub mod Waterfall
use ephemeral_sandbox_consol.Base.{
  ℕ, zero, suc, ◌+◌, max, Bool, not, Option, none, some, List, [], ◌∷◌, ◌++◌, map, leb,
  if◌then◌else◌, or_else, filter, any, Text, ◌==◌,
}
use mathlib.Core.Option
use ephemeral_sandbox_consol.Base.Sort.{sort}
use ephemeral_sandbox_consol.Api.Traces.{
  TraceEvent, TraceNode, TraceNodes, no_nodes, nodes, span_of, offset_of, children_of,
}

pub record KnownTrace : Type 0 where
  pub id : Text
  pub ts : ℕ

-- `seen.has(id)`
abbrev pub seen_has : Text → List Text → Bool
seen_has id seen = any (λ t. t == id) seen

-- The loop over the events, with the set `seen`.
unfoldable pub discover : List Text → List TraceEvent → List KnownTrace
discover seen [] = []
discover seen (event ∷ events) =
    let skipped = discover seen events in
    let found = discover (event.trace ∷ seen) events in
    if seen_has event.trace seen
    then skipped
    else (let first : KnownTrace = record { id = event.trace; ts = event.ts } in first) ∷ found

-- `(a, b) => b.ts - a.ts` is at most zero.
abbrev pub newer : KnownTrace → KnownTrace → Bool
newer a b = leb b.ts a.ts

unfoldable pub known_traces : List TraceEvent → List KnownTrace
unfolding discover
known_traces events = sort newer (discover [] events)

pub record FlatSpan : Type 0 where
  pub depth : ℕ
  pub node : TraceNode

-- The loop that pushes the children from the last to the first, on a stack whose top is its head.
abbrev pub push_children : ℕ → TraceNodes → List FlatSpan → List FlatSpan
push_children depth no_nodes stack = stack
push_children depth (nodes n ns) stack =
    (let row : FlatSpan = record { depth = depth; node = n } in row) ∷ push_children depth ns stack

-- `while (stack.length > 0)`, with fuel for its rounds.
unfoldable pub flatten_stack : ℕ → List FlatSpan → Option (List FlatSpan)
flatten_stack fuel [] = some []
flatten_stack zero (row ∷ stack) = none
flatten_stack (suc fuel) (row ∷ stack) =
    Option.map (λ rows. row ∷ rows)
      (flatten_stack fuel (push_children (row.depth + 1) (children_of row.node) stack))

unfoldable pub flatten : ℕ → TraceNodes → Option (List FlatSpan)
unfolding flatten_stack
flatten fuel roots = flatten_stack fuel (push_children 0 roots [])

-- `row.node.offset_ms + (row.node.span.dur_ms ?? 0)`
abbrev pub end_ms : FlatSpan → ℕ
end_ms row = offset_of row.node + or_else (span_of row.node).dur_ms 0

unfoldable pub total_ms : List FlatSpan → ℕ
total_ms [] = 1
total_ms (row ∷ rows) = max (end_ms row) (total_ms rows)

-- The open spans after a click: the set keeps an id once.
unfoldable pub toggle_span : Text → List Text → List Text
toggle_span span opened =
    if any (λ s. s == span) opened
    then filter (λ s. not (s == span)) opened
    else opened ++ span ∷ []
