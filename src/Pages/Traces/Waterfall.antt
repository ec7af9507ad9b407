-- ===== src/Pages/Traces/Waterfall.antt =====
-- The rows of the waterfall (`flatten` of web/src/pages/sandbox/observability/TracesView.tsx).
use ephemeral_sandbox_consol.Base.{
  ℕ, suc, ◌+◌, ◌-◌, ◌≤◌, ◌≡◌, refl, sym, ap, ◌∙◌, Option, none, some, List, [], ◌∷◌, ◌++◌,
  append_assoc, append-nil, arith,
}
use mathlib.Core.Option
use ephemeral_sandbox_consol.Api.Traces.{TraceNodes, node, no_nodes, nodes}
use ephemeral_sandbox_consol.Pages.Traces.{FlatSpan, push_children, flatten_stack, flatten}

-- The spans of a forest.
abbrev pub size : TraceNodes → ℕ
size no_nodes = 0
size (nodes (node span offset children events) ns) = suc (size children + size ns)

-- A span before its children, and these before the spans that follow it.
abbrev pub preorder : ℕ → TraceNodes → List FlatSpan
preorder depth no_nodes = []
preorder depth (nodes (node span offset children events) ns) =
    (let row : FlatSpan = record { depth = depth; node = node span offset children events } in row)
    ∷ (preorder (depth + 1) children ++ preorder depth ns)

map_rows :
    (row : FlatSpan) (xs ys : List FlatSpan) (found : Option (List FlatSpan))
    → Option.map
        (λ rows. row ∷ rows)
        (Option.map (λ rows. xs ++ rows) (Option.map (λ rows. ys ++ rows) found))
      ≡ Option.map (λ rows. row ∷ ((xs ++ ys) ++ rows)) found
map_rows row xs ys none = refl
map_rows row xs ys (some rows) = ap (λ t. some (row ∷ t)) (sym (append_assoc xs ys rows))

map_nothing : (found : Option (List FlatSpan)) → found ≡ Option.map (λ rows. [] ++ rows) found
map_nothing none = refl
map_nothing (some rows) = refl

-- The rounds that the spans of a forest take, on top of a stack.
flatten_stack-push :
    (depth : ℕ) (ns : TraceNodes) (stack : List FlatSpan) (fuel rounds : ℕ)
    → rounds ≡ size ns + fuel
    → flatten_stack rounds (push_children depth ns stack)
      ≡ Option.map (λ rows. preorder depth ns ++ rows) (flatten_stack fuel stack)
unfolding flatten_stack
flatten_stack-push depth no_nodes stack fuel rounds e =
    ap (λ n. flatten_stack n stack) spent ∙ map_nothing (flatten_stack fuel stack)
  where
    spent : rounds ≡ fuel
    spent = e ∙ (omega arith)
flatten_stack-push depth (nodes (node span offset children events) ns) stack fuel rounds e =
    ap (λ n. flatten_stack n (row ∷ push_children depth ns stack)) more
    ∙ ap (Option.map (λ rows. row ∷ rows)) (
        flatten_stack-push (depth + 1) children (push_children depth ns stack) (size ns + fuel) _
          refl
        ∙ ap (Option.map (λ rows. preorder (depth + 1) children ++ rows))
            (flatten_stack-push depth ns stack fuel _ refl))
    ∙ map_rows row (preorder (depth + 1) children) (preorder depth ns) (flatten_stack fuel stack)
  where
    row : FlatSpan
    row = record { depth = depth; node = node span offset children events }

    more : rounds ≡ suc (size children + (size ns + fuel))
    more = e ∙ (omega arith)

-- As many rounds as the trace has spans, or more, empty the stack: the rows are each span before its
-- children, at one more than its depth, and these before the spans that follow it.
pub flatten_lem :
    (roots : TraceNodes) (fuel : ℕ)
    → size roots ≤ fuel
    → flatten fuel roots ≡ some (preorder 0 roots)
unfolding flatten flatten_stack
flatten_lem roots fuel h =
    flatten_stack-push 0 roots [] (fuel - size roots) fuel (omega arith)
    ∙ ap some (append-nil (preorder 0 roots))
