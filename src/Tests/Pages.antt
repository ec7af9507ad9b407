-- ===== src/Tests/Pages.antt =====
-- The pages' logic at concrete inputs.
use ephemeral_sandbox_consol.Base.{
  ℕ, ◌≤◌, ◌≡◌, refl, ap, Bool, true, false, Option, none, some, List, [], ◌∷◌, map, arith,
  if◌then◌else◌, length, take, All, Some, Text, codes, ◌==◌, text_discrete, Pairwise,
}
use ephemeral_sandbox_consol.Base.Json.{end}
use ephemeral_sandbox_consol.Base.Keyed.{get}
use ephemeral_sandbox_consol.Api.Observability.{WorkspaceSnapshot}
use ephemeral_sandbox_consol.Api.Traces.{TraceEvent, TraceNode, TraceNodes, node, no_nodes, nodes}
use ephemeral_sandbox_consol.Core.Ledger.{LedgerEntry, entry_from_snapshot}
use ephemeral_sandbox_consol.Pages.Traces.{flatten, known_traces, KnownTrace}
use ephemeral_sandbox_consol.Pages.Traces.Laws.{AreDistinct, first_time, known_traces_lem}
use ephemeral_sandbox_consol.Pages.Traces.Waterfall.{preorder, flatten_lem}
use ephemeral_sandbox_consol.Pages.FileTree.{
  FileEntryKind, FileListEntry, Listing, settled, TreeEntryRow, flatten_rows,
}
use ephemeral_sandbox_consol.Pages.FileTree.Laws.{HasNames, AreShown, flatten_rows-AreShown}
use ephemeral_sandbox_consol.Pages.Terminal.{in_flight, reconcile, finalize}
use ephemeral_sandbox_consol.Pages.Terminal.Shown.{with_line, IsShowing, IsEntered}
use ephemeral_sandbox_consol.Pages.Terminal.Laws.{reconcile_lem}
use ephemeral_sandbox_consol.Pages.Terminal.Finalize.{AreAsked, finalize-AreAsked}
use ephemeral_sandbox_consol.Pages.Sessions.Steps.{
  World, start, publish_session, publishes, see, begins, steps,
}
use ephemeral_sandbox_consol.Pages.Sessions.Exclusive.{IsExclusive, Reachable-IsExclusive}
use ephemeral_sandbox_consol.Pages.Sessions.{workspaces_seen}
use ephemeral_sandbox_consol.Pages.Events.{Column, Sorting, render_all}
use ephemeral_sandbox_consol.Pages.Events.Cached.{sorted_by, render_all_lem}
use ephemeral_sandbox_consol.Pages.Poller.{Poller, run_poll}
use ephemeral_sandbox_consol.Pages.Poller.Fairness.{polled, polled-Some}
use ephemeral_sandbox_consol.Pages.Poller.Timer.{
  unregistered, visibility, ticked, IsTimed, handle_all, handle_all-IsTimed,
}
use ephemeral_sandbox_consol.Api.Types.{SandboxRecord}
use ephemeral_sandbox_consol.Core.Clusters.{SandboxClusterRecord, resolve_sandbox_clusters}
use ephemeral_sandbox_consol.Pages.Dashboard.{
  ClusterSearchResult, cluster_ids_by_sandbox, visible_clusters,
}
use ephemeral_sandbox_consol.Pages.Dashboard.Labels.{cluster_ids_by_sandbox_lem}
use ephemeral_sandbox_consol.Pages.Picker.{Picker}
use ephemeral_sandbox_consol.Pages.Picker.Columns.{
  chooses, shows_roots, goes_up, picker_steps, IsAligned, picker_steps-IsAligned,
}
use ephemeral_sandbox_consol.Tests.Samples.{execution, workspace_with, fleet}

abbrev event : ℕ → Text → TraceEvent
event at of = record { ts = at; trace = of; parent = none; name = codes "n"; attrs = end }

abbrev recent : List TraceEvent
recent = event 1 (codes "a") ∷ event 2 (codes "b") ∷ event 3 (codes "a") ∷ []

known_traces_lem_example :
    All (λ (e : TraceEvent). Some (λ t. t.id ≡ e.trace) (known_traces recent)) recent
    × Pairwise AreDistinct (known_traces recent)
    × All (λ (t : KnownTrace). first_time t.id recent ≡ some t.ts) (known_traces recent)
    × Pairwise (λ (a b : KnownTrace). b.ts ≤ a.ts) (known_traces recent)
known_traces_lem_example = known_traces_lem recent

abbrev leaf : Text → TraceNodes → TraceNode
leaf id children =
    node
      (record {
        ts = 1;
        trace = codes "a";
        span = id;
        name = id;
        dur_ms = none;
        status = codes "completed";
        attrs = end;
      })
      0 children []

abbrev forest : TraceNodes
forest =
    nodes (leaf (codes "r") (nodes (leaf (codes "c") no_nodes) no_nodes))
      (nodes (leaf (codes "s") no_nodes) no_nodes)

flatten_lem_example : flatten 3 forest ≡ some (preorder 0 forest)
flatten_lem_example = flatten_lem forest 3 (omega arith)

abbrev entry_of : Text → FileEntryKind → FileListEntry
entry_of name kind = record { name = name; kind = kind; size = none }

abbrev listings : List (Text × Listing)
listings =
    (
      [],
      settled (
          some (record {
            path = [];
            entries = entry_of (codes "src") FileEntryKind.directory ∷ [];
            truncated = false;
          })),
    )
    ∷ (
      codes "src",
      settled (
          some (record {
            path = codes "src";
            entries = entry_of (codes "a") FileEntryKind.file ∷ [];
            truncated = true;
          })),
    )
    ∷ []

if-HasNames :
    (b : Bool) (x y : Option Listing)
    → HasNames ([] ∷ codes "src" ∷ []) x
    → HasNames ([] ∷ codes "src" ∷ []) y
    → HasNames ([] ∷ codes "src" ∷ []) (if b then x else y)
if-HasNames true x y h k = h
if-HasNames false x y h k = k

listings-names : (path : Text) → HasNames ([] ∷ codes "src" ∷ []) (get path listings)
listings-names path =
    if-HasNames ([] == path) _ _ ((λ e. let p : true ≡ false = ap is_some_text e in cc), tt)
      (if-HasNames (codes "src" == path) _ none
        ((λ e. let p : true ≡ false = ap is_some_text e in cc), tt) tt)
  where
    is_some_text : Text → Bool
    is_some_text [] = false
    is_some_text (c ∷ s) = true

flatten_rows-AreShown_example :
    AreShown
      ([] ∷ codes "src" ∷ [])
      (flatten_rows (λ a b. true) ([] ∷ codes "src" ∷ []) listings 4 [] 0)
flatten_rows-AreShown_example =
    flatten_rows-AreShown (λ a b. true) ([] ∷ codes "src" ∷ []) listings 4 listings-names
      (omega arith)

abbrev row_of : Text → TreeEntryRow
row_of name = record {
  entry = entry_of name FileEntryKind.file;
  path = name;
  parent_path = [];
  depth = 0;
}

abbrev launched : LedgerEntry
launched = entry_from_snapshot (codes "u") 7 (codes "x1") (codes "w1") none

abbrev fresh : ℕ → Text
fresh n = n ∷ []

abbrev busy : List WorkspaceSnapshot
busy = workspace_with (execution ∷ []) ∷ []

reconcile_lem_example :
    All (IsEntered (reconcile fresh 9 (in_flight busy) (launched ∷ []))) (in_flight busy)
    × All (IsShowing (in_flight busy)) (reconcile fresh 9 (in_flight busy) (launched ∷ []))
    × (take 1 (reconcile fresh 9 (in_flight busy) (launched ∷ []))
        ≡ with_line (in_flight busy) launched ∷ [])
    × (reconcile fresh 12 (in_flight busy) (reconcile fresh 9 (in_flight busy) (launched ∷ []))
        ≡ reconcile fresh 9 (in_flight busy) (launched ∷ []))
reconcile_lem_example = reconcile_lem fresh fresh 9 12 busy (launched ∷ [])

finalize-AreAsked_example : AreAsked [] [] (finalize [] [] (launched ∷ launched ∷ [])).0
finalize-AreAsked_example = finalize-AreAsked [] (launched ∷ launched ∷ []) []

finalize_run : (finalize [] [] (launched ∷ launched ∷ [])).0 ≡ launched ∷ []
unfolding finalize entry_from_snapshot text_discrete
finalize_run = refl

abbrev idle : List WorkspaceSnapshot
idle = workspace_with [] ∷ []

abbrev seen : World
seen = record { sidebar = workspaces_seen idle start.sidebar; workspaces = idle; calls = [] }

Reachable-IsExclusive_example :
    IsExclusive (publish_session (codes "w1") (publish_session (codes "w1") seen))
Reachable-IsExclusive_example = Reachable-IsExclusive (
    steps (steps (steps begins (see start idle)) (publishes seen (codes "w1")))
      (publishes (publish_session (codes "w1") seen) (codes "w1")))

abbrev newest_first : Option Sorting
newest_first = some (record { id = Column.ts; desc = true })

render_all_lem_example :
    render_all (λ ref. recent) ((1, newest_first) ∷ (1, none) ∷ (1, newest_first) ∷ []) none
    ≡ map
        (λ (r : ℕ × Option Sorting). sorted_by r.1 recent)
        ((1, newest_first) ∷ (1, none) ∷ (1, newest_first) ∷ [])
render_all_lem_example =
    render_all_lem (λ ref. recent) ((1, newest_first) ∷ (1, none) ∷ (1, newest_first) ∷ [])

abbrev five : Poller
five = record {
  keys = codes "a" ∷ codes "b" ∷ codes "c" ∷ codes "d" ∷ codes "e" ∷ [];
  cursor = 3;
  polling = false;
  timer = some 400;
}

polled-Some_example :
    (length (run_poll five).1 ≤ 4) × Some (λ o. o ≡ some (codes "c")) (polled 2 five)
polled-Some_example = polled-Some five 2 2 refl (omega arith) refl

handle_all-IsTimed_example :
    IsTimed (handle_all (unregistered false (codes "a") ∷ visibility true ∷ ticked ∷ []) five)
handle_all-IsTimed_example =
    handle_all-IsTimed (unregistered false (codes "a") ∷ visibility true ∷ ticked ∷ []) five refl

abbrev at_home : Picker
at_home = record {
  column_paths = none ∷ [];
  selected_path = none;
  search = [];
  search_open = false;
  opened = true;
}

picker_steps-IsAligned_example : IsAligned (
    picker_steps
      (chooses (record { name = codes "a"; path = codes "/a" }) 0 ∷ goes_up none ∷ shows_roots ∷ [])
      at_home)
picker_steps-IsAligned_example =
    picker_steps-IsAligned
      (chooses (record { name = codes "a"; path = codes "/a" }) 0 ∷ goes_up none ∷ shows_roots ∷ [])
      at_home (omega arith, refl)

abbrev registry : List SandboxClusterRecord
registry =
    (let pair : SandboxClusterRecord = record {
      id = codes "pair";
      member_ids = codes "eos-a-1" ∷ codes "b" ∷ [];
      workspace_root = codes "/w";
      created_at = codes "now";
    } in
      pair)
    ∷ []

cluster_ids_by_sandbox_lem_example :
    let clusters = (resolve_sandbox_clusters fleet.sandboxes registry).clusters in
    All
      (λ (v : ClusterSearchResult).
        All
          (λ (m : SandboxRecord).
            get m.id (cluster_ids_by_sandbox clusters) ≡ some v.cluster.cluster.id)
          v.members)
      (visible_clusters (λ t. t) (codes "b") none clusters)
cluster_ids_by_sandbox_lem_example =
    cluster_ids_by_sandbox_lem (λ t. t) (codes "b") none fleet.sandboxes registry
