-- ===== src/Pages/FileTree/Keys.antt =====
-- The keys of the file tree (`onTreeKeyDown`, `toggleDirectory` and `activate` of
-- web/src/pages/sandbox/files/FileTree.tsx). A key without an action here does nothing.
use ephemeral_sandbox_consol.Base.{
  ℕ, ◌+◌, ◌-◌, min, Bool, true, false, not, ◌&&◌, Option, none, some, List, [], ◌∷◌, ◌++◌,
  if◌then◌else◌, or_else, is_some, length, filter, find, head?, last?, take, drop, Text, ◌==◌,
  get_elem?,
}
use ephemeral_sandbox_consol.Base.Strings.{starts_with}
use ephemeral_sandbox_consol.Pages.FileTree.{
  FileEntryKind, TreeRow, TreeEntryRow, entry_row, status_row, is_directory, has,
}

-- `rows.filter((row) => row.type === "entry")`
abbrev pub entries_shown : List TreeRow → List TreeEntryRow
entries_shown [] = []
entries_shown (entry_row row ∷ rows) = row ∷ entries_shown rows
entries_shown (status_row key depth message tone ∷ rows) = entries_shown rows

-- `entryIndexByPath.get(path)`: the last entry of a path, counted from `index`.
abbrev pub index_from : ℕ → Text → List TreeEntryRow → Option ℕ
index_from index path [] = none
index_from index path (row ∷ rows) =
    let later = index_from (index + 1) path rows in
    let here = if row.path == path then some index else none in
    if is_some later then later else here

abbrev pub current_index : Text → List TreeEntryRow → ℕ
current_index path rows = or_else (index_from 0 path rows) 0

abbrev pub path_at : Text → Option TreeEntryRow → Text
path_at fallback none = fallback
path_at fallback (some row) = row.path

-- The keys that move among the rows.
pub data MoveKey : Type 0 where
  arrow_down arrow_up home end : MoveKey

-- `entries[...]?.path ?? row.path`
unfoldable pub moved_to : MoveKey → List TreeEntryRow → TreeEntryRow → Text
moved_to MoveKey.arrow_down rows row =
    path_at row.path (get_elem? rows (min (length rows - 1) (current_index row.path rows + 1)))
moved_to MoveKey.arrow_up rows row =
    path_at row.path (get_elem? rows (current_index row.path rows - 1))
moved_to MoveKey.home rows row = path_at row.path (head? rows)
moved_to MoveKey.end rows row = path_at row.path (last? rows)

-- A path is in the set of open ones once.
unfoldable pub toggle_directory : Text → List Text → List Text
toggle_directory path expanded =
    if has expanded path then filter (λ p. not (p == path)) expanded else expanded ++ path ∷ []

-- What a key does: it moves the focus, opens or closes a directory, or nothing. An arrow to the right
-- that opens asks for the focus of the first child.
pub data TreeAction : Type 0 where
  focus : Text → TreeAction
  toggle : Text → Bool → TreeAction
  select : Text → TreeAction
  ignored : TreeAction

abbrev pub focus_child : Option TreeEntryRow → TreeAction
focus_child none = ignored
focus_child (some child) = focus child.path

unfoldable pub arrow_right : List Text → List TreeEntryRow → TreeEntryRow → TreeAction
arrow_right expanded rows row =
    if is_directory row.entry
    then (if has expanded row.path
        then focus_child (find (λ r. r.parent_path == row.path) rows)
        else toggle row.path true)
    else ignored

abbrev pub focus_parent : Text → TreeAction
focus_parent [] = ignored
focus_parent (c ∷ s) = focus (c ∷ s)

unfoldable pub arrow_left : List Text → TreeEntryRow → TreeAction
arrow_left expanded row =
    if is_directory row.entry && has expanded row.path
    then toggle row.path false
    else focus_parent row.parent_path

abbrev pub act_on : FileEntryKind → Text → TreeAction
act_on FileEntryKind.directory path = toggle path false
act_on FileEntryKind.file path = select path
act_on _ path = ignored

-- Enter, a space or a click, which also takes the focus.
unfoldable pub activate : TreeEntryRow → TreeAction
activate row = act_on row.entry.kind row.path

-- The entries after the current one, then those up to it.
abbrev pub candidates : ℕ → List TreeEntryRow → List TreeEntryRow
candidates index rows = drop (index + 1) rows ++ take (index + 1) rows

-- A printed character after `typed`, what was typed before; `lower` is `toLocaleLowerCase`.
unfoldable pub type_ahead :
    (Text → Text) → Text → Text → List TreeEntryRow → TreeEntryRow → Text × Option TreeEntryRow
type_ahead lower typed key rows row =
    let next = lower (typed ++ key) in
    (
      next,
      find (λ r. starts_with next (lower r.entry.name))
          (candidates (current_index row.path rows) rows),
    )
