-- ===== src/Pages/FileTree.antt =====
-- The rows of the file tree and its keys (web/src/pages/sandbox/files/FileTree.tsx). The order of
-- names by `localeCompare` is an argument, as `at most zero`.
pub mod Laws
pub mod Keys
pub mod Moves
use ephemeral_sandbox_consol.Base.{
  ℕ, zero, suc, ◌+◌, Bool, true, false, ◌&&◌, ◌||◌, Option, none, some, List, [], ◌∷◌, ◌++◌, ltb,
  nat_eq, if◌then◌else◌, any, Text, codes, ◌==◌,
}
use ephemeral_sandbox_consol.Base.Keyed.{get}
use ephemeral_sandbox_consol.Base.Sort.{sort}

pub data FileEntryKind : Type 0 where
  file directory symlink other : FileEntryKind

pub record FileListEntry : Type 0 where
  pub name : Text
  pub kind : FileEntryKind
  pub size : Option ℕ

pub record FileListResult : Type 0 where
  pub path : Text
  pub entries : List FileListEntry
  pub truncated : Bool

-- A query's result, as far as the rows read it: it waits, it failed, or it has data, or none.
pub data Listing : Type 0 where
  pending : Listing
  failed : Text → Listing
  settled : Option FileListResult → Listing

pub data Tone : Type 0 where
  dimmed danger warning : Tone

pub record TreeEntryRow : Type 0 where
  pub entry : FileListEntry
  pub path : Text
  pub parent_path : Text
  pub depth : ℕ

-- A status has a key, a depth, a message and a tone.
pub data TreeRow : Type 0 where
  entry_row : TreeEntryRow → TreeRow
  status_row : Text → ℕ → Text → Tone → TreeRow

abbrev is_directory_kind : FileEntryKind → Bool
is_directory_kind FileEntryKind.directory = true
is_directory_kind _ = false

abbrev pub is_directory : FileListEntry → Bool
is_directory e = is_directory_kind e.kind

abbrev dir_rank : FileListEntry → ℕ
dir_rank e = if is_directory e then 0 else 1

-- The comparator of the sort is at most zero: a difference of ranks counts first.
abbrev pub stands_first : (Text → Text → Bool) → FileListEntry → FileListEntry → Bool
stands_first locale a b =
    ltb (dir_rank a) (dir_rank b) || (nat_eq (dir_rank a) (dir_rank b) && locale a.name b.name)

-- `dirPath === "" ? entry.name : ...`
abbrev pub child_path : Text → Text → Text
child_path [] name = name
child_path (c ∷ s) name = (c ∷ s) ++ b'/' ∷ name

abbrev pub has : List Text → Text → Bool
has paths path = any (λ p. p == path) paths

abbrev note_empty : Text → ℕ → List FileListEntry → List TreeRow
note_empty dir_path depth [] =
    status_row (dir_path ++ codes ":empty") depth (codes "empty directory") Tone.dimmed ∷ []
note_empty dir_path depth (e ∷ es) = []

abbrev note_truncated : Text → ℕ → Bool → List TreeRow
note_truncated dir_path depth truncated =
    if truncated
    then status_row (dir_path ++ codes ":truncated") depth
        (codes "Showing the first 2,000 entries returned by this directory.") Tone.warning
      ∷ []
    else []

infixl 5 ◌>>=◌
abbrev pub ◌>>=◌ {ℓ κ} : {A : Type ℓ} {B : Type κ} → Option A → (A → Option B) → Option B
none >>= f = none
some a >>= f = f a

-- The loop over the sorted entries, with the rows of an open directory below it.
abbrev pub entry_rows :
    (Text → ℕ → Option (List TreeRow))
    → List Text
    → Text
    → ℕ
    → List FileListEntry
    → Option (List TreeRow)
entry_rows below expanded dir_path depth [] = some []
entry_rows below expanded dir_path depth (e ∷ es) = do
  let path = child_path dir_path e.name
  inside ← if is_directory e && has expanded path then below path (depth + 1) else some []
  rest ← entry_rows below expanded dir_path depth es
  let row : TreeEntryRow = record { entry = e; path = path; parent_path = dir_path; depth = depth }
  some (entry_row row ∷ (inside ++ rest))

abbrev entries_of : Option FileListResult → List FileListEntry
entries_of none = []
entries_of (some data_) = data_.entries

abbrev truncated_of : Option FileListResult → Bool
truncated_of none = false
truncated_of (some data_) = data_.truncated

abbrev pub listed_rows :
    (Text → Text → Bool)
    → (Text → ℕ → Option (List TreeRow))
    → List Text
    → Text
    → ℕ
    → Option Listing
    → Option (List TreeRow)
listed_rows locale below expanded dir_path depth (some (failed message)) =
    some (status_row (dir_path ++ codes ":error") depth message Tone.danger ∷ [])
listed_rows locale below expanded dir_path depth (some (settled result)) = do
  rows ← entry_rows below expanded dir_path depth (sort (stands_first locale) (entries_of result))
  some (
      rows
      ++ (note_empty dir_path depth (entries_of result)
          ++ note_truncated dir_path depth (truncated_of result)))
listed_rows locale below expanded dir_path depth _ = some (
    status_row (dir_path ++ codes ":loading") depth (codes "loading" ++ 8230 ∷ []) Tone.dimmed ∷ [])

-- The recursion into open directories, with fuel for its depth.
unfoldable pub flatten_rows :
    (Text → Text → Bool) → List Text → List (Text × Listing) → ℕ → Text → ℕ → Option (List TreeRow)
unfolding sort
flatten_rows locale expanded listings zero dir_path depth = none
flatten_rows locale expanded listings (suc fuel) dir_path depth =
    listed_rows locale (flatten_rows locale expanded listings fuel) expanded dir_path depth
      (get dir_path listings)
