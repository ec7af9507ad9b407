-- ===== src/Pages/Picker.antt =====
-- The folder picker (web/src/pages/fleet/WorkspacePicker.tsx): its columns, its search, and how it
-- moves. `toLowerCase` is an argument.
pub mod Columns
use ephemeral_sandbox_consol.Base.{
  ℕ, ◌+◌, Bool, true, false, not, ◌||◌, Option, none, some, List, [], ◌∷◌, ◌++◌, map, nat_eq,
  if◌then◌else◌, or_else, is_some, filter, last?, take, last_n, Text, codes, ◌==◌,
}
use ephemeral_sandbox_consol.Base.Strings.{trim, includes, split}

pub record Directory : Type 0 where
  pub name : Text
  pub path : Text

pub record DirectoryListing : Type 0 where
  pub path : Option Text
  pub parent : Option Text
  pub truncated : Bool
  pub directories : List Directory

abbrev pub max_visible_columns : ℕ
max_visible_columns = 3

-- `path.split(/[\\/]/).filter(Boolean)`
abbrev slashes : Text → Text
slashes path = map (λ c. if nat_eq c b'\\' then b'/' else c) path

abbrev is_nonempty : Text → Bool
is_nonempty [] = false
is_nonempty (c ∷ s) = true

unfoldable pub folder_name : Option Text → Text
folder_name none = codes "Locations"
folder_name (some path) = or_else (last? (filter is_nonempty (split b'/' (slashes path)))) path

unfoldable pub filtered_directories :
    (Text → Text) → (active : Bool) → Text → List Directory → List Directory
unfolding trim
filtered_directories lower active search directories =
    let needle = if active then lower (trim search) else [] in
    if needle == []
    then directories
    else filter
        (λ (d : Directory). includes needle (lower d.name) || includes needle (lower d.path))
        directories

-- A column of the locations has no path.
pub record Picker : Type 0 where
  pub column_paths : List (Option Text)
  pub selected_path : Option Text
  pub search : Text
  pub search_open : Bool
  pub opened : Bool

abbrev or_roots : Text → Option Text
or_roots [] = none
or_roots (c ∷ s) = some (c ∷ s)

-- The button opens at the value, or at the locations.
unfoldable pub open_picker : Text → Picker → Picker
open_picker value p = record {
  column_paths = or_roots value ∷ [];
  selected_path = or_roots value;
  search = [];
  search_open = false;
  opened = true;
}

unfoldable pub navigate_to : Directory → ℕ → Picker → Picker
navigate_to directory column_index p = record p {
  column_paths =
      last_n max_visible_columns
        (take (column_index + 1) p.column_paths ++ some directory.path ∷ []);
  selected_path = some directory.path;
  search = [];
}

unfoldable pub show_roots : Picker → Picker
show_roots p = record p { column_paths = none ∷ []; selected_path = none; search = [] }

abbrev go_to : Option Text → Picker → Picker
go_to path p = record p { column_paths = path ∷ []; selected_path = path; search = [] }

abbrev up_from : Option Text → Option DirectoryListing → Picker → Picker
up_from (some path) (some listing) p = go_to listing.parent p
up_from path listing p = p

-- The listing is that of the selected folder, once it is there.
unfoldable pub navigate_up : Option DirectoryListing → Picker → Picker
navigate_up listing p = up_from p.selected_path listing p

unfoldable pub close_picker : Picker → Picker
close_picker p = record p { opened = false }

unfoldable pub toggle_search : Picker → Picker
toggle_search p = record p { search_open = not p.search_open }

-- The button that takes the folder: the path given to `onChange`, and the picker closed.
unfoldable pub use_folder : Picker → Option Text × Picker
unfolding close_picker
use_folder p = (p.selected_path, (if is_some p.selected_path then close_picker p else p))
