-- ===== src/Pages/Picker/Columns.antt =====
-- The columns of the picker (web/src/pages/fleet/WorkspacePicker.tsx).
use ephemeral_sandbox_consol.Base.{
  ℕ, ◌+◌, ◌-◌, ◌≤◌, ◌≡◌, refl, inl, inr, Option, none, some, List, [], ◌∷◌, ◌++◌, arith, Bool-cases,
  is_some, length, length-append, last?, take, last_n, length-last_n, Text, last?-snoc, last?-drop,
}
use ephemeral_sandbox_consol.Pages.Picker.{
  Directory, DirectoryListing, Picker, open_picker, navigate_to, show_roots, navigate_up,
  close_picker, toggle_search, use_folder, up_from,
}

-- What a user does with the picker.
pub data PickerEvent : Type 0 where
  opens : Text → PickerEvent
  chooses : Directory → ℕ → PickerEvent
  shows_roots : PickerEvent
  goes_up : Option DirectoryListing → PickerEvent
  closes : PickerEvent
  toggles : PickerEvent
  takes : PickerEvent

abbrev pub picker_step : PickerEvent → Picker → Picker
picker_step (opens value) p = open_picker value p
picker_step (chooses directory column) p = navigate_to directory column p
picker_step shows_roots p = show_roots p
picker_step (goes_up listing) p = navigate_up listing p
picker_step closes p = close_picker p
picker_step toggles p = toggle_search p
picker_step takes p = (use_folder p).1

abbrev pub picker_steps : List PickerEvent → Picker → Picker
picker_steps [] p = p
picker_steps (e ∷ es) p = picker_steps es (picker_step e p)

-- One column to three, and the last one is that of the selected folder.
abbrev pub IsAligned : Picker → Type 0
IsAligned p = (length p.column_paths ≤ 3) × (last? p.column_paths ≡ some p.selected_path)

last?-last_n :
    (xs : List (Option Text)) (y : Option Text) → last? (last_n 3 (xs ++ y ∷ [])) ≡ some y
last?-last_n xs y =
    last?-drop (length (xs ++ y ∷ []) - 3) (xs ++ y ∷ []) (last?-snoc xs y)
      (omega (arith, length-append xs (y ∷ [])))

picker_step-IsAligned : (e : PickerEvent) (p : Picker) → IsAligned p → IsAligned (picker_step e p)
unfolding open_picker navigate_to show_roots navigate_up close_picker toggle_search use_folder
picker_step-IsAligned (opens value) p h = (omega arith, refl)
picker_step-IsAligned (chooses directory column) p h = (
  length-last_n 3 (take (column + 1) p.column_paths ++ some directory.path ∷ []),
  last?-last_n (take (column + 1) p.column_paths) (some directory.path),
)
picker_step-IsAligned shows_roots p h = (omega arith, refl)
picker_step-IsAligned (goes_up listing) p h = up p.selected_path listing
  where
    up : (path : Option Text) (given : Option DirectoryListing) → IsAligned (up_from path given p)
    up none given = h
    up (some path) none = h
    up (some path) (some l) = (omega arith, refl)
picker_step-IsAligned closes p h = h
picker_step-IsAligned toggles p h = h
picker_step-IsAligned takes p h = elim (Bool-cases (is_some p.selected_path)) [
  | inl e ↦ rw (e) h
  | inr e ↦ rw (e) h
]

-- From a state with one column to three, the last of which is that of the selected folder,
-- whatever folders are then chosen, in whatever columns, and however often the picker goes up, back to
-- the locations, closes, opens or searches: it has three columns at most, and its last column is that
-- of the selected folder.
pub picker_steps-IsAligned :
    (es : List PickerEvent) (p : Picker) → IsAligned p → IsAligned (picker_steps es p)
picker_steps-IsAligned [] p h = h
picker_steps-IsAligned (e ∷ es) p h =
    picker_steps-IsAligned es (picker_step e p) (picker_step-IsAligned e p h)
