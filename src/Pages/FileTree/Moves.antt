-- ===== src/Pages/FileTree/Moves.antt =====
-- Where the keys lead (`onTreeKeyDown` of web/src/pages/sandbox/files/FileTree.tsx).
use ephemeral_sandbox_consol.Base.{
  ℕ, zero, suc, ◌+◌, ◌<◌, ◌≡◌, refl, ap, ◌∙◌, inl, inr, Bool, ◌||◌, none, some, List, [], ◌∷◌, ◌++◌,
  arith, Option-cases, is_some, length, any, find, last?, take, drop, Some, Text, get_elem?,
}
use ephemeral_sandbox_consol.Base.Strings.{starts_with}
use ephemeral_sandbox_consol.Pages.FileTree.{TreeEntryRow}
use ephemeral_sandbox_consol.Pages.FileTree.Keys.{
  index_from, current_index, path_at, MoveKey, arrow_down, arrow_up, home, end, moved_to,
  type_ahead,
}

-- The path of one of the rows.
abbrev pub IsPathOf : List TreeEntryRow → Text → Type 0
IsPathOf rows path = Some (λ (r : TreeEntryRow). r.path ≡ path) rows

get_elem?-IsPathOf :
    (rows : List TreeEntryRow) (n : ℕ) (fallback : Text)
    → n < length rows
    → IsPathOf rows (path_at fallback (get_elem? rows n))
get_elem?-IsPathOf [] n fallback h = absurd (let p : ¬ (n < 0) = omega arith in p h)
get_elem?-IsPathOf (r ∷ rows) zero fallback h = inl refl
get_elem?-IsPathOf (r ∷ rows) (suc n) fallback h =
    inr (get_elem?-IsPathOf rows n fallback (omega arith))

last?-IsPathOf :
    (r : TreeEntryRow) (rows : List TreeEntryRow) (fallback : Text)
    → IsPathOf (r ∷ rows) (path_at fallback (last? (r ∷ rows)))
last?-IsPathOf r [] fallback = inl refl
last?-IsPathOf r (s ∷ rows) fallback = inr (last?-IsPathOf s rows fallback)

index_from-below :
    (i : ℕ) (path : Text) (rows : List TreeEntryRow) (n : ℕ)
    → index_from i path rows ≡ some n
    → n < i + length rows
index_from-below i path [] n h = absurd (let p : none ≡ some n = h in cc)
index_from-below i path (r ∷ rows) n h = elim (Option-cases (index_from (i + 1) path rows)) [
  | inl e ↦ ground (arith, e, h)
  | inr (m, e) ↦ let later = index_from-below (i + 1) path rows m e in ground (arith, e, h, later)
]

current_index-below :
    (path : Text) (r : TreeEntryRow) (rows : List TreeEntryRow)
    → current_index path (r ∷ rows) < length (r ∷ rows)
current_index-below path r rows = elim (Option-cases (index_from 0 path (r ∷ rows))) [
  | inl e ↦ rw (e) (omega arith)
  | inr (n, e) ↦
      let below : n < 0 + length (r ∷ rows) = index_from-below 0 path (r ∷ rows) n e in
      rw (e) (omega arith)
]

-- When the tree shows entries, the arrows up and down, Home and End lead to one of them.
pub moved_to-IsPathOf :
    (key : MoveKey) (r : TreeEntryRow) (rows : List TreeEntryRow) (row : TreeEntryRow)
    → IsPathOf (r ∷ rows) (moved_to key (r ∷ rows) row)
unfolding moved_to
moved_to-IsPathOf arrow_down r rows row = get_elem?-IsPathOf (r ∷ rows) _ row.path (omega arith)
moved_to-IsPathOf arrow_up r rows row =
    let b : current_index row.path (r ∷ rows) < length (r ∷ rows) =
      current_index-below row.path r rows in
    get_elem?-IsPathOf (r ∷ rows) _ row.path (omega arith)
moved_to-IsPathOf home r rows row = inl refl
moved_to-IsPathOf end r rows row = last?-IsPathOf r rows row.path

find-any : (p : TreeEntryRow → Bool) (rows : List TreeEntryRow) → is_some (find p rows) ≡ any p rows
find-any p [] = refl
find-any p (r ∷ rows) = ground (arith, find-any p rows)

any-append :
    (p : TreeEntryRow → Bool) (xs ys : List TreeEntryRow) → any p (xs ++ ys) ≡ any p ys || any p xs
any-append p [] ys = ground arith
any-append p (x ∷ xs) ys = ground (arith, any-append p xs ys)

any-append_sym :
    (p : TreeEntryRow → Bool) (xs ys : List TreeEntryRow) → any p (xs ++ ys) ≡ any p (ys ++ xs)
any-append_sym p xs ys = ground (arith, any-append p xs ys, any-append p ys xs)

taken_dropped : (n : ℕ) (rows : List TreeEntryRow) → take n rows ++ drop n rows ≡ rows
taken_dropped zero rows = refl
taken_dropped (suc n) [] = refl
taken_dropped (suc n) (r ∷ rows) = ap (λ t. r ∷ t) (taken_dropped n rows)

-- Typed characters find an entry exactly when some entry's name starts with them, wherever it stands.
pub type_ahead_lem :
    (lower : Text → Text) (typed key : Text) (rows : List TreeEntryRow) (row : TreeEntryRow)
    → is_some (type_ahead lower typed key rows row).1
      ≡ any (λ r. starts_with (lower (typed ++ key)) (lower r.entry.name)) rows
unfolding type_ahead
type_ahead_lem lower typed key rows row =
    let p : TreeEntryRow → Bool = λ r. starts_with (lower (typed ++ key)) (lower r.entry.name) in
    let n : ℕ = current_index row.path rows + 1 in
    find-any p (drop n rows ++ take n rows)
    ∙ any-append_sym p (drop n rows) (take n rows)
    ∙ ap (any p) (taken_dropped n rows)
