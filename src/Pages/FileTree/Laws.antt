-- ===== src/Pages/FileTree/Laws.antt =====
-- The rows of the file tree (`flattenRows` of web/src/pages/sandbox/files/FileTree.tsx).
use ephemeral_sandbox_consol.Base.{
  ℕ, zero, suc, ◌+◌, ◌≤◌, ◌<◌, max, ◌≡◌, refl, ap, ◌≢◌, ◌⊎◌, inl, inr, Bool, true, false, ◌&&◌,
  Option, none, some, List, [], ◌∷◌, ◌++◌, arith, if◌then◌else◌, Bool-cases, length, length-append,
  All, Text, ◌==◌, text_eq_iff, All-append,
}
use ephemeral_sandbox_consol.Base.Keyed.{get}
use ephemeral_sandbox_consol.Base.Sort.{sort, All-sort}
use ephemeral_sandbox_consol.Pages.FileTree.{
  FileListEntry, Listing, pending, failed, settled, TreeEntryRow, TreeRow, entry_row, status_row,
  is_directory, stands_first, child_path, has, entry_rows, note_empty, note_truncated, listed_rows,
  flatten_rows, ◌>>=◌,
}

-- The length of the longest path.
abbrev pub longest : List Text → ℕ
longest [] = 0
longest (p ∷ ps) = max (length p) (longest ps)

has-longest : (ps : List Text) (path : Text) → has ps path ≡ true → length path ≤ longest ps
has-longest [] path h = absurd (let p : false ≡ true = h in cc)
has-longest (p ∷ ps) path h = elim (Bool-cases (p == path)) [
  | inl e ↦ let same : length p ≡ length path = ap length ((text_eq_iff p path).0 e) in omega arith
  | inr e ↦
      let later : length path ≤ longest ps = has-longest ps path (ground (arith, e, h)) in
      omega arith
]

abbrev pub IsNamed : FileListEntry → Type 0
IsNamed e = e.name ≢ []

length-child_path : (dir name : Text) → name ≢ [] → length dir < length (child_path dir name)
length-child_path dir [] h = absurd (h refl)
length-child_path [] (c ∷ name) h = omega arith
length-child_path (d ∷ dir) (c ∷ name) h = ground (arith, length-append dir (b'/' ∷ c ∷ name))

-- The root, or a directory that is open.
abbrev pub IsOpen : List Text → Text → Type 0
IsOpen expanded path = (path ≡ []) ⊎ (has expanded path ≡ true)

-- An entry stands under a directory that is open, at the path of its name there.
abbrev pub IsShown : List Text → TreeRow → Type 0
IsShown expanded (entry_row row) =
    IsOpen expanded row.parent_path × (row.path ≡ child_path row.parent_path row.entry.name)
IsShown expanded (status_row key depth message tone) = Unit

-- Rows come out, each of them at its place.
abbrev pub AreShown : List Text → Option (List TreeRow) → Type 0
AreShown expanded found = (rows : List TreeRow) × (found ≡ some rows) × All (IsShown expanded) rows

module _ (expanded : List Text) where
  inside-AreShown :
      (b : Bool) (found : Option (List TreeRow))
      → (b ≡ true → AreShown expanded found)
      → AreShown expanded (if b then found else some [])
  inside-AreShown false found h = ([], refl, tt)
  inside-AreShown true found h = h refl

  joined-AreShown :
      (row : TreeRow) (inside rest : Option (List TreeRow))
      → IsShown expanded row
      → AreShown expanded inside
      → AreShown expanded rest
      → AreShown expanded (inside >>= λ xs. rest >>= λ ys. some (row ∷ (xs ++ ys)))
  joined-AreShown row inside rest h (xs, e, hs) (ys, f, ks) =
      (row ∷ (xs ++ ys), rw (e, f) refl, (h, All-append (IsShown expanded) xs ys hs ks))

  entry_rows-AreShown :
      (below : Text → ℕ → Option (List TreeRow)) (dir : Text) (depth : ℕ) (es : List FileListEntry)
      → ((path : Text)
          → length dir < length path
          → has expanded path ≡ true
          → AreShown expanded (below path (depth + 1)))
      → IsOpen expanded dir
      → All IsNamed es
      → AreShown expanded (entry_rows below expanded dir depth es)
  entry_rows-AreShown below dir depth [] h o k = ([], refl, tt)
  entry_rows-AreShown below dir depth (e ∷ es) h o (k, ks) =
      let path : Text = child_path dir e.name in
      let row : TreeEntryRow = record {
        entry = e;
        path = path;
        parent_path = dir;
        depth = depth;
      } in
      joined-AreShown (entry_row row) _ _ (o, refl)
        (inside-AreShown (is_directory e && has expanded path) (below path (depth + 1))
          (λ b. h path (length-child_path dir e.name k) (ground (arith, b))))
        (entry_rows-AreShown below dir depth es h o ks)

  noted-AreShown :
      (dir : Text) (depth : ℕ) (es : List FileListEntry) (truncated : Bool)
      → All (IsShown expanded) (note_empty dir depth es ++ note_truncated dir depth truncated)
  noted-AreShown dir depth [] true = (tt, (tt, tt))
  noted-AreShown dir depth [] false = (tt, tt)
  noted-AreShown dir depth (e ∷ es) true = (tt, tt)
  noted-AreShown dir depth (e ∷ es) false = tt

  followed-AreShown :
      (found : Option (List TreeRow)) (notes : List TreeRow)
      → AreShown expanded found
      → All (IsShown expanded) notes
      → AreShown expanded (found >>= λ rows. some (rows ++ notes))
  followed-AreShown found notes (rows, e, hs) h =
      (rows ++ notes, rw (e) refl, All-append (IsShown expanded) rows notes hs h)

  -- The entries of a listing have names.
  abbrev pub HasNames : Option Listing → Type 0
  HasNames (some (settled (some result))) = All IsNamed result.entries
  HasNames _ = Unit

  listed_rows-AreShown :
      (locale : Text → Text → Bool) (below : Text → ℕ → Option (List TreeRow)) (dir : Text)
      (depth : ℕ) (listing : Option Listing)
      → ((path : Text)
          → length dir < length path
          → has expanded path ≡ true
          → AreShown expanded (below path (depth + 1)))
      → IsOpen expanded dir
      → HasNames listing
      → AreShown expanded (listed_rows locale below expanded dir depth listing)
  listed_rows-AreShown locale below dir depth none h o k = (_, refl, (tt, tt))
  listed_rows-AreShown locale below dir depth (some pending) h o k = (_, refl, (tt, tt))
  listed_rows-AreShown locale below dir depth (some (failed message)) h o k = (_, refl, (tt, tt))
  listed_rows-AreShown locale below dir depth (some (settled none)) h o k =
      followed-AreShown (entry_rows below expanded dir depth (sort (stands_first locale) [])) _
        (entry_rows-AreShown below dir depth _ h o (All-sort (stands_first locale) IsNamed [] tt))
        (noted-AreShown dir depth [] false)
  listed_rows-AreShown locale below dir depth (some (settled (some result))) h o k =
      followed-AreShown
        (entry_rows below expanded dir depth (sort (stands_first locale) result.entries)) _
        (entry_rows-AreShown below dir depth _ h o
          (All-sort (stands_first locale) IsNamed result.entries k))
        (noted-AreShown dir depth result.entries result.truncated)

  IsOpen-longest : (dir : Text) → IsOpen expanded dir → ¬ (longest expanded < length dir)
  IsOpen-longest dir (inl e) h = let n : length dir ≡ 0 = ap length e in omega arith
  IsOpen-longest dir (inr e) h =
      let n : length dir ≤ longest expanded = has-longest expanded dir e in omega arith

  below-AreShown :
      (locale : Text → Text → Bool) (listings : List (Text × Listing))
      → ((path : Text) → HasNames (get path listings))
      → (fuel : ℕ) (dir : Text) (depth : ℕ) → longest expanded < length dir + fuel
      → IsOpen expanded dir
      → AreShown expanded (flatten_rows locale expanded listings fuel dir depth)
  unfolding flatten_rows
  below-AreShown locale listings names zero dir depth h o =
      absurd (IsOpen-longest dir o (let p : longest expanded < length dir = omega arith in p))
  below-AreShown locale listings names (suc fuel) dir depth h o =
      listed_rows-AreShown locale (flatten_rows locale expanded listings fuel) dir depth
        (get dir listings)
        (λ path longer opened.
          below-AreShown locale listings names fuel path (depth + 1) (omega arith) (inr opened))
        o (names dir)

-- When every listed entry has a name, as many levels as the longest open path has code units, and one
-- more, end the recursion: the tree has rows, and each entry stands at the path of its name under the
-- root or under a directory that is open.
pub flatten_rows-AreShown :
    (locale : Text → Text → Bool) (expanded : List Text) (listings : List (Text × Listing))
    (fuel : ℕ)
    → ((path : Text) → HasNames expanded (get path listings))
    → longest expanded < fuel
    → AreShown expanded (flatten_rows locale expanded listings fuel [] 0)
flatten_rows-AreShown locale expanded listings fuel names h =
    below-AreShown expanded locale listings names fuel [] 0 (omega arith) (inl refl)
