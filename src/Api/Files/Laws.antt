-- ===== src/Api/Files/Laws.antt =====
-- A whole file is read whole (`fileReadToEnd` of web/src/api/files.ts).
use ephemeral_sandbox_consol.Base.{
  ℕ, zero, suc, ◌+◌, ◌≤◌, ◌<◌, ◌≡◌, refl, sym, ap, ap₂, ◌∙◌, subst, ◌≢◌, ◌⊎◌, inl, inr, Option,
  none, some, List, [], ◌∷◌, ◌++◌, append_assoc, arith, ltb, if◌then◌else◌, Bool-cases, length,
  take, drop, length-drop, Text, length-take, take-length, take-append-drop,
}
use ephemeral_sandbox_consol.Base.Json.{Json}
use ephemeral_sandbox_consol.Base.Strings.{join}
use ephemeral_sandbox_consol.Api.Files.{
  FileReadWindow, file_read_args, WindowRead, window, resolved, add_window, next_of, read_from,
  file_read_to_end,
}

-- The offset of the window that starts after the given number of lines: lines are numbered from 1,
-- and the first request has no offset.
abbrev pub offset_after : ℕ → Option ℕ
offset_after zero = none
offset_after (suc k) = some (k + 2)

-- The window that starts after k lines and holds m.
abbrev pub IsWindow : List Text → ℕ → ℕ → FileReadWindow → Type 0
IsWindow lines k m w =
    (w.content ≡ join (10 ∷ []) (take m (drop k lines)))
    × (w.num_lines ≡ m)
    × (1 ≤ m)
    × (k + m ≤ length lines)
    × (w.next_offset ≡ (if ltb (k + m) (length lines) then some (k + m + 1) else none))
    × (w.total_lines ≡ length lines)

-- What the runtime's `file_read` documents: asked for an offset within the file, it gives the window
-- there, of some lines, as many as it chooses, and the offset after them, or null at the end.
abbrev pub IsPaging :
    (List (Text × Json) → WindowRead) → Text → Option Text → List Text → ℕ → Type 0
IsPaging file_read path session lines bytes =
    (k : ℕ)
    → k < length lines
    → (m : ℕ) × (w : FileReadWindow) × (file_read
          (file_read_args path session (offset_after k) (some 2000))
        ≡ window w)
      × IsWindow lines k m w
      × (w.total_bytes ≡ bytes)

join-append :
    (d : Text) (xs ys : List Text)
    → 1 ≤ length xs
    → 1 ≤ length ys
    → join d (xs ++ ys) ≡ join d xs ++ (d ++ join d ys)
join-append d [] ys h k = absurd (omega (arith, h))
join-append d (x ∷ []) [] h k = absurd (omega (arith, k))
join-append d (x ∷ []) (y ∷ ys) h k = refl
join-append d (x ∷ z ∷ xs) ys h k =
    ap (λ t. x ++ (d ++ t)) (join-append d (z ∷ xs) ys (omega arith) k)
    ∙ ap (λ t. x ++ t) (sym (append_assoc d (join d (z ∷ xs)) (d ++ join d ys)))
    ∙ sym (append_assoc x (d ++ join d (z ∷ xs)) (d ++ join d ys))

add_window_lem : (s t : Text) → s ≢ [] → add_window s t ≡ s ++ ((10 ∷ []) ++ t)
add_window_lem [] t h = absurd (h refl)
add_window_lem (c ∷ s) t h = refl

add_window_nonempty : (s t : Text) → s ≢ [] → add_window s t ≢ []
add_window_nonempty [] t h e = h refl
add_window_nonempty (c ∷ s) t h e = absurd (cc)

-- The text of the first k lines.
abbrev first_lines : List Text → ℕ → Text
first_lines lines k = join (10 ∷ []) (take k lines)

-- The windows so far and one more.
add_window-join :
    (lines : List Text) (k m : ℕ)
    → 1 ≤ m
    → k + m ≤ length lines
    → (k ≡ 0) ⊎ (first_lines lines k ≢ [])
    → add_window (first_lines lines k) (join (10 ∷ []) (take m (drop k lines)))
      ≡ first_lines lines (k + m)
add_window-join lines zero m h₁ h₂ filled = ap (first_lines lines) (omega arith)
add_window-join lines (suc k) m h₁ h₂ (inl e) = absurd (omega (arith, e))
add_window-join lines (suc k) m h₁ h₂ (inr filled) =
    add_window_lem (first_lines lines (suc k)) (join (10 ∷ []) (take m (drop (suc k) lines))) filled
    ∙ sym (
        join-append (10 ∷ []) (take (suc k) lines) (take m (drop (suc k) lines))
          (omega (arith, length-take (suc k) lines (omega arith)))
          (omega (
            arith,
            h₁,
            length-take m (drop (suc k) lines) (omega (arith, length-drop (suc k) lines)),
          )))
    ∙ ap (join (10 ∷ [])) (sym (take-append-drop m (suc k) lines))

offset_after_lem : (n : ℕ) → 1 ≤ n → offset_after n ≡ some (n + 1)
offset_after_lem zero h = absurd (omega (arith, h))
offset_after_lem (suc n) h = ap some (omega arith)

next_of_lem : (w : FileReadWindow) → 1 ≤ w.num_lines → next_of w ≡ w.next_offset
next_of_lem w h = ground arith

same_whole :
    {s t : Text} {a b c d : ℕ}
    → s ≡ t
    → a ≡ b
    → c ≡ d
    → resolved (record { content = s; total_lines = a; total_bytes = c })
      ≡ resolved (record { content = t; total_lines = b; total_bytes = d })
same_whole e f g = cc

module _ (file_read : List (Text × Json) → WindowRead) (path : Text) (session : Option Text) where
  abbrev asked : Option ℕ → WindowRead
  asked offset = file_read (file_read_args path session offset (some 2000))

  read_from-last :
      (rounds : ℕ) (offset : Option ℕ) (content : Text) (w : FileReadWindow)
      → asked offset ≡ window w
      → next_of w ≡ none
      → read_from file_read path session (suc rounds) offset content
        ≡ resolved (record {
          content = add_window content w.content;
          total_lines = w.total_lines;
          total_bytes = w.total_bytes;
        })
  unfolding read_from
  read_from-last rounds offset content w found last = rw (found, read_from) (rw (last) refl)

  read_from-next :
      (rounds : ℕ) (offset : Option ℕ) (content : Text) (w : FileReadWindow) {next : ℕ}
      → asked offset ≡ window w
      → next_of w ≡ some next
      → read_from file_read path session (suc rounds) offset content
        ≡ read_from file_read path session rounds (some next) (add_window content w.content)
  unfolding read_from
  read_from-next rounds offset content w found more = rw (found, read_from) (rw (more) refl)

  module _ (lines : List Text) (bytes : ℕ) (paging : IsPaging file_read path session lines bytes)
      (first : (w : FileReadWindow)
        → asked none ≡ window w
        → (w.content ≢ []) ⊎ (w.next_offset ≡ none)) where
    -- After any window that others follow, some text is there.
    filled_after :
        (k m : ℕ) (w : FileReadWindow)
        → asked (offset_after k) ≡ window w
        → IsWindow lines k m w
        → (k ≡ 0) ⊎ (first_lines lines k ≢ [])
        → k + m < length lines
        → first_lines lines (k + m) ≢ []
    filled_after zero m w found (content, _, positive, _, next, _) filled more =
        elim (first w found) [
          | inl some_text ↦
              subst (λ t. t ≢ []) (content ∙ ap (first_lines lines) (omega arith)) some_text
          | inr last ↦ absurd (ground arith)
        ]
    filled_after (suc k) m w found _ (inl e) more = absurd (omega (arith, e))
    filled_after (suc k) m w found (_, _, positive, inside, _, _) (inr filled) more =
        subst (λ t. t ≢ []) (add_window-join lines (suc k) m positive inside (inr filled))
          (add_window_nonempty _ _ filled)

    read_from-lines :
        (rounds k : ℕ)
        → k < length lines
        → length lines ≤ rounds + k
        → (k ≡ 0) ⊎ (first_lines lines k ≢ [])
        → read_from file_read path session rounds (offset_after k) (first_lines lines k)
          ≡ resolved (record {
            content = join (10 ∷ []) lines;
            total_lines = length lines;
            total_bytes = bytes;
          })
    read_from-lines zero k h₁ h₂ filled = absurd (omega (arith, h₁, h₂))
    read_from-lines (suc rounds) k h₁ h₂ filled =
        let (m, w, found, (content, num, positive, inside, next, total), size) = paging k h₁ in
        let grown : add_window (first_lines lines k) w.content ≡ first_lines lines (k + m) =
          ap (add_window (first_lines lines k)) content
          ∙ add_window-join lines k m positive inside filled in
        let following : next_of w ≡ w.next_offset = next_of_lem w (omega (arith, num, positive)) in
        elim (Bool-cases (ltb (k + m) (length lines))) [
          | inl e ↦
              read_from-next rounds (offset_after k) (first_lines lines k) w found
                (following ∙ next ∙ ground (arith, e))
              ∙ ap₂ (read_from file_read path session rounds)
                  (sym (offset_after_lem (k + m) (omega arith))) grown
              ∙ read_from-lines rounds (k + m) (ground (arith, e)) (omega (arith, h₂, positive)) (
                  inr (
                    filled_after k m w found (content, num, positive, inside, next, total) filled
                      (ground (arith, e))))
          | inr e ↦
              read_from-last rounds (offset_after k) (first_lines lines k) w found
                (following ∙ next ∙ ground (arith, e))
              ∙ same_whole
                  (grown
                    ∙ ap (first_lines lines) (ground (arith, e))
                    ∙ ap (join (10 ∷ [])) (take-length lines))
                  total size
        ]

    -- Let a runtime page through the lines of a file, at least one, as documented, with windows of whatever sizes,
    -- and let its first window hold some text or be the only one. Then reading to the end gives the
    -- lines joined by newlines, with the totals, in at most as many rounds as there are lines.
    pub file_read_to_end-lines :
        (rounds : ℕ)
        → 1 ≤ length lines
        → length lines ≤ rounds
        → file_read_to_end file_read path session rounds
          ≡ resolved (record {
            content = join (10 ∷ []) lines;
            total_lines = length lines;
            total_bytes = bytes;
          })
    unfolding file_read_to_end
    file_read_to_end-lines rounds h₁ h₂ =
        read_from-lines rounds zero (omega (arith, h₁)) (omega (arith, h₂)) (inl refl)
