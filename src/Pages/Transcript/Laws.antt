-- ===== src/Pages/Transcript/Laws.antt =====
-- When the pages of a transcript end (web/src/pages/sandbox/terminal/TranscriptViewer.tsx).
use ephemeral_sandbox_consol.Base.{
  ℕ, zero, suc, ◌+◌, ◌≤◌, ◌<◌, max, ◌≡◌, refl, ap, ◌∙◌, ◌⊎◌, inl, inr, Bool, true, false, ◌&&◌,
  Option, none, some, [], arith, ltb, if◌then◌else◌, Bool-cases, ltb→lt, lt→ltb, is_some, length,
}
use ephemeral_sandbox_consol.Api.Types.{CommandOutput}
use ephemeral_sandbox_consol.Core.Ledger.{TranscriptState, is_true, absorb_lines, absorb_output}
use ephemeral_sandbox_consol.Core.Ledger.Output.{absorb_output-lines, absorb_lines-written}
use ephemeral_sandbox_consol.Pages.Transcript.{
  PageAnswer, failed, page, has_more, after_page, fetch_loop, fetch_pages,
}

absorb_output-total_lines :
    (state : TranscriptState) (output : CommandOutput)
    → (absorb_output state output).total_lines ≡ output.total_lines
unfolding absorb_output
absorb_output-total_lines state output = elim (Bool-cases (is_true output.publish_rejected)) [
  | inl e ↦ rw (e) refl
  | inr e ↦ rw (e) refl
]

-- The test of `absorbOutput`.
abbrev is_written : CommandOutput → Bool
is_written output = ltb output.start_offset output.end_offset && ltb 0 (length output.output)

absorb_lines-skipped :
    (state : TranscriptState) (output : CommandOutput)
    → is_written output ≡ false
    → (absorb_lines output state).fetched_to ≡ state.fetched_to
unfolding absorb_lines
absorb_lines-skipped state output e = rw (e) refl

-- Nothing is written of an empty text.
absorb_output-empty :
    (state : TranscriptState) (output : CommandOutput)
    → output.output ≡ []
    → (absorb_output state output).fetched_to ≡ state.fetched_to
absorb_output-empty state output e =
    let size : length output.output ≡ 0 = ap length e in
    (absorb_output-lines state output).1 ∙ absorb_lines-skipped state output (ground (arith, size))

absorb_output-grows :
    (state : TranscriptState) (output : CommandOutput)
    → state.fetched_to ≤ (absorb_output state output).fetched_to
absorb_output-grows state output =
    let same = (absorb_output-lines state output).1 in
    elim (Bool-cases (is_written output)) [
      | inl e ↦ omega (arith, same, (absorb_lines-written state output e).1)
      | inr e ↦ omega (arith, same, absorb_lines-skipped state output e)
    ]

absorb_output-advanced :
    (state : TranscriptState) (output : CommandOutput)
    → output.start_offset < output.end_offset
    → 0 < length output.output
    → (absorb_output state output).fetched_to ≡ max state.fetched_to output.end_offset
absorb_output-advanced state output h k =
    (absorb_output-lines state output).1 ∙ (absorb_lines-written state output (ground arith)).1

-- The command has no more than `total` lines; and a page asked for at an offset before the end starts
-- before it ends, has text, and ends after that offset.
abbrev pub Advances : ℕ → (ℕ → ℕ → PageAnswer) → Type 0
Advances total read =
    (round offset : ℕ) (output : CommandOutput)
    → read round offset ≡ page output
    → (output.total_lines ≤ total)
      × (offset < output.total_lines
          → (output.start_offset < output.end_offset)
            × (0 < length output.output)
            × (offset < output.end_offset))

-- The loop ended: the last request failed, or the transcript has all lines that were reported.
abbrev pub HasEnded : Option TranscriptState → Type 0
HasEnded found =
    (state : TranscriptState) × (found ≡ some state)
    × ((is_some state.error ≡ true) ⊎ (state.total_lines ≤ state.fetched_to))

abbrev Known : ℕ → ℕ → PageAnswer → Type 0
Known total offset (failed message) = Unit
Known total offset (page output) =
    (output.total_lines ≤ total)
    × (offset < output.total_lines
        → (output.start_offset < output.end_offset)
          × (0 < length output.output)
          × (offset < output.end_offset))

read-Known :
    (total round offset : ℕ) (read : ℕ → ℕ → PageAnswer)
    → Advances total read
    → Known total offset (read round offset)
read-Known total round offset read h = go (read round offset) refl
  where
    go : (a : PageAnswer) → read round offset ≡ a → Known total offset a
    go (failed message) e = tt
    go (page output) e = h round offset output e

after_page-HasEnded :
    (total fuel : ℕ) (read : ℕ → ℕ → PageAnswer) (again : TranscriptState → Option TranscriptState)
    (state : TranscriptState) (answer : PageAnswer)
    → ((next : TranscriptState) → 0 < fuel → total < fuel + next.fetched_to → HasEnded (again next))
    → total < suc fuel + state.fetched_to
    → Known total state.fetched_to answer
    → HasEnded (after_page read again state answer)
after_page-HasEnded total fuel read again state (failed message) h enough known =
    (_, refl, inl refl)
after_page-HasEnded total fuel read again state (page output) h enough (bounded, moves) =
    let next : TranscriptState = absorb_output state output in
    let lines : next.total_lines ≡ output.total_lines = absorb_output-total_lines state output in
    let grows : state.fetched_to ≤ next.fetched_to = absorb_output-grows state output in
    elim (Bool-cases (has_more next)) [
      | inl e ↦
          let less : next.fetched_to < next.total_lines =
            ltb→lt next.fetched_to next.total_lines e in
          let (starts, text, ends) = moves (omega arith) in
          let far : next.fetched_to ≡ max state.fetched_to output.end_offset =
            absorb_output-advanced state output starts text in
          rw (e) (h next (omega arith) (omega arith))
      | inr e ↦ rw (e) (_, refl, inr (ground (arith, e)))
    ]

fetch_loop-HasEnded :
    (total : ℕ) (read : ℕ → ℕ → PageAnswer)
    → Advances total read
    → (fuel round : ℕ) (state : TranscriptState) → 0 < fuel
    → total < fuel + state.fetched_to
    → HasEnded (fetch_loop read fuel round state)
unfolding fetch_loop
fetch_loop-HasEnded total read h zero round state k enough = absurd (omega (arith, k))
fetch_loop-HasEnded total read h (suc fuel) round state k enough =
    after_page-HasEnded total fuel read (fetch_loop read fuel (round + 1)) state
      (read round state.fetched_to)
      (λ next l more. fetch_loop-HasEnded total read h fuel (round + 1) next l more) (omega arith)
      (read-Known total round state.fetched_to read h)

-- When every page before the end has text and moves the end of what is fetched, as many rounds as the
-- command has lines, and one more, end a fetch that starts: the last request failed, or every line
-- that was reported is fetched.
pub fetch_pages-HasEnded :
    (total : ℕ) (read : ℕ → ℕ → PageAnswer) (fuel : ℕ) (state : TranscriptState)
    → Advances total read
    → total < fuel
    → HasEnded (fetch_pages read fuel false state)
unfolding fetch_pages
fetch_pages-HasEnded total read fuel state h enough =
    fetch_loop-HasEnded total read h fuel 0 state (omega arith) (omega arith)

after_page-stuck :
    (read : ℕ → ℕ → PageAnswer) (again : TranscriptState → Option TranscriptState)
    (state : TranscriptState) (output : CommandOutput)
    → output.output ≡ []
    → state.fetched_to < output.total_lines
    → ((next : TranscriptState) → next.fetched_to ≡ state.fetched_to → again next ≡ none)
    → after_page read again state (page output) ≡ none
after_page-stuck read again state output e less h =
    let next : TranscriptState = absorb_output state output in
    let same : next.fetched_to ≡ state.fetched_to = absorb_output-empty state output e in
    let lines : next.total_lines ≡ output.total_lines = absorb_output-total_lines state output in
    ap (λ (b : Bool). if b then again next else some (record next { error = none }))
      (lt→ltb next.fetched_to next.total_lines (omega arith))
    ∙ h next same

fetch_loop-stuck :
    (read : ℕ → ℕ → PageAnswer) (output : CommandOutput) (offset fuel round : ℕ)
    (state : TranscriptState)
    → ((n : ℕ) → read n offset ≡ page output)
    → output.output ≡ []
    → offset < output.total_lines
    → state.fetched_to ≡ offset
    → fetch_loop read fuel round state ≡ none
unfolding fetch_loop
fetch_loop-stuck read output offset zero round state h e less at = refl
fetch_loop-stuck read output offset (suc fuel) round state h e less at =
    ap (after_page read (fetch_loop read fuel (round + 1)) state) (ap (read round) at ∙ h round)
    ∙ after_page-stuck read (fetch_loop read fuel (round + 1)) state output e (omega arith)
        (λ next same.
          fetch_loop-stuck read output offset fuel (round + 1) next h e less (same ∙ at))

-- A page without text before the end of the lines, such as that of one empty line, is asked for again
-- and again: however many rounds are made, the fetch does not end.
pub fetch_pages-stuck :
    (read : ℕ → ℕ → PageAnswer) (output : CommandOutput) (state : TranscriptState) (fuel : ℕ)
    → ((n : ℕ) → read n state.fetched_to ≡ page output)
    → output.output ≡ []
    → state.fetched_to < output.total_lines
    → fetch_pages read fuel false state ≡ none
unfolding fetch_pages
fetch_pages-stuck read output state fuel h e less =
    fetch_loop-stuck read output state.fetched_to fuel 0 state h e less refl
