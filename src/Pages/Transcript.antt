-- ===== src/Pages/Transcript.antt =====
-- The pages of a transcript (`fetchPages` of web/src/pages/sandbox/terminal/TranscriptViewer.tsx).
-- The answers of the runtime are an argument: by the round, and by the offset that is asked for.
pub mod Laws
use ephemeral_sandbox_consol.Base.{
  ℕ, zero, suc, ◌+◌, Bool, Option, none, some, ltb, if◌then◌else◌, Text,
}
use ephemeral_sandbox_consol.Api.Types.{CommandOutput}
use ephemeral_sandbox_consol.Core.Ledger.{TranscriptState, absorb_output}

-- What `read_command_lines` settles to: an error, by its message, or a page.
pub data PageAnswer : Type 0 where
  failed : Text → PageAnswer
  page : CommandOutput → PageAnswer

abbrev pub has_more : TranscriptState → Bool
has_more state = ltb state.fetched_to state.total_lines

-- The loop, with fuel for its rounds; `none` is a loop that goes on.
module _ (read : ℕ → ℕ → PageAnswer) where
  abbrev pub after_page :
      (TranscriptState → Option TranscriptState)
      → TranscriptState
      → PageAnswer
      → Option TranscriptState
  after_page again state (failed message) = some (record state { error = some message })
  after_page again state (page output) =
      let next = absorb_output state output in
      if has_more next then again next else some (record next { error = none })

  unfoldable pub fetch_loop : ℕ → ℕ → TranscriptState → Option TranscriptState
  unfolding absorb_output
  fetch_loop zero round state = none
  fetch_loop (suc fuel) round state =
      after_page (fetch_loop fuel (round + 1)) state (read round state.fetched_to)

  -- A call while another one fetches does nothing.
  unfoldable pub fetch_pages : ℕ → (fetching : Bool) → TranscriptState → Option TranscriptState
  unfolding fetch_loop
  fetch_pages fuel fetching state = if fetching then some state else fetch_loop fuel 0 state
