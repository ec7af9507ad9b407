-- ===== src/Tests/Transcripts.antt =====
-- Pages of a transcript at concrete inputs.
use ephemeral_sandbox_consol.Base.{
  ℕ, ◌+◌, ◌≤◌, ◌<◌, ◌≡◌, refl, ap, subst, false, none, some, [], arith, length, Text, codes,
}
use ephemeral_sandbox_consol.Api.Types.{CommandStatus, CommandOutput}
use ephemeral_sandbox_consol.Core.Ledger.{new_transcript}
use ephemeral_sandbox_consol.Pages.Transcript.{PageAnswer, failed, page, fetch_pages}
use ephemeral_sandbox_consol.Pages.Transcript.Laws.{
  Advances, HasEnded, fetch_pages-HasEnded, fetch_pages-stuck,
}

abbrev page_of : ℕ → ℕ → Text → CommandOutput
page_of start stop output = record {
  status = CommandStatus.running;
  exit_code = none;
  wall_time_seconds = record { num = 0; den = 1 };
  command_total_time_seconds = record { num = 0; den = 1 };
  start_offset = start;
  end_offset = stop;
  total_lines = 2;
  original_token_count = 0;
  output = output;
  command_session_id = some (codes "c");
  workspace_session_id = none;
  publish_rejected = none;
  publish_reject_class = none;
}

-- Two lines, of which each page has one.
abbrev line_by_line : ℕ → ℕ → PageAnswer
line_by_line round offset = page (page_of offset (offset + 1) (codes "a"))

line_by_line-Advances : Advances 2 line_by_line
line_by_line-Advances round offset output e =
    subst
      (λ (o : CommandOutput).
        (o.total_lines ≤ 2)
        × (offset < o.total_lines
            → (o.start_offset < o.end_offset) × (0 < length o.output) × (offset < o.end_offset)))
      (ap output_of e) (omega arith, λ h. (omega arith, (omega arith), (omega arith)))
  where
    output_of : PageAnswer → CommandOutput
    output_of (failed message) = page_of 0 0 []
    output_of (page o) = o

fetch_pages-HasEnded_example : HasEnded (fetch_pages line_by_line 3 false new_transcript)
fetch_pages-HasEnded_example =
    fetch_pages-HasEnded 2 line_by_line 3 new_transcript line_by_line-Advances (omega arith)

-- One empty line is out, and a second one that the page does not reach.
fetch_pages-stuck_example :
    fetch_pages (λ round offset. page (page_of 0 1 [])) 50 false new_transcript ≡ none
fetch_pages-stuck_example =
    fetch_pages-stuck (λ round offset. page (page_of 0 1 [])) (page_of 0 1 []) new_transcript 50
      (λ n. refl) refl (omega arith)
