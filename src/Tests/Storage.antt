-- ===== src/Tests/Storage.antt =====
-- What the browser keeps, at concrete inputs.
use ephemeral_sandbox_consol.Base.{
  ℕ, max, ◌≡◌, refl, ap, true, false, none, some, [], ◌∷◌, map, arith, ltb, length, last_n, All,
  Text, codes, text_discrete,
}
use ephemeral_sandbox_consol.Api.Types.{CommandStatus, CommandOutput}
use ephemeral_sandbox_consol.Core.Controls.{strip_terminal_control_sequences, esc}
use ephemeral_sandbox_consol.Core.Controls.Laws.{IsPrintable, strip_lem}
use ephemeral_sandbox_consol.Core.Clusters.{CreateResult}
use ephemeral_sandbox_consol.Core.Clusters.Storage.{Browser, read_sandbox_clusters}
use ephemeral_sandbox_consol.Core.Clusters.Storage.Laws.{
  Operation, register, remove, run_all, apply_all, read-run_all,
}
use ephemeral_sandbox_consol.Core.Ledger.{
  LedgerEntry, entry_from_snapshot, LocalStorage, load_ledger, save_ledger, new_transcript,
  absorb_output,
}
use ephemeral_sandbox_consol.Core.Ledger.Kept.{load_ledger-save_ledger}
use ephemeral_sandbox_consol.Core.Ledger.Output.{line_at, merged_line, absorb_output_lem}
use ephemeral_sandbox_consol.Tests.Samples.{fleet}
use ephemeral_sandbox_consol.Tests.Codec.{codec}
use ephemeral_sandbox_consol.Tests.Entries.{entries_codec}

abbrev empty_browser : Browser
empty_browser = record { stored = none; readable = true; writable = true }

abbrev pair_created : Operation
pair_created = register (CreateResult.many (none ∷ map some fleet.sandboxes)) (codes "now") false

read-run_all_example :
    read_sandbox_clusters codec
      (run_all codec (pair_created ∷ remove (codes "x") true ∷ []) empty_browser)
    ≡ apply_all
        (pair_created ∷ remove (codes "x") true ∷ [])
        (read_sandbox_clusters codec empty_browser)
read-run_all_example =
    read-run_all codec (pair_created ∷ remove (codes "x") true ∷ []) empty_browser (refl, refl)

abbrev entry : LedgerEntry
entry = entry_from_snapshot (codes "u") 7 (codes "c") (codes "w") none

abbrev stored : LocalStorage
stored = record {
  items = (codes "theme", codes "dark") ∷ [];
  readable = true;
  takes = λ items. ltb (length items) 5;
}

abbrev first_unit : Text → ℕ
first_unit [] = 0
first_unit (c ∷ s) = c

load_ledger-save_ledger_example :
    (load_ledger entries_codec
        (save_ledger entries_codec stored (codes "s") (entry ∷ []))
        (codes "s")
      ≡ last_n 200 (entry ∷ []))
    × (load_ledger entries_codec
          (save_ledger entries_codec stored (codes "s") (entry ∷ []))
          (codes "t")
        ≡ load_ledger entries_codec stored (codes "t"))
unfolding text_discrete
load_ledger-save_ledger_example =
    load_ledger-save_ledger entries_codec stored (codes "s") (codes "t") (entry ∷ []) refl
      (λ e. absurd (let p : b's' ≡ b't' = ap first_unit e in omega (arith, p)))

abbrev full : LocalStorage
full = record stored { takes = λ items. false }

full_run : save_ledger entries_codec full (codes "s") (entry ∷ []) ≡ full
unfolding save_ledger
full_run = refl

abbrev coloured : Text
coloured = esc ∷ b'[' ∷ b'm' ∷ b'a' ∷ []

strip_lem_example :
    All IsPrintable (strip_terminal_control_sequences coloured)
    × (All IsPrintable coloured → strip_terminal_control_sequences coloured ≡ coloured)
    × (strip_terminal_control_sequences (strip_terminal_control_sequences coloured)
        ≡ strip_terminal_control_sequences coloured)
strip_lem_example = strip_lem coloured

coloured_run : strip_terminal_control_sequences (esc ∷ b'[' ∷ b'm' ∷ b'a' ∷ []) ≡ b'a' ∷ []
unfolding strip_terminal_control_sequences
coloured_run = refl

-- One command, a text, and the start of another command.
abbrev between : Text
between = b'0' ∷ esc ∷ b'\\' ∷ b'a' ∷ esc ∷ b']' ∷ b'0' ∷ []

abbrev two_lines : CommandOutput
two_lines = record {
  status = CommandStatus.running;
  exit_code = none;
  wall_time_seconds = record { num = 0; den = 1 };
  command_total_time_seconds = record { num = 0; den = 1 };
  start_offset = 1;
  end_offset = 3;
  total_lines = 3;
  original_token_count = 2;
  output = b'a' ∷ 10 ∷ b'b' ∷ [];
  command_session_id = some (codes "c");
  workspace_session_id = none;
  publish_rejected = none;
  publish_reject_class = none;
}

absorb_output_lem_example :
    ((i : ℕ)
      → line_at (absorb_output new_transcript two_lines).lines i
        ≡ merged_line 1 ((b'a' ∷ []) ∷ (b'b' ∷ []) ∷ []) [] i)
    × ((absorb_output new_transcript two_lines).fetched_to ≡ max 0 3)
absorb_output_lem_example =
    absorb_output_lem new_transcript two_lines (b'a' ∷ []) ((b'b' ∷ []) ∷ []) (omega arith)
      (omega arith) refl (((refl, refl), tt), (((refl, refl), tt), tt))
