-- ===== src/Tests/Reading.antt =====
-- Reading a file of two lines, one in each window.
use ephemeral_sandbox_consol.Base.{
  zero, suc, ◌≡◌, refl, inl, true, false, none, some, List, [], ◌∷◌, arith, Text, codes,
  text_discrete,
}
use ephemeral_sandbox_consol.Base.Json.{Json}
use ephemeral_sandbox_consol.Base.Keyed.{get}
use ephemeral_sandbox_consol.Api.Files.{
  FileReadWindow, WindowRead, window, file_read_args, resolved, file_read_to_end,
}
use ephemeral_sandbox_consol.Api.Files.Laws.{IsPaging, file_read_to_end-lines}

abbrev two_lines : List Text
two_lines = codes "a" ∷ codes "b" ∷ []

abbrev first_window : FileReadWindow
first_window = record {
  path = codes "f";
  content = codes "a";
  start_line = 1;
  num_lines = 1;
  total_lines = 2;
  bytes_read = 2;
  total_bytes = 3;
  next_offset = some 2;
  truncated = true;
}

abbrev second_window : FileReadWindow
second_window = record {
  path = codes "f";
  content = codes "b";
  start_line = 2;
  num_lines = 1;
  total_lines = 2;
  bytes_read = 1;
  total_bytes = 3;
  next_offset = none;
  truncated = false;
}

abbrev runtime : List (Text × Json) → WindowRead
runtime args = elim (get (codes "offset") args) [
  | none ↦ window first_window
  | some offset ↦ window second_window
]

runtime-IsPaging : IsPaging runtime (codes "f") none two_lines 3
unfolding file_read_args text_discrete
runtime-IsPaging zero h =
    (1, first_window, refl, (refl, refl, omega arith, omega arith, refl, refl), refl)
runtime-IsPaging (suc zero) h =
    (1, second_window, refl, (refl, refl, omega arith, omega arith, refl, refl), refl)
runtime-IsPaging (suc (suc k)) h = absurd (omega (arith, h))

file_read_to_end-lines_example :
    file_read_to_end runtime (codes "f") none 2
    ≡ resolved (record { content = codes "a\nb"; total_lines = 2; total_bytes = 3 })
unfolding file_read_args text_discrete
file_read_to_end-lines_example =
    file_read_to_end-lines runtime (codes "f") none two_lines 3 runtime-IsPaging
      (λ w e. inl (λ q. cc)) 2 (omega arith) (omega arith)
