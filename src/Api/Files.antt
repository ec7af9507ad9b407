-- ===== src/Api/Files.antt =====
-- Reading files of a sandbox (web/src/api/files.ts): the arguments of the requests, and the loop that
-- reads a whole file, window after window.
pub mod Laws
use ephemeral_sandbox_consol.Base.{
  ℕ, zero, suc, Bool, Option, none, some, List, [], ◌∷◌, ◌++◌, nat_eq, if◌then◌else◌, Text, codes,
  pos,
}
use ephemeral_sandbox_consol.Base.Json.{Json, string, number}
use ephemeral_sandbox_consol.Api.Rpc.{RpcError}

pub record FileReadWindow : Type 0 where
  pub path : Text
  pub content : Text
  pub start_line : ℕ
  pub num_lines : ℕ
  pub total_lines : ℕ
  pub bytes_read : ℕ
  pub total_bytes : ℕ
  pub next_offset : Option ℕ
  pub truncated : Bool

-- `if (session)`: a session that is null or empty is no session.
abbrev session_args : Option Text → List (Text × Json)
session_args none = []
session_args (some []) = []
session_args (some (c ∷ s)) = (codes "workspace_session_id", string (c ∷ s)) ∷ []

abbrev number_args : Text → Option ℕ → List (Text × Json)
number_args name none = []
number_args name (some n) = (name, number (pos n)) ∷ []

abbrev path_args : Text → List (Text × Json)
path_args [] = []
path_args (c ∷ s) = (codes "path", string (c ∷ s)) ∷ []

-- The arguments of `fileList`, `fileRead` and `fileWrite`, in the order of their assignment.
unfoldable pub file_list_args : Text → Option Text → List (Text × Json)
file_list_args path session = path_args path ++ session_args session

unfoldable pub file_read_args : Text → Option Text → Option ℕ → Option ℕ → List (Text × Json)
file_read_args path session offset limit =
    (codes "path", string path)
    ∷ (session_args session
        ++ (number_args (codes "offset") offset ++ number_args (codes "limit") limit))

unfoldable pub file_write_args : Text → Text → Option Text → List (Text × Json)
file_write_args path content session =
    (codes "path", string path) ∷ (codes "content", string content) ∷ session_args session

pub record WholeFile : Type 0 where
  pub content : Text
  pub total_lines : ℕ
  pub total_bytes : ℕ

-- The outcome of one `fileRead`.
pub data WindowRead : Type 0 where
  failed : RpcError → WindowRead
  window : FileReadWindow → WindowRead

-- The outcome of `fileReadToEnd`. `unfinished` says that the rounds did not suffice.
pub data FileRead : Type 0 where
  unfinished : FileRead
  rejected : RpcError → FileRead
  resolved : WholeFile → FileRead

-- `content === "" ? window.content : `${content}\n${window.content}``
abbrev pub add_window : Text → Text → Text
add_window [] more = more
add_window (c ∷ content) more = (c ∷ content) ++ 10 ∷ more

whole_file : Text → FileReadWindow → WholeFile
whole_file content w = record {
  content = content;
  total_lines = w.total_lines;
  total_bytes = w.total_bytes;
}

-- Whether the loop stops, with the offset to go on from otherwise.
abbrev pub next_of : FileReadWindow → Option ℕ
next_of w = if nat_eq w.num_lines 0 then none else w.next_offset

module _ (file_read : List (Text × Json) → WindowRead) (path : Text) (session : Option Text) where
  unfoldable pub read_from : ℕ → Option ℕ → Text → FileRead
  unfolding whole_file file_read_args
  read_from zero offset content = unfinished
  read_from (suc rounds) offset content =
      elim (file_read (file_read_args path session offset (some 2000))) [
        | failed error ↦ rejected error
        | window w ↦ elim (next_of w) [
          | none ↦ resolved (whole_file (add_window content w.content) w)
          | some next ↦ read_from rounds (some next) (add_window content w.content)
        ]
      ]

  unfoldable pub file_read_to_end : ℕ → FileRead
  unfolding read_from
  file_read_to_end rounds = read_from rounds none []
