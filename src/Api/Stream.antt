-- ===== src/Api/Stream.antt =====
-- The SSE variant of a request (`parseSseChunk` and `rpcStream` of web/src/api/rpc.ts). The reader
-- gives the decoded chunks of the body in order; `JSON.parse` is a parameter, `none` where it throws.
pub mod Boundaries
pub mod Chunking
use ephemeral_sandbox_consol.Base.{
  ℕ, zero, suc, true, ◌&&◌, Option, none, some, List, [], ◌∷◌, ◌++◌, map, nat_eq, if◌then◌else◌,
  length, drop, Text, codes, ◌==◌,
}
use mathlib.Core.Option
use ephemeral_sandbox_consol.Base.Strings.{starts_with, split, join, trim}
use ephemeral_sandbox_consol.Base.Json.{Json, string, empty_object, null, member, nullish, truthy}
use ephemeral_sandbox_consol.Api.Rpc.{
  RpcError, is_ok, error_key, protocol_error, network_error, transport_error,
}

pub record SseEvent : Type 0 where
  pub event : Text
  pub payload : Text

-- The loop over the lines of a chunk.
parse_lines : Text → List Text → List Text → Text × List Text
unfolding trim
parse_lines event data_lines [] = (event, data_lines)
parse_lines event data_lines (line ∷ lines) =
    if starts_with (codes "event:") line
    then parse_lines (trim (drop 6 line)) data_lines lines
    else if starts_with (codes "data:") line
    then parse_lines event (data_lines ++ trim (drop 5 line) ∷ []) lines
    else parse_lines event data_lines lines

pub parse_sse_chunk : Text → Option SseEvent
unfolding parse_lines
parse_sse_chunk chunk =
    let (event, data_lines) = parse_lines (codes "message") [] (split 10 chunk) in
    if nat_eq (length data_lines) 0
    then none
    else some (record { event = event; payload = join (10 ∷ []) data_lines })

-- How the promise of a stream settles; `thrown` is an exception of the code itself, the
-- SyntaxError of `JSON.parse` or the TypeError of a field access on `null`.
pub data StreamOutcome : Type 0 where
  resolved : Json → StreamOutcome
  rejected : RpcError → StreamOutcome
  thrown : StreamOutcome

-- What one event asks for.
pub data Reaction : Type 0 where
  skip : Reaction
  log : Json → Reaction
  settle : StreamOutcome → Reaction

-- `payload.line ?? ""`, which throws on `null`.
on_log : Option Json → Reaction
on_log none = settle thrown
on_log (some null) = settle thrown
on_log (some payload) = log (nullish (member (codes "line") payload) (string []))

stream_error : Json → RpcError
stream_error payload = record {
  kind = nullish (member (codes "kind") payload) (string (codes "transport_error"));
  message = nullish (member (codes "message") payload) (string (codes "gateway stream failed"));
  details = empty_object;
  transport = true;
  status = none;
}

on_error : Option Json → Reaction
unfolding stream_error
on_error none = settle thrown
on_error (some null) = settle thrown
on_error (some payload) = settle (rejected (stream_error payload))

on_result : Option Json → Reaction
on_result none = settle thrown
on_result (some payload) =
    if truthy (member error_key payload)
    then settle (rejected (protocol_error payload))
    else settle (resolved payload)

react : (Text → Option Json) → Option SseEvent → Reaction
unfolding on_log on_error on_result
react parse none = skip
react parse (some e) =
    if e.event == codes "log"
    then on_log (parse e.payload)
    else if e.event == codes "error"
    then on_error (parse e.payload)
    else if e.event == codes "result"
    then on_result (parse e.payload)
    else skip

-- `buffer.indexOf("\n\n")` with the two slices around it: the text before the first empty line, and
-- the text after it.
pub cut : Text → Option (Text × Text)
cut [] = none
cut (a ∷ []) = none
cut (a ∷ b ∷ s) =
    let rest = cut (b ∷ s) in
    if nat_eq a 10 && nat_eq b 10
    then some ([], s)
    else Option.map (λ parts. (a ∷ parts.0, parts.1)) rest

-- Where the loop over the buffer stops, with the lines that it logged: with a buffer that holds no
-- more boundary, or settled.
pub data Drained : Type 0 where
  waiting : (logs : List Json) → (buffer : Text) → Drained
  done : (logs : List Json) → StreamOutcome → Drained

continue : Reaction → Drained → Drained
continue skip d = d
continue (log line) (waiting logs buffer) = waiting (line ∷ logs) buffer
continue (log line) (done logs outcome) = done (line ∷ logs) outcome
continue (settle outcome) d = done [] outcome

-- What the caller sees: the lines given to `onLog`, in order, and the outcome.
pub record Received : Type 0 where
  pub logs : List Json
  pub outcome : StreamOutcome

resume : Drained → (Text → Received) → Received
resume (done logs outcome) next = record { logs = logs; outcome = outcome }
resume (waiting logs buffer) next =
    let later = next buffer in record { logs = logs ++ later.logs; outcome = later.outcome }

-- How the body ends: the reader is done, or a read fails.
pub data BodyEnd : Type 0 where
  closed broken : BodyEnd

no_result : RpcError
no_result = record {
  kind = string (codes "transport_error");
  message = string (codes "stream ended without a result event");
  details = empty_object;
  transport = true;
  status = none;
}

at_end : BodyEnd → StreamOutcome
unfolding no_result
at_end closed = rejected no_result
at_end broken = thrown

pub data StreamFetched : Type 0 where
  unreachable : Text → StreamFetched
  answered : ℕ → (body : Json) → Option (List Text × BodyEnd) → StreamFetched

module _ (parse : Text → Option Json) where
  -- The inner loop. A boundary takes two code units, so the length of the buffer bounds the rounds.
  drain : ℕ → Text → Drained
  unfolding react parse_sse_chunk cut continue
  drain zero buffer = waiting [] buffer
  drain (suc fuel) buffer = elim (cut buffer) [
    | none ↦ waiting [] buffer
    | some (chunk, rest) ↦ continue (react parse (parse_sse_chunk chunk)) (drain fuel rest)
  ]

  drain_all : Text → Drained
  unfolding drain
  drain_all buffer = drain (length buffer) buffer

  -- The outer loop, over the chunks still to come.
  pub receive : BodyEnd → Text → List Text → Received
  unfolding drain_all resume at_end
  receive end buffer [] = record { logs = []; outcome = at_end end }
  receive end buffer (chunk ∷ chunks) =
      resume (drain_all (buffer ++ chunk)) (λ rest. receive end rest chunks)

  unfoldable pub rpc_stream : StreamFetched → Received
  unfolding receive network_error transport_error
  rpc_stream (unreachable reason) = record { logs = []; outcome = rejected (network_error reason) }
  rpc_stream (answered status body none) = record {
    logs = [];
    outcome = rejected (transport_error status body);
  }
  rpc_stream (answered status body (some (chunks, end))) =
      if is_ok status
      then receive end [] chunks
      else record { logs = []; outcome = rejected (transport_error status body) }
