-- ===== src/Tests/Requests.antt =====
-- Requests and streams at concrete inputs.
use ephemeral_sandbox_consol.Base.{
  ◌≡◌, refl, ◌↔◌, false, Option, some, List, [], ◌∷◌, ◌++◌, take, drop, Text, codes, text_discrete,
}
use mathlib.Core.List.{flatten}
use ephemeral_sandbox_consol.Base.Json.{Json, null, string}
use ephemeral_sandbox_consol.Api.Rpc.{unreachable, answered, rpc, post_json, network_error}
use ephemeral_sandbox_consol.Api.Rpc.Laws.{
  post_json-eq-rpc, rpc-rejected, failed_status, IsAnsweredOk,
}
use ephemeral_sandbox_consol.Api.Stream
use ephemeral_sandbox_consol.Api.Stream.{BodyEnd, rpc_stream}
use ephemeral_sandbox_consol.Api.Stream.Chunking.{rpc_stream_of_text}

post_json-eq-rpc_example : post_json (answered 404 null) ≡ rpc (answered 404 null)
post_json-eq-rpc_example = post_json-eq-rpc (answered 404 null)

rpc-rejected_example :
    (((network_error (codes "down")).transport ≡ false) ↔ IsAnsweredOk (unreachable (codes "down")))
    × ((network_error (codes "down")).status ≡ failed_status (unreachable (codes "down")))
unfolding rpc
rpc-rejected_example = rpc-rejected (unreachable (codes "down")) (network_error (codes "down")) refl

-- A parser that takes every text for a string.
abbrev parse : Text → Option Json
parse s = some (string s)

abbrev event : Text
event = codes "event: result" ++ 10 ∷ codes "data: 7" ++ 10 ∷ 10 ∷ []

abbrev cuts : List Text
cuts = take 5 event ∷ take 16 (drop 5 event) ∷ drop 21 event ∷ []

rpc_stream_of_text_example :
    rpc_stream parse (Stream.answered 200 null (some (cuts, BodyEnd.closed)))
    ≡ rpc_stream parse (Stream.answered 200 null (some (event ∷ [], BodyEnd.closed)))
unfolding flatten
rpc_stream_of_text_example = rpc_stream_of_text parse 200 null BodyEnd.closed cuts (event ∷ []) refl

stream_run :
    rpc_stream parse (Stream.answered 200 null (some (cuts, BodyEnd.closed)))
    ≡ record { logs = []; outcome = Stream.resolved (string (codes "7")) }
unfolding rpc_stream text_discrete
stream_run = refl
