-- ===== src/Api/Rpc.antt =====
-- One-shot requests and their errors (web/src/api/rpc.ts and web/src/api/http.ts). What the
-- platform's `fetch` gives is an argument: the text of its exception, or the answer.
pub mod Laws
use ephemeral_sandbox_consol.Base.{
  ℕ, Bool, true, false, ◌&&◌, Option, none, some, ◌++◌, ltb, leb, if◌then◌else◌, Text, codes,
}
use ephemeral_sandbox_consol.Base.Strings.{decimal}
use ephemeral_sandbox_consol.Base.Json.{Json, string, empty_object, member, member_or, truthy}

pub data Scope : Type 0 where
  system : Scope
  sandbox : Text → Scope

-- `transport` tells a transport failure from a protocol error in a 200 body.
pub record RpcError : Type 0 where
  pub kind : Json
  pub message : Json
  pub details : Json
  pub transport : Bool
  pub status : Option ℕ

-- The outcome of a promise.
pub data Settled : Type 0 where
  resolved : Json → Settled
  rejected : RpcError → Settled

-- What `fetch` gives. The body is what `response.json()` yields, `null` if that fails.
pub data Fetched : Type 0 where
  unreachable : Text → Fetched
  answered : ℕ → Json → Fetched

abbrev pub is_ok : ℕ → Bool
is_ok status = leb 200 status && ltb status 300

abbrev pub error_key : Text
error_key = codes "error"

-- `details ?? {}` of the constructor of `RpcError`
abbrev pub details_of : Option Json → Json
details_of error = member_or (codes "details") error (empty_object)

unfoldable pub protocol_error : Json → RpcError
protocol_error body = record {
  kind = member_or (codes "kind") (member error_key body) (string (codes "unknown_error"));
  message = member_or (codes "message") (member error_key body) (string (codes "operation failed"));
  details = details_of (member error_key body);
  transport = false;
  status = none;
}

unfoldable pub network_error : Text → RpcError
network_error reason = record {
  kind = string (codes "network_error");
  message = string (codes "console unreachable: " ++ reason);
  details = empty_object;
  transport = true;
  status = none;
}

unfoldable pub transport_error : ℕ → Json → RpcError
unfolding decimal
transport_error status body = record {
  kind = member_or (codes "kind") (member error_key body) (string (codes "transport_error"));
  message =
      member_or (codes "message") (member error_key body)
        (string (codes "console answered HTTP " ++ decimal status));
  details = details_of (member error_key body);
  transport = true;
  status = some status;
}

unfoldable pub rpc : Fetched → Settled
unfolding protocol_error network_error transport_error
rpc (unreachable reason) = rejected (network_error reason)
rpc (answered status body) =
    if is_ok status
    then if truthy (member error_key body) then rejected (protocol_error body) else resolved body
    else rejected (transport_error status body)

-- `postJson` builds the same errors with its own literals.
unfoldable pub post_json : Fetched → Settled
unfolding decimal
post_json (unreachable reason) = rejected (record {
  kind = string (codes "network_error");
  message = string (codes "console unreachable: " ++ reason);
  details = empty_object;
  transport = true;
  status = none;
})
post_json (answered status body) =
    let error = member error_key body in
    if is_ok status
    then if truthy error
      then rejected (record {
        kind = member_or (codes "kind") error (string (codes "unknown_error"));
        message = member_or (codes "message") error (string (codes "operation failed"));
        details = details_of error;
        transport = false;
        status = none;
      })
      else resolved body
    else rejected (record {
      kind = member_or (codes "kind") error (string (codes "transport_error"));
      message =
          member_or (codes "message") error
            (string (codes "console answered HTTP " ++ decimal status));
      details = details_of error;
      transport = true;
      status = some status;
    })
