-- ===== src/Api/Rpc/Laws.antt =====
-- How a request settles (web/src/api/rpc.ts, web/src/api/http.ts).
use ephemeral_sandbox_consol.Base.{
  ℕ, ◌≤◌, ◌<◌, ◌≡◌, refl, ◌↔◌, false, Option, none, some, arith, if◌then◌else◌,
}
use ephemeral_sandbox_consol.Base.Json.{Json, member, truthy}
use ephemeral_sandbox_consol.Api.Rpc.{
  RpcError, resolved, rejected, Fetched, unreachable, answered, is_ok, rpc, post_json, error_key,
}

-- The two clients settle alike on every answer and on every failure of the network.
pub post_json-eq-rpc : (f : Fetched) → post_json f ≡ rpc f
unfolding rpc post_json
post_json-eq-rpc (unreachable reason) = refl
post_json-eq-rpc (answered status body) = ground arith

-- A request is resolved exactly with the body of a 2xx answer that carries no error.
pub rpc-resolved_iff :
    (f : Fetched) (body : Json)
    → (rpc f ≡ resolved body) ↔ (
        (status : ℕ) × (f ≡ answered status body)
        × (200 ≤ status)
        × (status < 300)
        × (truthy (member error_key body) ≡ false))
unfolding rpc
rpc-resolved_iff (unreachable reason) body = (λ h. ground arith, λ p. ground arith)
rpc-resolved_iff (answered status answer) body =
    (λ h. (status, ground arith, ground arith, ground arith, ground arith), λ p. ground arith)

-- The status of an answer outside 2xx.
abbrev pub failed_status : Fetched → Option ℕ
failed_status (unreachable reason) = none
failed_status (answered status body) = if is_ok status then none else some status

-- The network answered, with a 2xx status.
abbrev pub IsAnsweredOk : Fetched → Type 0
IsAnsweredOk (unreachable reason) = ⊥
IsAnsweredOk (answered status body) = (200 ≤ status) × (status < 300)

-- A rejected request is a protocol error exactly if the answer was 2xx; its error carries the status
-- of an answer outside 2xx, and no status else.
pub rpc-rejected :
    (f : Fetched) (e : RpcError)
    → rpc f ≡ rejected e
    → ((e.transport ≡ false) ↔ IsAnsweredOk f) × (e.status ≡ failed_status f)
unfolding rpc
rpc-rejected (unreachable reason) e h = (ground arith, ground arith)
rpc-rejected (answered status body) e h = (ground arith, ground arith)
