-- ===== src/Client.antt =====
-- upstream.py: one JSON-RPC call over HTTP, and server.py: the answer to what a handler raises. The HTTP
-- client is a parameter, by what it gives; Python's int() and str() are parameters.
pub mod Laws
mod Tests
use exec_rest_api.Base.{ℕ, String, Option, none, some, [], ◌∷◌, ℤ, Text, codes, if◌then◌else◌, ◌==◌}
use exec_rest_api.Json.{
  Json, null, str, obj, Fields, get, nat, or_null, Message, says, Exn, rpc_error, upstream_error,
  other_error, exn_text, Result, ok, err,
}
use exec_rest_api.Errors.{Problem, Response, minus, map_jsonrpc_error, problem_response}

-- what the POST gives: a status with its body, `none` when that is no JSON; an error of the client; or
-- any other exception
pub data HttpReply : Type 0 where
  responds : ℕ → Option Json → HttpReply
  client_fails : Message → HttpReply
  raises : Message → HttpReply

-- the result of a call, and the status that its observer is told
abbrev pub Outcome : Type 0
Outcome = Result Json × String

abbrev transport_error : Message → Outcome
transport_error m = (err (upstream_error m), "transport-error")

module _ (python_int : Json → Result ℤ) (python_str : Json → Text) where
  -- int(err.get("code", -32603))
  abbrev code_of : Option Json → Result ℤ
  code_of none = ok (minus 32603)
  code_of (some v) = python_int v

  -- str(err.get("message", ""))
  abbrev message_of : Option Json → Text
  message_of none = []
  message_of (some (str s)) = s
  message_of (some v) = python_str v

  abbrev refused_call : Fields → Result ℤ → Outcome
  refused_call e (ok code) = (
    err (rpc_error code (message_of (get e (codes "message"))) (or_null (get e (codes "data")))),
    "error",
  )
  refused_call e (err x) = (err x, "error")

  abbrev of_error : Json → Outcome
  of_error (obj e) = refused_call e (code_of (get e (codes "code")))
  of_error v = transport_error (says "upstream error object malformed: {err!r}" (v ∷ []))

  abbrev of_result : Fields → Option Json → Outcome
  of_result payload none =
      transport_error
        (says "upstream response has neither result nor error: {payload!r}" (obj payload ∷ []))
  of_result payload (some v) = (ok v, "ok")

  abbrev of_fields : Fields → Option Json → Outcome
  of_fields payload none = of_result payload (get payload (codes "result"))
  of_fields payload (some e) = of_error e

  unfoldable pub of_payload : Json → Outcome
  of_payload (obj payload) = of_fields payload (get payload (codes "error"))
  of_payload v = transport_error (says "upstream returned non-object: {payload!r}" (v ∷ []))

  abbrev of_http_body : Option Json → Outcome
  of_http_body none = transport_error (says "upstream returned non-JSON body: {e}" [])
  of_http_body (some payload) = of_payload payload

  unfoldable pub client_call : HttpReply → Outcome
  client_call (responds status body) =
      if status == 200
      then of_http_body body
      else transport_error (says "upstream HTTP {resp.status}" (nat status ∷ []))
  client_call (client_fails m) = transport_error m
  client_call (raises m) = (err (other_error m), "ok")

abbrev with_instance : Problem → Text → Problem
with_instance problem path = record problem { instance_path = some path }

-- error_mapping_middleware, of a request that has a handler
unfoldable pub error_mapping : Text → Result Response → Response
error_mapping path (ok response) = response
error_mapping path (err (rpc_error code message blob)) =
    problem_response (with_instance (map_jsonrpc_error code message blob) path)
error_mapping path (err (upstream_error m)) = problem_response (record {
  status = 502;
  type_slug = "upstream-error";
  title = "Upstream error";
  detail = some m;
  instance_path = some path;
  code = none;
  extra = null;
})
error_mapping path (err e) = problem_response (record {
  status = 500;
  type_slug = "internal-error";
  title = "Internal error";
  detail = none;
  instance_path = some path;
  code = none;
  extra = null;
})
