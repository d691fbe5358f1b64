-- ===== src/Traces/Calls.antt =====
-- handlers/traces.py: the traces of calls that are not on the chain.
use exec_rest_api.Base.{Option, List, [], ◌∷◌, ◌&&◌, Text, codes, if◌then◌else◌}
use exec_rest_api.Json.{
  Json, str, arr, obj, Fields, get, has, items, list, or_null, each, says, exn_text, Result, ok,
  err,
}
use exec_rest_api.Json
use exec_rest_api.Errors.{Response, json_response, bad_request}
use exec_rest_api.Exec.{Upstream, Exec, call, pure, ◌>>=◌}
use exec_rest_api.Logs.Ranges.{or_bad_request}
use exec_rest_api.Computed.Request.{call_request_to_rpc}
use exec_rest_api.Computed.{is_value_or_key_error, block_of, then_step}
use exec_rest_api.Traces.Lookup.{read_json_object, validate_tracers, with_object, with_valid}

-- the call object of the field `call`, and the block
abbrev one_call : Fields → Result (Json × Text)
one_call body =
    Json.◌>>=◌ (call_request_to_rpc (or_null (get body (codes "call"))))
      λ (rpc, inside). Json.◌>>=◌ (block_of (get body (codes "at"))) λ at. ok (rpc, at)

abbrev call_and_tracers : List Json → Json → Result Json
call_and_tracers tracers v =
    Json.◌>>=◌ (call_request_to_rpc v) λ (rpc, inside). ok (list (rpc ∷ list tracers ∷ []))

abbrev many_calls : List Json → List Json → Fields → Result (Json × Text)
many_calls tracers calls body =
    Json.◌>>=◌ (each (call_and_tracers tracers) calls)
      λ rpcs. Json.◌>>=◌ (block_of (get body (codes "at"))) λ at. ok (list rpcs, at)

module _ (u : Upstream) (path : Text) where
  abbrev traced_one : Fields → Exec Response
  traced_one body =
      with_valid u path (validate_tracers (or_null (get body (codes "tracers")))) λ ts.
        or_bad_request is_value_or_key_error path exn_text (one_call body)
        >>= then_step λ (rpc, at).
          call u "trace_call" (rpc ∷ list ts ∷ str at ∷ []) >>= λ v. pure (json_response v)

  unfoldable pub trace_call_handler : Option Json → Exec Response
  trace_call_handler body = with_object u path (read_json_object path body) λ fs.
      if has fs (codes "call") && has fs (codes "tracers")
      then traced_one fs
      else pure (bad_request path (says "fields `call` and `tracers` are required" []))

  abbrev traced_calls : Fields → List Json → Json → Exec Response
  traced_calls body ts (arr calls) =
      or_bad_request is_value_or_key_error path exn_text (many_calls ts (items calls) body)
      >>= then_step
          λ (rpcs, at). call u "trace_callMany" (rpcs ∷ str at ∷ []) >>= λ v. pure (json_response v)
  traced_calls body ts v = pure (bad_request path (says "`calls` must be an array" []))

  abbrev traced_many : Fields → Exec Response
  traced_many body =
      with_valid u path (validate_tracers (or_null (get body (codes "tracers"))))
        λ ts. traced_calls body ts (or_null (get body (codes "calls")))

  unfoldable pub trace_call_many_handler : Option Json → Exec Response
  trace_call_many_handler body = with_object u path (read_json_object path body) λ fs.
      if has fs (codes "calls") && has fs (codes "tracers")
      then traced_many fs
      else pure (bad_request path (says "fields `calls` and `tracers` are required" []))
