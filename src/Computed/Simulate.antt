-- ===== src/Computed/Simulate.antt =====
-- handlers/computed.py: /simulate.
use exec_rest_api.Base.{
  Bool, true, false, Option, none, some, List, [], ◌∷◌, ℕ, String, Text, codes, lower, starts_with,
  drop, all, is_hex_digit, is_nil, not, ◌&&◌, ◌||◌, ◌==◌, if◌then◌else◌,
}
use exec_rest_api.Json.{
  Json, null, bool, int, float, str, arr, obj, Fields, end, field, get, has, put, list, items,
  or_null, get_or, truthy, each, elements, item, nat, says, value_error, type_error,
  attribute_error, key_error, exn_text, Result, ok, err,
}
use exec_rest_api.Json
use exec_rest_api.Encoding.{hex_to_int}
use exec_rest_api.Encoding.Numerals.{value_16}
use exec_rest_api.Errors.{Response, json_response, bad_request, bad_gateway}
use exec_rest_api.Exec.{Upstream, Exec, pure, lift, ◌>>=◌}
use exec_rest_api.Logs.Ranges.{or_bad_request}
use exec_rest_api.Revert.{decode_revert_data, reason_or_null, code_or_null}
use exec_rest_api.Shapes.{log_from_rpc, each_of}
use exec_rest_api.Blocks.Shapes.{block_header_from_rpc}
use exec_rest_api.Computed.Request.{
  call_request_to_rpc, convert_block_overrides, convert_state_overrides,
}
use exec_rest_api.Computed.{is_value_or_key_error, then_step, block_of, computed}

-- if k in bsc: a conversion into an empty dict, from which the key is taken
abbrev with_overrides : String → (Fields → Fields → Result Fields) → Fields → Fields → Result Fields
with_overrides k convert bsc out = elim (get bsc (codes k)) [
  | none ↦ ok out
  | some v ↦
      Json.◌>>=◌ (convert (field (codes k) v end) end)
        λ made. Json.◌>>=◌ (item (obj made) (codes k)) λ w. ok (put out (codes k) w)
]

abbrev call_of : Json → Result Json
call_of v = Json.◌>>=◌ (call_request_to_rpc v) λ (rpc, at). ok rpc

abbrev calls_of : Option Json → Result (List Json)
calls_of none = ok []
calls_of (some (arr vs)) = each call_of (items vs)
calls_of (some v) = err (value_error (says "`calls` must be an array" []))

unfoldable pub block_state_call : Json → Result Json
block_state_call (obj bsc) =
    Json.◌>>=◌ (with_overrides "blockOverrides" convert_block_overrides bsc end) λ out.
      Json.◌>>=◌ (with_overrides "stateOverrides" convert_state_overrides bsc out) λ more.
        Json.◌>>=◌ (calls_of (get bsc (codes "calls")))
          λ calls. ok (obj (put more (codes "calls") (list calls)))
block_state_call v = err (value_error (says "each blockStateCalls entry must be an object" []))

abbrev with_flag : String → Fields → Fields → Fields
with_flag flag body out = elim (get body (codes flag)) [
  | none ↦ out
  | some v ↦ put out (codes flag) (bool (truthy v))
]

-- the payload, and the block
unfoldable pub simulate_payload : Fields → Result (Json × Text)
simulate_payload body =
    Json.◌>>=◌ (elements (or_null (get body (codes "blockStateCalls")))) λ entries.
      Json.◌>>=◌ (each block_state_call entries) λ made.
        Json.◌>>=◌ (block_of (get body (codes "at"))) λ at. ok (
          obj (
              with_flag "returnFullTransactions" body (
                with_flag "validation" body (
                  with_flag "traceTransfers" body
                    (field (codes "blockStateCalls") (list made) end)))),
          at,
        )

-- int(status_raw, 16) == 0 of a text with 0x before it; `False` on a ValueError. Of what int() reads,
-- the digits are modelled, and underscores and spaces are not.
abbrev is_zero_hex : Text → Bool
is_zero_hex digits = not (is_nil digits) && (all is_hex_digit digits && value_16 0 digits == 0)

abbrev status_failed : Json → Bool
status_failed (str s) = starts_with (codes "0x") s && is_zero_hex (drop 2 s)
status_failed v = false

abbrev text_or_0x : Json → Text
text_or_0x (str s) = s
text_or_0x v = codes "0x"

abbrev with_logs : Json → Fields → Result Fields
with_logs null out = ok out
with_logs v out = Json.◌>>=◌ (each_of log_from_rpc v) λ logs. ok (put out (codes "logs") logs)

module _ (decode_utf8 : List ℕ → Text) where
  -- a failed call
  abbrev failed_call : Text → Json
  failed_call blob =
      let (reason, panic) = decode_revert_data decode_utf8 (str blob) in
      obj (
        field (codes "reverted") (bool true) (
          field (codes "data") (str (lower blob)) (
            field (codes "reason") (reason_or_null decode_utf8 reason)
              (field (codes "panicCode") (code_or_null decode_utf8 panic) end))))

  unfoldable pub simulate_call_result : Json → Result Json
  simulate_call_result (obj rpc) =
      let status = or_null (get rpc (codes "status")) in
      let blob = text_or_0x (or_null (get rpc (codes "returnData"))) in
      if status_failed status || truthy (or_null (get rpc (codes "error")))
      then ok (failed_call blob)
      else (Json.◌>>=◌ (item (obj rpc) (codes "gasUsed")) λ gas. Json.◌>>=◌ (hex_to_int gas) λ n.
          Json.◌>>=◌
            (with_logs (or_null (get rpc (codes "logs")))
              (field (codes "returnData") (str (lower blob)) (field (codes "gasUsed") (nat n) end)))
            λ out. ok (obj out))
  simulate_call_result v = err attribute_error

  abbrev simulated_block : Json → Result Json
  simulated_block rpc = Json.◌>>=◌ (block_header_from_rpc rpc) λ header.
      Json.◌>>=◌ (get_or rpc (codes "calls") (list [])) λ calls.
        Json.◌>>=◌ (each_of simulate_call_result calls)
          λ results. ok (obj (field (codes "block") header (field (codes "calls") results end)))

  module _ (u : Upstream) (path : Text) where
    abbrev simulated : Json → Exec Response
    simulated (arr vs) =
        lift (each simulated_block (items vs)) >>= λ blocks. pure (json_response (list blocks))
    simulated v = pure (bad_gateway path (says "eth_simulateV1 returned non-list result" []))

    abbrev simulate_body : Fields → Exec Response
    simulate_body fs =
        or_bad_request is_value_or_key_error path exn_text (simulate_payload fs)
        >>= then_step λ (payload, at).
          computed decode_utf8 u path "eth_simulateV1" (payload ∷ str at ∷ []) simulated

    unfoldable pub simulate : Option Json → Exec Response
    simulate none = pure (bad_request path (says "request body must be valid JSON" []))
    simulate (some (obj fs)) =
        if has fs (codes "blockStateCalls")
        then simulate_body fs
        else pure (bad_request path (says "field `blockStateCalls` is required" []))
    simulate (some v) = pure (bad_request path (says "field `blockStateCalls` is required" []))
