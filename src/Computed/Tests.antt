-- ===== src/Computed/Tests.antt =====
-- handlers/computed.py with a node that reverts every call.
use exec_rest_api.Base.{ℕ, ◌≡◌, refl, some, List, [], ◌∷◌, Text, codes, true}
use exec_rest_api.Json.{Json, str, obj, field, end, word, ok, bool, null, err, key_error}
use exec_rest_api.Encoding.{decimal_to_hex, parse_input_int, map_address_lowercase}
use exec_rest_api.Encoding.Numerals.{print_16}
use exec_rest_api.BlockId.{number, parse_block_id, to_rpc_param}
use exec_rest_api.Errors.{minus}
use exec_rest_api.Exec.{Upstream, rpc_fails}
use exec_rest_api.Computed.Request.{
  call_request_to_rpc, convert_addresses, convert_numeric, convert_bytes, convert_access_list,
  convert_state_overrides, convert_block_overrides,
}
use exec_rest_api.Computed.{post_call, gas_estimate, access_list, debug_traces_call}
use exec_rest_api.Computed.Simulate.{simulate_call_result, block_state_call}
use exec_rest_api.Revert.{decode_revert_data, is_hex_data}
use exec_rest_api.Computed.Laws.{refusal, computed_handlers-refusal}

abbrev ascii : List ℕ → Text
ascii bytes = bytes

abbrev path : Text
path = codes "/call"

abbrev message : Text
message = codes "execution reverted: low balance"

abbrev node : Upstream
node h c = rpc_fails (minus 32000) message (word "0x")

abbrev request : Json
request = obj (
    field (codes "to") (word "0xABCDEF0123456789abcdef0123456789abcdef01")
      (field (codes "gas") (word "21000") (field (codes "at") (word "16") end)))

abbrev rpc : Json
rpc = obj (
    field (codes "to") (word "0xabcdef0123456789abcdef0123456789abcdef01")
      (field (codes "gas") (word "0x5208") end))

converted : call_request_to_rpc request ≡ ok (rpc, codes "0x10")
unfolding call_request_to_rpc convert_addresses convert_numeric convert_bytes convert_access_list
    convert_state_overrides convert_block_overrides decimal_to_hex parse_input_int
    map_address_lowercase parse_block_id to_rpc_param print_16
converted = refl

seventh : parse_block_id (codes "7") ≡ ok (number 7)
unfolding parse_block_id
seventh = refl

computed_handlers-refusal_example :
    (post_call ascii node path (some request) [] ≡ (
      refusal ascii node path (minus 32000) message (word "0x"),
      record { method = "eth_call"; params = rpc ∷ str (codes "0x10") ∷ [] } ∷ [],
    ))
    × (gas_estimate ascii node path (some request) [] ≡ (
      refusal ascii node path (minus 32000) message (word "0x"),
      record { method = "eth_estimateGas"; params = rpc ∷ str (codes "0x10") ∷ [] } ∷ [],
    ))
    × (access_list ascii node path (some request) [] ≡ (
      refusal ascii node path (minus 32000) message (word "0x"),
      record { method = "eth_createAccessList"; params = rpc ∷ str (codes "0x10") ∷ [] } ∷ [],
    ))
    × (debug_traces_call ascii node path
          (some (obj (field (codes "call") request (field (codes "at") (str (codes "7")) end))))
          []
        ≡ (
          refusal ascii node path (minus 32000) message (word "0x"),
          record { method = "debug_traceCall"; params = rpc ∷ str (codes "0x7") ∷ obj end ∷ [] }
              ∷ [],
        ))
unfolding to_rpc_param print_16
computed_handlers-refusal_example =
    computed_handlers-refusal ascii node path request rpc (codes "0x10") [] (minus 32000) message
      (word "0x") (codes "7") (number 7) converted seventh (λ c. refl)

reverted_call :
    simulate_call_result ascii
      (obj (field (codes "status") (word "0x0") (field (codes "returnData") (word "0xAB") end)))
    ≡ ok (
        obj (
          field (codes "reverted") (bool true) (
            field
              (codes "data")
              (word "0xab")
              (field (codes "reason") null (field (codes "panicCode") null end)))))
unfolding simulate_call_result decode_revert_data is_hex_data
reverted_call = refl

null_overrides :
    block_state_call (obj (field (codes "blockOverrides") null end))
    ≡ err (key_error (codes "blockOverrides"))
unfolding block_state_call convert_block_overrides
null_overrides = refl
