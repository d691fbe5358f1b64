-- ===== src/Errors/Tests.antt =====
-- Problems at concrete errors.
use exec_rest_api.Base.{◌≡◌, refl, true, false, some, [], Text, codes, text_eq}
use exec_rest_api.Json.{null, int, str, nat, word, Message, says, get}
use exec_rest_api.Errors.{
  problem_response, map_jsonrpc_error, to_dict, jsonrpc_row, minus, find_code, find_pattern,
}
use exec_rest_api.Errors.Laws.{
  is_error_status, problem_response-map_jsonrpc_error, jsonrpc_row-replacement,
  jsonrpc_row-is_too_large,
}
use exec_rest_api.Pagination.{is_too_large}

abbrev template : Message → Text
template (says t vs) = codes t
template _ = []

abbrev nonce : Text
nonce = codes "Nonce too low"

problem_response-map_jsonrpc_error_example :
    (is_error_status (problem_response (map_jsonrpc_error (minus 32000) nonce (word "0x"))).status
      ≡ true)
    × (get (to_dict template (map_jsonrpc_error (minus 32000) nonce (word "0x"))) (codes "status")
        ≡ some (nat (problem_response (map_jsonrpc_error (minus 32000) nonce (word "0x"))).status))
    × (get (to_dict template (map_jsonrpc_error (minus 32000) nonce (word "0x"))) (codes "code")
        ≡ some (int (minus 32000)))
    × (get (to_dict template (map_jsonrpc_error (minus 32000) nonce (word "0x"))) (codes "detail")
        ≡ some (str (codes "{message}")))
    × (get (to_dict template (map_jsonrpc_error (minus 32000) nonce (word "0x"))) (codes "data")
        ≡ some (word "0x"))
problem_response-map_jsonrpc_error_example =
    problem_response-map_jsonrpc_error template (minus 32000) nonce (word "0x")

abbrev replacement : Text
replacement = codes "Replacement transaction underpriced"

jsonrpc_row-replacement_example :
    text_eq
      (codes (jsonrpc_row (minus 32000) replacement).slug)
      (codes "transaction-rejected/underpriced")
    ≡ false
jsonrpc_row-replacement_example = jsonrpc_row-replacement (minus 32000) replacement refl

abbrev range_message : Text
range_message = codes "query returned more than 10000 results"

too_large : (jsonrpc_row (minus 32000) range_message).status ≡ 413
unfolding jsonrpc_row find_code find_pattern
too_large = refl

shrinks_after_range : is_too_large (minus 32000) range_message ≡ true
shrinks_after_range = jsonrpc_row-is_too_large (minus 32000) range_message too_large

replacement_slug :
    (jsonrpc_row (minus 32000) replacement).slug ≡ "transaction-rejected/replacement-underpriced"
unfolding jsonrpc_row find_code find_pattern
replacement_slug = refl

nonce_status : (problem_response (map_jsonrpc_error (minus 32000) nonce null)).status ≡ 422
unfolding problem_response map_jsonrpc_error jsonrpc_row find_code find_pattern
nonce_status = refl
