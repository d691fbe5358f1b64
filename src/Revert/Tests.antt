-- ===== src/Revert/Tests.antt =====
-- abi_revert.py on the data of small reverts.
use exec_rest_api.Base.{ℕ, ◌≡◌, refl, none, some, List, Text, codes, true, arith}
use exec_rest_api.Json.{str, bool, null, end, field}
use exec_rest_api.Revert.{decode_revert_data, revert_body, is_hex_data, is_out_of_gas}
use exec_rest_api.Revert.Laws.{error_data, panic_data, decode_revert_data-encodings}

abbrev ascii : List ℕ → Text
ascii bytes = bytes

decode_revert_data-encodings_example :
    (decode_revert_data ascii (str (error_data (codes "low balance") 42))
      ≡ (some (codes "low balance"), none))
    × (decode_revert_data ascii (str (panic_data 17)) ≡ (none, some 17))
decode_revert_data-encodings_example =
    decode_revert_data-encodings ascii (codes "low balance") 42 17 (ground arith) (omega arith)
      (omega arith)

short_data : decode_revert_data ascii (str (codes "0x08c379")) ≡ (none, none)
unfolding decode_revert_data is_hex_data
short_data = refl

gas_body :
    revert_body ascii (codes "Out of gas") null
    ≡ field (codes "reverted") (bool true) (
        field (codes "data") (str (codes "0x")) (
          field
            (codes "reason")
            null
            (field (codes "panicCode") null (field (codes "outOfGas") (bool true) end))))
unfolding revert_body decode_revert_data is_hex_data is_out_of_gas
gas_body = refl
