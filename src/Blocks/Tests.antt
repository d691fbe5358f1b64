-- ===== src/Blocks/Tests.antt =====
-- handlers/blocks.py with a node that has no block.
use exec_rest_api.Base.{ℕ, ◌≡◌, refl, true, none, [], ◌∷◌, ℤ, Text, codes, ltb, ◌==◌}
use exec_rest_api.Json.{
  Json, null, bool, str, obj, int, end, word, Result, ok, err, key_error, type_error,
}
use exec_rest_api.BlockId.{parse_block_id, to_rpc_param}
use exec_rest_api.ContentNeg.{Floats, select_representation}
use exec_rest_api.Encoding.{hex, int_of_decimal}
use exec_rest_api.Exec.{Upstream, result}
use exec_rest_api.Blocks.{
  get_block, get_block_header, get_block_receipts, get_block_transactions,
  get_block_transaction_by_index, get_block_transaction_count, get_block_traces,
}
use exec_rest_api.Blocks.Shapes.{block_header_from_rpc}
use exec_rest_api.Blocks.Laws.{Misses, block_handlers-Misses}

abbrev node : Upstream
node h c = result null

abbrev path : Text
path = codes "/blocks/latest"

abbrev raw : Text
raw = codes "latest"

abbrev floats : Floats
floats = record {
  Float = ℕ;
  one = 10;
  float = λ s. none;
  not_positive = λ q. q == 0;
  above = λ p q. ltb p q;
}

abbrev to_int : Json → Result ℤ
to_int (int z) = ok z
to_int v = err type_error

abbrev latest : Json
latest = word "latest"

block_handlers-Misses_example :
    Misses node path raw "eth_getBlockByNumber"
      (latest ∷ bool true ∷ [])
      []
      (get_block node path raw floats (λ s. none) none)
    × Misses node path raw "eth_getBlockByNumber"
        (latest ∷ bool true ∷ [])
        []
        (get_block_header node path raw floats (λ s. none) none)
    × Misses node path raw "eth_getBlockByNumber"
        (latest ∷ bool true ∷ [])
        []
        (get_block_transactions node path raw)
    × Misses node path raw "eth_getBlockReceipts"
        (latest ∷ [])
        []
        (get_block_receipts node path raw floats (λ s. none) none)
    × Misses node path raw "eth_getTransactionByBlockNumberAndIndex"
        (latest ∷ str (hex (int_of_decimal (codes "3"))) ∷ [])
        []
        (get_block_transaction_by_index node path raw (codes "3"))
    × Misses node path raw "eth_getBlockTransactionCountByNumber"
        (latest ∷ [])
        []
        (get_block_transaction_count node path raw)
    × Misses node path raw "trace_block" (latest ∷ []) [] (get_block_traces node path raw to_int)
unfolding parse_block_id to_rpc_param select_representation
block_handlers-Misses_example =
    block_handlers-Misses node path raw _ floats (λ s. none) none to_int (codes "3") [] refl refl
      refl (λ c. refl)

no_number :
    block_header_from_rpc (obj end)
    ≡ err (key_error (codes "block header requires `number` and `hash`"))
unfolding block_header_from_rpc
no_number = refl
