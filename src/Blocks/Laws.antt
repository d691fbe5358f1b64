-- ===== src/Blocks/Laws.antt =====
-- handlers/blocks.py: what the handlers answer when the node does not have the block.
use exec_rest_api.Base.{
  ◌≡◌, refl, true, Option, some, List, [], ◌∷◌, ◌++◌, ℤ, Text, String, if◌then◌else◌,
}
use exec_rest_api.Json.{Json, null, bool, str, Result, ok}
use exec_rest_api.Encoding.{hex, is_decimal, int_of_decimal}
use exec_rest_api.BlockId.{BlockId, is_hash, parse_block_id, to_rpc_param}
use exec_rest_api.ContentNeg.{Floats, content_type_json, content_type_rlp, select_representation}
use exec_rest_api.Errors.{Response, not_found, problem_response}
use exec_rest_api.Exec.{Answers, Call, Upstream, Exec, result}
use exec_rest_api.Blocks.{
  get_block, get_block_header, get_block_receipts, get_block_transactions,
  get_block_transaction_by_index, get_block_transaction_count, get_block_traces,
}

module _ (u : Upstream) (path raw : Text) where
  -- the handler asked once, in this way, and answered 404
  abbrev pub Misses : String → List Json → List Call → Exec Response → Type 0
  Misses method params h run =
      Answers 404 (h ++ record { method = method; params = params } ∷ []) (run h)

  -- When the id is valid and the node gives null, each of the seven handlers that read a block answers
  -- 404 after one call: a block, its header and its transactions ask for the full block, by hash for the
  -- id of a hash and by number for another; the receipts, a transaction by a decimal index, the number
  -- of transactions and the traces ask for these. The first, the second and the receipts are asked for
  -- in JSON.
  pub block_handlers-Misses :
      (bid : BlockId) (floats : Floats) (fromhex : Text → Option Text) (accept : Option Text)
      (python_int : Json → Result ℤ) (index : Text) (h : List Call)
      → parse_block_id raw ≡ ok bid
      → select_representation floats accept content_type_json (content_type_rlp ∷ [])
        ≡ some content_type_json
      → is_decimal index ≡ true
      → ((c : Call) → u h c ≡ result null)
      → (let id = str (to_rpc_param bid) in
          let block : String =
            if is_hash bid then "eth_getBlockByHash" else "eth_getBlockByNumber" in
          Misses block (id ∷ bool true ∷ []) h (get_block u path raw floats fromhex accept)
          × Misses block (id ∷ bool true ∷ []) h (get_block_header u path raw floats fromhex accept)
          × Misses block (id ∷ bool true ∷ []) h (get_block_transactions u path raw)
          × Misses "eth_getBlockReceipts"
              (id ∷ [])
              h
              (get_block_receipts u path raw floats fromhex accept)
          × Misses
              (if is_hash bid
                then "eth_getTransactionByBlockHashAndIndex"
                else "eth_getTransactionByBlockNumberAndIndex")
              (id ∷ str (hex (int_of_decimal index)) ∷ [])
              h
              (get_block_transaction_by_index u path raw index)
          × Misses
              (if is_hash bid
                then "eth_getBlockTransactionCountByHash"
                else "eth_getBlockTransactionCountByNumber")
              (id ∷ [])
              h
              (get_block_transaction_count u path raw)
          × Misses "trace_block" (id ∷ []) h (get_block_traces u path raw python_int))
  unfolding get_block get_block_header get_block_transactions get_block_receipts
      get_block_transaction_by_index get_block_transaction_count get_block_traces not_found
      problem_response
  block_handlers-Misses bid floats fromhex accept python_int index h p chosen i absent = (
    rw (p, chosen, absent _) (_, refl, refl),
    rw (p, chosen, absent _) (_, refl, refl),
    rw (p, absent _) (_, refl, refl),
    rw (p, chosen, absent _) (_, refl, refl),
    rw (p, i, absent _) (_, refl, refl),
    rw (p, absent _) (_, refl, refl),
    rw (p, absent _) (_, refl, refl),
  )
