-- ===== src/Blocks.antt =====
-- handlers/blocks.py: the nine handlers of blocks. Python's bytes.fromhex is a parameter, `none` where
-- it raises, and so are the floats of the content negotiation.
pub mod Shapes
pub mod Laws
mod Tests
use exec_rest_api.Base.{
  String, Bool, true, false, Option, none, some, List, [], ◌∷◌, ◌++◌, ℤ, Text, codes, text_eq,
  starts_with, drop, if◌then◌else◌,
}
use exec_rest_api.Json.{
  Json, null, bool, str, arr, obj, Fields, end, field, items, list, nat, each, Message, says,
  value_error, attribute_error, exn_text, is_block_id_error, Result, ok, err,
}
use exec_rest_api.Json
use exec_rest_api.Encoding.{hex, hex_to_int, is_decimal, int_of_decimal}
use exec_rest_api.BlockId.{BlockId, is_hash, parse_block_id, to_rpc_param}
use exec_rest_api.ContentNeg.{Floats, content_type_json, content_type_rlp, select_representation}
use exec_rest_api.Errors.{Response, rlp, json_response, bad_request, not_found}
use exec_rest_api.Exec.{Upstream, Exec, call, pure, lift, ◌>>=◌}
use exec_rest_api.Logs.Ranges.{or_bad_request}
use exec_rest_api.Computed.{then_step}
use exec_rest_api.Shapes.{each_of, transaction_from_rpc, receipt_from_rpc, trace_from_rpc}
use exec_rest_api.Transactions.{not_acceptable, is_absent, rlp_response, check_tracers, tracers_of}
use exec_rest_api.Blocks.Shapes.{block_header_from_rpc, block_from_rpc, transactions_of}

-- the method for a hash, and the method for a number or a tag
abbrev pub by_number_method : String → String → BlockId → String
by_number_method by_hash by_number bid = if is_hash bid then by_hash else by_number

-- { "count": hex_to_int(rpc) }
abbrev count_of : Json → Result Json
count_of rpc = Json.◌>>=◌ (hex_to_int rpc) λ n. ok (obj (field (codes "count") (nat n) end))

abbrev concat : List Text → Text
concat [] = []
concat (s ∷ ss) = s ++ concat ss

module _ (u : Upstream) (path raw : Text) where
  abbrev pub with_id : (BlockId → Exec Response) → Exec Response
  with_id f = or_bad_request is_block_id_error path exn_text (parse_block_id raw) >>= then_step f

  abbrev missing : Exec Response
  missing = pure (not_found path (says "block {request.match_info['id']} not found" (str raw ∷ [])))

  -- 404 for None, and otherwise the conversion
  abbrev shown : (Json → Result Json) → Json → Exec Response
  shown f null = missing
  shown f rpc = lift (f rpc) >>= λ v. pure (json_response v)

  abbrev pub fetch_block : BlockId → Exec Json
  fetch_block bid =
      call u (by_number_method "eth_getBlockByHash" "eth_getBlockByNumber" bid)
        (str (to_rpc_param bid) ∷ bool true ∷ [])

  -- the raw form with debug_getRawBlock or debug_getRawHeader, and the JSON form
  abbrev represented :
      (Text → Option Text) → String → (Json → Result Json) → BlockId → Option Text → Exec Response
  represented fromhex method f bid none =
      pure (not_acceptable path (content_type_json ∷ content_type_rlp ∷ []))
  represented fromhex method f bid (some t) =
      if text_eq t content_type_rlp
      then (call u method (str (to_rpc_param bid) ∷ []) >>= λ v.
          if is_absent u path v then missing else lift (rlp_response u path fromhex v))
      else (fetch_block bid >>= shown f)

  module _ (floats : Floats) (fromhex : Text → Option Text) (accept : Option Text) where
    abbrev pub chosen : Option Text
    chosen = select_representation floats accept content_type_json (content_type_rlp ∷ [])

    unfoldable pub get_block : Exec Response
    get_block = with_id λ bid. represented fromhex "debug_getRawBlock" block_from_rpc bid chosen

    unfoldable pub get_block_header : Exec Response
    get_block_header =
        with_id λ bid. represented fromhex "debug_getRawHeader" block_header_from_rpc bid chosen

    -- _hex_to_bytes
    abbrev hex_to_bytes : Json → Result Text
    hex_to_bytes (str s) = elim (fromhex (if starts_with (codes "0x") s then drop 2 s else s)) [
      | some b ↦ ok b
      | none ↦ err (value_error (says "non-hexadecimal number found in fromhex() arg" []))
    ]
    hex_to_bytes v = err attribute_error

    abbrev raw_receipts : Json → Exec Response
    raw_receipts null = missing
    raw_receipts (arr vs) = lift (each hex_to_bytes (items vs)) >>= λ bs.
        pure (record { status = 200; headers = []; body = rlp (concat bs) })
    raw_receipts v = lift (rlp_response u path fromhex v)

    abbrev receipts_as : BlockId → Option Text → Exec Response
    receipts_as bid none = pure (not_acceptable path (content_type_json ∷ content_type_rlp ∷ []))
    receipts_as bid (some t) =
        if text_eq t content_type_rlp
        then (call u "debug_getRawReceipts" (str (to_rpc_param bid) ∷ []) >>= raw_receipts)
        else (call u "eth_getBlockReceipts" (str (to_rpc_param bid) ∷ [])
            >>= shown (each_of receipt_from_rpc))

    unfoldable pub get_block_receipts : Exec Response
    get_block_receipts = with_id λ bid. receipts_as bid chosen

  unfoldable pub get_block_transactions : Exec Response
  get_block_transactions = with_id λ bid. fetch_block bid >>= shown transactions_of

  abbrev shown_transaction : Text → Json → Exec Response
  shown_transaction index null = pure (
      not_found path (
        says "transaction at index {index} not found in block {request.match_info['id']}"
          (nat (int_of_decimal index) ∷ str raw ∷ [])))
  shown_transaction index rpc = lift (transaction_from_rpc rpc) >>= λ v. pure (json_response v)

  unfoldable pub get_block_transaction_by_index : Text → Exec Response
  get_block_transaction_by_index index = with_id λ bid.
      if is_decimal index
      then (call u
            (by_number_method "eth_getTransactionByBlockHashAndIndex"
              "eth_getTransactionByBlockNumberAndIndex" bid)
            (str (to_rpc_param bid) ∷ str (hex (int_of_decimal index)) ∷ [])
          >>= shown_transaction index)
      else pure (
          bad_request path (
            says "transaction index must be a non-negative integer, got {index_raw!r}"
              (str index ∷ [])))

  unfoldable pub get_block_transaction_count : Exec Response
  get_block_transaction_count = with_id λ bid.
      call u
        (by_number_method "eth_getBlockTransactionCountByHash"
          "eth_getBlockTransactionCountByNumber" bid)
        (str (to_rpc_param bid) ∷ [])
      >>= shown count_of

  unfoldable pub get_block_traces : (Json → Result ℤ) → Exec Response
  get_block_traces python_int = with_id λ bid.
      call u "trace_block" (str (to_rpc_param bid) ∷ [])
      >>= shown (each_of (trace_from_rpc python_int))

  abbrev replayed : BlockId → List Json → Option Response → Exec Response
  replayed bid tracers (some r) = pure r
  replayed bid tracers none =
      call u "trace_replayBlockTransactions" (str (to_rpc_param bid) ∷ list tracers ∷ []) >>= λ v.
      pure (json_response v)

  abbrev replay_with : BlockId → Json → Exec Response
  replay_with bid (arr (Json.cons t ts)) =
      lift (check_tracers path (t ∷ items ts)) >>= λ r. replayed bid (t ∷ items ts) r
  replay_with bid v =
      pure (bad_request path (says "field `tracers` (non-empty array) is required" []))

  -- the body as JSON, `none` when that raises
  abbrev block_replay_body : BlockId → Option Json → Exec Response
  block_replay_body bid none = pure (bad_request path (says "request body must be valid JSON" []))
  block_replay_body bid body = replay_with bid (tracers_of body)

  unfoldable pub post_block_traces_replay : Option Json → Exec Response
  post_block_traces_replay body = with_id λ bid. block_replay_body bid body

  abbrev block_debug_body : BlockId → Option Json → Exec Response
  block_debug_body bid none = pure (bad_request path (says "request body must be valid JSON" []))
  block_debug_body bid (some (obj fs)) =
      call u (by_number_method "debug_traceBlockByHash" "debug_traceBlockByNumber" bid)
        (str (to_rpc_param bid) ∷ obj fs ∷ [])
      >>= λ v. pure (json_response v)
  block_debug_body bid (some v) =
      pure (bad_request path (says "request body must be a JSON object" []))

  unfoldable pub post_block_debug_traces : Option Json → Exec Response
  post_block_debug_traces body = with_id λ bid. block_debug_body bid body
