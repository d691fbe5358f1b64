-- ===== src/Transactions.antt =====
-- handlers/transactions.py: the handlers of transactions. Each takes the path and the parts of the
-- request that it reads. `bytes.fromhex` and `int` of Python are parameters.
pub mod Laws
mod Tests
use exec_rest_api.Base.{
  ℕ, ◌/◌, ◌%◌, Bool, true, false, Option, none, some, List, [], ◌∷◌, ◌++◌, ◌⊎◌, inl, inr, ℤ, Text,
  codes, text_eq, lower, split, strip, drop, is_nil, one_of, starts_with, if◌then◌else◌,
}
use exec_rest_api.Json.{
  Json, null, str, arr, obj, Fields, field, end, get, items, list, elements, lower_of, each,
  Message, says, Exn, value_error, attribute_error, type_error, Result, ok, err,
}
use exec_rest_api.Json
use exec_rest_api.Encoding.{is_hex_of}
use exec_rest_api.Encoding.Numerals.{digit_char}
use exec_rest_api.Delegation.{is_hex_bytes}
use exec_rest_api.Errors.{
  Problem, Response, Body, json, rlp, problem_response, bad_request, not_found, bad_gateway,
  json_response,
}
use exec_rest_api.Exec.{Upstream, Exec, call, pure, lift, raise, ◌>>=◌}
use exec_rest_api.Shapes.{transaction_from_rpc, receipt_from_rpc, trace_from_rpc}
use exec_rest_api.ContentNeg.{Floats, content_type_json, content_type_rlp, select_representation}

unfoldable pub validate_tx_hash : Text → Option Text
validate_tx_hash raw = if is_hex_of 64 raw then some (lower raw) else none

unfoldable pub bad_hash : Text → Response
bad_hash path = bad_request path (says "transaction hash must be 0x-prefixed 32-byte hex" [])

unfoldable pub not_acceptable : Text → List Text → Response
not_acceptable path supported = problem_response (record {
  status = 406;
  type_slug = "not-acceptable";
  title = "Not acceptable";
  detail = some (says "supported representations: {', '.join(supported)}" (texts supported));
  instance_path = some path;
  code = none;
  extra = null;
})
  where
    texts : List Text → List Json
    texts [] = []
    texts (t ∷ ts) = str t ∷ texts ts

unfoldable pub unsupported_media_type : Text → Response
unsupported_media_type path = problem_response (record {
  status = 415;
  type_slug = "unsupported-media-type";
  title = "Unsupported media type";
  detail =
      some (says "POST /transactions accepts application/json or application/vnd.ethereum.rlp" []);
  instance_path = some path;
  code = none;
  extra = null;
})

-- ^0x([0-9a-fA-F]{2})+$
abbrev pub is_raw_tx : Text → Bool
is_raw_tx raw = if is_nil (drop 2 raw) then false else is_hex_bytes raw

-- raw_bytes.hex()
unfoldable pub hex_of_bytes : List ℕ → Text
hex_of_bytes [] = []
hex_of_bytes (b ∷ bs) = digit_char (b / 16) ∷ digit_char (b % 16) ∷ hex_of_bytes bs

abbrev first_piece : List Text → Text
first_piece [] = []
first_piece (p ∷ ps) = p

-- (header or "").split(";", 1)[0].strip().lower()
unfoldable pub content_type : Option Text → Text
content_type none = []
content_type (some header) = lower (strip (first_piece (split b';' header)))

abbrev raw_field : Text → Option Json → Response ⊎ Text
raw_field path none = inl (bad_request path (says "field `raw` is required" []))
raw_field path (some (str raw)) =
    if is_raw_tx raw
    then inr (lower raw)
    else inl (bad_request path (says "field `raw` must be 0x-prefixed hex bytes" []))
raw_field path (some v) =
    inl (bad_request path (says "field `raw` must be 0x-prefixed hex bytes" []))

abbrev raw_body : Text → Option Json → Response ⊎ Text
raw_body path none = inl (bad_request path (says "request body must be valid JSON" []))
raw_body path (some (obj fs)) = raw_field path (get fs (codes "raw"))
raw_body path (some v) = inl (bad_request path (says "field `raw` is required" []))

abbrev raw_bytes : Text → List ℕ → Response ⊎ Text
raw_bytes path [] = inl (bad_request path (says "RLP body is empty" []))
raw_bytes path bytes = inr (codes "0x" ++ hex_of_bytes bytes)

-- a request to POST /transactions: its type, its bytes and its JSON, `none` when that raises
unfoldable pub read_raw_tx : Text → Option Text → List ℕ → Option Json → Response ⊎ Text
read_raw_tx path header bytes body =
    let ct = content_type header in
    if text_eq ct content_type_rlp
    then raw_bytes path bytes
    else if one_of ct (codes "application/json" ∷ [] ∷ [])
    then raw_body path body
    else inl (unsupported_media_type path)

-- the location and the body of an accepted transaction
abbrev submitted : Text → Json → Response
submitted path (str tx_hash) = record {
  status = 202;
  headers = (codes "Location", codes "/transactions/" ++ lower tx_hash) ∷ [];
  body = json (obj (field (codes "hash") (str (lower tx_hash)) end));
}
submitted path v = bad_gateway path (says "eth_sendRawTransaction returned non-string" [])

abbrev pub tracers_of : Option Json → Json
tracers_of (some (obj fs)) = Json.or_null (get fs (codes "tracers"))
tracers_of _ = null

-- the loop `for t in tracers`: a list or a dict has no hash
unfoldable pub check_tracers : Text → List Json → Result (Option Response)
check_tracers path [] = ok none
check_tracers path (str t ∷ ts) =
    if one_of t (codes "trace" ∷ codes "vmTrace" ∷ codes "stateDiff" ∷ [])
    then check_tracers path ts
    else ok (some (bad_request path (says "unknown tracer {t!r}" (str t ∷ []))))
check_tracers path (arr vs ∷ ts) = err type_error
check_tracers path (obj fs ∷ ts) = err type_error
check_tracers path (v ∷ ts) = ok (some (bad_request path (says "unknown tracer {t!r}" (v ∷ []))))

module _ (u : Upstream) (path : Text) where
  abbrev pub with_hash : Option Text → (Text → Exec Response) → Exec Response
  with_hash none f = pure (bad_hash path)
  with_hash (some tx_hash) f = f tx_hash

  -- 404 for None, and otherwise the conversion
  abbrev found : Message → (Json → Result Json) → Json → Exec Response
  found m f null = pure (not_found path m)
  found m f rpc = lift (f rpc) >>= λ v. pure (json_response v)

  unfoldable pub get_receipt : Text → Exec Response
  get_receipt raw = with_hash (validate_tx_hash raw) λ tx_hash.
      call u "eth_getTransactionReceipt" (str tx_hash ∷ []) >>= λ rpc.
      found (says "receipt for {tx_hash} not found" (str tx_hash ∷ [])) receipt_from_rpc rpc

  unfoldable pub get_trace : (Json → Result ℤ) → Text → Exec Response
  get_trace python_int raw = with_hash (validate_tx_hash raw) λ tx_hash.
      call u "trace_transaction" (str tx_hash ∷ []) >>= λ rpc.
      found (says "trace for {tx_hash} not found" (str tx_hash ∷ []))
        (λ v.
          Json.◌>>=◌ (elements v)
            λ ts. Json.◌>>=◌ (each (trace_from_rpc python_int) ts) λ ws. ok (list ws))
        rpc

  -- bytes.fromhex(hex_body[2:] if hex_body.startswith("0x") else hex_body)
  abbrev pub rlp_response : (Text → Option Text) → Json → Result Response
  rlp_response fromhex (str s) =
      bytes (fromhex (if starts_with (codes "0x") s then drop 2 s else s))
    where
      bytes : Option Text → Result Response
      bytes none = err (value_error (says "non-hexadecimal number found in fromhex() arg" []))
      bytes (some b) = ok (record { status = 200; headers = []; body = rlp b })
  rlp_response fromhex v = err attribute_error

  abbrev pub is_absent : Json → Bool
  is_absent null = true
  is_absent (str s) = text_eq s (codes "0x")
  is_absent _ = false

  unfoldable pub get_transaction :
      Floats → (Text → Option Text) → Option Text → Text → Exec Response
  get_transaction f fromhex accept raw = with_hash (validate_tx_hash raw) λ tx_hash.
      chosen tx_hash (select_representation f accept content_type_json (content_type_rlp ∷ []))
    where
      missing : Text → Exec Response
      missing tx_hash =
          pure (not_found path (says "transaction {tx_hash} not found" (str tx_hash ∷ [])))

      chosen : Text → Option Text → Exec Response
      chosen tx_hash none = pure (not_acceptable path (content_type_json ∷ content_type_rlp ∷ []))
      chosen tx_hash (some t) =
          if text_eq t content_type_rlp
          then (call u "debug_getRawTransaction" (str tx_hash ∷ []) >>= λ v.
              if is_absent v then missing tx_hash else lift (rlp_response fromhex v))
          else (call u "eth_getTransactionByHash" (str tx_hash ∷ []) >>= λ rpc.
              found (says "transaction {tx_hash} not found" (str tx_hash ∷ [])) transaction_from_rpc
                rpc)

  abbrev pub submit : Response ⊎ Text → Exec Response
  submit (inl r) = pure r
  submit (inr raw) = call u "eth_sendRawTransaction" (str raw ∷ []) >>= λ v. pure (submitted path v)

  unfoldable pub post_transaction : Option Text → List ℕ → Option Json → Exec Response
  post_transaction header bytes body = submit (read_raw_tx path header bytes body)

  abbrev replay : Text → List Json → Option Response → Exec Response
  replay tx_hash tracers (some r) = pure r
  replay tx_hash tracers none =
      call u "trace_replayTransaction" (str tx_hash ∷ list tracers ∷ []) >>= λ v.
      pure (json_response v)

  abbrev pub with_tracers : Text → Json → Exec Response
  with_tracers tx_hash (arr (Json.cons t ts)) =
      lift (check_tracers path (t ∷ items ts)) >>= λ r. replay tx_hash (t ∷ items ts) r
  with_tracers tx_hash v =
      pure (bad_request path (says "field `tracers` (non-empty array) is required" []))

  abbrev replay_body : Text → Option Json → Exec Response
  replay_body tx_hash none = pure (bad_request path (says "request body must be valid JSON" []))
  replay_body tx_hash body = with_tracers tx_hash (tracers_of body)

  unfoldable pub post_trace_replay : Text → Option Json → Exec Response
  post_trace_replay raw body = with_hash (validate_tx_hash raw) λ tx_hash. replay_body tx_hash body

  abbrev debug_body : Text → Option Json → Exec Response
  debug_body tx_hash none = pure (bad_request path (says "request body must be valid JSON" []))
  debug_body tx_hash (some (obj fs)) =
      call u "debug_traceTransaction" (str tx_hash ∷ obj fs ∷ []) >>= λ v. pure (json_response v)
  debug_body tx_hash (some v) =
      pure (bad_request path (says "request body must be a JSON object" []))

  unfoldable pub post_debug_trace : Text → Option Json → Exec Response
  post_debug_trace raw body = with_hash (validate_tx_hash raw) λ tx_hash. debug_body tx_hash body
