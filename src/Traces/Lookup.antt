-- ===== src/Traces/Lookup.antt =====
-- handlers/traces.py: the trace at an address, and the traces of a raw transaction.
use exec_rest_api.Base.{
  Option, none, some, List, [], ◌∷◌, ◌⊎◌, inl, inr, ℤ, Text, codes, text_eq, one_of, lower, strip,
  split, is_nil, ◌||◌, if◌then◌else◌,
}
use exec_rest_api.Json.{
  Json, null, str, arr, obj, Fields, get, items, list, or_null, each, nat, Message, says,
  value_error, type_error, exn_text, Result, ok, err,
}
use exec_rest_api.Encoding.{is_decimal, int_of_decimal}
use exec_rest_api.Errors.{Response, json_response, bad_request, not_found}
use exec_rest_api.Exec.{Upstream, Exec, call, pure, lift, ◌>>=◌}
use exec_rest_api.Delegation.{is_hex_bytes}
use exec_rest_api.Shapes.{trace_from_rpc}
use exec_rest_api.Transactions.{validate_tx_hash}

-- one number of the address
abbrev segment : Text → Result Json
segment piece =
    let s = strip piece in
    if is_decimal s
    then ok (nat (int_of_decimal s))
    else err (
        value_error
          (says "trace address segment must be a non-negative integer: {segment!r}" (str s ∷ [])))

unfoldable pub trace_address : Text → Result (List Json)
trace_address raw =
    if is_nil raw || text_eq raw (codes "/") then ok [] else each segment (split b',' raw)

-- await request.json(): `none` when it raises
unfoldable pub read_json_object : Text → Option Json → Response ⊎ Fields
read_json_object path none = inl (bad_request path (says "request body must be valid JSON" []))
read_json_object path (some (obj fs)) = inr fs
read_json_object path (some v) =
    inl (bad_request path (says "request body must be a JSON object" []))

abbrev unknown_tracer : Json → Message
unknown_tracer t = says "unknown tracer {t!r}; allowed: {sorted(allowed)}" (t ∷ [])

abbrev also : Json → Result (Message ⊎ List Json) → Result (Message ⊎ List Json)
also t (ok (inr ts)) = ok (inr (t ∷ ts))
also t r = r

-- the loop over the tracers: a list or a dict has no hash
unfoldable pub known_tracers : List Json → Result (Message ⊎ List Json)
known_tracers [] = ok (inr [])
known_tracers (str t ∷ ts) =
    let rest = known_tracers ts in
    if one_of t (codes "trace" ∷ codes "vmTrace" ∷ codes "stateDiff" ∷ [])
    then also (str t) rest
    else ok (inl (unknown_tracer (str t)))
known_tracers (arr vs ∷ ts) = err type_error
known_tracers (obj fs ∷ ts) = err type_error
known_tracers (v ∷ ts) = ok (inl (unknown_tracer v))

abbrev some_tracers : List Json → Result (Message ⊎ List Json)
some_tracers [] = ok (inl (says "field `tracers` must be a non-empty array" []))
some_tracers (t ∷ ts) = known_tracers (t ∷ ts)

unfoldable pub validate_tracers : Json → Result (Message ⊎ List Json)
validate_tracers (arr vs) = some_tracers (items vs)
validate_tracers v = ok (inl (says "field `tracers` must be a non-empty array" []))

module _ (u : Upstream) (path : Text) where
  -- `isinstance(…, web.Response)` ends the handler
  abbrev pub with_object : Response ⊎ Fields → (Fields → Exec Response) → Exec Response
  with_object (inl r) f = pure r
  with_object (inr body) f = f body

  abbrev pub with_valid : {A : Type 0} → Result (Message ⊎ A) → (A → Exec Response) → Exec Response
  with_valid (ok (inl m)) f = pure (bad_request path m)
  with_valid (ok (inr a)) f = f a
  with_valid (err e) f = lift (err e)

  abbrev or_root : Text → Text
  or_root raw = if is_nil raw then codes "root" else raw

  abbrev shown_trace : (Json → Result ℤ) → Text → Text → Json → Exec Response
  shown_trace python_int tx raw null = pure (
      not_found path (
        says "trace not found for {tx} at {trace_addr_raw or 'root'}"
          (str tx ∷ str (or_root raw) ∷ [])))
  shown_trace python_int tx raw rpc =
      lift (trace_from_rpc python_int rpc) >>= λ v. pure (json_response v)

  abbrev at_address : (Json → Result ℤ) → Text → Text → Result (List Json) → Exec Response
  at_address python_int tx raw (err e) = pure (bad_request path (exn_text e))
  at_address python_int tx raw (ok address) =
      call u "trace_get" (str tx ∷ list address ∷ []) >>= λ rpc. shown_trace python_int tx raw rpc

  abbrev of_hash : (Json → Result ℤ) → Text → Option Text → Exec Response
  of_hash python_int raw none =
      pure (bad_request path (says "transaction hash must be 0x-prefixed 32-byte hex" []))
  of_hash python_int raw (some tx) = at_address python_int tx raw (trace_address raw)

  -- the hash and the address of the request's path
  unfoldable pub get_trace_at : (Json → Result ℤ) → Text → Text → Exec Response
  get_trace_at python_int tx raw = of_hash python_int raw (validate_tx_hash tx)

  abbrev raw_of : Json → Option Text
  raw_of (str raw) = if is_hex_bytes raw then some (lower raw) else none
  raw_of v = none

  abbrev raw_traced : Json → Option Text → Exec Response
  raw_traced tracers none =
      pure (bad_request path (says "field `raw` must be 0x-prefixed hex bytes" []))
  raw_traced tracers (some raw) =
      with_valid (validate_tracers tracers)
        λ ts. call u "trace_rawTransaction" (str raw ∷ list ts ∷ []) >>= λ v. pure (json_response v)

  unfoldable pub trace_raw_transaction_handler : Option Json → Exec Response
  trace_raw_transaction_handler body = with_object (read_json_object path body) λ fs.
      raw_traced (or_null (get fs (codes "tracers"))) (raw_of (or_null (get fs (codes "raw"))))
