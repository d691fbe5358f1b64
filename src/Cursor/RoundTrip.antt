-- ===== src/Cursor/RoundTrip.antt =====
-- cursor.py: cursors that the server issues are read back, and nothing else passes for one.
use exec_rest_api.Base.{
  ℕ, zero, suc, ◌+◌, ◌-◌, ◌%◌, ◌<◌, ◌≡◌, ◌≢◌, refl, sym, ap, ◌∙◌, true, false, some, [], ◌∷◌, ◌++◌,
  Text, codes, is_nil, length, replicate, all, not, ◌==◌, arith,
}
use exec_rest_api.Json.{Json, str, obj, Fields, says, Message, cursor_error, ok, err}
use exec_rest_api.Cursor.{
  Codec, json_value, rstrip_padding, padding, Cursor, TraceCursor, cursor_payload,
  trace_cursor_payload, b64url_encode, b64url_decode, encode_cursor, encode_trace_cursor,
  read_cursor, read_trace_cursor, decode_cursor, decode_trace_cursor,
}

-- What the code relies on: base64 is inverted by its decoder, its texts are groups of four with at
-- most two signs `=`, all at the end, and are not empty for data that is not; a JSON text is not empty.
pub record IsBase64 (c : Codec) : Type 0 where
  pub inverse : (raw : Text) → c.b64decode (c.b64encode raw) ≡ some raw
  pub shape :
      (raw : Text)
      → (body : Text) × (k : ℕ) × (c.b64encode raw ≡ body ++ replicate k b'=')
        × (k < 3)
        × ((length body + k) % 4 ≡ 0)
        × (all (λ x. not (x == b'=')) body ≡ true)
        × (raw ≢ [] → is_nil body ≡ false)
  pub some_text : (v : Json) → c.dumps v ≢ []

rstrip_padding-replicate : (k : ℕ) → rstrip_padding (replicate k b'=') ≡ []
unfolding rstrip_padding
rstrip_padding-replicate zero = refl
rstrip_padding-replicate (suc k) = rw (rstrip_padding-replicate k)

rstrip_padding-append :
    (body : Text) (k : ℕ)
    → all (λ x. not (x == b'=')) body ≡ true
    → rstrip_padding (body ++ replicate k b'=') ≡ body
unfolding rstrip_padding
rstrip_padding-append [] k h = rstrip_padding-replicate k
rstrip_padding-append (c ∷ body) k h = ground (arith, rstrip_padding-append body k)

module _ (c : Codec) (base64 : IsBase64 c) where
  b64url_decode-encode :
      (payload : Fields)
      → c.loads (c.dumps (obj payload)) ≡ json_value (obj payload)
      → b64url_decode c (b64url_encode c payload) ≡ ok payload
  unfolding b64url_decode b64url_encode
  b64url_decode-encode payload json =
      let (body, k, e, few, groups, plain, full) = base64.shape (c.dumps (obj payload)) in
      let stripped : rstrip_padding (c.b64encode (c.dumps (obj payload))) ≡ body =
        ap rstrip_padding e ∙ rstrip_padding-append body k plain in
      let same : (4 - length body % 4) % 4 ≡ k = omega arith in
      let restored : c.b64decode (body ++ padding body) ≡ some (c.dumps (obj payload)) =
        ap (λ n. c.b64decode (body ++ replicate n b'=')) same
        ∙ ap c.b64decode (sym e)
        ∙ base64.inverse (c.dumps (obj payload)) in
      rw stripped (rw (full (base64.some_text (obj payload))) (rw restored (rw json)))

  -- A cursor of `/logs` that was encoded is decoded to itself, if json.loads inverts json.dumps on its
  -- payload.
  pub decode-encode_cursor :
      (cur : Cursor)
      → c.loads (c.dumps (obj (cursor_payload cur))) ≡ json_value (obj (cursor_payload cur))
      → decode_cursor c (encode_cursor c cur) ≡ ok cur
  unfolding decode_cursor encode_cursor read_cursor
  decode-encode_cursor cur json = rw (b64url_decode-encode (cursor_payload cur) json)

  -- A cursor of `/traces` that was encoded is decoded to itself under the same condition.
  pub decode-encode_trace_cursor :
      (cur : TraceCursor)
      → c.loads (c.dumps (obj (trace_cursor_payload cur)))
        ≡ json_value (obj (trace_cursor_payload cur))
      → decode_trace_cursor c (encode_trace_cursor c cur) ≡ ok cur
  unfolding decode_trace_cursor encode_trace_cursor read_trace_cursor
  decode-encode_trace_cursor cur json = rw (b64url_decode-encode (trace_cursor_payload cur) json)

  -- Neither endpoint takes the other's cursor: each raises a `CursorError` for it.
  pub cursors_not_confused :
      (a : Cursor) (b : TraceCursor)
      → c.loads (c.dumps (obj (cursor_payload a))) ≡ json_value (obj (cursor_payload a))
      → c.loads (c.dumps (obj (trace_cursor_payload b))) ≡ json_value (obj (trace_cursor_payload b))
      → ((m : Message) × (decode_trace_cursor c (encode_cursor c a) ≡ err (cursor_error m)))
        × ((m : Message) × (decode_cursor c (encode_trace_cursor c b) ≡ err (cursor_error m)))
  unfolding decode_cursor encode_cursor read_cursor decode_trace_cursor encode_trace_cursor
      read_trace_cursor
  cursors_not_confused a b json_a json_b = (
    (
      says "cursor missing field: {e}" (str (codes "after") ∷ []),
      rw (b64url_decode-encode (cursor_payload a) json_a),
    ),
    (
      says "cursor missing field: {e}" (str (codes "nextFromBlock") ∷ []),
      rw (b64url_decode-encode (trace_cursor_payload b) json_b),
    ),
  )
