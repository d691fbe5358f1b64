-- ===== src/Cursor.antt =====
-- cursor.py: opaque pagination cursors. Python's base64 and json are a parameter, `Codec`: bytes are
-- lists of numbers, and `none` is an exception that the code catches.
pub mod RoundTrip
pub mod Groups
pub mod Errors
mod Tests
use exec_rest_api.Base.{
  ℕ, ◌+◌, ◌-◌, ◌%◌, ◌<◌, ◌≡◌, ◌≢◌, String, Bool, true, false, Option, none, some, List, [], ◌∷◌,
  ◌++◌, ◌&&◌, ℤ, Text, codes, if◌then◌else◌, is_nil, length, replicate, all, not, ◌==◌,
}
use exec_rest_api.Json.{
  Json, null, bool, int, float, str, arr, obj, Fields, end, field, get, word, Message, says, Exn,
  cursor_error, Result, ok, err, ◌>>=◌,
}

-- what json.loads(raw.decode("utf-8")) does: it gives a value, it raises one of the two exceptions that
-- the code catches, UnicodeDecodeError and JSONDecodeError, or it raises another one, as for a number of
-- too many digits (ValueError) and for lists nested too deep (RecursionError)
pub data Loaded : Type 0 where
  json_value : Json → Loaded
  undecodable : Loaded
  uncaught : Exn → Loaded

pub record Codec : Type 0 where
  -- json.dumps(payload, separators=(",", ":")).encode("utf-8")
  pub dumps : Json → Text
  -- json.loads(raw.decode("utf-8"))
  pub loads : Text → Loaded
  -- base64.urlsafe_b64encode(raw).decode("ascii") and base64.urlsafe_b64decode
  pub b64encode : Text → Text
  pub b64decode : Text → Option Text

-- s.rstrip("=")
unfoldable pub rstrip_padding : Text → Text
rstrip_padding [] = []
rstrip_padding (c ∷ s) =
    let rest = rstrip_padding s in if is_nil rest && c == b'=' then [] else c ∷ rest

-- "=" * (-len(encoded) % 4)
abbrev pub padding : Text → Text
padding encoded = replicate ((4 - length encoded % 4) % 4) b'='

-- a message of CursorError
abbrev bad {ℓ} : {A : Type ℓ} → String → List Json → Result A
bad m vs = err (cursor_error (says m vs))

abbrev pub loaded : Loaded → Result Fields
loaded undecodable = bad "cursor payload is not valid JSON: {e}" []
loaded (uncaught e) = err e
loaded (json_value (obj fs)) = ok fs
loaded (json_value v) =
    bad "cursor payload must be an object, got {type(payload).__name__}" (v ∷ [])

-- payload[k], with the KeyError turned into a CursorError
abbrev pub found_field : Text → Option Json → Result Json
found_field k none = bad "cursor missing field: {e}" (str k ∷ [])
found_field k (some v) = ok v

abbrev pub required : Fields → Text → Result Json
required fs k = found_field k (get fs k)

abbrev pub int_field : String → Json → Result ℤ
int_field m (int z) = ok z
int_field m v = bad m []

abbrev pub text_field : String → Json → Result Text
text_field m (str s) = ok s
text_field m v = bad m []

abbrev pub dict_field : String → Json → Result Fields
dict_field m (obj fs) = ok fs
dict_field m v = bad m []

pub record Cursor : Type 0 where
  pub next_from_block : ℤ
  pub last_log_index : ℤ
  pub to_block : ℤ
  pub boundary_block_hash : Text
  pub filter : Fields

pub record TraceCursor : Type 0 where
  pub after : ℤ
  pub from_block : ℤ
  pub to_block : ℤ
  pub filter : Fields

abbrev pub cursor_payload : Cursor → Fields
cursor_payload c = field (codes "kind") (word "logs") (
    field (codes "nextFromBlock") (int c.next_from_block) (
      field (codes "lastLogIndex") (int c.last_log_index) (
        field (codes "toBlock") (int c.to_block) (
          field (codes "boundaryBlockHash") (str c.boundary_block_hash)
            (field (codes "filter") (obj c.filter) end)))))

abbrev pub trace_cursor_payload : TraceCursor → Fields
trace_cursor_payload c = field (codes "kind") (word "traces") (
    field (codes "after") (int c.after) (
      field (codes "fromBlock") (int c.from_block)
        (field (codes "toBlock") (int c.to_block) (field (codes "filter") (obj c.filter) end))))

module _ (c : Codec) where
  unfoldable pub b64url_encode : Fields → Text
  b64url_encode payload = rstrip_padding (c.b64encode (c.dumps (obj payload)))

  abbrev pub unpacked : Option Text → Result Fields
  unpacked none = bad "cursor is not valid base64url: {e}" []
  unpacked (some raw) = loaded (c.loads raw)

  unfoldable pub b64url_decode : Text → Result Fields
  b64url_decode encoded =
      if is_nil encoded
      then bad "cursor is empty" []
      else unpacked (c.b64decode (encoded ++ padding encoded))

  unfoldable pub encode_cursor : Cursor → Text
  encode_cursor cur = b64url_encode (cursor_payload cur)

  unfoldable pub encode_trace_cursor : TraceCursor → Text
  encode_trace_cursor cur = b64url_encode (trace_cursor_payload cur)

-- the part of `decode_cursor` behind the payload
unfoldable pub read_cursor : Fields → Result Cursor
read_cursor payload = do
  next_from_block ← required payload (codes "nextFromBlock")
  last_log_index ← required payload (codes "lastLogIndex")
  to_block ← required payload (codes "toBlock")
  boundary ← required payload (codes "boundaryBlockHash")
  filter ← required payload (codes "filter")
  n ← int_field "nextFromBlock must be an int" next_from_block
  i ← int_field "lastLogIndex must be an int" last_log_index
  t ← int_field "toBlock must be an int" to_block
  b ← text_field "boundaryBlockHash must be a string" boundary
  f ← dict_field "filter must be an object" filter
  ok (record {
    next_from_block = n;
    last_log_index = i;
    to_block = t;
    boundary_block_hash = b;
    filter = f;
  })

unfoldable pub read_trace_cursor : Fields → Result TraceCursor
read_trace_cursor payload = do
  after ← required payload (codes "after")
  from_block ← required payload (codes "fromBlock")
  to_block ← required payload (codes "toBlock")
  filter ← required payload (codes "filter")
  a ← int_field "after / fromBlock / toBlock must all be ints" after
  b ← int_field "after / fromBlock / toBlock must all be ints" from_block
  t ← int_field "after / fromBlock / toBlock must all be ints" to_block
  f ← dict_field "filter must be an object" filter
  ok (record { after = a; from_block = b; to_block = t; filter = f })

unfoldable pub decode_cursor : Codec → Text → Result Cursor
decode_cursor c encoded = do payload ← b64url_decode c encoded; read_cursor payload

unfoldable pub decode_trace_cursor : Codec → Text → Result TraceCursor
decode_trace_cursor c encoded = do payload ← b64url_decode c encoded; read_trace_cursor payload
