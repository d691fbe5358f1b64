-- ===== src/Cursor/Errors.antt =====
-- cursor.py: what the decoding of a cursor raises.
use exec_rest_api.Base.{
  ◌≡◌, refl, ◌++◌, String, Option, none, some, Text, Bool-cases, inl, inr, is_nil,
}
use exec_rest_api.Json.{Exn, Json, int, str, obj, Fields, get, cursor_error, Result, ok, err, ◌>>=◌}
use exec_rest_api.Cursor.{
  Codec, Loaded, json_value, undecodable, uncaught, padding, loaded, found_field, required,
  int_field, text_field, dict_field, unpacked, b64url_decode, read_cursor, read_trace_cursor,
  decode_cursor, decode_trace_cursor,
}

-- The result is a value, a `CursorError`, which the handlers turn into a 400, or an exception E.
abbrev pub IsHandled {ℓ} : {A : Type ℓ} → (Exn → Type 0) → Result A → Type 0
IsHandled E (ok a) = Unit
IsHandled E (err (cursor_error m)) = Unit
IsHandled E (err e) = E e

module _ (E : Exn → Type 0) where
  IsHandled-bind {ℓ κ} :
      {A : Type ℓ} {B : Type κ} (r : Result A) (f : A → Result B)
      → IsHandled E r
      → ((a : A) → IsHandled E (f a))
      → IsHandled E (r >>= f)
  IsHandled-bind (ok a) f h k = k a
  IsHandled-bind (err (cursor_error m)) f h k = tt
  IsHandled-bind (err e) f h k = h

  IsHandled-found_field : (k : Text) (o : Option Json) → IsHandled E (found_field k o)
  IsHandled-found_field k none = tt
  IsHandled-found_field k (some v) = tt

  IsHandled-required : (fs : Fields) (k : Text) → IsHandled E (required fs k)
  IsHandled-required fs k = IsHandled-found_field k (get fs k)

  IsHandled-int_field : (m : String) (v : Json) → IsHandled E (int_field m v)
  IsHandled-int_field m (int z) = tt
  IsHandled-int_field m _ = tt

  IsHandled-text_field : (m : String) (v : Json) → IsHandled E (text_field m v)
  IsHandled-text_field m (str s) = tt
  IsHandled-text_field m _ = tt

  IsHandled-dict_field : (m : String) (v : Json) → IsHandled E (dict_field m v)
  IsHandled-dict_field m (obj fs) = tt
  IsHandled-dict_field m _ = tt

  IsHandled-read_cursor : (fs : Fields) → IsHandled E (read_cursor fs)
  unfolding read_cursor
  IsHandled-read_cursor fs = IsHandled-bind _ _ (IsHandled-required fs _) λ n.
      IsHandled-bind _ _ (IsHandled-required fs _) λ i.
        IsHandled-bind _ _ (IsHandled-required fs _) λ t.
          IsHandled-bind _ _ (IsHandled-required fs _) λ b.
            IsHandled-bind _ _ (IsHandled-required fs _) λ f.
              IsHandled-bind _ _ (IsHandled-int_field _ n) λ n'.
                IsHandled-bind _ _ (IsHandled-int_field _ i) λ i'.
                  IsHandled-bind _ _ (IsHandled-int_field _ t) λ t'.
                    IsHandled-bind _ _ (IsHandled-text_field _ b)
                      λ b'. IsHandled-bind _ _ (IsHandled-dict_field _ f) λ f'. tt

  IsHandled-read_trace_cursor : (fs : Fields) → IsHandled E (read_trace_cursor fs)
  unfolding read_trace_cursor
  IsHandled-read_trace_cursor fs = IsHandled-bind _ _ (IsHandled-required fs _) λ a.
      IsHandled-bind _ _ (IsHandled-required fs _) λ b.
        IsHandled-bind _ _ (IsHandled-required fs _) λ t.
          IsHandled-bind _ _ (IsHandled-required fs _) λ f.
            IsHandled-bind _ _ (IsHandled-int_field _ a) λ a'.
              IsHandled-bind _ _ (IsHandled-int_field _ b) λ b'.
                IsHandled-bind _ _ (IsHandled-int_field _ t)
                  λ t'. IsHandled-bind _ _ (IsHandled-dict_field _ f) λ f'. tt

module _ (c : Codec) where
  -- json.loads raised this exception for the bytes of the cursor
  abbrev pub Escapes : Text → Exn → Type 0
  Escapes encoded e =
      (raw : Text) × (c.b64decode (encoded ++ padding encoded) ≡ some raw)
      × (c.loads raw ≡ uncaught e)

  IsHandled-escaped :
      (encoded : Text) (e : Exn)
      → Escapes encoded e
      → IsHandled {A = Fields} (Escapes encoded) (err e)
  IsHandled-escaped encoded (cursor_error m) h = tt
  IsHandled-escaped encoded e h = h

  IsHandled-loaded :
      (encoded raw : Text) (l : Loaded)
      → c.b64decode (encoded ++ padding encoded) ≡ some raw
      → c.loads raw ≡ l
      → IsHandled (Escapes encoded) (loaded l)
  IsHandled-loaded encoded raw undecodable d e = tt
  IsHandled-loaded encoded raw (uncaught x) d e = IsHandled-escaped encoded x (raw, d, e)
  IsHandled-loaded encoded raw (json_value (obj fs)) d e = tt
  IsHandled-loaded encoded raw (json_value _) d e = tt

  IsHandled-unpacked :
      (encoded : Text) (o : Option Text)
      → c.b64decode (encoded ++ padding encoded) ≡ o
      → IsHandled (Escapes encoded) (unpacked c o)
  IsHandled-unpacked encoded none d = tt
  IsHandled-unpacked encoded (some raw) d = IsHandled-loaded encoded raw (c.loads raw) d refl

  IsHandled-b64url_decode : (encoded : Text) → IsHandled (Escapes encoded) (b64url_decode c encoded)
  unfolding b64url_decode
  IsHandled-b64url_decode encoded = elim (Bool-cases (is_nil encoded)) [
    | inl e ↦ rw e tt
    | inr e ↦ rw e (IsHandled-unpacked encoded _ refl)
  ]

  -- Whatever text comes as a cursor, of `/logs` or of `/traces`, it is decoded, or a `CursorError` is
  -- raised, or the exception that json.loads raised for its bytes and that is neither UnicodeDecodeError
  -- nor JSONDecodeError.
  pub decode_cursors-IsHandled :
      (encoded : Text)
      → IsHandled (Escapes encoded) (decode_cursor c encoded)
        × IsHandled (Escapes encoded) (decode_trace_cursor c encoded)
  unfolding decode_cursor decode_trace_cursor
  decode_cursors-IsHandled encoded = (
    IsHandled-bind (Escapes encoded) (b64url_decode c encoded) read_cursor
        (IsHandled-b64url_decode encoded) (IsHandled-read_cursor (Escapes encoded)),
    IsHandled-bind (Escapes encoded) (b64url_decode c encoded) read_trace_cursor
        (IsHandled-b64url_decode encoded) (IsHandled-read_trace_cursor (Escapes encoded)),
  )
