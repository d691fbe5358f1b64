-- ===== src/Cursor/Tests.antt =====
-- cursor.py: both cursors with a codec that knows two payloads.
use exec_rest_api.Base.{
  zero, suc, ◌≡◌, refl, Bool, false, [], ◌∷◌, pos, negsuc, Text, codes, if◌then◌else◌, arith,
  text_eq,
}
use exec_rest_api.Json.{
  Json, null, obj, str, field, end, says, value_error, Message, cursor_error, ok, err,
}
use exec_rest_api.Cursor.{
  Codec, Loaded, json_value, undecodable, uncaught, Cursor, TraceCursor, cursor_payload,
  trace_cursor_payload, b64url_encode, b64url_decode, rstrip_padding, encode_cursor,
  encode_trace_cursor, decode_cursor, decode_trace_cursor,
}
use exec_rest_api.Cursor.RoundTrip.{
  IsBase64, decode-encode_cursor, decode-encode_trace_cursor, cursors_not_confused,
}
use exec_rest_api.Cursor.Groups.{in_groups, in_groups-IsBase64}
use exec_rest_api.Cursor.Errors.{IsHandled, Escapes, decode_cursors-IsHandled}

abbrev sample : Cursor
sample = record {
  next_from_block = pos 18;
  last_log_index = negsuc 0;
  to_block = pos 20;
  boundary_block_hash = codes "0xab";
  filter = field (codes "topics") null end;
}

abbrev trace_sample : TraceCursor
trace_sample = record { after = pos 100; from_block = pos 1; to_block = pos 9; filter = end }

abbrev knows : Text → Loaded
knows (zero ∷ []) = json_value (obj (cursor_payload sample))
knows (suc n ∷ []) = json_value (obj (trace_cursor_payload trace_sample))
knows (suc n ∷ c ∷ []) =
    uncaught (value_error (says "Exceeds the limit (4300 digits) for integer string conversion" []))
knows _ = undecodable

abbrev is_trace : Json → Bool
is_trace (obj (field k (str s) fs)) = text_eq s (codes "traces")
is_trace _ = false

abbrev codec : Codec
codec = in_groups (λ v. if is_trace v then 1 ∷ [] else 0 ∷ []) knows

codec-IsBase64 : IsBase64 codec
codec-IsBase64 = in_groups-IsBase64 _ knows (λ v. ground arith)

decode-encode_cursor_example : decode_cursor codec (encode_cursor codec sample) ≡ ok sample
decode-encode_cursor_example = decode-encode_cursor codec codec-IsBase64 sample refl

decode-encode_trace_cursor_example :
    decode_trace_cursor codec (encode_trace_cursor codec trace_sample) ≡ ok trace_sample
decode-encode_trace_cursor_example =
    decode-encode_trace_cursor codec codec-IsBase64 trace_sample refl

cursors_not_confused_example :
    ((m : Message) × (decode_trace_cursor codec (encode_cursor codec sample)
        ≡ err (cursor_error m)))
    × ((m : Message) × (decode_cursor codec (encode_trace_cursor codec trace_sample)
          ≡ err (cursor_error m)))
cursors_not_confused_example =
    cursors_not_confused codec codec-IsBase64 sample trace_sample refl refl

decode_cursors-IsHandled_example :
    IsHandled (Escapes codec (codes "%%")) (decode_cursor codec (codes "%%"))
    × IsHandled (Escapes codec (codes "%%")) (decode_trace_cursor codec (codes "%%"))
decode_cursors-IsHandled_example = decode_cursors-IsHandled codec (codes "%%")

unpadded : encode_cursor codec sample ≡ codes ">AAAQQ"
unfolding encode_cursor b64url_encode rstrip_padding
unpadded = refl

-- a number of too many digits in a cursor
too_many_digits :
    decode_cursor codec (codes "?AAA?AAAQQ")
    ≡ err (value_error (says "Exceeds the limit (4300 digits) for integer string conversion" []))
unfolding decode_cursor b64url_decode
too_many_digits = refl
