-- ===== src/Revert.antt =====
-- abi_revert.py: what a reverted call tells. The decoding of UTF-8 with replacement characters is the
-- parameter `decode_utf8`.
pub mod Laws
mod Tests
use exec_rest_api.Base.{
  ℕ, ◌+◌, ◌-◌, ◌*◌, ◌^◌, Bool, true, false, Option, none, some, List, [], ◌∷◌, ◌++◌, ◌&&◌, ◌||◌,
  Text, codes, text_eq, ℤ, int_eq, is_in, lower, all, is_hex_digit, length, take, drop, ltb,
  if◌then◌else◌, starts_with,
}
use exec_rest_api.Json.{Json, null, bool, str, obj, Fields, end, field, nat, word}
use exec_rest_api.Errors.{minus}
use exec_rest_api.Encoding.Numerals.{value_16, digit_value}

abbrev pub error_selector : Text
error_selector = codes "08c379a0"

abbrev pub panic_selector : Text
panic_selector = codes "4e487b71"

-- `^0x[0-9a-fA-F]*$`
unfoldable pub is_hex_data : Text → Bool
is_hex_data s = starts_with (codes "0x") s && all is_hex_digit (drop 2 s)

unfoldable pub is_revert : ℤ → Text → Bool
is_revert code message =
    int_eq code (minus 32000) && is_in (codes "execution reverted") (lower message)

unfoldable pub is_out_of_gas : Text → Bool
is_out_of_gas message =
    is_in (codes "out of gas") (lower message)
    || is_in (codes "gas required exceeds allowance") (lower message)

abbrev pub max_reason_bytes : ℕ
max_reason_bytes = 1048576

-- s[a:b]
abbrev pub slice : ℕ → ℕ → Text → Text
slice a b s = take (b - a) (drop a s)

-- bytes.fromhex, of pairs of digits
unfoldable pub bytes_of_hex : Text → List ℕ
bytes_of_hex [] = []
bytes_of_hex (c ∷ []) = []
bytes_of_hex (c ∷ d ∷ s) = (digit_value c * 16 + digit_value d) ∷ bytes_of_hex s

unfoldable pub decode_panic_uint : Text → Option ℕ
decode_panic_uint tail = if ltb (length tail) 64 then none else some (value_16 0 (take 64 tail))

module _ (decode_utf8 : List ℕ → Text) where
  -- the text at `start`, of `length` bytes
  abbrev pub reason_at : Text → ℕ → ℕ → Option Text
  reason_at tail start count =
      if ltb max_reason_bytes count
      then none
      else if ltb (length tail) (start + 64 + count * 2)
      then none
      else some (decode_utf8 (bytes_of_hex (slice (start + 64) (start + 64 + count * 2) tail)))

  -- the string struct at `start`
  abbrev pub struct_at : Text → ℕ → Option Text
  struct_at tail start =
      if ltb (length tail) (start + 64)
      then none
      else reason_at tail start (value_16 0 (slice start (start + 64) tail))

  unfoldable pub decode_error_string : Text → Option Text
  decode_error_string tail =
      if ltb (length tail) 128 then none else struct_at tail (value_16 0 (take 64 tail) * 2)

  -- the reason and the panic code of the digits after `0x`
  abbrev pub decode_body : Text → Option Text × Option ℕ
  decode_body body =
      if ltb (length body) 8
      then (none, none)
      else if text_eq (lower (take 8 body)) error_selector
      then (decode_error_string (drop 8 body), none)
      else if text_eq (lower (take 8 body)) panic_selector
      then (none, decode_panic_uint (drop 8 body))
      else (none, none)

  unfoldable pub decode_revert_data : Json → Option Text × Option ℕ
  decode_revert_data (str blob) =
      if is_hex_data blob then decode_body (drop 2 blob) else (none, none)
  decode_revert_data v = (none, none)

  abbrev raw_data : Json → Text
  raw_data (str blob) = if is_hex_data blob then blob else codes "0x"
  raw_data v = codes "0x"

  abbrev pub reason_or_null : Option Text → Json
  reason_or_null none = null
  reason_or_null (some s) = str s

  abbrev pub code_or_null : Option ℕ → Json
  code_or_null none = null
  code_or_null (some n) = nat n

  -- the message and the data of the error
  unfoldable pub revert_body : Text → Json → Fields
  revert_body message blob =
      let (reason, panic) = decode_revert_data (str (raw_data blob)) in
      field (codes "reverted") (bool true) (
        field (codes "data") (str (lower (raw_data blob))) (
          field (codes "reason") (reason_or_null reason) (
            field (codes "panicCode") (code_or_null panic)
              (if is_out_of_gas message then field (codes "outOfGas") (bool true) end else end))))
