-- ===== src/Encoding.antt =====
-- encoding.py: JSON-RPC quantities (hex), REST integers (JSON numbers), wei amounts (decimal
-- strings), the status and type enumerations, and addresses. `object` arguments are `Json`;
-- the functions that raise return a `Result`. Integers have any size, as in Python.
pub mod Numerals
pub mod RoundTrip
pub mod Canonical
mod Tests
use Numerals.{value_16, value_10, print_16, print_10}
use exec_rest_api.Base.{
  ℕ, String, Bool, true, false, Option, none, some, List, [], ◌∷◌, ◌++◌, ◌&&◌, not, ℤ, pos, negsuc,
  Text, codes, text_eq, if◌then◌else◌, is_nil, lower, all, is_digit, is_hex_digit, strip_0x, length,
  ◌==◌,
}
use exec_rest_api.Json.{
  Json, null, bool, int, float, str, arr, obj, Message, says, Exn, encoding_error, Result, ok, err,
  ◌>>=◌,
}

-- ^0x[0-9a-fA-F]+$
abbrev is_hex_body : Option Text → Bool
is_hex_body none = false
is_hex_body (some s) = not (is_nil s) && all is_hex_digit s

abbrev pub is_hex : Text → Bool
is_hex s = is_hex_body (strip_0x s)

-- ^[0-9]+$
abbrev pub is_decimal : Text → Bool
is_decimal s = not (is_nil s) && all is_digit s

-- ^0x[0-9a-fA-F]{n}$
abbrev is_hex_body_of : ℕ → Option Text → Bool
is_hex_body_of n none = false
is_hex_body_of n (some s) = length s == n && all is_hex_digit s

abbrev pub is_hex_of : ℕ → Text → Bool
is_hex_of n s = is_hex_body_of n (strip_0x s)

-- int(s, 16), for a text that matches the pattern above
abbrev body_value : Option Text → ℕ
body_value none = 0
body_value (some s) = value_16 0 s

abbrev pub int_of_hex : Text → ℕ
int_of_hex s = body_value (strip_0x s)

-- int(s), for a text of digits
abbrev pub int_of_decimal : Text → ℕ
int_of_decimal s = value_10 0 s

-- f"0x{n:x}"
abbrev pub hex : ℕ → Text
hex n = b'0' ∷ b'x' ∷ print_16 n

-- str(n)
abbrev pub decimal : ℕ → Text
decimal n = print_10 n

unfoldable pub hex_to_int : Json → Result ℕ
hex_to_int (str s) =
    if is_hex s
    then ok (int_of_hex s)
    else err (encoding_error (says "expected 0x-prefixed hex, got {s!r}" (str s ∷ [])))
hex_to_int v = err (encoding_error (says "expected 0x-prefixed hex, got {s!r}" (v ∷ [])))

unfoldable pub coerce_rpc_int : Json → Result ℕ
coerce_rpc_int (bool b) = err (encoding_error (says "bool is not an int: {value!r}" (bool b ∷ [])))
coerce_rpc_int (int (pos n)) = ok n
coerce_rpc_int (int (negsuc n)) =
    err (encoding_error (says "expected non-negative int, got {value}" (int (negsuc n) ∷ [])))
coerce_rpc_int (str s) =
    if is_hex s
    then ok (int_of_hex s)
    else if is_decimal s
    then ok (int_of_decimal s)
    else err
        (encoding_error (says "expected int or hex/decimal string, got {value!r}" (str s ∷ [])))
coerce_rpc_int v =
    err (encoding_error (says "expected int or hex/decimal string, got {value!r}" (v ∷ [])))

unfoldable pub decimal_to_hex : Json → Result Text
decimal_to_hex (int (pos n)) = ok (hex n)
decimal_to_hex v = err (encoding_error (says "expected non-negative int, got {n!r}" (v ∷ [])))

unfoldable pub wei_from_rpc : Json → Result Text
unfolding hex_to_int
wei_from_rpc rpc = do n ← hex_to_int rpc; ok (decimal n)

unfoldable pub wei_to_rpc : Json → Result Text
wei_to_rpc (bool b) = err (encoding_error (says "bool is not a wei value: {value!r}" (bool b ∷ [])))
wei_to_rpc (int (pos n)) = ok (hex n)
wei_to_rpc (int (negsuc n)) =
    err (encoding_error (says "wei must be non-negative, got {value}" (int (negsuc n) ∷ [])))
wei_to_rpc (str s) =
    if is_decimal s
    then ok (hex (int_of_decimal s))
    else err (encoding_error (says "wei string must be decimal digits, got {value!r}" (str s ∷ [])))
wei_to_rpc v =
    err (
      encoding_error
        (says "wei must be int or decimal string, got {type(value).__name__}" (v ∷ [])))

unfoldable pub parse_input_int : Json → Result ℕ
parse_input_int (bool b) = err (encoding_error (says "bool is not an int: {value!r}" (bool b ∷ [])))
parse_input_int (int (pos n)) = ok n
parse_input_int (int (negsuc n)) =
    err (encoding_error (says "expected non-negative int, got {value}" (int (negsuc n) ∷ [])))
parse_input_int (str s) =
    if is_decimal s
    then ok (int_of_decimal s)
    else err (
        encoding_error
          (says "expected non-negative int or decimal string, got {value!r}" (str s ∷ [])))
parse_input_int v =
    err
      (encoding_error (says "expected non-negative int or decimal string, got {value!r}" (v ∷ [])))

unfoldable pub parse_input_wei : Json → Result ℕ
unfolding parse_input_int
parse_input_wei v = parse_input_int v

-- the two dictionaries, each with its reverse
abbrev pub lookup : List (Text × Text) → Text → Option Text
lookup [] k = none
lookup ((j, v) ∷ m) k = if text_eq j k then some v else lookup m k

abbrev flip : List (Text × Text) → List (Text × Text)
flip [] = []
flip ((k, v) ∷ m) = (v, k) ∷ flip m

abbrev pub status_rpc_to_rest : List (Text × Text)
status_rpc_to_rest = (codes "0x0", codes "failed") ∷ (codes "0x1", codes "success") ∷ []

abbrev pub tx_type_rpc_to_rest : List (Text × Text)
tx_type_rpc_to_rest =
    (codes "0x0", codes "legacy")
    ∷ (codes "0x1", codes "access-list")
    ∷ (codes "0x2", codes "dynamic-fee")
    ∷ (codes "0x3", codes "blob")
    ∷ []

abbrev found : String → Text → Option Text → Result Text
found template k none = err (encoding_error (says template (str k ∷ [])))
found template k (some v) = ok v

unfoldable pub rest_status_from_rpc : Text → Result Text
rest_status_from_rpc rpc =
    found "unknown receipt status: {rpc!r}" rpc (lookup status_rpc_to_rest rpc)

unfoldable pub rpc_status_from_rest : Text → Result Text
rpc_status_from_rest rest =
    found "unknown receipt status: {rest!r}" rest (lookup (flip status_rpc_to_rest) rest)

unfoldable pub rest_tx_type_from_rpc : Text → Result Text
rest_tx_type_from_rpc rpc =
    found "unknown transaction type: {rpc!r}" rpc (lookup tx_type_rpc_to_rest rpc)

unfoldable pub rpc_tx_type_from_rest : Text → Result Text
rpc_tx_type_from_rest rest =
    found "unknown transaction type: {rest!r}" rest (lookup (flip tx_type_rpc_to_rest) rest)

unfoldable pub map_address_lowercase : Json → Result Text
map_address_lowercase (str s) =
    if is_hex_of 40 s
    then ok (lower s)
    else err
        (encoding_error (says "expected 0x-prefixed 20-byte address, got {addr!r}" (str s ∷ [])))
map_address_lowercase v =
    err (encoding_error (says "expected 0x-prefixed 20-byte address, got {addr!r}" (v ∷ [])))
