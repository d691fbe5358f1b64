-- ===== src/Delegation.antt =====
-- delegation.py: the delegate of an account, from the code that `eth_getCode` returns (EIP-7702).
pub mod Laws
mod Tests
use exec_rest_api.Base.{
  ℕ, Bool, true, false, Option, none, some, List, [], ◌∷◌, ◌++◌, ◌&&◌, Text, codes, lower, length,
  drop, is_hex_digit, starts_with, strip_0x, if◌then◌else◌, ◌==◌,
}
use exec_rest_api.Json.{Json, str, says, delegation_error, Result, ok, err}

abbrev pub delegation_prefix : Text
delegation_prefix = codes "ef0100"

abbrev pub delegation_code_len_hex : ℕ
delegation_code_len_hex = 46

-- ([0-9a-fA-F]{2})*
abbrev pub are_hex_pairs : Text → Bool
are_hex_pairs [] = true
are_hex_pairs (c ∷ []) = false
are_hex_pairs (c ∷ d ∷ s) = is_hex_digit c && is_hex_digit d && are_hex_pairs s

-- ^0x([0-9a-fA-F]{2})*$
abbrev is_hex_bytes_body : Option Text → Bool
is_hex_bytes_body none = false
is_hex_bytes_body (some s) = are_hex_pairs s

abbrev pub is_hex_bytes : Text → Bool
is_hex_bytes s = is_hex_bytes_body (strip_0x s)

unfoldable pub delegate_of : Text → Option Text
delegate_of payload =
    if length payload == delegation_code_len_hex
    then (if starts_with delegation_prefix payload
        then some (codes "0x" ++ drop 6 payload)
        else none)
    else none

unfoldable pub detect_delegate : Json → Result (Option Text)
detect_delegate (str s) =
    if is_hex_bytes s
    then ok (delegate_of (lower (drop 2 s)))
    else err (
        delegation_error
          (says "expected 0x-prefixed even-length hex, got {code_hex!r}" (str s ∷ [])))
detect_delegate v =
    err (delegation_error (says "expected 0x-prefixed even-length hex, got {code_hex!r}" (v ∷ [])))
