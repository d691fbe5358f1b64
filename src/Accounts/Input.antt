-- ===== src/Accounts/Input.antt =====
-- handlers/accounts.py: addresses, blocks and storage slots of a request.
use exec_rest_api.Base.{
  ◌-◌, Bool, false, Option, none, some, List, [], ◌∷◌, ◌++◌, ◌&&◌, ◌⊎◌, inl, inr, Text, codes,
  lower, split, strip, is_nil, is_hex_digit, strip_0x, all, length, leb, drop, replicate,
  if◌then◌else◌,
}
use exec_rest_api.Json.{
  Json, str, Message, says, Exn, is_encoding_error, is_block_id_error, exn_text, Result, ok, err,
}
use exec_rest_api.Encoding.{hex, is_decimal, int_of_decimal, map_address_lowercase}
use exec_rest_api.BlockId.{BlockId, parse_block_id}
use exec_rest_api.Errors.{Response, bad_request}
use exec_rest_api.Exec.{Exec, pure, raise}

-- a result, or a 400 for an exception that is caught, or the exception
abbrev pub caught :
    {A : Type 0} → (Exn → Bool) → Text → Result A → (A → Exec Response) → Exec Response
caught catches path (ok a) f = f a
caught catches path (err e) f = if catches e then pure (bad_request path (exn_text e)) else raise e

unfoldable pub parse_address : Text → Text → (Text → Exec Response) → Exec Response
parse_address raw path f = caught is_encoding_error path (map_address_lowercase (str raw)) f

abbrev pub at_or_latest : Option Text → Text
at_or_latest none = codes "latest"
at_or_latest (some raw) = raw

unfoldable pub parse_at : Option Text → Text → (BlockId → Exec Response) → Exec Response
parse_at raw path f = caught is_block_id_error path (parse_block_id (at_or_latest raw)) f

-- ^0x[0-9a-fA-F]{1,64}$
abbrev is_slot_body : Option Text → Bool
is_slot_body none = false
is_slot_body (some s) = leb 1 (length s) && leb (length s) 64 && all is_hex_digit s

abbrev pub is_hex_slot : Text → Bool
is_hex_slot s = is_slot_body (strip_0x s)

unfoldable pub parse_slot : Text → Message ⊎ Text
parse_slot raw =
    if is_hex_slot raw
    then inr (lower raw)
    else if is_decimal raw
    then inr (hex (int_of_decimal raw))
    else inl (says "storage slot must be 0x-hex or decimal, got {raw!r}" (str raw ∷ []))

-- "0x" and the digits, filled up with zeros on the left
unfoldable pub pad_slot_to_32_bytes : Text → Text
pad_slot_to_32_bytes slot_hex =
    let body = drop 2 slot_hex in
    if leb 64 (length body)
    then slot_hex
    else codes "0x" ++ (replicate (64 - length body) b'0' ++ body)

abbrev add_slot : Message ⊎ Text → Message ⊎ List Json → Message ⊎ List Json
add_slot (inl m) rest = inl m
add_slot (inr s) (inl m) = inl m
add_slot (inr s) (inr out) = inr (str (pad_slot_to_32_bytes s) ∷ out)

unfoldable pub parse_slots : List Text → Message ⊎ List Json
parse_slots [] = inr []
parse_slots (piece ∷ pieces) = add_slot (parse_slot (strip piece)) (parse_slots pieces)

unfoldable pub parse_slots_csv : Option Text → Message ⊎ List Json
parse_slots_csv none = inr []
parse_slots_csv (some raw) = if is_nil raw then inr [] else parse_slots (split b',' raw)

-- the loop over the slots of a body
abbrev add_hex_slot : Text → Message ⊎ List Json → Message ⊎ List Json
add_hex_slot s (inl m) = inl m
add_hex_slot s (inr out) = inr (str (pad_slot_to_32_bytes (lower s)) ∷ out)

unfoldable pub body_slots : List Json → Message ⊎ List Json
body_slots [] = inr []
body_slots (str s ∷ slots_raw) =
    let rest = body_slots slots_raw in
    if is_hex_slot s
    then add_hex_slot s rest
    else inl (says "slot must be 0x-hex (1..64 chars), got {s!r}" (str s ∷ []))
body_slots (v ∷ slots_raw) = inl (says "slot entries must be strings" [])
