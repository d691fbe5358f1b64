-- ===== src/BlockId.antt =====
-- block_id.py: block identifiers as clients write them, and as JSON-RPC takes them.
-- A `BlockId` has exactly one of tag, number and hash, which `__post_init__` enforces: it is a sum.
pub mod Laws
mod Tests
use exec_rest_api.Base.{
  ℕ, Bool, true, false, List, [], ◌∷◌, Text, codes, text_eq, one_of, if◌then◌else◌, is_nil, lower,
  length, leb,
}
use exec_rest_api.Json.{str, Message, says, Exn, block_id_error, value_error, Result, ok, err}
use exec_rest_api.Encoding.{is_decimal, is_hex_of, int_of_decimal, hex}

pub data BlockId : Type 0 where
  tag : Text → BlockId
  number : ℕ → BlockId
  hash : Text → BlockId

abbrev pub block_tags : List Text
block_tags =
    codes "latest" ∷ codes "safe" ∷ codes "finalized" ∷ codes "pending" ∷ codes "earliest" ∷ []

abbrev pub is_tag : BlockId → Bool
is_tag (tag t) = true
is_tag _ = false

abbrev pub is_number : BlockId → Bool
is_number (number n) = true
is_number _ = false

abbrev pub is_hash : BlockId → Bool
is_hash (hash h) = true
is_hash _ = false

unfoldable pub to_rpc_param : BlockId → Text
to_rpc_param (tag t) = t
to_rpc_param (number n) = hex n
to_rpc_param (hash h) = h

-- the most digits that Python's int() of a text takes; for more it raises ValueError
abbrev pub max_int_digits : ℕ
max_int_digits = 4300

-- int(raw), for a text of digits
abbrev pub int_of_text : Text → Result BlockId
int_of_text raw =
    if leb (length raw) max_int_digits
    then ok (number (int_of_decimal raw))
    else err (
        value_error
          (says "Exceeds the limit (4300 digits) for integer string conversion" (str raw ∷ [])))

unfoldable pub parse_block_id : Text → Result BlockId
parse_block_id raw =
    if is_nil raw
    then err (block_id_error (says "block id is empty" []))
    else if one_of raw block_tags
    then ok (tag raw)
    else if is_decimal raw
    then int_of_text raw
    else if is_hex_of 64 raw
    then ok (hash (lower raw))
    else err (block_id_error (says "unrecognised block identifier: {raw!r}" (str raw ∷ [])))
