-- ===== src/Logs/Input.antt =====
-- handlers/logs.py: the filter of a query string.
use exec_rest_api.Base.{
  ℕ, suc, Option, none, some, List, [], ◌∷◌, ◌⊎◌, inl, inr, pos, Text, codes, lower, split, strip,
  is_nil, if◌then◌else◌,
}
use exec_rest_api.Json.{
  Json, null, bool, int, float, str, arr, obj, Fields, end, field, get, item, items, list, lower_of,
  or_null, put, truthy, each, Message, says, wraps, Exn, block_id_error, type_error, exn_text,
  is_block_id_error, is_cursor_error, Result, ok, err,
}
use exec_rest_api.Json
use exec_rest_api.Encoding.{is_hex_of, map_address_lowercase}

-- topic{i} of the query; the message says which one is wrong
abbrev topic_message : ℕ → Text → Message
topic_message i val =
    says "topic{i} must be 0x-prefixed 32-byte hex, got {val!r}" (int (pos i) ∷ str val ∷ [])

-- the loop over topic0 to topic3, from the index i; trailing nulls are left away
abbrev trimmed : Json → List Json → List Json
trimmed null [] = []
trimmed v rest = v ∷ rest

unfoldable pub parse_topics : ℕ → List (Option Text) → Message ⊎ List Json
parse_topics i [] = inr []
parse_topics i (none ∷ vals) = elim (parse_topics (suc i) vals) [
  | inl m ↦ inl m
  | inr out ↦ inr (trimmed null out)
]
parse_topics i (some val ∷ vals) =
    let rest = parse_topics (suc i) vals in
    if is_hex_of 64 val
    then elim rest [ inl m ↦ inl m | inr out ↦ inr (str (lower val) ∷ out) ]
    else inl (topic_message i val)

-- [map_address_lowercase(piece.strip()) for piece in raw.split(",")]
abbrev address_list : List Text → Result (List Json)
address_list pieces =
    each (λ piece. Json.◌>>=◌ (map_address_lowercase (str (strip piece))) λ a. ok (str a)) pieces

abbrev addresses_or_message : Result (List Json) → Message ⊎ Option (List Json)
addresses_or_message (ok out) = inr (some out)
addresses_or_message (err e) = inl (exn_text e)

unfoldable pub parse_addresses_csv : Option Text → Message ⊎ Option (List Json)
parse_addresses_csv none = inr none
parse_addresses_csv (some raw) =
    if is_nil raw then inr none else addresses_or_message (address_list (split b',' raw))

abbrev pub put_topics : List Json → Fields → Fields
put_topics [] out = out
put_topics topics out = put out (codes "topics") (list topics)

unfoldable pub build_filter : Option (List Json) → List Json → Fields
build_filter none topics = put_topics topics end
build_filter (some addresses) topics =
    put_topics topics (field (codes "address") (list addresses) end)
