-- ===== src/Logs/Search.antt =====
-- handlers/logs.py: the filter and the range of a search by a JSON body.
use exec_rest_api.Base.{
  ℕ, String, Option, none, some, List, [], ◌∷◌, ◌⊎◌, inl, inr, pos, negsuc, Text, codes, lower,
  if◌then◌else◌,
}
use exec_rest_api.Json.{
  Json, null, str, arr, obj, Fields, end, get, items, list, or_null, put, truthy, Message, says,
  block_id_error, type_error, exn_text, Result, ok, err,
}
use exec_rest_api.Encoding.{is_hex_of, map_address_lowercase}
use exec_rest_api.BlockId.{BlockId, parse_block_id}
use exec_rest_api.Errors.{bad_request}
use exec_rest_api.Exec.{Upstream, Exec, pure, ◌>>=◌}
use exec_rest_api.Logs.Types.{Request, Step, reply, go, next_step, Query}
use exec_rest_api.Logs.Input.{put_topics}
use exec_rest_api.Logs.Ranges.{block_range, both_ids}

-- body.get(k, d): a client may send any JSON value for a block
abbrev pub parse_block_id_of : Json → Result BlockId
parse_block_id_of (str s) = parse_block_id s
parse_block_id_of v =
    if truthy v then err type_error else err (block_id_error (says "block id is empty" []))

abbrev body_address : Result Text → Message ⊎ Json
body_address (ok a) = inr (str a)
body_address (err e) = inl (exn_text e)

-- the loop over an array of addresses
unfoldable pub validate_addresses : List Json → Message ⊎ List Json
validate_addresses [] = inr []
validate_addresses (str s ∷ entries) =
    let rest = validate_addresses entries in
    elim (body_address (map_address_lowercase (str s))) [
      | inl m ↦ inl m
      | inr a ↦ elim rest [ inl m ↦ inl m | inr out ↦ inr (a ∷ out) ]
    ]
validate_addresses (v ∷ entries) = inl (says "address entries must be strings" [])

unfoldable pub validate_logfilter_address : Json → Message ⊎ List Json
validate_logfilter_address null = inr []
validate_logfilter_address (str s) = validate_addresses (str s ∷ [])
validate_logfilter_address (arr vs) = validate_addresses (items vs)
validate_logfilter_address v = inl (says "address must be string or array of strings" [])

-- the topics of one position
abbrev pub validate_alternative : Json → Message ⊎ Json
validate_alternative (str s) =
    if is_hex_of 64 s then inr (str (lower s)) else inl (says "invalid topic: {t!r}" (str s ∷ []))
validate_alternative v = inl (says "invalid topic: {t!r}" (v ∷ []))

abbrev pub all_of : (Json → Message ⊎ Json) → List Json → Message ⊎ List Json
all_of f [] = inr []
all_of f (v ∷ vs) =
    let rest = all_of f vs in
    elim (f v) [ inl m ↦ inl m | inr w ↦ elim rest [ inl m ↦ inl m | inr ws ↦ inr (w ∷ ws) ] ]

abbrev as_list : Message ⊎ List Json → Message ⊎ Json
as_list (inl m) = inl m
as_list (inr vs) = inr (list vs)

abbrev pub validate_topic : Json → Message ⊎ Json
validate_topic null = inr null
validate_topic (str s) =
    if is_hex_of 64 s
    then inr (str (lower s))
    else inl (says "invalid topic: {entry!r}" (str s ∷ []))
validate_topic (arr vs) = as_list (all_of validate_alternative (items vs))
validate_topic v = inl (says "invalid topic entry: {entry!r}" (v ∷ []))

unfoldable pub validate_logfilter_topics : Json → Message ⊎ List Json
validate_logfilter_topics null = inr []
validate_logfilter_topics (arr vs) = all_of validate_topic (items vs)
validate_logfilter_topics v = inl (says "topics must be an array" [])

abbrev put_addresses : List Json → Fields → Fields
put_addresses [] out = out
put_addresses addresses out = put out (codes "address") (list addresses)

module _ (u : Upstream) where
  abbrev body_query : List Json → List Json → ℕ × ℕ → Step Query
  body_query addresses topics (from, to) = go (record {
    filter = put_topics topics (put_addresses addresses end);
    from_block = pos from;
    to_block = pos to;
    skip_until = negsuc 0;
  })

  abbrev pub or_word : String → Option Json → Json
  or_word d none = str (codes d)
  or_word d (some v) = v

  -- the range is resolved only for a valid filter
  abbrev pub ranged : Text → Fields → Message ⊎ List Json → Message ⊎ List Json → Exec (Step Query)
  ranged path body (inl m) topics = pure (reply (bad_request path m))
  ranged path body (inr addresses) (inl m) = pure (reply (bad_request path m))
  ranged path body (inr addresses) (inr topics) = do
    range ← block_range u path (
        both_ids u (parse_block_id_of (or_word "earliest" (get body (codes "fromBlock"))))
          (parse_block_id_of (or_word "latest" (get body (codes "toBlock")))))
    next_step range λ r. pure (body_query addresses topics r)

  -- the branch of `post_logs_search` behind the check that the body is an object
  unfoldable pub searched_body : Text → Fields → Exec (Step Query)
  searched_body path body =
      ranged path body (validate_logfilter_address (or_null (get body (codes "address"))))
        (validate_logfilter_topics (or_null (get body (codes "topics"))))

  abbrev pub of_body : Text → Option Json → Exec (Step Query)
  of_body path none = pure (reply (bad_request path (says "request body must be valid JSON" [])))
  of_body path (some (obj fs)) = searched_body path fs
  of_body path (some v) =
      pure (reply (bad_request path (says "request body must be a JSON object" [])))

  unfoldable pub searched : Request → Exec (Step Query)
  searched req = of_body req.path req.body
