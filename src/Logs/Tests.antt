-- ===== src/Logs/Tests.antt =====
-- handlers/logs.py: requests to a node with one log.
use exec_rest_api.Base.{
  ◌⊎◌, inr, ℕ, zero, suc, ◌-◌, ap, ◌≡◌, ◌≢◌, refl, ◌≤◌, inl, false, Option, none, some, List, [],
  ◌∷◌, ◌++◌, ℤ, pos, negsuc, Text, codes, length, arith,
}
use exec_rest_api.Json.{
  Json, null, bool, str, int, obj, Fields, end, field, nat, list, word, get, or_null, each, says,
  cursor_error, ok, err,
}
use exec_rest_api.Encoding.{decimal, hex_to_int, map_address_lowercase}
use exec_rest_api.Cursor.{
  Loaded, json_value, undecodable, Codec, Cursor, cursor_payload, encode_cursor, decode_cursor,
  b64url_decode,
}
use exec_rest_api.Cursor.RoundTrip.{decode-encode_cursor}
use exec_rest_api.Cursor.Groups.{in_groups, in_groups-IsBase64}
use exec_rest_api.Errors.{Response, json}
use exec_rest_api.Exec.{Answers, Call, Upstream, result}
use exec_rest_api.Pagination.{
  PaginationResult, fetch_logs_paginated, fetch_range, fetch_loop, scan_page, log_position,
}
use exec_rest_api.Shapes.{log_from_rpc, to_dict, dict}
use exec_rest_api.Logs.Types.{Request, Config, Query, go}
use exec_rest_api.Logs.Limit.{page_limit}
use exec_rest_api.Logs.Handlers.{page, link_of, link_value, get_logs, post_logs_search}
use exec_rest_api.Logs.Page.{Links, KeepsFilter, page-Links}
use exec_rest_api.Logs.Laws.{
  IsRaised, boundary_call, logs_refuse_cursor, post_logs_search-refuses_filter, logs_detect_reorg,
}
use exec_rest_api.Logs.Search.{validate_logfilter_address}

abbrev query : Query
query = record { filter = end; from_block = pos 16; to_block = pos 20; skip_until = negsuc 0 }

abbrev log : Json
log = obj (
    field (codes "address") (word "0xABcdef0123456789abcdef0123456789abcdef01") (
      field (codes "topics") (list []) (
        field (codes "data") (word "0x") (
          field (codes "blockHash") (word "0xB1") (
            field (codes "blockNumber") (word "0x10") (
              field (codes "transactionHash") (word "0xC1") (
                field (codes "transactionIndex") (word "0x0")
                  (field (codes "logIndex") (word "0x2") end))))))))

-- the second call asks for the boundary block
abbrev node : Upstream
node [] c = result (list (log ∷ []))
node (d ∷ h) c = result (obj (field (codes "hash") (word "0xB1") end))

-- The payload's block, log index and hash, which are all that differs from page to page.
abbrev number_in : Option Json → Text
number_in (some (int (pos n))) = 0 ∷ n ∷ []
number_in (some (int (negsuc n))) = 1 ∷ n ∷ []
number_in _ = 0 ∷ 0 ∷ []

abbrev text_in : Option Json → Text
text_in (some (str s)) = s
text_in _ = []

abbrev dumps : Json → Text
dumps (obj fs) =
    number_in (get fs (codes "nextFromBlock"))
    ++ (number_in (get fs (codes "lastLogIndex")) ++ text_in (get fs (codes "boundaryBlockHash")))
dumps _ = 0 ∷ []

abbrev integer : ℕ → ℕ → ℤ
integer zero n = pos n
integer (suc k) n = negsuc n

abbrev loads : Text → Loaded
loads (a ∷ b ∷ c ∷ d ∷ s) = json_value (
    obj (
      cursor_payload (record {
        next_from_block = integer a b;
        last_log_index = integer c d;
        to_block = pos 20;
        boundary_block_hash = s;
        filter = end;
      })))
loads _ = undecodable

abbrev codec : Codec
codec = in_groups dumps loads

number-some : (o : Option Json) (s : Text) → (number_in o ++ s) ≢ []
number-some none s = λ e. ground arith
number-some (some (int (pos n))) s = λ e. ground arith
number-some (some (int (negsuc n))) s = λ e. ground arith
number-some (some _) s = λ e. ground arith

dumps-some : (v : Json) → dumps v ≢ []
dumps-some (obj fs) = number-some (get fs (codes "nextFromBlock")) _
dumps-some _ = λ e. ground arith

abbrev cursor_at : ℕ → ℤ → Text → Cursor
cursor_at b z hash = record {
  next_from_block = pos b;
  last_log_index = z;
  to_block = pos 20;
  boundary_block_hash = hash;
  filter = end;
}

kept :
    (b : ℕ) (z : ℤ) (hash : Text)
    → loads (dumps (obj (cursor_payload (cursor_at b z hash))))
      ≡ json_value (obj (cursor_payload (cursor_at b z hash)))
kept b (pos k) hash = refl
kept b (negsuc k) hash = refl

keeps : KeepsFilter codec node (codes "/logs") 1 query
keeps r b hash = kept b r.last_log_index hash

abbrev rest_log : Json
rest_log = obj (
    field (codes "address") (word "0xabcdef0123456789abcdef0123456789abcdef01") (
      field (codes "topics") (list []) (
        field (codes "data") (word "0x") (
          field (codes "blockHash") (word "0xb1") (
            field (codes "blockNumber") (nat 16) (
              field (codes "transactionHash") (word "0xc1") (
                field (codes "transactionIndex") (nat 0) (
                  field (codes "logIndex") (nat 2)
                    (field (codes "removed") (bool false) end)))))))))

abbrev next : Cursor
next = cursor_at 16 (pos 2) (codes "0xb1")

abbrev response : Response
response = record {
  status = 200;
  headers =
      (codes "X-Page-Size", decimal 1)
      ∷ (codes "Link", link_value (codes "/logs") (encode_cursor codec next))
      ∷ [];
  body = json (list (rest_log ∷ []));
}

answered : (page codec node (codes "/logs") 1 query []).0 ≡ ok response
unfolding page link_of fetch_logs_paginated fetch_range fetch_loop scan_page log_position
    log_from_rpc to_dict dict hex_to_int map_address_lowercase
answered = refl

abbrev calls : List Call
calls = (page codec node (codes "/logs") 1 query []).1

page-Links_example :
    (r : PaginationResult) × (logs : List Json) × (link : List (Text × Text))
    × ((fetch_logs_paginated node end (pos 16) (pos 20) 1 (negsuc 0) []).0 ≡ ok r)
    × (each log_from_rpc r.items ≡ ok logs)
    × (response.body ≡ json (list logs))
    × (length logs ≤ 1)
    × (response.headers ≡ (codes "X-Page-Size", decimal 1) ∷ link)
    × Links codec node
        (codes "/logs")
        1
        query
        r
        (fetch_logs_paginated node end (pos 16) (pos 20) 1 (negsuc 0) []).1
        link
page-Links_example =
    page-Links codec node (codes "/logs") 1 query [] calls response
      (in_groups-IsBase64 dumps loads dumps-some) keeps (ap (λ x. (x, calls)) answered)

abbrev parsed_int : Text → Option ℤ
parsed_int (c ∷ []) = some (pos (c - 48))
parsed_int _ = none

abbrev config : Config
config = record { default_page_size = 100; max_page_size = 1000 }

abbrev request : Option Text → Option Json → Request
request cursor body = record {
  path = codes "/logs";
  limit = some (codes "5");
  cursor = cursor;
  from_block = none;
  to_block = none;
  address = none;
  topics = none ∷ none ∷ none ∷ none ∷ [];
  body = body;
}

empty_cursor : decode_cursor codec [] ≡ err (cursor_error (says "cursor is empty" []))
unfolding decode_cursor b64url_decode
empty_cursor = refl

logs_refuse_cursor_example :
    (Answers 400 [] (get_logs codec parsed_int config node (request (some []) none) [])
      ⊎ IsRaised parsed_int config codec node []
          (cursor_error (says "cursor is empty" []))
          []
          (get_logs codec parsed_int config node (request (some []) none) []))
    × (Answers 400 [] (post_logs_search codec parsed_int config node (request (some []) none) [])
        ⊎ IsRaised parsed_int config codec node []
            (cursor_error (says "cursor is empty" []))
            []
            (post_logs_search codec parsed_int config node (request (some []) none) []))
logs_refuse_cursor_example =
    logs_refuse_cursor parsed_int config codec node (request (some []) none) [] [] refl empty_cursor

abbrev bad_body : Fields
bad_body = field (codes "address") (nat 7) end

bad_address :
    validate_logfilter_address (or_null (get bad_body (codes "address")))
    ≡ inl (says "address must be string or array of strings" [])
unfolding validate_logfilter_address
bad_address = refl

abbrev bad_topics : Fields
bad_topics = field (codes "topics") (list (null ∷ word "0x12" ∷ [])) end

post_logs_search-refuses_filter_example :
    Answers 400 []
      (post_logs_search codec parsed_int config node (request none (some (obj bad_topics))) [])
post_logs_search-refuses_filter_example =
    post_logs_search-refuses_filter parsed_int config codec node
      (request none (some (obj bad_topics))) bad_topics [] refl refl (inr refl)

abbrev empty_node : Upstream
empty_node h c = result null

abbrev link_request : Request
link_request = request (some (encode_cursor codec next)) none

limit_read : page_limit parsed_int config (codes "/logs") (some (codes "5")) ≡ go 5
unfolding page_limit
limit_read = refl

logs_detect_reorg_example :
    Answers 409
      (boundary_call next ∷ [])
      (get_logs codec parsed_int config empty_node link_request [])
    × Answers 409
        (boundary_call next ∷ [])
        (post_logs_search codec parsed_int config empty_node link_request [])
logs_detect_reorg_example =
    logs_detect_reorg parsed_int config codec empty_node link_request (encode_cursor codec next) 5
      next null [] limit_read refl
      (decode-encode_cursor codec (in_groups-IsBase64 dumps loads dumps-some) next
        (kept 16 (pos 2) _))
      refl (inl refl)
