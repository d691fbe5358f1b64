-- ===== src/Traces.antt =====
-- handlers/traces.py: the pages of trace_filter. Python's int() of a text and of a trace field, and its
-- str() of a value that is no text, are parameters.
pub mod Page
pub mod Lookup
pub mod Calls
mod Tests
use exec_rest_api.Base.{
  ℕ, suc, ◌+◌, ◌-◌, String, Option, none, some, List, [], ◌∷◌, ◌++◌, ◌⊎◌, inl, inr, ℤ, pos, negsuc,
  Text, codes, if◌then◌else◌, ltb, leb, length, is_nil,
}
use exec_rest_api.Json.{
  Json, null, str, arr, obj, Fields, end, get, int, items, list, or_null, put, truthy, each,
  elements, nat, Message, says, wraps, exn_text, is_block_id_error, is_cursor_error, Result, ok,
  err,
}
use exec_rest_api.Json
use exec_rest_api.Encoding.{decimal, map_address_lowercase}
use exec_rest_api.BlockId.{parse_block_id}
use exec_rest_api.Cursor.{Codec, TraceCursor, encode_trace_cursor, decode_trace_cursor}
use exec_rest_api.Errors.{Response, json, bad_request}
use exec_rest_api.Exec.{Upstream, Exec, call, pure, lift, ◌>>=◌}
use exec_rest_api.Shapes.{trace_from_rpc}
use exec_rest_api.Logs.Types.{Config, Step, reply, go, next_step}
use exec_rest_api.Logs.Input.{parse_addresses_csv}
use exec_rest_api.Logs.Limit.{page_limit}
use exec_rest_api.Logs.Ranges.{signed_hex, or_bad_request, block_range, both_ids, or_text}
use exec_rest_api.Logs.Search.{or_word, validate_addresses}
use exec_rest_api.Logs.Handlers.{link_value, with_limit}

pub record TraceRequest : Type 0 where
  pub path : Text
  pub limit : Option Text
  pub cursor : Option Text
  pub from_block : Option Text
  pub to_block : Option Text
  pub from_address : Option Text
  pub to_address : Option Text
  -- await request.json(), `none` when it raises
  pub body : Option Json

-- after + limit
abbrev pub advance : ℤ → ℕ → ℤ
advance (pos n) k = pos (n + k)
advance (negsuc n) k = if leb k n then negsuc (n - k) else pos (k - suc n)

abbrev pub rpc_filter : TraceCursor → ℕ → Json
rpc_filter q limit =
    let ranged =
      put (put q.filter (codes "fromBlock") (str (signed_hex q.from_block))) (codes "toBlock")
        (str (signed_hex q.to_block)) in
    obj (put (put ranged (codes "after") (int q.after)) (codes "count") (nat limit))

-- rpc or []
abbrev pub or_empty : Json → Json
or_empty v = if truthy v then v else list []

abbrev pub next_trace_cursor : TraceCursor → ℕ → TraceCursor
next_trace_cursor q limit = record q { after = advance q.after limit }

-- the query of a cursor, which is the cursor itself
unfoldable pub resumed_traces : Codec → Text → Text → Exec (Step TraceCursor)
resumed_traces c path raw =
    or_bad_request is_cursor_error path (λ e. wraps "invalid cursor: {e}" (exn_text e))
      (decode_trace_cursor c raw)

module _ (c : Codec) (python_int : Json → Result ℤ) (u : Upstream) where
  abbrev pub trace_link : Text → ℕ → TraceCursor → List Json → List (Text × Text)
  trace_link base limit q found =
      if leb limit (length found)
      then (codes "Link", link_value base (encode_trace_cursor c (next_trace_cursor q limit))) ∷ []
      else []

  unfoldable pub traces_of : Json → Result (List Json)
  traces_of rpc = Json.◌>>=◌ (elements (or_empty rpc)) λ ts. each (trace_from_rpc python_int) ts

  -- what both handlers do with a query
  unfoldable pub trace_page : Text → ℕ → TraceCursor → Exec Response
  trace_page base limit q = do
    rpc ← call u "trace_filter" (rpc_filter q limit ∷ [])
    found ← lift (traces_of rpc)
    pure (record {
      status = 200;
      headers = (codes "X-Page-Size", decimal limit) ∷ trace_link base limit q found;
      body = json (list found);
    })

-- the filter of a new query, which starts at its first trace
abbrev new_query : Fields → ℕ × ℕ → TraceCursor
new_query filter (from, to) = record {
  after = pos 0;
  from_block = pos from;
  to_block = pos to;
  filter = filter;
}

abbrev put_list : String → Option (List Json) → Fields → Fields
put_list name none filter = filter
put_list name (some addresses) filter = put filter (codes name) (list addresses)

abbrev csv_query :
    Text → ℕ × ℕ → Message ⊎ Option (List Json) → Message ⊎ Option (List Json) → Step TraceCursor
csv_query path range (inl m) to = reply (bad_request path m)
csv_query path range (inr from) (inl m) = reply (bad_request path m)
csv_query path range (inr from) (inr to) =
    go (new_query (put_list "toAddress" to (put_list "fromAddress" from end)) range)

unfoldable pub validate_address_list : Json → Message ⊎ List Json
validate_address_list null = inr []
validate_address_list (arr vs) = validate_addresses (items vs)
validate_address_list v = inl (says "address list must be an array" [])

-- an empty list is left away
abbrev unless_empty : List Json → Option (List Json)
unless_empty [] = none
unless_empty (a ∷ addresses) = some (a ∷ addresses)

abbrev trace_body_query :
    Text → Message ⊎ List Json → Message ⊎ List Json → ℕ × ℕ → Step TraceCursor
trace_body_query path (inl m) to range = reply (bad_request path m)
trace_body_query path (inr from) (inl m) range = reply (bad_request path m)
trace_body_query path (inr from) (inr to) range = go (
    new_query
      (put_list "toAddress" (unless_empty to) (put_list "fromAddress" (unless_empty from) end))
      range)

module _ (u : Upstream) (python_str : Json → Text) where
  -- the branch of `get_traces` without a cursor
  unfoldable pub fresh_traces : TraceRequest → Exec (Step TraceCursor)
  fresh_traces req = do
    range ← block_range u req.path (
        both_ids u (parse_block_id (or_text u "earliest" req.from_block))
          (parse_block_id (or_text u "latest" req.to_block)))
    next_step range λ r. pure (
        csv_query req.path r (parse_addresses_csv req.from_address)
          (parse_addresses_csv req.to_address))

  -- str(v)
  abbrev str_of : Json → Text
  str_of (str s) = s
  str_of v = python_str v

  -- the branch of `post_traces_search` behind the check that the body is an object
  unfoldable pub searched_traces : Text → Fields → Exec (Step TraceCursor)
  searched_traces path body = do
    range ← block_range u path (
        both_ids u (parse_block_id (str_of (or_word u "earliest" (get body (codes "fromBlock")))))
          (parse_block_id (str_of (or_word u "latest" (get body (codes "toBlock"))))))
    next_step range λ r. pure (
        trace_body_query path (validate_address_list (or_null (get body (codes "fromAddress"))))
          (validate_address_list (or_null (get body (codes "toAddress")))) r)

  abbrev of_trace_body : Text → Option Json → Exec (Step TraceCursor)
  of_trace_body path none =
      pure (reply (bad_request path (says "request body must be valid JSON" [])))
  of_trace_body path (some (obj fs)) = searched_traces path fs
  of_trace_body path (some v) =
      pure (reply (bad_request path (says "request body must be a JSON object" [])))

  module _ (c : Codec) (text_int : Text → Option ℤ) (python_int : Json → Result ℤ)
      (config : Config) where
    abbrev pub answer_traces : Text → ℕ → Step TraceCursor → Exec Response
    answer_traces base limit (reply r) = pure r
    answer_traces base limit (go q) = trace_page c python_int u base limit q

    abbrev trace_query : Option Text → Text → Exec (Step TraceCursor) → Exec (Step TraceCursor)
    trace_query none path new = new
    trace_query (some raw) path new = resumed_traces c path raw

    unfoldable pub get_traces : TraceRequest → Exec Response
    get_traces req = with_limit (page_limit text_int config req.path req.limit) λ limit.
        trace_query req.cursor req.path (fresh_traces req) >>= λ q.
        answer_traces (codes "/traces") limit q

    unfoldable pub post_traces_search : TraceRequest → Exec Response
    post_traces_search req = with_limit (page_limit text_int config req.path req.limit) λ limit.
        trace_query req.cursor req.path (of_trace_body req.path req.body) >>= λ q.
        answer_traces (codes "/traces/search") limit q
