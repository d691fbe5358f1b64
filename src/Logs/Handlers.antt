-- ===== src/Logs/Handlers.antt =====
-- handlers/logs.py: the two handlers, `get_logs` and `post_logs_search`.
use exec_rest_api.Base.{ℕ, false, Option, none, some, List, [], ◌∷◌, ◌++◌, ℤ, pos, Text, codes}
use exec_rest_api.Json.{
  Json, null, bool, int, float, str, arr, obj, Fields, end, field, get, item, items, list, lower_of,
  or_null, put, truthy, each, Message, says, wraps, Exn, block_id_error, type_error, exn_text,
  is_block_id_error, is_cursor_error, Result, ok, err,
}
use exec_rest_api.Json
use exec_rest_api.Encoding.{decimal, hex}
use exec_rest_api.Cursor.{Codec, Cursor, encode_cursor}
use exec_rest_api.Errors.{Response, json}
use exec_rest_api.Exec.{Upstream, Exec, call, pure, lift, ◌>>=◌}
use exec_rest_api.Pagination.{PaginationResult, fetch_logs_paginated}
use exec_rest_api.Shapes.{log_from_rpc}
use exec_rest_api.Logs.Types.{Request, Config, Step, reply, go, Query}
use exec_rest_api.Logs.Ranges.{resumed, fresh}
use exec_rest_api.Logs.Search.{searched}
use exec_rest_api.Logs.Limit.{page_limit}

-- the Link header of a page that is not the last
abbrev pub link_value : Text → Text → Text
link_value base cursor = codes "<" ++ base ++ codes "?cursor=" ++ cursor ++ codes ">; rel=\"next\""

abbrev pub next_cursor : Query → PaginationResult → ℕ → Text → Cursor
next_cursor q r b hash = record {
  next_from_block = pos b;
  last_log_index = r.last_log_index;
  to_block = q.to_block;
  boundary_block_hash = hash;
  filter = q.filter;
}

module _ (c : Codec) (u : Upstream) (base : Text) (limit : ℕ) (q : Query) where
  unfoldable pub link_of : PaginationResult → ℕ → Json → Result (List (Text × Text))
  link_of r b null = ok []
  link_of r b rpc =
      Json.◌>>=◌ (Json.◌>>=◌ (item rpc (codes "hash")) lower_of)
        λ hash. ok ((codes "Link", link_value base (encode_cursor c (next_cursor q r b hash))) ∷ [])

  abbrev pub next_link : PaginationResult → Option ℕ → Exec (List (Text × Text))
  next_link r none = pure []
  next_link r (some b) = do
    rpc ← call u "eth_getBlockByNumber" (str (hex b) ∷ bool false ∷ [])
    lift (link_of r b rpc)

  -- what both handlers do with a query
  unfoldable pub page : Exec Response
  page = do
    r ← fetch_logs_paginated u q.filter q.from_block q.to_block limit q.skip_until
    rest_items ← lift (each log_from_rpc r.items)
    link ← next_link r r.next_from_block
    pure (record {
      status = 200;
      headers = (codes "X-Page-Size", decimal limit) ∷ link;
      body = json (list rest_items);
    })

abbrev pub with_limit : Step ℕ → (ℕ → Exec Response) → Exec Response
with_limit (reply r) f = pure r
with_limit (go limit) f = f limit

module _ (c : Codec) (python_int : Text → Option ℤ) (config : Config) (u : Upstream) where
  abbrev pub answer : Text → ℕ → Step Query → Exec Response
  answer base limit (reply r) = pure r
  answer base limit (go q) = page c u base limit q

  abbrev pub query_of : Option Text → Text → Exec (Step Query) → Exec (Step Query)
  query_of none path new = new
  query_of (some raw) path new = resumed u c path raw

  unfoldable pub get_logs : Request → Exec Response
  get_logs req =
      with_limit (page_limit python_int config req.path req.limit)
        λ limit. query_of req.cursor req.path (fresh u req) >>= λ q. answer (codes "/logs") limit q

  unfoldable pub post_logs_search : Request → Exec Response
  post_logs_search req = with_limit (page_limit python_int config req.path req.limit) λ limit.
      query_of req.cursor req.path (searched u req) >>= λ q. answer (codes "/logs/search") limit q
