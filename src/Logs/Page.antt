-- ===== src/Logs/Page.antt =====
-- handlers/logs.py: the page that a successful query answers with, and its link to the next page.
use exec_rest_api.Base.{
  false, pos, ℕ, ◌≤◌, ◌≡◌, refl, sym, ap, subst, ◌⊎◌, inl, inr, Option, none, some, List, [], ◌∷◌,
  Text, codes, arith, length,
}
use exec_rest_api.Json.{
  of_ok, Json, bool, null, str, obj, list, each, item, lower_of, Result, ok, err,
}
use exec_rest_api.Json
use exec_rest_api.Encoding.{decimal, hex}
use exec_rest_api.Cursor.{Codec, json_value, cursor_payload, encode_cursor, decode_cursor}
use exec_rest_api.Cursor.RoundTrip.{IsBase64, decode-encode_cursor}
use exec_rest_api.Errors.{Response, json}
use exec_rest_api.Exec.{call, Call, Upstream, >>=-eq-ok, lift, continue}
use exec_rest_api.Pagination.{PaginationResult, fetch_logs_paginated}
use exec_rest_api.Pagination.Total.{IsPage, fetch_logs_paginated_total}
use exec_rest_api.Shapes.{log_from_rpc}
use exec_rest_api.Shapes.Laws.{length-each}
use exec_rest_api.Logs.Types.{Query}
use exec_rest_api.Logs.Handlers.{link_value, link_of, next_link, next_cursor, page}

module _ (c : Codec) (u : Upstream) (base : Text) (limit : ℕ) (q : Query) where
  -- what the node answers for the boundary block, after the calls h
  abbrev pub boundary_at : ℕ → List Call → Result Json
  boundary_at b h = (call u "eth_getBlockByNumber" (str (hex b) ∷ bool false ∷ []) h).0

  -- No link, where the range is exhausted or the node has no boundary block; or a link whose cursor
  -- stands for the position behind the page and holds the hash of the boundary block in lower case.
  abbrev pub Links : PaginationResult → List Call → List (Text × Text) → Type 0
  Links r h link =
      ((link ≡ [])
        × ((r.next_from_block ≡ none)
            ⊎ ((b : ℕ) × (r.next_from_block ≡ some b) × (boundary_at b h ≡ ok null))))
      ⊎ ((b : ℕ) × (hash : Text) × (cursor : Text) × (block : Json) × (r.next_from_block ≡ some b)
          × (boundary_at b h ≡ ok block)
          × (Json.◌>>=◌ (item block (codes "hash")) lower_of ≡ ok hash)
          × (link ≡ (codes "Link", link_value base cursor) ∷ [])
          × (decode_cursor c cursor
              ≡ ok (record {
                next_from_block = pos b;
                last_log_index = r.last_log_index;
                to_block = q.to_block;
                boundary_block_hash = hash;
                filter = q.filter;
              })))

  -- the filter of a cursor is read back as it was written
  abbrev pub KeepsFilter : Type 0
  KeepsFilter =
      (r : PaginationResult) (b : ℕ) (hash : Text)
      → c.loads (c.dumps (obj (cursor_payload (next_cursor q r b hash))))
        ≡ json_value (obj (cursor_payload (next_cursor q r b hash)))

  Links-link_of :
      (r : PaginationResult) (b : ℕ) (rpc : Json) (h : List Call) {link : List (Text × Text)}
      → IsBase64 c
      → KeepsFilter
      → r.next_from_block ≡ some b
      → boundary_at b h ≡ ok rpc
      → link_of c u base limit q r b rpc ≡ ok link
      → Links r h link
  unfolding link_of
  Links-link_of r b null h i k n a e = inl (sym (of_ok e), inr (b, n, a))
  Links-link_of r b (obj fs) h i k n a e =
      let (hash, found, made) =
        Json.>>=-eq-ok (Json.◌>>=◌ (item (obj fs) (codes "hash")) lower_of)
          (λ hash.
            ok ((codes "Link", link_value base (encode_cursor c (next_cursor q r b hash))) ∷ []))
          e in
      inr (
        b,
        hash,
        encode_cursor c (next_cursor q r b hash),
        obj fs,
        n,
        a,
        found,
        sym (of_ok made),
        decode-encode_cursor c i (next_cursor q r b hash) (k r b hash),
      )
  Links-link_of r b _ h i k n a e = cc

  Links-reply :
      (r : PaginationResult) (b : ℕ) (v : Result Json) (g h : List Call) {link : List (Text × Text)}
      → IsBase64 c
      → KeepsFilter
      → r.next_from_block ≡ some b
      → boundary_at b h ≡ v
      → (continue v (λ rpc. lift (link_of c u base limit q r b rpc)) g).0 ≡ ok link
      → Links r h link
  Links-reply r b (ok rpc) g h i k n a e = Links-link_of r b rpc h i k n a e
  Links-reply r b (err x) g h i k n a e = cc

  Links-next_link :
      (r : PaginationResult) (o : Option ℕ) (h : List Call) {link : List (Text × Text)}
      → IsBase64 c
      → KeepsFilter
      → r.next_from_block ≡ o
      → (next_link c u base limit q r o h).0 ≡ ok link
      → Links r h link
  Links-next_link r none h i k n e = inl (sym (of_ok e), inl n)
  Links-next_link r (some b) h i k n e = Links-reply r b _ _ h i k n refl e

  bounded :
      (r : Result PaginationResult) (p : PaginationResult)
      → IsPage limit r
      → r ≡ ok p
      → length p.items ≤ limit
  bounded r p b e = (subst (IsPage limit) e b)

  -- When a query is answered by a page, the page is the conversion of the logs that were fetched, in
  -- their order, and at most `limit`; its headers show the limit and a link, whose cursor decodes to the
  -- position behind the page with the query's own filter and last block, and with the hash of the block
  -- at that position, which the node gave. There is no link only where the range is exhausted or the
  -- node gives null for that block.
  pub page-Links :
      (h h' : List Call) (resp : Response)
      → IsBase64 c
      → KeepsFilter
      → page c u base limit q h ≡ (ok resp, h')
      → (r : PaginationResult) × (logs : List Json) × (link : List (Text × Text))
        × ((fetch_logs_paginated u q.filter q.from_block q.to_block limit q.skip_until h).0 ≡ ok r)
        × (each log_from_rpc r.items ≡ ok logs)
        × (resp.body ≡ json (list logs))
        × (length logs ≤ limit)
        × (resp.headers ≡ (codes "X-Page-Size", decimal limit) ∷ link)
        × Links r
            (fetch_logs_paginated u q.filter q.from_block q.to_block limit q.skip_until h).1
            link
  unfolding page
  page-Links h h' resp i k e =
      let (r, fetched, rest) =
        >>=-eq-ok (fetch_logs_paginated u q.filter q.from_block q.to_block limit q.skip_until) _ h
          e in
      let (logs, converted, rest') = >>=-eq-ok (lift (each log_from_rpc r.items)) _ _ rest in
      let (link, linked, rest'') =
        >>=-eq-ok (next_link c u base limit q r r.next_from_block) _ _ rest' in
      let response = ap (λ x. x.0) rest'' in
      let bound =
        bounded _ r
          (fetch_logs_paginated_total u q.filter q.from_block q.to_block limit q.skip_until h)
          fetched in
      (
        r,
        logs,
        link,
        fetched,
        converted,
        ap (λ x. x.body) (sym (of_ok response)),
        omega (arith, length-each log_from_rpc r.items logs converted, bound),
        ap (λ x. x.headers) (sym (of_ok response)),
        Links-next_link r r.next_from_block _ i k refl linked,
      )
