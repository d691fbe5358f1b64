-- ===== src/Traces/Page.antt =====
-- handlers/traces.py: a page of traces, and its link to the next page.
use exec_rest_api.Base.{
  ℕ, suc, ◌+◌, pos, negsuc, Option, text_eq, if◌then◌else◌, ◌≤◌, ◌<◌, ◌≡◌, refl, sym, ap, ap₂, ◌⊎◌,
  inl, inr, Bool-cases, leb, leb→le, some, List, [], ◌∷◌, Text, codes, ℤ, arith, length,
}
use exec_rest_api.Json.{
  of_ok, Json, int, str, obj, Fields, get, put, list, elements, truthy, each, Result, ok,
}
use exec_rest_api.Json
use exec_rest_api.Json.Laws.{get-put}
use exec_rest_api.Encoding.{decimal}
use exec_rest_api.Cursor.{Codec, json_value, TraceCursor, trace_cursor_payload, encode_trace_cursor}
use exec_rest_api.Cursor.RoundTrip.{IsBase64, decode-encode_trace_cursor}
use exec_rest_api.Errors.{Response, json}
use exec_rest_api.Exec.{call, Call, Upstream, >>=-eq-ok, lift}
use exec_rest_api.Logs.Types.{go}
use exec_rest_api.Logs.Ranges.{signed_hex}
use exec_rest_api.Shapes.{trace_from_rpc}
use exec_rest_api.Logs.Handlers.{link_value}
use exec_rest_api.Traces.{
  advance, rpc_filter, next_trace_cursor, resumed_traces, trace_link, traces_of, trace_page,
}

-- the second number is the first one moved k further
abbrev pub Adds : ℤ → ℕ → ℤ → Type 0
Adds (pos n) k (pos m) = m ≡ n + k
Adds (pos n) k (negsuc m) = ⊥
Adds (negsuc n) k (pos m) = m + suc n ≡ k
Adds (negsuc n) k (negsuc m) = m + k ≡ n

Adds-advance : (z : ℤ) (k : ℕ) → Adds z k (advance z k)
Adds-advance (pos n) k = refl
Adds-advance (negsuc n) k = elim (Bool-cases (leb k n)) [
  | inl e ↦ rw e (ground (arith, e))
  | inr e ↦ rw e (ground (arith, e))
]

-- what trace_filter is asked for under a key: `limit` traces of the query from its `after`, in its
-- range, and otherwise what its filter holds
abbrev pub asked_for : TraceCursor → ℕ → Text → Option Json
asked_for q limit k =
    if text_eq (codes "count") k
    then some (int (pos limit))
    else if text_eq (codes "after") k
    then some (int q.after)
    else if text_eq (codes "toBlock") k
    then some (str (signed_hex q.to_block))
    else if text_eq (codes "fromBlock") k
    then some (str (signed_hex q.from_block))
    else get q.filter k

-- the object of trace_filter that asks for this and nothing else
abbrev pub Asks : TraceCursor → ℕ → Json → Type 0
Asks q limit params =
    (fields : Fields) × (params ≡ obj fields) × ((k : Text) → get fields k ≡ asked_for q limit k)

Asks-rpc_filter : (q : TraceCursor) (limit : ℕ) → Asks q limit (rpc_filter q limit)
Asks-rpc_filter q limit =
    let from = put q.filter (codes "fromBlock") (str (signed_hex q.from_block)) in
    let to = put from (codes "toBlock") (str (signed_hex q.to_block)) in
    let after = put to (codes "after") (int q.after) in
    (
      put after (codes "count") (int (pos limit)),
      refl,
      λ k. rw (get-put after (codes "count") k (int (pos limit))) (
          rw (get-put to (codes "after") k (int q.after)) (
            rw (get-put from (codes "toBlock") k (str (signed_hex q.to_block)))
              (rw (get-put q.filter (codes "fromBlock") k (str (signed_hex q.from_block))) refl))),
    )

module _ (c : Codec) (python_int : Json → Result ℤ) (u : Upstream) (base : Text) (limit : ℕ)
    (q : TraceCursor) where
  -- a cursor of the same filter and range is read back as it was written
  abbrev pub KeepsQuery : Type 0
  KeepsQuery =
      (z : ℤ)
      → c.loads (c.dumps (obj (trace_cursor_payload (record q { after = z }))))
        ≡ json_value (obj (trace_cursor_payload (record q { after = z })))

  -- No link after a short page; after a full one, a link with which a request goes on `limit` traces
  -- further, in the same filter and range.
  abbrev pub Resumes : Text → List Call → List Json → List (Text × Text) → Type 0
  Resumes path g found link =
      ((length found < limit) × (link ≡ []))
      ⊎ ((limit ≤ length found)
          × (cursor : Text) × (z : ℤ) × Adds q.after limit z
          × (link ≡ (codes "Link", link_value base cursor) ∷ [])
          × (resumed_traces c path cursor g ≡ (ok (go (record q { after = z })), g)))

  resumed_traces-link :
      (path : Text) (g : List Call)
      → IsBase64 c
      → KeepsQuery
      → resumed_traces c path (encode_trace_cursor c (next_trace_cursor q limit)) g
        ≡ (ok (go (next_trace_cursor q limit)), g)
  unfolding resumed_traces
  resumed_traces-link path g i k =
      rw (decode-encode_trace_cursor c i (next_trace_cursor q limit) (k (advance q.after limit)))
        refl

  trace_link-Resumes :
      (path : Text) (g : List Call) (found : List Json)
      → IsBase64 c
      → KeepsQuery
      → Resumes path g found (trace_link c python_int u base limit q found)
  trace_link-Resumes path g found i k = elim (Bool-cases (leb limit (length found))) [
    | inl e ↦ rw e (
        inr (
          leb→le limit (length found) e,
          encode_trace_cursor c (next_trace_cursor q limit),
          advance q.after limit,
          Adds-advance q.after limit,
          refl,
          resumed_traces-link path g i k,
        ))
    | inr e ↦ rw e (inl (ground (arith, e), refl))
  ]

  -- When a query of traces is answered, one call of trace_filter was made, for `limit` traces of the
  -- query's filter and range from its `after`. The page is the conversion of each trace that it gave, in
  -- their order, where a null stands for none; and the headers show the limit. A page of fewer than
  -- `limit` traces has no link. Another has one, and a request with its cursor goes on with the same
  -- filter and range, `limit` traces further.
  pub trace_page-Resumes :
      (path : Text) (g h h' : List Call) (resp : Response)
      → IsBase64 c
      → KeepsQuery
      → trace_page c python_int u base limit q h ≡ (ok resp, h')
      → (params rpc : Json) × (traces found : List Json) × (link : List (Text × Text)) × Asks q
          limit params
        × (call u "trace_filter" (params ∷ []) h ≡ (ok rpc, h'))
        × (elements (if truthy rpc then rpc else list []) ≡ ok traces)
        × (each (trace_from_rpc python_int) traces ≡ ok found)
        × (resp.body ≡ json (list found))
        × (resp.headers ≡ (codes "X-Page-Size", decimal limit) ∷ link)
        × Resumes path g found link
  unfolding trace_page traces_of
  trace_page-Resumes path g h h' resp i k e =
      let (rpc, called, rest) = >>=-eq-ok (call u "trace_filter" (rpc_filter q limit ∷ [])) _ h e in
      let (found, converted, rest') = >>=-eq-ok (lift (traces_of c python_int u rpc)) _ _ rest in
      let (traces, listed, each_one) =
        Json.>>=-eq-ok (elements (if truthy rpc then rpc else list []))
          (each (trace_from_rpc python_int)) converted in
      let response = of_ok (ap (λ x. x.0) rest') in
      (
        rpc_filter q limit,
        rpc,
        traces,
        found,
        trace_link c python_int u base limit q found,
        Asks-rpc_filter q limit,
        ap₂ (λ a b. (a, b)) called (ap (λ x. x.1) rest'),
        listed,
        each_one,
        ap (λ x. x.body) (sym response),
        ap (λ x. x.headers) (sym response),
        trace_link-Resumes path g found i k,
      )
