-- ===== src/Traces/Tests.antt =====
-- handlers/traces.py with a node that has one trace for every filter.
use exec_rest_api.Base.{
  suc, negsuc, ◌≢◌, if◌then◌else◌, zero, ◌≡◌, refl, some, List, [], ◌∷◌, strip, Option, ℤ, pos,
  Text, codes, arith,
}
use exec_rest_api.Json.{
  Json, get, elements, truthy, each, obj, int, field, end, list, nat, word, Result, ok, err,
  type_error,
}
use exec_rest_api.Encoding.{decimal, coerce_rpc_int}
use exec_rest_api.Cursor.{
  Codec, Loaded, json_value, undecodable, TraceCursor, trace_cursor_payload, encode_trace_cursor,
}
use exec_rest_api.Cursor.Groups.{in_groups, in_groups-IsBase64}
use exec_rest_api.Errors.{Response, json}
use exec_rest_api.Exec.{Upstream, Call, call, result}
use exec_rest_api.Logs.Handlers.{link_value}
use exec_rest_api.Shapes.{trace_from_rpc, to_dict, dict}
use exec_rest_api.Traces.{rpc_filter, next_trace_cursor, traces_of, trace_page}
use exec_rest_api.Traces.Page.{Asks, KeepsQuery, Resumes, trace_page-Resumes}
use exec_rest_api.Traces.Lookup.{trace_address, validate_tracers, known_tracers}

abbrev trace : Json
trace = obj (
    field (codes "action") (obj end) (
      field (codes "type") (word "call") (
        field (codes "subtraces") (nat 0) (
          field (codes "traceAddress") (list []) (
            field (codes "transactionHash") (word "0xab") (
              field (codes "blockHash") (word "0xcd")
                (field (codes "blockNumber") (nat 7) end)))))))

abbrev node : Upstream
node h c = result (list (trace ∷ []))

abbrev query : TraceCursor
query = record { after = pos 3; from_block = pos 1; to_block = pos 9; filter = end }

abbrev to_int : Json → Result ℤ
to_int (int z) = ok z
to_int v = err type_error

abbrev written : Option Json → Text
written (some (int (pos n))) = 0 ∷ n ∷ []
written (some (int (negsuc n))) = 1 ∷ n ∷ []
written v = 2 ∷ []

abbrev dumps : Json → Text
dumps (obj fs) = written (get fs (codes "after"))
dumps v = 2 ∷ []

abbrev known : ℤ → Loaded
known z = json_value (obj (trace_cursor_payload (record query { after = z })))

abbrev loads : Text → Loaded
loads (zero ∷ n ∷ []) = known (pos n)
loads (suc k ∷ n ∷ []) = known (negsuc n)
loads _ = undecodable

abbrev codec : Codec
codec = in_groups dumps loads

written-some : (v : Option Json) → written v ≢ []
written-some (some (int (pos n))) = λ e. ground arith
written-some (some (int (negsuc n))) = λ e. ground arith
written-some _ = λ e. ground arith

dumps-some : (v : Json) → dumps v ≢ []
dumps-some (obj fs) = written-some (get fs (codes "after"))
dumps-some _ = λ e. ground arith

keeps : KeepsQuery codec to_int node (codes "/traces") 1 query
keeps (pos n) = refl
keeps (negsuc n) = refl

abbrev page_answer : Response
page_answer = record {
  status = 200;
  headers =
      (codes "X-Page-Size", decimal 1)
      ∷ (
        codes "Link",
        link_value (codes "/traces") (encode_trace_cursor codec (next_trace_cursor query 1)),
      )
      ∷ [];
  body = json (list (trace ∷ []));
}

answered :
    trace_page codec to_int node (codes "/traces") 1 query []
    ≡ (ok page_answer, record { method = "trace_filter"; params = rpc_filter query 1 ∷ [] } ∷ [])
unfolding trace_page traces_of trace_from_rpc to_dict dict coerce_rpc_int
answered = refl

abbrev calls : List Call
calls = record { method = "trace_filter"; params = rpc_filter query 1 ∷ [] } ∷ []

trace_page-Resumes_example :
    (params rpc : Json) × (traces found : List Json) × (link : List (Text × Text)) × Asks query 1
      params
    × (call node "trace_filter" (params ∷ []) [] ≡ (ok rpc, calls))
    × (elements (if truthy rpc then rpc else list []) ≡ ok traces)
    × (each (trace_from_rpc to_int) traces ≡ ok found)
    × (page_answer.body ≡ json (list found))
    × (page_answer.headers ≡ (codes "X-Page-Size", decimal 1) ∷ link)
    × Resumes codec to_int node (codes "/traces") 1 query (codes "/traces") [] found link
trace_page-Resumes_example =
    trace_page-Resumes codec to_int node (codes "/traces") 1 query (codes "/traces") [] [] calls
      page_answer (in_groups-IsBase64 dumps loads dumps-some) keeps answered

address_read : trace_address (codes "0, 12") ≡ ok (nat 0 ∷ nat 12 ∷ [])
unfolding trace_address strip
address_read = refl

unhashable_tracer : validate_tracers (list (list [] ∷ [])) ≡ err type_error
unfolding validate_tracers known_tracers
unhashable_tracer = refl
