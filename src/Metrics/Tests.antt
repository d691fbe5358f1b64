-- ===== src/Metrics/Tests.antt =====
-- metrics.py with natural numbers of milliseconds for Python's numbers.
use exec_rest_api.Base.{
  ℕ, ◌+◌, ◌*◌, ◌/◌, ◌≡◌, refl, none, some, List, [], ◌∷◌, ◌++◌, leb, pos, negsuc, Text, codes,
  if◌then◌else◌, text_eq, ◌%◌, ◌==◌,
}
use exec_rest_api.Encoding.{decimal}
use exec_rest_api.Encoding.Numerals.{print_10}
use exec_rest_api.Metrics.{new_metrics, inc_upstream, set_chain_head_block, render}
use exec_rest_api.Metrics.Dicts.{Labels, escape_label_value, format_labels}
use exec_rest_api.Metrics.Series.{
  Numbers, histogram, format_number, inc, set, render_counter, render_gauge, render_histogram,
}
use exec_rest_api.Metrics.Laws.{observe_all, of_labels, Tells, observe_all-Tells}

abbrev milliseconds : Text → ℕ
milliseconds s =
    if text_eq s (codes "0.005") then 5 else if text_eq s (codes "0.01") then 10 else 1000

abbrev numbers : Numbers
numbers = record {
  Number = ℕ;
  of_int = λ z. elim z [ pos n ↦ 1000 * n | negsuc n ↦ 0 ];
  literal = milliseconds;
  plus = λ a b. a + b;
  at_most = leb;
  integral = λ n. if n % 1000 == 0 then some (pos (n / 1000)) else none;
  rounded = λ n. codes "0." ++ decimal n;
}

abbrev call : Labels
call = (codes "method", codes "eth_call") ∷ []

abbrev seen : List (Labels × ℕ)
seen = (call, 7) ∷ ([], 900) ∷ (call, 3) ∷ []

observe_all-Tells_example :
    Tells numbers
      (observe_all numbers seen (histogram numbers [] []))
      call
      (of_labels numbers call seen)
observe_all-Tells_example = observe_all-Tells numbers [] [] seen call

call_values : of_labels numbers call seen ≡ 7 ∷ 3 ∷ []
call_values = refl

escaped : escape_label_value (codes "a\"b" ++ 10 ∷ 92 ∷ []) ≡ codes "a\\\"b\\n\\\\"
unfolding escape_label_value
escaped = refl

one_call :
    render numbers (
      inc_upstream numbers
        (codes "eth_call")
        (codes "ok")
        (set_chain_head_block numbers (pos 19) (new_metrics numbers)))
    ≡ (codes
          "# HELP exec_rest_api_upstream_requests_total Total JSON-RPC calls made to the upstream"
        ++ 10 ∷ [])
      ++ (codes "# TYPE exec_rest_api_upstream_requests_total counter" ++ 10 ∷ [])
      ++ (codes "exec_rest_api_upstream_requests_total{method=\"eth_call\",status=\"ok\"} 1"
          ++ 10 ∷ [])
      ++ (codes "# HELP exec_rest_api_chain_head_block Latest known chain head block number"
          ++ 10 ∷ [])
      ++ (codes "# TYPE exec_rest_api_chain_head_block gauge" ++ 10 ∷ [])
      ++ codes "exec_rest_api_chain_head_block 19"
      ++ 10 ∷ []
unfolding render inc_upstream set_chain_head_block inc set render_counter render_gauge
    render_histogram format_labels escape_label_value format_number print_10
one_call = refl
