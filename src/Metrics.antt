-- ===== src/Metrics.antt =====
-- metrics.py: the registry of all metrics, and its text.
pub mod Dicts
pub mod Series
pub mod Laws
mod Tests
use exec_rest_api.Base.{
  ℕ, suc, ◌+◌, Bool, true, false, Option, none, some, List, [], ◌∷◌, ◌++◌, ◌&&◌, ◌||◌, Text, codes,
  text_eq, ℤ, pos, negsuc, map, ltb, if◌then◌else◌, ◌==◌, replicate, length,
}
use exec_rest_api.Encoding.{decimal}
use exec_rest_api.Metrics.Dicts.{Labels, int_text}
use exec_rest_api.Metrics.Series.{
  Numbers, Counter, inc, render_counter, Gauge, set, render_gauge, Histogram, histogram, observe,
  render_histogram,
}

module _ (N : Numbers) where
  pub record Metrics : Type 0 where
    pub requests : Counter
    pub request_duration : Histogram N
    pub upstream_requests : Counter
    pub upstream_duration : Histogram N
    pub sse_connections : Gauge N
    pub upstream_subscriptions : Gauge N
    pub chain_head_block : Gauge N

  abbrev new_counter : Text → Text → Counter
  new_counter name help_text = record { name = name; help_text = help_text; values = [] }

  abbrev new_gauge : Text → Text → Gauge N
  new_gauge name help_text = record { name = name; help_text = help_text; values = [] }

  abbrev pub new_metrics : Metrics
  new_metrics = record {
    requests =
        new_counter (codes "exec_rest_api_requests_total")
          (codes "Total HTTP requests handled by the proxy");
    request_duration =
        histogram N (codes "exec_rest_api_request_duration_seconds")
          (codes "HTTP request duration in seconds");
    upstream_requests =
        new_counter (codes "exec_rest_api_upstream_requests_total")
          (codes "Total JSON-RPC calls made to the upstream");
    upstream_duration =
        histogram N (codes "exec_rest_api_upstream_duration_seconds")
          (codes "Upstream JSON-RPC call duration in seconds");
    sse_connections =
        new_gauge (codes "exec_rest_api_sse_connections")
          (codes "Live SSE client connections per stream");
    upstream_subscriptions =
        new_gauge (codes "exec_rest_api_upstream_subscriptions")
          (codes "Active upstream eth_subscribe subscriptions per stream kind");
    chain_head_block =
        new_gauge (codes "exec_rest_api_chain_head_block")
          (codes "Latest known chain head block number");
  }

  unfoldable pub inc_request : Text → Text → ℤ → Metrics → Metrics
  inc_request method path_template status m =
      let labels : Labels =
        (codes "method", method)
        ∷ (codes "path_template", path_template)
        ∷ (codes "status", int_text status)
        ∷ [] in
      record m { requests = inc labels 1 m.requests }

  unfoldable pub observe_request_duration : N.Number → Metrics → Metrics
  observe_request_duration seconds m = record m {
    request_duration = observe N [] seconds m.request_duration;
  }

  unfoldable pub inc_upstream : Text → Text → Metrics → Metrics
  inc_upstream method status m =
      let labels : Labels = (codes "method", method) ∷ (codes "status", status) ∷ [] in
      record m { upstream_requests = inc labels 1 m.upstream_requests }

  unfoldable pub observe_upstream_duration : Text → N.Number → Metrics → Metrics
  observe_upstream_duration method seconds m = record m {
    upstream_duration = observe N ((codes "method", method) ∷ []) seconds m.upstream_duration;
  }

  unfoldable pub set_sse_connections : Text → ℤ → Metrics → Metrics
  set_sse_connections stream value m = record m {
    sse_connections = set N ((codes "stream", stream) ∷ []) (N.of_int value) m.sse_connections;
  }

  unfoldable pub set_upstream_subscriptions : Text → ℤ → Metrics → Metrics
  set_upstream_subscriptions stream value m = record m {
    upstream_subscriptions =
        set N ((codes "stream", stream) ∷ []) (N.of_int value) m.upstream_subscriptions;
  }

  unfoldable pub set_chain_head_block : ℤ → Metrics → Metrics
  set_chain_head_block value m = record m {
    chain_head_block = set N [] (N.of_int value) m.chain_head_block;
  }

  -- the lines of all sections, each with its line feed
  abbrev ended : List Text → Text
  ended [] = []
  ended (t ∷ ts) = t ++ 10 ∷ ended ts

  unfoldable pub render : Metrics → Text
  render m = ended (
      render_counter m.requests
      ++ render_histogram N m.request_duration
      ++ render_counter m.upstream_requests
      ++ render_histogram N m.upstream_duration
      ++ render_gauge N m.sse_connections
      ++ render_gauge N m.upstream_subscriptions
      ++ render_gauge N m.chain_head_block)
