-- ===== src/Computed.antt =====
-- handlers/computed.py: /call, /gas-estimate, /access-list and /debug-traces/call, where a revert is an
-- answer. The decoding of UTF-8 is a parameter, as in Revert.
pub mod Request
pub mod Simulate
pub mod Laws
mod Tests
use exec_rest_api.Base.{
  Bool, true, false, Option, none, some, List, [], ◌∷◌, ◌++◌, ◌||◌, ◌⊎◌, inl, inr, ℕ, String, Text,
  codes, lower, if◌then◌else◌,
}
use exec_rest_api.Json.{
  Json, null, str, arr, obj, Fields, end, field, get, has, put, list, items, or_null, truthy, each,
  elements, item, nat, lower_of, Message, says, Exn, encoding_error, block_id_error,
  delegation_error, cursor_error, value_error, config_error, key_error, rpc_error, type_error,
  exn_text, Result, ok, err, get_or,
}
use exec_rest_api.Json
use exec_rest_api.Encoding.{hex_to_int, map_address_lowercase}
use exec_rest_api.BlockId.{parse_block_id, to_rpc_param}
use exec_rest_api.Errors.{Response, json_response, bad_request, bad_gateway}
use exec_rest_api.Exec.{Upstream, Exec, call, pure, raise, lift, ◌>>=◌}
use exec_rest_api.Logs.Types.{Step, reply, go}
use exec_rest_api.Logs.Ranges.{or_bad_request}
use exec_rest_api.Logs.Search.{parse_block_id_of}
use exec_rest_api.Revert.{is_revert, is_out_of_gas, revert_body}
use exec_rest_api.Computed.Request.{call_request_to_rpc}

-- `except (ValueError, KeyError)`
abbrev pub is_value_or_key_error : Exn → Bool
is_value_or_key_error (encoding_error m) = true
is_value_or_key_error (block_id_error m) = true
is_value_or_key_error (delegation_error m) = true
is_value_or_key_error (cursor_error m) = true
is_value_or_key_error (value_error m) = true
is_value_or_key_error (config_error m) = true
is_value_or_key_error (key_error k) = true
is_value_or_key_error e = false

abbrev pub then_step : {A : Type 0} → (A → Exec Response) → Step A → Exec Response
then_step f (reply r) = pure r
then_step f (go a) = f a

-- the response of an upstream that gave no text
abbrev no_text : Text → String → Exec Response
no_text path detail = pure (bad_gateway path (says detail []))

unfoldable pub call_data : Text → Json → Exec Response
call_data path (str s) = pure (json_response (obj (field (codes "data") (str (lower s)) end)))
call_data path v = no_text path "eth_call returned non-string result"

unfoldable pub gas_of : Text → Json → Exec Response
gas_of path (str s) =
    lift (hex_to_int (str s)) >>= λ n. pure (json_response (obj (field (codes "gas") (nat n) end)))
gas_of path v = no_text path "eth_estimateGas returned non-string result"

-- entry.get("storageKeys", [])
abbrev keys_of : Json → Result (List Json)
keys_of entry =
    Json.◌>>=◌ (get_or entry (codes "storageKeys") (list []))
      λ ks. Json.◌>>=◌ (elements ks) λ vs. each (λ k. Json.◌>>=◌ (lower_of k) λ s. ok (str s)) vs

abbrev access_entry_from_rpc : Json → Result Json
access_entry_from_rpc entry = Json.◌>>=◌ (item entry (codes "address")) λ raw.
    Json.◌>>=◌ (map_address_lowercase raw) λ a. Json.◌>>=◌ (keys_of entry) λ keys.
      ok (obj (field (codes "address") (str a) (field (codes "storageKeys") (list keys) end)))

abbrev with_error : Json → Fields → Fields
with_error null out = out
with_error e out = put out (codes "error") e

unfoldable pub access_list_from_rpc : Json → Result Json
access_list_from_rpc rpc = Json.◌>>=◌ (get_or rpc (codes "accessList") null) λ raw.
    Json.◌>>=◌ (elements (if truthy raw then raw else list [])) λ entries.
      Json.◌>>=◌ (each access_entry_from_rpc entries) λ converted.
        Json.◌>>=◌ (item rpc (codes "gasUsed")) λ gas. Json.◌>>=◌ (hex_to_int gas) λ n.
          Json.◌>>=◌ (get_or rpc (codes "error") null) λ e. ok (
            obj (
              with_error e (
                field (codes "accessList") (list converted) (field (codes "gasUsed") (nat n) end))))

-- the tracer's options, `none` for a 400
abbrev tracer_of : Json → Option Json
tracer_of null = some (obj end)
tracer_of (obj fs) = some (obj fs)
tracer_of v = none

-- parse_block_id(body.get("at", "latest")).to_rpc_param()
abbrev pub block_of : Option Json → Result Text
block_of none = Json.◌>>=◌ (parse_block_id (codes "latest")) λ b. ok (to_rpc_param b)
block_of (some v) = Json.◌>>=◌ (parse_block_id_of v) λ b. ok (to_rpc_param b)

abbrev traced_call : Fields → Result (Json × Text)
traced_call body =
    Json.◌>>=◌ (call_request_to_rpc (or_null (get body (codes "call"))))
      λ (rpc, inside). Json.◌>>=◌ (block_of (get body (codes "at"))) λ at. ok (rpc, at)

module _ (decode_utf8 : List ℕ → Text) (u : Upstream) (path : Text) where
  -- `except UpstreamJsonRpcError`: a revert is an answer, and anything else is raised
  abbrev pub unless_reverted : Result Json → (Json → Exec Response) → Exec Response
  unless_reverted (ok v) f = f v
  unless_reverted (err (rpc_error code message blob)) f =
      if is_revert code message || is_out_of_gas message
      then pure (json_response (obj (revert_body decode_utf8 message blob)))
      else raise (rpc_error code message blob)
  unless_reverted (err e) f = raise e

  abbrev pub computed : String → List Json → (Json → Exec Response) → Exec Response
  computed method params f h = let (r, h') = call u method params h in unless_reverted r f h'

  -- the body as JSON, `none` when that raises
  unfoldable pub read_call_request : Option Json → Exec (Step (Json × Text))
  read_call_request none =
      pure (reply (bad_request path (says "request body must be valid JSON" [])))
  read_call_request (some body) =
      or_bad_request is_value_or_key_error path exn_text (call_request_to_rpc body)

  unfoldable pub post_call : Option Json → Exec Response
  post_call body =
      read_call_request body
      >>= then_step λ (rpc, at). computed "eth_call" (rpc ∷ str at ∷ []) (call_data path)

  unfoldable pub gas_estimate : Option Json → Exec Response
  gas_estimate body =
      read_call_request body
      >>= then_step λ (rpc, at). computed "eth_estimateGas" (rpc ∷ str at ∷ []) (gas_of path)

  unfoldable pub access_list : Option Json → Exec Response
  access_list body =
      read_call_request body
      >>= then_step λ (rpc, at).
        computed "eth_createAccessList" (rpc ∷ str at ∷ [])
          λ v. lift (access_list_from_rpc v) >>= λ w. pure (json_response w)

  abbrev call_traced : Option Json → Json → Text → Exec Response
  call_traced none rpc at = pure (bad_request path (says "`tracer` must be an object" []))
  call_traced (some tracer) rpc at =
      computed "debug_traceCall" (rpc ∷ str at ∷ tracer ∷ []) λ v. pure (json_response v)

  abbrev traced_body : Fields → Exec Response
  traced_body fs =
      if has fs (codes "call")
      then (or_bad_request is_value_or_key_error path exn_text (traced_call fs)
          >>= then_step
              (λ (rpc, at). call_traced (tracer_of (or_null (get fs (codes "tracer")))) rpc at))
      else pure (bad_request path (says "field `call` is required" []))

  unfoldable pub debug_traces_call : Option Json → Exec Response
  debug_traces_call none = pure (bad_request path (says "request body must be valid JSON" []))
  debug_traces_call (some (obj fs)) = traced_body fs
  debug_traces_call (some v) = pure (bad_request path (says "field `call` is required" []))
