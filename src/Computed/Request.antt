-- ===== src/Computed/Request.antt =====
-- handlers/computed.py: the conversion of a CallRequest to the call object of the JSON-RPC methods. The
-- fields are converted in the order of the code, which is the order in which the first error is raised.
use exec_rest_api.Base.{
  Option, none, some, List, [], ◌∷◌, String, Text, codes, lower, if◌then◌else◌,
}
use exec_rest_api.Json.{
  Json, null, str, arr, obj, Fields, end, field, get, has, put, items, list, or_null, each, nat,
  lower_of, says, value_error, Result, ok, err, ◌>>=◌, attribute_error,
}
use exec_rest_api.Encoding.{decimal_to_hex, parse_input_int, parse_input_wei, map_address_lowercase}
use exec_rest_api.BlockId.{parse_block_id, to_rpc_param}
use exec_rest_api.Delegation.{is_hex_bytes}

-- if f in body and body[f] is not None: out[f] = …
abbrev converted : String → (Json → Result Json) → Fields → Json → Result Fields
converted f convert out null = ok out
converted f convert out v = do w ← convert v; ok (put out (codes f) w)

abbrev pub with_field : Fields → String → (Json → Result Json) → Fields → Result Fields
with_field body f convert out = converted f convert out (or_null (get body (codes f)))

abbrev as_int : Json → Result Json
as_int v = do n ← parse_input_int v; s ← decimal_to_hex (nat n); ok (str s)

abbrev as_wei : Json → Result Json
as_wei v = do n ← parse_input_wei v; s ← decimal_to_hex (nat n); ok (str s)

abbrev as_address : Json → Result Json
as_address v = do a ← map_address_lowercase v; ok (str a)

abbrev as_lower : Json → Result Json
as_lower v = do s ← lower_of v; ok (str s)

abbrev as_bytes : Json → Result Json
as_bytes (str s) =
    if is_hex_bytes s
    then ok (str (lower s))
    else err (
        value_error (
          says "field {f!r} must be 0x-prefixed hex bytes (even length)" (str (codes "data") ∷ [])))
as_bytes v = err (
    value_error
      (says "field {f!r} must be 0x-prefixed hex bytes (even length)" (str (codes "data") ∷ [])))

unfoldable pub convert_addresses : Fields → Fields → Result Fields
convert_addresses body out = do
  out ← with_field body "from" as_address out
  with_field body "to" as_address out

unfoldable pub convert_numeric : Fields → Fields → Result Fields
convert_numeric body out = do
  out ← with_field body "gas" as_int out
  out ← with_field body "nonce" as_int out
  out ← with_field body "chainId" as_int out
  out ← with_field body "gasPrice" as_wei out
  out ← with_field body "maxFeePerGas" as_wei out
  out ← with_field body "maxPriorityFeePerGas" as_wei out
  with_field body "value" as_wei out

unfoldable pub convert_bytes : Fields → Fields → Result Fields
convert_bytes body out = with_field body "data" as_bytes out

-- one storage key
abbrev storage_key : Json → Result Json
storage_key (str k) = ok (str (lower k))
storage_key v = err (value_error (says "accessList storageKey entries must be strings" []))

-- entry.get("storageKeys", [])
abbrev keys_or_none : Option Json → Json
keys_or_none none = list []
keys_or_none (some v) = v

abbrev storage_keys : Json → Result (List Json)
storage_keys (arr ks) = each storage_key (items ks)
storage_keys v = err (value_error (says "accessList `storageKeys` must be an array" []))

abbrev access_address : Fields → Result Json
access_address entry =
    if has entry (codes "address")
    then ok (or_null (get entry (codes "address")))
    else err (value_error (says "accessList entry missing `address`" []))

abbrev access_list_entry : Json → Result Json
access_list_entry (obj entry) = do
  address ← access_address entry
  keys ← storage_keys (keys_or_none (get entry (codes "storageKeys")))
  a ← map_address_lowercase address
  ok (obj (field (codes "address") (str a) (field (codes "storageKeys") (list keys) end)))
access_list_entry v = err (value_error (says "accessList entries must be objects" []))

abbrev as_access_list : Json → Result Json
as_access_list (arr vs) = do entries ← each access_list_entry (items vs); ok (list entries)
as_access_list v = err (value_error (says "accessList must be an array" []))

unfoldable pub convert_access_list : Fields → Fields → Result Fields
convert_access_list body out = with_field body "accessList" as_access_list out

-- {k.lower(): v.lower() for k, v in d.items()}
abbrev lowered_items : Fields → Fields → Result Fields
lowered_items end out = ok out
lowered_items (field k v fs) out = do w ← lower_of v; lowered_items fs (put out (lower k) (str w))

abbrev as_storage : Json → Result Json
as_storage (obj fs) = do out ← lowered_items fs end; ok (obj out)
as_storage v = err attribute_error

unfoldable pub convert_override : Fields → Result Json
convert_override override = do
  out ← with_field override "balance" as_wei end
  out ← with_field override "nonce" as_int out
  out ← with_field override "code" as_lower out
  out ← with_field override "state" as_storage out
  out ← with_field override "stateDiff" as_storage out
  ok (obj out)

abbrev override_of : Text → Json → Result Json
override_of addr (obj override) = convert_override override
override_of addr v =
    err (value_error (says "stateOverride for {addr} must be an object" (str addr ∷ [])))

-- the loop over the accounts
unfoldable pub convert_overrides : Fields → Fields → Result Fields
convert_overrides end out = ok out
convert_overrides (field addr v fs) out = do
  override ← override_of addr v
  a ← map_address_lowercase (str addr)
  convert_overrides fs (put out a override)

abbrev as_state_overrides : Json → Result Json
as_state_overrides (obj fs) = do out ← convert_overrides fs end; ok (obj out)
as_state_overrides v = err (value_error (says "stateOverrides must be an object" []))

unfoldable pub convert_state_overrides : Fields → Fields → Result Fields
convert_state_overrides body out = with_field body "stateOverrides" as_state_overrides out

abbrev as_block_overrides : Json → Result Json
as_block_overrides (obj bo) = do
  out ← with_field bo "number" as_int end
  out ← with_field bo "timestamp" as_int out
  out ← with_field bo "gasLimit" as_int out
  out ← with_field bo "baseFeePerGas" as_wei out
  out ← with_field bo "difficulty" as_wei out
  out ← with_field bo "coinbase" as_address out
  out ← with_field bo "random" as_lower out
  ok (obj out)
as_block_overrides v = err (value_error (says "blockOverrides must be an object" []))

unfoldable pub convert_block_overrides : Fields → Fields → Result Fields
convert_block_overrides body out = with_field body "blockOverrides" as_block_overrides out

-- body.get("at", "latest")
abbrev at_of : Option Json → Result Text
at_of none = ok (codes "latest")
at_of (some (str s)) = ok s
at_of (some v) = err (value_error (says "`at` must be a string block identifier" []))

-- the call object, and the block parameter
unfoldable pub call_request_to_rpc : Json → Result (Json × Text)
call_request_to_rpc (obj body) = do
  out ← convert_addresses body end
  out ← convert_numeric body out
  out ← convert_bytes body out
  out ← convert_access_list body out
  out ← convert_state_overrides body out
  out ← convert_block_overrides body out
  at_raw ← at_of (get body (codes "at"))
  at ← parse_block_id at_raw
  ok (obj out, to_rpc_param at)
call_request_to_rpc v = err (value_error (says "CallRequest must be an object" []))
