-- ===== src/Accounts/Handlers.antt =====
-- handlers/accounts.py: the handlers. Each takes the path of the request, the address and the other
-- parameters as they came.
use exec_rest_api.Base.{
  Bool, true, false, not, ◌||◌, Option, none, some, List, [], ◌∷◌, ◌++◌, ◌⊎◌, inl, inr, int_eq,
  Text, codes, text_eq, String, if◌then◌else◌,
}
use exec_rest_api.Json.{
  Json, null, bool, str, arr, obj, Fields, get, items, list, lower_of, get_or, Message, says, Exn,
  rpc_error, is_block_id_error, Result, ok, err,
}
use exec_rest_api.Json
use exec_rest_api.BlockId.{BlockId, parse_block_id, to_rpc_param}
use exec_rest_api.Delegation.{detect_delegate}
use exec_rest_api.Errors.{Response, bad_request, json_response, minus}
use exec_rest_api.Exec.{Upstream, Exec, call, pure, lift, gather, ◌>>=◌}
use exec_rest_api.Shapes.{Entry, to_dict, required, lowered, number, wei, address, each_of}
use exec_rest_api.Accounts.Input.{
  caught, parse_address, parse_at, parse_slot, parse_slots_csv, body_slots,
}

abbrev text_or_null : Option Text → Json
text_or_null none = null
text_or_null (some s) = str s

unfoldable pub storage_proof_from_rpc : Json → Result Json
storage_proof_from_rpc entry = to_dict (
    required entry "key" lowered
    ∷ required entry "value" lowered
    ∷ (codes "proof", Json.◌>>=◌ (get_or entry (codes "proof") (list [])) (each_of lowered))
    ∷ [])

unfoldable pub proof_from_rpc : Json → Result Json
proof_from_rpc rpc = to_dict (
    required rpc "address" address
    ∷ required rpc "balance" wei
    ∷ required rpc "codeHash" lowered
    ∷ required rpc "nonce" number
    ∷ required rpc "storageHash" lowered
    ∷ (
      codes "accountProof",
      Json.◌>>=◌ (get_or rpc (codes "accountProof") (list [])) (each_of lowered),
    )
    ∷ (
      codes "storageProof",
      Json.◌>>=◌ (get_or rpc (codes "storageProof") (list [])) (each_of storage_proof_from_rpc),
    )
    ∷ [])

-- detect_delegate(code_lower) if has_code else None
abbrev delegate_if : Bool → Text → Result (Option Text)
delegate_if true code_lower = detect_delegate (str code_lower)
delegate_if false code_lower = ok none

unfoldable pub summary_of : Text → Json → Json → Json → Result Json
summary_of addr balance nonce code = Json.◌>>=◌ (lower_of code) λ code_lower.
    let has_code = not (text_eq code_lower (codes "0x")) in
    Json.◌>>=◌ (delegate_if has_code code_lower) λ delegated_to. to_dict (
      (codes "address", ok (str addr))
      ∷ (codes "balance", wei balance)
      ∷ (codes "nonce", number nonce)
      ∷ (codes "hasCode", ok (bool has_code))
      ∷ (codes "delegatedTo", ok (text_or_null delegated_to))
      ∷ [])

-- an entry only for a value that is not None
abbrev unless_none : String → (Json → Result Json) → Json → List Entry
unless_none k f null = []
unless_none k f v = (codes k, f v) ∷ []

unfoldable pub template_of : Json → Json → Json → Json → Result Json
template_of nonce chain_id gas_price priority_fee = to_dict (
    (codes "nonce", number nonce)
      ∷ (codes "chainId", number chain_id)
      ∷ unless_none "gasPrice" wei gas_price
    ++ unless_none "maxPriorityFeePerGas" wei priority_fee)

-- `_maybe`: an unsupported method gives None
abbrev pub supported : Result Json → Result Json
supported (ok v) = ok v
supported (err (rpc_error c m d)) =
    if int_eq c (minus 32601) || int_eq c (minus 32004) then ok null else err (rpc_error c m d)
supported (err e) = err e

abbrev or_refuse : {A : Type 0} → Text → Message ⊎ A → (A → Exec Response) → Exec Response
or_refuse path (inl m) f = pure (bad_request path m)
or_refuse path (inr a) f = f a

module _ (u : Upstream) (path addr : Text) where
  abbrev pub answer : Result Json → Exec Response
  answer r = lift r >>= λ v. pure (json_response v)

  abbrev one_field : String → Result Json → Result Json
  one_field k r = to_dict ((codes k, r) ∷ [])

  abbrev maybe : String → Exec Json
  maybe method h = (supported (call u method [] h).0, (call u method [] h).1)

  -- the two arguments that most handlers read
  abbrev pub account_at : Option Text → (Text → BlockId → Exec Response) → Exec Response
  account_at at f = parse_address addr path λ a. parse_at at path λ bid. f a bid

  unfoldable pub account_balance : Option Text → Exec Response
  account_balance at = account_at at λ a bid.
      call u "eth_getBalance" (str a ∷ str (to_rpc_param bid) ∷ []) >>= λ rpc.
      answer (one_field "wei" (wei rpc))

  unfoldable pub account_nonce : Option Text → Exec Response
  account_nonce at = account_at at λ a bid.
      call u "eth_getTransactionCount" (str a ∷ str (to_rpc_param bid) ∷ []) >>= λ rpc.
      answer (one_field "nonce" (number rpc))

  unfoldable pub account_code : Option Text → Exec Response
  account_code at = account_at at λ a bid.
      call u "eth_getCode" (str a ∷ str (to_rpc_param bid) ∷ []) >>= λ rpc.
      answer (one_field "code" (lowered rpc))

  unfoldable pub account_storage : Text → Option Text → Exec Response
  account_storage slot_raw at = parse_address addr path λ a.
      or_refuse path (parse_slot slot_raw) λ slot. parse_at at path λ bid.
        call u "eth_getStorageAt" (str a ∷ str slot ∷ str (to_rpc_param bid) ∷ []) >>= λ rpc.
        answer (one_field "value" (lowered rpc))

  unfoldable pub account_proof : Option Text → Option Text → Exec Response
  account_proof slots_raw at = account_at at λ a bid.
      or_refuse path (parse_slots_csv slots_raw) λ slots.
        call u "eth_getProof" (str a ∷ list slots ∷ str (to_rpc_param bid) ∷ []) >>= λ rpc.
        answer (proof_from_rpc rpc)

  unfoldable pub account_summary : Option Text → Exec Response
  account_summary at = account_at at λ a bid.
      let params = str a ∷ str (to_rpc_param bid) ∷ [] in
      gather (call u "eth_getBalance" params)
        (gather (call u "eth_getTransactionCount" params) (call u "eth_getCode" params))
      >>= λ r. answer (summary_of a r.0 r.1.0 r.1.1)

  unfoldable pub transaction_template : Option Text → Exec Response
  transaction_template at = account_at at λ a bid.
      gather (call u "eth_getTransactionCount" (str a ∷ str (to_rpc_param bid) ∷ [])) (
        gather (call u "eth_chainId" [])
          (gather (maybe "eth_gasPrice") (maybe "eth_maxPriorityFeePerGas")))
      >>= λ r. answer (template_of r.0 r.1.0 r.1.1.0 r.1.1.1)

  abbrev proof_of : Text → List Json → Text → Exec Response
  proof_of a slots at_raw = caught is_block_id_error path (parse_block_id at_raw) λ at.
      call u "eth_getProof" (str a ∷ list slots ∷ str (to_rpc_param at) ∷ []) >>= λ rpc.
      answer (proof_from_rpc rpc)

  -- body.get("at", "latest")
  abbrev proof_at : Text → List Json → Option Json → Exec Response
  proof_at a slots none = proof_of a slots (codes "latest")
  proof_at a slots (some (str at_raw)) = proof_of a slots at_raw
  proof_at a slots (some v) =
      pure (bad_request path (says "`at` must be a string block identifier" []))

  -- body["slots"]
  abbrev proof_slots : Text → Fields → Option Json → Exec Response
  proof_slots a body none = pure (bad_request path (says "field `slots` is required" []))
  proof_slots a body (some (arr vs)) =
      or_refuse path (body_slots (items vs)) λ slots. proof_at a slots (get body (codes "at"))
  proof_slots a body (some v) = pure (bad_request path (says "`slots` must be an array" []))

  abbrev proof_body : Text → Option Json → Exec Response
  proof_body a none = pure (bad_request path (says "request body must be valid JSON" []))
  proof_body a (some (obj fs)) = proof_slots a fs (get fs (codes "slots"))
  proof_body a (some v) = pure (bad_request path (says "field `slots` is required" []))

  unfoldable pub post_proof_search : Option Json → Exec Response
  post_proof_search body = parse_address addr path λ a. proof_body a body
