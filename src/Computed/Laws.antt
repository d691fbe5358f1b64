-- ===== src/Computed/Laws.antt =====
-- handlers/computed.py: what a handler answers when the node refuses its call.
use exec_rest_api.Base.{
  ℕ, ◌≡◌, refl, sym, Bool, true, false, ◌&&◌, ◌||◌, some, List, [], ◌∷◌, ◌++◌, Text, codes, String,
  if◌then◌else◌, ℤ, negsuc, int_eq, is_in, lower, starts_with, all, is_hex_digit, drop,
}
use exec_rest_api.Json.{
  Json, null, bool, int, float, arr, obj, str, field, end, Exn, rpc_error, Result, ok, err,
}
use exec_rest_api.Errors.{Response, json_response}
use exec_rest_api.Exec.{Call, Upstream, rpc_fails, pure, raise, Exec}
use exec_rest_api.BlockId.{BlockId, parse_block_id, to_rpc_param}
use exec_rest_api.Revert.{
  is_revert, is_out_of_gas, is_hex_data, revert_body, decode_revert_data, reason_or_null,
  code_or_null,
}
use exec_rest_api.Computed.Request.{call_request_to_rpc}
use exec_rest_api.Computed.{
  computed, read_call_request, post_call, gas_estimate, access_list, debug_traces_call,
}

-- the words of too little gas, in any case
abbrev pub tells_of_gas : Text → Bool
tells_of_gas message =
    is_in (codes "out of gas") (lower message)
    || is_in (codes "gas required exceeds allowance") (lower message)

-- the code -32000 with the words of a revert, in any case, or too little gas
abbrev pub tells_of_revert : ℤ → Text → Bool
tells_of_revert code message =
    int_eq code (negsuc 31999) && is_in (codes "execution reverted") (lower message)
    || tells_of_gas message

-- the data of the error, where they are bytes
abbrev pub bytes_of : Json → Text
bytes_of (str s) =
    if starts_with (codes "0x") s && all is_hex_digit (drop 2 s) then s else codes "0x"
bytes_of v = codes "0x"

settled :
    (b : Bool) (r : Response) (e : Exn) (h : List Call)
    → (if b then pure r else raise e) h ≡ ((if b then ok r else err e), h)
settled true r e h = refl
settled false r e h = refl

module _ (decode_utf8 : List ℕ → Text) (u : Upstream) (path : Text) where
  -- the object that shows a revert, with what its data encode
  abbrev pub shown_revert : Text → Json → Json
  shown_revert message blob =
      let (reason, panic) = decode_revert_data decode_utf8 (str (bytes_of blob)) in
      obj (
        field (codes "reverted") (bool true) (
          field (codes "data") (str (lower (bytes_of blob))) (
            field (codes "reason") (reason_or_null decode_utf8 reason) (
              field (codes "panicCode") (code_or_null decode_utf8 panic)
                (if tells_of_gas message then field (codes "outOfGas") (bool true) end else end)))))

  -- a revert is shown, and another refusal is raised
  abbrev pub refusal : ℤ → Text → Json → Result Response
  refusal code message blob =
      if tells_of_revert code message
      then ok (json_response (shown_revert message blob))
      else err (rpc_error code message blob)

  revert_body-shown :
      (message : Text) (blob : Json)
      → obj (revert_body decode_utf8 message blob) ≡ shown_revert message blob
  unfolding revert_body is_out_of_gas is_hex_data
  revert_body-shown message null = refl
  revert_body-shown message (bool b) = refl
  revert_body-shown message (int z) = refl
  revert_body-shown message (float s) = refl
  revert_body-shown message (str s) = refl
  revert_body-shown message (arr vs) = refl
  revert_body-shown message (obj fs) = refl

  computed-refusal :
      (method : String) (params : List Json) (f : Json → Exec Response) (h : List Call) (code : ℤ)
      (message : Text) (blob : Json)
      → ((c : Call) → u h c ≡ rpc_fails code message blob)
      → computed decode_utf8 u path method params f h
        ≡ (refusal code message blob, h ++ record { method = method; params = params } ∷ [])
  unfolding is_revert is_out_of_gas
  computed-refusal method params f h code message blob e =
      rw (e (record { method = method; params = params })) (
        rw (sym (revert_body-shown message blob))
          (settled (is_revert code message || is_out_of_gas message) _ _ _))

  -- When a request is converted and the node refuses every call, /call, /gas-estimate and /access-list
  -- each make the one call of their method, with the converted request and its block, and
  -- /debug-traces/call, with a body of this request and of a valid block, makes one call with that
  -- block. An error of code -32000 that tells of a revert, or one that tells of too little gas, is
  -- answered with status 200 and an object of the error's data and of what they encode; any other error
  -- is raised.
  pub computed_handlers-refusal :
      (body rpc : Json) (at : Text) (h : List Call) (code : ℤ) (message : Text) (blob : Json)
      (raw : Text) (bid : BlockId)
      → call_request_to_rpc body ≡ ok (rpc, at)
      → parse_block_id raw ≡ ok bid
      → ((c : Call) → u h c ≡ rpc_fails code message blob)
      → (post_call decode_utf8 u path (some body) h ≡ (
        refusal code message blob,
        h ++ record { method = "eth_call"; params = rpc ∷ str at ∷ [] } ∷ [],
      ))
        × (gas_estimate decode_utf8 u path (some body) h ≡ (
          refusal code message blob,
          h ++ record { method = "eth_estimateGas"; params = rpc ∷ str at ∷ [] } ∷ [],
        ))
        × (access_list decode_utf8 u path (some body) h ≡ (
          refusal code message blob,
          h ++ record { method = "eth_createAccessList"; params = rpc ∷ str at ∷ [] } ∷ [],
        ))
        × (debug_traces_call decode_utf8 u path
              (some (obj (field (codes "call") body (field (codes "at") (str raw) end))))
              h
            ≡ (
              refusal code message blob,
              h
                  ++ record {
                    method = "debug_traceCall";
                    params = rpc ∷ str (to_rpc_param bid) ∷ obj end ∷ [];
                  }
                    ∷ [],
            ))
  unfolding post_call gas_estimate access_list read_call_request debug_traces_call
  computed_handlers-refusal body rpc at h code message blob raw bid p b e =
      rw (p, b)
        (
          computed-refusal "eth_call" (rpc ∷ str at ∷ []) _ h code message blob e,
          computed-refusal "eth_estimateGas" (rpc ∷ str at ∷ []) _ h code message blob e,
          computed-refusal "eth_createAccessList" (rpc ∷ str at ∷ []) _ h code message blob e,
          computed-refusal "debug_traceCall" (rpc ∷ str (to_rpc_param bid) ∷ obj end ∷ []) _ h code
              message blob e,
        )
