-- ===== src/Accounts/Laws.antt =====
-- handlers/accounts.py: storage keys, refusals, and the calls of the summary.
use exec_rest_api.Base.{
  ℕ, Bool, true, false, some, lower, lower_char, length-map, String, ◌-◌, ◌≤◌, ◌≡◌, refl, ◌∙◌,
  Bool-cases, inl, inr, Option, List, [], ◌∷◌, ◌++◌, Text, codes, all, all-append, is_hex_digit,
  length, length-append, length-replicate, replicate, leb, arith,
}
use exec_rest_api.Json.{
  Json, null, bool, int, float, str, arr, obj, Fields, Items, get, items, list, Message, Exn,
  encoding_error, Result, ok, err,
}
use exec_rest_api.Encoding.{is_hex_of, int_of_hex, map_address_lowercase}
use exec_rest_api.Encoding.Canonical.{value_16-zeros, all-zeros}
use exec_rest_api.Encoding.RoundTrip.{all-hex-lower, value_16-lower}
use exec_rest_api.BlockId.{BlockId, parse_block_id, to_rpc_param}
use exec_rest_api.Errors.{Response, bad_request, problem_response, json_response}
use exec_rest_api.Exec.{Answers, Call, Upstream, Exec, continue, call, pure, gather}
use exec_rest_api.Accounts.Input.{
  parse_address, parse_at, at_or_latest, is_hex_slot, pad_slot_to_32_bytes, body_slots,
}
use exec_rest_api.Accounts.Handlers.{
  account_balance, account_nonce, account_code, account_storage, account_proof, account_summary,
  transaction_template, post_proof_search, answer, summary_of, proof_from_rpc,
}

filled :
    (s : Text)
    → length s ≤ 64
    → all is_hex_digit s ≡ true
    → is_hex_of 64 (codes "0x" ++ (replicate (64 - length s) b'0' ++ s)) ≡ true
filled s n h =
    let k = 64 - length s in
    let digits = all-append is_hex_digit (replicate k b'0') s (all-zeros k) h in
    let count : length (replicate k b'0' ++ s) ≡ 64 =
      omega (arith, length-append (replicate k b'0') s, length-replicate {A = ℕ} k b'0') in
    rw count digits

-- a hexadecimal slot, filled up
pub pad_slot_to_32_bytes-length :
    (s : Text)
    → is_hex_slot s ≡ true
    → (is_hex_of 64 (pad_slot_to_32_bytes s) ≡ true)
      × (int_of_hex (pad_slot_to_32_bytes s) ≡ int_of_hex s)
unfolding pad_slot_to_32_bytes
pad_slot_to_32_bytes-length [] h = ground arith
pad_slot_to_32_bytes-length (c ∷ []) h = ground arith
pad_slot_to_32_bytes-length (c ∷ d ∷ s) h = elim (Bool-cases (leb 64 (length s))) [
  | inl e ↦ rw e (ground arith, refl)
  | inr e ↦
      rw e (filled s (ground arith) (ground arith), value_16-zeros (64 - length s) s ∙ ground arith)
]

address_exception :
    (raw : Text) {e : Exn}
    → map_address_lowercase (str raw) ≡ err e
    → (m : Message) × (map_address_lowercase (str raw) ≡ err (encoding_error m))
unfolding map_address_lowercase
address_exception raw h = elim (Bool-cases (is_hex_of 40 raw)) [
  | inl good ↦ ground arith
  | inr bad ↦ rw bad (_, refl)
]

refused :
    (raw path : Text) (f : Text → Exec Response) (h : List Call) {e : Exn}
    → map_address_lowercase (str raw) ≡ err e
    → Answers 400 h (parse_address raw path f h)
unfolding parse_address bad_request problem_response
refused raw path f h d = let (m, e) = address_exception raw d in rw e (_, refl, refl)

-- Whatever else a request holds, with an invalid address each of the eight handlers of accounts
-- answers 400, and the upstream is not called.
pub account_handlers_refuse_address :
    (u : Upstream) (path addr : Text) (at slots : Option Text) (slot_raw : Text)
    (body : Option Json) (h : List Call) {e : Exn}
    → map_address_lowercase (str addr) ≡ err e
    → Answers 400 h (account_balance u path addr at h)
      × Answers 400 h (account_nonce u path addr at h)
      × Answers 400 h (account_code u path addr at h)
      × Answers 400 h (account_storage u path addr slot_raw at h)
      × Answers 400 h (account_proof u path addr slots at h)
      × Answers 400 h (account_summary u path addr at h)
      × Answers 400 h (transaction_template u path addr at h)
      × Answers 400 h (post_proof_search u path addr body h)
unfolding account_balance account_nonce account_code account_storage account_proof account_summary
    transaction_template post_proof_search
account_handlers_refuse_address u path addr at slots slot_raw body h d = (
  refused addr path _ h d,
  refused addr path _ h d,
  refused addr path _ h d,
  refused addr path _ h d,
  refused addr path _ h d,
  refused addr path _ h d,
  refused addr path _ h d,
  refused addr path _ h d,
)

-- a continuation that calls nothing
quiet :
    {A B : Type 0} (r : Result A) (f : A → Exec B) (h : List Call)
    → ((a : A) → (f a h).1 ≡ h)
    → (continue r f h).1 ≡ h
quiet (ok a) f h k = k a
quiet (err e) f h k = refl

abbrev pub account_call : String → Text → BlockId → Call
account_call method a bid = record { method = method; params = str a ∷ str (to_rpc_param bid) ∷ [] }

-- The summary of an account makes three calls, of its balance, its nonce and its code at the same
-- block, whatever they answer.
pub account_summary-calls :
    (u : Upstream) (path addr a : Text) (at : Option Text) (bid : BlockId) (h : List Call)
    → map_address_lowercase (str addr) ≡ ok a
    → parse_block_id (at_or_latest at) ≡ ok bid
    → (account_summary u path addr at h).1
      ≡ h
        ++ account_call "eth_getBalance" a bid ∷ []
        ++ account_call "eth_getTransactionCount" a bid ∷ []
        ++ account_call "eth_getCode" a bid ∷ []
unfolding account_summary parse_address parse_at
account_summary-calls u path addr a at bid h d b =
    let params = str a ∷ str (to_rpc_param bid) ∷ [] in
    let run =
      gather (call u "eth_getBalance" params)
        (gather (call u "eth_getTransactionCount" params) (call u "eth_getCode" params)) in
    rw d (
      rw b (
        quiet (run h).0 (λ r. answer u path addr (summary_of a r.0 r.1.0 r.1.1)) (run h).1
          (λ r.
            quiet (summary_of a r.0 r.1.0 r.1.1) (λ v. pure (json_response v)) (run h).1
              (λ v. refl))))

-- the text of 0x and 1 to 64 hex digits
abbrev pub is_slot : Json → Bool
is_slot (str s) = is_hex_slot s
is_slot v = false

-- the sent texts are 32 bytes each, and the same numbers as the given ones, in their order
abbrev pub ArePadded : List Json → List Json → Type 0
ArePadded [] [] = Unit
ArePadded (str s ∷ given) (str t ∷ sent) =
    (is_hex_of 64 t ≡ true) × (int_of_hex t ≡ int_of_hex s) × ArePadded given sent
ArePadded _ _ = ⊥

is_hex_slot-lower : (s : Text) → is_hex_slot s ≡ true → is_hex_slot (lower s) ≡ true
is_hex_slot-lower [] h = cc
is_hex_slot-lower (c ∷ []) h = cc
is_hex_slot-lower (c ∷ d ∷ s) h = ground (arith, all-hex-lower s, length-map s lower_char)

int_of_slot-lower : (s : Text) → is_hex_slot s ≡ true → int_of_hex (lower s) ≡ int_of_hex s
int_of_slot-lower [] h = cc
int_of_slot-lower (c ∷ []) h = cc
int_of_slot-lower (c ∷ d ∷ s) h = ground (arith, value_16-lower 0 s)

body_slots-ArePadded :
    (vs : List Json)
    → all is_slot vs ≡ true
    → (slots : List Json) × (body_slots vs ≡ inr slots) × ArePadded vs slots
unfolding body_slots
body_slots-ArePadded [] h = ([], refl, tt)
body_slots-ArePadded (str s ∷ vs) h =
    let good : is_hex_slot s ≡ true = ground arith in
    let (slots, e, k) = body_slots-ArePadded vs (ground arith) in
    let (bytes, same) = pad_slot_to_32_bytes-length (lower s) (is_hex_slot-lower s good) in
    (
      str (pad_slot_to_32_bytes (lower s)) ∷ slots,
      rw (good, body_slots) (rw e refl),
      (bytes, same ∙ int_of_slot-lower s good, k),
    )
body_slots-ArePadded (null ∷ vs) h = cc
body_slots-ArePadded (bool b ∷ vs) h = cc
body_slots-ArePadded (int z ∷ vs) h = cc
body_slots-ArePadded (float x ∷ vs) h = cc
body_slots-ArePadded (arr ws ∷ vs) h = cc
body_slots-ArePadded (obj fs ∷ vs) h = cc

-- A search of proofs for a valid address, hexadecimal slots and a valid block makes one call of
-- eth_getProof, whatever the node answers, with the address, the block, and each slot as exactly 32
-- bytes that are the same number, in the order of the body.
pub post_proof_search-ArePadded :
    (u : Upstream) (path addr a raw : Text) (bid : BlockId) (fs : Fields) (vs : Items)
    (h : List Call)
    → map_address_lowercase (str addr) ≡ ok a
    → get fs (codes "slots") ≡ some (arr vs)
    → all is_slot (items vs) ≡ true
    → get fs (codes "at") ≡ some (str raw)
    → parse_block_id raw ≡ ok bid
    → (slots : List Json) × ArePadded (items vs) slots
      × ((post_proof_search u path addr (some (obj fs)) h).1
          ≡ h
            ++ record {
              method = "eth_getProof";
              params = str a ∷ list slots ∷ str (to_rpc_param bid) ∷ [];
            }
              ∷ [])
unfolding post_proof_search parse_address
post_proof_search-ArePadded u path addr a raw bid fs vs h d s g t b =
    let (slots, e, k) = body_slots-ArePadded (items vs) g in
    (
      slots,
      k,
      rw d (
          rw s (
            rw e (
              rw t (
                rw b (
                  quiet _ (λ rpc. answer u path addr (proof_from_rpc rpc)) _
                    (λ rpc.
                      quiet (proof_from_rpc rpc) (λ v. pure (json_response v)) _ (λ v. refl))))))),
    )
