-- ===== src/Transactions/Laws.antt =====
-- handlers/transactions.py: refusals without a call, and the one call of a submission.
use exec_rest_api.Base.{ℕ, ◌≡◌, refl, false, inl, inr, ◌⊎◌, Option, List, [], ◌∷◌, ◌++◌, ℤ, Text}
use exec_rest_api.Json.{Json, Result, ok, err}
use exec_rest_api.Encoding.{is_hex_of}
use exec_rest_api.Errors.{Response, bad_request, problem_response}
use exec_rest_api.Exec.{Answers, Call, Upstream, Exec, continue, pure, of_reply}
use exec_rest_api.BlockResolve.Laws.{AtMostOneCall}
use exec_rest_api.ContentNeg.{Floats}
use exec_rest_api.Transactions.{
  validate_tx_hash, bad_hash, with_hash, get_receipt, get_trace, get_transaction, post_transaction,
  post_trace_replay, post_debug_trace, submit, submitted, read_raw_tx,
}

refused :
    (u : Upstream) (path raw : Text) (f : Text → Exec Response) (h : List Call)
    → is_hex_of 64 raw ≡ false
    → Answers 400 h (with_hash u path (validate_tx_hash raw) f h)
unfolding validate_tx_hash bad_hash bad_request problem_response
refused u path raw f h e = rw e (_, refl, refl)

-- With a hash that is not 0x and 64 hex digits each of the five handlers of a transaction answers
-- 400, and the upstream is not called.
pub transaction_handlers_refuse_hash :
    (u : Upstream) (path raw : Text) (f : Floats) (fromhex : Text → Option Text)
    (accept : Option Text) (python_int : Json → Result ℤ) (body : Option Json) (h : List Call)
    → is_hex_of 64 raw ≡ false
    → Answers 400 h (get_transaction u path f fromhex accept raw h)
      × Answers 400 h (get_receipt u path raw h)
      × Answers 400 h (get_trace u path python_int raw h)
      × Answers 400 h (post_trace_replay u path raw body h)
      × Answers 400 h (post_debug_trace u path raw body h)
unfolding get_transaction get_receipt get_trace post_trace_replay post_debug_trace
transaction_handlers_refuse_hash u path raw f fromhex accept python_int body h e = (
  refused u path raw _ h e,
  refused u path raw _ h e,
  refused u path raw _ h e,
  refused u path raw _ h e,
  refused u path raw _ h e,
)

sent :
    (r : Result Json) (path : Text) (h : List Call) (c : Call)
    → AtMostOneCall h (continue r (λ v. pure (submitted path v)) (h ++ c ∷ [])).1
sent (ok v) path h c = inr (c, refl)
sent (err e) path h c = inr (c, refl)

-- A submission is sent once or not at all, whatever the upstream answers: a failure is never tried
-- again.
pub post_transaction-calls :
    (u : Upstream) (path : Text) (header : Option Text) (bytes : List ℕ) (body : Option Json)
    (h : List Call)
    → AtMostOneCall h (post_transaction u path header bytes body h).1
unfolding post_transaction
post_transaction-calls u path header bytes body h =
    submitted_once (read_raw_tx path header bytes body)
  where
    submitted_once : (r : Response ⊎ Text) → AtMostOneCall h (submit u path r h).1
    submitted_once (inl r) = inl refl
    submitted_once (inr raw) = sent (of_reply (u h _)) path h _
