-- ===== src/Transactions/Tests.antt =====
-- handlers/transactions.py with a node that answers every call by a hash.
use exec_rest_api.Base.{◌≡◌, refl, none, some, [], ◌∷◌, Text, codes, ℕ, ltb, ◌==◌, ℤ, inr, strip}
use exec_rest_api.Json.{Json, word, list, Result, ok, int, type_error, err}
use exec_rest_api.Exec.{Answers, Upstream, result}
use exec_rest_api.BlockResolve.Laws.{AtMostOneCall}
use exec_rest_api.ContentNeg.{Floats}
use exec_rest_api.Transactions.{
  get_receipt, get_trace, get_transaction, post_transaction, post_trace_replay, post_debug_trace,
  hex_of_bytes, read_raw_tx, content_type, check_tracers,
}
use exec_rest_api.Transactions.Laws.{transaction_handlers_refuse_hash, post_transaction-calls}

abbrev node : Upstream
node h c = result (word "0xAB")

abbrev path : Text
path = codes "/transactions/0x1"

abbrev floats : Floats
floats = record {
  Float = ℕ;
  one = 10;
  float = λ s. none;
  not_positive = λ q. q == 0;
  above = λ p q. ltb p q;
}

abbrev to_int : Json → Result ℤ
to_int (int z) = ok z
to_int v = err type_error

transaction_handlers_refuse_hash_example :
    Answers 400 [] (get_transaction node path floats (λ s. none) none (codes "0x1") [])
    × Answers 400 [] (get_receipt node path (codes "0x1") [])
    × Answers 400 [] (get_trace node path to_int (codes "0x1") [])
    × Answers 400 [] (post_trace_replay node path (codes "0x1") none [])
    × Answers 400 [] (post_debug_trace node path (codes "0x1") none [])
transaction_handlers_refuse_hash_example =
    transaction_handlers_refuse_hash node path (codes "0x1") floats (λ s. none) none to_int none []
      refl

post_transaction-calls_example :
    AtMostOneCall []
      (post_transaction node path
        (some (codes "application/vnd.ethereum.rlp"))
        (2 ∷ 0xf8 ∷ [])
        none
        []).1
post_transaction-calls_example =
    post_transaction-calls node path (some (codes "application/vnd.ethereum.rlp")) (2 ∷ 0xf8 ∷ [])
      none []

rlp_read :
    read_raw_tx path (some (codes "application/vnd.ethereum.rlp; v=1")) (2 ∷ 0xf8 ∷ []) none
    ≡ inr (codes "0x02f8")
unfolding read_raw_tx content_type hex_of_bytes strip
rlp_read = refl

unhashable_tracer : check_tracers path (list [] ∷ []) ≡ err type_error
unfolding check_tracers
unhashable_tracer = refl
