-- ===== src/Accounts/Tests.antt =====
-- handlers/accounts.py with a node that answers every call by one number.
use exec_rest_api.Base.{◌≡◌, refl, none, some, List, [], ◌∷◌, Text, codes}
use exec_rest_api.Json.{
  Json, str, obj, Fields, field, end, list, cons, nil, word, says, encoding_error, ok, err,
}
use exec_rest_api.Encoding.{map_address_lowercase}
use exec_rest_api.BlockId.{tag, parse_block_id, to_rpc_param}
use exec_rest_api.Exec.{Answers, Upstream, result}
use exec_rest_api.Accounts.Input.{at_or_latest}
use exec_rest_api.Accounts.Handlers.{
  account_balance, account_nonce, account_code, account_storage, account_proof, account_summary,
  transaction_template, post_proof_search,
}
use exec_rest_api.Accounts.Laws.{
  account_call, ArePadded, post_proof_search-ArePadded, account_handlers_refuse_address,
  account_summary-calls,
}

abbrev node : Upstream
node h c = result (word "0x10")

abbrev path : Text
path = codes "/accounts/0x1"

abbrev addr : Text
addr = codes "0xABCDEF0123456789abcdef0123456789abcdef01"

abbrev normal : Text
normal = codes "0xabcdef0123456789abcdef0123456789abcdef01"

short_address :
    map_address_lowercase (str (codes "0x1"))
    ≡ err (
        encoding_error
          (says "expected 0x-prefixed 20-byte address, got {addr!r}" (word "0x1" ∷ [])))
unfolding map_address_lowercase
short_address = refl

account_handlers_refuse_address_example :
    Answers 400 [] (account_balance node path (codes "0x1") none [])
    × Answers 400 [] (account_nonce node path (codes "0x1") none [])
    × Answers 400 [] (account_code node path (codes "0x1") none [])
    × Answers 400 [] (account_storage node path (codes "0x1") (codes "5") none [])
    × Answers 400 [] (account_proof node path (codes "0x1") none none [])
    × Answers 400 [] (account_summary node path (codes "0x1") none [])
    × Answers 400 [] (transaction_template node path (codes "0x1") none [])
    × Answers 400 [] (post_proof_search node path (codes "0x1") none [])
account_handlers_refuse_address_example =
    account_handlers_refuse_address node path (codes "0x1") none none (codes "5") none []
      short_address

good_address : map_address_lowercase (str addr) ≡ ok normal
unfolding map_address_lowercase
good_address = refl

latest : parse_block_id (at_or_latest none) ≡ ok (tag (codes "latest"))
unfolding parse_block_id
latest = refl

account_summary-calls_example :
    (account_summary node path addr none []).1
    ≡ account_call "eth_getBalance" normal (tag (codes "latest"))
      ∷ account_call "eth_getTransactionCount" normal (tag (codes "latest"))
      ∷ account_call "eth_getCode" normal (tag (codes "latest"))
      ∷ []
account_summary-calls_example =
    account_summary-calls node path addr normal none (tag (codes "latest")) [] good_address latest

abbrev slots : Json
slots = list (word "0x5" ∷ word "0xAb" ∷ [])

abbrev given : Fields
given = field (codes "slots") slots (field (codes "at") (str (codes "latest")) end)

post_proof_search-ArePadded_example :
    (sent : List Json) × ArePadded (word "0x5" ∷ word "0xAb" ∷ []) sent
    × ((post_proof_search node path addr (some (obj given)) []).1
        ≡ record {
          method = "eth_getProof";
          params = str normal ∷ list sent ∷ str (to_rpc_param (tag (codes "latest"))) ∷ [];
        }
          ∷ [])
post_proof_search-ArePadded_example =
    post_proof_search-ArePadded node path addr normal (codes "latest") (tag (codes "latest")) given
      (cons (word "0x5") (cons (word "0xAb") nil)) [] good_address refl refl refl latest
