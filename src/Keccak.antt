-- ===== src/Keccak.antt =====
-- handlers/utils_keccak.py: the hash of bytes, which the node computes. A body is `none` when it is no
-- JSON.
pub mod Laws
mod Tests
use exec_rest_api.Base.{Option, none, some, [], ◌∷◌, Text, codes, if◌then◌else◌, lower}
use exec_rest_api.Json.{Json, str, obj, Fields, end, field, get, says}
use exec_rest_api.Delegation.{is_hex_bytes}
use exec_rest_api.Errors.{Response, json_response, bad_request, bad_gateway}
use exec_rest_api.Exec.{Upstream, Exec, call, pure, ◌>>=◌}

module _ (u : Upstream) (path : Text) where
  unfoldable pub digest_answer : Json → Response
  digest_answer (str digest) = json_response (obj (field (codes "hash") (str (lower digest)) end))
  digest_answer v = bad_gateway path (says "web3_sha3 returned non-string result" [])

  abbrev no_bytes : Exec Response
  no_bytes = pure (bad_request path (says "field `data` must be a 0x-prefixed hex byte string" []))

  abbrev pub hash_of : Option Json → Exec Response
  hash_of (some (str blob)) =
      if is_hex_bytes blob
      then (call u "web3_sha3" (str blob ∷ []) >>= λ digest. pure (digest_answer digest))
      else no_bytes
  hash_of v = no_bytes

  unfoldable pub keccak256 : Option Json → Exec Response
  keccak256 none = pure (bad_request path (says "request body must be valid JSON" []))
  keccak256 (some (obj body)) = hash_of (get body (codes "data"))
  keccak256 (some v) = pure (bad_request path (says "request body must be a JSON object" []))
