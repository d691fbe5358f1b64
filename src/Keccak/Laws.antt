-- ===== src/Keccak/Laws.antt =====
-- handlers/utils_keccak.py: which bodies reach the node, and with what.
use exec_rest_api.Base.{◌≡◌, Option, some, List, [], ◌∷◌, ◌++◌, Text, codes, true}
use exec_rest_api.Json.{Json, str, obj, Fields, get, Result}
use exec_rest_api.Delegation.{is_hex_bytes}
use exec_rest_api.Errors.{Response}
use exec_rest_api.Exec.{Call}

abbrev pub sha3 : Text → Call
sha3 blob = record { method = "web3_sha3"; params = str blob ∷ [] }

-- the body is an object whose `data` are these bytes, and the node was asked for their hash alone
abbrev pub Asked : Option Json → List Call → Result Response × List Call → Type 0
Asked body h run =
    (fields : Fields) × (blob : Text) × (body ≡ some (obj fields))
    × (get fields (codes "data") ≡ some (str blob))
    × (is_hex_bytes blob ≡ true)
    × (run.1 ≡ h ++ sha3 blob ∷ [])
