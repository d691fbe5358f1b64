-- ===== src/Keccak/Tests.antt =====
-- handlers/utils_keccak.py with a node that gives one digest.
use exec_rest_api.Base.{◌≡◌, refl, Option, some, [], Text, codes}
use exec_rest_api.Json.{Json, obj, field, end, word, ok}
use exec_rest_api.Errors.{json_response}
use exec_rest_api.Exec.{Upstream, result}
use exec_rest_api.Keccak.{keccak256, digest_answer}

abbrev node : Upstream
node h c = result (word "0xAB")

abbrev path : Text
path = codes "/utils/keccak256"

abbrev body : Option Json
body = some (obj (field (codes "data") (word "0x01fF") end))

hashed :
    (keccak256 node path body []).0
    ≡ ok (json_response (obj (field (codes "hash") (word "0xab") end)))
unfolding keccak256 digest_answer
hashed = refl
