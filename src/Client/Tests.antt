-- ===== src/Client/Tests.antt =====
-- upstream.py on small answers of a node.
use exec_rest_api.Base.{◌≡◌, refl, some, [], ℤ, Text, codes}
use exec_rest_api.Json.{
  Json, null, int, obj, field, end, word, says, type_error, other_error, rpc_error, Result, ok, err,
}
use exec_rest_api.Errors.{minus}
use exec_rest_api.Client.{responds, raises, client_call, of_payload}

abbrev to_int : Json → Result ℤ
to_int (int z) = ok z
to_int v = err type_error

abbrev to_text : Json → Text
to_text v = []

refused :
    client_call to_int to_text (
      responds 200
        (some (obj (field (codes "error") (obj (field (codes "message") (word "no") end)) end))))
    ≡ (err (rpc_error (minus 32603) (codes "no") null), "error")
unfolding client_call of_payload
refused = refl

-- the total timeout of the HTTP client
timeout_is_ok :
    client_call to_int to_text (raises (says "TimeoutError" []))
    ≡ (err (other_error (says "TimeoutError" [])), "ok")
unfolding client_call
timeout_is_ok = refl
