-- ===== src/Errors.antt =====
-- errors.py: problem details (RFC 9457) and the mapping of JSON-RPC errors to them. `data` is
-- `null` where Python has `None`. The text of a message is given by `render`, Python's formatting.
pub mod Laws
mod Tests
use exec_rest_api.Base.{
  ℕ, ◌-◌, String, Bool, true, false, Option, none, some, List, [], ◌∷◌, ◌++◌, ℤ, pos, negsuc,
  int_eq, Text, codes, if◌then◌else◌, is_in, lower,
}
use exec_rest_api.Json.{Json, null, int, str, Fields, end, field, put, nat, word, Message, says}

pub record Problem : Type 0 where
  pub status : ℕ
  pub type_slug : String
  pub title : String
  pub detail : Option Message
  pub instance_path : Option Text
  pub code : Option ℤ
  pub extra : Json

module _ (render : Message → Text) where
  abbrev put_text : Fields → Text → Option Message → Fields
  put_text out k none = out
  put_text out k (some m) = put out k (str (render m))

  abbrev put_path : Fields → Text → Option Text → Fields
  put_path out k none = out
  put_path out k (some p) = put out k (str p)

  abbrev put_code : Fields → Text → Option ℤ → Fields
  put_code out k none = out
  put_code out k (some c) = put out k (int c)

  abbrev put_data : Fields → Text → Json → Fields
  put_data out k null = out
  put_data out k v = put out k v

  unfoldable pub to_dict : Problem → Fields
  to_dict p =
      let out =
        field (codes "type") (str (codes "https://errors.ethereum-rest/" ++ codes p.type_slug))
          (field (codes "title") (word p.title) (field (codes "status") (nat p.status) end)) in
      let out = put_text out (codes "detail") p.detail in
      let out = put_path out (codes "instance") p.instance_path in
      let out = put_code out (codes "code") p.code in put_data out (codes "data") p.extra

-- A body is the JSON that a client reads, a problem, or bytes, kept by their hex digits.
pub data Body : Type 0 where
  json problem_json : Json → Body
  rlp : Text → Body
  problem : Problem → Body

pub record Response : Type 0 where
  pub status : ℕ
  pub headers : List (Text × Text)
  pub body : Body

unfoldable pub problem_response : Problem → Response
problem_response p = record { status = p.status; headers = []; body = problem p }

-- web.json_response
abbrev pub json_response : Json → Response
json_response v = record { status = 200; headers = []; body = json v }

-- the bad requests of all handlers
unfoldable pub bad_request : Text → Message → Response
unfolding problem_response
bad_request path detail = problem_response (record {
  status = 400;
  type_slug = "invalid-request";
  title = "Invalid request";
  detail = some detail;
  instance_path = some path;
  code = none;
  extra = null;
})

unfoldable pub not_found : Text → Message → Response
unfolding problem_response
not_found path detail = problem_response (record {
  status = 404;
  type_slug = "not-found";
  title = "Not found";
  detail = some detail;
  instance_path = some path;
  code = none;
  extra = null;
})

-- an upstream answer of the wrong type
unfoldable pub bad_gateway : Text → Message → Response
unfolding problem_response
bad_gateway path detail = problem_response (record {
  status = 502;
  type_slug = "upstream-error";
  title = "Upstream error";
  detail = some detail;
  instance_path = some path;
  code = none;
  extra = null;
})

-- a row of the two tables, without its key
pub record Row : Type 0 where
  pub status : ℕ
  pub slug : String
  pub title : String

abbrev pub row : ℕ → String → String → Row
row s g t = record { status = s; slug = g; title = t }

-- the code -n of JSON-RPC
abbrev pub minus : ℕ → ℤ
minus n = negsuc (n - 1)

abbrev pub standard_codes : List (ℤ × Row)
standard_codes =
    (minus 32600, row 400 "invalid-request" "Invalid request")
    ∷ (minus 32601, row 501 "method-not-supported-by-upstream" "Method not supported by upstream")
    ∷ (minus 32602, row 400 "invalid-request" "Invalid request")
    ∷ (minus 32603, row 502 "upstream-error" "Upstream error")
    ∷ (minus 32700, row 502 "upstream-error" "Upstream error")
    ∷ (minus 32001, row 404 "not-found" "Not found")
    ∷ (minus 32002, row 503 "upstream-unavailable" "Upstream unavailable")
    ∷ (minus 32003, row 422 "transaction-rejected" "Transaction rejected")
    ∷ (minus 32004, row 501 "method-not-supported-by-upstream" "Method not supported by upstream")
    ∷ (minus 32005, row 429 "rate-limited" "Rate limited")
    ∷ []

abbrev pub rejected : String → Row
rejected slug = row 422 slug "Transaction rejected"

abbrev pub m32000_patterns : List (String × Row)
m32000_patterns =
    ("nonce too low", rejected "transaction-rejected/nonce-too-low")
    ∷ ("already known", rejected "transaction-rejected/already-known")
    ∷ (
      "replacement transaction underpriced",
      rejected "transaction-rejected/replacement-underpriced",
    )
    ∷ ("transaction underpriced", rejected "transaction-rejected/underpriced")
    ∷ ("insufficient funds", rejected "transaction-rejected/insufficient-funds")
    ∷ ("intrinsic gas too low", rejected "transaction-rejected/intrinsic-gas-too-low")
    ∷ ("exceeds block gas limit", rejected "transaction-rejected/gas-limit-exceeded")
    ∷ ("query returned more than", row 413 "payload-too-large" "Payload too large")
    ∷ ("exceed maximum block range", row 413 "payload-too-large" "Payload too large")
    ∷ []

unfoldable pub find_code : ℤ → List (ℤ × Row) → Option Row
find_code c [] = none
find_code c ((d, r) ∷ rows) = if int_eq d c then some r else find_code c rows

unfoldable pub find_pattern : Text → List (String × Row) → Option Row
find_pattern m [] = none
find_pattern m ((p, r) ∷ rows) = if is_in (codes p) m then some r else find_pattern m rows

abbrev pub default_row : Row
default_row = row 502 "upstream-error" "Upstream error"

abbrev pub or_default : Option Row → Row
or_default none = default_row
or_default (some r) = r

abbrev pub known_or : Option Row → Row → Row
known_or none s = s
known_or (some r) s = r

-- the row that decides status, slug and title
unfoldable pub jsonrpc_row : ℤ → Text → Row
jsonrpc_row code msg = known_or (find_code code standard_codes) (
    or_default
      (if int_eq code (minus 32000) then find_pattern (lower msg) m32000_patterns else none))

unfoldable pub map_jsonrpc_error : ℤ → Text → Json → Problem
map_jsonrpc_error code msg extra =
    let r = jsonrpc_row code msg in
    record {
      status = r.status;
      type_slug = r.slug;
      title = r.title;
      detail = some (says "{message}" (str msg ∷ []));
      instance_path = none;
      code = some code;
      extra = extra;
    }
