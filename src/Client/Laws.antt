-- ===== src/Client/Laws.antt =====
-- upstream.py: what a call gives, what its observer is told, and how the server answers.
use exec_rest_api.Base.{
  ℕ, ◌≡◌, ◌⊎◌, Bool, true, false, if◌then◌else◌, Option, none, some, ℤ, Text, codes, ◌==◌,
}
use exec_rest_api.Json.{
  Json, obj, Fields, get, Message, Exn, upstream_error, other_error, Result, ok, err,
}
use exec_rest_api.Client.{HttpReply, responds, raises, Outcome, error_mapping}

-- the fields `error` and `result` of an answer: an object of an error, or a result and no error
abbrev pub are_answer : Option Json → Option Json → Bool
are_answer (some (obj e)) r = true
are_answer (some v) r = false
are_answer none (some v) = true
are_answer none none = false

-- the body of an answer of JSON-RPC
abbrev pub body_answers : Option Json → Bool
body_answers (some (obj payload)) =
    are_answer (get payload (codes "error")) (get payload (codes "result"))
body_answers b = false

abbrev pub is_answer : HttpReply → Bool
is_answer (responds status body) = if status == 200 then body_answers body else false
is_answer r = false

module _ (python_int : Json → Result ℤ) (python_str : Json → Text) (path : Text) where
  -- the status of the answer of a handler that does not handle the exception
  abbrev pub raised_status : Exn → ℕ
  raised_status e = (error_mapping path (err e)).status

  -- a result, for status 200 and an object with a result and no error
  abbrev pub IsResult : HttpReply → Outcome → Type 0
  IsResult r o =
      (payload : Fields) × (v : Json) × (r ≡ responds 200 (some (obj payload)))
      × (get payload (codes "error") ≡ none)
      × (get payload (codes "result") ≡ some v)
      × (o ≡ (ok v, "ok"))

  -- the object of an error: the exception is raised and seen as an error
  abbrev pub IsRefused : HttpReply → Outcome → Type 0
  IsRefused r o =
      (payload e : Fields) × (x : Exn) × (r ≡ responds 200 (some (obj payload)))
      × (get payload (codes "error") ≡ some (obj e))
      × (o ≡ (err x, "error"))

  -- a failure of the transport, for a reply that is no answer of JSON-RPC
  abbrev pub IsTransport : HttpReply → Outcome → Type 0
  IsTransport r o =
      (m : Message) × (is_answer r ≡ false)
      × (o ≡ (err (upstream_error m), "transport-error"))
      × (raised_status (upstream_error m) ≡ 502)

  -- any other exception of the HTTP client, for which the observer is told `ok`
  abbrev pub IsRaised : HttpReply → Outcome → Type 0
  IsRaised r o =
      (m : Message) × (r ≡ raises m)
      × (o ≡ (err (other_error m), "ok"))
      × (raised_status (other_error m) ≡ 500)

  abbrev pub Ends : HttpReply → Outcome → Type 0
  Ends r o = IsResult r o ⊎ (IsRefused r o ⊎ (IsTransport r o ⊎ IsRaised r o))
