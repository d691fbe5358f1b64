-- ===== src/Errors/Laws.antt =====
-- errors.py: the statuses of mapped errors, the order of the message patterns, and the body.
use exec_rest_api.Base.{
  ℕ, ◌≡◌, refl, String, Bool, true, false, Bool-cases, inl, inr, Option, none, some, List, [], ◌∷◌,
  ℤ, not, int_eq, Text, codes, is_in, lower, arith, text_eq, any, all, ◌==◌,
}
use exec_rest_api.Json.{Json, null, int, str, Message, says, get, nat, Fields}
use exec_rest_api.Errors.{
  Row, to_dict, problem_response, find_code, find_pattern, jsonrpc_row, map_jsonrpc_error,
  standard_codes, m32000_patterns, minus, default_row, or_default, known_or,
}
use exec_rest_api.Pagination.{is_too_large}

-- one of the statuses that the interface documents for upstream errors
abbrev pub is_error_status : ℕ → Bool
is_error_status n = any (λ m. n == m) (400 ∷ 404 ∷ 413 ∷ 422 ∷ 429 ∷ 501 ∷ 502 ∷ 503 ∷ [])

module _ (P : Row → Type 0) where
  abbrev Holds : Option Row → Type 0
  Holds none = Unit
  Holds (some r) = P r

  abbrev AllCodes : List (ℤ × Row) → Type 0
  AllCodes [] = Unit
  AllCodes ((c, r) ∷ rows) = P r × AllCodes rows

  -- Each row holds if its pattern is the first that the message contains.
  abbrev AllPatterns : Text → List (String × Row) → Type 0
  AllPatterns m [] = Unit
  AllPatterns m ((p, r) ∷ rows) =
      (is_in (codes p) m ≡ true → P r) × (is_in (codes p) m ≡ false → AllPatterns m rows)

  find_code-Holds : (c : ℤ) (rows : List (ℤ × Row)) → AllCodes rows → Holds (find_code c rows)
  unfolding find_code
  find_code-Holds c [] h = tt
  find_code-Holds c ((d, r) ∷ rows) (p, h) = elim (Bool-cases (int_eq d c)) [
    | inl e ↦ rw e p
    | inr e ↦ rw e (find_code-Holds c rows h)
  ]

  find_pattern-Holds :
      (m : Text) (rows : List (String × Row)) → AllPatterns m rows → Holds (find_pattern m rows)
  unfolding find_pattern
  find_pattern-Holds m [] h = tt
  find_pattern-Holds m ((d, r) ∷ rows) (p, h) = elim (Bool-cases (is_in (codes d) m)) [
    | inl e ↦ rw e (p e)
    | inr e ↦ rw e (find_pattern-Holds m rows (h e))
  ]

  or_default_holds : (o : Option Row) → Holds o → P default_row → P (or_default o)
  or_default_holds none h d = d
  or_default_holds (some r) h d = h

  known_or_holds : (o : Option Row) (r : Row) → Holds o → P r → P (known_or o r)
  known_or_holds none r h k = k
  known_or_holds (some s) r h k = h

  -- A predicate of rows holds of the row of every error, if it holds of both tables and the default.
  jsonrpc_row_holds :
      (c : ℤ) (m : Text)
      → AllCodes standard_codes
      → (int_eq c (minus 32000) ≡ true → AllPatterns (lower m) m32000_patterns)
      → P default_row
      → P (jsonrpc_row c m)
  unfolding jsonrpc_row
  jsonrpc_row_holds c m k p d =
      known_or_holds _ _ (find_code-Holds c _ k) (elim (Bool-cases (int_eq c (minus 32000))) [
        | inl e ↦ rw e (or_default_holds _ (find_pattern-Holds (lower m) _ (p e)) d)
        | inr e ↦ rw e d
      ])

module _ (q : Row → Bool) where
  codes_tested :
      (rows : List (ℤ × Row)) → all (λ r. q r.1) rows ≡ true → AllCodes (λ r. q r ≡ true) rows
  codes_tested [] h = tt
  codes_tested ((c, r) ∷ rows) h = (ground arith, codes_tested rows (ground arith))

  patterns_tested :
      (m : Text) (rows : List (String × Row))
      → all (λ r. q r.1) rows ≡ true
      → AllPatterns (λ r. q r ≡ true) m rows
  patterns_tested m [] h = tt
  patterns_tested m ((p, r) ∷ rows) h =
      (λ e. ground arith, λ e. patterns_tested m rows (ground arith))

-- the body of a mapped error, with the detail and the data as the upstream gave them
abbrev pub data_of : Json → Option Json
data_of null = none
data_of v = some v

-- Every JSON-RPC error becomes a problem with one of the documented error statuses. The response
-- has that status, and its body shows the same status, the upstream's code and message unchanged,
-- and the upstream's data if there is any.
pub problem_response-map_jsonrpc_error :
    (render : Message → Text) (code : ℤ) (msg : Text) (extra : Json)
    → (is_error_status (problem_response (map_jsonrpc_error code msg extra)).status ≡ true)
      × (get (to_dict render (map_jsonrpc_error code msg extra)) (codes "status")
          ≡ some (nat (problem_response (map_jsonrpc_error code msg extra)).status))
      × (get (to_dict render (map_jsonrpc_error code msg extra)) (codes "code") ≡ some (int code))
      × (get (to_dict render (map_jsonrpc_error code msg extra)) (codes "detail")
          ≡ some (str (render (says "{message}" (str msg ∷ [])))))
      × (get (to_dict render (map_jsonrpc_error code msg extra)) (codes "data") ≡ data_of extra)
unfolding problem_response map_jsonrpc_error to_dict
problem_response-map_jsonrpc_error render code msg extra = (
  jsonrpc_row_holds (λ r. is_error_status r.status ≡ true) code msg
      (codes_tested (λ r. is_error_status r.status) standard_codes refl)
      (λ _. patterns_tested (λ r. is_error_status r.status) (lower msg) m32000_patterns refl) refl,
  status extra,
  code_field extra,
  detail extra,
  extra_field extra,
)
  where
    dict : Json → Fields
    dict v = to_dict render (map_jsonrpc_error code msg v)

    status : (v : Json) → get (dict v) (codes "status") ≡ some (nat (jsonrpc_row code msg).status)
    status null = refl
    status _ = refl

    code_field : (v : Json) → get (dict v) (codes "code") ≡ some (int code)
    code_field null = refl
    code_field _ = refl

    detail :
        (v : Json)
        → get (dict v) (codes "detail") ≡ some (str (render (says "{message}" (str msg ∷ []))))
    detail null = refl
    detail _ = refl

    extra_field : (v : Json) → get (dict v) (codes "data") ≡ data_of v
    extra_field null = refl
    extra_field _ = refl

-- if the row says 413, the pagination asks for a smaller chunk
abbrev ShrinksOn : ℤ → Text → Row → Type 0
ShrinksOn c m r = r.status ≡ 413 → is_too_large c m ≡ true

codes_shrink :
    (c : ℤ) (m : Text) (rows : List (ℤ × Row))
    → all (λ r. not (r.1.status == 413)) rows ≡ true
    → AllCodes (ShrinksOn c m) rows
codes_shrink c m [] h = tt
codes_shrink c m ((d, r) ∷ rows) h = (λ p. ground arith, codes_shrink c m rows (ground arith))

ranges_shrink :
    (c : ℤ) (m : Text)
    → int_eq c (minus 32000) ≡ true
    → AllPatterns (ShrinksOn c m) (lower m) m32000_patterns
unfolding is_too_large
ranges_shrink c m e =
    skip (λ p. ground arith)
      (λ _.
        skip (λ p. ground arith)
          (λ _.
            skip (λ p. ground arith)
              (λ _.
                skip (λ p. ground arith)
                  (λ _.
                    skip (λ p. ground arith)
                      (λ _.
                        skip (λ p. ground arith)
                          (λ _.
                            skip (λ p. ground arith)
                              (λ _. (
                                λ h p. rw e (rw h refl),
                                λ n. (λ h p. rw e (rw n (rw h refl)), λ _. tt),
                              ))))))))
  where
    skip : {A B C : Type 0} → A → (B → C) → A × (B → C)
    skip a b = (a, b)

abbrev is_replacement : Text → Bool
is_replacement m = is_in (codes "replacement transaction underpriced") m

abbrev is_underpriced : Row → Bool
is_underpriced r = text_eq (codes r.slug) (codes "transaction-rejected/underpriced")

replacement_first :
    (m : Text)
    → AllPatterns (λ r. is_replacement m ≡ true → is_underpriced r ≡ false) m m32000_patterns
replacement_first m = (
  λ _ _. refl,
  λ _. (
    λ _ _. refl,
    λ _. (
      λ _ _. refl,
      λ n. (
        λ _ y. cc,
        λ _. (
          λ _ _. refl,
          λ _. (λ _ _. refl, λ _. (λ _ _. refl, λ _. (λ _ _. refl, λ _. (λ _ _. refl, λ _. tt)))),
        ),
      ),
    ),
  ),
)

codes_never :
    (b : Bool) (rows : List (ℤ × Row))
    → all (λ r. not (is_underpriced r.1)) rows ≡ true
    → AllCodes (λ r. b ≡ true → is_underpriced r ≡ false) rows
codes_never b [] h = tt
codes_never b ((c, r) ∷ rows) h = (λ _. ground arith, codes_never b rows (ground arith))

-- An error with the message of an underpriced replacement is never reported as an underpriced
-- transaction, though the words of that one stand in its message.
pub jsonrpc_row-replacement :
    (code : ℤ) (msg : Text)
    → is_in (codes "replacement transaction underpriced") (lower msg) ≡ true
    → text_eq (codes (jsonrpc_row code msg).slug) (codes "transaction-rejected/underpriced") ≡ false
jsonrpc_row-replacement code msg =
    jsonrpc_row_holds (λ r. is_replacement (lower msg) ≡ true → is_underpriced r ≡ false) code msg
      (codes_never (is_replacement (lower msg)) standard_codes refl)
      (λ _. replacement_first (lower msg)) (λ _. refl)

-- An error that is reported as 413 is one after which the pagination asks for a smaller chunk.
pub jsonrpc_row-is_too_large :
    (code : ℤ) (msg : Text) → (jsonrpc_row code msg).status ≡ 413 → is_too_large code msg ≡ true
jsonrpc_row-is_too_large code msg =
    jsonrpc_row_holds (ShrinksOn code msg) code msg (codes_shrink code msg standard_codes refl)
      (ranges_shrink code msg) (λ p. ground arith)
