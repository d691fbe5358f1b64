-- ===== src/Pagination/Total.antt =====
-- pagination.py: whatever the node answers, the loop ends, and a page never passes the limit.
use exec_rest_api.Base.{
  ℕ, zero, suc, ◌+◌, ◌-◌, ◌*◌, ◌≤◌, ◌<◌, ◌≡◌, refl, true, Option, none, List, [], ◌∷◌, ◌++◌, ◌&&◌,
  ◌⊎◌, inl, inr, ℤ, pos, negsuc, Text, arith, length, length-append, leb, ltb, Bool-cases, codes,
  ◌≢◌, ◌∙◌, ap,
}
use exec_rest_api.Json.{
  Json, null, str, obj, Fields, Exn, out_of_fuel, Result, ok, err, elements, item, ◌>>=◌,
}
use exec_rest_api.Encoding.{hex_to_int}
use exec_rest_api.Exec.{Call, Reply, result, rpc_fails, transport_fails, crashes, Upstream}
use exec_rest_api.Pagination.{
  PaginationResult, is_too_large, get_logs, log_position, in_window, PageEnd, full, scanned,
  scan_page, shrink, grow, fetch_loop, fetch_range, fuel_for, last_of, first_window, min_chunk_size,
  fetch_logs_paginated,
}

-- No exception of the program's is the model's own.
abbrev Ends {ℓ} : {A : Type ℓ} → Result A → Type ℓ
Ends r = r ≢ err out_of_fuel

Ends-bind {ℓ κ} :
    {A : Type ℓ} {B : Type κ} (r : Result A) (f : A → Result B)
    → r ≢ err out_of_fuel
    → ((a : A) → f a ≢ err out_of_fuel)
    → (r >>= f) ≢ err out_of_fuel
Ends-bind (ok a) f hr hf = hf a
Ends-bind (err e) f hr hf = λ p. hr (cc)

Ends-item : (v : Json) (k : Text) → item v k ≢ err out_of_fuel
Ends-item null k = cc
Ends-item (obj fs) k = ground arith
Ends-item _ k = cc

Ends-hex_to_int : (v : Json) → hex_to_int v ≢ err out_of_fuel
unfolding hex_to_int
Ends-hex_to_int (str s) = ground arith
Ends-hex_to_int _ = cc

Ends-log_position : (log : Json) → log_position log ≢ err out_of_fuel
unfolding log_position
Ends-log_position log = Ends-bind (item log (codes "blockNumber")) _ (Ends-item log _) λ b.
    Ends-bind (hex_to_int b) _ (Ends-hex_to_int b) λ block.
      Ends-bind (item log (codes "logIndex")) _ (Ends-item log _)
        λ i. Ends-bind (hex_to_int i) _ (Ends-hex_to_int i) λ index. cc

Ends-elements : (v : Json) → elements v ≢ err out_of_fuel
Ends-elements null = cc
Ends-elements _ = cc

Result-cases {ℓ} : {A : Type ℓ} (r : Result A) → ((a : A) × (r ≡ ok a)) ⊎ ((x : Exn) × (r ≡ err x))
Result-cases (ok a) = inl (a, refl)
Result-cases (err x) = inr (x, refl)

abbrev IsShort : ℕ → Result PageEnd → Type 0
IsShort limit (ok (full p)) = length p.items ≤ limit
IsShort limit (ok (scanned more)) = length more ≤ limit
IsShort limit (err e) = e ≢ out_of_fuel

IsShort-scan_page :
    (limit : ℕ) (skip : ℤ) (window : Option ℕ) (acc logs : List Json)
    → length acc < limit
    → IsShort limit (scan_page limit skip window acc logs)
unfolding scan_page
IsShort-scan_page limit skip window acc [] room = omega arith
IsShort-scan_page limit skip window acc (log ∷ logs) room = elim (Result-cases (log_position log)) [
  | inl ((b, i), e) ↦ rw e (elim (Bool-cases (in_window window skip b i)) [
    | inl seen ↦ rw seen (IsShort-scan_page limit skip window acc logs room)
    | inr new ↦ rw new (elim (Bool-cases (leb limit (length acc + 1))) [
      | inl last ↦ rw last (omega (arith, length-append acc (log ∷ [])))
      | inr more ↦ rw more (
          IsShort-scan_page limit skip window (acc ++ log ∷ []) logs
            (ground (arith, length-append acc (log ∷ []))))
    ])
  ])
  | inr (x, e) ↦ rw e (λ p. Ends-log_position log (e ∙ ap err p))
]

abbrev pub IsPage : ℕ → Result PaginationResult → Type 0
IsPage limit (ok p) = length p.items ≤ limit
IsPage limit (err e) = e ≢ out_of_fuel

module _ (u : Upstream) (filter : Fields) (to limit : ℕ) (skip : ℤ) where
  -- the claim for f more rounds
  abbrev Holds : ℕ → Type 0
  Holds f =
      (cur chunk : ℕ) (window : Option ℕ) (acc : List Json) (h : List Call)
      → length acc ≤ limit
      → 1 ≤ chunk
      → chunk ≤ 5000
      → (to + 1 - cur) * 5001 + chunk < f
      → IsPage limit (fetch_loop u filter to limit skip f cur chunk window acc h).0

  module _ (f : ℕ) (ih : Holds f) (cur chunk : ℕ) (window : Option ℕ) (acc : List Json)
      (h : List Call) (more : leb cur to && ltb (length acc) limit ≡ true) (low : 1 ≤ chunk)
      (high : chunk ≤ 5000) (fuel : (to + 1 - cur) * 5001 + chunk < suc f) where
    abbrev Round : Type 0
    Round = IsPage limit (fetch_loop u filter to limit skip (suc f) cur chunk window acc h).0

    after_scan :
        (v : Json) (logs : List Json) (r : Result PageEnd)
        → u h (get_logs filter cur (last_of to cur chunk)) ≡ result v
        → elements v ≡ ok logs
        → scan_page limit skip window acc logs ≡ r
        → IsShort limit r
        → Round
    unfolding fetch_loop
    after_scan v logs (ok (full p)) a b c short = rw more (rw a (rw b (rw c short)))
    after_scan v logs (ok (scanned acc')) a b c short = rw more (
        rw a (
          rw b (
            rw c (
              ih (last_of to cur chunk + 1) (grow chunk) none acc'
                (h ++ get_logs filter cur (last_of to cur chunk) ∷ []) short (omega arith)
                (omega arith) (ground arith)))))
    after_scan v logs (err x) a b c short = rw more (rw a (rw b (rw c short)))

    after_reply : (r : Reply) → u h (get_logs filter cur (last_of to cur chunk)) ≡ r → Round
    unfolding fetch_loop
    after_reply (result v) a = elim (Result-cases (elements v)) [
      | inr (x, bad) ↦ rw more (rw a (rw bad (λ p. Ends-elements v (bad ∙ ap err p))))
      | inl (logs, good) ↦
          after_scan v logs (scan_page limit skip window acc logs) a good refl
            (IsShort-scan_page limit skip window acc logs (ground arith))
    ]
    after_reply (rpc_fails c m d) a =
        elim (Bool-cases (is_too_large c m && ltb min_chunk_size chunk)) [
          | inl refused ↦ rw more (
              rw a (
                rw refused (
                  ih cur (shrink chunk) window acc
                    (h ++ get_logs filter cur (last_of to cur chunk) ∷ []) (ground arith)
                    (omega arith) (omega arith) (ground arith))))
          | inr other ↦ rw more (rw a (rw other (λ p. cc)))
        ]
    after_reply (transport_fails m) a = rw more (rw a (λ p. cc))
    after_reply (crashes m) a = rw more (rw a (λ p. cc))

  IsPage-fetch_loop : (f : ℕ) → Holds f
  unfolding fetch_loop
  IsPage-fetch_loop zero cur chunk window acc h room low high fuel = absurd (omega arith)
  IsPage-fetch_loop (suc f) cur chunk window acc h room low high fuel =
      elim (Bool-cases (leb cur to && ltb (length acc) limit)) [
        | inr over ↦ rw over room
        | inl more ↦
            after_reply f (IsPage-fetch_loop f) cur chunk window acc h more low high fuel
              (u h (get_logs filter cur (last_of to cur chunk))) refl
      ]

-- Whatever the node answers, the fetch ends: it returns at most `limit` logs, or raises an exception
-- that is not the model's own mark of a loop without end.
pub fetch_logs_paginated_total :
    (u : Upstream) (filter : Fields) (from to : ℤ) (limit : ℕ) (skip : ℤ) (h : List Call)
    → IsPage limit (fetch_logs_paginated u filter from to limit skip h).0
unfolding fetch_logs_paginated fetch_range
fetch_logs_paginated_total u filter (pos from) (pos to) limit skip h =
    IsPage-fetch_loop u filter to limit skip (fuel_for from to) from 5000 (first_window skip from)
      [] h (omega arith) (omega arith) (omega arith) (omega arith)
fetch_logs_paginated_total u filter (pos from) (negsuc to) limit skip h = omega arith
fetch_logs_paginated_total u filter (negsuc from) (pos to) limit skip h =
    elim (Bool-cases (ltb 0 limit)) [ inl e ↦ rw e (λ p. cc) | inr e ↦ rw e (omega arith) ]
fetch_logs_paginated_total u filter (negsuc from) (negsuc to) limit skip h =
    elim (Bool-cases (leb to from && ltb 0 limit)) [
      | inl e ↦ rw e (λ p. cc)
      | inr e ↦ rw e (omega arith)
    ]
