-- ===== src/Pagination.antt =====
-- pagination.py: the block-range chunking of `/logs`. The loop runs on fuel; `fuel_for` is enough,
-- since each round either passes a block or shrinks a chunk of at most 5000 blocks.
-- A limit below 1 is 0 here, and `last_log_index` and `skip_until_log_index` may be -1.
pub mod Archive
pub mod Scan
pub mod Window
pub mod Loop
pub mod Total
pub mod Resume
mod Tests
use exec_rest_api.Base.{
  ℕ, zero, suc, ◌+◌, ◌-◌, ◌*◌, ◌/◌, min, max, String, Bool, true, false, Option, none, some, List,
  [], ◌∷◌, ◌++◌, ◌&&◌, ◌||◌, ℤ, pos, negsuc, int_eq, int_leb, Text, codes, if◌then◌else◌, is_in,
  lower, leb, ltb, ◌==◌, length,
}
use exec_rest_api.Json.{
  Json, str, obj, int, Fields, put, remove, Message, says, encoding_error, rpc_error,
  upstream_error, other_error, out_of_fuel, Result, ok, err, item, elements, ◌>>=◌,
}
use exec_rest_api.Encoding.{hex, hex_to_int}
use exec_rest_api.Errors.{minus}
use exec_rest_api.Exec.{Call, Reply, result, rpc_fails, transport_fails, crashes, Upstream, Exec}

abbrev pub default_chunk_size : ℕ
default_chunk_size = 5000

abbrev pub min_chunk_size : ℕ
min_chunk_size = 1

pub record PaginationResult : Type 0 where
  pub items : List Json
  pub next_from_block : Option ℕ
  pub last_log_index : ℤ

unfoldable pub is_too_large : ℤ → Text → Bool
is_too_large code msg =
    int_eq code (minus 32000)
    && (is_in (codes "query returned more than") (lower msg)
        || is_in (codes "exceed maximum block range") (lower msg))

-- params of one call: the filter with its block range overridden
abbrev pub range_params : Fields → ℕ → ℕ → Json
range_params filter cur last = obj (
    put
      (put (remove (remove filter (codes "fromBlock")) (codes "toBlock")) (codes "fromBlock")
        (str (hex cur)))
      (codes "toBlock") (str (hex last)))

abbrev pub get_logs : Fields → ℕ → ℕ → Call
get_logs filter cur last = record {
  method = "eth_getLogs";
  params = range_params filter cur last ∷ [];
}

-- hex_to_int(log["blockNumber"]), hex_to_int(log["logIndex"])
unfoldable pub log_position : Json → Result (ℕ × ℕ)
log_position log = do
  b ← item log (codes "blockNumber")
  block ← hex_to_int b
  i ← item log (codes "logIndex")
  index ← hex_to_int i
  ok (block, index)

-- `block_number == skip_window_block and log_index <= skip_until_log_index`; no window is -1
abbrev pub in_window : Option ℕ → ℤ → ℕ → ℕ → Bool
in_window none skip block index = false
in_window (some w) skip block index = block == w && int_leb (pos index) skip

-- how the `for` loop over a page ends: by the limit, or at the end of the page
pub data PageEnd : Type 0 where
  full : PaginationResult → PageEnd
  scanned : List Json → PageEnd

module _ (limit : ℕ) (skip : ℤ) (window : Option ℕ) where
  unfoldable pub scan_page : List Json → List Json → Result PageEnd
  scan_page items [] = ok (scanned items)
  scan_page items (log ∷ logs) = log_position log >>= λ p.
      let passed = scan_page items logs in
      let taken = scan_page (items ++ log ∷ []) logs in
      if in_window window skip p.0 p.1
      then passed
      else if leb limit (length items + 1)
      then (ok (
          full (record {
            items = items ++ log ∷ [];
            next_from_block = some p.0;
            last_log_index = pos p.1;
          })))
      else taken

abbrev pub shrink : ℕ → ℕ
shrink chunk = max min_chunk_size (chunk / 2)

abbrev pub grow : ℕ → ℕ
grow chunk = min default_chunk_size (max min_chunk_size (chunk * 2))

abbrev pub finished : List Json → PaginationResult
finished items = record { items = items; next_from_block = none; last_log_index = negsuc 0 }

abbrev pub fuel_for : ℕ → ℕ → ℕ
fuel_for from to = suc ((to + 1 - from) * 5001 + 5001)

-- `skip_window_block` at the start
abbrev pub first_window : ℤ → ℕ → Option ℕ
first_window skip from = if int_leb (pos 0) skip then some from else none

-- the last block of a chunk
abbrev pub last_of : ℕ → ℕ → ℕ → ℕ
last_of to cur chunk = min (cur + chunk - 1) to

module _ (u : Upstream) (filter : Fields) (to limit : ℕ) (skip : ℤ) where
  -- the `while` loop; `window` is `skip_window_block`
  unfoldable pub fetch_loop : ℕ → ℕ → ℕ → Option ℕ → List Json → Exec PaginationResult
  fetch_loop zero cur chunk window items h = (err out_of_fuel, h)
  fetch_loop (suc f) cur chunk window items h =
      let last = last_of to cur chunk in
      let h' = h ++ get_logs filter cur last ∷ [] in
      let next = λ (more : List Json). fetch_loop f (last + 1) (grow chunk) none more h' in
      let retry = fetch_loop f cur (shrink chunk) window items h' in
      if leb cur to && ltb (length items) limit
      then (elim (u h (get_logs filter cur last)) [
        | result v ↦ elim (elements v >>= scan_page limit skip window items) [
          | err e ↦ (err e, h')
          | ok (full r) ↦ (ok r, h')
          | ok (scanned more) ↦ next more
        ]
        | rpc_fails c m d ↦
            if is_too_large c m && ltb min_chunk_size chunk
            then retry
            else (err (rpc_error c m d), h')
        | transport_fails m ↦ (err (upstream_error m), h')
        | crashes m ↦ (err (other_error m), h')
      ])
      else (ok (finished items), h)

  -- the loop from its initial state, for a range of block numbers
  unfoldable pub fetch_range : ℕ → Exec PaginationResult
  fetch_range from =
      fetch_loop (fuel_for from to) from default_chunk_size (first_window skip from) []

-- A cursor's range may be negative: an empty range returns at once, and a negative first block
-- fails in `decimal_to_hex`.
unfoldable pub fetch_logs_paginated : Upstream → Fields → ℤ → ℤ → ℕ → ℤ → Exec PaginationResult
fetch_logs_paginated u filter (pos from) (pos to) limit skip =
    fetch_range u filter to limit skip from
fetch_logs_paginated u filter (pos from) (negsuc to) limit skip = λ h. (ok (finished []), h)
fetch_logs_paginated u filter (negsuc from) to limit skip = λ h. (
  if int_leb (negsuc from) to && ltb 0 limit
      then err
          (encoding_error (says "expected non-negative int, got {n!r}" (int (negsuc from) ∷ [])))
      else ok (finished []),
  h,
)
