-- ===== src/Pagination/Tests.antt =====
-- pagination.py: a node that serves two logs a block and refuses ranges of more than two blocks.
use exec_rest_api.Base.{
  ℕ, ◌+◌, ◌-◌, ◌≡◌, ◌&&◌, refl, true, some, List, [], ◌∷◌, inl, inr, pos, negsuc, codes,
  if◌then◌else◌, arith, ltb, Bool-cases, drop,
}
use exec_rest_api.Json.{Json, null, str, obj, list, end, field, get, or_null, ok}
use exec_rest_api.Encoding.{hex, int_of_hex, hex_to_int}
use exec_rest_api.Encoding.Numerals.{print_16, value-print_16}
use exec_rest_api.Encoding.RoundTrip.{hex_to_int-hex}
use exec_rest_api.Errors.{minus}
use exec_rest_api.Exec.{Call, Reply, result, rpc_fails, Upstream}
use exec_rest_api.Pagination.{
  is_too_large, get_logs, log_position, fetch_range, fetch_loop, scan_page, fetch_logs_paginated,
  first_window,
}
use exec_rest_api.Pagination.Archive.{Archive, Serves, range, logs_of, page, unseen}
use exec_rest_api.Pagination.Loop.{fetch_range-page}
use exec_rest_api.Pagination.Total.{IsPage, fetch_logs_paginated_total}
use exec_rest_api.Pagination.Resume.{IsIndexed, resume-page}

abbrev log_at : ℕ → ℕ → Json
log_at b i =
    obj (field (codes "blockNumber") (str (hex b)) (field (codes "logIndex") (str (hex i)) end))

abbrev archive : Archive
archive b = (0, log_at b 0) ∷ (3, log_at b 3) ∷ []

abbrev refusal : Reply
refusal = rpc_fails (minus 32000) (codes "query returned more than 10000 results") null

abbrev serve : ℕ → ℕ → Reply
serve a b =
    if ltb a b && ltb 2 (b + 1 - a)
    then refusal
    else result (list (logs_of (range archive a (b + 1 - a))))

abbrev number_in : Json → ℕ
number_in (str s) = int_of_hex s
number_in _ = 0

abbrev on_params : List Json → Reply
on_params (obj fs ∷ _) =
    serve (number_in (or_null (get fs (codes "fromBlock"))))
      (number_in (or_null (get fs (codes "toBlock"))))
on_params _ = result null

abbrev node : Upstream
node h c = on_params c.params

log_at-position : (b i : ℕ) → log_position (log_at b i) ≡ ok (b, i)
unfolding log_position
log_at-position b i = rw hex_to_int-hex (rw hex_to_int-hex)

node_answers : (h : List Call) (a b : ℕ) → node h (get_logs end a b) ≡ serve a b
node_answers h a b = rw value-print_16 (rw value-print_16)

refusal_is_too_large :
    is_too_large (minus 32000) (codes "query returned more than 10000 results") ≡ true
unfolding is_too_large
refusal_is_too_large = refl

node-Serves : Serves node end archive
node-Serves = record {
  placed = λ b. (log_at-position b 0, (log_at-position b 3, tt));
  answers = λ h a b le. elim (Bool-cases (ltb a b && ltb 2 (b + 1 - a))) [
    | inl large ↦ inr (
      minus 32000,
      codes "query returned more than 10000 results",
      null,
      rw (node_answers h a b) (rw large),
      refusal_is_too_large,
      ground arith,
    )
    | inr small ↦ inl (rw (node_answers h a b) (rw small))
  ];
}

archive-IsIndexed : IsIndexed archive
archive-IsIndexed b = omega arith

fetch_range-page_example :
    (fetch_range node end 9 5 (negsuc 0) 4 []).0
    ≡ ok (page 5 (unseen (first_window (negsuc 0) 4) (negsuc 0) (range archive 4 6)))
fetch_range-page_example = fetch_range-page node end 9 5 (negsuc 0) archive node-Serves 4 []

resume-page_example :
    (fetch_range node end 9 5 (pos 3) 5 []).0 ≡ ok (page 5 (drop 4 (range archive 4 6)))
resume-page_example =
    resume-page node end 9 archive node-Serves archive-IsIndexed 4 3 5
      (record { block = 5; index = 3; log = log_at 5 3 }) [] refl

fetch_logs_paginated_total_example :
    IsPage 3 (fetch_logs_paginated node end (pos 4) (pos 9) 3 (negsuc 0) []).0
fetch_logs_paginated_total_example =
    fetch_logs_paginated_total node end (pos 4) (pos 9) 3 (negsuc 0) []

-- The code itself, run.
three_logs :
    (fetch_logs_paginated node end (pos 4) (pos 9) 3 (negsuc 0) []).0
    ≡ ok (record {
      items = log_at 4 0 ∷ log_at 4 3 ∷ log_at 5 0 ∷ [];
      next_from_block = some 5;
      last_log_index = pos 0;
    })
unfolding fetch_logs_paginated fetch_range fetch_loop scan_page log_position hex_to_int print_16
    is_too_large
three_logs = refl
