-- ===== src/Pagination/Archive.antt =====
-- pagination.py: what the pages of `/logs` are meant to be, with no chunks. An archive gives each
-- block its logs, a log with its index; a node that serves it answers `eth_getLogs` for a range with
-- the logs of its blocks in order, or refuses a range of several blocks as too large.
use exec_rest_api.Base.{
  ℕ, zero, suc, ◌+◌, ◌-◌, ◌≤◌, ◌<◌, ◌≡◌, true, Option, none, some, List, [], ◌∷◌, ◌++◌, ◌⊎◌, ℤ, pos,
  Text, not, map, take, keep,
}
use exec_rest_api.Json.{Json, list, Fields, ok}
use exec_rest_api.Exec.{Call, result, rpc_fails, Upstream}
use exec_rest_api.Pagination.{
  PaginationResult, is_too_large, get_logs, log_position, in_window, finished,
}

pub record Entry : Type 0 where
  pub block : ℕ
  pub index : ℕ
  pub log : Json

abbrev pub Archive : Type 0
Archive = ℕ → List (ℕ × Json)

abbrev pub at_block : ℕ → List (ℕ × Json) → List Entry
at_block b [] = []
at_block b ((i, log) ∷ rest) = record { block = b; index = i; log = log } ∷ at_block b rest

-- the logs of the n blocks from a on
abbrev pub range : Archive → ℕ → ℕ → List Entry
range logs a zero = []
range logs a (suc n) = at_block a (logs a) ++ range logs (suc a) n

abbrev pub log_of : Entry → Json
log_of e = e.log

abbrev pub logs_of : List Entry → List Json
logs_of = map log_of

-- The two quantities in a log give its block and its index.
abbrev pub IsPlaced : ℕ → List (ℕ × Json) → Type 0
IsPlaced b [] = Unit
IsPlaced b ((i, log) ∷ rest) = (log_position log ≡ ok (b, i)) × IsPlaced b rest

pub record Serves (u : Upstream) (filter : Fields) (logs : Archive) : Type 0 where
  pub placed : (b : ℕ) → IsPlaced b (logs b)
  pub answers :
      (h : List Call) (a b : ℕ)
      → a ≤ b
      → (u h (get_logs filter a b) ≡ result (list (logs_of (range logs a (b + 1 - a)))))
        ⊎ ((c : ℤ) × (m : Text) × (d : Json) × (u h (get_logs filter a b) ≡ rpc_fails c m d)
            × (is_too_large c m ≡ true)
            × (a < b))

-- The logs that a resumed query has not returned before: those past index `skip` on its first
-- block, and all on later blocks.
abbrev pub unseen : Option ℕ → ℤ → List Entry → List Entry
unseen window skip = keep (λ e. not (in_window window skip e.block e.index))

abbrev pub get_elem? {ℓ} : {A : Type ℓ} → List A → ℕ → Option A
get_elem? [] n = none
get_elem? (x ∷ xs) zero = some x
get_elem? (x ∷ xs) (suc n) = get_elem? xs n

abbrev pub close : List Json → List Json → Option Entry → PaginationResult
close short long none = finished short
close short long (some e) = record {
  items = long;
  next_from_block = some e.block;
  last_log_index = pos e.index;
}

-- The first `limit` logs, with the position of the last of them if there are so many.
abbrev pub page : ℕ → List Entry → PaginationResult
page zero es = finished []
page (suc n) es = close (logs_of es) (logs_of (take (suc n) es)) (get_elem? es n)
