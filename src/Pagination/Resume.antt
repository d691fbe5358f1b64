-- ===== src/Pagination/Resume.antt =====
-- pagination.py: a query resumed at a cursor's position goes on with the very next log.
use exec_rest_api.Base.{
  ℕ, zero, suc, ◌+◌, ◌-◌, ◌≤◌, ◌<◌, ◌≡◌, refl, sym, ap, ap₂, ◌∙◌, true, false, some, List, [], ◌∷◌,
  ◌++◌, inl, inr, pos, not, drop, arith, length, Bool-cases, keep-append, ltb, ltb→lt,
}
use exec_rest_api.Json.{Json, Fields, ok}
use exec_rest_api.Exec.{Call, Upstream}
use exec_rest_api.Pagination.{in_window, fetch_range, first_window}
use exec_rest_api.Pagination.Archive.{
  Entry, Archive, Serves, at_block, range, unseen, page, get_elem?,
}
use exec_rest_api.Pagination.Window.{unseen-range_past}
use exec_rest_api.Pagination.Loop.{fetch_range-page}

-- The log indices of a block ascend: all of them lie above the bound of those before.
abbrev IsAscending : ℕ → List (ℕ × Json) → Type 0
IsAscending low [] = Unit
IsAscending low ((i, log) ∷ rest) = (low ≤ i) × IsAscending (suc i) rest

abbrev pub IsIndexed : Archive → Type 0
IsIndexed logs = (b : ℕ) → IsAscending 0 (logs b)

module _ {ℓ} {A : Type ℓ} where
  get_elem?-append_lt :
      (xs ys : List A) (n : ℕ) → n < length xs → get_elem? (xs ++ ys) n ≡ get_elem? xs n
  get_elem?-append_lt [] ys n h = elim h [ ]
  get_elem?-append_lt (x ∷ xs) ys zero h = refl
  get_elem?-append_lt (x ∷ xs) ys (suc n) h = get_elem?-append_lt xs ys n (omega arith)

  get_elem?-append_ge :
      (xs ys : List A) (n : ℕ)
      → length xs ≤ n
      → get_elem? (xs ++ ys) n ≡ get_elem? ys (n - length xs)
  get_elem?-append_ge [] ys n h = ap (get_elem? ys) (omega arith)
  get_elem?-append_ge (x ∷ xs) ys zero h = elim h [ ]
  get_elem?-append_ge (x ∷ xs) ys (suc n) h =
      get_elem?-append_ge xs ys n (omega arith) ∙ ap (get_elem? ys) (omega arith)

  drop-append_lt : (xs ys : List A) (n : ℕ) → n ≤ length xs → drop n (xs ++ ys) ≡ drop n xs ++ ys
  drop-append_lt xs ys zero h = refl
  drop-append_lt [] ys (suc n) h = elim h [ ]
  drop-append_lt (x ∷ xs) ys (suc n) h = drop-append_lt xs ys n (omega arith)

  drop-append_ge :
      (xs ys : List A) (n : ℕ) → length xs ≤ n → drop n (xs ++ ys) ≡ drop (n - length xs) ys
  drop-append_ge [] ys n h = ap (λ k. drop k ys) (omega arith)
  drop-append_ge (x ∷ xs) ys zero h = elim h [ ]
  drop-append_ge (x ∷ xs) ys (suc n) h =
      drop-append_ge xs ys n (omega arith) ∙ ap (λ k. drop k ys) (omega arith)

new_log : (w i b j : ℕ) → i < j → not (in_window (some w) (pos i) b j) ≡ true
new_log w i b j h = ground arith

seen_log : (w i b j : ℕ) → w ≡ b → j ≤ i → not (in_window (some w) (pos i) b j) ≡ false
seen_log w i b j e h = ground arith

-- Above a bound of all seen indices nothing of the block was seen.
unseen-above :
    (w i b low : ℕ) (es : List (ℕ × Json))
    → IsAscending low es
    → i < low
    → unseen (some w) (pos i) (at_block b es) ≡ at_block b es
unseen-above w i b low [] a h = refl
unseen-above w i b low ((j, log) ∷ es) (le, a) h = rw (new_log w i b j (omega arith)) (
    ap (λ (l : List Entry). record { block = b; index = j; log = log } ∷ l)
      (unseen-above w i b (suc j) es a (omega arith)))

-- In its own block, what follows the n-th log is what was not seen.
unseen-at_block :
    (b low n : ℕ) (es : List (ℕ × Json)) (e : Entry)
    → IsAscending low es
    → get_elem? (at_block b es) n ≡ some e
    → (e.block ≡ b)
      × (low ≤ e.index)
      × (unseen (some e.block) (pos e.index) (at_block b es) ≡ drop (suc n) (at_block b es))
unseen-at_block b low n [] e a h = cc
unseen-at_block b low zero ((j, log) ∷ es) e (le, a) h =
    let here : b ≡ e.block = cc in
    let this : j ≡ e.index = cc in
    (
      sym here,
      omega arith,
      rw (seen_log e.block e.index b j (sym here) (omega arith))
          (unseen-above e.block e.index b (suc j) es a (omega arith)),
    )
unseen-at_block b low (suc n) ((j, log) ∷ es) e (le, a) h =
    let (here, above, tail_) = unseen-at_block b (suc j) n es e a h in
    (here, omega arith, rw (seen_log e.block e.index b j here (omega arith)) tail_)

-- From the block of the n-th log on, what was not seen is what follows that log in the whole range.
unseen-range :
    (logs : Archive) (a count n : ℕ) (e : Entry)
    → IsIndexed logs
    → get_elem? (range logs a count) n ≡ some e
    → (a ≤ e.block)
      × (e.block < a + count)
      × (unseen (some e.block) (pos e.index) (range logs e.block (a + count - e.block))
          ≡ drop (suc n) (range logs a count))
unseen-range logs a zero n e indexed h = cc
unseen-range logs a (suc count) n e indexed h =
    let xs = at_block a (logs a) in
    let ys = range logs (suc a) count in
    elim (Bool-cases (ltb n (length xs))) [
      | inl first ↦
          let in_block = sym (get_elem?-append_lt xs ys n (ground arith)) ∙ h in
          let (here, above, tail_) = unseen-at_block a 0 n (logs a) e (indexed a) in_block in
          let whole : a + suc count - e.block ≡ suc count = omega arith in
          (
            omega arith,
            omega arith,
            ap₂ (λ b k. unseen (some e.block) (pos e.index) (range logs b k)) here whole
                ∙ keep-append _ xs ys
                ∙ ap₂ (λ us vs. us ++ vs) tail_
                    (unseen-range_past (some e.block) (pos e.index) logs (suc a) count
                      (omega arith))
                ∙ sym (drop-append_lt xs ys (suc n) (ltb→lt n (length xs) first)),
          )
      | inr later ↦
          let past = sym (get_elem?-append_ge xs ys n (ground arith)) ∙ h in
          let next : suc (n - length xs) ≡ suc n - length xs = ground arith in
          let (le, lt, tail_) = unseen-range logs (suc a) count (n - length xs) e indexed past in
          (
            omega arith,
            omega arith,
            ap (λ k. unseen (some e.block) (pos e.index) (range logs e.block k)) (omega arith)
                ∙ tail_
                ∙ ap (λ k. drop k ys) next
                ∙ sym (drop-append_ge xs ys (suc n) (ground arith)),
          )
    ]

window_of_cursor : (i b : ℕ) → first_window (pos i) b ≡ some b
window_of_cursor i b = ground arith

module _ (u : Upstream) (filter : Fields) (to : ℕ) (logs : Archive) (serves : Serves u filter logs)
    (indexed : IsIndexed logs) where
  -- The cursor after the n-th log of the blocks from `from` to `to` holds that log's block and index.
  -- For a node that serves an archive whose indices ascend in each block, the query resumed there
  -- returns the page of the logs that follow: none is lost and none comes twice.
  pub resume-page :
      (from n limit : ℕ) (e : Entry) (h : List Call)
      → get_elem? (range logs from (to + 1 - from)) n ≡ some e
      → (fetch_range u filter to limit (pos e.index) e.block h).0
        ≡ ok (page limit (drop (suc n) (range logs from (to + 1 - from))))
  resume-page from n limit e h at =
      let (le, lt, tail_) = unseen-range logs from (to + 1 - from) n e indexed at in
      fetch_range-page u filter to limit (pos e.index) logs serves e.block h
      ∙ rw (window_of_cursor e.index e.block) (
          ap (λ es. ok (page limit es))
            (ap (λ k. unseen (some e.block) (pos e.index) (range logs e.block k)) (same le lt)
              ∙ tail_))
    where
      same :
          from ≤ e.block
          → e.block < from + (to + 1 - from)
          → to + 1 - e.block ≡ from + (to + 1 - from) - e.block
      same le lt = omega arith
