-- ===== src/Pagination/Loop.antt =====
-- pagination.py: the chunks cannot be seen in the result, and the loop ends.
use exec_rest_api.Base.{
  ℕ, zero, suc, ◌+◌, ◌-◌, ◌*◌, ◌≤◌, ◌<◌, ◌≡◌, refl, ap, ◌∙◌, Bool, true, false, Option, none, some,
  List, [], ◌∷◌, ◌++◌, ◌&&◌, ℤ, pos, Text, if◌then◌else◌, arith, length, leb, ltb, le→leb, lt→ltb,
  Bool-cases, ◌⊎◌, inl, inr, int_leb,
}
use exec_rest_api.Json.{Json, list, Fields, ok}
use exec_rest_api.Exec.{Call, result, rpc_fails, Upstream}
use exec_rest_api.Pagination.{
  PaginationResult, is_too_large, get_logs, PageEnd, full, scanned, scan_page, finished, shrink,
  grow, fetch_loop, fetch_range, fuel_for, last_of, first_window, default_chunk_size,
}
use exec_rest_api.Pagination.Archive.{Archive, Serves, range, logs_of, unseen, page}
use exec_rest_api.Pagination.Scan.{
  AllPlaced-range, cut, scan_page-cut, result_of, then_cut, cut-append, cut-scanned, cut-page,
}
use exec_rest_api.Pagination.Window.{items-of_list, IsPast, IsPast-le, unseen-split}

module _ (u : Upstream) (filter : Fields) (to limit : ℕ) (skip : ℤ) where
  module _ (f cur chunk : ℕ) (window : Option ℕ) (acc : List Json) (h : List Call)
      (more : leb cur to ≡ true) (open_ : ltb (length acc) limit ≡ true) where
    step_page :
        (vs : List Json) (e : PageEnd)
        → u h (get_logs filter cur (last_of to cur chunk)) ≡ result (list vs)
        → scan_page limit skip window acc vs ≡ ok e
        → (fetch_loop u filter to limit skip (suc f) cur chunk window acc h).0 ≡ elim e [
          | full p ↦ ok p
          | scanned acc' ↦
              (fetch_loop u filter to limit skip f
                (last_of to cur chunk + 1)
                (grow chunk)
                none
                acc'
                (h ++ get_logs filter cur (last_of to cur chunk) ∷ [])).0
        ]
    unfolding fetch_loop
    step_page vs (full p) a b = rw more (rw open_ (rw a (rw (items-of_list vs) (rw b))))
    step_page vs (scanned acc') a b = rw more (rw open_ (rw a (rw (items-of_list vs) (rw b))))

    step_retry :
        (c : ℤ) (m : Text) (d : Json)
        → u h (get_logs filter cur (last_of to cur chunk)) ≡ rpc_fails c m d
        → is_too_large c m ≡ true
        → 1 < chunk
        → (fetch_loop u filter to limit skip (suc f) cur chunk window acc h).0
          ≡ (fetch_loop u filter to limit skip f cur
              (shrink chunk)
              window
              acc
              (h ++ get_logs filter cur (last_of to cur chunk) ∷ [])).0
    unfolding fetch_loop
    step_retry c m d a b k = rw more (rw open_ (rw a (rw b (rw (lt→ltb 1 chunk k)))))

  step_done :
      (f cur chunk : ℕ) (window : Option ℕ) (acc : List Json) (h : List Call)
      → leb cur to && ltb (length acc) limit ≡ false
      → (fetch_loop u filter to limit skip (suc f) cur chunk window acc h).0 ≡ ok (finished acc)
  unfolding fetch_loop
  step_done f cur chunk window acc h e = rw e

PageEnd-cases :
    (e : PageEnd)
    → ((p : PaginationResult) × (e ≡ full p)) ⊎ ((acc : List Json) × (e ≡ scanned acc))
PageEnd-cases (full p) = inl (p, refl)
PageEnd-cases (scanned acc) = inr (acc, refl)

module _ (u : Upstream) (filter : Fields) (to limit : ℕ) (skip : ℤ) (logs : Archive)
    (serves : Serves u filter logs) where
  -- what is left to return, with r + 1 places, from the n blocks from cur on
  abbrev rest : Option ℕ → ℕ → List Json → ℕ → ℕ → PageEnd
  rest window r acc cur n = cut r acc (unseen window skip (range logs cur n))

  -- what is left after the first m of those blocks
  rest-split :
      (window : Option ℕ) (r : ℕ) (acc : List Json) (cur m k : ℕ)
      → IsPast window (cur + m)
      → rest window r acc cur (m + k)
        ≡ then_cut
            (r - length (unseen window skip (range logs cur m)))
            (rest window r acc cur m)
            (unseen none skip (range logs (cur + m) k))
  rest-split window r acc cur m k past =
      ap (cut r acc) (unseen-split window skip logs cur m k past)
      ∙ cut-append r acc (unseen window skip (range logs cur m))
          (unseen none skip (range logs (cur + m) k))

  rest-split_at :
      (window : Option ℕ) (r : ℕ) (acc : List Json) (cur n m k next : ℕ)
      → n ≡ m + k
      → next ≡ cur + m
      → IsPast window (suc cur)
      → 1 ≤ m
      → rest window r acc cur n
        ≡ then_cut
            (r - length (unseen window skip (range logs cur m)))
            (rest window r acc cur m)
            (unseen none skip (range logs next k))
  rest-split_at window r acc cur n m k next e g past some_block = rw e (
      rw g
        (rest-split window r acc cur m k (IsPast-le window (suc cur) (cur + m) past (omega arith))))

  loop_lem :
      (f cur n chunk r : ℕ) (window : Option ℕ) (acc : List Json) (h : List Call)
      → limit ≡ length acc + suc r
      → cur + n ≡ to + 1
      → 1 ≤ chunk
      → chunk ≤ 5000
      → n * 5001 + chunk < f
      → IsPast window (suc cur)
      → (fetch_loop u filter to limit skip f cur chunk window acc h).0
        ≡ ok (result_of (rest window r acc cur n))
  unfolding cut result_of then_cut
  loop_lem zero cur n chunk r window acc h room ends low high fuel past = absurd (omega arith)
  loop_lem (suc f) cur zero chunk r window acc h room ends low high fuel past =
      step_done u filter to limit skip f cur chunk window acc h (ground arith)
  loop_lem (suc f) cur (suc n) chunk r window acc h room ends low high fuel past =
      let last = last_of to cur chunk in
      let more : leb cur to ≡ true = le→leb cur to (omega arith) in
      let open_ : ltb (length acc) limit ≡ true = lt→ltb (length acc) limit (omega arith) in
      let h' = h ++ get_logs filter cur last ∷ [] in
      elim (serves.answers h cur last (omega arith)) [
        | inl answered ↦
            let m = last + 1 - cur in
            let kept = unseen window skip (range logs cur m) in
            let scan =
              scan_page-cut limit skip window r acc (range logs cur m) room
                (AllPlaced-range logs cur m serves.placed) in
            let page_step =
              step_page u filter to limit skip f cur chunk window acc h more open_
                (logs_of (range logs cur m)) (cut r acc kept) answered scan in
            let split : rest window r acc cur (suc n)
                ≡ then_cut (r - length kept) (cut r acc kept)
                    (unseen none skip (range logs (last + 1) (to - last))) =
              rest-split_at window r acc cur (suc n) m (to - last) (last + 1) (omega arith)
                (omega arith) past (omega arith) in
            page_step ∙ elim (PageEnd-cases (cut r acc kept)) [
              | inl (p, e) ↦ rw split (rw e)
              | inr (acc', e) ↦ rw split (
                  rw e (
                    loop_lem f (last + 1) (to - last) (grow chunk) (r - length kept) none acc' h'
                      (omega (arith, cut-scanned r acc acc' kept e)) (omega arith) (omega arith)
                      (omega arith) (omega arith) tt))
            ]
        | inr (c, m, d, refused, large, several) ↦
            step_retry u filter to limit skip f cur chunk window acc h more open_ c m d refused
              large (omega arith)
            ∙ loop_lem f cur (suc n) (shrink chunk) r window acc h' room ends (omega arith)
                (omega arith) (omega arith) past
      ]

  first_window-IsPast : (from : ℕ) → IsPast (first_window skip from) (suc from)
  first_window-IsPast from = window_past (int_leb (pos 0) skip) from
    where
      window_past : (b : Bool) (from : ℕ) → IsPast (if b then some from else none) (suc from)
      window_past true from = omega arith
      window_past false from = tt

  page_of :
      (n : ℕ)
      → n ≡ limit
      → (from : ℕ) (h : List Call)
      → (fetch_range u filter to limit skip from h).0
        ≡ ok (page n (unseen (first_window skip from) skip (range logs from (to + 1 - from))))
  unfolding fetch_range
  page_of zero e from h =
      step_done u filter to limit skip _ from default_chunk_size (first_window skip from) [] h
        (ground arith)
  page_of (suc r) e from h = elim (Bool-cases (leb from to)) [
    | inl some_block ↦
        loop_lem (fuel_for from to) from (to + 1 - from) default_chunk_size r
          (first_window skip from) [] h (omega arith) (ground arith) (omega arith) (omega arith)
          (omega arith) (first_window-IsPast from)
        ∙ ap ok
            (cut-page r (unseen (first_window skip from) skip (range logs from (to + 1 - from))))
    | inr empty ↦
        let nothing : to + 1 - from ≡ 0 = ground arith in
        step_done u filter to limit skip _ from default_chunk_size (first_window skip from) [] h
          (ground arith)
        ∙ rw nothing
  ]

  -- For a node that serves an archive, the result is one page of the archive: the first `limit` logs
  -- of the blocks from `from` to `to` that the query has not returned before, with the position of the
  -- last of them if there are `limit`. The chunks, their sizes and the refusals leave no trace.
  pub fetch_range-page :
      (from : ℕ) (h : List Call)
      → (fetch_range u filter to limit skip from h).0
        ≡ ok (page limit (unseen (first_window skip from) skip (range logs from (to + 1 - from))))
  fetch_range-page from h = page_of limit refl from h
