-- ===== src/Pagination/Scan.antt =====
-- pagination.py: one page of logs is cut at the limit, with r + 1 places left.
use exec_rest_api.Base.{
  ℕ, zero, suc, ◌+◌, ◌-◌, ◌≡◌, refl, ap, ◌∙◌, true, false, Option, some, List, [], ◌∷◌, ◌++◌, ℤ,
  pos, take, arith, length, length-append, leb, le→leb, Bool-cases, inl, inr, append-nil,
  append_assoc,
}
use exec_rest_api.Json.{Json, ok}
use exec_rest_api.Pagination.{
  PaginationResult, log_position, in_window, PageEnd, full, scanned, scan_page, finished,
}
use exec_rest_api.Pagination.Archive.{
  Entry, Archive, at_block, range, logs_of, IsPlaced, unseen, get_elem?, close, page,
}

abbrev AllPlaced : List Entry → Type 0
AllPlaced [] = Unit
AllPlaced (e ∷ es) = (log_position e.log ≡ ok (e.block, e.index)) × AllPlaced es

pub AllPlaced-append : (xs ys : List Entry) → AllPlaced xs → AllPlaced ys → AllPlaced (xs ++ ys)
AllPlaced-append [] ys hx hy = hy
AllPlaced-append (x ∷ xs) ys (p, hx) hy = (p, AllPlaced-append xs ys hx hy)

AllPlaced-at_block : (b : ℕ) (es : List (ℕ × Json)) → IsPlaced b es → AllPlaced (at_block b es)
AllPlaced-at_block b [] h = tt
AllPlaced-at_block b ((i, log) ∷ es) (p, h) = (p, AllPlaced-at_block b es h)

pub AllPlaced-range :
    (logs : Archive) (a n : ℕ) → ((b : ℕ) → IsPlaced b (logs b)) → AllPlaced (range logs a n)
AllPlaced-range logs a zero h = tt
AllPlaced-range logs a (suc n) h =
    AllPlaced-append (at_block a (logs a)) (range logs (suc a) n)
      (AllPlaced-at_block a (logs a) (h a)) (AllPlaced-range logs (suc a) n h)

abbrev pub stop : List Json → Entry → PageEnd
stop items e =
    full (record { items = items; next_from_block = some e.block; last_log_index = pos e.index })

unfoldable pub cut : ℕ → List Json → List Entry → PageEnd
cut r acc [] = scanned acc
cut zero acc (e ∷ es) = stop (acc ++ e.log ∷ []) e
cut (suc r) acc (e ∷ es) = cut r (acc ++ e.log ∷ []) es

last_place : (limit n : ℕ) → limit ≡ n + 1 → leb limit (n + 1) ≡ true
last_place limit n h = le→leb limit (n + 1) (omega arith)

more_places : (limit n r : ℕ) → limit ≡ n + suc (suc r) → leb limit (n + 1) ≡ false
more_places limit n r h = ground arith

module _ (limit : ℕ) (skip : ℤ) (window : Option ℕ) where
  pub scan_page-cut :
      (r : ℕ) (acc : List Json) (es : List Entry)
      → limit ≡ length acc + suc r
      → AllPlaced es
      → scan_page limit skip window acc (logs_of es) ≡ ok (cut r acc (unseen window skip es))
  unfolding scan_page cut
  scan_page-cut r acc [] room h = refl
  scan_page-cut zero acc (e ∷ es) room (p, h) =
      elim (Bool-cases (in_window window skip e.block e.index)) [
        | inl seen ↦ rw p (rw seen (scan_page-cut zero acc es room h))
        | inr new ↦ rw p (rw new (rw (last_place limit (length acc) room)))
      ]
  scan_page-cut (suc r) acc (e ∷ es) room (p, h) =
      elim (Bool-cases (in_window window skip e.block e.index)) [
        | inl seen ↦ rw p (rw seen (scan_page-cut (suc r) acc es room h))
        | inr new ↦ rw p (
            rw new (
              rw (more_places limit (length acc) r room) (
                scan_page-cut r (acc ++ e.log ∷ []) es
                  (omega (arith, length-append acc (e.log ∷ []))) h)))
      ]

unfoldable pub result_of : PageEnd → PaginationResult
result_of (full p) = p
result_of (scanned acc) = finished acc

-- what the rest of the blocks adds, after a page
unfoldable pub then_cut : ℕ → PageEnd → List Entry → PageEnd
then_cut r (full p) es = full p
then_cut r (scanned acc) es = cut r acc es

pub cut-append :
    (r : ℕ) (acc : List Json) (xs ys : List Entry)
    → cut r acc (xs ++ ys) ≡ then_cut (r - length xs) (cut r acc xs) ys
unfolding cut then_cut
cut-append r acc [] ys = ap (λ n. cut n acc ys) (omega arith)
cut-append zero acc (x ∷ xs) ys = refl
cut-append (suc r) acc (x ∷ xs) ys =
    cut-append r (acc ++ x.log ∷ []) xs ys
    ∙ ap (λ n. then_cut n (cut r (acc ++ x.log ∷ []) xs) ys) (omega arith)

cut-close :
    (r : ℕ) (acc : List Json) (es : List Entry)
    → result_of (cut r acc es)
      ≡ close (acc ++ logs_of es) (acc ++ logs_of (take (suc r) es)) (get_elem? es r)
unfolding cut result_of
cut-close r acc [] = rw append-nil
cut-close zero acc (e ∷ es) = refl
cut-close (suc r) acc (e ∷ es) = cut-close r (acc ++ e.log ∷ []) es ∙ simp append_assoc

pub cut-page : (r : ℕ) (es : List Entry) → result_of (cut r [] es) ≡ page (suc r) es
cut-page r es = cut-close r [] es

-- A page that is scanned to its end fits in the places left.
pub cut-scanned :
    (r : ℕ) (acc more : List Json) (es : List Entry)
    → cut r acc es ≡ scanned more
    → length more + suc (r - length es) ≡ length acc + suc r
unfolding cut
cut-scanned r acc more [] h = ground arith
cut-scanned zero acc more (e ∷ es) h = cc
cut-scanned (suc r) acc more (e ∷ es) h =
    omega (arith, cut-scanned r (acc ++ e.log ∷ []) more es h, length-append acc (e.log ∷ []))
