-- ===== src/Pagination/Window.antt =====
-- pagination.py: ranges of blocks, and the window of logs that a resumed query skips.
use exec_rest_api.Base.{
  ℕ, zero, suc, ◌+◌, ◌≤◌, ◌<◌, ◌≡◌, refl, sym, ap, ap₂, ◌∙◌, false, Option, none, some, List, [],
  ◌∷◌, ◌++◌, ℤ, arith, append_assoc, keep-append,
}
use exec_rest_api.Json.{Json, items, of_list}
use exec_rest_api.Pagination.{in_window}
use exec_rest_api.Pagination.Archive.{Entry, Archive, at_block, range, unseen}

pub range-append :
    (logs : Archive) (a m n : ℕ) → range logs a (m + n) ≡ range logs a m ++ range logs (a + m) n
range-append logs a zero n = ap₂ (λ k l. range logs l k) (omega arith) (omega arith)
range-append logs a (suc m) n =
    ap (range logs a) suc_add
    ∙ ap (λ es. at_block a (logs a) ++ es) (range-append logs (suc a) m n)
    ∙ ap (λ k. at_block a (logs a) ++ (range logs (suc a) m ++ range logs k n)) add_suc
    ∙ sym (append_assoc (at_block a (logs a)) (range logs (suc a) m) (range logs (a + suc m) n))
  where
    suc_add : suc m + n ≡ suc (m + n)
    suc_add = omega arith

    add_suc : suc a + m ≡ a + suc m
    add_suc = omega arith

pub items-of_list : (vs : List Json) → items (of_list vs) ≡ vs
items-of_list [] = refl
items-of_list (v ∷ vs) = ap (λ (l : List Json). v ∷ l) (items-of_list vs)

-- The window's block, if any, comes before a.
abbrev pub IsPast : Option ℕ → ℕ → Type 0
IsPast none a = Unit
IsPast (some w) a = w < a

in_window_past :
    (window : Option ℕ) (skip : ℤ) (b i : ℕ) → IsPast window b → in_window window skip b i ≡ false
in_window_past none skip b i h = refl
in_window_past (some w) skip b i h = ground arith

unseen-at_block_past :
    (window : Option ℕ) (skip : ℤ) (b : ℕ) (es : List (ℕ × Json))
    → IsPast window b
    → unseen window skip (at_block b es) ≡ at_block b es
unseen-at_block_past window skip b [] h = refl
unseen-at_block_past window skip b ((i, log) ∷ es) h = rw (in_window_past window skip b i h) (
    ap (λ (l : List Entry). record { block = b; index = i; log = log } ∷ l)
      (unseen-at_block_past window skip b es h))

pub IsPast-le : (window : Option ℕ) (a b : ℕ) → IsPast window a → a ≤ b → IsPast window b
IsPast-le none a b h k = tt
IsPast-le (some w) a b h k = omega arith

IsPast-suc : (window : Option ℕ) (a : ℕ) → IsPast window a → IsPast window (suc a)
IsPast-suc none a h = tt
IsPast-suc (some w) a h = omega arith

-- Beyond the window's block nothing is skipped.
pub unseen-range_past :
    (window : Option ℕ) (skip : ℤ) (logs : Archive) (a n : ℕ)
    → IsPast window a
    → unseen window skip (range logs a n) ≡ range logs a n
unseen-range_past window skip logs a zero h = refl
unseen-range_past window skip logs a (suc n) h =
    keep-append _ (at_block a (logs a)) (range logs (suc a) n)
    ∙ ap₂ (λ xs ys. xs ++ ys) (unseen-at_block_past window skip a (logs a) h)
        (unseen-range_past window skip logs (suc a) n (IsPast-suc window a h))

-- Only the first m blocks of a range can hold logs that were seen.
pub unseen-split :
    (window : Option ℕ) (skip : ℤ) (logs : Archive) (a m n : ℕ)
    → IsPast window (a + m)
    → unseen window skip (range logs a (m + n))
      ≡ unseen window skip (range logs a m) ++ unseen none skip (range logs (a + m) n)
unseen-split window skip logs a m n h =
    ap (unseen window skip) (range-append logs a m n)
    ∙ keep-append _ (range logs a m) (range logs (a + m) n)
    ∙ ap (λ es. unseen window skip (range logs a m) ++ es)
        (unseen-range_past window skip logs (a + m) n h
          ∙ sym (unseen-range_past none skip logs (a + m) n tt))
