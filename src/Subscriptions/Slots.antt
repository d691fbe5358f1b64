-- ===== src/Subscriptions/Slots.antt =====
-- Laws of `_slots`, the dict from a key to its slot, and of the counts made from it.
use exec_rest_api.Base.{
  ℕ, ◌+◌, ◌≤◌, ◌<◌, ◌≡◌, refl, ap, arith, true, false, none, some, List, [], ◌∷◌, ◌++◌, Text,
  text_eq, text_eq_refl, eq_of_text_eq, if◌then◌else◌, and-left, and-right,
}
use exec_rest_api.Json.{Json}
use exec_rest_api.Subscriptions.{Key, key_eq, Slot, find, pop, count, key_of}

pub key_eq_refl : (k : Key) → key_eq k k ≡ true
key_eq_refl (a, b) = rw (text_eq_refl a, text_eq_refl b) refl

pub eq_of_key_eq : (j k : Key) → key_eq j k ≡ true → j ≡ k
eq_of_key_eq (a, b) (c, d) e =
    rw
      (
        eq_of_text_eq a c (and-left (text_eq a c) (text_eq b d) e),
        eq_of_text_eq b d (and-right (text_eq a c) (text_eq b d) e),
      )
      refl

pub find-pop :
    (s : List (Key × ℕ)) (k j : Key) → find (pop s k) j ≡ (if key_eq k j then none else find s j)
find-pop [] k j = ground arith
find-pop ((i, r) ∷ s) k j =
    ground
      (arith, find-pop s k j, eq_of_key_eq i k, eq_of_key_eq i j, eq_of_key_eq k j, key_eq_refl i)

pub find-append :
    (s t : List (Key × ℕ)) (j : Key) (r : ℕ) → find s j ≡ some r → find (s ++ t) j ≡ some r
find-append [] t j r e = ground arith
find-append ((i, x) ∷ s) t j r e = ground (arith, find-append s t j r)

pub find-append_none :
    (s t : List (Key × ℕ)) (j : Key) → find s j ≡ none → find (s ++ t) j ≡ find t j
find-append_none [] t j e = refl
find-append_none ((i, x) ∷ s) t j e = ground (arith, find-append_none s t j)

abbrev pub Unique : List (Key × ℕ) → Type 0
Unique [] = Unit
Unique ((k, r) ∷ s) = (find s k ≡ none) × Unique s

pub pop-Unique : (s : List (Key × ℕ)) (k : Key) → Unique s → Unique (pop s k)
pop-Unique [] k u = tt
pop-Unique ((i, r) ∷ s) k u = ground (arith, pop-Unique s k u.1, find-pop s k i)

pub snoc-Unique :
    (s : List (Key × ℕ)) (k : Key) (r : ℕ) → Unique s → find s k ≡ none → Unique (s ++ (k, r) ∷ [])
snoc-Unique [] k r u e = (refl, tt)
snoc-Unique ((i, x) ∷ s) k r u e = ground (
  arith,
  snoc-Unique s k r u.1,
  find-append_none s ((k, r) ∷ []) i u.0,
  eq_of_key_eq k i,
  key_eq_refl k,
)

module _ (canonicalize : Json → Text) where
  -- every entry leads to a slot with its key, among the first `n`
  abbrev pub Keyed : (ℕ → Slot) → ℕ → List (Key × ℕ) → Type 0
  Keyed heap n [] = Unit
  Keyed heap n ((k, r) ∷ s) = (key_of canonicalize (heap r) ≡ k) × ((r < n) × Keyed heap n s)

  pub find-Keyed :
      (heap : ℕ → Slot) (n : ℕ) (s : List (Key × ℕ)) (k : Key) (r : ℕ)
      → Keyed heap n s
      → find s k ≡ some r
      → (key_of canonicalize (heap r) ≡ k) × (r < n)
  find-Keyed heap n [] k r h e = ground arith
  find-Keyed heap n ((i, x) ∷ s) k r h e =
      ground (arith, find-Keyed heap n s k r h.1.1, eq_of_key_eq i k)

  pub Keyed-mono :
      (heap new : ℕ → Slot) (n m : ℕ) (s : List (Key × ℕ))
      → ((r : ℕ) → r < n → key_of canonicalize (new r) ≡ key_of canonicalize (heap r))
      → n ≤ m
      → Keyed heap n s
      → Keyed new m s
  Keyed-mono heap new n m [] same le h = tt
  Keyed-mono heap new n m ((k, r) ∷ s) same le h =
      (rw (same r h.1.0) h.0, (omega arith, Keyed-mono heap new n m s same le h.1.1))

  pub pop-Keyed :
      (heap : ℕ → Slot) (n : ℕ) (s : List (Key × ℕ)) (k : Key)
      → Keyed heap n s
      → Keyed heap n (pop s k)
  pop-Keyed heap n [] k h = tt
  pop-Keyed heap n ((i, r) ∷ s) k h = ground (arith, pop-Keyed heap n s k h.1.1)

  pub snoc-Keyed :
      (heap : ℕ → Slot) (n : ℕ) (s : List (Key × ℕ)) (k : Key) (r : ℕ)
      → Keyed heap n s
      → key_of canonicalize (heap r) ≡ k
      → r < n
      → Keyed heap n (s ++ (k, r) ∷ [])
  snoc-Keyed heap n [] k r h e lt = (e, (lt, tt))
  snoc-Keyed heap n ((i, x) ∷ s) k r h e lt = (h.0, (h.1.0, snoc-Keyed heap n s k r h.1.1 e lt))

  pub count_mono :
      (kind : Text) (heap new : ℕ → Slot) (n : ℕ) (s : List (Key × ℕ))
      → ((r : ℕ) → r < n → key_of canonicalize (new r) ≡ key_of canonicalize (heap r))
      → Keyed heap n s
      → count kind new s ≡ count kind heap s
  count_mono kind heap new n [] same h = refl
  count_mono kind heap new n ((k, r) ∷ s) same h =
      rw (count_mono kind heap new n s same h.1.1, ap (λ p. p.0) (same r h.1.0)) refl

  -- the slots of another kind are counted as before
  pub count-pop :
      (kind : Text) (heap : ℕ → Slot) (n : ℕ) (s : List (Key × ℕ)) (k : Key)
      → Keyed heap n s
      → text_eq k.0 kind ≡ false
      → count kind heap (pop s k) ≡ count kind heap s
  count-pop kind heap n [] k h e = refl
  count-pop kind heap n ((i, r) ∷ s) k h e =
      ground (arith, count-pop kind heap n s k h.1.1 e, eq_of_key_eq i k, ap (λ p. p.0) h.0)

pub count-append :
    (kind : Text) (heap : ℕ → Slot) (s t : List (Key × ℕ))
    → count kind heap (s ++ t) ≡ count kind heap s + count kind heap t
count-append kind heap [] t = omega arith
count-append kind heap ((k, r) ∷ s) t = omega (arith, count-append kind heap s t)
