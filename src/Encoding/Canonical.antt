-- ===== src/Encoding/Canonical.antt =====
-- encoding.py: the minimal form of a printed quantity.
use exec_rest_api.Base.{
  ℕ, zero, suc, ◌/◌, ◌%◌, ◌^◌, ◌+◌, length, ◌≤◌, ◌<◌, ◌≡◌, refl, subst, ◌*◌, ◌-◌, is_digit, Bool,
  true, false, [], ◌∷◌, ◌++◌, replicate, all, is_hex_digit, Text, codes, arith, ltb, starts_with,
  Bool-cases, inl, inr,
}
use native.Mathlib.Nat.{pow-suc}
use exec_rest_api.Encoding.Numerals.{
  value_16, value_10, digit_char, print_16_from, print_16, print_10_from, print_10,
}

abbrev pub leads_with_zero : Text → Bool
leads_with_zero = starts_with (codes "0")

print_16_from_minimal :
    (f n : ℕ) (out : Text) → 0 < n → n < f → leads_with_zero (print_16_from f n out) ≡ false
unfolding print_16_from
print_16_from_minimal zero n out p h = elim h [ ]
print_16_from_minimal (suc f) n out p h = elim (Bool-cases (ltb n 16)) [
  | inl small ↦ rw small (ground arith)
  | inr large ↦
      rw large
        (print_16_from_minimal f (n / 16) (digit_char (n % 16) ∷ out) (ground arith) (ground arith))
]

pub print_16_minimal : (n : ℕ) → 0 < n → leads_with_zero (print_16 n) ≡ false
unfolding print_16
print_16_minimal n p = print_16_from_minimal (suc n) n [] p (omega arith)

pub print_16-zero : print_16 0 ≡ codes "0"
unfolding print_16
print_16-zero = refl

-- A number below 16 ^ k prints in at most k digits.
length-print_16_from :
    (f k n : ℕ) (out : Text)
    → n < f
    → n < 16 ^ suc k
    → length (print_16_from f n out) ≤ suc k + length out
unfolding print_16_from
length-print_16_from zero k n out h b = elim h [ ]
length-print_16_from (suc f) zero n out h b = ground arith
length-print_16_from (suc f) (suc k) n out h b = elim (Bool-cases (ltb n 16)) [
  | inl small ↦ rw small (omega arith)
  | inr large ↦ rw large (
      omega (
        arith,
        length-print_16_from f k (n / 16) (digit_char (n % 16) ∷ out) (ground arith)
            (omega (arith, pow-suc 16 (suc k))),
      ))
]

pub length-print_16 : (k n : ℕ) → n < 16 ^ suc k → length (print_16 n) ≤ suc k
unfolding print_16
length-print_16 k n b = omega (arith, length-print_16_from (suc n) k n [] (omega arith) b)

-- The same for decimal digits.
length-print_10_from :
    (f k n : ℕ) (out : Text)
    → n < f
    → n < 10 ^ suc k
    → length (print_10_from f n out) ≤ suc k + length out
unfolding print_10_from
length-print_10_from zero k n out h b = elim h [ ]
length-print_10_from (suc f) zero n out h b = ground arith
length-print_10_from (suc f) (suc k) n out h b = elim (Bool-cases (ltb n 10)) [
  | inl small ↦ rw small (omega arith)
  | inr large ↦ rw large (
      omega (
        arith,
        length-print_10_from f k (n / 10) ((b'0' + n % 10) ∷ out) (ground arith)
            (omega (arith, pow-suc 10 (suc k))),
      ))
]

pub length-print_10 : (k n : ℕ) → n < 10 ^ suc k → length (print_10 n) ≤ suc k
unfolding print_10
length-print_10 k n b = omega (arith, length-print_10_from (suc n) k n [] (omega arith) b)

-- k digits, with a number of j digits before them, are a number of j + k digits.
value_10-bound :
    (j n : ℕ) (s : Text) → n < 10 ^ j → all is_digit s ≡ true → value_10 n s < 10 ^ (j + length s)
value_10-bound j n [] b h = subst (λ i. n < 10 ^ i) (omega arith) b
value_10-bound j n (c ∷ s) b h =
    let digit : c - b'0' < 10 = ground arith in
    let rest : all is_digit s ≡ true = ground arith in
    subst (λ i. value_10 (n * 10 + (c - b'0')) s < 10 ^ i) (omega arith)
      (value_10-bound (suc j) (n * 10 + (c - b'0')) s (omega (arith, pow-suc 10 j)) rest)

-- A numeral is printed in no more digits than it has.
pub length-print_10-value_10 :
    (c : ℕ) (s : Text)
    → all is_digit (c ∷ s) ≡ true
    → length (print_10 (value_10 0 (c ∷ s))) ≤ length (c ∷ s)
length-print_10-value_10 c s h = length-print_10 (length s) (value_10 0 (c ∷ s)) (
    subst (λ i. value_10 0 (c ∷ s) < 10 ^ i) (omega arith)
      (value_10-bound 0 0 (c ∷ s) (omega arith) h))

-- zeros before a numeral
pub value_16-zeros : (k : ℕ) (s : Text) → value_16 0 (replicate k b'0' ++ s) ≡ value_16 0 s
value_16-zeros zero s = refl
value_16-zeros (suc k) s = value_16-zeros k s

pub all-zeros : (k : ℕ) → all is_hex_digit (replicate k b'0') ≡ true
all-zeros zero = refl
all-zeros (suc k) = all-zeros k
