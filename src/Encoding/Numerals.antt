-- ===== src/Encoding/Numerals.antt =====
-- Python's `int(s, 16)`, `int(s)`, `f"{n:x}"` and `str(n)` on the texts that the program's patterns
-- let through. Printing divides until one digit is left; `suc n` rounds are more than that takes.
use exec_rest_api.Base.{
  ℕ, zero, suc, ◌+◌, ◌-◌, ◌*◌, ◌/◌, ◌%◌, ◌<◌, ◌≡◌, refl, true, false, [], ◌∷◌, Text, arith,
  if◌then◌else◌, ltb, leb, all, is_digit, is_hex_digit, Bool-cases, inl, inr, is_nil, ltb→lt,
}

-- the value of a digit, in either case
abbrev pub digit_value : ℕ → ℕ
digit_value c = if leb c b'9' then c - b'0' else if leb c b'F' then c - b'A' + 10 else c - b'a' + 10

abbrev pub digit_char : ℕ → ℕ
digit_char d = if ltb d 10 then b'0' + d else b'a' + d - 10

abbrev pub value_16 : ℕ → Text → ℕ
value_16 n [] = n
value_16 n (c ∷ s) = value_16 (n * 16 + digit_value c) s

abbrev pub value_10 : ℕ → Text → ℕ
value_10 n [] = n
value_10 n (c ∷ s) = value_10 (n * 10 + (c - b'0')) s

unfoldable pub print_16_from : ℕ → ℕ → Text → Text
print_16_from zero n out = out
print_16_from (suc f) n out =
    let more = print_16_from f (n / 16) (digit_char (n % 16) ∷ out) in
    if ltb n 16 then digit_char n ∷ out else more

unfoldable pub print_10_from : ℕ → ℕ → Text → Text
print_10_from zero n out = out
print_10_from (suc f) n out =
    let more = print_10_from f (n / 10) ((b'0' + n % 10) ∷ out) in
    if ltb n 10 then (b'0' + n) ∷ out else more

unfoldable pub print_16 : ℕ → Text
unfolding print_16_from
print_16 n = print_16_from (suc n) n []

unfoldable pub print_10 : ℕ → Text
unfolding print_10_from
print_10 n = print_10_from (suc n) n []

pub digit_value-digit_char : (d : ℕ) → d < 16 → digit_value (digit_char d) ≡ d
digit_value-digit_char d h = ground arith

pub is_hex_digit-digit_char : (d : ℕ) → d < 16 → is_hex_digit (digit_char d) ≡ true
is_hex_digit-digit_char d h = ground arith

value-print_16_from :
    (f n : ℕ) (out : Text) → n < f → value_16 0 (print_16_from f n out) ≡ value_16 n out
unfolding print_16_from
value-print_16_from zero n out h = elim h [ ]
value-print_16_from (suc f) n out h = elim (Bool-cases (ltb n 16)) [
  | inl small ↦ rw small (ground (arith, digit_value-digit_char n))
  | inr large ↦ rw large (
      ground (
        arith,
        value-print_16_from f (n / 16) (digit_char (n % 16) ∷ out),
        digit_value-digit_char (n % 16),
      ))
]

pub value-print_16 : (n : ℕ) → value_16 0 (print_16 n) ≡ n
unfolding print_16
value-print_16 n = value-print_16_from (suc n) n [] (omega arith)

value-print_10_from :
    (f n : ℕ) (out : Text) → n < f → value_10 0 (print_10_from f n out) ≡ value_10 n out
unfolding print_10_from
value-print_10_from zero n out h = elim h [ ]
value-print_10_from (suc f) n out h = elim (Bool-cases (ltb n 10)) [
  | inl small ↦ rw small (ground arith)
  | inr large ↦ rw large (ground (arith, value-print_10_from f (n / 10) ((b'0' + n % 10) ∷ out)))
]

pub value-print_10 : (n : ℕ) → value_10 0 (print_10 n) ≡ n
unfolding print_10
value-print_10 n = value-print_10_from (suc n) n [] (omega arith)

-- What is printed has digits only, and at least one.
print_16_from_digits :
    (f n : ℕ) (out : Text)
    → n < f
    → all is_hex_digit out ≡ true
    → (is_nil (print_16_from f n out) ≡ false) × (all is_hex_digit (print_16_from f n out) ≡ true)
unfolding print_16_from
print_16_from_digits zero n out h a = elim h [ ]
print_16_from_digits (suc f) n out h a =
    let here = is_hex_digit-digit_char (n % 16) (omega arith) in
    elim (Bool-cases (ltb n 16)) [
      | inl small ↦ rw small (refl, rw (is_hex_digit-digit_char n (ltb→lt n 16 small)) a)
      | inr large ↦
          rw large
            (print_16_from_digits f (n / 16) (digit_char (n % 16) ∷ out) (ground arith) (rw here a))
    ]

print_10_from_digits :
    (f n : ℕ) (out : Text)
    → n < f
    → all is_digit out ≡ true
    → (is_nil (print_10_from f n out) ≡ false) × (all is_digit (print_10_from f n out) ≡ true)
unfolding print_10_from
print_10_from_digits zero n out h a = elim h [ ]
print_10_from_digits (suc f) n out h a = elim (Bool-cases (ltb n 10)) [
  | inl small ↦ rw small (refl, ground arith)
  | inr large ↦
      rw large
        (print_10_from_digits f (n / 10) ((b'0' + n % 10) ∷ out) (ground arith) (ground arith))
]

pub print_16_digits :
    (n : ℕ) → (is_nil (print_16 n) ≡ false) × (all is_hex_digit (print_16 n) ≡ true)
unfolding print_16
print_16_digits n = print_16_from_digits (suc n) n [] (omega arith) refl

pub print_10_digits : (n : ℕ) → (is_nil (print_10 n) ≡ false) × (all is_digit (print_10 n) ≡ true)
unfolding print_10
print_10_digits n = print_10_from_digits (suc n) n [] (omega arith) refl
