-- ===== src/Encoding/RoundTrip.antt =====
-- encoding.py: reading back what was written, for quantities, wei amounts, the enumerations and
-- addresses.
use exec_rest_api.Base.{
  ℕ, ◌+◌, ◌*◌, ◌≡◌, refl, true, false, Option, none, some, [], ◌∷◌, ◌↔◌, arith, Text, text_eq,
  text_eq_iff, lower, lower_char, all, is_hex_digit, length-map, ap₂, ◌∙◌, List, String, is_digit,
  and-left, and-right, ap, Bool-cases, inl, inr,
}
use exec_rest_api.Json.{Json, str, nat, ok, ◌>>=◌}
use exec_rest_api.Encoding.{
  is_hex, is_decimal, is_hex_of, int_of_hex, hex, decimal, hex_to_int, coerce_rpc_int,
  decimal_to_hex, wei_from_rpc, wei_to_rpc, lookup, flip, found, status_rpc_to_rest,
  tx_type_rpc_to_rest, rest_status_from_rpc, rpc_status_from_rest, rest_tx_type_from_rpc,
  rpc_tx_type_from_rest, map_address_lowercase,
}
use exec_rest_api.Encoding.Numerals.{
  value_16, digit_value, value-print_16, value-print_10, print_16_digits, print_10_digits,
}

pub is_hex-hex : (n : ℕ) → is_hex (hex n) ≡ true
is_hex-hex n = ground (arith, print_16_digits n)

pub is_decimal-decimal : (n : ℕ) → is_decimal (decimal n) ≡ true
is_decimal-decimal n = ground (arith, print_10_digits n)

pub hex_to_int-hex : (n : ℕ) → hex_to_int (str (hex n)) ≡ ok n
unfolding hex_to_int
hex_to_int-hex n = rw (is_hex-hex n) (rw (value-print_16 n))

-- Every natural number is encoded as a quantity that decodes to it.
pub hex_to_int-decimal_to_hex :
    (n : ℕ) → (decimal_to_hex (nat n) >>= λ s. hex_to_int (str s)) ≡ ok n
unfolding decimal_to_hex
hex_to_int-decimal_to_hex n = hex_to_int-hex n

pub wei_to_rpc-decimal : (n : ℕ) → wei_to_rpc (str (decimal n)) ≡ ok (hex n)
unfolding wei_to_rpc
wei_to_rpc-decimal n = rw (is_decimal-decimal n) (rw (value-print_10 n))

-- A quantity that decodes to the integer n becomes the decimal text of n as a wei amount, and that
-- text is encoded as the quantity that `decimal_to_hex` gives n.
pub wei_to_rpc-wei_from_rpc :
    (v : Json) (n : ℕ)
    → hex_to_int v ≡ ok n
    → (wei_from_rpc v ≡ ok (decimal n))
      × ((wei_from_rpc v >>= λ w. wei_to_rpc (str w)) ≡ decimal_to_hex (nat n))
unfolding wei_from_rpc decimal_to_hex
wei_to_rpc-wei_from_rpc v n h = (rw h, rw h (wei_to_rpc-decimal n))

is_hex_of_digits : (s : Text) → all is_digit s ≡ true → is_hex s ≡ false
is_hex_of_digits [] h = refl
is_hex_of_digits (c ∷ []) h = refl
is_hex_of_digits (c ∷ d ∷ s) h = ground arith

-- The three forms in which upstreams send an integer all decode to it: a JSON number, a hex
-- quantity and a decimal string.
pub coerce_rpc_int_forms :
    (n : ℕ)
    → (coerce_rpc_int (nat n) ≡ ok n)
      × (coerce_rpc_int (str (hex n)) ≡ ok n)
      × (coerce_rpc_int (str (decimal n)) ≡ ok n)
unfolding coerce_rpc_int
coerce_rpc_int_forms n = (
  refl,
  rw (is_hex-hex n) (rw (value-print_16 n)),
  rw (is_hex_of_digits (decimal n) (print_10_digits n).1)
      (rw (is_decimal-decimal n) (rw (value-print_10 n))),
)

lower_char_idem : (c : ℕ) → lower_char (lower_char c) ≡ lower_char c
lower_char_idem c = ground arith

pub lower_idem : (s : Text) → lower (lower s) ≡ lower s
lower_idem [] = refl
lower_idem (c ∷ s) = ap₂ (λ (d : ℕ) (t : Text). d ∷ t) (lower_char_idem c) (lower_idem s)

pub all-hex-lower : (s : Text) → all is_hex_digit s ≡ true → all is_hex_digit (lower s) ≡ true
all-hex-lower [] h = refl
all-hex-lower (c ∷ s) h = ground (arith, all-hex-lower s)

digit_value-lower_char :
    (c : ℕ) → is_hex_digit c ≡ true → digit_value (lower_char c) ≡ digit_value c
digit_value-lower_char c h = ground arith

pub value_16-lower :
    (n : ℕ) (s : Text) → all is_hex_digit s ≡ true → value_16 n (lower s) ≡ value_16 n s
value_16-lower n [] h = refl
value_16-lower n (c ∷ s) h =
    ap (λ (m : ℕ). value_16 (n * 16 + m) (lower s))
      (digit_value-lower_char c (and-left _ (all is_hex_digit s) h))
    ∙ value_16-lower (n * 16 + digit_value c) s (and-right (is_hex_digit c) _ h)

pub is_hex_of-lower : (n : ℕ) (s : Text) → is_hex_of n s ≡ true → is_hex_of n (lower s) ≡ true
is_hex_of-lower n [] h = cc
is_hex_of-lower n (c ∷ []) h = cc
is_hex_of-lower n (c ∷ d ∷ s) h = ground (arith, all-hex-lower s, length-map s lower_char)

int_of_hex-lower : (n : ℕ) (s : Text) → is_hex_of n s ≡ true → int_of_hex (lower s) ≡ int_of_hex s
int_of_hex-lower n [] h = cc
int_of_hex-lower n (c ∷ []) h = cc
int_of_hex-lower n (c ∷ d ∷ s) h = ground (arith, value_16-lower 0 s)

-- A text is accepted as an address exactly when it is 0x and 40 hex digits. Then the address that
-- comes out is in lower case, is accepted again unchanged, and is the same 160-bit number.
pub map_address_lowercase_normalises :
    (s a : Text)
    → map_address_lowercase (str s) ≡ ok a
    → (is_hex_of 40 s ≡ true)
      × (lower a ≡ a)
      × (map_address_lowercase (str a) ≡ ok a)
      × (int_of_hex a ≡ int_of_hex s)
unfolding map_address_lowercase
map_address_lowercase_normalises s a h = elim (Bool-cases (is_hex_of 40 s)) [
  | inl good ↦
      let same : lower s ≡ a = ground arith in
      rw (← same) (
        good,
        lower_idem s,
        rw (is_hex_of-lower 40 s good) (rw lower_idem),
        int_of_hex-lower 40 s good,
      )
  | inr bad ↦ ground arith
]

-- No text occurs twice on a side.
abbrev IsInvertible : List (Text × Text) → Type 0
IsInvertible [] = Unit
IsInvertible ((k, v) ∷ m) = (lookup m k ≡ none) × (lookup (flip m) v ≡ none) × IsInvertible m

lookup-flip :
    (m : List (Text × Text)) (k v : Text)
    → IsInvertible m
    → lookup m k ≡ some v
    → lookup (flip m) v ≡ some k
lookup-flip [] k v d h = cc
lookup-flip ((j, w) ∷ m) k v (dk, dv, d) h = elim (Bool-cases (text_eq j k)) [
  | inl same ↦
      let here : w ≡ v = ground arith in
      let key : j ≡ k = (text_eq_iff j k).0 same in rw ((text_eq_iff w v).1 here) (ap some key)
  | inr other ↦
      let ih = lookup-flip m k v d (ground arith) in
      elim (Bool-cases (text_eq w v)) [
        | inl same ↦
            let here : w ≡ v = (text_eq_iff w v).0 same in
            let gone : lookup (flip m) v ≡ none = rw here at dv in cc
        | inr differ ↦ rw differ ih
      ]
]

flip-flip : (m : List (Text × Text)) → flip (flip m) ≡ m
flip-flip [] = refl
flip-flip ((k, v) ∷ m) = ap (λ (l : List (Text × Text)). (k, v) ∷ l) (flip-flip m)

found-ok : (t : String) (k v : Text) (o : Option Text) → (found t k o ≡ ok v) ↔ (o ≡ some v)
found-ok t k v none = ground arith
found-ok t k v (some w) = ground arith

found_inverse :
    (m : List (Text × Text)) (t u : String) (k v : Text)
    → IsInvertible m
    → IsInvertible (flip m)
    → (found t k (lookup m k) ≡ ok v) ↔ (found u v (lookup (flip m) v) ≡ ok k)
found_inverse m t u k v d e = (
  λ h. (found-ok u v k _).1 (lookup-flip m k v d ((found-ok t k v _).0 h)),
  λ h.
      (found-ok t k v _).1
        (rw (flip-flip m) at (lookup-flip (flip m) v k e ((found-ok u v k _).0 h))),
)

-- The receipt status and transaction type of JSON-RPC and of REST stand for one another: each
-- direction returns exactly what the other takes back.
pub enumerations_inverse :
    (rpc rest : Text)
    → ((rest_status_from_rpc rpc ≡ ok rest) ↔ (rpc_status_from_rest rest ≡ ok rpc))
      × ((rest_tx_type_from_rpc rpc ≡ ok rest) ↔ (rpc_tx_type_from_rest rest ≡ ok rpc))
unfolding rest_status_from_rpc rpc_status_from_rest rest_tx_type_from_rpc rpc_tx_type_from_rest
enumerations_inverse rpc rest = (
  found_inverse status_rpc_to_rest _ _ rpc rest (refl, refl, (refl, refl, tt))
      (refl, refl, (refl, refl, tt)),
  found_inverse tx_type_rpc_to_rest _ _ rpc rest
      (refl, refl, (refl, refl, (refl, refl, (refl, refl, tt))))
      (refl, refl, (refl, refl, (refl, refl, (refl, refl, tt)))),
)
