-- ===== src/BlockId/Laws.antt =====
-- block_id.py: what is accepted, and that the kinds cannot be confused on the wire.
use exec_rest_api.Base.{
  ℕ, leb, ◌≡◌, refl, true, false, [], ◌∷◌, ◌⊎◌, inl, inr, Text, one_of, is_nil, lower, arith,
  Bool-cases, length, ap, ◌∙◌, ◌<◌, ◌^◌, sym,
}
use exec_rest_api.Json.{str, block_id_error, value_error, ok, err, says, Message}
use exec_rest_api.Encoding.{is_decimal, is_hex_of, int_of_decimal, int_of_hex, hex, decimal}
use exec_rest_api.Encoding.Numerals.{value-print_10, value-print_16}
use exec_rest_api.Encoding.Canonical.{length-print_16, length-print_10-value_10}
use exec_rest_api.Encoding.RoundTrip.{is_decimal-decimal, is_hex_of-lower, lower_idem}
use exec_rest_api.BlockId.{
  BlockId, tag, number, hash, block_tags, to_rpc_param, parse_block_id, int_of_text, max_int_digits,
}

-- The text that a client writes for a block identifier.
abbrev pub print_block_id : BlockId → Text
print_block_id (tag t) = t
print_block_id (number n) = decimal n
print_block_id (hash h) = h

-- What the parser yields: a known tag, any number, a lower-case hash of 32 bytes.
abbrev pub IsCanonical : BlockId → Type 0
IsCanonical (tag t) = one_of t block_tags ≡ true
IsCanonical (number n) = Unit
IsCanonical (hash h) = (is_hex_of 64 h ≡ true) × (lower h ≡ h)

not_tag_of_decimal : (s : Text) → is_decimal s ≡ true → one_of s block_tags ≡ false
not_tag_of_decimal [] h = cc
not_tag_of_decimal (c ∷ s) h = ground arith

not_tag_of_hex : (s : Text) → is_hex_of 64 s ≡ true → one_of s block_tags ≡ false
not_tag_of_hex [] h = cc
not_tag_of_hex (c ∷ []) h = cc
not_tag_of_hex (c ∷ d ∷ s) h = ground arith

not_decimal_of_hex : (s : Text) → is_hex_of 64 s ≡ true → is_decimal s ≡ false
not_decimal_of_hex [] h = cc
not_decimal_of_hex (c ∷ []) h = cc
not_decimal_of_hex (c ∷ d ∷ s) h = ground arith

not_nil_of_hex : (s : Text) → is_hex_of 64 s ≡ true → is_nil s ≡ false
not_nil_of_hex [] h = cc
not_nil_of_hex (c ∷ s) h = refl

not_nil_of_decimal : (s : Text) → is_decimal s ≡ true → is_nil s ≡ false
not_nil_of_decimal [] h = cc
not_nil_of_decimal (c ∷ s) h = refl

parse_of_tag : (s : Text) → one_of s block_tags ≡ true → parse_block_id s ≡ ok (tag s)
unfolding parse_block_id
parse_of_tag [] h = cc
parse_of_tag (c ∷ s) h = rw h

parse_of_digits : (s : Text) → is_decimal s ≡ true → parse_block_id s ≡ int_of_text s
unfolding parse_block_id
parse_of_digits [] h = cc
parse_of_digits (c ∷ s) h = rw (not_tag_of_decimal (c ∷ s) h) (rw h refl)

parse_of_decimal :
    (s : Text)
    → is_decimal s ≡ true
    → leb (length s) max_int_digits ≡ true
    → parse_block_id s ≡ ok (number (int_of_decimal s))
parse_of_decimal s h short = parse_of_digits s h ∙ rw short refl

parse_of_long :
    (s : Text)
    → is_decimal s ≡ true
    → leb (length s) max_int_digits ≡ false
    → (m : Message) × (parse_block_id s ≡ err (value_error m))
parse_of_long s h long = (
  says "Exceeds the limit (4300 digits) for integer string conversion" (str s ∷ []),
  parse_of_digits s h ∙ rw long refl,
)

parse_of_hash : (s : Text) → is_hex_of 64 s ≡ true → parse_block_id s ≡ ok (hash (lower s))
unfolding parse_block_id
parse_of_hash [] h = cc
parse_of_hash (c ∷ []) h = cc
parse_of_hash (c ∷ d ∷ s) h =
    rw (not_tag_of_hex (c ∷ d ∷ s) h) (rw (not_decimal_of_hex (c ∷ d ∷ s) h) (rw h))

parse_of_other :
    (s : Text)
    → one_of s block_tags ≡ false
    → is_decimal s ≡ false
    → is_hex_of 64 s ≡ false
    → (m : Message) × (parse_block_id s ≡ err (block_id_error m))
unfolding parse_block_id
parse_of_other [] t d h = (_, refl)
parse_of_other (c ∷ s) t d h =
    (says "unrecognised block identifier: {raw!r}" (str (c ∷ s) ∷ []), rw t (rw d (rw h)))

-- The number has as many digits as Python's int() takes at most, or fewer.
abbrev pub HasDigits : BlockId → Type 0
HasDigits (number n) = leb (length (decimal n)) max_int_digits ≡ true
HasDigits b = Unit

-- Every canonical identifier is parsed back from its text, if int() takes its digits.
pub parse-print_block_id :
    (b : BlockId) → IsCanonical b → HasDigits b → parse_block_id (print_block_id b) ≡ ok b
parse-print_block_id (tag t) h d = parse_of_tag t h
parse-print_block_id (number n) h d =
    parse_of_decimal (decimal n) (is_decimal-decimal n) d
    ∙ ap (λ m. ok (number m)) (value-print_10 n)
parse-print_block_id (hash s) (good, low) d = parse_of_hash s good ∙ ap (λ t. ok (hash t)) low

-- What the parser yields for a text: an identifier of one of the three grammars of the API.
abbrev pub Denotes : Text → BlockId → Type 0
Denotes raw (tag t) = (one_of raw block_tags ≡ true) × (t ≡ raw)
Denotes raw (number n) = (is_decimal raw ≡ true) × (n ≡ int_of_decimal raw)
Denotes raw (hash h) = (is_hex_of 64 raw ≡ true) × (h ≡ lower raw)

HasDigits-int_of_decimal :
    (raw : Text)
    → is_decimal raw ≡ true
    → leb (length raw) max_int_digits ≡ true
    → HasDigits (number (int_of_decimal raw))
HasDigits-int_of_decimal [] h short = cc
HasDigits-int_of_decimal (c ∷ s) h short = ground (arith, length-print_10-value_10 c s h)

-- Every text is accepted, raises a `BlockIdError`, or is a decimal number of more than 4300 digits and
-- raises the `ValueError` of int(). An accepted one is a tag, a decimal number or a 32-byte hash, its
-- identifier is canonical, and the identifier's own text is parsed to it again. One that raises a
-- `BlockIdError` is none of the three.
pub parse_block_id_sound :
    (raw : Text)
    → ((b : BlockId) × (parse_block_id raw ≡ ok b)
        × Denotes raw b
        × IsCanonical b
        × (parse_block_id (print_block_id b) ≡ ok b))
      ⊎ (((m : Message) × (parse_block_id raw ≡ err (block_id_error m))
            × (one_of raw block_tags ≡ false)
            × (is_decimal raw ≡ false)
            × (is_hex_of 64 raw ≡ false))
          ⊎ ((m : Message) × (parse_block_id raw ≡ err (value_error m))
              × (is_decimal raw ≡ true)
              × (4300 < length raw)))
parse_block_id_sound raw = elim (Bool-cases (one_of raw block_tags)) [
  | inl t ↦ inl (tag raw, parse_of_tag raw t, (t, refl), t, parse_of_tag raw t)
  | inr t ↦ elim (Bool-cases (is_decimal raw)) [
    | inl d ↦ elim (Bool-cases (leb (length raw) max_int_digits)) [
      | inl short ↦ inl (
        number (int_of_decimal raw),
        parse_of_decimal raw d short,
        (d, refl),
        tt,
        parse-print_block_id (number (int_of_decimal raw)) tt
            (HasDigits-int_of_decimal raw d short),
      )
      | inr long ↦
          let (m, e) = parse_of_long raw d long in inr (inr (m, e, d, ground (arith, long)))
    ]
    | inr d ↦ elim (Bool-cases (is_hex_of 64 raw)) [
      | inl h ↦
          let canonical : IsCanonical (hash (lower raw)) =
            (is_hex_of-lower 64 raw h, lower_idem raw) in
          inl (
            hash (lower raw),
            parse_of_hash raw h,
            (h, refl),
            canonical,
            parse-print_block_id (hash (lower raw)) canonical tt,
          )
      | inr h ↦ let (m, e) = parse_of_other raw t d h in inr (inl (m, e, t, d, h))
    ]
  ]
]

hex_injective : (m n : ℕ) → hex m ≡ hex n → m ≡ n
hex_injective m n e = sym (value-print_16 m) ∙ ap int_of_hex e ∙ value-print_16 n

not_tag_of_0x : (t s : Text) → one_of t block_tags ≡ true → t ≡ b'0' ∷ b'x' ∷ s → ⊥
not_tag_of_0x t s h e = cc (rw e at h)

not_tag_and_hash : (t h : Text) → one_of t block_tags ≡ true → is_hex_of 64 h ≡ true → t ≡ h → ⊥
not_tag_and_hash t h a b e = cc (e, a, not_tag_of_hex h b)

length_of_hash : (h : Text) → is_hex_of 64 h ≡ true → length h ≡ 66
length_of_hash [] h = cc
length_of_hash (c ∷ []) h = cc
length_of_hash (c ∷ d ∷ s) h = ground arith

number_not_hash : (n : ℕ) (h : Text) → n < 16 ^ 63 → is_hex_of 64 h ≡ true → hex n ≡ h → ⊥
number_not_hash n h small good e =
    omega (arith, length-print_16 62 n small, length_of_hash h good, ap (λ (t : Text). length t) e)

-- Block numbers that no chain reaches, with 64 hex digits, are left out of the next theorem: on
-- the wire they look like hashes.
abbrev pub IsShort : BlockId → Type 0
IsShort (number n) = n < 16 ^ 63
IsShort _ = Unit

-- On the wire no two identifiers look alike, while block numbers stay below 16 ^ 63.
pub to_rpc_param_injective :
    (a b : BlockId)
    → IsCanonical a
    → IsCanonical b
    → IsShort a
    → IsShort b
    → to_rpc_param a ≡ to_rpc_param b
    → a ≡ b
unfolding to_rpc_param
to_rpc_param_injective (tag s) (tag t) ca cb sa sb e = ap tag e
to_rpc_param_injective (tag s) (number n) ca cb sa sb e = absurd (not_tag_of_0x s _ ca e)
to_rpc_param_injective (tag s) (hash h) ca cb sa sb e = absurd (not_tag_and_hash s h ca cb.0 e)
to_rpc_param_injective (number m) (tag t) ca cb sa sb e = absurd (not_tag_of_0x t _ cb (sym e))
to_rpc_param_injective (number m) (number n) ca cb sa sb e = ap number (hex_injective m n e)
to_rpc_param_injective (number m) (hash h) ca cb sa sb e = absurd (number_not_hash m h sa cb.0 e)
to_rpc_param_injective (hash g) (tag t) ca cb sa sb e =
    absurd (not_tag_and_hash t g cb ca.0 (sym e))
to_rpc_param_injective (hash g) (number n) ca cb sa sb e =
    absurd (number_not_hash n g sb ca.0 (sym e))
to_rpc_param_injective (hash g) (hash h) ca cb sa sb e = ap hash e
