-- ===== src/Revert/Laws.antt =====
-- abi_revert.py: the reason and the panic code that Solidity encodes are decoded.
use exec_rest_api.Base.{
  ℕ, ◌+◌, ◌-◌, ◌*◌, ◌/◌, ◌%◌, ◌^◌, ◌≤◌, ◌<◌, ◌≡◌, refl, sym, ap₂, ◌∙◌, arith, ltb, true, false,
  none, some, List, [], ◌∷◌, ◌++◌, Text, codes, all, all-append, is_hex_digit, length,
  length-append, length-replicate, replicate, take, take-append, drop-append, take_all,
  append_assoc,
}
use exec_rest_api.Json.{str}
use exec_rest_api.Encoding.Numerals.{
  value_16, print_16, digit_value-digit_char, is_hex_digit-digit_char, value-print_16,
  print_16_digits,
}
use exec_rest_api.Encoding.Canonical.{length-print_16, value_16-zeros, all-zeros}
use exec_rest_api.Transactions.{hex_of_bytes}
use exec_rest_api.Revert.{
  is_hex_data, bytes_of_hex, decode_panic_uint, decode_error_string, decode_revert_data,
  max_reason_bytes, slice, reason_at, struct_at, decode_body, error_selector, panic_selector,
}

-- a number in the 32 bytes of a word
unfoldable pub abi_word : ℕ → Text
abi_word n = replicate (64 - length (print_16 n)) b'0' ++ print_16 n

-- Error(string), with the bytes of the string and zeros after them
abbrev pub error_data : List ℕ → ℕ → Text
error_data bytes padding =
    codes "0x08c379a0"
    ++ (abi_word 32 ++ (abi_word (length bytes) ++ (hex_of_bytes bytes ++ replicate padding b'0')))

-- Panic(uint256)
abbrev pub panic_data : ℕ → Text
panic_data n = codes "0x4e487b71" ++ abi_word n

abbrev pub AreBytes : List ℕ → Type 0
AreBytes [] = Unit
AreBytes (b ∷ bs) = (b < 256) × AreBytes bs

length-abi_word : (n : ℕ) → n < 16 ^ 64 → length (abi_word n) ≡ 64
unfolding abi_word
length-abi_word n h = omega (
  arith,
  length-append (replicate (64 - length (print_16 n)) b'0') (print_16 n),
  length-replicate {A = ℕ} (64 - length (print_16 n)) b'0',
  length-print_16 63 n h,
)

value-abi_word : (n : ℕ) → value_16 0 (abi_word n) ≡ n
unfolding abi_word
value-abi_word n = value_16-zeros (64 - length (print_16 n)) (print_16 n) ∙ value-print_16 n

abi_word_digits : (n : ℕ) → all is_hex_digit (abi_word n) ≡ true
unfolding abi_word
abi_word_digits n =
    all-append is_hex_digit (replicate (64 - length (print_16 n)) b'0') (print_16 n)
      (all-zeros (64 - length (print_16 n))) (print_16_digits n).1

length-hex_of_bytes : (bs : List ℕ) → length (hex_of_bytes bs) ≡ length bs * 2
unfolding hex_of_bytes
length-hex_of_bytes [] = refl
length-hex_of_bytes (b ∷ bs) = omega (arith, length-hex_of_bytes bs)

hex_of_bytes_digits : (bs : List ℕ) → AreBytes bs → all is_hex_digit (hex_of_bytes bs) ≡ true
unfolding hex_of_bytes
hex_of_bytes_digits [] h = refl
hex_of_bytes_digits (b ∷ bs) h =
    rw
      (
        is_hex_digit-digit_char (b / 16) (omega (arith, h.0)),
        is_hex_digit-digit_char (b % 16) (omega arith),
      )
      (hex_of_bytes_digits bs h.1)

bytes-hex_of_bytes : (bs : List ℕ) → AreBytes bs → bytes_of_hex (hex_of_bytes bs) ≡ bs
unfolding hex_of_bytes bytes_of_hex
bytes-hex_of_bytes [] h = refl
bytes-hex_of_bytes (b ∷ bs) h =
    ap₂ (λ x xs. x ∷ xs)
      (omega (
        arith,
        digit_value-digit_char (b / 16) (omega (arith, h.0)),
        digit_value-digit_char (b % 16) (omega arith),
      ))
      (bytes-hex_of_bytes bs h.1)

decode_panic_uint-abi_word : (n : ℕ) → n < 16 ^ 64 → decode_panic_uint (abi_word n) ≡ some n
unfolding decode_panic_uint
decode_panic_uint-abi_word n h =
    rw
      (
        length-abi_word n h,
        take_all 64 (abi_word n) (omega (arith, length-abi_word n h)),
        value-abi_word n,
      )
      refl

error_digits :
    (bs : List ℕ) (padding : ℕ)
    → AreBytes bs
    → all is_hex_digit
        (abi_word 32 ++ (abi_word (length bs) ++ (hex_of_bytes bs ++ replicate padding b'0')))
      ≡ true
error_digits bs padding h =
    let last =
      all-append is_hex_digit (hex_of_bytes bs) (replicate padding b'0') (hex_of_bytes_digits bs h)
        (all-zeros padding) in
    let tail =
      all-append is_hex_digit (abi_word (length bs)) (hex_of_bytes bs ++ replicate padding b'0')
        (abi_word_digits (length bs)) last in
    all-append is_hex_digit (abi_word 32)
      (abi_word (length bs) ++ (hex_of_bytes bs ++ replicate padding b'0')) (abi_word_digits 32)
      tail

plus_minus : (a b : ℕ) → a + b - a ≡ b
plus_minus a b = omega arith

le-ltb : (a b : ℕ) → b ≤ a → ltb a b ≡ false
le-ltb a b h = ground arith

-- the part between what stands before it and after it
slice-middle :
    (a b : ℕ) (before part after : Text)
    → length before ≡ a
    → a + length part ≡ b
    → slice a b (before ++ (part ++ after)) ≡ part
slice-middle a b before part after e f =
    rw (sym f, sym e, drop-append before (part ++ after), plus_minus (length before) (length part))
      (take-append part after)

module _ (decode_utf8 : List ℕ → Text) where
  reason_at_lem :
      (start count : ℕ) (before part after : Text)
      → length before ≡ start + 64
      → length part ≡ count * 2
      → count ≤ max_reason_bytes
      → reason_at decode_utf8 (before ++ (part ++ after)) start count
        ≡ some (decode_utf8 (bytes_of_hex part))
  reason_at_lem start count before part after e f le =
      let total = length-append before (part ++ after) in
      let more = length-append part after in
      let found =
        slice-middle (start + 64) (start + 64 + count * 2) before part after e (omega (arith, f)) in
      rw
        (
          le-ltb max_reason_bytes count le,
          le-ltb (length (before ++ (part ++ after))) (start + 64 + count * 2)
              (omega (arith, total, more, e, f)),
          found,
        )
        refl

  struct_at_lem :
      (start count : ℕ) (before size part after : Text)
      → length before ≡ start
      → length size ≡ 64
      → value_16 0 size ≡ count
      → length part ≡ count * 2
      → count ≤ max_reason_bytes
      → struct_at decode_utf8 (before ++ (size ++ (part ++ after))) start
        ≡ some (decode_utf8 (bytes_of_hex part))
  struct_at_lem start count before size part after e f g h le =
      let total = length-append before (size ++ (part ++ after)) in
      let more = length-append size (part ++ after) in
      let enough =
        le-ltb (length (before ++ (size ++ (part ++ after)))) (start + 64)
          (omega (arith, total, more, e, f)) in
      let found =
        slice-middle start (start + 64) before size (part ++ after) e (omega (arith, f)) in
      let joined = length-append before size in
      rw (enough, found, g, sym (append_assoc before size (part ++ after)))
        (reason_at_lem start count (before ++ size) part after (omega (arith, joined, e, f)) h le)

  decode_error_string_lem :
      (count : ℕ) (offset size part after : Text)
      → length offset ≡ 64
      → value_16 0 offset ≡ 32
      → length size ≡ 64
      → value_16 0 size ≡ count
      → length part ≡ count * 2
      → count ≤ max_reason_bytes
      → decode_error_string decode_utf8 (offset ++ (size ++ (part ++ after)))
        ≡ some (decode_utf8 (bytes_of_hex part))
  unfolding decode_error_string
  decode_error_string_lem count offset size part after e v f g h le =
      let total = length-append offset (size ++ (part ++ after)) in
      let more = length-append size (part ++ after) in
      let enough =
        le-ltb (length (offset ++ (size ++ (part ++ after)))) 128
          (omega (arith, total, more, e, f)) in
      let first : take 64 (offset ++ (size ++ (part ++ after))) ≡ offset =
        rw (sym e) (take-append offset (size ++ (part ++ after))) in
      rw (enough, first, v) (struct_at_lem 64 count offset size part after e f g h le)

  decode_body-error :
      (t : Text)
      → decode_body decode_utf8 (error_selector ++ t) ≡ (decode_error_string decode_utf8 t, none)
  decode_body-error t =
      rw (le-ltb (length (error_selector ++ t)) 8 (omega (arith, length-append error_selector t)))
        refl

  decode_body-panic :
      (t : Text) → decode_body decode_utf8 (panic_selector ++ t) ≡ (none, decode_panic_uint t)
  decode_body-panic t =
      rw (le-ltb (length (panic_selector ++ t)) 8 (omega (arith, length-append panic_selector t)))
        refl

  -- The data of Error(string), with a string of at most 2^20 bytes at the offset 32 and any number of
  -- zero digits after it, is decoded to the text of these bytes and no panic code; the data of
  -- Panic(uint256) is decoded to its code, below 2^256, and no reason.
  pub decode_revert_data-encodings :
      (bs : List ℕ) (padding n : ℕ)
      → AreBytes bs
      → length bs ≤ max_reason_bytes
      → n < 16 ^ 64
      → (decode_revert_data decode_utf8 (str (error_data bs padding))
          ≡ (some (decode_utf8 bs), none))
        × (decode_revert_data decode_utf8 (str (panic_data n)) ≡ (none, some n))
  unfolding decode_revert_data is_hex_data
  decode_revert_data-encodings bs padding n h le lt =
      let words =
        decode_error_string_lem (length bs) (abi_word 32) (abi_word (length bs)) (hex_of_bytes bs)
          (replicate padding b'0') (length-abi_word 32 (omega arith)) (value-abi_word 32)
          (length-abi_word (length bs) (omega (arith, le))) (value-abi_word (length bs))
          (length-hex_of_bytes bs) le in
      (
        rw
            (
              error_digits bs padding h,
              decode_body-error (
                  abi_word 32
                  ++ (abi_word (length bs) ++ (hex_of_bytes bs ++ replicate padding b'0'))),
              words,
              bytes-hex_of_bytes bs h,
            )
            refl,
        rw (abi_word_digits n, decode_body-panic (abi_word n), decode_panic_uint-abi_word n lt)
            refl,
      )
