-- ===== src/Delegation/Laws.antt =====
-- delegation.py: which codes are delegation designators.
use exec_rest_api.Base.{
  ℕ, suc, ◌-◌, ◌*◌, ◌/◌, zero, ◌≡◌, refl, subst, Bool, true, false, Option, none, some, [], ◌∷◌,
  ◌++◌, Text, codes, lower, lower_char, length, length-map, drop, all, is_hex_digit, arith, ◌==◌,
  ==_iff, if◌then◌else◌,
}
use exec_rest_api.Json.{of_ok, Json, str, Exn, ok, err}
use exec_rest_api.Encoding.{map_address_lowercase}
use exec_rest_api.Encoding.RoundTrip.{all-hex-lower, lower_idem}
use exec_rest_api.Delegation.{are_hex_pairs, is_hex_bytes, delegate_of, detect_delegate}

are_hex_pairs-digits :
    (s : Text)
    → (length s - 2 * (length s / 2) ≡ 0)
    → all is_hex_digit s ≡ true
    → are_hex_pairs s ≡ true
are_hex_pairs-digits [] e h = refl
are_hex_pairs-digits (c ∷ []) e h = ground arith
are_hex_pairs-digits (c ∷ d ∷ s) e h = ground (arith, are_hex_pairs-digits s (omega arith))

digits_of_pairs : (s : Text) → are_hex_pairs s ≡ true → all is_hex_digit s ≡ true
digits_of_pairs [] h = refl
digits_of_pairs (c ∷ []) h = ground arith
digits_of_pairs (c ∷ d ∷ s) h = ground (arith, digits_of_pairs s)

-- The code 0xef0100 followed by the 40 digits of an address, in any case, is the designator of that
-- address in lower case.
pub detect_delegate-designator :
    (s : Text)
    → length s ≡ 40
    → all is_hex_digit s ≡ true
    → detect_delegate (str (codes "0xef0100" ++ s)) ≡ ok (some (codes "0x" ++ lower s))
unfolding detect_delegate delegate_of
detect_delegate-designator s n h =
    rw (are_hex_pairs-digits s (omega arith) h) (rw (length-map s lower_char) (rw n refl))

all-drop : (n : ℕ) (s : Text) → all is_hex_digit s ≡ true → all is_hex_digit (drop n s) ≡ true
all-drop zero s h = h
all-drop (suc n) [] h = refl
all-drop (suc n) (c ∷ s) h = all-drop n s (ground arith)

length-drop : (n : ℕ) (s : Text) → length (drop n s) ≡ length s - n
length-drop zero s = omega arith
length-drop (suc n) [] = omega arith
length-drop (suc n) (c ∷ s) = omega (arith, length-drop n s)

lower-drop : (n : ℕ) (s : Text) → lower (drop n s) ≡ drop n (lower s)
lower-drop zero s = refl
lower-drop (suc n) [] = refl
lower-drop (suc n) (c ∷ s) = lower-drop n s

address_at :
    (t : Text)
    → lower t ≡ t
    → all is_hex_digit t ≡ true
    → length t ≡ 46
    → map_address_lowercase (str (codes "0x" ++ drop 6 t)) ≡ ok (codes "0x" ++ drop 6 t)
unfolding map_address_lowercase
address_at t l h n =
    let count : (length (drop 6 t) == 40) ≡ true = ground (arith, length-drop 6 t) in
    rw count (rw (all-drop 6 t h) (rw (lower-drop 6 t) (rw l refl)))

both_tests :
    (p q : Bool) (x : Text) {y : Text}
    → (if p then (if q then some x else none) else none) ≡ some y
    → (p ≡ true) × (x ≡ y)
both_tests true true x h = (refl, cc)
both_tests true false x h = ground arith
both_tests false q x h = ground arith

delegate-address :
    (t a : Text)
    → lower t ≡ t
    → all is_hex_digit t ≡ true
    → delegate_of t ≡ some a
    → map_address_lowercase (str a) ≡ ok a
unfolding delegate_of
delegate-address t a l h e =
    let (n, same) = both_tests (length t == 46) _ _ e in
    subst (λ x. map_address_lowercase (str x) ≡ ok x) same
      (address_at t l h ((==_iff (length t) 46).0 n))

pairs_of : (s : Text) → is_hex_bytes s ≡ true → are_hex_pairs (drop 2 s) ≡ true
pairs_of [] h = refl
pairs_of (c ∷ []) h = refl
pairs_of (c ∷ d ∷ s) h = ground arith

checked :
    (p : Bool) (x : Option Text) (e : Exn) {y : Option Text}
    → (if p then ok x else err e) ≡ ok y
    → (p ≡ true) × (x ≡ y)
checked true x e h = (refl, of_ok h)
checked false x e h = ground arith

-- Whatever value is given as a code, a delegate that is found is a valid address in lower case.
pub detect_delegate-address :
    (v : Json) (a : Text) → detect_delegate v ≡ ok (some a) → map_address_lowercase (str a) ≡ ok a
unfolding detect_delegate
detect_delegate-address (str s) a h =
    let (p, e) = checked (is_hex_bytes s) _ _ h in
    delegate-address (lower (drop 2 s)) a (lower_idem (drop 2 s))
      (all-hex-lower (drop 2 s) (digits_of_pairs (drop 2 s) (pairs_of s p))) e
detect_delegate-address _ a h = ground arith
