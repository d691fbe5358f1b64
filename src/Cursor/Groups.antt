-- ===== src/Cursor/Groups.antt =====
-- cursor.py: an encoding in groups of four that meets the assumptions on base64. It writes a code
-- point as itself raised by 62 and three letters, and closes with a group that ends in two signs `=`.
use exec_rest_api.Base.{
  ℕ, ◌+◌, ◌-◌, ◌%◌, ◌≡◌, ◌≢◌, refl, ap, ◌∙◌, true, false, Option, none, some, [], ◌∷◌, ◌++◌, Text,
  codes, is_nil, length, all, not, ◌==◌, arith,
}
use mathlib.Core.Option
use exec_rest_api.Json.{Json}
use exec_rest_api.Cursor.{Codec, Loaded}
use exec_rest_api.Cursor.RoundTrip.{IsBase64}

abbrev groups : Text → Text
groups [] = codes "QQ"
groups (c ∷ s) = (c + 62) ∷ b'A' ∷ b'A' ∷ b'A' ∷ groups s

abbrev decoded : Text → Option Text
decoded (a ∷ b ∷ c ∷ d ∷ []) = some []
decoded (a ∷ b ∷ c ∷ d ∷ s) = Option.map (λ (t : Text). (a - 62) ∷ t) (decoded s)
decoded _ = none

decoded-groups : (raw : Text) → decoded (groups raw ++ codes "==") ≡ some raw
decoded-groups [] = refl
decoded-groups (c ∷ []) = ap (λ (n : ℕ). some (n ∷ [])) (omega arith)
decoded-groups (c ∷ d ∷ s) =
    ap (Option.map (λ (t : Text). (c + 62 - 62) ∷ t)) (decoded-groups (d ∷ s))
    ∙ ap (λ (n : ℕ). some (n ∷ d ∷ s)) (omega arith)

length-groups : (raw : Text) → (length (groups raw) + 2) % 4 ≡ 0
length-groups [] = refl
length-groups (c ∷ s) = omega (arith, length-groups s)

plain-groups : (raw : Text) → all (λ x. not (x == b'=')) (groups raw) ≡ true
plain-groups [] = refl
plain-groups (c ∷ s) = ground (arith, plain-groups s)

some-groups : (raw : Text) → is_nil (groups raw) ≡ false
some-groups [] = refl
some-groups (c ∷ s) = refl

abbrev pub in_groups : (Json → Text) → (Text → Loaded) → Codec
in_groups dumps loads = record {
  dumps = dumps;
  loads = loads;
  b64encode = λ raw. groups raw ++ codes "==";
  b64decode = decoded;
}

pub in_groups-IsBase64 :
    (dumps : Json → Text) (loads : Text → Loaded)
    → ((v : Json) → dumps v ≢ [])
    → IsBase64 (in_groups dumps loads)
in_groups-IsBase64 dumps loads some_text = record {
  inverse = decoded-groups;
  shape = λ raw.
      (groups raw, 2, refl, omega arith, length-groups raw, plain-groups raw, λ _. some-groups raw);
  some_text = some_text;
}
