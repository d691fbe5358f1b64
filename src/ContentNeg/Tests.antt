-- ===== src/ContentNeg/Tests.antt =====
-- content_neg.py with qualities in tenths.
use exec_rest_api.Base.{
  ℕ, ◌-◌, ◌*◌, ◌≡◌, refl, Option, none, some, [], ◌∷◌, Text, codes, ltb, ◌==◌, strip,
}
use exec_rest_api.ContentNeg.{
  Floats, content_type_json, content_type_rlp, select_representation, parse_accept, parse_pieces,
  quality, partition, sort, insert, first_match, match_type, first_of,
}

-- "0.n" is n, and "0" and "1" are 0 and 10
abbrev tenths : Text → Option ℕ
tenths (c ∷ []) = some ((c - 48) * 10)
tenths (c ∷ p ∷ d ∷ []) = some (d - 48)
tenths _ = none

abbrev floats : Floats
floats = record {
  Float = ℕ;
  one = 10;
  float = tenths;
  not_positive = λ q. q == 0;
  above = λ p q. ltb p q;
}

abbrev header : Text
header = codes "text/html, application/json;q=0.5, application/vnd.ethereum.rlp;q=0.9"

chosen :
    select_representation floats (some header) content_type_json (content_type_rlp ∷ [])
    ≡ some content_type_rlp
unfolding select_representation parse_accept parse_pieces quality partition sort insert first_match
    match_type first_of strip
chosen = refl

refused :
    select_representation floats
      (some (codes "text/html"))
      content_type_json
      (content_type_rlp ∷ [])
    ≡ none
unfolding select_representation parse_accept parse_pieces quality partition sort insert first_match
    match_type first_of strip
refused = refl
