-- ===== src/ContentNeg.antt =====
-- content_neg.py: the choice of a representation by the Accept header. Python's floats are a
-- parameter: their type, the literal 1.0, `float(s)` of a text (`none` is a ValueError), whether one is
-- at most 0.0, and the order of `sort` on the negated values.
pub mod Ranges
pub mod Laws
mod Tests
use exec_rest_api.Base.{
  ℕ, ◌-◌, Bool, true, false, Option, none, some, List, [], ◌∷◌, ◌++◌, ◌&&◌, Text, codes, text_eq,
  starts_with, split, strip, lower, is_nil, length, take, drop, leb, if◌then◌else◌, ◌==◌,
}

abbrev pub content_type_json : Text
content_type_json = codes "application/json"

abbrev pub content_type_rlp : Text
content_type_rlp = codes "application/vnd.ethereum.rlp"

pub record Floats : Type 1 where
  pub Float : Type 0
  pub one : Float
  pub float : Text → Option Float
  pub not_positive : Float → Bool
  -- the second comes before the first
  pub above : Float → Float → Bool

-- `s.endswith(t)`
abbrev pub ends_with : Text → Text → Bool
ends_with t s = leb (length t) (length s) && text_eq (drop (length s - length t) s) t

-- param.partition("="): the key and the value, if there is a sign `=`
abbrev cons_key : ℕ → Option (Text × Text) → Option (Text × Text)
cons_key c none = none
cons_key c (some (k, v)) = some (c ∷ k, v)

unfoldable pub partition : Text → Option (Text × Text)
partition [] = none
partition (c ∷ s) = let rest = partition s in if c == b'=' then some ([], s) else cons_key c rest

-- the first supported type that passes a test
unfoldable pub first_of : (Text → Bool) → List Text → Option Text
first_of p [] = none
first_of p (s ∷ ss) = let rest = first_of p ss in if p s then some s else rest

unfoldable pub match_type : Text → List Text → Option Text
match_type client_type [] = none
match_type client_type (s ∷ ss) =
    if text_eq client_type (codes "*/*")
    then some s
    else if ends_with (codes "/*") client_type
    then first_of (starts_with (take (length client_type - 2) client_type ++ codes "/")) (s ∷ ss)
    else first_of (λ t. text_eq t client_type) (s ∷ ss)

module _ (f : Floats) where
  abbrev or_one : Option f.Float → f.Float
  or_one none = f.one
  or_one (some q) = q

  abbrev q_of : f.Float → Option (Text × Text) → f.Float
  q_of q none = q
  q_of q (some (key, val)) =
      if text_eq (lower (strip key)) (codes "q") then or_one (f.float (strip val)) else q

  -- the loop over the parameters of one type
  unfoldable pub quality : f.Float → List Text → f.Float
  quality q [] = q
  quality q (param ∷ params) = quality (q_of q (partition (strip param))) params

  abbrev candidate : List Text → List (Text × f.Float)
  candidate [] = []
  candidate (media_type ∷ params) = (lower (strip media_type), quality f.one params) ∷ []

  unfoldable pub parse_pieces : List Text → List (Text × f.Float)
  parse_pieces [] = []
  parse_pieces (raw ∷ raws) =
      let rest = parse_pieces raws in
      if is_nil (strip raw) then rest else candidate (split b';' (strip raw)) ++ rest

  unfoldable pub parse_accept : Text → List (Text × f.Float)
  parse_accept header = parse_pieces (split b',' header)

  -- the stable sort by descending quality
  unfoldable pub insert : Text × f.Float → List (Text × f.Float) → List (Text × f.Float)
  insert c [] = c ∷ []
  insert c (d ∷ ds) = let rest = insert c ds in if f.above c.1 d.1 then d ∷ rest else c ∷ d ∷ ds

  unfoldable pub sort : List (Text × f.Float) → List (Text × f.Float)
  sort [] = []
  sort (c ∷ cs) = insert c (sort cs)

  abbrev pub or_else : Option Text → Option Text → Option Text
  or_else none o = o
  or_else (some s) o = some s

  unfoldable pub first_match : List (Text × f.Float) → List Text → Option Text
  first_match [] supported = none
  first_match ((media_type, q) ∷ cs) supported =
      let rest = first_match cs supported in
      if f.not_positive q then rest else or_else (match_type media_type supported) rest

  -- the candidates of a header, or the default without any
  abbrev pub among : List (Text × f.Float) → Text → List Text → Option Text
  among [] first others = some first
  among (c ∷ cs) first others = first_match (sort (c ∷ cs)) (first ∷ others)

  -- `supported` is `first ∷ others`: no caller gives an empty list.
  unfoldable pub select_representation : Option Text → Text → List Text → Option Text
  select_representation none first others = some first
  select_representation (some header) first others =
      if is_nil (strip header) then some first else among (parse_accept header) first others
