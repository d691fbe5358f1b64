-- ===== src/ContentNeg/Laws.antt =====
-- content_neg.py: what is chosen, and when nothing is.
use exec_rest_api.Base.{
  ◌≡◌, Bool, true, false, Option, none, some, List, [], ◌∷◌, ◌&&◌, ◌||◌, not, Text, one_of, all,
  any,
}
use exec_rest_api.ContentNeg.{Floats}
use exec_rest_api.ContentNeg.Ranges.{takes_in}

-- what the first type that passes a test is, and what it means that there is none
abbrev IsFirst : (Text → Bool) → List Text → Option Text → Type 0
IsFirst p ss none = any p ss ≡ false
IsFirst p ss (some t) = (one_of t ss ≡ true) × (p t ≡ true)

module _ (f : Floats) (supported : List Text) where
  -- a candidate with no positive quality, or that takes in no supported type
  abbrev pub is_unacceptable : Text × f.Float → Bool
  is_unacceptable (m, q) = f.not_positive q || not (any (takes_in m) supported)

  -- a candidate of positive quality that takes in this type
  abbrev pub accepts : Text → Text × f.Float → Bool
  accepts t (m, q) = not (f.not_positive q) && takes_in m t

  -- a supported type that a candidate of positive quality takes in; or there is no such candidate
  abbrev pub Selected : List (Text × f.Float) → Option Text → Type 0
  Selected cs none = all is_unacceptable cs ≡ true
  Selected cs (some t) = (one_of t supported ≡ true) × (any (accepts t) cs ≡ true)

module _ (f : Floats) (first : Text) (others : List Text) where
  -- without any candidate the first type is chosen
  abbrev pub Chosen : List (Text × f.Float) → Option Text → Type 0
  Chosen [] o = o ≡ some first
  Chosen (c ∷ cs) o = Selected f (first ∷ others) (c ∷ cs) o
