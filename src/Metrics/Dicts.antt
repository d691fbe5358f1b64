-- ===== src/Metrics/Dicts.antt =====
-- metrics.py: labels, the dicts that they are the keys of, and their text.
use exec_rest_api.Base.{
  ℕ, suc, Bool, true, false, Option, none, some, List, [], ◌∷◌, ◌++◌, ◌&&◌, ◌||◌, Text, codes,
  text_eq, ℤ, pos, negsuc, map, ltb, if◌then◌else◌, ◌==◌,
}
use exec_rest_api.Encoding.{decimal}

abbrev pub Labels : Type 0
Labels = List (Text × Text)

abbrev pub labels_eq : Labels → Labels → Bool
labels_eq [] [] = true
labels_eq ((k, v) ∷ ls) ((l, w) ∷ ms) = text_eq k l && (text_eq v w && labels_eq ls ms)
labels_eq _ _ = false

-- Python's order of strings, of pairs and of tuples
abbrev text_lt : Text → Text → Bool
text_lt [] [] = false
text_lt [] (d ∷ t) = true
text_lt (c ∷ s) [] = false
text_lt (c ∷ s) (d ∷ t) = ltb c d || (c == d && text_lt s t)

abbrev pair_lt : Text × Text → Text × Text → Bool
pair_lt (k, v) (l, w) = text_lt k l || (text_eq k l && text_lt v w)

abbrev pub labels_lt : Labels → Labels → Bool
labels_lt [] [] = false
labels_lt [] (m ∷ ms) = true
labels_lt (l ∷ ls) [] = false
labels_lt ((k, v) ∷ ls) ((l, w) ∷ ms) =
    pair_lt (k, v) (l, w) || (text_eq k l && (text_eq v w && labels_lt ls ms))

-- sorted() of the keys of a dict
abbrev place : Labels → List Labels → List Labels
place l [] = l ∷ []
place l (m ∷ ms) = let rest = place l ms in if labels_lt l m then l ∷ m ∷ ms else m ∷ rest

abbrev pub sorted_labels : List Labels → List Labels
sorted_labels [] = []
sorted_labels (l ∷ ls) = place l (sorted_labels ls)

-- dicts by labels
module _ {V : Type 0} where
  abbrev pub find_labels : List (Labels × V) → Labels → Option V
  find_labels [] l = none
  find_labels ((k, v) ∷ d) l = if labels_eq k l then some v else find_labels d l

  -- d[l] = v
  abbrev pub store : Labels → V → List (Labels × V) → List (Labels × V)
  store l v [] = (l, v) ∷ []
  store l v ((k, w) ∷ d) =
      let rest = store l v d in if labels_eq k l then (k, v) ∷ d else (k, w) ∷ rest

  abbrev pub labels_of : List (Labels × V) → List Labels
  labels_of [] = []
  labels_of ((k, v) ∷ d) = k ∷ labels_of d

  -- not d
  abbrev pub has_no_labels : List (Labels × V) → Bool
  has_no_labels [] = true
  has_no_labels (e ∷ d) = false

  -- d[l], for an `l` that is there
  abbrev pub at_labels : V → List (Labels × V) → Labels → V
  at_labels d vs l = elim (find_labels vs l) [ none ↦ d | some v ↦ v ]

-- s.replace(c, t)
abbrev pub replace : ℕ → Text → Text → Text
replace c t [] = []
replace c t (x ∷ s) = (if x == c then t else x ∷ []) ++ replace c t s

-- the text of `\`, of the line feed and of `"`
unfoldable pub escape_label_value : Text → Text
escape_label_value v =
    replace 34 (92 ∷ 34 ∷ []) (replace 10 (92 ∷ b'n' ∷ []) (replace 92 (92 ∷ 92 ∷ []) v))

abbrev join : Text → List Text → Text
join sep [] = []
join sep (t ∷ []) = t
join sep (t ∷ u ∷ ts) = t ++ sep ++ join sep (u ∷ ts)

abbrev label_part : Text × Text → Text
label_part (k, v) = k ++ codes "=\"" ++ escape_label_value v ++ codes "\""

unfoldable pub format_labels : Labels → Text
format_labels [] = []
format_labels (l ∷ ls) = codes "{" ++ join (codes ",") (map label_part (l ∷ ls)) ++ codes "}"

abbrev pub int_text : ℤ → Text
int_text (pos n) = decimal n
int_text (negsuc n) = b'-' ∷ decimal (suc n)
