-- ===== src/ContentNeg/Ranges.antt =====
-- content_neg.py: which media types a media range of the client takes in, told letter by letter, and
-- that the code finds the first of them.
use exec_rest_api.Base.{
  ℕ, suc, ◌-◌, ◌≡◌, refl, sym, subst, ◌∙◌, ap, Bool, true, false, ◌&&◌, ◌||◌, Bool-cases, inl, inr,
  List, [], ◌∷◌, ◌++◌, Text, codes, text_eq, text_eq_iff, starts_with, length, take, leb, ◌==◌,
  arith,
}
use exec_rest_api.ContentNeg.{ends_with, first_of, match_type}

-- a range `type/*` takes in the type `type/subtype`
abbrev pub in_range : Text → Text → Bool
in_range (c ∷ d ∷ []) t = c == b'/' && d == b'*' && starts_with (codes "/") t
in_range (c ∷ d ∷ e ∷ m) (x ∷ t) = c == x && in_range (d ∷ e ∷ m) t
in_range m t = false

-- `*/*` takes in every type, a range `type/*` its types, and a type itself
abbrev pub takes_in : Text → Text → Bool
takes_in m t = text_eq m (codes "*/*") || in_range m t || text_eq m t

-- the test of the code for a range
abbrev tested_range : Text → Text → Bool
tested_range m t = ends_with (codes "/*") m && starts_with (take (length m - 2) m ++ codes "/") t

and_false : (b : Bool) → (b && false) ≡ false
and_false true = refl
and_false false = refl

and_swap : (a b c : Bool) → (a && (b && c)) ≡ (b && (a && c))
and_swap true true c = refl
and_swap true false c = refl
and_swap false true c = refl
and_swap false false c = refl

-- the test on a range of three letters or more, behind its first letter
tested_range-cons :
    (c d e : ℕ) (m t : Text)
    → tested_range (c ∷ d ∷ e ∷ m) t
      ≡ ends_with (codes "/*") (d ∷ e ∷ m)
        && starts_with (c ∷ (take (length (d ∷ e ∷ m) - 2) (d ∷ e ∷ m) ++ codes "/")) t
tested_range-cons c d e m t =
    let shorter : suc (suc (suc (length m))) - 2 ≡ suc (suc (suc (length m)) - 2) = omega arith in
    let long : leb 2 (suc (suc (suc (length m)))) ≡ true = ground arith in
    let long' : leb 2 (suc (suc (length m))) ≡ true = ground arith in
    rw shorter (rw long (rw long' refl))

in_range-tested : (m t : Text) → tested_range m t ≡ in_range m t
in_range-tested [] t = refl
in_range-tested (c ∷ []) t = refl
in_range-tested (c ∷ d ∷ []) t = ground arith
in_range-tested (c ∷ d ∷ e ∷ m) [] = tested_range-cons c d e m [] ∙ and_false _
in_range-tested (c ∷ d ∷ e ∷ m) (x ∷ t) =
    tested_range-cons c d e m (x ∷ t)
    ∙ and_swap (ends_with (codes "/*") (d ∷ e ∷ m)) (c == x) _
    ∙ ap (λ b. c == x && b) (in_range-tested (d ∷ e ∷ m) t)

ends_with-cons :
    (c d e : ℕ) (m : Text)
    → ends_with (codes "/*") (c ∷ d ∷ e ∷ m) ≡ ends_with (codes "/*") (d ∷ e ∷ m)
ends_with-cons c d e m =
    let shorter : suc (suc (suc (length m))) - 2 ≡ suc (suc (suc (length m)) - 2) = omega arith in
    let long : leb 2 (suc (suc (suc (length m)))) ≡ true = ground arith in
    let long' : leb 2 (suc (suc (length m))) ≡ true = ground arith in
    rw shorter (rw long (rw long' refl))

-- a range that is itself a type is in itself
in_range_refl : (m : Text) → ends_with (codes "/*") m ≡ true → in_range m m ≡ true
in_range_refl [] h = cc
in_range_refl (c ∷ []) h = cc
in_range_refl (c ∷ d ∷ []) h = ground arith
in_range_refl (c ∷ d ∷ e ∷ m) h =
    ground (arith, in_range_refl (d ∷ e ∷ m) (sym (ends_with-cons c d e m) ∙ h))

first_of-cong :
    (p q : Text → Bool) (ss : List Text) → ((t : Text) → p t ≡ q t) → first_of p ss ≡ first_of q ss
unfolding first_of
first_of-cong p q [] h = refl
first_of-cong p q (s ∷ ss) h = rw (h s) (rw (first_of-cong p q ss h) refl)

absorbed : (r x : Bool) → (x ≡ true → r ≡ true) → (r || x) ≡ r
absorbed true x h = refl
absorbed false true h = sym (h refl)
absorbed false false h = refl

text_eq_comm : (s t : Text) → text_eq s t ≡ text_eq t s
text_eq_comm s t = ground (arith, text_eq_iff s t, text_eq_iff t s)

-- what the code tests for a range, and for a type
range_test :
    (m t : Text)
    → text_eq m (codes "*/*") ≡ false
    → ends_with (codes "/*") m ≡ true
    → starts_with (take (length m - 2) m ++ codes "/") t ≡ takes_in m t
range_test m t e w =
    let same : starts_with (take (length m - 2) m ++ codes "/") t ≡ in_range m t =
      sym (ap (λ b. b && starts_with (take (length m - 2) m ++ codes "/") t) w)
      ∙ in_range-tested m t in
    let itself : text_eq m t ≡ true → in_range m t ≡ true =
      λ h. subst (λ x. in_range m x ≡ true) ((text_eq_iff m t).0 h) (in_range_refl m w) in
    same
    ∙ sym (absorbed (in_range m t) (text_eq m t) itself)
    ∙ sym (ap (λ b. b || in_range m t || text_eq m t) e)

type_test :
    (m t : Text)
    → text_eq m (codes "*/*") ≡ false
    → ends_with (codes "/*") m ≡ false
    → text_eq t m ≡ takes_in m t
type_test m t e w =
    let outside : in_range m t ≡ false =
      sym (in_range-tested m t)
      ∙ ap (λ b. b && starts_with (take (length m - 2) m ++ codes "/") t) w in
    text_eq_comm t m
    ∙ sym (ap (λ b. b || text_eq m t) outside)
    ∙ sym (ap (λ b. b || in_range m t || text_eq m t) e)

-- the three branches of the code
match_any :
    (m s : Text) (ss : List Text)
    → text_eq m (codes "*/*") ≡ true
    → match_type m (s ∷ ss) ≡ first_of (takes_in m) (s ∷ ss)
unfolding match_type first_of
match_any m s ss e = rw e refl

match_range :
    (m s : Text) (ss : List Text)
    → text_eq m (codes "*/*") ≡ false
    → ends_with (codes "/*") m ≡ true
    → match_type m (s ∷ ss) ≡ first_of (starts_with (take (length m - 2) m ++ codes "/")) (s ∷ ss)
unfolding match_type
match_range m s ss e w = rw (e, match_type) (rw w refl)

match_exact :
    (m s : Text) (ss : List Text)
    → text_eq m (codes "*/*") ≡ false
    → ends_with (codes "/*") m ≡ false
    → match_type m (s ∷ ss) ≡ first_of (λ t. text_eq t m) (s ∷ ss)
unfolding match_type
match_exact m s ss e w = rw (e, match_type) (rw w refl)

-- the code finds the first supported type that the client's type takes in
pub match_type-first : (m : Text) (ss : List Text) → match_type m ss ≡ first_of (takes_in m) ss
unfolding match_type first_of
match_type-first m [] = refl
match_type-first m (s ∷ ss) = elim (Bool-cases (text_eq m (codes "*/*"))) [
  | inl e ↦ match_any m s ss e
  | inr e ↦ elim (Bool-cases (ends_with (codes "/*") m)) [
    | inl w ↦
        match_range m s ss e w ∙ first_of-cong _ (takes_in m) (s ∷ ss) (λ t. range_test m t e w)
    | inr w ↦
        match_exact m s ss e w ∙ first_of-cong _ (takes_in m) (s ∷ ss) (λ t. type_test m t e w)
  ]
]
