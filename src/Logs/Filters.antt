-- ===== src/Logs/Filters.antt =====
-- handlers/logs.py: which filters of a search are valid, told apart from the code that reads them.
use exec_rest_api.Base.{
  ℕ, ◌≡◌, refl, Bool, true, false, all, Bool-cases, ◌⊎◌, inl, inr, List, [], ◌∷◌, Text, arith,
}
use exec_rest_api.Json.{Json, null, bool, int, float, str, arr, obj, items, Message}
use exec_rest_api.Encoding.{is_hex_of, map_address_lowercase}
use exec_rest_api.Logs.Search.{
  validate_addresses, validate_logfilter_address, validate_alternative, all_of, validate_topic,
  validate_logfilter_topics,
}

-- the text of 0x and n hex digits
abbrev pub is_hex_text : ℕ → Json → Bool
is_hex_text n (str s) = is_hex_of n s
is_hex_text n v = false

-- no address, an address, or an array of addresses
abbrev pub is_address_filter : Json → Bool
is_address_filter null = true
is_address_filter (str s) = is_hex_of 40 s
is_address_filter (arr vs) = all (is_hex_text 40) (items vs)
is_address_filter v = false

-- anything, a topic, or an array of topics
abbrev pub is_topic_filter : Json → Bool
is_topic_filter null = true
is_topic_filter (str s) = is_hex_of 64 s
is_topic_filter (arr vs) = all (is_hex_text 64) (items vs)
is_topic_filter v = false

-- no topics, or an array of them by their positions
abbrev pub is_topics_filter : Json → Bool
is_topics_filter null = true
is_topics_filter (arr vs) = all is_topic_filter (items vs)
is_topics_filter v = false

abbrev pub IsRefused {ℓ} : {A : Type ℓ} → Message ⊎ A → Type ℓ
IsRefused {A = A} r = (m : Message) × (r ≡ inl m)

address-IsRefused :
    (s : Text) (vs : List Json)
    → is_hex_of 40 s ≡ false
    → IsRefused (validate_addresses (str s ∷ vs))
unfolding validate_addresses map_address_lowercase
address-IsRefused s vs e = rw (e, validate_addresses) (_, refl)

addresses-IsRefused :
    (vs : List Json) → all (is_hex_text 40) vs ≡ false → IsRefused (validate_addresses vs)
unfolding validate_addresses map_address_lowercase
addresses-IsRefused [] h = cc
addresses-IsRefused (str s ∷ vs) h = elim (Bool-cases (is_hex_of 40 s)) [
  | inl good ↦
      let (m, e) = addresses-IsRefused vs (ground arith) in
      rw (good, validate_addresses) (rw e (m, refl))
  | inr bad ↦ address-IsRefused s vs bad
]
addresses-IsRefused (null ∷ vs) h = (_, refl)
addresses-IsRefused (bool b ∷ vs) h = (_, refl)
addresses-IsRefused (int z ∷ vs) h = (_, refl)
addresses-IsRefused (float s ∷ vs) h = (_, refl)
addresses-IsRefused (arr ws ∷ vs) h = (_, refl)
addresses-IsRefused (obj fs ∷ vs) h = (_, refl)

pub address_filter-IsRefused :
    (v : Json) → is_address_filter v ≡ false → IsRefused (validate_logfilter_address v)
unfolding validate_logfilter_address
address_filter-IsRefused null h = cc
address_filter-IsRefused (str s) h = address-IsRefused s [] h
address_filter-IsRefused (arr vs) h = addresses-IsRefused (items vs) h
address_filter-IsRefused (bool b) h = (_, refl)
address_filter-IsRefused (int z) h = (_, refl)
address_filter-IsRefused (float s) h = (_, refl)
address_filter-IsRefused (obj fs) h = (_, refl)

module _ (p : Json → Bool) (f : Json → Message ⊎ Json)
    (refuses : (v : Json) → p v ≡ false → IsRefused (f v)) where
  all_of-IsRefused : (vs : List Json) → all p vs ≡ false → IsRefused (all_of f vs)
  all_of-IsRefused [] h = cc
  all_of-IsRefused (v ∷ vs) h = elim (Bool-cases (p v)) [
    | inl good ↦ with_rest (f v) refl (all_of-IsRefused vs (ground arith))
    | inr bad ↦ let (m, e) = refuses v bad in rw (e, all_of) (m, refl)
  ]
    where
      with_rest :
          (r : Message ⊎ Json) → f v ≡ r → IsRefused (all_of f vs) → IsRefused (all_of f (v ∷ vs))
      with_rest (inl m) e k = rw (e, all_of) (m, refl)
      with_rest (inr w) e (m, k) = rw (e, all_of) (rw k (m, refl))

alternative-IsRefused : (v : Json) → is_hex_text 64 v ≡ false → IsRefused (validate_alternative v)
alternative-IsRefused (str s) h = rw h (_, refl)
alternative-IsRefused null h = (_, refl)
alternative-IsRefused (bool b) h = (_, refl)
alternative-IsRefused (int z) h = (_, refl)
alternative-IsRefused (float s) h = (_, refl)
alternative-IsRefused (arr ws) h = (_, refl)
alternative-IsRefused (obj fs) h = (_, refl)

topic-IsRefused : (v : Json) → is_topic_filter v ≡ false → IsRefused (validate_topic v)
topic-IsRefused null h = cc
topic-IsRefused (str s) h = rw h (_, refl)
topic-IsRefused (arr vs) h =
    let (m, e) = all_of-IsRefused _ _ alternative-IsRefused (items vs) h in rw e (m, refl)
topic-IsRefused (bool b) h = (_, refl)
topic-IsRefused (int z) h = (_, refl)
topic-IsRefused (float s) h = (_, refl)
topic-IsRefused (obj fs) h = (_, refl)

pub topics_filter-IsRefused :
    (v : Json) → is_topics_filter v ≡ false → IsRefused (validate_logfilter_topics v)
unfolding validate_logfilter_topics
topics_filter-IsRefused null h = cc
topics_filter-IsRefused (arr vs) h = all_of-IsRefused _ _ topic-IsRefused (items vs) h
topics_filter-IsRefused (bool b) h = (_, refl)
topics_filter-IsRefused (int z) h = (_, refl)
topics_filter-IsRefused (float s) h = (_, refl)
topics_filter-IsRefused (str s) h = (_, refl)
topics_filter-IsRefused (obj fs) h = (_, refl)
