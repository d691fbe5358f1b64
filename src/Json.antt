-- ===== src/Json.antt =====
-- JSON values as Python holds them: what `json.loads` returns and `json.dumps` takes, with the
-- operations on `dict`s that the program makes. A float is kept by its `repr`: no code
-- computes with one. Exceptions are values of `Exn`; a message is its template and what is put into it.
pub mod Laws
use exec_rest_api.Base.{
  ℕ, String, ◌≡◌, refl, not, ◌||◌, Bool, true, false, Option, none, some, List, [], ◌∷◌, ℤ, pos,
  Text, codes, text_eq, if◌then◌else◌, is_nil, lower, int_eq,
}

mutual
  pub data Json : Type 0 where
    null : Json
    bool : Bool → Json
    int : ℤ → Json
    float : Text → Json
    str : Text → Json
    arr : Items → Json
    obj : Fields → Json

  pub data Items : Type 0 where
    nil : Items
    cons : Json → Items → Items

  pub data Fields : Type 0 where
    end : Fields
    field : Text → Json → Fields → Fields

abbrev pub items : Items → List Json
items nil = []
items (cons v vs) = v ∷ items vs

abbrev pub of_list : List Json → Items
of_list [] = nil
of_list (v ∷ vs) = cons v (of_list vs)

abbrev pub list : List Json → Json
list vs = arr (of_list vs)

-- `d.get(k)`
abbrev pub get : Fields → Text → Option Json
get end k = none
get (field j v fs) k = if text_eq j k then some v else get fs k

-- `d[k] = v`: a key that is there keeps its place
abbrev pub put : Fields → Text → Json → Fields
put end k v = field k v end
put (field j w fs) k v = if text_eq j k then field j v fs else field j w (put fs k v)

-- the entries whose key is not k
abbrev pub remove : Fields → Text → Fields
remove end k = end
remove (field j v fs) k = let rest = remove fs k in if text_eq j k then rest else field j v rest

abbrev pub has : Fields → Text → Bool
has end k = false
has (field j v fs) k = if text_eq j k then true else has fs k

abbrev pub nat : ℕ → Json
nat n = int (pos n)

-- a text of the program
abbrev pub word : String → Json
word s = str (codes s)

-- An f-string: its template, and the values or the exception's text that it shows.
pub data Message : Type 0 where
  says : String → List Json → Message
  wraps : String → Message → Message

pub data Exn : Type 0 where
  encoding_error block_id_error delegation_error cursor_error value_error : Message → Exn
  config_error upstream_error subscription_unavailable ws_closed : Message → Exn
  key_error : Text → Exn
  type_error attribute_error : Exn
  rpc_error ws_rpc_error : ℤ → Text → Json → Exn
  -- any exception of a library that the program does not name
  other_error : Message → Exn
  -- the model's own: a loop that has used up its rounds
  out_of_fuel : Exn

pub data Result {ℓ} (A : Type ℓ) : Type ℓ where
  ok : A → Result A
  err : Exn → Result A

pub of_ok {ℓ} : {A : Type ℓ} {a b : A} → ok a ≡ ok b → a ≡ b
of_ok h = cc

infixl 5 ◌>>=◌
abbrev pub ◌>>=◌ {ι ℓ} : {V : Type ι} {W : Type ℓ} → Result V → (V → Result W) → Result W
err e >>= next = err e
ok v >>= next = next v

pub >>=-eq-ok {ι ℓ} :
    {V : Type ι} {W : Type ℓ} (r : Result V) (next : V → Result W) {w : W}
    → (r >>= next) ≡ ok w
    → (v : V) × (r ≡ ok v) × (next v ≡ ok w)
>>=-eq-ok (err e) next h = cc
>>=-eq-ok (ok v) next h = (v, refl, h)

-- `[f(x) for x in xs]`, where `f` may raise
abbrev pub each {ℓ κ} : {A : Type ℓ} {B : Type κ} → (A → Result B) → List A → Result (List B)
each f [] = ok []
each f (x ∷ xs) = do y ← f x; ys ← each f xs; ok (y ∷ ys)

-- `v[k]` at a literal key: only a dict takes one
abbrev pub item : Json → Text → Result Json
item (obj fs) k = elim (get fs k) [ none ↦ err (key_error k) | some v ↦ ok v ]
item _ k = err type_error

-- `v.get(k)`: `null` stands for a missing key
abbrev pub or_null : Option Json → Json
or_null none = null
or_null (some v) = v

abbrev pub get_or : Json → Text → Json → Result Json
get_or (obj fs) k d = elim (get fs k) [ none ↦ ok d | some v ↦ ok v ]
get_or _ k d = err attribute_error

-- `v.lower()`
abbrev pub lower_of : Json → Result Text
lower_of (str s) = ok (lower s)
lower_of _ = err attribute_error

-- `for x in v`; a dict gives its keys, a text its characters
abbrev keys : Fields → List Json
keys end = []
keys (field k v fs) = str k ∷ keys fs

abbrev characters : Text → List Json
characters [] = []
characters (c ∷ s) = str (c ∷ []) ∷ characters s

abbrev pub elements : Json → Result (List Json)
elements (arr vs) = ok (items vs)
elements (obj fs) = ok (keys fs)
elements (str s) = ok (characters s)
elements _ = err type_error

-- `bool(v)`
abbrev is_empty : Items → Bool
is_empty nil = true
is_empty (cons v vs) = false

abbrev has_no_field : Fields → Bool
has_no_field end = true
has_no_field (field k v fs) = false

abbrev pub truthy : Json → Bool
truthy null = false
truthy (bool b) = b
truthy (int z) = not (int_eq z (pos 0))
truthy (float s) = not (text_eq s (codes "0.0") || text_eq s (codes "-0.0"))
truthy (str s) = not (is_nil s)
truthy (arr vs) = not (is_empty vs)
truthy (obj fs) = not (has_no_field fs)

-- `except EncodingError`, `except BlockIdError`, `except CursorError`
abbrev pub is_encoding_error : Exn → Bool
is_encoding_error (encoding_error m) = true
is_encoding_error _ = false

abbrev pub is_block_id_error : Exn → Bool
is_block_id_error (block_id_error m) = true
is_block_id_error _ = false

abbrev pub is_cursor_error : Exn → Bool
is_cursor_error (cursor_error m) = true
is_cursor_error _ = false

-- `isinstance(e, ValueError)`
abbrev pub is_value_error : Exn → Bool
is_value_error (encoding_error m) = true
is_value_error (block_id_error m) = true
is_value_error (delegation_error m) = true
is_value_error (cursor_error m) = true
is_value_error (value_error m) = true
is_value_error (config_error m) = true
is_value_error _ = false

-- `str(e)`
abbrev pub exn_text : Exn → Message
exn_text (encoding_error m) = m
exn_text (block_id_error m) = m
exn_text (delegation_error m) = m
exn_text (cursor_error m) = m
exn_text (value_error m) = m
exn_text (config_error m) = m
exn_text (upstream_error m) = m
exn_text (subscription_unavailable m) = m
exn_text (ws_closed m) = m
exn_text (other_error m) = m
exn_text (key_error k) = says "{!r}" (str k ∷ [])
exn_text (rpc_error c m d) = says "jsonrpc error {code}: {message}" (int c ∷ str m ∷ [])
exn_text (ws_rpc_error c m d) = says "jsonrpc error {code}: {message}" (int c ∷ str m ∷ [])
exn_text type_error = says "" []
exn_text attribute_error = says "" []
exn_text out_of_fuel = says "" []
