-- ===== src/Shapes/Laws.antt =====
-- handlers/transactions.py: what a converted object holds at its keys.
use exec_rest_api.Base.{
  ℕ, suc, Bool, true, false, Bool-cases, inl, inr, Option, some, List, [], ◌∷◌, ◌≡◌, refl, sym, ap,
  ◌∙◌, Text, codes, text_eq, if◌then◌else◌, arith, length,
}
use exec_rest_api.Json.{
  of_ok, Json, str, nat, obj, Fields, field, get, item, list, Result, ok, err, key_error, ◌>>=◌,
  >>=-eq-ok, each, get_or, elements,
}
use exec_rest_api.Encoding.{hex_to_int, wei_from_rpc, wei_to_rpc, decimal, hex}
use exec_rest_api.Encoding.RoundTrip.{wei_to_rpc-decimal}
use exec_rest_api.Pagination.{log_position}
use exec_rest_api.Shapes.{
  Entry, each_of, dict, to_dict, number, wei, log_from_rpc, transaction_from_rpc, receipt_from_rpc,
}

abbrev has_entry : List Entry → Text → Bool
has_entry [] k = false
has_entry ((j, r) ∷ es) k = if text_eq j k then true else has_entry es k

-- the result that the first entry with this key has
abbrev result_at : List Entry → Text → Result Json
result_at [] k = err (key_error k)
result_at ((j, r) ∷ es) k = if text_eq j k then r else result_at es k

-- the entry in front, when its key is k or not
Found : Text → Result Json → Option Json → Type 0
Found k r o = (v : Json) × (r ≡ ok v) × (o ≡ some v)

front :
    (j k : Text) (w : Json) (gs : Fields) (r : Result Json)
    → (text_eq j k ≡ false → Found k r (get gs k))
    → Found k (if text_eq j k then ok w else r) (get (field j w gs) k)
unfolding Found
front j k w gs r rest = elim (Bool-cases (text_eq j k)) [
  | inl t ↦ rw t (w, refl, refl)
  | inr t ↦ rw t (rest t)
]

get-dict :
    (es : List Entry) (k : Text) (fs : Fields)
    → dict es ≡ ok fs
    → has_entry es k ≡ true
    → Found k (result_at es k) (get fs k)
unfolding dict
get-dict [] k fs h c = ground arith
get-dict ((j, err e) ∷ es) k fs h c = ground arith
get-dict ((j, ok w) ∷ es) k fs h c =
    let (gs, d, e) = >>=-eq-ok (dict es) (λ gs. ok (field j w gs)) h in
    rw (sym (of_ok e)) (front j k w gs (result_at es k) λ t. get-dict es k gs d (ground arith))

entries :
    (es : List Entry) (k : Text) (fs : Fields)
    → to_dict es ≡ ok (obj fs)
    → has_entry es k ≡ true
    → (v : Json) × (result_at es k ≡ ok v) × (get fs k ≡ some v)
unfolding to_dict Found
entries es k fs h c =
    let (gs, d, e) = >>=-eq-ok (dict es) (λ gs. ok (obj gs)) h in
    get-dict es k fs (d ∙ ap ok (of_obj (of_ok e))) c
  where
    of_obj : {a b : Fields} → obj a ≡ obj b → a ≡ b
    of_obj h = cc

-- a number of the dict is that of the quantity
number_at :
    (rpc : Json) (k : Text) (v : Json)
    → (item rpc k >>= number) ≡ ok v
    → (n : ℕ) × ((item rpc k >>= hex_to_int) ≡ ok n) × (v ≡ nat n)
number_at rpc k v h =
    let (raw, found, a) = >>=-eq-ok (item rpc k) number h in
    let (n, b, c) = >>=-eq-ok (hex_to_int raw) (λ n. ok (nat n)) a in (n, rw found b, sym (of_ok c))

positioned :
    (rpc : Json) (b i : ℕ)
    → (item rpc (codes "blockNumber") >>= hex_to_int) ≡ ok b
    → (item rpc (codes "logIndex") >>= hex_to_int) ≡ ok i
    → log_position rpc ≡ ok (b, i)
unfolding log_position
positioned rpc b i p q =
    let (x, fx, hx) = >>=-eq-ok (item rpc (codes "blockNumber")) hex_to_int p in
    let (y, fy, hy) = >>=-eq-ok (item rpc (codes "logIndex")) hex_to_int q in
    rw fx (rw hx (rw fy (rw hy refl)))

-- A converted log shows the block number and the log index by which the pagination of logs orders
-- and resumes.
pub log_from_rpc-position :
    (rpc : Json) (out : Fields)
    → log_from_rpc rpc ≡ ok (obj out)
    → (b : ℕ) × (i : ℕ) × (log_position rpc ≡ ok (b, i))
      × (get out (codes "blockNumber") ≡ some (nat b))
      × (get out (codes "logIndex") ≡ some (nat i))
unfolding log_from_rpc
log_from_rpc-position rpc out h =
    let (v, r, g) = entries _ (codes "blockNumber") out h refl in
    let (w, s, k) = entries _ (codes "logIndex") out h refl in
    let (b, p, e) = number_at rpc (codes "blockNumber") v r in
    let (i, q, f) = number_at rpc (codes "logIndex") w s in
    (b, i, positioned rpc b i p q, g ∙ ap some e, k ∙ ap some f)

-- a wei amount of the dict is the decimal text of the quantity
wei_at :
    (rpc : Json) (k : Text) (v : Json)
    → (item rpc k >>= wei) ≡ ok v
    → (n : ℕ) × ((item rpc k >>= hex_to_int) ≡ ok n) × (v ≡ str (decimal n))
unfolding wei_from_rpc
wei_at rpc k v h =
    let (raw, found, a) = >>=-eq-ok (item rpc k) wei h in
    let (s, b, c) = >>=-eq-ok (wei_from_rpc raw) (λ s. ok (str s)) a in
    let (n, d, e) = >>=-eq-ok (hex_to_int raw) (λ n. ok (decimal n)) b in
    (n, rw found d, sym (of_ok c) ∙ ap str (sym (of_ok e)))

-- A converted transaction shows its value as the decimal text of the upstream's quantity, which is
-- accepted back as the canonical quantity of the same number, and its nonce and gas as numbers.
pub transaction_from_rpc-value :
    (rpc : Json) (out : Fields)
    → transaction_from_rpc rpc ≡ ok (obj out)
    → ((n : ℕ) × ((item rpc (codes "value") >>= hex_to_int) ≡ ok n)
        × (get out (codes "value") ≡ some (str (decimal n)))
        × (wei_to_rpc (str (decimal n)) ≡ ok (hex n)))
      × ((n : ℕ) × ((item rpc (codes "nonce") >>= hex_to_int) ≡ ok n)
          × (get out (codes "nonce") ≡ some (nat n)))
      × ((n : ℕ) × ((item rpc (codes "gas") >>= hex_to_int) ≡ ok n)
          × (get out (codes "gas") ≡ some (nat n)))
unfolding transaction_from_rpc
transaction_from_rpc-value rpc out h =
    let (v, r, g) = entries _ (codes "value") out h refl in
    let (n, d, e) = wei_at rpc (codes "value") v r in
    let (v', r', g') = entries _ (codes "nonce") out h refl in
    let (n', d', e') = number_at rpc (codes "nonce") v' r' in
    let (v'', r'', g'') = entries _ (codes "gas") out h refl in
    let (n'', d'', e'') = number_at rpc (codes "gas") v'' r'' in
    (
      (n, d, g ∙ ap some e, wei_to_rpc-decimal n),
      (n', d', g' ∙ ap some e'),
      (n'', d'', g'' ∙ ap some e''),
    )

pub length-each :
    (f : Json → Result Json) (xs ys : List Json) → each f xs ≡ ok ys → length ys ≡ length xs
length-each f [] ys h = ap length (sym (of_ok h))
length-each f (x ∷ xs) ys h =
    let (w, a, b) = >>=-eq-ok (f x) (λ y. each f xs >>= λ zs. ok (y ∷ zs)) h in
    let (ws, c, d) = >>=-eq-ok (each f xs) (λ zs. ok (w ∷ zs)) b in
    ap length (sym (of_ok d)) ∙ ap suc (length-each f xs ws c)

-- A converted receipt has the upstream's logs, each converted, in their order and number.
pub receipt_from_rpc-logs :
    (rpc : Json) (out : Fields)
    → receipt_from_rpc rpc ≡ ok (obj out)
    → (logs rest : List Json) × ((get_or rpc (codes "logs") (list []) >>= elements) ≡ ok logs)
      × (each log_from_rpc logs ≡ ok rest)
      × (get out (codes "logs") ≡ some (list rest))
      × (length rest ≡ length logs)
unfolding receipt_from_rpc
receipt_from_rpc-logs rpc out h =
    let (v, r, g) = entries _ (codes "logs") out h refl in logs_of v r g
  where
    logs_of :
        (v : Json)
        → (get_or rpc (codes "logs") (list []) >>= each_of log_from_rpc) ≡ ok v
        → get out (codes "logs") ≡ some v
        → (logs rest : List Json) × ((get_or rpc (codes "logs") (list []) >>= elements) ≡ ok logs)
          × (each log_from_rpc logs ≡ ok rest)
          × (get out (codes "logs") ≡ some (list rest))
          × (length rest ≡ length logs)
    logs_of v r g =
        let (raw, found, a) =
          >>=-eq-ok (get_or rpc (codes "logs") (list [])) (each_of log_from_rpc) r in
        let (logs, b, c) =
          >>=-eq-ok (elements raw) (λ vs. each log_from_rpc vs >>= λ ws. ok (list ws)) a in
        let (rest, d, e) = >>=-eq-ok (each log_from_rpc logs) (λ ws. ok (list ws)) c in
        (
          logs,
          rest,
          rw found b,
          d,
          g ∙ ap some (sym (of_ok e)),
          length-each log_from_rpc logs rest d,
        )
