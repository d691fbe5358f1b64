-- ===== src/Exec.antt =====
-- What a request handler does: it calls the upstream node, in order, and returns or raises. The
-- upstream is any function from the calls that the request has made before, and the call, to its
-- reply: so replies may change from call to call. The history holds the calls made so far.
use exec_rest_api.Base.{ℕ, String, ◌≡◌, refl, List, [], ◌∷◌, ◌++◌, ℤ, Text}
use exec_rest_api.Errors.{Response}
use exec_rest_api.Json.{Json, Message, Exn, rpc_error, upstream_error, other_error, Result, ok, err}

pub record Call : Type 0 where
  pub method : String
  pub params : List Json

pub data Reply : Type 0 where
  result : Json → Reply
  rpc_fails : ℤ → Text → Json → Reply
  transport_fails crashes : Message → Reply

abbrev pub Upstream : Type 0
Upstream = List Call → Call → Reply

abbrev pub Exec {ℓ} : Type ℓ → Type ℓ
Exec A = List Call → Result A × List Call

abbrev pub of_reply : Reply → Result Json
of_reply (result v) = ok v
of_reply (rpc_fails c m d) = err (rpc_error c m d)
of_reply (transport_fails m) = err (upstream_error m)
of_reply (crashes m) = err (other_error m)

-- upstream.call(method, params)
abbrev pub call : Upstream → String → List Json → Exec Json
call u m ps h = let c : Call = record { method = m; params = ps } in (of_reply (u h c), h ++ c ∷ [])

module _ {ℓ} {A : Type ℓ} where
  abbrev pub pure : A → Exec A
  pure a h = (ok a, h)

  abbrev pub raise : Exn → Exec A
  raise e h = (err e, h)

  abbrev pub lift : Result A → Exec A
  lift r h = (r, h)

abbrev pub continue {ℓ κ} : {A : Type ℓ} {B : Type κ} → Result A → (A → Exec B) → Exec B
continue (ok a) f h = f a h
continue (err e) f h = (err e, h)

infixl 5 ◌>>=◌
abbrev pub ◌>>=◌ {ℓ κ} : {A : Type ℓ} {B : Type κ} → Exec A → (A → Exec B) → Exec B
◌>>=◌ m f h = continue (m h).0 f (m h).1

continue-eq-ok {ℓ κ} :
    {A : Type ℓ} {B : Type κ} (r : Result A) (f : A → Exec B) (g : List Call) {b : B}
    {h : List Call}
    → continue r f g ≡ (ok b, h)
    → (a : A) × (r ≡ ok a) × (f a g ≡ (ok b, h))
continue-eq-ok (ok a) f g e = (a, refl, e)
continue-eq-ok (err x) f g e = cc

-- A sequence that returned: its first part returned, and then its second.
pub >>=-eq-ok {ℓ κ} :
    {A : Type ℓ} {B : Type κ} (m : Exec A) (f : A → Exec B) (h : List Call) {b : B} {h' : List Call}
    → (m >>= f) h ≡ (ok b, h')
    → (a : A) × ((m h).0 ≡ ok a) × (f a (m h).1 ≡ (ok b, h'))
>>=-eq-ok m f h e = continue-eq-ok (m h).0 f (m h).1 e

-- asyncio.gather of two: both calls are made, and the first failure in order is raised
abbrev pub both {ℓ κ} : {A : Type ℓ} {B : Type κ} → Result A → Result B → Result (A × B)
both (ok a) (ok b) = ok (a, b)
both (ok a) (err e) = err e
both (err e) r = err e

abbrev pub gather {ℓ κ} : {A : Type ℓ} {B : Type κ} → Exec A → Exec B → Exec (A × B)
gather m n h = (both (m h).0 (n (m h).1).0, (n (m h).1).1)

-- The handler answers with this status, and has made these calls.
abbrev pub Answers : ℕ → List Call → Result Response × List Call → Type 0
Answers status calls run = (r : Response) × (run ≡ (ok r, calls)) × (r.status ≡ status)
