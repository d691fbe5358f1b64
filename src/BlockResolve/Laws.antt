-- ===== src/BlockResolve/Laws.antt =====
-- block_resolve.py: how often the upstream is called.
use exec_rest_api.Base.{
  ℕ, some, Option, Bool-cases, inl, inr, ◌⊎◌, List, [], ◌∷◌, ◌++◌, ◌≡◌, refl, codes, text_eq,
}
use exec_rest_api.Json.{Json, Result, ok, err}
use exec_rest_api.BlockId.{BlockId, tag, number, hash}
use exec_rest_api.Exec.{Call, Upstream, Exec, continue, pure, lift, of_reply, ◌>>=◌}
use exec_rest_api.Encoding.{hex_to_int}
use exec_rest_api.BlockResolve.{resolve_block_id, number_of}

-- no call, or one more
abbrev pub AtMostOneCall : List Call → List Call → Type 0
AtMostOneCall h h' = (h' ≡ h) ⊎ ((c : Call) × (h' ≡ h ++ c ∷ []))

one_call :
    {A : Type 0} (r : Result Json) (f : Json → Result A) (h : List Call) (c : Call)
    → AtMostOneCall h (continue r (λ v. lift (f v)) (h ++ c ∷ [])).1
one_call (ok v) f h c = inr (c, refl)
one_call (err e) f h c = inr (c, refl)

abbrev head_of : Json → Exec (Option ℕ)
head_of head = lift (hex_to_int head) >>= λ n. pure (some n)

head_call :
    (r : Result Json) (h : List Call) (c : Call)
    → AtMostOneCall h (continue r head_of (h ++ c ∷ [])).1
head_call (err e) h c = inr (c, refl)
head_call (ok v) h c = number_call (hex_to_int v)
  where
    number_call : (r : Result ℕ) → AtMostOneCall h (continue r (λ n. pure (some n)) (h ++ c ∷ [])).1
    number_call (ok n) = inr (c, refl)
    number_call (err e) = inr (c, refl)

-- An identifier is resolved with at most one call of the upstream, whatever it answers.
pub resolve_block_id-calls :
    (u : Upstream) (b : BlockId) (h : List Call) → AtMostOneCall h (resolve_block_id u b h).1
unfolding resolve_block_id
resolve_block_id-calls u (number n) h = inl refl
resolve_block_id-calls u (tag t) h = elim (Bool-cases (text_eq t (codes "earliest"))) [
  | inl e ↦ rw e (inl refl)
  | inr e ↦ rw e (elim (Bool-cases (text_eq t (codes "latest"))) [
    | inl l ↦ rw l (head_call (of_reply (u h _)) h _)
    | inr l ↦ rw l (one_call (of_reply (u h _)) number_of h _)
  ])
]
resolve_block_id-calls u (hash t) h = one_call (of_reply (u h _)) number_of h _
