-- ===== src/Subscriptions/Reconnecting.antt =====
-- subscriptions.py: `on_reconnect` keeps the invariant, from its first request to its last.
use exec_rest_api.Base.{
  ℕ, ◌≡◌, ◌≢◌, refl, sym, ap, subst, arith, true, false, ◌==◌, ==_iff, Option, none, some, List, [],
  ◌∷◌, Text, text_eq, eq_of_text_eq, Bool-cases, inl, inr,
}
use mathlib.Core.Option.{some-injective}
use exec_rest_api.Json.{Json}
use exec_rest_api.Subscriptions.{
  Key, StreamEvent, Slot, Manager, WsReply, subscribed, ws_closes, ws_fails, find, values, set_id,
  key_of, set_slot, reconnect_begins, resubscribe, reconnect_ends,
}
use exec_rest_api.Subscriptions.Slots.{Unique, Keyed, key_eq_refl, eq_of_key_eq}
use exec_rest_api.Subscriptions.Invariant.{
  Pending, Inv, elem, set_slot-elim, revised-find, revised-Keyed, revised-count,
}

module _ (canonicalize : Json → Text) where
  -- a slot of the dict is found under its own key
  elem-find :
      (heap : ℕ → Slot) (n : ℕ) (s : List (Key × ℕ)) (r : ℕ)
      → Unique s
      → Keyed canonicalize heap n s
      → elem r (values s) ≡ true
      → find s (key_of canonicalize (heap r)) ≡ some r
  elem-find heap n [] r u k e = ground arith
  elem-find heap n ((j, x) ∷ s) r u k e = elim (Bool-cases (x == r)) [
    | inl q ↦ let same = (==_iff x r).0 q in ground (arith, k.0, same, key_eq_refl j, ap heap same)
    | inr q ↦
        let rest = elem-find heap n s r u.1 k.1.1 (ground (arith, e, q)) in
        ground (arith, rest, u.0, eq_of_key_eq j (key_of canonicalize (heap r)))
  ]

  -- Each slot is visited once.
  distinct :
      (heap : ℕ → Slot) (n : ℕ) (j : Key) (x : ℕ) (s : List (Key × ℕ))
      → Unique ((j, x) ∷ s)
      → Keyed canonicalize heap n ((j, x) ∷ s)
      → elem x (values s) ≡ false
  distinct heap n j x s u k = elim (Bool-cases (elem x (values s))) [
    | inl q ↦ ground (arith, elem-find heap n s x u.1 k.1.1 q, u.0, k.0)
    | inr q ↦ q
  ]

  values-Pending :
      (slots : List (Key × ℕ)) (heap : ℕ → Slot) (n : ℕ) (s : List (Key × ℕ))
      → ((r : ℕ) → elem r (values s) ≡ true → find slots (key_of canonicalize (heap r)) ≡ some r)
      → Unique s
      → Keyed canonicalize heap n s
      → Pending canonicalize slots heap (λ id. none) (values s)
  values-Pending slots heap n [] live u k = tt
  values-Pending slots heap n ((j, x) ∷ s) live u k = (
    live x (ground (arith, (==_iff x x).1 refl)),
    (
      (λ id e. ground arith),
      (
        distinct heap n j x s u k,
        values-Pending slots heap n s (λ r e. live r (ground (arith, e))) u.1 k.1.1,
      ),
    ),
  )

  -- when slot `r` has been visited, the others wait as before
  visited-Pending :
      (slots : List (Key × ℕ)) (heap new : ℕ → Slot) (by_id : Text → Option ℕ) (id : Text) (r : ℕ)
      (rs : List ℕ)
      → ((x : ℕ)
          → find slots (key_of canonicalize (heap x)) ≡ some x
          → find slots (key_of canonicalize (new x)) ≡ some x)
      → elem r rs ≡ false
      → Pending canonicalize slots heap by_id rs
      → Pending canonicalize slots new (set_id id r by_id) rs
  visited-Pending slots heap new by_id id r [] live ne p = tt
  visited-Pending slots heap new by_id id r (x ∷ rs) live ne p = (
    live x p.0,
    (
      (λ i e. p.1.0 i (ground (arith, e, ne, ==_iff x r))),
      (p.1.1.0, visited-Pending slots heap new by_id id r rs live (ground (arith, ne)) p.1.1.1),
    ),
  )

  pub reconnect_begins-Inv :
      (m : Manager) → Inv canonicalize m → Inv canonicalize (reconnect_begins canonicalize m)
  unfolding reconnect_begins
  reconnect_begins-Inv m v = record {
    unique = v.unique;
    keyed = v.keyed;
    held = v.held;
    served = v.served;
    indexed = λ id r e. ground arith;
    gauged = v.gauged;
    waiting = λ rs w.
        subst (Pending canonicalize m.slots m.heap (λ id. none))
          (some-injective (values m.slots) rs w)
          (values-Pending m.slots m.heap m.next_slot m.slots
            (λ r e. elem-find m.heap m.next_slot m.slots r v.unique v.keyed e) v.unique v.keyed);
  }

  pub reconnect_ends-Inv :
      (m : Manager) → Inv canonicalize m → Inv canonicalize (reconnect_ends canonicalize m)
  unfolding reconnect_ends
  reconnect_ends-Inv m v = record {
    unique = v.unique;
    keyed = v.keyed;
    held = v.held;
    served = v.served;
    indexed = v.indexed;
    gauged = v.gauged;
    waiting = λ rs w. ground arith;
  }

  -- A failed request changes no slot.
  skipped-Inv :
      (m : Manager) (queues : ℕ → List StreamEvent) (r : ℕ) (rs : List ℕ)
      → m.visiting ≡ some (r ∷ rs)
      → Inv canonicalize m
      → Inv canonicalize (record m { queues = queues; visiting = some rs })
  skipped-Inv m queues r rs w v = record {
    unique = v.unique;
    keyed = v.keyed;
    held = v.held;
    served = v.served;
    indexed = v.indexed;
    gauged = v.gauged;
    waiting = λ rs2 e.
        subst (Pending canonicalize m.slots m.heap m.by_id) (some-injective rs rs2 e)
          (v.waiting (r ∷ rs) w).1.1.1;
  }

  pub resubscribe-Inv :
      (reply : WsReply) (m : Manager) (r : ℕ) (rs : List ℕ)
      → m.visiting ≡ some (r ∷ rs)
      → Inv canonicalize m
      → Inv canonicalize (resubscribe canonicalize reply r rs m)
  unfolding resubscribe
  resubscribe-Inv (ws_closes e) m r rs w v = skipped-Inv m _ r rs w v
  resubscribe-Inv (ws_fails e) m r rs w v = skipped-Inv m _ r rs w v
  resubscribe-Inv (subscribed id) m r rs w v =
      let s : Slot = record (m.heap r) { subscription_id = some id } in
      let find' = revised-find canonicalize r s m.heap refl m.slots in
      let p = v.waiting (r ∷ rs) w in
      record {
        unique = v.unique;
        keyed = revised-Keyed canonicalize r s m.heap refl m.next_slot m.slots v.keyed;
        held = λ x.
            set_slot-elim
              (λ x t.
                t.consumers ≢ []
                → find m.slots (key_of canonicalize (set_slot r s m.heap x)) ≡ some x)
              r s m.heap (λ h. find' r p.0) (λ x ne h. find' x (v.held x h)) x;
        served = λ k.
            set_slot-elim (λ x t. find m.slots k ≡ some x → t.consumers ≢ []) r s m.heap
              (λ e. v.served k r e) (λ x ne e. v.served k x e);
        indexed = λ i.
            set_slot-elim
              (λ x t.
                set_id id r m.by_id i ≡ some x
                → (find m.slots (key_of canonicalize (set_slot r s m.heap x)) ≡ some x)
                  × (t.subscription_id ≡ some i))
              r s m.heap
              (λ e. (
                find' r p.0,
                elim (Bool-cases (text_eq i id)) [
                  | inl t ↦ ap some (sym (eq_of_text_eq i id t))
                  | inr f ↦ absurd (p.1.0 i (ground (arith, e, f)))
                ],
              ))
              (λ x ne e.
                let old : m.by_id i ≡ some x = ground (arith, e, ne) in
                (find' x (v.indexed i x old).0, (v.indexed i x old).1));
        gauged = λ k. ground (
          arith,
          v.gauged k,
          revised-count canonicalize r s m.heap refl k m.next_slot m.slots v.keyed,
        );
        waiting = λ rs2 e.
            subst (Pending canonicalize m.slots (set_slot r s m.heap) (set_id id r m.by_id))
              (some-injective rs rs2 e)
              (visited-Pending m.slots m.heap (set_slot r s m.heap) m.by_id id r rs find' p.1.1.0
                p.1.1.1);
      }
