-- ===== src/Subscriptions/Closing.antt =====
-- subscriptions.py: `_remove_consumer` keeps the invariant.
use exec_rest_api.Base.{ℕ, ◌≡◌, ◌≢◌, refl, arith, Option, none, some, [], Text, text_eq_refl}
use exec_rest_api.Json.{Json}
use exec_rest_api.Subscriptions.{Key, Slot, Manager, find, pop, pop_id, count, key_of, drop_slot}
use exec_rest_api.Subscriptions.Slots.{
  key_eq_refl, eq_of_key_eq, find-pop, find-Keyed, pop-Unique, pop-Keyed, count-pop,
}
use exec_rest_api.Subscriptions.Invariant.{
  Live, Inv, set_slot-elim, publish_gauge-count, revised-find, revised-Keyed, revised-count,
}

popped :
    (o : Option Text) (by_id : Text → Option ℕ) (id : Text) (x : ℕ)
    → pop_id o by_id id ≡ some x
    → (by_id id ≡ some x) × (o ≢ some id)
popped none by_id id x e = (e, λ q. ground arith)
popped (some j) by_id id x e =
    (ground (arith, e), λ q. ground (arith, e, q, text_eq_refl id, text_eq_refl j))

module _ (canonicalize : Json → Text) (r : ℕ) (m : Manager) where
  abbrev key : Key
  key = key_of canonicalize (m.heap r)

  abbrev emptied : Slot
  emptied = record (m.heap r) { consumers = [] }

  abbrev after : Manager
  after = drop_slot canonicalize key r m

  drop_slot-gauge : Inv canonicalize m → (k : Text) → after.gauge k ≡ count k after.heap after.slots
  unfolding drop_slot
  drop_slot-gauge v = publish_gauge-count (m.heap r).kind after.heap after.slots m.gauge λ k ne.
      ground (
        arith,
        v.gauged k,
        revised-count canonicalize r emptied m.heap refl k m.next_slot (pop m.slots key)
            (pop-Keyed canonicalize m.heap m.next_slot m.slots key v.keyed),
        count-pop canonicalize k m.heap m.next_slot m.slots key v.keyed ne,
      )

  -- the other live slots stay live
  drop_slot-Live :
      (x : ℕ) → Live canonicalize m r → x ≢ r → Live canonicalize m x → Live canonicalize after x
  unfolding drop_slot
  drop_slot-Live x live ne e = revised-find canonicalize r emptied m.heap refl (pop m.slots key) x (
      ground (
        arith,
        find-pop m.slots key (key_of canonicalize (m.heap x)),
        eq_of_key_eq key (key_of canonicalize (m.heap x)),
        live,
        ne,
        e,
      ))

  -- a key that is still in the dict leads to where it led, and not to the dropped slot
  found :
      (k : Key) (x : ℕ)
      → Inv canonicalize m
      → find (pop m.slots key) k ≡ some x
      → (find m.slots k ≡ some x) × (x ≢ r)
  found k x v e =
      let old : find m.slots k ≡ some x = ground (arith, find-pop m.slots key k, e) in
      (
        old,
        λ q. ground (
          arith,
          q,
          e,
          find-pop m.slots key k,
          find-Keyed canonicalize m.heap m.next_slot m.slots k x v.keyed old,
          key_eq_refl key,
        ),
      )

  drop_slot-indexed :
      Live canonicalize m r
      → Inv canonicalize m
      → (id : Text) (x : ℕ) → after.by_id id ≡ some x
      → Live canonicalize after x × ((after.heap x).subscription_id ≡ some id)
  unfolding drop_slot
  drop_slot-indexed live v id =
      set_slot-elim
        (λ x t.
          pop_id (m.heap r).subscription_id m.by_id id ≡ some x
          → Live canonicalize after x × (t.subscription_id ≡ some id))
        r emptied m.heap
        (λ e.
          let p = popped (m.heap r).subscription_id m.by_id id r e in
          absurd (p.1 (v.indexed id r p.0).1))
        (λ x ne e.
          let i : m.by_id id ≡ some x = (popped (m.heap r).subscription_id m.by_id id x e).0 in
          (drop_slot-Live x live ne (v.indexed id x i).0, (v.indexed id x i).1))

  pub drop_slot-Inv :
      Live canonicalize m r → m.visiting ≡ none → Inv canonicalize m → Inv canonicalize after
  unfolding drop_slot
  drop_slot-Inv live idle v = record {
    unique = pop-Unique m.slots key v.unique;
    keyed =
        revised-Keyed canonicalize r emptied m.heap refl m.next_slot (pop m.slots key)
          (pop-Keyed canonicalize m.heap m.next_slot m.slots key v.keyed);
    held =
        set_slot-elim (λ x t. t.consumers ≢ [] → Live canonicalize after x) r emptied m.heap
          (λ h. absurd (h refl)) (λ x ne h. drop_slot-Live x live ne (v.held x h));
    served = λ k.
        set_slot-elim (λ x t. find (pop m.slots key) k ≡ some x → t.consumers ≢ []) r emptied m.heap
          (λ e. absurd ((found k r v e).1 refl)) (λ x ne e. v.served k x (found k x v e).0);
    indexed = drop_slot-indexed live v;
    gauged = drop_slot-gauge v;
    waiting = λ rs w. ground (arith, idle, w);
  }
