-- ===== src/Subscriptions/Opening.antt =====
-- subscriptions.py: `subscribe` keeps the invariant.
use exec_rest_api.Base.{
  ℕ, suc, ◌<◌, ◌≡◌, ◌≢◌, refl, sym, ap, arith, none, some, List, [], ◌∷◌, ◌++◌, Text, text_eq,
  eq_of_text_eq, Bool-cases, Option-cases, inl, inr,
}
use exec_rest_api.Json.{Json}
use exec_rest_api.Subscriptions.{Key, Manager, find, count, key_of, set_id, open_slot}
use exec_rest_api.Subscriptions.Slots.{
  Keyed, key_eq_refl, find-append, find-append_none, Keyed-mono, snoc-Keyed, snoc-Unique,
  count_mono, count-append,
}
use exec_rest_api.Subscriptions.Invariant.{
  Live, Inv, Live-below, set_slot-same, set_slot-other, set_slot-elim, publish_gauge-count,
}

module _ (canonicalize : Json → Text) (id kind : Text) (params : Json) (m : Manager) where
  abbrev key : Key
  key = (kind, canonicalize params)

  abbrev new_slots : List (Key × ℕ)
  new_slots = (key, m.next_slot) ∷ []

  abbrev after : Manager
  after = open_slot canonicalize id kind params m

  open_slot-old : (r : ℕ) → r < m.next_slot → after.heap r ≡ m.heap r
  unfolding open_slot
  open_slot-old r lt = set_slot-other m.next_slot r _ m.heap (λ e. omega arith)

  pub open_slot-key :
      (r : ℕ)
      → r < m.next_slot
      → key_of canonicalize (after.heap r) ≡ key_of canonicalize (m.heap r)
  open_slot-key r lt = rw (open_slot-old r lt) refl

  -- a live slot stays live
  open_slot-Live : (r : ℕ) → Inv canonicalize m → Live canonicalize m r → Live canonicalize after r
  unfolding open_slot
  open_slot-Live r v e =
      rw (open_slot-old r (Live-below canonicalize m r v e))
        (find-append m.slots _ (key_of canonicalize (m.heap r)) r e)

  pub open_slot-new : find m.slots key ≡ none → Live canonicalize after m.next_slot
  unfolding open_slot
  open_slot-new e = ground (arith, find-append_none m.slots new_slots key e, key_eq_refl key)

  open_slot-Keyed : Inv canonicalize m → Keyed canonicalize after.heap after.next_slot after.slots
  unfolding open_slot
  open_slot-Keyed v =
      snoc-Keyed canonicalize after.heap (suc m.next_slot) m.slots key m.next_slot
        (Keyed-mono canonicalize m.heap after.heap m.next_slot (suc m.next_slot) m.slots
          open_slot-key (omega arith) v.keyed)
        (ap (key_of canonicalize) (set_slot-same m.next_slot _ m.heap)) (omega arith)

  open_slot-gauge : Inv canonicalize m → (k : Text) → after.gauge k ≡ count k after.heap after.slots
  unfolding open_slot
  open_slot-gauge v = publish_gauge-count kind after.heap after.slots m.gauge λ k ne. ground (
    arith,
    v.gauged k,
    count-append k after.heap m.slots new_slots,
    count_mono canonicalize k m.heap after.heap m.next_slot m.slots open_slot-key v.keyed,
    ne,
  )

  -- where a key leads after the opening
  found :
      (k : Key) (r : ℕ)
      → r ≢ m.next_slot
      → find (m.slots ++ new_slots) k ≡ some r
      → find m.slots k ≡ some r
  found k r ne e = elim (Option-cases (find m.slots k)) [
    | inl n ↦ ground (arith, find-append_none m.slots new_slots k n, e, ne)
    | inr (x, s) ↦ ground (arith, find-append m.slots new_slots k x s, e, s)
  ]

  open_slot-served :
      Inv canonicalize m
      → (k : Key) (r : ℕ) → find after.slots k ≡ some r
      → (after.heap r).consumers ≢ []
  unfolding open_slot
  open_slot-served v k =
      set_slot-elim (λ r s. find (m.slots ++ new_slots) k ≡ some r → s.consumers ≢ []) m.next_slot _
        m.heap (λ e f. ground arith) (λ r ne e. v.served k r (found k r ne e))

  open_slot-indexed :
      find m.slots key ≡ none
      → Inv canonicalize m
      → (x : Text) (r : ℕ) → after.by_id x ≡ some r
      → Live canonicalize after r × ((after.heap r).subscription_id ≡ some x)
  unfolding open_slot
  open_slot-indexed absent v x =
      set_slot-elim
        (λ r s.
          set_id id m.next_slot m.by_id x ≡ some r
          → Live canonicalize after r × (s.subscription_id ≡ some x))
        m.next_slot _ m.heap
        (λ e. (
          open_slot-new absent,
          elim (Bool-cases (text_eq x id)) [
            | inl t ↦ ap some (sym (eq_of_text_eq x id t))
            | inr f ↦
                let i : m.by_id x ≡ some m.next_slot = ground (arith, e, f) in
                let lt = Live-below canonicalize m m.next_slot v (v.indexed x m.next_slot i).0 in
                absurd (omega (arith, lt))
          ],
        ))
        (λ r ne e.
          let i : m.by_id x ≡ some r = ground (arith, e, ne) in
          (open_slot-Live r v (v.indexed x r i).0, (v.indexed x r i).1))

  pub open_slot-Inv :
      find m.slots key ≡ none → m.visiting ≡ none → Inv canonicalize m → Inv canonicalize after
  unfolding open_slot
  open_slot-Inv e idle v = record {
    unique = snoc-Unique m.slots key m.next_slot v.unique e;
    keyed = open_slot-Keyed v;
    held =
        set_slot-elim (λ r s. s.consumers ≢ [] → Live canonicalize after r) m.next_slot _ m.heap
          (λ h. open_slot-new e) (λ r ne h. open_slot-Live r v (v.held r h));
    served = open_slot-served v;
    indexed = open_slot-indexed e v;
    gauged = open_slot-gauge v;
    waiting = λ rs w. ground (arith, idle, w);
  }
