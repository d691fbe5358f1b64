-- ===== src/Subscriptions/Joining.antt =====
-- subscriptions.py: a consumer that joins a slot, or leaves it to others, keeps the invariant.
use exec_rest_api.Base.{ℕ, ◌≡◌, ◌≢◌, refl, arith, none, some, List, [], ◌∷◌, ◌++◌, Text}
use exec_rest_api.Json.{Json}
use exec_rest_api.Subscriptions.{
  StreamEvent, Slot, Manager, find, key_of, set_slot, join_slot, leave_slot,
}
use exec_rest_api.Subscriptions.Invariant.{
  Live, Inv, set_slot-elim, revised-find, revised-Keyed, revised-count,
}

snoc_nonempty : (xs : List ℕ) (x : ℕ) → xs ++ x ∷ [] ≢ []
snoc_nonempty [] x e = ground arith
snoc_nonempty (y ∷ xs) x e = ground arith

module _ (canonicalize : Json → Text) (r : ℕ) (m : Manager) where
  abbrev with_consumers : List ℕ → Slot
  with_consumers qs = record (m.heap r) { consumers = qs }

  -- other consumers of a live slot, of which there are some
  consumers-Inv :
      (qs : List ℕ) (queues : ℕ → List StreamEvent) (next_queue : ℕ)
      → qs ≢ []
      → Live canonicalize m r
      → m.visiting ≡ none
      → Inv canonicalize m
      → Inv canonicalize (record m {
        heap = set_slot r (with_consumers qs) m.heap;
        queues = queues;
        next_queue = next_queue;
      })
  consumers-Inv qs queues next_queue ne live idle v =
      let s = with_consumers qs in
      let find' = revised-find canonicalize r s m.heap refl m.slots in
      record {
        unique = v.unique;
        keyed = revised-Keyed canonicalize r s m.heap refl m.next_slot m.slots v.keyed;
        held = λ x.
            set_slot-elim
              (λ x t.
                t.consumers ≢ []
                → find m.slots (key_of canonicalize (set_slot r s m.heap x)) ≡ some x)
              r s m.heap (λ h. find' r live) (λ x ne h. find' x (v.held x h)) x;
        served = λ k.
            set_slot-elim (λ x t. find m.slots k ≡ some x → t.consumers ≢ []) r s m.heap (λ e. ne)
              (λ x ne e. v.served k x e);
        indexed = λ id x e. (
          find' x (v.indexed id x e).0,
          set_slot-elim (λ x t. m.by_id id ≡ some x → t.subscription_id ≡ some id) r s m.heap
              (λ e. (v.indexed id r e).1) (λ x ne e. (v.indexed id x e).1) x e,
        );
        gauged = λ k. ground (
          arith,
          v.gauged k,
          revised-count canonicalize r s m.heap refl k m.next_slot m.slots v.keyed,
        );
        waiting = λ rs w. ground (arith, idle, w);
      }

  pub join_slot-Inv :
      Live canonicalize m r
      → m.visiting ≡ none
      → Inv canonicalize m
      → Inv canonicalize (join_slot canonicalize r m)
  unfolding join_slot
  join_slot-Inv live idle v =
      consumers-Inv ((m.heap r).consumers ++ m.next_queue ∷ []) _ _
        (snoc_nonempty (m.heap r).consumers m.next_queue) live idle v

  pub leave_slot-Inv :
      (q : ℕ) (qs : List ℕ)
      → Live canonicalize m r
      → m.visiting ≡ none
      → Inv canonicalize m
      → Inv canonicalize (leave_slot canonicalize r (q ∷ qs) m)
  unfolding leave_slot
  leave_slot-Inv q qs live idle v =
      consumers-Inv (q ∷ qs) m.queues m.next_queue (λ e. ground arith) live idle v
