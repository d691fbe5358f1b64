-- ===== src/Subscriptions/Safety.antt =====
-- subscriptions.py: the invariant holds in every state that the methods reach.
use exec_rest_api.Base.{
  ℕ, suc, ◌≡◌, ◌≢◌, refl, sym, ap, arith, Bool, true, false, Option, none, some, List, [], ◌∷◌,
  Text,
}
use exec_rest_api.Json.{Json}
use exec_rest_api.Subscriptions.{
  Key, StreamEvent, WsReply, subscribed, ws_closes, ws_fails, ConsumerStream, received, next_event,
  aclose, find, remove_queue, key_of, open_slot, join_slot, drop_slot, leave_slot, in_slot,
  subscribe, without, remove_consumer, reconnect_begins, resubscribe, reconnect_ends,
}
use exec_rest_api.Subscriptions.Slots.{find-Keyed}
use exec_rest_api.Subscriptions.Invariant.{Live, new_manager-Inv, set_slot-same, revised-key}
use exec_rest_api.Subscriptions.Opening.{open_slot-key, open_slot-Inv}
use exec_rest_api.Subscriptions.Joining.{join_slot-Inv, leave_slot-Inv}
use exec_rest_api.Subscriptions.Closing.{drop_slot-Inv}
use exec_rest_api.Subscriptions.Reconnecting.{
  reconnect_begins-Inv, resubscribe-Inv, reconnect_ends-Inv,
}
use exec_rest_api.Subscriptions.Reach.{
  System, Given, give, subscribing, ManagerStep, notifies, subscribes, closes, takes, begins,
  visits, ends, Reach, starts, next,
}
use exec_rest_api.Subscriptions.Streams.{
  SystemInv, Keys_mono, Keys_revised, Given-key, queues-Inv, notified-Inv,
}

module _ (canonicalize : Json → Text) where
  -- a new consumer of the slot that the dict has under the key
  joined-Inv :
      (r : ℕ) (key : Key) (s : System)
      → find s.0.slots key ≡ some r
      → s.0.visiting ≡ none
      → SystemInv canonicalize s
      → SystemInv canonicalize (
        join_slot canonicalize r s.0,
        record { key = key; slot = r; queue = s.0.next_queue } ∷ s.1,
      )
  unfolding join_slot
  joined-Inv r key (m, cs) e idle i =
      let at = find-Keyed canonicalize m.heap m.next_slot m.slots key r i.manager.keyed e in
      let live : Live canonicalize m r = rw at.0 e in
      let same = revised-key canonicalize r _ m.heap refl in
      record {
        manager = join_slot-Inv canonicalize r m live idle i.manager;
        keys = (
          at.1,
          (
            rw (same r, at.0) refl,
            Keys_mono canonicalize m.heap (join_slot canonicalize r m).heap m.next_slot m.next_slot
                cs (omega arith) (λ x lt. same x) i.keys,
          ),
        );
      }

  opened-Inv :
      (id kind : Text) (params : Json) (s : System)
      → find s.0.slots (kind, canonicalize params) ≡ none
      → s.0.visiting ≡ none
      → SystemInv canonicalize s
      → SystemInv canonicalize (
        open_slot canonicalize id kind params s.0,
        record { key = (kind, canonicalize params); slot = s.0.next_slot; queue = s.0.next_queue }
            ∷ s.1,
      )
  unfolding open_slot
  opened-Inv id kind params (m, cs) e idle i = record {
    manager = open_slot-Inv canonicalize id kind params m e idle i.manager;
    keys = (
      omega arith,
      (
        sym (ap (key_of canonicalize) (set_slot-same m.next_slot _ m.heap)),
        Keys_mono canonicalize m.heap (open_slot canonicalize id kind params m).heap m.next_slot
            (suc m.next_slot) cs (omega arith) (open_slot-key canonicalize id kind params m) i.keys,
      ),
    );
  }

  in_slot-Inv :
      (o : Option ℕ) (reply : WsReply) (kind : Text) (params : Json) (s : System)
      → find s.0.slots (kind, canonicalize params) ≡ o
      → s.0.visiting ≡ none
      → SystemInv canonicalize s
      → (let (result, after) = in_slot canonicalize o reply kind params s.0 in
          SystemInv canonicalize (after, give result s.1))
  in_slot-Inv (some r) reply kind params s e idle i =
      joined-Inv r (kind, canonicalize params) s e idle i
  in_slot-Inv none (subscribed id) kind params s e idle i = opened-Inv id kind params s e idle i
  in_slot-Inv none (ws_closes x) kind params s e idle i = i
  in_slot-Inv none (ws_fails x) kind params s e idle i = i

  subscribing-Inv :
      (connected : Bool) (reply : WsReply) (kind : Text) (params : Json) (s : System)
      → s.0.visiting ≡ none
      → SystemInv canonicalize s
      → SystemInv canonicalize (subscribing canonicalize connected reply kind params s)
  unfolding subscribe
  subscribing-Inv true reply kind params (m, cs) idle i =
      in_slot-Inv (find m.slots (kind, canonicalize params)) reply kind params (m, cs) refl idle i
  subscribing-Inv false reply kind params (m, cs) idle i = i

  closed-Inv :
      (c : ConsumerStream) (left : Option (List ℕ)) (s : System)
      → c.key ≡ key_of canonicalize (s.0.heap c.slot)
      → (left ≢ none → Live canonicalize s.0 c.slot)
      → s.0.visiting ≡ none
      → SystemInv canonicalize s
      → SystemInv canonicalize ((without canonicalize c.key c.slot left s.0).1, s.1)
  unfolding drop_slot leave_slot
  closed-Inv c none s e live idle i = i
  closed-Inv c (some []) (m, cs) e live idle i = record {
    manager = rw e (drop_slot-Inv canonicalize c.slot m (live (λ q. ground arith)) idle i.manager);
    keys =
        Keys_revised canonicalize c.slot (record (m.heap c.slot) { consumers = [] }) m.heap
          m.next_slot cs refl i.keys;
  }
  closed-Inv c (some (q ∷ qs)) (m, cs) e live idle i = record {
    manager = leave_slot-Inv canonicalize c.slot m q qs (live (λ q. ground arith)) idle i.manager;
    keys =
        Keys_revised canonicalize c.slot (record (m.heap c.slot) { consumers = q ∷ qs }) m.heap
          m.next_slot cs refl i.keys;
  }

  removing-Inv :
      (c : ConsumerStream) (s : System)
      → Given c s.1
      → s.0.visiting ≡ none
      → SystemInv canonicalize s
      → SystemInv canonicalize ((remove_consumer canonicalize c s.0).1, s.1)
  unfolding remove_consumer
  removing-Inv c (m, cs) g idle i =
      closed-Inv c (remove_queue c.queue (m.heap c.slot).consumers) (m, cs)
        (Given-key canonicalize m.heap m.next_slot c cs i.keys g)
        (λ ne. i.manager.held c.slot (λ e. ne (rw e refl))) idle i

  aclose-Inv :
      (connected closed : Bool) (c : ConsumerStream) (s : System)
      → Given c s.1
      → s.0.visiting ≡ none
      → SystemInv canonicalize s
      → SystemInv canonicalize
          ((aclose canonicalize connected (record { stream = c; closed = closed }) s.0).1.1, s.1)
  unfolding aclose
  aclose-Inv connected true c s g idle i = i
  aclose-Inv connected false c s g idle i = removing-Inv c s g idle i

  received-Inv :
      (q : ℕ) (es : List StreamEvent) (s : System)
      → SystemInv canonicalize s
      → SystemInv canonicalize ((received q es s.0).1, s.1)
  received-Inv q [] s i = i
  received-Inv q (e ∷ es) s i = record {
    manager = queues-Inv canonicalize s.0 _ i.manager;
    keys = i.keys;
  }

  next_event-Inv :
      (closed : Bool) (c : ConsumerStream) (s : System)
      → SystemInv canonicalize s
      → SystemInv canonicalize ((next_event (record { stream = c; closed = closed }) s.0).1, s.1)
  unfolding next_event
  next_event-Inv true c s i = i
  next_event-Inv false c s i = received-Inv c.queue (s.0.queues c.queue) s i

  visiting-Inv :
      (reply : WsReply) (r : ℕ) (rs : List ℕ) (s : System)
      → s.0.visiting ≡ some (r ∷ rs)
      → SystemInv canonicalize s
      → SystemInv canonicalize (resubscribe canonicalize reply r rs s.0, s.1)
  unfolding resubscribe
  visiting-Inv (subscribed id) r rs (m, cs) w i = record {
    manager = resubscribe-Inv canonicalize (subscribed id) m r rs w i.manager;
    keys =
        Keys_revised canonicalize r (record (m.heap r) { subscription_id = some id }) m.heap
          m.next_slot cs refl i.keys;
  }
  visiting-Inv (ws_closes e) r rs (m, cs) w i = record {
    manager = resubscribe-Inv canonicalize (ws_closes e) m r rs w i.manager;
    keys = i.keys;
  }
  visiting-Inv (ws_fails e) r rs (m, cs) w i = record {
    manager = resubscribe-Inv canonicalize (ws_fails e) m r rs w i.manager;
    keys = i.keys;
  }

  -- every step keeps the invariant
  step-Inv :
      {s t : System}
      → ManagerStep canonicalize s t
      → SystemInv canonicalize s
      → SystemInv canonicalize t
  unfolding reconnect_begins reconnect_ends
  step-Inv (notifies m cs payload) i = notified-Inv canonicalize payload (m, cs) i
  step-Inv (subscribes m cs connected reply kind params idle) i =
      subscribing-Inv connected reply kind params (m, cs) idle i
  step-Inv (closes m cs connected c idle g) i =
      aclose-Inv connected c.closed c.stream (m, cs) g idle i
  step-Inv (takes m cs c g) i = next_event-Inv c.closed c.stream (m, cs) i
  step-Inv (begins m cs idle) i = record {
    manager = reconnect_begins-Inv canonicalize m i.manager;
    keys = i.keys;
  }
  step-Inv (visits m cs reply r rs w) i = visiting-Inv reply r rs (m, cs) w i
  step-Inv (ends m cs w) i = record {
    manager = reconnect_ends-Inv canonicalize m i.manager;
    keys = i.keys;
  }

  -- In every state that the methods reach, from the manager of `__init__` and in any order of their
  -- calls and of the notifications: `_slots` has one entry for a key, and it leads to a slot with this
  -- key; a slot has consumers exactly when it is in `_slots`; an id in `_slot_by_subscription_id` leads
  -- to a slot in `_slots` that has this id; the gauge of a kind is the number of its slots; the slots
  -- that `on_reconnect` still has to visit are in `_slots`, are distinct and have no id in the index;
  -- and each stream that was given out holds the key of its slot.
  pub reach-Inv : {s : System} → Reach canonicalize s → SystemInv canonicalize s
  reach-Inv starts = record { manager = new_manager-Inv canonicalize; keys = tt }
  reach-Inv (next r st) = step-Inv st (reach-Inv r)
