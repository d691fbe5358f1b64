-- ===== src/Subscriptions/Delivery.antt =====
-- subscriptions.py: what a notification puts into the queues of the clients.
use exec_rest_api.Base.{
  ℕ, suc, ◌≤◌, ◌≡◌, refl, arith, Bool, true, false, Option, none, some, List, [], ◌∷◌, Text, codes,
  length,
}
use exec_rest_api.Json.{
  Json, Fields, Result, ok, err, null, str, bool, int, float, arr, obj, get_or, ◌>>=◌,
}
use exec_rest_api.Subscriptions.{
  StreamEvent, event, gap, Manager, WsReply, subscribed, ws_closes, ws_fails, ConsumerStream,
  received, next_event, aclose, find, remove_queue, max_queue, params_of, deliver_to, deliver,
  on_notification, open_slot, join_slot, leave_slot, drop_slot, in_slot, subscribe, without,
  remove_consumer, reconnect_begins, resubscribe, reconnect_ends,
}
use exec_rest_api.Subscriptions.Invariant.{set_slot-elim}
use exec_rest_api.Subscriptions.Queues.{
  Distinct, snoc-Distinct, Distinct-mono, remove_queue-Distinct, enqueue_all-bounded,
}
use exec_rest_api.Subscriptions.Reach.{
  System, notified, ManagerStep, notifies, subscribes, closes, takes, begins, visits, ends, Reach,
  starts, next,
}

pub record QueueInv (m : Manager) : Type 0 where
  -- the queues of a slot are distinct, and have been made
  pub distinct : (r : ℕ) → Distinct m.next_queue (m.heap r).consumers
  -- no queue has more than `maxsize` events
  pub bounded : (q : ℕ) → length (m.queues q) ≤ max_queue

deliver_to-QueueInv :
    (o : Option ℕ) (v : Json) (m : Manager) → QueueInv m → QueueInv (deliver_to o v m)
deliver_to-QueueInv none v m i = i
deliver_to-QueueInv (some r) v m i = record {
  distinct = i.distinct;
  bounded = enqueue_all-bounded (m.heap r).consumers (event v) m.queues i.bounded;
}

deliver-QueueInv : (id v : Json) (m : Manager) → QueueInv m → QueueInv (deliver id v m)
deliver-QueueInv null v m i = i
deliver-QueueInv (bool b) v m i = i
deliver-QueueInv (int n) v m i = i
deliver-QueueInv (float t) v m i = i
deliver-QueueInv (str id) v m i = deliver_to-QueueInv (m.by_id id) v m i
deliver-QueueInv (arr xs) v m i = i
deliver-QueueInv (obj fs) v m i = i

notified-QueueInv :
    (payload : Fields) (m : Manager)
    → QueueInv m
    → QueueInv (notified (on_notification payload m) m)
unfolding on_notification
notified-QueueInv payload m i =
    found (get_or (params_of payload) (codes "subscription") null)
      (get_or (params_of payload) (codes "result") null)
  where
    found : (a b : Result Json) → QueueInv (notified (do id ← a; v ← b; ok (deliver id v m)) m)
    found (err e) b = i
    found (ok id) (err e) = i
    found (ok id) (ok v) = deliver-QueueInv id v m i

received-QueueInv :
    (q : ℕ) (es : List StreamEvent) (m : Manager)
    → m.queues q ≡ es
    → QueueInv m
    → QueueInv (received q es m).1
received-QueueInv q [] m e i = i
received-QueueInv q (x ∷ es) m e i = record {
  distinct = i.distinct;
  bounded = λ y. ground (arith, i.bounded q, i.bounded y, e);
}

module _ (canonicalize : Json → Text) where
  in_slot-QueueInv :
      (o : Option ℕ) (reply : WsReply) (kind : Text) (params : Json) (m : Manager)
      → QueueInv m
      → QueueInv (in_slot canonicalize o reply kind params m).1
  unfolding open_slot join_slot
  in_slot-QueueInv none (subscribed id) kind params m i = record {
    distinct =
        set_slot-elim (λ r s. Distinct (suc m.next_queue) s.consumers) m.next_slot _ m.heap
          (omega arith, (refl, tt))
          (λ r ne.
            Distinct-mono m.next_queue (suc m.next_queue) (m.heap r).consumers (omega arith)
              (i.distinct r));
    bounded = λ x. ground (arith, i.bounded x);
  }
  in_slot-QueueInv none (ws_closes e) kind params m i = i
  in_slot-QueueInv none (ws_fails e) kind params m i = i
  in_slot-QueueInv (some r) reply kind params m i = record {
    distinct =
        set_slot-elim (λ r s. Distinct (suc m.next_queue) s.consumers) r _ m.heap
          (snoc-Distinct m.next_queue (m.heap r).consumers (i.distinct r))
          (λ r ne.
            Distinct-mono m.next_queue (suc m.next_queue) (m.heap r).consumers (omega arith)
              (i.distinct r));
    bounded = λ x. ground (arith, i.bounded x);
  }

  subscribing-QueueInv :
      (connected : Bool) (reply : WsReply) (kind : Text) (params : Json) (m : Manager)
      → QueueInv m
      → QueueInv (subscribe canonicalize connected reply kind params m).1
  unfolding subscribe
  subscribing-QueueInv true reply kind params m i =
      in_slot-QueueInv (find m.slots (kind, canonicalize params)) reply kind params m i
  subscribing-QueueInv false reply kind params m i = i

  closed-QueueInv :
      (c : ConsumerStream) (left : Option (List ℕ)) (m : Manager)
      → remove_queue c.queue (m.heap c.slot).consumers ≡ left
      → QueueInv m
      → QueueInv (without canonicalize c.key c.slot left m).1
  unfolding drop_slot leave_slot
  closed-QueueInv c none m e i = i
  closed-QueueInv c (some []) m e i = record {
    distinct =
        set_slot-elim (λ r s. Distinct m.next_queue s.consumers) c.slot _ m.heap tt
          (λ r ne. i.distinct r);
    bounded = i.bounded;
  }
  closed-QueueInv c (some (q ∷ qs)) m e i = record {
    distinct =
        set_slot-elim (λ r s. Distinct m.next_queue s.consumers) c.slot _ m.heap
          (remove_queue-Distinct m.next_queue c.queue (m.heap c.slot).consumers (q ∷ qs) e
            (i.distinct c.slot))
          (λ r ne. i.distinct r);
    bounded = i.bounded;
  }

  aclose-QueueInv :
      (connected closed : Bool) (c : ConsumerStream) (m : Manager)
      → QueueInv m
      → QueueInv (aclose canonicalize connected (record { stream = c; closed = closed }) m).1.1
  unfolding aclose remove_consumer
  aclose-QueueInv connected true c m i = i
  aclose-QueueInv connected false c m i =
      closed-QueueInv c (remove_queue c.queue (m.heap c.slot).consumers) m refl i

  next_event-QueueInv :
      (closed : Bool) (c : ConsumerStream) (m : Manager)
      → QueueInv m
      → QueueInv (next_event (record { stream = c; closed = closed }) m).1
  unfolding next_event
  next_event-QueueInv true c m i = i
  next_event-QueueInv false c m i = received-QueueInv c.queue (m.queues c.queue) m refl i

  visiting-QueueInv :
      (reply : WsReply) (r : ℕ) (rs : List ℕ) (m : Manager)
      → QueueInv m
      → QueueInv (resubscribe canonicalize reply r rs m)
  unfolding resubscribe
  visiting-QueueInv (subscribed id) r rs m i = record {
    distinct =
        set_slot-elim (λ x s. Distinct m.next_queue s.consumers) r _ m.heap (i.distinct r)
          (λ x ne. i.distinct x);
    bounded = enqueue_all-bounded (m.heap r).consumers gap m.queues i.bounded;
  }
  visiting-QueueInv (ws_closes e) r rs m i = record {
    distinct = i.distinct;
    bounded = enqueue_all-bounded (m.heap r).consumers gap m.queues i.bounded;
  }
  visiting-QueueInv (ws_fails e) r rs m i = record {
    distinct = i.distinct;
    bounded = enqueue_all-bounded (m.heap r).consumers gap m.queues i.bounded;
  }

  step-QueueInv : {s t : System} → ManagerStep canonicalize s t → QueueInv s.0 → QueueInv t.0
  unfolding reconnect_begins reconnect_ends
  step-QueueInv (notifies m cs payload) i = notified-QueueInv payload m i
  step-QueueInv (subscribes m cs connected reply kind params idle) i =
      subscribing-QueueInv connected reply kind params m i
  step-QueueInv (closes m cs connected c idle g) i = aclose-QueueInv connected c.closed c.stream m i
  step-QueueInv (takes m cs c g) i = next_event-QueueInv c.closed c.stream m i
  step-QueueInv (begins m cs idle) i = record { distinct = i.distinct; bounded = i.bounded }
  step-QueueInv (visits m cs reply r rs w) i = visiting-QueueInv reply r rs m i
  step-QueueInv (ends m cs w) i = record { distinct = i.distinct; bounded = i.bounded }

  pub reach-QueueInv : {s : System} → Reach canonicalize s → QueueInv s.0
  reach-QueueInv starts = record { distinct = λ r. tt; bounded = λ q. omega arith }
  reach-QueueInv (next r st) = step-QueueInv st (reach-QueueInv r)
