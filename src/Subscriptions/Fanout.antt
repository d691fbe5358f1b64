-- ===== src/Subscriptions/Fanout.antt =====
-- subscriptions.py: a notification goes to each consumer of the slot that has its id, once.
use exec_rest_api.Base.{
  ℕ, ◌≡◌, refl, arith, ◌&&◌, ltb, Option, none, some, List, [], ◌∷◌, ◌++◌, Text, codes,
  if◌then◌else◌, length,
}
use exec_rest_api.Json.{Json, Fields, end, field, str, obj, null, get, get_or, ok}
use exec_rest_api.Subscriptions.{
  event, Manager, ConsumerStream, max_queue, params_of, deliver_to, on_notification,
}
use exec_rest_api.Subscriptions.Invariant.{elem}
use exec_rest_api.Subscriptions.Queues.{enqueue_all-each}
use exec_rest_api.Subscriptions.Delivery.{reach-QueueInv, QueueInv}
use exec_rest_api.Subscriptions.Reach.{notified, Reach}

-- the consumers of an id; none, for an id that no slot has
abbrev pub listeners : Manager → Option ℕ → List ℕ
listeners m none = []
listeners m (some r) = (m.heap r).consumers

params_of-obj :
    (payload ps : Fields) (id : Text)
    → get payload (codes "params") ≡ some (obj ps)
    → get ps (codes "subscription") ≡ some (str id)
    → params_of payload ≡ obj ps
params_of-obj payload end id e f = ground arith
params_of-obj payload (field k j ps) id e f = rw e refl

get_or-obj : (ps : Fields) (k : Text) (v d : Json) → get ps k ≡ some v → get_or (obj ps) k d ≡ ok v
get_or-obj ps k v d e = ground (arith, e)

notified_lem :
    (payload ps : Fields) (id : Text) (v : Json) (m : Manager)
    → get payload (codes "params") ≡ some (obj ps)
    → get ps (codes "subscription") ≡ some (str id)
    → get ps (codes "result") ≡ some v
    → notified (on_notification payload m) m ≡ deliver_to (m.by_id id) v m
unfolding on_notification
notified_lem payload ps id v m e f g =
    rw
      (
        params_of-obj payload ps id e f,
        get_or-obj ps (codes "subscription") (str id) null f,
        get_or-obj ps (codes "result") v null g,
      )
      refl

deliver_to-queues :
    (o : Option ℕ) (v : Json) (m : Manager) (q : ℕ)
    → QueueInv m
    → (deliver_to o v m).queues q ≡ (
        if elem q (listeners m o) && ltb (length (m.queues q)) max_queue
        then m.queues q ++ event v ∷ []
        else m.queues q)
deliver_to-queues none v m q i = refl
deliver_to-queues (some r) v m q i =
    enqueue_all-each m.next_queue (m.heap r).consumers (event v) m.queues q (i.distinct r)

module _ (canonicalize : Json → Text) where
  -- In every state that the methods reach, a notification with an id and a result appends one event to
  -- the queue of each consumer of the slot that the index has under this id, when it holds fewer than
  -- 1024 events, and leaves every other queue as it is.
  pub notification-queues :
      (payload ps : Fields) (id : Text) (v : Json) (m : Manager) (cs : List ConsumerStream) (q : ℕ)
      → Reach canonicalize (m, cs)
      → get payload (codes "params") ≡ some (obj ps)
      → get ps (codes "subscription") ≡ some (str id)
      → get ps (codes "result") ≡ some v
      → (notified (on_notification payload m) m).queues q ≡ (
          if elem q (listeners m (m.by_id id)) && ltb (length (m.queues q)) max_queue
          then m.queues q ++ event v ∷ []
          else m.queues q)
  notification-queues payload ps id v m cs q r e f g =
      rw (notified_lem payload ps id v m e f g)
        (deliver_to-queues (m.by_id id) v m q (reach-QueueInv canonicalize r))
