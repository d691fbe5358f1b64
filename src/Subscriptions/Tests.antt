-- ===== src/Subscriptions/Tests.antt =====
-- subscriptions.py with two clients of the new heads and one of the pending transactions.
use exec_rest_api.Base.{
  ℕ, ◌≡◌, refl, true, none, some, [], ◌∷◌, ◌&&◌, ltb, ◌++◌, if◌then◌else◌, length, Text, codes,
}
use exec_rest_api.Json.{Json, Fields, null, obj, word, field, end, type_error}
use exec_rest_api.Subscriptions.{
  event, max_queue, Manager, subscribed, ws_fails, ConsumerStream, subscribe, open_slot, join_slot,
  remove_consumer, drop_slot, leave_slot, reconnect_begins, resubscribe, reconnect_ends,
  on_notification, enqueue, enqueue_all,
}
use exec_rest_api.Subscriptions.Invariant.{new_manager, elem}
use exec_rest_api.Subscriptions.Reach.{
  System, subscribing, notified, Reach, starts, next, subscribes,
}
use exec_rest_api.Subscriptions.Streams.{SystemInv}
use exec_rest_api.Subscriptions.Safety.{reach-Inv}
use exec_rest_api.Subscriptions.Fanout.{listeners, notification-queues}

abbrev canonical : Json → Text
canonical v = codes "null"

abbrev heads : Text
heads = codes "newHeads"

abbrev pending : Text
pending = codes "newPendingTransactions"

abbrev one : System
one = subscribing canonical true (subscribed (codes "0xa")) heads null (new_manager, [])

abbrev two : System
two = subscribing canonical true (subscribed (codes "0xb")) heads null one

abbrev three : System
three = subscribing canonical true (subscribed (codes "0xc")) pending null two

abbrev payload : Json → Fields
payload v =
    field (codes "params")
      (obj (field (codes "subscription") (word "0xa") (field (codes "result") v end))) end

one-Reach : Reach canonical one
unfolding subscribe open_slot join_slot
one-Reach = next starts (subscribes new_manager [] true (subscribed (codes "0xa")) heads null refl)

two-Reach : Reach canonical two
unfolding subscribe open_slot join_slot
two-Reach = next one-Reach (subscribes one.0 one.1 true (subscribed (codes "0xb")) heads null refl)

three-Reach : Reach canonical three
unfolding subscribe open_slot join_slot
three-Reach =
    next two-Reach (subscribes two.0 two.1 true (subscribed (codes "0xc")) pending null refl)

reach-Inv_example : SystemInv canonical three
reach-Inv_example = reach-Inv canonical three-Reach

notification-queues_example :
    (notified (on_notification (payload (word "0x1")) three.0) three.0).queues 1 ≡ (
      if elem 1 (listeners three.0 (three.0.by_id (codes "0xa")))
        && ltb (length (three.0.queues 1)) max_queue
      then three.0.queues 1 ++ event (word "0x1") ∷ []
      else three.0.queues 1)
notification-queues_example =
    notification-queues canonical (payload (word "0x1"))
      (field (codes "subscription") (word "0xa") (field (codes "result") (word "0x1") end))
      (codes "0xa") (word "0x1") three.0 three.1 1 three-Reach refl refl refl

-- both clients of the new heads get the event, and the third does not
abbrev both : Manager
both = notified (on_notification (payload (word "0x1")) three.0) three.0

both_queues :
    (both.queues 0 ∷ both.queues 1 ∷ both.queues 2 ∷ [])
    ≡ ((event (word "0x1") ∷ []) ∷ (event (word "0x1") ∷ []) ∷ [] ∷ [])
unfolding subscribe open_slot join_slot on_notification enqueue_all enqueue
both_queues = refl

-- On a new connection the request for the new heads fails, and the pending transactions get the id
-- that the new heads had.
abbrev renewed : Manager
renewed = reconnect_ends canonical (
    resubscribe canonical (subscribed (codes "0xa")) 1 []
      (resubscribe canonical (ws_fails type_error) 0 (1 ∷ []) (reconnect_begins canonical three.0)))

renewed_id : renewed.by_id (codes "0xa") ≡ some 1
unfolding subscribe open_slot join_slot reconnect_begins resubscribe reconnect_ends enqueue_all
    enqueue
renewed_id = refl

-- When both clients of the new heads have gone, the id of the pending transactions is unsubscribed.
abbrev head_stream : ℕ → ConsumerStream
head_stream q = record { key = (heads, codes "null"); slot = 0; queue = q }

abbrev one_left : Manager
one_left = (remove_consumer canonical (head_stream 0) renewed).1

stale_id : (remove_consumer canonical (head_stream 1) one_left).0 ≡ some (codes "0xa")
unfolding subscribe open_slot join_slot reconnect_begins resubscribe reconnect_ends enqueue_all
    enqueue remove_consumer leave_slot drop_slot
stale_id = refl

stale_index : (remove_consumer canonical (head_stream 1) one_left).1.by_id (codes "0xa") ≡ none
unfolding subscribe open_slot join_slot reconnect_begins resubscribe reconnect_ends enqueue_all
    enqueue remove_consumer leave_slot drop_slot
stale_index = refl
