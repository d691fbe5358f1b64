-- ===== src/Subscriptions.antt =====
-- subscriptions.py: one upstream subscription for each (kind, params), fanned out to the queues of
-- the clients. Slots and queues are shared objects: they live in a store under numbers. The text of
-- `_canonicalize` is a parameter, and so is what `ws.request` gives: an id, which is a text, or a failure.
pub mod Slots
pub mod Invariant
pub mod Opening
pub mod Joining
pub mod Closing
pub mod Reconnecting
pub mod Reach
pub mod Queues
pub mod Streams
pub mod Safety
pub mod Delivery
pub mod Fanout
mod Tests
use exec_rest_api.Base.{
  ℕ, suc, ◌+◌, ◌&&◌, Bool, true, false, Option, none, some, List, [], ◌∷◌, ◌++◌, Text, codes,
  text_eq, if◌then◌else◌, ltb, ◌==◌, length,
}
use exec_rest_api.Json.{
  Json, null, str, obj, Fields, end, field, get, or_null, get_or, truthy, list, Message, says, Exn,
  subscription_unavailable, exn_text, Result, ok, err, ◌>>=◌,
}

-- the key of `_slots`: the kind and the canonical params
abbrev pub Key : Type 0
Key = Text × Text

abbrev pub key_eq : Key → Key → Bool
key_eq (a, b) (c, d) = text_eq a c && text_eq b d

pub data StreamEvent : Type 0 where
  event : Json → StreamEvent
  gap : StreamEvent

pub record Slot : Type 0 where
  pub kind : Text
  pub params : Json
  pub subscription_id : Option Text
  pub consumers : List ℕ

pub record Manager : Type 0 where
  -- self._slots and self._slot_by_subscription_id
  pub slots : List (Key × ℕ)
  pub by_id : Text → Option ℕ
  -- the slot and queue objects, and the numbers of the next ones
  pub heap : ℕ → Slot
  pub next_slot : ℕ
  pub queues : ℕ → List StreamEvent
  pub next_queue : ℕ
  -- the gauge of upstream subscriptions, by kind
  pub gauge : Text → ℕ
  -- while `on_reconnect` holds the lock: the slots that its loop has not visited
  pub visiting : Option (List ℕ)

-- what `await self._ws.request("eth_subscribe", …)` gives
pub data WsReply : Type 0 where
  subscribed : Text → WsReply
  ws_closes : Message → WsReply
  ws_fails : Exn → WsReply

abbrev pub find : List (Key × ℕ) → Key → Option ℕ
find [] k = none
find ((j, r) ∷ slots) k = if key_eq j k then some r else find slots k

-- self._slots.pop(key, None)
abbrev pub pop : List (Key × ℕ) → Key → List (Key × ℕ)
pop [] k = []
pop ((j, r) ∷ slots) k = let rest = pop slots k in if key_eq j k then rest else (j, r) ∷ rest

abbrev pub values : List (Key × ℕ) → List ℕ
values [] = []
values ((k, r) ∷ slots) = r ∷ values slots

abbrev pub set_slot : ℕ → Slot → (ℕ → Slot) → ℕ → Slot
set_slot r s heap x = if x == r then s else heap x

abbrev pub set_id : Text → ℕ → (Text → Option ℕ) → Text → Option ℕ
set_id id r by_id x = if text_eq x id then some r else by_id x

-- self._slot_by_subscription_id.pop(sub_id, None), unless sub_id is None
abbrev pub pop_id : Option Text → (Text → Option ℕ) → Text → Option ℕ
pop_id none by_id x = by_id x
pop_id (some id) by_id x = if text_eq x id then none else by_id x

-- consumers.remove(queue); `none` is the ValueError
abbrev cons_some : ℕ → Option (List ℕ) → Option (List ℕ)
cons_some x none = none
cons_some x (some xs) = some (x ∷ xs)

abbrev pub remove_queue : ℕ → List ℕ → Option (List ℕ)
remove_queue q [] = none
remove_queue q (x ∷ xs) =
    let rest = remove_queue q xs in if x == q then some xs else cons_some x rest

-- sum(1 for slot in self._slots.values() if slot.kind == kind)
abbrev pub count : Text → (ℕ → Slot) → List (Key × ℕ) → ℕ
count kind heap [] = 0
count kind heap ((k, r) ∷ slots) =
    (if text_eq (heap r).kind kind then 1 else 0) + count kind heap slots

abbrev pub publish_gauge : Text → (ℕ → Slot) → List (Key × ℕ) → (Text → ℕ) → Text → ℕ
publish_gauge kind heap slots gauge k = if text_eq k kind then count kind heap slots else gauge k

-- asyncio.Queue(maxsize=1024)
abbrev pub max_queue : ℕ
max_queue = 1024

-- put_nowait; a full queue drops the event
unfoldable pub enqueue : ℕ → StreamEvent → (ℕ → List StreamEvent) → ℕ → List StreamEvent
enqueue q e queues x =
    if x == q && ltb (length (queues q)) max_queue then queues q ++ e ∷ [] else queues x

unfoldable pub enqueue_all : List ℕ → StreamEvent → (ℕ → List StreamEvent) → ℕ → List StreamEvent
enqueue_all [] e queues = queues
enqueue_all (q ∷ qs) e queues = enqueue_all qs e (enqueue q e queues)

abbrev pub deliver_to : Option ℕ → Json → Manager → Manager
deliver_to none v m = m
deliver_to (some r) v m = record m { queues = enqueue_all (m.heap r).consumers (event v) m.queues }

abbrev pub deliver : Json → Json → Manager → Manager
deliver (str id) v m = deliver_to (m.by_id id) v m
deliver _ v m = m

-- payload.get("params") or {}
abbrev pub params_of : Fields → Json
params_of payload =
    let v = or_null (get payload (codes "params")) in if truthy v then v else obj end

unfoldable pub on_notification : Fields → Manager → Result Manager
on_notification payload m = do
  sub_id ← get_or (params_of payload) (codes "subscription") null
  v ← get_or (params_of payload) (codes "result") null
  ok (deliver sub_id v m)

-- the argument list of eth_subscribe
abbrev pub params_to_subscribe_args : Text → Json → List Json
params_to_subscribe_args kind null = str kind ∷ []
params_to_subscribe_args kind params = str kind ∷ params ∷ []

-- what a client holds: `_ConsumerStream`, with the arguments of its `on_close`
pub record ConsumerStream : Type 0 where
  pub key : Key
  pub slot : ℕ
  pub queue : ℕ

-- a stream with its flag `_closed`
pub record Client : Type 0 where
  pub stream : ConsumerStream
  pub closed : Bool

-- what `__anext__` does; it waits while the queue is empty
pub data Next : Type 0 where
  stops : Next
  waits : Next
  gives : StreamEvent → Next

abbrev pub received : ℕ → List StreamEvent → Manager → Next × Manager
received q [] m = (waits, m)
received q (e ∷ es) m = (gives e, record m { queues = λ x. if x == q then es else m.queues x })

unfoldable pub next_event : Client → Manager → Next × Manager
next_event c m =
    if c.closed then (stops, m) else received c.stream.queue (m.queues c.stream.queue) m

module _ (canonicalize : Json → Text) where
  abbrev pub key_of : Slot → Key
  key_of s = (s.kind, canonicalize s.params)

  -- the branch of a key without a slot
  unfoldable pub open_slot : Text → Text → Json → Manager → Manager
  open_slot id kind params m =
      let slot : Slot = record {
        kind = kind;
        params = params;
        subscription_id = some id;
        consumers = m.next_queue ∷ [];
      } in
      let heap = set_slot m.next_slot slot m.heap in
      let slots = m.slots ++ ((kind, canonicalize params), m.next_slot) ∷ [] in
      record m {
        slots = slots;
        by_id = set_id id m.next_slot m.by_id;
        heap = heap;
        next_slot = suc m.next_slot;
        queues = λ x. if x == m.next_queue then [] else m.queues x;
        next_queue = suc m.next_queue;
        gauge = publish_gauge kind heap slots m.gauge;
      }

  -- the branch of a key that has a slot
  unfoldable pub join_slot : ℕ → Manager → Manager
  join_slot r m = record m {
    heap =
        set_slot r (record (m.heap r) { consumers = (m.heap r).consumers ++ m.next_queue ∷ [] })
          m.heap;
    queues = λ x. if x == m.next_queue then [] else m.queues x;
    next_queue = suc m.next_queue;
  }

  abbrev opened : WsReply → Text → Json → Manager → Result ConsumerStream × Manager
  opened (subscribed id) kind params m = (
    ok (record { key = (kind, canonicalize params); slot = m.next_slot; queue = m.next_queue }),
    open_slot id kind params m,
  )
  opened (ws_closes e) kind params m = (err (subscription_unavailable e), m)
  opened (ws_fails e) kind params m = (err e, m)

  abbrev pub in_slot : Option ℕ → WsReply → Text → Json → Manager → Result ConsumerStream × Manager
  in_slot none reply kind params m = opened reply kind params m
  in_slot (some r) reply kind params m = (
    ok (record { key = (kind, canonicalize params); slot = r; queue = m.next_queue }),
    join_slot r m,
  )

  -- `reply` is used only where the code makes the request.
  unfoldable pub subscribe :
      Bool → WsReply → Text → Json → Manager → Result ConsumerStream × Manager
  subscribe connected reply kind params m =
      if connected
      then in_slot (find m.slots (kind, canonicalize params)) reply kind params m
      else (err (subscription_unavailable (says "upstream WS not connected" [])), m)

  -- the last consumer of a slot has gone
  unfoldable pub drop_slot : Key → ℕ → Manager → Manager
  drop_slot key r m =
      let slots = pop m.slots key in
      let heap = set_slot r (record (m.heap r) { consumers = [] }) m.heap in
      record m {
        slots = slots;
        by_id = pop_id (m.heap r).subscription_id m.by_id;
        heap = heap;
        gauge = publish_gauge (m.heap r).kind heap slots m.gauge;
      }

  unfoldable pub leave_slot : ℕ → List ℕ → Manager → Manager
  leave_slot r rest m = record m {
    heap = set_slot r (record (m.heap r) { consumers = rest }) m.heap;
  }

  -- the id to unsubscribe, and the new state
  abbrev pub without : Key → ℕ → Option (List ℕ) → Manager → Option Text × Manager
  without key r none m = (none, m)
  without key r (some []) m = ((m.heap r).subscription_id, drop_slot key r m)
  without key r (some (q ∷ qs)) m = (none, leave_slot r (q ∷ qs) m)

  unfoldable pub remove_consumer : ConsumerStream → Manager → Option Text × Manager
  remove_consumer c m = without c.key c.slot (remove_queue c.queue (m.heap c.slot).consumers) m

  -- `on_reconnect` up to its first request, one round of its loop, and its end
  unfoldable pub reconnect_begins : Manager → Manager
  reconnect_begins m = record m { by_id = λ x. none; visiting = some (values m.slots) }

  unfoldable pub resubscribe : WsReply → ℕ → List ℕ → Manager → Manager
  resubscribe (subscribed id) r rs m = record m {
    heap = set_slot r (record (m.heap r) { subscription_id = some id }) m.heap;
    by_id = set_id id r m.by_id;
    queues = enqueue_all (m.heap r).consumers gap m.queues;
    visiting = some rs;
  }
  resubscribe _ r rs m = record m {
    queues = enqueue_all (m.heap r).consumers gap m.queues;
    visiting = some rs;
  }

  unfoldable pub reconnect_ends : Manager → Manager
  reconnect_ends m = record m { visiting = none }

  -- the id of the `eth_unsubscribe` request, if there is one, the client and the state
  unfoldable pub aclose : Bool → Client → Manager → Option Text × (Client × Manager)
  aclose connected c m =
      let (sub_id, n) = remove_consumer c.stream m in
      if c.closed
      then (none, (c, m))
      else (if connected then sub_id else none, (record c { closed = true }, n))
