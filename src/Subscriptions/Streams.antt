-- ===== src/Subscriptions/Streams.antt =====
-- subscriptions.py: the keys that the streams hold, and the invariant after a notification.
use exec_rest_api.Base.{
  ℕ, ◌≤◌, ◌<◌, ◌≡◌, arith, Option, none, some, List, [], ◌∷◌, Text, codes, inl, inr,
}
use exec_rest_api.Json.{
  Json, Fields, Result, ok, err, null, bool, int, float, arr, obj, str, get_or, ◌>>=◌,
}
use exec_rest_api.Subscriptions.{
  StreamEvent, Slot, Manager, ConsumerStream, key_of, params_of, deliver_to, deliver,
  on_notification, set_slot,
}
use exec_rest_api.Subscriptions.Invariant.{Inv, revised-key}
use exec_rest_api.Subscriptions.Reach.{System, Given, notified}

module _ (canonicalize : Json → Text) where
  -- The streams hold the keys of their slots.
  abbrev pub Keys : (ℕ → Slot) → ℕ → List ConsumerStream → Type 0
  Keys heap n [] = Unit
  Keys heap n (c ∷ cs) =
      (c.slot < n) × ((c.key ≡ key_of canonicalize (heap c.slot)) × Keys heap n cs)

  pub record SystemInv (s : System) : Type 0 where
    pub manager : Inv canonicalize s.0
    pub keys : Keys s.0.heap s.0.next_slot s.1

  pub Keys_mono :
      (heap new : ℕ → Slot) (n m : ℕ) (cs : List ConsumerStream)
      → n ≤ m
      → ((r : ℕ) → r < n → key_of canonicalize (new r) ≡ key_of canonicalize (heap r))
      → Keys heap n cs
      → Keys new m cs
  Keys_mono heap new n m [] le same k = tt
  Keys_mono heap new n m (c ∷ cs) le same k =
      (omega (arith, k.0), (rw (same c.slot k.0) k.1.0, Keys_mono heap new n m cs le same k.1.1))

  pub Keys_revised :
      (r : ℕ) (s : Slot) (heap : ℕ → Slot) (n : ℕ) (cs : List ConsumerStream)
      → key_of canonicalize s ≡ key_of canonicalize (heap r)
      → Keys heap n cs
      → Keys (set_slot r s heap) n cs
  Keys_revised r s heap n cs same k =
      Keys_mono heap (set_slot r s heap) n n cs (omega arith)
        (λ x lt. revised-key canonicalize r s heap same x) k

  pub Given-key :
      (heap : ℕ → Slot) (n : ℕ) (c : ConsumerStream) (cs : List ConsumerStream)
      → Keys heap n cs
      → Given c cs
      → c.key ≡ key_of canonicalize (heap c.slot)
  Given-key heap n c [] k g = absurd g
  Given-key heap n c (d ∷ cs) k (inl e) = rw e k.1.0
  Given-key heap n c (d ∷ cs) k (inr g) = Given-key heap n c cs k.1.1 g

  pub queues-Inv :
      (m : Manager) (queues : ℕ → List StreamEvent)
      → Inv canonicalize m
      → Inv canonicalize (record m { queues = queues })
  queues-Inv m queues v = record {
    unique = v.unique;
    keyed = v.keyed;
    held = v.held;
    served = v.served;
    indexed = v.indexed;
    gauged = v.gauged;
    waiting = v.waiting;
  }

  deliver_to-Inv :
      (o : Option ℕ) (v : Json) (s : System) → SystemInv s → SystemInv (deliver_to o v s.0, s.1)
  deliver_to-Inv none v s i = i
  deliver_to-Inv (some r) v s i = record { manager = queues-Inv s.0 _ i.manager; keys = i.keys }

  deliver-Inv : (id v : Json) (s : System) → SystemInv s → SystemInv (deliver id v s.0, s.1)
  deliver-Inv null v s i = i
  deliver-Inv (bool b) v s i = i
  deliver-Inv (int n) v s i = i
  deliver-Inv (float t) v s i = i
  deliver-Inv (arr xs) v s i = i
  deliver-Inv (obj fs) v s i = i
  deliver-Inv (str id) v s i = deliver_to-Inv (s.0.by_id id) v s i

  pub notified-Inv :
      (payload : Fields) (s : System)
      → SystemInv s
      → SystemInv (notified (on_notification payload s.0) s.0, s.1)
  unfolding on_notification
  notified-Inv payload s i =
      found (get_or (params_of payload) (codes "subscription") null)
        (get_or (params_of payload) (codes "result") null)
    where
      found :
          (a b : Result Json)
          → SystemInv (notified (do id ← a; v ← b; ok (deliver id v s.0)) s.0, s.1)
      found (err e) b = i
      found (ok id) (err e) = i
      found (ok id) (ok v) = deliver-Inv id v s i
