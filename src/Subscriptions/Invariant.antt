-- ===== src/Subscriptions/Invariant.antt =====
-- subscriptions.py: what holds of the subscription manager whenever no method is between two awaits.
use exec_rest_api.Base.{
  ℕ, ◌<◌, ◌≡◌, ◌≢◌, refl, arith, Bool, false, ◌||◌, Option, none, some, List, [], ◌∷◌, Text, ◌==◌,
  ==_iff, Bool-cases, inl, inr, text_eq, text_eq_refl, eq_of_text_eq,
}
use exec_rest_api.Json.{Json, null}
use exec_rest_api.Subscriptions.{Key, Slot, Manager, find, count, key_of, set_slot, publish_gauge}
use exec_rest_api.Subscriptions.Slots.{Unique, Keyed, find-Keyed, Keyed-mono, count_mono}

abbrev pub elem : ℕ → List ℕ → Bool
elem r [] = false
elem r (x ∷ xs) = x == r || elem r xs

module _ (canonicalize : Json → Text) where
  -- the slot is the one that `_slots` has under its key
  abbrev pub Live : Manager → ℕ → Type 0
  Live m r = find m.slots (key_of canonicalize (m.heap r)) ≡ some r

  -- the slots that `on_reconnect` still has to visit: live, distinct, and under no id
  abbrev pub Pending : List (Key × ℕ) → (ℕ → Slot) → (Text → Option ℕ) → List ℕ → Type 0
  Pending slots heap by_id [] = Unit
  Pending slots heap by_id (r ∷ rs) =
      (find slots (key_of canonicalize (heap r)) ≡ some r)
      × (((id : Text) → by_id id ≢ some r) × ((elem r rs ≡ false) × Pending slots heap by_id rs))

  pub record Inv (m : Manager) : Type 0 where
    -- `_slots` has one entry for a key, and it leads to a slot with this key
    pub unique : Unique m.slots
    pub keyed : Keyed canonicalize m.heap m.next_slot m.slots
    -- a slot with consumers is live, and a live slot has consumers
    pub held : (r : ℕ) → (m.heap r).consumers ≢ [] → Live m r
    pub served : (k : Key) (r : ℕ) → find m.slots k ≡ some r → (m.heap r).consumers ≢ []
    -- an id leads to a live slot, which has this id
    pub indexed :
        (id : Text) (r : ℕ)
        → m.by_id id ≡ some r
        → Live m r × ((m.heap r).subscription_id ≡ some id)
    -- the gauge of a kind is the number of its slots
    pub gauged : (kind : Text) → m.gauge kind ≡ count kind m.heap m.slots
    pub waiting : (rs : List ℕ) → m.visiting ≡ some rs → Pending m.slots m.heap m.by_id rs

  -- the slot in the store was made before the next one
  pub Live-below : (m : Manager) (r : ℕ) → Inv m → Live m r → r < m.next_slot
  Live-below m r v e = (find-Keyed canonicalize m.heap m.next_slot m.slots _ r v.keyed e).1

pub set_slot-same : (r : ℕ) (s : Slot) (heap : ℕ → Slot) → set_slot r s heap r ≡ s
set_slot-same r s heap = ground arith

pub set_slot-other : (n r : ℕ) (s : Slot) (heap : ℕ → Slot) → r ≢ n → set_slot n s heap r ≡ heap r
set_slot-other n r s heap ne = ground arith

-- what holds of the new slot, and of the others as they were, holds of every slot
pub set_slot-elim :
    (P : ℕ → Slot → Type 0) (n : ℕ) (s : Slot) (heap : ℕ → Slot)
    → P n s
    → ((r : ℕ) → r ≢ n → P r (heap r))
    → (r : ℕ) → P r (set_slot n s heap r)
set_slot-elim P n s heap new old r = elim (Bool-cases (r == n)) [
  | inl e ↦ rw (e, (==_iff r n).0 e) new
  | inr e ↦ rw e (old r (λ q. ground (arith, e, (==_iff r n).1 q)))
]

pub publish_gauge-count :
    (kind : Text) (heap : ℕ → Slot) (slots : List (Key × ℕ)) (gauge : Text → ℕ)
    → ((k : Text) → text_eq kind k ≡ false → gauge k ≡ count k heap slots)
    → (k : Text) → publish_gauge kind heap slots gauge k ≡ count k heap slots
publish_gauge-count kind heap slots gauge h k = elim (Bool-cases (text_eq kind k)) [
  | inl e ↦ rw (eq_of_text_eq kind k e, text_eq_refl k) refl
  | inr e ↦ ground (arith, h k e, eq_of_text_eq k kind, text_eq_refl k)
]

-- A slot whose key stays the same may change otherwise.
module _ (canonicalize : Json → Text) (r : ℕ) (s : Slot) (heap : ℕ → Slot)
    (same : key_of canonicalize s ≡ key_of canonicalize (heap r)) where
  pub revised-key :
      (x : ℕ) → key_of canonicalize (set_slot r s heap x) ≡ key_of canonicalize (heap x)
  revised-key =
      set_slot-elim (λ x t. key_of canonicalize t ≡ key_of canonicalize (heap x)) r s heap same
        (λ x ne. refl)

  pub revised-find :
      (slots : List (Key × ℕ)) (x : ℕ)
      → find slots (key_of canonicalize (heap x)) ≡ some x
      → find slots (key_of canonicalize (set_slot r s heap x)) ≡ some x
  revised-find slots x e = rw (revised-key x) e

  pub revised-Keyed :
      (n : ℕ) (slots : List (Key × ℕ))
      → Keyed canonicalize heap n slots
      → Keyed canonicalize (set_slot r s heap) n slots
  revised-Keyed n slots k =
      Keyed-mono canonicalize heap (set_slot r s heap) n n slots (λ x lt. revised-key x)
        (omega arith) k

  pub revised-count :
      (kind : Text) (n : ℕ) (slots : List (Key × ℕ))
      → Keyed canonicalize heap n slots
      → count kind (set_slot r s heap) slots ≡ count kind heap slots
  revised-count kind n slots k =
      count_mono canonicalize kind heap (set_slot r s heap) n slots (λ x lt. revised-key x) k

-- the manager of `__init__`
abbrev pub new_manager : Manager
new_manager = record {
  slots = [];
  by_id = λ id. none;
  heap = λ r. record { kind = []; params = null; subscription_id = none; consumers = [] };
  next_slot = 0;
  queues = λ q. [];
  next_queue = 0;
  gauge = λ kind. 0;
  visiting = none;
}

pub new_manager-Inv : (canonicalize : Json → Text) → Inv canonicalize new_manager
new_manager-Inv canonicalize = record {
  unique = tt;
  keyed = tt;
  held = λ r h. absurd (h refl);
  served = λ k r e. ground arith;
  indexed = λ id r e. ground arith;
  gauged = λ kind. refl;
  waiting = λ rs e. ground arith;
}
