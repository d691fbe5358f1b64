-- ===== src/Subscriptions/Queues.antt =====
-- subscriptions.py: the queues of the consumers.
use exec_rest_api.Base.{
  ℕ, suc, ◌≤◌, ◌<◌, ◌≡◌, refl, arith, true, false, ◌||◌, ◌&&◌, ltb, some, List, [], ◌∷◌, ◌++◌, ◌==◌,
  ==_iff, if◌then◌else◌, length, length-append, Bool-cases, Option-cases, ◌⊎◌, inl, inr,
}
use exec_rest_api.Subscriptions.{StreamEvent, remove_queue, max_queue, enqueue, enqueue_all}
use exec_rest_api.Subscriptions.Invariant.{elem}

-- distinct queues, made before queue `n`
abbrev pub Distinct : ℕ → List ℕ → Type 0
Distinct n [] = Unit
Distinct n (q ∷ qs) = (q < n) × ((elem q qs ≡ false) × Distinct n qs)

elem-snoc : (q x : ℕ) (qs : List ℕ) → elem q (qs ++ x ∷ []) ≡ (elem q qs || (x == q))
elem-snoc q x [] = ground arith
elem-snoc q x (y ∷ qs) = ground (arith, elem-snoc q x qs)

elem-below : (n q : ℕ) (qs : List ℕ) → Distinct n qs → elem q qs ≡ true → q < n
elem-below n q [] d e = ground arith
elem-below n q (x ∷ qs) d e = ground (arith, elem-below n q qs d.1.1, d.0)

pub snoc-Distinct : (n : ℕ) (qs : List ℕ) → Distinct n qs → Distinct (suc n) (qs ++ n ∷ [])
snoc-Distinct n [] d = (omega arith, (refl, tt))
snoc-Distinct n (q ∷ qs) d =
    (omega (arith, d.0), (ground (arith, elem-snoc q n qs, d), snoc-Distinct n qs d.1.1))

pub Distinct-mono : (n m : ℕ) (qs : List ℕ) → n ≤ m → Distinct n qs → Distinct m qs
Distinct-mono n m [] le d = tt
Distinct-mono n m (q ∷ qs) le d = (omega (arith, d.0), (d.1.0, Distinct-mono n m qs le d.1.1))

-- what is left is the tail, or the head before what is left of the tail
remove_queue-cases :
    (y q : ℕ) (qs rest : List ℕ)
    → remove_queue q (y ∷ qs) ≡ some rest
    → (rest ≡ qs) ⊎ ((zs : List ℕ) × ((remove_queue q qs ≡ some zs) × (rest ≡ y ∷ zs)))
remove_queue-cases y q qs rest e = elim (Bool-cases (y == q)) [
  | inl t ↦ inl (ground (arith, e, t))
  | inr f ↦ elim (Option-cases (remove_queue q qs)) [
    | inl n ↦ ground (arith, e, f, n)
    | inr (zs, s) ↦ inr (zs, (s, ground (arith, e, f, s)))
  ]
]

elem-remove_queue :
    (x q : ℕ) (qs rest : List ℕ)
    → remove_queue q qs ≡ some rest
    → elem x qs ≡ false
    → elem x rest ≡ false
elem-remove_queue x q [] rest e a = ground arith
elem-remove_queue x q (y ∷ qs) rest e a = elim (remove_queue-cases y q qs rest e) [
  | inl t ↦ ground (arith, t, a)
  | inr (zs, (s, t)) ↦ rw t (ground (arith, a, elem-remove_queue x q qs zs s))
]

pub remove_queue-Distinct :
    (n q : ℕ) (qs rest : List ℕ) → remove_queue q qs ≡ some rest → Distinct n qs → Distinct n rest
remove_queue-Distinct n q [] rest e d = ground arith
remove_queue-Distinct n q (y ∷ qs) rest e d = elim (remove_queue-cases y q qs rest e) [
  | inl t ↦ rw t d.1.1
  | inr (zs, (s, t)) ↦
      rw t (d.0, (elem-remove_queue y q qs zs s d.1.0, remove_queue-Distinct n q qs zs s d.1.1))
]

pub enqueue-bounded :
    (q : ℕ) (e : StreamEvent) (queues : ℕ → List StreamEvent)
    → ((x : ℕ) → length (queues x) ≤ max_queue)
    → (x : ℕ) → length (enqueue q e queues x) ≤ max_queue
unfolding enqueue
enqueue-bounded q e queues b x = ground (arith, b x, length-append (queues q) (e ∷ []))

pub enqueue_all-bounded :
    (qs : List ℕ) (e : StreamEvent) (queues : ℕ → List StreamEvent)
    → ((x : ℕ) → length (queues x) ≤ max_queue)
    → (x : ℕ) → length (enqueue_all qs e queues x) ≤ max_queue
unfolding enqueue_all
enqueue_all-bounded [] e queues b = b
enqueue_all-bounded (q ∷ qs) e queues b =
    enqueue_all-bounded qs e (enqueue q e queues) (enqueue-bounded q e queues b)

-- a queue that is not among those of the slot stays as it is
enqueue_all-other :
    (qs : List ℕ) (e : StreamEvent) (queues : ℕ → List StreamEvent) (x : ℕ)
    → elem x qs ≡ false
    → enqueue_all qs e queues x ≡ queues x
unfolding enqueue_all enqueue
enqueue_all-other [] e queues x a = refl
enqueue_all-other (q ∷ qs) e queues x a =
    ground (arith, a, ==_iff q x, enqueue_all-other qs e (enqueue q e queues) x)

pub enqueue_all-each :
    (n : ℕ) (qs : List ℕ) (e : StreamEvent) (queues : ℕ → List StreamEvent) (x : ℕ)
    → Distinct n qs
    → enqueue_all qs e queues x
      ≡ (if elem x qs && ltb (length (queues x)) max_queue then queues x ++ e ∷ [] else queues x)
unfolding enqueue_all enqueue
enqueue_all-each n [] e queues x d = refl
enqueue_all-each n (q ∷ qs) e queues x d = ground (
  arith,
  ==_iff q x,
  enqueue_all-each n qs e (enqueue q e queues) x d.1.1,
  enqueue_all-other qs e (enqueue q e queues) x,
  d,
)
