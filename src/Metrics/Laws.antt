-- ===== src/Metrics/Laws.antt =====
-- metrics.py: a histogram against the list of its observations.
use exec_rest_api.Base.{
  ℕ, suc, ◌≡◌, refl, sym, subst, ◌∙◌, arith, true, false, Option, none, some, List, [], ◌∷◌, map,
  if◌then◌else◌, length, replicate, keep, text_eq_refl, eq_of_text_eq, Text, Bool-cases, inl, inr,
  ap₂,
}
use exec_rest_api.Metrics.Dicts.{Labels, labels_eq, find_labels, store, at_labels}
use exec_rest_api.Metrics.Series.{
  Numbers, Histogram, histogram, default_buckets, zero_number, zeros, bump, ensured, with_labels,
  observe,
}

labels_eq_refl : (l : Labels) → labels_eq l l ≡ true
labels_eq_refl [] = refl
labels_eq_refl ((k, v) ∷ l) = rw (text_eq_refl k, text_eq_refl v, labels_eq_refl l) refl

eq_of_labels_eq : (l m : Labels) → labels_eq l m ≡ true → l ≡ m
eq_of_labels_eq [] [] e = refl
eq_of_labels_eq [] (m ∷ ms) e = ground arith
eq_of_labels_eq (l ∷ ls) [] e = ground arith
eq_of_labels_eq ((k, v) ∷ l) ((j, w) ∷ m) e =
    ground (arith, eq_of_text_eq k j, eq_of_text_eq v w, eq_of_labels_eq l m, e)

find_labels-store :
    {V : Type 0} (d : List (Labels × V)) (l m : Labels) (v : V)
    → find_labels (store l v d) m ≡ (if labels_eq l m then some v else find_labels d m)
find_labels-store [] l m v = refl
find_labels-store ((k, w) ∷ d) l m v = ground (
  arith,
  find_labels-store d l m v,
  eq_of_labels_eq k l,
  labels_eq_refl k,
  eq_of_labels_eq l m,
  eq_of_labels_eq k m,
  labels_eq_refl l,
)

store-same :
    {V : Type 0} (d : List (Labels × V)) (l : Labels) (v : V) → find_labels (store l v d) l ≡ some v
store-same d l v = ground (arith, find_labels-store d l l v, labels_eq_refl l)

store-other :
    {V : Type 0} (d : List (Labels × V)) (l m : Labels) (v : V)
    → labels_eq l m ≡ false
    → find_labels (store l v d) m ≡ find_labels d m
store-other d l m v e = ground (arith, find_labels-store d l m v, e)

module _ (N : Numbers) where
  -- the values that were observed with the labels, the last first
  abbrev pub of_labels : Labels → List (Labels × N.Number) → List (N.Number)
  of_labels l [] = []
  of_labels l ((k, v) ∷ os) = let vs = of_labels l os in if labels_eq k l then v ∷ vs else vs

  -- the observations, the last first
  abbrev pub observe_all : List (Labels × N.Number) → Histogram N → Histogram N
  observe_all [] h = h
  observe_all ((l, v) ∷ os) h = observe N l v (observe_all os h)

  -- no entry, when nothing was observed
  abbrev pub entry : {A : Type 0} → A → List (N.Number) → Option A
  entry a [] = none
  entry a (v ∷ vs) = some a

  abbrev pub within : List (N.Number) → N.Number → ℕ
  within vs b = length (keep (λ v. N.at_most v b) vs)

  abbrev pub total : List (N.Number) → N.Number
  total [] = zero_number N
  total (v ∷ vs) = N.plus (total vs) v

  -- the entries of the labels tell of the values
  pub record Tells (h : Histogram N) (l : Labels) (vs : List (N.Number)) : Type 0 where
    pub counted : find_labels h.counts l ≡ entry (length vs) vs
    pub bucketed : find_labels h.buckets l ≡ entry (map (within vs) (default_buckets N)) vs
    pub summed : find_labels h.sums l ≡ entry (total vs) vs

  bump-within :
      (v : N.Number) (vs bs : List (N.Number))
      → bump N v bs (map (within vs) bs) ≡ map (within (v ∷ vs)) bs
  bump-within v vs [] = refl
  bump-within v vs (b ∷ bs) = ap₂ (λ c cs. c ∷ cs) (ground arith) (bump-within v vs bs)

  zeros-within : (bs : List (N.Number)) → replicate (length bs) 0 ≡ map (within []) bs
  zeros-within [] = refl
  zeros-within (b ∷ bs) = ap₂ (λ c cs. c ∷ cs) refl (zeros-within bs)

  -- the entries of labels that are ready for one more value
  record Ready (h : Histogram N) (l : Labels) (vs : List (N.Number)) : Type 0 where
    counted : find_labels h.counts l ≡ some (length vs)
    bucketed : find_labels h.buckets l ≡ some (map (within vs) (default_buckets N))
    summed : find_labels h.sums l ≡ some (total vs)

  ensured-Ready :
      (vs : List (N.Number)) (l : Labels) (h : Histogram N)
      → Tells h l vs
      → Ready (ensured N (entry (map (within vs) (default_buckets N)) vs) l h) l vs
  ensured-Ready [] l h t = record {
    counted = store-same h.counts l 0;
    bucketed = rw (sym (zeros-within (default_buckets N))) (store-same h.buckets l (zeros N));
    summed = store-same h.sums l (zero_number N);
  }
  ensured-Ready (v ∷ vs) l h t = record {
    counted = t.counted;
    bucketed = t.bucketed;
    summed = t.summed;
  }

  with_labels-Ready :
      (vs : List (N.Number)) (l : Labels) (h : Histogram N)
      → Tells h l vs
      → Ready (with_labels N l h) l vs
  with_labels-Ready vs l h t = rw (t.bucketed) (ensured-Ready vs l h t)

  at_labels_found :
      {V : Type 0} (d : List (Labels × V)) (l : Labels) (a v : V)
      → find_labels d l ≡ some v
      → at_labels a d l ≡ v
  at_labels_found d l a v e = ground (arith, e)

  observe-same :
      (l : Labels) (v : N.Number) (vs : List (N.Number)) (h : Histogram N)
      → Tells h l vs
      → Tells (observe N l v h) l (v ∷ vs)
  unfolding observe
  observe-same l v vs h t =
      let i = with_labels N l h in
      let r = with_labels-Ready vs l h t in
      record {
        counted =
            rw (at_labels_found i.counts l 0 (length vs) r.counted)
              (store-same i.counts l (suc (length vs)));
        bucketed =
            rw
              (
                at_labels_found i.buckets l [] (map (within vs) (default_buckets N)) r.bucketed,
                bump-within v vs (default_buckets N),
              )
              (store-same i.buckets l (map (within (v ∷ vs)) (default_buckets N)));
        summed =
            rw (at_labels_found i.sums l (zero_number N) (total vs) r.summed)
              (store-same i.sums l (total (v ∷ vs)));
      }

  ensured-other :
      (o : Option (List ℕ)) (l m : Labels) (vs : List (N.Number)) (h : Histogram N)
      → labels_eq l m ≡ false
      → Tells h m vs
      → Tells (ensured N o l h) m vs
  ensured-other (some cs) l m vs h ne t = t
  ensured-other none l m vs h ne t = record {
    counted = store-other h.counts l m 0 ne ∙ t.counted;
    bucketed = store-other h.buckets l m (zeros N) ne ∙ t.bucketed;
    summed = store-other h.sums l m (zero_number N) ne ∙ t.summed;
  }

  observe-other :
      (l m : Labels) (v : N.Number) (vs : List (N.Number)) (h : Histogram N)
      → labels_eq l m ≡ false
      → Tells h m vs
      → Tells (observe N l v h) m vs
  unfolding observe
  observe-other l m v vs h ne t =
      let i = with_labels N l h in
      let u : Tells i m vs = ensured-other (find_labels h.buckets l) l m vs h ne t in
      record {
        counted = store-other i.counts l m _ ne ∙ u.counted;
        bucketed = store-other i.buckets l m _ ne ∙ u.bucketed;
        summed = store-other i.sums l m _ ne ∙ u.summed;
      }

  -- After any observations of a new histogram, the count of any labels is the number of the values
  -- observed with them, the count of each bucket is the number of these that are at most its bound, and
  -- the sum adds them in their order to 0.0; labels without an observation have no entry.
  pub observe_all-Tells :
      (name help_text : Text) (os : List (Labels × N.Number)) (m : Labels)
      → Tells (observe_all os (histogram N name help_text)) m (of_labels m os)
  observe_all-Tells name help_text [] m = record { counted = refl; bucketed = refl; summed = refl }
  observe_all-Tells name help_text ((l, v) ∷ os) m =
      let h = observe_all os (histogram N name help_text) in
      let t = observe_all-Tells name help_text os m in
      elim (Bool-cases (labels_eq l m)) [
        | inl e ↦
            let same = eq_of_labels_eq l m e in
            let u = subst (λ k. Tells h k (of_labels m os)) (sym same) t in
            rw e (
              subst (λ k. Tells (observe N l v h) k (v ∷ of_labels m os)) same
                (observe-same l v (of_labels m os) h u))
        | inr e ↦ rw e (observe-other l m v (of_labels m os) h e t)
      ]
