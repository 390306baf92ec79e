-- ===== src/LinkedList/Enqueue.antt =====
-- `list_enqueue_before`, `list_enqueue_after` and their uses at the head put one new item in place.
use opsys.Base.{ℕ, ◌≡◌, refl, ◌≢◌, true, false, List, [], ◌∷◌, ◌++◌, arith}
use mathlib.Core.List.{append-nil, append_assoc}
use opsys.LinkedList.{Links, put, enqueue_before, enqueue_after, enqueue_back, enqueue_front}
use opsys.LinkedList.Chain.{
  has, Distinct, Chain, IsRing, SameOutside, has-append, Distinct-insert, has-remove,
  has-Chain_prev, has-Chain_next, Distinct-front, Chain-split, Chain-join, Chain-frame,
  Distinct-append_disjoint,
}

-- The fields after `newitem` went in between `pred` and `item`.
record IsLinked (s t : Links) (pred newitem item : ℕ) : Type 0 where
  pred_next : t.next pred ≡ newitem
  new_next : t.next newitem ≡ item
  new_prev : t.prev newitem ≡ pred
  item_prev : t.prev item ≡ newitem
  other_next : (x : ℕ) → x ≢ pred → x ≢ newitem → t.next x ≡ s.next x
  other_prev : (x : ℕ) → x ≢ item → x ≢ newitem → t.prev x ≡ s.prev x

enqueue_before-IsLinked :
    (s : Links) (newitem item : ℕ)
    → s.prev item ≢ 0
    → newitem ≢ item
    → newitem ≢ s.prev item
    → IsLinked s (enqueue_before item newitem s) (s.prev item) newitem item
unfolding enqueue_before put
enqueue_before-IsLinked s newitem item pos ne ne' = record {
  pred_next = ground arith;
  new_next = ground arith;
  new_prev = ground arith;
  item_prev = ground arith;
  other_next = λ x h k. ground arith;
  other_prev = λ x h k. ground arith;
}

enqueue_after-IsLinked :
    (s : Links) (newitem item : ℕ)
    → s.next item ≢ 0
    → newitem ≢ item
    → newitem ≢ s.next item
    → IsLinked s (enqueue_after item newitem s) item newitem (s.next item)
unfolding enqueue_after put
enqueue_after-IsLinked s newitem item pos ne ne' = record {
  pred_next = ground arith;
  new_next = ground arith;
  new_prev = ground arith;
  item_prev = ground arith;
  other_next = λ x h k. ground arith;
  other_prev = λ x h k. ground arith;
}

module _ (s t : Links) (newitem : ℕ) where
  -- The part of the ring before the place.
  linked-front :
      (a : ℕ) (xs : List ℕ) (pred item : ℕ)
      → IsLinked s t pred newitem item
      → Chain s a xs item
      → s.prev item ≡ pred
      → Distinct (a ∷ xs)
      → has item xs ≡ false
      → has newitem (a ∷ xs) ≡ false
      → Chain t a (xs ++ newitem ∷ []) item
  linked-front a [] pred item l c e d out new =
      (ground (arith, l.pred_next), ground (arith, l.new_prev), (l.new_next, l.item_prev))
  linked-front a (x ∷ xs) pred item l c e d out new = (
    ground (arith, l.other_next a, has-Chain_prev s x xs item c.2),
    ground (arith, l.other_prev x),
    linked-front x xs pred item l c.2 e d.1 (ground arith) (ground arith),
  )

  -- The part behind it.
  linked-back :
      (pred item : ℕ) (ys : List ℕ) (b : ℕ)
      → IsLinked s t pred newitem item
      → Chain s item ys b
      → has pred (item ∷ ys) ≡ false
      → has newitem (b ∷ item ∷ ys) ≡ false
      → has item (b ∷ ys) ≡ false
      → Chain t item ys b
  linked-back pred item ys b l c p n i =
      Chain-frame s item ys b c (λ x h. l.other_next x (ground arith) (ground arith))
        (λ x h. l.other_prev x (ground arith) (ground arith))

module _ {s : Links} {h : ℕ} (newitem : ℕ) where
  -- Enqueued before an item, the new item stands right in front of it; the other items keep
  -- their order, and no node outside the ring is written.
  pub enqueue_before_lem :
      (y : ℕ) (xs ys : List ℕ)
      → IsRing s h (xs ++ y ∷ ys)
      → has newitem (h ∷ xs ++ y ∷ ys) ≡ false
      → newitem ≢ 0
      → IsRing (enqueue_before y newitem s) h (xs ++ newitem ∷ y ∷ ys)
        × SameOutside (newitem ∷ h ∷ xs ++ y ∷ ys) s (enqueue_before y newitem s)
  enqueue_before_lem y xs ys r out pos =
      let t = enqueue_before y newitem s in
      let c = Chain-split s h xs y ys h r.chain in
      let mem : has (s.prev y) (h ∷ xs) ≡ true = has-Chain_prev s h xs y c.0 in
      let apart = has-append newitem xs (y ∷ ys) in
      let sides = has-remove y (h ∷ xs) ys r.distinct in
      let link : IsLinked s t (s.prev y) newitem y =
        enqueue_before-IsLinked s newitem y
          (ground (arith, has-append (s.prev y) xs (y ∷ ys), r.not_null)) (ground arith)
          (ground arith) in
      let front =
        linked-front s t newitem h xs (s.prev y) y link c.0 refl
          (Distinct-front (h ∷ xs) (y ∷ ys) r.distinct) (ground arith) (ground arith) in
      let back =
        linked-back s t newitem (s.prev y) y ys h link c.1
          (Distinct-append_disjoint (s.prev y) (h ∷ xs) (y ∷ ys) r.distinct mem) (ground arith)
          (ground arith) in
      (
        record {
          chain = rw append_assoc at (Chain-join t h (xs ++ newitem ∷ []) y ys h front back);
          distinct = Distinct-insert newitem (h ∷ xs) (y ∷ ys) r.distinct out;
          not_null =
              ground
                (arith, has-append 0 xs (newitem ∷ y ∷ ys), has-append 0 xs (y ∷ ys), r.not_null);
        },
        λ a o. (
          link.other_next a (ground (arith, has-append a xs (y ∷ ys))) (ground arith),
          link.other_prev a (ground (arith, has-append a xs (y ∷ ys))) (ground arith),
        ),
      )

  -- `list_enqueue_back` appends the new item.
  pub enqueue_back-append :
      (xs : List ℕ)
      → IsRing s h xs
      → has newitem (h ∷ xs) ≡ false
      → newitem ≢ 0
      → IsRing (enqueue_back h newitem s) h (xs ++ newitem ∷ [])
        × SameOutside (newitem ∷ h ∷ xs) s (enqueue_back h newitem s)
  unfolding enqueue_back
  enqueue_back-append xs r out pos =
      let t = enqueue_before h newitem s in
      let mem : has (s.prev h) (h ∷ xs) ≡ true = has-Chain_prev s h xs h r.chain in
      let link : IsLinked s t (s.prev h) newitem h =
        enqueue_before-IsLinked s newitem h (ground (arith, r.not_null)) (ground arith)
          (ground arith) in
      (
        record {
          chain =
              linked-front s t newitem h xs (s.prev h) h link r.chain refl r.distinct r.distinct.0
                out;
          distinct =
              Distinct-insert newitem (h ∷ xs) [] (rw append-nil r.distinct) (rw append-nil out);
          not_null = ground (arith, has-append 0 xs (newitem ∷ []), r.not_null);
        },
        λ a o. (
          link.other_next a (ground arith) (ground arith),
          link.other_prev a (ground arith) (ground arith),
        ),
      )

  linked-first :
      (t : Links) (xs : List ℕ) (item : ℕ)
      → IsLinked s t h newitem item
      → Chain s h xs h
      → s.next h ≡ item
      → Distinct (h ∷ xs)
      → has newitem (h ∷ xs) ≡ false
      → Chain t h (newitem ∷ xs) h
  linked-first t [] item l c e d out =
      (l.pred_next, l.new_prev, (ground (arith, l.new_next), ground (arith, l.item_prev)))
  linked-first t (x ∷ xs) item l c e d out = (
    l.pred_next,
    l.new_prev,
    (
      ground (arith, l.new_next),
      ground (arith, l.item_prev),
      Chain-frame s x xs h c.2 (λ y m. l.other_next y (ground arith) (ground arith))
          (λ y m. l.other_prev y (ground arith) (ground arith)),
    ),
  )

  -- `list_enqueue_front` puts the new item before all others.
  pub enqueue_front-cons :
      (xs : List ℕ)
      → IsRing s h xs
      → has newitem (h ∷ xs) ≡ false
      → newitem ≢ 0
      → IsRing (enqueue_front h newitem s) h (newitem ∷ xs)
        × SameOutside (newitem ∷ h ∷ xs) s (enqueue_front h newitem s)
  unfolding enqueue_front
  enqueue_front-cons xs r out pos =
      let t = enqueue_after h newitem s in
      let mem : has (s.next h) (h ∷ xs) ≡ true = has-Chain_next s h xs h r.chain in
      let link : IsLinked s t h newitem (s.next h) =
        enqueue_after-IsLinked s newitem h (ground (arith, r.not_null)) (ground arith)
          (ground arith) in
      (
        record {
          chain = linked-first t xs (s.next h) link r.chain refl r.distinct out;
          distinct = (ground (arith, r.distinct.0), (ground arith, r.distinct.1));
          not_null = ground (arith, r.not_null);
        },
        λ a o. (
          link.other_next a (ground arith) (ground arith),
          link.other_prev a (ground arith) (ground arith),
        ),
      )
