-- ===== src/LinkedList/Dequeue.antt =====
-- `list_dequeue` takes one item out of its ring, and the observers of a ring.
use opsys.Base.{ℕ, ◌≡◌, refl, sym, ◌≢◌, true, false, List, [], ◌∷◌, ◌++◌, arith, ◌↔◌}
use opsys.LinkedList.{Links, put, dequeue, is_empty, first, last, init_head}
use opsys.LinkedList.Chain.{
  has, Distinct, Chain, IsRing, SameOutside, first_of, last_of, has-append, Distinct-remove,
  Distinct-front, Distinct-back, has-remove, has-Chain_prev, has-Chain_next, Chain-last,
  Chain-split, Chain-frame, Distinct-append_disjoint,
}

-- The fields after `item`, which stood between `pred` and `succ`, went out.
record IsUnlinked (s t : Links) (pred item succ : ℕ) : Type 0 where
  pred_next : t.next pred ≡ succ
  succ_prev : t.prev succ ≡ pred
  item_next : t.next item ≡ 0
  item_prev : t.prev item ≡ 0
  other_next : (x : ℕ) → x ≢ pred → x ≢ item → t.next x ≡ s.next x
  other_prev : (x : ℕ) → x ≢ succ → x ≢ item → t.prev x ≡ s.prev x

dequeue-IsUnlinked :
    (s : Links) (item : ℕ)
    → s.next item ≢ 0
    → s.prev item ≢ 0
    → s.next item ≢ item
    → s.prev item ≢ item
    → IsUnlinked s (dequeue item s) (s.prev item) item (s.next item)
unfolding dequeue put
dequeue-IsUnlinked s item n p n' p' = record {
  pred_next = ground arith;
  succ_prev = ground arith;
  item_next = ground arith;
  item_prev = ground arith;
  other_next = λ x h k. ground arith;
  other_prev = λ x h k. ground arith;
}

module _ (s t : Links) (item : ℕ) where
  -- Behind the item the chain starts from its predecessor instead.
  unlinked-back :
      (pred succ : ℕ) (ys : List ℕ) (b : ℕ)
      → IsUnlinked s t pred item succ
      → Chain s item ys b
      → s.next item ≡ succ
      → has pred ys ≡ false
      → has item (b ∷ ys) ≡ false
      → Distinct ys
      → has b ys ≡ false
      → Chain t pred ys b
  unlinked-back pred succ [] b l c e p i d o =
      (ground (arith, l.pred_next), ground (arith, l.succ_prev))
  unlinked-back pred succ (y ∷ ys) b l c e p i d o = (
    ground (arith, l.pred_next),
    ground (arith, l.succ_prev),
    Chain-frame s y ys b c.2 (λ x m. l.other_next x (ground arith) (ground arith))
        (λ x m. l.other_prev x (ground arith) (ground arith)),
  )

  unlinked-front :
      (a : ℕ) (xs : List ℕ) (pred succ : ℕ) (ys : List ℕ) (b : ℕ)
      → IsUnlinked s t pred item succ
      → Chain s a xs item
      → Chain t pred ys b
      → s.prev item ≡ pred
      → Distinct (a ∷ xs)
      → has item (a ∷ xs) ≡ false
      → has succ xs ≡ false
      → Chain t a (xs ++ ys) b
  unlinked-front a [] pred succ ys b l c back e d i n =
      let same : pred ≡ a = ground arith in rw (sym same) back
  unlinked-front a (x ∷ xs) pred succ ys b l c back e d i n = (
    ground (arith, l.other_next a, has-Chain_prev s x xs item c.2),
    ground (arith, l.other_prev x),
    unlinked-front x xs pred succ ys b l c.2 back e d.1 (ground arith) (ground arith),
  )

module _ {s : Links} {h : ℕ} where
  -- `list_dequeue` removes exactly this item from its list, clears its two fields, and writes
  -- no node outside the ring.
  pub dequeue-remove :
      (x : ℕ) (xs ys : List ℕ)
      → IsRing s h (xs ++ x ∷ ys)
      → IsRing (dequeue x s) h (xs ++ ys)
        × ((dequeue x s).next x ≡ 0)
        × ((dequeue x s).prev x ≡ 0)
        × SameOutside (h ∷ xs ++ x ∷ ys) s (dequeue x s)
  dequeue-remove x xs ys r =
      let t = dequeue x s in
      let c = Chain-split s h xs x ys h r.chain in
      let before : has (s.prev x) (h ∷ xs) ≡ true = has-Chain_prev s h xs x c.0 in
      let behind : has (s.next x) (h ∷ ys) ≡ true = has-Chain_next s x ys h c.1 in
      let sides = has-remove x (h ∷ xs) ys r.distinct in
      let nulls = has-append 0 xs (x ∷ ys) in
      let link : IsUnlinked s t (s.prev x) x (s.next x) =
        dequeue-IsUnlinked s x (ground (arith, r.not_null)) (ground (arith, r.not_null))
          (ground arith) (ground arith) in
      let back =
        unlinked-back s t x (s.prev x) (s.next x) ys h link c.1 refl
          (ground (arith, Distinct-append_disjoint (s.prev x) (h ∷ xs) (x ∷ ys) r.distinct))
          (ground arith) (Distinct-back (h ∷ xs) (x ∷ ys) r.distinct).1
          (ground (arith, has-append h xs (x ∷ ys), r.distinct.0)) in
      (
        record {
          chain =
              unlinked-front s t x h xs (s.prev x) (s.next x) ys h link c.0 back refl
                (Distinct-front (h ∷ xs) (x ∷ ys) r.distinct) sides.0
                (ground (
                  arith,
                  Distinct-append_disjoint (s.next x) xs (x ∷ ys) r.distinct.1,
                  has-append h xs (x ∷ ys),
                  r.distinct.0,
                ));
          distinct = Distinct-remove x (h ∷ xs) ys r.distinct;
          not_null = ground (arith, has-append 0 xs ys, nulls, r.not_null);
        },
        link.item_next,
        link.item_prev,
        λ a o. (
          link.other_next a (ground (arith, has-append a xs (x ∷ ys)))
              (ground (arith, has-append a xs (x ∷ ys))),
          link.other_prev a (ground (arith, has-append a xs (x ∷ ys)))
              (ground (arith, has-append a xs (x ∷ ys))),
        ),
      )

  -- `list_is_empty` tells the empty list from the others; `list_first` and `list_last` return
  -- the front and the back item, or NULL.
  pub observers_lem :
      (xs : List ℕ)
      → IsRing s h xs
      → ((is_empty s h ≡ true) ↔ (xs ≡ []))
        × (first s h ≡ first_of xs 0)
        × (last s h ≡ last_of xs 0)
  unfolding is_empty first last
  observers_lem [] r = ground (arith, r.chain)
  observers_lem (x ∷ xs) r = ground (arith, r.chain, r.distinct, Chain-last s h (x ∷ xs) h r.chain)

-- `list_init_head` makes an empty list of any address but NULL.
pub init_head-IsRing : (s : Links) (h : ℕ) → h ≢ 0 → IsRing (init_head h s) h []
unfolding init_head put
init_head-IsRing s h pos = record {
  chain = ground arith;
  distinct = (refl, tt);
  not_null = ground arith;
}
