-- ===== src/LinkedList/Sorted.antt =====
-- `list_enqueue_sorted` puts the new item in front of the first one that it compares above.
use opsys.Base.{
  ℕ, zero, suc, ◌≡◌, refl, ◌≢◌, Bool, false, Option, some, List, [], ◌∷◌, ◌++◌, arith, ◌==◌, ◌<◌,
  Bool-cases, inl, inr, if◌then◌else◌, length, eq→==,
}
use mathlib.Core.Option
use mathlib.Core.List.{append-nil, append_assoc}
use opsys.LinkedList.{Links, enqueue_before, enqueue_back, enqueue_sorted, sorted_place}
use opsys.LinkedList.Chain.{
  has, IsRing, SameOutside, first_of, has-append, Chain-split, Chain-first,
}
use opsys.LinkedList.Enqueue.{enqueue_before_lem, enqueue_back-append}

-- What the operation does to the sequence of items.
unfoldable pub insert : (ℕ → ℕ → Bool) → ℕ → List ℕ → List ℕ
insert before n [] = n ∷ []
insert before n (x ∷ xs) = if before n x then n ∷ x ∷ xs else x ∷ insert before n xs

-- The loop ended and the new item went in, at its place behind `pre`.
abbrev pub Placed : (ℕ → ℕ → Bool) → Links → ℕ → ℕ → List ℕ → List ℕ → Option Links → Type 0
Placed before s h newitem pre ys o =
    (t : Links) × (o ≡ some t)
    × IsRing t h (pre ++ insert before newitem ys)
    × SameOutside (newitem ∷ h ∷ pre ++ ys) s t

module _ (before : ℕ → ℕ → Bool) {s : Links} {h : ℕ} (newitem : ℕ) where
  place_from :
      (fuel item : ℕ) (pre ys : List ℕ)
      → IsRing s h (pre ++ ys)
      → item ≡ first_of ys h
      → length ys < fuel
      → has newitem (h ∷ pre ++ ys) ≡ false
      → newitem ≢ 0
      → Placed before s h newitem pre ys (
          Option.map
            (λ place. enqueue_before place newitem s)
            (sorted_place before fuel s h newitem item))
  unfolding sorted_place insert enqueue_back
  place_from zero item pre ys r e f out pos = absurd (omega arith)
  place_from (suc fuel) item pre [] r e f out pos =
      let done = enqueue_back-append newitem (pre ++ []) r out pos in
      (enqueue_before h newitem s, rw (e, eq→== h h refl), rw append-nil at done.0, done.1)
  place_from (suc fuel) item pre (y ∷ ys) r e f out pos =
      let apart = has-append h pre (y ∷ ys) in
      let more : (item == h) ≡ false = ground (arith, r.distinct) in
      elim (Bool-cases (before newitem y)) [
        | inl found ↦
            let done = enqueue_before_lem newitem y pre ys r out pos in
            (enqueue_before y newitem s, rw (more, e, found), rw found done.0, done.1)
        | inr on ↦
            let next : s.next y ≡ first_of ys h =
              Chain-first s y ys h (Chain-split s h pre y ys h r.chain).1 in
            let rest =
              place_from fuel (s.next y) (pre ++ y ∷ []) ys (rw append_assoc r) next (omega arith)
                (rw append_assoc out) pos in
            (
              rest.0,
              rw (more, e, on) rest.1,
              rw on (rw append_assoc at rest.2),
              rw append_assoc at rest.3,
            )
      ]

  -- With more fuel than items the loop ends, the items are those of the sequential insertion,
  -- and no node outside the ring is written.
  pub enqueue_sorted-insert :
      (fuel : ℕ) (xs : List ℕ)
      → IsRing s h xs
      → length xs < fuel
      → has newitem (h ∷ xs) ≡ false
      → newitem ≢ 0
      → Placed before s h newitem [] xs (enqueue_sorted before fuel h newitem s)
  unfolding enqueue_sorted
  enqueue_sorted-insert fuel xs r f out pos =
      place_from fuel (s.next h) [] xs r (Chain-first s h xs h r.chain) f out pos
