-- ===== src/LinkedList/Examples.antt =====
-- The theorems on list.c at a list with the head 1 and the items 2 and 3.
use opsys.Base.{◌≡◌, refl, [], ◌∷◌, arith, ltb}
use opsys.LinkedList.{Links, put, init_head, enqueue_sorted, dequeue}
use opsys.LinkedList.Chain.{IsRing, SameOutside}
use opsys.LinkedList.Dequeue.{dequeue-remove, init_head-IsRing}
use opsys.LinkedList.Sorted.{Placed, enqueue_sorted-insert}

abbrev blank : Links
blank = record { next = λ a. 0; prev = λ a. 0 }

-- The head and the items, linked by hand.
abbrev two : Links
two = record {
  next = put (put (put (λ a. 0) 1 2) 2 3) 3 1;
  prev = put (put (put (λ a. 0) 1 3) 2 1) 3 2;
}

two-IsRing : IsRing two 1 (2 ∷ 3 ∷ [])
unfolding put
two-IsRing = record { chain = ground arith; distinct = ground arith; not_null = refl }

dequeue-remove_example :
    IsRing (dequeue 2 two) 1 (3 ∷ [])
    × ((dequeue 2 two).next 2 ≡ 0)
    × ((dequeue 2 two).prev 2 ≡ 0)
    × SameOutside (1 ∷ 2 ∷ 3 ∷ []) two (dequeue 2 two)
dequeue-remove_example = dequeue-remove 2 [] (3 ∷ []) two-IsRing

init_head-IsRing_example : IsRing (init_head 5 blank) 5 []
init_head-IsRing_example = init_head-IsRing blank 5 (omega arith)

enqueue_sorted-insert_example : Placed ltb two 1 4 [] (2 ∷ 3 ∷ []) (enqueue_sorted ltb 3 1 4 two)
enqueue_sorted-insert_example =
    enqueue_sorted-insert ltb 4 3 (2 ∷ 3 ∷ []) two-IsRing (omega arith) refl (omega arith)
