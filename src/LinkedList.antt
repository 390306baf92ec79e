-- ===== src/LinkedList.antt =====
-- The intrusive doubly linked lists of src/kernel/bin/list.c and list.h.
-- A node is an address, 0 is NULL. A store holds the two fields of the `struct list` at every
-- address; an operation takes the store to the store after its writes, made in the source's order.
pub mod Chain
pub mod Enqueue
pub mod Dequeue
pub mod Sorted
mod Examples
use opsys.Base.{ℕ, zero, suc, ◌≡◌, Bool, Option, none, some, ◌==◌, if◌then◌else◌}
use mathlib.Core.Option

pub record Links : Type 0 where
  pub next : ℕ → ℕ
  pub prev : ℕ → ℕ

-- A write of one word.
unfoldable pub put : (ℕ → ℕ) → ℕ → ℕ → ℕ → ℕ
put f a v x = if x == a then v else f x

abbrev pub set_next : ℕ → ℕ → Links → Links
set_next a v s = record s { next = put s.next a v }

abbrev pub set_prev : ℕ → ℕ → Links → Links
set_prev a v s = record s { prev = put s.prev a v }

unfoldable pub init_item : ℕ → Links → Links
init_item item s = set_prev item 0 (set_next item 0 s)

unfoldable pub init_head : ℕ → Links → Links
init_head head s = set_prev head head (set_next head head s)

-- `list_begin`, `list_end`, `list_rbegin`, `list_rend`, `list_next`, `list_prev`.
abbrev pub list_begin : Links → ℕ → ℕ
list_begin s head = s.next head

abbrev pub list_end : ℕ → ℕ
list_end head = head

abbrev pub list_rbegin : Links → ℕ → ℕ
list_rbegin s head = s.prev head

abbrev pub list_rend : ℕ → ℕ
list_rend head = head

abbrev pub list_next : Links → ℕ → ℕ
list_next s item = s.next item

abbrev pub list_prev : Links → ℕ → ℕ
list_prev s item = s.prev item

unfoldable pub is_empty : Links → ℕ → Bool
is_empty s head = list_begin s head == list_end head

-- The returned NULL is 0.
unfoldable pub first : Links → ℕ → ℕ
first s head = if is_empty s head then 0 else list_begin s head

unfoldable pub last : Links → ℕ → ℕ
last s head = if is_empty s head then 0 else list_prev s (list_end head)

unfoldable pub enqueue_before : ℕ → ℕ → Links → Links
enqueue_before item newitem s =
    let s1 = set_prev newitem (s.prev item) s in
    let s2 = set_next newitem item s1 in
    let s3 = (if s2.prev item == 0 then s2 else set_next (s2.prev item) newitem s2) in
    set_prev item newitem s3

unfoldable pub enqueue_after : ℕ → ℕ → Links → Links
enqueue_after item newitem s =
    let s1 = set_prev newitem item s in
    let s2 = set_next newitem (s1.next item) s1 in
    let s3 = (if s2.next item == 0 then s2 else set_prev (s2.next item) newitem s2) in
    set_next item newitem s3

unfoldable pub enqueue_front : ℕ → ℕ → Links → Links
enqueue_front head newitem s = enqueue_after head newitem s

unfoldable pub enqueue_back : ℕ → ℕ → Links → Links
enqueue_back head newitem s = enqueue_before head newitem s

-- `before newitem item` is the test `cmp(newitem, item) > 0`; the loop stops at the first item
-- that passes it, or at the head. `none` is a loop that has not ended within its fuel.
unfoldable pub sorted_place : (ℕ → ℕ → Bool) → ℕ → Links → ℕ → ℕ → ℕ → Option ℕ
sorted_place before zero s head newitem item = none
sorted_place before (suc fuel) s head newitem item =
    let rest = sorted_place before fuel s head newitem (list_next s item) in
    if item == list_end head then some item else (if before newitem item then some item else rest)

unfoldable pub enqueue_sorted : (ℕ → ℕ → Bool) → ℕ → ℕ → ℕ → Links → Option Links
unfolding sorted_place
enqueue_sorted before fuel head newitem s =
    Option.map (λ item. enqueue_before item newitem s)
      (sorted_place before fuel s head newitem (list_begin s head))

unfoldable pub dequeue : ℕ → Links → Links
dequeue item s =
    let s1 = (if s.next item == 0 then s else set_prev (s.next item) (s.prev item) s) in
    let s2 = (if s1.prev item == 0 then s1 else set_next (s1.prev item) (s1.next item) s1) in
    set_next item 0 (set_prev item 0 s2)
