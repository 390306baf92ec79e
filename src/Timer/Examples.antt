-- ===== src/Timer/Examples.antt =====
-- The theorems on timer.c for a timer with the list head 1 and the alarms 2 and 3.
use opsys.Base.{◌≡◌, refl, [], ◌∷◌, arith}
use opsys.LinkedList.{put}
use opsys.LinkedList.Chain.{IsRing}
use opsys.Timer.{unset, Timer, handle_timeout}
use opsys.Timer.Handle.{Fired, handle_timeout-Fired}

-- The alarm 2 at time 10 and the alarm 3 at time 20, linked by hand.
abbrev two : Timer
two = record {
  links = record {
    next = put (put (put (λ a. 0) 1 2) 2 3) 3 1;
    prev = put (put (put (λ a. 0) 1 3) 2 1) 3 2;
  };
  head = 1;
  timestamp_ns = 0;
  stamp = put (put (λ a. 0) 2 10) 3 20;
  fired = [];
  driver = unset;
}

abbrev one : Timer
one = record two {
  links = record { next = put (put (λ a. 0) 1 2) 2 1; prev = put (put (λ a. 0) 1 2) 2 1 };
}

two-IsRing : IsRing two.links two.head (2 ∷ 3 ∷ [])
unfolding put
two-IsRing = record { chain = ground arith; distinct = ground arith; not_null = refl }

one-IsRing : IsRing one.links one.head (2 ∷ [])
unfolding put
one-IsRing = record { chain = ground arith; distinct = ground arith; not_null = refl }

stamp_two : two.stamp 2 ≡ 10
unfolding put
stamp_two = refl

stamp_three : two.stamp 3 ≡ 20
unfolding put
stamp_three = refl

handle_timeout-Fired_example : Fired two 15 (2 ∷ []) (3 ∷ []) (handle_timeout (λ a. 0) 2 15 two)
handle_timeout-Fired_example =
    handle_timeout-Fired (λ a. 0) 15 2 two (2 ∷ []) (3 ∷ []) two-IsRing
      (rw stamp_two (omega arith), refl, tt) (rw stamp_three (omega arith)) (omega arith)
