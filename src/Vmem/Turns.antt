-- ===== src/Vmem/Turns.antt =====
-- Two threads that enter the semaphores of address spaces as `semaphore_enter_ordered` of
-- src/kernel/bin/vmem.c does, leave them as `semaphore_leave_ordered` does, and take turns.
use opsys.Base.{
  ℕ, ◌+◌, ◌-◌, ◌<◌, ◌≡◌, refl, ◌∙◌, sym, ap, inl, inr, eq-cases, ◌==◌, if◌then◌else◌, arith, eq→==,
  ne→==, List, [], ◌∷◌,
}
use opsys.LinkedList.{put}
use opsys.Paging.Machine.{Machine, Run, done, fault, blocked, out_of_fuel}
use opsys.Vmem.{semaphore_enter, semaphore_leave, semaphore_enter_ordered, semaphore_leave_ordered}

-- A thread has entered `held` and still has to enter `todo`, or has to leave `left`.
pub data Thread : Type 0 where
  entering : (held todo left : List ℕ) → Thread
  leaving : (left : List ℕ) → Thread

pub data Step : Machine → Thread → Machine → Thread → Type 0 where
  enter :
      (m m' : Machine) (x : ℕ) (held todo left : List ℕ)
      → semaphore_enter x m ≡ done tt m'
      → Step m (entering held (x ∷ todo) left) m' (entering (x ∷ held) todo left)
  work : (m : Machine) (held left : List ℕ) → Step m (entering held [] left) m (leaving left)
  leave :
      (m m' : Machine) (x : ℕ) (left : List ℕ)
      → semaphore_leave x m ≡ done tt m'
      → Step m (leaving (x ∷ left)) m' (leaving left)

-- A thread at its begin, which locks the address spaces `a` and `b`: it makes the calls of
-- `semaphore_enter_ordered` and then those of `semaphore_leave_ordered`.
unfoldable pub start : ℕ → ℕ → Thread
start a b = entering [] (semaphore_enter_ordered a b) (semaphore_leave_ordered a b)

-- What two threads reach, one step of either at a time.
pub data Reachable (m0 : Machine) (s0 t0 : Thread) : Machine → Thread → Thread → Type 0 where
  begin : Reachable m0 s0 t0 m0 s0 t0
  first :
      (m m' : Machine) (s s' t : Thread)
      → Reachable m0 s0 t0 m s t
      → Step m s m' s'
      → Reachable m0 s0 t0 m' s' t
  second :
      (m m' : Machine) (s t t' : Thread)
      → Reachable m0 s0 t0 m s t
      → Step m t m' t'
      → Reachable m0 s0 t0 m' s t'

unfoldable pub count : ℕ → List ℕ → ℕ
count x [] = 0
count x (y ∷ ys) = (if x == y then 1 else 0) + count x ys

-- The slots of a semaphore that a thread has taken.
unfoldable pub taken : Thread → ℕ → ℕ
taken (entering held todo left) x = count x held
taken (leaving left) x = count x left

-- All of the first list are below all of the second, and the second ascends.
unfoldable pub Above : ℕ → List ℕ → Type 0
Above x [] = Unit
Above x (y ∷ ys) = (x < y) × Above x ys

unfoldable pub Ascends : List ℕ → Type 0
Ascends [] = Unit
Ascends (x ∷ xs) = Above x xs × Ascends xs

unfoldable pub AllBelow : List ℕ → List ℕ → Type 0
AllBelow [] todo = Unit
AllBelow (x ∷ held) todo = Above x todo × AllBelow held todo

-- A thread that keeps to the order, and leaves what it has entered.
unfoldable pub Orderly : Thread → Type 0
Orderly (entering held todo left) =
    AllBelow held todo × Ascends todo × ((x : ℕ) → count x held + count x todo ≡ count x left)
Orderly (leaving left) = Unit

-- Each slot that is not free is taken by one of the two.
pub record Accounted (m : Machine) (s t : Thread) : Type 0 where
  pub one : (x : ℕ) → m.sem x + taken s x + taken t x ≡ 1
  pub first_Orderly : Orderly s
  pub second_Orderly : Orderly t

-- The effect of one step: what the thread takes, the semaphore gives.
pub record Moved (m : Machine) (s : Thread) (m' : Machine) (s' : Thread) : Type 0 where
  pub conserved : (x : ℕ) → m'.sem x + taken s' x ≡ m.sem x + taken s x
  pub orderly : Orderly s'

abbrev pub same : ℕ → ℕ → ℕ
same x y = if x == y then 1 else 0

abbrev sem_after : Run (Unit {0}) → Machine → Machine
sem_after (done a m') m = m'
sem_after fault m = m
sem_after blocked m = m
sem_after out_of_fuel m = m

pub put_more : (f : ℕ → ℕ) (x y : ℕ) → put f x (f x + 1) y ≡ f y + same y x
unfolding put
put_more f x y = elim (eq-cases y x) [
  | inl e ↦ rw (eq→== y x e, e) refl
  | inr ne ↦ rw (ne→== y x ne) (omega arith)
]

pub put_less : (f : ℕ → ℕ) (x y : ℕ) → 0 < f x → put f x (f x - 1) y + same y x ≡ f y
unfolding put
put_less f x y h = elim (eq-cases y x) [
  | inl e ↦ rw (eq→== y x e, e) (omega arith)
  | inr ne ↦ rw (ne→== y x ne) (omega arith)
]

abbrev pub entered : ℕ → Machine → Machine
entered x m = record m { sem = put m.sem x (m.sem x - 1) }

pub enter_free : (x : ℕ) (m : Machine) → 0 < m.sem x → semaphore_enter x m ≡ done tt (entered x m)
unfolding semaphore_enter
enter_free x m h = rw (ne→== (m.sem x) 0 (omega arith)) refl

enter_full : (x : ℕ) (m : Machine) → m.sem x ≡ 0 → semaphore_enter x m ≡ blocked
unfolding semaphore_enter
enter_full x m h = rw (eq→== (m.sem x) 0 h) refl

blocked_done : (r : Run (Unit {0})) (m : Machine) → r ≡ blocked → r ≡ done tt m → ⊥
blocked_done r m e h = cc

enter_sem :
    (x : ℕ) (m m' : Machine)
    → semaphore_enter x m ≡ done tt m'
    → (0 < m.sem x) × ((y : ℕ) → m'.sem y + same y x ≡ m.sem y)
enter_sem x m m' e = elim (eq-cases (m.sem x) 0) [
  | inl none ↦ absurd (blocked_done _ m' (enter_full x m none) e)
  | inr slot ↦
      let free : 0 < m.sem x = omega (arith, slot) in
      (
        free,
        λ y.
            let after : m'.sem y ≡ put m.sem x (m.sem x - 1) y =
              ap (λ r. (sem_after r m).sem y) (sym e ∙ enter_free x m free) in
            omega (arith, after, put_less m.sem x y free),
      )
]

leave_sem :
    (x : ℕ) (m m' : Machine)
    → semaphore_leave x m ≡ done tt m'
    → (y : ℕ) → m'.sem y ≡ m.sem y + same y x
unfolding semaphore_leave
leave_sem x m m' e y = ap (λ r. (sem_after r m).sem y) (sym e) ∙ put_more m.sem x y

AllBelow-tail :
    (held : List ℕ) (x : ℕ) (todo : List ℕ) → AllBelow held (x ∷ todo) → AllBelow held todo
unfolding AllBelow Above
AllBelow-tail [] x todo h = tt
AllBelow-tail (y ∷ held) x todo h = (h.0.1, AllBelow-tail held x todo h.1)

pub moved : {m m' : Machine} {s s' : Thread} → Step m s m' s' → Orderly s → Moved m s m' s'
unfolding taken count Orderly AllBelow Ascends
moved (enter m m' x held todo left e) o =
    let sems = enter_sem x m m' e in
    record {
      conserved = λ y. omega (arith, sems.1 y);
      orderly = ((o.1.0, AllBelow-tail held x todo o.0), o.1.1, λ y. omega (arith, o.2 y));
    }
moved (work m held left) o = record { conserved = λ x. omega (arith, o.2 x); orderly = tt }
moved (leave m m' x left e) o = record {
  conserved = λ y. omega (arith, leave_sem x m m' e y);
  orderly = tt;
}
