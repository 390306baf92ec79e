-- ===== src/Vmem/Progress.antt =====
-- The order of the semaphores in src/kernel/bin/vmem.c keeps two threads from a deadlock.
use opsys.Base.{
  ℕ, ◌<◌, ◌≡◌, refl, ◌⊎◌, inl, inr, Bool-cases, eq-cases, arith, eq→==, ne→==, ltb, ltb→lt,
  ltb-false→le, lt→ltb, le→ltb-false, List, [], ◌∷◌,
}
use opsys.Paging.Machine.{Machine}
use opsys.Vmem.{semaphore_leave, semaphore_enter_ordered, semaphore_leave_ordered}
use opsys.Vmem.Turns.{
  Thread, entering, leaving, Step, enter, work, leave, Reachable, begin, first, second, start,
  Accounted, moved, Orderly, Ascends, Above, AllBelow, count, taken, enter_free, entered,
}

reached :
    {m0 : Machine} {s0 t0 : Thread} {m : Machine} {s t : Thread}
    → Reachable m0 s0 t0 m s t
    → Accounted m0 s0 t0
    → Accounted m s t
reached begin h = h
reached (first m m' s s' t r step) h =
    let before = reached r h in
    let move = moved step before.first_Orderly in
    record {
      one = λ x. omega (arith, before.one x, move.conserved x);
      first_Orderly = move.orderly;
      second_Orderly = before.second_Orderly;
    }
reached (second m m' s t t' r step) h =
    let before = reached r h in
    let move = moved step before.second_Orderly in
    record {
      one = λ x. omega (arith, before.one x, move.conserved x);
      first_Orderly = before.first_Orderly;
      second_Orderly = move.orderly;
    }

count-below :
    (held : List ℕ) (x : ℕ) (todo : List ℕ) (y : ℕ)
    → AllBelow held (x ∷ todo)
    → 0 < count y held
    → y < x
unfolding AllBelow Above count
count-below [] x todo y h c = absurd (omega (arith, c))
count-below (z ∷ held) x todo y h c = elim (eq-cases y z) [
  | inl e ↦ omega (arith, e, h.0.0)
  | inr ne ↦ count-below held x todo y h.1 (omega (arith, rw (ne→== y z ne) at c))
]

-- A thread can take its next step.
abbrev pub CanStep : Machine → Thread → Type 0
CanStep m s = (m' : Machine) × (s' : Thread) × Step m s m' s'

can_enter :
    (m : Machine) (held : List ℕ) (x : ℕ) (todo left : List ℕ)
    → 0 < m.sem x
    → CanStep m (entering held (x ∷ todo) left)
can_enter m held x todo left h = (
  entered x m,
  entering (x ∷ held) todo left,
  enter m (entered x m) x held todo left (enter_free x m h),
)

can_leave : (m : Machine) (x : ℕ) (left : List ℕ) → CanStep m (leaving (x ∷ left))
unfolding semaphore_leave
can_leave m x left = (_, leaving left, leave m _ x left refl)

can_work : (m : Machine) (held left : List ℕ) → CanStep m (entering held [] left)
can_work m held left = (m, leaving left, work m held left)

-- A thread at its next semaphore does not hold it.
at_next :
    (held : List ℕ) (x : ℕ) (todo left : List ℕ)
    → Orderly (entering held (x ∷ todo) left)
    → taken (entering held (x ∷ todo) left) x ≡ 0
unfolding Orderly taken
at_next held x todo left o = elim (eq-cases (count x held) 0) [
  | inl e ↦ e
  | inr ne ↦ absurd (omega (arith, count-below held x todo x o.0 (omega (arith, ne))))
]

-- If the other thread does, it is at a semaphore with a higher address.
at_higher :
    (held : List ℕ) (y : ℕ) (todo left : List ℕ) (x : ℕ)
    → Orderly (entering held (y ∷ todo) left)
    → 0 < taken (entering held (y ∷ todo) left) x
    → x < y
unfolding Orderly taken
at_higher held y todo left x o h = count-below held y todo x o.0 h

abbrev pub Progress : Machine → Thread → Thread → Type 0
Progress m s t = ((s ≡ leaving []) × (t ≡ leaving [])) ⊎ CanStep m s ⊎ CanStep m t

taken_nothing : (x : ℕ) → taken (leaving []) x ≡ 0
unfolding taken count
taken_nothing x = refl

progress : (m : Machine) (s t : Thread) → Accounted m s t → Progress m s t
progress m (leaving (x ∷ left)) t h = inr (inl (can_leave m x left))
progress m (entering held [] left) t h = inr (inl (can_work m held left))
progress m s (leaving (x ∷ left)) h = inr (inr (can_leave m x left))
progress m s (entering held [] left) h = inr (inr (can_work m held left))
progress m (leaving []) (leaving []) h = inl (refl, refl)
progress m (leaving []) (entering held (y ∷ todo) left) h = inr (
    inr (
      can_enter m held y todo left
        (omega (arith, h.one y, taken_nothing y, at_next held y todo left h.second_Orderly))))
progress m (entering held (x ∷ todo) left) (leaving []) h = inr (
    inl (
      can_enter m held x todo left
        (omega (arith, h.one x, taken_nothing x, at_next held x todo left h.first_Orderly))))
progress m (entering held (x ∷ todo) left) (entering held' (y ∷ todo') left') h =
    elim (eq-cases (m.sem x) 0) [
      | inr slot ↦ inr (inl (can_enter m held x todo left (omega (arith, slot))))
      | inl none_x ↦ elim (eq-cases (m.sem y) 0) [
        | inr slot ↦ inr (inr (can_enter m held' y todo' left' (omega (arith, slot))))
        | inl none_y ↦
            let mine = at_next held x todo left h.first_Orderly in
            let yours = at_next held' y todo' left' h.second_Orderly in
            let up =
              at_higher held' y todo' left' x h.second_Orderly
                (omega (arith, h.one x, none_x, mine)) in
            let down =
              at_higher held x todo left y h.first_Orderly
                (omega (arith, h.one y, none_y, yours)) in
            absurd (omega (arith, up, down))
      ]
    ]

-- The same semaphores are entered and left.
count-ordered :
    (x a b : ℕ) → count x (semaphore_enter_ordered a b) ≡ count x (semaphore_leave_ordered a b)
unfolding semaphore_enter_ordered semaphore_leave_ordered count
count-ordered x a b = elim (eq-cases a b) [
  | inl e ↦
      rw (eq→== a b e, le→ltb-false a b (omega (arith, e)), le→ltb-false b a (omega (arith, e)))
        refl
  | inr ne ↦ elim (Bool-cases (ltb a b)) [
    | inl below ↦ rw (ne→== a b ne, below) refl
    | inr above ↦
        let h : b < a = omega (arith, ne, ltb-false→le a b above) in
        rw (ne→== a b ne, above, lt→ltb b a h) (omega arith)
  ]
]

semaphore_enter_ordered-Ascends : (a b : ℕ) → Ascends (semaphore_enter_ordered a b)
unfolding semaphore_enter_ordered Ascends Above
semaphore_enter_ordered-Ascends a b = elim (Bool-cases (ltb a b)) [
  | inl below ↦ rw below ((ltb→lt a b below, tt), (tt, tt))
  | inr above ↦ elim (Bool-cases (ltb b a)) [
    | inl below ↦ rw (above, below) ((ltb→lt b a below, tt), (tt, tt))
    | inr same ↦ rw (above, same) (tt, tt)
  ]
]

start-Orderly : (a b : ℕ) → Orderly (start a b)
unfolding start Orderly AllBelow count
start-Orderly a b =
    (tt, semaphore_enter_ordered-Ascends a b, λ x. omega (arith, count-ordered x a b))

start-taken : (a b x : ℕ) → taken (start a b) x ≡ 0
unfolding start taken count
start-taken a b x = refl

-- No deadlock: where every semaphore begins with one slot, and each of two threads makes the calls
-- of `semaphore_enter_ordered` for two address spaces, one by one, and then those of
-- `semaphore_leave_ordered`, whatever turns they took, either both are finished or one of them can
-- take its next step.
pub ordered-Progress :
    (a b c d : ℕ) (m0 : Machine)
    → ((x : ℕ) → m0.sem x ≡ 1)
    → (m : Machine) (s t : Thread) → Reachable m0 (start a b) (start c d) m s t
    → Progress m s t
ordered-Progress a b c d m0 free m s t r = progress m s t (
    reached r (record {
      one = λ x. omega (arith, free x, start-taken a b x, start-taken c d x);
      first_Orderly = start-Orderly a b;
      second_Orderly = start-Orderly c d;
    }))
