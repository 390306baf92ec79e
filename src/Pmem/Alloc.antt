-- ===== src/Pmem/Alloc.antt =====
-- `pmem_alloc_frames` and `pmem_alloc_frames_at`: what is allocated was free, and a search that
-- fails has looked at every run of frames.
use opsys.Base.{
  ℕ, zero, suc, ◌+◌, ◌-◌, ◌≤◌, ◌<◌, ◌≡◌, ap, ◌⊎◌, inl, inr, true, false, List, length, Bool-cases,
  arith, ltb, ◌==◌, ==→eq, eq→==, ne→==, ==→ne, ltb→lt, ltb-false→le,
}
use opsys.Pmem.{
  Pmem, Run, done, ref_frame_range, alloc_frame_range, alloc_loop, pmem_alloc_frames,
  pmem_alloc_frames_at, out_of_range, minus_enomem,
}
use opsys.Pmem.Frame.{is_allocable, ref_frame}
use opsys.Pmem.Loops.{
  entry_at, IsUpdated, with_map, Stops, each_frame-IsUpdated, find_allocable_frame-Stops,
  find_non_allocable_frame-Stops,
}

-- All `n` frames from `i` on are free frames of available memory.
abbrev pub AreFree : List ℕ → ℕ → ℕ → Type 0
AreFree map i n = (j : ℕ) → i ≤ j → j < i + n → is_allocable (entry_at map j) ≡ true

-- The range was free and is now referenced once.
record Taken (p : Pmem) (beg end : ℕ) : Type 0 where
  map' : List ℕ
  run : alloc_frame_range beg end p ≡ done end (with_map p map')
  updated : IsUpdated ref_frame p.map map' beg end
  free : (j : ℕ) → beg ≤ j → j < end → is_allocable (entry_at p.map j) ≡ true

-- The range holds a frame that is not free, and the map is as before.
record Busy (p : Pmem) (beg end : ℕ) : Type 0 where
  stop : ℕ
  run : alloc_frame_range beg end p ≡ done stop p
  above : beg ≤ stop
  below : stop < end
  used : is_allocable (entry_at p.map stop) ≡ false

alloc_frame_range_lem :
    (beg end : ℕ) (p : Pmem) → beg ≤ end → end ≤ length p.map → Taken p beg end ⊎ Busy p beg end
unfolding alloc_frame_range ref_frame_range
alloc_frame_range_lem beg end p le fits =
    let search = find_non_allocable_frame-Stops (end - beg) beg end p (omega arith) fits in
    let stop = search.0 in
    let s = search.2 in
    elim (Bool-cases (stop == end)) [
      | inl all ↦
          let marked = each_frame-IsUpdated ref_frame (end - beg) beg end p (omega arith) fits in
          inl (record {
            map' = marked.0;
            run = rw (search.1, all) marked.1;
            updated = marked.2;
            free = λ j h k. s.before j h (omega (arith, ==→eq stop end all));
          })
      | inr some_used ↦
          let below : stop < end = omega (arith, s.below, ==→ne stop end some_used) in
          inr (record {
            stop = stop;
            run = rw (search.1, some_used);
            above = s.above;
            below = below;
            used = s.hit below;
          })
    ]

-- The two outcomes of the search loop, which has looked at the places from `lo` on.
abbrev NoneFree : List ℕ → ℕ → ℕ → Type 0
NoneFree map lo n = (i : ℕ) → lo ≤ i → i + n ≤ length map → ¬ AreFree map i n

pub record Allocated (p : Pmem) (lo n : ℕ) (r : Run ℕ) : Type 0 where
  pub pfindex : ℕ
  pub map' : List ℕ
  pub returns : r ≡ done pfindex (with_map p map')
  pub above : lo ≤ pfindex
  pub fits : pfindex + n ≤ length p.map
  pub free : AreFree p.map pfindex n
  pub updated : IsUpdated ref_frame p.map map' pfindex (pfindex + n)

pub record Exhausted (p : Pmem) (lo n : ℕ) (r : Run ℕ) : Type 0 where
  pub returns : r ≡ done 0 p
  pub no_room : NoneFree p.map lo n

not_free_at :
    (map : List ℕ) (i j n : ℕ)
    → is_allocable (entry_at map j) ≡ false
    → i ≤ j
    → j < i + n
    → ¬ AreFree map i n
not_free_at map i j n used h k free = ground (arith, free j)

-- The search found the free frame `found` and then the used frame `stop`: no run of `n` free
-- frames starts from `beg` up to `stop`.
NoneFree-before :
    (map : List ℕ) (beg end found stop n : ℕ)
    → 0 < n
    → Stops true map beg end found
    → stop < found + n
    → is_allocable (entry_at map stop) ≡ false
    → NoneFree map (stop + 1) n
    → NoneFree map beg n
NoneFree-before map beg end found stop n pos s below used later i h k =
    elim (Bool-cases (ltb i found)) [
      | inl before ↦
          not_free_at map i i n (s.before i h (ltb→lt i found before)) (omega arith) (omega arith)
      | inr behind ↦ elim (Bool-cases (ltb stop i)) [
        | inl past ↦ later i (omega (arith, ltb→lt stop i past)) k
        | inr near ↦
            not_free_at map i stop n used (ltb-false→le stop i near)
              (omega (arith, ltb-false→le i found behind))
      ]
    ]

alloc_loop_lem :
    (fuel n beg end : ℕ) (p : Pmem)
    → 0 < n
    → end + n ≡ length p.map + 1
    → 0 < fuel
    → end < fuel + beg
    → Allocated p beg n (alloc_loop fuel n beg end p)
      ⊎ Exhausted p beg n (alloc_loop fuel n beg end p)
unfolding alloc_loop
alloc_loop_lem zero n beg end p pos e f g = absurd (omega arith)
alloc_loop_lem (suc fuel) n beg end p pos e f g = elim (Bool-cases (ltb beg end)) [
  | inr over ↦ inr (record {
    returns = rw over;
    no_room = λ i h k. absurd (omega (arith, ltb-false→le beg end over));
  })
  | inl on ↦
      let below : beg < end = ltb→lt beg end on in
      let search = find_allocable_frame-Stops (end - beg) beg end p (omega arith) (omega arith) in
      let found = search.0 in
      let s = search.2 in
      elim (Bool-cases (found == end)) [
        | inl over ↦ inr (record {
          returns = rw (on, search.1, over);
          no_room = λ i h k.
              not_free_at p.map i i n (s.before i h (omega (arith, ==→eq found end over)))
                (omega arith) (omega arith);
        })
        | inr more ↦
            let inside : found < end = omega (arith, s.below, ==→ne found end more) in
            elim (alloc_frame_range_lem found (found + n) p (omega arith) (omega arith)) [
              | inl t ↦ inl (record {
                pfindex = found;
                map' = t.map';
                returns = rw (on, search.1, more, t.run, eq→== n (found + n - found) (omega arith));
                above = s.above;
                fits = omega arith;
                free = t.free;
                updated = t.updated;
              })
              | inr b ↦
                  let retry : (n == b.stop - found) ≡ false =
                    ne→== n (b.stop - found) (omega (arith, b.below, b.above)) in
                  elim (alloc_loop_lem fuel n (b.stop + 1) end p pos e (omega arith)
                    (omega (arith, b.above, s.above))) [
                      | inl a ↦ inl (record {
                        pfindex = a.pfindex;
                        map' = a.map';
                        returns = rw (on, search.1, more, b.run, retry) a.returns;
                        above = omega (arith, a.above, b.above, s.above);
                        fits = a.fits;
                        free = a.free;
                        updated = a.updated;
                      })
                      | inr ex ↦ inr (record {
                        returns = rw (on, search.1, more, b.run, retry) ex.returns;
                        no_room =
                            NoneFree-before p.map beg end found b.stop n pos s b.below b.used
                              ex.no_room;
                      })
                    ]
            ]
      ]
]

-- The semaphore's slot is given back.
pub slot_back :
    {A : Type 0} (a : A) (p : Pmem) (map : List ℕ)
    → 0 < p.slots
    → done a (record { slots = p.slots - 1 + 1; map = map }) ≡ done a (with_map p map)
slot_back a p map h = ap (λ k. done a (record { slots = k; map = map })) (omega arith)

-- With a free slot of `map_sem`, `pmem_alloc_frames` for at least one frame ends without a
-- memory fault and with the slot given back. Either it returns the index, above 0, of a run of
-- `n` frames inside the map that all were free, and has referenced these and changed no other
-- entry; or it returns 0 with the map unchanged, and then no run of `n` free frames exists at
-- an index above 0.
pub pmem_alloc_frames_lem :
    (p : Pmem) (n : ℕ)
    → 0 < n
    → 0 < p.slots
    → Allocated p 1 n (pmem_alloc_frames n p) ⊎ Exhausted p 1 n (pmem_alloc_frames n p)
unfolding pmem_alloc_frames
pmem_alloc_frames_lem p n pos slot = elim (Bool-cases (ltb (length p.map) n)) [
  | inl large ↦ inr (record {
    returns = rw large;
    no_room = λ i h k. absurd (omega (arith, ltb→lt (length p.map) n large));
  })
  | inr small ↦
      let len = length p.map in
      let q : Pmem = record p { slots = p.slots - 1 } in
      let enter : (p.slots == 0) ≡ false = ne→== p.slots 0 (omega arith) in
      let fits : n ≤ len = ltb-false→le len n small in
      elim (alloc_loop_lem (suc len) n 1 (len - n + 1) q pos (omega arith) (omega arith)
        (omega arith)) [
          | inl a ↦ inl (record {
            pfindex = a.pfindex;
            map' = a.map';
            returns = rw (small, enter, a.returns) (slot_back a.pfindex p a.map' slot);
            above = a.above;
            fits = a.fits;
            free = a.free;
            updated = a.updated;
          })
          | inr ex ↦ inr (record {
            returns = rw (small, enter, ex.returns) (slot_back 0 p p.map slot);
            no_room = ex.no_room;
          })
        ]
]

-- The outcomes of an allocation at a given place.
pub record TakenAt (p : Pmem) (pfindex n : ℕ) (r : Run ℕ) : Type 0 where
  pub map' : List ℕ
  pub returns : r ≡ done pfindex (with_map p map')
  pub fits : pfindex + n ≤ length p.map
  pub free : AreFree p.map pfindex n
  pub updated : IsUpdated ref_frame p.map map' pfindex (pfindex + n)

pub record BusyAt (p : Pmem) (pfindex n : ℕ) (r : Run ℕ) : Type 0 where
  pub returns : r ≡ done 0 p
  pub fits : pfindex + n ≤ length p.map
  pub not_free : ¬ AreFree p.map pfindex n

pub record OutsideAt (p : Pmem) (pfindex n : ℕ) (r : Run ℕ) : Type 0 where
  pub returns : r ≡ done minus_enomem p
  pub outside : length p.map < pfindex + n

pub out_of_range_lem :
    (p : Pmem) (pfindex n : ℕ) → out_of_range p pfindex n ≡ ltb (length p.map) (pfindex + n)
unfolding out_of_range
out_of_range_lem p pfindex n = ground arith

-- With a free slot of `map_sem`, `pmem_alloc_frames_at` ends with the slot given back and one of
-- three outcomes: the frames were all free and are now referenced, and the index is returned;
-- one of them is in use, 0 is returned and the map is unchanged; or the range does not lie in
-- the map, `-ENOMEM` as an unsigned number is returned and the map is unchanged.
pub pmem_alloc_frames_at_lem :
    (p : Pmem) (pfindex n : ℕ)
    → 0 < p.slots
    → TakenAt p pfindex n (pmem_alloc_frames_at pfindex n p)
      ⊎ (BusyAt p pfindex n (pmem_alloc_frames_at pfindex n p)
          ⊎ OutsideAt p pfindex n (pmem_alloc_frames_at pfindex n p))
unfolding pmem_alloc_frames_at
pmem_alloc_frames_at_lem p pfindex n slot = elim (Bool-cases (out_of_range p pfindex n)) [
  | inl out ↦
      inr (inr (record { returns = rw out; outside = ltb→lt _ _ (rw out_of_range_lem at out) }))
  | inr within ↦
      let q : Pmem = record p { slots = p.slots - 1 } in
      let enter : (p.slots == 0) ≡ false = ne→== p.slots 0 (omega arith) in
      let fits : pfindex + n ≤ length p.map = ltb-false→le _ _ (rw out_of_range_lem at within) in
      elim (alloc_frame_range_lem pfindex (pfindex + n) q (omega arith) fits) [
        | inl t ↦ inl (record {
          map' = t.map';
          returns =
              rw (within, enter, t.run, eq→== n (pfindex + n - pfindex) (omega arith))
                (slot_back pfindex p t.map' slot);
          fits = fits;
          free = t.free;
          updated = t.updated;
        })
        | inr b ↦ inr (
            inl (record {
              returns =
                  rw
                    (
                      within,
                      enter,
                      b.run,
                      ne→== n (b.stop - pfindex) (omega (arith, b.below, b.above)),
                    )
                    (slot_back 0 p p.map slot);
              fits = fits;
              not_free = not_free_at p.map pfindex b.stop n b.used b.above b.below;
            }))
      ]
]
