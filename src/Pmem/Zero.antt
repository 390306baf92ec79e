-- ===== src/Pmem/Zero.antt =====
-- `pmem_alloc_frames(0)`: its search bound lies one entry behind the map.
use opsys.Base.{
  ℕ, zero, suc, ◌+◌, ◌-◌, ◌≤◌, ◌<◌, ◌≡◌, inl, inr, false, length, Bool-cases, arith, ltb, ltb→lt,
  ltb-false→le, lt→ltb, ne→==, le→ltb-false, get_elem?-none,
}
use opsys.Pmem.{Pmem, fault, read, find_allocable_frame, alloc_loop, pmem_alloc_frames}
use opsys.Pmem.Frame.{is_allocable}
use opsys.Pmem.Loops.{entry_at, read_lem}

read-fault : (p : Pmem) (i : ℕ) → length p.map ≤ i → read i p ≡ fault
unfolding read
read-fault p i h = rw (get_elem?-none p.map i h, read)

find_allocable_frame-fault :
    (left beg : ℕ) (p : Pmem)
    → beg ≤ length p.map
    → length p.map < beg + left
    → ((i : ℕ) → beg ≤ i → i < length p.map → is_allocable (entry_at p.map i) ≡ false)
    → find_allocable_frame left beg p ≡ fault
unfolding find_allocable_frame
find_allocable_frame-fault zero beg p h k none_free = absurd (omega arith)
find_allocable_frame-fault (suc left) beg p h k none_free =
    elim (Bool-cases (ltb beg (length p.map))) [
      | inr end ↦ rw (read-fault p beg (ltb-false→le beg (length p.map) end))
      | inl inside ↦
          rw
            (
              read_lem p beg (ltb→lt beg (length p.map) inside),
              none_free beg (omega arith) (ltb→lt beg (length p.map) inside),
            )
            (find_allocable_frame-fault left (beg + 1) p
              (omega (arith, ltb→lt beg (length p.map) inside)) (omega arith)
              (λ i a b. none_free i (omega arith) b))
    ]

-- When no frame above index 0 is free, a call of `pmem_alloc_frames` for no frames reads behind
-- the end of a map that is not empty (`map_sem` having a free slot).
pub pmem_alloc_frames_zero-fault :
    (p : Pmem)
    → 0 < p.slots
    → 0 < length p.map
    → ((i : ℕ) → 1 ≤ i → i < length p.map → is_allocable (entry_at p.map i) ≡ false)
    → pmem_alloc_frames 0 p ≡ fault
unfolding pmem_alloc_frames alloc_loop
pmem_alloc_frames_zero-fault p slot len none_free =
    let q : Pmem = record p { slots = p.slots - 1 } in
    rw (
      le→ltb-false (length p.map) 0 (omega arith),
      ne→== p.slots 0 (omega arith),
      lt→ltb 1 (length p.map - 0 + 1) (omega arith),
      find_allocable_frame-fault (length p.map - 0 + 1 - 1) 1 q (omega arith) (omega arith)
          none_free,
    )
