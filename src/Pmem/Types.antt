-- ===== src/Pmem/Types.antt =====
-- `pmem_init` and `pmem_set_type`, and the invariant of the map: its entries fit eight bits.
use opsys.Base.{
  ℕ, ◌+◌, ◌-◌, ◌≤◌, ◌<◌, ◌≡◌, refl, ◌⊎◌, false, List, length, length-replicate, get_or-replicate,
  ok, arith, ◌==◌, ne→==, le→ltb-false,
}
use opsys.Pmem.{Pmem, done, pmem_init, pmem_set_type}
use opsys.Pmem.Frame.{PmemType, type_bits, set_type, set_type_lem, get_type, get_ref, is_allocable}
use opsys.Pmem.Loops.{entry_at, with_map, each_frame-IsUpdated}
use opsys.Pmem.Alloc.{slot_back, out_of_range_lem}

-- The range has the type, its counters and the other entries are as before.
pub record Typed (t : PmemType) (map map' : List ℕ) (lo hi : ℕ) : Type 0 where
  pub same_length : length map' ≡ length map
  pub types : (i : ℕ) → lo ≤ i → i < hi → get_type (entry_at map' i) ≡ type_bits t
  pub refs : (i : ℕ) → lo ≤ i → i < hi → get_ref (entry_at map' i) ≡ get_ref (entry_at map i)
  pub outside : (i : ℕ) → (i < lo) ⊎ (hi ≤ i) → entry_at map' i ≡ entry_at map i

-- With a free slot of `map_sem`, `pmem_set_type` on a range of the map ends with the slot given
-- back: the range has the type, its counters and all other entries are as before.
pub pmem_set_type-Typed :
    (p : Pmem) (pfindex n : ℕ) (t : PmemType)
    → pfindex + n ≤ length p.map
    → 0 < p.slots
    → (map' : List ℕ) × (pmem_set_type pfindex n t p ≡ done (ok tt) (with_map p map'))
      × Typed t p.map map' pfindex (pfindex + n)
unfolding pmem_set_type
pmem_set_type-Typed p pfindex n t fits slot =
    let q : Pmem = record p { slots = p.slots - 1 } in
    let enter : (p.slots == 0) ≡ false = ne→== p.slots 0 (omega arith) in
    let u = each_frame-IsUpdated (λ m. set_type m t) n pfindex (pfindex + n) q refl fits in
    (
      u.0,
      rw (out_of_range_lem p pfindex n, le→ltb-false (length p.map) (pfindex + n) fits, enter, u.1)
          (slot_back (ok tt) p u.0 slot),
      record {
        same_length = u.2.same_length;
        types = λ i h k. rw (u.2.inside i h k) (set_type_lem (entry_at p.map i) t).1;
        refs = λ i h k. rw (u.2.inside i h k) (set_type_lem (entry_at p.map i) t).0;
        outside = u.2.outside;
      },
    )

-- The fresh map has only 8-bit entries, its semaphore has a slot, and no frame of it can be
-- allocated.
pub pmem_init-empty :
    (nframes i : ℕ)
    → (length (pmem_init nframes).map ≡ nframes)
      × ((pmem_init nframes).slots ≡ 1)
      × (entry_at (pmem_init nframes).map i ≡ 0)
      × (is_allocable (entry_at (pmem_init nframes).map i) ≡ false)
unfolding pmem_init is_allocable
pmem_init-empty nframes i = (
  length-replicate nframes 0,
  refl,
  get_or-replicate {A = ℕ} nframes i 0,
  rw (get_or-replicate {A = ℕ} nframes i 0),
)
