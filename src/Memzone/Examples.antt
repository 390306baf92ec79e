-- ===== src/Memzone/Examples.antt =====
-- A zone of eight chunks of 16 bytes, with two bytes of flags.
use opsys.Base.{
  ℕ, zero, suc, ◌+◌, ◌*◌, ◌≤◌, ◌<◌, ◌≡◌, refl, arith, ◌⊎◌, inl, inr, true, false, some, List, [],
  ◌∷◌, length, ok, err, eagain,
}
use opsys.Bitset.{bitset_isset, bitset_setto, bitset_set, test_mask, bit_mask, or_mask}
use opsys.Bitset.Laws.{IsBytes}
use opsys.Memzone.{
  Memzone, memzone_search_unused, memzone_free, memzone_alloc, memzone_get_nchunks,
  memzone_find_unused, mark_inuse, memzone_address, chunk_size, logbase2, logbase2_from, new_zone,
  kmalloc, kfree, write_header, search_from, probe, memzone_get_flags, is_unused, memzone_add_flags,
  memzone_set_flags,
}
use opsys.Memzone.Heap.{kfree-kmalloc}
use opsys.Memzone.Marks.{memzone_free-mark_inuse, inuse_bit, SameBits}
use opsys.Memzone.Size.{new_zone_lem}
use opsys.Memzone.Unused.{memzone_search_unused_lem, UnusedBelow}
use opsys.Paging.Machine.{Machine, done}
use opsys.VmemArea.{kernel, vmem_area_get_by_name}

abbrev machine : Machine
machine = record {
  pmem = record { slots = 1; map = [] };
  word = λ f i. 0;
  cr3 = 0;
  paging = false;
  sem = λ v. 1;
  pd = λ v. 0;
}

-- All eight chunks are allocated and none is in use.
abbrev zone : Memzone
zone = record {
  flags = 0x55 ∷ 0x55 ∷ [];
  chunksize = 16;
  nchunks = 8;
  space = 1;
  areaname = kernel;
}

zone-IsBytes : IsBytes zone.flags
zone-IsBytes zero h = omega arith
zone-IsBytes (suc zero) h = omega arith
zone-IsBytes (suc (suc i)) h = absurd (omega arith)

memzone_search_unused_example :
    (memzone_search_unused false zone 3 ≡ some (err eagain))
    ⊎ ((chunk : ℕ) × (memzone_search_unused false zone 3 ≡ some (ok chunk))
        × (8 ≤ chunk + 3)
        × UnusedBelow zone.flags chunk)
memzone_search_unused_example =
    memzone_search_unused_lem false zone 3 (omega arith) (omega arith) (omega arith) (omega arith)

-- The search of three chunks stops at chunk 6, whose run ends behind the zone.
found_six : memzone_search_unused false zone 3 ≡ some (ok 6)
unfolding memzone_search_unused search_from probe memzone_get_flags bitset_isset is_unused test_mask
    bit_mask
found_six = refl

two_bits : (c : ℕ) → inuse_bit 6 2 c ≡ true → (c ≡ 13) ⊎ (c ≡ 15)
unfolding inuse_bit
two_bits c h = ground arith

clear : (c : ℕ) → inuse_bit 6 2 c ≡ true → bitset_isset zone.flags c ≡ some false
unfolding bitset_isset test_mask bit_mask
clear c h = elim (two_bits c h) [ inl e ↦ rw e refl | inr e ↦ rw e refl ]

memzone_free-mark_inuse_example :
    (marked : List ℕ) × (freed : List ℕ) × (twice : List ℕ) × (mark_inuse 2 6 zone.flags
      ≡ some marked)
    × (memzone_free 6 2 (record zone { flags = marked }) ≡ some (record zone { flags = freed }))
    × SameBits freed zone.flags
    × (memzone_free 6 2 zone ≡ some (record zone { flags = twice }))
    × SameBits twice marked
memzone_free-mark_inuse_example = memzone_free-mark_inuse zone 6 2 (omega arith) zone-IsBytes clear

many : 100 < (new_zone 1 kernel).nchunks
unfolding new_zone chunk_size logbase2 logbase2_from
many = omega arith

new_zone_example :
    let mz = new_zone 1 kernel in
    let area = vmem_area_get_by_name kernel in
    let taken = memzone_get_nchunks mz 70 * mz.chunksize in
    (2 * 100 + 1 < 8 * length mz.flags)
    × (memzone_address mz 100 ≡ area.pgindex * 4096 + 100 * mz.chunksize)
    × (memzone_address mz 100 + mz.chunksize ≤ (area.pgindex + area.npages) * 4096)
    × (70 ≤ taken)
    × (taken < 70 + mz.chunksize)
new_zone_example = new_zone_lem 1 kernel 100 70 many

-- The zone with its last chunk in use.
abbrev taken : Memzone
taken = record zone { flags = 0x55 ∷ 0xd5 ∷ [] }

got_last :
    memzone_alloc false zone (memzone_get_nchunks zone (8 + 8)) machine ≡ done (ok 7, taken) machine
unfolding memzone_alloc memzone_find_unused memzone_search_unused search_from memzone_get_nchunks
    probe memzone_get_flags bitset_isset is_unused test_mask bit_mask mark_inuse memzone_add_flags
    memzone_set_flags bitset_setto bitset_set or_mask
got_last = refl

kfree-kmalloc_example :
    let heap' = write_header (memzone_address taken 7) 7 8 (λ a. 0) in
    (kmalloc false 8 zone (λ a. 0) machine
      ≡ done (memzone_address taken 7 + 8, taken, heap') machine)
    × (kfree (memzone_address taken 7 + 8) taken heap'
        ≡ memzone_free 7 (memzone_get_nchunks taken 8) taken)
kfree-kmalloc_example =
    kfree-kmalloc false 8 7 zone taken (λ a. 0) machine machine (omega arith) (omega arith) got_last
