-- ===== src/Pmem/Examples.antt =====
-- The theorems on pmem.c at small maps, and a run of the code.
use opsys.Base.{ℕ, ◌+◌, ◌≡◌, refl, ◌⊎◌, List, [], ◌∷◌, ok, arith, ◌≤◌}
use opsys.Pmem.{
  Pmem, done, pmem_alloc_frames, pmem_claim_frames, pmem_ref_frames, pmem_unref_frames, each_frame,
  read, write, alloc_loop, alloc_frame_range, ref_frame_range, find_allocable_frame,
  find_non_allocable_frame, out_of_range, checked_range, try_frames, check_claim,
}
use opsys.Pmem.Frame.{is_allocable, ref_frame, checked_ref_frame}
use opsys.Pmem.Loops.{with_map}
use opsys.Pmem.Alloc.{Allocated, Exhausted, pmem_alloc_frames_lem}
use opsys.Pmem.Refs.{
  IsBytes, ClaimFault, RefFault, ClaimFit, RefFit, Succeeds, Refused, Outside, Released,
  pmem_claim_frames_lem, pmem_ref_frames_lem, pmem_unref_frames_lem,
}
use opsys.Pmem.Lifetime.{unref-claim, unref-alloc, alloc_disjoint}

-- Frame 2 belongs to the system, frame 4 is in use and the counter of frame 5 is full.
abbrev small : Pmem
small = record { slots = 1; map = 0x40 ∷ 0x40 ∷ 0x80 ∷ 0x40 ∷ 0x41 ∷ 0x7f ∷ 0x40 ∷ 0x40 ∷ [] }

abbrev full : Pmem
full = record { slots = 1; map = 0x40 ∷ 0x80 ∷ 0x41 ∷ [] }

small-IsBytes : IsBytes small.map
small-IsBytes = grind arith

abbrev after_two : Pmem
after_two = record { slots = 1; map = 0x40 ∷ 0x40 ∷ 0x80 ∷ 0x40 ∷ 0x41 ∷ 0x7f ∷ 0x41 ∷ 0x41 ∷ [] }

abbrev after_three : Pmem
after_three = record { slots = 1; map = 0x40 ∷ 0x41 ∷ 0x80 ∷ 0x40 ∷ 0x41 ∷ 0x7f ∷ 0x41 ∷ 0x41 ∷ [] }

abbrev claimed : Pmem
claimed = record { slots = 1; map = 0x40 ∷ 0x40 ∷ 0x81 ∷ 0x41 ∷ 0x42 ∷ 0x7f ∷ 0x40 ∷ 0x40 ∷ [] }

alloc_two : pmem_alloc_frames 2 small ≡ done 6 after_two
unfolding pmem_alloc_frames alloc_loop alloc_frame_range ref_frame_range find_allocable_frame
    find_non_allocable_frame each_frame read write is_allocable ref_frame
alloc_two = refl

alloc_one : pmem_alloc_frames 1 after_two ≡ done 1 after_three
unfolding pmem_alloc_frames alloc_loop alloc_frame_range ref_frame_range find_allocable_frame
    find_non_allocable_frame each_frame read write is_allocable ref_frame
alloc_one = refl

claim_three : pmem_claim_frames 2 3 small ≡ done (ok tt) claimed
unfolding pmem_claim_frames checked_range out_of_range try_frames check_claim checked_ref_frame read
    write
claim_three = refl

pmem_alloc_frames_example :
    Allocated small 1 2 (pmem_alloc_frames 2 small)
    ⊎ Exhausted small 1 2 (pmem_alloc_frames 2 small)
pmem_alloc_frames_example = pmem_alloc_frames_lem small 2 (omega arith) (omega arith)

pmem_claim_frames_example :
    Succeeds ClaimFit small 2 3 (pmem_claim_frames 2 3 small)
    ⊎ (Refused ClaimFault small 2 3 (pmem_claim_frames 2 3 small)
        ⊎ Outside small 2 3 (pmem_claim_frames 2 3 small))
pmem_claim_frames_example = pmem_claim_frames_lem small 2 3 small-IsBytes (omega arith)

pmem_ref_frames_example :
    Succeeds RefFit small 4 1 (pmem_ref_frames 4 1 small)
    ⊎ (Refused RefFault small 4 1 (pmem_ref_frames 4 1 small)
        ⊎ Outside small 4 1 (pmem_ref_frames 4 1 small))
pmem_ref_frames_example = pmem_ref_frames_lem small 4 1 small-IsBytes (omega arith)

pmem_unref_frames_example :
    (map' : List ℕ) × (pmem_unref_frames 3 2 small ≡ done tt (with_map small map'))
    × Released small.map map' 3 5
pmem_unref_frames_example =
    pmem_unref_frames_lem small 3 2 (omega arith) small-IsBytes (omega arith)

unref-claim_example : pmem_unref_frames 2 3 claimed ≡ done tt small
unref-claim_example = unref-claim small claimed 2 3 small-IsBytes (omega arith) claim_three

unref-alloc_example : pmem_unref_frames 6 2 after_two ≡ done tt small
unref-alloc_example =
    unref-alloc small after_two 2 6 (omega arith) small-IsBytes (omega arith) alloc_two
      (omega arith)

alloc_disjoint_example : (6 + 2 ≤ 1) ⊎ (1 + 1 ≤ 6)
alloc_disjoint_example =
    alloc_disjoint small after_two after_three 2 1 6 1 (omega arith) (omega arith) small-IsBytes
      (omega arith) alloc_two (omega arith) alloc_one (omega arith)
