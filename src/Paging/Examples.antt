-- ===== src/Paging/Examples.antt =====
-- The theorems on page tables at a machine before paging, with an empty table in the frame 3.
use opsys.Base.{ℕ, zero, suc, ◌≡◌, refl, ◌⊎◌, [], ◌∷◌, false, some, err, Errno, arith}
use opsys.Page.{pte_create, pte_get_pageframe_index}
use opsys.Pmem.{done}
use opsys.Pmem.Single.{hits}
use opsys.Paging.{page_table_map_page_frame, page_table_map_page_frames}
use opsys.Paging.Machine.{Machine, done, frame_of}
use opsys.Paging.Entry.{IsReady, Written, page_table_map_page_frame_lem}
use opsys.Paging.Balance.{Backed, refs}
use opsys.Paging.Frames.{Pinned, Kept, page_table_map_page_frames-Kept}

-- The frames 1, 2 and 3 are in use.
abbrev flat : Machine
flat = record {
  pmem = record { slots = 1; map = 0x40 ∷ 0x41 ∷ 0x41 ∷ 0x41 ∷ [] };
  word = λ f i. 0;
  cr3 = 0;
  paging = false;
  sem = λ v. 1;
  pd = λ v. 0;
}

flat-IsReady : IsReady flat
flat-IsReady = record { bytes = grind arith; slot = omega arith }

flat_frame : (pg : ℕ) → frame_of flat pg ≡ some pg
unfolding frame_of
flat_frame pg = refl

flat-Pinned : Pinned flat 3 3
unfolding frame_of
flat-Pinned word' same = refl

empty_refs : (n i : ℕ) → refs flat.word 3 n i ≡ 0
unfolding refs pte_get_pageframe_index
empty_refs zero i = refl
empty_refs (suc n) i = omega (arith, empty_refs n i)

flat-Backed : Backed flat 3
flat-Backed i = omega (arith, empty_refs 1024 i)

page_table_map_page_frame_example :
    Written flat 3 7 (pte_create 1 3) (hits 1) (page_table_map_page_frame 3 1 7 3 flat)
    ⊎ ((e : Errno) × (page_table_map_page_frame 3 1 7 3 flat ≡ done (err e) flat))
page_table_map_page_frame_example =
    page_table_map_page_frame_lem flat 3 3 (flat_frame 3) 7 (omega arith) flat-IsReady 1 3

page_table_map_page_frames-Kept_example : Kept flat 3 (page_table_map_page_frames 3 1 1022 2 3 flat)
page_table_map_page_frames-Kept_example =
    page_table_map_page_frames-Kept 2 3 3 1 1022 3 flat flat-Pinned flat-IsReady flat-Backed
      (omega arith) (omega arith) (omega arith)
