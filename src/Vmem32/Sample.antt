-- ===== src/Vmem32/Sample.antt =====
-- A small address space of src/kernel/bin/arch/i386/vmem_32.c with paging on.
use opsys.Base.{
  ℕ, ◌+◌, ◌*◌, ◌^◌, ◌<◌, ◌≡◌, refl, [], ◌∷◌, true, arith, some, ◌==◌, ◌&&◌, if◌then◌else◌,
}
use opsys.Page.{pte_get_pageframe_index}
use opsys.Paging.Machine.{Machine, frame_of, walk}
use opsys.Paging.Entry.{IsReady}
use opsys.Vmem32.Mapped.{IsPaged, IsFree, walk_found}
use opsys.Vmem32.Check.{IsUsable}
use opsys.Vmem32.Lookup.{IsMappable}

-- The page directory is in the frame 5, at the page 5; the tables of the first pages and of the
-- pages from 307200 on are in the frames 6 and 7.
abbrev pub words : ℕ → ℕ → ℕ
words f i =
    if f == 5 && i == 0
    then 6 * 2 ^ 12 + 3
    else (if f == 5 && i == 255
        then 1023 * 2 ^ 12 + 3
        else (if f == 5 && i == 300
            then 7 * 2 ^ 12 + 3
            else (if f == 6 && i == 1023
                then 1023 * 2 ^ 12 + 3
                else (if f == 6 && i == 5
                    then 5 * 2 ^ 12 + 3
                    else (if f == 7 && i == 3 then 2 * 2 ^ 12 + 3 else 0)))))

abbrev pub paged : Machine
paged = record {
  pmem = record { slots = 1; map = 0x41 ∷ 0x41 ∷ 0x41 ∷ 0x40 ∷ 0x40 ∷ 0x41 ∷ 0x41 ∷ 0x41 ∷ [] };
  word = words;
  cr3 = 5;
  paging = true;
  sem = λ v. 1;
  pd = λ v. 5;
}

pub paged-IsReady : IsReady paged
paged-IsReady = record { bytes = grind arith; slot = omega arith }

pub paged-IsPaged : IsPaged paged 6
paged-IsPaged = record {
  on = refl;
  directory_apart = omega arith;
  low_apart = omega arith;
  low_entry = refl;
  low_present = refl;
  self_entry = refl;
  self_present = refl;
  temp_entry = refl;
  temp_present = refl;
}

pub paged-IsFree : IsFree paged 0
unfolding pte_get_pageframe_index
paged-IsFree = record { fits = omega arith; free = refl; before = λ j h. absurd (omega arith) }

pub seven-IsMappable : IsMappable paged 7
seven-IsMappable = record {
  used = omega arith;
  below = omega arith;
  inside = omega arith;
  nonzero = omega arith;
  bits = omega arith;
}

pub directory : frame_of paged 5 ≡ some 5
unfolding frame_of walk
directory = refl

words_bits : (f j : ℕ) → words f j < 2 ^ 32
words_bits f j = ground arith

pub paged-IsUsable : IsUsable paged 6 0 5 5
unfolding frame_of walk
paged-IsUsable = record {
  paged = paged-IsPaged;
  free = paged-IsFree;
  ready = paged-IsReady;
  bits = words_bits;
  here = λ word' same.
      let a = same 5 0 (omega arith) in
      let b = same 6 5 (omega arith) in
      walk_found word' 5 5 0 5 6 5 refl refl (omega (arith, a)) (omega (arith, a))
        (omega (arith, b)) (omega (arith, b));
}
