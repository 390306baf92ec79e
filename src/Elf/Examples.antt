-- ===== src/Elf/Examples.antt =====
-- An image of one PT_LOAD segment of four bytes, at address 0; the bytes of the segment are those of
-- the magic number, and stand at address 84.
use opsys.Base.{ℕ, ◌≡◌, refl, true, false, List, [], ◌∷◌, get_or}
use opsys.Elf.{is_executable, elf_loader_is_elf, loader_exec, entry_of, e_phnum, phdr_at}
use opsys.Elf.Exec.{NoBss, headers, map_segments, loader_exec-map_segments}
use opsys.Libc.{Mem, memcmp, memcmp_loop}
use opsys.Paging.Machine.{Machine, and_then}
use opsys.Ram.{load8, load16, load32}

abbrev image : List ℕ
image =
    127 ∷ 69 ∷ 76 ∷ 70 ∷ 1 ∷ 1 ∷ 1 ∷ 0 ∷ 0 ∷ 0 ∷ 0 ∷ 0 ∷ 0 ∷ 0 ∷ 0 ∷ 0 ∷ 2 ∷ 0 ∷ 3 ∷ 0 ∷ 1 ∷ 0 ∷ 0
    ∷ 0 ∷ 0 ∷ 16 ∷ 0 ∷ 0 ∷ 52 ∷ 0 ∷ 0 ∷ 0 ∷ 0 ∷ 0 ∷ 0 ∷ 0 ∷ 0 ∷ 0 ∷ 0 ∷ 0 ∷ 52 ∷ 0 ∷ 32 ∷ 0 ∷ 1 ∷ 0
    ∷ 0 ∷ 0 ∷ 0 ∷ 0 ∷ 0 ∷ 0 ∷ 1 ∷ 0 ∷ 0 ∷ 0 ∷ 84 ∷ 0 ∷ 0 ∷ 0 ∷ 0 ∷ 16 ∷ 0 ∷ 0 ∷ 0 ∷ 0 ∷ 0 ∷ 0 ∷ 4
    ∷ 0 ∷ 0 ∷ 0 ∷ 4 ∷ 0 ∷ 0 ∷ 0 ∷ 5 ∷ 0 ∷ 0 ∷ 0 ∷ 0 ∷ 16 ∷ 0 ∷ 0 ∷ 127 ∷ 69 ∷ 76 ∷ 70 ∷ []

abbrev mem : Mem
mem a = get_or image a 0

abbrev machine : Machine
machine = record {
  pmem = record { slots = 1; map = [] };
  word = λ f i. 0;
  cr3 = 0;
  paging = false;
  sem = λ v. 1;
  pd = λ v. 0;
}

valid : is_executable 84 0 mem ≡ true
unfolding is_executable elf_loader_is_elf memcmp memcmp_loop load8 load16 load32
valid = refl

plain : NoBss (headers mem 0 (e_phnum mem 0) 0)
unfolding NoBss headers phdr_at load8 load16 load32
plain = (refl, tt)

loader_exec-map_segments_example :
    loader_exec 84 1 0 mem machine
    ≡ and_then
        (map_segments 1 0 (headers mem 0 (e_phnum mem 0) 0) machine)
        (λ r. entry_of 0 (r, mem))
loader_exec-map_segments_example = loader_exec-map_segments 84 1 0 mem machine valid plain
