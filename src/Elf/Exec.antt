-- ===== src/Elf/Exec.antt =====
-- What loading an image does, as a run over the list of its program headers.
use opsys.Base.{
  ℕ, zero, suc, ◌+◌, ◌%◌, ◌^◌, ◌<◌, ◌≡◌, refl, arith, ◌==◌, ltb, lt→ltb, le→ltb-false, true, false,
  Bool-cases, inl, inr, if◌then◌else◌, List, [], ◌∷◌, Result, ok, err,
}
use opsys.Elf.{
  Phdr, phdr_at, phdr_address, e_phnum, pt_load, pteflags_user, is_executable,
  elf_loader_construct_phdr, elf_loader_construct_phdr_load, construct_from, exec_fuel,
  elf_loader_exec, elf_loader_is_elf, loader_exec, clear_rest, if_loaded, entry_of,
}
use opsys.Libc.{Mem}
use opsys.Page.{page_index, page_count, pageframe_index}
use opsys.Paging.Machine.{M, Machine, Run, done, fault, blocked, out_of_fuel, pure, and_then, ◌>>=◌}
use opsys.Ram.{load16, load8}
use opsys.Vmem.{vmem_alloc_frames}

-- The `n` program headers of the image from the index `i` on.
unfoldable pub headers : Mem → ℕ → ℕ → ℕ → List Phdr
headers mem img zero i = []
headers mem img (suc n) i = phdr_at mem (phdr_address mem img i) ∷ headers mem img n (i + 1)

-- No header is a segment that is larger in memory than in the image.
unfoldable pub NoBss : List Phdr → Type 0
NoBss [] = Unit {0}
NoBss (p ∷ ps) = (ltb p.p_filesz p.p_memsz ≡ false) × NoBss ps

-- The pages of each segment of the type PT_LOAD are mapped in turn, up to the first error.
abbrev if_mapped : M (Result (Unit {0})) → Result (Unit {0}) → M (Result (Unit {0}))
if_mapped rest (err e) = pure (err e)
if_mapped rest (ok u) = rest

unfoldable pub map_segments : ℕ → ℕ → List Phdr → M (Result (Unit {0}))
map_segments dst img [] = pure (ok tt)
map_segments dst img (p ∷ ps) =
    let rest = map_segments dst img ps in
    if p.p_type == pt_load
    then (vmem_alloc_frames dst (pageframe_index ((p.p_offset + img) % 2 ^ 32))
          (page_index p.p_vaddr) (page_count p.p_vaddr p.p_filesz) pteflags_user
        >>= if_mapped rest)
    else rest

module _ (mem : Mem) where
  with_mem : Run (Result (Unit {0})) → Run (Result (Unit {0}) × Mem)
  with_mem r = and_then r λ x. pure (x, mem)

  -- The rest of both runs, after the pages of a segment were mapped or not.
  mapped_lem :
      (p : Phdr) (k : Mem → M (Result (Unit {0}) × Mem)) (rest : M (Result (Unit {0})))
      → ltb p.p_filesz p.p_memsz ≡ false
      → ((m : Machine) → k mem m ≡ with_mem (rest m))
      → (r : Run (Result (Unit {0})))
      → and_then (and_then r (clear_rest p mem)) (if_loaded k)
        ≡ with_mem (and_then r (if_mapped rest))
  unfolding clear_rest with_mem
  mapped_lem p k rest plain same (done (ok u) m) = rw plain (same m)
  mapped_lem p k rest plain same (done (err e) m) = refl
  mapped_lem p k rest plain same fault = refl
  mapped_lem p k rest plain same blocked = refl
  mapped_lem p k rest plain same out_of_fuel = refl

  segment_lem :
      (dst img : ℕ) (p : Phdr) (ps : List Phdr) (k : Mem → M (Result (Unit {0}) × Mem))
      → ltb p.p_filesz p.p_memsz ≡ false
      → ((m : Machine) → k mem m ≡ with_mem (map_segments dst img ps m))
      → (m : Machine)
      → and_then (elf_loader_construct_phdr dst img p mem m) (if_loaded k)
        ≡ with_mem (map_segments dst img (p ∷ ps) m)
  unfolding elf_loader_construct_phdr elf_loader_construct_phdr_load map_segments with_mem
  segment_lem dst img p ps k plain same m = elim (Bool-cases (p.p_type == pt_load)) [
    | inl load ↦ rw load (mapped_lem p k (map_segments dst img ps) plain same _)
    | inr skip ↦ rw skip (same m)
  ]

  construct_from_lem :
      (fuel dst img i n : ℕ)
      → i + n ≡ e_phnum mem img
      → n < fuel
      → NoBss (headers mem img n i)
      → (m : Machine)
      → construct_from fuel dst img i mem m
        ≡ with_mem (map_segments dst img (headers mem img n i) m)
  unfolding construct_from headers NoBss
  construct_from_lem zero dst img i n e enough plain m = absurd (omega arith)
  construct_from_lem (suc fuel) dst img i zero e enough plain m =
      rw (le→ltb-false i (e_phnum mem img) (omega arith)) (unfold map_segments with_mem in refl)
  construct_from_lem (suc fuel) dst img i (suc n) e enough plain m =
      rw (lt→ltb i (e_phnum mem img) (omega arith)) (
        segment_lem dst img _ (headers mem img n (i + 1)) (construct_from fuel dst img (i + 1))
          plain.0 (construct_from_lem fuel dst img (i + 1) n (omega arith) (omega arith) plain.1) m)

  phnum_small : (img : ℕ) → e_phnum mem img < 2 ^ 16
  unfolding load16 load8
  phnum_small img = omega arith

with_entry :
    (img : ℕ) (mem : Mem) (r : Run (Result (Unit {0})))
    → and_then (with_mem mem r) (entry_of img) ≡ and_then r (λ x. entry_of img (x, mem))
unfolding with_mem
with_entry img mem (done (ok u) m) = refl
with_entry img mem (done (err e) m) = refl
with_entry img mem fault = refl
with_entry img mem blocked = refl
with_entry img mem out_of_fuel = refl

is_elf-is_executable :
    (ident img : ℕ) (mem : Mem)
    → is_executable ident img mem ≡ true
    → elf_loader_is_elf ident img mem ≡ true
unfolding is_executable
is_elf-is_executable ident img mem valid = elim (Bool-cases (elf_loader_is_elf ident img mem)) [
  | inl e ↦ e
  | inr other ↦ absurd (cc (rw other at valid))
]

-- For an image that passes the checks and has no segment that is larger in memory than in the
-- image, `loader_exec`, with the fuel that the model gives the loop, does what mapping the pages of
-- its PT_LOAD segments in the order of the program headers does, up to the first error; it returns
-- that error, or the entry address of the image, and changes no byte of the caller's memory.
pub loader_exec-map_segments :
    (ident dst img : ℕ) (mem : Mem) (m : Machine)
    → is_executable ident img mem ≡ true
    → NoBss (headers mem img (e_phnum mem img) 0)
    → loader_exec ident dst img mem m
      ≡ and_then
          (map_segments dst img (headers mem img (e_phnum mem img) 0) m)
          (λ r. entry_of img (r, mem))
unfolding loader_exec elf_loader_exec
loader_exec-map_segments ident dst img mem m valid plain =
    let loop =
      construct_from_lem mem exec_fuel dst img 0 (e_phnum mem img) (omega arith)
        (omega (arith, phnum_small mem img)) plain m in
    rw (is_elf-is_executable ident img mem valid)
      (rw valid (rw loop (with_entry img mem (map_segments dst img _ m))))
