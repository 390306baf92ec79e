-- ===== src/Elf.antt =====
-- Loading of ELF images: src/kernel/bin/elfldr.c, elf.h and loader.c. The image is read from the
-- memory of the calling task, which is opsys.Libc's memory of bytes; the address space that is
-- filled is one of opsys.Vmem. An address space is given by its address.
pub mod Exec
mod Examples
use Prim.Native.Nat.{Ordering}
use opsys.Base.{
  ℕ, zero, suc, ◌+◌, ◌-◌, ◌*◌, ◌%◌, ◌^◌, Bool, true, false, ◌&&◌, not, ◌==◌, ltb, if◌then◌else◌,
  Result, ok, err, einval, enoexec,
}
use opsys.Libc.{Mem, memcmp, memset}
use opsys.Page.{page_index, page_count, pageframe_index}
use opsys.Paging.Machine.{M, Run, pure, out_of_fuel, ◌>>=◌}
use opsys.Ram.{load8, load16, load32}
use opsys.Vmem.{vmem_alloc_frames}

-- PRESENT, WRITEABLE and USERMODE.
abbrev pub pteflags_user : ℕ
pteflags_user = 7

abbrev pub pt_null : ℕ
pt_null = 0

abbrev pub pt_load : ℕ
pt_load = 1

-- The fields of `Elf32_Phdr` that are read.
pub record Phdr : Type 0 where
  pub p_type : ℕ
  pub p_offset : ℕ
  pub p_vaddr : ℕ
  pub p_filesz : ℕ
  pub p_memsz : ℕ

unfoldable pub phdr_at : Mem → ℕ → Phdr
phdr_at mem a = record {
  p_type = load32 mem a;
  p_offset = load32 mem (a + 4);
  p_vaddr = load32 mem (a + 8);
  p_filesz = load32 mem (a + 16);
  p_memsz = load32 mem (a + 20);
}

-- The fields of `Elf32_Ehdr` that are read.
abbrev pub e_type : Mem → ℕ → ℕ
e_type mem img = load16 mem (img + 16)

abbrev pub e_machine : Mem → ℕ → ℕ
e_machine mem img = load16 mem (img + 18)

abbrev pub e_version : Mem → ℕ → ℕ
e_version mem img = load32 mem (img + 20)

abbrev pub e_entry : Mem → ℕ → ℕ
e_entry mem img = load32 mem (img + 24)

abbrev pub e_phoff : Mem → ℕ → ℕ
e_phoff mem img = load32 mem (img + 28)

abbrev pub e_phentsize : Mem → ℕ → ℕ
e_phentsize mem img = load16 mem (img + 42)

abbrev pub e_phnum : Mem → ℕ → ℕ
e_phnum mem img = load16 mem (img + 44)

-- `ident` is the address of the four bytes of the magic number.
unfoldable pub elf_loader_is_elf : ℕ → ℕ → Mem → Bool
elf_loader_is_elf ident img mem = elim (memcmp mem img ident 4) [ Ordering.eq ↦ true | _ ↦ false ]

-- The sanity checks of `elf_loader_exec`.
unfoldable pub is_executable : ℕ → ℕ → Mem → Bool
is_executable ident img mem =
    elf_loader_is_elf ident img mem
    && (load8 mem (img + 4) == 1
        && (load8 mem (img + 5) == 1
            && (load8 mem (img + 6) == 1
                && (e_type mem img == 2
                    && (e_machine mem img == 3
                        && (e_version mem img == 1
                            && (not (e_entry mem img == 0) && not (e_phoff mem img == 0))))))))

-- What follows the mapping of a segment's pages: the bytes behind them are cleared, up to the size
-- of the segment in memory. The memory that is cleared is the caller's.
unfoldable pub clear_rest : Phdr → Mem → Result (Unit {0}) → M (Result (Unit {0}) × Mem)
clear_rest phdr mem (err e) = pure (err e, mem)
clear_rest phdr mem (ok u) = pure (
  ok tt,
  (if ltb phdr.p_filesz phdr.p_memsz
      then memset ((phdr.p_vaddr + phdr.p_filesz) % 2 ^ 32) 0 (phdr.p_memsz - phdr.p_filesz) mem
      else mem),
)

unfoldable pub elf_loader_construct_phdr_load : ℕ → ℕ → Phdr → Mem → M (Result (Unit {0}) × Mem)
elf_loader_construct_phdr_load dst img phdr mem =
    vmem_alloc_frames dst (pageframe_index ((phdr.p_offset + img) % 2 ^ 32))
      (page_index phdr.p_vaddr) (page_count phdr.p_vaddr phdr.p_filesz) pteflags_user
    >>= clear_rest phdr mem

-- Segments of a type other than PT_NULL and PT_LOAD are skipped, as PT_NULL is.
unfoldable pub elf_loader_construct_phdr : ℕ → ℕ → Phdr → Mem → M (Result (Unit {0}) × Mem)
elf_loader_construct_phdr dst img phdr mem =
    if phdr.p_type == pt_load
    then elf_loader_construct_phdr_load dst img phdr mem
    else pure (ok tt, mem)

abbrev pub phdr_address : Mem → ℕ → ℕ → ℕ
phdr_address mem img i = (img + e_phoff mem img + e_phentsize mem img * i) % 2 ^ 32

-- The loop over the program headers, on fuel: the number of headers is read in every round. The
-- rest of the loop runs after a header that was loaded without an error.
abbrev pub if_loaded :
    (Mem → M (Result (Unit {0}) × Mem)) → Result (Unit {0}) × Mem → M (Result (Unit {0}) × Mem)
if_loaded rest (err e, mem) = pure (err e, mem)
if_loaded rest (ok u, mem) = rest mem

unfoldable pub construct_from : ℕ → ℕ → ℕ → ℕ → Mem → M (Result (Unit {0}) × Mem)
construct_from zero dst img i mem = λ m. out_of_fuel
construct_from (suc fuel) dst img i mem =
    if ltb i (e_phnum mem img)
    then (elf_loader_construct_phdr dst img (phdr_at mem (phdr_address mem img i)) mem
        >>= if_loaded (construct_from fuel dst img (i + 1)))
    else pure (ok tt, mem)

-- One round more than a number of 16 bits counts.
abbrev pub exec_fuel : ℕ
exec_fuel = 2 ^ 16

-- The entry address, which is stored at `*ip`, or the error.
abbrev pub entry_of : ℕ → Result (Unit {0}) × Mem → M (Result ℕ × Mem)
entry_of img (err e, mem) = pure (err e, mem)
entry_of img (ok u, mem) = pure (ok (e_entry mem img), mem)

unfoldable pub elf_loader_exec : ℕ → ℕ → ℕ → Mem → M (Result ℕ × Mem)
elf_loader_exec ident dst img mem =
    if is_executable ident img mem
    then (construct_from exec_fuel dst img 0 mem >>= entry_of img)
    else pure (err enoexec, mem)

unfoldable pub loader_exec : ℕ → ℕ → ℕ → Mem → M (Result ℕ × Mem)
loader_exec ident dst img mem =
    if elf_loader_is_elf ident img mem
    then elf_loader_exec ident dst img mem
    else pure (err einval, mem)
