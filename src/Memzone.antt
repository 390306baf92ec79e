-- ===== src/Memzone.antt =====
-- Memory zones and the kernel's allocator: src/kernel/bin/memzone.c, memzone.h and alloc.c.
-- A chunk has two bits in the zone's bit set. The pages come from the address space in the machine
-- of opsys.Paging.Machine; an access behind the end of the bit set is a fault. The allocator writes
-- two words in front of a piece of memory, which here is opsys.Libc's memory of bytes; its pages are
-- mapped, as the zone has them allocated. Console output is left out.
pub mod Flags
pub mod Heap
pub mod Marks
pub mod Size
pub mod Unused
mod Examples
use mathlib.Core.Option
use opsys.Base.{
  ℕ, zero, suc, ◌+◌, ◌-◌, ◌*◌, ◌/◌, ◌%◌, ◌^◌, Bool, true, false, not, ◌&&◌, Option, none, some,
  ◌==◌, ltb, if◌then◌else◌, List, [], ◌∷◌, replicate, bit_and, bit_or, bit_xor, Result, ok, err,
  eagain,
}
use opsys.Base.Partial.{◌>>=◌}
use opsys.Bitset.{bitset_setto, bitset_isset}
use opsys.Libc.{Mem, memset}
use opsys.Page.{page_count, page_memory, page_address, present_writeable}
use opsys.Paging.Machine.{M, Machine, Run, done, fault, blocked, out_of_fuel}
use opsys.Ram.{load32, store32}
use opsys.Vmem.{vmem_alloc_pages_in_area}
use opsys.VmemArea.{VmemAreaName, kernel, vmem_area_get_by_name}

abbrev pub flag_alloced : ℕ
flag_alloced = 1

abbrev pub flag_inuse : ℕ
flag_inuse = 2

abbrev pub page_size : ℕ
page_size = 4096

abbrev pub bits_per_largepage : ℕ
bits_per_largepage = page_size * 1024 * 8

abbrev pub bits_per_page : ℕ
bits_per_page = 2

-- `flagslen` is the length of `flags`. `space` is the address of the address space.
pub record Memzone : Type 0 where
  pub flags : List ℕ
  pub chunksize : ℕ
  pub nchunks : ℕ
  pub space : ℕ
  pub areaname : VmemAreaName

-- The loop of `logbase2` from `lgv` on; `lgv` and the result are one more than in the source, where
-- they begin at -1. Each round halves `v`, so that 32 rounds are enough for 32 bits.
unfoldable pub logbase2_from : ℕ → ℕ → ℕ → ℕ
logbase2_from zero v lgv = lgv
logbase2_from (suc fuel) v lgv =
    let rest = logbase2_from fuel (v / 2) (lgv + 1) in if v == 0 then lgv else rest

unfoldable pub logbase2 : ℕ → ℕ
logbase2 v = logbase2_from 32 v 0

abbrev pub flag_of : Bool → ℕ → ℕ
flag_of b flag = if b then flag else 0

unfoldable pub memzone_get_flags : List ℕ → ℕ → Option ℕ
memzone_get_flags flags i = bitset_isset flags (2 * i) >>= λ low.
    bitset_isset flags (2 * i + 1) >>= λ high. some (bit_or (flag_of low 1) (flag_of high 1 * 2))

unfoldable pub memzone_set_flags : ℕ → ℕ → List ℕ → Option (List ℕ)
memzone_set_flags i value flags = bitset_setto flags (2 * i) (bit_and value 1) >>= λ flags'.
    bitset_setto flags' (2 * i + 1) (bit_and value 2)

unfoldable pub memzone_add_flags : ℕ → ℕ → List ℕ → Option (List ℕ)
memzone_add_flags i value flags =
    memzone_get_flags flags i >>= λ old. memzone_set_flags i (bit_or old value) flags

unfoldable pub memzone_del_flags : ℕ → ℕ → List ℕ → Option (List ℕ)
memzone_del_flags i value flags =
    memzone_get_flags flags i >>= λ old. memzone_set_flags i (bit_xor old value) flags

-- The test of the inner loop of the search.
unfoldable pub is_unused : ℕ → Bool
is_unused flags = not (bit_and flags flag_alloced == 0) && (bit_and flags flag_inuse == 0)

-- The inner loop from chunk `chunk + j` on, with `left` more rounds allowed: whether the last chunk
-- was free to use, and the number of chunks that it read.
unfoldable pub probe : List ℕ → ℕ → ℕ → ℕ → Option (Bool × ℕ)
probe flags zero chunk j = memzone_get_flags flags (chunk + j) >>= λ f. some (is_unused f, j + 1)
probe flags (suc left) chunk j =
    let rest = probe flags left chunk (j + 1) in
    memzone_get_flags flags (chunk + j) >>= λ f. if is_unused f then rest else some (false, j + 1)

-- The outer loop, on fuel, from `chunk` on up to `limit`. `avail` is the variable of that name,
-- which the loop leaves as it was if it has no round.
unfoldable pub search_from : List ℕ → ℕ → ℕ → ℕ → ℕ → Bool → Option (Bool × ℕ)
search_from flags zero nchunks limit chunk avail = none
search_from flags (suc fuel) nchunks limit chunk avail =
    if ltb chunk limit
    then (probe flags (nchunks - 1) chunk 0 >>= λ r.
        let rest = search_from flags fuel nchunks limit (chunk + r.1) r.0 in
        if r.0 then rest else some (false, chunk))
    else some (avail, chunk)

-- `mz->nchunks - nchunks`, on `size_t`.
abbrev pub search_limit : Memzone → ℕ → ℕ
search_limit mz nchunks = (mz.nchunks + 2 ^ 32 - nchunks) % 2 ^ 32

-- `garbage` is what the variable `avail` holds before it is set. The fuel is one round more than
-- there are chunks.
unfoldable pub memzone_search_unused : Bool → Memzone → ℕ → Option (Result ℕ)
memzone_search_unused garbage mz nchunks =
    let limit = search_limit mz nchunks in
    search_from mz.flags (suc limit) nchunks limit 0 garbage >>= λ r.
    some (if r.0 then ok r.1 else err eagain)

-- The loop that marks the chunks of new pages: its index does not change.
unfoldable pub mark_alloced : ℕ → ℕ → List ℕ → Option (List ℕ)
mark_alloced zero i flags = some flags
mark_alloced (suc left) i flags = memzone_set_flags i flag_alloced flags >>= mark_alloced left i

-- A step on the bit set, on the machine of the address spaces.
abbrev pub in_zone : {A : Type 0} → Option A → M A
in_zone (some a) m = done a m
in_zone none m = fault

abbrev pub first_chunk : Memzone → ℕ → ℕ
first_chunk mz pgindex =
    page_memory (pgindex - (vmem_area_get_by_name mz.areaname).pgindex) / mz.chunksize

-- Takes pages for the chunks: the part of `memzone_find_unused` where the search fails.
unfoldable pub grow : Memzone → ℕ → M (Result ℕ × Memzone)
grow mz nchunks m0 =
    let pgcount = page_count 0 (nchunks * mz.chunksize % 2 ^ 32) in
    elim (vmem_alloc_pages_in_area mz.space mz.areaname pgcount present_writeable m0) [
      | done (err e) m ↦ done (err e, mz) m
      | done (ok pgindex) m ↦
          in_zone
            (mark_alloced (pgcount / mz.chunksize) (first_chunk mz pgindex) mz.flags >>= λ flags.
              some (ok (first_chunk mz pgindex), record mz { flags = flags }))
            m
      | fault ↦ fault
      | blocked ↦ blocked
      | out_of_fuel ↦ out_of_fuel
    ]

unfoldable pub memzone_find_unused : Bool → Memzone → ℕ → M (Result ℕ × Memzone)
memzone_find_unused garbage mz nchunks m = elim (memzone_search_unused garbage mz nchunks) [
  | none ↦ fault
  | some (ok chunk) ↦ done (ok chunk, mz) m
  | some (err e) ↦ grow mz nchunks m
]

unfoldable pub memzone_get_nchunks : Memzone → ℕ → ℕ
memzone_get_nchunks mz nbytes = if nbytes == 0 then 0 else 1 + (nbytes - 1) / mz.chunksize

-- The loops of `memzone_alloc` and of `memzone_free`.
unfoldable pub mark_inuse : ℕ → ℕ → List ℕ → Option (List ℕ)
mark_inuse zero chunk flags = some flags
mark_inuse (suc left) chunk flags =
    memzone_add_flags chunk flag_inuse flags >>= mark_inuse left (chunk + 1)

unfoldable pub unmark_inuse : ℕ → ℕ → List ℕ → Option (List ℕ)
unmark_inuse zero chunk flags = some flags
unmark_inuse (suc left) chunk flags =
    memzone_del_flags chunk flag_inuse flags >>= unmark_inuse left (chunk + 1)

unfoldable pub memzone_alloc : Bool → Memzone → ℕ → M (Result ℕ × Memzone)
memzone_alloc garbage mz nchunks m0 = elim (memzone_find_unused garbage mz nchunks m0) [
  | done (err e, mz') m ↦ done (err e, mz') m
  | done (ok chunk, mz') m ↦
      in_zone
        (mark_inuse nchunks chunk mz'.flags >>= λ flags.
          some (ok chunk, record mz' { flags = flags }))
        m
  | fault ↦ fault
  | blocked ↦ blocked
  | out_of_fuel ↦ out_of_fuel
]

unfoldable pub memzone_free : ℕ → ℕ → Memzone → Option Memzone
memzone_free mzoff nchunks mz =
    unmark_inuse nchunks mzoff mz.flags >>= λ flags. some (record mz { flags = flags })

unfoldable pub memzone_address : Memzone → ℕ → ℕ
memzone_address mz chunk =
    (page_address (vmem_area_get_by_name mz.areaname).pgindex + chunk * mz.chunksize) % 2 ^ 32

-- The number of chunks that the bits of one large page describe.
abbrev pub max_chunks : ℕ
max_chunks = bits_per_largepage / bits_per_page

-- The size of a chunk for an area of `memsz` bytes.
unfoldable pub chunk_size : ℕ → ℕ
chunk_size memsz = 2 ^ logbase2 (memsz / max_chunks)

-- The flags after `memset`.
unfoldable pub clear_flags : ℕ → List ℕ
clear_flags flagslen = replicate flagslen 0

-- A zone over the whole area with the flags all clear.
unfoldable pub new_zone : ℕ → VmemAreaName → Memzone
new_zone space areaname =
    let memsz = page_memory (vmem_area_get_by_name areaname).npages in
    record {
      flags = clear_flags (1024 * page_size);
      chunksize = chunk_size memsz;
      nchunks = memsz / chunk_size memsz;
      space = space;
      areaname = areaname;
    }

-- Pages for the flags, and then the zone; `mz` is the zone before.
unfoldable pub memzone_init : ℕ → VmemAreaName → Memzone → M (Result (Unit {0}) × Memzone)
memzone_init space areaname mz m0 =
    elim (vmem_alloc_pages_in_area space areaname 1024 present_writeable m0) [
      | done (err e) m ↦ done (err e, mz) m
      | done (ok pgindex) m ↦ done (ok tt, new_zone space areaname) m
      | fault ↦ fault
      | blocked ↦ blocked
      | out_of_fuel ↦ out_of_fuel
    ]

unfoldable pub allocator_init : ℕ → Memzone → M (Result (Unit {0}) × Memzone)
allocator_init space mz = memzone_init space kernel mz

-- The two words in front of a piece of memory: its first chunk and its size.
unfoldable pub write_header : ℕ → ℕ → ℕ → Mem → Mem
write_header mem chunk nbytes heap = store32 (store32 heap mem chunk) (mem + 4) nbytes

-- The address, or NULL as 0, with the zone and the heap afterwards.
unfoldable pub kmalloc : Bool → ℕ → Memzone → Mem → M (ℕ × Memzone × Mem)
kmalloc garbage nbytes mz heap m0 =
    let nchunks = memzone_get_nchunks mz ((nbytes + 2 * 4) % 2 ^ 32) in
    elim (memzone_alloc garbage mz nchunks m0) [
      | done (err e, mz') m ↦ done (0, mz', heap) m
      | done (ok chunk, mz') m ↦
          let mem = memzone_address mz' chunk in
          done (mem + 8, mz', write_header mem chunk nbytes heap) m
      | fault ↦ fault
      | blocked ↦ blocked
      | out_of_fuel ↦ out_of_fuel
    ]

unfoldable pub kcalloc : Bool → ℕ → ℕ → Memzone → Mem → M (ℕ × Memzone × Mem)
kcalloc garbage nmemb nbytes mz heap m0 =
    let size = nmemb * nbytes % 2 ^ 32 in
    elim (kmalloc garbage size mz heap m0) [
      | done (mem, mz', heap') m ↦
          done (mem, mz', (if mem == 0 then heap' else memset mem 0 size heap')) m
      | fault ↦ fault
      | blocked ↦ blocked
      | out_of_fuel ↦ out_of_fuel
    ]

unfoldable pub kfree : ℕ → Memzone → Mem → Option Memzone
kfree mem mz heap =
    memzone_free (load32 heap (mem - 8)) (memzone_get_nchunks mz (load32 heap (mem - 4))) mz
