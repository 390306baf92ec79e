-- ===== src/Memzone/Heap.antt =====
-- What `kfree` gives back of what `kmalloc` took.
use opsys.Base.{ℕ, ◌+◌, ◌-◌, ◌%◌, ◌^◌, ◌<◌, ◌≡◌, refl, ◌∙◌, arith, inl, Bool, ok}
use opsys.Libc.{Mem}
use opsys.Memzone.{
  Memzone, kmalloc, kfree, write_header, memzone_alloc, memzone_free, memzone_address,
  memzone_get_nchunks,
}
use opsys.Paging.Machine.{Machine, done}
use opsys.Ram.{load32, store32}
use opsys.Ram.Access.{load32-store32, load32-store32_apart}

header_read :
    (mem chunk nbytes : ℕ) (heap : Mem)
    → chunk < 2 ^ 32
    → nbytes < 2 ^ 32
    → let heap' = write_header mem chunk nbytes heap in
      (load32 heap' mem ≡ chunk) × (load32 heap' (mem + 4) ≡ nbytes)
unfolding write_header
header_read mem chunk nbytes heap small small' = (
  load32-store32_apart (store32 heap mem chunk) (mem + 4) mem nbytes (inl (omega arith))
      ∙ load32-store32 heap mem chunk small,
  load32-store32 (store32 heap mem chunk) (mem + 4) nbytes small',
)

-- For fewer than 2^32 - 8 bytes, where `memzone_alloc` finds chunks for them and the header, from a
-- chunk with a number of 32 bits on, `kmalloc` writes the header to the address of that chunk, as
-- `memzone_address` gives it, and returns the address behind the header, 8 bytes further on; and
-- `kfree` of that address gives back the chunks that `nbytes` bytes take without the header, from
-- the same first chunk on.
pub kfree-kmalloc :
    (garbage : Bool) (nbytes chunk : ℕ) (mz mz' : Memzone) (heap : Mem) (m m' : Machine)
    → nbytes + 8 < 2 ^ 32
    → chunk < 2 ^ 32
    → memzone_alloc garbage mz (memzone_get_nchunks mz (nbytes + 8)) m ≡ done (ok chunk, mz') m'
    → let heap' = write_header (memzone_address mz' chunk) chunk nbytes heap in
      (kmalloc garbage nbytes mz heap m ≡ done (memzone_address mz' chunk + 8, mz', heap') m')
      × (kfree (memzone_address mz' chunk + 8) mz' heap'
          ≡ memzone_free chunk (memzone_get_nchunks mz' nbytes) mz')
unfolding kmalloc kfree
kfree-kmalloc garbage nbytes chunk mz mz' heap m m' small fits got =
    let mem = memzone_address mz' chunk in
    let header = header_read mem chunk nbytes heap fits (omega arith) in
    let whole : (nbytes + 8) % 2 ^ 32 ≡ nbytes + 8 = omega arith in
    let first : mem + 8 - 8 ≡ mem = omega arith in
    let second : mem + 8 - 4 ≡ mem + 4 = omega arith in
    (rw (whole, kmalloc) (rw got refl), rw (first, second) (rw (header.0, header.1) refl))
