-- ===== src/Memzone/Size.antt =====
-- The size of the chunks of a zone.
use native.Mathlib.Nat.{
  pow-suc, div-lt_iff_lt-mul, mul-div-le, lt-div-mul-add, mul-le-mul_right, mul_comm,
}
use opsys.Base.{
  ℕ, zero, suc, ◌+◌, ◌-◌, ◌*◌, ◌/◌, ◌%◌, ◌^◌, ◌≤◌, ◌<◌, ◌≡◌, refl, arith, eq→==, ne→==, ◌==◌,
  eq-cases, if◌then◌else◌, ◌⊎◌, inl, inr, length, length-replicate,
}
use opsys.Memzone.{
  logbase2_from, logbase2, chunk_size, max_chunks, clear_flags, new_zone, memzone_get_nchunks,
  memzone_address,
}
use opsys.VmemArea.{VmemAreaName, vmem_area_get_by_name, system, kernel_low, kernel, tmpmap, user}

-- `2 ^ b` is the lowest power of two above `v`.
abbrev Above : ℕ → ℕ → Type 0
Above v b = (v < 2 ^ b) × (((v ≡ 0) × (b ≡ 0)) ⊎ (2 ^ b ≤ 2 * v))

logbase2_from_lem :
    (fuel v lgv : ℕ) → v < 2 ^ fuel → (b : ℕ) × (logbase2_from fuel v lgv ≡ lgv + b) × Above v b
unfolding logbase2_from
logbase2_from_lem zero v lgv small = (0, omega arith, (omega arith, inl (omega arith, refl)))
logbase2_from_lem (suc fuel) v lgv small = elim (eq-cases v 0) [
  | inl e ↦ (0, rw (eq→== v 0 e) (omega arith), (omega arith, inl (e, refl)))
  | inr ne ↦
      let r = logbase2_from_lem fuel (v / 2) (lgv + 1) (omega (arith, pow-suc 2 fuel)) in
      let double = pow-suc 2 r.0 in
      (
        suc r.0,
        rw (ne→== v 0 ne) (omega (arith, r.1)),
        (
          omega (arith, double, r.2.0),
          inr (elim r.2.1 [
            | inl none ↦ omega (arith, double, none.0, ne, r.2.0, single r.0 none.1)
            | inr le ↦ omega (arith, double, le)
          ]),
        ),
      )
]
  where
    single : (b : ℕ) → b ≡ 0 → 2 ^ b ≡ 1
    single b e = rw e refl

logbase2_lem : (v : ℕ) → v < 2 ^ 32 → Above v (logbase2 v)
unfolding logbase2
logbase2_lem v small =
    let r = logbase2_from_lem 32 v 0 small in
    let same : logbase2_from 32 v 0 ≡ r.0 = omega (arith, r.1) in rw same r.2

-- Chunks of a power of two, no more of them than the bits describe.
chunk_size_lem :
    (memsz : ℕ) → memsz < 2 ^ 32 → (0 < chunk_size memsz) × (memsz / chunk_size memsz ≤ max_chunks)
unfolding chunk_size
chunk_size_lem memsz small =
    let v = memsz / max_chunks in
    let above = logbase2_lem v (omega arith) in
    let positive : 0 < 2 ^ logbase2 v = omega (arith, above.0) in
    (
      positive,
      omega (
        arith,
        (div-lt_iff_lt-mul {x = memsz} {y = suc max_chunks} positive).1 (omega (arith, above.0)),
      ),
    )

area_lem :
    (name : VmemAreaName)
    → let area = vmem_area_get_by_name name in
      (area.pgindex + area.npages ≤ 2 ^ 20) × (area.npages < 2 ^ 20)
area_lem system = ground arith
area_lem kernel_low = ground arith
area_lem kernel = ground arith
area_lem tmpmap = ground arith
area_lem user = ground arith

-- The chunks of the size `c` in `memsz` bytes.
inside_lem : (c memsz chunk : ℕ) → chunk < memsz / c → chunk * c + c ≤ memsz
inside_lem c memsz chunk inside =
    let below : suc chunk * c ≤ memsz / c * c = mul-le-mul_right c inside in
    omega (arith, below, mul-div-le memsz c, mul_comm c (memsz / c), suc_mul chunk c)
  where
    suc_mul : (a b : ℕ) → suc a * b ≡ a * b + b
    suc_mul a b = omega arith

taken_lem :
    (c nbytes : ℕ)
    → 0 < c
    → let taken = (if nbytes == 0 then 0 else 1 + (nbytes - 1) / c) * c in
      (nbytes ≤ taken) × (taken < nbytes + c)
taken_lem c nbytes positive = elim (eq-cases nbytes 0) [
  | inl e ↦ rw (eq→== nbytes 0 e) (omega (arith, e), omega arith)
  | inr ne ↦
      let q = (nbytes - 1) / c in
      let whole : (1 + q) * c ≡ c + q * c = omega arith in
      let above : nbytes - 1 < q * c + c = lt-div-mul-add positive in
      let below : c * q ≤ nbytes - 1 = mul-div-le (nbytes - 1) c in
      rw (ne→== nbytes 0 ne)
        (omega (arith, whole, above, ne), omega (arith, whole, below, mul_comm c q, ne))
]

length-clear_flags : (n : ℕ) → length (clear_flags n) ≡ n
unfolding clear_flags
length-clear_flags n = length-replicate n 0

-- In a zone that `memzone_init` makes over any of the areas, both bits of the flags of a chunk lie
-- inside the flags and the memory of the chunk lies inside the area, without a wrap of its
-- address; and `memzone_get_nchunks` gives the least number of chunks that hold a number of bytes.
pub new_zone_lem :
    (space : ℕ) (name : VmemAreaName) (chunk nbytes : ℕ)
    → let mz = new_zone space name in
      let area = vmem_area_get_by_name name in
      let taken = memzone_get_nchunks mz nbytes * mz.chunksize in
      chunk < mz.nchunks
      → (2 * chunk + 1 < 8 * length mz.flags)
        × (memzone_address mz chunk ≡ area.pgindex * 4096 + chunk * mz.chunksize)
        × (memzone_address mz chunk + mz.chunksize ≤ (area.pgindex + area.npages) * 4096)
        × (nbytes ≤ taken)
        × (taken < nbytes + mz.chunksize)
unfolding new_zone memzone_address memzone_get_nchunks
new_zone_lem space name chunk nbytes inside =
    let area = vmem_area_get_by_name name in
    let sizes = area_lem name in
    let memsz = area.npages * 2 ^ 12 % 2 ^ 32 in
    let whole : memsz ≡ area.npages * 4096 = omega (arith, sizes) in
    let c = chunk_size memsz in
    let size = chunk_size_lem memsz (omega arith) in
    let within : chunk * c + c ≤ memsz = inside_lem c memsz chunk inside in
    let base : area.pgindex * 2 ^ 12 % 2 ^ 32 ≡ area.pgindex * 4096 =
      omega (arith, sizes, size.0, within) in
    let address : (area.pgindex * 2 ^ 12 % 2 ^ 32 + chunk * c) % 2 ^ 32
        ≡ area.pgindex * 4096 + chunk * c =
      omega (arith, sizes, size.0, within, whole, base) in
    let bytes = taken_lem c nbytes size.0 in
    (
      omega (arith, length-clear_flags 4194304, size.1, inside),
      address,
      omega (arith, address, within, whole),
      bytes.0,
      bytes.1,
    )
