-- ===== src/Pmem.antt =====
-- The physical-memory allocator of src/kernel/bin/pmem.c: the map of page frames, which the
-- semaphore `map_sem` protects. A pointer into the map is the index of its entry.
pub mod Frame
pub mod Loops
pub mod Alloc
pub mod Refs
pub mod Lifetime
pub mod Types
pub mod Zero
pub mod Single
mod Examples
use mathlib.Core.Option
use opsys.Base.{
  ℕ, zero, suc, ◌+◌, ◌-◌, ◌*◌, ◌%◌, ◌^◌, ◌≡◌, Bool, true, false, not, ◌&&◌, Option, none, some,
  ◌==◌, ltb, if◌then◌else◌, Result, ok, err, errno, eoverflow, enodev, enomem, List, length,
  get_elem?, set, replicate,
}
use opsys.Pmem.Frame.{
  PmemType, set_type, get_ref, ref_frame, unref_frame, checked_ref_frame, checked_unref_frame,
  is_allocable,
}

-- `slots` are the free slots of `map_sem`.
pub record Pmem : Type 0 where
  pub slots : ℕ
  pub map : List ℕ

-- `fault` is a read or write outside the map, `blocked` is a wait for `map_sem`, and
-- `out_of_fuel` a loop that has not ended.
pub data Run (A : Type 0) : Type 0 where
  done : A → Pmem → Run A
  fault : Run A
  blocked : Run A
  out_of_fuel : Run A

abbrev pub M : Type 0 → Type 0
M A = Pmem → Run A

abbrev pub pure : {A : Type 0} → A → M A
pure a p = done a p

module _ {A B : Type 0} where
  abbrev pub and_then : Run A → (A → M B) → Run B
  and_then (done a p) k = k a p
  and_then fault k = fault
  and_then blocked k = blocked
  and_then out_of_fuel k = out_of_fuel

  infixl 5 ◌>>=◌ ◌>>◌
  abbrev pub ◌>>=◌ : M A → (A → M B) → M B
  m >>= k = λ p. and_then (m p) k

  abbrev pub ◌>>◌ : M A → M B → M B
  m >> n = m >>= λ _. n

-- `*beg` and `*beg = v`.
unfoldable pub read : ℕ → M ℕ
read beg p = elim (get_elem? p.map beg) [ none ↦ fault | some m ↦ done m p ]

unfoldable pub write : ℕ → ℕ → M (Unit {0})
write beg v p =
    if ltb beg (length p.map) then done tt (record p { map = set p.map beg v }) else fault

-- `semaphore_enter` takes a slot, or waits for one; `semaphore_leave` gives it back.
abbrev pub semaphore_enter : M (Unit {0})
semaphore_enter p = if p.slots == 0 then blocked else done tt (record p { slots = p.slots - 1 })

abbrev pub semaphore_leave : M (Unit {0})
semaphore_leave p = done tt (record p { slots = p.slots + 1 })

abbrev pub memmap_len : Pmem → ℕ
memmap_len p = length p.map

-- `sizeof(pmem_map_t)` is 1.
abbrev pub memmap_size : Pmem → ℕ
memmap_size p = memmap_len p * 1

-- `pmem_init` on a map of `nframes` entries: `memset` clears them all.
unfoldable pub pmem_init : ℕ → Pmem
pmem_init nframes = record { slots = 1; map = replicate nframes 0 }

-- `while (beg < end) { *beg = f(*beg); ++beg; }` with `left` = `end - beg` rounds left.
unfoldable pub each_frame : (ℕ → ℕ) → ℕ → ℕ → M ℕ
each_frame f zero beg = pure beg
each_frame f (suc left) beg = do m ← read beg; write beg (f m); each_frame f left (beg + 1)

-- The bounds test that all operations on a given range begin with.
unfoldable pub out_of_range : Pmem → ℕ → ℕ → Bool
out_of_range p pfindex nframes =
    if ltb (memmap_len p) nframes then true else ltb (memmap_len p - nframes) pfindex

unfoldable pub pmem_set_type : ℕ → ℕ → PmemType → M (Result (Unit {0}))
pmem_set_type pfindex nframes type p =
    if out_of_range p pfindex nframes
    then done (err enodev) p
    else (do
      semaphore_enter
      each_frame (λ m. set_type m type) nframes pfindex
      semaphore_leave
      pure (ok tt))
        p

unfoldable pub find_allocable_frame : ℕ → ℕ → M ℕ
find_allocable_frame zero beg = pure beg
find_allocable_frame (suc left) beg = do
  m ← read beg
  if is_allocable m then pure beg else find_allocable_frame left (beg + 1)

unfoldable pub find_non_allocable_frame : ℕ → ℕ → M ℕ
find_non_allocable_frame zero beg = pure beg
find_non_allocable_frame (suc left) beg = do
  m ← read beg
  if is_allocable m then find_non_allocable_frame left (beg + 1) else pure beg

unfoldable pub ref_frame_range : ℕ → ℕ → M ℕ
ref_frame_range beg end = each_frame ref_frame (end - beg) beg

unfoldable pub alloc_frame_range : ℕ → ℕ → M ℕ
alloc_frame_range beg end = do
  end2 ← find_non_allocable_frame (end - beg) beg
  if end2 == end then ref_frame_range beg end else pure end2

-- The search loop of `pmem_alloc_frames`; its value is the local `pfindex`.
unfoldable pub alloc_loop : ℕ → ℕ → ℕ → ℕ → M ℕ
alloc_loop zero nframes beg end = λ p. out_of_fuel
alloc_loop (suc fuel) nframes beg end =
    if ltb beg end
    then (do
      found ← find_allocable_frame (end - beg) beg
      if found == end then pure 0 else (do
        range_end ← alloc_frame_range found (found + nframes)
        if nframes == range_end - found
            then pure found
            else alloc_loop fuel nframes (range_end + 1) end))
    else pure 0

-- The first page frame is never used. `map_end` is the length of the map.
unfoldable pub pmem_alloc_frames : ℕ → M ℕ
pmem_alloc_frames nframes p =
    if ltb (memmap_len p) nframes
    then done 0 p
    else (do
      semaphore_enter
      pfindex ← alloc_loop (suc (memmap_len p)) nframes 1 (memmap_len p - nframes + 1)
      semaphore_leave
      pure pfindex)
        p

-- `-ENOMEM` as an `unsigned long`.
abbrev pub minus_enomem : ℕ
minus_enomem = 2 ^ 32 - errno enomem

unfoldable pub pmem_alloc_frames_at : ℕ → ℕ → M ℕ
pmem_alloc_frames_at pfindex nframes p =
    if out_of_range p pfindex nframes
    then done minus_enomem p
    else (do
      semaphore_enter
      end2 ← alloc_frame_range pfindex (pfindex + nframes)
      (if nframes == end2 - pfindex
          then (semaphore_leave >> pure pfindex)
          else (semaphore_leave >> pure 0)))
        p

-- The loops of `pmem_claim_frames` and `pmem_ref_frames`: the position where the loop stopped,
-- and the error that stopped it.
unfoldable pub try_frames : (ℕ → Result ℕ) → ℕ → ℕ → M (ℕ × Result (Unit {0}))
try_frames check zero beg = pure (beg, ok tt)
try_frames check (suc left) beg = do
  m ← read beg
  elim (check m) [
    | ok v ↦ write beg v >> try_frames check left (beg + 1)
    | err e ↦ pure (beg, err e)
  ]

-- `while (beg > end) { --beg; *beg = unref_frame(*beg); }` with `back` = `beg - end`.
unfoldable pub undo_frames : ℕ → ℕ → M (Unit {0})
undo_frames zero beg = pure tt
undo_frames (suc back) beg = do
  m ← read (beg - 1)
  write (beg - 1) (unref_frame m)
  undo_frames back (beg - 1)

unfoldable pub check_claim : ℕ → Result ℕ
check_claim m = elim (checked_ref_frame m) [ none ↦ err eoverflow | some v ↦ ok v ]

unfoldable pub check_ref : ℕ → Result ℕ
check_ref m =
    if get_ref m == 0
    then err enodev
    else (elim (checked_ref_frame m) [ none ↦ err eoverflow | some v ↦ ok v ])

unfoldable pub checked_range : (ℕ → Result ℕ) → ℕ → ℕ → M (Result (Unit {0}))
checked_range check pfindex nframes p =
    if out_of_range p pfindex nframes
    then done (err enomem) p
    else (do
      semaphore_enter
      (beg, res) ← try_frames check nframes pfindex
      elim res [
        | ok _ ↦ semaphore_leave >> pure (ok tt)
        | err e ↦ undo_frames (beg - pfindex) beg >> semaphore_leave >> pure (err e)
      ])
        p

unfoldable pub pmem_claim_frames : ℕ → ℕ → M (Result (Unit {0}))
pmem_claim_frames pfindex nframes = checked_range check_claim pfindex nframes

unfoldable pub pmem_ref_frames : ℕ → ℕ → M (Result (Unit {0}))
pmem_ref_frames pfindex nframes = checked_range check_ref pfindex nframes

-- A failing `checked_unref_frame` leaves the entry, and its error is ignored.
unfoldable pub unref_or_keep : ℕ → ℕ
unref_or_keep m = Option.get_or (checked_unref_frame m) m

unfoldable pub pmem_unref_frames : ℕ → ℕ → M (Unit {0})
pmem_unref_frames pfindex nframes p =
    if out_of_range p pfindex nframes
    then done tt p
    else (do semaphore_enter; each_frame unref_or_keep nframes pfindex; semaphore_leave) p

abbrev pub pmem_get_memmap : Pmem → List ℕ
pmem_get_memmap p = p.map

abbrev pub pmem_get_nframes : Pmem → ℕ
pmem_get_nframes p = memmap_len p

-- `size_t` is 32 bits wide.
abbrev pub pmem_get_size : Pmem → ℕ
pmem_get_size p = pmem_get_nframes p * 4096 % 2 ^ 32
