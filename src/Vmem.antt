-- ===== src/Vmem.antt =====
-- Address spaces and their locks: src/kernel/bin/vmem.c and vmem.h. An address space is the
-- address of its `struct vmem`, whose first member is the semaphore.
pub mod Setup
pub mod Search
pub mod Turns
pub mod Progress
mod Examples
use opsys.Base.{
  ℕ, zero, suc, ◌+◌, ◌-◌, ◌≡◌, Bool, true, false, ◌&&◌, Option, none, some, ◌==◌, ltb,
  if◌then◌else◌, Result, ok, err, enomem, List, [], ◌∷◌,
}
use opsys.LinkedList.{put}
use opsys.Page.{page_count, present_writeable}
use opsys.Paging.Machine.{
  Machine, M, Run, pure, done, blocked, out_of_fuel, ◌>>=◌, ◌>>◌, in_pmem, read_entry,
}
use opsys.VmemArea.{VmemArea, VmemAreaName, kernel, vmem_area_get_by_name}
use opsys.Vmem32.{
  vmem_32_check_empty_pages, vmem_32_alloc_frames, vmem_32_lookup_frame, vmem_32_alloc_pages,
  vmem_32_map_pages, vmem_32_share_page_range,
}
use opsys.Vmem32.Temp.{pointer}

-- `semaphore_enter` takes a slot of the semaphore, or waits; `semaphore_leave` gives it back.
unfoldable pub semaphore_enter : ℕ → M (Unit {0})
semaphore_enter v m =
    if m.sem v == 0 then blocked else done tt (record m { sem = put m.sem v (m.sem v - 1) })

unfoldable pub semaphore_leave : ℕ → M (Unit {0})
semaphore_leave v m = done tt (record m { sem = put m.sem v (m.sem v + 1) })

-- The page directory of an address space.
abbrev pub with_pd : {A : Type 0} → ℕ → (ℕ → M A) → M A
with_pd v f m = f (m.pd v) m

-- The shape of the functions below: both the return and the error path leave the semaphore.
abbrev pub locked : {A : Type 0} → ℕ → M (Result A) → M (Result A)
locked v body = do semaphore_enter v; res ← body; semaphore_leave v; pure res

unfoldable pub share_page_range : ℕ → ℕ → ℕ → ℕ → M (Result (Unit {0}))
share_page_range dst src pgindex pgcount =
    with_pd dst
      (λ dst_pd. with_pd src (λ src_pd. vmem_32_share_page_range dst_pd src_pd pgindex pgcount))

unfoldable pub vmem_alloc_frames : ℕ → ℕ → ℕ → ℕ → ℕ → M (Result (Unit {0}))
vmem_alloc_frames v pfindex pgindex pgcount pteflags =
    locked v (with_pd v (λ pd. vmem_32_alloc_frames pd pfindex pgindex pgcount pteflags))

unfoldable pub vmem_lookup_frame : ℕ → ℕ → M (Result ℕ)
vmem_lookup_frame v pgindex = locked v (with_pd v (λ pd. vmem_32_lookup_frame pd pgindex))

unfoldable pub check_pages_empty : ℕ → ℕ → ℕ → M ℕ
check_pages_empty v pgindex pgcount = with_pd v (λ pd. vmem_32_check_empty_pages pd pgindex pgcount)

-- The loop of `find_empty_pages` on fuel.
unfoldable pub find_empty_pages : ℕ → ℕ → ℕ → ℕ → ℕ → M (Result ℕ)
find_empty_pages zero v npages beg end = λ m. out_of_fuel
find_empty_pages (suc fuel) v npages beg end =
    if ltb beg end && ltb npages (end - beg)
    then (do
      nempty ← check_pages_empty v beg npages
      if nempty == npages
          then pure (ok beg)
          else find_empty_pages fuel v npages (beg + (nempty + 1)) end)
    else pure (err enomem)

unfoldable pub vmem_alloc_pages_at : ℕ → ℕ → ℕ → ℕ → M (Result (Unit {0}))
vmem_alloc_pages_at v pgindex pgcount pteflags =
    locked v (with_pd v (λ pd. vmem_32_alloc_pages pd pgindex pgcount pteflags))

-- A search, and then the use of the pages that it found.
abbrev pub found_then : M (Result ℕ) → (ℕ → M (Result (Unit {0}))) → M (Result ℕ)
found_then search_pages use_pages = do
  found ← search_pages
  elim found [
    | err e ↦ pure (err e)
    | ok pgindex ↦ (do
      res ← use_pages pgindex
      elim res [ err e ↦ pure (err e) | ok _ ↦ pure (ok pgindex) ])
  ]

-- One more round than the range has pages.
abbrev pub search_fuel : ℕ → ℕ → ℕ
search_fuel beg end = suc (end - beg)

unfoldable pub vmem_alloc_pages_within : ℕ → ℕ → ℕ → ℕ → ℕ → M (Result ℕ)
vmem_alloc_pages_within v min max npages pteflags = locked v (
    found_then (find_empty_pages (search_fuel min max) v npages min max)
      (λ pgindex. with_pd v (λ pd. vmem_32_alloc_pages pd pgindex npages pteflags)))

unfoldable pub vmem_alloc_pages_in_area : ℕ → VmemAreaName → ℕ → ℕ → M (Result ℕ)
vmem_alloc_pages_in_area v name npages pteflags =
    let area = vmem_area_get_by_name name in
    vmem_alloc_pages_within v area.pgindex (area.pgindex + area.npages) npages pteflags

-- The semaphores that `semaphore_enter_ordered` enters, in the order of its calls, and those that
-- `semaphore_leave_ordered` leaves. The order is kept apart from the calls, since other threads may
-- run between them.
unfoldable pub semaphore_enter_ordered : ℕ → ℕ → List ℕ
semaphore_enter_ordered sem1 sem2 =
    if ltb sem1 sem2
    then sem1 ∷ sem2 ∷ []
    else (if ltb sem2 sem1 then sem2 ∷ sem1 ∷ [] else sem1 ∷ [])

unfoldable pub semaphore_leave_ordered : ℕ → ℕ → List ℕ
semaphore_leave_ordered sem1 sem2 = if sem1 == sem2 then sem1 ∷ [] else sem1 ∷ sem2 ∷ []

-- One call after the other.
abbrev pub enter_all : List ℕ → M (Unit {0})
enter_all [] = pure tt
enter_all (sem ∷ sems) = semaphore_enter sem >> enter_all sems

abbrev pub leave_all : List ℕ → M (Unit {0})
leave_all [] = pure tt
leave_all (sem ∷ sems) = semaphore_leave sem >> leave_all sems

abbrev pub locked_both : {A : Type 0} → ℕ → ℕ → M (Result A) → M (Result A)
locked_both v w body = do
  enter_all (semaphore_enter_ordered v w)
  res ← body
  leave_all (semaphore_leave_ordered v w)
  pure res

abbrev pub map_between : ℕ → ℕ → ℕ → ℕ → ℕ → ℕ → M (Result (Unit {0}))
map_between dst dst_pgindex src src_pgindex pgcount pteflags = with_pd dst (λ dst_pd.
    with_pd src
      (λ src_pd. vmem_32_map_pages dst_pd dst_pgindex src_pd src_pgindex pgcount pteflags))

unfoldable pub vmem_map_pages_at : ℕ → ℕ → ℕ → ℕ → ℕ → ℕ → M (Result (Unit {0}))
vmem_map_pages_at dst dst_pgindex src src_pgindex pgcount pteflags =
    locked_both dst src (map_between dst dst_pgindex src src_pgindex pgcount pteflags)

unfoldable pub vmem_map_pages_within : ℕ → ℕ → ℕ → ℕ → ℕ → ℕ → ℕ → M (Result ℕ)
vmem_map_pages_within dst min max src src_pgindex pgcount pteflags = locked_both dst src (
    found_then (find_empty_pages (search_fuel min max) dst pgcount min max)
      (λ dst_pgindex. map_between dst dst_pgindex src src_pgindex pgcount pteflags))

unfoldable pub vmem_map_pages_in_area : ℕ → VmemAreaName → ℕ → ℕ → ℕ → ℕ → M (Result ℕ)
vmem_map_pages_in_area dst name src src_pgindex pgcount pteflags =
    let area = vmem_area_get_by_name name in
    vmem_map_pages_within dst area.pgindex (area.pgindex + area.npages) src src_pgindex pgcount
      pteflags

unfoldable pub vmem_empty_pages_within : ℕ → ℕ → ℕ → ℕ → M (Result ℕ)
vmem_empty_pages_within v min max pgcount =
    locked v (find_empty_pages (search_fuel min max) v pgcount min max)

unfoldable pub vmem_empty_pages_in_area : ℕ → VmemAreaName → ℕ → M (Result ℕ)
vmem_empty_pages_in_area v name pgcount =
    let area = vmem_area_get_by_name name in
    vmem_empty_pages_within v area.pgindex (area.pgindex + area.npages) pgcount
