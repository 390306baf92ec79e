-- ===== src/Vmem/Examples.antt =====
-- The theorems on the locks of two address spaces.
use opsys.Base.{refl, [], ◌∷◌, false, arith}
use opsys.Paging.Machine.{Machine}
use opsys.Vmem.{vmem_empty_pages_within, semaphore_enter_ordered, semaphore_leave_ordered}
use opsys.Vmem.Search.{Searched, vmem_empty_pages_within_lem}
use opsys.Vmem32.Sample.{paged, paged-IsUsable}
use opsys.Vmem.Turns.{entering, enter, Reachable, begin, first, start, entered, enter_free}
use opsys.Vmem.Progress.{Progress, ordered-Progress}

abbrev idle : Machine
idle = record {
  pmem = record { slots = 1; map = [] };
  word = λ f i. 0;
  cr3 = 0;
  paging = false;
  sem = λ v. 1;
  pd = λ v. 0;
}

-- The first thread has entered the semaphore 4, which both want.
one_step :
    Reachable idle
      (start 9 4)
      (start 4 9)
      (entered 4 idle)
      (entering (4 ∷ []) (9 ∷ []) (9 ∷ 4 ∷ []))
      (start 4 9)
unfolding start semaphore_enter_ordered semaphore_leave_ordered
one_step =
    first idle (entered 4 idle) (start 9 4) _ (start 4 9) begin
      (enter idle (entered 4 idle) 4 [] (9 ∷ []) (9 ∷ 4 ∷ []) (enter_free 4 idle (omega arith)))

ordered-Progress_example :
    Progress (entered 4 idle) (entering (4 ∷ []) (9 ∷ []) (9 ∷ 4 ∷ [])) (start 4 9)
ordered-Progress_example =
    ordered-Progress 9 4 4 9 idle (λ x. refl) (entered 4 idle)
      (entering (4 ∷ []) (9 ∷ []) (9 ∷ 4 ∷ [])) (start 4 9) one_step

vmem_empty_pages_within_example :
    Searched paged 6 0 9 5 5 2 307200 308224 (vmem_empty_pages_within 9 307200 308224 2 paged)
vmem_empty_pages_within_example =
    vmem_empty_pages_within_lem 6 0 9 5 5 2 307200 308224 paged refl paged-IsUsable (omega arith)
      (omega arith)
