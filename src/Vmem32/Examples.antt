-- ===== src/Vmem32/Examples.antt =====
-- The theorems on temporary mappings and lookups at a machine with paging on.
use opsys.Base.{ℕ, ◌≡◌, refl, ok, Result, arith, some}
use opsys.Paging.Machine.{Machine, done, frame_of}
use opsys.Vmem32.{vmem_32_lookup_frame}
use opsys.Vmem32.Temp.{install_temp_page_frame, uninstall_temp_page}
use opsys.Vmem32.Lookup.{Restored, uninstall-install}
use opsys.Vmem32.Walk.{walk_result, vmem_32_lookup_frame-walk}
use opsys.Vmem32.Sample.{
  words, paged, paged-IsReady, paged-IsPaged, paged-IsFree, seven-IsMappable, directory,
}

uninstall-install_example :
    (m1 : Machine) × (install_temp_page_frame 7 paged ≡ done (ok 261120) m1)
    × (frame_of m1 261120 ≡ some 7)
    × Restored paged 0 (Result (Unit {0})) (ok tt) (uninstall_temp_page 261120 m1)
uninstall-install_example =
    uninstall-install paged 6 0 paged-IsPaged paged-IsFree paged-IsReady 7 seven-IsMappable

vmem_32_lookup_frame-walk_example :
    Restored paged 0 (Result ℕ) (walk_result words 5 307203) (vmem_32_lookup_frame 5 307203 paged)
vmem_32_lookup_frame-walk_example =
    vmem_32_lookup_frame-walk paged 6 0 paged-IsPaged paged-IsFree paged-IsReady 5 5 307203
      directory (omega arith) refl (omega arith) seven-IsMappable
