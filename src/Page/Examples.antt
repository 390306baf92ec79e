-- ===== src/Page/Examples.antt =====
-- The theorems on pages at the two bytes around address 4096, and at a writeable entry.
use opsys.Base.{arith}
use opsys.Page.{
  page_index, page_count, pageframe_index, pageframe_span, pagetable_index, pagetable_count,
}
use opsys.Page.Spans.{Counts, page_count_lem}

page_count_example :
    Counts page_index 4095 2 (page_count 4095 2)
    × Counts pageframe_index 4095 2 (pageframe_span 4095 2)
    × Counts pagetable_index 4095 2 (pagetable_count 4095 2)
page_count_example = page_count_lem 4095 2 (omega arith) (omega arith)
