-- ===== src/Page/Spans.antt =====
-- The counts of pages and page tables are those of the units that a range of bytes touches.
use opsys.Base.{ℕ, ◌+◌, ◌-◌, ◌*◌, ◌^◌, ◌≤◌, ◌<◌, ◌≡◌, ◌↔◌, ne→==, eq-cases, inl, inr, arith}
use opsys.Page.{
  page_index, page_count, pagetable_index, pagetable_count, pageframe_index, pageframe_span, span,
}

-- The `k`-th unit from the first byte on is counted exactly if some byte of the range is in it.
abbrev pub Counts : (ℕ → ℕ) → ℕ → ℕ → ℕ → Type 0
Counts index addr bytes count =
    (k : ℕ) → (k < count) ↔ ((a : ℕ) × (addr ≤ a) × (a < addr + bytes) × (index a ≡ index addr + k))

pages-Counts :
    (addr bytes : ℕ)
    → 0 < bytes
    → addr + bytes ≤ 2 ^ 32
    → Counts page_index addr bytes (span page_index addr bytes)
pages-Counts addr bytes some fits k =
    let count : span page_index addr bytes + page_index addr ≡ 1 + page_index (addr + bytes - 1) =
      rw (ne→== bytes 0 (omega arith)) (omega arith) in
    (
      λ h. elim (eq-cases k 0) [
        | inl first ↦ (addr, omega arith, omega arith, omega arith)
        | inr more ↦
            ((page_index addr + k) * 2 ^ 12, omega arith, omega (arith, count), omega arith)
      ],
      λ h. omega (arith, count, h.1, h.2, h.3),
    )

tables-Counts :
    (addr bytes : ℕ)
    → 0 < bytes
    → addr + bytes ≤ 2 ^ 32
    → Counts pagetable_index addr bytes (span pagetable_index addr bytes)
tables-Counts addr bytes some fits k =
    let count : span pagetable_index addr bytes + pagetable_index addr
        ≡ 1 + pagetable_index (addr + bytes - 1) =
      rw (ne→== bytes 0 (omega arith)) (omega arith) in
    (
      λ h. elim (eq-cases k 0) [
        | inl first ↦ (addr, omega arith, omega arith, omega arith)
        | inr more ↦
            ((pagetable_index addr + k) * 2 ^ 22, omega arith, omega (arith, count), omega arith)
      ],
      λ h. omega (arith, count, h.1, h.2, h.3),
    )

-- For a range of bytes that is not empty and does not wrap around: `page_count` and
-- `pageframe_span` count exactly the pages, and `pagetable_count` exactly the page tables, of
-- which some byte is in the range.
pub page_count_lem :
    (addr bytes : ℕ)
    → 0 < bytes
    → addr + bytes ≤ 2 ^ 32
    → Counts page_index addr bytes (page_count addr bytes)
      × Counts pageframe_index addr bytes (pageframe_span addr bytes)
      × Counts pagetable_index addr bytes (pagetable_count addr bytes)
unfolding page_count pageframe_span pagetable_count
page_count_lem addr bytes some fits = (
  pages-Counts addr bytes some fits,
  pages-Counts addr bytes some fits,
  tables-Counts addr bytes some fits,
)
