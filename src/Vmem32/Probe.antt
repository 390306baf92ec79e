-- ===== src/Vmem32/Probe.antt =====
-- The loop over page tables of `vmem_32_check_empty_pages` in
-- src/kernel/bin/arch/i386/vmem_32.c.
use opsys.Base.{
  ℕ, zero, suc, ◌+◌, ◌-◌, ◌*◌, ◌/◌, ◌%◌, ◌^◌, ◌≤◌, ◌≡◌, refl, ◌∙◌, inl, inr, eq-cases, some, arith,
  eq→==, ne→==, false,
}
use opsys.Page.{pte_create, present_writeable, pagetable_page_index, pagetable_count}
use opsys.Page.Entries.{pagetable_page_index_lem}
use opsys.Pmem.Single.{Follows}
use opsys.Paging.Machine.{Machine, Run, done, put_word}
use opsys.Paging.Frames.{AgreeOff-put}
use opsys.Vmem32.{
  Cursor, count_empty, check_tables, vmem_32_check_empty_pages, first_table, table_count,
}
use opsys.Vmem32.Temp.{map_page_table, unmap_page_table}
use opsys.Vmem32.Mapped.{install_temp_page_frame_lem, uninstall_temp_page_lem}
use opsys.Vmem32.Lookup.{opened, shown}
use opsys.Vmem32.Walk.{unmap_done, map_page_table_lem}
use opsys.Vmem32.Check.{IsUsable, count_empty_lem, Stays, Stays-put}

-- The call returned a number of pages up to a bound.
pub record Probed (m : Machine) (low s pd d : ℕ) (bound : ℕ) (r : Run ℕ) : Type 0 where
  pub count : ℕ
  pub m' : Machine
  pub returns : r ≡ done count m'
  pub stays : Stays m low s pd d m'
  pub within : count ≤ bound

check_step :
    (pd ptcount i pt : ℕ) (c c' : Cursor) (m m1 m2 : Machine)
    → map_page_table pd i false m ≡ done (some pt) m1
    → count_empty pt (1024 - pagetable_page_index c.pgindex) (pagetable_page_index c.pgindex) c m1
      ≡ done c' m1
    → unmap_page_table pt m1 ≡ done tt m2
    → check_tables pd (suc ptcount) i c m ≡ check_tables pd ptcount (i + 1) c' m2
unfolding check_tables
check_step pd ptcount i pt c c' m m1 m2 mapped counted unmapped =
    rw (mapped, check_tables) (rw counted (rw unmapped refl))

check_none : (pd i : ℕ) (c : Cursor) (m : Machine) → check_tables pd 0 i c m ≡ done c.nempty m
unfolding check_tables
check_none pd i c m = refl

tables_fit :
    (pgindex pgcount : ℕ)
    → pgindex + pgcount ≤ 2 ^ 20
    → first_table pgindex + table_count pgindex pgcount ≤ 1024
unfolding pagetable_count
tables_fit pgindex pgcount h = elim (eq-cases (pgcount * 2 ^ 12 % 2 ^ 32) 0) [
  | inl e ↦ rw (eq→== _ 0 e) (omega arith)
  | inr ne ↦ rw (ne→== _ 0 ne) (omega arith)
]

pub Stays-then :
    (m m1 m2 : Machine) (low s pd d : ℕ)
    → Stays m low s pd d m1
    → Stays m1 low s pd d m2
    → Stays m low s pd d m2
Stays-then m m1 m2 low s pd d a b = record {
  usable = b.usable;
  same_sem = b.same_sem ∙ a.same_sem;
  same_pd = b.same_pd ∙ a.same_pd;
}

module _ (low s pd d : ℕ) where
  check_tables_lem :
      (ptcount i : ℕ) (c : Cursor) (m : Machine)
      → IsUsable m low s pd d
      → i + ptcount ≤ 1024
      → Probed m low s pd d (c.nempty + c.pgcount) (check_tables pd ptcount i c m)
  check_tables_lem zero i c m u h = record {
    count = c.nempty;
    m' = m;
    returns = check_none pd i c m;
    stays = record { usable = u; same_sem = refl; same_pd = refl };
    within = omega arith;
  }
  check_tables_lem (suc ptcount) i c m u h =
      let t = m.word d i / 2 ^ 12 in
      let v = pte_create t present_writeable in
      let inst = install_temp_page_frame_lem m low s u.paged u.free u.ready t in
      let m1 = opened m s t inst.p' in
      let here = u.here m.word (λ f j ne. refl) in
      let mapped = map_page_table_lem m low s u.paged u.free u.ready pd d here i (omega arith) in
      let j = pagetable_page_index c.pgindex in
      let table_here = shown m low s u.paged u.free u.ready t inst.p' (omega (arith, u.bits d i)) in
      let counted =
        count_empty_lem (261120 + s) t (1024 - j) j c m1 table_here
          (omega (arith, pagetable_page_index_lem c.pgindex)) in
      let gone =
        uninstall_temp_page_lem m low s u.paged u.free u.ready inst.p' m1.word
          (AgreeOff-put m.word 1023 s v) inst.follows in
      let m2 : Machine = record m {
        pmem = gone.p';
        word = put_word m1.word 1023 s (pte_create 0 0);
      } in
      let kept : Follows m.pmem gone.p' = record {
        slots = gone.follows.slots ∙ inst.follows.slots;
        same_length = gone.follows.same_length ∙ inst.follows.same_length;
        bytes = gone.follows.bytes;
      } in
      let step = Stays-put low s pd d m gone.p' v u kept in
      let rest = check_tables_lem ptcount (i + 1) counted.c' m2 step.usable (omega arith) in
      record {
        count = rest.count;
        m' = rest.m';
        returns =
            check_step pd ptcount i (261120 + s) c counted.c' m m1 m2 mapped counted.returns
              (unmap_done (261120 + s) m1 m2 gone.returns)
            ∙ rest.returns;
        stays = Stays-then m m2 rest.m' low s pd d step rest.stays;
        within = omega (arith, rest.within, counted.total);
      }

  -- For a range of pages within 4 GiB in a usable address space, `vmem_32_check_empty_pages`
  -- returns at most the number of pages asked for, and the address space stays usable.
  pub vmem_32_check_empty_pages_lem :
      (m : Machine) (pgindex pgcount : ℕ)
      → IsUsable m low s pd d
      → pgindex + pgcount ≤ 2 ^ 20
      → Probed m low s pd d pgcount (vmem_32_check_empty_pages pd pgindex pgcount m)
  unfolding vmem_32_check_empty_pages
  vmem_32_check_empty_pages_lem m pgindex pgcount u h =
      let r =
        check_tables_lem (table_count pgindex pgcount) (first_table pgindex)
          (record { pgindex = pgindex; pgcount = pgcount; nempty = 0 }) m u
          (tables_fit pgindex pgcount h) in
      record {
        count = r.count;
        m' = r.m';
        returns = r.returns;
        stays = r.stays;
        within = omega (arith, r.within);
      }
