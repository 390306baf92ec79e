-- ===== src/Vmem/Search.antt =====
-- The searches for empty pages in src/kernel/bin/vmem.c end, inside their range.
use opsys.Base.{
  ℕ, zero, suc, ◌+◌, ◌-◌, ◌^◌, ◌≤◌, ◌<◌, ◌≡◌, refl, ◌≢◌, ◌∙◌, ap, inl, inr, Bool-cases, eq-cases,
  arith, eq→==, ne→==, ltb, ltb→lt, ltb-false→le, lt→ltb, le→ltb-false, Result, ok, err, enomem,
}
use opsys.LinkedList.{put}
use opsys.Paging.Machine.{Machine, Run, done, frame_of}
use opsys.Vmem32.Check.{IsUsable, Stays}
use opsys.Vmem32.Probe.{Probed, vmem_32_check_empty_pages_lem, Stays-then}
use opsys.Vmem.Turns.{entered, enter_free, put_more, put_less}
use opsys.Vmem.{
  semaphore_enter, semaphore_leave, check_pages_empty, find_empty_pages, search_fuel,
  vmem_empty_pages_within,
}

-- The places that a search tries and leaves again, from the page `beg` in the machine `m` to the
-- page `pg` in the machine `m1`: each time `check_pages_empty` returns a number other than
-- `npages`, and the search goes on one page behind those.
pub data Tried (v npages end : ℕ) : ℕ → Machine → ℕ → Machine → Type 0 where
  here : (beg : ℕ) (m : Machine) → Tried v npages end beg m beg m
  skip :
      (beg n pg : ℕ) (m m' m1 : Machine)
      → beg + npages < end
      → check_pages_empty v beg npages m ≡ done n m'
      → n ≢ npages
      → Tried v npages end (beg + (n + 1)) m' pg m1
      → Tried v npages end beg m pg m1

-- What a search answers that ends in the machine `m'`: -ENOMEM where too few pages are left, or a
-- page from which on the last check counts `npages` empty pages, which lie inside the range.
pub data Answer (low s v pd d npages beg end : ℕ) (m m' : Machine) : Result ℕ → Type 0 where
  nothing :
      (pg : ℕ)
      → Tried v npages end beg m pg m'
      → end ≤ pg + npages
      → Answer low s v pd d npages beg end m m' (err enomem)
  pages :
      (pg : ℕ) (m1 : Machine)
      → Tried v npages end beg m pg m1
      → beg ≤ pg
      → pg + npages < end
      → m1.pd v ≡ pd
      → IsUsable m1 low s pd d
      → check_pages_empty v pg npages m1 ≡ done npages m'
      → Answer low s v pd d npages beg end m m' (ok pg)

pub record Ended (m : Machine) (low s v pd d npages beg end : ℕ) (r : Run (Result ℕ)) : Type 0 where
  pub res : Result ℕ
  pub m' : Machine
  pub returns : r ≡ done res m'
  pub stays : Stays m low s pd d m'
  pub answer : Answer low s v pd d npages beg end m m' res

search_stop :
    (fuel v npages beg end : ℕ) (m : Machine)
    → end ≤ beg + npages
    → find_empty_pages (suc fuel) v npages beg end m ≡ done (err enomem) m
unfolding find_empty_pages
search_stop fuel v npages beg end m h = elim (Bool-cases (ltb beg end)) [
  | inl below ↦ rw (below, le→ltb-false npages (end - beg) (omega (arith, h))) refl
  | inr above ↦ rw above refl
]

search_found :
    (fuel v npages beg end : ℕ) (m m' : Machine)
    → beg + npages < end
    → check_pages_empty v beg npages m ≡ done npages m'
    → find_empty_pages (suc fuel) v npages beg end m ≡ done (ok beg) m'
unfolding find_empty_pages
search_found fuel v npages beg end m m' h e =
    rw (lt→ltb beg end (omega (arith, h)), lt→ltb npages (end - beg) (omega (arith, h)))
      (rw (e, find_empty_pages) (rw (eq→== npages npages refl) refl))

search_on :
    (fuel v npages beg end n : ℕ) (m m' : Machine)
    → beg + npages < end
    → check_pages_empty v beg npages m ≡ done n m'
    → n ≢ npages
    → find_empty_pages (suc fuel) v npages beg end m
      ≡ find_empty_pages fuel v npages (beg + (n + 1)) end m'
unfolding find_empty_pages
search_on fuel v npages beg end n m m' h e ne =
    rw (lt→ltb beg end (omega (arith, h)), lt→ltb npages (end - beg) (omega (arith, h)))
      (rw (e, find_empty_pages) (rw (ne→== n npages ne) refl))

module _ (low s v pd d npages end : ℕ) (fits : end ≤ 2 ^ 20) where
  probe :
      (m : Machine) (beg : ℕ)
      → m.pd v ≡ pd
      → IsUsable m low s pd d
      → beg + npages < end
      → Probed m low s pd d npages (check_pages_empty v beg npages m)
  unfolding check_pages_empty
  probe m beg dir u h =
      rw dir (vmem_32_check_empty_pages_lem low s pd d m beg npages u (omega (arith, fits, h)))

  -- What the search answers from behind a page that is not empty, it answers here too.
  Answer-later :
      (beg n : ℕ) {m m1 m' : Machine} {res : Result ℕ}
      → beg + npages < end
      → check_pages_empty v beg npages m ≡ done n m1
      → n ≢ npages
      → Answer low s v pd d npages (beg + (n + 1)) end m1 m' res
      → Answer low s v pd d npages beg end m m' res
  Answer-later beg n h c ne (nothing pg t short) = nothing pg (skip beg n pg _ _ _ h c ne t) short
  Answer-later beg n h c ne (pages pg m2 t a b e u f) =
      pages pg m2 (skip beg n pg _ _ _ h c ne t) (omega (arith, a)) b e u f

  later :
      (beg n : ℕ) (m m1 : Machine) (r : Run (Result ℕ))
      → beg + npages < end
      → check_pages_empty v beg npages m ≡ done n m1
      → n ≢ npages
      → Stays m low s pd d m1
      → Ended m1 low s v pd d npages (beg + (n + 1)) end r
      → Ended m low s v pd d npages beg end r
  later beg n m m1 r h c ne st e = record {
    res = e.res;
    m' = e.m';
    returns = e.returns;
    stays = Stays-then m m1 e.m' low s pd d st e.stays;
    answer = Answer-later beg n h c ne e.answer;
  }

  search_lem :
      (fuel beg : ℕ) (m : Machine)
      → m.pd v ≡ pd
      → IsUsable m low s pd d
      → 0 < fuel
      → end < fuel + beg
      → Ended m low s v pd d npages beg end (find_empty_pages fuel v npages beg end m)
  search_lem zero beg m dir u pos f = absurd (omega arith)
  search_lem (suc fuel) beg m dir u pos f = elim (Bool-cases (ltb (beg + npages) end)) [
    | inr short ↦ record {
      res = err enomem;
      m' = m;
      returns =
          search_stop fuel v npages beg end m
            (omega (arith, ltb-false→le (beg + npages) end short));
      stays = record { usable = u; same_sem = refl; same_pd = refl };
      answer = nothing beg (here beg m) (omega (arith, ltb-false→le (beg + npages) end short));
    }
    | inl room ↦
        let h = ltb→lt (beg + npages) end room in
        let p = probe m beg dir u h in
        elim (eq-cases p.count npages) [
          | inl all_empty ↦
              let found = p.returns ∙ ap (λ n. done n p.m') all_empty in
              record {
                res = ok beg;
                m' = p.m';
                returns = search_found fuel v npages beg end m p.m' h found;
                stays = p.stays;
                answer = pages beg m (here beg m) (omega arith) h dir u found;
              }
          | inr ne ↦
              let st = p.stays in
              let dir1 : p.m'.pd v ≡ pd = ap (λ f. f v) st.same_pd ∙ dir in
              rw (search_on fuel v npages beg end p.count m p.m' h p.returns ne) (
                later beg p.count m p.m' _ h p.returns ne st (
                  search_lem fuel (beg + (p.count + 1)) p.m' dir1 st.usable (omega (arith, h, f))
                    (omega (arith, f))))
        ]
  ]

IsUsable-sem :
    (m : Machine) (low s pd d : ℕ) (sem : ℕ → ℕ)
    → IsUsable m low s pd d
    → IsUsable (record m { sem = sem }) low s pd d
unfolding frame_of
IsUsable-sem m low s pd d sem u = record {
  paged = record {
    on = u.paged.on;
    directory_apart = u.paged.directory_apart;
    low_apart = u.paged.low_apart;
    low_entry = u.paged.low_entry;
    low_present = u.paged.low_present;
    self_entry = u.paged.self_entry;
    self_present = u.paged.self_present;
    temp_entry = u.paged.temp_entry;
    temp_present = u.paged.temp_present;
  };
  free = record { fits = u.free.fits; free = u.free.free; before = u.free.before };
  ready = record { bytes = u.ready.bytes; slot = u.ready.slot };
  bits = u.bits;
  here = u.here;
}

-- The search ended, every semaphore is as before, and `Answer` says what it tried and found, from
-- the machine in which the semaphore was entered to the machine in which it is left.
pub record Searched (m : Machine) (low s v pd d npages beg end : ℕ) (r : Run (Result ℕ))
    : Type 0 where
  pub res : Result ℕ
  pub m' : Machine
  pub returns : r ≡ done res m'
  pub usable : IsUsable m' low s pd d
  pub sems : (x : ℕ) → m'.sem x ≡ m.sem x
  pub checked : Machine
  pub left : m' ≡ record checked { sem = put checked.sem v (checked.sem v + 1) }
  pub answer : Answer low s v pd d npages beg end (entered v m) checked res

within_done :
    (v min max npages : ℕ) (m m1 m2 : Machine) (res : Result ℕ)
    → semaphore_enter v m ≡ done tt m1
    → find_empty_pages (search_fuel min max) v npages min max m1 ≡ done res m2
    → vmem_empty_pages_within v min max npages m
      ≡ done res (record m2 { sem = put m2.sem v (m2.sem v + 1) })
unfolding vmem_empty_pages_within semaphore_leave
within_done v min max npages m m1 m2 res entered found =
    rw (entered, vmem_empty_pages_within) (rw found refl)

-- In a usable address space whose semaphore has a free slot, and for a range within 4 GiB,
-- `vmem_empty_pages_within` ends, with as much fuel as the model gives it. From the first page of
-- the range on it asks `check_pages_empty` for the number of empty pages, and as long as that is not
-- `npages` it goes on one page behind them. It returns the first page reached this way at which the
-- number is `npages`; that many pages from it on lie inside the range. Or it returns -ENOMEM, where
-- it reaches a page with too few pages of the range behind it. It ends in the machine that the last
-- check left, with the semaphore given back; every semaphore is as it was, and the address space is
-- usable again.
pub vmem_empty_pages_within_lem :
    (low s v pd d npages min max : ℕ) (m : Machine)
    → m.pd v ≡ pd
    → IsUsable m low s pd d
    → 0 < m.sem v
    → max ≤ 2 ^ 20
    → Searched m low s v pd d npages min max (vmem_empty_pages_within v min max npages m)
vmem_empty_pages_within_lem low s v pd d npages min max m dir u slot fits =
    let m1 = entered v m in
    let e =
      search_lem low s v pd d npages max fits (search_fuel min max) min m1 dir
        (IsUsable-sem m low s pd d m1.sem u) (omega arith) (omega arith) in
    record {
      res = e.res;
      m' = record e.m' { sem = put e.m'.sem v (e.m'.sem v + 1) };
      returns = within_done v min max npages m m1 e.m' e.res (enter_free v m slot) e.returns;
      usable = IsUsable-sem e.m' low s pd d (put e.m'.sem v (e.m'.sem v + 1)) e.stays.usable;
      sems = λ x.
          let kept : e.m'.sem x ≡ m1.sem x = ap (λ f. f x) e.stays.same_sem in
          omega (arith, put_more e.m'.sem v x, kept, put_less m.sem v x slot);
      checked = e.m';
      left = refl;
      answer = e.answer;
    }
