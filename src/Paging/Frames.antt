-- ===== src/Paging/Frames.antt =====
-- Ranges of entries: whichever way `page_table_map_page_frames` ends, the references balance.
use opsys.Base.{
  ℕ, zero, suc, ◌+◌, ◌^◌, ◌≤◌, ◌<◌, ◌≡◌, refl, ◌≢◌, ◌∙◌, inl, inr, some, Result, ok, err, Errno,
  arith, ne→==,
}
use opsys.Page.{pte_create, pte_get_pageframe_index}
use opsys.Page.Entries.{entry_roundtrip}
use opsys.Pmem.{Pmem}
use opsys.Pmem.Single.{hits, Follows}
use opsys.Paging.{page_table_map_page_frame, page_table_map_page_frames}
use opsys.Paging.Machine.{Machine, Run, done, frame_of, put_word}
use opsys.Paging.Entry.{
  IsReady, Follows-IsReady, with_word, owned, Written, page_table_map_page_frame_lem,
  frame_of-with_pmem,
}
use opsys.Paging.Balance.{Backed, Balanced, Balanced-Backed, Written-Balanced}

-- Two memories that differ in the frame `t` only.
abbrev pub AgreeOff : ℕ → (ℕ → ℕ → ℕ) → (ℕ → ℕ → ℕ) → Type 0
AgreeOff t word word' = (f j : ℕ) → f ≢ t → word' f j ≡ word f j

-- The processor finds the page `pt` in the frame `t`, whatever the contents of this frame are.
abbrev pub Pinned : Machine → ℕ → ℕ → Type 0
Pinned m pt t =
    (word' : ℕ → ℕ → ℕ) → AgreeOff t m.word word' → frame_of (with_word m word') pt ≡ some t

-- The call ended, changed counters and entries of the table in step, and no other memory.
pub record Kept (m : Machine) (t : ℕ) (r : Run (Result (Unit {0}))) : Type 0 where
  pub p' : Pmem
  pub word' : ℕ → ℕ → ℕ
  pub res : Result (Unit {0})
  pub returns : r ≡ done res (record m { pmem = p'; word = word' })
  pub follows : Follows m.pmem p'
  pub others : AgreeOff t m.word word'
  pub balanced : Balanced m (record m { pmem = p'; word = word' }) t

pub AgreeOff-put : (word : ℕ → ℕ → ℕ) (t index v : ℕ) → AgreeOff t word (put_word word t index v)
unfolding put_word
AgreeOff-put word t index v f j ne = rw (ne→== f t ne)

Kept-nothing :
    (m : Machine) (t : ℕ) (res : Result (Unit {0})) (r : Run (Result (Unit {0})))
    → IsReady m
    → r ≡ done res m
    → Kept m t r
Kept-nothing m t res r ready e = record {
  p' = m.pmem;
  word' = m.word;
  res = res;
  returns = e;
  follows = record { slots = refl; same_length = refl; bytes = ready.bytes };
  others = λ f j ne. refl;
  balanced = λ i. refl;
}

-- The machine after an entry was written.
abbrev after :
    (m : Machine) (t index v : ℕ) (gained : ℕ → ℕ) (r : Run (Result (Unit {0})))
    → Written m t index v gained r
    → Machine
after m t index v gained r w = record m { pmem = w.p'; word = put_word m.word t index v }

Pinned-after :
    (m : Machine) (pt t index v : ℕ) (p' : Pmem)
    → Pinned m pt t
    → Pinned (record m { pmem = p'; word = put_word m.word t index v }) pt t
Pinned-after m pt t index v p' pin word' same =
    frame_of-with_pmem (with_word m word') p' pt
    ∙ pin word' (λ f j ne. same f j ne ∙ AgreeOff-put m.word t index v f j ne)

-- One written entry, and then a call that keeps the balance.
Kept-step :
    (m : Machine) (t index v : ℕ) (gained : ℕ → ℕ) {r : Run (Result (Unit {0}))}
    → index < 1024
    → Backed m t
    → (w : Written m t index v gained r)
    → ((i : ℕ) → owned (pte_get_pageframe_index v) i ≡ gained i)
    → (s : Run (Result (Unit {0})))
    → Kept (record m { pmem = w.p'; word = put_word m.word t index v }) t s
    → Kept m t s
Kept-step m t index v gained fits backed w new s k =
    let first = Written-Balanced m t index v gained fits backed w new in
    record {
      p' = k.p';
      word' = k.word';
      res = k.res;
      returns = k.returns;
      follows = record {
        slots = k.follows.slots ∙ w.follows.slots;
        same_length = k.follows.same_length ∙ w.follows.same_length;
        bytes = k.follows.bytes;
      };
      others = λ f j ne. k.others f j ne ∙ AgreeOff-put m.word t index v f j ne;
      balanced = λ i. omega (arith, first i, k.balanced i);
    }

frame_now : (m : Machine) (pt t : ℕ) → Pinned m pt t → frame_of m pt ≡ some t
frame_now m pt t pin = pin m.word (λ f j ne. refl)

map_step :
    (pt pf index count flags : ℕ) (m m' : Machine)
    → page_table_map_page_frame pt pf index flags m ≡ done (ok tt) m'
    → page_table_map_page_frames pt pf index (suc count) flags m
      ≡ page_table_map_page_frames pt (pf + 1) (index + 1) count flags m'
unfolding page_table_map_page_frames
map_step pt pf index count flags m m' e = rw (e, page_table_map_page_frames) refl

map_stop :
    (pt pf index count flags : ℕ) (e : Errno) (m : Machine)
    → page_table_map_page_frame pt pf index flags m ≡ done (err e) m
    → page_table_map_page_frames pt pf index (suc count) flags m ≡ done (err e) m
unfolding page_table_map_page_frames
map_stop pt pf index count flags e m h = rw (h, page_table_map_page_frames) refl

map_none :
    (pt pf index flags : ℕ) (m : Machine)
    → page_table_map_page_frames pt pf index 0 flags m ≡ done (ok tt) m
unfolding page_table_map_page_frames
map_none pt pf index flags m = refl

-- Mapping a range of frames, of which none is 0 or has more than 20 bits, into entries inside a
-- table that is mapped at `pt` and stays so when its entries change, where the entries of the frame
-- map have 8 bits, `map_sem` has a free slot, and every counter is at least the number of the
-- table's references to its frame: whether the call succeeds or ends with an error after some of
-- the entries, each counter changes exactly as the number of the table's references to its frame,
-- and no memory outside the table changes.
pub page_table_map_page_frames-Kept :
    (count pt t pf index flags : ℕ) (m : Machine)
    → Pinned m pt t
    → IsReady m
    → Backed m t
    → 0 < pf
    → pf + count ≤ 2 ^ 20
    → index + count ≤ 1024
    → Kept m t (page_table_map_page_frames pt pf index count flags m)
page_table_map_page_frames-Kept zero pt t pf index flags m pin ready backed pos low fits =
    Kept-nothing m t (ok tt) _ ready (map_none pt pf index flags m)
page_table_map_page_frames-Kept (suc count) pt t pf index flags m pin ready backed pos low fits =
    let one =
      page_table_map_page_frame_lem m pt t (frame_now m pt t pin) index (omega arith) ready pf
        flags in
    elim one [
      | inr (e, refused) ↦
          Kept-nothing m t (err e) _ ready (map_stop pt pf index count flags e m refused)
      | inl w ↦
          let v = pte_create pf flags in
          let m' : Machine = record m { pmem = w.p'; word = put_word m.word t index v } in
          let new : (i : ℕ) → owned (pte_get_pageframe_index v) i ≡ hits pf i = λ i.
            let same : pte_get_pageframe_index v ≡ pf =
              omega (arith, (entry_roundtrip pf flags).0) in
            rw (same, ne→== pf 0 (omega arith)) refl in
          let first = Written-Balanced m t index v (hits pf) (omega arith) backed w new in
          rw (map_step pt pf index count flags m m' w.returns) (
            Kept-step m t index v (hits pf) (omega arith) backed w new _ (
              page_table_map_page_frames-Kept count pt t (pf + 1) (index + 1) flags m'
                (Pinned-after m pt t index v w.p' pin) (Follows-IsReady m m' ready w.follows)
                (Balanced-Backed m m' t first backed) (omega arith) (omega arith) (omega arith)))
    ]
