-- ===== src/Boot/Counts.antt =====
-- The reference counters after the claims of the kernel's sections.
use opsys.Base.{
  ℕ, ◌+◌, ◌≤◌, ◌<◌, ◌≡◌, refl, ap, ◌∙◌, arith, ◌⊎◌, inl, inr, Bool, true, false, ◌&&◌, leb, ltb,
  if◌then◌else◌, List, [], ◌∷◌, ◌++◌, length, Result, ok, err, Errno, enomem,
}
use opsys.Boot.{FrameRange}
use opsys.Boot.Claims.{claim_kernel_frames, each_range}
use opsys.Pmem.{Pmem, Run, done, pmem_claim_frames}
use opsys.Pmem.Loops.{entry_at, with_map}
use opsys.Pmem.Refs.{IsBytes, counter, kind, Counted, pmem_claim_frames_lem}

-- How many of the ranges the frame `i` lies in.
unfoldable pub covering : List FrameRange → ℕ → ℕ
covering [] i = 0
covering (r ∷ rs) i =
    (if leb r.pfindex i && ltb i (r.pfindex + r.nframes) then 1 else 0) + covering rs i

-- The counter of every frame went up by the number of ranges that it lies in.
pub record Tallied (map map' : List ℕ) (rs : List FrameRange) : Type 0 where
  pub same_length : length map' ≡ length map
  pub bytes : IsBytes map'
  pub counters : (i : ℕ) → counter (entry_at map' i) ≡ counter (entry_at map i) + covering rs i
  pub kinds : (i : ℕ) → kind (entry_at map' i) ≡ kind (entry_at map i)

in_range : ℕ → ℕ → ℕ → Bool
in_range lo hi i = leb lo i && ltb i hi

in_range_cases :
    (lo hi i : ℕ)
    → ((in_range lo hi i ≡ true) × (lo ≤ i) × (i < hi))
      ⊎ ((in_range lo hi i ≡ false) × ((i < lo) ⊎ (hi ≤ i)))
unfolding in_range
in_range_cases lo hi i = ground arith

covering_step :
    (r : FrameRange) (rs : List FrameRange) (i : ℕ)
    → covering (r ∷ rs) i
      ≡ (if in_range r.pfindex (r.pfindex + r.nframes) i then 1 else 0) + covering rs i
unfolding covering in_range
covering_step r rs i = refl

module _ (map map1 map' : List ℕ) (r : FrameRange) (rs : List FrameRange)
    (one : Counted map map1 r.pfindex (r.pfindex + r.nframes)) where
  one_range :
      (i : ℕ)
      → (counter (entry_at map1 i)
          ≡ counter (entry_at map i)
            + (if in_range r.pfindex (r.pfindex + r.nframes) i then 1 else 0))
        × (kind (entry_at map1 i) ≡ kind (entry_at map i))
  one_range i = elim (in_range_cases r.pfindex (r.pfindex + r.nframes) i) [
    | inl (inside, above, below) ↦ rw inside (one.counters i above below, one.kinds i above below)
    | inr (out, apart) ↦
        let same = one.outside i apart in rw out (omega (arith, ap counter same), ap kind same)
  ]

  one_range-IsBytes : IsBytes map → IsBytes map1
  one_range-IsBytes bytes i below =
      omega (arith, bytes i (omega (arith, one.same_length)), (one_range i).1)

  one_more : Tallied map1 map' rs → Tallied map map' (r ∷ rs)
  one_more rest = record {
    same_length = rest.same_length ∙ one.same_length;
    bytes = rest.bytes;
    counters = λ i. omega (arith, rest.counters i, (one_range i).0, covering_step r rs i);
    kinds = λ i. rest.kinds i ∙ (one_range i).1;
  }

none_claimed : (map : List ℕ) → IsBytes map → Tallied map map []
unfolding covering
none_claimed map bytes = record {
  same_length = refl;
  bytes = bytes;
  counters = λ i. omega arith;
  kinds = λ i. refl;
}

-- The claim of the first of the ranges fails on the state `p`, with this result and no change.
abbrev pub Failing : Pmem → List FrameRange → Result (Unit {0}) → Type 0
Failing p rest res =
    (e : Errno) × (r : FrameRange) × (after : List FrameRange) × (res ≡ err e)
    × (rest ≡ r ∷ after)
    × (pmem_claim_frames r.pfindex r.nframes p ≡ done (err e) p)

-- The claims went through up to some range: all of them if the call succeeded, and otherwise up to
-- one whose claim fails with the error of the call.
pub record Claimed (p : Pmem) (sections : List FrameRange) (r : Run (Result (Unit {0})))
    : Type 0 where
  pub claimed : List FrameRange
  pub rest : List FrameRange
  pub split : sections ≡ claimed ++ rest
  pub res : Result (Unit {0})
  pub map' : List ℕ
  pub returns : r ≡ done res (with_map p map')
  pub tallied : Tallied p.map map' claimed
  pub complete : ((res ≡ ok tt) × (rest ≡ [])) ⊎ Failing (with_map p map') rest res

-- In a map of 8-bit entries and with a free slot of `map_sem`, `claim_kernel_frames` ends with the
-- slot given back. It claims the ranges of the sections in order, all of them or up to the first
-- claim that fails, whose error it returns without taking back the claims before; the counter of
-- every frame goes up by the number of claimed ranges that the frame lies in, and no type changes.
pub claim_kernel_frames-Claimed :
    (sections : List FrameRange) (p : Pmem)
    → IsBytes p.map
    → 0 < p.slots
    → Claimed p sections (claim_kernel_frames sections p)
unfolding claim_kernel_frames each_range
claim_kernel_frames-Claimed [] p bytes slot = record {
  claimed = [];
  rest = [];
  split = refl;
  res = ok tt;
  map' = p.map;
  returns = refl;
  tallied = none_claimed p.map bytes;
  complete = inl (refl, refl);
}
claim_kernel_frames-Claimed (r ∷ rs) p bytes slot =
    elim (pmem_claim_frames_lem p r.pfindex r.nframes bytes slot) [
      | inl s ↦
          let later =
            claim_kernel_frames-Claimed rs (with_map p s.map')
              (one_range-IsBytes p.map s.map' s.map' r rs s.counted bytes) slot in
          record {
            claimed = r ∷ later.claimed;
            rest = later.rest;
            split = ap (λ xs. r ∷ xs) later.split;
            res = later.res;
            map' = later.map';
            returns = rw s.returns later.returns;
            tallied = one_more p.map s.map' later.map' r later.claimed s.counted later.tallied;
            complete = later.complete;
          }
      | inr (inl f) ↦ record {
        claimed = [];
        rest = r ∷ rs;
        split = refl;
        res = err f.error;
        map' = p.map;
        returns = rw f.returns refl;
        tallied = none_claimed p.map bytes;
        complete = inr (f.error, r, rs, refl, refl, f.returns);
      }
      | inr (inr f) ↦ record {
        claimed = [];
        rest = r ∷ rs;
        split = refl;
        res = err enomem;
        map' = p.map;
        returns = rw f.returns refl;
        tallied = none_claimed p.map bytes;
        complete = inr (enomem, r, rs, refl, refl, f.returns);
      }
    ]
