-- ===== src/Pmem/Refs/Rollback.antt =====
-- The checked loops of `pmem_claim_frames` and `pmem_ref_frames`, and the loop that undoes them.
use opsys.Base.{
  ℕ, zero, suc, ◌+◌, ◌-◌, ◌≤◌, ◌<◌, ◌≡◌, refl, ap, ◌∙◌, ◌⊎◌, inl, inr, List, set, length,
  length-set, get_or-set_self, get_or-set_ne, get_or_ext, Result, ok, err, Errno, arith, sym,
}
use opsys.Pmem.{Pmem, done, try_frames, undo_frames}
use opsys.Pmem.Frame.{ref_frame, unref_frame, unref_frame-ref_frame}
use opsys.Pmem.Loops.{
  entry_at, IsUpdated, with_map, read_lem, write_lem, IsUpdated-nil, IsUpdated-first,
}

-- Every entry fits its eight bits.
abbrev pub IsBytes : List ℕ → Type 0
IsBytes map = (i : ℕ) → i < length map → entry_at map i < 256

module _ (check : ℕ → Result ℕ) where
  -- The loop went through `left` entries from `lo` to `hi`.
  pub record Passed (p : Pmem) (left lo hi : ℕ) : Type 0 where
    pub map' : List ℕ
    pub run : try_frames check left lo p ≡ done (hi, ok tt) (with_map p map')
    pub updated : IsUpdated ref_frame p.map map' lo hi
    pub passes :
        (i : ℕ) → lo ≤ i → i < hi → check (entry_at p.map i) ≡ ok (ref_frame (entry_at p.map i))

  -- The loop stopped at an entry that the test refuses.
  pub record Failed (p : Pmem) (left lo hi : ℕ) : Type 0 where
    pub map' : List ℕ
    pub stop : ℕ
    pub error : Errno
    pub run : try_frames check left lo p ≡ done (stop, err error) (with_map p map')
    pub updated : IsUpdated ref_frame p.map map' lo stop
    pub above : lo ≤ stop
    pub below : stop < hi
    pub refuses : check (entry_at p.map stop) ≡ err error

Result-cases : (r : Result ℕ) → ((v : ℕ) × (r ≡ ok v)) ⊎ ((e : Errno) × (r ≡ err e))
Result-cases (ok v) = inl (v, refl)
Result-cases (err e) = inr (e, refl)

module _ (check : ℕ → Result ℕ) (sound : (m v : ℕ) → check m ≡ ok v → v ≡ ref_frame m) where
  pub try_frames_lem :
      (left lo hi : ℕ) (p : Pmem)
      → lo + left ≡ hi
      → hi ≤ length p.map
      → Passed check p left lo hi ⊎ Failed check p left lo hi
  unfolding try_frames
  try_frames_lem zero lo hi p e fits =
      let same : lo ≡ hi = omega arith in
      inl (record {
        map' = p.map;
        run = ap (λ k. done (k, ok tt) p) same;
        updated = rw (sym same) (IsUpdated-nil ref_frame p.map lo);
        passes = λ i h k. absurd (omega arith);
      })
  try_frames_lem (suc left) lo hi p e fits =
      let m = entry_at p.map lo in
      let fetch = read_lem p lo (omega arith) in
      let store = write_lem p lo (ref_frame m) (omega arith) in
      let next = set p.map lo (ref_frame m) in
      elim (Result-cases (check m)) [
        | inr (e', bad) ↦ inr (record {
          map' = p.map;
          stop = lo;
          error = e';
          run = rw (fetch, bad);
          updated = IsUpdated-nil ref_frame p.map lo;
          above = omega arith;
          below = omega arith;
          refuses = bad;
        })
        | inl (v, good) ↦
            let fine : check m ≡ ok (ref_frame m) = good ∙ ap ok (sound m v good) in
            elim (try_frames_lem left (lo + 1) hi (with_map p next) (omega arith)
              (rw length-set fits)) [
                | inl t ↦ inl (record {
                  map' = t.map';
                  run = rw (fetch, fine, store) t.run;
                  updated =
                      IsUpdated-first ref_frame p.map t.map' lo hi (omega arith) (omega arith)
                        t.updated;
                  passes = λ i h k.
                      ground (arith, t.passes i, get_or-set_ne p.map lo i (ref_frame m) 0, fine);
                })
                | inr b ↦ inr (record {
                  map' = b.map';
                  stop = b.stop;
                  error = b.error;
                  run = rw (fetch, fine, store) b.run;
                  updated =
                      IsUpdated-first ref_frame p.map b.map' lo b.stop (omega arith)
                        (omega (arith, b.above)) b.updated;
                  above = omega (arith, b.above);
                  below = b.below;
                  refuses =
                      rw (← get_or-set_ne p.map lo b.stop (ref_frame m) 0 (omega (arith, b.above)))
                        b.refuses;
                })
              ]
      ]

-- Undone from its end, an update by `ref_frame` leaves the map as it was.
pub undo_frames_lem :
    (back lo hi : ℕ) (p : Pmem) (map' : List ℕ)
    → lo + back ≡ hi
    → hi ≤ length p.map
    → IsBytes p.map
    → IsUpdated ref_frame p.map map' lo hi
    → undo_frames back hi (with_map p map') ≡ done tt p
unfolding undo_frames
undo_frames_lem zero lo hi p map' e fits bytes u =
    ap (λ m. done tt (with_map p m))
      (get_or_ext 0 map' p.map u.same_length (λ i h. u.outside i (omega arith)))
undo_frames_lem (suc back) lo hi p map' e fits bytes u =
    let b = hi - 1 in
    let old = entry_at p.map b in
    let now : entry_at map' b ≡ ref_frame old = u.inside b (omega arith) (omega arith) in
    let restored : unref_frame (entry_at map' b) ≡ old =
      rw now (unref_frame-ref_frame old (bytes b (omega arith))) in
    let room : b < length map' = omega (arith, u.same_length) in
    rw
      (
        read_lem (with_map p map') b room,
        write_lem (with_map p map') b (unref_frame (entry_at map' b)) room,
        restored,
      )
      (undo_frames_lem back lo b p (set map' b old) (omega arith) (omega arith) bytes (record {
        same_length = length-set map' b old ∙ u.same_length;
        inside = λ i h k. ground (arith, u.inside i, get_or-set_ne map' b i old 0);
        outside = λ i h.
            ground (arith, u.outside i, get_or-set_ne map' b i old 0, get_or-set_self map' b old 0);
      }))
