-- ===== src/Pmem/Lifetime.antt =====
-- Allocations over time: what is released is free again, and two allocations never overlap.
use opsys.Base.{
  ℕ, ◌+◌, ◌≤◌, ◌<◌, ◌≡◌, ◌≢◌, ap, ◌∙◌, ◌⊎◌, inl, inr, sym, true, false, List, length, Bool-cases,
  ok, arith, ltb, ltb→lt, ltb-false→le, ==→eq,
}
use Prim.Native.Nat.{max}
use mathlib.Core.Bool.{false≢true}
use mathlib.Core.Path.{subst}
use opsys.Pmem.{Pmem, done, pmem_claim_frames, pmem_unref_frames, pmem_alloc_frames}
use opsys.Pmem.Frame.{ref_frame, is_allocable, is_allocable-eq}
use opsys.Pmem.Loops.{entry_at, IsUpdated, with_map}
use opsys.Pmem.Alloc.{AreFree, pmem_alloc_frames_lem}
use opsys.Pmem.Refs.{
  IsBytes, Counted, pmem_claim_frames_lem, pmem_unref_frames_lem, Released-Counted,
}

done-injective : {A : Type 0} {a b : A} {p q : Pmem} → done a p ≡ done b q → (a ≡ b) × (p ≡ q)
done-injective e = (cc, cc)

pub Counted-IsBytes :
    (map map' : List ℕ) (lo hi : ℕ) → Counted map map' lo hi → IsBytes map → IsBytes map'
Counted-IsBytes map map' lo hi c bytes i h = elim (Bool-cases (ltb i lo)) [
  | inl before ↦
      omega (arith, c.outside i (inl (ltb→lt i lo before)), bytes i (omega (arith, c.same_length)))
  | inr on ↦ elim (Bool-cases (ltb i hi)) [
    | inr past ↦
        omega (
          arith,
          c.outside i (inr (ltb-false→le i hi past)),
          bytes i (omega (arith, c.same_length)),
        )
    | inl within ↦ omega (
      arith,
      c.kinds i (ltb-false→le i lo on) (ltb→lt i hi within),
      bytes i (omega (arith, c.same_length)),
    )
  ]
]

-- The counters of a counted range can be released again, which restores the map.
release-Counted :
    (p : Pmem) (map' : List ℕ) (pfindex n : ℕ)
    → IsBytes p.map
    → 0 < p.slots
    → pfindex + n ≤ length p.map
    → Counted p.map map' pfindex (pfindex + n)
    → pmem_unref_frames pfindex n (with_map p map') ≡ done tt p
release-Counted p map' pfindex n bytes slot fits c =
    let u =
      pmem_unref_frames_lem (with_map p map') pfindex n (omega (arith, c.same_length))
        (Counted-IsBytes p.map map' pfindex (pfindex + n) c bytes) slot in
    u.1
    ∙ ap (λ m. done tt (with_map p m)) (Released-Counted p.map map' u.0 pfindex (pfindex + n) c u.2)

-- In a map of 8-bit entries and with a free slot of `map_sem`: when `pmem_claim_frames` has
-- succeeded, `pmem_unref_frames` on the same range restores the allocator's state exactly.
pub unref-claim :
    (p q : Pmem) (pfindex n : ℕ)
    → IsBytes p.map
    → 0 < p.slots
    → pmem_claim_frames pfindex n p ≡ done (ok tt) q
    → pmem_unref_frames pfindex n q ≡ done tt p
unref-claim p q pfindex n bytes slot e = elim (pmem_claim_frames_lem p pfindex n bytes slot) [
  | inl s ↦
      rw (done-injective (sym e ∙ s.returns)).1
        (release-Counted p s.map' pfindex n bytes slot s.fits s.counted)
  | inr (inl r) ↦ absurd (cc (done-injective (sym e ∙ r.returns)).0)
  | inr (inr o) ↦ absurd (cc (done-injective (sym e ∙ o.returns)).0)
]

free_entry : (m : ℕ) → m < 256 → is_allocable m ≡ true → m ≡ 0x40
free_entry m h e = ==→eq m 0x40 (sym (is_allocable-eq m h) ∙ e)

-- Free frames that are referenced have the counter 1.
IsUpdated-Counted :
    (p : Pmem) (map' : List ℕ) (r n : ℕ)
    → IsBytes p.map
    → r + n ≤ length p.map
    → AreFree p.map r n
    → IsUpdated ref_frame p.map map' r (r + n)
    → Counted p.map map' r (r + n)
unfolding ref_frame
IsUpdated-Counted p map' r n bytes fits free u = record {
  same_length = u.same_length;
  counters = λ i h k.
      omega
        (arith, u.inside i h k, free_entry (entry_at p.map i) (bytes i (omega arith)) (free i h k));
  kinds = λ i h k.
      omega
        (arith, u.inside i h k, free_entry (entry_at p.map i) (bytes i (omega arith)) (free i h k));
  outside = u.outside;
}

-- A call that returned an index above 0 has allocated there.
alloc-Allocated :
    (p q : Pmem) (n r : ℕ)
    → 0 < n
    → 0 < p.slots
    → pmem_alloc_frames n p ≡ done r q
    → r ≢ 0
    → (map' : List ℕ) × (q ≡ with_map p map')
      × (1 ≤ r)
      × (r + n ≤ length p.map)
      × AreFree p.map r n
      × IsUpdated ref_frame p.map map' r (r + n)
alloc-Allocated p q n r pos slot e ne = elim (pmem_alloc_frames_lem p n pos slot) [
  | inl a ↦
      let both = done-injective (sym e ∙ a.returns) in
      (a.map', both.1, rw both.0 a.above, rw both.0 a.fits, rw both.0 a.free, rw both.0 a.updated)
  | inr ex ↦ absurd (ne (done-injective (sym e ∙ ex.returns)).0)
]

-- In a map of 8-bit entries and with a free slot of `map_sem`: releasing the `n` frames that
-- `pmem_alloc_frames` has returned restores the allocator's state exactly.
pub unref-alloc :
    (p q : Pmem) (n r : ℕ)
    → 0 < n
    → IsBytes p.map
    → 0 < p.slots
    → pmem_alloc_frames n p ≡ done r q
    → r ≢ 0
    → pmem_unref_frames r n q ≡ done tt p
unref-alloc p q n r pos bytes slot e ne =
    let a = alloc-Allocated p q n r pos slot e ne in
    rw a.1
      (release-Counted p a.0 r n bytes slot a.3 (IsUpdated-Counted p a.0 r n bytes a.3 a.4 a.5))

-- A frame just allocated is no longer free, so a range that is free now lies beside it.
taken_not_free :
    (map map' : List ℕ) (r n j : ℕ)
    → IsBytes map
    → r + n ≤ length map
    → AreFree map r n
    → IsUpdated ref_frame map map' r (r + n)
    → r ≤ j
    → j < r + n
    → is_allocable (entry_at map' j) ≡ false
unfolding ref_frame
taken_not_free map map' r n j bytes fits free u h k =
    let old = free_entry (entry_at map j) (bytes j (omega arith)) (free j h k) in
    let now : entry_at map' j ≡ 0x41 = omega (arith, u.inside j h k, old) in
    rw now (is_allocable-eq 0x41 (omega arith))

beside :
    (map map' : List ℕ) (r n s m : ℕ)
    → 0 < n
    → 0 < m
    → IsBytes map
    → r + n ≤ length map
    → AreFree map r n
    → IsUpdated ref_frame map map' r (r + n)
    → AreFree map' s m
    → (r + n ≤ s) ⊎ (s + m ≤ r)
beside map map' r n s m pos pos' bytes fits free u free' = elim (Bool-cases (ltb s (r + n))) [
  | inr past ↦ inl (ltb-false→le s (r + n) past)
  | inl below ↦ elim (Bool-cases (ltb r (s + m))) [
    | inr past ↦ inr (ltb-false→le r (s + m) past)
    | inl below' ↦
        let j = max r s in
        absurd (
          false≢true (
            sym (
              taken_not_free map map' r n j bytes fits free u (omega arith)
                (omega (arith, ltb→lt s (r + n) below)))
            ∙ free' j (omega arith) (omega (arith, ltb→lt r (s + m) below'))))
  ]
]

-- In a map of 8-bit entries and with a free slot of `map_sem`: the frames of two successive
-- allocations that both succeed do not overlap.
pub alloc_disjoint :
    (p q q' : Pmem) (n m r s : ℕ)
    → 0 < n
    → 0 < m
    → IsBytes p.map
    → 0 < p.slots
    → pmem_alloc_frames n p ≡ done r q
    → r ≢ 0
    → pmem_alloc_frames m q ≡ done s q'
    → s ≢ 0
    → (r + n ≤ s) ⊎ (s + m ≤ r)
alloc_disjoint p q q' n m r s pos pos' bytes slot e ne e' ne' =
    let a = alloc-Allocated p q n r pos slot e ne in
    let b = alloc-Allocated q q' m s pos' (rw a.1 slot) e' ne' in
    beside p.map a.0 r n s m pos pos' bytes a.3 a.4 a.5
      (subst (λ t. AreFree t s m) (ap (λ (t : Pmem). t.map) a.1) b.4)
