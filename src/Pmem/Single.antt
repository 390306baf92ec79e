-- ===== src/Pmem/Single.antt =====
-- References to single page frames, by what they do to the counter of every frame.
use opsys.Base.{
  ℕ, ◌+◌, ◌-◌, ◌≤◌, ◌<◌, ◌≡◌, ◌≢◌, refl, ◌⊎◌, inl, inr, List, length, Bool-cases, eq-cases, ◌==◌,
  if◌then◌else◌, ok, err, Errno, arith, ltb, ltb→lt, ltb-false→le, eq→==, ne→==, get_or-out,
}
use opsys.Pmem.{Pmem, done, pmem_ref_frames, pmem_unref_frames}
use opsys.Pmem.Alloc.{out_of_range_lem}
use opsys.Pmem.Loops.{entry_at, with_map}
use opsys.Pmem.Lifetime.{Counted-IsBytes}
use opsys.Pmem.Refs.{
  IsBytes, counter, RefFault, Released, pmem_ref_frames_lem, pmem_unref_frames_lem,
}

-- 1 at the frame, 0 at all others.
abbrev pub hits : ℕ → ℕ → ℕ
hits f i = if i == f then 1 else 0

-- The allocator between two calls: as many slots and frames as before, and 8-bit entries.
pub record Follows (p p' : Pmem) : Type 0 where
  pub slots : p'.slots ≡ p.slots
  pub same_length : length p'.map ≡ length p.map
  pub bytes : IsBytes p'.map

abbrev pub counter_of : Pmem → ℕ → ℕ
counter_of p i = counter (entry_at p.map i)

-- The frame got one more reference.
pub record RefOne (p : Pmem) (f : ℕ) : Type 0 where
  pub p' : Pmem
  pub returns : pmem_ref_frames f 1 p ≡ done (ok tt) p'
  pub follows : Follows p p'
  pub counters : (i : ℕ) → counter_of p' i ≡ counter_of p i + hits f i
  pub inside : f < length p.map
  pub used : (0 < counter_of p f) × (counter_of p f < 63)

-- The call was refused, which it is only for a frame outside the map, unused, or used 63 times.
pub record RefNone (p : Pmem) (f : ℕ) : Type 0 where
  pub error : Errno
  pub returns : pmem_ref_frames f 1 p ≡ done (err error) p
  pub reason : f < length p.map → 0 < counter_of p f → counter_of p f < 63 → ⊥

-- The frame lost a reference, if it had one.
pub record UnrefOne (p : Pmem) (f : ℕ) : Type 0 where
  pub p' : Pmem
  pub returns : pmem_unref_frames f 1 p ≡ done tt p'
  pub follows : Follows p p'
  pub counters : (i : ℕ) → counter_of p' i ≡ counter_of p i - hits f i

refused_fits : (m : ℕ) (e : Errno) → RefFault m e → 0 < counter m → counter m < 63 → ⊥
refused_fits m e (inl (zero_count, _)) h k = omega arith
refused_fits m e (inr (full_count, _)) h k = omega arith

either_side : (i f : ℕ) → i ≢ f → (i < f) ⊎ (f + 1 ≤ i)
either_side i f ne = elim (Bool-cases (ltb i f)) [
  | inl below ↦ inl (ltb→lt i f below)
  | inr on ↦ inr (omega (arith, ltb-false→le i f on))
]

module _ (p : Pmem) (f : ℕ) (bytes : IsBytes p.map) (slot : 0 < p.slots) where
  pub ref_one : RefOne p f ⊎ RefNone p f
  ref_one = elim (pmem_ref_frames_lem p f 1 bytes slot) [
    | inl s ↦
        let c = s.counted in
        inl (record {
          p' = with_map p s.map';
          returns = s.returns;
          follows = record {
            slots = refl;
            same_length = c.same_length;
            bytes = Counted-IsBytes p.map s.map' f (f + 1) c bytes;
          };
          counters = λ i. elim (eq-cases i f) [
            | inl e ↦ rw (eq→== i f e) (c.counters i (omega arith) (omega arith))
            | inr ne ↦ rw (ne→== i f ne) (omega (arith, c.outside i (either_side i f ne)))
          ];
          inside = omega (arith, s.fits);
          used = s.valid f (omega arith) (omega arith);
        })
    | inr (inl r) ↦ inr (record {
      error = r.error;
      returns = r.returns;
      reason = λ h k l.
          let same : r.stop ≡ f = omega (arith, r.above, r.below) in
          refused_fits (entry_at p.map f) r.error (rw same at r.reason) k l;
    })
    | inr (inr o) ↦
        inr (record { error = _; returns = o.returns; reason = λ h k l. omega (arith, o.outside) })
  ]

  Released-IsBytes : (map' : List ℕ) → Released p.map map' f (f + 1) → IsBytes map'
  Released-IsBytes map' r i h = elim (eq-cases i f) [
    | inl e ↦
        omega (arith, r.kinds i (omega arith) (omega arith), bytes i (omega (arith, r.same_length)))
    | inr ne ↦
        omega (arith, r.outside i (either_side i f ne), bytes i (omega (arith, r.same_length)))
  ]

  pub unref_one : UnrefOne p f
  unfolding pmem_unref_frames
  unref_one = elim (Bool-cases (ltb (length p.map) (f + 1))) [
    | inl out ↦ record {
      p' = p;
      returns = rw (out_of_range_lem p f 1, out);
      follows = record { slots = refl; same_length = refl; bytes = bytes };
      counters = λ i. elim (eq-cases i f) [
        | inl e ↦
            let none : entry_at p.map i ≡ 0 =
              get_or-out p.map i 0 (omega (arith, ltb→lt (length p.map) (f + 1) out)) in
            rw none (omega arith)
        | inr ne ↦ rw (ne→== i f ne) (omega arith)
      ];
    }
    | inr fits ↦
        let u = pmem_unref_frames_lem p f 1 (ltb-false→le (length p.map) (f + 1) fits) bytes slot in
        record {
          p' = with_map p u.0;
          returns = u.1;
          follows = record {
            slots = refl;
            same_length = u.2.same_length;
            bytes = Released-IsBytes u.0 u.2;
          };
          counters = λ i. elim (eq-cases i f) [
            | inl e ↦ rw (eq→== i f e) (u.2.counters i (omega arith) (omega arith))
            | inr ne ↦ rw (ne→== i f ne) (omega (arith, u.2.outside i (either_side i f ne)))
          ];
        }
  ]
