-- ===== src/Pmem/Refs.antt =====
-- `pmem_claim_frames`, `pmem_ref_frames` and `pmem_unref_frames`: the reference counters of a
-- range go up or down together, and a failing call changes none.
mod Rollback
pub use Rollback.{IsBytes}
use mathlib.Core.Option
use opsys.Base.{
  ℕ, ◌+◌, ◌-◌, ◌%◌, ◌/◌, ◌≤◌, ◌<◌, ◌≡◌, refl, ap, ◌∙◌, ◌⊎◌, inl, inr, sym, Bool, true, false, List,
  length, get_or_ext, Bool-cases, Result, ok, err, Errno, eoverflow, enodev, enomem, arith, ltb,
  ◌==◌, ltb→lt, ltb-false→le, ne→==, le→ltb-false, if◌then◌else◌, none, some, Option,
}
use opsys.Pmem.{
  Pmem, Run, done, pure, and_then, ◌>>=◌, ◌>>◌, out_of_range, checked_range, check_claim, check_ref,
  pmem_claim_frames, pmem_ref_frames, pmem_unref_frames, unref_or_keep,
}
use opsys.Pmem.Frame.{
  ref_frame, get_ref, get_type, checked_ref_frame, checked_unref_frame, can_ref, can_unref,
  unref_frame, get_ref_lem, get_type_lem,
}
use opsys.Pmem.Loops.{entry_at, IsUpdated, with_map, each_frame-IsUpdated}
use opsys.Pmem.Alloc.{slot_back, out_of_range_lem}
use Rollback.{Passed, Failed, try_frames_lem, undo_frames_lem}

-- The reference counter and the type of an entry.
abbrev pub counter : ℕ → ℕ
counter m = m % 64

abbrev pub kind : ℕ → ℕ
kind m = m / 64

-- Each counter of the range went up by one, no type and no other entry changed.
pub record Counted (map map' : List ℕ) (lo hi : ℕ) : Type 0 where
  pub same_length : length map' ≡ length map
  pub counters :
      (i : ℕ) → lo ≤ i → i < hi → counter (entry_at map' i) ≡ counter (entry_at map i) + 1
  pub kinds : (i : ℕ) → lo ≤ i → i < hi → kind (entry_at map' i) ≡ kind (entry_at map i)
  pub outside : (i : ℕ) → (i < lo) ⊎ (hi ≤ i) → entry_at map' i ≡ entry_at map i

-- The three ways in which a call on `n` frames from `pfindex` ends.
pub record Succeeds (good : ℕ → Type 0) (p : Pmem) (pfindex n : ℕ) (r : Run (Result (Unit {0})))
    : Type 0 where
  pub map' : List ℕ
  pub returns : r ≡ done (ok tt) (with_map p map')
  pub fits : pfindex + n ≤ length p.map
  pub counted : Counted p.map map' pfindex (pfindex + n)
  pub valid : (i : ℕ) → pfindex ≤ i → i < pfindex + n → good (entry_at p.map i)

pub record Refused (bad : ℕ → Errno → Type 0) (p : Pmem) (pfindex n : ℕ)
    (r : Run (Result (Unit {0}))) : Type 0 where
  pub error : Errno
  pub stop : ℕ
  pub returns : r ≡ done (err error) p
  pub above : pfindex ≤ stop
  pub below : stop < pfindex + n
  pub fits : pfindex + n ≤ length p.map
  pub reason : bad (entry_at p.map stop) error

pub record Outside (p : Pmem) (pfindex n : ℕ) (r : Run (Result (Unit {0}))) : Type 0 where
  pub returns : r ≡ done (err enomem) p
  pub outside : length p.map < pfindex + n

-- The frames that `pmem_claim_frames`, and those that `pmem_ref_frames` takes.
abbrev pub ClaimFit : ℕ → Type 0
ClaimFit m = counter m < 63

abbrev pub RefFit : ℕ → Type 0
RefFit m = (0 < counter m) × (counter m < 63)

-- Why `pmem_claim_frames`, and why `pmem_ref_frames`, refuses a frame.
abbrev pub ClaimFault : ℕ → Errno → Type 0
ClaimFault m e = (counter m ≡ 63) × (e ≡ eoverflow)

abbrev pub RefFault : ℕ → Errno → Type 0
RefFault m e = (counter m ≡ 0) × (e ≡ enodev) ⊎ (counter m ≡ 63) × (e ≡ eoverflow)

abbrev Outcomes :
    (ℕ → Type 0) → (ℕ → Errno → Type 0) → Pmem → ℕ → ℕ → Run (Result (Unit {0})) → Type 0
Outcomes good bad p pfindex n r =
    Succeeds good p pfindex n r ⊎ (Refused bad p pfindex n r ⊎ Outside p pfindex n r)

module _ (check : ℕ → Result ℕ) (good : ℕ → Type 0) (bad : ℕ → Errno → Type 0)
    (sound : (m v : ℕ) → check m ≡ ok v → (v ≡ ref_frame m) × (counter m < 63) × good m)
    (faults : (m : ℕ) (e : Errno) → check m ≡ err e → bad m e) where
  checked_range_lem :
      (p : Pmem) (pfindex n : ℕ)
      → IsBytes p.map
      → 0 < p.slots
      → Outcomes good bad p pfindex n (checked_range check pfindex n p)
  unfolding checked_range ref_frame
  checked_range_lem p pfindex n bytes slot = elim (Bool-cases (out_of_range p pfindex n)) [
    | inl out ↦
        inr (inr (record { returns = rw out; outside = ltb→lt _ _ (rw out_of_range_lem at out) }))
    | inr within ↦
        let q : Pmem = record p { slots = p.slots - 1 } in
        let enter : (p.slots == 0) ≡ false = ne→== p.slots 0 (omega arith) in
        let fits : pfindex + n ≤ length p.map = ltb-false→le _ _ (rw out_of_range_lem at within) in
        elim (try_frames_lem check (λ m v e. (sound m v e).0) n pfindex (pfindex + n) q refl fits) [
          | inl t ↦ inl (record {
            map' = t.map';
            returns = rw (within, enter, t.run) (slot_back (ok tt) p t.map' slot);
            fits = fits;
            valid = λ i h k. (sound _ _ (t.passes i h k)).2;
            counted = record {
              same_length = t.updated.same_length;
              counters =
                  λ i h k. omega (arith, t.updated.inside i h k, (sound _ _ (t.passes i h k)).1);
              kinds = λ i h k. omega (
                arith,
                t.updated.inside i h k,
                (sound _ _ (t.passes i h k)).1,
                bytes i (omega arith),
              );
              outside = t.updated.outside;
            };
          })
          | inr b ↦ inr (
              inl (record {
                error = b.error;
                stop = b.stop;
                returns =
                    rw
                      (
                        within,
                        enter,
                        b.run,
                        undo_frames_lem (b.stop - pfindex) pfindex b.stop q b.map'
                            (omega (arith, b.above)) (omega (arith, b.below)) bytes b.updated,
                      )
                      (slot_back (err b.error) p p.map slot);
                above = b.above;
                below = b.below;
                fits = fits;
                reason = faults _ _ b.refuses;
              }))
        ]
  ]

check_claim_sound :
    (m v : ℕ) → check_claim m ≡ ok v → (v ≡ ref_frame m) × (counter m < 63) × ClaimFit m
unfolding check_claim checked_ref_frame can_ref
check_claim_sound m v e = ground (arith, get_ref_lem m)

check_claim-fault : (m : ℕ) (e : Errno) → check_claim m ≡ err e → ClaimFault m e
unfolding check_claim checked_ref_frame can_ref
check_claim-fault m e h = ground (arith, get_ref_lem m)

check_ref_sound : (m v : ℕ) → check_ref m ≡ ok v → (v ≡ ref_frame m) × (counter m < 63) × RefFit m
unfolding check_ref checked_ref_frame can_ref
check_ref_sound m v e = ground (arith, get_ref_lem m)

check_ref-fault : (m : ℕ) (e : Errno) → check_ref m ≡ err e → RefFault m e
unfolding check_ref checked_ref_frame can_ref
check_ref-fault m e h = ground (arith, get_ref_lem m)

module _ (p : Pmem) (pfindex n : ℕ) (bytes : IsBytes p.map) (slot : 0 < p.slots) where
  -- In a map of 8-bit entries and with a free slot of `map_sem`, `pmem_claim_frames` ends with
  -- the slot given back in one of three ways. It succeeds on a range inside the map with no full
  -- counter: each counter went up by one, no type and no other entry changed. Or it returns
  -- `-EOVERFLOW` since a frame of the range has the full counter 63, and the map is unchanged.
  -- Or the range does not lie in the map, and it returns `-ENOMEM` with the map unchanged.
  pub pmem_claim_frames_lem :
      Outcomes ClaimFit ClaimFault p pfindex n (pmem_claim_frames pfindex n p)
  unfolding pmem_claim_frames
  pmem_claim_frames_lem =
      checked_range_lem check_claim ClaimFit ClaimFault check_claim_sound check_claim-fault p
        pfindex n bytes slot

  -- In a map of 8-bit entries and with a free slot of `map_sem`, `pmem_ref_frames` ends with the
  -- slot given back in one of three ways. It succeeds on a range inside the map whose counters
  -- are neither 0 nor 63: each counter went up by one, no type and no other entry changed. Or it
  -- returns, with the map unchanged, `-ENODEV` for a frame of the range with counter 0 or
  -- `-EOVERFLOW` for one with counter 63. Or the range does not lie in the map, and it returns
  -- `-ENOMEM` with the map unchanged.
  pub pmem_ref_frames_lem : Outcomes RefFit RefFault p pfindex n (pmem_ref_frames pfindex n p)
  unfolding pmem_ref_frames
  pmem_ref_frames_lem =
      checked_range_lem check_ref RefFit RefFault check_ref_sound check_ref-fault p pfindex n bytes
        slot

unref_or_keep_lem :
    (m : ℕ)
    → m < 256
    → (counter (unref_or_keep m) ≡ counter m - 1)
      × (kind (unref_or_keep m) ≡ kind m)
      × (unref_or_keep m < 256)
unfolding unref_or_keep checked_unref_frame can_unref
unref_or_keep_lem m h = ground (arith, get_ref_lem m)

-- Each counter of the range went down by one, those at 0 stay.
pub record Released (map map' : List ℕ) (lo hi : ℕ) : Type 0 where
  pub same_length : length map' ≡ length map
  pub counters :
      (i : ℕ) → lo ≤ i → i < hi → counter (entry_at map' i) ≡ counter (entry_at map i) - 1
  pub kinds : (i : ℕ) → lo ≤ i → i < hi → kind (entry_at map' i) ≡ kind (entry_at map i)
  pub outside : (i : ℕ) → (i < lo) ⊎ (hi ≤ i) → entry_at map' i ≡ entry_at map i

-- In a map of 8-bit entries, on a range inside it and with a free slot of `map_sem`,
-- `pmem_unref_frames` ends with the slot given back: each counter of the range went down by one,
-- or stays at 0, and no type and no other entry changed.
pub pmem_unref_frames_lem :
    (p : Pmem) (pfindex n : ℕ)
    → pfindex + n ≤ length p.map
    → IsBytes p.map
    → 0 < p.slots
    → (map' : List ℕ) × (pmem_unref_frames pfindex n p ≡ done tt (with_map p map'))
      × Released p.map map' pfindex (pfindex + n)
unfolding pmem_unref_frames
pmem_unref_frames_lem p pfindex n fits bytes slot =
    let q : Pmem = record p { slots = p.slots - 1 } in
    let enter : (p.slots == 0) ≡ false = ne→== p.slots 0 (omega arith) in
    let u = each_frame-IsUpdated unref_or_keep n pfindex (pfindex + n) q refl fits in
    (
      u.0,
      rw (out_of_range_lem p pfindex n, le→ltb-false (length p.map) (pfindex + n) fits, enter, u.1)
          (slot_back tt p u.0 slot),
      record {
        same_length = u.2.same_length;
        counters = λ i h k.
            omega (
              arith,
              u.2.inside i h k,
              unref_or_keep_lem (entry_at p.map i) (bytes i (omega arith)),
            );
        kinds = λ i h k.
            omega (
              arith,
              u.2.inside i h k,
              unref_or_keep_lem (entry_at p.map i) (bytes i (omega arith)),
            );
        outside = u.2.outside;
      },
    )

entry_eq : (a b : ℕ) → kind a ≡ kind b → counter a ≡ counter b → a ≡ b
entry_eq a b h k = omega arith

-- Counters that went up and then down are the same again.
pub Released-Counted :
    (map map' map'' : List ℕ) (lo hi : ℕ)
    → Counted map map' lo hi
    → Released map' map'' lo hi
    → map'' ≡ map
Released-Counted map map' map'' lo hi c r =
    get_or_ext 0 map'' map (r.same_length ∙ c.same_length) λ i h. elim (Bool-cases (ltb i lo)) [
      | inl before ↦ let below = inl (ltb→lt i lo before) in r.outside i below ∙ c.outside i below
      | inr on ↦ elim (Bool-cases (ltb i hi)) [
        | inr past ↦
            let above = inr (ltb-false→le i hi past) in r.outside i above ∙ c.outside i above
        | inl in_range ↦
            let lo_le = ltb-false→le i lo on in
            let lt_hi = ltb→lt i hi in_range in
            entry_eq (entry_at map'' i) (entry_at map i)
              (r.kinds i lo_le lt_hi ∙ c.kinds i lo_le lt_hi)
              (omega (arith, r.counters i lo_le lt_hi, c.counters i lo_le lt_hi))
      ]
    ]
