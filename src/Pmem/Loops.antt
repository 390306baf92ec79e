-- ===== src/Pmem/Loops.antt =====
-- What the loops of pmem.c over a range of the map do.
use opsys.Base.{
  ℕ, zero, suc, ◌+◌, ◌≤◌, ◌<◌, ◌≡◌, refl, ap, ◌∙◌, ◌⊎◌, inl, inr, Bool, true, false, not, sym, List,
  get_or, set, length, length-set, get_elem?-eq-get_or, get_or-set_self, get_or-set_ne, lt→ltb,
  Bool-cases, arith,
}
use opsys.Pmem.{Pmem, done, read, write, each_frame, find_allocable_frame, find_non_allocable_frame}
use opsys.Pmem.Frame.{is_allocable}

-- The entry of a page frame; frames outside the map count as not installed.
abbrev pub entry_at : List ℕ → ℕ → ℕ
entry_at map i = get_or map i 0

-- `map'` is `map` with `f` applied to the entries of [lo, hi) and to no other.
pub record IsUpdated (f : ℕ → ℕ) (map map' : List ℕ) (lo hi : ℕ) : Type 0 where
  pub same_length : length map' ≡ length map
  pub inside : (i : ℕ) → lo ≤ i → i < hi → entry_at map' i ≡ f (entry_at map i)
  pub outside : (i : ℕ) → (i < lo) ⊎ (hi ≤ i) → entry_at map' i ≡ entry_at map i

abbrev pub with_map : Pmem → List ℕ → Pmem
with_map p map = record p { map = map }

pub read_lem : (p : Pmem) (i : ℕ) → i < length p.map → read i p ≡ done (entry_at p.map i) p
unfolding read
read_lem p i h = rw (get_elem?-eq-get_or p.map i 0 h, read)

pub write_lem :
    (p : Pmem) (i v : ℕ) → i < length p.map → write i v p ≡ done tt (with_map p (set p.map i v))
unfolding write
write_lem p i v h = rw (lt→ltb i (length p.map) h)

pub IsUpdated-nil : (f : ℕ → ℕ) (map : List ℕ) (lo : ℕ) → IsUpdated f map map lo lo
IsUpdated-nil f map lo = record {
  same_length = refl;
  inside = λ i h k. absurd (omega arith);
  outside = λ i h. refl;
}

-- One more entry in front.
pub IsUpdated-first :
    (f : ℕ → ℕ) (map map' : List ℕ) (lo hi : ℕ)
    → lo < length map
    → lo < hi
    → IsUpdated f (set map lo (f (entry_at map lo))) map' (lo + 1) hi
    → IsUpdated f map map' lo hi
IsUpdated-first f map map' lo hi h k u = record {
  same_length = u.same_length ∙ length-set map lo (f (entry_at map lo));
  inside = λ i p q. ground (
    arith,
    u.inside i,
    u.outside i,
    get_or-set_self map lo (f (entry_at map lo)) 0,
    get_or-set_ne map lo i (f (entry_at map lo)) 0,
  );
  outside = λ i p. ground (arith, u.outside i, get_or-set_ne map lo i (f (entry_at map lo)) 0);
}

pub each_frame-IsUpdated :
    (f : ℕ → ℕ) (left beg hi : ℕ) (p : Pmem)
    → beg + left ≡ hi
    → hi ≤ length p.map
    → (map' : List ℕ) × (each_frame f left beg p ≡ done hi (with_map p map'))
      × IsUpdated f p.map map' beg hi
unfolding each_frame
each_frame-IsUpdated f zero beg hi p e h =
    let same : beg ≡ hi = omega arith in
    (p.map, ap (λ k. done k p) same, rw (sym same) (IsUpdated-nil f p.map beg))
each_frame-IsUpdated f (suc left) beg hi p e h =
    let v = f (entry_at p.map beg) in
    let rest =
      each_frame-IsUpdated f left (beg + 1) hi (with_map p (set p.map beg v)) (omega arith)
        (rw length-set h) in
    (
      rest.0,
      rw (read_lem p beg (omega arith), write_lem p beg v (omega arith)) rest.1,
      IsUpdated-first f p.map rest.0 beg hi (omega arith) (omega arith) rest.2,
    )

-- The two searches stop at the first entry that passes, or fails, the test.
pub record Stops (want : Bool) (map : List ℕ) (lo hi r : ℕ) : Type 0 where
  pub above : lo ≤ r
  pub below : r ≤ hi
  pub before : (i : ℕ) → lo ≤ i → i < r → is_allocable (entry_at map i) ≡ not want
  pub hit : r < hi → is_allocable (entry_at map r) ≡ want

Stops-here :
    (want : Bool) (map : List ℕ) (lo hi : ℕ)
    → lo ≤ hi
    → (lo < hi → is_allocable (entry_at map lo) ≡ want)
    → Stops want map lo hi lo
Stops-here want map lo hi le hit = record {
  above = omega arith;
  below = le;
  before = λ i h k. absurd (omega arith);
  hit = hit;
}

Stops-later :
    (want : Bool) (map : List ℕ) (lo hi r : ℕ)
    → is_allocable (entry_at map lo) ≡ not want
    → Stops want map (lo + 1) hi r
    → Stops want map lo hi r
Stops-later want map lo hi r miss s = record {
  above = omega (arith, s.above);
  below = s.below;
  before = λ i h k. ground (arith, s.before i);
  hit = s.hit;
}

pub find_allocable_frame-Stops :
    (left beg hi : ℕ) (p : Pmem)
    → beg + left ≡ hi
    → hi ≤ length p.map
    → (r : ℕ) × (find_allocable_frame left beg p ≡ done r p) × Stops true p.map beg hi r
unfolding find_allocable_frame
find_allocable_frame-Stops zero beg hi p e h =
    (beg, refl, Stops-here true p.map beg hi (omega arith) (λ k. absurd (omega arith)))
find_allocable_frame-Stops (suc left) beg hi p e h =
    elim (Bool-cases (is_allocable (entry_at p.map beg))) [
      | inl found ↦ (
        beg,
        rw (read_lem p beg (omega arith), found),
        Stops-here true p.map beg hi (omega arith) (λ k. found),
      )
      | inr miss ↦
          let rest = find_allocable_frame-Stops left (beg + 1) hi p (omega arith) h in
          (
            rest.0,
            rw (read_lem p beg (omega arith), miss) rest.1,
            Stops-later true p.map beg hi rest.0 miss rest.2,
          )
    ]

pub find_non_allocable_frame-Stops :
    (left beg hi : ℕ) (p : Pmem)
    → beg + left ≡ hi
    → hi ≤ length p.map
    → (r : ℕ) × (find_non_allocable_frame left beg p ≡ done r p) × Stops false p.map beg hi r
unfolding find_non_allocable_frame
find_non_allocable_frame-Stops zero beg hi p e h =
    (beg, refl, Stops-here false p.map beg hi (omega arith) (λ k. absurd (omega arith)))
find_non_allocable_frame-Stops (suc left) beg hi p e h =
    elim (Bool-cases (is_allocable (entry_at p.map beg))) [
      | inr found ↦ (
        beg,
        rw (read_lem p beg (omega arith), found),
        Stops-here false p.map beg hi (omega arith) (λ k. found),
      )
      | inl miss ↦
          let rest = find_non_allocable_frame-Stops left (beg + 1) hi p (omega arith) h in
          (
            rest.0,
            rw (read_lem p beg (omega arith), miss) rest.1,
            Stops-later false p.map beg hi rest.0 miss rest.2,
          )
    ]
