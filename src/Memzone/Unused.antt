-- ===== src/Memzone/Unused.antt =====
-- The search for chunks that are allocated and not in use.
use opsys.Base.{
  ℕ, zero, suc, ◌+◌, ◌-◌, ◌*◌, ◌^◌, ◌≤◌, ◌<◌, ◌≡◌, refl, arith, ltb, ltb→lt, ltb-false→le, ◌⊎◌, inl,
  inr, Bool, true, false, Bool-cases, some, List, length, ok, err, eagain,
}
use opsys.Base.Partial.{Ends, ends_return, ends_bind, ends_map}
use opsys.Bitset.Laws.{isset_lem}
use opsys.Memzone.{
  Memzone, flag_alloced, memzone_get_flags, is_unused, probe, search_from, search_limit,
  memzone_search_unused,
}
use opsys.Memzone.Flags.{HasFlags, flags_of, get_flags_lem}

-- The first `n` chunks are allocated and not in use.
unfoldable pub UnusedBelow : List ℕ → ℕ → Type 0
UnusedBelow flags zero = Unit {0}
UnusedBelow flags (suc n) = UnusedBelow flags n × (memzone_get_flags flags n ≡ some flag_alloced)

one_more :
    (flags : List ℕ) (n m : ℕ)
    → m ≡ suc n
    → UnusedBelow flags n
    → memzone_get_flags flags n ≡ some flag_alloced
    → UnusedBelow flags m
unfolding UnusedBelow
one_more flags n m e below here = rw e (below, here)

same_below : (flags : List ℕ) (n m : ℕ) → m ≡ n → UnusedBelow flags n → UnusedBelow flags m
same_below flags n m e below = rw e below

-- The flags of a chunk can be read, and the test of the loop passes for one value only.
abbrev Read : List ℕ → ℕ → ℕ → Type 0
Read flags i f =
    (is_unused f ≡ false) ⊎ ((is_unused f ≡ true) × (memzone_get_flags flags i ≡ some flag_alloced))

flags_known :
    (flags : List ℕ) (i : ℕ) → HasFlags flags i → Ends (Read flags i) (memzone_get_flags flags i)
unfolding is_unused
flags_known flags i has =
    let read =
      get_flags_lem flags i _ _ (isset_lem flags (2 * i) (omega arith))
        (isset_lem flags (2 * i + 1) (omega arith)) in
    (_, read, by_bits _ _ read)
  where
    by_bits :
        (alloced inuse : Bool)
        → memzone_get_flags flags i ≡ some (flags_of alloced inuse)
        → Read flags i (flags_of alloced inuse)
    by_bits true true e = inl refl
    by_bits true false e = inr (refl, e)
    by_bits false true e = inl refl
    by_bits false false e = inl refl

-- How a loop ends: at a chunk that is not free to use, or after all of them passed.
abbrev Stopped : (ℕ → Type 0) → Bool × ℕ → Type 0
Stopped P r = (r.0 ≡ false) ⊎ ((r.0 ≡ true) × P r.1)

abbrev Probed : List ℕ → ℕ → ℕ → ℕ → Type 0
Probed flags chunk end n = (n ≡ end) × UnusedBelow flags (chunk + n)

abbrev Searched : List ℕ → ℕ → ℕ → Type 0
Searched flags limit chunk = (limit ≤ chunk) × UnusedBelow flags chunk

probe_lem :
    (flags : List ℕ) (left chunk j : ℕ)
    → HasFlags flags (chunk + j + left)
    → UnusedBelow flags (chunk + j)
    → Ends (Stopped (Probed flags chunk (j + left + 1))) (probe flags left chunk j)
unfolding probe
probe_lem flags zero chunk j has below =
    ends_bind (flags_known flags (chunk + j) (omega arith)) λ f o. ends_return _ (elim o [
      | inl stop ↦ inl stop
      | inr (go, here) ↦
          inr (go, (omega arith, one_more flags (chunk + j) _ (omega arith) below here))
    ])
probe_lem flags (suc left) chunk j has below =
    ends_bind (flags_known flags (chunk + j) (omega arith)) λ f o. (elim o [
      | inl stop ↦ rw stop (ends_return _ (inl refl))
      | inr (go, here) ↦
          let below' = one_more flags (chunk + j) (chunk + (j + 1)) (omega arith) below here in
          rw go (
            ends_map (probe_lem flags left chunk (j + 1) (omega (arith, has)) below') λ r s.
              (elim s [
                | inl stop ↦ inl stop
                | inr (all, (n, unused)) ↦ inr (all, (omega (arith, n), unused))
              ]))
    ])

search_from_lem :
    (flags : List ℕ) (fuel nchunks limit chunk : ℕ) (avail : Bool)
    → 0 < nchunks
    → 2 * (limit + nchunks) ≤ 8 * length flags
    → limit - chunk < fuel
    → UnusedBelow flags chunk
    → Ends (Stopped (Searched flags limit)) (search_from flags fuel nchunks limit chunk avail)
unfolding search_from
search_from_lem flags zero nchunks limit chunk avail pos fits enough below = absurd (omega arith)
search_from_lem flags (suc fuel) nchunks limit chunk avail pos fits enough below =
    elim (Bool-cases (ltb chunk limit)) [
      | inl inside ↦
          let small = ltb→lt chunk limit inside in
          let start = same_below flags chunk (chunk + 0) (omega arith) below in
          let round = probe_lem flags (nchunks - 1) chunk 0 (omega (arith, small, pos)) start in
          rw inside (
            ends_bind round λ r s. (elim s [
              | inl stop ↦ rw stop (ends_return _ (inl refl))
              | inr (all, (n, unused)) ↦ rw all (
                  search_from_lem flags fuel nchunks limit (chunk + r.1) true pos fits
                    (omega (arith, n, small, enough)) unused)
            ]))
      | inr past ↦
          let far = ltb-false→le chunk limit past in
          rw past (
            ends_return _
              (elim (Bool-cases avail) [ inl e ↦ inr (e, (far, below)) | inr e ↦ inl e ]))
    ]

-- In a zone whose flags all lie inside its bit set, and for at least one chunk and not more than
-- the zone has, `memzone_search_unused` ends with the fuel that the model gives it, whatever
-- `avail` held before: it returns -EAGAIN, or a chunk at or behind the last place where the
-- request fits, and in that case only if every chunk below it is allocated and not in use. A free
-- run that begins further to the front is not found.
pub memzone_search_unused_lem :
    (garbage : Bool) (mz : Memzone) (nchunks : ℕ)
    → 0 < nchunks
    → nchunks ≤ mz.nchunks
    → mz.nchunks < 2 ^ 32
    → 2 * mz.nchunks ≤ 8 * length mz.flags
    → (memzone_search_unused garbage mz nchunks ≡ some (err eagain))
      ⊎ ((chunk : ℕ) × (memzone_search_unused garbage mz nchunks ≡ some (ok chunk))
          × (mz.nchunks ≤ chunk + nchunks)
          × UnusedBelow mz.flags chunk)
unfolding memzone_search_unused
memzone_search_unused_lem garbage mz nchunks pos le small fits =
    let limit = search_limit mz nchunks in
    let plain : limit + nchunks ≡ mz.nchunks = omega arith in
    let r =
      search_from_lem mz.flags (suc limit) nchunks limit 0 garbage pos (rw plain fits) (omega arith)
        (start mz.flags) in
    elim r.2 [
      | inl stop ↦ inl (rw r.1 (rw stop refl))
      | inr (go, (past, unused)) ↦
          inr (r.0.1, rw r.1 (rw go refl), omega (arith, past, plain), unused)
    ]
  where
    start : (flags : List ℕ) → UnusedBelow flags 0
    start flags = unfold UnusedBelow in tt
