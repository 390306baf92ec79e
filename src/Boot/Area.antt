-- ===== src/Boot/Area.antt =====
-- The place that `find_unused_area` finds.
use mathlib.Core.Path.{subst}
use opsys.Base.{
  ℕ, ◌+◌, ◌^◌, ◌≤◌, ◌<◌, ◌≡◌, refl, sym, ap, arith, ◌⊎◌, inl, inr, true, false, ◌||◌, Bool-cases,
  ◌==◌, ltb, some, List, [], ◌∷◌, ◌++◌,
}
use opsys.Boot.{
  FrameRange, Module, mod_range, map_list, overlaps_with, is_within, move_behind, search_areas,
  find_unused_area, available_ranges, section_ranges, modules, word_of,
}
use opsys.Libc.{Mem}
use opsys.Page.{pageframe_offset}

-- `n` frames from `pfindex` on have none of the frames of a range.
abbrev pub Apart : ℕ → ℕ → FrameRange → Type 0
Apart pfindex n r = (pfindex + n ≤ r.pfindex) ⊎ (r.pfindex + r.nframes ≤ pfindex)

unfoldable pub AllApart : ℕ → ℕ → List FrameRange → Type 0
AllApart pfindex n [] = Unit {0}
AllApart pfindex n (r ∷ rs) = Apart pfindex n r × AllApart pfindex n rs

-- Each range begins behind the one before it, the first at `low` or later; indices stay low enough
-- for sums not to wrap around.
unfoldable pub Ordered : ℕ → List FrameRange → Type 0
Ordered low [] = Unit {0}
Ordered low (r ∷ rs) =
    (low ≤ r.pfindex) × (r.pfindex + r.nframes < 2 ^ 31) × Ordered (r.pfindex + r.nframes) rs

unfoldable pub AllLow : List FrameRange → Type 0
AllLow [] = Unit {0}
AllLow (r ∷ rs) = (r.pfindex + r.nframes < 2 ^ 31) × AllLow rs

overlap_cases :
    (pfindex n : ℕ) (r : FrameRange)
    → pfindex < 2 ^ 31
    → n < 2 ^ 31
    → r.pfindex + r.nframes < 2 ^ 31
    → (overlaps_with pfindex n r.pfindex r.nframes ≡ true)
      ⊎ ((overlaps_with pfindex n r.pfindex r.nframes ≡ false) × Apart pfindex n r)
unfolding overlaps_with
overlap_cases pfindex n r low small high =
    let first : word_of (pfindex + n) ≡ pfindex + n = omega arith in
    let second : word_of (r.pfindex + r.nframes) ≡ r.pfindex + r.nframes = omega arith in
    rw (first, second) (ground arith)

-- The candidate stays, or moves to `low` or behind; the new one is apart from all ranges.
abbrev Moved : ℕ → ℕ → ℕ → List FrameRange → ℕ → Type 0
Moved low pfindex n rs moved =
    ((moved ≡ pfindex) ⊎ (low ≤ moved)) × (moved < 2 ^ 31) × AllApart moved n rs

move_behind_lem :
    (n : ℕ) (rs : List FrameRange) (low pfindex : ℕ)
    → n < 2 ^ 31
    → pfindex < 2 ^ 31
    → Ordered low rs
    → Moved low pfindex n rs (move_behind n rs pfindex)
unfolding move_behind AllApart Ordered
move_behind_lem n [] low pfindex small fits order = (inl refl, fits, tt)
move_behind_lem n (r ∷ rs) low pfindex small fits order =
    elim (overlap_cases pfindex n r fits small order.1) [
      | inl moves ↦
          let end = r.pfindex + r.nframes in
          let later = move_behind_lem n rs end end small order.1 order.2 in
          let past : end ≤ move_behind n rs end = omega (arith, later.0) in
          let step : move_behind n (r ∷ rs) pfindex ≡ move_behind n rs end = rw moves refl in
          subst (Moved low pfindex n (r ∷ rs)) (sym step)
            (inr (omega (arith, past, order.0)), later.1, (inr past, later.2))
      | inr (stays, apart) ↦
          let later = move_behind_lem n rs (r.pfindex + r.nframes) pfindex small fits order.2 in
          let step : move_behind n (r ∷ rs) pfindex ≡ move_behind n rs pfindex = rw stays refl in
          subst (Moved low pfindex n (r ∷ rs)) (sym step) (elim later.0 [
            | inl e ↦ (inl e, later.1, (subst (λ x. Apart x n r) (sym e) apart, later.2))
            | inr past ↦ (inr (omega (arith, past, order.0)), later.1, (inr past, later.2))
          ])
    ]

move_behind-append :
    (n : ℕ) (xs ys : List FrameRange) (pfindex : ℕ)
    → move_behind n ys (move_behind n xs pfindex) ≡ move_behind n (xs ++ ys) pfindex
unfolding move_behind
move_behind-append n [] ys pfindex = refl
move_behind-append n (x ∷ xs) ys pfindex = move_behind-append n xs ys _

-- The address is that of a run of `n` frames inside one of the areas, apart from all ranges.
abbrev pub Found : ℕ → List FrameRange → List FrameRange → ℕ → Type 0
Found n used areas address =
    (before : List FrameRange) × (area : FrameRange) × (after : List FrameRange) × (pfindex : ℕ)
    × (areas ≡ before ++ area ∷ after)
    × (address ≡ pageframe_offset pfindex)
    × (area.pfindex ≤ pfindex)
    × (pfindex + n ≤ area.pfindex + area.nframes)
    × AllApart pfindex n used

within_lem :
    (n pfindex : ℕ) (area : FrameRange)
    → n < 2 ^ 31
    → pfindex < 2 ^ 31
    → area.pfindex + area.nframes < 2 ^ 31
    → (is_within pfindex n area.pfindex area.nframes ≡ false)
      ⊎ ((is_within pfindex n area.pfindex area.nframes ≡ true)
          × (area.pfindex ≤ pfindex)
          × (pfindex + n ≤ area.pfindex + area.nframes))
unfolding is_within
within_lem n pfindex area small low high =
    let first : word_of (pfindex + n) ≡ pfindex + n = omega arith in
    let second : word_of (area.pfindex + area.nframes) ≡ area.pfindex + area.nframes =
      omega arith in
    rw (first, second) (ground arith)

later_area :
    (n : ℕ) (used areas : List FrameRange) (area : FrameRange) (address : ℕ)
    → (address ≡ 0) ⊎ Found n used areas address
    → (address ≡ 0) ⊎ Found n used (area ∷ areas) address
later_area n used areas area address (inl e) = inl e
later_area n used areas area address (inr f) =
    inr (area ∷ f.0, f.1, f.2, f.3, ap (λ xs. area ∷ xs) f.4, f.5, f.6, f.7, f.8)

module _ (n : ℕ) (sections mods : List FrameRange) (small : n < 2 ^ 31)
    (order : Ordered 0 (sections ++ mods)) where
  search_areas_lem :
      (areas : List FrameRange)
      → AllLow areas
      → let address = search_areas n sections mods areas in
        (address ≡ 0) ⊎ Found n (sections ++ mods) areas address
  unfolding search_areas AllLow
  search_areas_lem [] low = inl refl
  search_areas_lem (area ∷ areas) low =
      let used = sections ++ mods in
      let pfindex = move_behind n mods (move_behind n sections area.pfindex) in
      let same : pfindex ≡ move_behind n used area.pfindex =
        move_behind-append n sections mods area.pfindex in
      let moved : Moved 0 area.pfindex n used pfindex =
        subst (Moved 0 area.pfindex n used) (sym same)
          (move_behind_lem n used 0 area.pfindex small (omega (arith, low.0)) order) in
      let rest = later_area n used areas area _ (search_areas_lem areas low.1) in
      elim (Bool-cases (area.pfindex == 0 || ltb area.nframes n)) [
        | inl skip ↦ rw skip rest
        | inr try ↦ elim (within_lem n pfindex area small moved.1 low.0) [
          | inl out ↦ rw try (rw out rest)
          | inr (inside, beg, end) ↦
              rw try (rw inside (inr ([], area, areas, pfindex, refl, refl, beg, end, moved.2)))
        ]
      ]

-- For boot information whose loops end with the given fuel, with areas and ranges of low indices,
-- and with sections and then modules in ascending order and not overlapping, `find_unused_area`
-- returns 0 or the address of a run of `nframes` frames that lies inside one of the available areas
-- and has no frame of a section or of a module.
pub find_unused_area_lem :
    (mem : Mem) (fuel info nframes : ℕ) (areas sections : List FrameRange) (ms : List Module)
    → available_ranges mem fuel info ≡ some areas
    → section_ranges mem fuel info ≡ some sections
    → modules mem fuel info ≡ some ms
    → nframes < 2 ^ 31
    → AllLow areas
    → Ordered 0 (sections ++ map_list mod_range ms)
    → (address : ℕ) × (find_unused_area mem fuel info nframes ≡ some address)
      × ((address ≡ 0) ⊎ Found nframes (sections ++ map_list mod_range ms) areas address)
unfolding find_unused_area
find_unused_area_lem mem fuel info nframes areas sections ms a s m small low order =
    let mods = map_list mod_range ms in
    (
      search_areas nframes sections mods areas,
      rw a (rw s (rw m refl)),
      search_areas_lem nframes sections mods small order areas low,
    )
