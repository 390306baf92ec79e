-- ===== src/Paging/Balance.antt =====
-- Reference counting is exact: each entry of a page table that names a frame holds one of the
-- references that the counter of the frame counts.
use opsys.Base.{
  ℕ, zero, suc, ◌+◌, ◌≤◌, ◌<◌, ◌≡◌, refl, ◌≢◌, inl, inr, eq-cases, Result, arith, eq→==, ne→==,
}
use opsys.Page.{pte_get_pageframe_index}
use opsys.Pmem.Single.{counter_of}
use opsys.Paging.Machine.{Machine, Run, put_word}
use opsys.Paging.Entry.{owned, Written}

-- The references of the first `n` entries of the table in the frame `t` to the frame `i`.
unfoldable pub refs : (ℕ → ℕ → ℕ) → ℕ → ℕ → ℕ → ℕ
refs word t zero i = 0
refs word t (suc n) i = refs word t n i + owned (pte_get_pageframe_index (word t n)) i

module _ (word : ℕ → ℕ → ℕ) (t index v i : ℕ) where
  pub put_word_self : put_word word t index v t index ≡ v
  unfolding put_word
  put_word_self = rw (eq→== t t refl, eq→== index index refl)

  put_word_other : (j : ℕ) → j ≢ index → put_word word t index v t j ≡ word t j
  unfolding put_word
  put_word_other j ne = rw (eq→== t t refl, ne→== j index ne)

  refs-put_above : (n : ℕ) → n ≤ index → refs (put_word word t index v) t n i ≡ refs word t n i
  unfolding refs
  refs-put_above zero h = refl
  refs-put_above (suc n) h =
      rw (put_word_other n (omega arith)) (omega (arith, refs-put_above n (omega arith)))

  refs-put :
      (n : ℕ)
      → index < n
      → refs (put_word word t index v) t n i + owned (pte_get_pageframe_index (word t index)) i
        ≡ refs word t n i + owned (pte_get_pageframe_index v) i
  unfolding refs
  refs-put zero h = absurd (omega arith)
  refs-put (suc n) h = elim (eq-cases n index) [
    | inl e ↦ rw (e, put_word_self) (omega (arith, refs-put_above index (omega arith)))
    | inr ne ↦ rw (put_word_other n ne) (omega (arith, refs-put n (omega arith)))
  ]

  owned-le-refs :
      (n : ℕ) → index < n → owned (pte_get_pageframe_index (word t index)) i ≤ refs word t n i
  unfolding refs
  owned-le-refs zero h = absurd (omega arith)
  owned-le-refs (suc n) h = elim (eq-cases n index) [
    | inl e ↦ rw e (omega arith)
    | inr ne ↦ omega (arith, owned-le-refs n (omega arith))
  ]

-- The counters count at least the references of the table.
abbrev pub Backed : Machine → ℕ → Type 0
Backed m t = (i : ℕ) → refs m.word t 1024 i ≤ counter_of m.pmem i

-- From `m` to `m'` each counter changed exactly as the references of the table did.
abbrev pub Balanced : Machine → Machine → ℕ → Type 0
Balanced m m' t =
    (i : ℕ)
    → counter_of m'.pmem i + refs m.word t 1024 i ≡ counter_of m.pmem i + refs m'.word t 1024 i

pub Balanced-Backed : (m m' : Machine) (t : ℕ) → Balanced m m' t → Backed m t → Backed m' t
Balanced-Backed m m' t b h i = omega (arith, b i, h i)

pub Written-Balanced :
    (m : Machine) (t index v : ℕ) (gained : ℕ → ℕ) {r : Run (Result (Unit {0}))}
    → index < 1024
    → Backed m t
    → (w : Written m t index v gained r)
    → ((i : ℕ) → owned (pte_get_pageframe_index v) i ≡ gained i)
    → Balanced m (record m { pmem = w.p'; word = put_word m.word t index v }) t
Written-Balanced m t index v gained fits backed w new i = omega (
  arith,
  w.counters i,
  refs-put m.word t index v i 1024 fits,
  owned-le-refs m.word t index v i 1024 fits,
  backed i,
  new i,
)
