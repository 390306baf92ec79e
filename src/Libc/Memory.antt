-- ===== src/Libc/Memory.antt =====
-- What `memcpy` and `memset` write, and what `memcmp` compares.
use Prim.Native.Nat.{compare, Ordering}
use opsys.Base.{
  ℕ, zero, suc, ◌+◌, ◌-◌, ◌%◌, ◌<◌, ◌≤◌, ◌≡◌, refl, ◌⊎◌, inl, inr, arith, eq→==, eq-cases, ◌∙◌, ap,
}
use opsys.LinkedList.{put}
use opsys.Libc.{Mem, memcmp, memcmp_loop, memcpy, memset}

put-same : (f : ℕ → ℕ) (a v : ℕ) → put f a v a ≡ v
unfolding put
put-same f a v = rw (eq→== a a refl)

put-other : (f : ℕ → ℕ) (a v x : ℕ) → (x < a) ⊎ (a < x) → put f a v x ≡ f x
unfolding put
put-other f a v x ne = ground (arith, ne)

-- Nothing outside the `n` bytes at `dest` is written.
memcpy-outside :
    (n dest src a : ℕ) (mem : Mem) → (a < dest) ⊎ (dest + n ≤ a) → memcpy dest src n mem a ≡ mem a
unfolding memcpy
memcpy-outside zero dest src a mem out = refl
memcpy-outside (suc n) dest src a mem out =
    memcpy-outside n (dest + 1) (src + 1) a (put mem dest (mem src)) (ground arith)
    ∙ put-other mem dest (mem src) a (ground arith)

memcpy-inside :
    (n dest src a : ℕ) (mem : Mem)
    → (dest ≤ src) ⊎ (src + n ≤ dest)
    → dest ≤ a
    → a < dest + n
    → memcpy dest src n mem a ≡ mem (src + (a - dest))
unfolding memcpy
memcpy-inside zero dest src a mem apart h k = absurd (omega arith)
memcpy-inside (suc n) dest src a mem apart h k = elim (eq-cases a dest) [
  | inl e ↦
      memcpy-outside n (dest + 1) (src + 1) a (put mem dest (mem src)) (inl (omega arith))
      ∙ ap (put mem dest (mem src)) e
      ∙ put-same mem dest (mem src)
      ∙ ap mem (omega arith)
  | inr ne ↦
      memcpy-inside n (dest + 1) (src + 1) a (put mem dest (mem src)) (ground arith) (omega arith)
        (omega arith)
      ∙ put-other mem dest (mem src) (src + 1 + (a - (dest + 1))) (ground arith)
      ∙ ap mem (omega arith)
]

-- If the source does not begin below a destination that it reaches into, `memcpy` leaves the
-- former bytes of the source in the destination and writes nothing else.
pub memcpy_lem :
    (n dest src : ℕ) (mem : Mem)
    → (dest ≤ src) ⊎ (src + n ≤ dest)
    → ((i : ℕ) → i < n → memcpy dest src n mem (dest + i) ≡ mem (src + i))
      × ((a : ℕ) → (a < dest) ⊎ (dest + n ≤ a) → memcpy dest src n mem a ≡ mem a)
memcpy_lem n dest src mem apart = (
  λ i h.
      memcpy-inside n dest src (dest + i) mem apart (omega arith) (omega arith)
      ∙ ap mem (omega arith),
  λ a out. memcpy-outside n dest src a mem out,
)

-- `memset` writes the low byte of its argument to exactly the `n` bytes at the address.
pub memset_lem :
    (n s c a : ℕ) (mem : Mem)
    → ((s ≤ a) → (a < s + n) → memset s c n mem a ≡ c % 256)
      × ((a < s) ⊎ (s + n ≤ a) → memset s c n mem a ≡ mem a)
unfolding memset
memset_lem zero s c a mem = (λ h k. absurd (omega arith), λ out. refl)
memset_lem (suc n) s c a mem =
    let rest = memset_lem n (s + 1) c a (put mem s (c % 256)) in
    (
      λ h k. elim (eq-cases a s) [
        | inl e ↦ rest.1 (inl (omega arith)) ∙ (rw e (put-same mem s (c % 256)))
        | inr ne ↦ rest.0 (omega arith) (omega arith)
      ],
      λ out. rest.1 (ground arith) ∙ put-other mem s (c % 256) a (ground arith),
    )

memcmp_loop_lem :
    (mem : Mem) (n s1 s2 c1 c2 : ℕ) (res : Ordering)
    → compare (mem c1) (mem c2) ≡ res
    → memcmp_loop mem s1 s2 c1 c2 n res ≡ res
unfolding memcmp_loop
memcmp_loop_lem mem zero s1 s2 c1 c2 res e = refl
memcmp_loop_lem mem (suc n) s1 s2 c1 c2 Ordering.eq e =
    rw e (memcmp_loop_lem mem n (s1 + 1) (s2 + 1) c1 c2 Ordering.eq e)
memcmp_loop_lem mem (suc n) s1 s2 c1 c2 Ordering.lt e = refl
memcmp_loop_lem mem (suc n) s1 s2 c1 c2 Ordering.gt e = refl

-- For at least one byte, `memcmp` compares the first bytes of the two objects and no others.
pub memcmp-first_byte :
    (n s1 s2 : ℕ) (mem : Mem) → memcmp mem s1 s2 (suc n) ≡ compare (mem s1) (mem s2)
unfolding memcmp memcmp_loop
memcmp-first_byte n s1 s2 mem =
    memcmp_loop_lem mem n (s1 + 1) (s2 + 1) s1 s2 (compare (mem s1) (mem s2)) refl
