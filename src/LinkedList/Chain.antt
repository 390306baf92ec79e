-- ===== src/LinkedList/Chain.antt =====
-- What a list in the store stands for: a ring from its head through distinct nodes and back.
use opsys.Base.{
  ℕ, ◌≡◌, refl, Bool, true, false, ◌||◌, List, [], ◌∷◌, ◌++◌, arith, ◌==◌, Bool-cases, inl, inr,
}
use opsys.LinkedList.{Links}

abbrev pub has : ℕ → List ℕ → Bool
has a [] = false
has a (x ∷ xs) = (a == x) || has a xs

abbrev pub Distinct : List ℕ → Type 0
Distinct [] = Unit {0}
Distinct (x ∷ xs) = (has x xs ≡ false) × Distinct xs

-- From `a` the `next` pointers lead through `xs` to `b`, and the `prev` pointers lead back.
abbrev pub Chain : Links → ℕ → List ℕ → ℕ → Type 0
Chain s a [] b = (s.next a ≡ b) × (s.prev b ≡ a)
Chain s a (x ∷ xs) b = (s.next a ≡ x) × (s.prev x ≡ a) × Chain s x xs b

-- The list with this head has these items, front to back; no node is NULL and none occurs twice.
pub record IsRing (s : Links) (head : ℕ) (xs : List ℕ) : Type 0 where
  pub chain : Chain s head xs head
  pub distinct : Distinct (head ∷ xs)
  pub not_null : has 0 (head ∷ xs) ≡ false

-- The node that follows the end of a prefix.
abbrev pub first_of : List ℕ → ℕ → ℕ
first_of [] b = b
first_of (x ∷ xs) b = x

abbrev pub last_of : List ℕ → ℕ → ℕ
last_of [] a = a
last_of (x ∷ xs) a = last_of xs x

-- Nodes outside `xs` keep both fields.
abbrev pub SameOutside : List ℕ → Links → Links → Type 0
SameOutside xs s t = (a : ℕ) → has a xs ≡ false → (t.next a ≡ s.next a) × (t.prev a ≡ s.prev a)

pub has-append : (a : ℕ) (xs ys : List ℕ) → has a (xs ++ ys) ≡ (has a xs || has a ys)
has-append a [] ys = refl
has-append a (x ∷ xs) ys = ground (arith, has-append a xs ys)

pub Distinct-insert :
    (n : ℕ) (xs ys : List ℕ)
    → Distinct (xs ++ ys)
    → has n (xs ++ ys) ≡ false
    → Distinct (xs ++ n ∷ ys)
Distinct-insert n [] ys d out = (out, d)
Distinct-insert n (x ∷ xs) ys d out = (
  ground (arith, has-append x xs ys, has-append x xs (n ∷ ys)),
  Distinct-insert n xs ys d.1 (ground arith),
)

pub Distinct-remove : (n : ℕ) (xs ys : List ℕ) → Distinct (xs ++ n ∷ ys) → Distinct (xs ++ ys)
Distinct-remove n [] ys d = d.1
Distinct-remove n (x ∷ xs) ys d =
    (ground (arith, has-append x xs ys, has-append x xs (n ∷ ys)), Distinct-remove n xs ys d.1)

pub Distinct-front : (xs ys : List ℕ) → Distinct (xs ++ ys) → Distinct xs
Distinct-front [] ys d = tt
Distinct-front (x ∷ xs) ys d = (ground (arith, has-append x xs ys), Distinct-front xs ys d.1)

pub Distinct-back : (xs ys : List ℕ) → Distinct (xs ++ ys) → Distinct ys
Distinct-back [] ys d = d
Distinct-back (x ∷ xs) ys d = Distinct-back xs ys d.1

-- The item taken out of a distinct list is not among the others.
pub has-remove :
    (n : ℕ) (xs ys : List ℕ) → Distinct (xs ++ n ∷ ys) → (has n xs ≡ false) × (has n ys ≡ false)
has-remove n [] ys d = (refl, d.0)
has-remove n (x ∷ xs) ys d = ground (arith, has-append x xs (n ∷ ys), has-remove n xs ys d.1)

pub Distinct-append_disjoint :
    (a : ℕ) (xs ys : List ℕ) → Distinct (xs ++ ys) → has a xs ≡ true → has a ys ≡ false
Distinct-append_disjoint a [] ys d h = absurd (ground arith)
Distinct-append_disjoint a (x ∷ xs) ys d h = elim (Bool-cases (a == x)) [
  | inl e ↦ ground (arith, has-append x xs ys)
  | inr e ↦ Distinct-append_disjoint a xs ys d.1 (ground arith)
]

module _ (s : Links) where
  pub Chain-first : (a : ℕ) (xs : List ℕ) (b : ℕ) → Chain s a xs b → s.next a ≡ first_of xs b
  Chain-first a [] b c = c.0
  Chain-first a (x ∷ xs) b c = c.0

  pub Chain-last : (a : ℕ) (xs : List ℕ) (b : ℕ) → Chain s a xs b → s.prev b ≡ last_of xs a
  Chain-last a [] b c = c.1
  Chain-last a (x ∷ xs) b c = Chain-last x xs b c.2

  -- The node before the end is among those that the chain leaves.
  pub has-Chain_prev :
      (a : ℕ) (xs : List ℕ) (b : ℕ) → Chain s a xs b → has (s.prev b) (a ∷ xs) ≡ true
  has-Chain_prev a [] b c = ground arith
  has-Chain_prev a (x ∷ xs) b c = ground (arith, has-Chain_prev x xs b c.2)

  pub has-Chain_next :
      (a : ℕ) (xs : List ℕ) (b : ℕ) → Chain s a xs b → has (s.next a) (b ∷ xs) ≡ true
  has-Chain_next a [] b c = ground arith
  has-Chain_next a (x ∷ xs) b c = ground arith

  pub Chain-split :
      (a : ℕ) (xs : List ℕ) (y : ℕ) (ys : List ℕ) (b : ℕ)
      → Chain s a (xs ++ y ∷ ys) b
      → Chain s a xs y × Chain s y ys b
  Chain-split a [] y ys b c = ((c.0, c.1), c.2)
  Chain-split a (x ∷ xs) y ys b c = let r = Chain-split x xs y ys b c.2 in ((c.0, c.1, r.0), r.1)

  pub Chain-join :
      (a : ℕ) (xs : List ℕ) (y : ℕ) (ys : List ℕ) (b : ℕ)
      → Chain s a xs y
      → Chain s y ys b
      → Chain s a (xs ++ y ∷ ys) b
  Chain-join a [] y ys b c d = (c.0, c.1, d)
  Chain-join a (x ∷ xs) y ys b c d = (c.0, c.1, Chain-join x xs y ys b c.2 d)

  -- A chain survives a change that spares the fields which it reads.
  pub Chain-frame :
      {t : Links} (a : ℕ) (xs : List ℕ) (b : ℕ)
      → Chain s a xs b
      → ((x : ℕ) → has x (a ∷ xs) ≡ true → t.next x ≡ s.next x)
      → ((x : ℕ) → has x (b ∷ xs) ≡ true → t.prev x ≡ s.prev x)
      → Chain t a xs b
  Chain-frame a [] b c n p = (ground (arith, n a), ground (arith, p b))
  Chain-frame a (x ∷ xs) b c n p = (
    ground (arith, n a),
    ground (arith, p x),
    Chain-frame x xs b c.2 (λ y h. n y (ground arith)) (λ y h. p y (ground arith)),
  )
