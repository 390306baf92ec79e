-- ===== src/VmemArea/Partition.antt =====
-- The areas cover the address space of 2 ^ 20 pages and do not overlap.
use opsys.Base.{
  ℕ, ◌^◌, ◌<◌, ◌≤◌, ◌≡◌, Bool-cases, inl, inr, true, none, some, ltb, List, [], ◌∷◌, arith,
}
use mathlib.Core.Option.{some-injective}
use mathlib.Core.Path.{subst}
use opsys.VmemArea.{
  VmemAreaName, system, kernel_low, kernel, tmpmap, user, vmem_area_get_by_name,
  vmem_area_contains_page, area_from, vmem_area_get_by_page,
}

area_from-contains :
    (names : List VmemAreaName) (pgindex : ℕ) (name : VmemAreaName)
    → area_from names pgindex ≡ some name
    → vmem_area_contains_page (vmem_area_get_by_name name) pgindex ≡ true
unfolding area_from
area_from-contains [] pgindex name e = absurd (ground arith)
area_from-contains (n ∷ names) pgindex name e =
    elim (Bool-cases (vmem_area_contains_page (vmem_area_get_by_name n) pgindex)) [
      | inl here ↦
          subst (λ m. vmem_area_contains_page (vmem_area_get_by_name m) pgindex ≡ true)
            (some-injective n name (rw here at e)) here
      | inr on ↦ area_from-contains names pgindex name (rw on at e)
    ]

found_by_name :
    (pgindex : ℕ) (name : VmemAreaName)
    → vmem_area_contains_page (vmem_area_get_by_name name) pgindex ≡ true
    → vmem_area_get_by_page pgindex ≡ some name
unfolding vmem_area_contains_page area_from vmem_area_get_by_page
found_by_name pgindex name h = elim name [
  | system ↦ ground arith
  | kernel_low ↦ ground arith
  | kernel ↦ ground arith
  | tmpmap ↦ ground arith
  | user ↦ ground arith
]

-- Every page of the address space is in an area.
covered :
    (pgindex : ℕ)
    → pgindex < 2 ^ 20
    → (name : VmemAreaName) × (vmem_area_contains_page (vmem_area_get_by_name name) pgindex ≡ true)
unfolding vmem_area_contains_page
covered pgindex h = elim (Bool-cases (ltb pgindex 1)) [
  | inl a ↦ (system, ground arith)
  | inr a ↦ elim (Bool-cases (ltb pgindex 1024)) [
    | inl b ↦ (kernel_low, ground arith)
    | inr b ↦ elim (Bool-cases (ltb pgindex 261120)) [
      | inl c ↦ (kernel, ground arith)
      | inr c ↦ elim (Bool-cases (ltb pgindex 262144)) [
        | inl d ↦ (tmpmap, ground arith)
        | inr d ↦ (user, ground arith)
      ]
    ]
  ]
]

-- `vmem_area_get_by_page` returns an area exactly if it contains the page, so that no two areas
-- share one; and it returns none exactly for the pages from 2 ^ 20 on.
pub vmem_area_get_by_page_lem :
    (pgindex : ℕ)
    → ((name : VmemAreaName)
        → vmem_area_contains_page (vmem_area_get_by_name name) pgindex ≡ true
        → vmem_area_get_by_page pgindex ≡ some name)
      × ((name : VmemAreaName)
          → vmem_area_get_by_page pgindex ≡ some name
          → vmem_area_contains_page (vmem_area_get_by_name name) pgindex ≡ true)
      × (pgindex < 2 ^ 20 → (name : VmemAreaName) × (vmem_area_get_by_page pgindex ≡ some name))
      × (2 ^ 20 ≤ pgindex → vmem_area_get_by_page pgindex ≡ none)
unfolding vmem_area_contains_page area_from vmem_area_get_by_page
vmem_area_get_by_page_lem pgindex = (
  found_by_name pgindex,
  λ name e. area_from-contains (system ∷ kernel_low ∷ kernel ∷ tmpmap ∷ user ∷ []) pgindex name e,
  λ h. let c = covered pgindex h in (c.0, found_by_name pgindex c.0 c.1),
  λ h. ground arith,
)
