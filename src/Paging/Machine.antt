-- ===== src/Paging/Machine.antt =====
-- The machine that the code for address spaces runs on: the allocator of page frames, the
-- contents of the frames, the two control registers for paging, and the address spaces.
use opsys.Pmem
use opsys.Base.{ℕ, ◌/◌, ◌%◌, ◌^◌, Bool, ◌&&◌, Option, none, some, ◌==◌, ltb, if◌then◌else◌}

-- `word f i` is the word `i` of the page frame `f`. `sem v` are the free slots of the semaphore of
-- the address space at address `v`, and `pd v` is its page directory.
pub record Machine : Type 0 where
  pub pmem : Pmem.Pmem
  pub word : ℕ → ℕ → ℕ
  pub cr3 : ℕ
  pub paging : Bool
  pub sem : ℕ → ℕ
  pub pd : ℕ → ℕ

-- `fault` is an access to a page that is not present, or outside of an array; `blocked` is a wait
-- for a semaphore.
pub data Run (A : Type 0) : Type 0 where
  done : A → Machine → Run A
  fault : Run A
  blocked : Run A
  out_of_fuel : Run A

abbrev pub M : Type 0 → Type 0
M A = Machine → Run A

abbrev pub pure : {A : Type 0} → A → M A
pure a m = done a m

module _ {A B : Type 0} where
  abbrev pub and_then : Run A → (A → M B) → Run B
  and_then (done a m) k = k a m
  and_then fault k = fault
  and_then blocked k = blocked
  and_then out_of_fuel k = out_of_fuel

  infixl 5 ◌>>=◌ ◌>>◌
  abbrev pub ◌>>=◌ : M A → (A → M B) → M B
  f >>= k = λ m. and_then (f m) k

  abbrev pub ◌>>◌ : M A → M B → M B
  f >> g = f >>= λ _. g

-- A call of the allocator of page frames.
abbrev pub from_pmem : {A : Type 0} → Machine → Pmem.Run A → Run A
from_pmem m (Pmem.done a p) = done a (record m { pmem = p })
from_pmem m Pmem.fault = fault
from_pmem m Pmem.blocked = blocked
from_pmem m Pmem.out_of_fuel = out_of_fuel

abbrev pub in_pmem : {A : Type 0} → Pmem.M A → M A
in_pmem f m = from_pmem m (f m.pmem)

-- The page walk: the page directory and then the page table, each entry with its present bit.
unfoldable pub walk : (ℕ → ℕ → ℕ) → ℕ → ℕ → Option ℕ
walk word pd pgindex =
    let pde = word pd (pgindex / 1024) in
    let pte = word (pde / 2 ^ 12) (pgindex % 1024) in
    if pde % 2 == 1 && pte % 2 == 1 then some (pte / 2 ^ 12) else none

unfoldable pub frame_of : Machine → ℕ → Option ℕ
frame_of m pgindex = if m.paging then walk m.word m.cr3 pgindex else some pgindex

unfoldable pub put_word : (ℕ → ℕ → ℕ) → ℕ → ℕ → ℕ → ℕ → ℕ → ℕ
put_word word f i v g j = if g == f && j == i then v else word g j

-- `table->entry[index]`, and an assignment to it.
unfoldable pub read_entry : ℕ → ℕ → M ℕ
read_entry table index m =
    if ltb index 1024
    then (elim (frame_of m table) [ none ↦ fault | some f ↦ done (m.word f index) m ])
    else fault

unfoldable pub write_entry : ℕ → ℕ → ℕ → M (Unit {0})
write_entry table index v m =
    if ltb index 1024
    then (elim (frame_of m table) [
      | none ↦ fault
      | some f ↦ done tt (record m { word = put_word m.word f index v })
    ])
    else fault

-- `memset(table, 0, sizeof(*table))`.
unfoldable pub zero_frame : (ℕ → ℕ → ℕ) → ℕ → ℕ → ℕ → ℕ
zero_frame word f g j = if g == f && ltb j 1024 then 0 else word g j

unfoldable pub clear_table : ℕ → M (Unit {0})
clear_table table m = elim (frame_of m table) [
  | none ↦ fault
  | some f ↦ done tt (record m { word = zero_frame m.word f })
]
