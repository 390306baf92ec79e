-- ===== src/Pmem/Frame.antt =====
-- The entries of the page-frame map (src/kernel/bin/pmem.c, pmem.h): an 8-bit word whose two
-- highest bits are the type of a page frame and whose other six are its reference counter.
use opsys.Base.{
  ℕ, ◌+◌, ◌-◌, ◌*◌, ◌%◌, ◌/◌, ◌≤◌, ◌<◌, ◌≡◌, refl, Bool, true, false, not, ◌&&◌, Option, none, some,
  ◌==◌, ltb, if◌then◌else◌, bit_and, bit_or, Result, ok, err, eoverflow, enodev, arith, all_below,
  all_below_sound, bit_and_63, ==→eq,
}

pub data PmemType : Type 0 where
  none_type available system : PmemType

-- The value of the enumerator.
abbrev pub type_bits : PmemType → ℕ
type_bits none_type = 0
type_bits available = 0x40
type_bits system = 0x80

unfoldable pub set_type : ℕ → PmemType → ℕ
set_type memmap type = bit_or (bit_and memmap 0x3f) (type_bits type) % 256

unfoldable pub get_type : ℕ → ℕ
get_type memmap = bit_and memmap 0xc0

unfoldable pub has_type : ℕ → PmemType → Bool
unfolding get_type
has_type memmap type = get_type memmap == type_bits type

unfoldable pub get_ref : ℕ → ℕ
get_ref memmap = bit_and memmap 0x3f

unfoldable pub can_ref : ℕ → Bool
unfolding get_ref
can_ref memmap = ltb (get_ref memmap) 0x3f

unfoldable pub can_unref : ℕ → Bool
unfolding get_ref
can_unref memmap = not (get_ref memmap == 0)

-- `uint8_t` arithmetic wraps.
unfoldable pub ref_frame : ℕ → ℕ
ref_frame memmap = (memmap + 1) % 256

unfoldable pub unref_frame : ℕ → ℕ
unref_frame memmap = (memmap + 255) % 256

-- `none` is the result false, which leaves the entry alone.
unfoldable pub checked_ref_frame : ℕ → Option ℕ
unfolding can_ref ref_frame
checked_ref_frame memmap = if can_ref memmap then some (ref_frame memmap) else none

unfoldable pub checked_unref_frame : ℕ → Option ℕ
unfolding can_unref unref_frame
checked_unref_frame memmap = if can_unref memmap then some (unref_frame memmap) else none

unfoldable pub is_allocable : ℕ → Bool
unfolding has_type get_ref
is_allocable memmap = has_type memmap available && get_ref memmap == 0

-- What an entry stands for: its type field and its counter.
pub get_type_lem : (m : ℕ) → m < 256 → get_type m ≡ m / 64 * 64
unfolding get_type all_below
get_type_lem m h =
    ==→eq (get_type m) (m / 64 * 64)
      (all_below_sound 256 (λ x. bit_and x 0xc0 == x / 64 * 64) m refl h)

pub get_ref_lem : (m : ℕ) → get_ref m ≡ m % 64
unfolding get_ref
get_ref_lem m = bit_and_63 m

pub ruleset entry = (arith, get_type_lem, get_ref_lem)

-- A free frame of available memory has exactly one encoding.
pub is_allocable-eq : (m : ℕ) → m < 256 → is_allocable m ≡ (m == 0x40)
unfolding is_allocable
is_allocable-eq m h = ground (arith, get_type_lem m h, get_ref_lem m)

pub unref_frame-ref_frame : (m : ℕ) → m < 256 → unref_frame (ref_frame m) ≡ m
unfolding unref_frame ref_frame
unref_frame-ref_frame m h = omega arith

pub set_type-lt : (m : ℕ) (t : PmemType) → set_type m t < 256
unfolding set_type
set_type-lt m t = omega arith

pub ref_frame-lt : (m : ℕ) → ref_frame m < 256
unfolding ref_frame
ref_frame-lt m = omega arith

pub unref_frame-lt : (m : ℕ) → unref_frame m < 256
unfolding unref_frame
unref_frame-lt m = omega arith

-- Counting a reference up, where the counter is not full, changes the counter alone.
pub checked_ref_frame_lem :
    (m n : ℕ)
    → m < 256
    → checked_ref_frame m ≡ some n
    → (get_ref n ≡ get_ref m + 1) × (get_type n ≡ get_type m) × (n ≡ ref_frame m)
unfolding checked_ref_frame
checked_ref_frame_lem m n h e = ground (
  arith,
  get_ref_lem m,
  get_ref_lem ((m + 1) % 256),
  get_type_lem m,
  get_type_lem ((m + 1) % 256),
)

pub checked_unref_frame_lem :
    (m n : ℕ)
    → m < 256
    → checked_unref_frame m ≡ some n
    → (get_ref n + 1 ≡ get_ref m) × (get_type n ≡ get_type m)
unfolding checked_unref_frame
checked_unref_frame_lem m n h e = ground (
  arith,
  get_ref_lem m,
  get_ref_lem ((m + 255) % 256),
  get_type_lem m,
  get_type_lem ((m + 255) % 256),
)

set_type_eq : (m : ℕ) (t : PmemType) → set_type m t ≡ type_bits t + m % 64
unfolding set_type all_below
set_type_eq m t = rw bit_and_63 (table t)
  where
    table : (t : PmemType) → bit_or (m % 64) (type_bits t) % 256 ≡ type_bits t + m % 64
    table none_type =
        ==→eq _ _ (all_below_sound 64 (λ x. bit_or x 0 % 256 == 0 + x) (m % 64) refl (omega arith))
    table available =
        ==→eq _ _
          (all_below_sound 64 (λ x. bit_or x 64 % 256 == 64 + x) (m % 64) refl (omega arith))
    table system =
        ==→eq _ _
          (all_below_sound 64 (λ x. bit_or x 128 % 256 == 128 + x) (m % 64) refl (omega arith))

-- Setting the type keeps the counter.
pub set_type_lem :
    (m : ℕ) (t : PmemType)
    → (get_ref (set_type m t) ≡ get_ref m) × (get_type (set_type m t) ≡ type_bits t)
set_type_lem m none_type = omega (
  arith,
  set_type_eq m none_type,
  get_ref_lem (set_type m none_type),
  get_ref_lem m,
  get_type_lem (set_type m none_type) (set_type-lt m none_type),
)
set_type_lem m available = omega (
  arith,
  set_type_eq m available,
  get_ref_lem (set_type m available),
  get_ref_lem m,
  get_type_lem (set_type m available) (set_type-lt m available),
)
set_type_lem m system = omega (
  arith,
  set_type_eq m system,
  get_ref_lem (set_type m system),
  get_ref_lem m,
  get_type_lem (set_type m system) (set_type-lt m system),
)
