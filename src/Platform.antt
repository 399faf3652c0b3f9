-- ===== src/Platform.antt =====
-- What the kernel takes from the `x86_64` crate, which is not part of the repository: rounding of
-- addresses, the frame around an address, the indices of an address in the four levels of page
-- tables, and page-table entries. An address (`PhysAddr`, `VirtAddr`) is its number, a frame or a
-- page is the address at which it starts.
pub mod Instance
use native.Mathlib.Nat.{mod-lt, div-add-mod}
use helium_os.Prelude.{
  ℕ, suc, ◌+◌, ◌-◌, ◌*◌, ◌/◌, ◌%◌, ◌^◌, ◌≤◌, ◌<◌, ◌≡◌, refl, Bool, true, false, Option, none, some,
  not, if◌then◌else◌, arith,
}

-- `align_up` gives the least multiple of a power of two that is not below the address,
-- `align_down` the greatest that is not above it, `containing_address` the 4 KiB frame around it.
pub record Align : Type 0 where
  pub align_up : ℕ → ℕ → ℕ
  pub align_down : ℕ → ℕ → ℕ
  pub containing_address : ℕ → ℕ
  pub align_up-ge : (a k : ℕ) → a ≤ align_up a (2 ^ k)
  pub align_up-lt : (a k : ℕ) → align_up a (2 ^ k) < a + 2 ^ k
  pub align_up-mod : (a k : ℕ) → align_up a (2 ^ k) % 2 ^ k ≡ 0
  pub align_down-le : (a k : ℕ) → align_down a (2 ^ k) ≤ a
  pub align_down-gt : (a k : ℕ) → a < align_down a (2 ^ k) + 2 ^ k
  pub align_down-mod : (a k : ℕ) → align_down a (2 ^ k) % 2 ^ k ≡ 0
  pub containing_address-le : (a : ℕ) → containing_address a ≤ a
  pub containing_address-gt : (a : ℕ) → a < containing_address a + 2 ^ 12
  pub containing_address-mod : (a : ℕ) → containing_address a % 2 ^ 12 ≡ 0

-- The laws at the alignments that the kernel uses.
module _ (x : Align) where
  open x use {align_up, align_down, containing_address}

  pub page_up_bounds :
      (a : ℕ)
      → (a ≤ align_up a 0x1000)
        × (align_up a 0x1000 < a + 0x1000)
        × (align_up a 0x1000 % 0x1000 ≡ 0)
  page_up_bounds a = (x.align_up-ge a 12, x.align_up-lt a 12, x.align_up-mod a 12)

  pub page_down_bounds :
      (a : ℕ)
      → (align_down a 0x1000 ≤ a)
        × (a < align_down a 0x1000 + 0x1000)
        × (align_down a 0x1000 % 0x1000 ≡ 0)
  page_down_bounds a = (x.align_down-le a 12, x.align_down-gt a 12, x.align_down-mod a 12)

  pub word_up_bounds :
      (a : ℕ) → (a ≤ align_up a 64) × (align_up a 64 < a + 64) × (align_up a 64 % 64 ≡ 0)
  word_up_bounds a = (x.align_up-ge a 6, x.align_up-lt a 6, x.align_up-mod a 6)

  pub block_up_bounds :
      (a : ℕ) → (a ≤ align_up a 512) × (align_up a 512 < a + 512) × (align_up a 512 % 512 ≡ 0)
  block_up_bounds a = (x.align_up-ge a 9, x.align_up-lt a 9, x.align_up-mod a 9)

  pub containing_address_bounds :
      (a : ℕ)
      → (containing_address a ≤ a)
        × (a < containing_address a + 0x1000)
        × (containing_address a % 0x1000 ≡ 0)
  containing_address_bounds a =
      (x.containing_address-le a, x.containing_address-gt a, x.containing_address-mod a)

  -- An aligned address is its own frame.
  pub containing_address_aligned : (a : ℕ) → a % 0x1000 ≡ 0 → containing_address a ≡ a
  containing_address_aligned a h = omega (arith, containing_address_bounds a)

-- The flags that the kernel names, of the crate's `PageTableFlags`.
pub record Flags : Type 0 where
  pub present : Bool
  pub writable : Bool
  pub user_accessible : Bool
  pub global : Bool

abbrev pub no_flags : Flags
no_flags = record { present = false; writable = false; user_accessible = false; global = false }

-- Page-table entries: an entry that was set to a frame with flags gives both back, and the frame
-- can be read while the entry is present, and only then; a frame starts on a page.
pub record Paging : Type 1 where
  pub Entry : Type 0
  pub new_entry : Entry
  pub is_unused : Entry → Bool
  pub flags : Entry → Flags
  pub frame : Entry → Option ℕ
  pub set_frame : Entry → ℕ → Flags → Entry
  pub set_flags : Entry → Flags → Entry
  pub is_unused-new_entry : is_unused new_entry ≡ true
  pub flags-new_entry : flags new_entry ≡ no_flags
  pub flags-set_frame : (e : Entry) (f : ℕ) (fl : Flags) → flags (set_frame e f fl) ≡ fl
  pub flags-set_flags : (e : Entry) (fl : Flags) → flags (set_flags e fl) ≡ fl
  pub frame-set_frame :
      (e : Entry) (f : ℕ) (fl : Flags)
      → f % 0x1000 ≡ 0
      → fl.present ≡ true
      → frame (set_frame e f fl) ≡ some f
  pub frame-aligned : (e : Entry) (f : ℕ) → frame e ≡ some f → f % 0x1000 ≡ 0
  pub frame-absent : (e : Entry) → (flags e).present ≡ false → frame e ≡ none
  pub is_unused-present : (e : Entry) → (flags e).present ≡ true → is_unused e ≡ false

-- The 9-bit indices of an address at the four levels, and the addresses that the types of virtual
-- and of physical addresses admit.
pub record Indices : Type 0 where
  pub p1_index : ℕ → ℕ
  pub p2_index : ℕ → ℕ
  pub p3_index : ℕ → ℕ
  pub p4_index : ℕ → ℕ
  pub p1_index_lem : (a : ℕ) → p1_index a ≡ a / 2 ^ 12 % 512
  pub p2_index_lem : (a : ℕ) → p2_index a ≡ a / 2 ^ 21 % 512
  pub p3_index_lem : (a : ℕ) → p3_index a ≡ a / 2 ^ 30 % 512
  pub p4_index_lem : (a : ℕ) → p4_index a ≡ a / 2 ^ 39 % 512
  pub is_canonical : ℕ → Bool
  pub is_physical : ℕ → Bool
  pub is_canonical-low : (a : ℕ) → a < 2 ^ 47 → is_canonical a ≡ true
  pub is_canonical-high : (a : ℕ) → 2 ^ 64 - 2 ^ 47 ≤ a → a < 2 ^ 64 → is_canonical a ≡ true
  pub is_physical-low : (a : ℕ) → a < 2 ^ 52 → is_physical a ≡ true
