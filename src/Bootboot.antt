-- ===== src/Bootboot.antt =====
-- The memory map that the boot loader passes to the kernel, kernel/src/bootboot.rs.
use native.Mathlib.Nat.{pow-suc, one-le-pow}
use helium_os.Prelude.{
  ℕ, zero, suc, ◌-◌, ◌*◌, ◌/◌, ◌%◌, ◌^◌, ◌<◌, bit_and, ◌≡◌, inl, inr, refl, ltb, if◌then◌else◌,
  ◌==◌, Outcome, ok, panic, arith, Bool-cases,
}
use helium_os.Platform.{Align, page_up_bounds, page_down_bounds}
use helium_os.Word.Bits.{and_digit}

-- `MMapEnt`: the low four bits of `size` are the type of the region.
pub record MMapEnt : Type 0 where
  pub ptr : ℕ
  pub size : ℕ

pub data MMapType : Type 0 where
  used free acpi memory_mapped_io : MMapType

-- `MMapEnt::get_type`
unfoldable pub get_type : MMapEnt → Outcome MMapType
get_type e =
    let t = bit_and e.size 0xF in
    if t == 0
    then ok used
    else if t == 1
    then ok free
    else if t == 2
    then ok acpi
    else if t == 3
    then ok memory_mapped_io
    else panic

-- `MMapEnt::raw_size`
unfoldable pub raw_size : MMapEnt → ℕ
raw_size e = bit_and e.size 0xFFFFFFFFFFFFFFF0

module _ (x : Align) where
  -- `MMapEnt::phyadr` and `MMapEnt::size`: the address is rounded up to a page and the size down,
  -- each on its own. `PhysAddr::new` panics on an address of more than 52 bits.
  unfoldable pub phyadr : MMapEnt → Outcome ℕ
  phyadr e = let adr = x.align_up e.ptr 0x1000 in if ltb adr (2 ^ 52) then ok adr else panic

  unfoldable pub page_bytes : MMapEnt → ℕ
  page_bytes e = x.align_down (raw_size e) 0x1000

and_ones : (n a : ℕ) → a < 2 ^ n → bit_and a (2 ^ n - 1) ≡ a
and_ones zero zero h = refl
and_ones zero (suc a) h = absurd (omega arith)
and_ones (suc n) a h = omega (
  arith,
  and_digit a (2 ^ suc n - 1),
  pow-suc 2 n,
  one-le-pow n 2,
  rw (← half_ones n) at (and_ones n (a / 2) (omega (arith, pow-suc 2 n))),
)
  where
    half_ones : (n : ℕ) → (2 ^ suc n - 1) / 2 ≡ 2 ^ n - 1
    half_ones n = omega (arith, pow-suc 2 n, one-le-pow n 2)

-- The type bits are masked off.
pub raw_size_lem : (e : MMapEnt) → e.size < 2 ^ 64 → raw_size e ≡ e.size / 16 * 16
unfolding raw_size
raw_size_lem e h = omega (
  arith,
  and_digit e.size 0xFFFFFFFFFFFFFFF0,
  and_digit (e.size / 2) 0x7FFFFFFFFFFFFFF8,
  and_digit (e.size / 2 / 2) 0x3FFFFFFFFFFFFFFC,
  and_digit (e.size / 2 / 2 / 2) 0x1FFFFFFFFFFFFFFE,
  and_ones 60 (e.size / 2 / 2 / 2 / 2) (omega arith),
)

pub whole_pages :
    (x : Align) (e : MMapEnt) {adr : ℕ}
    → phyadr x e ≡ ok adr
    → (adr % 0x1000 ≡ 0) × (page_bytes x e % 0x1000 ≡ 0)
unfolding phyadr page_bytes
whole_pages x e {adr} h = elim (Bool-cases (ltb (x.align_up e.ptr 0x1000) (2 ^ 52))) [
  | inl fits ↦
      let same : x.align_up e.ptr 0x1000 ≡ adr = ground (arith, h, fits) in
      (omega (arith, page_up_bounds x e.ptr, same), (page_down_bounds x (raw_size e)).2)
  | inr large ↦ absurd (ground (arith, h, large))
]
