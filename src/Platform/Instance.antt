-- ===== src/Platform/Instance.antt =====
-- A concrete reading of the crate's interface, at which the theorems are applied in the tests.
use native.Mathlib.Nat.{one-le-pow, div-mul-le_self, lt-div-mul-add, mul-mod_left}
use helium_os.Prelude.{
  ℕ, ◌+◌, ◌-◌, ◌*◌, ◌/◌, ◌%◌, ◌^◌, ◌≤◌, ◌<◌, ◌≡◌, refl, Bool, true, false, ◌&&◌, ◌||◌, Option, none,
  some, not, ltb, leb, if◌then◌else◌, arith,
}
use helium_os.Platform.{Align, Flags, Paging, Indices, no_flags}

-- Rounding by division.
abbrev pub round_down : ℕ → ℕ → ℕ
round_down a n = a / n * n

abbrev pub round_up : ℕ → ℕ → ℕ
round_up a n = (a + n - 1) / n * n

pub round_up-ge : (a n : ℕ) → 0 < n → a ≤ round_up a n
round_up-ge a n h = omega (arith, lt-div-mul-add {a = a + n - 1} {b = n} h)

pub round_up-lt : (a n : ℕ) → 0 < n → round_up a n < a + n
round_up-lt a n h = omega (arith, div-mul-le_self (a + n - 1) n)

pub pow_pos : (k : ℕ) → 0 < 2 ^ k
pow_pos k = one-le-pow k 2 (omega arith)

abbrev pub align : Align
align = record {
  align_up = round_up;
  align_down = round_down;
  containing_address = λ a. round_down a 0x1000;
  align_up-ge = λ a k. round_up-ge a (2 ^ k) (pow_pos k);
  align_up-lt = λ a k. round_up-lt a (2 ^ k) (pow_pos k);
  align_up-mod = λ a k. mul-mod_left ((a + 2 ^ k - 1) / 2 ^ k) (2 ^ k);
  align_down-le = λ a k. div-mul-le_self a (2 ^ k);
  align_down-gt = λ a k. lt-div-mul-add (pow_pos k);
  align_down-mod = λ a k. mul-mod_left (a / 2 ^ k) (2 ^ k);
  containing_address-le = λ a. div-mul-le_self a 0x1000;
  containing_address-gt = λ a. lt-div-mul-add (pow_pos 12);
  containing_address-mod = λ a. mul-mod_left (a / 0x1000) 0x1000;
}

-- An entry as the frame and the flags that it holds.
pub record Pte : Type 0 where
  pub frame : ℕ
  pub flags : Flags

abbrev pub frame_of : Pte → Option ℕ
frame_of e = if e.flags.present then some (round_down e.frame 0x1000) else none

pub frame_of_present :
    (e : Pte) → e.frame % 0x1000 ≡ 0 → e.flags.present ≡ true → frame_of e ≡ some e.frame
frame_of_present e a p =
    let same : round_down e.frame 0x1000 ≡ e.frame = omega (arith, a) in rw (p, same) refl

pub frame_of_aligned : (e : Pte) (f : ℕ) → frame_of e ≡ some f → f % 0x1000 ≡ 0
frame_of_aligned e f h =
    let whole : round_down e.frame 0x1000 % 0x1000 ≡ 0 = mul-mod_left (e.frame / 0x1000) 0x1000 in
    ground (arith, h, whole)

pub frame_of_absent : (e : Pte) → e.flags.present ≡ false → frame_of e ≡ none
frame_of_absent e p = ground arith

pub not_present : (e : Pte) → e.flags.present ≡ true → not e.flags.present ≡ false
not_present e p = ground arith

abbrev pub paging : Paging
paging = record {
  Entry = Pte;
  new_entry = record { frame = 0; flags = no_flags };
  is_unused = λ e. not e.flags.present;
  flags = λ e. e.flags;
  frame = frame_of;
  set_frame = λ e f fl. record { frame = f; flags = fl };
  set_flags = λ e fl. record e { flags = fl };
  is_unused-new_entry = refl;
  flags-new_entry = refl;
  flags-set_frame = λ e f fl. refl;
  flags-set_flags = λ e fl. refl;
  frame-set_frame = λ e f fl a p. frame_of_present (record { frame = f; flags = fl }) a p;
  frame-aligned = frame_of_aligned;
  frame-absent = frame_of_absent;
  is_unused-present = not_present;
}

abbrev canonical_test : ℕ → Bool
canonical_test a = ltb a (2 ^ 47) || (leb (2 ^ 64 - 2 ^ 47) a && ltb a (2 ^ 64))

pub canonical_low : (a : ℕ) → a < 2 ^ 47 → canonical_test a ≡ true
canonical_low a lt = ground (arith, lt)

pub canonical_high : (a : ℕ) → 2 ^ 64 - 2 ^ 47 ≤ a → a < 2 ^ 64 → canonical_test a ≡ true
canonical_high a le lt = ground (arith, le, lt)

pub physical_low : (a : ℕ) → a < 2 ^ 52 → ltb a (2 ^ 52) ≡ true
physical_low a lt = ground (arith, lt)

abbrev pub indices : Indices
indices = record {
  p1_index = λ a. a / 2 ^ 12 % 512;
  p2_index = λ a. a / 2 ^ 21 % 512;
  p3_index = λ a. a / 2 ^ 30 % 512;
  p4_index = λ a. a / 2 ^ 39 % 512;
  p1_index_lem = λ a. refl;
  p2_index_lem = λ a. refl;
  p3_index_lem = λ a. refl;
  p4_index_lem = λ a. refl;
  is_canonical = canonical_test;
  is_physical = λ a. ltb a (2 ^ 52);
  is_canonical-low = canonical_low;
  is_canonical-high = canonical_high;
  is_physical-low = physical_low;
}
