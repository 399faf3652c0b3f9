-- ===== src/Framebuffer.antt =====
-- The frame buffer, kernel/src/dev/framebuffer.rs. A write is an address with the word that goes
-- there.
pub mod Pixels
use helium_os.Prelude.{
  ℕ, zero, suc, ◌+◌, ◌-◌, ◌*◌, ◌/◌, ◌%◌, ◌^◌, Bool, true, false, Option, none, some, List, [], ◌∷◌,
  ltb, ◌==◌, if◌then◌else◌, Outcome, ok, panic, ◌>>=◌, ◌>>◌, assert, unwrap, checked_add,
  checked_sub,
}

pub data FramebufferFormat : Type 0 where
  argb : FramebufferFormat
  idk1 : FramebufferFormat
  idk2 : FramebufferFormat
  bgra : FramebufferFormat

-- `TryInto<FramebufferFormat> for u8`
unfoldable pub try_into : ℕ → Option FramebufferFormat
try_into n =
    if n == 0
    then some argb
    else if n == 1
    then some idk1
    else if n == 2
    then some idk2
    else if n == 3
    then some bgra
    else none

pub record PixelColor : Type 0 where
  pub red : ℕ
  pub green : ℕ
  pub blue : ℕ
  pub alpha : ℕ

-- `From<(u8, u8, u8)> for PixelColor`
unfoldable pub from_rgb : ℕ → ℕ → ℕ → PixelColor
from_rgb red green blue = record { red = red; green = green; blue = blue; alpha = 255 }

-- `PixelColor::word`: four bytes that do not overlap, so that their disjunction is their sum.
unfoldable pub word : PixelColor → FramebufferFormat → Outcome ℕ
word p argb = ok (p.alpha * 2 ^ 24 + p.red * 2 ^ 16 + p.green * 2 ^ 8 + p.blue)
word p idk1 = panic
word p idk2 = panic
word p bgra = ok (p.blue * 2 ^ 24 + p.green * 2 ^ 16 + p.red * 2 ^ 8 + p.alpha)

-- `Framebuffer`; the double buffer is the address of its bytes.
pub record Framebuffer : Type 0 where
  pub format : FramebufferFormat
  pub width : ℕ
  pub height : ℕ
  pub scanline : ℕ
  pub ptr : ℕ
  pub lowest_offset : Option ℕ
  pub highest_offset : Option ℕ
  pub double_buffer : Option ℕ

-- `Framebuffer::from_bootboot`, from the fields of the boot loader's record.
unfoldable pub from_bootboot : ℕ → ℕ → ℕ → ℕ → ℕ → Outcome Framebuffer
unfolding try_into
from_bootboot fb_type fb_width fb_height fb_scanline fb_virt =
    unwrap (try_into fb_type) >>= (λ format. ok (record {
      format = format;
      width = fb_width;
      height = fb_height;
      scanline = fb_scanline;
      ptr = fb_virt;
      lowest_offset = none;
      highest_offset = none;
      double_buffer = none;
    }))

-- `get_or_insert`
abbrev pub get_or : Option ℕ → ℕ → ℕ
get_or none n = n
get_or (some m) n = m

-- The bounds of what was written, after a write of four bytes at `offset`.
abbrev pub lowest_after : Option ℕ → ℕ → ℕ
lowest_after lowest offset =
    if ltb offset (get_or lowest offset) then offset else get_or lowest offset

abbrev pub highest_after : Option ℕ → ℕ → ℕ
highest_after highest offset =
    if ltb (get_or highest (offset + 4)) offset then offset + 4 else get_or highest (offset + 4)

abbrev checked_mul : ℕ → ℕ → Outcome ℕ
checked_mul a b = if ltb (a * b) (2 ^ 64) then ok (a * b) else panic

-- `set_pixel`: the address that is written with its word, and the buffer after it. The pointer is
-- one to words, so that `add(offset)` goes four bytes for each unit of the offset.
unfoldable pub set_pixel : ℕ → ℕ → PixelColor → Framebuffer → Outcome ((ℕ × ℕ) × Framebuffer)
unfolding word
set_pixel x y pixel fb = do
  row ← checked_mul y fb.scanline
  column ← checked_mul x 4
  offset ← checked_add 64 row column
  w ← word pixel fb.format
  assert (ltb x fb.width)
  assert (ltb y fb.height)
  buffer_len ← checked_mul fb.scanline fb.height
  assert (ltb offset buffer_len)
  ok (
    (get_or fb.double_buffer fb.ptr + offset * 4, w),
    record fb {
      lowest_offset = some (lowest_after fb.lowest_offset offset);
      highest_offset = some (highest_after fb.highest_offset offset);
    },
  )

-- `refresh`: where the copy goes, where it comes from, how many bytes it has, if there is a double
-- buffer; and the buffer after it.
unfoldable pub refresh : Framebuffer → Outcome (Option (ℕ × ℕ × ℕ) × Framebuffer)
refresh fb = do
  copy_len ← checked_sub (get_or fb.highest_offset 0) (get_or fb.lowest_offset 0)
  ok (
    copied (get_or fb.lowest_offset 0) copy_len fb.double_buffer,
    record fb { lowest_offset = none; highest_offset = none },
  )
  where
    copied : ℕ → ℕ → Option ℕ → Option (ℕ × ℕ × ℕ)
    copied lowest len none = none
    copied lowest len (some buffer) = some (fb.ptr + lowest, buffer + lowest, len)

-- `init_dfb`, with the address of the new bytes.
unfoldable pub init_dfb : ℕ → Framebuffer → Framebuffer
init_dfb buffer fb = record fb {
  double_buffer = some buffer;
  lowest_offset = none;
  highest_offset = none;
}

-- The loop of `debug_printbin` from bit `bitindex` on, with the writes that it made.
unfoldable pub print_bits : ℕ → ℕ → ℕ → ℕ → ℕ → Framebuffer → Outcome (List (ℕ × ℕ) × Framebuffer)
unfolding set_pixel from_rgb
print_bits zero bitindex x y val fb = ok ([], fb)
print_bits (suc n) bitindex x y val fb = do
  let bitval = val / 2 ^ bitindex % 2 == 1
  let color = if bitval then from_rgb 255 0 0 else from_rgb 0 0 255
  (write, fb₁) ← set_pixel (x + 64 - bitindex - 1) y color fb
  (rest, fb₂) ← print_bits n (bitindex + 1) x y val fb₁
  ok (write ∷ rest, fb₂)

-- `debug_printbin`
unfoldable pub debug_printbin : ℕ → ℕ → ℕ → Framebuffer → Outcome (List (ℕ × ℕ) × Framebuffer)
unfolding print_bits
debug_printbin x y val fb = print_bits 64 0 x y val fb
