-- ===== src/Framebuffer/Pixels.antt =====
-- Where `set_pixel` of kernel/src/dev/framebuffer.rs writes.
use native.Mathlib.Nat.{mul-le-mul_right}
use helium_os.Prelude.{
  ℕ, ◌+◌, ◌*◌, ◌^◌, ◌≤◌, ◌<◌, ◌≡◌, ◌⊎◌, inl, inr, refl, true, some, ltb, arith, ok, Bool-cases,
}
use helium_os.Framebuffer.{
  Framebuffer, PixelColor, argb, bgra, word, set_pixel, get_or, lowest_after, highest_after,
  checked_mul,
}

word-ok :
    (p : PixelColor) (fb : Framebuffer)
    → (fb.format ≡ argb) ⊎ (fb.format ≡ bgra)
    → (w : ℕ) × (word p fb.format ≡ ok w)
unfolding word
word-ok p fb (inl e) = (p.alpha * 2 ^ 24 + p.red * 2 ^ 16 + p.green * 2 ^ 8 + p.blue, rw e refl)
word-ok p fb (inr e) = (p.blue * 2 ^ 24 + p.green * 2 ^ 16 + p.red * 2 ^ 8 + p.alpha, rw e refl)

scaled : (c a b : ℕ) → a ≤ b → a * c ≤ b * c
scaled c a b le = mul-le-mul_right c le

-- `set_pixel` of a pixel on the screen, in one of the two formats that have a word, with lines that
-- are wide enough and a buffer of less than 2^64 bytes, never panics. The pixel at column `x` of row `y` has the bytes from
-- `y * scanline + 4 * x` on, but the word goes to four times that offset; from a quarter of the
-- height on this is past the end of the buffer, whose size is its height times its line.
pub set_pixel-outside :
    (x y : ℕ) (pixel : PixelColor) (fb : Framebuffer)
    → (fb.format ≡ argb) ⊎ (fb.format ≡ bgra)
    → x < fb.width
    → y < fb.height
    → fb.width * 4 ≤ fb.scanline
    → fb.scanline * fb.height < 2 ^ 64
    → (adr w : ℕ) × (fb' : Framebuffer) × (set_pixel x y pixel fb ≡ ok ((adr, w), fb'))
      × (adr ≡ get_or fb.double_buffer fb.ptr + 4 * (y * fb.scanline + 4 * x))
      × ((4 * y < fb.height) ⊎ (get_or fb.double_buffer fb.ptr + fb.scanline * fb.height ≤ adr))
unfolding set_pixel
set_pixel-outside x y pixel fb format on_row on_column wide small =
    let (w, e) = word-ok pixel fb format in
    let row : y * fb.scanline + fb.scanline ≤ fb.scanline * fb.height =
      omega (arith, scaled fb.scanline (y + 1) fb.height (omega (arith, on_column))) in
    let m₁ : checked_mul y fb.scanline ≡ ok (y * fb.scanline) = ground (arith, row, small) in
    let m₂ : checked_mul x 4 ≡ ok (x * 4) = ground (arith, row, small, wide, on_row) in
    let m₃ : checked_mul fb.scanline fb.height ≡ ok (fb.scanline * fb.height) =
      ground (arith, small) in
    let s₁ : ltb (y * fb.scanline + x * 4) (2 ^ 64) ≡ true =
      ground (arith, row, small, wide, on_row) in
    let s₂ : ltb (y * fb.scanline + x * 4) (fb.scanline * fb.height) ≡ true =
      ground (arith, row, small, wide, on_row) in
    let s₃ : ltb x fb.width ≡ true = ground (arith, on_row) in
    let s₄ : ltb y fb.height ≡ true = ground (arith, on_column) in
    (
      get_or fb.double_buffer fb.ptr + (y * fb.scanline + x * 4) * 4,
      w,
      after_write,
      rw (m₁, m₂, s₁, e, s₃, s₄, m₃, s₂) refl,
      omega arith,
      elim (Bool-cases (ltb (4 * y) fb.height)) [
        | inl upper ↦ inl (ground (arith, upper))
        | inr lower ↦
            inr (omega (arith, scaled fb.scanline fb.height (4 * y) (ground (arith, lower))))
      ],
    )
  where
    after_write : Framebuffer
    after_write = record fb {
      lowest_offset = some (lowest_after fb.lowest_offset (y * fb.scanline + x * 4));
      highest_offset = some (highest_after fb.highest_offset (y * fb.scanline + x * 4));
    }
