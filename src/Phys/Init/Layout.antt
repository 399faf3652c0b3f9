-- ===== src/Phys/Init/Layout.antt =====
-- The segments that `phys::init` writes are well formed, and their headers stay in the place that
-- was reserved for them.
use helium_os.Prelude.{
  ℕ, ◌+◌, ◌*◌, ◌/◌, ◌%◌, ◌≤◌, ◌<◌, ◌≡◌, ◌⊎◌, refl, ap, ◌∙◌, true, false, List, [], ◌∷◌, All, leb,
  ◌==◌, arith, ok,
}
use helium_os.Platform.{Align, word_up_bounds}
use helium_os.Phys.{Segment, magic_value, bitmap_size, bitmap_u64len, page_size}
use helium_os.Phys.Valid.{page_used, IsSegment, IsValid, Apart}
use helium_os.Phys.Init.{Region, footprint, write_segment, lay_out, fresh_bitmap}
use helium_os.Phys.Init.Bitmap.{
  first_reserved, bit-fresh_bitmap, u64len_lem, length-fresh_bitmap, fresh_bitmap-IsWords,
}

-- Whole pages, at least one.
abbrev pub IsWhole : Region → Type 0
IsWhole r = (r.address % 0x1000 ≡ 0) × (r.size % 0x1000 ≡ 0)

abbrev pub NotEmpty : Region → Type 0
NotEmpty r = 0 < r.size

abbrev pub Clear : Region → Region → Type 0
Clear r t = (r.address + r.size ≤ t.address) ⊎ (t.address + t.size ≤ r.address)

abbrev pub AllClear : List Region → Type 0
AllClear [] = Unit {0}
AllClear (r ∷ rs) = All (Clear r) rs × AllClear rs

reserved_above : (pages p : ℕ) → pages ≤ p → leb (first_reserved pages) p ≡ true
reserved_above pages p h = ground arith

nonzero : (n : ℕ) → 0 < n → (n == 0) ≡ false
nonzero n h = ground arith

-- Region by region, the segments that were written.
abbrev pub Written : List Region → List Segment → Type 0
Written [] [] = Unit {0}
Written [] (s ∷ ss) = ⊥
Written (r ∷ rs) [] = ⊥
Written (r ∷ rs) (s ∷ ss) = (s.address ≡ r.address) × (s.size ≡ r.size) × Written rs ss

Written-Apart :
    (s : Segment) (r : Region) (rs : List Region) (ss : List Segment)
    → s.address ≡ r.address
    → s.size ≡ r.size
    → Written rs ss
    → All (Clear r) rs
    → All (Apart s) ss
Written-Apart s r [] [] a z w c = tt
Written-Apart s r [] (t ∷ ss) a z w c = absurd w
Written-Apart s r (q ∷ rs) [] a z w c = absurd w
Written-Apart s r (q ∷ rs) (t ∷ ss) a z w c =
    (omega (arith, a, z, w.0, w.1, c.0), Written-Apart s r rs ss a z w.2 c.1)

module _ (x : Align) where
  -- What the headers and bitmaps of the regions take, in bytes.
  unfoldable pub total_footprint : List Region → ℕ
  total_footprint [] = 0
  total_footprint (r ∷ rs) = footprint x r.size + total_footprint rs

  -- The headers stand one behind the other from `base + cursor` on.
  abbrev pub Placed : ℕ → ℕ → List Segment → Type 0
  Placed base cursor [] = Unit {0}
  Placed base cursor (s ∷ ss) =
      (s.ptr ≡ base + cursor) × Placed base (cursor + footprint x s.size) ss

  bitmap_size_lem : (size : ℕ) → bitmap_size x size ≡ 8 * ((size / 0x1000 + 63) / 64)
  unfolding bitmap_size
  bitmap_size_lem size = omega (arith, word_up_bounds x (size / 0x1000))

  -- `phys::init` writes a well-formed segment for a region of one page or more. Of its pages those
  -- below `first_reserved` are free, and the others count as used from the start.
  pub write_segment-pages :
      (ptr q : ℕ) (r : Region)
      → IsWhole r
      → NotEmpty r
      → q * 0x1000 < r.size
      → (s : Segment) × (write_segment x ptr r ≡ ok s)
        × IsSegment x s
        × (page_used s q ≡ leb (first_reserved (r.size / 0x1000)) q)
        × (s.ptr ≡ ptr)
        × (s.address ≡ r.address)
        × (s.size ≡ r.size)
  unfolding write_segment
  write_segment-pages ptr q r w ne lt =
      let len : ℕ = bitmap_u64len x r.size in
      let e : len ≡ (r.size / 0x1000 + 63) / 64 = u64len_lem x r.size in
      let pos : 0 < len = omega (arith, e, w, ne) in
      let s : Segment = record {
        ptr = ptr;
        magic = magic_value;
        address = r.address;
        size = r.size;
        bitmap = fresh_bitmap len (r.size / page_size);
      } in
      let valid : IsSegment x s = record {
        marked = refl;
        words = length-fresh_bitmap len (r.size / 0x1000);
        word64 = fresh_bitmap-IsWords len (r.size / 0x1000);
        aligned = w.0;
        whole = w.1;
        padded = λ p h room.
            bit-fresh_bitmap len (r.size / 0x1000) p e pos
              (omega (arith, room, length-fresh_bitmap len (r.size / 0x1000)))
            ∙ reserved_above (r.size / 0x1000) p (omega (arith, h));
      } in
      (
        s,
        rw (nonzero len pos) refl,
        valid,
        bit-fresh_bitmap len (r.size / 0x1000) q e pos (omega (arith, e, lt, w)),
        refl,
        refl,
        refl,
      )

  -- The loop that writes the headers: it succeeds on regions of at least a page that do not meet.
  -- The segments are well formed, and each header starts where the one before it ends.
  pub lay_out-IsValid :
      (base cursor : ℕ) (rs : List Region)
      → All IsWhole rs
      → All NotEmpty rs
      → AllClear rs
      → (ss : List Segment) × (lay_out x base cursor rs ≡ ok (ss, cursor + total_footprint rs))
        × IsValid x ss
        × Placed base cursor ss
        × Written rs ss
  unfolding lay_out total_footprint
  lay_out-IsValid base cursor [] w ne c = ([], ap (λ (n : ℕ). ok ([], n)) (omega arith), tt, tt, tt)
  lay_out-IsValid base cursor (r ∷ rs) w ne c =
      let (s, e, v, u, p, a, z) = write_segment-pages (base + cursor) 0 r w.0 ne.0 ne.0 in
      let (ss, e', v', pl, wr) =
        lay_out-IsValid base (cursor + footprint x r.size) rs w.1 ne.1 c.1 in
      (
        s ∷ ss,
        rw (e, e') (ap (λ (n : ℕ). ok (s ∷ ss, n)) (omega arith)),
        (v, Written-Apart s r rs ss a z wr c.0, v'),
        (p, rw z pl),
        (a, z, wr),
      )
