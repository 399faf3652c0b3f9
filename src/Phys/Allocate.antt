-- ===== src/Phys/Allocate.antt =====
-- `allocate_frame`: what it hands out, when it hands out nothing, and what it leaves alone.
use native.Mathlib.Decide.{ℕ_discrete, dec_lt}
use mathlib.Core.Bool.{false≢true}
use helium_os.Prelude.{
  ℕ, zero, suc, ◌+◌, ◌*◌, ◌/◌, ◌%◌, ◌^◌, ◌<◌, ◌≡◌, ◌≢◌, ◌⊎◌, inl, inr, refl, sym, ◌∙◌, true, false,
  none, some, List, [], ◌∷◌, All, length, set, arith, ok, Option-cases,
}
use helium_os.Platform.{Align, containing_address_aligned}
use helium_os.Word.Ones.{
  word_max, trailing_ones, set_bit, trailing_ones-lt, bit-trailing_ones, bit-word_max,
}
use helium_os.Phys.{Segment, check, find_word, allocate_page}
use helium_os.Phys.Valid.{word_at, word_at-lt, bitmap_bit, mark, page_used, IsSegment}

-- The word that the search stops at, in terms of its place in the bitmap.
record Found (ws : List ℕ) (first i w : ℕ) : Type 0 where
  offset : ℕ
  place : i ≡ first + offset
  in_bitmap : offset < length ws
  word : word_at ws offset ≡ w
  has_zero : w ≢ word_max

Found-cons :
    (v : ℕ) {ws : List ℕ} {first i w : ℕ} → Found ws (first + 1) i w → Found (v ∷ ws) first i w
Found-cons v f = record {
  offset = suc f.offset;
  place = omega (arith, f.place);
  in_bitmap = omega (arith, f.in_bitmap);
  word = f.word;
  has_zero = f.has_zero;
}

find_word-Found :
    (first : ℕ) (ws : List ℕ) {i w : ℕ} → find_word first ws ≡ some (i, w) → Found ws first i w
unfolding find_word
find_word-Found first [] e = absurd (ground arith)
find_word-Found first (v ∷ ws) {i} {w} e = elim (ℕ_discrete v word_max) [
  | yes full ↦ Found-cons v (find_word-Found (first + 1) ws (ground arith))
  | no ne ↦ record {
    offset = 0;
    place = ground arith;
    in_bitmap = omega arith;
    word = ground arith;
    has_zero = ground arith;
  }
]

-- No word is found only when every bit is set.
pub find_word-none :
    (first : ℕ) (ws : List ℕ) → find_word first ws ≡ none → All (λ w. w ≡ word_max) ws
unfolding find_word
find_word-none first [] e = tt
find_word-none first (v ∷ ws) e = (ground arith, find_word-none (first + 1) ws (ground arith))

full_word : (ws : List ℕ) (i : ℕ) → All (λ w. w ≡ word_max) ws → word_at ws i ≡ word_max
full_word [] i a = refl
full_word (v ∷ ws) zero a = a.0
full_word (v ∷ ws) (suc i) a = full_word ws i a.1

pub full_bitmap : (ws : List ℕ) (page : ℕ) → All (λ w. w ≡ word_max) ws → bitmap_bit ws page ≡ true
unfolding bitmap_bit
full_bitmap ws page a = rw (full_word ws (page / 64) a) (bit-word_max (page % 64) (omega arith))

-- A page that a segment gives: it was free, lies inside, and only its bit changes.
pub record Page (s : Segment) (frame : ℕ) (s' : Segment) : Type 0 where
  pub page : ℕ
  pub start : frame ≡ s.address + page * 0x1000
  pub inside : page * 0x1000 < s.size
  pub in_bitmap : page < 64 * length s.bitmap
  pub was_free : page_used s page ≡ false
  pub marked : s' ≡ record s { bitmap = mark s.bitmap page }

module _ (x : Align) where
  -- The bits past the last page are set, so a free page lies inside its segment.
  free_inside :
      (s : Segment) (page : ℕ)
      → IsSegment x s
      → page < 64 * length s.bitmap
      → page_used s page ≡ false
      → page * 0x1000 < s.size
  free_inside s page v room free = elim (dec_lt (page * 0x1000) s.size) [
    | yes h ↦ h
    | no h ↦ absurd (false≢true (sym free ∙ v.padded page (omega arith) room))
  ]

  taken : (s : Segment) (i w : ℕ) → Segment
  taken s i w = record s { bitmap = set s.bitmap i (set_bit w (trailing_ones 64 w)) }

  allocate_page-some :
      (s : Segment) (i w : ℕ)
      → IsSegment x s
      → find_word 0 s.bitmap ≡ some (i, w)
      → w < 2 ^ 64
      → w ≢ word_max
      → allocate_page x s
        ≡ ok (
            some (
              x.containing_address (s.address + (64 * i + trailing_ones 64 w) * 0x1000),
              taken s i w,
            ))
  unfolding allocate_page check taken
  allocate_page-some s i w v e h ne =
      rw (e, allocate_page) (ground (arith, v.marked, trailing_ones-lt 64 w h ne))

  taken-Page :
      (s : Segment) (i w : ℕ)
      → IsSegment x s
      → Found s.bitmap 0 i w
      → w < 2 ^ 64
      → Page s
          (x.containing_address (s.address + (64 * i + trailing_ones 64 w) * 0x1000))
          (taken s i w)
  unfolding taken mark bitmap_bit
  taken-Page s i w v f h =
      let below : trailing_ones 64 w < 64 = trailing_ones-lt 64 w h f.has_zero in
      let windex : (64 * i + trailing_ones 64 w) / 64 ≡ i = omega (arith, below) in
      let bindex : (64 * i + trailing_ones 64 w) % 64 ≡ trailing_ones 64 w = omega (arith, below) in
      let place : i ≡ f.offset = omega (arith, f.place) in
      let word : word_at s.bitmap i ≡ w = rw place f.word in
      let free : page_used s (64 * i + trailing_ones 64 w) ≡ false =
        rw (windex, bindex, word) (bit-trailing_ones 64 w below) in
      let room : 64 * i + trailing_ones 64 w < 64 * length s.bitmap =
        omega (arith, below, f.place, f.in_bitmap) in
      record {
        page = 64 * i + trailing_ones 64 w;
        start =
            containing_address_aligned x (s.address + (64 * i + trailing_ones 64 w) * 0x1000)
              (omega (arith, v.aligned));
        inside = free_inside s (64 * i + trailing_ones 64 w) v room free;
        in_bitmap = room;
        was_free = free;
        marked = rw (windex, bindex, word) refl;
      }

  -- One segment: it is full, or it gives a page.
  pub allocate_page-cases :
      (s : Segment)
      → IsSegment x s
      → ((allocate_page x s ≡ ok none) × All (λ w. w ≡ word_max) s.bitmap)
        ⊎ ((frame : ℕ) × (s' : Segment) × (allocate_page x s ≡ ok (some (frame, s')))
            × Page s frame s')
  unfolding allocate_page check
  allocate_page-cases s v = elim (Option-cases (find_word 0 s.bitmap)) [
    | inl e ↦ inl (rw (e, allocate_page) (ground (arith, v.marked)), find_word-none 0 s.bitmap e)
    | inr ((i, w), e) ↦
        let f : Found s.bitmap 0 i w = find_word-Found 0 s.bitmap e in
        let h : w < 2 ^ 64 = rw (← f.word) (word_at-lt s.bitmap f.offset v.word64) in
        inr (_, taken s i w, allocate_page-some s i w v e h f.has_zero, taken-Page s i w v f h)
  ]
