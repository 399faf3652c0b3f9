-- ===== src/Phys/Valid.antt =====
-- Which pages of a segment are in use, and when the segments of the allocator are well formed.
use native.Mathlib.Decide.{ℕ_discrete}
use helium_os.Prelude.{
  ℕ, zero, suc, ◌+◌, ◌-◌, ◌*◌, ◌/◌, ◌%◌, ◌^◌, ◌≤◌, ◌<◌, ◌≡◌, ◌⊎◌, refl, ap, Bool, true, false, ◌||◌,
  ◌&&◌, not, none, some, List, [], ◌∷◌, All, ◌==◌, if◌then◌else◌, length, get_elem?, set, arith,
}
use helium_os.Platform.{Align}
use helium_os.Word.Bits.{bit}
use helium_os.Word.Ones.{
  set_bit, clear_bit, bit-set_bit, bit-clear_bit, set_bit-lt, clear_bit-lt, clear_bit-set_bit,
}
use helium_os.Phys.{Segment, magic_value, in_range, bitmap_u64len}

-- The word at an index of a bitmap; past its end all pages count as taken.
abbrev pub word_at : List ℕ → ℕ → ℕ
word_at ws i = elim (get_elem? ws i) [ none ↦ 2 ^ 64 - 1 | some w ↦ w ]

-- The bit of a page in a bitmap.
unfoldable pub bitmap_bit : List ℕ → ℕ → Bool
bitmap_bit ws page = bit (word_at ws (page / 64)) (page % 64)

-- The bitmap with the bit of a page set, or cleared.
unfoldable pub mark : List ℕ → ℕ → List ℕ
mark ws page = set ws (page / 64) (set_bit (word_at ws (page / 64)) (page % 64))

unfoldable pub unmark : List ℕ → ℕ → List ℕ
unmark ws page = set ws (page / 64) (clear_bit (word_at ws (page / 64)) (page % 64))

abbrev pub IsWords : List ℕ → Type 0
IsWords = All (λ w. w < 2 ^ 64)

pub length-set : (ws : List ℕ) (i w : ℕ) → length (set ws i w) ≡ length ws
length-set [] i w = refl
length-set (v ∷ ws) zero w = refl
length-set (v ∷ ws) (suc i) w = ap suc (length-set ws i w)

pub word_at-set :
    (ws : List ℕ) (i j w : ℕ)
    → i < length ws
    → word_at (set ws i w) j ≡ (if i == j then w else word_at ws j)
word_at-set [] i j w h = absurd (omega arith)
word_at-set (v ∷ ws) zero zero w h = refl
word_at-set (v ∷ ws) zero (suc j) w h = ground arith
word_at-set (v ∷ ws) (suc i) zero w h = ground arith
word_at-set (v ∷ ws) (suc i) (suc j) w h = ground (arith, word_at-set ws i j w (omega arith))

pub word_at-lt : (ws : List ℕ) (i : ℕ) → IsWords ws → word_at ws i < 2 ^ 64
word_at-lt [] i h = omega arith
word_at-lt (v ∷ ws) zero h = h.0
word_at-lt (v ∷ ws) (suc i) h = word_at-lt ws i h.1

pub set-IsWords : (ws : List ℕ) (i w : ℕ) → w < 2 ^ 64 → IsWords ws → IsWords (set ws i w)
set-IsWords [] i w h v = tt
set-IsWords (u ∷ ws) zero w h v = (h, v.1)
set-IsWords (u ∷ ws) (suc i) w h v = (v.0, set-IsWords ws i w h v.1)

pub mark-IsWords : (ws : List ℕ) (page : ℕ) → IsWords ws → IsWords (mark ws page)
unfolding mark
mark-IsWords ws page v =
    set-IsWords ws (page / 64) _
      (set_bit-lt (word_at ws (page / 64)) (page % 64) (word_at-lt ws (page / 64) v) (omega arith))
      v

pub unmark-IsWords : (ws : List ℕ) (page : ℕ) → IsWords ws → IsWords (unmark ws page)
unfolding unmark
unmark-IsWords ws page v =
    set-IsWords ws (page / 64) _ (clear_bit-lt (word_at ws (page / 64)) (page % 64)) v

-- Setting the bit of a page changes that page alone.
pub bit-mark :
    (ws : List ℕ) (page q : ℕ)
    → page < 64 * length ws
    → bitmap_bit (mark ws page) q ≡ (page == q || bitmap_bit ws q)
unfolding bitmap_bit mark
bit-mark ws page q h =
    rw
      (word_at-set ws (page / 64) (q / 64) (set_bit (word_at ws (page / 64)) (page % 64))
        (omega arith))
      (elim (ℕ_discrete (page / 64) (q / 64)) [
        | yes e ↦
            rw (← e) (ground (arith, bit-set_bit (word_at ws (page / 64)) (page % 64) (q % 64)))
        | no ne ↦ ground arith
      ])

pub bit-unmark :
    (ws : List ℕ) (page q : ℕ)
    → page < 64 * length ws
    → bitmap_bit (unmark ws page) q ≡ (not (page == q) && bitmap_bit ws q)
unfolding bitmap_bit unmark
bit-unmark ws page q h =
    rw
      (word_at-set ws (page / 64) (q / 64) (clear_bit (word_at ws (page / 64)) (page % 64))
        (omega arith))
      (elim (ℕ_discrete (page / 64) (q / 64)) [
        | yes e ↦ rw (← e) (
            ground (
              arith,
              bit-clear_bit (word_at ws (page / 64)) (page % 64) (q % 64) (omega arith)
                  (omega arith),
            ))
        | no ne ↦ ground arith
      ])

set-set : (ws : List ℕ) (i v w : ℕ) → set (set ws i v) i w ≡ set ws i w
set-set [] i v w = refl
set-set (u ∷ ws) zero v w = refl
set-set (u ∷ ws) (suc i) v w = ap (λ r. u ∷ r) (set-set ws i v w)

set_same : (ws : List ℕ) (i : ℕ) → set ws i (word_at ws i) ≡ ws
set_same [] i = refl
set_same (u ∷ ws) zero = refl
set_same (u ∷ ws) (suc i) = ap (λ r. u ∷ r) (set_same ws i)

-- Freeing a page that was marked a moment ago gives the bitmap back.
pub unmark-mark :
    (ws : List ℕ) (page : ℕ)
    → IsWords ws
    → page < 64 * length ws
    → bitmap_bit ws page ≡ false
    → unmark (mark ws page) page ≡ ws
unfolding bitmap_bit mark unmark
unmark-mark ws page v h free =
    rw
      (
        word_at-set ws (page / 64) (page / 64) (set_bit (word_at ws (page / 64)) (page % 64))
            (omega arith),
        same (page / 64),
        set-set ws (page / 64) (set_bit (word_at ws (page / 64)) (page % 64))
            (clear_bit (set_bit (word_at ws (page / 64)) (page % 64)) (page % 64)),
        clear_bit-set_bit (word_at ws (page / 64)) (page % 64) (word_at-lt ws (page / 64) v)
            (omega arith) free,
      )
      (set_same ws (page / 64))
  where
    same : (i : ℕ) → (i == i) ≡ true
    same i = ground arith

pub length-mark : (ws : List ℕ) (page : ℕ) → length (mark ws page) ≡ length ws
unfolding mark
length-mark ws page = length-set ws (page / 64) _

pub length-unmark : (ws : List ℕ) (page : ℕ) → length (unmark ws page) ≡ length ws
unfolding unmark
length-unmark ws page = length-set ws (page / 64) _

-- Two segments share no address.
abbrev pub Apart : Segment → Segment → Type 0
Apart s t = (s.address + s.size ≤ t.address) ⊎ (t.address + t.size ≤ s.address)

-- Page `page` of a segment is in use.
abbrev pub page_used : Segment → ℕ → Bool
page_used s page = bitmap_bit s.bitmap page

-- A frame is in use: its page is marked in the segment that holds it. A frame in no segment cannot
-- be handed out, and counts as in use.
unfoldable pub frame_used : List Segment → ℕ → Bool
frame_used [] frame = true
frame_used (s ∷ ss) frame =
    if in_range s frame then page_used s ((frame - s.address) / 0x1000) else frame_used ss frame

-- A segment with its magic number, whole pages, and a bitmap for them; the bits past its last page
-- are set.
pub record IsSegment (x : Align) (s : Segment) : Type 0 where
  pub marked : s.magic ≡ magic_value
  pub words : length s.bitmap ≡ bitmap_u64len x s.size
  pub word64 : IsWords s.bitmap
  pub aligned : s.address % 0x1000 ≡ 0
  pub whole : s.size % 0x1000 ≡ 0
  pub padded :
      (page : ℕ) → s.size ≤ page * 0x1000 → page < 64 * length s.bitmap → page_used s page ≡ true

abbrev pub IsValid : Align → List Segment → Type 0
IsValid x [] = Unit {0}
IsValid x (s ∷ ss) = IsSegment x s × All (Apart s) ss × IsValid x ss
