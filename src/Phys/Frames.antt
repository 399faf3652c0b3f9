-- ===== src/Phys/Frames.antt =====
-- `allocate_frame` over all segments, against the view of which frames are in use.
use helium_os.Prelude.{
  ℕ, ◌+◌, ◌-◌, ◌/◌, ◌%◌, ◌≤◌, ◌<◌, ◌≡◌, ◌↔◌, ◌⊎◌, inl, inr, refl, ◌∙◌, true, false, ◌||◌, none,
  some, List, [], ◌∷◌, All, ◌==◌, arith, ok, Bool-cases,
}
use helium_os.Platform.{Align}
use helium_os.Word.Ones.{word_max}
use helium_os.Phys.{Segment, in_range, allocate_in}
use helium_os.Phys.Valid.{
  mark-IsWords, bit-mark, length-mark, Apart, page_used, frame_used, IsSegment, IsValid,
}
use helium_os.Phys.Allocate.{Page, full_bitmap, allocate_page-cases}

-- Every bit of every segment is set.
abbrev pub IsFull : List Segment → Type 0
IsFull = All (λ s. All (λ w. w ≡ word_max) s.bitmap)

-- The first segment that is not full gives a page; the others stay as they are.
pub data Allocated : List Segment → ℕ → List Segment → Type 0 where
  here :
      {s s' : Segment} {ss : List Segment} {frame : ℕ}
      → Page s frame s'
      → Allocated (s ∷ ss) frame (s' ∷ ss)
  there :
      {s : Segment} {ss ss' : List Segment} {frame : ℕ}
      → Allocated ss frame ss'
      → Allocated (s ∷ ss) frame (s ∷ ss')

pub in_range_iff :
    (s : Segment) (a : ℕ) → (in_range s a ≡ true) ↔ ((s.address ≤ a) × (a < s.address + s.size))
unfolding in_range
in_range_iff s a = ground arith

pub Page-in_range : {s s' : Segment} {frame : ℕ} → Page s frame s' → in_range s frame ≡ true
unfolding in_range
Page-in_range p = ground (arith, p.start, p.inside)

-- The frame lies in one of the segments.
abbrev pub Within : List Segment → ℕ → Type 0
Within [] a = ⊥
Within (s ∷ ss) a = ((s.address ≤ a) × (a < s.address + s.size)) ⊎ Within ss a

pub Allocated-Within :
    {ss ss' : List Segment} {frame : ℕ} → Allocated ss frame ss' → Within ss frame
Allocated-Within (here p) = inl ((in_range_iff _ _).0 (Page-in_range p))
Allocated-Within (there a) = inr (Allocated-Within a)

-- A frame of another segment is not in range of one that is apart from it.
pub Apart-range :
    (s : Segment) (ss : List Segment) (a : ℕ)
    → All (Apart s) ss
    → Within ss a
    → in_range s a ≡ false
unfolding in_range
Apart-range s [] a v w = absurd w
Apart-range s (t ∷ ss) a v (inl h) = ground arith
Apart-range s (t ∷ ss) a v (inr w) = Apart-range s ss a v.1 w

-- What a page of a segment looks like from the address of its frame.
pub Page-used :
    {s s' : Segment} {frame : ℕ} (g : ℕ)
    → Page s frame s'
    → s.address % 0x1000 ≡ 0
    → g % 0x1000 ≡ 0
    → in_range s g ≡ true
    → page_used s' ((g - s.address) / 0x1000)
      ≡ (frame == g || page_used s ((g - s.address) / 0x1000))
unfolding in_range
Page-used {s} {s'} {frame} g p al ag r = rw p.marked (
    ground (
      arith,
      bit-mark s.bitmap p.page ((g - s.address) / 0x1000) p.in_bitmap,
      p.start,
      (in_range_iff s g).0 r,
    ))

pub Allocated-free :
    (x : Align) {ss ss' : List Segment} {frame : ℕ}
    → IsValid x ss
    → Allocated ss frame ss'
    → frame_used ss frame ≡ false
unfolding frame_used
Allocated-free x v (here {s = s} {frame = frame} p) =
    let place : (frame - s.address) / 0x1000 ≡ p.page = omega (arith, p.start) in
    rw (Page-in_range p, place) p.was_free
Allocated-free x v (there {s = s} {ss = ss} {frame = frame} a) =
    rw (Apart-range s ss frame v.1 (Allocated-Within a)) (Allocated-free x v.2 a)

-- The page that was given leaves the bounds of its segment alone.
pub Page-bounds :
    {s s' : Segment} {frame : ℕ} (g : ℕ)
    → Page s frame s'
    → (in_range s' g ≡ in_range s g) × (s'.address ≡ s.address)
unfolding in_range
Page-bounds g p = (rw p.marked refl, rw p.marked refl)

-- Exactly the frame that was given becomes used.
pub Allocated-used :
    (x : Align) {ss ss' : List Segment} {frame : ℕ} (g : ℕ)
    → IsValid x ss
    → Allocated ss frame ss'
    → g % 0x1000 ≡ 0
    → frame_used ss' g ≡ (frame == g || frame_used ss g)
unfolding frame_used
Allocated-used x g v (here {s = s} {s' = s'} {frame = frame} p) ag =
    elim (Bool-cases (in_range s g)) [
      | inl r ↦ rw ((Page-bounds g p).0, (Page-bounds g p).1, r) (Page-used g p v.0.aligned ag r)
      | inr r ↦ rw ((Page-bounds g p).0, r) (ground (arith, r, Page-in_range p))
    ]
Allocated-used x g v (there {s = s} {ss = ss} {ss' = ss'} {frame = frame} a) ag =
    elim (Bool-cases (in_range s g)) [
      | inl r ↦ rw r (ground (arith, r, Apart-range s ss frame v.1 (Allocated-Within a)))
      | inr r ↦ rw r (Allocated-used x g v.2 a ag)
    ]

-- A full segment has no free page, and a full allocator no free frame.
pub IsFull-used : (ss : List Segment) (g : ℕ) → IsFull ss → frame_used ss g ≡ true
unfolding frame_used
IsFull-used [] g f = refl
IsFull-used (s ∷ ss) g f =
    ground (arith, full_bitmap s.bitmap ((g - s.address) / 0x1000) f.0, IsFull-used ss g f.1)

module _ (x : Align) where
  Page-IsSegment : {s s' : Segment} {frame : ℕ} → IsSegment x s → Page s frame s' → IsSegment x s'
  Page-IsSegment {s} {s'} v p = rw p.marked (record {
    marked = v.marked;
    words = length-mark s.bitmap p.page ∙ v.words;
    word64 = mark-IsWords s.bitmap p.page v.word64;
    aligned = v.aligned;
    whole = v.whole;
    padded = λ q h r. ground (
      arith,
      bit-mark s.bitmap p.page q p.in_bitmap,
      length-mark s.bitmap p.page,
      v.padded q h (omega (arith, r, length-mark s.bitmap p.page)),
    );
  })

  Apart-marked :
      {s s' : Segment} {frame : ℕ} (ss : List Segment)
      → Page s frame s'
      → All (Apart s) ss
      → All (Apart s') ss
  Apart-marked ss p v = rw p.marked v

  Allocated-Apart :
      (t : Segment) {ss ss' : List Segment} {frame : ℕ}
      → Allocated ss frame ss'
      → All (Apart t) ss
      → All (Apart t) ss'
  Allocated-Apart t (here p) v = (rw p.marked v.0, v.1)
  Allocated-Apart t (there a) v = (v.0, Allocated-Apart t a v.1)

  pub Allocated-IsValid :
      {ss ss' : List Segment} {frame : ℕ} → IsValid x ss → Allocated ss frame ss' → IsValid x ss'
  Allocated-IsValid v (here {ss = ss} p) = (Page-IsSegment v.0 p, Apart-marked ss p v.1, v.2)
  Allocated-IsValid v (there {s = s} a) = (v.0, Allocated-Apart s a v.1, Allocated-IsValid v.2 a)

  -- The allocator over all its segments: full, or one of them gives a page.
  pub allocate_in-cases :
      (ss : List Segment)
      → IsValid x ss
      → ((allocate_in x ss ≡ ok none) × IsFull ss)
        ⊎ ((frame : ℕ) × (ss' : List Segment) × (allocate_in x ss ≡ ok (some (frame, ss')))
            × Allocated ss frame ss')
  unfolding allocate_in
  allocate_in-cases [] v = inl (refl, tt)
  allocate_in-cases (s ∷ ss) v = elim (allocate_page-cases x s v.0) [
    | inr (frame, s', e, p) ↦ inr (frame, s' ∷ ss, rw e refl, here p)
    | inl (e, full) ↦ elim (allocate_in-cases ss v.2) [
      | inl (e', rest) ↦ inl (rw (e, e') refl, (full, rest))
      | inr (frame, ss', e', a) ↦ inr (frame, s ∷ ss', rw (e, e') refl, there a)
    ]
  ]
