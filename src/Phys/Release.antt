-- ===== src/Phys/Release.antt =====
-- `deallocate_frame` on any frame: which frames it frees, and what it leaves alone.
use helium_os.Prelude.{
  ℕ, ◌+◌, ◌-◌, ◌*◌, ◌/◌, ◌%◌, ◌<◌, ◌≡◌, ◌⊎◌, inl, inr, refl, ◌∙◌, true, ◌&&◌, not, none, some, List,
  [], ◌∷◌, All, ◌==◌, length, arith, ok, Bool-cases,
}
use helium_os.Platform.{Align}
use helium_os.Phys.{
  Segment, Allocator, in_range, release_page, find_segment, deallocate_in, deallocate_frame,
}
use helium_os.Phys.Valid.{
  unmark, unmark-IsWords, bit-unmark, length-unmark, Apart, page_used, frame_used, IsSegment,
  IsValid,
}
use helium_os.Phys.Frames.{in_range_iff, Within, Apart-range}
use helium_os.Phys.Free.{release_page_lem, enough_bits}

-- A page that a segment takes back.
pub record Freed (s : Segment) (frame : ℕ) (s' : Segment) : Type 0 where
  pub page : ℕ
  pub start : frame ≡ s.address + page * 0x1000
  pub inside : page * 0x1000 < s.size
  pub in_bitmap : page < 64 * length s.bitmap
  pub cleared : s' ≡ record s { bitmap = unmark s.bitmap page }

pub data Released : List Segment → ℕ → List Segment → Type 0 where
  here :
      {s s' : Segment} {ss : List Segment} {frame : ℕ}
      → in_range s frame ≡ true
      → Freed s frame s'
      → Released (s ∷ ss) frame (s' ∷ ss)
  there :
      {s : Segment} {ss ss' : List Segment} {frame : ℕ}
      → Released ss frame ss'
      → Released (s ∷ ss) frame (s ∷ ss')

Freed-in_range : {s s' : Segment} {frame : ℕ} → Freed s frame s' → in_range s frame ≡ true
Freed-in_range {s} {s'} {frame} p = (in_range_iff s frame).1 (omega (arith, p.start, p.inside))

Freed-bounds :
    {s s' : Segment} {frame : ℕ} (g : ℕ)
    → Freed s frame s'
    → (in_range s' g ≡ in_range s g) × (s'.address ≡ s.address)
unfolding in_range
Freed-bounds g p = (rw p.cleared refl, rw p.cleared refl)

Released-Within : {ss ss' : List Segment} {frame : ℕ} → Released ss frame ss' → Within ss frame
Released-Within (here r p) = inl ((in_range_iff _ _).0 r)
Released-Within (there a) = inr (Released-Within a)

Freed-used :
    {s s' : Segment} {frame : ℕ} (g : ℕ)
    → Freed s frame s'
    → s.address % 0x1000 ≡ 0
    → g % 0x1000 ≡ 0
    → in_range s g ≡ true
    → page_used s' ((g - s.address) / 0x1000)
      ≡ (not (frame == g) && page_used s ((g - s.address) / 0x1000))
Freed-used {s} g p al ag r = rw p.cleared (
    ground (
      arith,
      bit-unmark s.bitmap p.page ((g - s.address) / 0x1000) p.in_bitmap,
      p.start,
      (in_range_iff s g).0 r,
    ))

Released-used :
    (x : Align) {ss ss' : List Segment} {frame : ℕ} (g : ℕ)
    → IsValid x ss
    → Released ss frame ss'
    → g % 0x1000 ≡ 0
    → frame_used ss' g ≡ (not (frame == g) && frame_used ss g)
unfolding frame_used
Released-used x g v (here {s = s} r p) ag = elim (Bool-cases (in_range s g)) [
  | inl i ↦ rw ((Freed-bounds g p).0, (Freed-bounds g p).1, i) (Freed-used g p v.0.aligned ag i)
  | inr i ↦ rw ((Freed-bounds g p).0, i) (ground (arith, i, r))
]
Released-used x g v (there {s = s} {ss = ss} {frame = frame} a) ag =
    elim (Bool-cases (in_range s g)) [
      | inl i ↦ rw i (ground (arith, i, Apart-range s ss frame v.1 (Released-Within a)))
      | inr i ↦ rw i (Released-used x g v.2 a ag)
    ]

module _ (x : Align) where
  Freed-IsSegment : {s s' : Segment} {frame : ℕ} → IsSegment x s → Freed s frame s' → IsSegment x s'
  Freed-IsSegment {s} {s'} v p = rw p.cleared (record {
    marked = v.marked;
    words = length-unmark s.bitmap p.page ∙ v.words;
    word64 = unmark-IsWords s.bitmap p.page v.word64;
    aligned = v.aligned;
    whole = v.whole;
    padded = λ q h r. ground (
      arith,
      bit-unmark s.bitmap p.page q p.in_bitmap,
      p.inside,
      v.padded q h (omega (arith, r, length-unmark s.bitmap p.page)),
    );
  })

  Released-Apart :
      (t : Segment) {ss ss' : List Segment} {frame : ℕ}
      → Released ss frame ss'
      → All (Apart t) ss
      → All (Apart t) ss'
  Released-Apart t (here r p) v = (rw p.cleared v.0, v.1)
  Released-Apart t (there a) v = (v.0, Released-Apart t a v.1)

  Released-IsValid :
      {ss ss' : List Segment} {frame : ℕ} → IsValid x ss → Released ss frame ss' → IsValid x ss'
  Released-IsValid v (here {ss = ss} r p) = (Freed-IsSegment v.0 p, rw p.cleared v.1, v.2)
  Released-IsValid v (there {s = s} a) = (v.0, Released-Apart s a v.1, Released-IsValid v.2 a)

  release_page-Freed :
      (s : Segment) (frame : ℕ)
      → IsSegment x s
      → frame % 0x1000 ≡ 0
      → in_range s frame ≡ true
      → (s' : Segment) × (release_page s frame ≡ ok s') × Freed s frame s'
  release_page-Freed s frame v af r =
      let i = (in_range_iff s frame).0 r in
      let page : ℕ = (frame - s.address) / 0x1000 in
      let inside : page * 0x1000 < s.size = omega (arith, i, v.aligned) in
      let room : page < 64 * length s.bitmap = enough_bits x s page v inside in
      (
        record s { bitmap = unmark s.bitmap page },
        release_page_lem s frame page refl room,
        record {
          page = page;
          start = omega (arith, i, v.aligned);
          inside = inside;
          in_bitmap = room;
          cleared = refl;
        },
      )

  deallocate_in-cases :
      (ss : List Segment) (frame : ℕ)
      → IsValid x ss
      → frame % 0x1000 ≡ 0
      → ((find_segment ss frame ≡ none) × (deallocate_in ss frame ≡ ok ss))
        ⊎ ((s : Segment) × (ss' : List Segment) × (find_segment ss frame ≡ some s)
            × (deallocate_in ss frame ≡ ok ss')
            × Released ss frame ss')
  unfolding find_segment deallocate_in
  deallocate_in-cases [] frame v af = inl (refl, refl)
  deallocate_in-cases (s ∷ ss) frame v af = elim (Bool-cases (in_range s frame)) [
    | inl r ↦
        let (s', e, p) = release_page-Freed s frame v.0 af r in
        inr (s, s' ∷ ss, rw r refl, rw (r, e) refl, here r p)
    | inr r ↦ elim (deallocate_in-cases ss frame v.2 af) [
      | inl (e, e') ↦ inl (rw (r, e) refl, rw (r, e') refl)
      | inr (t, ss', e, e', a) ↦ inr (t, s ∷ ss', rw (r, e) refl, rw (r, e') refl, there a)
    ]
  ]

  -- On well-formed segments `deallocate_frame` of a page-aligned frame does not panic. A frame that
  -- lies in no segment is ignored; any other becomes free, whether it was in use or not, and no
  -- other frame changes. The segments stay well formed.
  pub deallocate_frame_correct :
      (a : Allocator) (frame g : ℕ)
      → IsValid x a.segments
      → frame % 0x1000 ≡ 0
      → g % 0x1000 ≡ 0
      → ((find_segment a.segments frame ≡ none) × (deallocate_frame a frame ≡ ok a))
        ⊎ ((s : Segment) × (a' : Allocator) × (find_segment a.segments frame ≡ some s)
            × (deallocate_frame a frame ≡ ok a')
            × (frame_used a'.segments g ≡ (not (frame == g) && frame_used a.segments g))
            × IsValid x a'.segments)
  unfolding deallocate_frame
  deallocate_frame_correct a frame g v af ag = elim (deallocate_in-cases a.segments frame v af) [
    | inl (e, e') ↦ inl (e, rw e' refl)
    | inr (s, ss', e, e', r) ↦ inr (
      s,
      record a { segments = ss' },
      e,
      rw e' refl,
      Released-used x g v r ag,
      Released-IsValid v r,
    )
  ]
