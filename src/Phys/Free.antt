-- ===== src/Phys/Free.antt =====
-- `deallocate_frame`, alone and after `allocate_frame`.
use helium_os.Prelude.{
  ℕ, zero, suc, ◌-◌, ◌*◌, ◌/◌, ◌%◌, ◌<◌, ◌≡◌, ◌⊎◌, inl, inr, refl, ap, ◌∙◌, true, false, ◌||◌, none,
  some, List, [], ◌∷◌, ◌==◌, length, get_elem?, arith, ok,
}
use helium_os.Platform.{Align, word_up_bounds}
use helium_os.Phys.{
  Segment, Allocator, bitmap_size, bitmap_u64len, release_page, deallocate_in, deallocate_frame,
  allocate_frame,
}
use helium_os.Phys.Valid.{
  word_at, mark, unmark, length-mark, unmark-mark, frame_used, IsSegment, IsValid,
}
use helium_os.Phys.Allocate.{Page}
use helium_os.Phys.Frames.{
  IsFull-used, Allocated, here, there, Page-in_range, Page-bounds, Allocated-Within, Apart-range,
  Allocated-free, Allocated-used, Allocated-IsValid, allocate_in-cases,
}

get_elem?_lt : (ws : List ℕ) (i : ℕ) → i < length ws → get_elem? ws i ≡ some (word_at ws i)
get_elem?_lt [] i h = absurd (omega arith)
get_elem?_lt (w ∷ ws) zero h = refl
get_elem?_lt (w ∷ ws) (suc i) h = get_elem?_lt ws i (omega arith)

-- `deallocate_frame` clears the bit of the page, where the bitmap has one.
pub release_page_lem :
    (s : Segment) (frame page : ℕ)
    → (frame - s.address) / 0x1000 ≡ page
    → page < 64 * length s.bitmap
    → release_page s frame ≡ ok (record s { bitmap = unmark s.bitmap page })
unfolding release_page unmark
release_page_lem s frame page e h =
    rw (e, get_elem?_lt s.bitmap (page / 64) (omega arith), release_page) refl

module _ (x : Align) where
  -- The bitmap has a bit for every page of the segment.
  pub enough_bits :
      (s : Segment) (page : ℕ)
      → IsSegment x s
      → page * 0x1000 < s.size
      → page < 64 * length s.bitmap
  unfolding bitmap_u64len bitmap_size
  enough_bits s page v h = omega (arith, v.words, word_up_bounds x (s.size / 0x1000), v.whole)

  -- Deallocation in the segment where a frame was just allocated restores the segment.
  release_Page :
      {s s' : Segment} {frame : ℕ} → IsSegment x s → Page s frame s' → release_page s' frame ≡ ok s
  release_Page {s} {s'} {frame} v p = rw p.marked (
      release_page_lem (record s { bitmap = mark s.bitmap p.page }) frame p.page
        (omega (arith, p.start)) (omega (arith, p.in_bitmap, length-mark s.bitmap p.page))
      ∙ ap (λ b. ok (record s { bitmap = b }))
          (unmark-mark s.bitmap p.page v.word64 p.in_bitmap p.was_free))

  deallocate_Allocated :
      {ss ss' : List Segment} {frame : ℕ}
      → IsValid x ss
      → Allocated ss frame ss'
      → deallocate_in ss' frame ≡ ok ss
  unfolding deallocate_in
  deallocate_Allocated v (here {frame = frame} p) =
      rw ((Page-bounds frame p).0, Page-in_range p, release_Page v.0 p) refl
  deallocate_Allocated v (there {s = s} {ss = ss} {frame = frame} a) =
      rw (Apart-range s ss frame v.1 (Allocated-Within a), deallocate_Allocated v.2 a) refl

  -- On well-formed segments `allocate_frame` does not panic. Either every frame is in use and it
  -- returns `None`, the allocator unchanged, or it returns a frame that was free; then, of all
  -- frames, that one and no other changes from free to used, and the segments stay well formed.
  pub allocate_frame_correct :
      (a : Allocator) (g : ℕ)
      → IsValid x a.segments
      → g % 0x1000 ≡ 0
      → ((allocate_frame x a ≡ ok (none, a)) × (frame_used a.segments g ≡ true))
        ⊎ ((frame : ℕ) × (a' : Allocator) × (allocate_frame x a ≡ ok (some frame, a'))
            × (frame_used a.segments frame ≡ false)
            × (frame_used a'.segments g ≡ (frame == g || frame_used a.segments g))
            × IsValid x a'.segments)
  unfolding allocate_frame
  allocate_frame_correct a g v ag = elim (allocate_in-cases x a.segments v) [
    | inl (e, full) ↦ inl (rw e refl, IsFull-used a.segments g full)
    | inr (frame, ss', e, al) ↦ inr (
      frame,
      record a { segments = ss' },
      rw e refl,
      Allocated-free x v al,
      Allocated-used x g v al ag,
      Allocated-IsValid x v al,
    )
  ]

  -- What `allocate_frame` gave, `deallocate_frame` takes back: the allocator is as it was before.
  pub deallocate-allocate :
      (a : Allocator) {a' : Allocator} {frame : ℕ}
      → IsValid x a.segments
      → allocate_frame x a ≡ ok (some frame, a')
      → deallocate_frame a' frame ≡ ok a
  unfolding allocate_frame deallocate_frame
  deallocate-allocate a {a'} {frame} v h = elim (allocate_in-cases x a.segments v) [
    | inl (e, full) ↦ absurd (ground (arith, e))
    | inr (f, ss', e, al) ↦
        let same : a' ≡ record a { segments = ss' } = ground (arith, e) in
        let given : frame ≡ f = ground (arith, e) in
        rw (same, given, deallocate_Allocated v al) refl
  ]
