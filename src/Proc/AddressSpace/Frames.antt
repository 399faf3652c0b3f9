-- ===== src/Proc/AddressSpace/Frames.antt =====
-- The frames that an allocation of a task's memory takes.
use helium_os.Prelude.{
  ℕ, zero, suc, ◌+◌, ◌%◌, ◌≤◌, ◌<◌, ◌*◌, ◌≡◌, ◌⊎◌, inl, inr, refl, ap, ◌∙◌, Bool, true, false, ◌||◌,
  none, some, List, [], ◌∷◌, ◌++◌, All, All-append, ◌==◌, length, length-append, arith, Outcome, ok,
  ◌>>=◌,
}
use helium_os.Platform.{Align, Indices, Flags}
use helium_os.Phys.{Segment, Allocator, find_segment, allocate_frame}
use helium_os.Phys.Valid.{frame_used, IsValid}
use helium_os.Phys.Free.{allocate_frame_correct}
use helium_os.Phys.Release.{deallocate_frame_correct}
use helium_os.Phys.Unique.{allocate_frame-aligned, after_gift}
use helium_os.Proc.{MemoryMap}
use helium_os.Proc.AddressSpace.{
  pfree_all, allocate_from, allocate, add_raw, allocated_page, Allocation,
}

unfoldable pub member : ℕ → List ℕ → Bool
member g [] = false
member g (f ∷ fs) = f == g || member g fs

member-append : (g f : ℕ) (fs : List ℕ) → member g (fs ++ (f ∷ [])) ≡ (f == g || member g fs)
unfolding member
member-append g f [] = refl
member-append g f (h ∷ fs) = ground (arith, member-append g f fs)

-- A frame of no segment counts as used.
outside_used : (ss : List Segment) (g : ℕ) → find_segment ss g ≡ none → frame_used ss g ≡ true
unfolding find_segment frame_used
outside_used [] g h = refl
outside_used (s ∷ ss) g h = ground (arith, h, outside_used ss g)

module _ (x : Align) where
  -- The frames `fs` were taken from `a₀`, which has become `a`.
  pub record Took (a₀ a : Allocator) (fs : List ℕ) : Type 0 where
    pub valid : IsValid x a.segments
    pub used :
        (g : ℕ)
        → g % 0x1000 ≡ 0
        → frame_used a.segments g ≡ (member g fs || frame_used a₀.segments g)
    pub fresh : All (λ f. (f % 0x1000 ≡ 0) × (frame_used a₀.segments f ≡ false)) fs

  used_after :
      (a : Allocator) {a' : Allocator} {frame : ℕ} (g : ℕ)
      → IsValid x a.segments
      → g % 0x1000 ≡ 0
      → allocate_frame x a ≡ ok (some frame, a')
      → (frame_used a'.segments g ≡ (frame == g || frame_used a.segments g))
        × (frame_used a.segments frame ≡ false)
  used_after a g v w h = ground (arith, allocate_frame_correct x a g v w)

  Took-more :
      {a₀ a a' : Allocator} {frame : ℕ} {fs : List ℕ}
      → Took a₀ a fs
      → allocate_frame x a ≡ ok (some frame, a')
      → Took a₀ a' (fs ++ (frame ∷ []))
  Took-more {a₀} {a} {a'} {frame} {fs} t h =
      let whole : frame % 0x1000 ≡ 0 = allocate_frame-aligned x a t.valid h in
      record {
        valid = after_gift x a t.valid h;
        used =
            λ g w. ground (arith, used_after a g t.valid w h, t.used g w, member-append g frame fs);
        fresh =
            All-append _ fs frame t.fresh
              (whole, ground (arith, used_after a frame t.valid whole h, t.used frame whole));
      }

  -- Freeing frames of whole pages never panics and keeps the segments well formed.
  pfree_all-IsValid :
      (fs : List ℕ) (a : Allocator)
      → IsValid x a.segments
      → All (λ f. f % 0x1000 ≡ 0) fs
      → (a' : Allocator) × (pfree_all fs a ≡ ok a') × IsValid x a'.segments
  unfolding pfree_all
  pfree_all-IsValid [] a v w = (a, refl, v)
  pfree_all-IsValid (f ∷ fs) a v w = elim (deallocate_frame_correct x a f 0 v w.0 refl) [
    | inl (e, e') ↦
        let (b, run, v') = pfree_all-IsValid fs a v w.1 in
        (b, ap (λ o. o >>= (λ c. pfree_all fs c)) e' ∙ run, v')
    | inr (s, c, e, e', u, vc) ↦
        let (b, run, v') = pfree_all-IsValid fs c vc w.1 in
        (b, ap (λ o. o >>= (λ c. pfree_all fs c)) e' ∙ run, v')
  ]

  fresh_whole :
      (a₀ : Allocator) (fs : List ℕ)
      → All (λ f. (f % 0x1000 ≡ 0) × (frame_used a₀.segments f ≡ false)) fs
      → All (λ f. f % 0x1000 ≡ 0) fs
  fresh_whole a₀ [] t = tt
  fresh_whole a₀ (f ∷ fs) t = (t.0.0, fresh_whole a₀ fs t.1)

  -- What an allocation comes to: nothing, or frames of the number that was asked for.
  abbrev pub Takes : Allocator → ℕ → Outcome Allocation → Type 0
  Takes a₀ n o =
      ((a' : Allocator) × (m' : MemoryMap) × (o ≡ ok (none, a', m')) × IsValid x a'.segments)
      ⊎ ((got : List ℕ) × (a' : Allocator) × (m' : MemoryMap) × (o ≡ ok (some got, a', m'))
          × (length got ≡ n)
          × Took a₀ a' got)

  module _ (z : Indices) where
    allocate_from-Takes :
        (vadr : ℕ) (flags : Flags) (i n total : ℕ) (frames : List ℕ) (a₀ a : Allocator)
        (m : MemoryMap)
        → length frames + n ≡ total
        → ((j : ℕ) → i ≤ j → j < i + n → z.is_canonical (vadr + j * 0x1000) ≡ true)
        → Took a₀ a frames
        → Takes a₀ total (allocate_from x z vadr flags i n frames a m)
    unfolding allocate_from
    allocate_from-Takes vadr flags i zero total frames a₀ a m l can t =
        inr (frames, a, m, refl, omega (arith, l), t)
    allocate_from-Takes vadr flags i (suc n) total frames a₀ a m l can t =
        elim (allocate_frame_correct x a 0 t.valid refl) [
          | inl (e, full) ↦
              let (b, run, v) =
                pfree_all-IsValid frames a t.valid (fresh_whole a₀ frames t.fresh) in
              inl (b, m, rw (e, run) refl, v)
          | inr (frame, b, e, free, used, vb) ↦
              rw (e, can i (omega arith) (omega arith))
                (allocate_from-Takes vadr flags (i + 1) n total (frames ++ (frame ∷ [])) a₀ b
                  (add_raw m (allocated_page vadr i flags frame))
                  (omega (arith, l, length-append frames (frame ∷ [])))
                  (λ j le lt. can j (omega (arith, le)) (omega (arith, lt))) (Took-more t e))
        ]

    -- On well-formed segments, for pages with canonical addresses, `MemoryMap::allocate` does not panic, and the segments stay well
    -- formed. Either it has no memory, or it gives as many frames as pages were asked for, all of
    -- them free before, and of all frames those and no others have become used.
    pub allocate-Takes :
        (vadr n : ℕ) (flags : Flags) (a : Allocator) (m : MemoryMap)
        → IsValid x a.segments
        → ((i : ℕ) → i < n → z.is_canonical (vadr + i * 0x1000) ≡ true)
        → Takes a n (allocate x z vadr n flags a m)
    unfolding allocate member
    allocate-Takes vadr n flags a m v can =
        allocate_from-Takes vadr flags 0 n n [] a a m (omega arith)
          (λ j le lt. can j (omega (arith, lt)))
          (record { valid = v; used = λ g w. refl; fresh = tt })
