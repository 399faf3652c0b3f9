-- ===== src/Mapper/Valloc/Range.antt =====
-- `valloc` of kernel/src/mem/mod.rs, by induction on the number of pages.
use mathlib.Core.Path.{subst}
use helium_os.Prelude.{
  ℕ, zero, suc, ◌+◌, ◌*◌, ◌%◌, ◌≤◌, ◌<◌, ◌≡◌, ◌≢◌, ◌⊎◌, inl, inr, refl, ap, sym, ◌∙◌, true, false,
  some, arith, ok, panic,
}
use helium_os.Platform.{Align, Paging, Indices, Flags}
use helium_os.Phys.{page_size}
use helium_os.Phys.Valid.{frame_used}
use helium_os.Phys.Free.{allocate_frame_correct}
use helium_os.Phys.Unique.{allocate_frame-aligned}
use helium_os.Tables.Insert.Deeper.{DrawsFew, DrawsFew-trans, draw, nothing}
use helium_os.Tables.Insert.Result.{Exhausted, Exhausted-after}
use helium_os.Mapper.{Memory, page_flags, valloc}
use helium_os.Mapper.Page.{lookup}
use helium_os.Mapper.Address.{page_number}
use helium_os.Mapper.Drawn.{allocate_frame-Took, Draws-used, Draws-free}
use helium_os.Mapper.Whole.{IsReady, IsOutside, map-Maps}
use helium_os.Mapper.Valloc.{Inside, FramesFit, OnNew, Took-IsReady, one_page, OnOne, Maps-OnOne}

module _ (x : Align) (y : Paging) (z : Indices) where
  module _ {n page g : ℕ} {fl : Flags} {m m₁ m₂ : Memory x y z} (r : IsReady x y z m)
      (small : suc n ≤ 0x1000000000) (outside : IsOutside page) (o : OnOne x y z page g fl m m₁)
      (b : OnNew x y z n (page + 0x1000) fl m₁ m₂) where
    -- The first page keeps its frame.
    first_kept : lookup x y z m₂ (page + 0 * 0x1000) ≡ some (g, page_flags (page + 0 * 0x1000) fl)
    first_kept =
        let same : page ≡ page + 0 * 0x1000 = omega arith in
        subst (λ p. lookup x y z m₂ p ≡ some (g, page_flags p fl)) same
          (b.rest page outside (λ i lt e. omega (arith, e, lt, small)) ∙ o.found)

    next_page : (i : ℕ) → page + 0x1000 + i * 0x1000 ≡ page + suc i * 0x1000
    next_page i = omega arith

    still_used :
        (f : ℕ)
        → f % 0x1000 ≡ 0
        → frame_used m₁.allocator.segments f ≡ true
        → frame_used m₂.allocator.segments f ≡ true
    still_used f w u = Draws-used x b.drew.2 o.ready.sound.valid f w u

    was_free :
        (f : ℕ)
        → f % 0x1000 ≡ 0
        → frame_used m₁.allocator.segments f ≡ false
        → frame_used m.allocator.segments f ≡ false
    was_free f w u = Draws-free x o.drew.2 r.sound.valid f w u

    abbrev Leads : ℕ → Type 0
    Leads i =
        (h : ℕ) × (lookup x y z m₂ (page + i * 0x1000)
          ≡ some (h, page_flags (page + i * 0x1000) fl))
        × (h % 0x1000 ≡ 0)
        × (frame_used m.allocator.segments h ≡ false)
        × (frame_used m₂.allocator.segments h ≡ true)

    each : (i : ℕ) → i < suc n → Leads i
    each zero lt = (g, first_kept, o.whole, o.free, still_used g o.whole o.used)
    each (suc i) lt =
        let (h, e, w, free, used) = b.mapped i (omega (arith, lt)) in
        (
          h,
          subst (λ p. lookup x y z m₂ p ≡ some (h, page_flags p fl)) (next_page i) e,
          w,
          was_free h w free,
          used,
        )

    -- The frames of the first page and of a later one.
    differ :
        (j h : ℕ) (c d : Flags)
        → j < n
        → lookup x y z m₂ (page + 0 * 0x1000) ≡ some (h, c)
        → lookup x y z m₂ (page + suc j * 0x1000) ≢ some (h, d)
    differ j h c d lt e e' =
        let (h', later, w, free, _) = b.mapped j lt in
        let at : lookup x y z m₂ (page + suc j * 0x1000)
            ≡ some (h', page_flags (page + 0x1000 + j * 0x1000) fl) =
          ap (lookup x y z m₂) (sym (next_page j)) ∙ later in
        let same : g ≡ h' = ground (arith, first_kept, e, e', at) in
        absurd (ground (arith, o.used, free, ap (frame_used m₁.allocator.segments) same))

    apart :
        (i j h : ℕ) (c d : Flags)
        → i < suc n
        → j < suc n
        → lookup x y z m₂ (page + i * 0x1000) ≡ some (h, c)
        → lookup x y z m₂ (page + j * 0x1000) ≡ some (h, d)
        → i ≡ j
    apart zero zero h c d li lj e e' = refl
    apart zero (suc j) h c d li lj e e' = absurd (differ j h c d (omega (arith, lj)) e e')
    apart (suc i) zero h c d li lj e e' = absurd (differ i h d c (omega (arith, li)) e' e)
    apart (suc i) (suc j) h c d li lj e e' = ap suc (
        b.distinct i j h c d (omega (arith, li)) (omega (arith, lj))
          (ap (lookup x y z m₂) (next_page i) ∙ e) (ap (lookup x y z m₂) (next_page j) ∙ e'))

    OnNew-more : OnNew x y z (suc n) page fl m m₂
    OnNew-more = record {
      ready = b.ready;
      drew = more (DrawsFew-trans o.drew b.drew);
      root = b.root ∙ o.root;
      mapped = each;
      distinct = apart;
      rest = λ q out ne.
          b.rest q out (λ i lt e. ne (suc i) (omega (arith, lt)) (e ∙ ap page_number (next_page i)))
          ∙ o.rest q out (λ e. ne 0 (omega arith) (e ∙ ap page_number (omega arith)));
    }
      where
        more :
            DrawsFew x (5 + 5 * n) m.allocator m₂.allocator
            → DrawsFew x (5 * suc n) m.allocator m₂.allocator
        more (k, le, d) = (k, omega (arith, le), d)

  Inside-one : (page n : ℕ) → Inside page (suc n) → Inside page 1
  Inside-one page n (inl le) = inl (omega (arith, le))
  Inside-one page n (inr (le, le')) = inr (le, omega (arith, le'))

  Inside-rest : (page n : ℕ) → Inside page (suc n) → Inside (page + 0x1000) n
  Inside-rest page n (inl le) = inl (omega (arith, le))
  Inside-rest page n (inr (le, le')) = inr (omega (arith, le), omega (arith, le'))

  Inside-IsOutside : (page n : ℕ) → Inside page (suc n) → IsOutside page
  Inside-IsOutside page n (inl le) = inl (omega (arith, le))
  Inside-IsOutside page n (inr (le, le')) = inr (omega (arith, le, le'))

  Inside-few : (page n : ℕ) → Inside page (suc n) → suc n ≤ 0x1000000000
  Inside-few page n (inl le) = omega (arith, le)
  Inside-few page n (inr (le, le')) = omega (arith, le, le')

  -- `valloc` of `n` pages from an aligned page on, outside the cache and in one half of the address
  -- space, in a memory that is ready, with all free frames below the largest physical address:
  -- either the kernel panics, because the allocator refuses one of five frames for each page, or
  -- each page leads with the flags to a frame of its own, which was free and is in use now, no
  -- other page outside the cache leads elsewhere than before, and memory is ready for the next call.
  pub valloc-OnNew :
      (n page : ℕ) (fl : Flags) {m : Memory x y z}
      → IsReady x y z m
      → page % 0x1000 ≡ 0
      → Inside page n
      → FramesFit x y z m
      → ((valloc x y z page n fl m ≡ panic) × Exhausted x (5 * n) m.allocator)
        ⊎ ((m' : Memory x y z) × (valloc x y z page n fl m ≡ ok m') × OnNew x y z n page fl m m')
  unfolding valloc
  valloc-OnNew zero page fl {m} r aligned inside fit = inr (
    m,
    refl,
    record {
      ready = r;
      drew = (0, omega arith, nothing);
      root = refl;
      mapped = λ i lt. absurd (omega (arith, lt));
      distinct = λ i j g a b lt. absurd (omega (arith, lt));
      rest = λ q out ne. refl;
    },
  )
  valloc-OnNew (suc n) page fl {m} r aligned inside fit =
      elim (allocate_frame_correct x m.allocator 0 r.sound.valid refl) [
        | inl (e, full) ↦ inl (
          rw e refl,
          record { drawn = 0; few = omega arith; last = m.allocator; draws = nothing; refused = e },
        )
        | inr (g, a, e, free, used, v) ↦
            let t = allocate_frame-Took x m.allocator r.sound.valid e in
            let whole = allocate_frame-aligned x m.allocator r.sound.valid e in
            elim (map-Maps x y z page g page_size fl (Took-IsReady x y z r t) (omega arith) aligned
              (Inside-one page n inside) (fit g whole t.free) whole) [
                | inl (e', out) ↦ inl (
                  rw (e, e') refl,
                  Exhausted-after {p = 1} (omega (arith, one_page x y z))
                      (1, omega arith, draw e nothing) out,
                )
                | inr (m₁, e', d) ↦
                    let o = Maps-OnOne x y z r e d in
                    elim (valloc-OnNew n (page + 0x1000) fl o.ready (omega (arith, aligned))
                      (Inside-rest page n inside)
                      (λ f w u. fit f w (Draws-free x o.drew.2 r.sound.valid f w u))) [
                        | inl (e'', out) ↦
                            inl (rw (e, e') e'', Exhausted-after (omega arith) o.drew out)
                        | inr (m₂, e'', b) ↦ inr (
                          m₂,
                          rw (e, e') e'',
                          OnNew-more r (Inside-few page n inside) (Inside-IsOutside page n inside) o
                              b,
                        )
                      ]
              ]
      ]
