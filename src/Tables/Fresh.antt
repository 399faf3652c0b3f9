-- ===== src/Tables/Fresh.antt =====
-- A new table under an unused entry, as `alloc_substruct` of kernel/src/mem/virt/mod.rs makes it.
use native.Mathlib.Decide.{ℕ_discrete}
use helium_os.Prelude.{
  ℕ, suc, ◌%◌, ◌≡◌, ◌≢◌, ◌⊎◌, inl, inr, ap, sym, ◌∙◌, true, false, ◌&&◌, ◌||◌, some, ◌==◌,
  if◌then◌else◌, arith, Bool-cases, ok,
}
use helium_os.Platform.{Align, Paging, Flags}
use helium_os.Phys.{Allocator, allocate_frame}
use helium_os.Phys.Valid.{frame_used, IsValid}
use helium_os.Phys.Free.{allocate_frame_correct}
use helium_os.Phys.Unique.{allocate_frame-aligned}
use helium_os.Vcache.Cells.{both_eq}
use helium_os.Tables.{Tables, grow}
use helium_os.Tables.Link.{IsTree, grow_links, grow_made, grow_new, grow_other}

-- The levels with a new table of level `n`.
abbrev pub relevel : (ℕ → ℕ) → ℕ → ℕ → ℕ → ℕ
relevel level c n h = if c == h then n else level h

module _ (x : Align) (y : Paging) where
  open y use {Entry, new_entry, is_unused, flags, frame, set_frame}

  -- What the allocator gives for a new table.
  pub record Given (level : ℕ → ℕ) (a : Allocator) (c : ℕ) (a' : Allocator) : Type 0 where
    pub whole : c % 0x1000 ≡ 0
    pub fresh : level c ≡ 0
    pub used :
        (g : ℕ) → g % 0x1000 ≡ 0 → frame_used a'.segments g ≡ (c == g || frame_used a.segments g)

  pub gives-Given :
      {level : ℕ → ℕ} {t : Tables y} {a a' : Allocator} {c : ℕ}
      → IsTree y level t a
      → IsValid x a.segments
      → allocate_frame x a ≡ ok (some c, a')
      → Given level a c a'
  gives-Given {level} {t} {a} {a'} {c} tree v e =
      let whole : c % 0x1000 ≡ 0 = allocate_frame-aligned x a v e in
      let free : frame_used a.segments c ≡ false =
        ground (arith, allocate_frame_correct x a c v whole) in
      record {
        whole = whole;
        fresh = tree.free c whole free;
        used = λ g w. ground (arith, allocate_frame_correct x a g v w);
      }

  module _ {level : ℕ → ℕ} {t : Tables y} {a a' : Allocator} {c : ℕ} (f i d : ℕ) (fl : Flags)
      (tree : IsTree y level t a) (given : Given level a c a') (present : fl.present ≡ true)
      (at_level : level f ≡ suc (suc d)) (unused : is_unused (t f i) ≡ true) where
    apart : (h e : ℕ) → level h ≡ suc e → c ≢ h
    apart h e l same = absurd (omega (arith, l, given.fresh, ap level same))

    -- A table of the new tree was one before, or is the new one.
    old_level :
        (h e : ℕ)
        → relevel level c (suc d) h ≡ suc e
        → ((c ≡ h) × (e ≡ d)) ⊎ ((c ≢ h) × (level h ≡ suc e))
    old_level h e l = elim (ℕ_discrete c h) [
      | yes same ↦ inl (same, ground (arith, same, l))
      | no ne ↦ inr (ne, ground (arith, ne, l))
    ]

    kept_level : (h e : ℕ) → level h ≡ suc e → relevel level c (suc d) h ≡ suc e
    kept_level h e l = ground (arith, l, apart h e l)

    c_not_f : c ≢ f
    c_not_f = apart f (suc d) at_level

    links :
        (h k g : ℕ)
        → frame (grow y t f i c fl h k) ≡ some g
        → ((h ≡ f) × (k ≡ i) × (g ≡ c)) ⊎ ((c ≢ h) × (frame (t h k) ≡ some g))
    links h k g e = grow_links y t f i c fl h k g given.whole present c_not_f e

    -- No link led to the new table before.
    unlinked :
        (h k e : ℕ) → c ≢ h → relevel level c (suc d) h ≡ suc (suc e) → frame (t h k) ≢ some c
    unlinked h k e ne l linked =
        let was : level h ≡ suc (suc e) = ground (arith, ne, l) in
        absurd (omega (arith, given.fresh, tree.child h k c e was linked))

    pub grow-IsTree : IsTree y (relevel level c (suc d)) (grow y t f i c fl) a'
    grow-IsTree = record {
      free = λ h w u.
          let was : frame_used a.segments h ≡ false = ground (arith, u, given.used h w) in
          let ne : c ≢ h = ground (arith, u, given.used h w) in
          ground (arith, ne, tree.free h w was);
      usable = λ h k e l u. elim (old_level h (suc e) l) [
        | inl (same, _) ↦
            absurd (
              ground
                (arith, u, ap is_unused (grow_new y t f i c fl k), y.is_unused-new_entry, same))
        | inr (ne, was) ↦ elim (Bool-cases ((f == h) && (i == k))) [
          | inl hit ↦ (
            c,
            ap frame (
                  ap (λ p. grow y t f i c fl p k) (sym (both_eq f i h k hit).0)
                  ∙ (ap (grow y t f i c fl f) (sym (both_eq f i h k hit).1)
                      ∙ grow_made y t f i c fl c_not_f))
                ∙ y.frame-set_frame new_entry c fl given.whole present,
          )
          | inr miss ↦
              let same : grow y t f i c fl h k ≡ t h k = grow_other y t f i c fl h k ne miss in
              let (g, e) = tree.usable h k e was (ap is_unused (sym same) ∙ u) in
              (g, ap frame same ∙ e)
        ]
      ];
      child = λ h k g e l n. elim (links h k g n) [
        | inl (sf, si, sg) ↦ ground (arith, sf, sg, l, at_level, c_not_f)
        | inr (ne, old) ↦ kept_level g e (tree.child h k g e (ground (arith, ne, l)) old)
      ];
      alone = λ h k h' k' g e e' l l' n n'. elim (links h k g n) [
        | inl (sf, si, sg) ↦ elim (links h' k' g n') [
          | inl (sf', si', sg') ↦ (sf ∙ sym sf', si ∙ sym si')
          | inr (ne, old) ↦ absurd (unlinked h' k' e' ne l' (old ∙ ap some sg))
        ]
        | inr (ne, old) ↦ elim (links h' k' g n') [
          | inl (sf', si', sg') ↦ absurd (unlinked h k e ne l (old ∙ ap some sg'))
          | inr (ne', old') ↦
              tree.alone h k h' k' g e e' (ground (arith, ne, l)) (ground (arith, ne', l')) old old'
        ]
      ];
    }
