-- ===== src/Mapper/Setup/Grown.antt =====
-- `alloc_substruct` of kernel/src/mem/virt/mod.rs while memory is mapped to itself: one new table
-- of `init` of kernel/src/mem/virt/vcache.rs.
use helium_os.Prelude.{
  ℕ, suc, ◌+◌, ◌%◌, ◌^◌, ◌≤◌, ◌≡◌, ◌≢◌, ◌⊎◌, inl, inr, refl, ap, sym, ◌∙◌, true, false, ◌&&◌, some,
  ◌==◌, arith, ok, panic, fun_ext,
}
use helium_os.Platform.{Align, Paging, Indices}
use helium_os.Phys.{Allocator, allocate_frame}
use helium_os.Phys.Valid.{frame_used, IsValid}
use helium_os.Phys.Free.{allocate_frame_correct}
use helium_os.Vcache.{update₂}
use helium_os.Vcache.Cells.{if_miss, ne_test}
use helium_os.Tables.{Tables, grow, clear}
use helium_os.Tables.Link.{IsTree, grow_made, grow_new, grow_other}
use helium_os.Tables.Fresh.{relevel, Given, gives-Given, grow-IsTree}
use helium_os.Tables.Insert.Deeper.{DrawsFew, draw, nothing}
use helium_os.Tables.Insert.Result.{Exhausted}
use helium_os.Mapper.{Memory, alloc_substruct}
use helium_os.Mapper.Setup.{window_flags}

module _ (x : Align) (y : Paging) (z : Indices) where
  open y use {Entry, new_entry, is_unused, flags, frame, set_frame}

  -- Page tables and allocator are well formed, and memory ends below the largest address.
  pub record Stage (level : ℕ → ℕ) (m : Memory x y z) : Type 0 where
    pub tree : IsTree y level m.tables m.allocator
    pub valid : IsValid x m.allocator.segments
    pub low :
        (f : ℕ) → f % 0x1000 ≡ 0 → frame_used m.allocator.segments f ≡ false → f + 0x4000 ≤ 2 ^ 52

  -- Entry `i` of the table in frame `f` leads to the new table in frame `c`.
  pub record Grown (level : ℕ → ℕ) (m : Memory x y z) (f i d c : ℕ) (level' : ℕ → ℕ)
      (m' : Memory x y z) : Type 0 where
    pub stage : Stage level' m'
    pub root : m'.root ≡ m.root
    pub drew : DrawsFew x 1 m.allocator m'.allocator
    pub linked : frame (m'.tables f i) ≡ some c
    pub empty : (j : ℕ) → m'.tables c j ≡ new_entry
    pub new_level : level' c ≡ suc d
    pub low : c + 0x4000 ≤ 2 ^ 52
    pub kept_level : (h : ℕ) → level h ≢ 0 → level' h ≡ level h
    pub kept : (h k : ℕ) → level h ≢ 0 → (f ≢ h) ⊎ (i ≢ k) → m'.tables h k ≡ m.tables h k

  was_free :
      (a : Allocator) {a' : Allocator} {c : ℕ}
      → IsValid x a.segments
      → c % 0x1000 ≡ 0
      → allocate_frame x a ≡ ok (some c, a')
      → frame_used a.segments c ≡ false
  was_free a {a'} {c} v whole e = ground (arith, allocate_frame_correct x a c v whole)

  other_test : (f i h k : ℕ) → (f ≢ h) ⊎ (i ≢ k) → ((f == h) && (i == k)) ≡ false
  other_test f i h k (inl ne) = ground (arith, ne)
  other_test f i h k (inr ne) = ground (arith, ne)

  kept_level :
      (level : ℕ → ℕ) (c n : ℕ)
      → level c ≡ 0
      → (h : ℕ) → level h ≢ 0
      → relevel level c n h ≡ level h
  kept_level level c n fresh h ne =
      if_miss _ _ _ (ne_test c h (λ same. ne (ap level (sym same) ∙ fresh)))

  -- The frame is cleared before the entry is written, or after: that is the same.
  clear_first :
      (t : Tables y) (f i c : ℕ) (e : Entry)
      → c ≢ f
      → update₂ (clear y t c) f i e ≡ clear y (update₂ t f i e) c
  clear_first t f i c e ne = fun_ext (λ h. fun_ext (λ k. ground (arith, ne)))

  pub alloc_substruct-Grown :
      {level : ℕ → ℕ} {m : Memory x y z} (f i d : ℕ)
      → Stage level m
      → level f ≡ suc (suc d)
      → is_unused (m.tables f i) ≡ true
      → ((alloc_substruct x y z f i window_flags true m ≡ panic) × Exhausted x 1 m.allocator)
        ⊎ ((c : ℕ) × (level' : ℕ → ℕ) × (m' : Memory x y z) × (alloc_substruct x y z f i
                window_flags true m
              ≡ ok m')
            × Grown level m f i d c level' m')
  unfolding alloc_substruct
  alloc_substruct-Grown {level} {m} f i d s l u =
      elim (allocate_frame_correct x m.allocator 0 s.valid refl) [
        | inl (e, full) ↦ inl (
          rw e refl,
          record { drawn = 0; few = omega arith; last = m.allocator; draws = nothing; refused = e },
        )
        | inr (c, a₁, e, free, used, v₁) ↦
            let given : Given x y level m.allocator c a₁ = gives-Given x y s.tree s.valid e in
            let apart : c ≢ f = λ same. absurd (omega (arith, l, given.fresh, ap level same)) in
            let same = clear_first m.tables f i c (set_frame new_entry c window_flags) apart in
            inr (
              c,
              relevel level c (suc d),
              record m { allocator = a₁; tables = grow y m.tables f i c window_flags },
              rw e (ap (λ t. ok (record m { allocator = a₁; tables = t })) same),
              record {
                stage = record {
                  tree = grow-IsTree x y f i d window_flags s.tree given refl l u;
                  valid = v₁;
                  low = λ g w un. s.low g w (ground (arith, un, given.used g w));
                };
                root = refl;
                drew = (1, omega arith, draw e nothing);
                linked =
                    ap frame (grow_made y m.tables f i c window_flags apart)
                    ∙ y.frame-set_frame new_entry c window_flags given.whole refl;
                empty = λ j. grow_new y m.tables f i c window_flags j;
                new_level = ground arith;
                low = s.low c given.whole (was_free m.allocator s.valid given.whole e);
                kept_level = λ h ne. kept_level level c (suc d) given.fresh h ne;
                kept = λ h k ne o.
                    grow_other y m.tables f i c window_flags h k
                      (λ same. ne (ap level (sym same) ∙ given.fresh)) (other_test f i h k o);
              },
            )
      ]
