-- ===== src/Mapper/Step.antt =====
-- One level of the descent of `map`: `ensure_allocated` of kernel/src/mem/virt/mapper.rs.
use helium_os.Prelude.{
  ℕ, suc, ◌≡◌, ◌⊎◌, inl, inr, refl, ap, ◌∙◌, Bool, true, false, some, List, ◌∷◌, length,
  if◌then◌else◌, arith, ok, panic, Bool-cases,
}
use helium_os.Platform.{Align, Paging, Indices}
use helium_os.Phys.Valid.{IsValid}
use helium_os.Phys.Free.{allocate_frame_correct}
use helium_os.Vcache.{VCache, page_at, p2page_count, update₂}
use helium_os.Vcache.Cells.{update₂_hit, both_tests}
use helium_os.Tables.{insert, clear, grow}
use helium_os.Tables.Link.{IsTree}
use helium_os.Tables.Fresh.{relevel, Given, gives-Given, grow-IsTree}
use helium_os.Mapper.{Memory, translate, alloc_substruct, show_table, ensure_allocated, table_flags}
use helium_os.Mapper.Cache.{Slot, Steady, remap-shows}

module _ (x : Align) (y : Paging) (z : Indices) where
  open y use {Entry, new_entry, is_unused, flags, frame, set_frame}

  -- Page tables, allocator and cache are well formed.
  pub record Sound (level : ℕ → ℕ) (m : Memory x y z) : Type 0 where
    pub tree : IsTree y level m.tables m.allocator
    pub valid : IsValid x m.allocator.segments
    pub len : m.cache.p1_len ≡ p2page_count

  show_table-shows :
      (created : Bool) (m : Memory x y z) (f i t j g : ℕ)
      → m.cache.p1_len ≡ p2page_count
      → Slot y z m.cache t j
      → frame (m.tables f i) ≡ some g
      → (v' : VCache y) × (show_table x y z created f i (page_at y t j) m
          ≡ ok (record m { cache = v'; tables = if created then clear y m.tables g else m.tables }))
        × Steady y z m.cache v'
        × (translate y z v' (page_at y t j) ≡ ok g)
  unfolding show_table
  show_table-shows created m f i t j g len o e =
      let (v', run, steady, shows) = remap-shows y z g len o (y.frame-aligned _ g e) in
      (v', rw (e, run, shows) refl, steady, shows)

  -- What one level of the descent comes to: the child `g`, shown at page `(t, j)`, and that the
  -- specification goes on from there.
  pub record Descended (leaf : Entry → Entry) (page f i : ℕ) (rest : List ℕ) (t j : ℕ)
      (m m₁ : Memory x y z) : Type 0 where
    pub child : ℕ
    pub level₁ : ℕ → ℕ
    pub sound : Sound level₁ m₁
    pub child_level : level₁ child ≡ length rest
    pub root : m₁.root ≡ m.root
    pub steady : Steady y z m.cache m₁.cache
    pub shows : translate y z m₁.cache (page_at y t j) ≡ ok child
    pub goes_on :
        insert y x (table_flags page) leaf (i ∷ rest) f m.tables m.allocator
        ≡ insert y x (table_flags page) leaf rest child m₁.tables m₁.allocator

  pub ensure_allocated-descends :
      (leaf : Entry → Entry) (page : ℕ) {level : ℕ → ℕ} {m : Memory x y z} (f i k : ℕ) (ks : List ℕ)
      (t j : ℕ)
      → Sound level m
      → level f ≡ suc (suc (length ks))
      → Slot y z m.cache t j
      → ((ensure_allocated x y z f i page (page_at y t j) m ≡ panic)
          × (insert y x (table_flags page) leaf (i ∷ k ∷ ks) f m.tables m.allocator ≡ panic))
        ⊎ ((m₁ : Memory x y z) × (ensure_allocated x y z f i page (page_at y t j) m ≡ ok m₁)
            × Descended leaf page f i (k ∷ ks) t j m m₁)
  unfolding ensure_allocated alloc_substruct insert table_flags
  ensure_allocated-descends leaf page {level} {m} f i k ks t j s l o =
      elim (Bool-cases (is_unused (m.tables f i))) [
        | inr u ↦
            let (g, e) = s.tree.usable f i (length ks) l u in
            let (v', run, steady, shows) = show_table-shows false m f i t j g s.len o e in
            inr (
              record m { cache = v' },
              rw (u, run) refl,
              record {
                child = g;
                level₁ = level;
                sound = record { tree = s.tree; valid = s.valid; len = steady.len ∙ s.len };
                child_level = s.tree.child f i g (length ks) l e;
                root = refl;
                steady = steady;
                shows = shows;
                goes_on = rw (u, e) refl;
              },
            )
        | inl u ↦ elim (allocate_frame_correct x m.allocator 0 s.valid refl) [
          | inl (e, full) ↦ inl (rw (u, e) refl, rw (u, e) refl)
          | inr (c, a₁, e, free, used, v₁) ↦
              let given : Given x y level m.allocator c a₁ = gives-Given x y s.tree s.valid e in
              let made : Memory x y z = record m {
                allocator = a₁;
                tables = update₂ m.tables f i (set_frame new_entry c (table_flags page));
              } in
              let linked : frame (made.tables f i) ≡ some c =
                ap frame (update₂_hit m.tables f i _ f i (both_tests f i))
                ∙ y.frame-set_frame new_entry c (table_flags page) given.whole refl in
              let (v', run, steady, shows) = show_table-shows true made f i t j c s.len o linked in
              inr (
                record made { cache = v'; tables = grow y m.tables f i c (table_flags page) },
                rw (u, e) run,
                record {
                  child = c;
                  level₁ = relevel level c (suc (length ks));
                  sound = record {
                    tree = grow-IsTree x y f i (length ks) (table_flags page) s.tree given refl l u;
                    valid = v₁;
                    len = steady.len ∙ s.len;
                  };
                  child_level = ground arith;
                  root = refl;
                  steady = steady;
                  shows = shows;
                  goes_on = rw (u, e) refl;
                },
              )
        ]
      ]
