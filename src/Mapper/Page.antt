-- ===== src/Mapper/Page.antt =====
-- One round of the loop of `map`, kernel/src/mem/virt/mapper.rs: the mapping of one page, and what
-- the processor then finds.
use helium_os.Prelude.{
  ℕ, ◌%◌, ◌≡◌, ◌≢◌, ◌⊎◌, inl, inr, refl, ap, sym, ◌∙◌, Option, some, List, [], ◌∷◌, arith, Outcome,
  ok, panic,
}
use helium_os.Platform.{Align, Paging, Indices, Flags}
use helium_os.Phys.{Allocator}
use helium_os.Vcache.{page_at, update₂}
use helium_os.Tables.{Tables, insert, walk}
use helium_os.Tables.Insert.Deeper.{DrawsFew}
use helium_os.Tables.Insert.Result.{Exhausted, Ends, insert-Ends}
use helium_os.Mapper.{Memory, table_flags, page_flags, map_page}
use helium_os.Mapper.Cache.{Slot, Steady, Steady-trans, Steady-Slot}
use helium_os.Mapper.Step.{Sound, ensure_allocated-descends}

module _ (x : Align) (y : Paging) (z : Indices) where
  open y use {Entry, flags, frame, set_frame}

  -- The indices of a page, the highest level first.
  abbrev pub path_of : ℕ → List ℕ
  path_of page = z.p4_index page ∷ z.p3_index page ∷ z.p2_index page ∷ z.p1_index page ∷ []

  abbrev leaf_for : ℕ → Flags → Entry → Entry
  leaf_for physframe fl old = set_frame old physframe fl

  -- What the processor finds for a page outside the window of the cache, whose tables are kept apart.
  abbrev pub lookup : Memory x y z → ℕ → Option (ℕ × Flags)
  lookup m page = walk y (path_of page) m.root m.tables

  module _ (page physframe : ℕ) (fl : Flags) where
    -- Memory after one page was mapped.
    pub record Mapped (level : ℕ → ℕ) (m m' : Memory x y z) : Type 0 where
      pub level' : ℕ → ℕ
      pub sound : Sound x y z level' m'
      pub root : m'.root ≡ m.root
      pub root_level : level' m.root ≡ 4
      pub steady : Steady y z m.cache m'.cache
      pub drew : DrawsFew x 4 m.allocator m'.allocator
      pub found : lookup m' page ≡ some (physframe, page_flags page fl)
      pub others : (q : ℕ) → path_of q ≢ path_of page → lookup m' q ≡ lookup m q

    abbrev specified : Memory x y z → Outcome (Tables y × Allocator)
    specified m =
        insert y x (table_flags page) (leaf_for physframe (page_flags page fl)) (path_of page)
          m.root m.tables m.allocator

    module _ (t j s k : ℕ) where
      abbrev Done : Memory x y z → Memory x y z → Type 0
      Done m m' =
          (map_page x y z page physframe fl (page_at y t j) (page_at y s k) m ≡ ok m')
          × (specified m ≡ ok (m'.tables, m'.allocator))
          × (m'.root ≡ m.root)
          × Steady y z m.cache m'.cache

      -- The kernel's descent does what the specification does.
      pub map_page-insert :
          {level : ℕ → ℕ} {m : Memory x y z}
          → Sound x y z level m
          → level m.root ≡ 4
          → Slot y z m.cache t j
          → Slot y z m.cache s k
          → ((map_page x y z page physframe fl (page_at y t j) (page_at y s k) m ≡ panic)
              × (specified m ≡ panic))
            ⊎ ((m' : Memory x y z) × Done m m')
      unfolding map_page insert
      map_page-insert {m = m} sound l o₀ o₁ =
          elim (ensure_allocated-descends x y z leaf page m.root (z.p4_index page) (z.p3_index page)
            (z.p2_index page ∷ z.p1_index page ∷ []) t j sound l o₀) [
              | inl (e, e') ↦ inl (rw e refl, e')
              | inr (m₁, e₁, d₁) ↦
                  elim (ensure_allocated-descends x y z leaf page d₁.child (z.p3_index page)
                    (z.p2_index page) (z.p1_index page ∷ []) s k d₁.sound d₁.child_level
                    (Steady-Slot y z d₁.steady o₁)) [
                      | inl (e, e') ↦ inl (rw (e₁, d₁.shows, e) refl, d₁.goes_on ∙ e')
                      | inr (m₂, e₂, d₂) ↦
                          elim (ensure_allocated-descends x y z leaf page d₂.child (z.p2_index page)
                            (z.p1_index page) [] t j d₂.sound d₂.child_level
                            (Steady-Slot y z d₂.steady (Steady-Slot y z d₁.steady o₀))) [
                              | inl (e, e') ↦ inl (
                                rw (e₁, d₁.shows, e₂, d₂.shows, e) refl,
                                d₁.goes_on ∙ (d₂.goes_on ∙ e'),
                              )
                              | inr (m₃, e₃, d₃) ↦ inr (
                                record m₃ {
                                  tables =
                                      update₂ m₃.tables d₃.child (z.p1_index page)
                                        (leaf (m₃.tables d₃.child (z.p1_index page)));
                                },
                                (
                                  rw (e₁, d₁.shows, e₂, d₂.shows, e₃, d₃.shows) refl,
                                  d₁.goes_on ∙ (d₂.goes_on ∙ d₃.goes_on),
                                  d₃.root ∙ (d₂.root ∙ d₁.root),
                                  Steady-trans y z d₁.steady (Steady-trans y z d₂.steady d₃.steady),
                                ),
                              )
                            ]
                    ]
            ]
        where
          leaf : Entry → Entry
          leaf = leaf_for physframe (page_flags page fl)

      pub map_page-Mapped :
          {level : ℕ → ℕ} {m : Memory x y z}
          → Sound x y z level m
          → level m.root ≡ 4
          → physframe % 0x1000 ≡ 0
          → Slot y z m.cache t j
          → Slot y z m.cache s k
          → ((map_page x y z page physframe fl (page_at y t j) (page_at y s k) m ≡ panic)
              × Exhausted x 4 m.allocator)
            ⊎ ((m' : Memory x y z) × (map_page x y z page physframe fl
                    (page_at y t j)
                    (page_at y s k)
                    m
                  ≡ ok m')
                × Mapped level m m')
      unfolding table_flags page_flags
      map_page-Mapped {level} {m} sound l whole o₀ o₁ = elim (map_page-insert sound l o₀ o₁) [
        | inl (e, e') ↦ elim ends [
          | inl (f, out) ↦ inl (e, out)
          | inr (t', a', f, ins) ↦ absurd (ground (arith, e', f))
        ]
        | inr (m', (e, e', root, steady)) ↦ elim ends [
          | inl (f, out) ↦ absurd (ground (arith, e', f))
          | inr (t', a', f, ins) ↦
              let equal : ok (m'.tables, m'.allocator) ≡ ok (t', a') = sym e' ∙ f in
              let same_t : m'.tables ≡ t' =
                ap (λ o. elim o [ panic ↦ m.tables | ok r ↦ r.0 ]) equal in
              let same_a : m'.allocator ≡ a' =
                ap (λ o. elim o [ panic ↦ m.allocator | ok r ↦ r.1 ]) equal in
              inr (
                m',
                e,
                record {
                  level' = ins.level';
                  sound = record {
                    tree = rw (same_t, same_a) ins.tree;
                    valid = rw same_a ins.valid;
                    len = steady.len ∙ sound.len;
                  };
                  root = root;
                  root_level = ins.kept m.root root_nonzero ∙ l;
                  steady = steady;
                  drew = rw same_a ins.drew;
                  found = rw (root, same_t) ins.mapped;
                  others = λ q ne. rw (root, same_t) (ins.other (path_of q) refl ne);
                },
              )
        ]
      ]
        where
          root_nonzero : level m.root ≢ 0
          root_nonzero e = omega (arith, e, l)

          ends :
              Ends x y
                (table_flags page)
                (page_flags page fl)
                (leaf_for physframe (page_flags page fl))
                physframe
                refl
                (λ e. y.frame-set_frame e physframe (page_flags page fl) whole refl)
                (λ e. y.flags-set_frame e physframe (page_flags page fl))
                level
                m.tables
                m.allocator
                (path_of page)
                m.root
                (specified m)
          ends =
              insert-Ends x y (table_flags page) (page_flags page fl)
                (leaf_for physframe (page_flags page fl)) physframe refl
                (λ e. y.frame-set_frame e physframe (page_flags page fl) whole refl)
                (λ e. y.flags-set_frame e physframe (page_flags page fl)) (path_of page) m.root l
                (omega arith) sound.tree sound.valid
