-- ===== src/Mapper/Setup/Ready.antt =====
-- `init` of kernel/src/mem/virt/vcache.rs as a whole.
use helium_os.Prelude.{
  ℕ, suc, ◌<◌, ◌≡◌, ◌≢◌, ◌⊎◌, inl, inr, refl, ap, sym, ◌∙◌, true, some, arith, ok, panic,
  Bool-cases,
}
use helium_os.Platform.{Align, Paging, Indices}
use helium_os.Vcache.{start_addr}
use helium_os.Tables.Link.{linked_used}
use helium_os.Tables.Insert.Deeper.{DrawsFew, DrawsFew-trans, nothing}
use helium_os.Tables.Insert.Result.{Exhausted, Exhausted-after}
use helium_os.Mapper.{Memory}
use helium_os.Mapper.Setup.{ensure_table, make_tables}
use helium_os.Mapper.Setup.Grown.{Stage, alloc_substruct-Grown}
use helium_os.Mapper.Setup.Filled.{Filled, Beside, make_p1_tables-Filled}

module _ (x : Align) (y : Paging) (z : Indices) where
  open y use {new_entry, is_unused, frame}

  -- Entry `i` of the table in frame `f` leads to the table in frame `c`, an empty one if it is new.
  record Opened (level : ℕ → ℕ) (m : Memory x y z) (f i d c : ℕ) (level' : ℕ → ℕ)
      (m' : Memory x y z) : Type 0 where
    stage : Stage x y z level' m'
    root : m'.root ≡ m.root
    drew : DrawsFew x 1 m.allocator m'.allocator
    linked : frame (m'.tables f i) ≡ some c
    child_level : level' c ≡ suc d
    kept_level : (h : ℕ) → level h ≢ 0 → level' h ≡ level h
    kept : (h k : ℕ) → level h ≢ 0 → (f ≢ h) ⊎ (i ≢ k) → m'.tables h k ≡ m.tables h k
    old_or_new : (m' ≡ m) ⊎ ((j : ℕ) → m'.tables c j ≡ new_entry)

  ensure_table-Opened :
      {level : ℕ → ℕ} {m : Memory x y z} (f i d : ℕ)
      → Stage x y z level m
      → level f ≡ suc (suc d)
      → ((ensure_table x y z f i m ≡ panic) × Exhausted x 1 m.allocator)
        ⊎ ((c : ℕ) × (level' : ℕ → ℕ) × (m' : Memory x y z) × (ensure_table x y z f i m ≡ ok m')
            × Opened level m f i d c level' m')
  unfolding ensure_table
  ensure_table-Opened {level} {m} f i d s l = elim (Bool-cases (is_unused (m.tables f i))) [
    | inr u ↦
        let (c, e) = s.tree.usable f i d l u in
        inr (
          c,
          level,
          m,
          rw u refl,
          record {
            stage = s;
            root = refl;
            drew = (0, omega arith, nothing);
            linked = e;
            child_level = s.tree.child f i c d l e;
            kept_level = λ h ne. refl;
            kept = λ h k ne o. refl;
            old_or_new = inl refl;
          },
        )
    | inl u ↦ elim (alloc_substruct-Grown x y z f i d s l u) [
      | inl (e, out) ↦ inl (rw u e, out)
      | inr (c, level', m', e, g) ↦ inr (
        c,
        level',
        m',
        rw u e,
        record {
          stage = g.stage;
          root = g.root;
          drew = g.drew;
          linked = g.linked;
          child_level = g.new_level;
          kept_level = g.kept_level;
          kept = g.kept;
          old_or_new = inr g.empty;
        },
      )
    ]
  ]

  -- Nothing is mapped where the tables of the cache go: if the table of level 2 is there, its first
  -- four entries are unused.
  abbrev pub IsVacant : Memory x y z → Type 0
  IsVacant m =
      (p3 p2 i : ℕ)
      → frame (m.tables m.root (z.p4_index start_addr)) ≡ some p3
      → frame (m.tables p3 (z.p3_index start_addr)) ≡ some p2
      → i < 4
      → is_unused (m.tables p2 i) ≡ true

  -- The tables of the window: the table of level 2 is in frame `p2`.
  pub record Window (m m' : Memory x y z) (p2 : ℕ) : Type 0 where
    pub level : ℕ → ℕ
    pub filled : Filled x y z level m' p2 4
    pub root : m'.root ≡ m.root
    pub root_level : level m'.root ≡ 4
    pub drew : DrawsFew x 6 m.allocator m'.allocator
    pub p3 : ℕ
    pub link4 : frame (m'.tables m'.root (z.p4_index start_addr)) ≡ some p3
    pub link3 : frame (m'.tables p3 (z.p3_index start_addr)) ≡ some p2

  -- Both tables on the way are there.
  module _ {level level₁ level₂ : ℕ → ℕ} {m m₁ m₂ : Memory x y z} {p3 p2 : ℕ} (l : level m.root ≡ 4)
      (o₁ : Opened level m m.root (z.p4_index start_addr) 2 p3 level₁ m₁)
      (o₂ : Opened level₁ m₁ p3 (z.p3_index start_addr) 1 p2 level₂ m₂) where
    still_vacant : IsVacant m → (k : ℕ) → k < 4 → is_unused (m₂.tables p2 k) ≡ true
    still_vacant vacant k lt = elim o₂.old_or_new [
      | inr new ↦ ap is_unused (new k) ∙ y.is_unused-new_entry
      | inl same ↦
          let linked : frame (m₁.tables p3 (z.p3_index start_addr)) ≡ some p2 =
            ap (λ (n : Memory x y z). frame (n.tables p3 (z.p3_index start_addr))) (sym same)
            ∙ o₂.linked in
          ap (λ (n : Memory x y z). is_unused (n.tables p2 k)) same ∙ elim o₁.old_or_new [
            | inr new ↦ absurd (
                ground (
                  arith,
                  linked_used y _ p2 linked,
                  ap is_unused (new (z.p3_index start_addr)),
                  y.is_unused-new_entry,
                ))
            | inl first ↦
                ap (λ (n : Memory x y z). is_unused (n.tables p2 k)) first
                ∙ vacant p3 p2 k
                    (ap (λ (n : Memory x y z). frame (n.tables m.root (z.p4_index start_addr)))
                        (sym first)
                      ∙ o₁.linked)
                    (ap (λ (n : Memory x y z). frame (n.tables p3 (z.p3_index start_addr)))
                        (sym first)
                      ∙ linked)
                    lt
          ]
    ]

    first_level : level₁ m.root ≡ 4
    first_level = o₁.kept_level m.root (λ e. omega (arith, e, l)) ∙ l

    windowed :
        {level₃ : ℕ → ℕ} {m₃ : Memory x y z}
        → Filled x y z level₃ m₃ p2 4
        → Beside x y z 4 level₂ m₂ p2 level₃ m₃
        → Window m m₃ p2
    windowed {level₃} {m₃} b r =
        let l₂ : level₂ m.root ≡ 4 =
          o₂.kept_level m.root (λ e. omega (arith, e, first_level)) ∙ first_level in
        let r₃ : level₂ p3 ≡ 3 =
          o₂.kept_level p3 (λ e. omega (arith, e, o₁.child_level)) ∙ o₁.child_level in
        let root : m₃.root ≡ m.root = r.root ∙ (o₂.root ∙ o₁.root) in
        record {
          level = level₃;
          filled = b;
          root = root;
          root_level = ap level₃ root ∙ (r.kept_level m.root (λ e. omega (arith, e, l₂)) ∙ l₂);
          drew = DrawsFew-trans o₁.drew (DrawsFew-trans o₂.drew r.drew);
          p3 = p3;
          link4 =
              ap (λ (f : ℕ). frame (m₃.tables f (z.p4_index start_addr))) root
              ∙ (ap frame (
                    r.kept m.root (z.p4_index start_addr) (λ e. omega (arith, e, l₂))
                      (λ e. omega (arith, l₂, o₂.child_level, ap level₂ e)))
                  ∙ (ap frame (
                        o₂.kept m.root (z.p4_index start_addr) (λ e. omega (arith, e, first_level))
                          (inl (λ e. omega (arith, first_level, o₁.child_level, ap level₁ e))))
                      ∙ o₁.linked));
          link3 =
              ap frame (
                r.kept p3 (z.p3_index start_addr) (λ e. omega (arith, e, r₃))
                  (λ e. omega (arith, r₃, o₂.child_level, ap level₂ e)))
              ∙ o₂.linked;
        }

  -- The tables of the window are made, in a memory where nothing is mapped there, or the allocator
  -- refuses one of six frames and the kernel panics.
  pub make_tables-Window :
      {level : ℕ → ℕ} {m : Memory x y z}
      → Stage x y z level m
      → level m.root ≡ 4
      → IsVacant m
      → ((make_tables x y z m ≡ panic) × Exhausted x 6 m.allocator)
        ⊎ ((p2 : ℕ) × (m' : Memory x y z) × (make_tables x y z m ≡ ok (p2, m')) × Window m m' p2)
  unfolding make_tables
  make_tables-Window {level} {m} s l vacant =
      elim (ensure_table-Opened m.root (z.p4_index start_addr) 2 s l) [
        | inl (e, out) ↦
            inl (rw e refl, Exhausted-after {p = 0} (omega arith) (0, omega arith, nothing) out)
        | inr (p3, level₁, m₁, e₁, o₁) ↦
            elim (ensure_table-Opened p3 (z.p3_index start_addr) 1 o₁.stage o₁.child_level) [
              | inl (e, out) ↦
                  inl (rw (e₁, o₁.linked, e) refl, Exhausted-after (omega arith) o₁.drew out)
              | inr (p2, level₂, m₂, e₂, o₂) ↦
                  elim (make_p1_tables-Filled x y z 4 0 (omega arith)
                    (start o₂ (still_vacant l o₁ o₂ vacant))) [
                      | inl (e, out) ↦ inl (
                        rw (e₁, o₁.linked, e₂, o₂.linked, e) refl,
                        Exhausted-after (omega arith) (DrawsFew-trans o₁.drew o₂.drew) out,
                      )
                      | inr (level₃, m₃, e₃, b, r) ↦
                          inr (
                            p2,
                            m₃,
                            rw (e₁, o₁.linked, e₂, o₂.linked, e₃) refl,
                            windowed l o₁ o₂ b r,
                          )
                    ]
            ]
      ]
    where
      start :
          {level level' : ℕ → ℕ} {m m' : Memory x y z} {p3 p2 : ℕ}
          → Opened level m p3 (z.p3_index start_addr) 1 p2 level' m'
          → ((k : ℕ) → k < 4 → is_unused (m'.tables p2 k) ≡ true)
          → Filled x y z level' m' p2 0
      start o free = record {
        stage = o.stage;
        p2_level = o.child_level;
        filled = λ k lt. absurd (omega (arith, lt));
        left = λ k le lt. free k lt;
      }
