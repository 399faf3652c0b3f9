-- ===== src/Mapper/Setup/Boot.antt =====
-- `init` of kernel/src/mem/virt/vcache.rs as a whole: the tables of the window and the cache over
-- them, as `map` of kernel/src/mem/virt/mapper.rs takes them over.
use mathlib.Core.Path.{subst}
use native.Mathlib.Decide.{ℕ_discrete}
use helium_os.Prelude.{
  ℕ, zero, suc, ◌+◌, ◌*◌, ◌<◌, ◌≡◌, ◌≢◌, ◌⊎◌, inl, inr, refl, ap, sym, ◌∙◌, some, arith, ok, panic,
}
use helium_os.Platform.{Align, Paging, Indices}
use helium_os.Vcache.{start_addr}
use helium_os.Tables.Insert.Deeper.{DrawsFew}
use helium_os.Tables.Insert.Result.{Exhausted}
use helium_os.Mapper.{Memory}
use helium_os.Mapper.Whole.{IsReady}
use helium_os.Mapper.Setup.{make_tables, init}
use helium_os.Mapper.Setup.Grown.{Stage}
use helium_os.Mapper.Setup.Filled.{Filled}
use helium_os.Mapper.Setup.Ready.{IsVacant, Window, make_tables-Window}
use helium_os.Mapper.Setup.Shown.{FourTables, OverTables, make_cache-OverTables}

-- All indices are of one kind, or there is one of the other kind.
all_or_one {ℓ κ} :
    {P : ℕ → Type ℓ} {Q : ℕ → Type κ} (n : ℕ)
    → ((i : ℕ) → i < n → P i ⊎ Q i)
    → ((i : ℕ) → i < n → P i) ⊎ ((i : ℕ) × (i < n) × Q i)
all_or_one zero h = inl (λ i lt. absurd (omega (arith, lt)))
all_or_one {P = P} (suc n) h = elim (h n (omega arith)) [
  | inr q ↦ inr (n, omega arith, q)
  | inl p ↦ elim (all_or_one n (λ i lt. h i (omega (arith, lt)))) [
    | inr (i, lt, q) ↦ inr (i, omega (arith, lt), q)
    | inl all ↦ inl (λ i lt. elim (ℕ_discrete n i) [
      | yes e ↦ subst P e p
      | no ne ↦ all i (omega (arith, lt, ne))
    ])
  ]
]

module _ (x : Align) (y : Paging) (z : Indices) where
  open y use {new_entry, frame}

  -- The four last-level tables do not follow one another in memory.
  abbrev pub IsScattered : Memory x y z → ℕ → Type 0
  IsScattered m p2 =
      (f g i : ℕ) × (i < 4)
      × (frame (m.tables p2 0) ≡ some f)
      × (frame (m.tables p2 i) ≡ some g)
      × (g ≢ f + i * 0x1000)

  -- Memory after `init`: the page tables lead to the four tables of the cache, the cache shows the
  -- same tables in its first four pages, and all its other pages are free.
  pub record SetUp (m m' : Memory x y z) : Type 0 where
    pub ready : IsReady x y z m'
    pub root : m'.root ≡ m.root
    pub drew : DrawsFew x 6 m.allocator m'.allocator
    pub p3 : ℕ
    pub p2 : ℕ
    pub p1_frame : ℕ
    pub link4 : frame (m'.tables m'.root (z.p4_index start_addr)) ≡ some p3
    pub link3 : frame (m'.tables p3 (z.p3_index start_addr)) ≡ some p2
    pub link2 : (i : ℕ) → i < 4 → frame (m'.tables p2 i) ≡ some (p1_frame + i * 0x1000)
    pub own : (i : ℕ) → i < 4 → frame (m'.cache.p1 0 i) ≡ some (p1_frame + i * 0x1000)
    pub first : m'.cache.p2_freecount 0 ≡ 508
    pub others : (t : ℕ) → t ≢ 0 → m'.cache.p2_freecount t ≡ 512

  in_order :
      {level : ℕ → ℕ} {m : Memory x y z} {p2 : ℕ}
      → Filled x y z level m p2 4
      → IsScattered m p2 ⊎ ((p1_frame : ℕ) × FourTables x y z p2 p1_frame m)
  in_order {level} {m} {p2} b =
      let (f, linked, empty, low) = b.filled 0 (omega arith) in
      elim (all_or_one 4 (each f)) [
        | inr (i, lt, (g, linked', apart)) ↦ inl (f, g, i, lt, linked, linked', apart)
        | inl all ↦ inr (
          f,
          record { linked = λ i lt. (all i lt).0; empty = λ i j lt. (all i lt).1 j; low = low },
        )
      ]
    where
      each :
          (f i : ℕ)
          → i < 4
          → ((frame (m.tables p2 i) ≡ some (f + i * 0x1000))
              × ((j : ℕ) → m.tables (f + i * 0x1000) j ≡ new_entry))
            ⊎ ((g : ℕ) × (frame (m.tables p2 i) ≡ some g) × (g ≢ f + i * 0x1000))
      each f i lt =
          let (g, linked, empty, _) = b.filled i lt in
          elim (ℕ_discrete g (f + i * 0x1000)) [
            | no ne ↦ inr (g, linked, ne)
            | yes e ↦ inl (linked ∙ ap some e, λ j. ap (λ h. m.tables h j) (sym e) ∙ empty j)
          ]

  Window-SetUp :
      {m m₁ m' : Memory x y z} {p2 p1_frame : ℕ}
      → Window x y z m m₁ p2
      → FourTables x y z p2 p1_frame m₁
      → OverTables x y z p1_frame m₁ m'
      → SetUp m m'
  Window-SetUp {m} {m₁} {m'} {p2} {p1_frame} w four o = subst (SetUp m) (sym o.same) (record {
    ready = record {
      level = w.level;
      sound = record {
        tree = w.filled.stage.tree;
        valid = w.filled.stage.valid;
        len = o.cache.tables;
      };
      root_level = w.root_level;
      cache = o.cache;
      spare = omega (arith, o.first);
    };
    root = w.root;
    drew = w.drew;
    p3 = w.p3;
    p2 = p2;
    p1_frame = p1_frame;
    link4 = w.link4;
    link3 = w.link3;
    link2 = four.linked;
    own = o.own;
    first = o.first;
    others = o.others;
  })

  -- `init`, with well-formed page tables and allocator, free frames below the largest physical
  -- address and nothing mapped where the tables of the cache go, comes to one of three ends. The
  -- allocator refuses one of six frames, and the kernel panics; or the four last-level tables that
  -- it made do not follow one another in memory; or no more than six frames were taken, memory is
  -- ready for the mapper, the page tables lead to the four tables of the cache, its first four
  -- pages show these same tables, and its other 2044 pages are free.
  pub init-SetUp :
      {level : ℕ → ℕ} {m : Memory x y z}
      → Stage x y z level m
      → level m.root ≡ 4
      → IsVacant x y z m
      → ((init x y z m ≡ panic) × Exhausted x 6 m.allocator)
        ⊎ (((p2 : ℕ) × (m₁ : Memory x y z) × (make_tables x y z m ≡ ok (p2, m₁))
              × IsScattered m₁ p2)
            ⊎ ((m' : Memory x y z) × (init x y z m ≡ ok m') × SetUp m m'))
  unfolding init
  init-SetUp {level} {m} s l vacant = elim (make_tables-Window x y z s l vacant) [
    | inl (e, out) ↦ inl (rw e refl, out)
    | inr (p2, m₁, e, w) ↦ elim (in_order w.filled) [
      | inl scattered ↦ inr (inl (p2, m₁, e, scattered))
      | inr (f, four) ↦
          let (m', e', o) = make_cache-OverTables x y z four in
          inr (inr (m', rw e e', Window-SetUp w four o))
    ]
  ]
