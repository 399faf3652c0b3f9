-- ===== src/Mapper/Setup/Filled.antt =====
-- The loop of `init` of kernel/src/mem/virt/vcache.rs that makes the last-level tables.
use native.Mathlib.Decide.{ℕ_discrete}
use helium_os.Prelude.{
  ℕ, zero, suc, ◌+◌, ◌^◌, ◌≤◌, ◌<◌, ◌≡◌, ◌≢◌, ◌⊎◌, inl, inr, refl, ap, sym, ◌∙◌, true, some, arith,
  ok, panic,
}
use helium_os.Platform.{Align, Paging, Indices}
use helium_os.Tables.Insert.Deeper.{DrawsFew, DrawsFew-trans, nothing}
use helium_os.Tables.Insert.Result.{Exhausted, Exhausted-after}
use helium_os.Mapper.{Memory}
use helium_os.Mapper.Setup.{make_p1_tables}
use helium_os.Mapper.Setup.Grown.{Stage, Grown, alloc_substruct-Grown}

module _ (x : Align) (y : Paging) (z : Indices) where
  open y use {new_entry, is_unused, frame}

  -- The first `i` entries of the table in frame `p2` lead to empty tables, and the next ones up to
  -- the fourth are unused.
  pub record Filled (level : ℕ → ℕ) (m : Memory x y z) (p2 i : ℕ) : Type 0 where
    pub stage : Stage x y z level m
    pub p2_level : level p2 ≡ 2
    pub filled :
        (k : ℕ)
        → k < i
        → (g : ℕ) × (frame (m.tables p2 k) ≡ some g)
          × ((j : ℕ) → m.tables g j ≡ new_entry)
          × (g + 0x4000 ≤ 2 ^ 52)
    pub left : (k : ℕ) → i ≤ k → k < 4 → is_unused (m.tables p2 k) ≡ true

  -- What the loop leaves as it was.
  pub record Beside (n : ℕ) (level : ℕ → ℕ) (m : Memory x y z) (p2 : ℕ) (level' : ℕ → ℕ)
      (m' : Memory x y z) : Type 0 where
    pub kept_level : (h : ℕ) → level h ≢ 0 → level' h ≡ level h
    pub root : m'.root ≡ m.root
    pub drew : DrawsFew x n m.allocator m'.allocator
    pub kept : (h k : ℕ) → level h ≢ 0 → h ≢ p2 → m'.tables h k ≡ m.tables h k

  Filled-next :
      {level level' : ℕ → ℕ} {m m' : Memory x y z} {p2 i c : ℕ}
      → i < 4
      → Filled level m p2 i
      → Grown x y z level m p2 i 0 c level' m'
      → Filled level' m' p2 (i + 1)
  Filled-next {level} {level'} {m} {m'} {p2} {i} {c} lt b g = record {
    stage = g.stage;
    p2_level = g.kept_level p2 (λ e. omega (arith, e, b.p2_level)) ∙ b.p2_level;
    filled = λ k lk. elim (ℕ_discrete i k) [
      | yes e ↦ (c, ap (λ (n : ℕ). frame (m'.tables p2 n)) (sym e) ∙ g.linked, g.empty, g.low)
      | no ne ↦
          let (f, linked, empty, low) = b.filled k (omega (arith, lk, ne)) in
          let lf : level f ≡ 1 = b.stage.tree.child p2 k f 0 b.p2_level linked in
          (
            f,
            ap frame (g.kept p2 k (λ e. omega (arith, e, b.p2_level)) (inr ne)) ∙ linked,
            λ j.
                g.kept f j (λ e. omega (arith, e, lf))
                  (inl (λ e. omega (arith, lf, b.p2_level, ap level e)))
                ∙ empty j,
            low,
          )
    ];
    left = λ k le lk.
        ap is_unused
          (g.kept p2 k (λ e. omega (arith, e, b.p2_level)) (inr (λ e. omega (arith, e, le))))
        ∙ b.left k (omega (arith, le)) lk;
  }

  -- The loop does not find an entry in use: it fills the table, or the allocator refuses a frame
  -- and it panics.
  pub make_p1_tables-Filled :
      (n i : ℕ) {level : ℕ → ℕ} {m : Memory x y z} {p2 : ℕ}
      → i + n ≡ 4
      → Filled level m p2 i
      → ((make_p1_tables x y z n i p2 m ≡ panic) × Exhausted x n m.allocator)
        ⊎ ((level' : ℕ → ℕ) × (m' : Memory x y z) × (make_p1_tables x y z n i p2 m ≡ ok m')
            × Filled level' m' p2 4
            × Beside n level m p2 level' m')
  unfolding make_p1_tables
  make_p1_tables-Filled zero i {level} {m} {p2} sum b = inr (
    level,
    m,
    refl,
    record {
      stage = b.stage;
      p2_level = b.p2_level;
      filled = λ k lt. b.filled k (omega (arith, lt, sum));
      left = λ k le lt. absurd (omega (arith, le, lt));
    },
    record {
      kept_level = λ h ne. refl;
      root = refl;
      drew = (0, omega arith, nothing);
      kept = λ h k ne e. refl;
    },
  )
  make_p1_tables-Filled (suc n) i {level} {m} {p2} sum b =
      let free : is_unused (m.tables p2 i) ≡ true = b.left i (omega arith) (omega (arith, sum)) in
      elim (alloc_substruct-Grown x y z p2 i 0 b.stage b.p2_level free) [
        | inl (e, out) ↦
            inl (
              rw (free, e) refl,
              Exhausted-after {p = 0} (omega arith) (0, omega arith, nothing) out,
            )
        | inr (c, level₁, m₁, e, g) ↦
            elim (make_p1_tables-Filled n (i + 1) (omega (arith, sum))
              (Filled-next (omega (arith, sum)) b g)) [
                | inl (e', out) ↦ inl (rw (free, e) e', Exhausted-after (omega arith) g.drew out)
                | inr (level', m', e', b', r) ↦ inr (
                  level',
                  m',
                  rw (free, e) e',
                  b',
                  record {
                    kept_level = λ h ne.
                        r.kept_level h (λ e. ne (sym (g.kept_level h ne) ∙ e)) ∙ g.kept_level h ne;
                    root = r.root ∙ g.root;
                    drew = more (DrawsFew-trans g.drew r.drew);
                    kept = λ h k ne apart.
                        r.kept h k (λ e. ne (sym (g.kept_level h ne) ∙ e)) apart
                        ∙ g.kept h k ne (inl (λ e. apart (sym e)));
                  },
                )
              ]
      ]
    where
      more : {n : ℕ} {a b : _} → DrawsFew x (1 + n) a b → DrawsFew x (suc n) a b
      more (k, le, d) = (k, omega (arith, le), d)
