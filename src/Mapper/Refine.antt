-- ===== src/Mapper/Refine.antt =====
-- The loop of `map`, kernel/src/mem/virt/mapper.rs, over a range of pages.
use helium_os.Prelude.{
  ℕ, zero, suc, ◌+◌, ◌*◌, ◌%◌, ◌≤◌, ◌<◌, ◌≡◌, ◌≢◌, ◌⊎◌, inl, inr, refl, ap, sym, ◌∙◌, true, ◌&&◌,
  some, arith, ok, panic,
}
use helium_os.Platform.{Align, Paging, Indices, Flags}
use helium_os.Vcache.{page_at}
use helium_os.Tables.Insert.Deeper.{DrawsFew, DrawsFew-trans, nothing}
use helium_os.Tables.Insert.Result.{Exhausted, Exhausted-after}
use helium_os.Mapper.{Memory, page_flags, map_pages}
use helium_os.Mapper.Cache.{Slot, Steady, Steady-refl, Steady-trans, Steady-Slot}
use helium_os.Mapper.Step.{Sound}
use helium_os.Mapper.Page.{path_of, lookup, Mapped, map_page-Mapped}
use helium_os.Mapper.Address.{path_of_later, page_flags_later}

module _ (x : Align) (y : Paging) (z : Indices) where
  -- Memory after `n` pages from `page` on were mapped to the frames from `physframe` on.
  pub record MappedAll (n page physframe : ℕ) (fl : Flags) (level : ℕ → ℕ) (m m' : Memory x y z)
      : Type 0 where
    pub level' : ℕ → ℕ
    pub sound : Sound x y z level' m'
    pub root : m'.root ≡ m.root
    pub root_level : level' m.root ≡ 4
    pub steady : Steady y z m.cache m'.cache
    pub drew : DrawsFew x (4 * n) m.allocator m'.allocator
    pub found :
        (i : ℕ)
        → i < n
        → lookup x y z m' (page + i * 0x1000)
          ≡ some (physframe + i * 0x1000, page_flags (page + i * 0x1000) fl)
    pub others :
        (q : ℕ)
        → ((i : ℕ) → i < n → path_of x y z q ≢ path_of x y z (page + i * 0x1000))
        → lookup x y z m' q ≡ lookup x y z m q

  -- A page, and then the rest of the range.
  more :
      {n page physframe : ℕ} {fl : Flags} {level : ℕ → ℕ} {m m₁ m' : Memory x y z}
      → n < 0x1000000000
      → (d : Mapped x y z page physframe fl level m m₁)
      → MappedAll n (page + 0x1000) (physframe + 0x1000) (page_flags page fl) d.level' m₁ m'
      → MappedAll (suc n) page physframe fl level m m'
  more {n} {page} {physframe} {fl} {level} {m} {m₁} {m'} small d r = record {
    level' = r.level';
    sound = r.sound;
    root = r.root ∙ d.root;
    root_level = ap r.level' (sym d.root) ∙ r.root_level;
    steady = Steady-trans y z d.steady r.steady;
    drew = let (k, le, e) = DrawsFew-trans d.drew r.drew in (k, omega (arith, le), e);
    found = founds;
    others = λ q ne.
        r.others q
          (λ i lt e. ne (suc i) (omega (arith, lt)) (e ∙ ap (path_of x y z) (shift page i)))
        ∙ d.others q (λ e. ne 0 (omega arith) (e ∙ ap (path_of x y z) (first page)));
  }
    where
      shift : (a i : ℕ) → a + 0x1000 + i * 0x1000 ≡ a + suc i * 0x1000
      shift a i = omega arith

      first : (a : ℕ) → a ≡ a + 0 * 0x1000
      first a = omega arith

      ahead : (i : ℕ) → i < n → path_of x y z page ≢ path_of x y z (page + 0x1000 + i * 0x1000)
      ahead i lt e =
          path_of_later x y z page (suc i) (omega arith) (omega (arith, lt, small))
            (sym (e ∙ ap (path_of x y z) (shift page i)))

      founds :
          (i : ℕ)
          → i < suc n
          → lookup x y z m' (page + i * 0x1000)
            ≡ some (physframe + i * 0x1000, page_flags (page + i * 0x1000) fl)
      founds zero lt =
          ap (lookup x y z m') (sym (first page))
          ∙ (r.others page ahead
              ∙ (d.found
                  ∙ ap some (
                      ap (λ a. (a, page_flags page fl)) (first physframe)
                      ∙ ap (λ a. (physframe + 0 * 0x1000, page_flags a fl)) (first page))))
      founds (suc i) lt =
          ap (lookup x y z m') (sym (shift page i))
          ∙ (r.found i (omega (arith, lt))
              ∙ ap some (
                  ap (λ g. (physframe + 0x1000 + i * 0x1000, g))
                    (page_flags_later page (page + 0x1000 + i * 0x1000) fl (omega arith))
                  ∙ (ap (λ a. (a, page_flags (page + 0x1000 + i * 0x1000) fl)) (shift physframe i)
                      ∙ ap (λ a. (physframe + suc i * 0x1000, page_flags a fl)) (shift page i))))

  -- The loop of `map` either panics, because the allocator refuses a frame for a table, or maps
  -- all the pages, in order, and no other.
  pub map_pages-MappedAll :
      (n page physframe : ℕ) (fl : Flags) (t j s k : ℕ) {level : ℕ → ℕ} {m : Memory x y z}
      → n ≤ 0x1000000000
      → ((i : ℕ)
          → i < n
          → (z.is_canonical (page + i * 0x1000) && z.is_physical (physframe + i * 0x1000)) ≡ true)
      → Sound x y z level m
      → level m.root ≡ 4
      → physframe % 0x1000 ≡ 0
      → Slot y z m.cache t j
      → Slot y z m.cache s k
      → ((map_pages x y z n page physframe fl (page_at y t j) (page_at y s k) m ≡ panic)
          × Exhausted x (4 * n) m.allocator)
        ⊎ ((m' : Memory x y z) × (map_pages x y z n page physframe fl
                (page_at y t j)
                (page_at y s k)
                m
              ≡ ok m')
            × MappedAll n page physframe fl level m m')
  unfolding map_pages
  map_pages-MappedAll zero page physframe fl t j s k {level} {m} le admitted sound l whole o₀ o₁ =
      inr (
        m,
        refl,
        record {
          level' = level;
          sound = sound;
          root = refl;
          root_level = l;
          steady = Steady-refl y z m.cache;
          drew = (0, omega arith, nothing);
          found = λ i lt. absurd (omega (arith, lt));
          others = λ q ne. refl;
        },
      )
  map_pages-MappedAll (suc n) page physframe fl t j s k {level} {m} le admitted sound l whole o₀
        o₁ =
      elim (map_page-Mapped x y z page physframe fl t j s k sound l whole o₀ o₁) [
        | inl (e, out) ↦ inl (
          rw (now, e) refl,
          Exhausted-after {p = 0} {n = 4} (omega arith) (0, omega arith, nothing) out,
        )
        | inr (m₁, e, d) ↦
            elim (map_pages-MappedAll n (page + 0x1000) (physframe + 0x1000) (page_flags page fl) t
              j s k (omega (arith, le)) later d.sound (ap d.level' d.root ∙ d.root_level)
              (omega (arith, whole)) (Steady-Slot y z d.steady o₀) (Steady-Slot y z d.steady o₁)) [
                | inl (e', out) ↦ inl (
                  rw (now, e, e') refl,
                  Exhausted-after {p = 4} {n = 4 * n} (omega arith) d.drew out,
                )
                | inr (m', e', r) ↦ inr (m', rw (now, e, e') refl, more (omega (arith, le)) d r)
              ]
      ]
    where
      at :
          (a b i : ℕ)
          → a ≡ page + i * 0x1000
          → b ≡ physframe + i * 0x1000
          → i < suc n
          → (z.is_canonical a && z.is_physical b) ≡ true
      at a b i e e' lt = rw (e, e') (admitted i lt)

      now : (z.is_canonical page && z.is_physical physframe) ≡ true
      now = at page physframe 0 (omega arith) (omega arith) (omega arith)

      later :
          (i : ℕ)
          → i < n
          → (z.is_canonical (page + 0x1000 + i * 0x1000)
              && z.is_physical (physframe + 0x1000 + i * 0x1000))
            ≡ true
      later i lt =
          at (page + 0x1000 + i * 0x1000) (physframe + 0x1000 + i * 0x1000) (suc i) (omega arith)
            (omega arith) (omega (arith, lt))
