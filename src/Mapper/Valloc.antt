-- ===== src/Mapper/Valloc.antt =====
-- `valloc` of kernel/src/mem/mod.rs: pages on new frames.
pub mod Range
use mathlib.Core.Path.{subst}
use native.Mathlib.Decide.{ℕ_discrete}
use helium_os.Prelude.{
  ℕ, zero, suc, ◌+◌, ◌*◌, ◌/◌, ◌%◌, ◌^◌, ◌≤◌, ◌<◌, ◌≡◌, ◌≢◌, ◌⊎◌, inl, inr, refl, ap, sym, ◌∙◌,
  true, false, ◌||◌, ◌==◌, none, some, arith, ok, panic,
}
use helium_os.Platform.{Align, Paging, Indices, Flags, page_up_bounds}
use helium_os.Phys.{Allocator, page_size, allocate_frame}
use helium_os.Phys.Valid.{frame_used}
use helium_os.Phys.Free.{allocate_frame_correct}
use helium_os.Phys.Unique.{allocate_frame-aligned}
use helium_os.Vcache.{start_addr, cache_size}
use helium_os.Tables.Insert.Deeper.{DrawsFew, DrawsFew-trans, draw, nothing}
use helium_os.Tables.Insert.Result.{Exhausted, Exhausted-after}
use helium_os.Mapper.{Memory, page_flags, map, valloc}
use helium_os.Mapper.Page.{lookup}
use helium_os.Mapper.Address.{page_number}
use helium_os.Mapper.Drawn.{Took, allocate_frame-Took, Draws-used, Draws-free, Draws-valid}
use helium_os.Mapper.Whole.{IsReady, Maps, map-Maps, Maps-IsReady, pages_of, AddsRange, IsOutside}

-- The range of `n` pages from `page` on lies outside the cache, in one half of the address space.
abbrev pub Inside : ℕ → ℕ → Type 0
Inside page n =
    (page + n * 0x1000 ≤ 2 ^ 47) ⊎ ((start_addr + cache_size ≤ page) × (page + n * 0x1000 ≤ 2 ^ 64))

module _ (x : Align) (y : Paging) (z : Indices) where
  -- The free frames lie below the largest physical address.
  abbrev pub FramesFit : Memory x y z → Type 0
  FramesFit m =
      (f : ℕ) → f % 0x1000 ≡ 0 → frame_used m.allocator.segments f ≡ false → f + 0x1000 ≤ 2 ^ 52

  -- Memory after `n` pages from `page` on were mapped to frames that were free.
  pub record OnNew (n page : ℕ) (fl : Flags) (m m' : Memory x y z) : Type 0 where
    pub ready : IsReady x y z m'
    pub drew : DrawsFew x (5 * n) m.allocator m'.allocator
    pub root : m'.root ≡ m.root
    pub mapped :
        (i : ℕ)
        → i < n
        → (g : ℕ) × (lookup x y z m' (page + i * 0x1000)
            ≡ some (g, page_flags (page + i * 0x1000) fl))
          × (g % 0x1000 ≡ 0)
          × (frame_used m.allocator.segments g ≡ false)
          × (frame_used m'.allocator.segments g ≡ true)
    pub distinct :
        (i j g : ℕ) (a b : Flags)
        → i < n
        → j < n
        → lookup x y z m' (page + i * 0x1000) ≡ some (g, a)
        → lookup x y z m' (page + j * 0x1000) ≡ some (g, b)
        → i ≡ j
    pub rest :
        (q : ℕ)
        → IsOutside q
        → ((i : ℕ) → i < n → page_number q ≢ page_number (page + i * 0x1000))
        → lookup x y z m' q ≡ lookup x y z m q

  -- A memory that is ready stays so when a frame is taken from it.
  pub Took-IsReady :
      {m : Memory x y z} {c : ℕ} {a : Allocator}
      → IsReady x y z m
      → Took x m.allocator c a
      → IsReady x y z (record m { allocator = a })
  Took-IsReady r t = record {
    level = r.level;
    sound = record {
      tree = record {
        free = λ f w u. r.sound.tree.free f w (ground (arith, u, t.used f w));
        usable = r.sound.tree.usable;
        child = r.sound.tree.child;
        alone = r.sound.tree.alone;
      };
      valid = t.valid;
      len = r.sound.len;
    };
    root_level = r.root_level;
    cache = r.cache;
    spare = r.spare;
  }

  pub one_page : pages_of x y z page_size ≡ 1
  one_page = omega (arith, page_up_bounds x page_size)

  -- One page.
  pub record OnOne (page g : ℕ) (fl : Flags) (m m' : Memory x y z) : Type 0 where
    pub ready : IsReady x y z m'
    pub root : m'.root ≡ m.root
    pub drew : DrawsFew x 5 m.allocator m'.allocator
    pub found : lookup x y z m' page ≡ some (g, page_flags page fl)
    pub whole : g % 0x1000 ≡ 0
    pub free : frame_used m.allocator.segments g ≡ false
    pub used : frame_used m'.allocator.segments g ≡ true
    pub rest :
        (q : ℕ)
        → IsOutside q
        → page_number q ≢ page_number page
        → lookup x y z m' q ≡ lookup x y z m q

  pub Maps-OnOne :
      {page g : ℕ} {fl : Flags} {m m' : Memory x y z} {a : Allocator}
      → IsReady x y z m
      → allocate_frame x m.allocator ≡ ok (some g, a)
      → Maps x y z (pages_of x y z page_size) page g fl (record m { allocator = a }) m'
      → OnOne page g fl m m'
  Maps-OnOne {page} {g} {fl} {m} {m'} {a} r e d =
      let t = allocate_frame-Took x m.allocator r.sound.valid e in
      let whole : g % 0x1000 ≡ 0 = allocate_frame-aligned x m.allocator r.sound.valid e in
      let (k, few, draws) = d.drew in
      let same : page + 0 * 0x1000 ≡ page = omega arith in
      record {
        ready = Maps-IsReady x y z (Took-IsReady r t) d;
        root = d.root;
        drew = (suc k, omega (arith, few, one_page), draw e draws);
        found =
            subst (λ p. lookup x y z m' p ≡ some (g, page_flags p fl)) same
              (d.space.range 0 (omega (arith, one_page))
                ∙ ap (λ h. some (h, page_flags (page + 0 * 0x1000) fl)) (omega arith));
        whole = whole;
        free = t.free;
        used = Draws-used x draws t.valid g whole (ground (arith, t.used g whole));
        rest = λ q out ne.
            d.space.rest q out (λ i lt e. ne (e ∙ ap page_number (omega (arith, lt, one_page))));
      }
