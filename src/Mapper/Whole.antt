-- ===== src/Mapper/Whole.antt =====
-- `map` of kernel/src/mem/virt/mapper.rs against its specification, in which an address space is a
-- function from addresses to frames with flags.
use helium_os.Prelude.{
  ℕ, ◌+◌, ◌*◌, ◌/◌, ◌%◌, ◌^◌, ◌≤◌, ◌<◌, ◌≡◌, ◌≢◌, ◌⊎◌, inl, inr, refl, ap, ◌∙◌, true, false, ◌&&◌,
  not, Option, none, some, [], ◌∷◌, ltb, leb, ◌==◌, arith, ok, panic,
}
use helium_os.Platform.{Align, Paging, Indices, Flags, page_up_bounds}
use helium_os.Phys.{page_size}
use helium_os.Vcache.{VCache, start_addr, cache_size, page_at}
use helium_os.Vcache.Valid.{IsValid}
use helium_os.Vcache.Spare.{Held, spare, here}
use helium_os.Vcache.Pair.{Two, map_many-Two, unmap_many-Two}
use helium_os.Tables.Insert.Deeper.{DrawsFew}
use helium_os.Tables.Insert.Result.{Exhausted}
use helium_os.Mapper.{Memory, page_flags, map_through, map}
use helium_os.Mapper.Cache.{Slot, Steady, Steady-IsValid}
use helium_os.Mapper.Step.{Sound}
use helium_os.Mapper.Page.{lookup}
use helium_os.Mapper.Address.{page_number, path_of-number}
use helium_os.Mapper.Refine.{MappedAll, map_pages-MappedAll}

-- An address space: the frame and the flags of the page of an address.
abbrev pub Space : Type 0
Space = ℕ → Option (ℕ × Flags)

-- The page of an address is none of the pages of the cache: these the mapper uses itself, and they
-- stay present after it.
abbrev pub IsOutside : ℕ → Type 0
IsOutside q =
    (page_number q < page_number start_addr)
    ⊎ (page_number start_addr + cache_size / 0x1000 ≤ page_number q)

-- `n` pages from `page` on lead to the frames from `physframe` on, and other pages outside the
-- cache where they led.
pub record AddsRange (n page physframe : ℕ) (fl : Flags) (before after : Space) : Type 0 where
  pub range :
      (i : ℕ)
      → i < n
      → after (page + i * 0x1000) ≡ some (physframe + i * 0x1000, page_flags (page + i * 0x1000) fl)
  pub rest :
      (q : ℕ)
      → IsOutside q
      → ((i : ℕ) → i < n → page_number q ≢ page_number (page + i * 0x1000))
      → after q ≡ before q

module _ (x : Align) (y : Paging) (z : Indices) where
  -- Page tables, allocator and cache are well formed, the root table is of level 4, and two pages of
  -- the first table of the cache are not in use.
  pub record IsReady (m : Memory x y z) : Type 0 where
    pub level : ℕ → ℕ
    pub sound : Sound x y z level m
    pub root_level : level m.root ≡ 4
    pub cache : IsValid y m.cache
    pub spare : 2 ≤ spare y m.cache

  abbrev pub pages_of : ℕ → ℕ
  pages_of size = x.align_up size page_size / page_size

  -- Memory after `map` has done its work.
  pub record Maps (n page physframe : ℕ) (fl : Flags) (m m' : Memory x y z) : Type 0 where
    pub level : ℕ → ℕ
    pub sound : Sound x y z level m'
    pub root : m'.root ≡ m.root
    pub root_level : level m'.root ≡ 4
    pub cache : IsValid y m'.cache
    pub spare : spare y m'.cache ≡ spare y m.cache
    pub drew : DrawsFew x (4 * n) m.allocator m'.allocator
    pub space : AddsRange n page physframe fl (lookup x y z m) (lookup x y z m')

  Held-Slot : {v : VCache y} {t j : ℕ} → Held y v t j → Slot y z v t j
  Held-Slot h = record { table = h.table; page = h.page; present = h.present }

  Steady-Held : {v v' : VCache y} {t j : ℕ} → Steady y z v v' → Held y v t j → Held y v' t j
  Steady-Held {t = t} {j = j} s h = record {
    table = h.table;
    page = h.page;
    present = s.present t j ∙ h.present;
    young = ap (λ (age : ℕ → ℕ → ℕ). not (age t j == 0)) s.age ∙ h.young;
  }

  Steady-spare : {v v' : VCache y} → Steady y z v v' → spare y v' ≡ spare y v
  Steady-spare s = omega (arith, ap (λ (f : ℕ → ℕ). f 0) s.free, ap (λ (f : ℕ → ℕ). f 0) s.lazy)

  -- `map` leaves memory ready for the next call.
  pub Maps-IsReady :
      {n page physframe : ℕ} {fl : Flags} {m m' : Memory x y z}
      → IsReady m
      → Maps n page physframe fl m m'
      → IsReady m'
  Maps-IsReady r d = record {
    level = d.level;
    sound = d.sound;
    root_level = d.root_level;
    cache = d.cache;
    spare = omega (arith, r.spare, d.spare);
  }

  MappedAll-Maps :
      {n page physframe : ℕ} {fl : Flags} {level : ℕ → ℕ} {m m' : Memory x y z} {cache v : VCache y}
      → IsValid y v
      → spare y v ≡ spare y m.cache
      → MappedAll x y z n page physframe fl level (record m { cache = cache }) m'
      → Maps n page physframe fl m (record m' { cache = v })
  MappedAll-Maps {page = page} valid left d = record {
    level = d.level';
    sound = record { tree = d.sound.tree; valid = d.sound.valid; len = valid.tables };
    root = d.root;
    root_level = ap d.level' d.root ∙ d.root_level;
    cache = valid;
    spare = left;
    drew = d.drew;
    space = record {
      range = d.found;
      rest =
          λ q out ne. d.others q (λ i lt e. ne i lt (path_of-number x y z q (page + i * 0x1000) e));
    };
  }

  -- The two pages of the cache are taken, used and given back.
  through :
      (n page physframe : ℕ) (fl : Flags) {m : Memory x y z}
      → (r : IsReady m) → n ≤ 0x1000000000
      → ((i : ℕ)
          → i < n
          → (z.is_canonical (page + i * 0x1000) && z.is_physical (physframe + i * 0x1000)) ≡ true)
      → physframe % 0x1000 ≡ 0
      → (t j s k : ℕ) (v : VCache y) → Two y z m.cache t j s k v
      → ((map_through x y z page physframe n fl
              (record m { cache = v })
              (some (page_at y t j ∷ page_at y s k ∷ []))
            ≡ panic)
          × Exhausted x (4 * n) m.allocator)
        ⊎ ((m' : Memory x y z) × (map_through x y z page physframe n fl
                (record m { cache = v })
                (some (page_at y t j ∷ page_at y s k ∷ []))
              ≡ ok (none, m'))
            × Maps n page physframe fl m m')
  unfolding map_through
  through n page physframe fl {m} r small admitted whole t j s k v two =
      elim (map_pages-MappedAll x y z n page physframe fl t j s k small admitted
        (record { tree = r.sound.tree; valid = r.sound.valid; len = two.valid.tables }) r.root_level
        whole (Held-Slot two.first) (Held-Slot two.second)) [
          | inl (e, out) ↦ inl (rw e refl, out)
          | inr (m', e, d) ↦
              let steady : Steady y z v m'.cache = d.steady in
              let (v', run, valid', more) =
                unmap_many-Two y z (Steady-IsValid y z steady two.valid)
                  (Steady-Held steady two.first) (Steady-Held steady two.second) two.apart in
              let left : spare y v' ≡ spare y m.cache =
                more ∙ (ap (λ n. n + here y t + here y s) (Steady-spare steady) ∙ two.left) in
              inr (
                record m' { cache = v' },
                rw (e, run) refl,
                MappedAll-Maps {cache = v} valid' left d,
              )
        ]

  -- `map`, for a size that is not zero and no more than the address space, a page outside the
  -- cache and a frame, in a memory that is ready: either the kernel panics, because the allocator
  -- refuses one of the frames that four for each page are enough for, or there is no error, the
  -- pages of the range lead to the frames with the flags, every other page outside the cache leads
  -- where it led, no more than four frames for each page were taken, and tables, allocator and
  -- cache stay well formed.
  pub map-Maps :
      (page physframe size : ℕ) (fl : Flags) {m : Memory x y z}
      → IsReady m
      → size ≢ 0
      → page % 0x1000 ≡ 0
      → (page + size ≤ 2 ^ 47) ⊎ ((start_addr + cache_size ≤ page) × (page + size ≤ 2 ^ 64))
      → physframe + size ≤ 2 ^ 52
      → physframe % 0x1000 ≡ 0
      → ((map x y z page physframe size fl m ≡ panic) × Exhausted x (4 * pages_of size) m.allocator)
        ⊎ ((m' : Memory x y z) × (map x y z page physframe size fl m ≡ ok (none, m'))
            × Maps (pages_of size) page physframe fl m m')
  unfolding map
  map-Maps page physframe size fl {m} r positive aligned inside small whole =
      let (t, j, s, k, v, run, two) = map_many-Two y z r.cache 0 r.spare in
      let zero_test : (size == 0) ≡ false = ground (arith, positive) in
      let few : pages_of size ≤ 0x1000000000 = few_pages inside in
      let same : map x y z page physframe size fl m
          ≡ map_through x y z page physframe (pages_of size) fl (record m { cache = v })
              (some (page_at y t j ∷ page_at y s k ∷ [])) =
        rw (zero_test, window inside, run) refl in
      elim (through (pages_of size) page physframe fl r few admitted whole t j s k v two) [
        | inl (e, out) ↦ inl (same ∙ e, out)
        | inr (m', e, d) ↦ inr (m', same ∙ e, d)
      ]
    where
      window :
          (page + size ≤ 2 ^ 47) ⊎ ((start_addr + cache_size ≤ page) × (page + size ≤ 2 ^ 64))
          → (leb start_addr page && ltb page (start_addr + cache_size)) ≡ false
      window (inl le) = ground (arith, le, positive)
      window (inr (le, le')) = ground (arith, le)

      few_pages :
          (page + size ≤ 2 ^ 47) ⊎ ((start_addr + cache_size ≤ page) × (page + size ≤ 2 ^ 64))
          → pages_of size ≤ 0x1000000000
      few_pages (inl le) = omega (arith, page_up_bounds x size, le)
      few_pages (inr (le, le')) = omega (arith, page_up_bounds x size, le, le')

      canonical :
          (page + size ≤ 2 ^ 47) ⊎ ((start_addr + cache_size ≤ page) × (page + size ≤ 2 ^ 64))
          → (i : ℕ) → i < pages_of size
          → z.is_canonical (page + i * 0x1000) ≡ true
      canonical (inl le) i lt =
          z.is_canonical-low (page + i * 0x1000) (omega (arith, page_up_bounds x size, le, lt))
      canonical (inr (le, le')) i lt =
          z.is_canonical-high (page + i * 0x1000) (omega (arith, le))
            (omega (arith, page_up_bounds x size, le', lt))

      physical : (i : ℕ) → i < pages_of size → z.is_physical (physframe + i * 0x1000) ≡ true
      physical i lt =
          z.is_physical-low (physframe + i * 0x1000)
            (omega (arith, page_up_bounds x size, small, lt))

      admitted :
          (i : ℕ)
          → i < pages_of size
          → (z.is_canonical (page + i * 0x1000) && z.is_physical (physframe + i * 0x1000)) ≡ true
      admitted i lt = rw (canonical inside i lt, physical i lt) refl
