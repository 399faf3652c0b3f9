-- ===== src/Mem/Whole.antt =====
-- The start of memory management as a whole, kernel/src/mem/mod.rs: what is mapped after it.
use helium_os.Prelude.{
  ℕ, ◌+◌, ◌*◌, ◌%◌, ◌^◌, ◌≤◌, ◌<◌, ◌≡◌, ◌≢◌, ◌⊎◌, inl, inr, refl, ap, sym, ◌∙◌, false, none, some,
  All, arith, ok, panic,
}
use helium_os.Platform.{Align, Paging, Indices, page_up_bounds}
use helium_os.Phys.Valid.{frame_used}
use helium_os.Vcache.{VCache}
use helium_os.Tables.Insert.Deeper.{nothing}
use helium_os.Tables.Insert.Result.{Exhausted, Exhausted-after}
use helium_os.Mapper.{Memory, page_flags, remove_identity}
use helium_os.Mapper.Page.{lookup}
use helium_os.Mapper.Whole.{IsReady, pages_of}
use helium_os.Mapper.Below.{Draws-Below}
use helium_os.Mapper.Drawn.{Draws-free}
use helium_os.Mapper.Header.{physheader_start, header_flags, HeaderMapped, map_header-HeaderMapped}
use helium_os.Mapper.Identity.{remove_identity-lookup}
use helium_os.Mapper.Setup.{make_tables}
use helium_os.Mapper.Setup.Grown.{Stage}
use helium_os.Mapper.Setup.Ready.{IsVacant}
use helium_os.Mapper.Setup.Boot.{IsScattered, SetUp, init-SetUp}
use helium_os.Heap
use helium_os.Heap.{Heap}
use helium_os.Mem.{virt_init}
use helium_os.Mem.Kept.{Draws-SameHeaders, init-IsReady, remove_identity-IsReady}

module _ (x : Align) (y : Paging) (z : Indices) where
  -- The memory that the kernel starts with: page tables and allocator are well formed, nothing is
  -- mapped where the cache goes, and the headers of the allocator lie low, in whole pages.
  pub record IsBooted (level : ℕ → ℕ) (m : Memory x y z) : Type 0 where
    pub stage : Stage x y z level m
    pub root_level : level m.root ≡ 4
    pub vacant : IsVacant x y z m
    pub positive : m.allocator.size ≢ 0
    pub room : physheader_start + m.allocator.size ≤ Heap.start
    pub small : m.allocator.phyframe + m.allocator.size ≤ 2 ^ 52
    pub whole : m.allocator.phyframe % 0x1000 ≡ 0
    pub low : All (λ s. s.ptr < 2 ^ 46) m.allocator.segments

  abbrev pub header_pages : Memory x y z → ℕ
  header_pages m = pages_of x y z m.allocator.size

  -- The lower half of the address space is empty, the headers of the allocator are mapped, and
  -- memory is ready.
  pub record VirtReady (m m' : Memory x y z) : Type 0 where
    pub ready : IsReady x y z m'
    pub low : (q : ℕ) → q % 2 ^ 48 < 2 ^ 47 → lookup x y z m' q ≡ none
    pub headers :
        (i : ℕ)
        → i < header_pages m
        → lookup x y z m' (physheader_start + i * 0x1000)
          ≡ some (
            m.allocator.phyframe + i * 0x1000,
            page_flags (physheader_start + i * 0x1000) (header_flags x y z),
          )
    pub free :
        (f : ℕ)
        → f % 0x1000 ≡ 0
        → frame_used m'.allocator.segments f ≡ false
        → frame_used m.allocator.segments f ≡ false

  HeaderMapped-VirtReady :
      {level : ℕ → ℕ} {m m₁ m₃ : Memory x y z} {v : VCache y}
      → IsBooted level m
      → SetUp x y z m m₁
      → HeaderMapped x y z (record m₁ { cache = v }) m₃
      → VirtReady m (remove_identity x y z m₃)
  unfolding remove_identity
  HeaderMapped-VirtReady {m = m} {m₁ = m₁} {m₃ = m₃} b s h =
      let same = Draws-SameHeaders x s.drew.2 in
      record {
        ready = remove_identity-IsReady x y z h.ready;
        low =
            λ q lt. elim (gone q) [ inl (_, e) ↦ e | inr (le, _) ↦ absurd (omega (arith, lt, le)) ];
        headers = λ i lt. elim (gone (physheader_start + i * 0x1000)) [
          | inl (below, _) ↦
              absurd (omega (arith, below, lt, b.room, page_up_bounds x m.allocator.size))
          | inr (_, e) ↦
              e
              ∙ (h.space.range i (omega (arith, lt, ap (λ n. pages_of x y z n) same.size))
                  ∙ ap
                      (λ f. some (
                        f + i * 0x1000,
                        page_flags (physheader_start + i * 0x1000) (header_flags x y z),
                      ))
                      same.phyframe)
        ];
        free = λ f w u. Draws-free x s.drew.2 b.stage.valid f w (h.free f w u);
      }
    where
      gone :
          (q : ℕ)
          → ((q % 2 ^ 48 < 2 ^ 47) × (lookup x y z (remove_identity x y z m₃) q ≡ none))
            ⊎ ((2 ^ 47 ≤ q % 2 ^ 48)
                × (lookup x y z (remove_identity x y z m₃) q ≡ lookup x y z m₃ q))
      gone = remove_identity-lookup x y z m₃ h.ready.sound.tree h.ready.root_level

  -- `virt::init`, in the memory that the kernel starts with, comes to one of three ends: the
  -- allocator refuses a frame and the kernel panics; or the last-level tables of the cache do not
  -- follow one another in memory; or the lower half of the address space is empty, the headers of
  -- the allocator are mapped to where they lie, and memory is ready for the mapper.
  pub virt_init-VirtReady :
      {level : ℕ → ℕ} {m : Memory x y z}
      → IsBooted level m
      → ((virt_init x y z m ≡ panic) × Exhausted x (6 + 4 * header_pages m) m.allocator)
        ⊎ (((p2 : ℕ) × (m₁ : Memory x y z) × (make_tables x y z m ≡ ok (p2, m₁))
              × IsScattered x y z m₁ p2)
            ⊎ ((m' : Memory x y z) × (virt_init x y z m ≡ ok m') × VirtReady m m'))
  unfolding virt_init
  virt_init-VirtReady {level} {m} b = elim (init-SetUp x y z b.stage b.root_level b.vacant) [
    | inl (e, out) ↦
        inl (rw e refl, Exhausted-after {p = 0} (omega arith) (0, omega arith, nothing) out)
    | inr (inl scattered) ↦ inr (inl scattered)
    | inr (inr (m₁, e₁, s)) ↦
        let (v, e₂, r₂) = init-IsReady x y z s.ready (omega (arith, s.first)) in
        let same = Draws-SameHeaders x s.drew.2 in
        let pages : header_pages m₁ ≡ header_pages m = ap (λ n. pages_of x y z n) same.size in
        elim (map_header-HeaderMapped x y z r₂ (λ e. b.positive (sym same.size ∙ e))
          (omega (arith, same.size, b.room)) (omega (arith, same.size, same.phyframe, b.small))
          (ap (λ n. n % 0x1000) same.phyframe ∙ b.whole) (Draws-Below x (2 ^ 46) s.drew.2 b.low)) [
            | inl (e₃, out) ↦
                inl (rw (e₁, e₂, e₃) refl, Exhausted-after (omega (arith, pages)) s.drew out)
            | inr (m₃, e₃, h) ↦
                inr (
                  inr
                    (remove_identity x y z m₃, rw (e₁, e₂, e₃) refl, HeaderMapped-VirtReady b s h))
          ]
  ]
