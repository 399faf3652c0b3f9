-- ===== src/Proc/Ignition/Areas.antt =====
-- The tables of the processors in memory, as `ignite` of kernel/src/proc/mod.rs allocates them.
use native.Mathlib.Nat.{mul-le-mul_left}
use helium_os.Prelude.{
  ℕ, ◌+◌, ◌-◌, ◌*◌, ◌%◌, ◌^◌, ◌≤◌, ◌<◌, ◌≡◌, ◌≢◌, ◌⊎◌, inl, inr, refl, ap, ◌∙◌, true, some, ◌==◌,
  arith, ok, panic,
}
use helium_os.Platform.{Align, Paging, Indices, Flags, no_flags, page_up_bounds, page_down_bounds}
use helium_os.Phys.{page_size}
use helium_os.Phys.Valid.{frame_used}
use helium_os.Vcache.{start_addr, cache_size}
use helium_os.Tables.Insert.Deeper.{DrawsFew, DrawsFew-trans, nothing}
use helium_os.Tables.Insert.Result.{Exhausted, Exhausted-after}
use helium_os.Mapper.{Memory, page_flags, valloc_size, valloc_ktable}
use helium_os.Mapper.Page.{lookup}
use helium_os.Mapper.Address.{page_number}
use helium_os.Mapper.Drawn.{Draws-free, Draws-used}
use helium_os.Mapper.Whole.{IsReady, IsOutside, pages_of}
use helium_os.Mapper.Valloc.{FramesFit, OnNew}
use helium_os.Mapper.Valloc.Range.{valloc-OnNew}
use helium_os.Proc.Ignition.{
  Sizes, slot_size, error_stack_size, stack_table_vptr, gdt_table_ptr, tss_table_ptr,
  nmi_stacks_vptr, df_stacks_vptr, gdt_init, allocate_tables,
}

module _ (x : Align) (y : Paging) (z : Indices) where
  abbrev pub table_flags : Flags
  table_flags = record no_flags { writable = true }

  -- The pages of `n` items of a size.
  abbrev pub pages : ℕ → ℕ → ℕ
  pages item_size n = pages_of x y z (n * item_size)

  -- The pages of the range lead to frames, with the flags of a table.
  abbrev pub Mapped : ℕ → ℕ → Memory x y z → Type 0
  Mapped vadr n m =
      (i : ℕ)
      → i < n
      → (g : ℕ) × (lookup x y z m (vadr + i * 0x1000)
          ≡ some (g, page_flags (vadr + i * 0x1000) table_flags))

  -- What allocating a table comes to.
  pub record Table (n vadr : ℕ) (m m' : Memory x y z) : Type 0 where
    pub ready : IsReady x y z m'
    pub fit : FramesFit x y z m'
    pub drew : DrawsFew x (5 * n) m.allocator m'.allocator
    pub new : OnNew x y z n vadr table_flags m m'
    pub mapped : Mapped vadr n m'

  -- A table of `n` items, at an address from 4T on in the upper half and less than 1T long.
  pub valloc_ktable-Table :
      (item_size vadr n : ℕ) {m : Memory x y z}
      → IsReady x y z m
      → FramesFit x y z m
      → vadr % 0x1000 ≡ 0
      → start_addr + cache_size ≤ vadr
      → vadr + 2 ^ 40 ≤ 2 ^ 64
      → n * item_size ≤ 2 ^ 40
      → ((valloc_ktable x y z item_size vadr n m ≡ panic)
          × Exhausted x (5 * pages item_size n) m.allocator)
        ⊎ ((m' : Memory x y z) × (valloc_ktable x y z item_size vadr n m ≡ ok m')
            × Table (pages item_size n) vadr m m')
  unfolding valloc_ktable valloc_size
  valloc_ktable-Table item_size vadr n {m} r fit aligned above below small =
      let test : (vadr - x.align_down vadr page_size == 0) ≡ true =
        ground (arith, page_down_bounds x vadr, aligned) in
      elim (valloc-OnNew x y z (pages item_size n) vadr table_flags r aligned
        (inr (above, omega (arith, below, small, page_up_bounds x (n * item_size)))) fit) [
          | inl (e, out) ↦ inl (rw (test, e) refl, out)
          | inr (m', e, o) ↦ inr (
            m',
            rw (test, e) refl,
            record {
              ready = o.ready;
              fit = λ f w u. fit f w (Draws-free x o.drew.2 r.sound.valid f w u);
              drew = o.drew;
              new = o;
              mapped = λ i lt. let (g, e, _, _, _) = o.mapped i lt in (g, e);
            },
          )
        ]

  -- A range that is mapped stays so when a table is allocated elsewhere.
  kept :
      (w : ℕ) {k n vadr : ℕ} {m m' : Memory x y z}
      → Table n vadr m m'
      → ((j : ℕ) → j < k → IsOutside (w + j * 0x1000))
      → ((i j : ℕ) → i < n → j < k → page_number (w + j * 0x1000) ≢ page_number (vadr + i * 0x1000))
      → Mapped w k m
      → Mapped w k m'
  kept w t out apart old i lt =
      let (g, e) = old i lt in
      (g, t.new.rest (w + i * 0x1000) (out i lt) (λ j lj. apart j i lj lt) ∙ e)

  -- The page led to a frame that is in use, which it does not lead to any more.
  pub record Replaced (page : ℕ) (m m' : Memory x y z) : Type 0 where
    pub old : ℕ
    pub new : ℕ
    pub led : lookup x y z m page ≡ some (old, page_flags page table_flags)
    pub leads : lookup x y z m' page ≡ some (new, page_flags page table_flags)
    pub differ : old ≢ new
    pub kept_used : frame_used m'.allocator.segments old ≡ true

  -- The pages of a table that is allocated over another one, before a third one elsewhere.
  Table-Replaced :
      (vadr i : ℕ) {k n₁ n₂ u : ℕ} {m m₁ m₂ m₃ : Memory x y z}
      → Table n₁ vadr m m₁
      → Table n₂ vadr m₁ m₂
      → Table k u m₂ m₃
      → i < n₁
      → i < n₂
      → IsOutside (vadr + i * 0x1000)
      → ((j : ℕ) → j < k → page_number (vadr + i * 0x1000) ≢ page_number (u + j * 0x1000))
      → Replaced (vadr + i * 0x1000) m₁ m₃
  Table-Replaced vadr i {m₁ = m₁} a b c lt lt' out apart =
      let (w, led, whole, _, used) = a.new.mapped i lt in
      let (g, leads, _, free, _) = b.new.mapped i lt' in
      record {
        old = w;
        new = g;
        led = led;
        leads = c.new.rest (vadr + i * 0x1000) out apart ∙ leads;
        differ = λ e. ground (arith, used, free, ap (frame_used m₁.allocator.segments) e);
        kept_used =
            Draws-used x c.drew.2 b.ready.sound.valid w whole
              (Draws-used x b.drew.2 a.ready.sound.valid w whole used);
      }

  few_pages : (item_size n : ℕ) → n * item_size ≤ 2 ^ 40 → pages item_size n ≤ 2 ^ 28
  few_pages item_size n small = omega (arith, small, page_up_bounds x (n * item_size))

  module _ (s : Sizes) where
    -- The memory after `ignite` has allocated the tables of `n` processors.
    pub record Ignited (n : ℕ) (m m' : Memory x y z) : Type 0 where
      pub ready : IsReady x y z m'
      pub stack_table : Mapped stack_table_vptr (pages slot_size n) m'
      pub gdt_table : Mapped gdt_table_ptr (pages s.gdt n) m'
      pub nmi_stacks : Mapped nmi_stacks_vptr (pages error_stack_size n) m'
      pub df_stacks : Mapped df_stacks_vptr (pages error_stack_size n) m'
      pub first : Memory x y z
      pub first_made : valloc_ktable x y z slot_size stack_table_vptr n m ≡ ok first
      pub second : Memory x y z
      pub second_made : gdt_init x y z s n first ≡ ok second
      pub tss_table : (i : ℕ) → i < pages s.tss n → Replaced (tss_table_ptr + i * 0x1000) second m'

    abbrev pub all_pages : ℕ → ℕ
    all_pages n =
        pages slot_size n
        + (pages s.gdt n + (pages s.tss n + (pages error_stack_size n + pages error_stack_size n)))

    Table-Ignited :
        {n : ℕ} {m m₁ m₂ m₃ m₄ m₅ : Memory x y z}
        → n ≤ 2 ^ 27
        → n * s.gdt ≤ 2 ^ 40
        → s.tss ≤ error_stack_size
        → Table (pages slot_size n) stack_table_vptr m m₁
        → Table (pages s.gdt n) gdt_table_ptr m₁ m₂
        → Table (pages s.tss n) tss_table_ptr m₂ m₃
        → Table (pages error_stack_size n) nmi_stacks_vptr m₃ m₄
        → Table (pages error_stack_size n) df_stacks_vptr m₄ m₅
        → valloc_ktable x y z slot_size stack_table_vptr n m ≡ ok m₁
        → gdt_init x y z s n m₁ ≡ ok m₃
        → Ignited n m m₅
    Table-Ignited {n = n} {m₁ = m₁} {m₃ = m₃} {m₅ = m₅} few gdts small t₁ t₂ t₃ t₄ t₅ made₁ made₃ =
        let slots : pages slot_size n ≤ 2 ^ 28 = few_pages slot_size n (omega (arith, few)) in
        let entries : pages s.gdt n ≤ 2 ^ 28 = few_pages s.gdt n gdts in
        let stacks : pages error_stack_size n ≤ 2 ^ 28 =
          few_pages error_stack_size n (omega (arith, few)) in
        let less : n * s.tss ≤ n * error_stack_size = mul-le-mul_left n small in
        let segments : pages s.tss n ≤ pages error_stack_size n =
          omega
            (arith, less, page_up_bounds x (n * s.tss), page_up_bounds x (n * error_stack_size)) in
        let nmi : Mapped nmi_stacks_vptr (pages error_stack_size n) m₅ =
          kept nmi_stacks_vptr t₅ (λ j lj. inr (omega (arith, lj, stacks)))
            (λ i j li lj e. omega (arith, e, li, lj, stacks)) t₄.mapped in
        record {
          ready = t₅.ready;
          stack_table =
              kept stack_table_vptr t₅ (λ j lj. inr (omega (arith, lj, slots)))
                (λ i j li lj e. omega (arith, e, li, lj, stacks, slots))
                (kept stack_table_vptr t₄ (λ j lj. inr (omega (arith, lj, slots)))
                  (λ i j li lj e. omega (arith, e, li, lj, stacks, slots))
                  (kept stack_table_vptr t₃ (λ j lj. inr (omega (arith, lj, slots)))
                    (λ i j li lj e. omega (arith, e, li, lj, segments, stacks, slots))
                    (kept stack_table_vptr t₂ (λ j lj. inr (omega (arith, lj, slots)))
                      (λ i j li lj e. omega (arith, e, li, lj, entries, slots)) t₁.mapped)));
          gdt_table =
              kept gdt_table_ptr t₅ (λ j lj. inr (omega (arith, lj, entries)))
                (λ i j li lj e. omega (arith, e, li, lj, stacks, entries))
                (kept gdt_table_ptr t₄ (λ j lj. inr (omega (arith, lj, entries)))
                  (λ i j li lj e. omega (arith, e, li, lj, stacks, entries))
                  (kept gdt_table_ptr t₃ (λ j lj. inr (omega (arith, lj, entries)))
                    (λ i j li lj e. omega (arith, e, li, lj, segments, stacks, entries))
                    t₂.mapped));
          first = m₁;
          first_made = made₁;
          second = m₃;
          second_made = made₃;
          tss_table = λ i lt.
              Table-Replaced tss_table_ptr i t₃ t₄ t₅ lt (omega (arith, lt, segments))
                (inr (omega (arith, lt, segments, stacks)))
                (λ j lj e. omega (arith, e, lt, lj, segments, stacks));
          nmi_stacks = nmi;
          df_stacks = t₅.mapped;
        }

    -- What `ignite` allocates, in a memory that is ready, with all free frames below the largest
    -- physical address, for no more than 2^27 processors, whose descriptor tables take no more than
    -- 2^40 bytes and whose task state segments are no longer than a stack for errors: either the
    -- allocator refuses a frame and the kernel panics, or all pages of the stack table, the
    -- descriptor tables and the stacks for errors are mapped, and memory is ready for further
    -- mappings. But each page of the table of task state segments, which `gdt_init` had mapped to a
    -- frame, leads to another frame now, that of a stack, while the first one stays in use.
    pub allocate_tables-Ignited :
        (n : ℕ) {m : Memory x y z}
        → IsReady x y z m
        → FramesFit x y z m
        → n ≤ 2 ^ 27
        → n * s.gdt ≤ 2 ^ 40
        → s.tss ≤ error_stack_size
        → ((allocate_tables x y z s n m ≡ panic) × Exhausted x (5 * all_pages n) m.allocator)
          ⊎ ((m' : Memory x y z) × (allocate_tables x y z s n m ≡ ok m') × Ignited n m m')
    unfolding allocate_tables gdt_init
    allocate_tables-Ignited n {m} r fit few gdts small =
        elim (valloc_ktable-Table slot_size stack_table_vptr n r fit refl (omega arith)
          (omega arith) (omega (arith, few))) [
            | inl (e, out) ↦
                inl (rw e refl, Exhausted-after {p = 0} (omega arith) (0, omega arith, nothing) out)
            | inr (m₁, e₁, t₁) ↦
                elim (valloc_ktable-Table s.gdt gdt_table_ptr n t₁.ready t₁.fit refl (omega arith)
                  (omega arith) gdts) [
                    | inl (e, out) ↦
                        inl (rw (e₁, e) refl, Exhausted-after (omega arith) t₁.drew out)
                    | inr (m₂, e₂, t₂) ↦
                        elim (valloc_ktable-Table s.tss tss_table_ptr n t₂.ready t₂.fit refl
                          (omega arith) (omega arith) tsss) [
                            | inl (e, out) ↦ inl (
                              rw (e₁, e₂, e) refl,
                              Exhausted-after (omega arith) (DrawsFew-trans t₁.drew t₂.drew) out,
                            )
                            | inr (m₃, e₃, t₃) ↦
                                let d₃ = DrawsFew-trans t₁.drew (DrawsFew-trans t₂.drew t₃.drew) in
                                elim (valloc_ktable-Table error_stack_size nmi_stacks_vptr n
                                  t₃.ready t₃.fit refl (omega arith) (omega arith)
                                  (omega (arith, few))) [
                                    | inl (e, out) ↦ inl (
                                      rw (e₁, e₂, e₃, e) refl,
                                      Exhausted-after (omega arith) d₃ out,
                                    )
                                    | inr (m₄, e₄, t₄) ↦
                                        elim (valloc_ktable-Table error_stack_size df_stacks_vptr n
                                          t₄.ready t₄.fit refl (omega arith) (omega arith)
                                          (omega (arith, few))) [
                                            | inl (e, out) ↦ inl (
                                              rw (e₁, e₂, e₃, e₄, e) refl,
                                              Exhausted-after (omega arith)
                                                  (DrawsFew-trans d₃ t₄.drew) out,
                                            )
                                            | inr (m₅, e₅, t₅) ↦ inr (
                                              m₅,
                                              rw (e₁, e₂, e₃, e₄, e₅) refl,
                                              Table-Ignited few gdts small t₁ t₂ t₃ t₄ t₅ e₁
                                                  (rw (e₂, e₃) refl),
                                            )
                                          ]
                                  ]
                          ]
                  ]
          ]
      where
        tsss : n * s.tss ≤ 2 ^ 40
        tsss = omega (arith, mul-le-mul_left {m = s.tss} {n = error_stack_size} n small, few)
