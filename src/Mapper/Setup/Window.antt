-- ===== src/Mapper/Setup/Window.antt =====
-- The second loop of `init` of kernel/src/mem/virt/vcache.rs: the pages that the new cache gives.
use mathlib.Core.Path.{subst}
use native.Mathlib.Decide.{ℕ_discrete}
use helium_os.Prelude.{
  ℕ, zero, suc, ◌+◌, ◌-◌, ◌*◌, ◌%◌, ◌^◌, ◌≤◌, ◌<◌, ◌≡◌, ◌≢◌, refl, ap, sym, ◌∙◌, true, false, none,
  some, ◌==◌, ltb, arith, ok, checked_sub,
}
use helium_os.Platform.{Align, Paging, Indices, Flags}
use helium_os.Phys.{page_size}
use helium_os.Vcache
use helium_os.Vcache.{
  VCache, start_addr, p2page_count, is_present, find_absent, scan, fill, page_at, install, update,
  update₂, cache_flags,
}
use helium_os.Vcache.Cells.{
  update_miss, update₂_hit, update₂_miss, if_hit, if_miss, second_test, ne_test,
}
use helium_os.Vcache.Map.{placed, map-scan}
use helium_os.Mapper.Setup.{map_tables}

module _ (y : Paging) where
  open y use {Entry, new_entry, flags, frame, set_frame}

  -- The entries that lead to the tables of the cache.
  abbrev pub own_entry : ℕ → ℕ → Entry
  own_entry p1_frame i = set_frame new_entry (p1_frame + i * 512 * 8) (cache_flags y)

  -- A new cache over one table, after the first `i` tables were mapped.
  pub record Begun (p1_frame i : ℕ) (v : VCache y) : Type 0 where
    pub len : v.p1_len ≡ 1
    pub first : v.p2_freecount 0 + i ≡ 512
    pub others : (t : ℕ) → t ≢ 0 → v.p2_freecount t ≡ 512
    pub lazy : (t : ℕ) → v.p2_lazycount t ≡ 0
    pub age : (t j : ℕ) → v.p1_age t j ≡ 0
    pub below : (j : ℕ) → j < i → v.p1 0 j ≡ own_entry p1_frame j
    pub above : (j : ℕ) → i ≤ j → j < 512 → v.p1 0 j ≡ new_entry

  pub Begun-new :
      (p1_frame : ℕ) (p1 : ℕ → ℕ → Entry)
      → ((j : ℕ) → j < 512 → p1 0 j ≡ new_entry)
      → Begun p1_frame 0 (Vcache.new y 1 p1)
  unfolding Vcache.new
  Begun-new p1_frame p1 empty = record {
    len = refl;
    first = refl;
    others = λ t ne. refl;
    lazy = λ t. refl;
    age = λ t j. refl;
    below = λ j lt. absurd (omega (arith, lt));
    above = λ j le lt. empty j lt;
  }

  new_absent : (flags new_entry).present ≡ false
  new_absent = ap (λ (fl : Flags). fl.present) y.flags-new_entry

  -- The first entry that is not present, in a table whose entries up to it are present.
  find_absent_first :
      (v : VCache y) (t n i k : ℕ)
      → i ≤ k
      → k < i + n
      → ((j : ℕ) → i ≤ j → j < k → is_present y v t j ≡ true)
      → is_present y v t k ≡ false
      → find_absent y v t n i ≡ some k
  unfolding find_absent
  find_absent_first v t zero i k le lt taken free = absurd (omega (arith, le, lt))
  find_absent_first v t (suc n) i k le lt taken free = elim (ℕ_discrete i k) [
    | yes e ↦ if_miss _ _ _ (ap (is_present y v t) e ∙ free) ∙ ap some e
    | no ne ↦
        if_hit _ _ _ (taken i (omega arith) (omega (arith, le, ne)))
        ∙ find_absent_first v t n (i + 1) k (omega (arith, le, ne)) (omega (arith, lt))
            (λ j a b. taken j (omega (arith, a)) b) free
  ]

  module _ {p1_frame i : ℕ} {v : VCache y} (b : Begun p1_frame i v) (small : i < 512) where
    abbrev after_one : VCache y
    after_one = placed y v 0 i (v.p2_freecount 0 - 1) (p1_frame + i * 512 * 8)

    Begun-next : Begun p1_frame (i + 1) after_one
    Begun-next = record {
      len = b.len;
      first = omega (arith, b.first, small);
      others = λ t ne. update_miss v.p2_freecount 0 _ t (λ e. ne (sym e)) ∙ b.others t ne;
      lazy = b.lazy;
      age = λ t j. ground (arith, b.age t j);
      below = λ j lt. elim (ℕ_discrete i j) [
        | yes e ↦
            update₂_hit v.p1 0 i (own_entry p1_frame i) 0 j (ground (arith, e))
            ∙ ap (own_entry p1_frame) e
        | no ne ↦
            update₂_miss v.p1 0 i _ 0 j (second_test 0 (λ e. ne (sym e)))
            ∙ b.below j (omega (arith, lt, ne))
      ];
      above = λ j le lt.
          update₂_miss v.p1 0 i _ 0 j (second_test 0 (λ e. omega (arith, le, e)))
          ∙ b.above j (omega (arith, le)) lt;
    }

    fill_one :
        fill y v (some 0) none (p1_frame + i * 512 * 8) ≡ ok (some (page_at y 0 i), after_one)
    unfolding fill
    fill_one =
        let sub : checked_sub (v.p2_freecount 0) 1 ≡ ok (v.p2_freecount 0 - 1) =
          ground (arith, b.first, small) in
        let len : ltb 0 v.p1_len ≡ true = ground (arith, b.len) in
        let found : find_absent y
              (record v { p2_freecount = update v.p2_freecount 0 (v.p2_freecount 0 - 1) }) 0 512 0
            ≡ some i =
          find_absent_first _ 0 512 0 i (omega arith) (omega (arith, small))
            (λ j le lt.
              ap (λ (e : Entry). (flags e).present) (b.below j lt)
              ∙ ap (λ (fl : Flags). fl.present) (y.flags-set_frame new_entry _ (cache_flags y)))
            (ap (λ (e : Entry). (flags e).present) (b.above i (omega arith) small) ∙ new_absent) in
        rw (sub, len, found) refl

    map_one : Vcache.map y v (p1_frame + i * 512 * 8) ≡ ok (some (page_at y 0 i), after_one)
    unfolding scan
    map_one =
        let start : scan y v p2page_count 0 none ≡ (some (v.p2_lazycount 0), some 0) =
          if_miss _ _ _ (ne_test (v.p2_freecount 0) 0 (λ e. omega (arith, b.first, small, e))) in
        map-scan y v (p1_frame + i * 512 * 8) start ∙ fill_one

  module _ (x : Align) (z : Indices) where
    -- The loop gives the pages of the window in their order.
    pub map_tables-Begun :
        (n i p1_frame : ℕ) (v : VCache y)
        → i + n ≤ 4
        → p1_frame % 0x1000 ≡ 0
        → p1_frame + 0x4000 ≤ 2 ^ 52
        → Begun p1_frame i v
        → (v' : VCache y) × (map_tables x y z n i p1_frame v ≡ ok v') × Begun p1_frame (i + n) v'
    unfolding map_tables
    map_tables-Begun zero i p1_frame v le whole low b =
        (v, refl, subst (λ k. Begun p1_frame k v) (omega arith) b)
    map_tables-Begun (suc n) i p1_frame v le whole low b =
        let (v', e, b') =
          map_tables-Begun n (i + 1) p1_frame (after_one b (omega (arith, le))) (omega (arith, le))
            whole low (Begun-next b (omega (arith, le))) in
        let physical : z.is_physical (p1_frame + i * 512 * 8) ≡ true =
          z.is_physical-low _ (omega (arith, le, low)) in
        let aligned : ((p1_frame + i * 512 * 8) % page_size == 0) ≡ true = ground (arith, whole) in
        let page : (page_at y 0 i == start_addr + page_size * i) ≡ true = ground arith in
        (
          v',
          rw (physical, aligned, map_one b (omega (arith, le)), page) e,
          subst (λ k. Begun p1_frame k v') (omega arith) b',
        )
