-- ===== src/Mapper/Setup/Shown.antt =====
-- The second part of `init` of kernel/src/mem/virt/vcache.rs: the cache over its own tables.
use mathlib.Core.Path.{subst}
use native.Mathlib.Decide.{ℕ_discrete}
use helium_os.Prelude.{
  ℕ, ◌+◌, ◌*◌, ◌%◌, ◌^◌, ◌≤◌, ◌<◌, ◌≡◌, ◌≢◌, refl, ap, sym, ◌∙◌, true, false, not, some, ◌==◌, leb,
  if◌then◌else◌, arith, ok, Bool-cases, inl, inr,
}
use helium_os.Platform.{Align, Paging, Indices, Flags}
use helium_os.Phys.{page_size}
use helium_os.Vcache
use helium_os.Vcache.{VCache, p2page_count, is_present, cache_flags}
use helium_os.Vcache.Count.{count, count_same}
use helium_os.Vcache.Cells.{ne_test, if_miss}
use helium_os.Vcache.Valid.{IsValid, is_absent, is_lazy}
use helium_os.Mapper.{Memory}
use helium_os.Mapper.Setup.{make_cache}
use helium_os.Mapper.Setup.Window.{Begun, Begun-new, map_tables-Begun}

-- Four tables one after the other, all of them empty, under the table in frame `p2`.
pub record FourTables (x : Align) (y : Paging) (z : Indices) (p2 p1_frame : ℕ) (m : Memory x y z)
    : Type 0 where
  pub linked : (i : ℕ) → i < 4 → y.frame (m.tables p2 i) ≡ some (p1_frame + i * 0x1000)
  pub empty : (i j : ℕ) → i < 4 → m.tables (p1_frame + i * 0x1000) j ≡ y.new_entry
  pub low : p1_frame + 0x4000 ≤ 2 ^ 52

module _ (x : Align) (y : Paging) (z : Indices) where
  open y use {Entry, new_entry, flags, frame, set_frame}

  -- The entries of the cache that stays.
  abbrev shown : Memory x y z → ℕ → VCache y → ℕ → ℕ → Entry
  shown m p1_frame v i j = if i == 0 then v.p1 0 j else m.tables (p1_frame + i * page_size) j

  module _ {p2 p1_frame : ℕ} {m : Memory x y z} (four : FourTables x y z p2 p1_frame m)
      {v : VCache y} (b : Begun y p1_frame 4 v) where
    abbrev final : VCache y
    final = record v { p1_len = p2page_count; p1 = shown m p1_frame v }

    own_present : (j : ℕ) → j < 4 → is_present y final 0 j ≡ true
    own_present j lt =
        ap (λ (e : Entry). (flags e).present) (b.below j lt)
        ∙ ap (λ (fl : Flags). fl.present) (y.flags-set_frame new_entry _ (cache_flags y))

    unused_absent : (e : Entry) → e ≡ new_entry → not (flags e).present ≡ true
    unused_absent e same =
        ap (λ (p : Entry). not (flags p).present) same
        ∙ ap (λ (fl : Flags). not fl.present) y.flags-new_entry

    absent_first : (j : ℕ) → j < 512 → is_absent y final 0 j ≡ leb 4 j
    absent_first j lt = elim (Bool-cases (leb 4 j)) [
      | inl high ↦ unused_absent (v.p1 0 j) (b.above j (ground (arith, high)) lt) ∙ sym high
      | inr low ↦ ap not (own_present j (ground (arith, low))) ∙ sym low
    ]

    absent_other : (t j : ℕ) → t ≢ 0 → t < 4 → is_absent y final t j ≡ true
    absent_other t j ne lt =
        unused_absent (shown m p1_frame v t j) (if_miss _ _ _ (ne_test t 0 ne) ∙ four.empty t j lt)

    count_absent_first : count (is_absent y final 0) 512 0 ≡ 508
    unfolding count
    count_absent_first =
        count_same (is_absent y final 0) (leb 4) 512 0
          (λ j a lt. absent_first j (omega (arith, lt)))
        ∙ refl

    first_free : v.p2_freecount 0 ≡ 508
    first_free = omega (arith, b.first)

    final-IsValid : IsValid y final
    unfolding count
    final-IsValid = record {
      tables = refl;
      free_count = λ t lt. elim (ℕ_discrete t 0) [
        | yes e ↦
            ap v.p2_freecount e
            ∙ (first_free
                ∙ (sym count_absent_first
                    ∙ ap (λ (s : ℕ). count (is_absent y final s) 512 0) (sym e)))
        | no ne ↦
            b.others t ne
            ∙ sym (
                count_same (is_absent y final t) (λ j. true) 512 0
                  (λ j a c. absent_other t j ne lt))
      ];
      lazy_count = λ t lt.
          b.lazy t
          ∙ sym (
              count_same (is_lazy y final t) (λ j. false) 512 0
                (λ j a c. ap (λ (n : ℕ). not (n == 0)) (b.age t j)));
      lazy_present = λ t j lt lj old. absurd (ground (arith, old, b.age t j));
    }

    own_frame : (i : ℕ) → i < 4 → frame (v.p1 0 i) ≡ some (p1_frame + i * 0x1000)
    own_frame i lt =
        let whole : p1_frame % 0x1000 ≡ 0 =
          y.frame-aligned _ _ (four.linked 0 (omega arith) ∙ ap some (omega arith)) in
        let same : p1_frame + i * 512 * 8 ≡ p1_frame + i * 0x1000 = omega arith in
        ap frame (b.below i lt)
        ∙ (y.frame-set_frame new_entry (p1_frame + i * 512 * 8) (cache_flags y)
              (omega (arith, whole)) refl
            ∙ ap some same)

  -- Over four empty tables that follow one another in memory the cache is well formed, entry `i`
  -- of its first table leads to table `i`, and all other pages are free.
  pub record OverTables (p1_frame : ℕ) (m m' : Memory x y z) : Type 0 where
    pub cache : IsValid y m'.cache
    pub own : (i : ℕ) → i < 4 → frame (m'.cache.p1 0 i) ≡ some (p1_frame + i * 0x1000)
    pub first : m'.cache.p2_freecount 0 ≡ 508
    pub others : (t : ℕ) → t ≢ 0 → m'.cache.p2_freecount t ≡ 512
    pub same : m' ≡ record m { cache = m'.cache }

  pub make_cache-OverTables :
      {p2 p1_frame : ℕ} {m : Memory x y z}
      → FourTables x y z p2 p1_frame m
      → (m' : Memory x y z) × (make_cache x y z p2 m ≡ ok m') × OverTables p1_frame m m'
  unfolding make_cache Vcache.renew
  make_cache-OverTables {p2} {p1_frame} {m} four =
      let linked : frame (m.tables p2 0) ≡ some p1_frame =
        four.linked 0 (omega arith) ∙ ap some (omega arith) in
      let (v, e, b) =
        map_tables-Begun y x z 4 0 p1_frame (Vcache.new y 1 (λ i j. m.tables p1_frame j))
          (omega arith) (y.frame-aligned _ _ linked) four.low
          (Begun-new y p1_frame (λ i j. m.tables p1_frame j) (first_empty four)) in
      let b4 : Begun y p1_frame 4 v = subst (λ i. Begun y p1_frame i v) (omega arith) b in
      (
        record m { cache = final four b4 },
        rw (linked, e) refl,
        record {
          cache = final-IsValid four b4;
          own = own_frame four b4;
          first = first_free four b4;
          others = b4.others;
          same = refl;
        },
      )
    where
      first_empty :
          {p2 p1_frame : ℕ} {m : Memory x y z}
          → FourTables x y z p2 p1_frame m
          → (j : ℕ) → j < 512
          → m.tables p1_frame j ≡ new_entry
      first_empty {p2} {p1_frame} {m} four j lt =
          ap (λ (f : ℕ). m.tables f j) (omega arith) ∙ four.empty 0 j (omega arith)
