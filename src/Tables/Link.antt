-- ===== src/Tables/Link.antt =====
-- Page tables as `map` of kernel/src/mem/virt/mapper.rs keeps them: their shape, and the links
-- between them after a new table.
use native.Mathlib.Decide.{ℕ_discrete}
use helium_os.Prelude.{
  ℕ, suc, ◌%◌, ◌≡◌, ◌≢◌, ◌⊎◌, inl, inr, ap, sym, ◌∙◌, true, false, ◌&&◌, none, some, ◌==◌, arith,
  Bool-cases,
}
use helium_os.Platform.{Paging, Flags}
use helium_os.Phys.{Allocator}
use helium_os.Phys.Valid.{frame_used}
use helium_os.Vcache.Cells.{both_eq}
use helium_os.Tables.{Tables, grow}

module _ (y : Paging) where
  open y use {Entry, new_entry, is_unused, flags, frame, set_frame}

  -- `level` says which frames are tables and of which level: 4 for the root, 1 for the last, 0 for
  -- a frame that is no table. Free frames are no tables; an entry of a table above the last level
  -- is unused or leads to a table of the level below; and a table has one entry that leads to it.
  pub record IsTree (level : ℕ → ℕ) (t : Tables y) (a : Allocator) : Type 0 where
    pub free : (f : ℕ) → f % 0x1000 ≡ 0 → frame_used a.segments f ≡ false → level f ≡ 0
    pub usable :
        (f i d : ℕ)
        → level f ≡ suc (suc d)
        → is_unused (t f i) ≡ false
        → (g : ℕ) × (frame (t f i) ≡ some g)
    pub child : (f i g d : ℕ) → level f ≡ suc (suc d) → frame (t f i) ≡ some g → level g ≡ suc d
    pub alone :
        (f i h k g d e : ℕ)
        → level f ≡ suc (suc d)
        → level h ≡ suc (suc e)
        → frame (t f i) ≡ some g
        → frame (t h k) ≡ some g
        → (f ≡ h) × (i ≡ k)

  frame-new_entry : frame new_entry ≡ none
  frame-new_entry = y.frame-absent new_entry (ap (λ (fl : Flags). fl.present) y.flags-new_entry)

  -- An entry that leads to a frame is in use.
  pub linked_used : (e : Entry) (g : ℕ) → frame e ≡ some g → is_unused e ≡ false
  linked_used e g h = elim (Bool-cases (flags e).present) [
    | inl p ↦ y.is_unused-present e p
    | inr p ↦ absurd (ground (arith, h, y.frame-absent e p))
  ]

  pub unused_frame : (e : Entry) → is_unused e ≡ true → frame e ≡ none
  unused_frame e h = elim (Bool-cases (flags e).present) [
    | inl p ↦ absurd (ground (arith, h, y.is_unused-present e p))
    | inr p ↦ y.frame-absent e p
  ]

  module _ (t : Tables y) (f i c : ℕ) (fl : Flags) where
    pub grow_new : (k : ℕ) → grow y t f i c fl c k ≡ new_entry
    grow_new k = ground arith

    pub grow_made : c ≢ f → grow y t f i c fl f i ≡ set_frame new_entry c fl
    grow_made ne = ground (arith, ne)

    pub grow_other :
        (h k : ℕ) → c ≢ h → ((f == h) && (i == k)) ≡ false → grow y t f i c fl h k ≡ t h k
    grow_other h k ne o = ground (arith, ne, o)

    -- A link after the new table `c` is the one to it, or one that was there before.
    pub grow_links :
        (h k g : ℕ)
        → c % 0x1000 ≡ 0
        → fl.present ≡ true
        → c ≢ f
        → frame (grow y t f i c fl h k) ≡ some g
        → ((h ≡ f) × (k ≡ i) × (g ≡ c)) ⊎ ((c ≢ h) × (frame (t h k) ≡ some g))
    grow_links h k g whole present ne e = elim (ℕ_discrete c h) [
      | yes same ↦ absurd (ground (arith, same, e, ap frame (grow_new k), frame-new_entry))
      | no apart ↦ elim (Bool-cases ((f == h) && (i == k))) [
        | inl hit ↦
            let (sf, si) = both_eq f i h k hit in
            let made : frame (grow y t f i c fl h k) ≡ some c =
              ap frame (
                ap (λ p. grow y t f i c fl p k) (sym sf)
                ∙ (ap (grow y t f i c fl f) (sym si) ∙ grow_made ne))
              ∙ y.frame-set_frame new_entry c fl whole present in
            inl (sym sf, sym si, ground (arith, e, made))
        | inr miss ↦ inr (apart, sym (ap frame (grow_other h k apart miss)) ∙ e)
      ]
    ]
