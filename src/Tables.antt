-- ===== src/Tables.antt =====
-- Page tables as the processor reads them, and what it takes to map one page, apart from how the
-- kernel reaches a table: the specification of the mapper of kernel/src/mem/virt/mapper.rs.
-- A table is the frame that it lies in; a path is the list of the indices, the highest level first.
pub mod Link
pub mod Fresh
pub mod Insert
use helium_os.Prelude.{
  ℕ, zero, suc, ◌≡◌, Option, none, some, List, [], ◌∷◌, ◌==◌, if◌then◌else◌, Outcome, ok, panic,
  ◌>>=◌, unwrap,
}
use helium_os.Platform.{Align, Paging, Flags}
use helium_os.Phys.{Allocator, allocate_frame}
use helium_os.Vcache.{update₂}

module _ (y : Paging) where
  open y use {Entry, new_entry, is_unused, flags, frame, set_frame}

  abbrev pub Tables : Type 0
  Tables = ℕ → ℕ → Entry

  -- What the processor finds for a path in the tables below `f`.
  unfoldable pub walk : List ℕ → ℕ → Tables → Option (ℕ × Flags)
  walk [] f t = none
  walk (i ∷ []) f t = elim (frame (t f i)) [ none ↦ none | some g ↦ some (g, flags (t f i)) ]
  walk (i ∷ j ∷ is) f t = elim (frame (t f i)) [ none ↦ none | some g ↦ walk (j ∷ is) g t ]

  -- The frame `g` filled with zeros.
  abbrev pub clear : Tables → ℕ → Tables
  clear t g h k = if g == h then new_entry else t h k

  -- The tables with a new table `g` under entry `i` of `f`.
  abbrev pub grow : Tables → ℕ → ℕ → ℕ → Flags → Tables
  grow t f i g fl = clear (update₂ t f i (set_frame new_entry g fl)) g

  module _ (x : Align) (fl : Flags) (leaf : Entry → Entry) where
    -- One page is mapped below `f`: the tables that the path lacks are made, with flags `fl`, and
    -- the last entry is changed by `leaf`.
    unfoldable pub insert : List ℕ → ℕ → Tables → Allocator → Outcome (Tables × Allocator)
    insert [] f t a = ok (t, a)
    insert (i ∷ []) f t a = ok (update₂ t f i (leaf (t f i)), a)
    insert (i ∷ j ∷ is) f t a =
        if is_unused (t f i)
        then (allocate_frame x a
            >>= (λ r. elim r.0 [ none ↦ panic | some g ↦ insert (j ∷ is) g (grow t f i g fl) r.1 ]))
        else (unwrap (frame (t f i)) >>= (λ g. insert (j ∷ is) g t a))
