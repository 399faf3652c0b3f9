-- ===== src/Mapper/Identity.antt =====
-- `remove_identity` of kernel/src/mem/virt/mapper.rs, which takes the lower half of the address space away.
use helium_os.Prelude.{
  ℕ, ◌%◌, ◌≤◌, ◌<◌, ◌≡◌, ◌^◌, ◌≢◌, ◌⊎◌, inl, inr, ap, sym, ◌∙◌, none, some, List, [], ◌∷◌, ltb,
  arith, Option-cases, Bool-cases, ltb→lt,
}
use helium_os.Platform.{Align, Paging, Indices}
use helium_os.Tables.Link.{IsTree, unused_frame}
use helium_os.Tables.Insert.Deeper.{descend, walk-descend, walk-agree}
use helium_os.Mapper.{Memory, remove_identity}
use helium_os.Mapper.Page.{lookup}

module _ (x : Align) (y : Paging) (z : Indices) where
  open y use {Entry, new_entry, frame}

  path_below : ℕ → List ℕ
  path_below q = z.p2_index q ∷ z.p1_index q ∷ []

  lookup_first :
      (m : Memory x y z) (q : ℕ)
      → lookup x y z m q
        ≡ descend y (z.p3_index q ∷ path_below q) m.tables (frame (m.tables m.root (z.p4_index q)))
  unfolding path_below
  lookup_first m q =
      walk-descend y (z.p4_index q) (z.p3_index q) (z.p2_index q ∷ z.p1_index q ∷ []) m.root
        m.tables

  -- In well formed tables, after `remove_identity` no page of the lower half of the address space
  -- is mapped, and every page of the upper half is mapped as it was.
  pub remove_identity-lookup :
      {level : ℕ → ℕ} (m : Memory x y z)
      → IsTree y level m.tables m.allocator
      → level m.root ≡ 4
      → (q : ℕ)
      → ((q % 2 ^ 48 < 2 ^ 47) × (lookup x y z (remove_identity x y z m) q ≡ none))
        ⊎ ((2 ^ 47 ≤ q % 2 ^ 48) × (lookup x y z (remove_identity x y z m) q ≡ lookup x y z m q))
  unfolding remove_identity path_below
  remove_identity-lookup {level} m tree l q = elim (Bool-cases (ltb i 256)) [
    | inl low ↦
        let gone : frame (m'.tables m.root i) ≡ none =
          ap frame (ground (arith, low)) ∙ unused_frame y new_entry y.is_unused-new_entry in
        inl (
          omega (arith, z.p4_index_lem q, ltb→lt i 256 low),
          lookup_first m' q ∙ ap (descend y path m'.tables) gone,
        )
    | inr high ↦
        let kept : m'.tables m.root i ≡ m.tables m.root i = ground (arith, high) in
        inr (
          ground (arith, z.p4_index_lem q, high),
          lookup_first m' q
              ∙ (ap (descend y path m'.tables) (ap frame kept)
                  ∙ (below (Option-cases (frame (m.tables m.root i))) ∙ sym (lookup_first m q))),
        )
  ]
    where
      i : ℕ
      i = z.p4_index q

      path : List ℕ
      path = z.p3_index q ∷ path_below q

      m' : Memory x y z
      m' = remove_identity x y z m

      same : (h k : ℕ) → level h ≢ 0 → level h ≤ 3 → m'.tables h k ≡ m.tables h k
      same h k nz le =
          let other : h ≢ m.root = λ e. omega (arith, le, l, ap level e) in ground (arith, other)

      below :
          (frame (m.tables m.root i) ≡ none) ⊎ ((g : ℕ) × (frame (m.tables m.root i) ≡ some g))
          → descend y path m'.tables (frame (m.tables m.root i))
            ≡ descend y path m.tables (frame (m.tables m.root i))
      below (inl e) = ap (descend y path m'.tables) e ∙ sym (ap (descend y path m.tables) e)
      below (inr (g, e)) =
          ap (descend y path m'.tables) e
          ∙ (walk-agree y 3 tree same path g (tree.child m.root i g 2 l e) (omega arith)
              ∙ sym (ap (descend y path m.tables) e))
