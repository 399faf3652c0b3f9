-- ===== src/Mapper/Refuse.antt =====
-- What `map` of kernel/src/mem/virt/mapper.rs does when it returns an error.
use helium_os.Prelude.{
  ℕ, ◌+◌, ◌/◌, ◌≤◌, ◌<◌, ◌≡◌, ◌⊎◌, inl, inr, refl, ap, sym, ◌∙◌, true, false, ◌&&◌, Option, none,
  some, List, [], ◌∷◌, ltb, leb, ◌==◌, arith, Outcome, ok, panic, ◌>>=◌, >>=-eq-ok, Bool-cases,
}
use helium_os.Platform.{Align, Paging, Indices, Flags}
use helium_os.Phys.{page_size}
use helium_os.Vcache.{VCache, start_addr, cache_size, map_many, unmap_many}
use helium_os.Mapper.{
  Memory, Result, KernelMapError, null_size, managed, no_vcache_space, map_pages, map_through, map,
}

module _ (x : Align) (y : Paging) (z : Indices) where
  through_refused :
      (page physframe n : ℕ) (fl : Flags) (m : Memory x y z) (o : Option (List ℕ))
      {e : KernelMapError} {m' : Memory x y z}
      → map_through x y z page physframe n fl m o ≡ ok (some e, m')
      → (m' ≡ m) × (e ≡ no_vcache_space) × (o ≡ none)
  unfolding map_through
  through_refused page physframe n fl m none h = ground (arith, h)
  through_refused page physframe n fl m (some []) h = absurd (ground (arith, h))
  through_refused page physframe n fl m (some (a ∷ [])) h = absurd (ground (arith, h))
  through_refused page physframe n fl m (some (a ∷ b ∷ rest)) h =
      let rest_of = λ (m' : Memory x y z).
        unmap_many y z m'.cache (a ∷ b ∷ rest) >>= (λ c. succeeds (record m' { cache = c })) in
      let (m₁, e₁, h₁) = >>=-eq-ok (map_pages x y z n page physframe fl a b m) rest_of h in
      let (c, e₂, h₂) =
        >>=-eq-ok (unmap_many y z m₁.cache (a ∷ b ∷ rest)) (λ c. succeeds (record m₁ { cache = c }))
          h₁ in
      absurd (ground (arith, h₂))
    where
      succeeds : Memory x y z → Outcome (Result × Memory x y z)
      succeeds m' = ok (none, m')

  -- The parts of memory that no error changes.
  abbrev pub Untouched : Memory x y z → Memory x y z → Type 0
  Untouched m m' = (m'.tables ≡ m.tables) × (m'.allocator ≡ m.allocator) × (m'.root ≡ m.root)

  Untouched-cache :
      (m m' : Memory x y z) (c : VCache y) → m' ≡ record m { cache = c } → Untouched m m'
  Untouched-cache m m' c e = (
    ap (λ (w : Memory x y z). w.tables) e,
    ap (λ (w : Memory x y z). w.allocator) e,
    ap (λ (w : Memory x y z). w.root) e,
  )

  returns : Result → Memory x y z → Outcome (Result × Memory x y z)
  returns r m = ok (r, m)

  same_result :
      {r r' : Result} {m m' : Memory x y z} → returns r m ≡ returns r' m' → (r' ≡ r) × (m' ≡ m)
  unfolding returns
  same_result {r} {m = m} e = (
    sym (ap (λ (o : Outcome (Result × Memory x y z)). elim o [ panic ↦ r | ok q ↦ q.0 ]) e),
    sym (ap (λ (o : Outcome (Result × Memory x y z)). elim o [ panic ↦ m | ok q ↦ q.1 ]) e),
  )

  -- An error of `map` leaves the allocator, the root and the page tables as they were. It is
  -- `NullSize` for the size zero, else `Managed` for a page in the window of the cache, and else
  -- `NoVCacheSpace`, when the cache did not give two pages. Only in this last case can the cache
  -- have changed.
  pub map-refused :
      (page physframe size : ℕ) (fl : Flags) (m : Memory x y z) {e : KernelMapError}
      {m' : Memory x y z}
      → map x y z page physframe size fl m ≡ ok (some e, m')
      → Untouched m m'
        × (((e ≡ null_size) × (size ≡ 0) × (m'.cache ≡ m.cache))
            ⊎ (((e ≡ managed)
                  × (start_addr ≤ page)
                  × (page < start_addr + cache_size)
                  × (m'.cache ≡ m.cache))
                ⊎ ((e ≡ no_vcache_space)
                    × (map_many y z m.cache (0 ∷ 0 ∷ []) ≡ ok (none, m'.cache)))))
  unfolding map returns
  map-refused page physframe size fl m {e} {m'} h = elim (Bool-cases (size == 0)) [
    | inl empty ↦
        let (e₁, same) = same_result {r = some null_size} {m = m} (at_zero empty) in
        (
          Untouched-cache m m' m.cache same,
          inl (ap error e₁, ground (arith, empty), ap (λ (w : Memory x y z). w.cache) same),
        )
    | inr n ↦ elim (Bool-cases (leb start_addr page && ltb page (start_addr + cache_size))) [
      | inl inside ↦
          let (e₁, same) = same_result {r = some managed} {m = m} (at_window n inside) in
          (
            Untouched-cache m m' m.cache same,
            inr (
                inl (
                  ap error e₁,
                  ground (arith, inside),
                  ground (arith, inside),
                  ap (λ (w : Memory x y z). w.cache) same,
                )),
          )
      | inr outside ↦
          let ((o, v), run, h') =
            >>=-eq-ok (map_many y z m.cache (0 ∷ 0 ∷ [])) rest_of
              (sym (rw (n, outside) refl) ∙ h) in
          let (same, e₁, none_given) =
            through_refused page physframe (x.align_up size page_size / page_size) fl
              (record m { cache = v }) o h' in
          (
            Untouched-cache m m' v same,
            inr (
                inr (
                  e₁,
                  run
                      ∙ (ap (λ o. ok (o, v)) none_given
                          ∙ ap (λ (w : Memory x y z). ok (none, w.cache)) (sym same)),
                )),
          )
    ]
  ]
    where
      error : Result → KernelMapError
      error none = null_size
      error (some e) = e

      rest_of : Option (List ℕ) × VCache y → Outcome (Result × Memory x y z)
      rest_of (pages, v) =
          map_through x y z page physframe (x.align_up size page_size / page_size) fl
            (record m { cache = v }) pages

      at_zero : (size == 0) ≡ true → returns (some null_size) m ≡ returns (some e) m'
      at_zero empty = sym (rw empty refl) ∙ h

      at_window :
          (size == 0) ≡ false
          → (leb start_addr page && ltb page (start_addr + cache_size)) ≡ true
          → returns (some managed) m ≡ returns (some e) m'
      at_window n inside = sym (rw (n, inside) refl) ∙ h
