-- ===== src/Proc/AddressSpace/Active.antt =====
-- Which address space is active on a processor.
use helium_os.Prelude.{
  ℕ, zero, suc, ◌≡◌, refl, ap, ◌∙◌, Option, none, some, List, [], ◌∷◌, ◌==◌, if◌then◌else◌, arith,
  Outcome, ok, ◌>>=◌, ◌>>◌, assert, >>=-eq-ok, ◌+◌, ◌*◌, ◌++◌, Bool-cases, inl, inr, true,
}
use helium_os.Platform.{Align, Indices, Flags}
use helium_os.Phys.{Allocator, page_size, allocate_frame}
use helium_os.Proc.{MemoryMapping, MemoryMap, ProcInfo}
use helium_os.Proc.AddressSpace.{
  new_map, add_raw, pfree_all, allocate_from, allocate, apply_all, apply, Allocation,
  allocated_page, apply_over, activate,
}

-- The maps that the kernel makes: a new one, with any number of allocations.
pub data Made (x : Align) (z : Indices) : MemoryMap → Type 0 where
  fresh : Made x z new_map
  grown :
      {m m' : MemoryMap} {a' : Allocator} {o : Option (List ℕ)} (vadr n : ℕ) (flags : Flags)
      (a : Allocator)
      → allocate x z vadr n flags a m ≡ ok (o, a', m')
      → Made x z m
      → Made x z m'

module _ (x : Align) (z : Indices) where
  -- The step of the loop, once a frame was asked for.
  abbrev after_frame :
      ℕ → Flags → ℕ → ℕ → List ℕ → MemoryMap → Option ℕ → Allocator → Outcome Allocation
  after_frame vadr flags i n frames m result a = elim result [
    | none ↦ pfree_all frames a >>= (λ a''. ok (none, a'', m))
    | some frame ↦
        assert (z.is_canonical (vadr + i * page_size))
        >> allocate_from x z vadr flags (i + 1) n (frames ++ (frame ∷ [])) a
            (add_raw m (allocated_page vadr i flags frame))
  ]

  after_frame-id :
      (vadr : ℕ) (flags : Flags) (i n : ℕ) (frames : List ℕ) (m : MemoryMap) (result : Option ℕ)
      (a : Allocator) {o : Option (List ℕ)} {a' : Allocator} {m' : MemoryMap}
      → ((frames : List ℕ) (b : Allocator) (l : MemoryMap)
          → allocate_from x z vadr flags (i + 1) n frames b l ≡ ok (o, a', m')
          → m'.id ≡ l.id)
      → after_frame vadr flags i n frames m result a ≡ ok (o, a', m')
      → m'.id ≡ m.id
  unfolding add_raw
  after_frame-id vadr flags i n frames m none a ih h =
      let (b, e, g) = >>=-eq-ok (pfree_all frames a) _ h in ground (arith, g)
  after_frame-id vadr flags i n frames m (some frame) a ih h =
      let (u, e, g) = >>=-eq-ok (assert (z.is_canonical (vadr + i * page_size))) _ h in ih _ _ _ g

  allocate_from-id :
      (vadr : ℕ) (flags : Flags) (i n : ℕ) (frames : List ℕ) (a : Allocator) (m : MemoryMap)
      {o : Option (List ℕ)} {a' : Allocator} {m' : MemoryMap}
      → allocate_from x z vadr flags i n frames a m ≡ ok (o, a', m')
      → m'.id ≡ m.id
  unfolding allocate_from add_raw
  allocate_from-id vadr flags i zero frames a m h = ground (arith, h)
  allocate_from-id vadr flags i (suc n) frames a m h =
      let (r, e, g) = >>=-eq-ok (allocate_frame x a) _ h in
      after_frame-id vadr flags i n frames m r.0 r.1
        (λ frames b l g. allocate_from-id vadr flags (i + 1) n frames b l g) g

  Made-id : {m : MemoryMap} → Made x z m → m.id ≡ 0
  unfolding allocate new_map
  Made-id fresh = refl
  Made-id (grown {m = m} vadr n flags a h d) = allocate_from-id vadr flags 0 n [] a m h ∙ Made-id d

  apply_over-active :
      {Tables : Type 0} (vmap : MemoryMapping → Tables → Outcome Tables) (c : Option ℕ)
      (m : MemoryMap) (p : ProcInfo) (t : Tables) {p' : ProcInfo} {t' : Tables}
      → p.active_mapping ≡ c
      → apply_over vmap c m p t ≡ ok (p', t')
      → p'.active_mapping ≡ some m.id
  apply_over-active vmap none m p t e h =
      let (b, f, g) = >>=-eq-ok (apply_all vmap m.mappings t) _ h in ground (arith, g)
  apply_over-active vmap (some active) m p t {p' = p'} {t' = t'} e h =
      elim (Bool-cases (active == m.id)) [
        | inl same ↦ ground (arith, same, h, e)
        | inr other ↦
            let run : activate vmap m p t ≡ ok (p', t') = ground (arith, h, other) in
            let (b, f, g) = >>=-eq-ok (apply_all vmap m.mappings t) _ run in ground (arith, g)
      ]

  -- Once the memory of one task was applied on a processor, applying the memory of any other task
  -- does nothing: the page tables and the processor stay as they are.
  pub apply-second :
      {Tables : Type 0} (vmap : MemoryMapping → Tables → Outcome Tables) {m m' : MemoryMap}
      (p : ProcInfo) (t : Tables) {p' : ProcInfo} {t' : Tables}
      → Made x z m
      → Made x z m'
      → apply vmap m p t ≡ ok (p', t')
      → apply vmap m' p' t' ≡ ok (p', t')
  unfolding apply
  apply-second vmap {m} {m'} p t {p'} {t'} d d' h =
      let active : p'.active_mapping ≡ some 0 =
        apply_over-active vmap p.active_mapping m p t refl h ∙ ap some (Made-id d) in
      let skips : (0 == m'.id) ≡ true = ground (arith, Made-id d') in
      ap (λ c. apply_over vmap c m' p' t') active
      ∙ ap (λ b. if b then ok (p', t') else activate vmap m' p' t') skips
