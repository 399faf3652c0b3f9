-- ===== src/Initrd/Mapping.antt =====
-- `init` of kernel/src/fs/initrd.rs: the archive is mapped into memory, and scanned there.
use helium_os.Prelude.{
  ℕ, ◌+◌, ◌%◌, ◌^◌, ◌≤◌, ◌≡◌, ◌≢◌, ◌⊎◌, inl, inr, refl, Bool, none, some, List, ◌==◌, arith,
  Outcome, ok, panic, ◌>>=◌, ◌>>◌, assert, ◌*◌, true,
}
use helium_os.Platform.{Align, Paging, Indices, no_flags}
use helium_os.Tables.Insert.Result.{Exhausted}
use helium_os.Tar.{TarHeader}
use helium_os.Initrd.{initrd_start, Entries, init_map}
use helium_os.Mapper.{Memory, map}
use helium_os.Mapper.Whole.{IsReady, Maps, map-Maps, Maps-IsReady, pages_of}

module _ (x : Align) (y : Paging) (z : Indices) where
  -- The first part of `init`.
  unfoldable pub map_archive : ℕ → ℕ → Memory x y z → Outcome (Memory x y z)
  unfolding map
  map_archive initrd_ptr initrd_size m =
      assert (z.is_physical initrd_ptr)
      >> assert (initrd_ptr % 0x1000 == 0)
      >> map x y z initrd_start initrd_ptr initrd_size no_flags m
      >>= (λ (result, m'). elim result [ none ↦ ok m' | some e ↦ panic ])

  -- `init`, with the headers that are read in the mapped archive.
  unfoldable pub init :
      (List ℕ → Bool)
      → (ℕ → TarHeader)
      → ℕ
      → ℕ
      → Memory x y z
      → Outcome ((Entries × Bool) × Memory x y z)
  unfolding map_archive init_map
  init is_utf8 header_at initrd_ptr initrd_size m = do
    m' ← map_archive initrd_ptr initrd_size m
    entries ← init_map x is_utf8 header_at initrd_size
    ok (entries, m')

  -- An archive in whole pages below the largest physical address is mapped at `INITRD_START` and
  -- nothing else is changed, or the allocator refuses a frame and the kernel panics; memory is ready
  -- for further mappings.
  map_archive-Maps :
      (initrd_ptr initrd_size : ℕ) {m : Memory x y z}
      → IsReady x y z m
      → initrd_size ≢ 0
      → initrd_start + initrd_size ≤ 2 ^ 64
      → initrd_ptr + initrd_size ≤ 2 ^ 52
      → initrd_ptr % 0x1000 ≡ 0
      → ((map_archive initrd_ptr initrd_size m ≡ panic)
          × Exhausted x (4 * pages_of x y z initrd_size) m.allocator)
        ⊎ ((m' : Memory x y z) × (map_archive initrd_ptr initrd_size m ≡ ok m')
            × Maps x y z (pages_of x y z initrd_size) initrd_start initrd_ptr no_flags m m'
            × IsReady x y z m')
  unfolding map_archive
  map_archive-Maps initrd_ptr initrd_size {m} r positive room small whole =
      let physical : z.is_physical initrd_ptr ≡ true =
        z.is_physical-low initrd_ptr (omega (arith, small, positive)) in
      let aligned : (initrd_ptr % 0x1000 == 0) ≡ true = ground (arith, whole) in
      elim (map-Maps x y z initrd_start initrd_ptr initrd_size no_flags r positive (omega arith)
        (inr (omega arith, room)) small whole) [
          | inl (e, out) ↦ inl (rw (physical, aligned, e) refl, out)
          | inr (m', e, d) ↦ inr (m', rw (physical, aligned, e) refl, d, Maps-IsReady x y z r d)
        ]
