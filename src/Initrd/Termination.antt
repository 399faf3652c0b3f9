-- ===== src/Initrd/Termination.antt =====
-- The scan of the archive comes to its end.
use helium_os.Prelude.{
  ℕ, zero, suc, ◌+◌, ◌*◌, ◌/◌, ◌<◌, ◌≡◌, ◌⊎◌, inl, inr, refl, Bool, true, false, ◌||◌, not, List,
  [], ltb, arith, Outcome, ok, panic, ◌>>=◌, Bool-cases, Outcome-cases,
}
use helium_os.Platform.{Align}
use helium_os.Tar.{TarHeader, header_size, check, size}
use helium_os.Initrd.{Entries, initrd_start, record_entry, scan_from, init_map}

module _ (x : Align) (is_utf8 : List ℕ → Bool) (header_at : ℕ → TarHeader) where
  -- A run that panics or comes to its end.
  abbrev pub Ends : Outcome (Entries × Bool) → Type 0
  Ends o = (o ≡ panic) ⊎ ((es : Entries) × (o ≡ ok (es, true)))

  -- The rounds after one that has read the size of its entry.
  rounds-Ends :
      (end_adr n adr entry_size : ℕ) (o : Outcome Entries)
      → ((adr : ℕ) (es : Entries)
          → 0 < n
          → end_adr < adr + n * 512
          → Ends (scan_from x is_utf8 header_at end_adr n adr es))
      → end_adr < adr + suc n * 512
      → ltb end_adr (adr + header_size) ≡ false
      → Ends (
          o >>= (λ es'.
            scan_from x is_utf8 header_at end_adr n
              (adr + header_size + x.align_up entry_size 512)
              es'))
  rounds-Ends end_adr n adr entry_size panic later h g = inl refl
  rounds-Ends end_adr n adr entry_size (ok es) later h g =
      later (adr + header_size + x.align_up entry_size 512) es (ground (arith, h, g))
        (omega (arith, h))

  -- One round, given that the later ones end.
  round-Ends :
      (end_adr n adr : ℕ) (es : Entries)
      → ((adr : ℕ) (es : Entries)
          → 0 < n
          → end_adr < adr + n * 512
          → Ends (scan_from x is_utf8 header_at end_adr n adr es))
      → end_adr < adr + suc n * 512
      → Ends (scan_from x is_utf8 header_at end_adr (suc n) adr es)
  unfolding scan_from
  round-Ends end_adr n adr es later h =
      elim (Bool-cases (ltb end_adr (adr + header_size) || not (check (header_at adr)))) [
        | inl over ↦ inr (es, rw over refl)
        | inr more ↦
            let inside : ltb end_adr (adr + header_size) ≡ false = ground (arith, more) in
            elim (Outcome-cases (size (header_at adr))) [
              | inl e ↦ inl (rw more (rw e refl))
              | inr (entry_size, e) ↦ rw more (
                  rw e (
                    rounds-Ends end_adr n adr entry_size
                      (record_entry x is_utf8 header_at end_adr adr entry_size es) later h inside))
            ]
      ]

  -- Every round moves on by a header at least.
  scan_from-Ends :
      (end_adr n adr : ℕ) (es : Entries)
      → 0 < n
      → end_adr < adr + n * 512
      → Ends (scan_from x is_utf8 header_at end_adr n adr es)
  scan_from-Ends end_adr zero adr es p h = absurd (omega (arith, p))
  scan_from-Ends end_adr (suc n) adr es p h =
      round-Ends end_adr n adr es (scan_from-Ends end_adr n) h

  -- `init_map` terminates: whatever the archive holds, it panics, on a header that it cannot read,
  -- or comes to the end of its loop in the rounds that the archive has room for.
  pub init_map-Ends : (initrd_size : ℕ) → Ends (init_map x is_utf8 header_at initrd_size)
  unfolding init_map
  init_map-Ends initrd_size =
      let calls : initrd_size / 512 + 1 ≡ suc (initrd_size / 512) = omega arith in
      let enough : initrd_start + initrd_size < initrd_start + suc (initrd_size / 512) * 512 =
        omega arith in
      rw calls (
        scan_from-Ends (initrd_start + initrd_size) (suc (initrd_size / 512)) initrd_start []
          (omega arith) enough)
