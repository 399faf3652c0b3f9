-- ===== src/Phys/Init.antt =====
-- `phys::init`: the usable regions of the memory map, the place of the headers, and the segments
-- that are written there.
pub mod Bitmap
pub mod Layout
pub mod Place
use helium_os.Prelude.{
  ℕ, zero, suc, ◌+◌, ◌-◌, ◌*◌, ◌/◌, ◌%◌, ◌^◌, ◌≡◌, Bool, true, false, ◌&&◌, Option, none, some,
  List, [], ◌∷◌, ◌++◌, ltb, leb, ◌==◌, if◌then◌else◌, length, set, replicate, Outcome, ok, panic,
  ◌>>=◌, ◌>>◌, assert, unwrap, checked_sub,
}
use helium_os.Platform.{Align}
use helium_os.Bootboot.{
  MMapEnt, MMapType, used, free, acpi, memory_mapped_io, get_type, raw_size, phyadr, page_bytes,
}
use helium_os.Word.Ones.{word_max}
use helium_os.Phys.{
  Segment, Allocator, magic_value, page_size, header_bytes, bitmap_size, bitmap_u64len,
}

-- `SegmentHeader`, before it has a place in memory.
pub record Region : Type 0 where
  pub address : ℕ
  pub size : ℕ

-- `mmap.get_type() == MMapType::Free`
abbrev pub is_free : MMapType → Bool
is_free free = true
is_free used = false
is_free acpi = false
is_free memory_mapped_io = false

-- `u64::MAX << k`
unfoldable pub ones_from : ℕ → ℕ
ones_from k = word_max * 2 ^ k % 2 ^ 64

-- `mmap_len`, from the size of the loader's structure, whose first map entry counts to it.
unfoldable pub mmap_len : ℕ → Outcome ℕ
mmap_len bootboot_size = do entries ← checked_sub bootboot_size 144; ok (entries / 16 + 1)

-- `bitmap.fill(0)`, then `*bitmap.last_mut() = u64::MAX << (pages % 64)`
unfoldable pub fresh_bitmap : ℕ → ℕ → List ℕ
unfolding ones_from
fresh_bitmap len pages = set (replicate len 0) (len - 1) (ones_from (pages % 64))

module _ (x : Align) where
  -- `SegmentHeader::new(mmap.phyadr(), mmap.size())`
  abbrev pub region_of : ℕ → MMapEnt → Region
  region_of adr e = record { address = adr; size = page_bytes x e }

  -- A header with its bitmap, in bytes.
  abbrev pub footprint : ℕ → ℕ
  footprint size = bitmap_size x size + header_bytes

  -- The loop over the map from its last entry down: `i` entries are left. It collects the free
  -- regions of a page or more, and what their headers take. Type and address of every entry are
  -- printed first, so that one with no valid type or address is a panic.
  unfoldable pub collect : (ℕ → MMapEnt) → ℕ → List Region → ℕ → Outcome (List Region × ℕ)
  collect mmap zero usable total = ok (usable, total)
  collect mmap (suc i) usable total =
      let e = mmap i in
      let rest = λ (adr : ℕ) (take : Bool).
        collect mmap i (if take then usable ++ (region_of adr e ∷ []) else usable)
          (if take then total + footprint (page_bytes x e) else total) in
      get_type e
      >>= (λ t. phyadr x e >>= (λ adr. rest adr (is_free t && leb page_size (raw_size e))))

  -- The search for a place of the headers: the first region with room gives up its first pages.
  unfoldable pub place : ℕ → List Region → Option (ℕ × List Region)
  place total [] = none
  place total (r ∷ rs) =
      let need = x.align_up total page_size in
      if leb need r.size
      then some (r.address, record { address = r.address + need; size = r.size - need } ∷ rs)
      else elim (place total rs) [ none ↦ none | some (at, rs') ↦ some (at, r ∷ rs') ]

  -- One segment header and its bitmap, written at `ptr`. An empty bitmap is `unreachable!()`.
  unfoldable pub write_segment : ℕ → Region → Outcome Segment
  unfolding fresh_bitmap
  write_segment ptr r =
      let len = bitmap_u64len x r.size in
      if len == 0
      then panic
      else ok (record {
        ptr = ptr;
        magic = magic_value;
        address = r.address;
        size = r.size;
        bitmap = fresh_bitmap len (r.size / page_size);
      })

  -- The loop that writes the headers, one behind the other from `base + cursor` on.
  unfoldable pub lay_out : ℕ → ℕ → List Region → Outcome (List Segment × ℕ)
  lay_out base cursor [] = ok ([], cursor)
  lay_out base cursor (r ∷ rs) =
      let rest = lay_out base (cursor + footprint r.size) rs in
      write_segment (base + cursor) r >>= (λ s. rest >>= (λ (ss, end). ok (s ∷ ss, end)))

  -- `phys::init`
  unfoldable pub init : ℕ → (ℕ → MMapEnt) → Outcome Allocator
  init bootboot_size mmap = do
    len ← mmap_len bootboot_size
    (usable, total) ← collect mmap len [] 0
    (pmm_header, regions) ← unwrap (place total usable)
    (segments, cursor) ← lay_out pmm_header 0 regions
    assert (pmm_header % page_size == 0)
    ok (record { segments = segments; size = total; phyframe = pmm_header })
