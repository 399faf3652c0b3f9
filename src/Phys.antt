-- ===== src/Phys.antt =====
-- The physical frame allocator, kernel/src/mem/phys.rs: segments of RAM, each with a header and a
-- bitmap of its 4 KiB pages, where a one marks a page that is in use.
-- A segment's bitmap is the array of 64-bit words behind its header in memory.
pub mod Valid
pub mod Allocate
pub mod Frames
pub mod Free
pub mod Release
pub mod Unique
pub mod Init
use helium_os.Prelude.{
  ℕ, zero, suc, ◌+◌, ◌-◌, ◌*◌, ◌/◌, ◌%◌, ◌^◌, ◌≡◌, Bool, true, false, ◌&&◌, not, Option, none, some,
  List, [], ◌∷◌, ltb, leb, ◌==◌, if◌then◌else◌, get_elem?, set, Outcome, ok, panic, ◌>>=◌, ◌>>◌,
  assert, unwrap,
}
use helium_os.Platform.{Align}
use helium_os.Word.Ones.{word_max, trailing_ones, set_bit, clear_bit}

abbrev pub page_size : ℕ
page_size = 0x1000

-- `SegmentHeader::MAGIC`
abbrev pub magic_value : ℕ
magic_value = 0xA55AA55AA55AA55A

-- `SegmentHeader`, at `ptr` in memory, with the bitmap that follows it.
pub record Segment : Type 0 where
  pub ptr : ℕ
  pub magic : ℕ
  pub address : ℕ
  pub size : ℕ
  pub bitmap : List ℕ

-- `mem::size_of::<SegmentHeader>()`
abbrev pub header_bytes : ℕ
header_bytes = 24

-- `PhysicalFrameAllocator`
pub record Allocator : Type 0 where
  pub segments : List Segment
  pub size : ℕ
  pub phyframe : ℕ

-- `SegmentHeader::check`
unfoldable pub check : Segment → Outcome (Unit {0})
check s = assert (s.magic == magic_value)

-- `SegmentHeader::in_range`
unfoldable pub in_range : Segment → ℕ → Bool
in_range s addr = leb s.address addr && ltb addr (s.address + s.size)

-- `bitmap.iter_mut().enumerate().find(|(_, w)| **w != u64::MAX)`, from index `i` on.
unfoldable pub find_word : ℕ → List ℕ → Option (ℕ × ℕ)
find_word i [] = none
find_word i (w ∷ ws) = if w == word_max then find_word (i + 1) ws else some (i, w)

-- `segments.iter().find(|seg| seg.in_range(addr))`
unfoldable pub find_segment : List Segment → ℕ → Option Segment
find_segment [] addr = none
find_segment (s ∷ ss) addr = if in_range s addr then some s else find_segment ss addr

-- `deallocate_frame` on the segment that holds the frame: the bit of the page is cleared; a page
-- past the bitmap is a panic.
unfoldable pub release_page : Segment → ℕ → Outcome Segment
release_page s frame = do
  let page_index = (frame - s.address) / page_size
  let page_windex = page_index / 64
  let page_bitindex = page_index % 64
  word ← unwrap (get_elem? s.bitmap page_windex)
  ok (record s { bitmap = set s.bitmap page_windex (clear_bit word page_bitindex) })

-- `deallocate_frame`; a frame in no segment is ignored.
unfoldable pub deallocate_in : List Segment → ℕ → Outcome (List Segment)
unfolding in_range
deallocate_in [] frame = ok []
deallocate_in (s ∷ ss) frame =
    let rest = deallocate_in ss frame in
    if in_range s frame
    then release_page s frame >>= (λ s'. ok (s' ∷ ss))
    else rest >>= (λ ss'. ok (s ∷ ss'))

unfoldable pub deallocate_frame : Allocator → ℕ → Outcome Allocator
deallocate_frame a frame = do
  segments ← deallocate_in a.segments frame
  ok (record a { segments = segments })

-- `PhysicalFrameAllocator::new`
unfoldable pub new : Allocator
new = record { segments = []; size = 0; phyframe = 0 }

module _ (x : Align) where
  -- `bitmap_size` and `bitmap_u64len`: one bit for a page, in whole words.
  unfoldable pub bitmap_size : ℕ → ℕ
  bitmap_size size = x.align_up (size / page_size) 64 / 8

  unfoldable pub bitmap_u64len : ℕ → ℕ
  bitmap_u64len size = bitmap_size size / 8

  -- The body of the loop of `allocate_frame` on one segment: `none` is its `continue`.
  unfoldable pub allocate_page : Segment → Outcome (Option (ℕ × Segment))
  allocate_page s = do
    check s
    elim (find_word 0 s.bitmap) [
      | none ↦ ok none
      | some (page_windex, control_word) ↦ do
        let page_bitindex = trailing_ones 64 control_word
        assert (not (page_bitindex == 64))
        let page_index = 64 * page_windex + page_bitindex
        let bitmap' = set s.bitmap page_windex (set_bit control_word page_bitindex)
        let frame_start = s.address + page_index * page_size
        ok (some (x.containing_address frame_start, record s { bitmap = bitmap' }))
    ]

  -- `allocate_frame`: the first segment that has a free page gives it.
  unfoldable pub allocate_in : List Segment → Outcome (Option (ℕ × List Segment))
  allocate_in [] = ok none
  allocate_in (s ∷ ss) =
      let rest = allocate_in ss in
      allocate_page s >>= elim [
        | some (frame, s') ↦ ok (some (frame, s' ∷ ss))
        | none ↦ rest >>= elim [ none ↦ ok none | some (frame, ss') ↦ ok (some (frame, s ∷ ss')) ]
      ]

  unfoldable pub allocate_frame : Allocator → Outcome (Option ℕ × Allocator)
  allocate_frame a = do
    result ← allocate_in a.segments
    elim result [
      | none ↦ ok (none, a)
      | some (frame, segments) ↦ ok (some frame, record a { segments = segments })
    ]
