-- ===== src/Tests/Memory.antt =====
-- The physical frame allocator on one segment of three pages, and on a small memory map.
use helium_os.Prelude.{
  ℕ, zero, suc, ◌+◌, ◌*◌, ◌/◌, ◌≡◌, ◌⊎◌, refl, true, false, ◌||◌, ◌&&◌, not, none, some, List, [],
  ◌∷◌, leb, ◌==◌, arith, ok,
}
use helium_os.Platform.Instance.{align, indices}
use helium_os.Bootboot.{MMapEnt}
use helium_os.Phys.{
  Segment, Allocator, magic_value, find_segment, deallocate_frame, allocate_frame, allocate_in,
  allocate_page, bitmap_u64len, bitmap_size, check, find_word,
}
use helium_os.Phys.Valid.{frame_used, page_used, IsSegment, IsValid}
use helium_os.Phys.Free.{allocate_frame_correct, deallocate-allocate}
use helium_os.Phys.Release.{deallocate_frame_correct}
use helium_os.Phys.Unique.{Distinct, gives, start, next, Reach-Distinct}
use helium_os.Phys.Init.{Region, write_segment, fresh_bitmap, ones_from}
use helium_os.Phys.Init.Layout.{write_segment-pages}
use helium_os.Phys.Init.Bitmap.{first_reserved}
use helium_os.Word.Ones.{set_bit, trailing_ones}
use helium_os.Platform.{no_flags}
use helium_os.Proc.AddressSpace.{new_map, allocate}
use helium_os.Proc.AddressSpace.Frames.{Takes, allocate-Takes}

abbrev region : Region
region = record { address = 0x10000; size = 0x3000 }

-- The segment with the pages of a bitmap in use.
abbrev pub segment : ℕ → Segment
segment word = record {
  ptr = 0x1000;
  magic = magic_value;
  address = 0x10000;
  size = 0x3000;
  bitmap = word ∷ [];
}

abbrev pub allocator : ℕ → Allocator
allocator word = record { segments = segment word ∷ []; size = 32; phyframe = 0x1000 }

abbrev pub empty : ℕ
empty = 0xFFFFFFFFFFFFFFF8

segment_made : write_segment align 0x1000 region ≡ ok (segment empty)
unfolding write_segment bitmap_u64len bitmap_size fresh_bitmap ones_from
segment_made = refl

segment-IsSegment : IsSegment align (segment empty)
segment-IsSegment =
    let (s, e, v, used, at, address, size) =
      write_segment-pages align 0x1000 0 region (omega arith, omega arith) (omega arith)
        (omega arith) in
    let same : s ≡ segment empty = ground (arith, e, segment_made) in rw⁻¹ same v

pub allocator-IsValid : IsValid align (allocator empty).segments
allocator-IsValid = (segment-IsSegment, tt, tt)

first_taken : allocate_frame align (allocator empty) ≡ ok (some 0x10000, allocator (empty + 1))
unfolding allocate_frame allocate_in allocate_page check find_word set_bit trailing_ones
first_taken = refl

second_taken :
    allocate_frame align (allocator (empty + 1)) ≡ ok (some 0x11000, allocator (empty + 3))
unfolding allocate_frame allocate_in allocate_page check find_word set_bit trailing_ones
second_taken = refl

allocate_frame_correct_example :
    ((allocate_frame align (allocator empty) ≡ ok (none, allocator empty))
      × (frame_used (allocator empty).segments 0x10000 ≡ true))
    ⊎ ((frame : ℕ) × (a' : Allocator) × (allocate_frame align (allocator empty)
          ≡ ok (some frame, a'))
        × (frame_used (allocator empty).segments frame ≡ false)
        × (frame_used a'.segments 0x10000
            ≡ (frame == 0x10000 || frame_used (allocator empty).segments 0x10000))
        × IsValid align a'.segments)
allocate_frame_correct_example =
    allocate_frame_correct align (allocator empty) 0x10000 allocator-IsValid refl

Reach-Distinct_example : Distinct (0x11000 ∷ 0x10000 ∷ [])
Reach-Distinct_example =
    Reach-Distinct align (allocator empty) allocator-IsValid
      (next (next start (gives first_taken)) (gives second_taken))

deallocate_frame_correct_example :
    ((find_segment (allocator empty).segments 0x10000 ≡ none)
      × (deallocate_frame (allocator empty) 0x10000 ≡ ok (allocator empty)))
    ⊎ ((s : Segment) × (a' : Allocator) × (find_segment (allocator empty).segments 0x10000 ≡ some s)
        × (deallocate_frame (allocator empty) 0x10000 ≡ ok a')
        × (frame_used a'.segments 0x12000
            ≡ (not (0x10000 == 0x12000) && frame_used (allocator empty).segments 0x12000))
        × IsValid align a'.segments)
deallocate_frame_correct_example =
    deallocate_frame_correct align (allocator empty) 0x10000 0x12000 allocator-IsValid refl refl

deallocate-allocate_example :
    deallocate_frame (allocator (empty + 1)) 0x10000 ≡ ok (allocator empty)
deallocate-allocate_example =
    deallocate-allocate align (allocator empty) allocator-IsValid first_taken

write_segment-pages_example :
    (s : Segment) × (write_segment align 0x1000 region ≡ ok s)
    × IsSegment align s
    × (page_used s 2 ≡ leb (first_reserved (0x3000 / 0x1000)) 2)
    × (s.ptr ≡ 0x1000)
    × (s.address ≡ 0x10000)
    × (s.size ≡ 0x3000)
write_segment-pages_example =
    write_segment-pages align 0x1000 2 region (omega arith, omega arith) (omega arith) (omega arith)

-- A free region of a mebibyte at 0x100000, and a used page.
abbrev mmap : ℕ → MMapEnt
mmap zero = record { ptr = 0x100000; size = 0x100001 }
mmap (suc i) = record { ptr = 0; size = 0x1000 }

abbrev usable : List Region
usable = record { address = 0x100000; size = 0x100000 } ∷ []

abbrev regions : List Region
regions = record { address = 0x101000; size = 0xFF000 } ∷ []

allocate-Takes_example :
    Takes align
      (allocator empty)
      2
      (allocate align indices 0x400000 2 no_flags (allocator empty) new_map)
allocate-Takes_example =
    allocate-Takes align indices 0x400000 2 no_flags (allocator empty) new_map allocator-IsValid
      (λ i lt. indices.is_canonical-low (0x400000 + i * 0x1000) (omega (arith, lt)))
