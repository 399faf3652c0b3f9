-- ===== src/Tests/Setup.antt =====
-- The set-up of the cache of temporary mappings, over an empty root table and 32 free pages.
use native.Mathlib.Decide.{ℕ_discrete}
use helium_os.Prelude.{
  ℕ, ◌≡◌, ◌⊎◌, refl, ap, true, [], ◌∷◌, ◌==◌, if◌then◌else◌, arith, ok, panic, Outcome,
}
use helium_os.Platform.{no_flags}
use helium_os.Platform.Instance.{align, paging, indices}
use helium_os.Phys.{
  Allocator, Segment, magic_value, in_range, bitmap_u64len, bitmap_size, allocate_frame,
  allocate_in, allocate_page, check, find_word,
}
use helium_os.Word.Ones.{trailing_ones, set_bit}
use helium_os.Vcache.{map, scan, new, fill, find_absent, renew}
use helium_os.Phys.Valid.{frame_used, IsValid}
use helium_os.Phys.Init.{Region, write_segment, fresh_bitmap, ones_from}
use helium_os.Phys.Init.Layout.{write_segment-pages}
use helium_os.Tables.Insert.Result.{Exhausted}
use helium_os.Mapper.{Memory}
use helium_os.Mapper.Setup.{make_tables, init}
use helium_os.Mapper.Setup.Grown.{Stage}
use helium_os.Mapper.Setup.Boot.{IsScattered, SetUp, init-SetUp}
use helium_os.Tests.Cache.{cache}

abbrev region : Region
region = record { address = 0x10000; size = 0x20000 }

abbrev segment : Segment
segment = record {
  ptr = 0x1000;
  magic = magic_value;
  address = 0x10000;
  size = 0x20000;
  bitmap = 0xFFFFFFFF00000000 ∷ [];
}

abbrev pub roomy : Allocator
roomy = record { segments = segment ∷ []; size = 32; phyframe = 0x1000 }

segment_made : write_segment align 0x1000 region ≡ ok segment
unfolding write_segment bitmap_u64len bitmap_size fresh_bitmap ones_from
segment_made = refl

roomy-IsValid : IsValid align roomy.segments
roomy-IsValid =
    let (s, e, v, _, _, _, _) =
      write_segment-pages align 0x1000 0 region (omega arith, omega arith) (omega arith)
        (omega arith) in
    let same : s ≡ segment = ground (arith, e, segment_made) in (rw⁻¹ same v, tt, tt)

abbrev pub memory : Memory align paging indices
memory = record {
  allocator = roomy;
  cache = cache;
  root = 0x5000;
  tables = λ f i. record { frame = 0; flags = no_flags };
}

abbrev pub level : ℕ → ℕ
level f = if f == 0x5000 then 4 else 0

root_used : frame_used roomy.segments 0x5000 ≡ true
unfolding frame_used in_range
root_used = refl

pub memory-Stage : Stage align paging indices level memory
unfolding frame_used in_range
memory-Stage = record {
  tree = record {
    free = λ f a e. elim (ℕ_discrete f 0x5000) [
      | no n ↦ ground (arith, n)
      | yes same ↦ absurd (ground (arith, ap (frame_used roomy.segments) same, e, root_used))
    ];
    usable = λ f i d l u. absurd (ground (arith, u));
    child = λ f i g d l e. absurd (ground (arith, e));
    alone = λ f i h k g d e l l' p q. absurd (ground (arith, p));
  };
  valid = roomy-IsValid;
  low = λ f a e. ground (arith, e);
}

init-SetUp_example :
    ((init align paging indices memory ≡ panic) × Exhausted align 6 roomy)
    ⊎ (((p2 : ℕ) × (m₁ : Memory align paging indices) × (make_tables align paging indices memory
            ≡ ok (p2, m₁))
          × IsScattered align paging indices m₁ p2)
        ⊎ ((m' : Memory align paging indices) × (init align paging indices memory ≡ ok m')
            × SetUp align paging indices memory m'))
init-SetUp_example = init-SetUp align paging indices memory-Stage refl (λ p3 p2 i e e' lt. refl)

-- The frames of the allocator follow one another, and the cache is set up.
frames_seen : Outcome (Memory align paging indices) → ℕ
frames_seen panic = 0
frames_seen (ok m) = m.cache.p2_freecount 0

set_up_run : frames_seen (init align paging indices memory) ≡ 508
unfolding frames_seen init allocate_frame allocate_in allocate_page check find_word trailing_ones
    set_bit map scan new fill find_absent renew
set_up_run = refl
