-- ===== src/Mapper/Header.antt =====
-- `map_header` of kernel/src/mem/phys.rs: the headers of the frame allocator's segments are mapped
-- into the kernel's half of the address space, and the allocator goes on with references there.
use helium_os.Prelude.{
  ℕ, ◌+◌, ◌-◌, ◌*◌, ◌%◌, ◌^◌, ◌≤◌, ◌<◌, ◌≡◌, ◌≢◌, ◌⊎◌, inl, inr, refl, sym, ◌∙◌, true, false, none,
  some, List, [], ◌∷◌, All, ltb, arith, Outcome, ok, panic, ◌>>=◌, checked_add, checked_sub,
}
use helium_os.Platform.{Align, Paging, Indices, Flags, no_flags}
use helium_os.Phys.{Segment, in_range}
use helium_os.Phys.Valid.{IsValid, Apart, frame_used}
use helium_os.Tables.Insert.Result.{Exhausted}
use helium_os.Mapper.{Memory, map}
use helium_os.Mapper.Below.{Below, Draws-Below}
use helium_os.Mapper.Drawn.{Draws-free}
use helium_os.Mapper.Step.{Sound}
use helium_os.Mapper.Page.{lookup}
use helium_os.Mapper.Whole.{IsReady, AddsRange, map-Maps, pages_of}

-- `PHYSHEADER_START`
abbrev pub physheader_start : ℕ
physheader_start = 0xFFFF804000000000

-- The loop over the segments.
unfoldable pub offset_segments : ℕ → List Segment → Outcome (List Segment)
offset_segments segment_offset [] = ok []
offset_segments segment_offset (s ∷ ss) = do
  ptr ← checked_add 64 s.ptr segment_offset
  rest ← offset_segments segment_offset ss
  ok (record s { ptr = ptr } ∷ rest)

module _ (x : Align) (y : Paging) (z : Indices) where
  -- `map_header`
  unfoldable pub map_header : Memory x y z → Outcome (Memory x y z)
  unfolding map offset_segments
  map_header m = do
    (result, m') ←
        map x y z physheader_start m.allocator.phyframe m.allocator.size
          (record no_flags { writable = true }) m
    elim result [
      | some e ↦ panic
      | none ↦ do
        segment_offset ← checked_sub physheader_start m.allocator.phyframe
        segments ← offset_segments segment_offset m'.allocator.segments
        ok (record m' { allocator = record m'.allocator { segments = segments } })
    ]

-- Segments that differ in where their headers are referred to.
pub data Moved (d : ℕ) : List Segment → List Segment → Type 0 where
  done : Moved d [] []
  move :
      {s : Segment} {ss ts : List Segment}
      → Moved d ss ts
      → Moved d (s ∷ ss) (record s { ptr = s.ptr + d } ∷ ts)

offset_segments-Moved :
    (d : ℕ) (ss : List Segment)
    → Below (2 ^ 64 - d) ss
    → (ts : List Segment) × (offset_segments d ss ≡ ok ts) × Moved d ss ts
unfolding offset_segments
offset_segments-Moved d [] low = ([], refl, done)
offset_segments-Moved d (s ∷ ss) low =
    let fits : ltb (s.ptr + d) (2 ^ 64) ≡ true = ground (arith, low.0) in
    let (ts, e, moved) = offset_segments-Moved d ss low.1 in
    (record s { ptr = s.ptr + d } ∷ ts, rw (fits, e) refl, move moved)

Moved-used :
    {d : ℕ} {ss ts : List Segment} → Moved d ss ts → (f : ℕ) → frame_used ts f ≡ frame_used ss f
unfolding frame_used in_range
Moved-used done f = refl
Moved-used (move m) f = ground (arith, Moved-used m f)

Moved-Apart :
    {d : ℕ} {ss ts : List Segment} (s : Segment) (ptr : ℕ)
    → Moved d ss ts
    → All (Apart s) ss
    → All (Apart (record s { ptr = ptr })) ts
Moved-Apart s ptr done a = tt
Moved-Apart s ptr (move m) a = (a.0, Moved-Apart s ptr m a.1)

Moved-IsValid :
    (x : Align) {d : ℕ} {ss ts : List Segment} → Moved d ss ts → IsValid x ss → IsValid x ts
Moved-IsValid x done v = tt
Moved-IsValid x {d} (move {s = s} m) (i, a, v) = (
  record {
    marked = i.marked;
    words = i.words;
    word64 = i.word64;
    aligned = i.aligned;
    whole = i.whole;
    padded = i.padded;
  },
  Moved-Apart s (s.ptr + d) m a,
  Moved-IsValid x m v,
)

module _ (x : Align) (y : Paging) (z : Indices) where
  Moved-Sound :
      {level : ℕ → ℕ} {m : Memory x y z} {d : ℕ} {ts : List Segment}
      → Moved d m.allocator.segments ts
      → Sound x y z level m
      → Sound x y z level (record m { allocator = record m.allocator { segments = ts } })
  Moved-Sound moved s = record {
    tree = record {
      free = λ f w e. s.tree.free f w (sym (Moved-used moved f) ∙ e);
      usable = s.tree.usable;
      child = s.tree.child;
      alone = s.tree.alone;
    };
    valid = Moved-IsValid x moved s.valid;
    len = s.len;
  }

  abbrev pub header_flags : Flags
  header_flags = record no_flags { writable = true }

  -- The headers are mapped, and the allocator refers to them there.
  pub record HeaderMapped (m m' : Memory x y z) : Type 0 where
    pub ready : IsReady x y z m'
    pub root : m'.root ≡ m.root
    pub free :
        (f : ℕ)
        → f % 0x1000 ≡ 0
        → frame_used m'.allocator.segments f ≡ false
        → frame_used m.allocator.segments f ≡ false
    pub segments : List Segment
    pub moved : Moved (physheader_start - m.allocator.phyframe) segments m'.allocator.segments
    pub used : (f : ℕ) → frame_used m'.allocator.segments f ≡ frame_used segments f
    pub space :
        AddsRange
          (pages_of x y z m.allocator.size)
          physheader_start
          m.allocator.phyframe
          header_flags
          (lookup x y z m)
          (lookup x y z m')

  -- `map_header`, in a memory that is ready, for headers below 2^46 of a size that is not zero and
  -- fits: either the kernel panics, because the allocator refuses a frame for a page table, or the
  -- headers can be read and written from `PHYSHEADER_START` on, no other page outside the cache is
  -- mapped differently, each reference to a header is moved by as much as the headers are, and segments
  -- and tables stay well formed, with the same frames in use as the mapping left.
  pub map_header-HeaderMapped :
      {m : Memory x y z}
      → IsReady x y z m
      → m.allocator.size ≢ 0
      → physheader_start + m.allocator.size ≤ 2 ^ 64
      → m.allocator.phyframe + m.allocator.size ≤ 2 ^ 52
      → m.allocator.phyframe % 0x1000 ≡ 0
      → All (λ s. s.ptr < 2 ^ 46) m.allocator.segments
      → ((map_header x y z m ≡ panic)
          × Exhausted x (4 * pages_of x y z m.allocator.size) m.allocator)
        ⊎ ((m' : Memory x y z) × (map_header x y z m ≡ ok m') × HeaderMapped m m')
  unfolding map_header
  map_header-HeaderMapped {m} r positive room small whole low =
      elim (map-Maps x y z physheader_start m.allocator.phyframe m.allocator.size header_flags r
        positive (omega arith) (inr (omega arith, room)) small whole) [
          | inl (e, out) ↦ inl (rw e refl, out)
          | inr (m₁, e, d) ↦
              let (k, few, draws) = d.drew in
              let still = Draws-Below x (2 ^ 46) draws low in
              let (ts, run, moved) =
                offset_segments-Moved (physheader_start - m.allocator.phyframe)
                  m₁.allocator.segments (lower m₁.allocator.segments still) in
              let sub : checked_sub physheader_start m.allocator.phyframe
                  ≡ ok (physheader_start - m.allocator.phyframe) =
                ground (arith, small) in
              inr (
                record m₁ { allocator = record m₁.allocator { segments = ts } },
                rw (e, sub, run) refl,
                record {
                  ready = record {
                    level = d.level;
                    sound = Moved-Sound moved d.sound;
                    root_level = d.root_level;
                    cache = d.cache;
                    spare = omega (arith, r.spare, d.spare);
                  };
                  root = d.root;
                  free =
                      λ f w u. Draws-free x draws r.sound.valid f w (sym (Moved-used moved f) ∙ u);
                  segments = m₁.allocator.segments;
                  moved = moved;
                  used = Moved-used moved;
                  space = d.space;
                },
              )
        ]
    where
      lower :
          (ss : List Segment)
          → Below (2 ^ 46) ss
          → Below (2 ^ 64 - (physheader_start - m.allocator.phyframe)) ss
      lower [] b = tt
      lower (s ∷ ss) b = (omega (arith, b.0), lower ss b.1)
