-- ===== src/Mem.antt =====
-- The start of memory management: `init` of kernel/src/mem/virt/mod.rs and of
-- kernel/src/mem/mod.rs, from the point on where the frame allocator is there.
pub mod Kept
pub mod Whole
pub mod Started
use helium_os.Prelude.{ok, Outcome, ◌>>=◌}
use helium_os.Platform.{Align, Paging, Indices}
use helium_os.Mapper
use helium_os.Mapper.{Memory, remove_identity}
use helium_os.Mapper.Setup
use helium_os.Mapper.Header.{map_header}
use helium_os.Heap
use helium_os.Heap.{Heap}

module _ (x : Align) (y : Paging) (z : Indices) where
  -- `virt::init`; the root table is that of the boot loader.
  unfoldable pub virt_init : Memory x y z → Outcome (Memory x y z)
  unfolding map_header remove_identity
  virt_init m = do
    m₁ ← Setup.init x y z m
    m₂ ← Mapper.init x y z m₁.root m₁
    m₃ ← map_header x y z m₂
    ok (remove_identity x y z m₃)

  -- `mem::init`, after `phys::init`
  unfoldable pub init : Memory x y z → Outcome (Heap x y z)
  unfolding virt_init
  init m = virt_init m >>= Heap.init x y z
