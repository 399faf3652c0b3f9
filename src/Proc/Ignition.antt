-- ===== src/Proc/Ignition.antt =====
-- The start of the processors, kernel/src/proc/mod.rs, and their descriptor tables,
-- kernel/src/mem/gdt.rs. A processor's own data lies in tables at fixed addresses, one entry for
-- each processor by its number.
pub mod Areas
pub mod Stack
pub mod Wakeup
use helium_os.Prelude.{
  ℕ, zero, suc, ◌+◌, ◌-◌, ◌*◌, ◌%◌, ◌^◌, Bool, true, false, Option, none, some, List, [], ◌∷◌, leb,
  ltb, ◌==◌, if◌then◌else◌, Outcome, ok, panic, ◌>>=◌, ◌>>◌, assert,
}
use helium_os.Platform.{Align, Paging, Indices}
use helium_os.Vcache.{kvmspace}
use helium_os.Mapper.{Memory, valloc_ktable}

abbrev tib : ℕ
tib = 1024 * 1024 * 1024 * 1024

-- `STACK_TABLE_VPTR`, `GDT_TABLE_PTR`, `TSS_TABLE_PTR`, `NMI_STACKS_VPTR` and `DF_STACKS_VPTR`
abbrev pub stack_table_vptr : ℕ
stack_table_vptr = kvmspace + 4 * tib

abbrev pub gdt_table_ptr : ℕ
gdt_table_ptr = kvmspace + 5 * tib

abbrev pub tss_table_ptr : ℕ
tss_table_ptr = kvmspace + 7 * tib

abbrev pub nmi_stacks_vptr : ℕ
nmi_stacks_vptr = kvmspace + 7 * tib

abbrev pub df_stacks_vptr : ℕ
df_stacks_vptr = kvmspace + 8 * tib

-- `ERROR_STACK_SIZE` and the size of a `VirtAddr`
abbrev pub error_stack_size : ℕ
error_stack_size = 8 * 1024

abbrev pub slot_size : ℕ
slot_size = 8

-- The sizes of the two structures that hold types of the `x86_64` crate,
-- `KernelGlobalDescriptorTable` and `TaskStateSegment`.
pub record Sizes : Type 0 where
  pub gdt : ℕ
  pub tss : ℕ

-- `ProcInfo::stack`, where the stack of a processor is noted.
unfoldable pub stack_slot : ℕ → ℕ
stack_slot id = stack_table_vptr + slot_size * id

-- `ProcInfo::nmi_stack` and `ProcInfo::df_stack`, the tops of the stacks.
unfoldable pub nmi_stack : ℕ → ℕ
nmi_stack id = nmi_stacks_vptr + error_stack_size * (id + 1)

unfoldable pub df_stack : ℕ → ℕ
df_stack id = df_stacks_vptr + error_stack_size * (id + 1)

-- `KernelGlobalDescriptorTable::entry` and `KernelGlobalDescriptorTable::tss`
unfoldable pub entry : Sizes → ℕ → ℕ
entry s id = gdt_table_ptr + s.gdt * id

unfoldable pub tss : Sizes → ℕ → ℕ
tss s id = tss_table_ptr + s.tss * id

-- `stack`: the top of the stack that a local variable at `x_ptr` lies in.
unfoldable pub stack : Align → Indices → ℕ → ℕ → Outcome ℕ
stack x z stack_size x_ptr = assert (z.is_canonical stack_base) >> ok stack_base
  where
    stack_base : ℕ
    stack_base =
        if leb ((2 ^ 64 - stack_size) % 2 ^ 64) x_ptr then 0 else x.align_up x_ptr stack_size

module _ (x : Align) (y : Paging) (z : Indices) (s : Sizes) where
  -- `KernelGlobalDescriptorTable::init`
  unfoldable pub gdt_init : ℕ → Memory x y z → Outcome (Memory x y z)
  unfolding valloc_ktable
  gdt_init numcores m = do
    m₁ ← valloc_ktable x y z s.gdt gdt_table_ptr numcores m
    valloc_ktable x y z s.tss tss_table_ptr numcores m₁

  -- What `ignite` allocates before the other processors wake up.
  unfoldable pub allocate_tables : ℕ → Memory x y z → Outcome (Memory x y z)
  unfolding gdt_init
  allocate_tables numcores m = do
    m₁ ← valloc_ktable x y z slot_size stack_table_vptr numcores m
    m₂ ← gdt_init numcores m₁
    m₃ ← valloc_ktable x y z error_stack_size nmi_stacks_vptr numcores m₂
    valloc_ktable x y z error_stack_size df_stacks_vptr numcores m₃

-- The descriptors of a processor's table.
pub data Descriptor : Type 0 where
  kernel_code_segment : Descriptor
  kernel_data_segment : Descriptor
  user_data_segment : Descriptor
  user_code_segment : Descriptor
  tss_segment : ℕ → Descriptor

-- The parts of a `TaskStateSegment` that the kernel sets.
pub record TaskStateSegment : Type 0 where
  pub privilege_stack : ℕ
  pub interrupt_stack_0 : ℕ
  pub interrupt_stack_1 : ℕ

-- The tables of the crate: `append` gives the selector of the descriptor.
module _ (Gdt Selector : Type 0) (new_gdt : Gdt) (append : Gdt → Descriptor → Selector × Gdt) where
  pub record KernelGlobalDescriptorTable : Type 0 where
    pub gdt : Gdt
    pub kcode_seg : Selector
    pub kdata_seg : Selector
    pub ucode_seg : Selector
    pub udata_seg : Selector
    pub tss_seg : Selector

  -- The entries of all processors, and which table each of them has loaded.
  pub record Descriptors : Type 0 where
    pub tss_table : ℕ → Option TaskStateSegment
    pub gdt_table : ℕ → Option KernelGlobalDescriptorTable
    pub loaded : ℕ → Option KernelGlobalDescriptorTable

  abbrev set {ℓ} : {A : Type ℓ} → (ℕ → Option A) → ℕ → A → ℕ → Option A
  set f id a i = if id == i then some a else f i

  -- `KernelGlobalDescriptorTable::register` on processor `id`, with the loading of the table and its
  -- segments.
  unfoldable pub register : Sizes → ℕ → ℕ → ℕ → ℕ → Descriptors → Descriptors
  unfolding tss
  register s id kstack nmistack dfstack d =
      let (kcode_seg, g₁) = append new_gdt kernel_code_segment in
      let (kdata_seg, g₂) = append g₁ kernel_data_segment in
      let (udata_seg, g₃) = append g₂ user_data_segment in
      let (ucode_seg, g₄) = append g₃ user_code_segment in
      let t : TaskStateSegment = record {
        privilege_stack = kstack;
        interrupt_stack_0 = nmistack;
        interrupt_stack_1 = dfstack;
      } in
      let (tss_seg, g₅) = append g₄ (tss_segment (tss s id)) in
      let own : KernelGlobalDescriptorTable = record {
        gdt = g₅;
        kcode_seg = kcode_seg;
        kdata_seg = kdata_seg;
        ucode_seg = ucode_seg;
        udata_seg = udata_seg;
        tss_seg = tss_seg;
      } in
      record {
        tss_table = set d.tss_table id t;
        gdt_table = set d.gdt_table id own;
        loaded = set d.loaded id own;
      }
