-- ===== src/Proc/Ignition/Wakeup.antt =====
-- `wakeup` of kernel/src/proc/mod.rs, on each processor once the tables are there: the data that it
-- sets up for the processor.
use helium_os.Prelude.{
  ℕ, ◌≡◌, ◌≢◌, Option, some, ◌==◌, if◌then◌else◌, arith, Outcome, ok, ◌>>=◌, >>=-eq-ok,
}
use helium_os.Platform.{Align, Indices}
use helium_os.Proc.{ProcInfo, fresh_proc}
use helium_os.Proc.Ignition.{Sizes, Descriptor, Descriptors, register, stack, nmi_stack, df_stack}

module _ (Gdt Selector : Type 0) (new_gdt : Gdt) (append : Gdt → Descriptor → Selector × Gdt) where
  -- The stack table, the descriptor tables, `PROC_TABLE`, and `kernel_rsp` of each processor's
  -- `BasicProcInfo`.
  pub record Cores : Type 0 where
    pub stack_table : ℕ → Option ℕ
    pub descriptors : Descriptors Gdt Selector new_gdt append
    pub proc_table : ℕ → Option ProcInfo
    pub kernel_rsp : ℕ → Option ℕ

  abbrev set_core {ℓ} : {A : Type ℓ} → (ℕ → Option A) → ℕ → A → ℕ → Option A
  set_core f id a i = if id == i then some a else f i

  -- `wakeup` on processor `id`, up to the entry of the processor table with its quantum, which
  -- `apic::init` returns.
  unfoldable pub wakeup : Align → Indices → Sizes → ℕ → ℕ → ℕ → ℕ → Cores → Outcome Cores
  unfolding stack register nmi_stack df_stack fresh_proc
  wakeup x z s stack_size x_ptr id quantum c = do
    kstack ← stack x z stack_size x_ptr
    ok (record {
      stack_table = set_core c.stack_table id kstack;
      descriptors =
          register Gdt Selector new_gdt append s id kstack (nmi_stack id) (df_stack id)
            c.descriptors;
      proc_table = set_core c.proc_table id (record fresh_proc { schedule_quantum = quantum });
      kernel_rsp = set_core c.kernel_rsp id kstack;
    })

  -- The processor has its stacks and its quantum, and the other processors keep theirs.
  wakeup-cores :
      (x : Align) (z : Indices) (s : Sizes) (stack_size x_ptr id quantum k : ℕ) (c c' : Cores)
      → wakeup x z s stack_size x_ptr id quantum c ≡ ok c'
      → k ≢ id
      → (kstack : ℕ) × (stack x z stack_size x_ptr ≡ ok kstack)
        × (c'.stack_table id ≡ some kstack)
        × (c'.descriptors.tss_table id
            ≡ some (record {
              privilege_stack = kstack;
              interrupt_stack_0 = nmi_stack id;
              interrupt_stack_1 = df_stack id;
            }))
        × (c'.stack_table k ≡ c.stack_table k)
        × (c'.descriptors.tss_table k ≡ c.descriptors.tss_table k)
        × (c'.descriptors.loaded k ≡ c.descriptors.loaded k)
        × (c'.proc_table k ≡ c.proc_table k)
  unfolding wakeup register
  wakeup-cores x z s stack_size x_ptr id quantum k c c' e ne =
      let (kstack, top, done) = >>=-eq-ok (stack x z stack_size x_ptr) _ e in
      (
        kstack,
        top,
        ground (arith, done),
        ground (arith, done),
        ground (arith, done, ne),
        ground (arith, done, ne),
        ground (arith, done, ne),
        ground (arith, done, ne),
      )
