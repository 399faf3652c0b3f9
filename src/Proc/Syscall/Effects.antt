-- ===== src/Proc/Syscall/Effects.antt =====
-- What a system call does to its task.
use helium_os.Prelude.{
  ℕ, ◌≡◌, ◌≢◌, ◌⊎◌, inl, inr, List, [], ◌∷◌, ◌++◌, All, ◌==◌, refl, ap, sym, ◌∙◌, Bool-cases,
  Option, none, some, arith, Outcome, ok, ◌>>=◌, unwrap,
}
use mathlib.Core.Path.{subst}
use helium_os.Proc.{Task, TaskProcState, ProcInfo, Kernel}
use helium_os.Proc.Sched.{exit_current, remove_id}
use helium_os.Proc.Syscall.{
  Syscall, exit, get_pid, SyscallResult, success, invalid, Ordinal, enter, returned, try_from,
  write_result, handle, answer, write_back, syscall_handle_2, Machine, save_entry, write_task,
}
use helium_os.Proc.Syscall.Abi.{try_from-enter, seen, returned-write_result}

-- The entry of a task into the kernel changes no identifier.
remove_id-save_entry :
    (k : Kernel) (r id : ℕ) (regs : TaskProcState) (rs : List ℕ)
    → remove_id (save_entry k r regs).task id rs ≡ remove_id k.task id rs
unfolding remove_id
remove_id-save_entry k r id regs [] = refl
remove_id-save_entry k r id regs (s ∷ rs) =
    let same : ((save_entry k r regs).task s).id ≡ (k.task s).id = ground arith in
    rw (same, remove_id-save_entry k r id regs rs) refl

-- A list of tasks after the first one with an identifier was taken out: it is the list without that
-- task, or the same list if there was none.
abbrev pub TakenOut : (ℕ → Task) → ℕ → List ℕ → List ℕ → Type 0
TakenOut task id rs rs' =
    (All (λ t. (task t).id ≢ id) rs × (rs' ≡ rs))
    ⊎ ((before after : List ℕ) × (s : ℕ) × (rs ≡ before ++ (s ∷ after))
        × ((task s).id ≡ id)
        × All (λ t. (task t).id ≢ id) before
        × (rs' ≡ before ++ after))

remove_id-TakenOut :
    (task : ℕ → Task) (id : ℕ) (rs : List ℕ) → TakenOut task id rs (remove_id task id rs)
unfolding remove_id
remove_id-TakenOut task id [] = inl (tt, refl)
remove_id-TakenOut task id (r ∷ rs) = elim (Bool-cases ((task r).id == id)) [
  | inl e ↦ inr ([], rs, r, refl, ground (arith, e), tt, rw e refl)
  | inr e ↦
      let other : (task r).id ≢ id = λ h. ground (arith, e, h) in
      elim (remove_id-TakenOut task id rs) [
        | inl (all, same) ↦ inl ((other, all), rw e (ap (◌∷◌ r) same))
        | inr (before, after, s, split, found, none_before, left) ↦ inr (
          r ∷ before,
          after,
          s,
          ap (◌∷◌ r) split,
          found,
          (other, none_before),
          rw e (ap (◌∷◌ r) left),
        )
      ]
]

exit_current-some :
    (k : Kernel) (p : ProcInfo) (r : ℕ)
    → p.current_task ≡ some r
    → exit_current k p ≡ (
      record k { tasks = remove_id k.task (k.task r).id k.tasks },
      record p { current_task = none },
    )
unfolding exit_current
exit_current-some k p r e =
    ap
      (λ c. elim c [
        | none ↦ (k, p)
        | some r ↦ (
          record k { tasks = remove_id k.task (k.task r).id k.tasks },
          record p { current_task = none },
        )
      ])
      e

module _ {Screen : Type 0} (debug_set_pixel : ℕ → ℕ → ℕ × ℕ × ℕ → Screen → Outcome Screen)
    (exec_initrd : ℕ → ℕ → Kernel → Outcome (Option ℕ × Kernel)) where
  pub syscall_handle_2-returns :
      (o : Ordinal) (s : Syscall) (regs : TaskProcState) (k : Kernel) (p : ProcInfo) (scr : Screen)
      {r : ℕ} {result : SyscallResult} {k' : Kernel} {p' : ProcInfo} {scr' : Screen}
      → p.current_task ≡ some r
      → handle debug_set_pixel exec_initrd s (save_entry k r (enter o s regs), p, scr)
        ≡ ok (result, (k', p', scr'))
      → p'.current_task ≡ some r
      → (k'' : Kernel) × (syscall_handle_2 debug_set_pixel exec_initrd (enter o s regs) (k, p, scr)
          ≡ ok (k'', p', scr'))
        × (returned (k''.task r).procstate ≡ seen result)
  unfolding syscall_handle_2 answer write_back
  syscall_handle_2-returns o s regs k p scr {r} {result} {k'} {p'} {scr'} e h e' =
      let entered = enter o s regs in
      let serve : ℕ → Option Syscall → Outcome (Machine Screen) = λ r call.
        answer debug_set_pixel exec_initrd call (save_entry k r entered, p, scr)
        >>= (λ m. ok (write_back m)) in
      let written : ((write_task (some r) result k').task r).procstate
          ≡ write_result result (k'.task r).procstate =
        ground arith in
      (
        write_task (some r) result k',
        ap (λ c. unwrap c >>= (λ r. serve r (try_from entered))) e
            ∙ (ap (serve r) (try_from-enter o s regs)
                ∙ (ap (λ m. m >>= (λ m. ok (write_back m))) h
                    ∙ ap (λ c. ok (write_task c result k', p', scr')) e')),
        ap returned written ∙ returned-write_result result (k'.task r).procstate,
      )

  -- `GetPid` gives a task its own identifier.
  get_pid-id :
      (o : Ordinal) (regs : TaskProcState) (k : Kernel) (p : ProcInfo) (scr : Screen) (r : ℕ)
      → p.current_task ≡ some r
      → (k' : Kernel) × (syscall_handle_2 debug_set_pixel exec_initrd
            (enter o get_pid regs)
            (k, p, scr)
          ≡ ok (k', p, scr))
        × (returned (k'.task r).procstate ≡ success (k.task r).id 0 0 0 0 0)
  unfolding handle
  get_pid-id o regs k p scr r e =
      let given : ((save_entry k r (enter o get_pid regs)).task r).id ≡ (k.task r).id =
        ground arith in
      syscall_handle_2-returns o get_pid regs k p scr e
        (ap
            (λ c. unwrap c >>= (λ s. ok (
              success ((save_entry k r (enter o get_pid regs)).task s).id 0 0 0 0 0,
              (save_entry k r (enter o get_pid regs), p, scr),
            )))
            e
          ∙ ap (λ i. ok (success i 0 0 0 0 0, (save_entry k r (enter o get_pid regs), p, scr)))
              given)
        e

  -- When the current task of a processor calls `Exit`, the kernel does not panic and the processor
  -- has no task. Of the list of tasks the first one with the identifier of the caller is taken out,
  -- and the others stay in their order; if none has it, the list stays.
  pub exit-leaves :
      (o : Ordinal) (code : ℕ) (regs : TaskProcState) (k : Kernel) (p : ProcInfo) (scr : Screen)
      (r : ℕ)
      → p.current_task ≡ some r
      → (k' : Kernel) × (p' : ProcInfo) × (syscall_handle_2 debug_set_pixel exec_initrd
            (enter o (exit code) regs)
            (k, p, scr)
          ≡ ok (k', p', scr))
        × (p'.current_task ≡ none)
        × TakenOut k.task (k.task r).id k.tasks k'.tasks
  unfolding syscall_handle_2 answer write_back handle exit_current
  exit-leaves o code regs k p scr r e =
      let entered = enter o (exit code) regs in
      let k₁ : Kernel = save_entry k r entered in
      let same : (k₁.task r).id ≡ (k.task r).id = ground arith in
      let serve : ℕ → Option Syscall → Outcome (Machine Screen) = λ r call.
        answer debug_set_pixel exec_initrd call (save_entry k r entered, p, scr)
        >>= (λ m. ok (write_back m)) in
      (
        record k₁ { tasks = remove_id k₁.task (k₁.task r).id k.tasks },
        record p { current_task = none },
        ap (λ c. unwrap c >>= (λ r. serve r (try_from entered))) e
            ∙ (ap (serve r) (try_from-enter o (exit code) regs)
                ∙ ap (λ m. ok (write_back (invalid, (m.0, m.1, scr))))
                    (exit_current-some k₁ p r e)),
        refl,
        subst (TakenOut k.task (k.task r).id k.tasks)
            (sym (
              remove_id-save_entry k r (k₁.task r).id entered k.tasks
              ∙ ap (λ i. remove_id k.task i k.tasks) same))
            (remove_id-TakenOut k.task (k.task r).id k.tasks),
      )
