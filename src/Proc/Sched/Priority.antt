-- ===== src/Proc/Sched/Priority.antt =====
-- What a processor without a task takes up, when the tasks may have different priorities.
use helium_os.Prelude.{
  ℕ, ◌<◌, ◌≡◌, ◌⊎◌, inl, inr, refl, Bool, true, false, some, All, get_elem?, arith, Outcome, ok,
}
use helium_os.Proc.{running, ProcInfo, Kernel}
use helium_os.Proc.Sched.{with_task, dispatch}
use helium_os.Proc.Sched.Select.{is_eligible, IsMax, NoneBefore, select_cases}

-- A processor that has taken up `first` and marked `r`.
abbrev pub Taken : ℕ → Kernel → ProcInfo → ℕ → ℕ → Outcome (Kernel × ProcInfo) → Type 0
Taken clock k p first r o =
    o
    ≡ ok (
      with_task k r (record (k.task r) { state = running clock }),
      record p { current_task = some first },
    )

-- `dispatch` never panics. Either no listed task can be locked and is pending, and nothing
-- changes, or the task that is marked as running has a priority that no such task exceeds, while
-- the processor's current task is the first such task of the list, before which no listed task can
-- be locked and is pending; they are the same task unless the marked one has a higher priority.
pub dispatch-cases :
    (clock : ℕ) (try_write : ℕ → Bool) (k : Kernel) (p : ProcInfo)
    → ((dispatch clock try_write k p ≡ ok (k, p))
        × All (λ r. is_eligible k.task try_write r ≡ false) k.tasks)
      ⊎ ((first r offset : ℕ) × Taken clock k p first r (dispatch clock try_write k p)
          × (get_elem? k.tasks offset ≡ some first)
          × (is_eligible k.task try_write first ≡ true)
          × NoneBefore k.task try_write offset k.tasks
          × (is_eligible k.task try_write r ≡ true)
          × IsMax k.task try_write r k.tasks
          × ((r ≡ first) ⊎ ((k.task first).priority < (k.task r).priority)))
unfolding dispatch
dispatch-cases clock try_write k p = elim (select_cases k.task try_write 0 k.tasks) [
  | inl (f, none_waits) ↦ inl (rw (f, dispatch) refl, none_waits)
  | inr (index, r, f, ch) ↦
      let place : index ≡ ch.offset = omega (arith, ch.place) in
      let found : get_elem? k.tasks index ≡ some ch.first = rw place ch.listed in
      inr (
        ch.first,
        r,
        ch.offset,
        rw (f, dispatch) (rw found refl),
        ch.listed,
        ch.waits,
        ch.none_before,
        ch.eligible,
        ch.max,
        elim ch.same_or_above [ inl same ↦ inl same | inr (m, lt, g) ↦ inr lt ],
      )
]
