-- ===== src/Proc/Sched.antt =====
-- The scheduler: `tick`, which runs at each timer interrupt, `exit_current` and `new_locked`.
-- Who holds which lock at a tick is an argument: whether the task list can be had at once, and
-- which tasks can be locked for writing.
pub mod Select
pub mod Coherent
pub mod Priority
use helium_os.Prelude.{
  ℕ, zero, suc, ◌+◌, ◌-◌, ◌*◌, ◌≡◌, Bool, true, false, ◌||◌, Option, none, some, List, [], ◌∷◌,
  ◌++◌, ltb, leb, ◌==◌, if◌then◌else◌, get_elem?, Outcome, ok, panic, ◌>>=◌, unwrap, checked_sub,
}
use helium_os.Proc.{Task, TaskState, running, pending, TaskProcState, ProcInfo, Kernel, MemoryMap}

abbrev pub max_tick_miss : ℕ
max_tick_miss = 10

-- The store with one task replaced.
abbrev pub with_task : Kernel → ℕ → Task → Kernel
with_task k r t = record k { task = λ s. if r == s then t else k.task s }

-- `Task::new_locked`: the new task is pending, of priority 0, and last in the list.
unfoldable pub new_locked : Kernel → TaskProcState → MemoryMap → Kernel × ℕ
new_locked k procstate memory_map =
    let id = k.idcount + 1 in
    let t : Task = record {
      id = id;
      priority = 0;
      procstate = procstate;
      memory_map = memory_map;
      state = pending;
    } in
    let k' = with_task k k.next_key t in
    (
      record k' { next_key = k.next_key + 1; tasks = k.tasks ++ (k.next_key ∷ []); idcount = id },
      id,
    )

-- `Task::life_expectancy`
unfoldable pub life_expectancy : ℕ → Task → ℕ
life_expectancy numcores t = (t.priority + 10) * numcores

abbrev pub is_pending : TaskState → Bool
is_pending pending = true
is_pending (running since) = false

-- What the search for a task has found: the index in the list that it remembers, and the task.
abbrev pub Best : Type 0
Best = Option (ℕ × ℕ)

-- One candidate. A task of higher priority takes the place of the best task, whose index stays.
unfoldable pub consider : (ℕ → Task) → ℕ → ℕ → Best → Best
consider task i r none = some (i, r)
consider task i r (some (j, b)) =
    if ltb (task b).priority (task r).priority then some (j, r) else some (j, b)

-- The search over the list, from index `i` on: tasks that are locked or not pending are skipped.
unfoldable pub select : (ℕ → Task) → (ℕ → Bool) → ℕ → List ℕ → Best → Best
unfolding consider
select task try_write i [] best = best
select task try_write i (r ∷ rs) best = select task try_write (i + 1) rs (
    if try_write r
    then (if is_pending (task r).state then consider task i r best else best)
    else best)

-- The state of the current task is saved.
unfoldable pub save : Kernel → ProcInfo → TaskProcState → Kernel
save k p proc_state = elim p.current_task [
  | none ↦ k
  | some r ↦ with_task k r (record (k.task r) { procstate = proc_state })
]

-- `current_task.take_if(..)` and what follows: a task that has had its time becomes pending. A
-- current task that is not marked as running is `unreachable!()`.
unfoldable pub release_due : ℕ → Kernel → ℕ → TaskState → Outcome (Bool × Kernel)
unfolding life_expectancy
release_due numcores k r pending = panic
release_due numcores k r (running since) = do
  age ← checked_sub k.clock since
  ok (
      if leb (life_expectancy numcores (k.task r)) age
      then (true, with_task k r (record (k.task r) { state = pending }))
      else (false, k))

-- The last part of `tick`, on a processor with no task: the best task starts to run.
unfoldable pub dispatch : ℕ → (ℕ → Bool) → Kernel → ProcInfo → Outcome (Kernel × ProcInfo)
dispatch clock try_write k p = elim (select k.task try_write 0 k.tasks none) [
  | none ↦ ok (k, p)
  | some (index, r) ↦ unwrap (get_elem? k.tasks index) >>= (λ chosen. ok (
    with_task k r (record (k.task r) { state = running clock }),
    record p { current_task = some chosen },
  ))
]

-- `tick` after it has the list and has saved the current task; `clock` is the time before it.
unfoldable pub schedule : ℕ → ℕ → (ℕ → Bool) → Kernel → ProcInfo → Outcome (Kernel × ProcInfo)
schedule numcores clock try_write k p = elim p.current_task [
  | none ↦ dispatch clock try_write k p
  | some r ↦ release_due numcores k r (k.task r).state >>= (λ (due, k').
      if due then dispatch clock try_write k' (record p { current_task = none }) else ok (k', p))
]

-- What loading `/bin/init` comes to before `Task::new_locked`: the registers and the address space
-- of the new task, or nothing where the loader fails.
abbrev pub Loaded : Type 0
Loaded = Option (TaskProcState × MemoryMap)

-- An empty list gets the first task; a failure to load it is a panic.
unfoldable pub start_init : Loaded → Kernel → List ℕ → Outcome Kernel
unfolding new_locked
start_init load k (r ∷ rs) = ok k
start_init none k [] = panic
start_init (some (procstate, memory_map)) k [] = ok (new_locked k procstate memory_map).0

-- `tick`
unfoldable pub tick :
    Loaded → ℕ → Bool → (ℕ → Bool) → TaskProcState → Kernel → ProcInfo → Outcome (Kernel × ProcInfo)
tick load numcores available try_write proc_state k p =
    if ltb max_tick_miss p.tick_miss || available
    then (do
      let p' = record p { tick_miss = 0 }
      let k' = save (record k { clock = k.clock + 1 }) p' proc_state
      k'' ← start_init load k' k'.tasks
      schedule numcores k.clock try_write k'' p')
    else ok (k, record p { tick_miss = p.tick_miss + 1 })

-- `tasks.remove(index)` of the first task with the identifier.
unfoldable pub remove_id : (ℕ → Task) → ℕ → List ℕ → List ℕ
remove_id task id [] = []
remove_id task id (r ∷ rs) = if (task r).id == id then rs else r ∷ remove_id task id rs

-- `exit_current`
unfoldable pub exit_current : Kernel → ProcInfo → Kernel × ProcInfo
exit_current k p = elim p.current_task [
  | none ↦ (k, p)
  | some r ↦ (
    record k { tasks = remove_id k.task (k.task r).id k.tasks },
    record p { current_task = none },
  )
]
