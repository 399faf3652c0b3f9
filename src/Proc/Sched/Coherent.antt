-- ===== src/Proc/Sched/Coherent.antt =====
-- What every tick keeps on a machine of several processors: the task that a processor runs is
-- marked as running, and no task runs on two processors.
use helium_os.Prelude.{
  ℕ, zero, suc, ◌+◌, ◌-◌, ◌≤◌, ◌<◌, ◌≡◌, ◌≢◌, ◌⊎◌, inl, inr, refl, ap, sym, ◌∙◌, Bool, true, false,
  ◌||◌, Option, none, some, List, [], ◌∷◌, ◌++◌, All, ltb, leb, ◌==◌, if◌then◌else◌, get_elem?,
  arith, Outcome, ok, ◌>>=◌, checked_sub, Bool-cases, Option-cases,
}
use helium_os.Proc.{Task, running, pending, TaskProcState, ProcInfo, Kernel, MemoryMap}
use helium_os.Proc.Sched.{
  with_task, new_locked, save, release_due, dispatch, schedule, Loaded, start_init, tick,
  max_tick_miss, life_expectancy,
}
use helium_os.Proc.Sched.Select.{is_eligible, select_cases}

-- The current task of each processor.
abbrev pub Currents : Type 0
Currents = ℕ → Option ℕ

abbrev pub with_current : Currents → ℕ → Option ℕ → Currents
with_current cur c o d = if c == d then o else cur d

-- The task is marked as running, from a time that is not in the future.
abbrev pub Runs : Kernel → ℕ → Type 0
Runs k r = (since : ℕ) × ((k.task r).state ≡ running since) × (since ≤ k.clock)

-- All listed tasks have the priority that `new_locked` gives; keys of tasks are below the next
-- one; a processor's task is marked as running, and is not the task of another processor.
pub record Inv (k : Kernel) (cur : Currents) : Type 0 where
  pub flat : All (λ r. (k.task r).priority ≡ 0) k.tasks
  pub listed : All (λ r. r < k.next_key) k.tasks
  pub keys : (c r : ℕ) → cur c ≡ some r → r < k.next_key
  pub runs : (c r : ℕ) → cur c ≡ some r → Runs k r
  pub alone : (c d r : ℕ) → cur c ≡ some r → cur d ≡ some r → c ≡ d

-- Steps that touch neither priorities nor states keep the invariant.
record Same (k k' : Kernel) : Type 0 where
  states : (r : ℕ) → (k'.task r).state ≡ (k.task r).state
  priorities : (r : ℕ) → (k'.task r).priority ≡ (k.task r).priority
  tasks : k'.tasks ≡ k.tasks
  next_key : k'.next_key ≡ k.next_key
  later : k.clock ≤ k'.clock

All-mono : (P Q : ℕ → Type 0) (rs : List ℕ) → ((r : ℕ) → P r → Q r) → All P rs → All Q rs
All-mono P Q [] f p = tt
All-mono P Q (r ∷ rs) f p = (f r p.0, All-mono P Q rs f p.1)

Same-Inv : {k k' : Kernel} {cur : Currents} → Same k k' → Inv k cur → Inv k' cur
Same-Inv {k} {k'} s i = record {
  flat = rw s.tasks (
      All-mono (λ r. (k.task r).priority ≡ 0) (λ r. (k'.task r).priority ≡ 0) k.tasks
        (λ r p. s.priorities r ∙ p) i.flat);
  listed = rw s.tasks (
      All-mono (λ r. r < k.next_key) (λ r. r < k'.next_key) k.tasks (λ r p. rw s.next_key p)
        i.listed);
  keys = λ c r e. rw s.next_key (i.keys c r e);
  runs = λ c r e.
      let (since, f, le) = i.runs c r e in (since, s.states r ∙ f, omega (arith, le, s.later));
  alone = i.alone;
}

save-Same : (k : Kernel) (p : ProcInfo) (ps : TaskProcState) → Same k (save k p ps)
unfolding save
save-Same k p ps = elim (Option-cases p.current_task) [
  | inl e ↦
      rw (e, save)
        (record {
          states = λ r. refl;
          priorities = λ r. refl;
          tasks = refl;
          next_key = refl;
          later = omega arith;
        })
  | inr (s, e) ↦
      rw (e, save)
        (record {
          states = λ r. ground arith;
          priorities = λ r. ground arith;
          tasks = refl;
          next_key = refl;
          later = omega arith;
        })
]

tock : (k : Kernel) → Same k (record k { clock = k.clock + 1 })
tock k = record {
  states = λ r. refl;
  priorities = λ r. refl;
  tasks = refl;
  next_key = refl;
  later = omega arith;
}

-- A new task is nobody's yet.
All-append : (P : ℕ → Type 0) (rs : List ℕ) (r : ℕ) → All P rs → P r → All P (rs ++ (r ∷ []))
All-append P [] r p q = (q, tt)
All-append P (s ∷ rs) r p q = (p.0, All-append P rs r p.1 q)

new_locked-Inv :
    (k : Kernel) {cur : Currents} (ps : TaskProcState) (mm : MemoryMap)
    → k.tasks ≡ []
    → Inv k cur
    → Inv (new_locked k ps mm).0 cur
unfolding new_locked
new_locked-Inv k ps mm e i = record {
  flat = rw e (ground arith, tt);
  listed = rw e (omega arith, tt);
  keys = λ c r f. omega (arith, i.keys c r f);
  runs = λ c r f. let (since, g, le) = i.runs c r f in (since, ground (arith, g, i.keys c r f), le);
  alone = i.alone;
}

start_init-Inv :
    (load : Loaded) (k : Kernel) (cur : Currents) (rs : List ℕ)
    → k.tasks ≡ rs
    → load ≢ none
    → Inv k cur
    → (k' : Kernel) × (start_init load k rs ≡ ok k') × Inv k' cur × (k'.clock ≡ k.clock)
unfolding start_init
start_init-Inv load k cur (r ∷ rs) e h i = (k, refl, i, refl)
start_init-Inv none k cur [] e h i = absurd (h refl)
start_init-Inv (some (ps, mm)) k cur [] e h i =
    ((new_locked k ps mm).0, refl, new_locked-Inv k ps mm e i, refl)

-- What a processor runs after the task of one processor was replaced.
current_cases :
    (cur : Currents) (c d r : ℕ) (o : Option ℕ)
    → with_current cur c o d ≡ some r
    → ((c ≡ d) × (o ≡ some r)) ⊎ ((c ≢ d) × (cur d ≡ some r))
current_cases cur c d r o e = elim (Bool-cases (c == d)) [
  | inl same ↦ inl (ground (arith, same), ground (arith, e, same))
  | inr other ↦ inr (ground (arith, other), ground (arith, e, other))
]

-- A processor that gave up its task runs nothing.
current_other :
    (cur : Currents) (c d r : ℕ) → with_current cur c none d ≡ some r → (c ≢ d) × (cur d ≡ some r)
current_other cur c d r e = elim (current_cases cur c d r none e) [
  | inl (same, f) ↦ absurd (ground (arith, f))
  | inr h ↦ h
]

other_task :
    (k : Kernel) (r s : ℕ) (t : Task) → r ≢ s → ((with_task k r t).task s).state ≡ (k.task s).state
other_task k r s t h = ground (arith, h)

-- A task that a processor runs is not pending.
running_not_waits :
    (k : Kernel) (cur : Currents) (try_write : ℕ → Bool) (d r : ℕ)
    → is_eligible k.task try_write r ≡ true
    → cur d ≡ some r
    → Inv k cur
    → ⊥
running_not_waits k cur try_write d r e f i =
    let (since, g, le) = i.runs d r f in
    elim (Bool-cases (try_write r)) [
      | inl h ↦ ground (arith, e, g, h)
      | inr h ↦ ground (arith, e, h)
    ]

-- A task that is due becomes pending, and its processor has none.
release_due-Inv :
    (numcores : ℕ) (k : Kernel) (cur : Currents) (c r : ℕ)
    → cur c ≡ some r
    → Inv k cur
    → (due : Bool) × (k' : Kernel) × (release_due numcores k r (k.task r).state ≡ ok (due, k'))
      × Inv k' (if due then with_current cur c none else cur)
      × (k'.clock ≡ k.clock)
unfolding release_due
release_due-Inv numcores k cur c r e i =
    let (since, f, le) = i.runs c r e in
    let sub : checked_sub k.clock since ≡ ok (k.clock - since) = ground (arith, le) in
    elim (Bool-cases (leb (life_expectancy numcores (k.task r)) (k.clock - since))) [
      | inr young ↦ (false, k, rw f (rw sub (rw young refl)), i, refl)
      | inl old ↦ (
        true,
        with_task k r (record (k.task r) { state = pending }),
        rw f (rw sub (rw old refl)),
        record {
          flat =
              All-mono (λ s. (k.task s).priority ≡ 0) _ k.tasks (λ s p. ground (arith, p)) i.flat;
          listed = i.listed;
          keys = λ d s g. i.keys d s (current_other cur c d s g).1;
          runs = λ d s g.
              let h = current_other cur c d s g in
              let (from, run, le') = i.runs d s h.1 in
              let apart : r ≢ s = λ same. h.0 (i.alone c d s (e ∙ ap some same) h.1) in
              (from, other_task k r s _ apart ∙ run, le');
          alone = λ d d' s g g'.
              i.alone d d' s (current_other cur c d s g).1 (current_other cur c d' s g').1;
        },
        refl,
      )
    ]

listed_at :
    (P : ℕ → Type 0) (rs : List ℕ) (m : ℕ) {r : ℕ} → All P rs → get_elem? rs m ≡ some r → P r
listed_at P [] m a e = absurd (ground arith)
listed_at P (s ∷ rs) zero {r} a e = let same : r ≡ s = ground arith in rw same a.0
listed_at P (s ∷ rs) (suc m) a e = listed_at P rs m a.1 e

-- The invariant speaks only of the tasks that processors run.
fewer_currents :
    (k : Kernel) (cur cur' : Currents)
    → ((d r : ℕ) → cur' d ≡ some r → cur d ≡ some r)
    → Inv k cur
    → Inv k cur'
fewer_currents k cur cur' back i = record {
  flat = i.flat;
  listed = i.listed;
  keys = λ d r f. i.keys d r (back d r f);
  runs = λ d r f. i.runs d r (back d r f);
  alone = λ d d' r f f'. i.alone d d' r (back d r f) (back d' r f');
}

-- Writing again what a processor runs changes nothing.
same_current :
    (k : Kernel) (cur : Currents) (c : ℕ) (o : Option ℕ)
    → o ≡ cur c
    → Inv k cur
    → Inv k (with_current cur c o)
same_current k cur c o e i =
    fewer_currents k cur (with_current cur c o)
      (λ d r f. elim (current_cases cur c d r o f) [
        | inl (same, g) ↦ ap cur (sym same) ∙ (sym e ∙ g)
        | inr h ↦ h.1
      ])
      i

-- The later of two changes of one processor counts.
last_current :
    (k : Kernel) (cur : Currents) (c : ℕ) (o : Option ℕ)
    → Inv k (with_current (with_current cur c none) c o)
    → Inv k (with_current cur c o)
last_current k cur c o i =
    fewer_currents k (with_current (with_current cur c none) c o) (with_current cur c o)
      (λ d r f. elim (Bool-cases (c == d)) [
        | inl h ↦ ground (arith, h, f)
        | inr h ↦ ground (arith, h, f)
      ])
      i

-- A processor starts a task that waits.
starts :
    (k : Kernel) (cur : Currents) (try_write : ℕ → Bool) (c r clock : ℕ)
    → clock ≤ k.clock
    → r < k.next_key
    → is_eligible k.task try_write r ≡ true
    → Inv k cur
    → Inv
        (with_task k r (record (k.task r) { state = running clock }))
        (with_current cur c (some r))
starts k cur try_write c r clock le lt e i =
    let t : Task = record (k.task r) { state = running clock } in
    let not_run : (d s : ℕ) → cur d ≡ some s → r ≢ s =
      λ d s f same. running_not_waits k cur try_write d r e (f ∙ ap some (sym same)) i in
    record {
      flat = All-mono (λ s. (k.task s).priority ≡ 0) _ k.tasks (λ s p. ground (arith, p)) i.flat;
      listed = i.listed;
      keys = λ d s f. elim (current_cases cur c d s (some r) f) [
        | inl (same, g) ↦ ground (arith, lt, g)
        | inr h ↦ i.keys d s h.1
      ];
      runs = λ d s f. elim (current_cases cur c d s (some r) f) [
        | inl (same, g) ↦ (clock, ground (arith, g), le)
        | inr h ↦
            let (since, run, le') = i.runs d s h.1 in
            (since, other_task k r s t (not_run d s h.1) ∙ run, le')
      ];
      alone = λ d d' s f f'. elim (current_cases cur c d s (some r) f) [
        | inl (same, g) ↦ elim (current_cases cur c d' s (some r) f') [
          | inl (same', g') ↦ sym same ∙ same'
          | inr h ↦ absurd (not_run d' s h.1 (ground (arith, g)))
        ]
        | inr h ↦ elim (current_cases cur c d' s (some r) f') [
          | inl (same, g) ↦ absurd (not_run d s h.1 (ground (arith, g)))
          | inr h' ↦ i.alone d d' s h.1 h'.1
        ]
      ];
    }

-- A processor with no task takes the first pending one, if there is one that it can lock.
dispatch-Inv :
    (clock : ℕ) (try_write : ℕ → Bool) (k : Kernel) (p : ProcInfo) (cur : Currents) (c : ℕ)
    → clock ≤ k.clock
    → cur c ≡ none
    → p.current_task ≡ none
    → Inv k cur
    → (k' : Kernel) × (p' : ProcInfo) × (dispatch clock try_write k p ≡ ok (k', p'))
      × Inv k' (with_current cur c p'.current_task)
unfolding dispatch
dispatch-Inv clock try_write k p cur c le e pe i = elim (select_cases k.task try_write 0 k.tasks) [
  | inl (f, none_waits) ↦
      (k, p, rw (f, dispatch) refl, same_current k cur c p.current_task (pe ∙ sym e) i)
  | inr (index, r, f, ch) ↦
      let same : r ≡ ch.first = elim ch.same_or_above [
        | inl h ↦ h
        | inr (m, lt, g) ↦ absurd (
            omega (
              arith,
              lt,
              listed_at _ k.tasks m i.flat g,
              listed_at _ k.tasks ch.offset i.flat ch.listed,
            ))
      ] in
      let place : index ≡ ch.offset = omega (arith, ch.place) in
      let found : get_elem? k.tasks index ≡ some r = rw (place, same) ch.listed in
      (
        with_task k r (record (k.task r) { state = running clock }),
        record p { current_task = some r },
        rw (f, dispatch) (rw found refl),
        starts k cur try_write c r clock le (listed_at _ k.tasks index i.listed found) ch.eligible
            i,
      )
]

-- What remains of a tick once `release_due` has answered.
abbrev after_release : ℕ → (ℕ → Bool) → ProcInfo → Bool × Kernel → Outcome (Kernel × ProcInfo)
after_release clock try_write p r =
    if r.0 then dispatch clock try_write r.1 (record p { current_task = none }) else ok (r.1, p)

schedule-none :
    (numcores clock : ℕ) (try_write : ℕ → Bool) (k : Kernel) (p : ProcInfo)
    → p.current_task ≡ none
    → schedule numcores clock try_write k p ≡ dispatch clock try_write k p
unfolding schedule
schedule-none numcores clock try_write k p e =
    ap
      (λ o. elim o [
        | none ↦ dispatch clock try_write k p
        | some r ↦ release_due numcores k r (k.task r).state >>= after_release clock try_write p
      ])
      e

schedule-some :
    (numcores clock : ℕ) (try_write : ℕ → Bool) (k : Kernel) (p : ProcInfo) (r : ℕ)
    → p.current_task ≡ some r
    → schedule numcores clock try_write k p
      ≡ (release_due numcores k r (k.task r).state >>= after_release clock try_write p)
unfolding schedule
schedule-some numcores clock try_write k p r e =
    ap
      (λ o. elim o [
        | none ↦ dispatch clock try_write k p
        | some r ↦ release_due numcores k r (k.task r).state >>= after_release clock try_write p
      ])
      e

-- What a tick comes to, where the processor ends up with a task or none.
abbrev Ends : Outcome (Kernel × ProcInfo) → Currents → ℕ → Type 0
Ends o cur c =
    (k : Kernel) × (p : ProcInfo) × (o ≡ ok (k, p)) × Inv k (with_current cur c p.current_task)

after_release-Inv :
    (clock : ℕ) (try_write : ℕ → Bool) (p : ProcInfo) (cur : Currents) (c : ℕ) (due : Bool)
    (k : Kernel)
    → p.current_task ≡ cur c
    → clock ≤ k.clock
    → Inv k (if due then with_current cur c none else cur)
    → Ends (after_release clock try_write p (due, k)) cur c
after_release-Inv clock try_write p cur c false k e le i =
    (k, p, refl, same_current k cur c p.current_task e i)
after_release-Inv clock try_write p cur c true k e le i =
    let idle : with_current cur c none c ≡ none = ground arith in
    let (k', p', f, j) =
      dispatch-Inv clock try_write k (record p { current_task = none }) (with_current cur c none) c
        le idle refl i in
    (k', p', f, last_current k' cur c p'.current_task j)

-- The part of a tick after the save.
schedule-Inv :
    (numcores clock : ℕ) (try_write : ℕ → Bool) (k : Kernel) (p : ProcInfo) (cur : Currents) (c : ℕ)
    (o : Option ℕ)
    → p.current_task ≡ o
    → clock ≤ k.clock
    → cur c ≡ o
    → Inv k cur
    → Ends (schedule numcores clock try_write k p) cur c
schedule-Inv numcores clock try_write k p cur c none pe le e i =
    let (k', p', f, j) = dispatch-Inv clock try_write k p cur c le e pe i in
    (k', p', schedule-none numcores clock try_write k p pe ∙ f, j)
schedule-Inv numcores clock try_write k p cur c (some r) pe le e i =
    let (due, k', f, j, same) = release_due-Inv numcores k cur c r e i in
    let (k'', p', g, l) =
      after_release-Inv clock try_write p cur c due k' (pe ∙ sym e) (omega (arith, le, same)) j in
    (
      k'',
      p',
      schedule-some numcores clock try_write k p r pe
          ∙ (ap (λ o. o >>= after_release clock try_write p) f ∙ g),
      l,
    )

-- Where the first task can be loaded, a timer interrupt on processor `c`, whose current task is the
-- one that the invariant has for it, does not panic, and keeps the invariant for all processors,
-- with the new current task as what processor `c` runs. The invariant has it that all listed tasks
-- have the priority 0, that each current task is marked as running since a time that is past, and
-- that no task is current on two processors.
pub tick-Inv :
    (load : Loaded) (numcores : ℕ) (available : Bool) (try_write : ℕ → Bool)
    (proc_state : TaskProcState) (k : Kernel) (p : ProcInfo) (cur : Currents) (c : ℕ)
    → load ≢ none
    → p.current_task ≡ cur c
    → Inv k cur
    → (k' : Kernel) × (p' : ProcInfo) × (tick load numcores available try_write proc_state k p
        ≡ ok (k', p'))
      × Inv k' (with_current cur c p'.current_task)
unfolding tick
tick-Inv load numcores available try_write proc_state k p cur c h pe i =
    elim (Bool-cases (ltb max_tick_miss p.tick_miss || available)) [
      | inr busy ↦
          (k, record p { tick_miss = p.tick_miss + 1 }, rw busy refl, same_current k cur c _ pe i)
      | inl free ↦
          let p' : ProcInfo = record p { tick_miss = 0 } in
          let k' : Kernel = save (record k { clock = k.clock + 1 }) p' proc_state in
          let same : Same (record k { clock = k.clock + 1 }) k' = save-Same _ p' proc_state in
          let (k'', f, j, f') =
            start_init-Inv load k' cur k'.tasks refl h (Same-Inv same (Same-Inv (tock k) i)) in
          let le : k.clock ≤ k''.clock = omega (arith, same.later, f') in
          let (l, p'', g, m) =
            schedule-Inv numcores k.clock try_write k'' p' cur c (cur c) pe le refl j in
          (
            l,
            p'',
            rw free (ap (λ o. o >>= (λ l. schedule numcores k.clock try_write l p')) f ∙ g),
            m,
          )
    ]
