-- ===== src/Proc/Load/Outcomes.antt =====
-- What `Task::exec`, kernel/src/proc/task.rs, does to the list of tasks.
use helium_os.Prelude.{
  ℕ, ◌+◌, ◌≡◌, ◌≢◌, ◌⊎◌, inl, inr, refl, ap, sym, ◌∙◌, true, ◌==◌, Option, none, some, List, [],
  ◌∷◌, ◌++◌, arith, Outcome, ok, panic, ◌>>=◌, fails, weaken, Returns, returns, after, after_any,
  after_option, Returns-ok,
}
use mathlib.Core.Path.{subst}
use helium_os.Platform.{Align, Paging, Indices}
use helium_os.Vcache.Cells.{if_hit, eq_test}
use helium_os.Elf.{ElfFile, parse, iter_progheader}
use helium_os.Initrd.{Entries, open_file}
use helium_os.Proc.{Kernel, Task, pending, new_procstate}
use helium_os.Proc.Sched.{new_locked}
use helium_os.Proc.AddressSpace.{new_map, drop_mappings}
use helium_os.Proc.Load.{
  ExecResult, success, Loading, Machine, Loaded, finish, exec, exec_raw, exec_initrd,
}
use helium_os.Proc.Load.Segment.{AllUser, is_failure, Sane, load_all-Sane, load_stack-Sane}

-- A task was added.
pub record Spawned (entry : ℕ) (k k' : Kernel) (id : ℕ) : Type 0 where
  pub counted : id ≡ k.idcount + 1
  pub counter : k'.idcount ≡ id
  pub listed : k'.tasks ≡ k.tasks ++ (k.next_key ∷ [])
  pub named : (k'.task k.next_key).id ≡ id
  pub waits : (k'.task k.next_key).state ≡ pending
  pub starts : (k'.task k.next_key).procstate.rip ≡ entry
  pub user : AllUser (k'.task k.next_key).memory_map
  pub others : (r : ℕ) → k.next_key ≢ r → k'.task r ≡ k.task r

-- A task that starts at an address with the property was added, or there was an error and the tasks are
-- as they were.
abbrev pub Ends {ℓ} : {A : Type ℓ} → (ℕ → Type 0) → Kernel → ExecResult × Kernel × A → Type 0
Ends P k (r, k', s) =
    ((id : ℕ) × (entry : ℕ) × (r ≡ success id) × P entry × Spawned entry k k' id)
    ⊎ ((is_failure (some r) ≡ true) × (k' ≡ k))

Ends-weaken {ℓ} :
    {A : Type ℓ} {P Q : ℕ → Type 0} {k : Kernel}
    → ((entry : ℕ) → P entry → Q entry)
    → (r : ExecResult × Kernel × A) → Ends P k r
    → Ends Q k r
Ends-weaken f r (inl (id, entry, e, p, spawned)) = inl (id, entry, e, f entry p, spawned)
Ends-weaken f r (inr failed) = inr failed

-- The entry point of an ELF file.
abbrev EntryOf : ElfFile → ℕ → Type 0
EntryOf elf entry = entry ≡ elf.header.entry

-- The entry point of the ELF file that the initrd has at a path.
abbrev pub EntryAt : (ℕ → ℕ) → Option Entries → List ℕ → ℕ → Type 0
EntryAt ramdisk es path entry =
    (adr len : ℕ) × (elf : ElfFile) × (open_file es path ≡ ok (some (adr, len)))
    × (parse ramdisk adr len ≡ some elf)
    × (entry ≡ elf.header.entry)

after_eq :
    {A B : Type 0} {P : B → Type 0} (o : Outcome A) (k : A → Outcome B)
    → ((a : A) → o ≡ ok a → Returns P (k a))
    → Returns P (o >>= k)
after_eq panic k h = fails
after_eq (ok a) k h = h a refl

module _ (x : Align) (y : Paging) (z : Indices) (l : Loading) where
  finish-Ends :
      (elf : ElfFile) (k : Kernel) (r : Loaded x y z l)
      → Sane r
      → Returns (Ends (EntryOf elf) k) (finish x y z l elf k r)
  unfolding finish is_failure new_locked new_procstate
  finish-Ends elf k (some e, m, s) (f, all) =
      after_any (drop_mappings m.mappings s.memory.allocator) _ (λ a. returns (inr (f, refl)))
  finish-Ends elf k (none, m, s) (f, all) = returns (
      inl (
        k.idcount + 1,
        elf.header.entry,
        refl,
        refl,
        record {
          counted = refl;
          counter = refl;
          listed = refl;
          named = ground arith;
          waits = ground arith;
          starts = ground arith;
          user =
              subst (λ (t : Task). AllUser t.memory_map)
                (sym (
                  if_hit (k.next_key == k.next_key) _ (k.task k.next_key)
                    (eq_test k.next_key k.next_key refl)))
                all;
          others = λ r ne. ground (arith, ne);
        },
      ))

  exec-Ends :
      (elf : ElfFile) (k : Kernel) (s : Machine x y z l)
      → Returns (Ends (EntryOf elf) k) (exec x y z l elf k s)
  unfolding exec is_failure new_map
  exec-Ends elf k s = after_any (iter_progheader elf) _ (λ (headers, ended).
      after _ (load_all-Sane x y z l elf headers new_map s tt) (λ (e, m, s') sane.
        after {P = Sane} _
          (after_option e (load_stack-Sane x y z l m s' sane.1)
            (λ e' eq. returns (ap is_failure (sym eq) ∙ sane.0, sane.1)))
          (λ r sane'. finish-Ends elf k r sane')))

  exec_raw-Ends :
      (adr len : ℕ) (k : Kernel) (s : Machine x y z l)
      → Returns
          (Ends
            (λ entry.
              (elf : ElfFile) × (parse l.ramdisk adr len ≡ some elf) × (entry ≡ elf.header.entry))
            k)
          (exec_raw x y z l adr len k s)
  unfolding exec_raw is_failure
  exec_raw-Ends adr len k s =
      after_option (parse l.ramdisk adr len) (returns (inr (refl, refl)))
        (λ elf found. weaken (exec-Ends elf k s) (Ends-weaken (λ entry e. (elf, found, e))))

  exec_initrd-Returns :
      (es : Option Entries) (path : List ℕ) (k : Kernel) (s : Machine x y z l)
      → Returns (Ends (EntryAt l.ramdisk es path) k) (exec_initrd x y z l es path k s)
  unfolding exec_initrd is_failure
  exec_initrd-Returns es path k s = after_eq (open_file es path) _ (λ o opened.
      after_option o (returns (inr (refl, refl))) (λ (adr, len) found.
        weaken (exec_raw-Ends adr len k s) (
          Ends-weaken
            (λ entry (elf, parsed, e). (adr, len, elf, opened ∙ ap ok found, parsed, e)))))

  -- Whatever `exec_initrd` returns, either it is a success with the next identifier, and exactly
  -- one task was added, last in the list: it waits, starts at the entry point that the header of
  -- the file at the path has, and has only pages of its own in the lower half of the address space
  -- that it may access; or it is an error, and no task, list or counter has changed.
  pub exec_initrd-Ends :
      (es : Option Entries) (path : List ℕ) (k : Kernel) (s : Machine x y z l) {r : ExecResult}
      {k' : Kernel} {s' : Machine x y z l}
      → exec_initrd x y z l es path k s ≡ ok (r, k', s')
      → Ends (EntryAt l.ramdisk es path) k (r, k', s')
  exec_initrd-Ends es path k s h =
      Returns-ok
        (subst (Returns (Ends (EntryAt l.ramdisk es path) k)) h (exec_initrd-Returns es path k s))
