-- ===== src/Proc/Sched/Select.antt =====
-- The search of `tick` for a task to run.
use helium_os.Prelude.{
  ℕ, zero, suc, ◌+◌, ◌≤◌, ◌<◌, ◌≡◌, ◌⊎◌, inl, inr, refl, ap, ◌∙◌, Bool, true, false, ◌&&◌, none,
  some, List, [], ◌∷◌, All, ltb, if◌then◌else◌, get_elem?, arith, Bool-cases,
}
use helium_os.Proc.{Task}
use helium_os.Proc.Sched.{is_pending, Best, consider, select}

module _ (task : ℕ → Task) (try_write : ℕ → Bool) where
  -- A task that the search does not skip.
  abbrev pub is_eligible : ℕ → Bool
  is_eligible r = try_write r && is_pending (task r).state

  abbrev pub priority : ℕ → ℕ
  priority r = (task r).priority

  -- No eligible task of the list has a higher priority.
  abbrev pub IsMax : ℕ → List ℕ → Type 0
  IsMax r = All (λ s. (is_eligible s ≡ false) ⊎ (priority s ≤ priority r))

  IsMax-mono : (r s : ℕ) (rs : List ℕ) → priority r ≤ priority s → IsMax r rs → IsMax s rs
  IsMax-mono r s [] h m = tt
  IsMax-mono r s (t ∷ rs) h m = (ground (arith, m.0), IsMax-mono r s rs h m.1)

  -- Once a task was found, its index stays, and only a higher priority replaces the task.
  record Kept (b r : ℕ) (rs : List ℕ) : Type 0 where
    eligible : is_eligible r ≡ true
    above : priority b ≤ priority r
    first : (r ≡ b) ⊎ ((m : ℕ) × (priority b < priority r) × (get_elem? rs m ≡ some r))
    max : IsMax r rs

  select_step :
      (i r : ℕ) (rs : List ℕ) (best : Best)
      → select task try_write i (r ∷ rs) best
        ≡ select task try_write (i + 1) rs (if is_eligible r then consider task i r best else best)
  unfolding select
  select_step i r rs best = ap (select task try_write (i + 1) rs) (ground arith)

  replaced :
      (i s j b : ℕ)
      → (is_eligible s && ltb (priority b) (priority s)) ≡ true
      → (if is_eligible s then consider task i s (some (j, b)) else some (j, b)) ≡ some (j, s)
  unfolding consider
  replaced i s j b h = ground arith

  kept :
      (i s j b : ℕ)
      → (is_eligible s && ltb (priority b) (priority s)) ≡ false
      → (if is_eligible s then consider task i s (some (j, b)) else some (j, b)) ≡ some (j, b)
  unfolding consider
  kept i s j b h = ground arith

  select-some :
      (i j b : ℕ) (rs : List ℕ)
      → is_eligible b ≡ true
      → (r : ℕ) × (select task try_write i rs (some (j, b)) ≡ some (j, r)) × Kept b r rs
  select-some i j b [] e = (
    b,
    unfold select in refl,
    record { eligible = e; above = omega arith; first = inl refl; max = tt },
  )
  select-some i j b (s ∷ rs) e =
      elim (Bool-cases (is_eligible s && ltb (priority b) (priority s))) [
        | inl h ↦
            let (r, f, k) = select-some (i + 1) j s rs (ground arith) in
            (
              r,
              select_step i s rs (some (j, b))
                  ∙ (ap (select task try_write (i + 1) rs) (replaced i s j b h) ∙ f),
              record {
                eligible = k.eligible;
                above = ground (arith, k.above);
                first = elim k.first [
                  | inl same ↦ inr (0, ground (arith, same), rw same refl)
                  | inr (m, lt, g) ↦ inr (suc m, ground (arith, lt), g)
                ];
                max = (inr k.above, k.max);
              },
            )
        | inr h ↦
            let (r, f, k) = select-some (i + 1) j b rs e in
            (
              r,
              select_step i s rs (some (j, b))
                  ∙ (ap (select task try_write (i + 1) rs) (kept i s j b h) ∙ f),
              record {
                eligible = k.eligible;
                above = k.above;
                first = elim k.first [ inl same ↦ inl same | inr (m, lt, g) ↦ inr (suc m, lt, g) ];
                max = (ground (arith, k.above), k.max);
              },
            )
      ]

  found :
      (i s : ℕ)
      → is_eligible s ≡ true
      → (if is_eligible s then consider task i s none else none) ≡ some (i, s)
  unfolding consider
  found i s h = ground arith

  skipped :
      (i s : ℕ)
      → is_eligible s ≡ false
      → (if is_eligible s then consider task i s none else none) ≡ none
  skipped i s h = ground arith

  -- No task of the first `n` of the list is eligible.
  abbrev pub NoneBefore : ℕ → List ℕ → Type 0
  NoneBefore n rs = (m t : ℕ) → m < n → get_elem? rs m ≡ some t → is_eligible t ≡ false

  NoneBefore-more :
      (s n : ℕ) (rs : List ℕ)
      → is_eligible s ≡ false
      → NoneBefore n rs
      → NoneBefore (suc n) (s ∷ rs)
  NoneBefore-more s n rs e h zero t lt g = let same : s ≡ t = ground (arith, g) in rw (← same) e
  NoneBefore-more s n rs e h (suc m) t lt g = h m t (omega (arith, lt)) g

  -- The outcome of the whole search: no task is eligible, or the task it gives is eligible, none
  -- that is eligible has a higher priority, and the index is that of the first eligible task.
  pub record Chosen (i index r : ℕ) (rs : List ℕ) : Type 0 where
    pub offset : ℕ
    pub place : index ≡ i + offset
    pub first : ℕ
    pub listed : get_elem? rs offset ≡ some first
    pub waits : is_eligible first ≡ true
    pub none_before : NoneBefore offset rs
    pub eligible : is_eligible r ≡ true
    pub same_or_above :
        (r ≡ first) ⊎ ((m : ℕ) × (priority first < priority r) × (get_elem? rs m ≡ some r))
    pub max : IsMax r rs

  pub select_cases :
      (i : ℕ) (rs : List ℕ)
      → ((select task try_write i rs none ≡ none) × All (λ r. is_eligible r ≡ false) rs)
        ⊎ ((index r : ℕ) × (select task try_write i rs none ≡ some (index, r))
            × Chosen i index r rs)
  select_cases i [] = inl (unfold select in refl, tt)
  select_cases i (s ∷ rs) = elim (Bool-cases (is_eligible s)) [
    | inl e ↦
        let (r, f, k) = select-some (i + 1) i s rs e in
        inr (
          i,
          r,
          select_step i s rs none ∙ (ap (select task try_write (i + 1) rs) (found i s e) ∙ f),
          record {
            offset = 0;
            place = omega arith;
            first = s;
            listed = refl;
            waits = e;
            none_before = λ m t lt. absurd (omega (arith, lt));
            eligible = k.eligible;
            same_or_above = elim k.first [
              | inl same ↦ inl same
              | inr (m, lt, g) ↦ inr (suc m, lt, g)
            ];
            max = (inr k.above, k.max);
          },
        )
    | inr e ↦
        let step =
          select_step i s rs none ∙ ap (select task try_write (i + 1) rs) (skipped i s e) in
        elim (select_cases (i + 1) rs) [
          | inl (f, all) ↦ inl (step ∙ f, (e, all))
          | inr (index, r, f, c) ↦ inr (
            index,
            r,
            step ∙ f,
            record {
              offset = suc c.offset;
              place = omega (arith, c.place);
              first = c.first;
              listed = c.listed;
              waits = c.waits;
              none_before = NoneBefore-more s c.offset rs e c.none_before;
              eligible = c.eligible;
              same_or_above = elim c.same_or_above [
                | inl same ↦ inl same
                | inr (m, lt, g) ↦ inr (suc m, lt, g)
              ];
              max = (inl e, c.max);
            },
          )
        ]
  ]
