-- ===== src/Interrupts/Sleep.antt =====
-- The loop of `pit_calib_sleep`, kernel/src/interrupts/pic.rs.
use mathlib.Core.Path.{subst}
use native.Mathlib.Decide.{ℕ_discrete}
use helium_os.Prelude.{
  ℕ, zero, suc, ◌+◌, ◌-◌, ◌≤◌, ◌<◌, ◌≡◌, ◌⊎◌, inl, inr, refl, ap, sym, ◌∙◌, Bool, true, false, some,
  leb, ltb, if◌then◌else◌, arith, Outcome, ok, panic, checked_sub, ◌&&◌, ◌>>=◌, Bool-cases,
}
use helium_os.Interrupts.{pit_delay, Slept, error, backwards, sleep_loop, pit_calib_sleep}

-- A reading that ends the loop: the counter is above where it started, or the delay is over.
abbrev pub Ends : ℕ → ℕ → Type 0
Ends start reading = (start < reading) ⊎ (reading + pit_delay ≤ start)

-- A reading that does not.
pub record GoesOn (start reading : ℕ) : Type 0 where
  pub counted : reading ≤ start
  pub early : start < reading + pit_delay

-- What the loop comes to at the reading that ends it.
unfoldable pub outcome_at : Bool → ℕ → ℕ → Outcome Slept
outcome_at isvm start reading =
    if ltb start reading
    then (if isvm then ok backwards else panic)
    else ok (error (start - (reading + pit_delay)))

module _ (isvm : Bool) (start : ℕ) (now : ℕ → ℕ) where
  goes_on :
      (n i : ℕ)
      → GoesOn start (now i)
      → sleep_loop (suc n) isvm start now i ≡ sleep_loop n isvm start now (i + 1)
  unfolding sleep_loop
  goes_on n i g =
      let forward : (isvm && ltb start (now i)) ≡ false = ground (arith, g.counted) in
      let sub : checked_sub start (now i) ≡ ok (start - now i) = ground (arith, g.counted) in
      let early : leb pit_delay (start - now i) ≡ false = ground (arith, g.early, g.counted) in
      rw (forward, sub, early) refl

  Ends-here :
      (n i : ℕ)
      → Ends start (now i)
      → sleep_loop (suc n) isvm start now i ≡ some (outcome_at isvm start (now i))
  unfolding sleep_loop outcome_at
  Ends-here n i (inl above) =
      let back : ltb start (now i) ≡ true = ground (arith, above) in
      let sub : checked_sub start (now i) ≡ panic = ground (arith, above) in
      rw (back, sub) (both isvm)
    where
      both :
          (b : Bool)
          → (if b && true then some (ok backwards) else some panic)
            ≡ some (if b then ok backwards else panic)
      both true = refl
      both false = refl
  Ends-here n i (inr over) =
      let forward : (isvm && ltb start (now i)) ≡ false = ground (arith, over) in
      let back : ltb start (now i) ≡ false = ground (arith, over) in
      let sub : checked_sub start (now i) ≡ ok (start - now i) = ground (arith, over) in
      let late : leb pit_delay (start - now i) ≡ true = ground (arith, over) in
      let ticks : start - now i - pit_delay ≡ start - (now i + pit_delay) = omega arith in
      rw (forward, back, sub, late) (ap (λ t. some (ok (error t))) ticks)

  -- Round `k` ends the loop, and the rounds from `i` to it do not.
  sleep_loop-outcome_at :
      (n i k : ℕ)
      → i ≤ k
      → k < i + n
      → ((j : ℕ) → i ≤ j → j < k → GoesOn start (now j))
      → Ends start (now k)
      → sleep_loop n isvm start now i ≡ some (outcome_at isvm start (now k))
  unfolding sleep_loop
  sleep_loop-outcome_at zero i k le lt before ends = absurd (omega (arith, le, lt))
  sleep_loop-outcome_at (suc n) i k le lt before ends = elim (ℕ_discrete i k) [
    | yes e ↦
        subst (λ j. sleep_loop (suc n) isvm start now i ≡ some (outcome_at isvm start (now j))) e
          (Ends-here n i (subst (λ j. Ends start (now j)) (sym e) ends))
    | no ne ↦
        goes_on n i (before i (omega arith) (omega (arith, le, ne)))
        ∙ sleep_loop-outcome_at n (i + 1) k (omega (arith, le, ne)) (omega (arith, lt))
            (λ j a b. before j (omega (arith, a)) b) ends
  ]

  -- If no reading before round `k` is above the first one or as far below it as the delay, and that
  -- of round `k` is, then `pit_calib_sleep` ends there, given more rounds than that. With the delay
  -- over it returns both states of the timer; with a counter above its start it panics, except in a
  -- virtual machine, where it returns the first state and that state less 884248, if that can be
  -- subtracted.
  pub pit_calib_sleep-outcome :
      (rounds k timer_start timer_end : ℕ)
      → k < rounds
      → ((j : ℕ) → j < k → GoesOn start (now j))
      → Ends start (now k)
      → ((now k + pit_delay ≤ start)
          × (pit_calib_sleep rounds isvm start now timer_start timer_end
              ≡ some (ok (timer_start, timer_end))))
        ⊎ ((start < now k)
            × (pit_calib_sleep rounds isvm start now timer_start timer_end
                ≡ some (
                    if isvm && leb 884248 timer_start
                    then ok (timer_start, timer_start - 884248)
                    else panic)))
  unfolding pit_calib_sleep outcome_at
  pit_calib_sleep-outcome rounds k timer_start timer_end lt before ends =
      let run : sleep_loop rounds isvm start now 0 ≡ some (outcome_at isvm start (now k)) =
        sleep_loop-outcome_at rounds 0 k (omega arith) (omega (arith, lt)) (λ j a b. before j b)
          ends in
      elim ends [
        | inr over ↦
            let back : ltb start (now k) ≡ false = ground (arith, over) in
            inl (over, rw (pit_calib_sleep, run) (rw back refl))
        | inl above ↦
            let back : ltb start (now k) ≡ true = ground (arith, above) in
            inr (above, rw (pit_calib_sleep, run) (rw back (escape isvm timer_start timer_end)))
      ]
    where
      escape :
          (b : Bool) (t u : ℕ)
          → some (
              ◌>>=◌ {B = ℕ × ℕ} (if b then ok backwards else panic) (elim [
                | error e ↦ ok (t, u)
                | backwards ↦ checked_sub t 884248 >>= (λ v. ok (t, v))
              ]))
            ≡ some (if b && leb 884248 t then ok (t, t - 884248) else panic)
      escape false t u = refl
      escape true t u = elim (Bool-cases (leb 884248 t)) [
        | inl fits ↦ rw fits refl
        | inr short ↦ rw short refl
      ]
