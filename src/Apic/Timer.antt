-- ===== src/Apic/Timer.antt =====
-- The timer of the local APIC, kernel/src/proc/apic/mod.rs and regmap.rs.
use mathlib.Core.Path.{subst}
use helium_os.Prelude.{
  ℕ, ◌-◌, ◌*◌, ◌/◌, ◌%◌, ◌^◌, ◌≡◌, refl, List, [], ◌∷◌, ltb, leb, ◌==◌, arith, ok, assert,
  checked_sub, Returns, returns, fails, after, after_any, after_test, Returns-ok, weaken,
}
use helium_os.Apic.{
  LocalApicRegisterMap, LocalApicNmiConfig, all, specific, Vectors, periodic, timer_setup,
  timer_reset, lint_setup, setup_lints, program, init, quantum_ms, spurious_setup, error_setup,
}

-- The timer starts to count at `n`.
abbrev Counts : ℕ → LocalApicRegisterMap → Type 0
Counts n r = r.initcountreg ≡ n

lint_setup-Counts :
    (lint flags : ℕ) (r : LocalApicRegisterMap) {n : ℕ}
    → Counts n r
    → Returns (Counts n) (lint_setup lint flags r)
unfolding lint_setup
lint_setup-Counts lint flags r h =
    after_test (lint == 0) (λ e. returns h)
      (λ n. after_test (lint == 1) (λ e. returns h) (λ m. fails))

setup_lints-Counts :
    (id : ℕ) (cs : List LocalApicNmiConfig) (r : LocalApicRegisterMap) {n : ℕ}
    → Counts n r
    → Returns (Counts n) (setup_lints id cs r)
unfolding setup_lints
setup_lints-Counts id [] r h = returns h
setup_lints-Counts id (all lint flags ∷ cs) r h =
    after _ (lint_setup-Counts lint flags r h) (λ r' h'. setup_lints-Counts id cs r' h')
setup_lints-Counts id (specific i lint flags ∷ cs) r h =
    after_test (i == id)
      (λ own. after _ (lint_setup-Counts lint flags r h) (λ r' h'. setup_lints-Counts id cs r' h'))
      (λ foreign. setup_lints-Counts id cs r h)

-- The quantum for a difference, and a timer that counts from it.
abbrev Programmed : ℕ → ℕ × LocalApicRegisterMap → Type 0
Programmed d (quantum, r) = (quantum ≡ d * 10000) × (r.initcountreg ≡ quantum % 2 ^ 32)

program-Programmed :
    (id : ℕ) (configs : List LocalApicNmiConfig) (r : LocalApicRegisterMap) (d : ℕ)
    → Returns (Programmed d) (program id configs r d)
unfolding program timer_reset
program-Programmed id configs r d = after_any (assert (ltb (d * quantum_ms) (2 ^ 64))) _ (λ fits.
    after _ (setup_lints-Counts id configs (timer_reset (d * quantum_ms / 10) r) refl)
      (λ r₂ counts. returns (omega arith, counts)))

init-Programmed :
    (v : Vectors) (id : ℕ) (configs : List LocalApicNmiConfig) (before after_10ms : ℕ)
    (r : LocalApicRegisterMap)
    → Returns (Programmed (before - after_10ms)) (init v id configs before after_10ms r)
unfolding init
init-Programmed v id configs before after_10ms r =
    after_any (timer_setup v.timer periodic 0 (spurious_setup v.spurious (error_setup v.error r))) _
      (λ r₁. after (program id configs r₁) difference (λ d e.
        weaken (program-Programmed id configs r₁ d)
          (λ (quantum, r₂) (q, counts). (omega (arith, q, e), counts))))
  where
    difference : Returns (λ d. d ≡ before - after_10ms) (checked_sub before after_10ms)
    difference = after_test (leb after_10ms before) (λ small. returns refl) (λ large. fails)

-- When `init` returns, the quantum is ten thousand times what the timer went down in
-- the ten milliseconds, but the timer counts from the quantum modulo 2^32.
pub init-quantum :
    (v : Vectors) (id : ℕ) (configs : List LocalApicNmiConfig) (before after_10ms : ℕ)
    (r : LocalApicRegisterMap) {quantum : ℕ} {r' : LocalApicRegisterMap}
    → init v id configs before after_10ms r ≡ ok (quantum, r')
    → (quantum ≡ (before - after_10ms) * 10000) × (r'.initcountreg ≡ quantum % 2 ^ 32)
init-quantum v id configs before after_10ms r h = Returns-ok (
    subst (Returns (Programmed (before - after_10ms))) h
      (init-Programmed v id configs before after_10ms r))
