-- ===== src/Proc/Ignition/Stack.antt =====
-- The stacks of a processor, kernel/src/proc/mod.rs, and its task state segment,
-- kernel/src/mem/gdt.rs.
use native.Mathlib.Nat.{add-mul, lt_of_mul-lt-mul_right, div-add-mod', one-le-pow, mul-le-mul}
use helium_os.Prelude.{
  ℕ, ◌+◌, ◌-◌, ◌*◌, ◌/◌, ◌%◌, ◌^◌, ◌≤◌, ◌<◌, ◌≡◌, inl, inr, ap, sym, ◌∙◌, true, leb, arith, ok,
  Bool-cases,
}
use helium_os.Platform.{Align, Indices}
use helium_os.Proc.Ignition.{Sizes, error_stack_size, nmi_stack, tss, stack}

-- The task state segments lie in the stacks for non-maskable interrupts: where a segment is no longer
-- than such a stack, the segment of each processor begins inside the stack of a processor, with a
-- number that is no greater than its own.
pub tss-nmi_stack :
    (s : Sizes) (id : ℕ)
    → s.tss ≤ error_stack_size
    → (p : ℕ) × (p ≤ id) × (nmi_stack p - error_stack_size ≤ tss s id) × (tss s id < nmi_stack p)
unfolding nmi_stack tss
tss-nmi_stack s id small =
    let less : s.tss * id ≤ error_stack_size * id = mul-le-mul small (omega arith) in
    (s.tss * id / error_stack_size, omega (arith, less), omega arith, omega arith)

-- A multiple of `n` that is not below a number between two multiples, nor `n` above it.
next_multiple :
    (n a v u : ℕ)
    → 0 < n
    → a * n < v
    → v ≤ (a + 1) * n
    → u % n ≡ 0
    → v ≤ u
    → u < v + n
    → u ≡ (a + 1) * n
next_multiple n a v u pos above below whole ge lt =
    let q : ℕ = u / n in
    let parts : q * n ≡ u = omega (arith, div-add-mod' u n, whole) in
    let low : a < q = lt_of_mul-lt-mul_right n (omega (arith, above, ge, parts)) in
    let e : a + 2 ≡ a + 1 + 1 = omega arith in
    let two : (a + 2) * n ≡ (a + 1) * n + n =
      ap (λ k. k * n) e ∙ (add-mul (a + 1) 1 n ∙ omega arith) in
    let high : q < a + 2 = lt_of_mul-lt-mul_right n (omega (arith, below, lt, parts, two)) in
    let same : q ≡ a + 1 = omega (arith, low, high) in sym parts ∙ ap (λ k. k * n) same

-- For stacks of `2 ^ w` bytes, of which a whole number fits the address space, that lie below its
-- top one after the other within its last 128T: from a variable inside the stack of processor `k`,
-- above its lowest address, `stack` finds the top of that stack, which is the address 0 for the
-- first.
pub stack-top :
    (x : Align) (z : Indices) (w n k x_ptr : ℕ)
    → n * 2 ^ w ≡ 2 ^ 64
    → (k + 1) * 2 ^ w ≤ 2 ^ 47
    → 2 ^ 64 - (k + 1) * 2 ^ w < x_ptr
    → x_ptr < 2 ^ 64 - k * 2 ^ w
    → stack x z (2 ^ w) x_ptr ≡ ok ((2 ^ 64 - k * 2 ^ w) % 2 ^ 64)
unfolding stack
stack-top x z w n k x_ptr fills room above below =
    elim (Bool-cases (leb ((2 ^ 64 - 2 ^ w) % 2 ^ 64) x_ptr)) [
      | inl high ↦
          let from : 2 ^ 64 - 2 ^ w ≤ x_ptr = ground (arith, high, pos, more, room) in
          let none_above : k < 1 =
            lt_of_mul-lt-mul_right (2 ^ w) (omega (arith, from, below, more, room)) in
          let zeroth : k ≡ 0 = omega (arith, none_above) in
          let first : k * 2 ^ w ≡ 0 = ap (λ i. i * 2 ^ w) zeroth ∙ omega arith in
          let canonical : z.is_canonical 0 ≡ true = z.is_canonical-low 0 (omega arith) in
          rw (high, canonical) (ap ok (omega (arith, first)))
      | inr low ↦
          let under : x_ptr < 2 ^ 64 - 2 ^ w = ground (arith, low, pos, more, room) in
          let some_above : 0 < k * 2 ^ w = omega (arith, under, above, more, room) in
          let canonical : z.is_canonical (x.align_up x_ptr (2 ^ w)) ≡ true =
            z.is_canonical-high (x.align_up x_ptr (2 ^ w)) (omega (arith, top, room, more))
              (omega (arith, top, some_above)) in
          rw (low, canonical) (ap ok (omega (arith, top, some_above, room, more)))
    ]
  where
    pos : 0 < 2 ^ w
    pos = one-le-pow w 2 (omega arith)

    more : (k + 1) * 2 ^ w ≡ k * 2 ^ w + 2 ^ w
    more = add-mul k 1 (2 ^ w) ∙ omega arith

    fewer : k + 1 < n
    fewer = lt_of_mul-lt-mul_right (2 ^ w) (omega (arith, fills, room))

    below_it : (n - (k + 1)) * 2 ^ w ≡ 2 ^ 64 - (k + 1) * 2 ^ w
    below_it =
        let parts : n - (k + 1) + (k + 1) ≡ n = omega (arith, fewer) in
        omega (arith, fills, add-mul (n - (k + 1)) (k + 1) (2 ^ w), ap (λ i. i * 2 ^ w) parts)

    its_top : (n - (k + 1) + 1) * 2 ^ w ≡ 2 ^ 64 - k * 2 ^ w
    its_top = add-mul (n - (k + 1)) 1 (2 ^ w) ∙ omega (arith, below_it, more, room)

    top : x.align_up x_ptr (2 ^ w) ≡ 2 ^ 64 - k * 2 ^ w
    top =
        next_multiple (2 ^ w) (n - (k + 1)) x_ptr (x.align_up x_ptr (2 ^ w)) pos
          (omega (arith, below_it, above)) (omega (arith, its_top, below)) (x.align_up-mod x_ptr w)
          (x.align_up-ge x_ptr w) (x.align_up-lt x_ptr w)
        ∙ its_top
