-- ===== src/Mapper/Drawn.antt =====
-- Frames in use while the mapper takes frames from the allocator, kernel/src/mem/phys.rs.
use mathlib.Core.Path.{subst}
use mathlib.Core.Bool.{false≢true}
use helium_os.Prelude.{
  ℕ, ◌%◌, ◌≡◌, ◌||◌, ◌==◌, inl, inr, refl, ap, sym, ◌∙◌, true, false, some, arith, ok, Bool-cases,
}
use helium_os.Platform.{Align}
use helium_os.Phys.{Allocator, allocate_frame}
use helium_os.Phys.Valid.{frame_used, IsValid}
use helium_os.Phys.Free.{allocate_frame_correct}
use helium_os.Tables.Insert.Deeper.{Draws, nothing, draw}

module _ (x : Align) where
  -- One frame that the allocator gave.
  pub record Took (a : Allocator) (c : ℕ) (a' : Allocator) : Type 0 where
    pub valid : IsValid x a'.segments
    pub free : frame_used a.segments c ≡ false
    pub used :
        (f : ℕ) → f % 0x1000 ≡ 0 → frame_used a'.segments f ≡ (c == f || frame_used a.segments f)

  pub allocate_frame-Took :
      (a : Allocator) {a' : Allocator} {c : ℕ}
      → IsValid x a.segments
      → allocate_frame x a ≡ ok (some c, a')
      → Took a c a'
  allocate_frame-Took a {a'} {c} v e = elim (allocate_frame_correct x a 0 v refl) [
    | inl (none_left, _) ↦ absurd (ground (arith, e, none_left))
    | inr (c', a₁, e', free, _, v') ↦
        let same : (c' ≡ c) × (a₁ ≡ a') = ground (arith, e, e') in
        record {
          valid = subst (λ (b : Allocator). IsValid x b.segments) same.1 v';
          free = ap (frame_used a.segments) (sym same.0) ∙ free;
          used = λ f w. ground (arith, e, allocate_frame_correct x a f v w);
        }
  ]

  pub Draws-valid :
      {k : ℕ} {a b : Allocator} → Draws x k a b → IsValid x a.segments → IsValid x b.segments
  Draws-valid nothing v = v
  Draws-valid (draw {a = a} e d) v = Draws-valid d (allocate_frame-Took a v e).valid

  -- A frame that is in use stays so.
  pub Draws-used :
      {k : ℕ} {a b : Allocator}
      → Draws x k a b
      → IsValid x a.segments
      → (f : ℕ) → f % 0x1000 ≡ 0
      → frame_used a.segments f ≡ true
      → frame_used b.segments f ≡ true
  Draws-used nothing v f w u = u
  Draws-used (draw {a = a} e d) v f w u =
      let t = allocate_frame-Took a v e in Draws-used d t.valid f w (ground (arith, u, t.used f w))

  -- A frame that is free was free before.
  pub Draws-free :
      {k : ℕ} {a b : Allocator}
      → Draws x k a b
      → IsValid x a.segments
      → (f : ℕ) → f % 0x1000 ≡ 0
      → frame_used b.segments f ≡ false
      → frame_used a.segments f ≡ false
  Draws-free {a = a} d v f w u = elim (Bool-cases (frame_used a.segments f)) [
    | inr free ↦ free
    | inl used ↦ absurd (false≢true (sym u ∙ Draws-used d v f w used))
  ]
