-- ===== src/Mem/Kept.antt =====
-- What the steps of the start of memory management keep, kernel/src/mem/virt/mod.rs.
use mathlib.Core.Path.{subst}
use helium_os.Prelude.{
  ℕ, ◌≤◌, ◌≡◌, inl, inr, refl, ap, sym, ◌∙◌, true, false, ◌&&◌, Option, none, some, ltb, ◌==◌,
  arith, ok, Bool-cases, Returns, returns, after_any, after_option, Returns-ok,
}
use helium_os.Platform.{Align, Paging, Indices}
use helium_os.Phys.{Allocator, allocate_in, allocate_frame}
use helium_os.Vcache.{VCache}
use helium_os.Vcache.Spare.{spare, here, map-Gives}
use helium_os.Tables.Link.{unused_frame}
use helium_os.Tables.Insert.Deeper.{Draws, nothing, draw}
use helium_os.Mapper
use helium_os.Mapper.{Memory, remove_identity}
use helium_os.Mapper.Whole.{IsReady}

-- The allocator gives frames from its segments, and is the same otherwise.
pub record SameHeaders (a b : Allocator) : Type 0 where
  pub size : b.size ≡ a.size
  pub phyframe : b.phyframe ≡ a.phyframe

module _ (x : Align) where
  allocate_frame-SameHeaders :
      (a : Allocator)
      → Returns (λ (r : Option ℕ × Allocator). SameHeaders a r.1) (allocate_frame x a)
  unfolding allocate_frame
  allocate_frame-SameHeaders a = after_any (allocate_in x a.segments) _ (λ o.
      after_option o (returns (record { size = refl; phyframe = refl }))
        (λ (frame, ss) eq. returns (record { size = refl; phyframe = refl })))

  pub Draws-SameHeaders : {k : ℕ} {a b : Allocator} → Draws x k a b → SameHeaders a b
  Draws-SameHeaders nothing = record { size = refl; phyframe = refl }
  Draws-SameHeaders (draw {a = a} {a' = a'} e d) =
      let first : SameHeaders a a' = Returns-ok (
        subst (Returns (λ (r : Option ℕ × Allocator). SameHeaders a r.1)) e
          (allocate_frame-SameHeaders a)) in
      let rest = Draws-SameHeaders d in
      record { size = rest.size ∙ first.size; phyframe = rest.phyframe ∙ first.phyframe }

module _ (x : Align) (y : Paging) (z : Indices) where
  open y use {new_entry, is_unused, frame}

  -- The mapper takes one page of the cache for the root table.
  pub init-IsReady :
      {m : Memory x y z}
      → IsReady x y z m
      → 3 ≤ spare y m.cache
      → (v : VCache y) × (Mapper.init x y z m.root m ≡ ok (record m { cache = v }))
        × IsReady x y z (record m { cache = v })
  unfolding Mapper.init
  init-IsReady {m} r three =
      let (t, j, v, run, g) = map-Gives y r.cache m.root (λ e. omega (arith, e, three)) in
      let one : here y t ≤ 1 = ground arith in
      (
        v,
        rw run refl,
        record {
          level = r.level;
          sound = record { tree = r.sound.tree; valid = r.sound.valid; len = g.valid.tables };
          root_level = r.root_level;
          cache = g.valid;
          spare = omega (arith, g.left, one, three);
        },
      )

  -- Entries that are cleared do not harm the tables.
  pub remove_identity-IsReady :
      {m : Memory x y z} → IsReady x y z m → IsReady x y z (remove_identity x y z m)
  unfolding remove_identity
  remove_identity-IsReady {m} r = record {
    level = r.level;
    sound = record {
      tree = record {
        free = r.sound.tree.free;
        usable = λ f i d l u. elim (Bool-cases ((f == m.root) && ltb i 256)) [
          | inl hit ↦ absurd (ground (arith, hit, u, y.is_unused-new_entry))
          | inr miss ↦
              let same = miss_entry f i miss in
              let (g, e) = r.sound.tree.usable f i d l (ap is_unused (sym same) ∙ u) in
              (g, ap frame same ∙ e)
        ];
        child = λ f i g d l e. r.sound.tree.child f i g d l (old_link f i g e);
        alone = λ f i h k g d e l l' p q.
            r.sound.tree.alone f i h k g d e l l' (old_link f i g p) (old_link h k g q);
      };
      valid = r.sound.valid;
      len = r.sound.len;
    };
    root_level = r.root_level;
    cache = r.cache;
    spare = r.spare;
  }
    where
      cleared : ℕ → ℕ → y.Entry
      cleared = (remove_identity x y z m).tables

      miss_entry : (f i : ℕ) → ((f == m.root) && ltb i 256) ≡ false → cleared f i ≡ m.tables f i
      miss_entry f i e = ground (arith, e)

      hit_entry : (f i : ℕ) → ((f == m.root) && ltb i 256) ≡ true → cleared f i ≡ new_entry
      hit_entry f i e = ground (arith, e)

      old_link : (f i g : ℕ) → frame (cleared f i) ≡ some g → frame (m.tables f i) ≡ some g
      old_link f i g e = elim (Bool-cases ((f == m.root) && ltb i 256)) [
        | inr miss ↦ ap frame (sym (miss_entry f i miss)) ∙ e
        | inl hit ↦
            let gone : frame (cleared f i) ≡ none =
              ap frame (hit_entry f i hit) ∙ unused_frame y new_entry y.is_unused-new_entry in
            absurd (ground (arith, gone, e))
      ]
