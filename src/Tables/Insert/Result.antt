-- ===== src/Tables/Insert/Result.antt =====
-- The whole descent of `map` of kernel/src/mem/virt/mapper.rs, by induction on the path.
use helium_os.Prelude.{
  ℕ, suc, ◌+◌, ◌≤◌, ◌<◌, ◌≡◌, ◌≢◌, ◌⊎◌, inl, inr, refl, ap, sym, ◌∙◌, true, false, ◌&&◌, none, some,
  List, [], ◌∷◌, length, ◌==◌, arith, Bool-cases, Outcome, ok, panic,
}
use helium_os.Platform.{Align, Paging, Flags}
use helium_os.Phys.{Allocator, allocate_frame}
use helium_os.Phys.Valid.{IsValid}
use helium_os.Phys.Free.{allocate_frame_correct}
use helium_os.Vcache.{update₂}
use helium_os.Vcache.Cells.{update₂_hit, update₂_miss, both_tests, first_test, both_eq}
use helium_os.Tables.{Tables, walk, insert, grow}
use helium_os.Tables.Link.{IsTree, unused_frame, grow_new, grow_made, grow_other}
use helium_os.Tables.Fresh.{relevel, Given, gives-Given, grow-IsTree}
use helium_os.Tables.Insert.Deeper.{
  Draws, Draws-then, nothing, draw, DrawsFew, Ready, Inserted, deeper, descend,
}

-- The allocator ran out of frames after no more than `n`.
pub record Exhausted (x : Align) (n : ℕ) (a : Allocator) : Type 0 where
  pub drawn : ℕ
  pub few : drawn < n
  pub last : Allocator
  pub draws : Draws x drawn a last
  pub refused : allocate_frame x last ≡ ok (none, last)

-- The frames that were taken before count too.
pub Exhausted-after :
    {x : Align} {p n w : ℕ} {a b : Allocator}
    → p + n ≤ w
    → DrawsFew x p a b
    → Exhausted x n b
    → Exhausted x w a
Exhausted-after le (k, few, d) e = record {
  drawn = k + e.drawn;
  few = omega (arith, le, few, e.few);
  last = e.last;
  draws = Draws-then d e.draws;
  refused = e.refused;
}

module _ (x : Align) (y : Paging) (fl lf : Flags) (leaf : y.Entry → y.Entry) (phys : ℕ)
    (present : fl.present ≡ true) (leaf_frame : (e : y.Entry) → y.frame (leaf e) ≡ some phys)
    (leaf_flags : (e : y.Entry) → y.flags (leaf e) ≡ lf) where
  open y use {Entry, new_entry, is_unused, flags, frame, set_frame}

  -- A page was mapped, or the allocator ran out of frames for new tables and the kernel panics.
  abbrev pub Ends :
      (ℕ → ℕ) → Tables y → Allocator → List ℕ → ℕ → Outcome (Tables y × Allocator) → Type 0
  Ends level t a path f o =
      ((o ≡ panic) × Exhausted x (length path) a)
      ⊎ ((t' : Tables y) × (a' : Allocator) × (o ≡ ok (t', a'))
          × Inserted y x (phys, lf) level t a path f t' a')

  module _ {level : ℕ → ℕ} {t : Tables y} {a : Allocator} (f i : ℕ)
      (tree : IsTree y level t a) where
    last_same : (h k : ℕ) (e : Entry) → (f ≢ h) ⊎ (i ≢ k) → update₂ t f i e h k ≡ t h k
    last_same h k e ne = elim (Bool-cases ((f == h) && (i == k))) [
      | inl hit ↦ elim ne [
        | inl n ↦ absurd (n (both_eq f i h k hit).0)
        | inr n ↦ absurd (n (both_eq f i h k hit).1)
      ]
      | inr miss ↦ update₂_miss t f i e h k miss
    ]

    -- A write to a table of the last level keeps the shape.
    last-IsTree : (e : Entry) → level f ≡ 1 → IsTree y level (update₂ t f i e) a
    last-IsTree e l =
        let high : (h k d : ℕ) → level h ≡ suc (suc d) → update₂ t f i e h k ≡ t h k =
          λ h k d m. last_same h k e (inl (λ eq. omega (arith, l, m, ap level eq))) in
        record {
          free = tree.free;
          usable = λ h k d m u.
              let (g, p) = tree.usable h k d m (ap is_unused (sym (high h k d m)) ∙ u) in
              (g, ap frame (high h k d m) ∙ p);
          child = λ h k g d m p. tree.child h k g d m (ap frame (sym (high h k d m)) ∙ p);
          alone = λ h k h' k' g d d' m m' p p'.
              tree.alone h k h' k' g d d' m m' (ap frame (sym (high h k d m)) ∙ p)
                (ap frame (sym (high h' k' d' m')) ∙ p');
        }

    last-walk :
        (e : Entry) (h k : ℕ)
        → (f ≢ h) ⊎ (i ≢ k)
        → walk y (k ∷ []) h (update₂ t f i e) ≡ walk y (k ∷ []) h t
    unfolding walk
    last-walk e h k ne =
        ap (λ (p : Entry). elim (frame p) [ none ↦ none | some g ↦ some (g, flags p) ])
          (last_same h k e ne)

    last-Inserted :
        level f ≡ 1
        → IsValid x a.segments
        → Inserted y x (phys, lf) level t a (i ∷ []) f (update₂ t f i (leaf (t f i))) a
    unfolding walk
    last-Inserted l v =
        let entry : update₂ t f i (leaf (t f i)) f i ≡ leaf (t f i) =
          update₂_hit t f i (leaf (t f i)) f i (both_tests f i) in
        record {
          drew = (0, omega arith, nothing);
          level' = level;
          tree = last-IsTree (leaf (t f i)) l;
          valid = v;
          kept = λ h nz. refl;
          above =
              λ h k lt. last_same h k (leaf (t f i)) (inl (λ eq. omega (arith, lt, ap level eq)));
          mapped =
              ap (λ (p : Entry). elim (frame p) [ none ↦ none | some g ↦ some (g, flags p) ]) entry
              ∙ (ap (λ o. elim o [ none ↦ none | some g ↦ some (g, flags (leaf (t f i))) ])
                    (leaf_frame (t f i))
                  ∙ ap (λ (p : Flags). some (phys, p)) (leaf_flags (t f i)));
          other = others;
          apart = aparts;
        }
      where
        others :
            (q : List ℕ)
            → length q ≡ 1
            → q ≢ (i ∷ [])
            → walk y q f (update₂ t f i (leaf (t f i))) ≡ walk y q f t
        others [] len ne = absurd (omega (arith, len))
        others (k ∷ []) len ne =
            last-walk (leaf (t f i)) f k (inr (λ e. ne (ap (λ p. p ∷ []) (sym e))))
        others (k ∷ m ∷ ms) len ne = absurd (omega (arith, len))

        aparts :
            (h : ℕ) (q : List ℕ)
            → level h ≡ level f
            → h ≢ f
            → length q ≡ 1
            → walk y q h (update₂ t f i (leaf (t f i))) ≡ walk y q h t
        aparts h [] l' ne len = absurd (omega (arith, len))
        aparts h (k ∷ []) l' ne len = last-walk (leaf (t f i)) h k (inl (λ e. ne (sym e)))
        aparts h (k ∷ m ∷ ms) l' ne len = absurd (omega (arith, len))

    empty_walk :
        (t₁ : Tables y) (c : ℕ)
        → ((k : ℕ) → frame (t₁ c k) ≡ none)
        → (j : ℕ) (js : List ℕ) → walk y (j ∷ js) c t₁ ≡ none
    unfolding walk
    empty_walk t₁ c h j [] =
        ap (λ o. elim o [ none ↦ none | some g ↦ some (g, flags (t₁ c j)) ]) (h j)
    empty_walk t₁ c h j (k ∷ ks) = ap (descend y (k ∷ ks) t₁) (h j)

    -- An entry that is in use leads to the next table.
    used-Ready :
        {g d : ℕ}
        → level f ≡ suc (suc d)
        → frame (t f i) ≡ some g
        → Ready y x level t a f i g d level t a
    used-Ready l e = record {
      drew = (0, omega arith, nothing);
      tree = tree;
      at_level = l;
      link = e;
      kept = λ h nz. refl;
      same = λ h k nz ne. refl;
      under = λ j js. sym (ap (descend y (j ∷ js) t) e);
    }

    -- An entry that is not in use gets a new table.
    fresh-Ready :
        {c d : ℕ} {a' : Allocator}
        → level f ≡ suc (suc d)
        → allocate_frame x a ≡ ok (some c, a')
        → Given x y level a c a'
        → is_unused (t f i) ≡ true
        → Ready y x level t a f i c d (relevel level c (suc d)) (grow y t f i c fl) a'
    fresh-Ready {c} {d} l e given u = record {
      drew = (1, omega arith, draw e nothing);
      tree = grow-IsTree x y f i d fl tree given present l u;
      at_level = l;
      link =
          ap frame (grow_made y t f i c fl c_not_f)
          ∙ y.frame-set_frame new_entry c fl given.whole present;
      kept = λ h nz. ground (arith, nz, given.fresh);
      same = λ h k nz ne.
          grow_other y t f i c fl h k (λ eq. nz (ap level (sym eq) ∙ given.fresh)) (tests h k ne);
      under = λ j js. empty j js ∙ sym (ap (descend y (j ∷ js) t) (unused_frame y (t f i) u));
    }
      where
        c_not_f : c ≢ f
        c_not_f eq = absurd (omega (arith, l, given.fresh, ap level eq))

        tests : (h k : ℕ) → (f ≢ h) ⊎ (i ≢ k) → ((f == h) && (i == k)) ≡ false
        tests h k (inl n) = first_test i k n
        tests h k (inr n) = ground (arith, n)

        empty : (j : ℕ) (js : List ℕ) → walk y (j ∷ js) c (grow y t f i c fl) ≡ none
        empty j js =
            empty_walk (grow y t f i c fl) c
              (λ k.
                ap frame (grow_new y t f i c fl k) ∙ unused_frame y new_entry y.is_unused-new_entry)
              j js

  -- A descent goes on below a child.
  Ready-Ends :
      {level level₁ : ℕ → ℕ} {t t₁ : Tables y} {a a₁ : Allocator} {f i g j : ℕ} {js : List ℕ}
      {o o' : Outcome (Tables y × Allocator)}
      → o ≡ o'
      → IsTree y level t a
      → Ready y x level t a f i g (length js) level₁ t₁ a₁
      → (Exhausted x (suc (length js)) a₁ → Exhausted x (suc (suc (length js))) a)
      → Ends level₁ t₁ a₁ (j ∷ js) g o'
      → Ends level t a (i ∷ j ∷ js) f o
  Ready-Ends same tree ready more (inl (e, out)) = inl (same ∙ e, more out)
  Ready-Ends {j = j} {js = js} same tree ready more (inr (t', a', e, ins)) =
      inr (t', a', same ∙ e, deeper y j js tree ready ins)

  Exhausted-wider : {n : ℕ} {a : Allocator} → Exhausted x n a → Exhausted x (suc n) a
  Exhausted-wider e = record {
    drawn = e.drawn;
    few = omega (arith, e.few);
    last = e.last;
    draws = e.draws;
    refused = e.refused;
  }

  Exhausted-draw :
      {n c : ℕ} {a a' : Allocator}
      → allocate_frame x a ≡ ok (some c, a')
      → Exhausted x n a'
      → Exhausted x (suc n) a
  Exhausted-draw given e = record {
    drawn = suc e.drawn;
    few = omega (arith, e.few);
    last = e.last;
    draws = draw given e.draws;
    refused = e.refused;
  }

  -- Below a table of the level of the path's length, `insert` either panics, because the allocator
  -- refuses a frame for a table that the path lacks, or maps the page: the walk for the path finds
  -- the new entry, every other walk of that length, from that table or any other of its level,
  -- finds what it found before, and tables and allocator stay well formed.
  pub insert-Ends :
      (path : List ℕ) (f : ℕ) {level : ℕ → ℕ} {t : Tables y} {a : Allocator}
      → level f ≡ length path
      → 0 < length path
      → IsTree y level t a
      → IsValid x a.segments
      → Ends level t a path f (insert y x fl leaf path f t a)
  unfolding insert
  insert-Ends [] f l p tree v = absurd (omega (arith, p))
  insert-Ends (i ∷ []) f {level} {t} {a} l p tree v = inr (_, a, refl, last-Inserted f i tree l v)
  insert-Ends (i ∷ j ∷ js) f {level} {t} {a} l p tree v = elim (Bool-cases (is_unused (t f i))) [
    | inr u ↦
        let (g, e) = tree.usable f i (length js) l u in
        Ready-Ends (rw (u, e) refl) tree (used-Ready f i tree l e) Exhausted-wider
          (insert-Ends (j ∷ js) g (tree.child f i g (length js) l e) (omega arith) tree v)
    | inl u ↦ elim (allocate_frame_correct x a 0 v refl) [
      | inl (e, full) ↦ inl (
        rw (u, e) refl,
        record { drawn = 0; few = omega arith; last = a; draws = nothing; refused = e },
      )
      | inr (c, a₁, e, free, used, v₁) ↦
          let given : Given x y level a c a₁ = gives-Given x y tree v e in
          let ready = fresh-Ready f i tree l e given u in
          Ready-Ends (rw (u, e) refl) tree ready (Exhausted-draw e)
            (insert-Ends (j ∷ js) c (ground arith) (omega arith) ready.tree v₁)
    ]
  ]
