-- ===== src/Tables/Insert/Deeper.antt =====
-- One level of the descent that `map` of kernel/src/mem/virt/mapper.rs makes for a page.
use mathlib.Core.Path.{subst}
use native.Mathlib.Decide.{ℕ_discrete}
use helium_os.Prelude.{
  ℕ, suc, ◌+◌, ◌≤◌, ◌<◌, ◌≡◌, ◌≢◌, ◌⊎◌, inl, inr, refl, ap, sym, ◌∙◌, Option, none, some, List, [],
  ◌∷◌, length, arith, Option-cases, ok,
}
use helium_os.Platform.{Align, Paging, Flags}
use helium_os.Phys.{Allocator, allocate_frame}
use helium_os.Phys.Valid.{IsValid}
use helium_os.Tables.{Tables, walk}
use helium_os.Tables.Link.{IsTree}

-- `k` frames were taken from the allocator.
pub data Draws (x : Align) : ℕ → Allocator → Allocator → Type 0 where
  nothing : {a : Allocator} → Draws x 0 a a
  draw :
      {k c : ℕ} {a b a' : Allocator}
      → allocate_frame x a ≡ ok (some c, a')
      → Draws x k a' b
      → Draws x (suc k) a b

-- No more than `n` frames were taken.
abbrev pub DrawsFew : Align → ℕ → Allocator → Allocator → Type 0
DrawsFew x n a b = (k : ℕ) × (k ≤ n) × Draws x k a b

pub Draws-then :
    {x : Align} {k l : ℕ} {a b c : Allocator} → Draws x k a b → Draws x l b c → Draws x (k + l) a c
Draws-then {x} {l = l} {a = a} {c = c} nothing e = subst (λ n. Draws x n a c) (omega arith) e
Draws-then {x} {l = l} {a = a} {c = c} (draw {k = k} h d) e =
    subst (λ n. Draws x n a c) (omega arith) (draw h (Draws-then d e))

pub DrawsFew-trans :
    {x : Align} {m n : ℕ} {a b c : Allocator}
    → DrawsFew x m a b
    → DrawsFew x n b c
    → DrawsFew x (m + n) a c
DrawsFew-trans (k, le, d) (l, le', e) = (k + l, omega (arith, le, le'), Draws-then d e)

module _ (y : Paging) where
  open y use {Entry, is_unused, flags, frame}

  -- The rest of a walk, from the table that an entry leads to.
  abbrev pub descend : List ℕ → Tables y → Option ℕ → Option (ℕ × Flags)
  descend q t o = elim o [ none ↦ none | some g ↦ walk y q g t ]

  pub walk-descend :
      (i j : ℕ) (js : List ℕ) (f : ℕ) (t : Tables y)
      → walk y (i ∷ j ∷ js) f t ≡ descend (j ∷ js) t (frame (t f i))
  unfolding walk
  walk-descend i j js f t = refl

  -- A walk reads tables of the levels that it passes, and no others.
  pub walk-agree :
      {level : ℕ → ℕ} {t t₁ : Tables y} {a : Allocator} (n : ℕ)
      → IsTree y level t a
      → ((h k : ℕ) → level h ≢ 0 → level h ≤ n → t₁ h k ≡ t h k)
      → (q : List ℕ) (h : ℕ) → level h ≡ length q
      → length q ≤ n
      → walk y q h t₁ ≡ walk y q h t
  unfolding walk
  walk-agree n tree same [] h l le = refl
  walk-agree {level} {t} {t₁} n tree same (i ∷ []) h l le =
      let e : t₁ h i ≡ t h i = same h i (λ z. omega (arith, l, z)) (omega (arith, l, le)) in
      ap (λ (p : Entry). elim (frame p) [ none ↦ none | some g ↦ some (g, flags p) ]) e
  walk-agree {level} {t} {t₁} n tree same (i ∷ j ∷ js) h l le =
      let e : t₁ h i ≡ t h i = same h i (λ z. omega (arith, l, z)) (omega (arith, l, le)) in
      ap (λ (p : Entry). descend (j ∷ js) t₁ (frame p)) e ∙ elim (Option-cases (frame (t h i))) [
        | inl f ↦ ap (descend (j ∷ js) t₁) f ∙ sym (ap (descend (j ∷ js) t) f)
        | inr (g, f) ↦
            ap (descend (j ∷ js) t₁) f
            ∙ (walk-agree n tree same (j ∷ js) g (tree.child h i g (length js) l f)
                  (omega (arith, le))
                ∙ sym (ap (descend (j ∷ js) t) f))
      ]

  -- The tables once entry `i` of `f` leads to a table `g`, new or not.
  pub record Ready (x : Align) (level : ℕ → ℕ) (t : Tables y) (a : Allocator) (f i g d : ℕ)
      (level₁ : ℕ → ℕ) (t₁ : Tables y) (a₁ : Allocator) : Type 0 where
    pub drew : DrawsFew x 1 a a₁
    pub tree : IsTree y level₁ t₁ a₁
    pub at_level : level f ≡ suc (suc d)
    pub link : frame (t₁ f i) ≡ some g
    pub kept : (h : ℕ) → level h ≢ 0 → level₁ h ≡ level h
    pub same : (h k : ℕ) → level h ≢ 0 → (f ≢ h) ⊎ (i ≢ k) → t₁ h k ≡ t h k
    pub under : (j : ℕ) (js : List ℕ) → walk y (j ∷ js) g t₁ ≡ descend (j ∷ js) t (frame (t f i))

  -- What mapping a page below `f` has done.
  pub record Inserted (x : Align) (found : ℕ × Flags) (level : ℕ → ℕ) (t : Tables y) (a : Allocator)
      (path : List ℕ) (f : ℕ) (t' : Tables y) (a' : Allocator) : Type 0 where
    pub drew : DrawsFew x (length path) a a'
    pub level' : ℕ → ℕ
    pub tree : IsTree y level' t' a'
    pub valid : IsValid x a'.segments
    pub kept : (h : ℕ) → level h ≢ 0 → level' h ≡ level h
    pub above : (h k : ℕ) → level f < level h → t' h k ≡ t h k
    pub mapped : walk y path f t' ≡ some found
    pub other : (q : List ℕ) → length q ≡ length path → q ≢ path → walk y q f t' ≡ walk y q f t
    pub apart :
        (h : ℕ) (q : List ℕ)
        → level h ≡ level f
        → h ≢ f
        → length q ≡ length path
        → walk y q h t' ≡ walk y q h t

  module _ {x : Align} {found : ℕ × Flags} {level level₁ : ℕ → ℕ} {t t₁ t' : Tables y}
      {a a₁ a' : Allocator} {f i g : ℕ} (j : ℕ) (js : List ℕ) (before : IsTree y level t a)
      (r : Ready x level t a f i g (length js) level₁ t₁ a₁)
      (ins : Inserted x found level₁ t₁ a₁ (j ∷ js) g t' a') where
    g_level : level₁ g ≡ suc (length js)
    g_level =
        r.tree.child f i g (length js) (r.kept f (λ z. omega (arith, z, r.at_level)) ∙ r.at_level)
          r.link

    -- The tables above the child are as they were once the child was there.
    row_kept : (h k : ℕ) → level f ≤ level h → t' h k ≡ t₁ h k
    row_kept h k le =
        let same : level₁ h ≡ level h = r.kept h (λ z. omega (arith, z, le, r.at_level)) in
        ins.above h k (omega (arith, g_level, same, le, r.at_level))

    -- A walk that does not begin with the link is as it was.
    elsewhere :
        (h i' j' : ℕ) (js' : List ℕ)
        → level h ≡ level f
        → (f ≢ h) ⊎ (i ≢ i')
        → length js' ≡ length js
        → walk y (i' ∷ j' ∷ js') h t' ≡ walk y (i' ∷ j' ∷ js') h t
    elsewhere h i' j' js' l ne len =
        let high : level h ≡ suc (suc (length js)) = l ∙ r.at_level in
        let nonzero : level h ≢ 0 = λ z. omega (arith, z, high) in
        let entry : t' h i' ≡ t h i' = row_kept h i' (omega (arith, l)) ∙ r.same h i' nonzero ne in
        walk-descend i' j' js' h t'
        ∙ (ap (λ (p : Entry). descend (j' ∷ js') t' (frame p)) entry
            ∙ (rest nonzero high entry (Option-cases (frame (t h i')))
                ∙ sym (walk-descend i' j' js' h t)))
      where
        f_level₁ : level₁ f ≡ suc (suc (length js))
        f_level₁ = r.kept f (λ z. omega (arith, z, r.at_level)) ∙ r.at_level

        not_link : (f ≡ h) × (i ≡ i') → ⊥
        not_link (p, q) = elim ne [ inl n ↦ n p | inr n ↦ n q ]

        below_same : (b k : ℕ) → level b ≢ 0 → level b ≤ suc (length js) → t₁ b k ≡ t b k
        below_same b k nz le =
            r.same b k nz (inl (λ eq. omega (arith, le, r.at_level, ap level eq)))

        rest :
            level h ≢ 0
            → level h ≡ suc (suc (length js))
            → t' h i' ≡ t h i'
            → (frame (t h i') ≡ none) ⊎ ((g' : ℕ) × (frame (t h i') ≡ some g'))
            → descend (j' ∷ js') t' (frame (t h i')) ≡ descend (j' ∷ js') t (frame (t h i'))
        rest nonzero high entry (inl e) =
            ap (descend (j' ∷ js') t') e ∙ sym (ap (descend (j' ∷ js') t) e)
        rest nonzero high entry (inr (g', e)) =
            let linked : frame (t₁ h i') ≡ some g' = ap frame (r.same h i' nonzero ne) ∙ e in
            let l₁ : level₁ h ≡ suc (suc (length js)) = r.kept h nonzero ∙ high in
            let child : level g' ≡ suc (length js) = before.child h i' g' (length js) high e in
            let child₁ : level₁ g' ≡ suc (length js) =
              r.kept g' (λ z. omega (arith, z, child)) ∙ child in
            let apart : g' ≢ g = λ eq. not_link (
              r.tree.alone f i h i' g (length js) (length js) f_level₁ l₁ r.link
                (linked ∙ ap some eq)) in
            ap (descend (j' ∷ js') t') e
            ∙ (ins.apart g' (j' ∷ js') (child₁ ∙ sym g_level) apart (omega (arith, len))
                ∙ (walk-agree (suc (length js)) before below_same (j' ∷ js') g'
                      (omega (arith, child, len)) (omega (arith, len))
                    ∙ sym (ap (descend (j' ∷ js') t) e)))

    -- A walk that begins with the link goes on below the child.
    through :
        (j' : ℕ) (js' : List ℕ)
        → length js' ≡ length js
        → walk y (i ∷ j' ∷ js') f t' ≡ walk y (j' ∷ js') g t'
    through j' js' len =
        walk-descend i j' js' f t'
        ∙ ap (descend (j' ∷ js') t') (ap frame (row_kept f i (omega arith)) ∙ r.link)

    pub deeper : Inserted x found level t a (i ∷ j ∷ js) f t' a'
    deeper = record {
      drew = widened (DrawsFew-trans r.drew ins.drew);
      level' = ins.level';
      tree = ins.tree;
      valid = ins.valid;
      kept = λ h nz. ins.kept h (λ z. nz (sym (r.kept h nz) ∙ z)) ∙ r.kept h nz;
      above = λ h k lt.
          row_kept h k (omega (arith, lt))
          ∙ r.same h k (λ z. omega (arith, z, lt)) (inl (λ eq. omega (arith, lt, ap level eq)));
      mapped = through j js refl ∙ ins.mapped;
      other = others;
      apart = λ h q l ne len. aparts h q l ne len;
    }
      where
        widened : DrawsFew x (1 + suc (length js)) a a' → DrawsFew x (suc (suc (length js))) a a'
        widened (k, le, d) = (k, omega (arith, le), d)

        others :
            (q : List ℕ)
            → length q ≡ suc (suc (length js))
            → q ≢ (i ∷ j ∷ js)
            → walk y q f t' ≡ walk y q f t
        others [] len ne = absurd (omega (arith, len))
        others (i' ∷ []) len ne = absurd (omega (arith, len))
        others (i' ∷ j' ∷ js') len ne = elim (ℕ_discrete i i') [
          | no n ↦ elsewhere f i' j' js' refl (inr n) (omega (arith, len))
          | yes same ↦
              let tails : (j' ∷ js') ≢ (j ∷ js) =
                λ e. ne (ap (λ p. p ∷ j' ∷ js') (sym same) ∙ ap (λ q. i ∷ q) e) in
              ap (λ p. walk y (p ∷ j' ∷ js') f t') (sym same)
              ∙ (through j' js' (omega (arith, len))
                  ∙ (ins.other (j' ∷ js') (omega (arith, len)) tails
                      ∙ (r.under j' js'
                          ∙ (sym (walk-descend i j' js' f t)
                              ∙ ap (λ p. walk y (p ∷ j' ∷ js') f t) same))))
        ]

        aparts :
            (h : ℕ) (q : List ℕ)
            → level h ≡ level f
            → h ≢ f
            → length q ≡ suc (suc (length js))
            → walk y q h t' ≡ walk y q h t
        aparts h [] l ne len = absurd (omega (arith, len))
        aparts h (i' ∷ []) l ne len = absurd (omega (arith, len))
        aparts h (i' ∷ j' ∷ js') l ne len =
            elsewhere h i' j' js' l (inl (λ e. ne (sym e))) (omega (arith, len))
