-- ===== src/Mapper/Below.antt =====
-- Where the headers of the segments lie after an allocation, kernel/src/mem/phys.rs.
use mathlib.Core.Path.{subst}
use helium_os.Prelude.{
  ℕ, ◌<◌, not, ◌==◌, Option, none, some, List, [], ◌∷◌, All, assert, Returns, returns, after,
  after_any, after_option, Returns-ok,
}
use helium_os.Platform.{Align}
use helium_os.Word.Ones.{trailing_ones}
use helium_os.Phys.{
  Segment, Allocator, check, find_word, allocate_page, allocate_in, allocate_frame,
}
use helium_os.Tables.Insert.Deeper.{Draws, nothing, draw}

-- Every header lies below an address.
abbrev pub Below : ℕ → List Segment → Type 0
Below n = All (λ s. s.ptr < n)

abbrev GivesPage : ℕ → Option (ℕ × Segment) → Type 0
GivesPage n none = Unit
GivesPage n (some (frame, s)) = s.ptr < n

abbrev GivesIn : ℕ → Option (ℕ × List Segment) → Type 0
GivesIn n none = Unit
GivesIn n (some (frame, ss)) = Below n ss

abbrev Leaves : ℕ → Option ℕ × Allocator → Type 0
Leaves n (frame, a) = Below n a.segments

module _ (x : Align) (n : ℕ) where
  allocate_page-GivesPage : (s : Segment) → s.ptr < n → Returns (GivesPage n) (allocate_page x s)
  unfolding allocate_page
  allocate_page-GivesPage s low = after_any (check s) _ (λ marked.
      after_option (find_word 0 s.bitmap) (returns tt) (λ (i, w) found.
        after_any (assert (not (trailing_ones 64 w == 64))) _ (λ room. returns low)))

  allocate_in-GivesIn : (ss : List Segment) → Below n ss → Returns (GivesIn n) (allocate_in x ss)
  unfolding allocate_in
  allocate_in-GivesIn [] low = returns tt
  allocate_in-GivesIn (s ∷ ss) low = after _ (allocate_page-GivesPage s low.0) (λ o page.
      after_option o
        (after _ (allocate_in-GivesIn ss low.1) (λ r rest.
          after_option r (returns tt)
            (λ (frame, ss') eq. returns (low.0, subst (GivesIn n) eq rest))))
        (λ (frame, s') eq. returns (subst (GivesPage n) eq page, low.1)))

  allocate_frame-Leaves :
      (a : Allocator) → Below n a.segments → Returns (Leaves n) (allocate_frame x a)
  unfolding allocate_frame
  allocate_frame-Leaves a low = after _ (allocate_in-GivesIn a.segments low) (λ o given.
      after_option o (returns low) (λ (frame, ss) eq. returns (subst (GivesIn n) eq given)))

  pub Draws-Below :
      {k : ℕ} {a b : Allocator} → Draws x k a b → Below n a.segments → Below n b.segments
  Draws-Below nothing low = low
  Draws-Below (draw {a = a} {a' = a'} e d) low =
      Draws-Below d (Returns-ok (subst (Returns (Leaves n)) e (allocate_frame-Leaves a low)))
