-- ===== src/Phys/Init/Place.antt =====
-- Where `phys::init` puts the headers, and what comes of the whole function.
use helium_os.Prelude.{ℕ, ◌+◌, ◌-◌, ◌≤◌, ◌⊎◌, List, ◌∷◌}
use helium_os.Platform.{Align}
use helium_os.Phys.Init.{Region}

-- The headers' pages hold nothing of the region.
abbrev pub ClearOf : ℕ → ℕ → Region → Type 0
ClearOf at need r = (at + need ≤ r.address) ⊎ (r.address + r.size ≤ at)

module _ (x : Align) where
  -- The search takes the first pages of one region, and leaves the others.
  data Takes (need : ℕ) : List Region → ℕ → List Region → Type 0 where
    here :
        (r : Region) (rs : List Region)
        → need ≤ r.size
        → Takes need
            (r ∷ rs)
            r.address
            (record { address = r.address + need; size = r.size - need } ∷ rs)
    there :
        (r : Region) {rs rs' : List Region} {at : ℕ}
        → Takes need rs at rs'
        → Takes need (r ∷ rs) at (r ∷ rs')
