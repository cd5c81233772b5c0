-- ===== src/Gateway/Select/Extremes.antt =====
-- The choice by score is maximal, the choice by load minimal.
use wim.Prelude.{All, List, [], arith, if◌then◌else◌, ltb, none, refl, some, ℕ, ◌∷◌, ◌≡◌, ◌≤◌}
use wim.Gateway.Select.{highest, least, pick_highest}

module _ {A : Type 0} (score : A → ℕ) where
  -- The score of the choice is the largest, whatever leads at the start.
  highest-max_lem :
      (xs : List A) (s : A)
      → (r : A) × (highest score (some s) xs ≡ some r)
        × (score s ≤ score r)
        × All (λ x. score x ≤ score r) xs
  unfolding highest pick_highest
  highest-max_lem [] s = (s, refl, omega arith, tt)
  highest-max_lem (x ∷ xs) s =
      let ih = highest-max_lem xs (pick_highest score (some s) x) in
      (ih.0, ih.1, ground (arith, ih.2), (ground (arith, ih.2), ih.3))

  pub highest-max :
      (x : A) (xs : List A)
      → (r : A) × (highest score none (x ∷ xs) ≡ some r) × All (λ y. score y ≤ score r) (x ∷ xs)
  unfolding highest pick_highest
  highest-max x xs = let m = highest-max_lem xs x in (m.0, m.1, (m.2, m.3))

  pub least-min :
      (xs : List A) (s : A)
      → (score (least score s xs) ≤ score s) × All (λ x. score (least score s xs) ≤ score x) xs
  unfolding least
  least-min [] s = (omega arith, tt)
  least-min (x ∷ xs) s =
      let ih = least-min xs (if ltb (score x) (score s) then x else s) in
      (ground (arith, ih.0), (ground (arith, ih.0), ih.1))
