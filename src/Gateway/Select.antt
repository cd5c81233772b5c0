-- ===== src/Gateway/Select.antt =====
-- The choice at the end of MessageLinkManager::SelectLink, over the healthy links that it gathered.
-- The order of the list is the map's order of iteration, which is not specified.
pub mod Extremes
use wim.Prelude.{Bool, List, Option, [], if◌then◌else◌, ltb, none, some, ℕ, ◌∷◌}

module _ {ℓ} {A : Type ℓ} where
  -- `if (!selected || score > best) { best = score; selected = link; }`
  unfoldable pub pick_highest : (A → ℕ) → Option A → A → A
  pick_highest score none x = x
  pick_highest score (some s) x = if ltb (score s) (score x) then x else s

  unfoldable pub highest : (A → ℕ) → Option A → List A → Option A
  unfolding pick_highest
  highest score selected [] = selected
  highest score selected (x ∷ xs) = highest score (some (pick_highest score selected x)) xs

  -- std::min_element: the first of the smallest.
  unfoldable pub least : (A → ℕ) → A → List A → A
  least key s [] = s
  least key s (x ∷ xs) = least key (if ltb (key x) (key s) then x else s) xs

  unfoldable pub min_element : (A → ℕ) → List A → Option A
  unfolding least
  min_element key [] = none
  min_element key (x ∷ xs) = some (least key x xs)
