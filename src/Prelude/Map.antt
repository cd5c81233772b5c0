-- ===== src/Prelude/Map.antt =====
-- std::unordered_map and QHash: an association list with one entry for a key. The program never
-- relies on the order of iteration; here it is the order of the list.
use mathlib.Core.Path.{◌≡◌}
use mathlib.Core.Path.{refl, subst}
use mathlib.Core.Logic.{inl, inr}
use Prim.Native.Nat.{ℕ, ◌+◌}
use mathlib.Core.Option.{Option, none, some}
use mathlib.Core.List.{List, [], ◌∷◌}
use native.Mathlib.Omega.{arith}
use wim.Prelude.{int_eq, nat_eq, string_eq}
use wim.Prelude.Keys.{==_refl, Keyed, ◌==◌}
use wim.Prelude.Tests.{Bool-cases, if◌then◌else◌}

abbrev pub Map {ℓ κ} : Type ℓ → Type κ → Type (ℓ ⊔ κ)
Map K V = List (K × V)

module _ {ℓ κ} {K : Type ℓ} {V : Type κ} ⦃e : Keyed K⦄ where
  -- find
  unfoldable pub lookup : K → Map K V → Option V
  lookup k [] = none
  lookup k ((j, v) ∷ m) = if j == k then some v else lookup k m

  unfoldable pub erase : K → Map K V → Map K V
  erase k [] = []
  erase k ((j, v) ∷ m) = let rest = erase k m in if j == k then rest else (j, v) ∷ rest

  -- m[k] = v
  unfoldable pub insert : K → V → Map K V → Map K V
  unfolding erase
  insert k v m = (k, v) ∷ erase k m

  pub lookup-erase :
      (k j : K) (m : Map K V) → lookup j (erase k m) ≡ (if k == j then none else lookup j m)
  unfolding lookup erase
  lookup-erase k j [] = ground arith
  lookup-erase k j ((i, v) ∷ m) =
      ground (arith, lookup-erase k j m, e.tests_iff i k, e.tests_iff i j, e.tests_iff k j)

  pub lookup-insert :
      (k j : K) (v : V) (m : Map K V)
      → lookup j (insert k v m) ≡ (if k == j then some v else lookup j m)
  unfolding lookup insert
  lookup-insert k j v m = ground (arith, lookup-erase k j m)

pub lookup_inserted {ℓ κ} :
    {K : Type ℓ} {V : Type κ} ⦃e : Keyed K⦄ (k : K) (v : V) (m : Map K V)
    → lookup k (insert k v m) ≡ some v
lookup_inserted k v m = rw (lookup-insert k k v m, ==_refl k) refl

-- No key stands twice.
abbrev pub Distinct {ℓ κ} : {K : Type ℓ} {V : Type κ} ⦃e : Keyed K⦄ → Map K V → Type κ
Distinct [] = Unit
Distinct ((k, v) ∷ m) = (lookup k m ≡ none) × Distinct m

abbrev pub sum_by {ℓ κ} : {K : Type ℓ} {V : Type κ} → (V → ℕ) → Map K V → ℕ
sum_by f [] = 0
sum_by f ((k, v) ∷ m) = f v + sum_by f m

abbrev pub AllValues {ℓ κ μ} : {K : Type ℓ} {V : Type κ} → (V → Type μ) → Map K V → Type μ
AllValues P [] = Unit
AllValues P ((k, v) ∷ m) = P v × AllValues P m

module _ {ℓ κ} {K : Type ℓ} {V : Type κ} ⦃e : Keyed K⦄ where
  pub erase-absent : (k : K) (m : Map K V) → lookup k m ≡ none → erase k m ≡ m
  unfolding lookup erase
  erase-absent k [] h = refl
  erase-absent k ((j, v) ∷ m) h = ground (arith, erase-absent k m)

  pub Distinct-erase : (k : K) (m : Map K V) → Distinct m → Distinct (erase k m)
  unfolding erase
  Distinct-erase k [] d = tt
  Distinct-erase k ((j, v) ∷ m) d = ground (arith, Distinct-erase k m d.1, lookup-erase k j m)

  pub Distinct-insert : (k : K) (v : V) (m : Map K V) → Distinct m → Distinct (insert k v m)
  unfolding insert
  Distinct-insert k v m d = (rw (lookup-erase k k m, ==_refl k), Distinct-erase k m d)

  module _ (f : V → ℕ) where
    pub sum_by-erase :
        (k : K) (v : V) (m : Map K V)
        → Distinct m
        → lookup k m ≡ some v
        → sum_by f m ≡ f v + sum_by f (erase k m)
    unfolding lookup erase
    sum_by-erase k v [] d h = cc
    sum_by-erase k v ((j, w) ∷ m) d h =
        ground (arith, sum_by-erase k v m d.1, erase-absent k m, e.tests_iff j k)

    pub sum_by-insert_new :
        (k : K) (v : V) (m : Map K V)
        → lookup k m ≡ none
        → sum_by f (insert k v m) ≡ f v + sum_by f m
    unfolding insert
    sum_by-insert_new k v m h = rw (erase-absent k m h)

    pub sum_by-insert_same :
        (k : K) (v w : V) (m : Map K V)
        → Distinct m
        → lookup k m ≡ some w
        → sum_by f (insert k v m) + f w ≡ f v + sum_by f m
    unfolding insert
    sum_by-insert_same k v w m d h = omega (arith, sum_by-erase k w m d h)

  module _ {μ} (P : V → Type μ) where
    pub AllValues-lookup : (k : K) {v : V} (m : Map K V) → AllValues P m → lookup k m ≡ some v → P v
    unfolding lookup
    AllValues-lookup k [] a h = cc
    AllValues-lookup k {v} ((j, w) ∷ m) a h = elim (Bool-cases (j == k)) [
      | inl hit ↦ let same : w ≡ v = ground arith in subst P same a.0
      | inr miss ↦ AllValues-lookup k m a.1 (rw miss at h)
    ]

    pub AllValues-erase : (k : K) (m : Map K V) → AllValues P m → AllValues P (erase k m)
    unfolding erase
    AllValues-erase k [] a = tt
    AllValues-erase k ((j, w) ∷ m) a = elim (Bool-cases (j == k)) [
      | inl hit ↦ rw hit (AllValues-erase k m a.1)
      | inr miss ↦ rw miss (a.0, AllValues-erase k m a.1)
    ]

    pub AllValues-insert :
        (k : K) (v : V) (m : Map K V) → P v → AllValues P m → AllValues P (insert k v m)
    unfolding insert
    AllValues-insert k v m p a = (p, AllValues-erase k m a)
