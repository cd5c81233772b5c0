-- ===== src/Prelude/Keys.antt =====
-- Equality tests as an interface: the ids of the program are numbers, signed numbers and texts.
use Prim.Native.Nat.{ℕ}
use Prim.Native.String.{String}
use mathlib.Core.Path.{◌≡◌, refl}
use mathlib.Core.Logic.{◌↔◌, ◌⊎◌, ◌≢◌, inl, inr}
use mathlib.Core.Bool.{Bool, true, false}
use text.Mathlib.Text.{◌==◌ as str_eq}
use text.Mathlib.TextEquality.{eq_iff}
use wim.Prelude.Tests.{eqb, eqb_iff, Bool-cases}
use wim.Prelude.Int.{ℤ, eqb_ℤ, eqb_ℤ_iff}

pub record Keyed {ℓ} (A : Type ℓ) : Type ℓ where
  pub tests : A → A → Bool
  pub tests_iff : (a b : A) → (tests a b ≡ true) ↔ (a ≡ b)

instance abbrev pub int_eq : Keyed ℤ
int_eq = record { tests = eqb_ℤ; tests_iff = eqb_ℤ_iff }

instance abbrev pub string_eq : Keyed String
string_eq = record { tests = str_eq; tests_iff = eq_iff }

instance abbrev pub nat_eq : Keyed ℕ
nat_eq = record { tests = eqb; tests_iff = eqb_iff }

infix 50 ◌==◌
abbrev pub ◌==◌ {ℓ} : {A : Type ℓ} ⦃keys : Keyed A⦄ → A → A → Bool
◌==◌ ⦃keys⦄ = keys.tests

module _ {ℓ} {A : Type ℓ} ⦃e : Keyed A⦄ where
  pub ==_refl : (a : A) → (a == a) ≡ true
  ==_refl a = (e.tests_iff a a).1 refl

  pub ==→eq : (a b : A) → (a == b) ≡ true → a ≡ b
  ==→eq a b h = (e.tests_iff a b).0 h

  pub ==_cases : (a b : A) → (((a == b) ≡ true) × (a ≡ b)) ⊎ (((a == b) ≡ false) × (a ≢ b))
  ==_cases a b = elim (Bool-cases (a == b)) [
    | inl t ↦ inl (t, ==→eq a b t)
    | inr f ↦ inr (f, λ p. cc ((e.tests_iff a b).1 p, f))
  ]

-- std::string::empty, QString::isEmpty
abbrev pub is_empty : String → Bool
is_empty s = s == ""
