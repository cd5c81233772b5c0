-- ===== src/Gate/Email.antt =====
-- NormalizeEmail and IsValidEmail (server/gate/src/service/VerificationService.cc). An address is a list of
-- bytes; the tests on characters are those of the C locale.
use wim.Prelude.{
  Bool, Keyed, List, Option, [], arith, eqb, eqb_iff, false, if◌then◌else◌, leb, length, ltb, map,
  none, not, refl, some, true, ℕ, ◌&&◌, ◌+◌, ◌||◌, ◌∷◌, ◌≡◌,
}
use mathlib.Core.Path.{subst}
use mathlib.Core.List.{reverse}

abbrev pub Email : Type 0
Email = List ℕ

abbrev pub same_bytes : List ℕ → List ℕ → Bool
same_bytes [] [] = true
same_bytes [] (y ∷ ys) = false
same_bytes (x ∷ xs) [] = false
same_bytes (x ∷ xs) (y ∷ ys) = eqb x y && same_bytes xs ys

pub same_bytes→eq : (xs ys : List ℕ) → same_bytes xs ys ≡ true → xs ≡ ys
same_bytes→eq [] [] h = refl
same_bytes→eq [] (y ∷ ys) h = cc
same_bytes→eq (x ∷ xs) [] h = cc
same_bytes→eq (x ∷ xs) (y ∷ ys) h =
    let head : x ≡ y = (eqb_iff x y).0 (ground arith) in
    let tail : xs ≡ ys = same_bytes→eq xs ys (ground arith) in cc (head, tail)

pub same_bytes_refl : (xs : List ℕ) → same_bytes xs xs ≡ true
same_bytes_refl [] = refl
same_bytes_refl (x ∷ xs) = rw ((eqb_iff x x).1 refl, same_bytes_refl xs) refl

instance abbrev pub email_eq : Keyed Email
email_eq = record {
  tests = same_bytes;
  tests_iff =
      λ a b. (same_bytes→eq a b, λ p. subst (λ x. same_bytes a x ≡ true) p (same_bytes_refl a));
}

-- std::isspace
unfoldable pub is_space : ℕ → Bool
is_space b = eqb b 32 || (leb 9 b && leb b 13)

-- std::tolower
unfoldable pub to_lower : ℕ → ℕ
to_lower b = if leb b'A' b && leb b b'Z' then b + 32 else b

unfoldable pub drop_spaces : List ℕ → List ℕ
drop_spaces [] = []
drop_spaces (b ∷ bytes) = let rest = drop_spaces bytes in if is_space b then rest else b ∷ bytes

unfoldable pub normalize_email : Email → Email
normalize_email email = map to_lower (reverse (drop_spaces (reverse (drop_spaces email))))

-- find and rfind: the position of a byte from a position on, and the number of its occurrences.
unfoldable pub find_from : ℕ → ℕ → ℕ → List ℕ → Option ℕ
find_from b from at [] = none
find_from b from at (x ∷ xs) =
    let rest = find_from b from (at + 1) xs in if leb from at && eqb x b then some at else rest

unfoldable pub find_last : ℕ → ℕ → Option ℕ → List ℕ → Option ℕ
find_last b at seen [] = seen
find_last b at seen (x ∷ xs) = find_last b (at + 1) (if eqb x b then some at else seen) xs

-- `find_first_of(" \t\r\n{}") != npos`
unfoldable pub has_forbidden : List ℕ → Bool
has_forbidden [] = false
has_forbidden (b ∷ bytes) =
    (eqb b 32 || eqb b 9 || eqb b 13 || eqb b 10 || eqb b 123 || eqb b 125) || has_forbidden bytes

abbrev pub dot_after : ℕ → List ℕ → Option ℕ → Bool
dot_after at email none = false
dot_after at email (some dot) = ltb (dot + 1) (length email)

abbrev pub one_at : List ℕ → Option ℕ → Option ℕ → Bool
one_at email none last = false
one_at email (some at) none = false
one_at email (some at) (some last) =
    not (eqb at 0)
    && eqb at last
    && leb (at + 3) (length email)
    && dot_after at email (find_from b'.' (at + 2) 0 email)

unfoldable pub is_valid_email : Email → Bool
is_valid_email email =
    not (eqb (length email) 0)
    && leb (length email) 254
    && not (has_forbidden email)
    && one_at email (find_from b'@' 0 0 email) (find_last b'@' 0 none email)
