-- ===== src/Wire/Word.antt =====
-- 32-bit words in network byte order, as `htonl` and `ntohl` lay them out in memory.
use wim.Prelude.{
  ℕ, ◌+◌, ◌*◌, ◌/◌, ◌%◌, ◌^◌, ◌<◌, ◌≡◌, refl, List, [], ◌∷◌, ◌++◌, Option, none, some, arith, ltb,
  ◌&&◌, if◌then◌else◌, length,
}

-- The bytes of a `uint32_t`, the most significant first.
unfoldable pub be32 : ℕ → List ℕ
be32 n = n / 2 ^ 24 % 256 ∷ n / 2 ^ 16 % 256 ∷ n / 2 ^ 8 % 256 ∷ n % 256 ∷ []

-- The word that four bytes stand for, and what follows them.
unfoldable pub read_be32 : List ℕ → Option (ℕ × List ℕ)
read_be32 (a ∷ b ∷ c ∷ d ∷ rest) =
    if ltb a 256 && ltb b 256 && ltb c 256 && ltb d 256
    then some (a * 2 ^ 24 + b * 2 ^ 16 + c * 2 ^ 8 + d, rest)
    else none
read_be32 _ = none

pub length-be32 : (n : ℕ) → length (be32 n) ≡ 4
unfolding be32
length-be32 n = refl

pub read_be32-be32 :
    (n : ℕ) (rest : List ℕ) → n < 2 ^ 32 → read_be32 (be32 n ++ rest) ≡ some (n, rest)
unfolding read_be32 be32
read_be32-be32 n rest h = ground arith

bytes_of :
    (a b c d : ℕ) (rest : List ℕ)
    → a < 256
    → b < 256
    → c < 256
    → d < 256
    → be32 (a * 2 ^ 24 + b * 2 ^ 16 + c * 2 ^ 8 + d) ++ rest ≡ a ∷ b ∷ c ∷ d ∷ rest
unfolding be32
bytes_of a b c d rest ha hb hc hd = ground arith

pub be32-read_be32 :
    (bytes : List ℕ) (n : ℕ) (rest : List ℕ)
    → read_be32 bytes ≡ some (n, rest)
    → (bytes ≡ be32 n ++ rest) × (n < 2 ^ 32)
unfolding read_be32
be32-read_be32 (a ∷ b ∷ c ∷ d ∷ r) n rest h = ground (arith, bytes_of a b c d r)
be32-read_be32 _ n rest h = cc
