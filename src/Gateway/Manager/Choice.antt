-- ===== src/Gateway/Manager/Choice.antt =====
-- What SelectLink chooses.
use mathlib.Core.Path.{sym}
use mathlib.Core.Path.{subst}
use mathlib.Core.List.{Memᴰ}
use mathlib.Core.List.Memᴰ
use wim.Prelude.{
  ==_cases, All, All-append, Bool-cases, List, Option, String, [], arith, false, inl, inr, int_eq,
  is_positive, ltb, nat_eq, none, not, refl, some, string_eq, true, ℕ, ℤ, ◌&&◌, ◌++◌, ◌==◌, ◌∷◌,
  ◌≡◌, ◌≢◌, ◌≤◌, ◌⊎◌,
}
use wim.Gateway.Link.{Link}
use wim.Gateway.Manager.{Manager, candidate, candidates, link_score, select_link}
use wim.Gateway.Select.{highest, least, min_element, pick_highest}
use wim.Gateway.Select.Extremes.{highest-max, least-min}
use wim.Prelude.Map.{Map, lookup}

abbrev IsCandidate : Map ℕ Link → ℕ × Link → Type 0
IsCandidate store (address, l) = (lookup address store ≡ some l) × (l.healthy ≡ true)

-- A link that SelectLink may return: a node's of the list, not the excluded one's, and healthy.
abbrev pub IsEligible : Manager → String → String → ℕ × Link → Type 0
IsEligible m excluded node c =
    Memᴰ (node, c.0) m.links
    × (node ≢ excluded)
    × (lookup c.0 m.store ≡ some c.1)
    × (c.1.healthy ≡ true)

module _ (P : ℕ × Link → Type 0) (store : Map ℕ Link) (excluded : String) where
  candidate-All :
      (node : String) (address : ℕ) (o : Option Link)
      → ((l : Link) → o ≡ some l → node ≢ excluded → l.healthy ≡ true → P (address, l))
      → All P (candidate excluded node address o)
  candidate-All node address none f = tt
  candidate-All node address (some l) f = elim (Bool-cases (not (node == excluded) && l.healthy)) [
    | inl fit ↦ rw fit (
      f l refl (λ same. absurd (cc ((string_eq.tests_iff node excluded).1 same, other_node fit)))
          (ground arith),
      tt,
    )
    | inr unfit ↦ rw unfit tt
  ]
    where
      other_node : (not (node == excluded) && l.healthy) ≡ true → node == excluded ≡ false
      other_node fit = ground (arith, fit)

  candidates-All :
      (links : Map String ℕ)
      → ((node : String) (c : ℕ × Link)
          → Memᴰ (node, c.0) links
          → node ≢ excluded
          → lookup c.0 store ≡ some c.1
          → c.1.healthy ≡ true
          → P c)
      → All P (candidates store excluded links)
  unfolding candidates
  candidates-All [] f = tt
  candidates-All ((node, address) ∷ rest) f =
      All-append P (candidate excluded node address (lookup address store))
        (candidates store excluded rest)
        (candidate-All node address (lookup address store)
          (λ l e differs healthy. f node (address, l) (Memᴰ.head refl) differs e healthy))
        (candidates-All rest
          (λ n c listed differs e healthy. f n c (Memᴰ.tail listed) differs e healthy))

  All-split : (xs ys : List (ℕ × Link)) → All P (xs ++ ys) → All P xs × All P ys
  All-split [] ys a = (tt, a)
  All-split (x ∷ xs) ys a = let r = All-split xs ys a.1 in ((a.0, r.0), r.1)

  fitting :
      (node : String) (address : ℕ) (l : Link)
      → All P (candidate excluded node address (some l))
      → node ≢ excluded
      → l.healthy ≡ true
      → P (address, l)
  fitting node address l a differs healthy = elim (==_cases node excluded) [
    | inl (t, same) ↦ absurd (differs same)
    | inr (f, other) ↦
        let fit : (not (node == excluded) && l.healthy) ≡ true = ground (arith, f, healthy) in
        (rw fit at a).0
  ]

  -- A link that fits is among the candidates.
  of_candidates :
      (links : Map String ℕ) (node : String) (c : ℕ × Link)
      → All P (candidates store excluded links)
      → Memᴰ (node, c.0) links
      → node ≢ excluded
      → lookup c.0 store ≡ some c.1
      → c.1.healthy ≡ true
      → P c
  unfolding candidates
  of_candidates [] node c a listed differs e healthy = absurd (Memᴰ.not-nil listed)
  of_candidates ((n, address) ∷ rest) node c a (Memᴰ.head same) differs e healthy =
      let here_first =
        All-split (candidate excluded n address (lookup address store))
          (candidates store excluded rest) a in
      let own : All P (candidate excluded node c.0 (lookup c.0 store)) =
        subst
          (λ (entry : String × ℕ).
            All P (candidate excluded entry.0 entry.1 (lookup entry.1 store)))
          (sym same) here_first.0 in
      fitting node c.0 c.1 (rw e at own) differs healthy
  of_candidates ((n, address) ∷ rest) node c a (Memᴰ.tail listed) differs e healthy =
      of_candidates rest node c
        (All-split (candidate excluded n address (lookup address store))
          (candidates store excluded rest) a).1
        listed differs e healthy

All-map :
    {A : Type 0} {P Q : A → Type 0} → ((x : A) → P x → Q x) → (xs : List A) → All P xs → All Q xs
All-map f [] a = tt
All-map f (x ∷ xs) a = (f x a.0, All-map f xs a.1)

module _ {A : Type 0} (P : A → Type 0) (score : A → ℕ) where
  highest-All : (xs : List A) (s r : A) → P s → All P xs → highest score (some s) xs ≡ some r → P r
  unfolding highest pick_highest
  highest-All [] s r ps a e = let same : s ≡ r = ground arith in subst P same ps
  highest-All (x ∷ xs) s r ps (px, a) e = elim (Bool-cases (ltb (score s) (score x))) [
    | inl up ↦ highest-All xs x r px a (rw up at e)
    | inr down ↦ highest-All xs s r ps a (rw down at e)
  ]

  least-All : (xs : List A) (s : A) → P s → All P xs → P (least score s xs)
  unfolding least
  least-All [] s ps a = ps
  least-All (x ∷ xs) s ps (px, a) = elim (Bool-cases (ltb (score x) (score s))) [
    | inl up ↦ rw up (least-All xs x px a)
    | inr down ↦ rw down (least-All xs s ps a)
  ]

  pub highest_none-All : (xs : List A) (r : A) → All P xs → highest score none xs ≡ some r → P r
  unfolding highest pick_highest
  highest_none-All [] r a e = cc
  highest_none-All (x ∷ xs) r (px, a) e = highest-All xs x r px a e

  pub min_element-All : (xs : List A) (r : A) → All P xs → min_element score xs ≡ some r → P r
  unfolding min_element
  min_element-All [] r a e = cc
  min_element-All (x ∷ xs) r (px, a) e =
      let same : least score x xs ≡ r = ground arith in subst P same (least-All xs x px a)

module _ (hash : String → ℕ) (to_string : ℤ → String) where
  -- How good a choice is beside another link: for a conversation the score counts, and otherwise the load.
  abbrev pub IsBetter : ℤ → ℕ × Link → ℕ × Link → Type 0
  IsBetter conversation x c =
      ((is_positive conversation ≡ true)
        × (link_score hash to_string conversation x ≤ link_score hash to_string conversation c))
      ⊎ ((is_positive conversation ≡ false) × (c.1.inflight ≤ x.1.inflight))

  choose-IsBetter :
      (m : Manager) (conversation : ℤ) (excluded : String) (x : ℕ × Link) (xs : List (ℕ × Link))
      → candidates m.store excluded m.links ≡ x ∷ xs
      → (c : ℕ × Link) × (select_link hash to_string m conversation excluded ≡ some c)
        × All (λ y. IsBetter conversation y c) (x ∷ xs)
  unfolding select_link min_element
  choose-IsBetter m conversation excluded x xs e = elim (Bool-cases (is_positive conversation)) [
    | inl positive ↦
        let h = highest-max (link_score hash to_string conversation) x xs in
        (
          h.0,
          rw (positive, select_link, e) h.1,
          All-map (λ y better. inl (positive, better)) (x ∷ xs) h.2,
        )
    | inr not_positive ↦
        let h = least-min (λ (c : ℕ × Link). c.1.inflight) xs x in
        (
          least (λ c. c.1.inflight) x xs,
          rw (not_positive, select_link, e),
          All-map (λ y better. inr (not_positive, better)) (x ∷ xs) h,
        )
  ]

  select_link-IsEligible :
      (m : Manager) (conversation : ℤ) (excluded : String) (c : ℕ × Link)
      → select_link hash to_string m conversation excluded ≡ some c
      → (node : String) × IsEligible m excluded node c
  unfolding select_link
  select_link-IsEligible m conversation excluded c e =
      let all : All (λ c. (node : String) × IsEligible m excluded node c)
          (candidates m.store excluded m.links) =
        candidates-All (λ c. (node : String) × IsEligible m excluded node c) m.store excluded
          m.links
          (λ node c listed differs found healthy. (node, (listed, differs, found, healthy))) in
      elim (Bool-cases (is_positive conversation)) [
        | inl positive ↦
            highest_none-All (λ c. (node : String) × IsEligible m excluded node c)
              (link_score hash to_string conversation) (candidates m.store excluded m.links) c all
              (rw positive at e)
        | inr not_positive ↦
            min_element-All (λ c. (node : String) × IsEligible m excluded node c)
              (λ x. x.1.inflight) (candidates m.store excluded m.links) c all (rw not_positive at e)
      ]

  -- The link that SelectLink returns is one of the store's, and is healthy.
  pub select_link-IsCandidate :
      (m : Manager) (conversation : ℤ) (excluded : String) (c : ℕ × Link)
      → select_link hash to_string m conversation excluded ≡ some c
      → IsCandidate m.store c
  select_link-IsCandidate m conversation excluded c e =
      let (node, (listed, differs, found, healthy)) =
        select_link-IsEligible m conversation excluded c e in
      (found, healthy)

  -- Where the node list has a healthy link of a node that is not excluded, SelectLink returns a link, which
  -- is also a healthy one of a node of the list that is not excluded, and is at least as good as that
  -- link: by the score for a conversation with a positive id, and otherwise by the commands in flight.
  pub select_link-IsBetter :
      (m : Manager) (conversation : ℤ) (excluded node : String) (x : ℕ × Link)
      → IsEligible m excluded node x
      → (c : ℕ × Link) × (select_link hash to_string m conversation excluded ≡ some c)
        × ((chosen : String) × IsEligible m excluded chosen c)
        × IsBetter conversation x c
  select_link-IsBetter m conversation excluded node x (listed, differs, found, healthy) =
      go (candidates m.store excluded m.links) refl
    where
      go :
          (cs : List (ℕ × Link))
          → candidates m.store excluded m.links ≡ cs
          → (c : ℕ × Link) × (select_link hash to_string m conversation excluded ≡ some c)
            × ((chosen : String) × IsEligible m excluded chosen c)
            × IsBetter conversation x c
      go [] e = absurd (
          of_candidates (λ y. ⊥) m.store excluded m.links node x (rw e tt) listed differs found
            healthy)
      go (y ∷ ys) e =
          let h = choose-IsBetter m conversation excluded y ys e in
          (
            h.0,
            h.1,
            select_link-IsEligible m conversation excluded h.0 h.1,
            of_candidates (λ y. IsBetter conversation y h.0) m.store excluded m.links node x
                (rw e h.2) listed differs found healthy,
          )
