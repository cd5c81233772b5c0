-- ===== src/Store/Sync/Rows.antt =====
-- The rows that a page is cut from: in a conversation without gaps they come in ascending order.
use mathlib.Core.Path.{subst}
use wim.Prelude.{
  All, All-append, Bool-cases, List, [], arith, if_elim, inl, inr, int_eq, leb, ltb, nat_eq, refl,
  string_eq, suc, sym, zero, ℕ, ℤ, ◌&&◌, ◌++◌, ◌+◌, ◌<◌, ◌==◌, ◌∷◌, ◌≡◌, ◌≤◌,
}
use wim.Gateway.Session.Reliable.{left}
use wim.Store.{MessageRow}
use wim.Store.History.Sequence.{seqs, upto}
use wim.Store.Sync.{insert_by_seq, order_by_seq, rows_between}

-- Each number lies above the one before it.
abbrev Rising : ℕ → List ℕ → Type 0
Rising lo [] = Unit
Rising lo (x ∷ xs) = (lo < x) × Rising x xs

abbrev pub Above : ℕ → List MessageRow → Type 0
Above lo [] = Unit
Above lo (m ∷ ms) = (lo < m.conversation_seq) × Above m.conversation_seq ms

Rising-append :
    (lo : ℕ) (xs : List ℕ) (y : ℕ)
    → Rising lo xs
    → All (λ x. x < y) xs
    → lo < y
    → Rising lo (xs ++ (y ∷ []))
Rising-append lo [] y r a h = (h, tt)
Rising-append lo (x ∷ xs) y r a h = (r.0, Rising-append x xs y r.1 a.1 a.0)

All-lt_trans : (a b : ℕ) (xs : List ℕ) → a ≤ b → All (λ x. x < a) xs → All (λ x. x < b) xs
All-lt_trans a b [] h v = tt
All-lt_trans a b (x ∷ xs) h v = (omega (arith, h, v.0), All-lt_trans a b xs h v.1)

upto-below : (n : ℕ) → All (λ x. x < n + 1) (upto n)
upto-below zero = tt
upto-below (suc n) =
    All-append (λ x. x < suc n + 1) (upto n) (suc n ∷ [])
      (All-lt_trans (n + 1) (suc n + 1) (upto n) (omega arith) (upto-below n)) (omega arith, tt)

upto-Rising : (n : ℕ) → Rising 0 (upto n)
upto-Rising zero = tt
upto-Rising (suc n) =
    Rising-append 0 (upto n) (suc n) (upto-Rising n)
      (All-lt_trans (n + 1) (suc n) (upto n) (omega arith) (upto-below n)) (omega arith)

Above-weaken : (lo hi : ℕ) (ms : List MessageRow) → lo ≤ hi → Above hi ms → Above lo ms
Above-weaken lo hi [] h a = tt
Above-weaken lo hi (m ∷ ms) h a = (omega (arith, h, a.0), a.1)

rows_between-Above :
    (k : ℤ) (after left lo : ℕ) (ms : List MessageRow)
    → Rising lo (seqs k ms)
    → Above lo (rows_between k after left ms)
unfolding rows_between
rows_between-Above k after left lo [] r = tt
rows_between-Above k after left lo (m ∷ ms) r = elim (Bool-cases (m.conversation_id == k)) [
  | inr other ↦ rw other (rows_between-Above k after left lo ms (rw other at r))
  | inl own ↦
      let q : Rising lo (m.conversation_seq ∷ seqs k ms) = rw own at r in
      let rest = rows_between-Above k after left m.conversation_seq ms q.1 in
      rw own (
        if_elim (Above lo) (ltb after m.conversation_seq && leb m.conversation_seq left)
          (λ _. (q.0, rest)) (λ _. Above-weaken lo m.conversation_seq _ (omega (arith, q.0)) rest))
]

insert_by_seq-Above :
    (m : MessageRow) (ms : List MessageRow)
    → Above m.conversation_seq ms
    → insert_by_seq m ms ≡ m ∷ ms
unfolding insert_by_seq
insert_by_seq-Above m [] a = refl
insert_by_seq-Above m (n ∷ ms) a = ground (arith, a.0)

order_by_seq-Above : (lo : ℕ) (ms : List MessageRow) → Above lo ms → order_by_seq ms ≡ ms
unfolding order_by_seq
order_by_seq-Above lo [] a = refl
order_by_seq-Above lo (m ∷ ms) a =
    rw (order_by_seq-Above m.conversation_seq ms a.1) (insert_by_seq-Above m ms a.1)

rows_between-beyond :
    (k : ℤ) (after left : ℕ) (ms : List MessageRow)
    → All (λ m. after < m.conversation_seq) (rows_between k after left ms)
unfolding rows_between
rows_between-beyond k after left [] = tt
rows_between-beyond k after left (m ∷ ms) = ground (arith, rows_between-beyond k after left ms)

Above-head :
    (lo hi : ℕ) (ms : List MessageRow)
    → Above lo ms
    → All (λ m. hi < m.conversation_seq) ms
    → Above hi ms
Above-head lo hi [] a h = tt
Above-head lo hi (m ∷ ms) a h = (h.0, a.1)

-- In a conversation numbered without gaps the order of insertion is the order of the numbers.
module _ (k : ℤ) (after left latest : ℕ) (ms : List MessageRow)
    (dense : seqs k ms ≡ upto latest) where
  pub rows_between_sorted : Above after (rows_between k after left ms)
  rows_between_sorted =
      Above-head 0 after _
        (rows_between-Above k after left 0 ms (subst (Rising 0) (sym dense) (upto-Rising latest)))
        (rows_between-beyond k after left ms)

  pub order_by_seq-rows_between :
      order_by_seq (rows_between k after left ms) ≡ rows_between k after left ms
  order_by_seq-rows_between = order_by_seq-Above after _ rows_between_sorted
