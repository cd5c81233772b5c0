-- ===== src/Gateway/Manager/Commands/Conservation.antt =====
-- No callback is lost, and none runs twice.
use wim.Prelude.{
  List, Option, Option-cases, String, [], ap, arith, if◌then◌else◌, inl, inr, int_eq, nat_eq, none,
  refl, some, string_eq, ℕ, ◌++◌, ◌+◌, ◌==◌, ◌∷◌, ◌≡◌,
}
use wim.Gateway.Frames.{CommandResult}
use wim.Gateway.Manager.{Manager, PendingCommand}
use wim.Gateway.Manager.Commands.{abandon_pending, abandoned, call, failure, finish}
use wim.Prelude.Map.{
  Distinct, Distinct-erase, Distinct-insert, Map, insert, lookup, sum_by, sum_by-erase,
  sum_by-insert_same,
}
use wim.Protocol.{ErrorCodes}
use wim.Wire.Packet.{Protobuf}

abbrev pub owes : ℕ → Option ℕ → ℕ
owes t none = 0
owes t (some c) = if c == t then 1 else 0

-- How often the callback `t` waits in the map, and how often it has run.
abbrev pub waiting : ℕ → Map String PendingCommand → ℕ
waiting t pending = sum_by (λ p. owes t p.callback) pending

abbrev pub ran : ℕ → List (ℕ × CommandResult) → ℕ
ran t [] = 0
ran t ((c, result) ∷ calls) = (if c == t then 1 else 0) + ran t calls

abbrev pub balance : ℕ → Manager → ℕ
balance t m = waiting t m.pending + ran t m.calls

ran-append : (t : ℕ) (xs ys : List (ℕ × CommandResult)) → ran t (xs ++ ys) ≡ ran t xs + ran t ys
ran-append t [] ys = omega arith
ran-append t ((c, r) ∷ xs) ys = omega (arith, ran-append t xs ys)

ran-call : (t : ℕ) (c : Option ℕ) (r : CommandResult) → ran t (call c r) ≡ owes t c
ran-call t none r = refl
ran-call t (some c) r = omega arith

pub finish-balance :
    (t : ℕ) (id : String) (result : PendingCommand → CommandResult) (m : Manager)
    → Distinct m.pending
    → (balance t (finish id result m) ≡ balance t m) × Distinct (finish id result m).pending
unfolding finish
finish-balance t id result m d = elim (Option-cases (lookup id m.pending)) [
  | inl e ↦ rw (e, finish) (refl, d)
  | inr (p, e) ↦
      rw (e, finish)
        (
          omega (
            arith,
            sum_by-erase (λ (q : PendingCommand). owes t q.callback) id p m.pending d e,
            ran-append t m.calls (call p.callback (result p)),
            ran-call t p.callback (result p),
          ),
          Distinct-erase id m.pending d,
        )
]

pub update-balance :
    (t : ℕ) (id : String) (p q : PendingCommand) (m : Map String PendingCommand)
    → Distinct m
    → lookup id m ≡ some p
    → q.callback ≡ p.callback
    → (waiting t (insert id q m) ≡ waiting t m) × Distinct (insert id q m)
update-balance t id p q m d e same = (
  omega (
    arith,
    sum_by-insert_same (λ (x : PendingCommand). owes t x.callback) id q p m d e,
    ap (owes t) same,
  ),
  Distinct-insert id q m d,
)

pub abandon-balance :
    (t : ℕ) (m : Manager) (pb : Protobuf)
    → (balance t (abandon_pending pb m) ≡ balance t m) × Distinct (abandon_pending pb m).pending
unfolding abandon_pending
abandon-balance t m pb =
    (omega (arith, ran-append t m.calls (abandoned pb m.pending), ran-abandoned m.pending), tt)
  where
    ran-abandoned :
        (pending : Map String PendingCommand) → ran t (abandoned pb pending) ≡ waiting t pending
    ran-abandoned [] = refl
    ran-abandoned ((id, p) ∷ rest) = omega (
      arith,
      ran-append t
          (call p.callback
            (failure pb ErrorCodes.dependency_unavailable "message links are stopping" p))
          (abandoned pb rest),
      ran-call t p.callback
          (failure pb ErrorCodes.dependency_unavailable "message links are stopping" p),
      ran-abandoned rest,
    )
