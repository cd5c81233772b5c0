-- ===== src/Gateway/Manager/Commands/Retry.antt =====
-- One round of RetryPending: which callbacks wait, and how often a command goes out.
use wim.Prelude.{
  Bool-cases, List, Option, Option-cases, String, [], ap, inl, inr, int_eq, leb, ltb, nat_eq, none,
  not, refl, some, string_eq, ℕ, ℤ, ◌&&◌, ◌+◌, ◌||◌, ◌∙◌, ◌∷◌, ◌≡◌,
}
use wim.Gateway.Frames.{command}
use wim.Gateway.Link.{Link}
use wim.Gateway.Manager.{Manager, PendingCommand, accepts, select_link}
use wim.Gateway.Manager.Commands.{
  can_retry_on_another_message_node, relink, resend, retry_each, retry_found, retry_ids, retry_one,
  retry_pending,
}
use wim.Gateway.Manager.Commands.Conservation.{balance, ran, update-balance, waiting}
use wim.Prelude.Map.{Distinct, Map, insert, lookup}

-- `q` waits where `p` did: with the same command and callback.
abbrev pub SameClient : PendingCommand → PendingCommand → Type 0
SameClient p q = (q.callback ≡ p.callback) × (q.command ≡ p.command)

module _ (t : ℕ) where
  relink-balance :
      (id link : String) (m : Map String PendingCommand)
      → Distinct m
      → (waiting t (relink id link m) ≡ waiting t m) × Distinct (relink id link m)
  unfolding relink
  relink-balance id link m d = elim (Option-cases (lookup id m)) [
    | inl e ↦ rw (e, relink) (refl, d)
    | inr (p, e) ↦ rw (e, relink) (update-balance t id p (record p { link_id = link }) m d e refl)
  ]

  resend-balance :
      (id : String) (p : PendingCommand) (c : Option (ℕ × Link)) (m : Manager)
      → Distinct m.pending
      → (balance t (resend id p c m) ≡ balance t m) × Distinct (resend id p c m).pending
  unfolding resend
  resend-balance id p none m d = (refl, d)
  resend-balance id p (some (address, l)) m d =
      elim (Bool-cases (accepts m.store address (command p.command))) [
        | inl ok ↦
            let r = relink-balance id l.id m.pending d in
            rw ok (ap (λ x. x + ran t m.calls) r.0, r.1)
        | inr full ↦ rw full (refl, d)
      ]

  module _ (hash : String → ℕ) (to_string : ℤ → String) where
    retry_found-balance :
        (failed id : String) (now : ℕ) (p : PendingCommand) (m : Manager)
        → Distinct m.pending
        → lookup id m.pending ≡ some p
        → (balance t (retry_found hash to_string failed id now p m) ≡ balance t m)
          × Distinct (retry_found hash to_string failed id now p m).pending
    unfolding retry_found
    retry_found-balance failed id now p m d e =
        let p' : PendingCommand = record p { attempts = p.attempts + 1 } in
        let m' : Manager = record m { pending = insert id p' m.pending } in
        let u = update-balance t id p p' m.pending d e refl in
        let r =
          resend-balance id p' (select_link hash to_string m' p'.command.conversation_id failed) m'
            u.1 in
        elim (Bool-cases
          (leb 1 p.attempts || not (can_retry_on_another_message_node p.command.service_id))) [
            | inl skip ↦ rw skip (refl, d)
            | inr go ↦
                elim (Bool-cases
                  (ltb 0 p.command.deadline_unix_ms && leb p.command.deadline_unix_ms now)) [
                    | inl late ↦ rw (go, late) (ap (λ x. x + ran t m.calls) u.0, u.1)
                    | inr soon ↦ rw (go, soon) (r.0 ∙ ap (λ x. x + ran t m.calls) u.0, r.1)
                  ]
          ]

    retry_one-balance :
        (failed id : String) (now : ℕ) (m : Manager)
        → Distinct m.pending
        → (balance t (retry_one hash to_string failed now id m) ≡ balance t m)
          × Distinct (retry_one hash to_string failed now id m).pending
    unfolding retry_one
    retry_one-balance failed id now m d = elim (Option-cases (lookup id m.pending)) [
      | inl e ↦ rw (e, retry_one) (refl, d)
      | inr (p, e) ↦ rw (e, retry_one) (retry_found-balance failed id now p m d e)
    ]

    retry_each-balance :
        (failed : String) (now : ℕ) (ids : List String) (m : Manager)
        → Distinct m.pending
        → (balance t (retry_each hash to_string failed now ids m) ≡ balance t m)
          × Distinct (retry_each hash to_string failed now ids m).pending
    unfolding retry_each
    retry_each-balance failed now [] m d = (refl, d)
    retry_each-balance failed now (id ∷ ids) m d =
        let one = retry_one-balance failed id now m d in
        let all =
          retry_each-balance failed now ids (retry_one hash to_string failed now id m) one.1 in
        (all.0 ∙ one.0, all.1)

    pub retry_pending-balance :
        (failed : String) (now : ℕ) (m : Manager)
        → Distinct m.pending
        → (balance t (retry_pending hash to_string failed now m) ≡ balance t m)
          × Distinct (retry_pending hash to_string failed now m).pending
    unfolding retry_pending
    retry_pending-balance failed now m d =
        retry_each-balance failed now (retry_ids failed m.pending) m d
