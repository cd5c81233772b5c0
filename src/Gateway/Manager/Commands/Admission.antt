-- ===== src/Gateway/Manager/Commands/Admission.antt =====
-- What Forward takes on.
use wim.Prelude.{
  Bool-cases, Option, Option-cases, String, arith, false, if◌then◌else◌, inl, inr, int_eq, is_empty,
  leb, nat_eq, none, refl, some, string_eq, true, ℕ, ℤ, ◌<◌, ◌==◌, ◌≡◌, ◌⊎◌,
}
use wim.Gateway.Frames.{CommandEnvelope}
use wim.Gateway.Link.{Link}
use wim.Gateway.Manager.{Manager, PendingCommand, select_link}
use wim.Gateway.Manager.Choice.{select_link-IsCandidate}
use wim.Gateway.Manager.Commands.{forward_admit}
use wim.Prelude.Map.{insert, lookup, lookup-insert}

module _ (hash : String → ℕ) (to_string : ℤ → String) where
  -- `Forward` takes a command on only if it has a request id that is not pending yet, its deadline is
  -- ahead and a healthy link was found; then it is pending on that link, with no attempt counted, and
  -- no other request is touched.
  pub forward_admitted :
      (m : Manager) (now : ℕ) (c : CommandEnvelope) (callback : Option ℕ) (address : ℕ)
      (id : String)
      → (forward_admit hash to_string now c callback m).1 ≡ some address
      → (is_empty c.request_id ≡ false)
        × (now < c.deadline_unix_ms)
        × (lookup c.request_id m.pending ≡ none)
        × ((l : Link) × (lookup address m.store ≡ some l)
            × (l.healthy ≡ true)
            × (lookup id (forward_admit hash to_string now c callback m).0.pending ≡ (
                if c.request_id == id
                then some
                    (record { command = c; callback = callback; link_id = l.id; attempts = 0 })
                else lookup id m.pending)))
  unfolding forward_admit
  forward_admitted m now c callback address id h = elim (Bool-cases (is_empty c.request_id)) [
    | inl e1 ↦ cc (rw (e1, forward_admit) at h)
    | inr e1 ↦ elim (Bool-cases (leb c.deadline_unix_ms now)) [
      | inl e2 ↦ cc (rw (e1, e2, forward_admit) at h)
      | inr e2 ↦ elim (Option-cases (select_link hash to_string m c.conversation_id "")) [
        | inl e3 ↦ cc (rw (e1, e2, e3, forward_admit) at h)
        | inr ((a, l), e3) ↦ elim (Option-cases (lookup c.request_id m.pending)) [
          | inr (q, e4) ↦ cc (rw (e1, e2, e3, e4, forward_admit) at h)
          | inl e4 ↦
              let same : a ≡ address = ground (arith, rw (e1, e2, e3, e4, forward_admit) at h) in
              let found = select_link-IsCandidate hash to_string m c.conversation_id "" (a, l) e3 in
              (
                e1,
                ground arith,
                e4,
                (
                  l,
                  (rw (← same) found.0),
                  found.1,
                  rw (e1, e2, e3, e4, forward_admit) (lookup-insert c.request_id id _ m.pending),
                ),
              )
        ]
      ]
    ]
  ]

  -- What the first part of `Forward` does to the pending commands.
  pub forward_admit-cases :
      (m : Manager) (now : ℕ) (c : CommandEnvelope) (callback : Option ℕ)
      → ((forward_admit hash to_string now c callback m).0.pending ≡ m.pending)
        ⊎ ((p : PendingCommand) × ((forward_admit hash to_string now c callback m).0.pending
              ≡ insert c.request_id p m.pending))
  unfolding forward_admit
  forward_admit-cases m now c callback = elim (Bool-cases (is_empty c.request_id)) [
    | inl e1 ↦ rw (e1, forward_admit) (inl refl)
    | inr e1 ↦ elim (Bool-cases (leb c.deadline_unix_ms now)) [
      | inl e2 ↦ rw (e1, e2, forward_admit) (inl refl)
      | inr e2 ↦ elim (Option-cases (select_link hash to_string m c.conversation_id "")) [
        | inl e3 ↦ rw (e1, e2, e3, forward_admit) (inl refl)
        | inr ((a, l), e3) ↦ elim (Option-cases (lookup c.request_id m.pending)) [
          | inr (q, e4) ↦ rw (e1, e2, e3, e4, forward_admit) (inl refl)
          | inl e4 ↦
              rw (e1, e2, e3, e4, forward_admit)
                (inr
                  (record { command = c; callback = callback; link_id = l.id; attempts = 0 }, refl))
        ]
      ]
    ]
  ]
