-- ===== src/Gateway/Manager/Commands/Once.antt =====
-- RetryPending sends a command out a second time at most once.
use wim.Prelude.{
  ==_cases, ==_refl, Bool, Bool-cases, List, Option, Option-cases, String, [], arith, false,
  if◌then◌else◌, inl, inr, int_eq, leb, ltb, nat_eq, none, not, refl, some, string_eq, true, ℕ, ℤ,
  ◌&&◌, ◌+◌, ◌==◌, ◌||◌, ◌∙◌, ◌∷◌, ◌≡◌,
}
use wim.Gateway.Frames.{command}
use wim.Gateway.Link.{Link}
use wim.Gateway.Manager.{Manager, PendingCommand, accepts, select_link}
use wim.Gateway.Manager.Commands.{
  can_retry_on_another_message_node, relink, resend, retry_each, retry_found, retry_ids, retry_one,
  retry_pending,
}
use wim.Prelude.Map.{Map, insert, lookup, lookup-insert}

-- `RetryPending` passes this command by.
abbrev Settled : PendingCommand → Type 0
Settled p =
    (leb 1 p.attempts || not (can_retry_on_another_message_node p.command.service_id)) ≡ true

-- What is said of a request's entry: it is settled, or there is none.
abbrev pub IsSpent : Option PendingCommand → Type 0
IsSpent none = Unit
IsSpent (some p) = Settled p

abbrev is_in : String → List String → Bool
is_in id [] = false
is_in id (i ∷ is) = i == id || is_in id is

-- The requests other than this one.
abbrev pub without : String → List String → List String
without id [] = []
without id (i ∷ is) = if i == id then without id is else i ∷ without id is

listed :
    (failed id : String) (pending : Map String PendingCommand) (p : PendingCommand)
    → lookup id pending ≡ some p
    → p.link_id == failed ≡ true
    → is_in id (retry_ids failed pending) ≡ true
unfolding retry_ids lookup
listed failed id [] p e on_failed = cc
listed failed id ((i, q) ∷ rest) p e on_failed = elim (Bool-cases (i == id)) [
  | inl t ↦
      let same : q ≡ p = cc (rw t at e) in
      let q_on_failed : q.link_id == failed ≡ true = rw same on_failed in rw (q_on_failed, t) refl
  | inr f ↦
      let later : is_in id (retry_ids failed rest) ≡ true =
        listed failed id rest p (rw f at e) on_failed in
      ground (arith, later)
]

module _ (hash : String → ℕ) (to_string : ℤ → String) where
  Settled-retry_one :
      (m : Manager) (failed id : String) (now : ℕ) (p : PendingCommand)
      → lookup id m.pending ≡ some p
      → Settled p
      → retry_one hash to_string failed now id m ≡ m
  unfolding retry_one retry_found
  Settled-retry_one m failed id now p e s = rw (e, retry_one, s)

  relink-lookup :
      (id link : String) (m : Map String PendingCommand) (p : PendingCommand)
      → lookup id m ≡ some p
      → (q : PendingCommand) × (lookup id (relink id link m) ≡ some q)
        × (q.attempts ≡ p.attempts)
        × (q.command ≡ p.command)
  unfolding relink
  relink-lookup id link m p e =
      (record p { link_id = link }, rw (e, relink, lookup-insert, ==_refl id) refl, refl, refl)

  Kept : String → PendingCommand → Manager → Type 0
  Kept id p n =
      (q : PendingCommand) × (lookup id n.pending ≡ some q)
      × (q.attempts ≡ p.attempts)
      × (q.command ≡ p.command)

  resend-Kept :
      (id : String) (p : PendingCommand) (c : Option (ℕ × Link)) (m : Manager)
      → lookup id m.pending ≡ some p
      → Kept id p (resend id p c m)
  unfolding resend Kept
  resend-Kept id p none m e = (p, e, refl, refl)
  resend-Kept id p (some (address, l)) m e =
      elim (Bool-cases (accepts m.store address (command p.command))) [
        | inl ok ↦ rw ok (relink-lookup id l.id m.pending p e)
        | inr full ↦ rw full (p, e, refl, refl)
      ]

  -- After a round the command is settled, or was and nothing has happened.
  retry_found-Settled :
      (m : Manager) (failed id : String) (now : ℕ) (p : PendingCommand)
      → lookup id m.pending ≡ some p
      → (q : PendingCommand) × (lookup id (retry_found hash to_string failed id now p m).pending
          ≡ some q)
        × Settled q
  unfolding retry_found Kept
  retry_found-Settled m failed id now p e =
      let p' : PendingCommand = record p { attempts = p.attempts + 1 } in
      let m' : Manager = record m { pending = insert id p' m.pending } in
      let e' : lookup id m'.pending ≡ some p' = rw (lookup-insert, ==_refl id) refl in
      let r =
        resend-Kept id p' (select_link hash to_string m' p.command.conversation_id failed) m' e' in
      elim (Bool-cases
        (leb 1 p.attempts || not (can_retry_on_another_message_node p.command.service_id))) [
          | inl skip ↦ rw skip (p, e, skip)
          | inr go ↦
              elim (Bool-cases
                (ltb 0 p.command.deadline_unix_ms && leb p.command.deadline_unix_ms now)) [
                  | inl late ↦ rw (go, late) (p', e', ground arith)
                  | inr soon ↦ rw (go, soon) (r.0, r.1, ground (arith, r.2))
                ]
        ]

  retry_one-absent :
      (m : Manager) (failed id : String) (now : ℕ)
      → lookup id m.pending ≡ none
      → retry_one hash to_string failed now id m ≡ m
  unfolding retry_one
  retry_one-absent m failed id now e = rw (e, retry_one)

  retry_one-found :
      (m : Manager) (failed id : String) (now : ℕ) (p : PendingCommand)
      → lookup id m.pending ≡ some p
      → retry_one hash to_string failed now id m ≡ retry_found hash to_string failed id now p m
  unfolding retry_one
  retry_one-found m failed id now p e = rw (e, retry_one)

  retry_one-IsSpent :
      (m : Manager) (failed id : String) (now : ℕ)
      → IsSpent (lookup id (retry_one hash to_string failed now id m).pending)
  retry_one-IsSpent m failed id now = elim (Option-cases (lookup id m.pending)) [
    | inl e ↦ rw (retry_one-absent m failed id now e, e) tt
    | inr (p, e) ↦
        let s = retry_found-Settled m failed id now p e in
        rw (retry_one-found m failed id now p e, s.1) s.2
  ]

  -- A round passes a spent request by.
  retry_one_idle :
      (m : Manager) (failed id : String) (now : ℕ)
      → IsSpent (lookup id m.pending)
      → retry_one hash to_string failed now id m ≡ m
  retry_one_idle m failed id now spent = elim (Option-cases (lookup id m.pending)) [
    | inl e ↦ retry_one-absent m failed id now e
    | inr (p, e) ↦ Settled-retry_one m failed id now p e (rw e at spent)
  ]

  relink_other :
      (id other link : String) (m : Map String PendingCommand)
      → other == id ≡ false
      → lookup id (relink other link m) ≡ lookup id m
  unfolding relink
  relink_other id other link m differs = elim (Option-cases (lookup other m)) [
    | inl e ↦ rw (e, relink) refl
    | inr (p, e) ↦ rw (e, relink, lookup-insert, differs) refl
  ]

  resend_other :
      (id other : String) (p : PendingCommand) (c : Option (ℕ × Link)) (m : Manager)
      → other == id ≡ false
      → lookup id (resend other p c m).pending ≡ lookup id m.pending
  unfolding resend
  resend_other id other p none m differs = refl
  resend_other id other p (some (address, l)) m differs =
      elim (Bool-cases (accepts m.store address (command p.command))) [
        | inl ok ↦ rw ok (relink_other id other l.id m.pending differs)
        | inr full ↦ rw full refl
      ]

  retry_found_other :
      (m : Manager) (failed id other : String) (now : ℕ) (p : PendingCommand)
      → other == id ≡ false
      → lookup id (retry_found hash to_string failed other now p m).pending ≡ lookup id m.pending
  unfolding retry_found
  retry_found_other m failed id other now p differs =
      let p' : PendingCommand = record p { attempts = p.attempts + 1 } in
      let m' : Manager = record m { pending = insert other p' m.pending } in
      let e' : lookup id m'.pending ≡ lookup id m.pending = rw (lookup-insert, differs) refl in
      elim (Bool-cases
        (leb 1 p.attempts || not (can_retry_on_another_message_node p.command.service_id))) [
          | inl skip ↦ rw skip refl
          | inr go ↦
              elim (Bool-cases
                (ltb 0 p.command.deadline_unix_ms && leb p.command.deadline_unix_ms now)) [
                  | inl late ↦ rw (go, late) e'
                  | inr soon ↦
                      rw (go, soon)
                        (resend_other id other p'
                            (select_link hash to_string m' p.command.conversation_id failed) m'
                            differs
                          ∙ e')
                ]
        ]

  retry_one_other :
      (m : Manager) (failed id other : String) (now : ℕ)
      → other == id ≡ false
      → lookup id (retry_one hash to_string failed now other m).pending ≡ lookup id m.pending
  retry_one_other m failed id other now differs = elim (Option-cases (lookup other m.pending)) [
    | inl e ↦ rw (retry_one-absent m failed other now e) refl
    | inr (p, e) ↦
        rw (retry_one-found m failed other now p e)
          (retry_found_other m failed id other now p differs)
  ]

  retry_one_keeps :
      (m : Manager) (failed id other : String) (now : ℕ)
      → IsSpent (lookup id m.pending)
      → IsSpent (lookup id (retry_one hash to_string failed now other m).pending)
  retry_one_keeps m failed id other now spent = elim (==_cases other id) [
    | inl (t, same) ↦ rw same (retry_one-IsSpent m failed id now)
    | inr (differs, _) ↦ rw (retry_one_other m failed id other now differs) spent
  ]

  retry_each_keeps :
      (failed id : String) (now : ℕ) (ids : List String) (m : Manager)
      → IsSpent (lookup id m.pending)
      → IsSpent (lookup id (retry_each hash to_string failed now ids m).pending)
  unfolding retry_each
  retry_each_keeps failed id now [] m spent = spent
  retry_each_keeps failed id now (i ∷ is) m spent =
      retry_each_keeps failed id now is (retry_one hash to_string failed now i m)
        (retry_one_keeps m failed id i now spent)

  retry_each-IsSpent :
      (failed id : String) (now : ℕ) (ids : List String) (m : Manager)
      → is_in id ids ≡ true
      → IsSpent (lookup id (retry_each hash to_string failed now ids m).pending)
  unfolding retry_each
  retry_each-IsSpent failed id now [] m h = absurd (cc h)
  retry_each-IsSpent failed id now (i ∷ is) m h = elim (==_cases i id) [
    | inl (t, same) ↦
        retry_each_keeps failed id now is (retry_one hash to_string failed now i m)
          (rw same (retry_one-IsSpent m failed id now))
    | inr (differs, _) ↦
        retry_each-IsSpent failed id now is (retry_one hash to_string failed now i m)
          (ground (arith, h, differs))
  ]

  pub retry_pending_keeps :
      (failed id : String) (now : ℕ) (m : Manager)
      → IsSpent (lookup id m.pending)
      → IsSpent (lookup id (retry_pending hash to_string failed now m).pending)
  unfolding retry_pending
  retry_pending_keeps failed id now m spent =
      retry_each_keeps failed id now (retry_ids failed m.pending) m spent

  -- A round settles every request that on_failed on the node.
  pub retry_pending-IsSpent :
      (failed id : String) (now : ℕ) (m : Manager) (p : PendingCommand)
      → lookup id m.pending ≡ some p
      → p.link_id == failed ≡ true
      → IsSpent (lookup id (retry_pending hash to_string failed now m).pending)
  unfolding retry_pending
  retry_pending-IsSpent failed id now m p e on_failed =
      retry_each-IsSpent failed id now (retry_ids failed m.pending) m
        (listed failed id m.pending p e on_failed)

  retry_each-without :
      (failed id : String) (now : ℕ) (ids : List String) (m : Manager)
      → IsSpent (lookup id m.pending)
      → retry_each hash to_string failed now ids m
        ≡ retry_each hash to_string failed now (without id ids) m
  unfolding retry_each
  retry_each-without failed id now [] m spent = refl
  retry_each-without failed id now (i ∷ is) m spent = elim (==_cases i id) [
    | inl (t, same) ↦
        let idle : retry_one hash to_string failed now i m ≡ m =
          rw same (retry_one_idle m failed id now spent) in
        rw (t, idle) (retry_each-without failed id now is m spent)
    | inr (differs, _) ↦ rw differs (
        retry_each-without failed id now is (retry_one hash to_string failed now i m)
          (retry_one_keeps m failed id i now spent))
  ]

  pub retry_pending-without :
      (failed id : String) (now : ℕ) (m : Manager)
      → IsSpent (lookup id m.pending)
      → retry_pending hash to_string failed now m
        ≡ retry_each hash to_string failed now (without id (retry_ids failed m.pending)) m
  unfolding retry_pending
  retry_pending-without failed id now m spent =
      retry_each-without failed id now (retry_ids failed m.pending) m spent
