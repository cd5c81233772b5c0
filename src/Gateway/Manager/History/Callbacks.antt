-- ===== src/Gateway/Manager/History/Callbacks.antt =====
-- Every callback that Forward takes on waits or has run, and has not run twice.
use wim.Prelude.{
  Bool-cases, List, Option, Option-cases, String, [], ap, arith, false, if◌then◌else◌, inl, inr,
  int_eq, is_empty, leb, nat_eq, none, not, refl, some, string_eq, true, ℕ, ℤ, ◌++◌, ◌+◌, ◌==◌,
  ◌||◌, ◌∷◌, ◌≡◌,
}
use wim.Gateway.Frames.{
  CommandEnvelope, DeliveryStatus, MessageToGatewayFrame, command, command_result, delivery,
  drain_notice, empty_frame, heartbeat_ack, register_result,
}
use wim.Gateway.Link.{enqueue}
use wim.Gateway.Manager.{Manager, PendingCommand, accepts, new_manager, on_link, select_link}
use wim.Gateway.Manager.Commands.{
  expire_pending, failure, forward_admit, forward_send, on_command_result, on_frame, stop_links,
  stop_manager,
}
use wim.Gateway.Manager.Commands.Conservation.{
  abandon-balance, balance, finish-balance, owes, ran, waiting,
}
use wim.Gateway.Manager.Commands.Retry.{retry_pending-balance}
use wim.Gateway.Manager.History.{
  Event, Trace, abandons, admits, all_issued, applies, checks, expires, frame, issued, link_done,
  link_moves, reconnects, releases, sends, start_of_trace, stops, taken, then_event,
}
use wim.Gateway.Manager.History.Untouched.{
  SameCommands, apply_topology-SameCommands, check_links-SameCommands,
  on_reconnect_timer-SameCommands,
}
use wim.Gateway.Manager.Topology.{is_current, on_link_done, release_retired}
use wim.Prelude.Map.{Distinct, Distinct-insert, erase, insert, lookup, sum_by-insert_new}
use wim.Protocol.{ErrorCodes}
use wim.Wire.Packet.{Protobuf}

pub count : ℕ → List ℕ → ℕ
count t [] = 0
count t (c ∷ cs) = (if c == t then 1 else 0) + count t cs

count-append : (t : ℕ) (xs ys : List ℕ) → count t (xs ++ ys) ≡ count t xs + count t ys
unfolding count
count-append t [] ys = omega arith
count-append t (x ∷ xs) ys = omega (arith, count-append t xs ys)

module _ (hash : String → ℕ) (to_string : ℤ → String) (pb : Protobuf) (t : ℕ) where
  -- What a step does to the account of the callback `t`.
  Balanced : List ℕ → Manager → Manager → Type 0
  Balanced cs m n = (balance t n ≡ count t cs + balance t m) × Distinct n.pending

  same-Balanced : (m n : Manager) → SameCommands m n → Distinct m.pending → Balanced [] m n
  unfolding Balanced count
  same-Balanced m n (p, c) d = rw (p, c) (omega arith, d)

  of-balance : (m n : Manager) → (balance t n ≡ balance t m) × Distinct n.pending → Balanced [] m n
  unfolding Balanced count
  of-balance m n (e, d) = (omega arith, d)

  new_entry :
      (m : Manager) (id : String) (p : PendingCommand)
      → Distinct m.pending
      → lookup id m.pending ≡ none
      → Balanced (taken (some 0) p.callback) m (record m { pending = insert id p m.pending })
  unfolding Balanced count
  new_entry m id p d fresh = (entry p.callback refl, Distinct-insert id p m.pending d)
    where
      entry :
          (c : Option ℕ)
          → p.callback ≡ c
          → waiting t (insert id p m.pending) + ran t m.calls
            ≡ count t (taken (some 0) c) + (waiting t m.pending + ran t m.calls)
      entry none e = omega (
        arith,
        sum_by-insert_new (λ (x : PendingCommand). owes t x.callback) id p m.pending fresh,
        ap (owes t) e,
      )
      entry (some c) e = omega (
        arith,
        sum_by-insert_new (λ (x : PendingCommand). owes t x.callback) id p m.pending fresh,
        ap (owes t) e,
      )

  admit-Balanced :
      (m : Manager) (now : ℕ) (c : CommandEnvelope) (callback : Option ℕ)
      → Distinct m.pending
      → Balanced
          (taken (forward_admit hash to_string now c callback m).1 callback)
          m
          (forward_admit hash to_string now c callback m).0
  unfolding forward_admit
  admit-Balanced m now c callback d = elim (Bool-cases (is_empty c.request_id)) [
    | inl e1 ↦ rw (e1, forward_admit) refused
    | inr e1 ↦ elim (Bool-cases (leb c.deadline_unix_ms now)) [
      | inl e2 ↦ rw (e1, e2, forward_admit) refused
      | inr e2 ↦ elim (Option-cases (select_link hash to_string m c.conversation_id "")) [
        | inl e3 ↦ rw (e1, e2, e3, forward_admit) refused
        | inr ((address, l), e3) ↦ elim (Option-cases (lookup c.request_id m.pending)) [
          | inr (q, e4) ↦ rw (e1, e2, e3, e4, forward_admit) refused
          | inl e4 ↦
              rw (e1, e2, e3, e4, forward_admit)
                (new_entry m c.request_id
                  (record { command = c; callback = callback; link_id = l.id; attempts = 0 }) d e4)
        ]
      ]
    ]
  ]
    where
      refused : Balanced [] m m
      refused = same-Balanced m m (refl, refl) d

  send-balance :
      (m : Manager) (address : ℕ) (c : CommandEnvelope)
      → Distinct m.pending
      → (balance t (forward_send pb address c m) ≡ balance t m)
        × Distinct (forward_send pb address c m).pending
  unfolding forward_send
  send-balance m address c d = elim (Bool-cases (accepts m.store address (command c))) [
    | inl ok ↦ rw (ok, forward_send) (refl, d)
    | inr full ↦
        rw (full, forward_send)
          (finish-balance t c.request_id
            (failure pb ErrorCodes.resource_exhausted "message stream queue is full")
            (on_link m address (λ l. (enqueue l (command c)).0)) d)
  ]

  frame-balance :
      (m : Manager) (node : String) (f : MessageToGatewayFrame) (s : DeliveryStatus)
      → Distinct m.pending
      → (balance t (on_frame node f s m) ≡ balance t m) × Distinct (on_frame node f s m).pending
  unfolding on_frame on_command_result
  frame-balance m node (command_result r) s d = finish-balance t r.request_id (λ p. r) _ d
  frame-balance m node (register_result true) s d = (refl, d)
  frame-balance m node (register_result false) s d = (refl, d)
  frame-balance m node heartbeat_ack s d = (refl, d)
  frame-balance m node empty_frame s d = (refl, d)
  frame-balance m node drain_notice s d = elim (Option-cases (lookup node m.links)) [
    | inl e ↦ rw (e, on_frame) (refl, d)
    | inr (a, e) ↦ rw (e, on_frame) (refl, d)
  ]
  frame-balance m node (delivery v) s d = elim (Option-cases (lookup node m.links)) [
    | inl e ↦ rw (e, on_frame) (refl, d)
    | inr (a, e) ↦ rw (e, on_frame) (refl, d)
  ]

  link_done-balance :
      (m : Manager) (node : String) (source now random : ℕ)
      → Distinct m.pending
      → (balance t (on_link_done hash to_string node source now random m).0 ≡ balance t m)
        × Distinct (on_link_done hash to_string node source now random m).0.pending
  unfolding on_link_done
  link_done-balance m node source now random d =
      let m1 : Manager = record m {
        links = erase node m.links;
        retired_links = m.retired_links ++ (source ∷ []);
      } in
      elim (Bool-cases (m.stopping || not (is_current source (lookup node m.links)))) [
        | inl skip ↦ rw (skip, on_link_done) (refl, d)
        | inr go ↦ elim (Option-cases (lookup node m.configured_nodes)) [
          | inl e ↦ rw (go, e, on_link_done) (refl, d)
          | inr (n, e) ↦
              rw (go, e, on_link_done) (retry_pending-balance t hash to_string node now m1 d)
        ]
      ]

  stop-balance :
      (m : Manager)
      → Distinct m.pending
      → (balance t (stop_manager pb m) ≡ balance t m) × Distinct (stop_manager pb m).pending
  unfolding stop_manager
  stop-balance m d = elim (Bool-cases m.stopping) [
    | inl off ↦ rw (off, stop_manager) (refl, d)
    | inr go ↦
        rw (go, stop_manager)
          (abandon-balance t (record m { stopping = true; store = stop_links m.links m.store }) pb)
  ]

  step-Balanced :
      {m n : Manager} (s : Event hash to_string pb m n)
      → Distinct m.pending
      → Balanced (issued hash to_string pb s) m n
  step-Balanced {m} (admits now c callback) d = admit-Balanced m now c callback d
  step-Balanced {m} (sends address c) d = of-balance m _ (send-balance m address c d)
  step-Balanced {m} (frame node f s) d = of-balance m _ (frame-balance m node f s d)
  step-Balanced {m} (expires id) d =
      of-balance m _ (unfold expire_pending in finish-balance t id _ m d)
  step-Balanced {m} abandons d = of-balance m _ (abandon-balance t m pb)
  step-Balanced {m} stops d = of-balance m _ (stop-balance m d)
  step-Balanced {m} (applies s now) d = same-Balanced m _ (apply_topology-SameCommands s now m) d
  step-Balanced {m} (link_done node source now random) d =
      of-balance m _ (link_done-balance m node source now random d)
  step-Balanced {m} (reconnects node now) d =
      same-Balanced m _ (on_reconnect_timer-SameCommands node now m) d
  step-Balanced {m} (checks now sequence) d =
      same-Balanced m _ (check_links-SameCommands now m.links sequence m) d
  step-Balanced {m} (releases address) d =
      same-Balanced m _ (unfold release_retired in (refl, refl)) d
  step-Balanced {m} (link_moves address f) d = same-Balanced m _ (refl, refl) d

  trace-Balanced :
      {m n : Manager} (r : Trace hash to_string pb m n)
      → Distinct m.pending
      → Balanced (all_issued hash to_string pb r) m n
  unfolding Balanced
  trace-Balanced {m} start_of_trace d = same-Balanced m m (refl, refl) d
  trace-Balanced {m} (then_event {n = n} {o = o} r s) d =
      joined (trace-Balanced r d) (step-Balanced s (trace-Balanced r d).1)
    where
      joined :
          Balanced (all_issued hash to_string pb r) m n
          → Balanced (issued hash to_string pb s) n o
          → Balanced (issued hash to_string pb s ++ all_issued hash to_string pb r) m o
      joined a b = (
        omega (
          arith,
          a.0,
          b.0,
          count-append t (issued hash to_string pb s) (all_issued hash to_string pb r),
        ),
        b.1,
      )

-- In any history of a manager, through any interleaving of commands, results, expiries, retries, link
-- failures, topology changes and stops, a callback has run exactly as often as `Forward` has taken
-- it on, less the times it still waits in the pending map.
pub callbacks_conserved :
    (hash : String → ℕ) (to_string : ℤ → String) (pb : Protobuf) (t : ℕ)
    (gateway_id instance_id : String) {m : Manager}
    (r : Trace hash to_string pb (new_manager gateway_id instance_id) m)
    → ran t m.calls + waiting t m.pending ≡ count t (all_issued hash to_string pb r)
unfolding new_manager
callbacks_conserved hash to_string pb t gateway_id instance_id r =
    unfold Balanced in omega (arith, (trace-Balanced hash to_string pb t r tt).0)
