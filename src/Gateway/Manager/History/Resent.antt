-- ===== src/Gateway/Manager/History/Resent.antt =====
-- Through any history, a command goes out a second time at most once.
use wim.Prelude.{
  Bool, Bool-cases, Option, Option-cases, String, [], false, inl, inr, int_eq, nat_eq, not, refl,
  some, string_eq, true, ℕ, ℤ, ◌++◌, ◌==◌, ◌||◌, ◌∷◌, ◌≡◌,
}
use wim.Client.Connection.Reentry.{request}
use wim.Gateway.Frames.{
  CommandEnvelope, CommandResult, DeliveryStatus, MessageToGatewayFrame, command, command_result,
  delivery, drain_notice, empty_frame, heartbeat_ack, register_result,
}
use wim.Gateway.Link.{enqueue}
use wim.Gateway.Manager.{Manager, PendingCommand, accepts, on_link}
use wim.Gateway.Manager.Commands.{
  abandon_pending, expire_pending, failure, finish, forward_admit, forward_send, on_command_result,
  on_frame, retry_each, retry_ids, retry_pending, stop_manager,
}
use wim.Gateway.Manager.Commands.Admission.{forward_admit-cases}
use wim.Gateway.Manager.Commands.Once.{
  IsSpent, retry_pending-IsSpent, retry_pending-without, retry_pending_keeps, without,
}
use wim.Gateway.Manager.History.{
  Event, Trace, abandons, admits, applies, checks, expires, frame, link_done, link_moves,
  reconnects, releases, sends, start_of_trace, stops, then_event,
}
use wim.Gateway.Manager.History.Untouched.{
  apply_topology-SameCommands, check_links-SameCommands, on_reconnect_timer-SameCommands,
}
use wim.Gateway.Manager.Topology.{
  apply_topology, check_links, is_current, on_link_done, on_reconnect_timer, release_retired,
}
use wim.Prelude.Map.{erase, lookup, lookup-erase, lookup-insert}
use wim.Protocol.{ErrorCodes}
use wim.Wire.Packet.{Protobuf}

module _ (hash : String → ℕ) (to_string : ℤ → String) (pb : Protobuf) (id : String) where
  -- No command is taken on under the request id.
  abbrev Skips : {m n : Manager} → Event hash to_string pb m n → Type 0
  Skips (admits now c callback) = c.request_id == id ≡ false
  Skips _ = Unit

  abbrev pub NeverAnew : {m n : Manager} → Trace hash to_string pb m n → Type 0
  NeverAnew start_of_trace = Unit
  NeverAnew (then_event r s) = NeverAnew r × Skips s

  abbrev SpentIn : Manager → Type 0
  SpentIn m = IsSpent (lookup id m.pending)

  same-SpentIn : (m n : Manager) → n.pending ≡ m.pending → SpentIn m → SpentIn n
  same-SpentIn m n e spent = rw e spent

  finish-SpentIn :
      (request : String) (result : PendingCommand → CommandResult) (m : Manager)
      → SpentIn m
      → SpentIn (finish request result m)
  unfolding finish
  finish-SpentIn request result m spent = elim (Option-cases (lookup request m.pending)) [
    | inl e ↦ rw (e, finish) spent
    | inr (p, e) ↦ rw (e, finish) (erased (request == id) refl)
  ]
    where
      erased : (t : Bool) → request == id ≡ t → IsSpent (lookup id (erase request m.pending))
      erased true t = rw (lookup-erase, t) tt
      erased false t = rw (lookup-erase, t) spent

  admit-SpentIn :
      (m : Manager) (now : ℕ) (c : CommandEnvelope) (callback : Option ℕ)
      → c.request_id == id ≡ false
      → SpentIn m
      → SpentIn (forward_admit hash to_string now c callback m).0
  admit-SpentIn m now c callback differs spent =
      elim (forward_admit-cases hash to_string m now c callback) [
        | inl e ↦ rw e spent
        | inr (p, e) ↦ rw (e, lookup-insert, differs) spent
      ]

  send-SpentIn :
      (m : Manager) (address : ℕ) (c : CommandEnvelope)
      → SpentIn m
      → SpentIn (forward_send pb address c m)
  unfolding forward_send
  send-SpentIn m address c spent = elim (Bool-cases (accepts m.store address (command c))) [
    | inl ok ↦ rw (ok, forward_send) spent
    | inr full ↦
        rw (full, forward_send)
          (finish-SpentIn c.request_id
            (failure pb ErrorCodes.resource_exhausted "message stream queue is full")
            (on_link m address (λ l. (enqueue l (command c)).0)) spent)
  ]

  frame-SpentIn :
      (m : Manager) (node : String) (f : MessageToGatewayFrame) (s : DeliveryStatus)
      → SpentIn m
      → SpentIn (on_frame node f s m)
  unfolding on_frame on_command_result
  frame-SpentIn m node (command_result r) s spent = finish-SpentIn r.request_id (λ p. r) _ spent
  frame-SpentIn m node (register_result true) s spent = spent
  frame-SpentIn m node (register_result false) s spent = spent
  frame-SpentIn m node heartbeat_ack s spent = spent
  frame-SpentIn m node empty_frame s spent = spent
  frame-SpentIn m node drain_notice s spent = elim (Option-cases (lookup node m.links)) [
    | inl e ↦ rw (e, on_frame) spent
    | inr (a, e) ↦ rw (e, on_frame) spent
  ]
  frame-SpentIn m node (delivery v) s spent = elim (Option-cases (lookup node m.links)) [
    | inl e ↦ rw (e, on_frame) spent
    | inr (a, e) ↦ rw (e, on_frame) spent
  ]

  link_done-SpentIn :
      (m : Manager) (node : String) (source now random : ℕ)
      → SpentIn m
      → SpentIn (on_link_done hash to_string node source now random m).0
  unfolding on_link_done
  link_done-SpentIn m node source now random spent =
      let m1 : Manager = record m {
        links = erase node m.links;
        retired_links = m.retired_links ++ (source ∷ []);
      } in
      elim (Bool-cases (m.stopping || not (is_current source (lookup node m.links)))) [
        | inl skip ↦ rw (skip, on_link_done) spent
        | inr go ↦ elim (Option-cases (lookup node m.configured_nodes)) [
          | inl e ↦ rw (go, e, on_link_done) spent
          | inr (n, e) ↦
              rw (go, e, on_link_done) (retry_pending_keeps hash to_string node id now m1 spent)
        ]
      ]

  abandon-SpentIn : (m : Manager) → SpentIn (abandon_pending pb m)
  unfolding abandon_pending lookup
  abandon-SpentIn m = tt

  stop-SpentIn : (m : Manager) → SpentIn m → SpentIn (stop_manager pb m)
  unfolding stop_manager abandon_pending lookup
  stop-SpentIn m spent = elim (Bool-cases m.stopping) [
    | inl off ↦ rw (off, stop_manager) spent
    | inr go ↦ rw (go, stop_manager) tt
  ]

  Event-SpentIn :
      {m n : Manager} (s : Event hash to_string pb m n) → Skips s → SpentIn m → SpentIn n
  Event-SpentIn {m} (admits now c callback) k spent = admit-SpentIn m now c callback k spent
  Event-SpentIn {m} (sends address c) k spent = send-SpentIn m address c spent
  Event-SpentIn {m} (frame node f s) k spent = frame-SpentIn m node f s spent
  Event-SpentIn {m} (expires name) k spent = unfold expire_pending in finish-SpentIn name _ m spent
  Event-SpentIn {m} abandons k spent = abandon-SpentIn m
  Event-SpentIn {m} stops k spent = stop-SpentIn m spent
  Event-SpentIn {m} (applies s now) k spent =
      same-SpentIn m (apply_topology s now m) (apply_topology-SameCommands s now m).0 spent
  Event-SpentIn {m} (link_done node source now random) k spent =
      link_done-SpentIn m node source now random spent
  Event-SpentIn {m} (reconnects node now) k spent =
      same-SpentIn m (on_reconnect_timer node now m) (on_reconnect_timer-SameCommands node now m).0
        spent
  Event-SpentIn {m} (checks now sequence) k spent =
      same-SpentIn m (check_links now m.links sequence m)
        (check_links-SameCommands now m.links sequence m).0 spent
  Event-SpentIn {m} (releases address) k spent = unfold release_retired in spent
  Event-SpentIn {m} (link_moves address f) k spent = spent

  Trace-SpentIn :
      {m n : Manager} (r : Trace hash to_string pb m n) → NeverAnew r → SpentIn m → SpentIn n
  Trace-SpentIn start_of_trace k spent = spent
  Trace-SpentIn (then_event r s) k spent = Event-SpentIn s k.1 (Trace-SpentIn r k.0 spent)

  pub retry_pending_once :
      (failed failed' : String) (now now' : ℕ) (p : PendingCommand) (m : Manager) {n : Manager}
      → lookup id m.pending ≡ some p
      → p.link_id ≡ failed
      → (r : Trace hash to_string pb (retry_pending hash to_string failed now m) n) → NeverAnew r
      → retry_pending hash to_string failed' now' n
        ≡ retry_each hash to_string failed' now' (without id (retry_ids failed' n.pending)) n
  retry_pending_once failed failed' now now' p m {n} there sent r never =
      retry_pending-without hash to_string failed' id now' n (
        Trace-SpentIn r never (
          retry_pending-IsSpent hash to_string failed id now m p there
            ((string_eq.tests_iff p.link_id failed).1 sent)))
