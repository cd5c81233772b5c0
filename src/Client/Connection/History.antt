-- ===== src/Client/Connection/History.antt =====
-- Every history of a client connection: what can happen to it, one event at a time.
use wim.Prelude.{Bool, List, String, [], ap, arith, refl, ℕ, ◌+◌, ◌∙◌, ◌∷◌, ◌≡◌}
use wim.Client.Connection.{Connection, GateSession, new_connection}
use wim.Client.Connection.Ledger.{Inv, answered, awaiting, count}
use wim.Client.Connection.Ledger.Queues.{on_timeout-Inv, perform_all-Inv}
use wim.Client.Connection.Ledger.Slots.{
  close_session-Inv, on_close_timeout-Inv, on_connected-Inv, on_disconnected-Inv,
  on_disconnected_kept, on_error-Inv, on_heartbeat-Inv, on_ready_read-Inv, on_reconnect_timer-Inv,
  open_session-Inv,
}
use wim.Client.Connection.Requests.{Call, on_timeout, perform, perform_all}
use wim.Client.Connection.Socket.{
  close_session, on_close_timeout, on_connected, on_disconnected, on_error, on_heartbeat,
  on_ready_read, on_reconnect_timer, open_session,
}
use wim.Client.FrameCodec.{DataStream}
use wim.Client.Packet.{Serializer}
use wim.Gateway.Manager.Commands.{call}
use wim.Prelude.Map.{sum_by}
use wim.Wire.{TcpFrame}

module _ (qt : DataStream) (pb : Serializer) where
  pub data Step (c : Connection) : Connection → Type 0 where
    opens :
        (now : ℕ) (bounded : ℕ → ℕ) (unconnected : Bool) (s : GateSession)
        → Step c (open_session now bounded unconnected s c)
    closes : (unconnected : Bool) → Step c (close_session qt pb unconnected c)
    close_expires : Step c (on_close_timeout c)
    connects : Step c (on_connected qt pb c)
    reads :
        (now : ℕ) (bounded : ℕ → ℕ) (slot : Connection → TcpFrame → List (Call qt pb))
        (bytes : List ℕ)
        → Step c (on_ready_read qt pb now bounded slot bytes c)
    disconnects : (now : ℕ) (bounded : ℕ → ℕ) → Step c (on_disconnected now bounded c)
    errs : Step c (on_error c)
    beats : Step c (on_heartbeat qt pb c)
    reconnects : Step c (on_reconnect_timer c)
    asks : (call : Call qt pb) → Step c (perform qt pb call c)
    times_out : (response_id : ℕ) → Step c (on_timeout qt response_id c)

  pub data Run (c : Connection) : Connection → Type 0 where
    here : Run c c
    next : {d e : Connection} → Run c d → Step d e → Run c e

  Step-Inv : (k : String) {c d : Connection} → Step c d → Inv k c → Inv k d
  unfolding perform_all
  Step-Inv k {c} (opens now bounded u s) v = open_session-Inv k now bounded u s c v
  Step-Inv k {c} (closes u) v = close_session-Inv k qt pb u c v
  Step-Inv k {c} close_expires v = on_close_timeout-Inv k c v
  Step-Inv k {c} connects v = on_connected-Inv k qt pb c v
  Step-Inv k {c} (reads now bounded slot bytes) v =
      on_ready_read-Inv k qt pb now bounded slot bytes c v
  Step-Inv k {c} (disconnects now bounded) v = on_disconnected-Inv k now bounded c v
  Step-Inv k {c} errs v = on_error-Inv k c v
  Step-Inv k {c} beats v = on_heartbeat-Inv k qt pb c v
  Step-Inv k {c} reconnects v = on_reconnect_timer-Inv k c v
  Step-Inv k {c} (asks call) v = perform_all-Inv k qt pb (call ∷ []) c v
  Step-Inv k {c} (times_out r) v = on_timeout-Inv k qt r c v

  Run-Inv : (k : String) {c d : Connection} → Run c d → Inv k c → Inv k d
  Run-Inv k here v = v
  Run-Inv k (next r s) v = Step-Inv k s (Run-Inv k r v)

  new_connection-Inv : (k : String) (now : ℕ) → Inv k (new_connection now)
  unfolding new_connection
  new_connection-Inv k now = (tt, refl)

  -- In every history of a client connection, whatever the listener of ResponseReceived calls back: an id
  -- has been issued by QueueRequest as many times as it has been answered, by ResponseReceived or by
  -- RequestFailed, plus the times it still stands in a queue.
  pub request_ledger :
      (k : String) (now : ℕ) {c : Connection}
      → Run (new_connection now) c
      → count k c.issued ≡ answered k c.emitted + sum_by (awaiting k) c.pending_by_response
  request_ledger k now r = (Run-Inv k r (new_connection-Inv k now)).1

  -- When the socket reports `disconnected`, whatever happened before, no request is left without an
  -- answer: every issued id has been answered exactly as many times as it was issued, and no queue is
  -- left.
  pub disconnected_answers :
      (k : String) (now later : ℕ) (bounded : ℕ → ℕ) {c : Connection}
      → Run (new_connection now) c
      → (answered k (on_disconnected later bounded c).emitted ≡ count k c.issued)
        × ((on_disconnected later bounded c).pending_by_response ≡ [])
  disconnected_answers k now later bounded {c} r =
      let w = on_disconnected-Inv k later bounded c (Run-Inv k r (new_connection-Inv k now)) in
      let kept = on_disconnected_kept later bounded c in
      (settled (on_disconnected later bounded c) kept.0 w.1 ∙ ap (count k) kept.1, kept.0)
    where
      settled :
          (d : Connection)
          → d.pending_by_response ≡ []
          → count k d.issued ≡ answered k d.emitted + sum_by (awaiting k) d.pending_by_response
          → answered k d.emitted ≡ count k d.issued
      settled d e h = omega (arith, rw e at h)
