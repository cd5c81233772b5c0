-- ===== src/Gateway/Session/History.antt =====
-- Every history of a session: calls from other threads, tasks of the strand, the two coroutines and the
-- timers, in any order.
use wim.Prelude.{
  Bool, Bool-cases, List, Option, String, false, if_elim, inl, inr, int_eq, is_empty, is_positive,
  leb, length, nat_eq, none, not, pos, refl, some, string_eq, sym, true, ℕ, ℤ, ◌++◌, ◌+◌, ◌-◌, ◌==◌,
  ◌∙◌, ◌≡◌, ◌≤◌, ◌⊎◌,
}
use wim.Gateway.Frames.{CommandResult}
use wim.Gateway.Session.{
  GatewaySession, ReliableWrite, acknowledge_transport, awaiting_loop, close, close_in_context,
  continue_loop, new_session, on_timer, on_written, resend, run_posted, send_raw, send_reliable,
  spawned_loop,
}
use wim.Gateway.Session.Login.{AuthResult, on_authenticated}
use wim.Gateway.Session.Packets.{
  Next, acknowledge, admit, dispatch, handle_packet, handle_request, is_transport, next_request_id,
  on_forwarded, on_refreshed, on_result, own_request_id, send_error, submit,
}
use wim.Gateway.Session.Queue.{
  Inv, close-Inv, close_in_context-Inv, new_session-Inv, on_written-Inv, post_reliable-Inv, pushes,
  run_first-Inv, send_raw-Inv, unwritten, write_first-Inv,
}
use wim.Prelude.Map.{insert, lookup}
use wim.Protocol.{ErrorCodes, ServiceId, error_value, get_service_response_id, service_value}
use wim.Wire.Packet.{Protobuf, TcpPacket, make_error_packet, unspecified_receipt, value_or}

-- One step. A write is reported only while one is awaited; WriteLoop begins where it was spawned.
pub data Step (pb : Protobuf) (to_string : ℕ → String) (s : GatewaySession)
    : GatewaySession → Type 0 where
  sends : (packet : List ℕ) (id : ℕ) → Step pb to_string s (send_raw packet id s).0
  sends_reliable :
      (packet : List ℕ) (id : ℕ) (seq : ℤ) → Step pb to_string s (send_reliable packet id seq s).0
  closes : Step pb to_string s (close s)
  runs_task : Step pb to_string s (run_posted s)
  begins_loop : s.loop ≡ spawned_loop → Step pb to_string s (continue_loop s)
  written_frame : (ok : Bool) → s.loop ≡ awaiting_loop → Step pb to_string s (on_written ok s)
  timer_fires : (seq : ℤ) → Step pb to_string s (on_timer seq s)
  reads_packet :
      (id : ℕ) (payload : List ℕ) (now unix_now : ℕ)
      → Step pb to_string s (handle_packet pb to_string id payload now unix_now s).0
  stops_reading : Step pb to_string s (close_in_context s)
  authenticated :
      (result : AuthResult) (now : ℕ) → Step pb to_string s (on_authenticated pb result now s)
  refreshed :
      (ok : Bool) (refreshed_at id : ℕ) (request : TcpPacket) (now unix_now : ℕ)
      → Step pb to_string s (on_refreshed pb to_string ok refreshed_at id request now unix_now s).0
  forwarded :
      (ok : Bool) (id : ℕ) (expect_response : Bool)
      → Step pb to_string s (on_forwarded pb to_string ok id expect_response s)
  results :
      (expect_response : Bool) (result : CommandResult)
      → Step pb to_string s (on_result expect_response result s)

pub data Run (pb : Protobuf) (to_string : ℕ → String) (s : GatewaySession)
    : GatewaySession → Type 0 where
  here : Run pb to_string s s
  next :
      {m n : GatewaySession} → Run pb to_string s m → Step pb to_string m n → Run pb to_string s n

abbrev pub Keeps : (GatewaySession → GatewaySession) → Type 0
Keeps f = (s : GatewaySession) → Inv s → Inv (f s)

send_reliable-Inv :
    (packet : List ℕ) (id : ℕ) (seq : ℤ) → Keeps (λ s. (send_reliable packet id seq s).0)
unfolding send_reliable
send_reliable-Inv packet id seq s v =
    if_elim (λ (r : GatewaySession × Bool). Inv r.0) (not (is_positive seq)) (λ _. sent)
      (λ _.
        if_elim (λ (r : GatewaySession × Bool). Inv r.0) (send_raw packet id s).1
          (λ _. post_reliable-Inv packet id seq (send_raw packet id s).0 sent) (λ _. sent))
  where
    sent : Inv (send_raw packet id s).0
    sent = send_raw-Inv packet id s v

on_timer-Inv : (seq : ℤ) → Keeps (on_timer seq)
unfolding on_timer
on_timer-Inv seq s v = resend-Inv (lookup seq s.reliable_writes)
  where
    resend-Inv : (w : Option ReliableWrite) → Inv (resend seq w s)
    resend-Inv none = v
    resend-Inv (some w) =
        if_elim Inv (leb 3 w.attempts) (λ _. v)
          (λ _.
            if_elim Inv (send_raw w.packet w.protocol_id (tried w)).1
              (λ _. send_raw-Inv w.packet w.protocol_id (tried w) v)
              (λ _. send_raw-Inv w.packet w.protocol_id (tried w) v))
      where
        tried : ReliableWrite → GatewaySession
        tried w = record s {
          reliable_writes = insert seq (record w { attempts = w.attempts + 1 }) s.reliable_writes;
        }

-- A packet is handled by sending at most one frame and by changes outside the write side.
admit-Inv : (now : ℕ) → Keeps (λ s. (admit now s).0)
unfolding admit
admit-Inv now s v = if_elim Inv (leb 1000 (now - s.rate_window_started)) (λ _. v) (λ _. v)

module _ (pb : Protobuf) (to_string : ℕ → String) where
  send_error-Inv :
      (id : ℕ) (code : ErrorCodes) (text : String) → Keeps (send_error pb to_string id code text)
  unfolding send_error
  send_error-Inv id code text s v =
      send_raw-Inv (pb.serialize (make_error_packet (error_value code) text))
        (get_service_response_id id) s v

  own_request_id-Inv : (name : Option String) → Keeps (λ s. (own_request_id pb to_string name s).0)
  unfolding next_request_id
  own_request_id-Inv none s v = v
  own_request_id-Inv (some name) s v =
      if_elim (λ (r : GatewaySession × String). Inv r.0) (is_empty name) (λ _. v) (λ _. v)

  submit-Inv :
      (id : ℕ) (request : TcpPacket) (now unix_now : ℕ)
      → Keeps (λ s. (submit pb to_string id request now unix_now s).0)
  unfolding submit
  submit-Inv id request now unix_now s v =
      if_elim (λ (r : GatewaySession × Next). Inv r.0) (not (admit now s).1)
        (λ _.
          send_error-Inv id ErrorCodes.resource_exhausted "connection command rate exceeded"
            (admit now s).0 (admit-Inv now s v))
        (λ _. own_request_id-Inv request.request_id (admit now s).0 (admit-Inv now s v))

  acknowledge-Inv : (seq : Option ℤ) → Keeps (acknowledge seq)
  unfolding acknowledge_transport
  acknowledge-Inv none s v = v
  acknowledge-Inv (some seq) s v = if_elim Inv (is_positive seq) (λ _. v) (λ _. v)

  dispatch-Inv :
      (id : ℕ) (request : TcpPacket) (now unix_now : ℕ)
      → Keeps (λ s. (dispatch pb to_string id request now unix_now s).0)
  unfolding dispatch
  dispatch-Inv id request now unix_now s v =
      if_elim P (id == service_value ServiceId.ping_req) (λ _. send_raw-Inv _ _ s v)
        (λ _.
          if_elim P (id == service_value ServiceId.user_quit_req) (λ _. send_raw-Inv _ _ s v)
            (λ _.
              if_elim P (id == service_value ServiceId.ack)
                (λ _.
                  if_elim P (is_transport (value_or unspecified_receipt request.receipt_type))
                    (λ _. acknowledge-Inv request.seq s v)
                    (λ _.
                      submit-Inv id request now unix_now (acknowledge request.seq s)
                        (acknowledge-Inv request.seq s v)))
                (λ _. submit-Inv id request now unix_now s v)))
    where
      P : GatewaySession × Next → Type 0
      P r = Inv r.0

  handle_request-Inv :
      (id : ℕ) (request : Option TcpPacket) (now unix_now : ℕ)
      → Keeps (λ s. (handle_request pb to_string id request now unix_now s).0)
  handle_request-Inv id none now unix_now s v =
      send_error-Inv id ErrorCodes.json_parser "invalid protobuf packet" s v
  handle_request-Inv id (some request) now unix_now s v =
      if_elim P (id == service_value ServiceId.login_init_req) (λ _. v)
        (λ _.
          if_elim P (not (is_positive s.user_id))
            (λ _.
              send_error-Inv id ErrorCodes.authentication_required
                "gateway session is not authenticated" s v)
            (λ _.
              if_elim P (leb 20000 (now - s.last_lease_refresh)) (λ _. v)
                (λ _. dispatch-Inv id request now unix_now s v)))
    where
      P : GatewaySession × Next → Type 0
      P r = Inv r.0

  Step-Inv : {s t : GatewaySession} → Step pb to_string s t → Inv s → Inv t
  unfolding handle_packet acknowledge_transport on_refreshed on_forwarded on_result on_authenticated
      run_posted continue_loop
  Step-Inv {s} (sends packet id) v = send_raw-Inv packet id s v
  Step-Inv {s} (sends_reliable packet id seq) v = send_reliable-Inv packet id seq s v
  Step-Inv {s} closes v = close-Inv s v
  Step-Inv {s} runs_task v = run_first-Inv s.posted s refl v
  Step-Inv {s} (begins_loop e) v =
      write_first-Inv s.write_queue s refl v (λ h. cc)
        (elim (Bool-cases s.write_active) [ inl h ↦ h | inr h ↦ absurd (cc (sym e ∙ v.1.0 h)) ])
  Step-Inv {s} (written_frame ok e) v = on_written-Inv ok s e v
  Step-Inv {s} (timer_fires seq) v = on_timer-Inv seq s v
  Step-Inv {s} (reads_packet id payload now unix_now) v =
      handle_request-Inv id (pb.parse payload) now unix_now s v
  Step-Inv {s} stops_reading v = close_in_context-Inv s v
  Step-Inv {s} (authenticated result now) v = send_raw-Inv _ _ _ (
      if_elim Inv (result.error == error_value ErrorCodes.success)
        {x = record s {
          lease = result.lease;
          user_id = value_or (pos 0) result.response.uid;
          last_lease_refresh = now;
        }}
        {y = s} (λ _. v) (λ _. v))
  Step-Inv {s} (refreshed true at id request now unix_now) v =
      dispatch-Inv id request now unix_now (record s { last_lease_refresh = at }) v
  Step-Inv {s} (refreshed false at id request now unix_now) v = close_in_context-Inv s v
  Step-Inv {s} (forwarded true id expect_response) v = v
  Step-Inv {s} (forwarded false id expect_response) v =
      if_elim Inv expect_response
        (λ _. send_error-Inv id ErrorCodes.dependency_unavailable "no healthy message stream" s v)
        (λ _. v)
  Step-Inv {s} (results expect_response result) v =
      if_elim Inv (result.error == error_value ErrorCodes.authentication_required)
        (λ _. close-Inv s v)
        (λ _.
          if_elim Inv (not expect_response) (λ _. v)
            (λ _. send_raw-Inv result.packet result.response_service_id s v))

  Run-Inv : {s t : GatewaySession} → Run pb to_string s t → Inv s → Inv t
  Run-Inv here v = v
  Run-Inv (next r st) v = Step-Inv st (Run-Inv r v)

-- In every history of a session: the counter of queued writes is the number of frames that wait in the
-- strand or in the write queue, and at most 10240; the session has closed, or the accepted frames are
-- those handed to the socket followed by those that wait, each once and in the order in which SendRaw
-- accepted them; and in both cases the frames handed to the socket begin the accepted ones.
pub session_history :
    (pb : Protobuf) (to_string : ℕ → String) (id : String) (now : ℕ) {t : GatewaySession}
    → Run pb to_string (new_session id now) t
    → (t.queued_writes ≡ length (pushes t.posted) + length t.write_queue)
      × (t.queued_writes ≤ 10240)
      × ((t.closed ≡ true)
          ⊎ (t.accepted ≡ t.written ++ (unwritten t.loop t.write_queue ++ pushes t.posted)))
      × ((rest : List (List ℕ)) × (t.accepted ≡ t.written ++ rest))
session_history pb to_string id now {t} r =
    let v = Run-Inv pb to_string r (new_session-Inv id now) in (v.0.0, v.0.1, in_order v, v.2.1)
  where
    in_order :
        Inv t
        → (t.closed ≡ true)
          ⊎ (t.accepted ≡ t.written ++ (unwritten t.loop t.write_queue ++ pushes t.posted))
    in_order v = elim (Bool-cases t.closed) [ inl gone ↦ inl gone | inr live ↦ inr (v.2.0 live) ]
