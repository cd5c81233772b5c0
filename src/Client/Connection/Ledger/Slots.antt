-- ===== src/Client/Connection/Ledger/Slots.antt =====
-- The slots of the socket and the timers, Open and Close keep the balance of every request id.
use wim.Prelude.{
  Bool, List, Option, String, [], eqb, false, if_elim, if◌then◌else◌, none, not, refl, some, true,
  ℕ, ◌%◌, ◌&&◌, ◌||◌, ◌∷◌, ◌≡◌,
}
use wim.Client.Connection.{
  Connection, GateSession, Phase, authenticated, authenticating, closing, connecting,
  credentials_expired, disconnected, emit, is_ready, online, protocol_error, push_received,
  reconnecting, same_phase, set_phase, socket_abort, socket_connect, socket_disconnect,
}
use wim.Client.Connection.Ledger.{Inv, answers, emit-Inv, send_packet-Inv, set_phase-Inv}
use wim.Client.Connection.Ledger.Queues.{complete_front-Inv, fail_all_pending-Inv}
use wim.Client.Connection.Requests.{Call, fail_all_pending}
use wim.Client.Connection.Socket.{
  abort_socket, close_session, dispatch_frame, handle_frame, handle_frames, handle_login_response,
  login_accepted, login_answer, login_packet, login_refused, on_close_timeout, on_connected,
  on_disconnected, on_error, on_heartbeat, on_ready_read, on_reconnect_timer, open_session,
  schedule_reconnect, start_socket, token_expired,
}
use wim.Client.FrameCodec.{DataStream, feed, has_error, reset}
use wim.Client.Packet.{Packet, Serializer, blank_packet}
use wim.Protocol.{
  authentication_required, client_error_value, client_service_value, dependency_unavailable,
  login_init_req, login_init_rsp, ping_req, ping_rsp, success, token_invalid, user_quit_req,
  user_quit_rsp,
}
use wim.Wire.{TcpFrame}
use wim.Wire.Packet.{value_or}

module _ (k : String) where
  pub start_socket-Inv : (c : Connection) → Inv k c → Inv k (start_socket c)
  unfolding start_socket
  start_socket-Inv c v =
      if_elim (Inv k) (not c.desired_open) (λ _. v)
        (λ _.
          let p = if eqb c.reconnect_attempt 0 then connecting else reconnecting in
          let c' : Connection = record c { codec = reset c.codec } in
          emit-Inv k (socket_connect c.session.gateway_host c.session.gateway_port) (set_phase p c')
            refl (set_phase-Inv k p c' v))

  module _ (now : ℕ) (bounded : ℕ → ℕ) where
    schedule_reconnect-Inv : (c : Connection) → Inv k c → Inv k (schedule_reconnect now bounded c)
    unfolding schedule_reconnect
    schedule_reconnect-Inv c v =
        if_elim (Inv k) (token_expired now c)
          (λ _.
            let c' : Connection = record c { desired_open = false } in
            emit-Inv k credentials_expired (set_phase disconnected c') refl
              (set_phase-Inv k disconnected c' v))
          (λ _. set_phase-Inv k reconnecting _ v)

    pub on_disconnected-Inv : (c : Connection) → Inv k c → Inv k (on_disconnected now bounded c)
    unfolding on_disconnected
    on_disconnected-Inv c v =
        let idle : Connection = record c {
          socket_open = false;
          heartbeat_timer = false;
          codec = reset c.codec;
        } in
        let quiet = fail_all_pending (client_error_value dependency_unavailable) true idle in
        let w : Inv k quiet =
          fail_all_pending-Inv k (client_error_value dependency_unavailable) true idle v in
        if_elim (Inv k) (quiet.desired_open && not (same_phase quiet.phase closing))
          (λ _. schedule_reconnect-Inv quiet w) (λ _. set_phase-Inv k disconnected quiet w)

    pub abort_socket-Inv : (c : Connection) → Inv k c → Inv k (abort_socket now bounded c)
    unfolding abort_socket
    abort_socket-Inv c v =
        let w = emit-Inv k socket_abort c refl v in
        if_elim (Inv k) c.socket_open (λ _. on_disconnected-Inv (emit socket_abort c) w) (λ _. w)

    pub open_session-Inv :
        (unconnected : Bool) (s : GateSession) (c : Connection)
        → Inv k c
        → Inv k (open_session now bounded unconnected s c)
    unfolding open_session
    open_session-Inv true s c v = start_socket-Inv _ v
    open_session-Inv false s c v =
        start_socket-Inv _ (abort_socket-Inv (record c { desired_open = false }) v)

  pub on_close_timeout-Inv : (c : Connection) → Inv k c → Inv k (on_close_timeout c)
  unfolding on_close_timeout
  on_close_timeout-Inv c v =
      if_elim (Inv k) (same_phase c.phase closing) (λ _. emit-Inv k socket_disconnect c refl v)
        (λ _. v)

  pub on_error-Inv : (c : Connection) → Inv k c → Inv k (on_error c)
  unfolding on_error
  on_error-Inv c v =
      if_elim (Inv k) (same_phase c.phase connecting || same_phase c.phase reconnecting)
        (λ _. emit-Inv k protocol_error c refl v) (λ _. v)

  pub on_reconnect_timer-Inv : (c : Connection) → Inv k c → Inv k (on_reconnect_timer c)
  unfolding on_reconnect_timer
  on_reconnect_timer-Inv c v = start_socket-Inv (record c { reconnect_timer = none }) v

  module _ (qt : DataStream) (pb : Serializer) where
    pub close_session-Inv :
        (unconnected : Bool) (c : Connection) → Inv k c → Inv k (close_session qt pb unconnected c)
    unfolding close_session
    close_session-Inv true c v = set_phase-Inv k disconnected _ v
    close_session-Inv false c v =
        send_packet-Inv k qt pb (client_service_value user_quit_req) blank_packet _
          (set_phase-Inv k closing _ v)

    pub on_connected-Inv : (c : Connection) → Inv k c → Inv k (on_connected qt pb c)
    unfolding on_connected
    on_connected-Inv c v =
        send_packet-Inv k qt pb (client_service_value login_init_req) (login_packet c.session) _
          (set_phase-Inv k authenticating _ v)

    pub on_heartbeat-Inv : (c : Connection) → Inv k c → Inv k (on_heartbeat qt pb c)
    unfolding on_heartbeat
    on_heartbeat-Inv c v =
        if_elim (Inv k) (is_ready c)
          (λ _. send_packet-Inv k qt pb (client_service_value ping_req) blank_packet c v) (λ _. v)

    login_refused-Inv : (code : ℕ) (c : Connection) → Inv k c → Inv k (login_refused qt pb code c)
    unfolding login_refused
    login_refused-Inv code c v =
        let hard =
          eqb code (client_error_value token_invalid)
          || eqb code (client_error_value authentication_required) in
        let c' : Connection = record c { desired_open = false } in
        let o = if hard then credentials_expired else protocol_error in
        emit-Inv k socket_disconnect (emit o c') refl
          (emit-Inv k o c' (if_elim (λ x. answers k x ≡ 0) hard (λ _. refl) (λ _. refl)) v)

    login_accepted-Inv : (c : Connection) → Inv k c → Inv k (login_accepted qt pb c)
    unfolding login_accepted
    login_accepted-Inv c v =
        let known : Connection = record c {
          session = record c.session { profile_initialization_required = false };
        } in
        let accepted : Connection = record (set_phase online known) { heartbeat_timer = true } in
        emit-Inv k authenticated accepted refl (set_phase-Inv k online known v)

    login_answer-Inv :
        (now : ℕ) (bounded : ℕ → ℕ) (o : Option Packet) (c : Connection)
        → Inv k c
        → Inv k (login_answer qt pb now bounded o c)
    login_answer-Inv now bounded none c v =
        abort_socket-Inv now bounded _ (emit-Inv k protocol_error c refl v)
    login_answer-Inv now bounded (some p) c v =
        if_elim (Inv k) (eqb (value_or 0 p.error) (client_error_value success))
          (λ _. login_accepted-Inv c v) (λ _. login_refused-Inv (value_or 0 p.error) c v)

    module _ (now : ℕ) (bounded : ℕ → ℕ) (slot : Connection → TcpFrame → List (Call qt pb)) where
      dispatch_frame-Inv :
          (f : TcpFrame) (o : Option Packet) (c : Connection)
          → Inv k c
          → Inv k (dispatch_frame qt pb now bounded slot f o c)
      dispatch_frame-Inv f none c v =
          abort_socket-Inv now bounded _ (emit-Inv k protocol_error c refl v)
      dispatch_frame-Inv f (some p) c v =
          if_elim (Inv k) (eqb (f.service_id % 2) 0)
            (λ _. complete_front-Inv k qt pb f.service_id f.payload (slot c f) c v)
            (λ _. emit-Inv k (push_received f.service_id f.payload) c refl v)

      handle_frame-Inv :
          (f : TcpFrame) (c : Connection)
          → Inv k c
          → Inv k (handle_frame qt pb now bounded slot f c)
      unfolding handle_frame handle_login_response
      handle_frame-Inv f c v =
          if_elim (Inv k) (eqb f.service_id (client_service_value login_init_rsp))
            (λ _. login_answer-Inv now bounded (pb.deserialize f.payload) c v)
            (λ _.
              if_elim (Inv k) (eqb f.service_id (client_service_value ping_rsp)) (λ _. v)
                (λ _.
                  if_elim (Inv k) (eqb f.service_id (client_service_value user_quit_rsp))
                    (λ _. emit-Inv k socket_disconnect (record c { desired_open = false }) refl v)
                    (λ _. dispatch_frame-Inv f (pb.deserialize f.payload) c v)))

      handle_frames-Inv :
          (fs : List TcpFrame) (c : Connection)
          → Inv k c
          → Inv k (handle_frames qt pb now bounded slot fs c)
      unfolding handle_frames
      handle_frames-Inv [] c v = v
      handle_frames-Inv (f ∷ fs) c v =
          handle_frames-Inv fs (handle_frame qt pb now bounded slot f c) (handle_frame-Inv f c v)

      pub on_ready_read-Inv :
          (bytes : List ℕ) (c : Connection)
          → Inv k c
          → Inv k (on_ready_read qt pb now bounded slot bytes c)
      unfolding on_ready_read
      on_ready_read-Inv bytes c v =
          let fed : Connection = record c { codec = (feed qt c.codec bytes).0 } in
          if_elim (Inv k) (has_error fed.codec)
            (λ _. abort_socket-Inv now bounded _ (emit-Inv k protocol_error fed refl v))
            (λ _. handle_frames-Inv (feed qt c.codec bytes).1 fed v)

abbrev Cleared : List String → Connection → Type 0
Cleared ids c = (c.pending_by_response ≡ []) × (c.issued ≡ ids)

set_phase-Cleared :
    (ids : List String) (p : Phase) (c : Connection) → Cleared ids c → Cleared ids (set_phase p c)
unfolding set_phase
set_phase-Cleared ids p c v = if_elim (Cleared ids) (same_phase c.phase p) (λ _. v) (λ _. v)

pub on_disconnected_kept :
    (now : ℕ) (bounded : ℕ → ℕ) (c : Connection)
    → ((on_disconnected now bounded c).pending_by_response ≡ [])
      × ((on_disconnected now bounded c).issued ≡ c.issued)
unfolding on_disconnected schedule_reconnect fail_all_pending
on_disconnected_kept now bounded c =
    let P = Cleared c.issued in
    if_elim P (c.desired_open && not (same_phase c.phase closing))
      (λ _.
        if_elim P (token_expired now _)
          (λ _. set_phase-Cleared c.issued disconnected _ (refl, refl))
          (λ _. set_phase-Cleared c.issued reconnecting _ (refl, refl)))
      (λ _. set_phase-Cleared c.issued disconnected _ (refl, refl))
