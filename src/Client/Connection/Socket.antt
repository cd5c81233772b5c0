-- ===== src/Client/Connection/Socket.antt =====
-- The life of the connection: the slots of the socket and of the timers, Open, Close, the reconnection and
-- the handling of frames of ConnectionGatewayClient.cc. The clock's answer `now` and Qt's generator
-- `bounded` (QRandomGenerator::bounded) are arguments; `slot` says what the listener of
-- ResponseReceived calls back for a frame. QTcpSocket::abort reports `disconnected` at once if the
-- socket is connected.
use wim.Prelude.{
  Bool, List, Option, [], eqb, false, if◌then◌else◌, leb, ltb, min, none, not, pos, pos_part, some,
  true, ℕ, ◌%◌, ◌&&◌, ◌*◌, ◌+◌, ◌/◌, ◌^◌, ◌||◌, ◌∷◌,
}
use wim.Client.Connection.{
  Connection, GateSession, authenticated, authenticating, closing, connecting, credentials_expired,
  disconnected, emit, is_ready, online, protocol_error, push_received, reconnecting, same_phase,
  send_packet, set_phase, socket_abort, socket_connect, socket_disconnect,
}
use wim.Client.Connection.Requests.{Call, complete_front, fail_all_pending}
use wim.Client.FrameCodec.{DataStream, feed, has_error, reset}
use wim.Client.Packet.{Packet, Serializer, blank_packet}
use wim.Protocol.{
  authentication_required, client_error_value, client_service_value, dependency_unavailable,
  login_init_req, login_init_rsp, ping_req, ping_rsp, success, token_invalid, user_quit_req,
  user_quit_rsp,
}
use wim.Wire.{TcpFrame}
use wim.Wire.Packet.{value_or}

unfoldable pub start_socket : Connection → Connection
start_socket c =
    if not c.desired_open
    then c
    else emit (socket_connect c.session.gateway_host c.session.gateway_port) (
        set_phase (if eqb c.reconnect_attempt 0 then connecting else reconnecting)
          (record c { codec = reset c.codec }))

unfoldable pub reconnect_base : ℕ → ℕ
reconnect_base attempt = min 10000 (200 * 2 ^ (min attempt 6))

unfoldable pub retry_delay : (ℕ → ℕ) → ℕ → ℕ
retry_delay bounded attempt =
    min 10000 (reconnect_base attempt + bounded (reconnect_base attempt / 4 + 1))

unfoldable pub token_expired : ℕ → Connection → Bool
token_expired now c = ltb 0 c.token_expires_at && leb c.token_expires_at now

unfoldable pub schedule_reconnect : ℕ → (ℕ → ℕ) → Connection → Connection
schedule_reconnect now bounded c =
    if token_expired now c
    then emit credentials_expired (set_phase disconnected (record c { desired_open = false }))
    else set_phase reconnecting (record c {
      reconnect_attempt = c.reconnect_attempt + 1;
      reconnect_timer = some (retry_delay bounded c.reconnect_attempt);
    })

-- The slot of `disconnected`.
unfoldable pub on_disconnected : ℕ → (ℕ → ℕ) → Connection → Connection
on_disconnected now bounded c =
    let idle = record c { socket_open = false; heartbeat_timer = false; codec = reset c.codec } in
    let failed = fail_all_pending (client_error_value dependency_unavailable) true idle in
    if failed.desired_open && not (same_phase failed.phase closing)
    then schedule_reconnect now bounded failed
    else set_phase disconnected failed

unfoldable pub abort_socket : ℕ → (ℕ → ℕ) → Connection → Connection
abort_socket now bounded c =
    if c.socket_open then on_disconnected now bounded (emit socket_abort c) else emit socket_abort c

-- `unconnected` is whether QTcpSocket::state() is UnconnectedState.
unfoldable pub open_session : ℕ → (ℕ → ℕ) → Bool → GateSession → Connection → Connection
open_session now bounded unconnected s c =
    let unwanted = record c { desired_open = false } in
    let dropped = if unconnected then unwanted else abort_socket now bounded unwanted in
    start_socket (record dropped {
      session = s;
      token_expires_at = now + pos_part s.token_expires_in_seconds * 1000;
      reconnect_attempt = 0;
      reconnect_timer = none;
      heartbeat_timer = false;
      desired_open = true;
    })

unfoldable pub on_close_timeout : Connection → Connection
on_close_timeout c = if same_phase c.phase closing then emit socket_disconnect c else c

-- The slot of `errorOccurred`.
unfoldable pub on_error : Connection → Connection
on_error c =
    if same_phase c.phase connecting || same_phase c.phase reconnecting
    then emit protocol_error c
    else c

unfoldable pub on_reconnect_timer : Connection → Connection
on_reconnect_timer c = start_socket (record c { reconnect_timer = none })

unfoldable pub login_packet : GateSession → Packet
login_packet s =
    let login = record blank_packet {
      uid = some s.uid;
      auth_token = some s.token;
      init = some s.profile_initialization_required;
    } in
    if s.profile_initialization_required
    then record login {
      name = some s.profile_name;
      age = some (pos 0);
      sex = some "";
      head_image_url = some "";
    }
    else login

module _ (qt : DataStream) (pb : Serializer) where
  unfoldable pub close_session : Bool → Connection → Connection
  close_session unconnected c =
      let unwanted = record c {
        desired_open = false;
        reconnect_timer = none;
        heartbeat_timer = false;
      } in
      if unconnected
      then set_phase disconnected unwanted
      else send_packet qt pb (client_service_value user_quit_req) blank_packet
          (set_phase closing unwanted)

  -- The slot of `connected`.
  unfoldable pub on_connected : Connection → Connection
  on_connected c =
      send_packet qt pb (client_service_value login_init_req) (login_packet c.session)
        (set_phase authenticating (record c { socket_open = true; reconnect_attempt = 0 }))

  unfoldable pub on_heartbeat : Connection → Connection
  on_heartbeat c =
      if is_ready c then send_packet qt pb (client_service_value ping_req) blank_packet c else c

  -- `desired_open_ = false`, the signal and disconnectFromHost.
  unfoldable pub login_refused : ℕ → Connection → Connection
  login_refused code c = emit socket_disconnect (
      emit
        (if eqb code (client_error_value token_invalid)
            || eqb code (client_error_value authentication_required)
          then credentials_expired
          else protocol_error)
        (record c { desired_open = false }))

  unfoldable pub login_accepted : Connection → Connection
  login_accepted c =
      let known = record c {
        session = record c.session { profile_initialization_required = false };
      } in
      let online' = set_phase online known in
      emit authenticated (record online' { heartbeat_timer = true })

  abbrev pub login_answer : ℕ → (ℕ → ℕ) → Option Packet → Connection → Connection
  login_answer now bounded none c =
      abort_socket now bounded (record (emit protocol_error c) { desired_open = false })
  login_answer now bounded (some p) c =
      if eqb (value_or 0 p.error) (client_error_value success)
      then login_accepted c
      else login_refused (value_or 0 p.error) c

  unfoldable pub handle_login_response : ℕ → (ℕ → ℕ) → List ℕ → Connection → Connection
  handle_login_response now bounded payload c = login_answer now bounded (pb.deserialize payload) c

  abbrev pub dispatch_frame :
      ℕ
      → (ℕ → ℕ)
      → (Connection → TcpFrame → List (Call qt pb))
      → TcpFrame
      → Option Packet
      → Connection
      → Connection
  dispatch_frame now bounded slot f none c = abort_socket now bounded (emit protocol_error c)
  dispatch_frame now bounded slot f (some p) c =
      if eqb (f.service_id % 2) 0
      then complete_front qt pb f.service_id f.payload (slot c f) c
      else emit (push_received f.service_id f.payload) c

  unfoldable pub handle_frame :
      ℕ → (ℕ → ℕ) → (Connection → TcpFrame → List (Call qt pb)) → TcpFrame → Connection → Connection
  handle_frame now bounded slot f c =
      if eqb f.service_id (client_service_value login_init_rsp)
      then handle_login_response now bounded f.payload c
      else if eqb f.service_id (client_service_value ping_rsp)
      then c
      else if eqb f.service_id (client_service_value user_quit_rsp)
      then emit socket_disconnect (record c { desired_open = false })
      else dispatch_frame now bounded slot f (pb.deserialize f.payload) c

  unfoldable pub handle_frames :
      ℕ
      → (ℕ → ℕ)
      → (Connection → TcpFrame → List (Call qt pb))
      → List TcpFrame
      → Connection
      → Connection
  handle_frames now bounded slot [] c = c
  handle_frames now bounded slot (f ∷ fs) c =
      handle_frames now bounded slot fs (handle_frame now bounded slot f c)

  -- The slot of `readyRead`.
  unfoldable pub on_ready_read :
      ℕ → (ℕ → ℕ) → (Connection → TcpFrame → List (Call qt pb)) → List ℕ → Connection → Connection
  on_ready_read now bounded slot bytes c =
      let (codec', frames) = feed qt c.codec bytes in
      let fed = record c { codec = codec' } in
      if has_error codec'
      then abort_socket now bounded (emit protocol_error fed)
      else handle_frames now bounded slot frames fed
