-- ===== src/Client/Connection.antt =====
-- The class ConnectionGatewayClient of client/src/adapters/connection_gateway/ConnectionGatewayClient.{h,cc}:
-- its state, and what it does to the socket and tells its listeners, kept in order in `emitted`.
-- The texts shown to the user are left out.
pub mod Requests
pub mod Ledger
pub mod Socket
pub mod History
pub mod Reentry
pub mod Delay
pub mod Outcome
pub mod Refusal
pub mod Commands
use wim.Prelude.{
  Bool, List, Option, String, [], eqb, false, if◌then◌else◌, max, none, pos, some, ℕ, ℤ, ◌++◌, ◌+◌,
  ◌∷◌,
}
use wim.Client.FrameCodec.{DataStream, TcpFrameCodec, encode}
use wim.Client.Packet.{Packet, Serializer}
use wim.Prelude.Map.{Map}

-- GateSession of client/src/adapters/gate/GateHttpClient.h, without the Gateway's id, which is not read.
pub record GateSession : Type 0 where
  pub uid : ℤ
  pub gateway_host : String
  pub gateway_port : ℕ
  pub token : String
  pub token_expires_in_seconds : ℤ
  pub profile_name : String
  pub profile_initialization_required : Bool

-- The enum class State.
pub data Phase : Type 0 where
  disconnected connecting authenticating online reconnecting closing : Phase

abbrev pub phase_value : Phase → ℕ
phase_value disconnected = 0
phase_value connecting = 1
phase_value authenticating = 2
phase_value online = 3
phase_value reconnecting = 4
phase_value closing = 5

abbrev pub same_phase : Phase → Phase → Bool
same_phase a b = eqb (phase_value a) (phase_value b)

pub record PendingRequest : Type 0 where
  pub request_id : String
  pub request_service : ℕ
  pub response_service : ℕ
  pub payload : List ℕ
  pub timeout : ℕ

-- A call of the socket or a signal. `failed_request` carries the id, the service, the error code and
-- `outcomeUnknown`.
pub data Output : Type 0 where
  socket_write : List ℕ → Output
  socket_abort socket_disconnect : Output
  socket_connect : String → ℕ → Output
  phase_changed : Phase → Output
  authenticated credentials_expired protocol_error : Output
  response_received : String → ℕ → List ℕ → Output
  push_received : ℕ → List ℕ → Output
  failed_request : String → ℕ → ℕ → Bool → Output

-- A timer runs with the interval it was started with, or is stopped. `socket_open` is whether the
-- QTcpSocket is connected; `issued` collects the ids that QueueRequest has returned.
pub record Connection : Type 0 where
  pub phase : Phase
  pub desired_open : Bool
  pub session : GateSession
  pub token_expires_at : ℕ
  pub next_legacy_sequence : ℕ
  pub reconnect_attempt : ℕ
  pub codec : TcpFrameCodec
  pub socket_open : Bool
  pub heartbeat_timer : Bool
  pub reconnect_timer : Option ℕ
  pub pending_by_response : Map ℕ (List PendingRequest)
  pub request_timers : Map ℕ (Option ℕ)
  pub emitted : List Output
  pub issued : List String

abbrev no_session : GateSession
no_session = record {
  uid = pos 0;
  gateway_host = "";
  gateway_port = 0;
  token = "";
  token_expires_in_seconds = pos 0;
  profile_name = "";
  profile_initialization_required = false;
}

unfoldable pub new_connection : ℕ → Connection
new_connection now = record {
  phase = disconnected;
  desired_open = false;
  session = no_session;
  token_expires_at = 0;
  next_legacy_sequence = max 1 now;
  reconnect_attempt = 0;
  codec = record { buffer = []; error = "" };
  socket_open = false;
  heartbeat_timer = false;
  reconnect_timer = none;
  pending_by_response = [];
  request_timers = [];
  emitted = [];
  issued = [];
}

abbrev pub emit : Output → Connection → Connection
emit o c = record c { emitted = c.emitted ++ (o ∷ []) }

unfoldable pub is_ready : Connection → Bool
is_ready c = same_phase c.phase online

-- SetState
unfoldable pub set_phase : Phase → Connection → Connection
set_phase p c = if same_phase c.phase p then c else emit (phase_changed p) (record c { phase = p })

abbrev pub write_payload : DataStream → ℕ → Option (List ℕ) → Connection → Connection
write_payload qt service none c = emit protocol_error c
write_payload qt service (some payload) c = emit (socket_write (encode qt service payload)) c

unfoldable pub send_packet : DataStream → Serializer → ℕ → Packet → Connection → Connection
send_packet qt pb service packet c = write_payload qt service (pb.serialize packet) c

unfoldable pub next_sequence : Connection → Connection × ℕ
next_sequence c =
    (record c { next_legacy_sequence = c.next_legacy_sequence + 1 }, c.next_legacy_sequence)
