-- ===== src/Gateway/Session/Packets.antt =====
-- GatewaySession::HandlePacket, cut where it waits for the business pool or for the Message node:
-- `handle_packet`, then `on_authenticated` or `on_refreshed`, then `on_forwarded` and `on_result`.
-- Tasks of the strand run in between.
use Prim.Native.String
use wim.Prelude.{
  Bool, List, Option, String, false, if◌then◌else◌, int_eq, is_empty, is_positive, leb, ltb, min,
  nat_eq, none, not, pos, some, string_eq, true, ℕ, ℤ, ◌%◌, ◌+◌, ◌-◌, ◌==◌, ◌^◌,
}
use wim.Gateway.Frames.{CommandEnvelope, CommandResult}
use wim.Gateway.Lease.{SessionLease}
use wim.Gateway.Session.{GatewaySession, acknowledge_transport, close, close_in_context, send_raw}
use wim.Protocol.{ErrorCodes, ServiceId, error_value, get_service_response_id, service_value}
use wim.Wire.Packet.{
  Protobuf, ReceiptType, TcpPacket, empty_packet, make_error_packet, transport_receipt,
  unspecified_receipt, value_or,
}

-- How a part of `HandlePacket` ends: for good, at `Authenticate`, at `registry.Refresh` with the user
-- and the lease, or at `messageLinks.Forward` with the command and whether a response is expected.
pub data Next : Type 0 where
  handled : Next
  authenticating : TcpPacket → Next
  refreshing : ℤ → SessionLease → Next
  forwarding : CommandEnvelope → Bool → Next

abbrev pub default_request_timeout : ℕ
default_request_timeout = 3000

-- `has_request_timeout_ms() && request_timeout_ms() > 0 ? min(...) : default`
abbrev pub request_timeout : Option ℕ → ℕ
request_timeout none = default_request_timeout
request_timeout (some ms) =
    if ltb 0 ms then min default_request_timeout ms else default_request_timeout

abbrev pub is_transport : ReceiptType → Bool
is_transport transport_receipt = true
is_transport _ = false

-- The rate limiter: the state that the command leaves behind, and whether it may go on. The counter is
-- an unsigned int.
unfoldable pub admit : ℕ → GatewaySession → GatewaySession × Bool
admit now s =
    let window =
      if leb 1000 (now - s.rate_window_started)
      then record s { rate_window_started = now; commands_in_rate_window = 0 }
      else s in
    let count = (window.commands_in_rate_window + 1) % 2 ^ 32 in
    (record window { commands_in_rate_window = count }, not (ltb 100 count))

-- `if (request.has_seq() && request.seq() > 0) AcknowledgeTransport(request.seq())`
abbrev pub acknowledge : Option ℤ → GatewaySession → GatewaySession
acknowledge none s = s
acknowledge (some seq) s = if is_positive seq then acknowledge_transport seq s else s

module _ (pb : Protobuf) (to_string : ℕ → String) where
  unfoldable pub send_error : ℕ → ErrorCodes → String → GatewaySession → GatewaySession
  unfolding send_raw make_error_packet error_value get_service_response_id
  send_error request_id code text s =
      (send_raw (pb.serialize (make_error_packet (error_value code) text))
        (get_service_response_id request_id) s).0

  -- The counter is a uint64_t.
  unfoldable pub next_request_id : GatewaySession → GatewaySession × String
  next_request_id s =
      let sequence = (s.request_sequence + 1) % 2 ^ 64 in
      (
        record s { request_sequence = sequence },
        String.◌++◌ s.connection_id (String.◌++◌ ":" (to_string sequence)),
      )

  abbrev pub own_request_id : Option String → GatewaySession → GatewaySession × String
  own_request_id none s = next_request_id s
  own_request_id (some id) s = if is_empty id then next_request_id s else (s, id)

  -- The command for the Message node; `unix_now` is NowUnixMilliseconds().
  unfoldable pub envelope : ℕ → ℕ → TcpPacket → String → GatewaySession → CommandEnvelope
  envelope protocol_id unix_now request request_id s = record {
    request_id = request_id;
    actor_uid = s.user_id;
    connection_id = s.connection_id;
    connection_generation = s.lease.generation;
    service_id = protocol_id;
    conversation_id = value_or (pos 0) request.conversation_id;
    deadline_unix_ms = unix_now + request_timeout request.request_timeout_ms;
    packet = pb.serialize (record request { uid = some s.user_id; request_id = some request_id });
  }

  -- The rate limit and the envelope.
  unfoldable pub submit : ℕ → TcpPacket → ℕ → ℕ → GatewaySession → GatewaySession × Next
  unfolding admit next_request_id envelope send_error service_value
  submit protocol_id request now unix_now s =
      let rated = admit now s in
      if not rated.1
      then (
        send_error protocol_id ErrorCodes.resource_exhausted "connection command rate exceeded"
            rated.0,
        handled,
      )
      else let named = own_request_id request.request_id rated.0 in
        (
          named.0,
          forwarding (envelope protocol_id unix_now request named.1 named.0)
              (not (protocol_id == service_value ServiceId.ack)),
        )

  -- PING, QUIT and ACK are the Gateway's own; what is left goes to `submit`.
  unfoldable pub dispatch : ℕ → TcpPacket → ℕ → ℕ → GatewaySession → GatewaySession × Next
  unfolding submit send_raw service_value error_value acknowledge_transport
  dispatch protocol_id request now unix_now s =
      if protocol_id == service_value ServiceId.ping_req
      then (
        (send_raw
            (pb.serialize (record empty_packet {
              uid = some s.user_id;
              error = some (error_value ErrorCodes.success);
            }))
            (service_value ServiceId.ping_rsp) s).0,
        handled,
      )
      else if protocol_id == service_value ServiceId.user_quit_req
      then (
        record (send_raw
            (pb.serialize (record empty_packet { error = some (error_value ErrorCodes.success) }))
            (service_value ServiceId.user_quit_rsp) s).0 { close_after_write = true },
        handled,
      )
      else if protocol_id == service_value ServiceId.ack
      then (let s' = acknowledge request.seq s in
          if is_transport (value_or unspecified_receipt request.receipt_type)
          then (s', handled)
          else submit protocol_id request now unix_now s')
      else submit protocol_id request now unix_now s

  -- Up to the first wait, for the packet that ParseTcpPacket yields; `now` is the steady clock.
  abbrev pub handle_request : ℕ → Option TcpPacket → ℕ → ℕ → GatewaySession → GatewaySession × Next
  handle_request protocol_id none now unix_now s =
      (send_error protocol_id ErrorCodes.json_parser "invalid protobuf packet" s, handled)
  handle_request protocol_id (some request) now unix_now s =
      if protocol_id == service_value ServiceId.login_init_req
      then (s, authenticating request)
      else if not (is_positive s.user_id)
      then (
        send_error protocol_id ErrorCodes.authentication_required
            "gateway session is not authenticated" s,
        handled,
      )
      else if leb 20000 (now - s.last_lease_refresh)
      then (s, refreshing s.user_id s.lease)
      else dispatch protocol_id request now unix_now s

  unfoldable pub handle_packet : ℕ → List ℕ → ℕ → ℕ → GatewaySession → GatewaySession × Next
  unfolding dispatch send_error service_value
  handle_packet protocol_id payload now unix_now s =
      handle_request protocol_id (pb.parse payload) now unix_now s

  -- After `registry.Refresh` for the packet that waited for it. `refreshed_at` is the clock then.
  unfoldable pub on_refreshed :
      Bool → ℕ → ℕ → TcpPacket → ℕ → ℕ → GatewaySession → GatewaySession × Next
  unfolding dispatch close_in_context
  on_refreshed false refreshed_at protocol_id request now unix_now s = (close_in_context s, handled)
  on_refreshed true refreshed_at protocol_id request now unix_now s =
      dispatch protocol_id request now unix_now (record s { last_lease_refresh = refreshed_at })

  -- After `messageLinks.Forward`.
  unfoldable pub on_forwarded : Bool → ℕ → Bool → GatewaySession → GatewaySession
  unfolding send_error
  on_forwarded true protocol_id expect_response s = s
  on_forwarded false protocol_id expect_response s =
      if expect_response
      then send_error protocol_id ErrorCodes.dependency_unavailable "no healthy message stream" s
      else s

-- The callback of a forwarded command, while the session lives.
unfoldable pub on_result : Bool → CommandResult → GatewaySession → GatewaySession
unfolding close send_raw error_value
on_result expect_response result s =
    if result.error == error_value ErrorCodes.authentication_required
    then close s
    else if not expect_response
    then s
    else (send_raw result.packet result.response_service_id s).0
