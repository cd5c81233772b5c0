-- ===== src/Examples/Connection.antt =====
-- The client's connection at concrete inputs. The stand-in for Qt's serializer writes the packet's bytes
-- and reads a first byte as the error code.
use wim.Prelude.{
  List, Option, [], arith, false, int_eq, min, nat_eq, pos, refl, some, string_eq, true, ℕ, ◌*◌,
  ◌++◌, ◌+◌, ◌-◌, ◌^◌, ◌∷◌, ◌≡◌, ◌≤◌, ◌⊎◌,
}
use wim.Client.Connection.{
  Connection, GateSession, disconnected, is_ready, new_connection, online, response_received,
  send_packet, set_phase, socket_write,
}
use wim.Client.Connection.Delay.{retry_delay_bounds}
use wim.Client.Connection.History.{
  Run, asks, connects, disconnected_answers, here, next, opens, reads, request_ledger,
}
use wim.Client.Connection.Ledger.{answered, awaiting, count}
use wim.Client.Connection.Outcome.{Queued, Refused, queue_request_outcome}
use wim.Client.Connection.Reentry.{reentrant_request, request}
use wim.Client.Connection.Refusal.{after_login, refused_login}
use wim.Client.Connection.Requests.{Call, complete_front, perform, queue_request, queues}
use wim.Client.Connection.Socket.{
  handle_frame, handle_frames, handle_login_response, login_accepted, on_connected, on_disconnected,
  on_ready_read, on_reconnect_timer, open_session, retry_delay, start_socket,
}
use wim.Client.FrameCodec.{encode, feed, feed_loop, has_error, network_stream, read_header}
use wim.Client.Packet.{Packet, Serializer, blank_packet}
use wim.Prelude.Map.{lookup, sum_by}
use wim.Protocol.{client_error_value, client_service_value, response_for}
use wim.Wire.{TcpFrame}
use wim.Wire.Packet.{value_or}
use wim.Wire.Word.{be32, read_be32}

abbrev bytes_only : Serializer
bytes_only = record { serialize = λ p. some (value_or [] p.data_bytes); deserialize = first_error }
  where
    first_error : List ℕ → Option Packet
    first_error [] = some blank_packet
    first_error (e ∷ bytes) = some (record blank_packet { error = some e })

abbrev visit : GateSession
visit = record {
  uid = pos 7;
  gateway_host = "gw";
  gateway_port = 9000;
  token = "t";
  token_expires_in_seconds = pos 3600;
  profile_name = "";
  profile_initialization_required = false;
}

abbrev no_calls : Connection → TcpFrame → List (Call network_stream bytes_only)
no_calls c f = []

abbrev opened : Connection
opened = open_session 1000 (λ n. 0) true visit (new_connection 5)

abbrev linked : Connection
linked = on_connected network_stream bytes_only opened

abbrev logged_in : Connection
logged_in =
    on_ready_read network_stream bytes_only 2000 (λ n. 0) no_calls (encode network_stream 1014 [])
      linked

abbrev asked : Connection
asked = perform network_stream bytes_only (queues "r1" 1001 blank_packet 5000) logged_in

abbrev asked_run : Run network_stream bytes_only (new_connection 5) asked
asked_run =
    next
      (next (next (next here (opens 1000 (λ n. 0) true visit)) connects)
        (reads 2000 (λ n. 0) no_calls (encode network_stream 1014 [])))
      (asks (queues "r1" 1001 blank_packet 5000))

request_ledger_example :
    count "r1" asked.issued
    ≡ answered "r1" asked.emitted + sum_by (awaiting "r1") asked.pending_by_response
request_ledger_example = request_ledger network_stream bytes_only "r1" 5 asked_run

disconnected_answers_example :
    (answered "r1" (on_disconnected 3000 (λ n. 0) asked).emitted ≡ count "r1" asked.issued)
    × ((on_disconnected 3000 (λ n. 0) asked).pending_by_response ≡ [])
disconnected_answers_example =
    disconnected_answers network_stream bytes_only "r1" 5 3000 (λ n. 0) asked_run

retry_delay_bounds_example :
    (min 10000 (200 * 2 ^ 3) ≤ retry_delay (λ n. n - 1) 3)
    × (4 * retry_delay (λ n. n - 1) 3 ≤ 5 * min 10000 (200 * 2 ^ 3))
    × (retry_delay (λ n. n - 1) 3 ≤ 10000)
retry_delay_bounds_example = retry_delay_bounds (λ n. n - 1) 3 (λ n h. omega arith)

abbrev paged : Connection
paged = record (new_connection 5) {
  phase = online;
  pending_by_response = (1006, request network_stream bytes_only "r1" 1005 5000 [] ∷ []) ∷ [];
}

abbrev answered_page : Connection
answered_page =
    complete_front network_stream bytes_only (response_for 1005) []
      (queues "r2" 1005 blank_packet 5000 ∷ []) paged

reentrant_request_example :
    (answered_page.emitted
      ≡ paged.emitted
        ++ (response_received "r1" (response_for 1005) []
            ∷ socket_write (encode network_stream 1005 [])
            ∷ socket_write (encode network_stream 1005 [])
            ∷ []))
    × (lookup (response_for 1005) answered_page.pending_by_response
        ≡ some (request network_stream bytes_only "r2" 1005 5000 [] ∷ []))
unfolding is_ready lookup response_for
reentrant_request_example =
    reentrant_request network_stream bytes_only "r2" 1005 5000 blank_packet [] refl
      (request network_stream bytes_only "r1" 1005 5000 []) [] paged refl refl

queue_request_outcome_example :
    Refused network_stream bytes_only "r1" 1001
      (new_connection 5)
      (queue_request network_stream bytes_only "r1" 1001 blank_packet 5000 (new_connection 5))
    ⊎ Queued network_stream bytes_only "r1" 1001 5000
        (new_connection 5)
        (queue_request network_stream bytes_only "r1" 1001 blank_packet 5000 (new_connection 5))
queue_request_outcome_example =
    queue_request_outcome network_stream bytes_only "r1" 1001 blank_packet 5000 (new_connection 5)

abbrev turned_away : Connection
turned_away = after_login network_stream bytes_only 3000 (λ n. 0) (10 ∷ []) linked

refused_login_example :
    (turned_away.phase ≡ disconnected)
    × (turned_away.desired_open ≡ false)
    × (turned_away.reconnect_timer ≡ linked.reconnect_timer)
    × ((on_reconnect_timer turned_away).emitted ≡ turned_away.emitted)
unfolding client_error_value
refused_login_example =
    refused_login network_stream bytes_only 3000 (λ n. 0) (10 ∷ [])
      (record blank_packet { error = some 10 }) linked refl refl

-- The login response leads to a connection that is online, and the request is written.
logged_in_phase : logged_in.phase ≡ online
unfolding new_connection open_session start_socket on_connected on_ready_read set_phase send_packet
    handle_frames handle_frame handle_login_response login_accepted feed feed_loop read_header
    has_error encode response_for client_service_value client_error_value be32 read_be32
logged_in_phase = refl
