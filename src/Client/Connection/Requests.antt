-- ===== src/Client/Connection/Requests.antt =====
-- The requests in flight: QueueRequest, SendFront, CompleteFront, FailAllPending, the timeout of a
-- request and SendReceipt of ConnectionGatewayClient.cc. A response finds its request by its position in
-- the queue of its service id: the Gateway answers the requests of one kind in order.
use wim.Prelude.{
  Bool, List, Option, String, [], eqb, false, if◌then◌else◌, int_eq, is_positive, length, map,
  nat_eq, none, some, string_eq, true, ℕ, ℤ, ◌&&◌, ◌++◌, ◌==◌, ◌∷◌,
}
use wim.Client.Connection.{
  Connection, Output, PendingRequest, emit, failed_request, is_ready, next_sequence, protocol_error,
  response_received, send_packet, socket_write,
}
use wim.Client.FrameCodec.{DataStream, encode}
use wim.Client.Packet.{Packet, Serializer, blank_packet}
use wim.Prelude.Map.{Map, erase, insert, lookup}
use wim.Protocol.{
  ack, client_error_value, client_service_value, deadline_exceeded, dependency_unavailable,
  json_parser, response_for,
}
use wim.Wire.Packet.{ReceiptType, value_or}

-- A timer that was never created is not there to stop.
unfoldable pub stop_timer : ℕ → Map ℕ (Option ℕ) → Map ℕ (Option ℕ)
stop_timer k [] = []
stop_timer k ((j, t) ∷ m) = (j, if j == k then none else t) ∷ stop_timer k m

abbrev stop_timers : Map ℕ (Option ℕ) → Map ℕ (Option ℕ)
stop_timers [] = []
stop_timers ((k, t) ∷ m) = (k, none) ∷ stop_timers m

module _ (qt : DataStream) where
  -- The write of the request and the start of its timer.
  unfoldable pub transmit : ℕ → PendingRequest → Connection → Connection
  transmit response_id p c =
      emit (socket_write (encode qt p.request_service p.payload))
        (record c { request_timers = insert response_id (some p.timeout) c.request_timers })

  abbrev pub send_head : ℕ → Option (List PendingRequest) → Connection → Connection
  send_head response_id none c = c
  send_head response_id (some []) c = c
  send_head response_id (some (p ∷ rest)) c = if is_ready c then transmit response_id p c else c

  unfoldable pub send_front : ℕ → Connection → Connection
  send_front response_id c = send_head response_id (lookup response_id c.pending_by_response) c

  -- The tail of CompleteFront and of the timeout: an empty queue is erased, else its front is sent.
  abbrev pub settle : ℕ → Option (List PendingRequest) → Connection → Connection
  settle response_id none c = c
  settle response_id (some []) c = record c {
    pending_by_response = erase response_id c.pending_by_response;
  }
  settle response_id (some (p ∷ rest)) c = send_front response_id c

  unfoldable pub settle_front : ℕ → Connection → Connection
  settle_front response_id c = settle response_id (lookup response_id c.pending_by_response) c

  abbrev pub expire_head : ℕ → Option (List PendingRequest) → Connection → Connection
  expire_head response_id none c = c
  expire_head response_id (some []) c = c
  expire_head response_id (some (p ∷ rest)) c = settle_front response_id (
      emit
        (failed_request p.request_id p.request_service (client_error_value deadline_exceeded) true)
        (record c { pending_by_response = insert response_id rest c.pending_by_response }))

  -- The slot of a request's timer.
  unfoldable pub on_timeout : ℕ → Connection → Connection
  on_timeout response_id c =
      let stopped = record c { request_timers = stop_timer response_id c.request_timers } in
      expire_head response_id (lookup response_id c.pending_by_response) stopped

  module _ (pb : Serializer) where
    abbrev pub enqueue_request : PendingRequest → Connection → Connection
    enqueue_request p c =
        let queue = value_or [] (lookup p.response_service c.pending_by_response) in
        let c' = record c {
          pending_by_response = insert p.response_service (queue ++ (p ∷ [])) c.pending_by_response;
        } in
        if eqb (length (queue ++ (p ∷ []))) 1 then send_front p.response_service c' else c'

    abbrev pub queue_payload : String → ℕ → ℕ → Option (List ℕ) → Connection → Connection
    queue_payload request_id service timeout none c =
        emit (failed_request request_id service (client_error_value json_parser) false) c
    queue_payload request_id service timeout (some payload) c =
        enqueue_request
          record {
            request_id = request_id;
            request_service = service;
            response_service = response_for service;
            payload = payload;
            timeout = timeout;
          }
          c

    -- QUuid draws the id: it is an argument.
    unfoldable pub queue_request : String → ℕ → Packet → ℕ → Connection → Connection
    queue_request request_id service packet timeout c =
        let known = record c { issued = c.issued ++ (request_id ∷ []) } in
        let filled = record packet {
          request_id = some request_id;
          request_timeout_ms = some 3000;
        } in
        if is_ready c
        then queue_payload request_id service timeout (pb.serialize filled) known
        else emit
            (failed_request request_id service (client_error_value dependency_unavailable) false)
            known

    unfoldable pub send_receipt : ℤ → ReceiptType → ℤ → ℤ → Connection → Connection
    send_receipt message_id receipt conversation sequence c =
        let plain_receipt = record blank_packet {
          seq = some message_id;
          receipt_type = some receipt;
        } in
        let cursor = record plain_receipt {
          conversation_id = some conversation;
          conversation_seq = some sequence;
        } in
        if is_ready c && is_positive message_id
        then send_packet qt pb (client_service_value ack)
            (if is_positive conversation && is_positive sequence then cursor else plain_receipt) c
        else c

    -- What the listener of ResponseReceived may call back, while CompleteFront is running.
    pub data Call : Type 0 where
      queues : String → ℕ → Packet → ℕ → Call
      receipts : ℤ → ReceiptType → ℤ → ℤ → Call
      numbers : Call

    unfoldable pub perform : Call → Connection → Connection
    perform (queues request_id service packet timeout) c =
        queue_request request_id service packet timeout c
    perform (receipts message receipt conversation sequence) c =
        send_receipt message receipt conversation sequence c
    perform numbers c = (next_sequence c).0

    unfoldable pub perform_all : List Call → Connection → Connection
    perform_all [] c = c
    perform_all (k ∷ ks) c = perform_all ks (perform k c)

    abbrev pub complete_head :
        ℕ → List ℕ → List Call → Option (List PendingRequest) → Connection → Connection
    complete_head response_id payload calls none c = emit protocol_error c
    complete_head response_id payload calls (some []) c = emit protocol_error c
    complete_head response_id payload calls (some (p ∷ rest)) c = settle_front response_id (
        perform_all calls (
          emit (response_received p.request_id response_id payload) (record c {
            pending_by_response = insert response_id rest c.pending_by_response;
            request_timers = stop_timer response_id c.request_timers;
          })))

    -- The listener runs inside `emit ResponseReceived`, before the queue is looked at again.
    unfoldable pub complete_front : ℕ → List ℕ → List Call → Connection → Connection
    complete_front response_id payload calls c =
        complete_head response_id payload calls (lookup response_id c.pending_by_response) c

abbrev pub failure_of : ℕ → Bool → PendingRequest → Output
failure_of code unknown p = failed_request p.request_id p.request_service code unknown

-- Queue by queue, in the order of the map.
unfoldable pub failures : ℕ → Bool → Map ℕ (List PendingRequest) → List Output
failures code unknown [] = []
failures code unknown ((response_id, queue) ∷ m) =
    map (failure_of code unknown) queue ++ failures code unknown m

unfoldable pub fail_all_pending : ℕ → Bool → Connection → Connection
unfolding failures
fail_all_pending code unknown c = record c {
  request_timers = stop_timers c.request_timers;
  emitted = c.emitted ++ failures code unknown c.pending_by_response;
  pending_by_response = [];
}
