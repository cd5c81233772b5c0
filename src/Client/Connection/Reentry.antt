-- ===== src/Client/Connection/Reentry.antt =====
-- A listener that queues a request while CompleteFront is running, as AppController does for the next
-- page of a conversation (client/src/app/AppController.cc, HandleGatewayResponse).
use wim.Prelude.{
  List, String, [], append_assoc, int_eq, nat_eq, refl, some, string_eq, true, ℕ, ◌++◌, ◌∷◌, ◌≡◌,
}
use wim.Client.Connection.{
  Connection, Output, PendingRequest, emit, is_ready, response_received, socket_write,
}
use wim.Client.Connection.Requests.{
  complete_front, perform, perform_all, queue_request, queues, send_front, settle_front, stop_timer,
  transmit,
}
use wim.Client.FrameCodec.{DataStream, encode}
use wim.Client.Packet.{Packet, Serializer}
use wim.Prelude.Map.{insert, lookup, lookup_inserted}
use wim.Protocol.{response_for}

module _ (qt : DataStream) (pb : Serializer) where
  pub send_front-transmit :
      (r : ℕ) (p : PendingRequest) (rest : List PendingRequest) (c : Connection)
      → is_ready c ≡ true
      → lookup r c.pending_by_response ≡ some (p ∷ rest)
      → send_front qt r c ≡ transmit qt r p c
  unfolding send_front
  send_front-transmit r p rest c live e = rw (e, live) refl

  settle_front-transmit :
      (r : ℕ) (p : PendingRequest) (rest : List PendingRequest) (c : Connection)
      → is_ready c ≡ true
      → lookup r c.pending_by_response ≡ some (p ∷ rest)
      → settle_front qt r c ≡ transmit qt r p c
  unfolding settle_front
  settle_front-transmit r p rest c live e = rw e (send_front-transmit r p rest c live e)

  -- What QueueRequest fills in.
  abbrev pub stamped : String → Packet → Packet
  stamped id packet = record packet { request_id = some id; request_timeout_ms = some 3000 }

  abbrev pub request : String → ℕ → ℕ → List ℕ → PendingRequest
  request id service timeout bytes = record {
    request_id = id;
    request_service = service;
    response_service = response_for service;
    payload = bytes;
    timeout = timeout;
  }

  module _ (id : String) (service timeout : ℕ) (packet : Packet) (bytes : List ℕ)
      (serialized : pb.serialize (stamped id packet) ≡ some bytes) where
    abbrev holding : Connection → Connection
    holding c = record c {
      issued = c.issued ++ (id ∷ []);
      pending_by_response =
          insert (response_for service) (request id service timeout bytes ∷ [])
            c.pending_by_response;
    }

    queue_request-transmit :
        (c : Connection)
        → is_ready c ≡ true
        → lookup (response_for service) c.pending_by_response ≡ some []
        → queue_request qt pb id service packet timeout c
          ≡ transmit qt (response_for service) (request id service timeout bytes) (holding c)
    unfolding queue_request is_ready
    queue_request-transmit c live e =
        rw (live, serialized, e)
          (send_front-transmit (response_for service) (request id service timeout bytes) []
            (holding c) live
            (lookup_inserted (response_for service) (request id service timeout bytes ∷ [])
              c.pending_by_response))

    -- When the only request in flight of its kind is answered, and the listener of ResponseReceived
    -- queues another request of the same kind while CompleteFront runs, the frame of the new request
    -- is written to the socket twice in a row, and the new request stands once in the queue.
    pub reentrant_request :
        (p : PendingRequest) (payload : List ℕ) (c : Connection)
        → is_ready c ≡ true
        → lookup (response_for service) c.pending_by_response ≡ some (p ∷ [])
        → ((complete_front qt pb
              (response_for service)
              payload
              (queues id service packet timeout ∷ [])
              c).emitted
            ≡ c.emitted
              ++ (response_received p.request_id (response_for service) payload
                  ∷ socket_write (encode qt service bytes)
                  ∷ socket_write (encode qt service bytes)
                  ∷ []))
          × (lookup
                (response_for service)
                (complete_front qt pb
                  (response_for service)
                  payload
                  (queues id service packet timeout ∷ [])
                  c).pending_by_response
              ≡ some (request id service timeout bytes ∷ []))
    unfolding complete_front perform_all perform transmit is_ready
    reentrant_request p payload c live e =
        let r = response_for service in
        let q = request id service timeout bytes in
        let told : Connection = emit (response_received p.request_id r payload) (record c {
          pending_by_response = insert r [] c.pending_by_response;
          request_timers = stop_timer r c.request_timers;
        }) in
        let sent = transmit qt r q (holding told) in
        let found : lookup r sent.pending_by_response ≡ some (q ∷ []) =
          lookup_inserted r (q ∷ []) told.pending_by_response in
        rw
          (
            e,
            queue_request-transmit told live (lookup_inserted r [] c.pending_by_response),
            settle_front-transmit r q [] sent live found,
          )
          (regroup c.emitted _ _ _, found)
      where
        regroup :
            (os : List Output) (a b d : Output)
            → ((os ++ (a ∷ [])) ++ (b ∷ [])) ++ (d ∷ []) ≡ os ++ (a ∷ b ∷ d ∷ [])
        regroup os a b d = simp append_assoc
