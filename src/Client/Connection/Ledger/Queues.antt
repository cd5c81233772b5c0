-- ===== src/Client/Connection/Ledger/Queues.antt =====
-- The operations on the queues keep the balance of every request id.
use wim.Prelude.{
  Bool, List, Option, String, [], arith, eqb, false, if_elim, int_eq, is_positive, length, map,
  nat_eq, none, refl, some, string_eq, true, ℕ, ℤ, ◌&&◌, ◌++◌, ◌+◌, ◌∷◌, ◌≡◌,
}
use wim.Client.Connection.{
  Connection, PendingRequest, emit, failed_request, is_ready, next_sequence, protocol_error,
  response_received,
}
use wim.Client.Connection.Ledger.{
  Inv, answer-Inv, answered, answered-append, awaiting, awaiting-append, count-append, emit-Inv,
  send_front-Inv, send_packet-Inv, settle_front-Inv,
}
use wim.Client.Connection.Requests.{
  Call, complete_front, complete_head, enqueue_request, expire_head, fail_all_pending, failure_of,
  failures, numbers, on_timeout, perform, perform_all, queue_payload, queue_request, queues,
  receipts, send_receipt, stop_timer,
}
use wim.Client.FrameCodec.{DataStream}
use wim.Client.Packet.{Packet, Serializer}
use wim.Prelude.Map.{
  Distinct, Distinct-insert, Map, insert, lookup, sum_by, sum_by-insert_new, sum_by-insert_same,
}
use wim.Protocol.{
  ack, client_error_value, client_service_value, deadline_exceeded, dependency_unavailable,
  json_parser, response_for,
}
use wim.Wire.Packet.{ReceiptType, value_or}

expire_head-Inv :
    (k : String) (qt : DataStream) (r : ℕ) (o : Option (List PendingRequest)) (c : Connection)
    → lookup r c.pending_by_response ≡ o
    → Inv k c
    → Inv k (expire_head qt r o c)
expire_head-Inv k qt r none c e v = v
expire_head-Inv k qt r (some []) c e v = v
expire_head-Inv k qt r (some (p ∷ rest)) c e v =
    settle_front-Inv k qt r
      (emit
        (failed_request p.request_id p.request_service (client_error_value deadline_exceeded) true)
        (record c { pending_by_response = insert r rest c.pending_by_response }))
      (answer-Inv k
        (failed_request p.request_id p.request_service (client_error_value deadline_exceeded) true)
        r p rest c refl e v)

pub on_timeout-Inv :
    (k : String) (qt : DataStream) (r : ℕ) (c : Connection) → Inv k c → Inv k (on_timeout qt r c)
unfolding on_timeout
on_timeout-Inv k qt r c v =
    expire_head-Inv k qt r (lookup r c.pending_by_response)
      (record c { request_timers = stop_timer r c.request_timers }) refl v

-- One more request at the end of its queue.
abbrev pub queued_in : Option (List PendingRequest) → PendingRequest → List PendingRequest
queued_in o p = value_or [] o ++ (p ∷ [])

sum_by-queued :
    (k : String) (o : Option (List PendingRequest)) (p : PendingRequest)
    (m : Map ℕ (List PendingRequest))
    → Distinct m
    → lookup p.response_service m ≡ o
    → sum_by (awaiting k) (insert p.response_service (queued_in o p) m)
      ≡ sum_by (awaiting k) m + awaiting k (p ∷ [])
sum_by-queued k none p m d e =
    omega (arith, sum_by-insert_new (awaiting k) p.response_service (p ∷ []) m e)
sum_by-queued k (some q) p m d e = omega (
  arith,
  awaiting-append k q (p ∷ []),
  sum_by-insert_same (awaiting k) p.response_service (q ++ (p ∷ [])) q m d e,
)

module _ (k : String) (qt : DataStream) (pb : Serializer) where
  enqueue_request-Inv :
      (p : PendingRequest) (c : Connection)
      → Inv k c
      → Inv k (enqueue_request qt pb p (record c { issued = c.issued ++ (p.request_id ∷ []) }))
  enqueue_request-Inv p c v =
      let queue = queued_in (lookup p.response_service c.pending_by_response) p in
      let c' : Connection = record c {
        issued = c.issued ++ (p.request_id ∷ []);
        pending_by_response = insert p.response_service queue c.pending_by_response;
      } in
      let w : Inv k c' = (
        Distinct-insert p.response_service queue c.pending_by_response v.0,
        omega (
          arith,
          v.1,
          count-append k c.issued (p.request_id ∷ []),
          sum_by-queued k (lookup p.response_service c.pending_by_response) p c.pending_by_response
              v.0 refl,
        ),
      ) in
      if_elim (Inv k) (eqb (length queue) 1) (λ _. send_front-Inv k qt p.response_service c' w)
        (λ _. w)

  -- A request that fails before it is queued.
  refused-Inv :
      (id : String) (service code : ℕ) (c : Connection)
      → Inv k c
      → Inv k (
          emit (failed_request id service code false) (record c { issued = c.issued ++ (id ∷ []) }))
  refused-Inv id service code c v = (
    v.0,
    omega (
      arith,
      v.1,
      count-append k c.issued (id ∷ []),
      answered-append k c.emitted (failed_request id service code false ∷ []),
    ),
  )

  queue_payload-Inv :
      (id : String) (service timeout : ℕ) (o : Option (List ℕ)) (c : Connection)
      → Inv k c
      → Inv k
          (queue_payload qt pb id service timeout o (record c { issued = c.issued ++ (id ∷ []) }))
  queue_payload-Inv id service timeout none c v =
      refused-Inv id service (client_error_value json_parser) c v
  queue_payload-Inv id service timeout (some payload) c v =
      enqueue_request-Inv
        record {
          request_id = id;
          request_service = service;
          response_service = response_for service;
          payload = payload;
          timeout = timeout;
        }
        c v

  pub queue_request-Inv :
      (id : String) (service : ℕ) (p : Packet) (timeout : ℕ) (c : Connection)
      → Inv k c
      → Inv k (queue_request qt pb id service p timeout c)
  unfolding queue_request
  queue_request-Inv id service p timeout c v =
      if_elim (Inv k) (is_ready c)
        (λ _.
          queue_payload-Inv id service timeout
            (pb.serialize (record p { request_id = some id; request_timeout_ms = some 3000 })) c v)
        (λ _. refused-Inv id service (client_error_value dependency_unavailable) c v)

  pub send_receipt-Inv :
      (message : ℤ) (t : ReceiptType) (conversation sequence : ℤ) (c : Connection)
      → Inv k c
      → Inv k (send_receipt qt pb message t conversation sequence c)
  unfolding send_receipt
  send_receipt-Inv message t conversation sequence c v =
      if_elim (Inv k) (is_ready c && is_positive message)
        (λ _. send_packet-Inv k qt pb (client_service_value ack) _ c v) (λ _. v)

  pub perform_all-Inv :
      (calls : List (Call qt pb)) (c : Connection) → Inv k c → Inv k (perform_all qt pb calls c)
  unfolding perform_all perform next_sequence
  perform_all-Inv [] c v = v
  perform_all-Inv (queues id service p timeout ∷ calls) c v =
      perform_all-Inv calls (queue_request qt pb id service p timeout c)
        (queue_request-Inv id service p timeout c v)
  perform_all-Inv (receipts m t conversation sequence ∷ calls) c v =
      perform_all-Inv calls (send_receipt qt pb m t conversation sequence c)
        (send_receipt-Inv m t conversation sequence c v)
  perform_all-Inv (numbers ∷ calls) c v = perform_all-Inv calls (next_sequence c).0 v

  complete_head-Inv :
      (r : ℕ) (payload : List ℕ) (calls : List (Call qt pb)) (o : Option (List PendingRequest))
      (c : Connection)
      → lookup r c.pending_by_response ≡ o
      → Inv k c
      → Inv k (complete_head qt pb r payload calls o c)
  complete_head-Inv r payload calls none c e v = emit-Inv k protocol_error c refl v
  complete_head-Inv r payload calls (some []) c e v = emit-Inv k protocol_error c refl v
  complete_head-Inv r payload calls (some (p ∷ rest)) c e v =
      let told : Connection = emit (response_received p.request_id r payload) (record c {
        pending_by_response = insert r rest c.pending_by_response;
        request_timers = stop_timer r c.request_timers;
      }) in
      settle_front-Inv k qt r (perform_all qt pb calls told) (
        perform_all-Inv calls told (
          answer-Inv k (response_received p.request_id r payload) r p rest
            (record c { request_timers = stop_timer r c.request_timers }) refl e v))

  pub complete_front-Inv :
      (r : ℕ) (payload : List ℕ) (calls : List (Call qt pb)) (c : Connection)
      → Inv k c
      → Inv k (complete_front qt pb r payload calls c)
  unfolding complete_front
  complete_front-Inv r payload calls c v =
      complete_head-Inv r payload calls (lookup r c.pending_by_response) c refl v

answered-failures_of :
    (k : String) (code : ℕ) (unknown : Bool) (q : List PendingRequest)
    → answered k (map (failure_of code unknown) q) ≡ awaiting k q
answered-failures_of k code unknown [] = refl
answered-failures_of k code unknown (p ∷ q) = omega (arith, answered-failures_of k code unknown q)

answered-failures :
    (k : String) (code : ℕ) (unknown : Bool) (m : Map ℕ (List PendingRequest))
    → answered k (failures code unknown m) ≡ sum_by (awaiting k) m
unfolding failures
answered-failures k code unknown [] = refl
answered-failures k code unknown ((r, q) ∷ m) = omega (
  arith,
  answered-append k (map (failure_of code unknown) q) (failures code unknown m),
  answered-failures_of k code unknown q,
  answered-failures k code unknown m,
)

pub fail_all_pending-Inv :
    (k : String) (code : ℕ) (unknown : Bool) (c : Connection)
    → Inv k c
    → Inv k (fail_all_pending code unknown c)
unfolding fail_all_pending
fail_all_pending-Inv k code unknown c v = (
  tt,
  omega (
    arith,
    v.1,
    answered-append k c.emitted (failures code unknown c.pending_by_response),
    answered-failures k code unknown c.pending_by_response,
  ),
)
