-- ===== src/Client/Connection/Outcome.antt =====
-- What a caller of QueueRequest learns at once, and what a refused login leads to.
use wim.Prelude.{
  Bool-cases, List, Option, Option-cases, String, [], ap, append-nil, arith, eqb, false, if_elim,
  if◌then◌else◌, inl, inr, int_eq, length, length-append, nat_eq, none, refl, some, string_eq, true,
  ℕ, ◌++◌, ◌∙◌, ◌∷◌, ◌≡◌, ◌⊎◌,
}
use wim.Client.Connection.{Connection, PendingRequest, failed_request, is_ready, socket_write}
use wim.Client.Connection.Ledger.Queues.{queued_in}
use wim.Client.Connection.Reentry.{request, send_front-transmit, stamped}
use wim.Client.Connection.Requests.{queue_request, send_front, send_head, transmit}
use wim.Client.FrameCodec.{DataStream, encode}
use wim.Client.Packet.{Packet, Serializer}
use wim.Prelude.Map.{insert, lookup, lookup_inserted}
use wim.Protocol.{client_error_value, dependency_unavailable, json_parser, response_for}
use wim.Wire.Packet.{value_or}

module _ (qt : DataStream) (pb : Serializer) where
  -- Answered at once, with nothing written and nothing queued.
  abbrev pub Refused : String → ℕ → Connection → Connection → Type 0
  Refused id service c d =
      (d.pending_by_response ≡ c.pending_by_response)
      × ((code : ℕ) × (d.emitted ≡ c.emitted ++ (failed_request id service code false ∷ [])))

  -- Queued last, and written if nothing else of its kind is in flight.
  abbrev pub Queued : String → ℕ → ℕ → Connection → Connection → Type 0
  Queued id service timeout c d =
      let r = response_for service in
      (is_ready c ≡ true)
      × ((bytes : List ℕ) × (lookup r d.pending_by_response
            ≡ some (
                queued_in (lookup r c.pending_by_response)
                  (request qt pb id service timeout bytes)))
          × (d.emitted
              ≡ c.emitted
                ++ (if eqb (length (value_or [] (lookup r c.pending_by_response))) 0
                    then socket_write (encode qt service bytes) ∷ []
                    else [])))

  front_written :
      (r : ℕ) (o : Option (List PendingRequest)) (p : PendingRequest) (c : Connection)
      → is_ready c ≡ true
      → lookup r c.pending_by_response ≡ some (queued_in o p)
      → (if eqb (length (queued_in o p)) 1 then send_front qt r c else c).emitted
        ≡ c.emitted
          ++ (if eqb (length (value_or [] o)) 0
              then socket_write (encode qt p.request_service p.payload) ∷ []
              else [])
  unfolding transmit
  front_written r none p c live e = rw (send_front-transmit qt pb r p [] c live e) refl
  front_written r (some []) p c live e = rw (send_front-transmit qt pb r p [] c live e) refl
  front_written r (some (a ∷ q)) p c live e =
      ground (arith, append-nil c.emitted, length-append q (p ∷ []))

  send_head-pending :
      (r : ℕ) (o : Option (List PendingRequest)) (c : Connection)
      → (send_head qt r o c).pending_by_response ≡ c.pending_by_response
  unfolding transmit
  send_head-pending r none c = refl
  send_head-pending r (some []) c = refl
  send_head-pending r (some (p ∷ rest)) c = ground arith

  -- QueueRequest either answers at once that the request failed with its outcome known, and then nothing
  -- was written and every queue is as it was; or the connection is logged in, the request stands at the
  -- end of the queue of its kind, nothing was answered, and its frame was written exactly if that queue
  -- was empty before.
  pub queue_request_outcome :
      (id : String) (service : ℕ) (packet : Packet) (timeout : ℕ) (c : Connection)
      → Refused id service c (queue_request qt pb id service packet timeout c)
        ⊎ Queued id service timeout c (queue_request qt pb id service packet timeout c)
  unfolding queue_request is_ready send_front
  queue_request_outcome id service packet timeout c = elim (Bool-cases (is_ready c)) [
    | inr idle ↦ rw idle (inl (refl, (client_error_value dependency_unavailable, refl)))
    | inl live ↦ elim (Option-cases (pb.serialize (stamped qt pb id packet))) [
      | inl unserialized ↦
          rw (live, unserialized) (inl (refl, (client_error_value json_parser, refl)))
      | inr (bytes, ok) ↦
          let r = response_for service in
          let p = request qt pb id service timeout bytes in
          let o = lookup r c.pending_by_response in
          let c' : Connection = record c {
            issued = c.issued ++ (id ∷ []);
            pending_by_response = insert r (queued_in o p) c.pending_by_response;
          } in
          let e = lookup_inserted r (queued_in o p) c.pending_by_response in
          rw (live, ok) (inr (refl, (bytes, kept_queue r o p c' e, front_written r o p c' live e)))
    ]
  ]
    where
      kept_queue :
          (r : ℕ) (o : Option (List PendingRequest)) (p : PendingRequest) (d : Connection)
          → lookup r d.pending_by_response ≡ some (queued_in o p)
          → lookup r
              (if eqb (length (queued_in o p)) 1 then send_front qt r d else d).pending_by_response
            ≡ some (queued_in o p)
      kept_queue r o p d e =
          if_elim (λ (x : Connection). lookup r x.pending_by_response ≡ some (queued_in o p))
            (eqb (length (queued_in o p)) 1)
            (λ _. ap (lookup r) (send_head-pending r (lookup r d.pending_by_response) d) ∙ e)
            (λ _. e)
