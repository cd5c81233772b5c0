-- ===== src/Client/Connection/Ledger.antt =====
-- Who is owed an answer: the operations of the connection keep the number of times a request id was issued
-- equal to the number of its answers and of its places in the queues.
pub mod Queues
pub mod Slots
use wim.Prelude.{
  Bool, List, Option, String, [], arith, false, if_elim, int_eq, nat_eq, none, refl, some,
  string_eq, true, ℕ, ◌++◌, ◌+◌, ◌==◌, ◌∷◌, ◌≡◌,
}
use wim.Client.Connection.{
  Connection, Output, PendingRequest, Phase, authenticated, credentials_expired, emit,
  failed_request, is_ready, phase_changed, protocol_error, push_received, response_received,
  same_phase, send_packet, set_phase, socket_abort, socket_connect, socket_disconnect, socket_write,
  write_payload,
}
use wim.Client.Connection.Requests.{send_front, send_head, settle, settle_front, transmit}
use wim.Client.FrameCodec.{DataStream, encode}
use wim.Client.Packet.{Packet, Serializer}
use wim.Prelude.Map.{
  Distinct, Distinct-erase, Distinct-insert, insert, lookup, sum_by, sum_by-erase,
  sum_by-insert_same,
}

abbrev one : Bool → ℕ
one true = 1
one false = 0

abbrev pub count : String → List String → ℕ
count k [] = 0
count k (x ∷ xs) = one (x == k) + count k xs

-- ResponseReceived and RequestFailed answer a request.
abbrev pub answers : String → Output → ℕ
answers k (response_received id service payload) = one (id == k)
answers k (failed_request id service code unknown) = one (id == k)
answers k (socket_write bytes) = 0
answers k socket_abort = 0
answers k socket_disconnect = 0
answers k (socket_connect host port) = 0
answers k (phase_changed p) = 0
answers k authenticated = 0
answers k credentials_expired = 0
answers k protocol_error = 0
answers k (push_received service payload) = 0

abbrev pub answered : String → List Output → ℕ
answered k [] = 0
answered k (o ∷ os) = answers k o + answered k os

abbrev pub awaiting : String → List PendingRequest → ℕ
awaiting k [] = 0
awaiting k (p ∷ ps) = one (p.request_id == k) + awaiting k ps

pub count-append : (k : String) (xs ys : List String) → count k (xs ++ ys) ≡ count k xs + count k ys
count-append k [] ys = omega arith
count-append k (x ∷ xs) ys = omega (arith, count-append k xs ys)

pub answered-append :
    (k : String) (xs ys : List Output) → answered k (xs ++ ys) ≡ answered k xs + answered k ys
answered-append k [] ys = omega arith
answered-append k (x ∷ xs) ys = omega (arith, answered-append k xs ys)

pub awaiting-append :
    (k : String) (xs ys : List PendingRequest)
    → awaiting k (xs ++ ys) ≡ awaiting k xs + awaiting k ys
awaiting-append k [] ys = omega arith
awaiting-append k (x ∷ xs) ys = omega (arith, awaiting-append k xs ys)

-- The balance of the id `k`.
abbrev pub Inv : String → Connection → Type 0
Inv k c =
    Distinct c.pending_by_response
    × (count k c.issued ≡ answered k c.emitted + sum_by (awaiting k) c.pending_by_response)

module _ (k : String) where
  pub emit-Inv : (o : Output) (c : Connection) → answers k o ≡ 0 → Inv k c → Inv k (emit o c)
  emit-Inv o c z v = (v.0, omega (arith, z, v.1, answered-append k c.emitted (o ∷ [])))

  pub set_phase-Inv : (p : Phase) (c : Connection) → Inv k c → Inv k (set_phase p c)
  unfolding set_phase
  set_phase-Inv p c v =
      if_elim (Inv k) (same_phase c.phase p) (λ _. v)
        (λ _. emit-Inv (phase_changed p) (record c { phase = p }) refl v)

  written-Inv :
      (qt : DataStream) (service : ℕ) (o : Option (List ℕ)) (c : Connection)
      → Inv k c
      → Inv k (write_payload qt service o c)
  written-Inv qt service none c v = emit-Inv protocol_error c refl v
  written-Inv qt service (some payload) c v =
      emit-Inv (socket_write (encode qt service payload)) c refl v

  module _ (qt : DataStream) where
    pub send_packet-Inv :
        (pb : Serializer) (service : ℕ) (p : Packet) (c : Connection)
        → Inv k c
        → Inv k (send_packet qt pb service p c)
    unfolding send_packet
    send_packet-Inv pb service p c v = written-Inv qt service (pb.serialize p) c v

    send_head-Inv :
        (r : ℕ) (o : Option (List PendingRequest)) (c : Connection)
        → Inv k c
        → Inv k (send_head qt r o c)
    unfolding transmit
    send_head-Inv r none c v = v
    send_head-Inv r (some []) c v = v
    send_head-Inv r (some (p ∷ rest)) c v =
        if_elim (Inv k) (is_ready c)
          (λ _.
            emit-Inv (socket_write (encode qt p.request_service p.payload))
              (record c { request_timers = insert r (some p.timeout) c.request_timers }) refl v)
          (λ _. v)

    pub send_front-Inv : (r : ℕ) (c : Connection) → Inv k c → Inv k (send_front qt r c)
    unfolding send_front
    send_front-Inv r c v = send_head-Inv r (lookup r c.pending_by_response) c v

    settle-Inv :
        (r : ℕ) (o : Option (List PendingRequest)) (c : Connection)
        → lookup r c.pending_by_response ≡ o
        → Inv k c
        → Inv k (settle qt r o c)
    settle-Inv r none c e v = v
    settle-Inv r (some []) c e v = (
      Distinct-erase r c.pending_by_response v.0,
      omega (arith, v.1, sum_by-erase (awaiting k) r [] c.pending_by_response v.0 e),
    )
    settle-Inv r (some (p ∷ rest)) c e v = send_front-Inv r c v

    pub settle_front-Inv : (r : ℕ) (c : Connection) → Inv k c → Inv k (settle_front qt r c)
    unfolding settle_front
    settle_front-Inv r c v = settle-Inv r (lookup r c.pending_by_response) c refl v

  -- The front of a queue is answered and taken out.
  pub answer-Inv :
      (o : Output) (r : ℕ) (p : PendingRequest) (rest : List PendingRequest) (c : Connection)
      → answers k o ≡ one (p.request_id == k)
      → lookup r c.pending_by_response ≡ some (p ∷ rest)
      → Inv k c
      → Inv k (emit o (record c { pending_by_response = insert r rest c.pending_by_response }))
  answer-Inv o r p rest c a e v = (
    Distinct-insert r rest c.pending_by_response v.0,
    omega (
      arith,
      a,
      v.1,
      answered-append k c.emitted (o ∷ []),
      sum_by-insert_same (awaiting k) r rest (p ∷ rest) c.pending_by_response v.0 e,
    ),
  )
