-- ===== src/Gateway/Session/Gate.antt =====
-- What a client's packet can make the Gateway forward.
use mathlib.Core.Path.{subst}
use wim.Prelude.{
  Bool, List, Option, String, ap, arith, false, if_elim, int_eq, is_empty, is_positive, leb, nat_eq,
  none, not, refl, some, string_eq, true, ℕ, ℤ, ◌+◌, ◌-◌, ◌<◌, ◌==◌, ◌∙◌, ◌≡◌, ◌≢◌, ◌≤◌,
}
use wim.Gateway.Frames.{CommandEnvelope}
use wim.Gateway.Session.{GatewaySession, acknowledge_transport}
use wim.Gateway.Session.Packets.{
  Next, acknowledge, admit, authenticating, dispatch, envelope, forwarding, handle_packet,
  handle_request, handled, is_transport, next_request_id, own_request_id, refreshing,
  request_timeout, submit,
}
use wim.Protocol.{ServiceId, service_value}
use wim.Wire.Packet.{Protobuf, TcpPacket, unspecified_receipt, value_or}

-- A command that the Gateway may forward for a session: the connection is bound to a user, the command
-- speaks for that user, this connection and the generation of its lease, waits at most three seconds,
-- and carries a packet with the same user and request id; the service is none of the Gateway's own and
-- the rate limiter lets the command pass.
pub record Vouched (pb : Protobuf) (s : GatewaySession) (protocol_id now unix_now : ℕ)
    (c : CommandEnvelope) : Type 0 where
  pub actor : c.actor_uid ≡ s.user_id
  pub connection : c.connection_id ≡ s.connection_id
  pub generation : c.connection_generation ≡ s.lease.generation
  pub service : c.service_id ≡ protocol_id
  pub in_time : c.deadline_unix_ms ≤ unix_now + 3000
  pub request : TcpPacket
  pub request_uid : request.uid ≡ some s.user_id
  pub request_name : request.request_id ≡ some c.request_id
  pub serialized : c.packet ≡ pb.serialize request
  pub within_rate : (admit now s).1 ≡ true

-- What is said of the outcome of `dispatch`.
abbrev Allowed : Protobuf → GatewaySession → ℕ → ℕ → ℕ → Next → Type 0
Allowed pb s protocol_id now unix_now (forwarding c expect_response) =
    Vouched pb s protocol_id now unix_now c
    × (expect_response ≡ not (protocol_id == service_value ServiceId.ack))
Allowed pb s protocol_id now unix_now _ = Unit

request_timeout_le : (o : Option ℕ) → request_timeout o ≤ 3000
request_timeout_le none = omega arith
request_timeout_le (some ms) = ground arith

-- The parts of the session that a command is made from.
abbrev SameOwner : GatewaySession → GatewaySession → Type 0
SameOwner a b =
    (a.user_id ≡ b.user_id)
    × (a.connection_id ≡ b.connection_id)
    × (a.lease.generation ≡ b.lease.generation)

module _ (pb : Protobuf) (to_string : ℕ → String) where
  envelope-Vouched :
      (id now unix_now : ℕ) (request : TcpPacket) (name : String) (s t : GatewaySession)
      → SameOwner t s
      → (admit now s).1 ≡ true
      → Vouched pb s id now unix_now (envelope pb to_string id unix_now request name t)
  unfolding envelope
  envelope-Vouched id now unix_now request name s t same ok = record {
    actor = same.0;
    connection = same.1;
    generation = same.2;
    service = refl;
    in_time = omega (arith, request_timeout_le request.request_timeout_ms);
    request = record request { uid = some t.user_id; request_id = some name };
    request_uid = ap some same.0;
    request_name = refl;
    serialized = refl;
    within_rate = ok;
  }

  own_request_id-SameOwner :
      (name : Option String) (s : GatewaySession)
      → SameOwner (own_request_id pb to_string name s).0 s
  unfolding next_request_id
  own_request_id-SameOwner none s = (refl, refl, refl)
  own_request_id-SameOwner (some name) s =
      if_elim (λ (r : GatewaySession × String). SameOwner r.0 s) (is_empty name)
        (λ _. (refl, refl, refl)) (λ _. (refl, refl, refl))

  admit-SameOwner : (now : ℕ) (s : GatewaySession) → SameOwner (admit now s).0 s
  unfolding admit
  admit-SameOwner now s =
      if_elim (λ (r : GatewaySession). SameOwner r s) (leb 1000 (now - s.rate_window_started))
        (λ _. (refl, refl, refl)) (λ _. (refl, refl, refl))

  submit-Allowed :
      (id now unix_now : ℕ) (request : TcpPacket) (s : GatewaySession)
      → Allowed pb s id now unix_now (submit pb to_string id request now unix_now s).1
  unfolding submit
  submit-Allowed id now unix_now request s =
      if_elim (λ (r : GatewaySession × Next). Allowed pb s id now unix_now r.1)
        (not (admit now s).1) (λ _. tt)
        (λ ok. (
          envelope-Vouched id now unix_now request _ s
              (own_request_id pb to_string request.request_id (admit now s).0).0 both
              (ground (arith, ok)),
          refl,
        ))
    where
      both : SameOwner (own_request_id pb to_string request.request_id (admit now s).0).0 s
      both =
          let (u, c, g) = own_request_id-SameOwner request.request_id (admit now s).0 in
          let (u', c', g') = admit-SameOwner now s in (u ∙ u', c ∙ c', g ∙ g')

  -- A transport acknowledgement changes nothing that a command is made from.
  unacknowledged :
      (id now unix_now : ℕ) (seq : ℤ) (n : Next) (s : GatewaySession)
      → Allowed pb (acknowledge_transport seq s) id now unix_now n
      → Allowed pb s id now unix_now n
  unfolding acknowledge_transport admit
  unacknowledged id now unix_now seq (forwarding c e) s (v, x) = (
    record {
      actor = v.actor;
      connection = v.connection;
      generation = v.generation;
      service = v.service;
      in_time = v.in_time;
      request = v.request;
      request_uid = v.request_uid;
      request_name = v.request_name;
      serialized = v.serialized;
      within_rate = rate;
    },
    x,
  )
    where
      rate : (admit now s).1 ≡ true
      rate = ground (arith, v.within_rate)
  unacknowledged id now unix_now seq handled s a = tt
  unacknowledged id now unix_now seq (authenticating request) s a = tt
  unacknowledged id now unix_now seq (refreshing uid lease) s a = tt

  acknowledge-Allowed :
      (id now unix_now : ℕ) (request : TcpPacket) (seq : Option ℤ) (s : GatewaySession)
      → Allowed pb s id now unix_now
          (submit pb to_string id request now unix_now (acknowledge seq s)).1
  acknowledge-Allowed id now unix_now request none s = submit-Allowed id now unix_now request s
  acknowledge-Allowed id now unix_now request (some seq) s =
      if_elim
        (λ (r : GatewaySession).
          Allowed pb s id now unix_now (submit pb to_string id request now unix_now r).1)
        (is_positive seq)
        (λ _.
          unacknowledged id now unix_now seq _ s
            (submit-Allowed id now unix_now request (acknowledge_transport seq s)))
        (λ _. submit-Allowed id now unix_now request s)

  -- The Gateway's own services are not forwarded.
  abbrev Passes : GatewaySession → ℕ → ℕ → ℕ → Next → Type 0
  Passes s id now unix_now (forwarding c e) =
      Allowed pb s id now unix_now (forwarding c e)
      × (id ≢ service_value ServiceId.ping_req)
      × (id ≢ service_value ServiceId.user_quit_req)
  Passes s id now unix_now _ = Unit

  to_Passes :
      (id now unix_now : ℕ) (n : Next) (s : GatewaySession)
      → Allowed pb s id now unix_now n
      → id ≢ service_value ServiceId.ping_req
      → id ≢ service_value ServiceId.user_quit_req
      → Passes s id now unix_now n
  to_Passes id now unix_now (forwarding c e) s a p q = (a, p, q)
  to_Passes id now unix_now handled s a p q = tt
  to_Passes id now unix_now (authenticating request) s a p q = tt
  to_Passes id now unix_now (refreshing uid lease) s a p q = tt

  dispatch-Passes :
      (id now unix_now : ℕ) (request : TcpPacket) (s : GatewaySession)
      → Passes s id now unix_now (dispatch pb to_string id request now unix_now s).1
  unfolding dispatch
  dispatch-Passes id now unix_now request s =
      if_elim P (id == service_value ServiceId.ping_req) (λ _. tt)
        (λ np.
          if_elim P (id == service_value ServiceId.user_quit_req) (λ _. tt)
            (λ nq.
              if_elim P (id == service_value ServiceId.ack)
                (λ _.
                  if_elim P (is_transport (value_or unspecified_receipt request.receipt_type))
                    (λ _. tt)
                    (λ _.
                      to_Passes id now unix_now _ s
                        (acknowledge-Allowed id now unix_now request request.seq s) (differs np)
                        (differs nq)))
                (λ _.
                  to_Passes id now unix_now _ s (submit-Allowed id now unix_now request s)
                    (differs np) (differs nq))))
    where
      P : GatewaySession × Next → Type 0
      P r = Passes s id now unix_now r.1

      differs : {k : ℕ} → (id == k) ≡ false → id ≢ k
      differs {k} h e = ground arith

  -- What a forwarded command says of the session and the packet that it comes from.
  abbrev Admits : GatewaySession → ℕ → ℕ → ℕ → Next → Type 0
  Admits s id now unix_now (forwarding c e) =
      (is_positive s.user_id ≡ true)
      × (now - s.last_lease_refresh < 20000)
      × (id ≢ service_value ServiceId.login_init_req)
      × Passes s id now unix_now (forwarding c e)
  Admits s id now unix_now _ = Unit

  to_Admits :
      (id now unix_now : ℕ) (n : Next) (s : GatewaySession)
      → Passes s id now unix_now n
      → is_positive s.user_id ≡ true
      → now - s.last_lease_refresh < 20000
      → id ≢ service_value ServiceId.login_init_req
      → Admits s id now unix_now n
  to_Admits id now unix_now (forwarding c e) s a u f l = (u, f, l, a)
  to_Admits id now unix_now handled s a u f l = tt
  to_Admits id now unix_now (authenticating request) s a u f l = tt
  to_Admits id now unix_now (refreshing uid lease) s a u f l = tt

  handle_request-Admits :
      (id now unix_now : ℕ) (request : Option TcpPacket) (s : GatewaySession)
      → Admits s id now unix_now (handle_request pb to_string id request now unix_now s).1
  handle_request-Admits id now unix_now none s = tt
  handle_request-Admits id now unix_now (some request) s =
      if_elim P (id == service_value ServiceId.login_init_req) (λ _. tt)
        (λ nl.
          if_elim P (not (is_positive s.user_id)) (λ _. tt)
            (λ bound.
              if_elim P (leb 20000 (now - s.last_lease_refresh)) (λ _. tt)
                (λ fresh.
                  to_Admits id now unix_now _ s (dispatch-Passes id now unix_now request s)
                    (ground (arith, bound)) (ground arith) (ground arith))))
    where
      P : GatewaySession × Next → Type 0
      P r = Admits s id now unix_now r.1

-- A packet that HandlePacket forwards at once comes over a connection that is bound to a user and whose
-- lease was confirmed less than 20 seconds ago; it is no login, ping or quit; the command is vouched
-- for; and it is handed to Forward with the flag that a response is expected exactly if it is no
-- acknowledgement.
pub forwarding-Vouched :
    (pb : Protobuf) (to_string : ℕ → String) (id now unix_now : ℕ) (payload : List ℕ)
    (s : GatewaySession) (c : CommandEnvelope) (e : Bool)
    → (handle_packet pb to_string id payload now unix_now s).1 ≡ forwarding c e
    → (is_positive s.user_id ≡ true)
      × (now - s.last_lease_refresh < 20000)
      × (id ≢ service_value ServiceId.login_init_req)
      × (id ≢ service_value ServiceId.ping_req)
      × (id ≢ service_value ServiceId.user_quit_req)
      × Vouched pb s id now unix_now c
      × (e ≡ not (id == service_value ServiceId.ack))
unfolding handle_packet
forwarding-Vouched pb to_string id now unix_now payload s c e h =
    let (u, f, l, ((v, x), p, q)) =
      subst (Admits pb to_string s id now unix_now) h
        (handle_request-Admits pb to_string id now unix_now (pb.parse payload) s) in
    (u, f, l, p, q, v, x)
