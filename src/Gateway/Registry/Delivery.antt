-- ===== src/Gateway/Registry/Delivery.antt =====
-- Who gets a delivery, and which session a late Remove takes away.
use wim.Prelude.{
  ==_refl, ==→eq, Bool, Bool-cases, Option-cases, arith, eqb, false, if◌then◌else◌, inl, inr,
  int_eq, nat_eq, refl, some, string_eq, true, ℕ, ℤ, ◌==◌, ◌↔◌, ◌∙◌, ◌≡◌, ◌≢◌,
}
use wim.Gateway.Frames.{DeliveryEnvelope, queued}
use wim.Gateway.Lease.{SessionLease}
use wim.Gateway.Registry.{
  LocalSession, Send, SessionRegistry, bind_local, deliver, is_route, remove_local, send_for,
}
use wim.Prelude.Map.{lookup, lookup-insert}
use wim.Wire.Packet.{Protobuf}

-- The session that a delivery is for: registered, alive, with the connection and the generation that
-- the Message node saw, and with room for the packet.
pub record Receives (pb : Protobuf) (alive : ℕ → Bool) (takes : ℕ → Send → Bool)
    (d : DeliveryEnvelope) (r : SessionRegistry) : Type 0 where
  pub found : LocalSession
  pub registered : lookup d.recipient_uid r.sessions ≡ some found
  pub living : alive found.session ≡ true
  pub connection : found.lease.connection_id ≡ d.expected_connection_id
  pub generation : found.lease.generation ≡ d.expected_connection_generation
  pub room : takes found.session (send_for d (pb.parse d.packet)) ≡ true

is_route-eq :
    (l : SessionLease) (d : DeliveryEnvelope)
    → is_route l d ≡ true
    → (l.connection_id ≡ d.expected_connection_id)
      × (l.generation ≡ d.expected_connection_generation)
unfolding is_route
is_route-eq l d h = (
  ==→eq l.connection_id d.expected_connection_id (ground arith),
  ==→eq l.generation d.expected_connection_generation (ground arith),
)

is_route_refl :
    (l : SessionLease) (d : DeliveryEnvelope)
    → l.connection_id ≡ d.expected_connection_id
    → l.generation ≡ d.expected_connection_generation
    → is_route l d ≡ true
unfolding is_route
is_route_refl l d c g =
    rw (c, g, ==_refl d.expected_connection_id, ==_refl d.expected_connection_generation)

-- Deliver reports a packet as queued exactly if the user's registered session is alive, holds the
-- connection and the generation of the envelope, and accepts the packet.
pub deliver_queued :
    (pb : Protobuf) (alive : ℕ → Bool) (takes : ℕ → Send → Bool) (d : DeliveryEnvelope)
    (r : SessionRegistry)
    → (deliver pb alive takes d r ≡ queued) ↔ Receives pb alive takes d r
unfolding deliver
deliver_queued pb alive takes d r = (forth, back)
  where
    forth : deliver pb alive takes d r ≡ queued → Receives pb alive takes d r
    forth h = elim (Option-cases (lookup d.recipient_uid r.sessions)) [
      | inl e ↦ cc (rw (e, deliver) at h)
      | inr (f, e) ↦ elim (Bool-cases (alive f.session)) [
        | inr dead ↦ cc (rw (e, dead, deliver) at h)
        | inl living ↦ elim (Bool-cases (is_route f.lease d)) [
          | inr stale ↦ cc (rw (e, living, stale, deliver) at h)
          | inl route ↦ elim (Bool-cases (takes f.session (send_for d (pb.parse d.packet)))) [
            | inr full ↦ cc (rw (e, living, route, full, deliver) at h)
            | inl room ↦
                let q = is_route-eq f.lease d route in
                record {
                  found = f;
                  registered = e;
                  living = living;
                  connection = q.0;
                  generation = q.1;
                  room = room;
                }
          ]
        ]
      ]
    ]

    back : Receives pb alive takes d r → deliver pb alive takes d r ≡ queued
    back v =
        rw
          (
            v.registered,
            v.living,
            is_route_refl v.found.lease d v.connection v.generation,
            v.room,
            deliver,
          )
          refl

remove_local-registered :
    (alive : ℕ → Bool) (uid : ℤ) (session old : ℕ) (lease : SessionLease) (r : SessionRegistry)
    → lookup uid r.sessions ≡ some (record { session = session; lease = lease })
    → alive session ≡ true
    → eqb session old ≡ false
    → remove_local alive uid old r ≡ (r, false)
unfolding remove_local
remove_local-registered alive uid session old lease r e living other =
    rw (e, living, other, remove_local) refl

-- After a user has logged in on a new connection that is still alive, a Remove by any other session of
-- the same user changes nothing in the registry and does not go on to clear the lease; each other
-- user has the session that it had before the login.
pub remove_after_bind :
    (alive : ℕ → Bool) (uid v : ℤ) (session old : ℕ) (lease : SessionLease) (r : SessionRegistry)
    → alive session ≡ true
    → old ≢ session
    → (remove_local alive uid old (bind_local alive uid session lease r).0
        ≡ ((bind_local alive uid session lease r).0, false))
      × (lookup v (bind_local alive uid session lease r).0.sessions ≡ (
          if uid == v
          then some (record { session = session; lease = lease })
          else lookup v r.sessions))
unfolding bind_local
remove_after_bind alive uid v session old lease r living differ = (
  remove_local-registered alive uid session old lease (bind_local alive uid session lease r).0
      registered living different,
  lookup-insert uid v (record { session = session; lease = lease }) r.sessions,
)
  where
    different : eqb session old ≡ false
    different = ground arith

    registered :
        lookup uid (bind_local alive uid session lease r).0.sessions
        ≡ some (record { session = session; lease = lease })
    registered =
        lookup-insert uid uid (record { session = session; lease = lease }) r.sessions
        ∙ rw (==_refl uid) refl
