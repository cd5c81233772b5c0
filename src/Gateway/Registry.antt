-- ===== src/Gateway/Registry.antt =====
-- server/gateway/src/SessionRegistry.cc: which connection of this Gateway holds each user. A GatewaySession
-- is named by a number; `alive` says for which of them `weak_ptr::lock` still returns an object.
pub mod Delivery
use wim.Prelude.{
  Bool, List, Option, String, eqb, false, if◌then◌else◌, int_eq, is_positive, nat_eq, none, not,
  some, string_eq, true, ℕ, ℤ, ◌&&◌, ◌==◌,
}
use wim.Gateway.Frames.{
  DeliveryEnvelope, DeliveryStatus, backpressured, offline, queued, stale_route,
}
use wim.Gateway.Lease.{
  Outcome, Redis, SessionLease, bind_session_lease, clear_session_lease, empty_lease,
  refresh_session_lease,
}
use wim.Prelude.Map.{Map, erase, insert, lookup}
use wim.Wire.Packet.{Protobuf, TcpPacket}

pub record LocalSession : Type 0 where
  pub session : ℕ
  pub lease : SessionLease

pub record SessionRegistry : Type 0 where
  pub gateway_id : String
  pub instance_id : String
  pub lease_ttl_seconds : ℕ
  pub sessions : Map ℤ LocalSession

-- `found->second.session.lock()`
abbrev pub lock : (ℕ → Bool) → Option LocalSession → Option ℕ
lock alive none = none
lock alive (some l) = if alive l.session then some l.session else none

-- `if (oldSession && oldSession != session) oldSession->Close()`: the session to close.
abbrev pub replaced : Option ℕ → ℕ → Option ℕ
replaced none session = none
replaced (some old) session = if eqb old session then none else some old

-- The part of `Bind` after the lease is published: the map, and the session that it closes.
unfoldable pub bind_local :
    (ℕ → Bool) → ℤ → ℕ → SessionLease → SessionRegistry → SessionRegistry × Option ℕ
bind_local alive uid session lease r = (
  record r { sessions = insert uid (record { session = session; lease = lease }) r.sessions },
  replaced (lock alive (lookup uid r.sessions)) session,
)

-- The part of `Remove` under the mutex; true where it goes on to clear the lease in Redis.
unfoldable pub remove_local : (ℕ → Bool) → ℤ → ℕ → SessionRegistry → SessionRegistry × Bool
remove_local alive uid session r = elim (lookup uid r.sessions) [
  | none ↦ (r, false)
  | some found ↦
      if alive found.session && not (eqb found.session session)
      then (r, false)
      else (record r { sessions = erase uid r.sessions }, true)
]

-- Whether the lease is the one that the Message node saw.
unfoldable pub is_route : SessionLease → DeliveryEnvelope → Bool
is_route l d =
    l.connection_id == d.expected_connection_id && l.generation == d.expected_connection_generation

-- What is sent to the session: `SendReliable` with the packet's sequence number, or `SendRaw`.
pub data Send : Type 0 where
  send_reliable : List ℕ → ℕ → ℤ → Send
  send_raw : List ℕ → ℕ → Send

abbrev by_sequence : DeliveryEnvelope → Option ℤ → Send
by_sequence d none = send_raw d.packet d.protocol_id
by_sequence d (some seq) =
    if is_positive seq
    then send_reliable d.packet d.protocol_id seq
    else send_raw d.packet d.protocol_id

abbrev send_for : DeliveryEnvelope → Option TcpPacket → Send
send_for d none = send_raw d.packet d.protocol_id
send_for d (some packet) = by_sequence d packet.seq

module _ (redis : Redis) where
  unfoldable pub bind :
      Outcome
      → (ℕ → Bool)
      → ℤ
      → ℕ
      → String
      → SessionRegistry × redis.State
      → (SessionRegistry × redis.State) × SessionLease × Option ℕ
  unfolding bind_local
  bind o alive uid session connection_id (r, s) =
      let (s', generation) =
        bind_session_lease redis o uid r.gateway_id r.instance_id connection_id r.lease_ttl_seconds
          s in
      let lease : SessionLease = record {
        gateway_id = r.gateway_id;
        instance_id = r.instance_id;
        connection_id = connection_id;
        generation = generation;
      } in
      if not (is_positive generation) then ((r, s'), empty_lease, none) else (
        ((bind_local alive uid session lease r).0, s'),
        lease,
        (bind_local alive uid session lease r).1,
      )

  unfoldable pub refresh :
      Outcome
      → ℤ
      → SessionLease
      → SessionRegistry × redis.State
      → (SessionRegistry × redis.State) × Bool
  refresh o uid lease (r, s) =
      let (s', ok) = refresh_session_lease redis o uid lease r.lease_ttl_seconds s in ((r, s'), ok)

  unfoldable pub remove :
      Outcome
      → (ℕ → Bool)
      → ℤ
      → ℕ
      → SessionLease
      → SessionRegistry × redis.State
      → SessionRegistry × redis.State
  unfolding remove_local
  remove o alive uid session lease (r, s) =
      let (r', last) = remove_local alive uid session r in
      if last then (r', (clear_session_lease redis o uid lease s).0) else (r', s)

module _ (pb : Protobuf) where
  -- `Deliver`: `takes` is what the session's `SendReliable` or `SendRaw` returns.
  unfoldable pub deliver :
      (ℕ → Bool) → (ℕ → Send → Bool) → DeliveryEnvelope → SessionRegistry → DeliveryStatus
  unfolding is_route
  deliver alive takes d r = elim (lookup d.recipient_uid r.sessions) [
    | none ↦ offline
    | some found ↦
        if not (alive found.session)
        then offline
        else if not (is_route found.lease d)
        then stale_route
        else if takes found.session (send_for d (pb.parse d.packet))
        then queued
        else backpressured
  ]
