-- ===== src/Message/Stream.antt =====
-- The streams from the Gateways (server/message/src/service/GatewayStreamService.cc): the reactor of a stream, and
-- the table of the streams that are registered. A reactor is an object: `reactors` maps its address to
-- its state, and `streams` holds addresses.
pub mod Worker
pub mod Fenced
pub mod Delivered
pub mod Table
pub mod Reading
pub mod Twice
use wim.Prelude.{
  Bool, List, Option, String, [], eqb, false, if◌then◌else◌, int_eq, is_empty, leb, length, nat_eq,
  none, not, some, string_eq, true, ℕ, ℤ, ◌&&◌, ◌++◌, ◌+◌, ◌==◌, ◌||◌, ◌∷◌,
}
use wim.Gateway.Frames.{CommandEnvelope, CommandResult}
use wim.Gateway.Lease.{SessionLease, lease_is_empty, same_lease}
use wim.Gateway.Manager.Topology.Applied.{named}
use wim.Prelude.Map.{Map, erase, insert, lookup}

-- What a Gateway sends. The acknowledgement of a delivery is not looked at.
pub data InFrame : Type 0 where
  registration : ℕ → String → String → ℕ → InFrame
  incoming : CommandEnvelope → InFrame
  beat : ℕ → ℕ → InFrame
  ignored : InFrame

-- DeliveryEnvelope of server/public/proto/gateway_message.proto.
pub record Delivery : Type 0 where
  pub delivery_id : String
  pub recipient_uid : ℤ
  pub expected_connection_id : String
  pub expected_connection_generation : ℤ
  pub protocol_id : ℕ
  pub message_id : ℤ
  pub conversation_id : ℤ
  pub conversation_seq : ℤ
  pub packet : List ℕ

pub data OutFrame : Type 0 where
  registered_answer : Bool → String → ℕ → Bool → OutFrame
  answered_command : CommandResult → OutFrame
  downward : Delivery → OutFrame
  beat_ack : ℕ → ℕ → OutFrame
  draining_notice : String → String → OutFrame

-- GatewayStreamReactor. `writes` is what StartWrite has been called with and `finished` counts the calls of
-- Finish.
pub record Reactor : Type 0 where
  pub gateway_id : String
  pub instance_id : String
  pub authenticated_peer : String
  pub stream_epoch : ℕ
  pub write_queue : List OutFrame
  pub write_in_flight : Bool
  pub finishing : Bool
  pub registered : Bool
  pub writes : List OutFrame
  pub finished : ℕ

pub record RegisteredStream : Type 0 where
  pub instance_id : String
  pub reactor : ℕ

pub record StreamService : Type 0 where
  pub message_node_id : String
  pub require_peer_identity : Bool
  pub draining : Bool
  pub streams : Map String RegisteredStream
  pub reactors : Map ℕ Reactor

unfoldable pub new_reactor : String → Reactor
new_reactor peer = record {
  gateway_id = "";
  instance_id = "";
  authenticated_peer = peer;
  stream_epoch = 0;
  write_queue = [];
  write_in_flight = false;
  finishing = false;
  registered = false;
  writes = [];
  finished = 0;
}

-- Connect: `address` is where the new reactor is allocated.
unfoldable pub connect : ℕ → String → StreamService → StreamService
connect address peer s = record s { reactors = insert address (new_reactor peer) s.reactors }

abbrev pub next_write : Reactor → List OutFrame → Reactor
next_write r [] = record r { write_in_flight = false; write_queue = [] }
next_write r (f ∷ rest) = record r {
  write_in_flight = true;
  write_queue = rest;
  writes = r.writes ++ (f ∷ []);
}

unfoldable pub enqueue_frame : Reactor → OutFrame → Reactor × Bool
enqueue_frame r f =
    if r.finishing || leb 4096 (length r.write_queue)
    then (r, false)
    else if r.write_in_flight
    then (record r { write_queue = r.write_queue ++ (f ∷ []) }, true)
    else (next_write r (r.write_queue ++ (f ∷ [])), true)

unfoldable pub finish_once : Reactor → Reactor
finish_once r = if r.finishing then r else record r { finishing = true; finished = r.finished + 1 }

unfoldable pub on_write : Bool → Reactor → Reactor
on_write false r = finish_once r
on_write true r = next_write r r.write_queue

-- The reactor at an address, changed.
abbrev pub put : ℕ → Reactor → StreamService → StreamService
put address r s = record s { reactors = insert address r s.reactors }

unfoldable pub register_stream : String → String → ℕ → StreamService → StreamService
register_stream gateway instance_id address s = record s {
  streams = insert gateway record { instance_id = instance_id; reactor = address } s.streams;
}

abbrev pub is_stream : String → ℕ → Option RegisteredStream → Bool
is_stream instance_id address none = false
is_stream instance_id address (some e) = e.instance_id == instance_id && eqb e.reactor address

unfoldable pub unregister_stream : String → String → ℕ → StreamService → StreamService
unregister_stream gateway instance_id address s =
    if is_stream instance_id address (lookup gateway s.streams)
    then record s { streams = erase gateway s.streams }
    else s

unfoldable pub accepts_registration : ℕ → String → String → Reactor → StreamService → Bool
accepts_registration version gateway instance_id r s =
    eqb version 1
    && not (is_empty gateway)
    && not (is_empty instance_id)
    && not s.draining
    && (not s.require_peer_identity || r.authenticated_peer == gateway)

-- HandleRegister: the names are taken over before they are checked.
unfoldable pub handle_register :
    ℕ → Reactor → ℕ → String → String → ℕ → StreamService → StreamService
handle_register address r version gateway instance_id epoch s =
    let named = record r {
      gateway_id = gateway;
      instance_id = instance_id;
      stream_epoch = epoch;
    } in
    let valid = accepts_registration version gateway instance_id r s in
    let known = if valid then record named { registered = true } else named in
    let told =
      (enqueue_frame known (registered_answer valid s.message_node_id epoch (not valid))).0 in
    put address told (if valid then register_stream gateway instance_id address s else s)

-- OnDone: `delete this`.
abbrev pub done_reactor : ℕ → Option Reactor → StreamService → StreamService
done_reactor address none s = s
done_reactor address (some r) s =
    let out = unregister_stream r.gateway_id r.instance_id address s in
    record out { reactors = erase address out.reactors }

unfoldable pub on_done : ℕ → StreamService → StreamService
on_done address s = done_reactor address (lookup address s.reactors) s

-- A frame for the reactor at an address. An address that is not there is a dangling pointer, which the
-- program would follow: here it is `none`.
abbrev pub offer : ℕ → OutFrame → Option Reactor → StreamService → Option (StreamService × Bool)
offer address f none s = none
offer address f (some r) s = let (r', ok) = enqueue_frame r f in some (put address r' s, ok)

-- Reply: the stream must still be the one that the command came on.
unfoldable pub reply :
    String → String → ℕ → OutFrame → StreamService → Option (StreamService × Bool)
reply gateway instance_id address f s =
    if is_stream instance_id address (lookup gateway s.streams)
    then offer address f (lookup address s.reactors) s
    else some (s, false)

abbrev pub deliver_on :
    Option RegisteredStream
    → SessionLease
    → OutFrame
    → StreamService
    → Option (StreamService × Bool)
deliver_on none lease f s = some (s, false)
deliver_on (some e) lease f s =
    if e.instance_id == lease.instance_id
    then offer e.reactor f (lookup e.reactor s.reactors) s
    else some (s, false)

unfoldable pub deliver_lease :
    SessionLease → Delivery → StreamService → Option (StreamService × Bool)
deliver_lease lease d s = deliver_on (lookup lease.gateway_id s.streams) lease (downward d) s

unfoldable pub address_to : SessionLease → ℤ → Delivery → Delivery
address_to lease uid d = record d {
  recipient_uid = uid;
  expected_connection_id = lease.connection_id;
  expected_connection_generation = lease.generation;
}

-- The second reading of the lease, after the first route failed.
abbrev pub deliver_again :
    SessionLease
    → SessionLease
    → ℤ
    → Delivery
    → Option (StreamService × Bool)
    → Option (StreamService × Bool)
deliver_again lease second uid d none = none
deliver_again lease second uid d (some (s, true)) = some (s, true)
deliver_again lease second uid d (some (s, false)) =
    if lease_is_empty second || same_lease second lease
    then some (s, false)
    else deliver_lease second (address_to second uid d) s

-- DeliverToUser: `lease` and `second` are what the two reads of Redis answer.
unfoldable pub deliver_to_user :
    SessionLease → SessionLease → ℤ → Delivery → StreamService → Option (StreamService × Bool)
deliver_to_user lease second uid d s =
    if lease_is_empty lease
    then some (s, false)
    else deliver_again lease second uid d (deliver_lease lease (address_to lease uid d) s)

abbrev pub tell_all : Map String RegisteredStream → OutFrame → StreamService → Option StreamService
tell_all [] f s = some s
tell_all ((g, e) ∷ m) f s = elim (offer e.reactor f (lookup e.reactor s.reactors) s) [
  | none ↦ none
  | some (s', ok) ↦ tell_all m f s'
]

unfoldable pub drain_all : String → StreamService → Option StreamService
drain_all reason s =
    tell_all s.streams (draining_notice s.message_node_id reason) (record s { draining = true })
