-- ===== src/Gateway/Link.antt =====
-- The class MessageLink of server/gateway/src/MessageLink.cc: one bidirectional stream to a Message node.
-- A method that takes the mutex once is one function; gRPC's reactor calls back `on_read_done`,
-- `on_write_done` and `on_done`.
pub mod Writes
use wim.Prelude.{
  Bool, List, Option, String, [], false, if◌then◌else◌, leb, length, ltb, none, some, true, ℕ, ◌++◌,
  ◌+◌, ◌-◌, ◌<◌, ◌||◌, ◌∷◌,
}
use wim.Gateway.Frames.{
  GatewayToMessageFrame, MessageToGatewayFrame, heartbeat, register_gateway, register_result,
}

-- `writes` is what StartWrite has been called with, in order, and `outstanding` how many of those
-- writes gRPC has not reported on; `released` counts the calls of RemoveHold.
pub record Link : Type 0 where
  pub id : String
  pub host : String
  pub port : ℕ
  pub stopped : Bool
  pub healthy : Bool
  pub external_hold : Bool
  pub inflight : ℕ
  pub last_read_at : ℕ
  pub write_queue : List GatewayToMessageFrame
  pub write_in_flight : Bool
  pub writes : List GatewayToMessageFrame
  pub outstanding : ℕ
  pub released : ℕ

abbrev pub max_stream_queue : ℕ
max_stream_queue = 4096

unfoldable pub new_link : String → String → ℕ → ℕ → Link
new_link id host port now = record {
  id = id;
  host = host;
  port = port;
  stopped = false;
  healthy = false;
  external_hold = false;
  inflight = 0;
  last_read_at = now;
  write_queue = [];
  write_in_flight = false;
  writes = [];
  outstanding = 0;
  released = 0;
}

unfoldable pub release_hold : Link → Link
release_hold l =
    if l.external_hold then record l { external_hold = false; released = l.released + 1 } else l

abbrev start_write : Link → GatewayToMessageFrame → Link
start_write l f = record l { writes = l.writes ++ (f ∷ []); outstanding = l.outstanding + 1 }

-- The front of the queue becomes the frame in flight.
unfoldable pub write_front : Link → List GatewayToMessageFrame → Link
write_front l [] = record l { write_in_flight = false }
write_front l (f ∷ rest) = start_write (record l { write_queue = rest; write_in_flight = true }) f

unfoldable pub enqueue : Link → GatewayToMessageFrame → Link × Bool
unfolding write_front
enqueue l f =
    if l.stopped || leb max_stream_queue (length l.write_queue)
    then (l, false)
    else if l.write_in_flight
    then (record l { write_queue = l.write_queue ++ (f ∷ []) }, true)
    else (write_front l (l.write_queue ++ (f ∷ [])), true)

unfoldable pub start : Link → String → String → ℕ → Link
unfolding enqueue
start l gateway_id instance_id now =
    (enqueue (record l { external_hold = true })
      (register_gateway gateway_id instance_id now max_stream_queue)).0

unfoldable pub stop : Link → Link
unfolding release_hold
stop l = if l.stopped then l else release_hold (record l { stopped = true; healthy = false })

unfoldable pub drain : Link → Link
unfolding stop
drain l = stop (record l { healthy = false })

unfoldable pub send_heartbeat : Link → ℕ → ℕ → Link
unfolding enqueue
send_heartbeat l now sequence = (enqueue l (heartbeat now sequence)).0

unfoldable pub increment_inflight : Link → Link
increment_inflight l = record l { inflight = l.inflight + 1 }

-- The compare-and-exchange loop stops at 0.
unfoldable pub decrement_inflight : Link → Link
decrement_inflight l = record l { inflight = if ltb 0 l.inflight then l.inflight - 1 else 0 }

abbrev failed : Link → Link
failed l = record l { stopped = true; healthy = false }

-- The part of `OnReadDone` before the frame goes to the manager.
unfoldable pub on_read_done : Link → Option MessageToGatewayFrame → ℕ → Link
unfolding release_hold
on_read_done l none now = release_hold (failed l)
on_read_done l (some (register_result accepted)) now = record l {
  last_read_at = now;
  healthy = accepted;
}
on_read_done l (some frame) now = record l { last_read_at = now }

unfoldable pub on_write_done : Link → Bool → Link
unfolding release_hold write_front
on_write_done l false = release_hold (failed (record l { outstanding = l.outstanding - 1 }))
on_write_done l true = write_front (record l { outstanding = l.outstanding - 1 }) l.write_queue

unfoldable pub on_done : Link → Link
on_done l = failed l

-- What can happen to a link, one atomic call at a time. gRPC reports on a write only while one is
-- outstanding.
pub data Step (l : Link) : Link → Type 0 where
  enqueues : (f : GatewayToMessageFrame) → Step l (enqueue l f).0
  heartbeats : (now sequence : ℕ) → Step l (send_heartbeat l now sequence)
  stops : Step l (stop l)
  drains : Step l (drain l)
  reads : (frame : Option MessageToGatewayFrame) (now : ℕ) → Step l (on_read_done l frame now)
  write_done : (ok : Bool) → 0 < l.outstanding → Step l (on_write_done l ok)
  done : Step l (on_done l)
  increments : Step l (increment_inflight l)
  decrements : Step l (decrement_inflight l)
