-- ===== src/Gateway/Manager/History.antt =====
-- Histories of the manager: any interleaving of its critical sections, timers and callbacks.
pub mod Untouched
pub mod Callbacks
pub mod Resent
use wim.Prelude.{List, Option, String, [], none, some, ℕ, ℤ, ◌++◌, ◌∷◌}
use wim.Gateway.Frames.{CommandEnvelope, DeliveryStatus, MessageToGatewayFrame}
use wim.Gateway.Link.{Link}
use wim.Gateway.Manager.{Manager, Node, on_link}
use wim.Gateway.Manager.Commands.{
  abandon_pending, expire_pending, forward_admit, forward_send, on_frame, stop_manager,
}
use wim.Gateway.Manager.Topology.{
  TopologySnapshot, apply_topology, check_links, on_link_done, on_reconnect_timer, release_retired,
}
use wim.Wire.Packet.{Protobuf}

-- The callback that `Forward` takes on: that of a command that it does not refuse.
abbrev pub taken : Option ℕ → Option ℕ → List ℕ
taken none callback = []
taken (some address) none = []
taken (some address) (some t) = t ∷ []

module _ (hash : String → ℕ) (to_string : ℤ → String) (pb : Protobuf) where
  pub data Event (m : Manager) : Manager → Type 0 where
    admits :
        (now : ℕ) (c : CommandEnvelope) (callback : Option ℕ)
        → Event m (forward_admit hash to_string now c callback m).0
    sends : (address : ℕ) (c : CommandEnvelope) → Event m (forward_send pb address c m)
    frame :
        (node_id : String) (f : MessageToGatewayFrame) (status : DeliveryStatus)
        → Event m (on_frame node_id f status m)
    expires : (request_id : String) → Event m (expire_pending pb request_id m)
    abandons : Event m (abandon_pending pb m)
    stops : Event m (stop_manager pb m)
    applies : (snapshot : TopologySnapshot) (now : ℕ) → Event m (apply_topology snapshot now m)
    link_done :
        (node_id : String) (source now random : ℕ)
        → Event m (on_link_done hash to_string node_id source now random m).0
    reconnects : (node : Node) (now : ℕ) → Event m (on_reconnect_timer node now m)
    checks : (now sequence : ℕ) → Event m (check_links now m.links sequence m)
    releases : (address : ℕ) → Event m (release_retired address m)
    -- What happens inside a link: reads, writes and the end of its stream.
    link_moves : (address : ℕ) (f : Link → Link) → Event m (on_link m address f)

  pub data Trace (m : Manager) : Manager → Type 0 where
    start_of_trace : Trace m m
    then_event : {n o : Manager} → Trace m n → Event n o → Trace m o

  abbrev pub issued : {m n : Manager} → Event m n → List ℕ
  issued {m} (admits now c callback) =
      taken (forward_admit hash to_string now c callback m).1 callback
  issued _ = []

  abbrev pub all_issued : {m n : Manager} → Trace m n → List ℕ
  all_issued start_of_trace = []
  all_issued (then_event r s) = issued s ++ all_issued r
