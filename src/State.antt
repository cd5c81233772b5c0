-- ===== src/State.antt =====
-- server/state/src/service/service.cc and server/state/include/global.h: which Gateway a client is sent
-- to, which Message nodes a Gateway links to, and the routing to the servers of the old layout. The nodes come from the
-- configuration file, which YAML-cpp reads.
pub mod Routing
use wim.Prelude.{
  Bool, List, Option, String, [], eqb, get_elem?, if◌then◌else◌, int_eq, is_empty, length, nat_eq,
  none, not, set, some, string_eq, suc, zero, ℕ, ℤ, ◌%◌, ◌&&◌, ◌++◌, ◌+◌, ◌==◌, ◌^◌, ◌∷◌,
}
use wim.Gateway.Link.{start}
use wim.Gateway.Session.Reliable.{left}

pub record ServiceNodeInfo : Type 0 where
  pub id : String
  pub host : String
  pub port : ℕ
  pub status : String
  pub weight : ℕ

-- `ServiceNodeInfo::active`
unfoldable pub active : ServiceNodeInfo → Bool
active n = n.status == "active" && not (is_empty n.host) && not (eqb n.port 0)

-- A node of the old layout.
pub record ImNode : Type 0 where
  pub ip : String
  pub port : ℕ
  pub status : String
  pub connections : List ℤ

-- `im_nodes` are the values of imNodeMap in the order of imNodeName, with whether imRpcMap has the name.
-- Each of the two handlers has a counter of its own.
pub record StateService : Type 0 where
  pub gateway_nodes : List ServiceNodeInfo
  pub message_nodes : List ServiceNodeInfo
  pub topology_version : ℕ
  pub gateway_route_count : ℕ
  pub im_nodes : List ImNode
  pub im_route_count : ℕ
  pub backup_route_count : ℕ

-- A node that is looked at, and what the rest of the loop finds.
abbrev pub prefer : Option ServiceNodeInfo → Option ServiceNodeInfo → Option ServiceNodeInfo
prefer none later = none
prefer (some node) later = if active node then some node else later

-- The loop of `PickConnectionGateway`: `todo` nodes have not been looked at. The sum is a size_t.
unfoldable pub pick_from : List ServiceNodeInfo → ℕ → ℕ → ℕ → Option ServiceNodeInfo
unfolding active
pick_from nodes begin offset zero = none
pick_from nodes begin offset (suc todo) =
    prefer (get_elem? nodes ((begin + offset) % 2 ^ 64 % length nodes))
      (pick_from nodes begin (offset + 1) todo)

-- `none` is the status UNAVAILABLE.
unfoldable pub pick_connection_gateway : StateService → StateService × Option ServiceNodeInfo
unfolding pick_from
pick_connection_gateway s = if eqb (length s.gateway_nodes) 0 then (s, none) else (
  record s { gateway_route_count = (s.gateway_route_count + 1) % 2 ^ 64 },
  pick_from s.gateway_nodes s.gateway_route_count 0 (length s.gateway_nodes),
)

unfoldable pub active_nodes : List ServiceNodeInfo → List ServiceNodeInfo
unfolding active
active_nodes [] = []
active_nodes (n ∷ rest) = let others = active_nodes rest in if active n then n ∷ others else others

-- The response: the version, and the nodes where the caller does not know this version.
unfoldable pub list_message_nodes : ℕ → StateService → ℕ × List ServiceNodeInfo
unfolding active_nodes
list_message_nodes known_version s = (
  s.topology_version,
  if eqb known_version s.topology_version then [] else active_nodes s.message_nodes,
)

-- The loop of `GetImServer` from the counter's value `at`: the nodes and the counter that it leaves behind, and the
-- node whose address the response has.
unfoldable pub get_im : ℕ → ℤ → ℕ → List ImNode → List ImNode × ℕ × Option ImNode
get_im zero uid at nodes = (nodes, at, none)
get_im (suc left) uid at nodes =
    let onward = if eqb (at + 1) (length nodes) then 0 else at + 1 in
    let rest = get_im left uid onward nodes in
    elim (get_elem? nodes at) [
      | none ↦ (nodes, at, none)
      | some node ↦
          if node.status == "active"
          then (
            set nodes at (record node { connections = node.connections ++ (uid ∷ []) }),
            onward,
            some node,
          )
          else rest
    ]

-- `none` is the status UNAVAILABLE; otherwise the status is OK, also where no node was found.
unfoldable pub get_im_server : ℤ → StateService → StateService × Option (Option ImNode)
unfolding get_im
get_im_server uid s =
    if eqb (length s.im_nodes) 0
    then (s, none)
    else (let (nodes, at, found) = get_im (length s.im_nodes) uid s.im_route_count s.im_nodes in
        (record s { im_nodes = nodes; im_route_count = at }, some found))
