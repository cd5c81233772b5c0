-- ===== src/Gateway/Manager/Topology.antt =====
-- The links of MessageLinkManager: ApplyTopology, StartLink, RetireLink, OnLinkDone, the reconnect
-- timer, and a round of TopologyLoop.
pub mod Applied
pub mod Backoff
use wim.Prelude.{
  Bool, List, Option, String, [], eqb, false, if◌then◌else◌, int_eq, ltb, max, min, nat_eq, none,
  not, some, string_eq, true, ℕ, ℤ, ◌%◌, ◌&&◌, ◌*◌, ◌++◌, ◌+◌, ◌-◌, ◌/◌, ◌==◌, ◌^◌, ◌||◌, ◌∷◌,
}
use wim.Gateway.Link.{Link, new_link, send_heartbeat, start, stop}
use wim.Gateway.Manager.{Manager, Node, modify}
use wim.Gateway.Manager.Commands.{retry_pending}
use wim.Prelude.Map.{Map, erase, insert, lookup}
use wim.Wire.Packet.{value_or}

pub record TopologySnapshot : Type 0 where
  pub version : ℕ
  pub changed : Bool
  pub nodes : List Node

-- `desired[node.id] = node` for each node of a snapshot.
unfoldable pub desired_nodes : List Node → Map String Node → Map String Node
desired_nodes [] desired = desired
desired_nodes (n ∷ ns) desired = desired_nodes ns (insert n.id n desired)

unfoldable pub same_endpoint : Node → Node → Bool
same_endpoint a b = a.host == b.host && eqb a.port b.port

-- Whether the link of a node goes: it is not wanted, or its endpoint has changed.
abbrev pub goes : Option Node → Option Node → Bool
goes none configured = true
goes (some wanted) none = false
goes (some wanted) (some configured) = not (same_endpoint wanted configured)

-- `links.erase(current)`, `reconnectAttempts.erase`, `RetireLink` and, after the lock, `Stop`.
abbrev pub drop_link : String → ℕ → Manager → Manager
drop_link node address m = record m {
  links = erase node m.links;
  reconnect_attempts = erase node m.reconnect_attempts;
  retired_links = m.retired_links ++ (address ∷ []);
  store = modify address stop m.store;
}

unfoldable pub drop_links : Map String Node → Map String Node → Map String ℕ → Manager → Manager
unfolding same_endpoint
drop_links desired configured [] m = m
drop_links desired configured ((node, address) ∷ rest) m =
    drop_links desired configured rest
      (if goes (lookup node desired) (lookup node configured) then drop_link node address m else m)

-- `RetireLink(old); old->Stop()` where the node has a link already.
abbrev retire_old : Option ℕ → Manager → Manager
retire_old none m = m
retire_old (some old) m = record m {
  retired_links = m.retired_links ++ (old ∷ []);
  store = modify old stop m.store;
}

-- `make_shared<MessageLink>`, `links[node.id] = link`, `link->Start()`.
unfoldable pub start_link : Node → ℕ → Manager → Manager
start_link node now m =
    let m' = retire_old (lookup node.id m.links) m in
    let fresh = start (new_link node.id node.host node.port now) m.gateway_id m.instance_id now in
    record m' {
      links = insert node.id m.next_address m'.links;
      store = insert m.next_address fresh m'.store;
      next_address = m.next_address + 1;
    }

unfoldable pub start_missing : ℕ → List Node → Manager → Manager
unfolding start_link
start_missing now [] m = m
start_missing now (n ∷ ns) m =
    start_missing now ns (elim (lookup n.id m.links) [ none ↦ start_link n now m | some _ ↦ m ])

unfoldable pub apply_topology : TopologySnapshot → ℕ → Manager → Manager
unfolding desired_nodes drop_links start_missing
apply_topology snapshot now m =
    let desired = desired_nodes snapshot.nodes [] in
    let m1 = drop_links desired m.configured_nodes m.links (record m {
      topology_version =
          if snapshot.changed && not (eqb snapshot.version 0)
          then snapshot.version
          else m.topology_version;
    }) in
    start_missing now snapshot.nodes (record m1 { configured_nodes = desired })

remove_all : ℕ → List ℕ → List ℕ
remove_all address [] = []
remove_all address (a ∷ rest) =
    if eqb a address then remove_all address rest else a ∷ remove_all address rest

-- The timer of `RetireLink` lets go of the object.
unfoldable pub release_retired : ℕ → Manager → Manager
unfolding remove_all
release_retired address m = record m { retired_links = remove_all address m.retired_links }

-- `kReconnectBase * (1U << min(attempt, 6))`, at most `kReconnectMaximum`.
unfoldable pub reconnect_delay : ℕ → ℕ
reconnect_delay attempt = min (200 * 2 ^ min attempt 6) 10000

-- The jitter is drawn from 0 to a quarter of the delay: `random` is the generator's number.
unfoldable pub with_jitter : ℕ → ℕ → ℕ
with_jitter delay random = delay + random % (max 1 (delay / 4) + 1)

abbrev pub is_current : ℕ → Option ℕ → Bool
is_current source none = false
is_current source (some address) = eqb address source

-- What `OnLinkDone` posts to the io_context; the second part of the result is the delay after which
-- the timer starts a new link to the node.
unfoldable pub on_link_done :
    (String → ℕ) → (ℤ → String) → String → ℕ → ℕ → ℕ → Manager → Manager × Option (Node × ℕ)
unfolding reconnect_delay with_jitter retry_pending
on_link_done hash to_string node_id source now random m =
    if m.stopping || not (is_current source (lookup node_id m.links))
    then (m, none)
    else let m1 = record m {
      links = erase node_id m.links;
      retired_links = m.retired_links ++ (source ∷ []);
    } in
      elim (lookup node_id m1.configured_nodes) [
        | none ↦ (m1, none)
        | some node ↦
            let m2 = retry_pending hash to_string node_id now m1 in
            let attempt = value_or 0 (lookup node_id m2.reconnect_attempts) in
            (
              record m2 {
                reconnect_attempts = insert node_id ((attempt + 1) % 2 ^ 32) m2.reconnect_attempts;
              },
              some (node, with_jitter (reconnect_delay attempt) random),
            )
      ]

-- The reconnect timer of `OnLinkDone`.
unfoldable pub on_reconnect_timer : Node → ℕ → Manager → Manager
unfolding start_link same_endpoint
on_reconnect_timer node now m = if m.stopping then m else elim (lookup node.id m.configured_nodes) [
  | none ↦ m
  | some configured ↦ elim (lookup node.id m.links) [
    | some _ ↦ m
    | none ↦ if same_endpoint configured node then start_link node now m else m
  ]
]

-- What a round of `TopologyLoop` does to a link: a heartbeat if it is healthy, and a stop if it has
-- read nothing for 30 seconds.
unfoldable pub check_link : ℕ → ℕ → Link → Link
check_link now sequence l =
    let beat = if l.healthy then send_heartbeat l now sequence else l in
    if ltb 30000 (now - l.last_read_at) then stop beat else beat

-- The loop over the links that the round has copied.
unfoldable pub check_links : ℕ → Map String ℕ → ℕ → Manager → Manager
unfolding check_link
check_links now [] sequence m = m
check_links now ((node, address) ∷ rest) sequence m = elim (lookup address m.store) [
  | none ↦ check_links now rest sequence m
  | some l ↦
      check_links now rest (if l.healthy then sequence + 1 else sequence)
        (record m { store = insert address (check_link now (sequence + 1) l) m.store })
]
