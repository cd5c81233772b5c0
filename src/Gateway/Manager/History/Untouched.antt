-- ===== src/Gateway/Manager/History/Untouched.antt =====
-- What the topology and the links do leaves the pending commands and the calls as they are.
use wim.Prelude.{
  List, Option-cases, String, [], arith, eqb, if◌then◌else◌, inl, inr, int_eq, nat_eq, not, refl,
  string_eq, ℕ, ◌&&◌, ◌+◌, ◌∙◌, ◌∷◌, ◌≡◌,
}
use wim.Gateway.Manager.{Manager, Node}
use wim.Gateway.Manager.Topology.{
  TopologySnapshot, apply_topology, check_link, check_links, desired_nodes, drop_link, drop_links,
  goes, on_reconnect_timer, start_link, start_missing,
}
use wim.Prelude.Map.{Map, insert, lookup}

abbrev pub SameCommands : Manager → Manager → Type 0
SameCommands m n = (n.pending ≡ m.pending) × (n.calls ≡ m.calls)

start_link-SameCommands :
    (node : Node) (now : ℕ) (m : Manager) → SameCommands m (start_link node now m)
unfolding start_link
start_link-SameCommands node now m = ground arith

drop_links-SameCommands :
    (desired configured : Map String Node) (ls : Map String ℕ) (m : Manager)
    → SameCommands m (drop_links desired configured ls m)
unfolding drop_links
drop_links-SameCommands desired configured [] m = (refl, refl)
drop_links-SameCommands desired configured ((node, address) ∷ rest) m =
    let ih = drop_links-SameCommands desired configured rest (
      if goes (lookup node desired) (lookup node configured)
      then drop_link node address m
      else m) in
    ground (arith, ih)

start_missing-SameCommands :
    (now : ℕ) (ns : List Node) (m : Manager) → SameCommands m (start_missing now ns m)
unfolding start_missing
start_missing-SameCommands now [] m = (refl, refl)
start_missing-SameCommands now (n ∷ ns) m = elim (Option-cases (lookup n.id m.links)) [
  | inl e ↦
      let ih = start_missing-SameCommands now ns (start_link n now m) in
      let s = start_link-SameCommands n now m in rw (e, start_missing) (ih.0 ∙ s.0, ih.1 ∙ s.1)
  | inr (a, e) ↦ rw (e, start_missing) (start_missing-SameCommands now ns m)
]

pub apply_topology-SameCommands :
    (s : TopologySnapshot) (now : ℕ) (m : Manager) → SameCommands m (apply_topology s now m)
unfolding apply_topology
apply_topology-SameCommands s now m =
    let m0 : Manager = record m {
      topology_version =
          if s.changed && not (eqb s.version 0) then s.version else m.topology_version;
    } in
    let desired = desired_nodes s.nodes [] in
    let m1 = drop_links desired m.configured_nodes m.links m0 in
    let a = drop_links-SameCommands desired m.configured_nodes m.links m0 in
    let b = start_missing-SameCommands now s.nodes (record m1 { configured_nodes = desired }) in
    (b.0 ∙ a.0, b.1 ∙ a.1)

pub on_reconnect_timer-SameCommands :
    (node : Node) (now : ℕ) (m : Manager) → SameCommands m (on_reconnect_timer node now m)
unfolding on_reconnect_timer
on_reconnect_timer-SameCommands node now m = ground (arith, start_link-SameCommands node now m)

pub check_links-SameCommands :
    (now : ℕ) (ls : Map String ℕ) (sequence : ℕ) (m : Manager)
    → SameCommands m (check_links now ls sequence m)
unfolding check_links
check_links-SameCommands now [] sequence m = (refl, refl)
check_links-SameCommands now ((node, address) ∷ rest) sequence m =
    elim (Option-cases (lookup address m.store)) [
      | inl e ↦ rw (e, check_links) (check_links-SameCommands now rest sequence m)
      | inr (l, e) ↦
          rw (e, check_links)
            (check_links-SameCommands now rest (if l.healthy then sequence + 1 else sequence)
              (record m { store = insert address (check_link now (sequence + 1) l) m.store }))
    ]
