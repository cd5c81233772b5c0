-- ===== src/Gateway/Manager.antt =====
-- The class MessageLinkManager of server/gateway/src/MessageLink.cc: its state, its links and the choice of
-- one. `hash` is std::hash of the standard library at a text, `to_string` std::to_string; a clock
-- reading is an argument of the call that makes it.
pub mod Commands
pub mod Topology
pub mod Choice
pub mod History
use Prim.Native.String
use wim.Prelude.{
  Bool, List, Option, String, [], false, if◌then◌else◌, int_eq, is_positive, ltb, nat_eq, none, not,
  some, string_eq, ℕ, ℤ, ◌&&◌, ◌++◌, ◌+◌, ◌==◌, ◌∷◌,
}
use wim.Gateway.Frames.{CommandEnvelope, CommandResult, GatewayToMessageFrame}
use wim.Gateway.Link.{Link, enqueue}
use wim.Gateway.Select.{highest, min_element}
use wim.Prelude.Map.{Map, insert, lookup}

pub record Node : Type 0 where
  pub id : String
  pub host : String
  pub port : ℕ

-- A command that waits for its result. `callback` names the std::function; `none` is an empty one.
pub record PendingCommand : Type 0 where
  pub command : CommandEnvelope
  pub callback : Option ℕ
  pub link_id : String
  pub attempts : ℕ

-- A MessageLink is shared by pointer: `store` holds the objects by address. `calls` are the
-- invocations of callbacks so far, in order.
pub record Manager : Type 0 where
  pub gateway_id : String
  pub instance_id : String
  pub stopping : Bool
  pub topology_version : ℕ
  pub configured_nodes : Map String Node
  pub links : Map String ℕ
  pub retired_links : List ℕ
  pub reconnect_attempts : Map String ℕ
  pub pending : Map String PendingCommand
  pub store : Map ℕ Link
  pub next_address : ℕ
  pub calls : List (ℕ × CommandResult)

unfoldable pub new_manager : String → String → Manager
new_manager gateway_id instance_id = record {
  gateway_id = gateway_id;
  instance_id = instance_id;
  stopping = false;
  topology_version = 0;
  configured_nodes = [];
  links = [];
  retired_links = [];
  reconnect_attempts = [];
  pending = [];
  store = [];
  next_address = 0;
  calls = [];
}

-- A method call on the object at an address.
unfoldable pub modify : ℕ → (Link → Link) → Map ℕ Link → Map ℕ Link
modify address f store = elim (lookup address store) [
  | none ↦ store
  | some l ↦ insert address (f l) store
]

abbrev pub on_link : Manager → ℕ → (Link → Link) → Manager
on_link m address f = record m { store = modify address f m.store }

-- What `Enqueue` returns at the object at an address.
unfoldable pub accepts : Map ℕ Link → ℕ → GatewayToMessageFrame → Bool
accepts store address frame = elim (lookup address store) [
  | none ↦ false
  | some l ↦ (enqueue l frame).1
]

abbrev pub enqueue_at : ℕ → GatewayToMessageFrame → Manager → Manager
enqueue_at address frame m = on_link m address (λ l. (enqueue l frame).0)

-- `nodeId != excluded && link->Healthy()`
abbrev candidate : String → String → ℕ → Option Link → List (ℕ × Link)
candidate excluded node address none = []
candidate excluded node address (some l) =
    if not (node == excluded) && l.healthy then (address, l) ∷ [] else []

unfoldable pub candidates : Map ℕ Link → String → Map String ℕ → List (ℕ × Link)
candidates store excluded [] = []
candidates store excluded ((node, address) ∷ rest) =
    candidate excluded node address (lookup address store) ++ candidates store excluded rest

unfoldable pub count_healthy : Map ℕ Link → Map String ℕ → ℕ
count_healthy store [] = 0
count_healthy store ((node, address) ∷ rest) =
    let others = count_healthy store rest in
    elim (lookup address store) [
      | none ↦ others
      | some l ↦ if l.healthy then others + 1 else others
    ]

-- `HealthyLinkCount` and `Ready`.
unfoldable pub healthy_link_count : Manager → ℕ
unfolding count_healthy
healthy_link_count m = count_healthy m.store m.links

unfoldable pub ready : Manager → Bool
unfolding healthy_link_count
ready m = ltb 0 (healthy_link_count m)

module _ (hash : String → ℕ) (to_string : ℤ → String) where
  abbrev pub link_score : ℤ → ℕ × Link → ℕ
  link_score conversation_id (address, l) =
      hash (String.◌++◌ (to_string conversation_id) (String.◌++◌ ":" l.id))

  -- `SelectLink`; an empty `excluded` excludes nothing but a node with an empty name.
  unfoldable pub select_link : Manager → ℤ → String → Option (ℕ × Link)
  select_link m conversation_id excluded =
      let healthy = candidates m.store excluded m.links in
      if is_positive conversation_id
      then highest (link_score conversation_id) none healthy
      else min_element (λ (c : ℕ × Link). c.1.inflight) healthy
