-- ===== src/Gateway/Manager/Topology/Applied.antt =====
-- ApplyTopology leaves a link to exactly the nodes of the snapshot.
use wim.Prelude.{
  ==_cases, ==_refl, All, Bool, Bool-cases, List, Option, Option-cases, String, [], ap, arith, eqb,
  eqb_iff, false, if◌then◌else◌, inl, inr, int_eq, nat_eq, none, not, refl, some, string_eq, sym,
  true, ℕ, ◌&&◌, ◌==◌, ◌||◌, ◌∙◌, ◌∷◌, ◌≡◌, ◌⊎◌,
}
use wim.Gateway.Manager.{Manager, Node}
use wim.Gateway.Manager.Topology.{
  TopologySnapshot, apply_topology, desired_nodes, drop_link, drop_links, goes, same_endpoint,
  start_link, start_missing,
}
use wim.Prelude.Map.{Map, insert, lookup, lookup-erase, lookup-insert}

abbrev pub is_some {ℓ} : {A : Type ℓ} → Option A → Bool
is_some none = false
is_some (some a) = true

-- Whether a snapshot lists a node of this name.
unfoldable pub named : String → List Node → Bool
named k [] = false
named k (n ∷ ns) = n.id == k || named k ns

links-start_link :
    (n : Node) (now : ℕ) (m : Manager)
    → (start_link n now m).links ≡ insert n.id m.next_address m.links
unfolding start_link
links-start_link n now m = ground arith

lookup-start_link :
    (n : Node) (now : ℕ) (m : Manager) (k : String)
    → lookup k (start_link n now m).links
      ≡ (if n.id == k then some m.next_address else lookup k m.links)
lookup-start_link n now m k =
    ap (lookup k) (links-start_link n now m) ∙ lookup-insert n.id k m.next_address m.links

start_missing-keeps :
    (now : ℕ) (ns : List Node) (m : Manager) (k : String) (a : ℕ)
    → lookup k m.links ≡ some a
    → lookup k (start_missing now ns m).links ≡ some a
unfolding start_missing
start_missing-keeps now [] m k a e = e
start_missing-keeps now (n ∷ ns) m k a e = elim (Option-cases (lookup n.id m.links)) [
  | inr (b, old) ↦ rw (old, start_missing) (start_missing-keeps now ns m k a e)
  | inl new ↦
      rw (new, start_missing)
        (start_missing-keeps now ns (start_link n now m) k a
          (lookup-start_link n now m k ∙ other new))
]
  where
    other :
        lookup n.id m.links ≡ none
        → (if n.id == k then some m.next_address else lookup k m.links) ≡ some a
    other new = elim (==_cases n.id k) [
      | inl (t, same) ↦ let clash : lookup k m.links ≡ none = rw (← same) new in cc
      | inr (f, differ) ↦ rw f e
    ]

start_missing-names :
    (now : ℕ) (ns : List Node) (m : Manager) (k : String)
    → is_some (lookup k (start_missing now ns m).links) ≡ (named k ns || is_some (lookup k m.links))
unfolding start_missing named
start_missing-names now [] m k = refl
start_missing-names now (n ∷ ns) m k = elim (Option-cases (lookup n.id m.links)) [
  | inr (b, old) ↦ rw (old, start_missing) (start_missing-names now ns m k ∙ known b old)
  | inl new ↦
      rw (new, start_missing)
        (start_missing-names now ns (start_link n now m) k
          ∙ (rw (lookup-start_link n now m k) (ground arith)))
]
  where
    known :
        (b : ℕ)
        → lookup n.id m.links ≡ some b
        → (named k ns || is_some (lookup k m.links))
          ≡ ((n.id == k || named k ns) || is_some (lookup k m.links))
    known b old = elim (==_cases n.id k) [
      | inl (t, same) ↦ let present : lookup k m.links ≡ some b = rw (← same) old in ground arith
      | inr (f, differ) ↦ ground arith
    ]

desired-names :
    (ns : List Node) (acc : Map String Node) (k : String)
    → is_some (lookup k (desired_nodes ns acc)) ≡ (named k ns || is_some (lookup k acc))
unfolding desired_nodes named
desired-names [] acc k = refl
desired-names (n ∷ ns) acc k =
    desired-names ns (insert n.id n acc) k ∙ (rw (lookup-insert n.id k n acc) (ground arith))

module _ (desired configured : Map String Node) (k : String) where
  abbrev gone : Bool
  gone = goes (lookup k desired) (lookup k configured)

  lookup-cons :
      (node : String) (a : ℕ) (rest : Map String ℕ)
      → lookup k ((node, a) ∷ rest) ≡ (if node == k then some a else lookup k rest)
  unfolding lookup
  lookup-cons node a rest = refl

  drop_links-lookup :
      (ls : Map String ℕ) (m : Manager)
      → lookup k (drop_links desired configured ls m).links
        ≡ (if is_some (lookup k ls) && gone then none else lookup k m.links)
  unfolding drop_links
  drop_links-lookup [] m = unfold lookup in refl
  drop_links-lookup ((node, a) ∷ rest) m =
      elim (Bool-cases (goes (lookup node desired) (lookup node configured))) [
        | inl go ↦
            rw (go, drop_links, lookup-cons)
              (drop_links-lookup rest (drop_link node a m)
                ∙ (rw (lookup-erase node k m.links) (dropped go)))
        | inr held ↦ rw (held, drop_links, lookup-cons) (drop_links-lookup rest m ∙ kept held)
      ]
    where
      dropped :
          goes (lookup node desired) (lookup node configured) ≡ true
          → (if is_some (lookup k rest) && gone
              then none
              else if node == k
              then none
              else lookup k m.links)
            ≡ (if is_some (if node == k then some a else lookup k rest) && gone
                then none
                else lookup k m.links)
      dropped go = elim (==_cases node k) [
        | inl (t, same) ↦ let g : gone ≡ true = rw (← same) go in ground arith
        | inr (f, differ) ↦ ground arith
      ]

      kept :
          goes (lookup node desired) (lookup node configured) ≡ false
          → (if is_some (lookup k rest) && gone then none else lookup k m.links) ≡ (
              if is_some (if node == k then some a else lookup k rest) && gone
              then none
              else lookup k m.links)
      kept held = elim (==_cases node k) [
        | inl (t, same) ↦ let g : gone ≡ false = rw (← same) held in ground arith
        | inr (f, differ) ↦ ground arith
      ]

-- The links after the drops, and before the starts.
module _ (s : TopologySnapshot) (m : Manager) (k : String) where
  abbrev desired_here : Map String Node
  desired_here = desired_nodes s.nodes []

  abbrev dropped_links : Map String ℕ
  dropped_links =
      (drop_links desired_here m.configured_nodes m.links (record m {
        topology_version =
            if s.changed && not (eqb s.version 0) then s.version else m.topology_version;
      })).links

  dropped-lookup : lookup k dropped_links ≡ (
      if is_some (lookup k m.links) && gone desired_here m.configured_nodes k
      then none
      else lookup k m.links)
  dropped-lookup = drop_links-lookup desired_here m.configured_nodes k m.links (record m {
    topology_version = if s.changed && not (eqb s.version 0) then s.version else m.topology_version;
  })

  desired-named : is_some (lookup k desired_here) ≡ named k s.nodes
  desired-named = desired-names s.nodes [] k ∙ (unfold lookup in ground arith)

  dropped-named : (named k s.nodes || is_some (lookup k dropped_links)) ≡ named k s.nodes
  dropped-named = elim (Option-cases (lookup k desired_here)) [
    | inl e ↦ rw (dropped-lookup, e) (ground arith)
    | inr (n, e) ↦
        let yes_named : named k s.nodes ≡ true = sym desired-named ∙ ap is_some e in
        rw yes_named refl
  ]

-- After ApplyTopology there is a link to a node exactly if the snapshot lists the node.
pub apply_topology_names :
    (s : TopologySnapshot) (now : ℕ) (m : Manager) (k : String)
    → is_some (lookup k (apply_topology s now m).links) ≡ named k s.nodes
unfolding apply_topology
apply_topology_names s now m k = start_missing-names now s.nodes _ k ∙ dropped-named s m k

-- Under this name a node, if it is named so, is at this host and port.
abbrev pub IsAt : String → String → ℕ → Node → Type 0
IsAt k host port n = (n.id == k ≡ false) ⊎ ((n.host ≡ host) × (n.port ≡ port))

-- A node that is wanted, and is at the host and port.
abbrev FoundAt : String → ℕ → Option Node → Type 0
FoundAt host port none = ⊥
FoundAt host port (some n) = (n.host ≡ host) × (n.port ≡ port)

insert-FoundAt :
    (k host : String) (port : ℕ) (n : Node) (acc : Map String Node)
    → IsAt k host port n
    → (n.id == k ≡ true) ⊎ FoundAt host port (lookup k acc)
    → FoundAt host port (lookup k (insert n.id n acc))
insert-FoundAt k host port n acc at old = rw (lookup-insert n.id k n acc) (elim (==_cases n.id k) [
  | inl (t, same) ↦ rw t (at_endpoint at t)
  | inr (f, differ) ↦ rw f (kept old f)
])
  where
    at_endpoint : IsAt k host port n → n.id == k ≡ true → (n.host ≡ host) × (n.port ≡ port)
    at_endpoint (inl f) t = absurd (cc (f, t))
    at_endpoint (inr endpoint) t = endpoint

    kept :
        (n.id == k ≡ true) ⊎ FoundAt host port (lookup k acc)
        → n.id == k ≡ false
        → FoundAt host port (lookup k acc)
    kept (inl t) f = absurd (cc (t, f))
    kept (inr found) f = found

desired-FoundAt :
    (k host : String) (port : ℕ) (ns : List Node) (acc : Map String Node)
    → All (IsAt k host port) ns
    → (named k ns ≡ true) ⊎ FoundAt host port (lookup k acc)
    → FoundAt host port (lookup k (desired_nodes ns acc))
unfolding desired_nodes named
desired-FoundAt k host port [] acc a (inl h) = absurd (cc h)
desired-FoundAt k host port [] acc a (inr found) = found
desired-FoundAt k host port (n ∷ ns) acc a (inr found) =
    desired-FoundAt k host port ns (insert n.id n acc) a.1
      (inr (insert-FoundAt k host port n acc a.0 (inr found)))
desired-FoundAt k host port (n ∷ ns) acc a (inl h) = elim (Bool-cases (n.id == k)) [
  | inl t ↦
      desired-FoundAt k host port ns (insert n.id n acc) a.1
        (inr (insert-FoundAt k host port n acc a.0 (inl t)))
  | inr f ↦ desired-FoundAt k host port ns (insert n.id n acc) a.1 (inl (ground (arith, h, f)))
]

FoundAt-held :
    (o : Option Node) (configured : Node)
    → FoundAt configured.host configured.port o
    → goes o (some configured) ≡ false
unfolding same_endpoint
FoundAt-held none configured found = absurd found
FoundAt-held (some n) configured (same_host, same_port) =
    rw
      (
        same_host,
        same_port,
        ==_refl configured.host,
        (eqb_iff configured.port configured.port).1 refl,
      )
      refl

-- Where a snapshot lists a node, and lists it only at the host and port that are configured for it,
-- ApplyTopology keeps the node's link object.
pub apply_topology_keeps :
    (s : TopologySnapshot) (now : ℕ) (m : Manager) (k : String) (a : ℕ) (configured : Node)
    → lookup k m.links ≡ some a
    → lookup k m.configured_nodes ≡ some configured
    → named k s.nodes ≡ true
    → All (IsAt k configured.host configured.port) s.nodes
    → lookup k (apply_topology s now m).links ≡ some a
unfolding apply_topology
apply_topology_keeps s now m k a configured e known listed at =
    let found = desired-FoundAt k configured.host configured.port s.nodes [] at (inl listed) in
    let held : goes (lookup k (desired_nodes s.nodes [])) (lookup k m.configured_nodes) ≡ false =
      rw known (FoundAt-held (lookup k (desired_nodes s.nodes [])) configured found) in
    start_missing-keeps now s.nodes _ k a (dropped-lookup s m k ∙ (rw held (ground arith)))
