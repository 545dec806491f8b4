-- ===== src/Tests/Topology.antt =====
-- Runs of the resolution of a topology.
use mathlib.Core.Path.{subst}
use unifi_stubd.Prelude.{some-injective}
use unifi_stubd.Prelude.{ℕ, zero, suc, sym, ◌≡◌, ◌⊎◌, refl, arith, true, false, [], ◌∷◌, ok}
use unifi_stubd.Prelude.Int.{pos}
use unifi_stubd.Prelude.Text.{codes, same, trim_space}
use unifi_stubd.Prelude.Text.Hex.{hex_value}
use unifi_stubd.Device.{Port, NeighborSource, TopologyNeighbor}
use unifi_stubd.Device.Mac.{parse_mac, mac_string}
use unifi_stubd.Device.Topology.{
  Direction, Edge, TopologyWarning, Resolution, parse_remote_port_id, normalized_topology_mac,
  normalize_topology_neighbor, merge_into, collect, resolve_port_neighbor, beside_lldp,
  topology_source_priority,
}
use unifi_stubd.Device.Topology.Conflicts.{
  lookup_mac, judge, conflict_pass, resolve_direction_conflicts, collect_edges, resolve_topology,
  same_direction,
}
use unifi_stubd.Device.Topology.Conflicts.Kept.{Has, Opposite, resolve_direction_conflicts_lem}
use unifi_stubd.Device.Topology.Conflicts.Apart.{OneEach}
use unifi_stubd.Device.Topology.Conflicts.Once.{
  Doubled, resolve_direction_conflicts-apart, resolve_direction_conflicts_doubled,
}
use unifi_stubd.Device.Topology.Conflicts.Edges.{FromPort, resolve_topology-FromPort}
use unifi_stubd.Tests.Device.{wan_port}

remote_port : parse_remote_port_id (codes " Port 50 ") ≡ pos 50
unfolding parse_remote_port_id
remote_port = refl

abbrev switch : NeighborSource → TopologyNeighbor
switch source = record {
  mac = codes "00:1b:63:84:45:e6";
  hostname = [];
  ip = [];
  device_type = codes "usw";
  vlan = pos 0;
  age = pos 0;
  uptime = pos 0;
  remote_port = pos 0;
  remote_port_id = [];
  source = source;
  static = false;
}

abbrev edge : ℕ → Direction → NeighborSource → Edge
edge port direction source = record {
  local_port = port;
  direction = direction;
  neighbor = switch source;
}

-- The switch is seen below one port and configured above another.
abbrev below : Edge
below = edge 1 Direction.downstream NeighborSource.lldp

abbrev above : Edge
above = edge 2 Direction.upstream NeighborSource.config_uplink

abbrev seen_twice : Resolution
seen_twice = record { edges = below ∷ above ∷ []; warnings = [] }

abbrev resolved : Resolution
resolved = record {
  edges = above ∷ [];
  warnings = TopologyWarning.overrides_edge (codes "00:1b:63:84:45:e6") above below ∷ [];
}

seen_twice_resolved : resolve_direction_conflicts seen_twice ≡ ok resolved
unfolding resolve_direction_conflicts conflict_pass lookup_mac judge same topology_source_priority
    normalized_topology_mac trim_space parse_mac mac_string hex_value
seen_twice_resolved = refl

resolve_direction_conflicts_lem_example :
    (Has below seen_twice.edges
      → Has below resolved.edges ⊎ ((e' : Edge) × Has e' seen_twice.edges × Opposite below e'))
    × (Has below resolved.edges → Has below seen_twice.edges)
resolve_direction_conflicts_lem_example =
    resolve_direction_conflicts_lem seen_twice resolved below seen_twice_resolved

same_direction_comm : (d d' : Direction) → same_direction d d' ≡ true → same_direction d' d ≡ true
same_direction_comm Direction.upstream Direction.upstream h = h
same_direction_comm Direction.upstream Direction.downstream h = cc
same_direction_comm Direction.downstream Direction.upstream h = cc
same_direction_comm Direction.downstream Direction.downstream h = h

-- The edges of `seen_twice` go in different directions.
two_directions :
    (e e' : Edge) → below ≡ e → above ≡ e' → same_direction e.direction e'.direction ≡ true → ⊥
two_directions e e' a b h =
    let no : same_direction Direction.downstream Direction.upstream ≡ true =
      subst (λ (x : Edge). same_direction Direction.downstream x.direction ≡ true) (sym b)
        (subst (λ (x : Edge). same_direction x.direction e'.direction ≡ true) (sym a) h) in
    cc

seen_twice-OneEach : OneEach seen_twice.edges
seen_twice-OneEach zero zero e e' at_i at_j key direction = refl
seen_twice-OneEach zero (suc zero) e e' at_i at_j key direction =
    absurd (two_directions e e' (some-injective at_i) (some-injective at_j) direction)
seen_twice-OneEach zero (suc (suc j)) e e' at_i at_j key direction = cc
seen_twice-OneEach (suc zero) zero e e' at_i at_j key direction = absurd (
    two_directions e' e (some-injective at_j) (some-injective at_i)
      (same_direction_comm e.direction e'.direction direction))
seen_twice-OneEach (suc zero) (suc zero) e e' at_i at_j key direction = refl
seen_twice-OneEach (suc zero) (suc (suc j)) e e' at_i at_j key direction = cc
seen_twice-OneEach (suc (suc i)) j e e' at_i at_j key direction = cc

resolve_direction_conflicts-apart_example : ¬ Opposite above above
resolve_direction_conflicts-apart_example =
    resolve_direction_conflicts-apart seen_twice resolved above above seen_twice-OneEach
      seen_twice_resolved (0, refl) (0, refl)

-- The switch is seen below two ports, and configured above a third.
abbrev below_again : Edge
below_again = edge 3 Direction.downstream NeighborSource.lldp

doubled : Doubled below below_again above
unfolding topology_source_priority
doubled = record {
  first = refl;
  second = refl;
  along = refl;
  against = refl;
  stronger = omega arith;
}

resolve_direction_conflicts_doubled_example :
    (r : Resolution) × (resolve_direction_conflicts
        (record { edges = below ∷ below_again ∷ above ∷ []; warnings = [] })
      ≡ ok r)
    × (r.edges ≡ below_again ∷ above ∷ [])
resolve_direction_conflicts_doubled_example =
    resolve_direction_conflicts_doubled below below_again above [] doubled

-- The uplink port has a configured neighbor.
abbrev uplink : Port
uplink = record wan_port { neighbors = switch NeighborSource.config_uplink ∷ [] }

abbrev uplink_edge : Edge
uplink_edge = record {
  local_port = 1;
  direction = Direction.upstream;
  neighbor = switch NeighborSource.config_uplink;
}

uplink_resolved :
    resolve_topology (uplink ∷ []) ≡ ok (record { edges = uplink_edge ∷ []; warnings = [] })
unfolding resolve_topology collect_edges resolve_port_neighbor collect normalize_topology_neighbor
    merge_into beside_lldp resolve_direction_conflicts conflict_pass lookup_mac
    normalized_topology_mac trim_space parse_mac mac_string hex_value
uplink_resolved = refl

resolve_topology-FromPort_example : FromPort (uplink ∷ []) uplink_edge
resolve_topology-FromPort_example =
    resolve_topology-FromPort (uplink ∷ []) (record { edges = uplink_edge ∷ []; warnings = [] })
      uplink_edge uplink_resolved (0, refl)
