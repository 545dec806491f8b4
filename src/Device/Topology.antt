-- ===== src/Device/Topology.antt =====
-- internal/device/topology.go: at most one direct neighbor for each port. A warning is data, without
-- its text, and the warnings stand in the order in which they arise, where the code sorts the texts.
-- `strings.ToLower` is that of ASCII texts.
pub mod Conflicts
pub mod Configured
use unifi_stubd.Prelude.{
  ℕ, zero, suc, ◌+◌, Bool, true, false, not, ◌&&◌, ◌||◌, ◌==◌, ltb, List, [], ◌∷◌, ◌++◌, Option,
  none, some, map, get_elem?, set, replicate, length, Result, ok, err, ◌>>=◌, if◌then◌else◌,
}
use unifi_stubd.Prelude.Int.{ℤ, pos, negsuc, ltb_ℤ}
use unifi_stubd.Prelude.Text.{Bytes, codes, same, is_empty, has_prefix, trim_space, lower_byte}
use unifi_stubd.Prelude.Text.Decimal.{atoi}
use unifi_stubd.Prelude.{drop}
use unifi_stubd.Device.{NeighborSource, TopologyNeighbor, Port}
use unifi_stubd.Device.Mac.{parse_mac, mac_string}
use unifi_stubd.Device.Override.{is_zero}

abbrev port_or_zero : Option ℤ → ℤ
port_or_zero none = pos 0
port_or_zero (some port) = if ltb_ℤ port (pos 1) || ltb_ℤ (pos 65535) port then pos 0 else port

-- `ParseRemotePortID`.
unfoldable pub parse_remote_port_id : Bytes → ℤ
unfolding trim_space has_prefix atoi
parse_remote_port_id value =
    let text = trim_space value in
    port_or_zero (
      atoi (
        if has_prefix (map lower_byte text) (codes "port ")
        then trim_space (drop 5 text)
        else text))

-- `TopologyDirection`.
pub data Direction : Type 0 where
  upstream : Direction
  downstream : Direction

-- `TopologyEdge`.
pub record Edge : Type 0 where
  pub local_port : ℕ
  pub direction : Direction
  pub neighbor : TopologyNeighbor

pub data TopologyWarning : Type 0 where
  overrides_lldp : ℕ → Bytes → Bytes → TopologyWarning
  multiple_lldp : ℕ → List Bytes → TopologyWarning
  both_through_lldp : Bytes → TopologyWarning
  overrides_edge : Bytes → Edge → Edge → TopologyWarning

pub data TopologyError : Type 0 where
  conflicting_neighbors : ℕ → List Bytes → TopologyError
  conflicting_directions : Edge → Edge → TopologyError

-- `TopologyResolution`.
pub record Resolution : Type 0 where
  pub edges : List Edge
  pub warnings : List TopologyWarning

abbrev normalized : TopologyNeighbor → Option (List ℕ) → Option TopologyNeighbor
normalized n none = none
normalized n (some hw) = some (record n {
  mac = map lower_byte (mac_string hw);
  hostname = trim_space n.hostname;
  ip = trim_space n.ip;
  device_type = map lower_byte (trim_space n.device_type);
  remote_port_id = trim_space n.remote_port_id;
})

-- `normalizeTopologyNeighbor`.
unfoldable pub normalize_topology_neighbor : TopologyNeighbor → Option TopologyNeighbor
normalize_topology_neighbor n = normalized n (parse_mac (trim_space n.mac))

-- `mergeTopologyNeighbor`.
unfoldable pub merge_topology_neighbor : TopologyNeighbor → TopologyNeighbor → TopologyNeighbor
merge_topology_neighbor fallback preferred = record preferred {
  hostname =
      if is_empty (trim_space preferred.hostname) then fallback.hostname else preferred.hostname;
  ip = if is_empty (trim_space preferred.ip) then fallback.ip else preferred.ip;
  device_type =
      if is_empty (trim_space preferred.device_type)
      then fallback.device_type
      else preferred.device_type;
  vlan = if is_zero preferred.vlan then fallback.vlan else preferred.vlan;
  age = if is_zero preferred.age then fallback.age else preferred.age;
  uptime = if is_zero preferred.uptime then fallback.uptime else preferred.uptime;
  remote_port =
      if is_zero preferred.remote_port then fallback.remote_port else preferred.remote_port;
  remote_port_id =
      if is_empty (trim_space preferred.remote_port_id)
      then fallback.remote_port_id
      else preferred.remote_port_id;
  static = preferred.static || fallback.static;
}

abbrev lowered_mac : Bytes → Option (List ℕ) → Bytes
lowered_mac text none = map lower_byte text
lowered_mac text (some hw) = map lower_byte (mac_string hw)

-- `normalizedTopologyMAC`.
unfoldable pub normalized_topology_mac : Bytes → Bytes
normalized_topology_mac value = lowered_mac (trim_space value) (parse_mac (trim_space value))

-- A map from addresses to neighbors.
abbrev pub Neighbors : Type 0
Neighbors = List (Bytes × TopologyNeighbor)

abbrev pub keys_of : Neighbors → List Bytes
keys_of [] = []
keys_of ((key, n) ∷ entries) = key ∷ keys_of entries

-- The neighbor of a key is merged with another that is preferred, or added.
unfoldable pub merge_into : Neighbors → Bytes → TopologyNeighbor → Neighbors
unfolding same
merge_into [] key n = (key, n) ∷ []
merge_into ((k, old) ∷ entries) key n =
    let rest = merge_into entries key n in
    if same k key then (k, merge_topology_neighbor old n) ∷ entries else (k, old) ∷ rest

abbrev pub is_lldp : NeighborSource → Bool
is_lldp NeighborSource.lldp = true
is_lldp NeighborSource.config_uplink = false
is_lldp NeighborSource.config_port = false
is_lldp NeighborSource.other = false

abbrev sorted_in : Option TopologyNeighbor → Neighbors × Neighbors → Neighbors × Neighbors
sorted_in none maps = maps
sorted_in (some n) (configured, lldp) =
    let key = normalized_topology_mac n.mac in
    if is_lldp n.source
    then (configured, merge_into lldp key n)
    else (merge_into configured key n, lldp)

-- The loop of `resolvePortNeighbor` over the neighbors of a port: the configured ones, and LLDP's.
unfoldable pub collect : List TopologyNeighbor → Neighbors × Neighbors → Neighbors × Neighbors
collect [] maps = maps
collect (raw ∷ raws) maps = collect raws (sorted_in (normalize_topology_neighbor raw) maps)

-- The loop of `resolvePortNeighbor` over LLDP's neighbors beside a configured one.
unfoldable pub beside_lldp :
    ℕ → Neighbors → TopologyNeighbor → TopologyNeighbor × List TopologyWarning
unfolding same
beside_lldp port [] n = (n, [])
beside_lldp port ((mac, learned) ∷ entries) n =
    let merged = beside_lldp port entries (merge_topology_neighbor learned n) in
    let (kept, warnings) = beside_lldp port entries n in
    if same mac (normalized_topology_mac n.mac)
    then merged
    else (kept, TopologyWarning.overrides_lldp port n.mac learned.mac ∷ warnings)

abbrev pub Chosen : Type 0
Chosen = Option TopologyNeighbor × List TopologyWarning

abbrev pub learned_neighbor : ℕ → Neighbors → Chosen
learned_neighbor port [] = (none, [])
learned_neighbor port ((key, n) ∷ []) = (some n, [])
learned_neighbor port ((key, n) ∷ second ∷ more) =
    (none, TopologyWarning.multiple_lldp port (keys_of ((key, n) ∷ second ∷ more)) ∷ [])

abbrev pub chosen_neighbor : ℕ → Neighbors → Neighbors → Result TopologyError Chosen
chosen_neighbor port [] lldp = ok (learned_neighbor port lldp)
chosen_neighbor port ((key, n) ∷ []) lldp =
    let (kept, warnings) = beside_lldp port lldp n in ok (some kept, warnings)
chosen_neighbor port ((key, n) ∷ second ∷ more) lldp =
    err (TopologyError.conflicting_neighbors port (keys_of ((key, n) ∷ second ∷ more)))

-- `resolvePortNeighbor`.
unfoldable pub resolve_port_neighbor : Port → Result TopologyError Chosen
resolve_port_neighbor port =
    let (configured, lldp) = collect port.neighbors ([], []) in
    chosen_neighbor port.index configured lldp

-- `topologySourcePriority`.
unfoldable pub topology_source_priority : NeighborSource → ℕ
topology_source_priority NeighborSource.config_uplink = 2
topology_source_priority NeighborSource.config_port = 2
topology_source_priority NeighborSource.lldp = 1
topology_source_priority NeighborSource.other = 0
