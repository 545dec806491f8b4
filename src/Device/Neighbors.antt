-- ===== src/Device/Neighbors.antt =====
-- internal/device/port_neighbors.go: neighbors of the ports that the operator configures.
-- `strings.EqualFold` compares ASCII texts.
pub mod Found
use unifi_stubd.Prelude.{
  ℕ, zero, suc, ◌-◌, Bool, true, false, not, ◌&&◌, ◌||◌, List, [], ◌∷◌, ◌++◌, Option, none, some,
  map, length, if◌then◌else◌,
}
use unifi_stubd.Prelude.Int.{ℤ, pos, pos_part, ltb_ℤ}
use unifi_stubd.Prelude.Text.{Bytes, codes, same, is_empty, trim_space, lower_byte}
use unifi_stubd.Device.{MacTableEntry, NeighborSource, TopologyNeighbor, Port, PortNeighbor}
use unifi_stubd.Device.Override.{is_zero}

abbrev pub with_neighbor : TopologyNeighbor → Port → Port
with_neighbor n p = record p { neighbors = p.neighbors ++ n ∷ [] }

-- The loop of `ApplyUplinkNeighbor`.
unfoldable pub add_to_uplink : TopologyNeighbor → List Port → List Port
add_to_uplink n [] = []
add_to_uplink n (p ∷ ports) =
    let rest = add_to_uplink n ports in if not p.uplink then p ∷ rest else with_neighbor n p ∷ ports

-- `ApplyUplinkNeighbor`; a nil neighbor is `none`.
unfoldable pub apply_uplink_neighbor : List Port → Option TopologyNeighbor → List Port
apply_uplink_neighbor ports none = ports
apply_uplink_neighbor ports (some n) =
    if is_empty (trim_space n.mac)
    then ports
    else add_to_uplink (record n { source = NeighborSource.config_uplink }) ports

-- `mergeMacTableEntry`.
unfoldable pub merge_mac_table_entry : MacTableEntry → MacTableEntry → MacTableEntry
merge_mac_table_entry seen configured = record configured {
  hostname =
      if is_empty (trim_space configured.hostname) then seen.hostname else configured.hostname;
  ip = if is_empty (trim_space configured.ip) then seen.ip else configured.ip;
  vlan = if is_zero configured.vlan then seen.vlan else configured.vlan;
  static = seen.static || configured.static;
}

-- `normalizeMacTableEntry`.
unfoldable pub normalize_mac_table_entry : MacTableEntry → Bytes → MacTableEntry
normalize_mac_table_entry e default_type = record e {
  mac = map lower_byte (trim_space e.mac);
  hostname = trim_space e.hostname;
  ip = trim_space e.ip;
  age = if is_zero e.age then pos 4 else e.age;
  uptime = if is_zero e.uptime then pos 1200 else e.uptime;
  type_name = if is_empty (trim_space e.type_name) then default_type else e.type_name;
}

abbrev pub equal_fold : Bytes → Bytes → Bool
equal_fold a b = same (map lower_byte a) (map lower_byte b)

-- The loop over the addresses of a port, and the entry that is added if none was replaced.
unfoldable pub put_entry : MacTableEntry → List MacTableEntry → List MacTableEntry
put_entry e [] = e ∷ []
put_entry e (m ∷ macs) =
    let rest = put_entry e macs in
    if equal_fold m.mac e.mac then merge_mac_table_entry m e ∷ macs else m ∷ rest

abbrev pub topology_neighbor : MacTableEntry → ℤ → TopologyNeighbor
topology_neighbor e remote_port = record {
  mac = e.mac;
  hostname = e.hostname;
  ip = e.ip;
  device_type = e.type_name;
  vlan = e.vlan;
  age = e.age;
  uptime = e.uptime;
  remote_port = remote_port;
  remote_port_id = [];
  source = NeighborSource.config_port;
  static = e.static;
}

-- What the loop of `ApplyPortNeighbors` does with a port.
abbrev pub attach : MacTableEntry → ℤ → Port → Port
attach e remote_port p =
    if not (equal_fold (trim_space e.type_name) (codes "client"))
    then with_neighbor (topology_neighbor e remote_port) p
    else record p { macs = put_entry e p.macs }

abbrev pub change_port : ℕ → (Port → Port) → List Port → List Port
change_port k f [] = []
change_port zero f (p ∷ ports) = f p ∷ ports
change_port (suc k) f (p ∷ ports) = p ∷ change_port k f ports

unfoldable pub apply_port_neighbor : List Port → PortNeighbor → List Port
apply_port_neighbor ports n =
    if (ltb_ℤ n.port (pos 1) || ltb_ℤ (pos (length ports)) n.port)
      || is_empty (trim_space n.entry.mac)
    then ports
    else change_port (pos_part n.port - 1)
        (attach (normalize_mac_table_entry n.entry (codes "client")) n.remote_port) ports

-- `ApplyPortNeighbors`.
unfoldable pub apply_port_neighbors : List Port → List PortNeighbor → List Port
apply_port_neighbors ports [] = ports
apply_port_neighbors ports (n ∷ ns) = apply_port_neighbors (apply_port_neighbor ports n) ns
