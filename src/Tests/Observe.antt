-- ===== src/Tests/Observe.antt =====
-- Runs of the observation of a bridge.
use Prim.Native.String.{String}
use unifi_stubd.Prelude.{
  ℕ, ◌≡◌, refl, inl, Bool, true, false, Option, none, some, List, [], ◌∷◌, map,
}
use unifi_stubd.Prelude.Int.{ℤ, pos}
use unifi_stubd.Prelude.Text.{Bytes, codes, same, trim_space, has_prefix}
use unifi_stubd.Prelude.Text.Decimal.{atoi}
use unifi_stubd.Prelude.Text.Hex.{hex_value}
use unifi_stubd.Device.{MacTableEntry, Port}
use unifi_stubd.Device.Mac.{parse_mac, mac_string, mac_groups, dot_groups}
use unifi_stubd.Prelude.{length}
use unifi_stubd.Device.{PortNeighbor}
use unifi_stubd.Device.Neighbors.{
  apply_port_neighbors, apply_port_neighbor, put_entry, merge_mac_table_entry,
  normalize_mac_table_entry,
}
use unifi_stubd.Device.Neighbors.Found.{AllExtended, apply_port_neighbors-AllExtended}
use unifi_stubd.Prelude.Text.{contains}
use unifi_stubd.Observe.Fdb.{
  mac_entries_by_device, parse_fdb, fields, take_pairs, take_flags, learned_fdb_entry,
}
use unifi_stubd.Observe.Fdb.Table.{AllTables, mac_entries_by_device-AllTables}
use unifi_stubd.Observe.{BridgeMemberRole, PortObservation, Snapshot}
use unifi_stubd.Observe.Stats.{has_counters, apply_interface_stats_to_port}
use unifi_stubd.Observe.Classify.{
  classify_member, classify_members, classified, is_virtual_access_member, is_physical_member,
  member_role, apply_ignored_members,
}
use unifi_stubd.Observe.Classify.Ignored.{member_role-ignored}
use unifi_stubd.Observe.Members.{
  is_uplink_device, is_bridge_device, first_number, device_sort_key, sorted_device_names,
}
use unifi_stubd.Observe.Macs.{
  normalized_mac_key, is_remote, filter_remote_mac_entries, normalize_remote_mac_set,
  remote_macs_by_bridge_member,
}
use unifi_stubd.Observe.Overlay.{clear_observed_port_state, apply_member_port_observation}
use unifi_stubd.Observe.Apply.{
  apply_snapshot, apply_device_macs, assign_member, assign_members, clear_unused, remote_of,
  access_indexes, valid_pinned_port_set, uplink_port_index,
}
use unifi_stubd.Observe.Apply.Observed.{AllObserved, apply_snapshot-AllObserved}
use unifi_stubd.Observe.Snapshots.{no_stats}
use unifi_stubd.Observe.{PortMapping}
use unifi_stubd.Prelude.{◌⊎◌, get_elem?}
use unifi_stubd.Device.Override.{
  normalize, apply_override, apply_port_overrides, apply_in_range, set_assignment, set_speed,
  set_wan_health, set_counters, set_rates, set_link_state, set_disabled,
}
use unifi_stubd.Observe.PortMap.{
  overrides_from_observation, override_from_observation, apply_observation, disabled_override,
  observation_has_counters,
}
use unifi_stubd.Observe.PortMap.Closed.{SeenUp, Unnamed, mapped_port-is_up}
use unifi_stubd.Tests.Device.{wan_port}

abbrev entry_for : String → MacTableEntry
entry_for address = record {
  mac = codes address;
  hostname = [];
  ip = [];
  age = pos 4;
  uptime = pos 1200;
  vlan = pos 0;
  static = false;
  type_name = codes "client";
}

abbrev seen_up : PortObservation
seen_up = record {
  port = pos 0;
  interface = [];
  mac = [];
  ip = [];
  netmask = [];
  ipv6 = [];
  up = some true;
  speed_mbps = pos 2500;
  media = [];
  stats = no_stats;
  macs = [];
  disabled = false;
  unmapped = false;
}

-- A bridge with an uplink and two guests, of which the second has no observation; the first guest also
-- shows an address that is behind the uplink.
abbrev bridge_snapshot : Snapshot
bridge_snapshot = record {
  uplink_port_index = pos 0;
  interface = codes "eth0";
  bridge = codes "vmbr0";
  up = some true;
  stats = record no_stats { speed_mbps = pos 1000 };
  macs = [];
  device_macs =
      (codes "tap10", entry_for "02:00:00:00:00:0c" ∷ [])
      ∷ (codes "tap2", entry_for "02:00:00:00:00:0B" ∷ entry_for "02:00:00:00:00:0A" ∷ [])
      ∷ (codes "eth0", entry_for "02:00:00:00:00:0a" ∷ [])
      ∷ [];
  remote_macs = [];
  member_ports = (codes "eth0", seen_up) ∷ (codes "tap2", seen_up) ∷ [];
  member_port_map = [];
  member_roles = [];
}

abbrev numbered_port : ℕ → Bool → Port
numbered_port index uplink = record wan_port { index = index; uplink = uplink; up = true }

abbrev three_ports : List Port
three_ports = numbered_port 1 false ∷ numbered_port 2 true ∷ numbered_port 3 false ∷ []

apply_snapshot-AllObserved_example :
    (out : List Port) × (apply_snapshot three_ports bridge_snapshot ≡ some out)
    × AllObserved bridge_snapshot three_ports out
apply_snapshot-AllObserved_example =
    apply_snapshot-AllObserved three_ports bridge_snapshot (refl, (refl, (refl, tt))) refl

abbrev shape : Port → Bytes × Bool × ℤ × List Bytes
shape p = (p.name, p.up, p.speed, map (λ (e : MacTableEntry). e.mac) p.macs)

abbrev shapes : Option (List Port) → List (Bytes × Bool × ℤ × List Bytes)
shapes none = []
shapes (some ports) = map shape ports

three_ports_shown :
    shapes (apply_snapshot three_ports bridge_snapshot)
    ≡ (codes "tap2", true, pos 2500, codes "02:00:00:00:00:0B" ∷ [])
      ∷ (codes "eth0", true, pos 2500, [])
      ∷ (codes "tap10", false, pos 0, codes "02:00:00:00:00:0c" ∷ [])
      ∷ []
unfolding apply_snapshot apply_device_macs assign_member assign_members clear_unused remote_of
    access_indexes valid_pinned_port_set uplink_port_index clear_observed_port_state
    apply_member_port_observation normalized_mac_key is_remote filter_remote_mac_entries
    normalize_remote_mac_set remote_macs_by_bridge_member is_uplink_device is_bridge_device
    first_number device_sort_key sorted_device_names member_role has_counters
    apply_interface_stats_to_port parse_mac mac_string mac_groups dot_groups hex_value atoi
    trim_space same has_prefix
three_ports_shown = refl

-- Without a free port the second guest takes the uplink's, which then shows no link.
two_ports_shown :
    shapes (apply_snapshot (numbered_port 1 false ∷ numbered_port 2 true ∷ []) bridge_snapshot)
    ≡ (codes "tap2", true, pos 2500, codes "02:00:00:00:00:0B" ∷ [])
      ∷ (codes "eth0", false, pos 0, codes "02:00:00:00:00:0c" ∷ [])
      ∷ []
unfolding apply_snapshot apply_device_macs assign_member assign_members clear_unused remote_of
    access_indexes valid_pinned_port_set uplink_port_index clear_observed_port_state
    apply_member_port_observation normalized_mac_key is_remote filter_remote_mac_entries
    normalize_remote_mac_set remote_macs_by_bridge_member is_uplink_device is_bridge_device
    first_number device_sort_key sorted_device_names member_role has_counters
    apply_interface_stats_to_port parse_mac mac_string mac_groups dot_groups hex_value atoi
    trim_space same has_prefix
two_ports_shown = refl

member_role-ignored_example :
    member_role
      (apply_ignored_members ((codes "Tap2", BridgeMemberRole.access) ∷ []) (codes " TAP2" ∷ []))
      (codes "tap2")
    ≡ BridgeMemberRole.ignored
unfolding trim_space
member_role-ignored_example =
    member_role-ignored ((codes "Tap2", BridgeMemberRole.access) ∷ []) (codes " TAP2" ∷ [])
      (codes " TAP2") (codes "tap2") (record { trimmed = refl; lowered = refl; named = refl })
      (inl refl) refl

-- The only physical member of a bridge without a configured uplink is taken for it.
only_physical :
    classify_members ((codes "tap1", []) ∷ (codes "eno1", []) ∷ []) (codes "vmbr0") []
    ≡ (codes "tap1", BridgeMemberRole.access) ∷ (codes "eno1", BridgeMemberRole.uplink) ∷ []
unfolding classify_members classified classify_member is_virtual_access_member is_physical_member
    trim_space same has_prefix
only_physical = refl

abbrev port_map : List PortMapping
port_map =
    record { port = pos 1; interface = codes " eth1 "; disabled = false; unmapped = false }
    ∷ record { port = pos 2; interface = []; disabled = true; unmapped = false }
    ∷ record { port = pos 3; interface = []; disabled = false; unmapped = true }
    ∷ []

abbrev mapped_ports : List Port
mapped_ports =
    apply_port_overrides three_ports (overrides_from_observation port_map ((pos 1, seen_up) ∷ []))

abbrev port_or_first : Option Port → Port
port_or_first none = numbered_port 1 false
port_or_first (some p) = p

abbrev link : Port → Bool × Bool
link p = (p.up, p.disabled)

mapped_links : map link mapped_ports ≡ (true, false) ∷ (false, true) ∷ (true, false) ∷ []
unfolding apply_port_overrides apply_in_range apply_override set_assignment set_speed set_wan_health
    set_counters set_rates set_link_state set_disabled overrides_from_observation
    override_from_observation apply_observation disabled_override observation_has_counters normalize
    trim_space same
mapped_links = refl

mapped_port-is_up_example :
    SeenUp 0 port_map ((pos 1, seen_up) ∷ [])
    ⊎ (Unnamed 0 (overrides_from_observation port_map ((pos 1, seen_up) ∷ []))
        × (q : Port) × (get_elem? three_ports 0 ≡ some q)
        × (q.up ≡ true))
unfolding apply_port_overrides apply_in_range apply_override set_assignment set_speed set_wan_health
    set_counters set_rates set_link_state set_disabled overrides_from_observation
    override_from_observation apply_observation disabled_override observation_has_counters normalize
    trim_space same
mapped_port-is_up_example =
    mapped_port-is_up three_ports port_map ((pos 1, seen_up) ∷ []) 0
      (port_or_first (get_elem? mapped_ports 0)) refl refl

-- A client whose address is already learned, and a switch, on the first port.
abbrev configured : List PortNeighbor
configured =
    record { port = pos 1; entry = entry_for " 02:00:00:00:00:0B"; remote_port = pos 0 }
    ∷ record {
      port = pos 1;
      entry = record (entry_for "02:00:00:00:00:0d") { type_name = codes "usw" };
      remote_port = pos 5;
    }
    ∷ record { port = pos 9; entry = entry_for "02:00:00:00:00:0e"; remote_port = pos 0 }
    ∷ []

abbrev learned_ports : List Port
learned_ports =
    record (numbered_port 1 false) { macs = entry_for "02:00:00:00:00:0b" ∷ [] }
    ∷ numbered_port 2 true
    ∷ []

abbrev table_sizes : Port → ℕ × ℕ
table_sizes p = (length p.macs, length p.neighbors)

configured_tables :
    map table_sizes (apply_port_neighbors learned_ports configured) ≡ (1, 1) ∷ (0, 0) ∷ []
unfolding apply_port_neighbors apply_port_neighbor put_entry merge_mac_table_entry
    normalize_mac_table_entry same trim_space
configured_tables = refl

apply_port_neighbors-AllExtended_example :
    AllExtended learned_ports (apply_port_neighbors learned_ports configured)
apply_port_neighbors-AllExtended_example = apply_port_neighbors-AllExtended learned_ports configured

-- A learned address on two members and again, one of the host and one of a group.
abbrev bridge_lines : List Bytes
bridge_lines =
    codes "02:00:00:00:00:0A dev tap1 vlan 7 master vmbr0"
    ∷ codes "02:00:00:00:00:0a dev tap1 master vmbr0"
    ∷ codes "02:00:00:00:00:0a dev tap2 master vmbr0 static"
    ∷ codes "02:00:00:00:00:01 dev tap1 master vmbr0 permanent"
    ∷ codes "33:33:00:00:00:01 dev tap1 self"
    ∷ codes "  "
    ∷ []

bridge_learned :
    mac_entries_by_device (parse_fdb bridge_lines)
    ≡ (codes "tap1", record (entry_for "02:00:00:00:00:0a") { vlan = pos 7 } ∷ [])
      ∷ (codes "tap2", entry_for "02:00:00:00:00:0a" ∷ [])
      ∷ []
unfolding mac_entries_by_device parse_fdb fields take_pairs take_flags learned_fdb_entry parse_mac
    mac_groups dot_groups hex_value atoi trim_space same contains has_prefix
bridge_learned = refl

mac_entries_by_device-AllTables_example : AllTables (mac_entries_by_device (parse_fdb bridge_lines))
mac_entries_by_device-AllTables_example = mac_entries_by_device-AllTables (parse_fdb bridge_lines)
