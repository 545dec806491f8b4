-- ===== src/Observe/Snapshots.antt =====
-- internal/observe/snapshot.go and snapshot_normalize.go: the snapshot of what a source reports. The
-- source is a parameter, which answers with an observation and errors of any kind.
use unifi_stubd.Prelude.{Bool, List, [], ◌∷◌, Option, none, some, if◌then◌else◌}
use unifi_stubd.Prelude.Int.{ℤ}
use unifi_stubd.Prelude.Text.{Bytes, is_empty, trim_space}
use unifi_stubd.Prelude.Maps.{put, is_empty_map}
use unifi_stubd.Device.Override.{is_zero}
use unifi_stubd.Observe.{InterfaceStats, BridgeConfig, BridgeObservation, ObserveConfig, Snapshot}
use unifi_stubd.Observe.Classify.{classify_members, apply_ignored_members}
use unifi_stubd.Observe.Macs.{
  normalize_remote_mac_set, remote_macs_by_bridge_member, flatten_device_macs_by_role,
}

-- `normalizeMemberPortMap`, `normalizeMemberPorts` and `normalizeMemberRoles`, which differ in the type
-- of the values only.
abbrev pub normalize_members : {V : Type 0} → List (Bytes × V) → List (Bytes × V) → List (Bytes × V)
normalize_members [] out = out
normalize_members ((name, value) ∷ values) out =
    normalize_members values
      (if is_empty (trim_space name) then out else put (trim_space name) value out)

abbrev pub with_speed : ℤ → InterfaceStats → InterfaceStats
with_speed speed stats =
    if is_zero stats.speed_mbps then record stats { speed_mbps = speed } else stats

-- A snapshot with nothing observed.
abbrev pub no_stats : InterfaceStats
no_stats = record {
  up = none;
  counters_set = Bool.false;
  rx_bytes = ℤ.pos 0;
  tx_bytes = ℤ.pos 0;
  rx_packets = ℤ.pos 0;
  tx_packets = ℤ.pos 0;
  rx_errors = ℤ.pos 0;
  tx_errors = ℤ.pos 0;
  speed_mbps = ℤ.pos 0;
}

abbrev pub unobserved : ObserveConfig → ℤ → Snapshot
unobserved cfg uplink_port_index = record {
  uplink_port_index = uplink_port_index;
  interface = trim_space cfg.interface;
  bridge = trim_space cfg.bridge;
  up = none;
  stats = no_stats;
  macs = [];
  device_macs = [];
  remote_macs = [];
  member_ports = [];
  member_port_map = normalize_members cfg.member_port_map [];
  member_roles = [];
}

-- The part of `HostSnapshotFromSource` after the source has answered.
unfoldable pub snapshot_of_bridge : ObserveConfig → ℤ → BridgeObservation → Snapshot
snapshot_of_bridge cfg uplink_port_index seen =
    let iface = trim_space seen.uplink_interface in
    let bridge_name = trim_space seen.bridge in
    let reported = normalize_members seen.member_roles [] in
    let classified =
      if is_empty_map reported
      then classify_members seen.member_macs bridge_name iface
      else reported in
    let roles = apply_ignored_members classified cfg.ignored_members in
    let given = normalize_remote_mac_set seen.remote_macs in
    let remote =
      if is_empty_map given
      then remote_macs_by_bridge_member seen.member_macs roles iface
      else given in
    record {
      uplink_port_index = uplink_port_index;
      interface = iface;
      bridge = bridge_name;
      up = seen.uplink.up;
      stats = with_speed seen.uplink.speed_mbps seen.uplink.stats;
      macs = flatten_device_macs_by_role seen.member_macs roles iface bridge_name remote;
      device_macs = seen.member_macs;
      remote_macs = remote;
      member_ports = normalize_members seen.member_ports [];
      member_port_map = normalize_members seen.member_port_map [];
      member_roles = roles;
    }

module _ (Failure : Type 0) (missing_source : Failure) where
  abbrev pub answered :
      ObserveConfig → ℤ → BridgeObservation × List Failure → Snapshot × List Failure
  answered cfg uplink_port_index (seen, errs) =
      (snapshot_of_bridge cfg uplink_port_index seen, errs)

  -- `HostSnapshotFromSource`.
  unfoldable pub host_snapshot_from_source :
      Option (BridgeConfig → BridgeObservation × List Failure)
      → ObserveConfig
      → ℤ
      → Snapshot × List Failure
  host_snapshot_from_source none cfg uplink_port_index =
      (unobserved cfg uplink_port_index, missing_source ∷ [])
  host_snapshot_from_source (some source) cfg uplink_port_index = answered cfg uplink_port_index (
      source (record {
        bridge = trim_space cfg.bridge;
        uplink_interface = trim_space cfg.interface;
        ignored_members = cfg.ignored_members;
        member_port_map = normalize_members cfg.member_port_map [];
      }))
