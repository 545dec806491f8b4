-- ===== src/Observe.antt =====
-- internal/observe/model.go and snapshot_types.go, and the port mappings of internal/config/model.go: what is observed of the host. A map is a list of
-- entries, a set of addresses is the list of its keys that are true, and a nil pointer is `none`.
-- `strings.ToLower` is that of ASCII texts, in which interfaces and addresses are named.
pub mod Stats
pub mod Classify
pub mod Members
pub mod Macs
pub mod Overlay
pub mod Apply
pub mod Snapshots
pub mod PortMap
pub mod Fdb
use unifi_stubd.Prelude.{ℕ, Bool, Option, none, some, List, []}
use unifi_stubd.Prelude.Int.{ℤ}
use unifi_stubd.Prelude.Text.{Bytes}
use unifi_stubd.Device.{MacTableEntry}

pub record InterfaceStats : Type 0 where
  pub up : Option Bool
  pub counters_set : Bool
  pub rx_bytes : ℤ
  pub tx_bytes : ℤ
  pub rx_packets : ℤ
  pub tx_packets : ℤ
  pub rx_errors : ℤ
  pub tx_errors : ℤ
  pub speed_mbps : ℤ

pub data BridgeMemberRole : Type 0 where
  unknown : BridgeMemberRole
  uplink : BridgeMemberRole
  access : BridgeMemberRole
  bridge : BridgeMemberRole
  ignored : BridgeMemberRole

-- `PortObservation`.
pub record PortObservation : Type 0 where
  pub port : ℤ
  pub interface : Bytes
  pub mac : Bytes
  pub ip : Bytes
  pub netmask : Bytes
  pub ipv6 : List Bytes
  pub up : Option Bool
  pub speed_mbps : ℤ
  pub media : Bytes
  pub stats : InterfaceStats
  pub macs : List MacTableEntry
  pub disabled : Bool
  pub unmapped : Bool

pub record BridgeConfig : Type 0 where
  pub bridge : Bytes
  pub uplink_interface : Bytes
  pub ignored_members : List Bytes
  pub member_port_map : List (Bytes × ℤ)

pub record BridgeObservation : Type 0 where
  pub bridge : Bytes
  pub uplink_interface : Bytes
  pub uplink : PortObservation
  pub member_macs : List (Bytes × List MacTableEntry)
  pub remote_macs : List (Bytes × Bool)
  pub member_ports : List (Bytes × PortObservation)
  pub member_port_map : List (Bytes × ℤ)
  pub member_roles : List (Bytes × BridgeMemberRole)

-- The `Config` of an observation.
pub record ObserveConfig : Type 0 where
  pub interface : Bytes
  pub bridge : Bytes
  pub ignored_members : List Bytes
  pub member_port_map : List (Bytes × ℤ)

pub record Snapshot : Type 0 where
  pub uplink_port_index : ℤ
  pub interface : Bytes
  pub bridge : Bytes
  pub up : Option Bool
  pub stats : InterfaceStats
  pub macs : List MacTableEntry
  pub device_macs : List (Bytes × List MacTableEntry)
  pub remote_macs : List (Bytes × Bool)
  pub member_ports : List (Bytes × PortObservation)
  pub member_port_map : List (Bytes × ℤ)
  pub member_roles : List (Bytes × BridgeMemberRole)

-- The `PortMapping` of a configuration, and the one of an observation, which has the same fields.
pub record PortMapping : Type 0 where
  pub port : ℤ
  pub interface : Bytes
  pub disabled : Bool
  pub unmapped : Bool
