-- ===== src/Device.antt =====
-- internal/device/port_types.go, override_types.go, health_types.go and profile.go: the data of the
-- device model.
pub mod Layout
pub mod Build
pub mod Mac
pub mod Override
pub mod Topology
pub mod Profiles
pub mod Neighbors
pub mod Registry
pub mod Policy
use unifi_stubd.Prelude.{ℕ, Bool, Option, none, some, List, []}
use unifi_stubd.Prelude.Int.{ℤ}
use unifi_stubd.Prelude.Float.{Float64}
use unifi_stubd.Prelude.Text.{Bytes}

pub record MacTableEntry : Type 0 where
  pub mac : Bytes
  pub hostname : Bytes
  pub ip : Bytes
  pub age : ℤ
  pub uptime : ℤ
  pub vlan : ℤ
  pub static : Bool
  pub type_name : Bytes

-- The texts of `NeighborSource`; `other` is any text that no constant has.
pub data NeighborSource : Type 0 where
  config_uplink : NeighborSource
  config_port : NeighborSource
  lldp : NeighborSource
  other : NeighborSource

pub record TopologyNeighbor : Type 0 where
  pub mac : Bytes
  pub hostname : Bytes
  pub ip : Bytes
  pub device_type : Bytes
  pub vlan : ℤ
  pub age : ℤ
  pub uptime : ℤ
  pub remote_port : ℤ
  pub remote_port_id : Bytes
  pub source : NeighborSource
  pub static : Bool

-- A nil pointer is `none`.
pub record Port : Type 0 where
  pub index : ℕ
  pub name : Bytes
  pub interface : Bytes
  pub mac : Bytes
  pub ip : Bytes
  pub netmask : Bytes
  pub ipv6 : List Bytes
  pub role : Bytes
  pub profile_role : Bytes
  pub network_group : Bytes
  pub port_conf_id : Bytes
  pub network_conf_id : Bytes
  pub native_network_conf_id : Bytes
  pub network_name : Bytes
  pub vlan : ℤ
  pub wan_uptime_percent : Option Float64
  pub wan_latency_ms : ℤ
  pub wan_downtime_seconds : ℤ
  pub wan_connected : Option Bool
  pub media : Bytes
  pub uplink : Bool
  pub profile_uplink : Bool
  pub disabled : Bool
  pub up : Bool
  pub speed : ℤ
  pub rx_bytes : ℤ
  pub tx_bytes : ℤ
  pub rx_packets : ℤ
  pub tx_packets : ℤ
  pub rx_errors : ℤ
  pub tx_errors : ℤ
  pub counters_set : Bool
  pub rx_bytes_rate : ℤ
  pub tx_bytes_rate : ℤ
  pub traffic_rates_enabled : Bool
  pub traffic_rates_set : Bool
  pub macs : List MacTableEntry
  pub neighbors : List TopologyNeighbor

pub record PortGroup : Type 0 where
  pub count : ℤ
  pub speed : ℤ
  pub media : Bytes
  pub uplink : Bool

pub record PortBuildOptions : Type 0 where
  pub count : ℤ
  pub link_speed : ℤ
  pub uplink_speed : ℤ
  pub uplink_port : ℤ

pub record PayloadProfile : Type 0 where
  pub kind : Bytes
  pub required_version : Bytes
  pub management_interface : Bytes
  pub gateway_interface_prefix : Bytes
  pub has_dpi : Bool

pub record Profile : Type 0 where
  pub source : Bytes
  pub source_type : Bytes
  pub schema_version : ℤ
  pub extends : Bytes
  pub allow_builtin_override : Bool
  pub order : ℤ
  pub name : Bytes
  pub model : Bytes
  pub model_display : Bytes
  pub device_type : Bytes
  pub version : Bytes
  pub ports : ℤ
  pub port_groups : List PortGroup
  pub port_names : List Bytes
  pub port_roles : List Bytes
  pub port_network_groups : List Bytes
  pub port_speed : ℤ
  pub uplink_speed : ℤ
  pub port_media : Bytes
  pub uplink_media : Bytes
  pub stability : Bytes
  pub recommended : Bool
  pub validated_controller_versions : List Bytes
  pub payload : PayloadProfile
  pub description : Bytes

pub record PortNeighbor : Type 0 where
  pub port : ℤ
  pub entry : MacTableEntry
  pub remote_port : ℤ

pub record PortOverride : Type 0 where
  pub port : ℤ
  pub name : Bytes
  pub interface : Bytes
  pub mac : Bytes
  pub ip : Bytes
  pub netmask : Bytes
  pub ipv6 : List Bytes
  pub role : Bytes
  pub network_group : Bytes
  pub port_conf_id : Bytes
  pub network_conf_id : Bytes
  pub native_network_conf_id : Bytes
  pub network_name : Bytes
  pub vlan : ℤ
  pub wan_uptime_percent : Option Float64
  pub wan_latency_ms : ℤ
  pub wan_downtime_seconds : ℤ
  pub wan_connected : Option Bool
  pub speed : ℤ
  pub media : Bytes
  pub up : Option Bool
  pub disabled : Bool
  pub rx_bytes : ℤ
  pub tx_bytes : ℤ
  pub rx_packets : ℤ
  pub tx_packets : ℤ
  pub rx_errors : ℤ
  pub tx_errors : ℤ
  pub counters_set : Bool
  pub rx_bytes_rate : ℤ
  pub tx_bytes_rate : ℤ
  pub traffic_rates_set : Bool

pub record WanHealthResult : Type 0 where
  pub port : ℤ
  pub connected : Bool
  pub latency_ms : ℤ
  pub downtime_seconds : ℤ
  pub uptime_percent : Float64
