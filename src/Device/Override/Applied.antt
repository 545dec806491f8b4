-- ===== src/Device/Override/Applied.antt =====
-- What one override makes of a port, field by field.
use unifi_stubd.Prelude.{
  ◌≡◌, arith, Bool, true, false, not, ◌&&◌, ◌||◌, [], Option, none, some, map, if◌then◌else◌,
}
use unifi_stubd.Prelude.Int.{ℤ, pos, leb_ℤ}
use unifi_stubd.Prelude.Text.{Bytes, is_empty, trim_space, lower_byte}
use unifi_stubd.Device.{Port, PortOverride}
use unifi_stubd.Device.Layout.{media_for_speed}
use unifi_stubd.Device.Override.{
  set_non_empty, normalize, counted, is_nil, apply_override, set_assignment, set_speed,
  set_wan_health, set_counters, set_rates, set_link_state, set_disabled,
}

-- The speed of a port that is not disabled.
abbrev pub linked_speed : Option Bool → ℤ → ℤ → ℤ
linked_speed none wanted old = if leb_ℤ wanted (pos 0) then old else wanted
linked_speed (some true) wanted old = if leb_ℤ wanted (pos 0) then old else wanted
linked_speed (some false) wanted old = if leb_ℤ wanted (pos 0) then pos 0 else wanted

abbrev pub link_or : Option Bool → Bool → Bool
link_or none old = old
link_or (some up) old = up

-- The label that is given, else the one that a speed that is given implies, else the old one.
abbrev pub label : Bytes → ℤ → Bytes → Bytes
label given speed old =
    if is_empty (trim_space given)
    then if leb_ℤ speed (pos 0) then old else media_for_speed speed
    else trim_space given

-- The texts: what is given, trimmed and normalized, or the old text.
pub record HasTexts (o : PortOverride) (p q : Port) : Type 0 where
  pub name : q.name ≡ set_non_empty (trim_space o.name) p.name
  pub interface : q.interface ≡ set_non_empty (trim_space o.interface) p.interface
  pub mac : q.mac ≡ set_non_empty (map lower_byte (trim_space o.mac)) p.mac
  pub ip : q.ip ≡ set_non_empty (trim_space o.ip) p.ip
  pub netmask : q.netmask ≡ set_non_empty (trim_space o.netmask) p.netmask
  pub role : q.role ≡ set_non_empty (map lower_byte (trim_space o.role)) p.role
  pub network_group : q.network_group ≡ set_non_empty (trim_space o.network_group) p.network_group
  pub port_conf_id : q.port_conf_id ≡ set_non_empty (trim_space o.port_conf_id) p.port_conf_id
  pub network_conf_id :
      q.network_conf_id ≡ set_non_empty (trim_space o.network_conf_id) p.network_conf_id
  pub native_network_conf_id :
      q.native_network_conf_id
      ≡ set_non_empty (trim_space o.native_network_conf_id) p.native_network_conf_id
  pub network_name : q.network_name ≡ set_non_empty (trim_space o.network_name) p.network_name

-- The counters: those of a complete sample, else those that are not zero.
pub record HasCounters (o : PortOverride) (p q : Port) : Type 0 where
  pub rx_bytes : q.rx_bytes ≡ counted o.counters_set o.rx_bytes p.rx_bytes
  pub tx_bytes : q.tx_bytes ≡ counted o.counters_set o.tx_bytes p.tx_bytes
  pub rx_packets : q.rx_packets ≡ counted o.counters_set o.rx_packets p.rx_packets
  pub tx_packets : q.tx_packets ≡ counted o.counters_set o.tx_packets p.tx_packets
  pub rx_errors : q.rx_errors ≡ counted o.counters_set o.rx_errors p.rx_errors
  pub tx_errors : q.tx_errors ≡ counted o.counters_set o.tx_errors p.tx_errors
  pub counters_set : q.counters_set ≡ (o.counters_set || p.counters_set)
  pub rx_rate : q.rx_bytes_rate ≡ (if o.traffic_rates_set then o.rx_bytes_rate else p.rx_bytes_rate)
  pub tx_rate : q.tx_bytes_rate ≡ (if o.traffic_rates_set then o.tx_bytes_rate else p.tx_bytes_rate)
  pub rates_set : q.traffic_rates_set ≡ (o.traffic_rates_set || p.traffic_rates_set)

-- The link: a disabled port is down, has no speed and knows no addresses.
pub record HasLink (o : PortOverride) (p q : Port) : Type 0 where
  pub disabled : q.disabled ≡ (o.disabled || p.disabled)
  pub up : q.up ≡ (not o.disabled && link_or o.up p.up)
  pub speed : q.speed ≡ (if o.disabled then pos 0 else linked_speed o.up o.speed p.speed)
  pub media : q.media ≡ label o.media o.speed p.media
  pub ipv6 : q.ipv6 ≡ (if o.disabled then [] else if is_nil o.ipv6 then p.ipv6 else o.ipv6)
  pub macs : q.macs ≡ (if o.disabled then [] else p.macs)

-- What an override never changes, and what it always sets.
pub record HasRest (o : PortOverride) (p q : Port) : Type 0 where
  pub index : q.index ≡ p.index
  pub uplink : q.uplink ≡ p.uplink
  pub profile_role : q.profile_role ≡ p.profile_role
  pub profile_uplink : q.profile_uplink ≡ p.profile_uplink
  pub neighbors : q.neighbors ≡ p.neighbors
  pub vlan : q.vlan ≡ o.vlan
  pub wan_uptime_percent : q.wan_uptime_percent ≡ o.wan_uptime_percent
  pub wan_latency_ms : q.wan_latency_ms ≡ o.wan_latency_ms
  pub wan_downtime_seconds : q.wan_downtime_seconds ≡ o.wan_downtime_seconds
  pub wan_connected : q.wan_connected ≡ o.wan_connected

pub record IsApplied (o : PortOverride) (p q : Port) : Type 0 where
  pub texts : HasTexts o p q
  pub counters : HasCounters o p q
  pub link : HasLink o p q
  pub rest : HasRest o p q

module _ (o : PortOverride) (p : Port) where
  apply_override-HasTexts : HasTexts o p (apply_override o p)
  unfolding apply_override set_assignment set_speed set_wan_health set_counters set_rates
      set_link_state set_disabled normalize
  apply_override-HasTexts = ground arith

  apply_override-HasCounters : HasCounters o p (apply_override o p)
  unfolding apply_override set_assignment set_speed set_wan_health set_counters set_rates
      set_link_state set_disabled
  apply_override-HasCounters = ground arith

  apply_override-HasLink : HasLink o p (apply_override o p)
  unfolding apply_override set_assignment set_speed set_wan_health set_counters set_rates
      set_link_state set_disabled normalize
  apply_override-HasLink = ground arith

  apply_override-HasRest : HasRest o p (apply_override o p)
  unfolding apply_override set_assignment set_speed set_wan_health set_counters set_rates
      set_link_state set_disabled
  apply_override-HasRest = ground arith

  -- An override sets each text that is given, the speed, the label that is given or that the speed
  -- implies, the link, the counters of a complete sample or those that are not zero, and the rates of a
  -- sample. It always replaces the VLAN and the WAN values, never changes the index, the uplink, the
  -- profile's role and the neighbors, and a disabled port ends down, without speed and addresses.
  pub apply_override-IsApplied : IsApplied o p (apply_override o p)
  apply_override-IsApplied = record {
    texts = apply_override-HasTexts;
    counters = apply_override-HasCounters;
    link = apply_override-HasLink;
    rest = apply_override-HasRest;
  }
