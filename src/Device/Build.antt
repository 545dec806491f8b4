-- ===== src/Device/Build.antt =====
-- internal/device/ports.go and port_build.go: the ports of a profile.
pub mod Shape
pub mod Uplink
use unifi_stubd.Prelude.{
  ℕ, zero, suc, ◌+◌, ◌-◌, map, Bool, true, false, ◌&&◌, ◌==◌, List, [], ◌∷◌, ◌++◌, Option, none,
  some, length, if◌then◌else◌,
}
use unifi_stubd.Prelude.Int.{ℤ, pos, pos_part, ltb_ℤ, leb_ℤ}
use unifi_stubd.Prelude.Text.{Bytes, is_empty}
use unifi_stubd.Device.{Port, PortGroup, PortBuildOptions, Profile}
use unifi_stubd.Device.Layout.{
  PortLayout, profile_port_layout, normalize_port_layout, media_for_speed, one_based_string,
  port_name, normalize_gateway_role, normalize_network_group,
}

-- `generatedPort`.
unfoldable pub generated_port : ℕ → ℤ → Bytes → Bool → Bool → PortLayout → Port
generated_port index speed media uplink profile_uplink layout =
    let profile_role = normalize_gateway_role (one_based_string index layout.port_roles) in
    record {
      index = index;
      name = port_name index layout.port_names;
      interface = [];
      mac = [];
      ip = [];
      netmask = [];
      ipv6 = [];
      role = profile_role;
      profile_role = profile_role;
      network_group = normalize_network_group (one_based_string index layout.port_network_groups);
      port_conf_id = [];
      network_conf_id = [];
      native_network_conf_id = [];
      network_name = [];
      vlan = pos 0;
      wan_uptime_percent = none;
      wan_latency_ms = pos 0;
      wan_downtime_seconds = pos 0;
      wan_connected = none;
      media = media;
      uplink = uplink;
      profile_uplink = profile_uplink;
      disabled = false;
      up = true;
      speed = speed;
      rx_bytes = pos 0;
      tx_bytes = pos 0;
      rx_packets = pos 0;
      tx_packets = pos 0;
      rx_errors = pos 0;
      tx_errors = pos 0;
      counters_set = false;
      rx_bytes_rate = pos 0;
      tx_bytes_rate = pos 0;
      traffic_rates_enabled = false;
      traffic_rates_set = false;
      macs = [];
      neighbors = [];
    }

-- The port at an index of a block, with the speed and the media of the uplink at the uplink's index.
abbrev pub block_port : PortLayout → ℤ → Bytes → Bool → ℕ → ℕ → Port
block_port layout speed media profile_uplink uplink_index index =
    let is_uplink = index == uplink_index in
    generated_port index (if is_uplink then layout.uplink_speed else speed)
      (if is_uplink then layout.uplink_media else media) is_uplink profile_uplink layout

-- The ports after `index` of the loop of `groupedSwitchPorts` over one group.
unfoldable pub block_ports : PortLayout → ℤ → Bytes → Bool → ℕ → ℕ → ℕ → List Port
block_ports layout speed media profile_uplink uplink_index index zero = []
block_ports layout speed media profile_uplink uplink_index index (suc left) =
    block_port layout speed media profile_uplink uplink_index (suc index)
    ∷ block_ports layout speed media profile_uplink uplink_index (suc index) left

unfoldable pub group_ports : PortLayout → ℕ → ℕ → List PortGroup → List Port
group_ports layout uplink_index index [] = []
group_ports layout uplink_index index (group ∷ groups) =
    let speed = if leb_ℤ group.speed (pos 0) then layout.speed else group.speed in
    let media = if is_empty group.media then media_for_speed speed else group.media in
    block_ports layout speed media group.uplink uplink_index index (pos_part group.count)
    ++ group_ports layout uplink_index (index + pos_part group.count) groups

-- The first loop of `groupedSwitchPorts`: the total and the first port of the first uplink group, 0
-- if there is none; `none` for a group that is empty. The total of a profile is taken to fit an `int`.
unfoldable pub group_totals : ℕ → ℕ → List PortGroup → Option (ℕ × ℕ)
group_totals total uplink_index [] = some (total, uplink_index)
group_totals total uplink_index (group ∷ groups) =
    let rest =
      group_totals (total + pos_part group.count)
        (if group.uplink && uplink_index == 0 then suc total else uplink_index) groups in
    if ltb_ℤ group.count (pos 1) then none else rest

abbrev pub ports_of_totals : ℕ → PortLayout → Option (ℕ × ℕ) → List Port
ports_of_totals count layout none = []
ports_of_totals count layout (some (total, uplink_index)) =
    if total == count
    then group_ports layout (if uplink_index == 0 then 1 else uplink_index) 0 layout.port_groups
    else []

abbrev pub no_groups : List PortGroup → Bool
no_groups [] = true
no_groups (group ∷ groups) = false

-- `groupedSwitchPorts`.
unfoldable pub grouped_switch_ports : ℕ → PortLayout → List Port
grouped_switch_ports count layout =
    if no_groups layout.port_groups
    then []
    else ports_of_totals count layout (group_totals 0 0 layout.port_groups)

-- The loop of `switchPortsWithLayout`: its first port is an uplink.
unfoldable pub plain_ports : PortLayout → ℕ → ℕ → List Port
plain_ports layout index zero = []
plain_ports layout index (suc left) =
    block_port layout layout.speed layout.media (suc index == 1) 1 (suc index)
    ∷ plain_ports layout (suc index) left

abbrev pub without_uplink : Port → Port
without_uplink port = record port { uplink = false }

unfoldable pub with_uplink : ℕ → List Port → List Port
with_uplink target [] = []
with_uplink zero (port ∷ ports) = record port { uplink = true } ∷ ports
with_uplink (suc target) (port ∷ ports) = port ∷ with_uplink target ports

-- `applyUplinkPort`.
unfoldable pub apply_uplink_port : List Port → ℤ → List Port
apply_uplink_port ports uplink_port =
    if leb_ℤ uplink_port (pos 0)
    then ports
    else if ltb_ℤ (pos (length ports)) uplink_port
    then ports
    else with_uplink (pos_part uplink_port - 1) (map without_uplink ports)

abbrev pub or_plain : PortLayout → ℕ → List Port → List Port
or_plain layout count [] = plain_ports layout 0 count
or_plain layout count (port ∷ ports) = port ∷ ports

-- `switchPortsWithLayout`.
unfoldable pub switch_ports_with_layout : ℤ → PortLayout → List Port
switch_ports_with_layout count given =
    let number = if ltb_ℤ count (pos 1) then 1 else pos_part count in
    let layout = normalize_port_layout given in
    apply_uplink_port (or_plain layout number (grouped_switch_ports number layout))
      layout.uplink_port

-- `BuildPorts`.
unfoldable pub build_ports : Profile → PortBuildOptions → List Port
build_ports profile options =
    switch_ports_with_layout (if ltb_ℤ (pos 0) options.count then options.count else profile.ports)
      (profile_port_layout profile options)
