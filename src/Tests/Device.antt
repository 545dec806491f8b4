-- ===== src/Tests/Device.antt =====
-- Runs of the device model: its ports, their overrides and the topology.
use unifi_stubd.Prelude.{
  ℕ, ◌≡◌, ◌↔◌, refl, arith, inl, inr, Bool, true, false, none, some, List, [], ◌∷◌, length,
  get_elem?, ok,
}
use unifi_stubd.Prelude.Int.{pos, negsuc}
use unifi_stubd.Prelude.Float.{less}
use unifi_stubd.Prelude.Text.{Bytes, codes, same, trim_space}
use unifi_stubd.Prelude.Text.Decimal.{itoa, atoi}
use unifi_stubd.Prelude.Text.Hex.{hex_value}
use unifi_stubd.Device.{Port, PortBuildOptions, Profile, PortOverride, WanHealthResult}
use unifi_stubd.Device.Layout.{
  profile_port_layout, normalize_port_layout, media_for_speed, port_name, one_based_string,
  normalize_gateway_role, normalize_network_group,
}
use unifi_stubd.Device.Build.{
  build_ports, generated_port, switch_ports_with_layout, grouped_switch_ports, group_totals,
  group_ports, block_ports, apply_uplink_port, with_uplink,
}
use unifi_stubd.Device.Build.Uplink.{IsChosen, port_number, build_ports-IsChosen}
use unifi_stubd.Device.Mac.{parse_mac, mac_string}
use unifi_stubd.Device.Mac.RoundTrip.{parse_mac-mac_string}
use unifi_stubd.Device.Override.{normalize, apply_override, apply_port_overrides}
use unifi_stubd.Device.Override.Applied.{IsApplied, apply_override-IsApplied}
use unifi_stubd.Device.Override.Each.{map_port, overrides_at, apply_port_overrides_lem}
use unifi_stubd.Device.Override.Health.{blank_override, wan_health_overrides}
use unifi_stubd.Device.Override.Health.Samples.{Sampled, wan_health_overrides_lem}
use unifi_stubd.Device.Override.Validate.{
  validate_port_override, validate_texts, valid_gateway_role, strings_empty, port_override_empty,
}
use unifi_stubd.Device.Override.Legal.{IsLegal, validate_port_override_iff}
use unifi_stubd.Device.Override.Sound.{IsSound, AllSound, apply_port_overrides-AllSound}

-- A gateway with two ports, and a third one that is the uplink of the profile.
abbrev pub gateway : Profile
gateway = record {
  source = [];
  source_type = codes "built-in";
  schema_version = pos 1;
  extends = [];
  allow_builtin_override = false;
  order = pos 0;
  name = codes "uxg";
  model = codes "UXG";
  model_display = [];
  device_type = codes "ugw";
  version = codes "4.0.0";
  ports = pos 3;
  port_groups =
      record { count = pos 2; speed = pos 1000; media = []; uplink = false }
      ∷ record { count = pos 1; speed = pos 10000; media = []; uplink = true }
      ∷ [];
  port_names = codes "LAN 1" ∷ [];
  port_roles = codes "LAN" ∷ codes "lan2" ∷ codes "wan" ∷ [];
  port_network_groups = [];
  port_speed = pos 1000;
  uplink_speed = pos 10000;
  port_media = [];
  uplink_media = [];
  stability = codes "tested";
  recommended = false;
  validated_controller_versions = codes "9.1.120" ∷ [];
  payload = record {
    kind = codes "gateway";
    required_version = [];
    management_interface = codes "eth0";
    gateway_interface_prefix = codes "eth";
    has_dpi = true;
  };
  description = [];
}

abbrev pub no_options : PortBuildOptions
no_options = record { count = pos 0; link_speed = pos 0; uplink_speed = pos 0; uplink_port = pos 2 }

build_ports-IsChosen_example :
    IsChosen (port_number gateway no_options) (pos 2) (build_ports gateway no_options)
build_ports-IsChosen_example = build_ports-IsChosen gateway no_options

abbrev pub wan_port : Port
wan_port = record {
  index = 1;
  name = codes "Port 1";
  interface = [];
  mac = [];
  ip = [];
  netmask = [];
  ipv6 = [];
  role = codes "wan";
  profile_role = codes "wan";
  network_group = [];
  port_conf_id = [];
  network_conf_id = [];
  native_network_conf_id = [];
  network_name = [];
  vlan = pos 7;
  wan_uptime_percent = none;
  wan_latency_ms = pos 0;
  wan_downtime_seconds = pos 0;
  wan_connected = none;
  media = codes "GE";
  uplink = true;
  profile_uplink = true;
  disabled = false;
  up = true;
  speed = pos 1000;
  rx_bytes = pos 0;
  tx_bytes = pos 0;
  rx_packets = pos 0;
  tx_packets = pos 0;
  rx_errors = pos 0;
  tx_errors = pos 0;
  counters_set = false;
  rx_bytes_rate = pos 0;
  tx_bytes_rate = pos 0;
  traffic_rates_enabled = false;
  traffic_rates_set = false;
  macs = [];
  neighbors = [];
}

number_printed : itoa 1205 ≡ codes "1205"
unfolding itoa
number_printed = refl

number_read : atoi (codes "-42") ≡ some (negsuc 41)
unfolding atoi
number_read = refl

second_port :
    (get_elem? (build_ports gateway no_options) 1)
    ≡ some (record wan_port {
      index = 2;
      name = codes "Port 2";
      role = codes "lan2";
      profile_role = codes "lan2";
      vlan = pos 0;
      profile_uplink = false;
    })
unfolding build_ports switch_ports_with_layout profile_port_layout normalize_port_layout
    grouped_switch_ports group_totals group_ports block_ports generated_port media_for_speed
    port_name one_based_string itoa normalize_gateway_role normalize_network_group apply_uplink_port
    with_uplink
second_port = refl

-- A faster link, and a VLAN.
abbrev faster : PortOverride
faster = record (blank_override (pos 1)) { speed = pos 10000; vlan = pos 9; role = codes " WAN2 " }

apply_override-IsApplied_example : IsApplied faster wan_port (apply_override faster wan_port)
apply_override-IsApplied_example = apply_override-IsApplied faster wan_port

apply_port_overrides_lem_example :
    (length (apply_port_overrides (wan_port ∷ []) (faster ∷ blank_override (pos 4) ∷ [])) ≡ 1)
    × (get_elem? (apply_port_overrides (wan_port ∷ []) (faster ∷ blank_override (pos 4) ∷ [])) 0
        ≡ map_port (overrides_at 0 (faster ∷ blank_override (pos 4) ∷ [])) (some wan_port))
apply_port_overrides_lem_example =
    apply_port_overrides_lem (wan_port ∷ []) (faster ∷ blank_override (pos 4) ∷ []) 0

-- A sample of 101 percent.
abbrev sample : WanHealthResult
sample = record {
  port = pos 1;
  connected = true;
  latency_ms = pos 12;
  downtime_seconds = negsuc 0;
  uptime_percent = record { bits = 0x4059400000000000 };
}

above_hundred : less (record { bits = 0x4059000000000000 }) sample.uptime_percent ≡ true
unfolding less
above_hundred = refl

wan_health_overrides_lem_example :
    (length (apply_port_overrides (wan_port ∷ []) (wan_health_overrides (sample ∷ []))) ≡ 1)
    × ((q : Port) × (get_elem?
            (apply_port_overrides (wan_port ∷ []) (wan_health_overrides (sample ∷ [])))
            0
          ≡ some q)
        × Sampled 0 (sample ∷ []) wan_port q)
wan_health_overrides_lem_example =
    wan_health_overrides_lem (wan_port ∷ []) (sample ∷ []) 0 wan_port refl

abbrev no_ipv4 : Bytes → Bool
no_ipv4 s = false

validate_port_override_iff_example :
    (validate_port_override no_ipv4 faster 3 ≡ ok tt) ↔ IsLegal no_ipv4 3 faster
validate_port_override_iff_example = validate_port_override_iff no_ipv4 faster 3

faster_valid : validate_port_override no_ipv4 faster 3 ≡ ok tt
unfolding validate_port_override validate_texts port_override_empty strings_empty normalize
    normalize_gateway_role normalize_network_group trim_space same valid_gateway_role
faster_valid = refl

wan_port-IsSound : IsSound no_ipv4 wan_port
unfolding valid_gateway_role same
wan_port-IsSound = record {
  role = inr (inl refl);
  mac = inl refl;
  ip = inl refl;
  netmask = inl refl;
  group = inl refl;
  percent = tt;
  speed = omega arith;
  vlan = omega arith;
  latency = omega arith;
  downtime = omega arith;
}

apply_port_overrides-AllSound_example :
    AllSound no_ipv4 (apply_port_overrides (wan_port ∷ []) (faster ∷ []))
apply_port_overrides-AllSound_example =
    apply_port_overrides-AllSound no_ipv4 3 (wan_port ∷ []) (faster ∷ []) (faster_valid, tt)
      (wan_port-IsSound, tt)

abbrev address : List ℕ
address = 0 ∷ 0x1b ∷ 0x63 ∷ 0x84 ∷ 0x45 ∷ 0xe6 ∷ []

address_read : parse_mac (mac_string address) ≡ some address
address_read = parse_mac-mac_string address (omega arith) refl

dotted_read : parse_mac (codes "001b.6384.45E6") ≡ some address
unfolding parse_mac hex_value
dotted_read = refl
