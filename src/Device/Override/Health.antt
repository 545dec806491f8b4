-- ===== src/Device/Override/Health.antt =====
-- internal/device/overrides.go and override_values.go: the overrides of WAN health samples.
pub mod Samples
use unifi_stubd.Prelude.{
  ℕ, suc, length, ◌++◌, tests, ◌≡◌, refl, ap, ◌∙◌, true, false, List, [], ◌∷◌, Option, none, some,
  inl, inr, get_elem?, if◌then◌else◌, Bool-cases, arith,
}
use unifi_stubd.Prelude.Int.{ℤ, pos, negsuc, ltb_ℤ, ◌≤ℤ◌, ◌<ℤ◌}
use unifi_stubd.Prelude.Float.{Float64, less, float_zero, float_hundred}
use unifi_stubd.Prelude.Text.{trim_space}
use unifi_stubd.Device.{Port, PortOverride, WanHealthResult}
use unifi_stubd.Device.Override.{
  apply_override, apply_port_overrides, set_assignment, set_speed, set_wan_health, set_counters,
  set_rates, set_link_state, set_disabled, normalize,
}
use unifi_stubd.Device.Override.Accepts.{InPercent}
use unifi_stubd.Device.Override.Each.{names_port, overrides_at, map_port, apply_port_overrides_lem}

-- `clampFloat64`.
unfoldable pub clamp_float64 : Float64 → Float64 → Float64 → Float64
clamp_float64 value minimum maximum =
    if less value minimum then minimum else if less maximum value then maximum else value

-- `nonNegativeInt`.
abbrev pub non_negative_int : ℤ → ℤ
non_negative_int (pos n) = pos n
non_negative_int (negsuc n) = pos 0

-- An override that sets nothing but its port.
abbrev pub blank_override : ℤ → PortOverride
blank_override port = record {
  port = port;
  name = [];
  interface = [];
  mac = [];
  ip = [];
  netmask = [];
  ipv6 = [];
  role = [];
  network_group = [];
  port_conf_id = [];
  network_conf_id = [];
  native_network_conf_id = [];
  network_name = [];
  vlan = pos 0;
  wan_uptime_percent = none;
  wan_latency_ms = pos 0;
  wan_downtime_seconds = pos 0;
  wan_connected = none;
  speed = pos 0;
  media = [];
  up = none;
  disabled = false;
  rx_bytes = pos 0;
  tx_bytes = pos 0;
  rx_packets = pos 0;
  tx_packets = pos 0;
  rx_errors = pos 0;
  tx_errors = pos 0;
  counters_set = false;
  rx_bytes_rate = pos 0;
  tx_bytes_rate = pos 0;
  traffic_rates_set = false;
}

abbrev pub health_override : WanHealthResult → PortOverride
health_override r = record (blank_override r.port) {
  wan_connected = some r.connected;
  wan_latency_ms = non_negative_int r.latency_ms;
  wan_downtime_seconds = non_negative_int r.downtime_seconds;
  wan_uptime_percent = some (clamp_float64 r.uptime_percent float_zero float_hundred);
}

-- `WANHealthOverrides`.
unfoldable pub wan_health_overrides : List WanHealthResult → List PortOverride
wan_health_overrides [] = []
wan_health_overrides (r ∷ rs) =
    let rest = wan_health_overrides rs in
    if ltb_ℤ r.port (pos 1) then rest else health_override r ∷ rest

-- The port with the values of a sample, and without its VLAN.
abbrev after_sample : WanHealthResult → Port → Port
after_sample r p = record p {
  vlan = pos 0;
  wan_connected = some r.connected;
  wan_latency_ms = non_negative_int r.latency_ms;
  wan_downtime_seconds = non_negative_int r.downtime_seconds;
  wan_uptime_percent = some (clamp_float64 r.uptime_percent float_zero float_hundred);
}

abbrev measured_at : ℕ → List WanHealthResult → Port → Port
measured_at i [] p = p
measured_at i (r ∷ rs) p = measured_at i rs (if names_port r.port i then after_sample r p else p)

apply-health_override :
    (r : WanHealthResult) (p : Port) → apply_override (health_override r) p ≡ after_sample r p
unfolding apply_override set_assignment set_speed set_wan_health set_counters set_rates
    set_link_state set_disabled normalize trim_space
apply-health_override r p = refl

not_named : (z : ℤ) (i : ℕ) → ltb_ℤ z (pos 1) ≡ true → names_port z i ≡ false
not_named (negsuc n) i h = refl
not_named (pos n) i h = ground arith

overrides_at-health :
    (i : ℕ) (rs : List WanHealthResult) (p : Port)
    → overrides_at i (wan_health_overrides rs) p ≡ measured_at i rs p
unfolding wan_health_overrides
overrides_at-health i [] p = refl
overrides_at-health i (r ∷ rs) p = elim (Bool-cases (ltb_ℤ r.port (pos 1))) [
  | inl skipped ↦ rw (skipped, not_named r.port i skipped) (overrides_at-health i rs p)
  | inr kept ↦ rw kept (
      ap
        (λ (q : Port).
          overrides_at i (wan_health_overrides rs) (if names_port r.port i then q else p))
        (apply-health_override r p)
      ∙ overrides_at-health i rs (if names_port r.port i then after_sample r p else p))
]

map_port_cong :
    (f g : Port → Port) (found : Option Port)
    → ((p : Port) → f p ≡ g p)
    → map_port f found ≡ map_port g found
map_port_cong f g none h = refl
map_port_cong f g (some p) h = ap some (h p)
