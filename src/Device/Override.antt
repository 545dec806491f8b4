-- ===== src/Device/Override.antt =====
-- internal/device/override_data.go, override_apply.go, override_counter.go, the fields of
-- override_fields.go and ApplyPortOverrides of overrides.go: overrides of the ports.
pub mod Applied
pub mod Each
pub mod Validate
pub mod Accepts
pub mod Effect
pub mod Health
pub mod Legal
pub mod Sound
use unifi_stubd.Prelude.{
  ℕ, zero, suc, ◌-◌, Bool, true, false, not, ◌&&◌, ◌||◌, List, [], ◌∷◌, Option, none, some, map,
  length, get_elem?, set, if◌then◌else◌,
}
use unifi_stubd.Prelude.Int.{ℤ, pos, negsuc, pos_part, ltb_ℤ, leb_ℤ}
use unifi_stubd.Prelude.Text.{Bytes, is_empty, trim_space, lower_byte}
use unifi_stubd.Device.{Port, PortOverride}
use unifi_stubd.Device.Layout.{media_for_speed, normalize_gateway_role, normalize_network_group}

-- `portOverrideTextKey`.
pub data TextKey : Type 0 where
  name : TextKey
  interface : TextKey
  mac : TextKey
  ip : TextKey
  netmask : TextKey
  role : TextKey
  network_group : TextKey
  media : TextKey
  port_conf_id : TextKey
  network_conf_id : TextKey
  native_network_conf_id : TextKey
  network_name : TextKey

-- `portOverrideNormalizer`.
pub data Normalizer : Type 0 where
  trimmed : Normalizer
  lower_trimmed : Normalizer
  gateway_role : Normalizer
  group : Normalizer

-- `portOverrideValidator`.
pub data Validator : Type 0 where
  any_text : Validator
  interface_name : Validator
  mac_address : Validator
  ipv4 : Validator
  netmask_value : Validator
  role_name : Validator
  group_name : Validator

-- `portOverrideStringField`.
pub record StringField : Type 0 where
  pub key : TextKey
  pub normalizer : Normalizer
  pub validator : Validator
  pub apply_after_speed : Bool

abbrev field_of : TextKey → Normalizer → Validator → StringField
field_of key normalizer validator = record {
  key = key;
  normalizer = normalizer;
  validator = validator;
  apply_after_speed = false;
}

-- `portOverrideStringFields`.
abbrev pub string_fields : List StringField
string_fields =
    field_of TextKey.name Normalizer.trimmed Validator.any_text
    ∷ field_of TextKey.interface Normalizer.trimmed Validator.interface_name
    ∷ field_of TextKey.mac Normalizer.lower_trimmed Validator.mac_address
    ∷ field_of TextKey.ip Normalizer.trimmed Validator.ipv4
    ∷ field_of TextKey.netmask Normalizer.trimmed Validator.netmask_value
    ∷ field_of TextKey.role Normalizer.gateway_role Validator.role_name
    ∷ field_of TextKey.network_group Normalizer.group Validator.group_name
    ∷ record {
      key = TextKey.media;
      normalizer = Normalizer.trimmed;
      validator = Validator.any_text;
      apply_after_speed = true;
    }
    ∷ field_of TextKey.port_conf_id Normalizer.trimmed Validator.any_text
    ∷ field_of TextKey.network_conf_id Normalizer.trimmed Validator.any_text
    ∷ field_of TextKey.native_network_conf_id Normalizer.trimmed Validator.any_text
    ∷ field_of TextKey.network_name Normalizer.trimmed Validator.any_text
    ∷ []

-- `portOverrideStringField.get`.
abbrev pub text_of : TextKey → PortOverride → Bytes
text_of TextKey.name o = o.name
text_of TextKey.interface o = o.interface
text_of TextKey.mac o = o.mac
text_of TextKey.ip o = o.ip
text_of TextKey.netmask o = o.netmask
text_of TextKey.role o = o.role
text_of TextKey.network_group o = o.network_group
text_of TextKey.media o = o.media
text_of TextKey.port_conf_id o = o.port_conf_id
text_of TextKey.network_conf_id o = o.network_conf_id
text_of TextKey.native_network_conf_id o = o.native_network_conf_id
text_of TextKey.network_name o = o.network_name

-- `portOverrideStringField.normalize`.
unfoldable pub normalize : Normalizer → Bytes → Bytes
unfolding normalize_gateway_role normalize_network_group
normalize Normalizer.trimmed value = trim_space value
normalize Normalizer.lower_trimmed value = map lower_byte (trim_space value)
normalize Normalizer.gateway_role value = normalize_gateway_role value
normalize Normalizer.group value = normalize_network_group value

-- `setNonEmptyString`.
abbrev pub set_non_empty : Bytes → Bytes → Bytes
set_non_empty value old = if is_empty value then old else value

-- `portOverrideStringField.setPort`.
abbrev pub set_port : TextKey → Bytes → Port → Port
set_port TextKey.name value p = record p { name = set_non_empty value p.name }
set_port TextKey.interface value p = record p { interface = set_non_empty value p.interface }
set_port TextKey.mac value p = record p { mac = set_non_empty value p.mac }
set_port TextKey.ip value p = record p { ip = set_non_empty value p.ip }
set_port TextKey.netmask value p = record p { netmask = set_non_empty value p.netmask }
set_port TextKey.role value p = record p { role = set_non_empty value p.role }
set_port TextKey.network_group value p = record p {
  network_group = set_non_empty value p.network_group;
}
set_port TextKey.media value p = record p { media = set_non_empty value p.media }
set_port TextKey.port_conf_id value p = record p {
  port_conf_id = set_non_empty value p.port_conf_id;
}
set_port TextKey.network_conf_id value p = record p {
  network_conf_id = set_non_empty value p.network_conf_id;
}
set_port TextKey.native_network_conf_id value p = record p {
  native_network_conf_id = set_non_empty value p.native_network_conf_id;
}
set_port TextKey.network_name value p = record p {
  network_name = set_non_empty value p.network_name;
}

abbrev pub set_text : StringField → PortOverride → Port → Port
set_text field o p = set_port field.key (normalize field.normalizer (text_of field.key o)) p

-- `setPortOverrideStrings` over the fields that are left.
abbrev pub set_strings : List StringField → PortOverride → Port → Port
set_strings [] o p = p
set_strings (field ∷ fields) o p =
    set_strings fields o (if field.apply_after_speed then p else set_text field o p)

-- `setPortOverrideMedia` over the fields that are left.
abbrev pub set_media : List StringField → PortOverride → Port → Port
set_media [] o p = p
set_media (field ∷ fields) o p =
    set_media fields o (if field.apply_after_speed then set_text field o p else p)

abbrev pub is_nil : List Bytes → Bool
is_nil [] = true
is_nil (x ∷ xs) = false

-- `setPortOverrideAssignment`.
unfoldable pub set_assignment : PortOverride → Port → Port
set_assignment o p = record p { vlan = o.vlan; ipv6 = if is_nil o.ipv6 then p.ipv6 else o.ipv6 }

-- `setPortOverrideSpeed`.
unfoldable pub set_speed : PortOverride → Port → Port
set_speed o p = if leb_ℤ o.speed (pos 0) then p else record p {
  speed = o.speed;
  media = if is_empty (trim_space o.media) then media_for_speed o.speed else p.media;
}

-- `setPortOverrideWANHealth`.
unfoldable pub set_wan_health : PortOverride → Port → Port
set_wan_health o p = record p {
  wan_uptime_percent = o.wan_uptime_percent;
  wan_latency_ms = o.wan_latency_ms;
  wan_downtime_seconds = o.wan_downtime_seconds;
  wan_connected = o.wan_connected;
}

abbrev pub is_zero : ℤ → Bool
is_zero (pos zero) = true
is_zero (pos (suc n)) = false
is_zero (negsuc n) = false

-- One counter of the loop of `setPortOverrideCounters`.
abbrev pub counted : Bool → ℤ → ℤ → ℤ
counted counters_set value old = if counters_set || not (is_zero value) then value else old

-- `setPortOverrideCounters` over `portCounterOverrides`.
unfoldable pub set_counters : PortOverride → Port → Port
set_counters o p = record p {
  rx_bytes = counted o.counters_set o.rx_bytes p.rx_bytes;
  tx_bytes = counted o.counters_set o.tx_bytes p.tx_bytes;
  rx_packets = counted o.counters_set o.rx_packets p.rx_packets;
  tx_packets = counted o.counters_set o.tx_packets p.tx_packets;
  rx_errors = counted o.counters_set o.rx_errors p.rx_errors;
  tx_errors = counted o.counters_set o.tx_errors p.tx_errors;
  counters_set = if o.counters_set then true else p.counters_set;
}

-- `setPortOverrideRates`.
unfoldable pub set_rates : PortOverride → Port → Port
set_rates o p = if not o.traffic_rates_set then p else record p {
  rx_bytes_rate = o.rx_bytes_rate;
  tx_bytes_rate = o.tx_bytes_rate;
  traffic_rates_enabled = true;
  traffic_rates_set = true;
}

abbrev pub with_link : Option Bool → ℤ → Port → Port
with_link none speed p = p
with_link (some true) speed p = record p { up = true }
with_link (some false) speed p = record p {
  up = false;
  speed = if leb_ℤ speed (pos 0) then pos 0 else p.speed;
}

-- `setPortOverrideLinkState`.
unfoldable pub set_link_state : PortOverride → Port → Port
set_link_state o p = with_link o.up o.speed p

-- `setPortOverrideDisabled`.
unfoldable pub set_disabled : PortOverride → Port → Port
set_disabled o p =
    if not o.disabled
    then p
    else record p { disabled = true; up = false; speed = pos 0; ipv6 = []; macs = [] }

-- `portOverrideSetters`, in their order.
unfoldable pub apply_override : PortOverride → Port → Port
apply_override o p =
    let named = set_assignment o (set_strings string_fields o p) in
    let measured = set_rates o (set_counters o (set_wan_health o (set_speed o named))) in
    set_disabled o (set_link_state o (set_media string_fields o measured))

abbrev pub overridden : PortOverride → Option Port → ℕ → List Port → List Port
overridden o none i ports = ports
overridden o (some p) i ports = set ports i (apply_override o p)

-- One override of the loop of `ApplyPortOverrides`.
unfoldable pub apply_in_range : List Port → PortOverride → List Port
apply_in_range ports o =
    if ltb_ℤ o.port (pos 1) || ltb_ℤ (pos (length ports)) o.port
    then ports
    else overridden o (get_elem? ports (pos_part o.port - 1)) (pos_part o.port - 1) ports

-- `ApplyPortOverrides`.
unfoldable pub apply_port_overrides : List Port → List PortOverride → List Port
apply_port_overrides ports [] = ports
apply_port_overrides ports (o ∷ os) = apply_port_overrides (apply_in_range ports o) os
