-- ===== src/Device/Override/Validate.antt =====
-- internal/device/overrides.go and override_fields.go: the validation of an override, and the copy of
-- it for a report.
use unifi_stubd.Prelude.{
  ℕ, Bool, true, false, not, ◌&&◌, ◌||◌, ◌==◌, List, [], ◌∷◌, Option, none, some, Result, ok, ◌>>◌,
  reject,
}
use unifi_stubd.Prelude.Int.{pos, ltb_ℤ}
use unifi_stubd.Prelude.Float.{Float64, less, float_zero, float_hundred}
use unifi_stubd.Prelude.Text.{Bytes, codes, same, is_empty, contains}
use unifi_stubd.Device.{PortOverride}
use unifi_stubd.Device.Mac.{parse_mac}
use unifi_stubd.Device.Override.{
  TextKey, Validator, StringField, string_fields, text_of, normalize, is_nil, is_zero,
}

pub data OverrideError : Type 0 where
  bad_port : OverrideError
  bad_speed : OverrideError
  bad_vlan : OverrideError
  bad_uptime : OverrideError
  bad_latency : OverrideError
  bad_downtime : OverrideError
  bad_text : TextKey → OverrideError
  empty_override : OverrideError

abbrev pub is_none : Option (List ℕ) → Bool
is_none none = true
is_none (some hw) = false

-- `validGatewayRole`.
unfoldable pub valid_gateway_role : Bytes → Bool
unfolding same
valid_gateway_role role =
    same role (codes "wan")
    || same role (codes "lan")
    || same role (codes "wan2")
    || same role (codes "lan2")
    || same role (codes "unassigned")

-- `strings.ContainsAny(value, "\r\n\t")`.
abbrev pub has_line_control : Bytes → Bool
has_line_control [] = false
has_line_control (c ∷ s) = (c == 13 || c == 10 || c == 9) || has_line_control s

-- `PortOverrideEmpty`, behind its texts.
abbrev pub other_fields_empty : PortOverride → Bool
other_fields_empty o =
    is_zero o.speed
    && is_nil o.ipv6
    && elim o.up [ none ↦ true | some up ↦ false ]
    && not o.disabled
    && is_zero o.rx_bytes
    && is_zero o.tx_bytes
    && is_zero o.rx_packets
    && is_zero o.tx_packets
    && is_zero o.rx_errors
    && is_zero o.tx_errors
    && not o.counters_set
    && is_zero o.vlan
    && elim o.wan_uptime_percent [ none ↦ true | some percent ↦ false ]
    && is_zero o.wan_latency_ms
    && is_zero o.wan_downtime_seconds
    && elim o.wan_connected [ none ↦ true | some connected ↦ false ]
    && not o.traffic_rates_set

-- `portOverrideStringsEmpty` over the fields that are left.
unfoldable pub strings_empty : List StringField → PortOverride → Bool
strings_empty [] o = true
strings_empty (field ∷ fields) o =
    is_empty (normalize field.normalizer (text_of field.key o)) && strings_empty fields o

-- `PortOverrideEmpty`.
unfoldable pub port_override_empty : PortOverride → Bool
port_override_empty o = strings_empty string_fields o && other_fields_empty o

-- `*percent < 0 || *percent > 100`.
abbrev pub bad_percent : Option Float64 → Bool
bad_percent none = false
bad_percent (some percent) = less percent float_zero || less float_hundred percent

-- `net.ParseIP(value).To4() != nil` is the parameter `is_ipv4`.
module _ (is_ipv4 : Bytes → Bool) where
  abbrev pub refused_text : Validator → Bytes → Bool
  refused_text Validator.any_text value = false
  refused_text Validator.interface_name value = contains value (codes "/")
  refused_text Validator.mac_address value = is_none (parse_mac value)
  refused_text Validator.ipv4 value = not (is_ipv4 value)
  refused_text Validator.netmask_value value = not (is_ipv4 value)
  refused_text Validator.role_name value = not (valid_gateway_role value)
  refused_text Validator.group_name value = has_line_control value

  -- `portOverrideStringField.validate`.
  abbrev pub validate_text : StringField → PortOverride → Result OverrideError (Unit {0})
  validate_text field o =
      let value = normalize field.normalizer (text_of field.key o) in
      reject (not (is_empty value) && refused_text field.validator value)
        (OverrideError.bad_text field.key)

  unfoldable pub validate_texts : List StringField → PortOverride → Result OverrideError (Unit {0})
  validate_texts [] o = ok tt
  validate_texts (field ∷ fields) o = validate_text field o >> validate_texts fields o

  -- `ValidatePortOverride`.
  unfoldable pub validate_port_override : PortOverride → ℕ → Result OverrideError (Unit {0})
  validate_port_override o port_count = do
    reject (ltb_ℤ o.port (pos 1) || ltb_ℤ (pos port_count) o.port) OverrideError.bad_port
    reject (ltb_ℤ o.speed (pos 0)) OverrideError.bad_speed
    reject (ltb_ℤ o.vlan (pos 0)) OverrideError.bad_vlan
    reject (bad_percent o.wan_uptime_percent) OverrideError.bad_uptime
    reject (ltb_ℤ o.wan_latency_ms (pos 0)) OverrideError.bad_latency
    reject (ltb_ℤ o.wan_downtime_seconds (pos 0)) OverrideError.bad_downtime
    validate_texts string_fields o
    reject (port_override_empty o) OverrideError.empty_override

-- `portOverrideStringField.setOverride`.
abbrev pub set_override : TextKey → Bytes → PortOverride → PortOverride
set_override TextKey.name value o = record o { name = value }
set_override TextKey.interface value o = record o { interface = value }
set_override TextKey.mac value o = record o { mac = value }
set_override TextKey.ip value o = record o { ip = value }
set_override TextKey.netmask value o = record o { netmask = value }
set_override TextKey.role value o = record o { role = value }
set_override TextKey.network_group value o = record o { network_group = value }
set_override TextKey.media value o = record o { media = value }
set_override TextKey.port_conf_id value o = record o { port_conf_id = value }
set_override TextKey.network_conf_id value o = record o { network_conf_id = value }
set_override TextKey.native_network_conf_id value o = record o { native_network_conf_id = value }
set_override TextKey.network_name value o = record o { network_name = value }

unfoldable pub normalize_texts : List StringField → PortOverride → PortOverride
normalize_texts [] o = o
normalize_texts (field ∷ fields) o =
    normalize_texts fields
      (set_override field.key (normalize field.normalizer (text_of field.key o)) o)

-- `NormalizePortOverride`.
unfoldable pub normalize_port_override : PortOverride → PortOverride
unfolding normalize_texts
normalize_port_override o = normalize_texts string_fields o
