-- ===== src/Device/Layout.antt =====
-- internal/device/port_layout.go and port_fields.go.
use unifi_stubd.Prelude.{
  ℕ, zero, suc, ◌||◌, List, [], ◌++◌, Option, none, some, get_elem?, map, if◌then◌else◌,
}
use unifi_stubd.Prelude.Int.{ℤ, pos, ltb_ℤ, leb_ℤ}
use unifi_stubd.Prelude.Text.{Bytes, codes, same, is_empty, trim_space, lower_byte}
use unifi_stubd.Prelude.Text.Decimal.{itoa}
use unifi_stubd.Device.{PortGroup, PortBuildOptions, Profile}

pub record PortLayout : Type 0 where
  pub speed : ℤ
  pub uplink_speed : ℤ
  pub media : Bytes
  pub uplink_media : Bytes
  pub uplink_port : ℤ
  pub port_groups : List PortGroup
  pub port_names : List Bytes
  pub port_roles : List Bytes
  pub port_network_groups : List Bytes

abbrev pub media_sfp_plus : Bytes
media_sfp_plus = codes "SFP+"

unfoldable pub media_for_speed : ℤ → Bytes
media_for_speed speed = if leb_ℤ (pos 10000) speed then media_sfp_plus else codes "GE"

-- The layout of the profile under `options.LinkSpeed`.
abbrev pub linked_layout : Profile → PortBuildOptions → PortLayout
linked_layout profile options =
    let layout : PortLayout = record {
      speed = profile.port_speed;
      uplink_speed = profile.uplink_speed;
      media = profile.port_media;
      uplink_media = profile.uplink_media;
      uplink_port = options.uplink_port;
      port_groups = profile.port_groups;
      port_names = profile.port_names;
      port_roles = profile.port_roles;
      port_network_groups = profile.port_network_groups;
    } in
    if ltb_ℤ (pos 0) options.link_speed
    then record layout {
      speed = options.link_speed;
      uplink_speed = options.link_speed;
      media = [];
      uplink_media = [];
      port_groups = [];
    }
    else layout

-- `profilePortLayout`.
unfoldable pub profile_port_layout : Profile → PortBuildOptions → PortLayout
unfolding same
profile_port_layout profile options =
    let layout = linked_layout profile options in
    if ltb_ℤ (pos 0) options.uplink_speed
    then record layout {
      uplink_speed = options.uplink_speed;
      uplink_media =
          if is_empty layout.uplink_media || same layout.uplink_media layout.media
          then []
          else layout.uplink_media;
    }
    else layout

-- `normalizePortLayout`.
unfoldable pub normalize_port_layout : PortLayout → PortLayout
unfolding media_for_speed
normalize_port_layout layout =
    let speed = if leb_ℤ layout.speed (pos 0) then pos 1000 else layout.speed in
    let uplink_speed = if leb_ℤ layout.uplink_speed (pos 0) then speed else layout.uplink_speed in
    record layout {
      speed = speed;
      uplink_speed = uplink_speed;
      media = if is_empty layout.media then media_for_speed speed else layout.media;
      uplink_media =
          if is_empty layout.uplink_media
          then media_for_speed uplink_speed
          else layout.uplink_media;
    }

abbrev trimmed_or_empty : Option Bytes → Bytes
trimmed_or_empty none = []
trimmed_or_empty (some v) = trim_space v

-- `oneBasedString`.
unfoldable pub one_based_string : ℕ → List Bytes → Bytes
unfolding trim_space
one_based_string zero values = []
one_based_string (suc i) values = trimmed_or_empty (get_elem? values i)

-- `portName`, for an index from 1.
unfoldable pub port_name : ℕ → List Bytes → Bytes
unfolding one_based_string itoa
port_name index names =
    let name = one_based_string index names in
    if is_empty name then codes "Port " ++ itoa index else name

-- `normalizeGatewayRole`, for an ASCII text.
unfoldable pub normalize_gateway_role : Bytes → Bytes
unfolding trim_space
normalize_gateway_role role = map lower_byte (trim_space role)

-- `normalizeNetworkGroup`.
unfoldable pub normalize_network_group : Bytes → Bytes
unfolding trim_space
normalize_network_group network_group = trim_space network_group
