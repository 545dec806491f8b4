-- ===== src/Device/Profiles.antt =====
-- internal/device/profile_validate.go, and the normalization in profile.go: what a profile must be. A
-- total of ports is a natural number, which is taken to fit an `int`.
pub mod Fitting
pub mod Groups
pub mod Uplinks
pub mod Grouped
pub mod Built
use unifi_stubd.Prelude.{
  ℕ, suc, ◌+◌, Bool, true, false, not, ◌&&◌, ◌||◌, ◌==◌, leb, ltb, List, [], ◌∷◌, map, length,
  Result, ok, err, ◌>>=◌, ◌>>◌, reject, if◌then◌else◌,
}
use unifi_stubd.Prelude.Int.{ℤ, pos, pos_part, ltb_ℤ, leb_ℤ}
use unifi_stubd.Prelude.Text.{Bytes, codes, same, is_empty, contains, trim_space, lower_byte}
use unifi_stubd.Prelude.Text.Lines.{split_byte}
use unifi_stubd.Device.{Profile, PayloadProfile, PortGroup}
use unifi_stubd.Device.Build.{no_groups}
use unifi_stubd.Device.Override.Validate.{has_line_control}

pub data ProfileError : Type 0 where
  schema_version : ProfileError
  name_required : ProfileError
  model_required : ProfileError
  ports_not_positive : ProfileError
  port_speed_negative : ProfileError
  uplink_speed_negative : ProfileError
  group_count : ℕ → ProfileError
  group_speed : ℕ → ProfileError
  groups_total : ℕ → ProfileError
  many_uplink_groups : ProfileError
  too_many_texts : ProfileError
  bad_text : ℕ → ProfileError
  bad_role : ℕ → ProfileError
  bad_kind : ProfileError
  bad_management_interface : ProfileError
  bad_gateway_prefix : ProfileError
  unvalidated : ProfileError
  bad_stability : ProfileError
  bad_version : ℕ → ProfileError

abbrev pub trimmed_payload : PayloadProfile → PayloadProfile
trimmed_payload p = record p {
  kind = trim_space p.kind;
  required_version = trim_space p.required_version;
  management_interface = trim_space p.management_interface;
  gateway_interface_prefix = trim_space p.gateway_interface_prefix;
}

-- `NormalizeProfile`.
unfoldable pub normalize_profile : Profile → Profile
normalize_profile p = record p {
  extends = trim_space p.extends;
  name = trim_space p.name;
  model = trim_space p.model;
  model_display = trim_space p.model_display;
  device_type = trim_space p.device_type;
  version = trim_space p.version;
  port_media = trim_space p.port_media;
  uplink_media = trim_space p.uplink_media;
  stability = trim_space p.stability;
  payload = trimmed_payload p.payload;
  description = trim_space p.description;
  validated_controller_versions = map trim_space p.validated_controller_versions;
}

abbrev pub digits_only : Bytes → Bool
digits_only [] = true
digits_only (c ∷ s) = (leb b'0' c && leb c b'9') && digits_only s

abbrev pub number_parts : List Bytes → Bool
number_parts [] = true
number_parts (part ∷ parts) = (not (is_empty part) && digits_only part) && number_parts parts

-- `isConcreteControllerVersion`.
unfoldable pub is_concrete_controller_version : Bytes → Bool
is_concrete_controller_version version =
    let parts = split_byte b'.' version in leb 3 (length parts) && number_parts parts

unfoldable pub validate_versions : ℕ → List Bytes → Result ProfileError (Unit {0})
validate_versions index [] = ok tt
validate_versions index (version ∷ versions) =
    reject (not (is_concrete_controller_version version)) (ProfileError.bad_version index)
    >> validate_versions (suc index) versions

abbrev pub no_versions : List Bytes → Bool
no_versions [] = true
no_versions (version ∷ versions) = false

-- `validateMaturity`.
unfoldable pub validate_maturity : Profile → Result ProfileError (Unit {0})
validate_maturity p = do
  reject (same p.stability (codes "tested") && no_versions p.validated_controller_versions)
      ProfileError.unvalidated
  reject
      (not (
        same p.stability (codes "experimental")
        || same p.stability (codes "external")
        || same p.stability (codes "tested")))
      ProfileError.bad_stability
  validate_versions 0 p.validated_controller_versions

-- The loop of `validatePortGroups`: the number of ports and that of the uplink groups.
unfoldable pub count_groups : ℕ → ℕ → ℕ → List PortGroup → Result ProfileError (ℕ × ℕ)
count_groups index total uplinks [] = ok (total, uplinks)
count_groups index total uplinks (group ∷ groups) = do
  reject (ltb_ℤ group.count (pos 1)) (ProfileError.group_count index)
  reject (ltb_ℤ group.speed (pos 0)) (ProfileError.group_speed index)
  count_groups (suc index) (total + pos_part group.count)
      (if group.uplink then suc uplinks else uplinks) groups

abbrev pub is_number : ℕ → ℤ → Bool
is_number n z = leb_ℤ (pos n) z && leb_ℤ z (pos n)

abbrev pub check_totals : Profile → ℕ × ℕ → Result ProfileError (Unit {0})
check_totals p (total, uplinks) =
    reject (not (no_groups p.port_groups) && not (is_number total p.ports))
      (ProfileError.groups_total total)
    >> reject (ltb 1 uplinks) ProfileError.many_uplink_groups

-- `validatePortGroups`.
unfoldable pub validate_port_groups : Profile → Result ProfileError (Unit {0})
validate_port_groups p = count_groups 0 0 0 p.port_groups >>= check_totals p

unfoldable pub validate_texts_at : ℕ → List Bytes → Result ProfileError (Unit {0})
validate_texts_at index [] = ok tt
validate_texts_at index (value ∷ values) =
    reject (has_line_control value) (ProfileError.bad_text index)
    >> validate_texts_at (suc index) values

-- `validateOneBasedStrings`.
unfoldable pub validate_one_based_strings : ℤ → List Bytes → Result ProfileError (Unit {0})
validate_one_based_strings ports values =
    reject (ltb_ℤ ports (pos (length values))) ProfileError.too_many_texts
    >> validate_texts_at 0 values

unfoldable pub validate_roles_at : ℕ → List Bytes → Result ProfileError (Unit {0})
validate_roles_at index [] = ok tt
validate_roles_at index (value ∷ values) =
    let role = map lower_byte (trim_space value) in
    reject
      (not (
        is_empty role
        || same role (codes "wan")
        || same role (codes "lan")
        || same role (codes "wan2")
        || same role (codes "lan2")))
      (ProfileError.bad_role index)
    >> validate_roles_at (suc index) values

-- `validatePortRoles`.
unfoldable pub validate_port_roles : Profile → Result ProfileError (Unit {0})
validate_port_roles p =
    validate_one_based_strings p.ports p.port_roles >> validate_roles_at 0 p.port_roles

-- `strings.ContainsAny(value, "/ \t\r\n")`.
abbrev pub has_slash_or_blank : Bytes → Bool
has_slash_or_blank [] = false
has_slash_or_blank (c ∷ s) =
    (c == b'/' || c == b' ' || c == 9 || c == 13 || c == 10) || has_slash_or_blank s

-- `validatePayload`.
unfoldable pub validate_payload : PayloadProfile → Result ProfileError (Unit {0})
validate_payload p =
    let kind = map lower_byte (trim_space p.kind) in
    do
      reject (not (same kind (codes "switch") || same kind (codes "gateway"))) ProfileError.bad_kind
      reject
          (is_empty (trim_space p.management_interface)
            || contains p.management_interface (codes "/"))
          ProfileError.bad_management_interface
      reject
          (is_empty (trim_space p.gateway_interface_prefix)
            || has_slash_or_blank p.gateway_interface_prefix)
          ProfileError.bad_gateway_prefix

-- `validateProfile`.
unfoldable pub validate_profile : Profile → Result ProfileError (Unit {0})
validate_profile p = do
  reject (not (is_number 1 p.schema_version)) ProfileError.schema_version
  reject (is_empty p.name) ProfileError.name_required
  reject (is_empty p.model) ProfileError.model_required
  reject (ltb_ℤ p.ports (pos 1)) ProfileError.ports_not_positive
  reject (ltb_ℤ p.port_speed (pos 0)) ProfileError.port_speed_negative
  reject (ltb_ℤ p.uplink_speed (pos 0)) ProfileError.uplink_speed_negative
  validate_port_groups p
  validate_one_based_strings p.ports p.port_names
  validate_port_roles p
  validate_one_based_strings p.ports p.port_network_groups
  validate_payload p.payload
  validate_maturity p
