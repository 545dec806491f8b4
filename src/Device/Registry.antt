-- ===== src/Device/Registry.antt =====
-- internal/device/registry.go and the files registry_*.go beside it and
-- profile_defaults.go: the registered profiles. A copy of a slice or of a document is the same
-- value. `strings.ToLower` and `strings.EqualFold` are those of ASCII texts. The type of a document of
-- YAML is a parameter.
pub mod Unique
use unifi_stubd.Prelude.{
  ℕ, Bool, true, false, not, ◌&&◌, ◌||◌, List, [], ◌∷◌, ◌++◌, Option, none, some, map, Result, ok,
  err, ◌>>=◌, if◌then◌else◌,
}
use unifi_stubd.Prelude.Int.{ℤ, pos, ltb_ℤ}
use unifi_stubd.Prelude.Text.{Bytes, codes, same, is_empty, trim_space, lower_byte, join, text_less}
use unifi_stubd.Device.{Profile, PayloadProfile}
use unifi_stubd.Device.Neighbors.{equal_fold}
use unifi_stubd.Device.Override.{is_zero}

-- `record`.
pub record ProfileRecord (Document : Type 0) : Type 0 where
  pub source : Bytes
  pub builtin : Bool
  pub order : ℤ
  pub profile : Profile
  pub document : Document

pub data RegisterError : Type 0 where
  duplicate_name : Bytes → RegisterError
  duplicate_model : Bytes → RegisterError

-- `profileWithSource`.
unfoldable pub profile_with_source : {D : Type 0} → ProfileRecord D → Profile
profile_with_source r = record r.profile {
  source = r.source;
  source_type = if r.builtin then codes "built-in" else codes "external";
}

-- The lowered text is the name or the model of a record.
abbrev pub answers_to : {D : Type 0} → Bytes → ProfileRecord D → Bool
answers_to text r =
    same (map lower_byte r.profile.name) text || same (map lower_byte r.profile.model) text

abbrev pub first_answer : {D : Type 0} → Bytes → List (ProfileRecord D) → Option (ProfileRecord D)
first_answer text [] = none
first_answer text (r ∷ rs) =
    let rest = first_answer text rs in if answers_to text r then some r else rest

-- `lookupRecord`.
unfoldable pub lookup_record :
    {D : Type 0} → Bytes → List (ProfileRecord D) → Option (ProfileRecord D)
lookup_record name rs = first_answer (map lower_byte (trim_space name)) rs

abbrev pub map_record : {D : Type 0} → Option (ProfileRecord D) → Option Profile
map_record none = none
map_record (some r) = some (profile_with_source r)

-- `LookupProfile`.
unfoldable pub lookup_profile : {D : Type 0} → Bytes → List (ProfileRecord D) → Option Profile
lookup_profile name rs = map_record (lookup_record name rs)

abbrev pub name_duplicate : {D : Type 0} → ProfileRecord D → ProfileRecord D → Bool
name_duplicate r new = same r.profile.name new.profile.name

abbrev pub model_duplicate : {D : Type 0} → ProfileRecord D → ProfileRecord D → Bool
model_duplicate r new = equal_fold r.profile.model new.profile.model

abbrev pub before :
    {D : Type 0}
    → ProfileRecord D
    → Result RegisterError (List (ProfileRecord D))
    → Result RegisterError (List (ProfileRecord D))
before r (ok rs) = ok (r ∷ rs)
before r (err e) = err e

-- `registerRecord`, for the record that `recordEntry` makes.
unfoldable pub register_record :
    {D : Type 0}
    → List (ProfileRecord D)
    → ProfileRecord D
    → Result RegisterError (List (ProfileRecord D))
register_record [] new = ok (new ∷ [])
register_record (r ∷ rs) new =
    let rest = register_record rs new in
    if not (name_duplicate r new) && not (model_duplicate r new)
    then before r rest
    else if new.profile.allow_builtin_override && r.builtin
    then ok (new ∷ rs)
    else if name_duplicate r new
    then err (RegisterError.duplicate_name r.source)
    else err (RegisterError.duplicate_model r.source)

abbrev pub listed_before : {D : Type 0} → ProfileRecord D → ProfileRecord D → Bool
listed_before a b =
    if ltb_ℤ a.order b.order || ltb_ℤ b.order a.order
    then ltb_ℤ a.order b.order
    else text_less a.profile.name b.profile.name

abbrev pub insert_record :
    {D : Type 0} → ProfileRecord D → List (ProfileRecord D) → List (ProfileRecord D)
insert_record r [] = r ∷ []
insert_record r (s ∷ rs) =
    let rest = insert_record r rs in if listed_before s r then s ∷ rest else r ∷ s ∷ rs

abbrev pub sort_records : {D : Type 0} → List (ProfileRecord D) → List (ProfileRecord D)
sort_records [] = []
sort_records (r ∷ rs) = insert_record r (sort_records rs)

-- `Profiles`.
unfoldable pub profiles : {D : Type 0} → List (ProfileRecord D) → List Profile
profiles rs = map profile_with_source (sort_records rs)

abbrev pub name_of : Profile → Bytes
name_of p = p.name

-- `ProfileNames`.
unfoldable pub profile_names : {D : Type 0} → List (ProfileRecord D) → Bytes
profile_names rs = join (codes ", ") (map name_of (profiles rs))

-- `deviceTypeOrDefault`.
unfoldable pub device_type_or_default : Bytes → Bytes
device_type_or_default value =
    let text = trim_space value in if is_empty text then codes "usw" else text

-- `defaultPayloadKind`.
unfoldable pub default_payload_kind : Bytes → Bytes
default_payload_kind device_type =
    let text = trim_space device_type in
    if same text (codes "ugw") || same text (codes "uxg") || same text (codes "udm")
    then codes "gateway"
    else codes "switch"

abbrev pub or_default : Bytes → Bytes → Bytes
or_default value other = if is_empty value then other else value

abbrev pub default_payload : Bytes → PayloadProfile → PayloadProfile
default_payload device_type p = record p {
  kind = or_default p.kind (default_payload_kind device_type);
  required_version = or_default p.required_version (codes "5.0.0");
  management_interface = or_default p.management_interface (codes "eth0");
  gateway_interface_prefix = or_default p.gateway_interface_prefix (codes "eth");
}

-- `applyProfileDefaults`.
unfoldable pub apply_profile_defaults : Profile → Profile
apply_profile_defaults p = record p {
  schema_version = if is_zero p.schema_version then pos 1 else p.schema_version;
  stability = or_default p.stability (codes "experimental");
  payload = default_payload p.device_type p.payload;
}
