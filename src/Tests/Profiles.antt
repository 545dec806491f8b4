-- ===== src/Tests/Profiles.antt =====
-- Runs of the validation of profiles.
use unifi_stubd.Prelude.{◌≡◌, refl, false, ok, err}
use unifi_stubd.Prelude.Int.{pos}
use unifi_stubd.Prelude.Text.{codes, same, contains, trim_space}
use unifi_stubd.Prelude.Text.Lines.{split_byte}
use Prim.Native.String.{String}
use unifi_stubd.Prelude.{List, [], ◌∷◌, ◌++◌, map, ◌⊎◌, Bool, true, false}
use unifi_stubd.Prelude.Text.{Bytes, lower_byte, same_iff}
use unifi_stubd.Device.Registry.{ProfileRecord, register_record}
use unifi_stubd.Device.Registry.Unique.{Unique, Replaced, register_record_lem}
use unifi_stubd.Prelude.Int.{mul64, wrap64, ◌*ℤ◌}
use unifi_stubd.Device.{Profile}
use unifi_stubd.Device.Policy.{
  source_type_built_in, effective_minimum, resolve_inform_schedule_policy,
  resolve_user_profile_protocol,
}
use unifi_stubd.Device.Policy.BuiltIn.{Unsupported, external_has_no_policy}
use unifi_stubd.Device.Profiles.{
  ProfileError, validate_profile, validate_port_groups, count_groups, validate_one_based_strings,
  validate_texts_at, validate_port_roles, validate_roles_at, validate_payload, validate_maturity,
  validate_versions, is_concrete_controller_version,
}
use unifi_stubd.Device.Profiles.Fitting.{IsFitting, validate_profile-IsFitting}
use unifi_stubd.Tests.Device.{gateway}

gateway_valid : validate_profile gateway ≡ ok tt
unfolding validate_profile validate_port_groups count_groups validate_one_based_strings
    validate_texts_at validate_port_roles validate_roles_at validate_payload validate_maturity
    validate_versions is_concrete_controller_version same contains trim_space split_byte
gateway_valid = refl

short_groups :
    validate_profile (record gateway { ports = pos 4 }) ≡ err (ProfileError.groups_total 3)
unfolding validate_profile validate_port_groups count_groups
short_groups = refl

latest_version : is_concrete_controller_version (codes "9.1.latest") ≡ false
unfolding is_concrete_controller_version split_byte
latest_version = refl

-- Two groups are marked as uplinks, and the profile is not valid.
abbrev two_uplinks : Profile
two_uplinks = record gateway {
  port_groups =
      record { count = pos 1; speed = pos 1000; media = []; uplink = false }
      ∷ record { count = pos 1; speed = pos 10000; media = []; uplink = true }
      ∷ record { count = pos 1; speed = pos 2500; media = []; uplink = true }
      ∷ [];
}

two_uplinks_refused : validate_profile two_uplinks ≡ err ProfileError.many_uplink_groups
unfolding validate_profile validate_port_groups count_groups
two_uplinks_refused = refl

gateway-IsFitting : IsFitting gateway
gateway-IsFitting = validate_profile-IsFitting gateway gateway_valid refl

different : (a b : Bytes) → same a b ≡ false → a ≡ b → ⊥
different a b h e = let hit = (same_iff a b).1 e in cc

abbrev registered : String → String → ProfileRecord Bool
registered name model = record {
  source = codes "built-in";
  builtin = true;
  order = pos 0;
  profile = record gateway { name = codes name; model = codes model };
  document = true;
}

abbrev two_profiles : List (ProfileRecord Bool)
two_profiles = registered "us8" "US8" ∷ registered "us16" "US16" ∷ []

-- An external profile with the name of one built-in profile and the model of another.
abbrev mixed : ProfileRecord Bool
mixed = record (registered "us8" "us16") {
  builtin = false;
  profile = record gateway {
    name = codes "us8";
    model = codes "us16";
    allow_builtin_override = true;
  };
}

two_profiles-Unique : Unique two_profiles
unfolding same
two_profiles-Unique = (
  (
    (
      different (codes "us8") (codes "us16") refl,
      different (map lower_byte (codes "US8")) (map lower_byte (codes "US16")) refl,
    ),
    tt,
  ),
  (tt, tt),
)

-- It takes the place of the first, and the model of the second then stands twice in the registry.
mixed_taken : register_record two_profiles mixed ≡ ok (mixed ∷ registered "us16" "US16" ∷ [])
unfolding register_record same
mixed_taken = refl

register_record_lem_example :
    (((mixed ∷ registered "us16" "US16" ∷ []) ≡ two_profiles ++ mixed ∷ [])
      × Unique (two_profiles ++ mixed ∷ []))
    ⊎ ((mixed.profile.allow_builtin_override ≡ true)
        × Replaced two_profiles mixed (mixed ∷ registered "us16" "US16" ∷ []))
register_record_lem_example =
    register_record_lem two_profiles mixed (mixed ∷ registered "us16" "US16" ∷ [])
      two_profiles-Unique mixed_taken

abbrev lookalike : Profile
lookalike = record gateway {
  source_type = codes "external";
  name = codes "uxgpro";
  model = codes "UXGPRO";
}

external_has_no_policy_example :
    Unsupported lookalike (codes "UXGPRO") (codes "5.0.16.30689") (pos 5000000000)
unfolding same
external_has_no_policy_example =
    external_has_no_policy lookalike (codes "UXGPRO") (codes "5.0.16.30689") (pos 5000000000)
      (different (codes "external") source_type_built_in refl)

built_in_minimum :
    effective_minimum
      (resolve_inform_schedule_policy
        (record lookalike { source_type = codes "built-in" })
        (codes "UXGPRO")
        (codes "5.0.16.30689"))
      (pos 0)
    ≡ pos 1000000000
unfolding effective_minimum resolve_inform_schedule_policy resolve_user_profile_protocol same mul64
    wrap64 ◌*ℤ◌
built_in_minimum = refl
