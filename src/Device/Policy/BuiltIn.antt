-- ===== src/Device/Policy/BuiltIn.antt =====
-- Which profiles have a policy.
use unifi_stubd.Prelude.{and_left}
use unifi_stubd.Prelude.{
  ◌≡◌, refl, false, sym, ap, ◌∙◌, ◌&&◌, List, [], ◌∷◌, Option, none, some, by_branch,
}
use unifi_stubd.Prelude.Int.{ℤ, pos}
use unifi_stubd.Prelude.Text.{Bytes, same, same_iff}
use unifi_stubd.Device.{Profile}
use unifi_stubd.Device.Policy.{
  ProtocolKey, ProtocolPolicy, source_type_built_in, protocol_policies, same_key, policy_of,
  resolve_user_profile_protocol, schedule_policy_of, resolve_inform_schedule_policy,
  effective_minimum, reporting_policy_of, resolve_controller_reporting_policy,
}

-- Every key of the policies is that of a built-in profile.
abbrev pub BuiltIn : List (ProtocolKey × ProtocolPolicy) → Type 0
BuiltIn [] = Unit
BuiltIn ((k, policy) ∷ policies) = (k.source_type ≡ source_type_built_in) × BuiltIn policies

policy_of-none :
    (key : ProtocolKey) (policies : List (ProtocolKey × ProtocolPolicy))
    → BuiltIn policies
    → (key.source_type ≡ source_type_built_in → ⊥)
    → policy_of key policies ≡ none
policy_of-none key [] built foreign = refl
policy_of-none key ((k, policy) ∷ policies) (a, built) foreign =
    by_branch (λ (o : Option ProtocolPolicy). o ≡ none) (same_key k key) (some policy)
      (policy_of key policies)
      (λ hit. absurd (
        foreign (
          sym (
            (same_iff k.source_type key.source_type).0 (
              and_left (same k.source_type key.source_type)
                (same k.name key.name && (same k.model key.model && same k.version key.version))
                hit))
          ∙ a)))
      (λ miss. policy_of-none key policies built foreign)

resolve_user_profile_protocol-none :
    (profile : Profile) (model version : Bytes)
    → (profile.source_type ≡ source_type_built_in → ⊥)
    → resolve_user_profile_protocol profile model version ≡ none
unfolding resolve_user_profile_protocol
resolve_user_profile_protocol-none profile model version foreign =
    policy_of-none
      (record {
        source_type = profile.source_type;
        name = profile.name;
        model = model;
        version = version;
      })
      protocol_policies (refl, (refl, (refl, (refl, (refl, (refl, tt)))))) foreign

-- Nothing of a controller counts and nothing is reported to it: its hints are not supported, the
-- minimum of an interval is 0 whatever the operator asks for, and neither its clock nor its selection
-- of blocks nor an idle speed test is reported.
pub record Unsupported (profile : Profile) (model version : Bytes) (operator_minimum : ℤ)
    : Type 0 where
  pub no_hints : (resolve_inform_schedule_policy profile model version).supported ≡ false
  pub no_firmware_minimum :
      (resolve_inform_schedule_policy profile model version).firmware_minimum ≡ pos 0
  pub no_minimum :
      effective_minimum (resolve_inform_schedule_policy profile model version) operator_minimum
      ≡ pos 0
  pub no_clock :
      (resolve_controller_reporting_policy profile model version).controller_clock ≡ false
  pub no_blocks :
      (resolve_controller_reporting_policy profile model version).block_selection ≡ false
  pub no_idle_speedtest :
      (resolve_controller_reporting_policy profile model version).idle_speedtest ≡ false

-- For a profile that is not built in, whatever its name, its model and its version are, the hints of a
-- controller are not supported, the minima of an interval are 0, and neither the clock nor the
-- selection of blocks nor an idle speed test is reported.
pub external_has_no_policy :
    (profile : Profile) (model version : Bytes) (operator_minimum : ℤ)
    → (profile.source_type ≡ source_type_built_in → ⊥)
    → Unsupported profile model version operator_minimum
unfolding resolve_inform_schedule_policy resolve_controller_reporting_policy effective_minimum
external_has_no_policy profile model version operator_minimum foreign =
    let nothing = resolve_user_profile_protocol-none profile model version foreign in
    record {
      no_hints = ap (λ (o : Option ProtocolPolicy). (schedule_policy_of o).supported) nothing;
      no_firmware_minimum =
          ap (λ (o : Option ProtocolPolicy). (schedule_policy_of o).firmware_minimum) nothing;
      no_minimum =
          ap
            (λ (o : Option ProtocolPolicy).
              effective_minimum (schedule_policy_of o) operator_minimum)
            nothing;
      no_clock =
          ap (λ (o : Option ProtocolPolicy). (reporting_policy_of o).controller_clock) nothing;
      no_blocks =
          ap (λ (o : Option ProtocolPolicy). (reporting_policy_of o).block_selection) nothing;
      no_idle_speedtest =
          ap (λ (o : Option ProtocolPolicy). (reporting_policy_of o).idle_speedtest) nothing;
    }
