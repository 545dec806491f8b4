-- ===== src/Device/Policy.antt =====
-- internal/device/profile_protocol.go, inform_schedule.go and controller_reporting.go: what an exact
-- product does for its controller. A duration is an integer of nanoseconds.
pub mod BuiltIn
use unifi_stubd.Prelude.{
  Bool, true, false, not, ◌&&◌, ◌||◌, List, [], ◌∷◌, Option, none, some, if◌then◌else◌,
}
use unifi_stubd.Prelude.Int.{ℤ, pos, ltb_ℤ, leb_ℤ, mul64}
use unifi_stubd.Prelude.Text.{Bytes, codes, same}
use unifi_stubd.Device.{Profile}

pub record ProtocolKey : Type 0 where
  pub source_type : Bytes
  pub name : Bytes
  pub model : Bytes
  pub version : Bytes

pub record ProtocolPolicy : Type 0 where
  pub firmware_minimum_seconds : ℤ
  pub block_selection : Bool
  pub controller_clock : Bool
  pub idle_speedtest : Bool

abbrev pub source_type_built_in : Bytes
source_type_built_in = codes "built-in"

abbrev pub default_switch_version : Bytes
default_switch_version = codes "7.4.1.16850"

abbrev pub default_gateway_version : Bytes
default_gateway_version = codes "5.0.16.30689"

abbrev pub mainline_switch_protocol_policy : ProtocolPolicy
mainline_switch_protocol_policy = record {
  firmware_minimum_seconds = pos 30;
  block_selection = false;
  controller_clock = true;
  idle_speedtest = false;
}

abbrev pub switch_policy : Bytes → Bytes → ProtocolKey × ProtocolPolicy
switch_policy name model = (
  record {
    source_type = source_type_built_in;
    name = name;
    model = model;
    version = default_switch_version;
  },
  mainline_switch_protocol_policy,
)

-- `userProfileProtocolPolicies`.
abbrev pub protocol_policies : List (ProtocolKey × ProtocolPolicy)
protocol_policies =
    switch_policy (codes "us16p150") (codes "US16P150")
    ∷ switch_policy (codes "us24p250") (codes "US24P250")
    ∷ switch_policy (codes "us48p500") (codes "US48P500")
    ∷ switch_policy (codes "us8") (codes "US8")
    ∷ switch_policy (codes "us8p60") (codes "US8P60")
    ∷ (
      record {
        source_type = source_type_built_in;
        name = codes "uxgpro";
        model = codes "UXGPRO";
        version = default_gateway_version;
      },
      record {
        firmware_minimum_seconds = pos 1;
        block_selection = true;
        controller_clock = true;
        idle_speedtest = true;
      },
    )
    ∷ []

abbrev pub same_key : ProtocolKey → ProtocolKey → Bool
same_key a b =
    same a.source_type b.source_type
    && (same a.name b.name && (same a.model b.model && same a.version b.version))

abbrev pub policy_of : ProtocolKey → List (ProtocolKey × ProtocolPolicy) → Option ProtocolPolicy
policy_of key [] = none
policy_of key ((k, policy) ∷ policies) =
    let rest = policy_of key policies in if same_key k key then some policy else rest

-- `resolveUserProfileProtocol`.
unfoldable pub resolve_user_profile_protocol : Profile → Bytes → Bytes → Option ProtocolPolicy
resolve_user_profile_protocol profile model version =
    policy_of
      (record {
        source_type = profile.source_type;
        name = profile.name;
        model = model;
        version = version;
      })
      protocol_policies

pub record InformSchedulePolicy : Type 0 where
  pub firmware_minimum : ℤ
  pub supported : Bool

abbrev pub no_schedule_policy : InformSchedulePolicy
no_schedule_policy = record { firmware_minimum = pos 0; supported = false }

abbrev pub schedule_policy_of : Option ProtocolPolicy → InformSchedulePolicy
schedule_policy_of none = no_schedule_policy
schedule_policy_of (some policy) =
    if leb_ℤ policy.firmware_minimum_seconds (pos 0) then no_schedule_policy else record {
      firmware_minimum = mul64 policy.firmware_minimum_seconds (pos 1000000000);
      supported = true;
    }

-- `ResolveInformSchedulePolicy`, without its reason.
unfoldable pub resolve_inform_schedule_policy : Profile → Bytes → Bytes → InformSchedulePolicy
resolve_inform_schedule_policy profile model version =
    schedule_policy_of (resolve_user_profile_protocol profile model version)

-- `EffectiveMinimum`.
unfoldable pub effective_minimum : InformSchedulePolicy → ℤ → ℤ
effective_minimum policy operator_minimum =
    if not policy.supported || leb_ℤ policy.firmware_minimum (pos 0)
    then pos 0
    else if ltb_ℤ policy.firmware_minimum operator_minimum
    then operator_minimum
    else policy.firmware_minimum

pub record ControllerReportingPolicy : Type 0 where
  pub block_selection : Bool
  pub controller_clock : Bool
  pub idle_speedtest : Bool

abbrev pub reporting_policy_of : Option ProtocolPolicy → ControllerReportingPolicy
reporting_policy_of none = record {
  block_selection = false;
  controller_clock = false;
  idle_speedtest = false;
}
reporting_policy_of (some policy) = record {
  block_selection = policy.block_selection;
  controller_clock = policy.controller_clock;
  idle_speedtest = policy.idle_speedtest;
}

-- `ResolveControllerReportingPolicy`, without its reason.
unfoldable pub resolve_controller_reporting_policy :
    Profile → Bytes → Bytes → ControllerReportingPolicy
resolve_controller_reporting_policy profile model version =
    reporting_policy_of (resolve_user_profile_protocol profile model version)
