-- ===== src/Observe/PortMap.antt =====
-- internal/observe/portmap/mapping.go and internal/observe/ifsource/apply.go: ports that show host
-- interfaces, as overrides. The source is a parameter.
pub mod Closed
use unifi_stubd.Prelude.{
  Bool, true, false, not, ◌&&◌, ◌||◌, List, [], ◌∷◌, Option, none, some, if◌then◌else◌, ◌==◌,
}
use unifi_stubd.Prelude.Int.{ℤ, pos, ltb_ℤ, leb_ℤ}
use unifi_stubd.Prelude.Text.{Bytes, is_empty, trim_space}
use unifi_stubd.Device.{PortOverride}
use unifi_stubd.Device.Override.{is_zero}
use unifi_stubd.Device.Override.Health.{blank_override}
use unifi_stubd.Observe.{InterfaceStats, PortObservation, PortMapping}
use unifi_stubd.Observe.Macs.{is_enabled}
use unifi_stubd.Observe.Snapshots.{no_stats}

-- `observationHasCounters`.
unfoldable pub observation_has_counters : InterfaceStats → Bool
observation_has_counters s =
    not (is_zero s.rx_packets)
    || not (is_zero s.rx_errors)
    || not (is_zero s.rx_bytes)
    || not (is_zero s.tx_packets)
    || not (is_zero s.tx_errors)
    || not (is_zero s.tx_bytes)

abbrev pub or_text : Bytes → Bytes → Bytes
or_text own other = if is_empty (trim_space own) then other else own

abbrev pub or_texts : List Bytes → List Bytes → List Bytes
or_texts [] other = other
or_texts (t ∷ ts) other = t ∷ ts

abbrev pub link_of : Option Bool → Option Bool → Bool
link_of none reported = is_enabled reported
link_of (some up) reported = up

-- `ApplyObservation`.
unfoldable pub apply_observation : PortOverride → PortObservation → PortOverride
apply_observation o seen =
    let up = link_of o.up seen.up in
    record o {
      interface = or_text o.interface (trim_space seen.interface);
      mac = or_text o.mac seen.mac;
      up = some up;
      ip = or_text o.ip seen.ip;
      netmask = or_text o.netmask seen.netmask;
      ipv6 = or_texts o.ipv6 seen.ipv6;
      speed =
          if leb_ℤ o.speed (pos 0) && up && ltb_ℤ (pos 0) seen.speed_mbps
          then seen.speed_mbps
          else o.speed;
      media = or_text o.media seen.media;
      rx_bytes = seen.stats.rx_bytes;
      tx_bytes = seen.stats.tx_bytes;
      rx_packets = seen.stats.rx_packets;
      tx_packets = seen.stats.tx_packets;
      rx_errors = seen.stats.rx_errors;
      tx_errors = seen.stats.tx_errors;
      counters_set = seen.stats.counters_set || observation_has_counters seen.stats;
    }

-- `OverrideFromObservation`.
unfoldable pub override_from_observation : ℤ → PortObservation → PortOverride
override_from_observation port seen =
    apply_observation
      (record (blank_override (if ltb_ℤ (pos 0) seen.port then seen.port else port)) {
        interface = trim_space seen.interface;
      })
      seen

-- `disabledOverride`.
unfoldable pub disabled_override : ℤ → PortOverride
disabled_override port = record (blank_override port) { up = some false; disabled = true }

-- What a map gives for a port that it does not have.
abbrev pub nothing_seen : PortObservation
nothing_seen = record {
  port = pos 0;
  interface = [];
  mac = [];
  ip = [];
  netmask = [];
  ipv6 = [];
  up = none;
  speed_mbps = pos 0;
  media = [];
  stats = no_stats;
  macs = [];
  disabled = false;
  unmapped = false;
}

abbrev pub same_number : ℤ → ℤ → Bool
same_number a b = leb_ℤ a b && leb_ℤ b a

-- `PortMapObservation`: the observations by the number of the port.
abbrev pub PortMapObservation : Type 0
PortMapObservation = List (ℤ × PortObservation)

abbrev pub observation_of : ℤ → PortMapObservation → PortObservation
observation_of port [] = nothing_seen
observation_of port ((number, seen) ∷ rest) =
    let other = observation_of port rest in if same_number number port then seen else other

-- `OverridesFromObservation`.
unfoldable pub overrides_from_observation :
    List PortMapping → PortMapObservation → List PortOverride
overrides_from_observation [] observation = []
overrides_from_observation (m ∷ ms) observation =
    let rest = overrides_from_observation ms observation in
    if not (is_empty (trim_space m.interface))
    then override_from_observation m.port (observation_of m.port observation) ∷ rest
    else if m.disabled
    then disabled_override m.port ∷ rest
    else rest

-- `observePortMappings`.
unfoldable pub observe_port_mappings : List PortMapping → List PortMapping
observe_port_mappings [] = []
observe_port_mappings (m ∷ ms) =
    record m { interface = trim_space m.interface } ∷ observe_port_mappings ms

module _ (Failure : Type 0) (missing_source : Failure) where
  abbrev pub mapped :
      List PortMapping → PortMapObservation × List Failure → List PortOverride × List Failure
  mapped mappings (observation, errs) = (overrides_from_observation mappings observation, errs)

  -- `OverridesFromSource`.
  unfoldable pub overrides_from_source :
      Option (List PortMapping → PortMapObservation × List Failure)
      → List PortMapping
      → List PortOverride × List Failure
  overrides_from_source source [] = ([], [])
  overrides_from_source none (m ∷ ms) = ([], missing_source ∷ [])
  overrides_from_source (some source) (m ∷ ms) =
      mapped (m ∷ ms) (source (observe_port_mappings (m ∷ ms)))
