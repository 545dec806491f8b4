-- ===== src/Observe/Apply/Shown.antt =====
-- The changes of ports that assign members to them.
use mathlib.Core.Path.{subst}
use unifi_stubd.Prelude.{
  ℕ, ◌≡◌, refl, sym, ◌∙◌, inr, Bool, true, false, List, [], ◌++◌, Option, none, some, if◌then◌else◌,
}
use unifi_stubd.Prelude.Text.{Bytes}
use unifi_stubd.Device.{MacTableEntry, Port}
use unifi_stubd.Observe.{InterfaceStats, PortObservation, Snapshot}
use unifi_stubd.Observe.Stats.{has_counters, apply_interface_stats_to_port}
use unifi_stubd.Observe.Classify.{find_member}
use unifi_stubd.Observe.Macs.{is_enabled}
use unifi_stubd.Observe.Overlay.{
  clear_observed_port_state, with_counters, observed, apply_member_port_observation,
}
use unifi_stubd.Observe.Apply.{uplink_member, access_member}
use unifi_stubd.Observe.Apply.Tracked.{restored, AllLearned, UpReported, Shows}

counters_kept :
    (b : Bool) (stats : InterfaceStats) (o p : Port)
    → restored o (if b then apply_interface_stats_to_port p stats else p) ≡ restored o p
unfolding apply_interface_stats_to_port
counters_kept true stats o p = refl
counters_kept false stats o p = refl

counters_up :
    (b : Bool) (stats : InterfaceStats) (p : Port)
    → (if b then apply_interface_stats_to_port p stats else p).up ≡ p.up
unfolding apply_interface_stats_to_port
counters_up true stats p = refl
counters_up false stats p = refl

counters_macs :
    (b : Bool) (stats : InterfaceStats) (p : Port)
    → (if b then apply_interface_stats_to_port p stats else p).macs ≡ p.macs
unfolding apply_interface_stats_to_port
counters_macs true stats p = refl
counters_macs false stats p = refl

pub with_counters_kept :
    (stats : InterfaceStats) (o p : Port) → restored o (with_counters stats p) ≡ restored o p
with_counters_kept stats o p = counters_kept (has_counters stats) stats o p

pub up-with_counters : (stats : InterfaceStats) (p : Port) → (with_counters stats p).up ≡ p.up
up-with_counters stats p = counters_up (has_counters stats) stats p

macs-with_counters : (stats : InterfaceStats) (p : Port) → (with_counters stats p).macs ≡ p.macs
macs-with_counters stats p = counters_macs (has_counters stats) stats p

pub enabled_some : (b : Option Bool) → is_enabled b ≡ true → b ≡ some true
enabled_some none h = cc
enabled_some (some true) h = refl
enabled_some (some false) h = cc

observed_kept :
    (found : Option PortObservation) (o p : Port) → restored o (observed found p) ≡ restored o p
observed_kept none o p = refl
observed_kept (some seen) o p = with_counters_kept seen.stats o _

observed_macs : (found : Option PortObservation) (p : Port) → (observed found p).macs ≡ p.macs
observed_macs none p = refl
observed_macs (some seen) p = macs-with_counters seen.stats _

observed_up :
    (found : Option PortObservation) (p : Port)
    → p.up ≡ false
    → (observed found p).up ≡ true
    → (o : PortObservation) × (found ≡ some o) × (o.up ≡ some true)
observed_up none p off h = cc
observed_up (some seen) p off h =
    (seen, refl, enabled_some seen.up (sym (up-with_counters seen.stats _) ∙ h))

module _ (s : Snapshot) where
  member_kept :
      (name : Bytes) (o p : Port)
      → restored o (apply_member_port_observation s.member_ports name p) ≡ restored o p
  unfolding apply_member_port_observation clear_observed_port_state
  member_kept name o p =
      observed_kept (find_member name s.member_ports) o (clear_observed_port_state p)

  member_macs :
      (name : Bytes) (p : Port) → (apply_member_port_observation s.member_ports name p).macs ≡ []
  unfolding apply_member_port_observation clear_observed_port_state
  member_macs name p = observed_macs (find_member name s.member_ports) (clear_observed_port_state p)

  member_up :
      (name : Bytes) (p : Port)
      → (apply_member_port_observation s.member_ports name p).up ≡ true
      → UpReported s
  unfolding apply_member_port_observation clear_observed_port_state
  member_up name p h =
      let (o, found, up) =
        observed_up (find_member name s.member_ports) (clear_observed_port_state p) refl h in
      inr (name, o, found, up)

  pub uplink_member-Shows : (name : Bytes) → Shows s (uplink_member s name)
  uplink_member-Shows name = record {
    same_rest = λ o p. member_kept name o p;
    only_learned = λ p. subst (AllLearned s) (sym (member_macs name p)) tt;
    only_reported = λ p h. member_up name p h;
  }

  pub access_member-Shows :
      (uplink : ℕ) (name : Bytes) (entries : List MacTableEntry) (index : ℕ)
      → AllLearned s entries
      → Shows s (access_member s uplink name entries index)
  access_member-Shows uplink name entries index learned = record {
    same_rest = λ o p. member_kept name o p;
    only_learned = λ p.
        subst (λ (es : List MacTableEntry). AllLearned s (es ++ entries)) (sym (member_macs name p))
          learned;
    only_reported = λ p h. member_up name p h;
  }
