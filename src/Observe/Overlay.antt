-- ===== src/Observe/Overlay.antt =====
-- internal/observe/snapshot_apply.go: what was observed of a member, laid over one port.
use unifi_stubd.Prelude.{false, ◌&&◌, List, [], Option, none, some, if◌then◌else◌}
use unifi_stubd.Prelude.Int.{pos, ltb_ℤ}
use unifi_stubd.Prelude.Text.{Bytes, is_empty, trim_space}
use unifi_stubd.Device.{Port}
use unifi_stubd.Observe.{InterfaceStats, PortObservation}
use unifi_stubd.Observe.Stats.{has_counters, apply_interface_stats_to_port}
use unifi_stubd.Observe.Classify.{find_member}
use unifi_stubd.Observe.Macs.{is_enabled}

-- `clearObservedPortState`.
unfoldable pub clear_observed_port_state : Port → Port
clear_observed_port_state p = record p {
  up = false;
  speed = pos 0;
  macs = [];
  counters_set = false;
  rx_bytes = pos 0;
  tx_bytes = pos 0;
  rx_packets = pos 0;
  tx_packets = pos 0;
  rx_errors = pos 0;
  tx_errors = pos 0;
}

abbrev pub with_counters : InterfaceStats → Port → Port
with_counters stats p = if has_counters stats then apply_interface_stats_to_port p stats else p

-- What `applyMemberPortObservation` does with a cleared port and the observation that was found.
abbrev pub observed : Option PortObservation → Port → Port
observed none p = p
observed (some o) p =
    let iface = trim_space o.interface in
    let media = trim_space o.media in
    let up = is_enabled o.up in
    with_counters o.stats (record p {
      interface = if is_empty iface then p.interface else iface;
      up = up;
      speed = if up && ltb_ℤ (pos 0) o.speed_mbps then o.speed_mbps else p.speed;
      media = if is_empty media then p.media else media;
    })

-- `applyMemberPortObservation`.
unfoldable pub apply_member_port_observation : List (Bytes × PortObservation) → Bytes → Port → Port
apply_member_port_observation observations name p =
    observed (find_member name observations) (clear_observed_port_state p)
