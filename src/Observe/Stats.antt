-- ===== src/Observe/Stats.antt =====
-- internal/observe/snapshot_stats.go, without the reader of sysfs: counters of an interface and a port.
use unifi_stubd.Prelude.{Bool, true, not, ◌||◌}
use unifi_stubd.Device.{Port}
use unifi_stubd.Device.Override.{is_zero}
use unifi_stubd.Observe.{InterfaceStats}

-- `hasCounters`.
unfoldable pub has_counters : InterfaceStats → Bool
has_counters s =
    s.counters_set
    || not (is_zero s.rx_bytes)
    || not (is_zero s.tx_bytes)
    || not (is_zero s.rx_packets)
    || not (is_zero s.tx_packets)
    || not (is_zero s.rx_errors)
    || not (is_zero s.tx_errors)

-- `applyInterfaceStatsToPort`.
unfoldable pub apply_interface_stats_to_port : Port → InterfaceStats → Port
apply_interface_stats_to_port p s = record p {
  rx_bytes = s.rx_bytes;
  tx_bytes = s.tx_bytes;
  rx_packets = s.rx_packets;
  tx_packets = s.tx_packets;
  rx_errors = s.rx_errors;
  tx_errors = s.tx_errors;
  counters_set = true;
}
