-- ===== src/Observe/Apply.antt =====
-- internal/observe/snapshot_apply.go: a snapshot laid over the ports of the device. An index that no
-- port has is a panic, which is `none`.
pub mod Tracked
pub mod Shown
pub mod Assigned
pub mod Observed
use unifi_stubd.Prelude.{
  ℕ, zero, suc, ◌-◌, Bool, true, false, not, ◌&&◌, ◌||◌, ◌==◌, ltb, leb, List, [], ◌∷◌, ◌++◌,
  Option, none, some, map, length, if◌then◌else◌,
}
use unifi_stubd.Prelude.Int.{ℤ, pos, ltb_ℤ, pos_part}
use unifi_stubd.Prelude.Text.{Bytes, is_empty, trim_space}
use unifi_stubd.Prelude.Maps.{lookup, is_empty_map}
use unifi_stubd.Device.{MacTableEntry, Port}
use unifi_stubd.Observe.{InterfaceStats, PortObservation, Snapshot}
use unifi_stubd.Observe.Stats.{has_counters, apply_interface_stats_to_port}
use unifi_stubd.Observe.Overlay.{
  with_counters, apply_member_port_observation, clear_observed_port_state,
}
use unifi_stubd.Observe.Classify.{find_member, member_role}
use unifi_stubd.Observe.Members.{sorted_device_names, number_or_zero}
use unifi_stubd.Observe.Macs.{
  RemoteMacs, is_enabled, filter_remote_mac_entries, normalize_remote_mac_set, is_left_out,
  leads_upstream, remote_macs_by_bridge_member, entries_of,
}

abbrev pub in_range : ℤ → ℕ → Bool
in_range index count = not (ltb_ℤ index (pos 1) || ltb_ℤ (pos count) index)

-- `validPinnedPortSet`.
unfoldable pub valid_pinned_port_set : List (Bytes × ℤ) → ℕ → List ℕ
valid_pinned_port_set [] count = []
valid_pinned_port_set ((name, index) ∷ pins) count =
    let rest = valid_pinned_port_set pins count in
    if in_range index count then pos_part index ∷ rest else rest

abbrev pub has_index : ℕ → List ℕ → Bool
has_index index [] = false
has_index index (i ∷ is) = (i == index) || has_index index is

-- The ports that are neither the uplink nor pinned.
unfoldable pub access_indexes : ℕ → List ℕ → List Port → List ℕ
access_indexes uplink pinned [] = []
access_indexes uplink pinned (p ∷ ports) =
    let rest = access_indexes uplink pinned ports in
    if not (p.index == uplink) && not (has_index p.index pinned) then p.index ∷ rest else rest

-- A change of the port at a position.
abbrev pub change_at : ℕ → (Port → Port) → List Port → List Port
change_at k f [] = []
change_at zero f (p ∷ ports) = f p ∷ ports
change_at (suc k) f (p ∷ ports) = p ∷ change_at k f ports

-- The state of the loop of `applyDeviceMACs`: `accessIndexes` from `nextAccess` on, and `usedPorts`.
pub record Assignment : Type 0 where
  pub ports : List Port
  pub free : List ℕ
  pub used : List ℕ

abbrev pub named : Bytes → Port → Port
named name p = record p { name = if is_empty name then p.name else name }

abbrev pub uplink_member : Snapshot → Bytes → Port → Port
uplink_member s name p = named name (apply_member_port_observation s.member_ports name p)

abbrev pub access_member : Snapshot → ℕ → Bytes → List MacTableEntry → ℕ → Port → Port
access_member s uplink name entries index p =
    let shown = apply_member_port_observation s.member_ports name p in
    record shown {
      macs = shown.macs ++ entries;
      name = if is_empty name || index == uplink then shown.name else name;
    }

-- The index for an access member: its pin, the next free one or that of the uplink; and what is free then.
abbrev pub next_free : ℕ → List ℕ → ℕ × List ℕ
next_free uplink [] = (uplink, [])
next_free uplink (index ∷ free) = (index, free)

abbrev pub chosen_index : ℕ → ℕ → ℤ → List ℕ → ℕ × List ℕ
chosen_index count uplink pin free =
    if in_range pin count then (pos_part pin, free) else next_free uplink free

abbrev pub or_uplink : ℕ → ℕ → ℕ → ℕ
or_uplink count uplink index = if ltb index 1 || ltb count index then uplink else index

abbrev pub place : Snapshot → ℕ → Bytes → List MacTableEntry → Assignment → ℕ × List ℕ → Assignment
place s uplink name entries st (chosen, free) =
    let index = or_uplink (length st.ports) uplink chosen in
    record {
      ports = change_at (index - 1) (access_member s uplink name entries index) st.ports;
      free = free;
      used = index ∷ st.used;
    }

abbrev pub no_entries : List MacTableEntry → Bool
no_entries [] = true
no_entries (e ∷ es) = false

abbrev pub place_uplink : Snapshot → ℕ → Bytes → Assignment → Assignment
place_uplink s uplink name st = record st {
  ports = change_at (uplink - 1) (uplink_member s name) st.ports;
  used = uplink ∷ st.used;
}

abbrev pub place_access : Snapshot → ℕ → Bytes → List MacTableEntry → Assignment → Assignment
place_access s uplink name entries st = place s uplink name entries st (
    chosen_index (length st.ports) uplink
      (number_or_zero (lookup (trim_space name) s.member_port_map)) st.free)

-- One round of the loop of `applyDeviceMACs`.
unfoldable pub assign_member : Snapshot → RemoteMacs → ℕ → Bytes → Assignment → Assignment
assign_member s remote uplink name st =
    let entries = entries_of (lookup name s.device_macs) in
    let kept = filter_remote_mac_entries entries remote in
    if no_entries entries || is_left_out (member_role s.member_roles name)
    then st
    else if leads_upstream s.member_roles s.interface name
    then place_uplink s uplink name st
    else if no_entries kept
    then st
    else place_access s uplink name kept st

unfoldable pub assign_members : Snapshot → RemoteMacs → ℕ → List Bytes → Assignment → Assignment
assign_members s remote uplink [] st = st
assign_members s remote uplink (name ∷ names) st =
    assign_members s remote uplink names (assign_member s remote uplink name st)

-- The last loop of `applyDeviceMACs`.
unfoldable pub clear_unused : List ℕ → List Port → List Port
clear_unused used [] = []
clear_unused used (p ∷ ports) =
    (if has_index p.index used then p else clear_observed_port_state p) ∷ clear_unused used ports

abbrev pub without_macs : Port → Port
without_macs p = record p { macs = [] }

abbrev pub or_behind_uplink : Snapshot → RemoteMacs → RemoteMacs
or_behind_uplink s remote =
    if is_empty_map remote
    then remote_macs_by_bridge_member s.device_macs s.member_roles s.interface
    else remote

-- The addresses behind the uplink that `applyDeviceMACs` leaves out.
unfoldable pub remote_of : Snapshot → RemoteMacs
remote_of s = or_behind_uplink s (normalize_remote_mac_set s.remote_macs)

abbrev pub assigned : Snapshot → ℕ → List Port → Assignment
assigned s uplink ports =
    assign_members s (remote_of s) uplink (sorted_device_names s.device_macs s.interface s.bridge)
      (record {
        ports = map without_macs ports;
        free = access_indexes uplink (valid_pinned_port_set s.member_port_map (length ports)) ports;
        used = uplink ∷ [];
      })

-- `applyDeviceMACs`.
unfoldable pub apply_device_macs : Snapshot → ℕ → List Port → List Port
apply_device_macs s uplink ports = let st = assigned s uplink ports in clear_unused st.used st.ports

-- `uplinkPortIndex`.
unfoldable pub uplink_port_index : List Port → ℕ
uplink_port_index [] = 1
uplink_port_index (p ∷ ports) =
    let rest = uplink_port_index ports in if p.uplink then p.index else rest

-- What `Apply` does first, with the port of the uplink.
abbrev pub observed_uplink : Snapshot → Port → Port
observed_uplink s p =
    let up = is_enabled s.up in
    with_counters s.stats (record p { up = up; speed = if up then s.stats.speed_mbps else pos 0 })

abbrev pub with_macs : List MacTableEntry → Port → Port
with_macs entries p = if no_entries entries then p else record p { macs = entries }

abbrev pub apply_at : Snapshot → ℕ → List Port → Option (List Port)
apply_at s index ports =
    let out = change_at (index - 1) (observed_uplink s) ports in
    if ltb index 1 || ltb (length ports) index
    then none
    else some (
        if is_empty_map s.device_macs
        then change_at (index - 1) (with_macs s.macs) out
        else apply_device_macs s index out)

abbrev pub uplink_index : Snapshot → List Port → ℕ
uplink_index s ports =
    if in_range s.uplink_port_index (length ports)
    then pos_part s.uplink_port_index
    else uplink_port_index ports

-- `Apply`.
unfoldable pub apply_snapshot : List Port → Snapshot → Option (List Port)
apply_snapshot [] s = some []
apply_snapshot (p ∷ ports) s = apply_at s (uplink_index s (p ∷ ports)) (p ∷ ports)
