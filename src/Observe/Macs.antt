-- ===== src/Observe/Macs.antt =====
-- internal/observe/snapshot_macs.go: which learned addresses belong to the represented switch.
use unifi_stubd.Prelude.{
  Bool, true, false, not, ◌&&◌, ◌||◌, List, [], ◌∷◌, ◌++◌, Option, none, some, map, ℕ,
  if◌then◌else◌,
}
use unifi_stubd.Prelude.Text.{Bytes, is_empty, trim_space, lower_byte}
use unifi_stubd.Prelude.Maps.{lookup, put, is_empty_map}
use unifi_stubd.Device.{MacTableEntry}
use unifi_stubd.Device.Mac.{parse_mac, mac_string}
use unifi_stubd.Observe.{BridgeMemberRole}
use unifi_stubd.Observe.Classify.{Roles, member_role}
use unifi_stubd.Observe.Members.{is_uplink_device, sorted_device_names}

-- A map from addresses to whether they are remote.
abbrev pub RemoteMacs : Type 0
RemoteMacs = List (Bytes × Bool)

abbrev pub DeviceMacs : Type 0
DeviceMacs = List (Bytes × List MacTableEntry)

abbrev pub text_of_mac : Option (List ℕ) → Bytes
text_of_mac none = []
text_of_mac (some hw) = map lower_byte (mac_string hw)

-- `normalizedMACKey`.
unfoldable pub normalized_mac_key : Bytes → Bytes
normalized_mac_key value = text_of_mac (parse_mac (trim_space value))

abbrev pub is_enabled : Option Bool → Bool
is_enabled none = false
is_enabled (some enabled) = enabled

-- An entry is skipped by `filterRemoteMACEntries`.
unfoldable pub is_remote : RemoteMacs → MacTableEntry → Bool
is_remote remote entry =
    let key = normalized_mac_key entry.mac in not (is_empty key) && is_enabled (lookup key remote)

abbrev pub local_entries : RemoteMacs → List MacTableEntry → List MacTableEntry
local_entries remote [] = []
local_entries remote (entry ∷ entries) =
    let rest = local_entries remote entries in if is_remote remote entry then rest else entry ∷ rest

-- `filterRemoteMACEntries`.
unfoldable pub filter_remote_mac_entries : List MacTableEntry → RemoteMacs → List MacTableEntry
filter_remote_mac_entries entries remote =
    if is_empty_map remote then entries else local_entries remote entries

abbrev pub add_key : Bytes → RemoteMacs → RemoteMacs
add_key key remote = if is_empty key then remote else put key true remote

-- `normalizeRemoteMACSet`; a nil map and an empty one are read in the same way.
unfoldable pub normalize_remote_mac_set : RemoteMacs → RemoteMacs
normalize_remote_mac_set [] = []
normalize_remote_mac_set ((value, enabled) ∷ values) =
    let rest = normalize_remote_mac_set values in
    if enabled then add_key (normalized_mac_key value) rest else rest

abbrev pub add_entries : List MacTableEntry → RemoteMacs → RemoteMacs
add_entries [] remote = remote
add_entries (entry ∷ entries) remote =
    add_entries entries (add_key (normalized_mac_key entry.mac) remote)

abbrev pub is_uplink_role : BridgeMemberRole → Bool
is_uplink_role BridgeMemberRole.unknown = false
is_uplink_role BridgeMemberRole.uplink = true
is_uplink_role BridgeMemberRole.access = false
is_uplink_role BridgeMemberRole.bridge = false
is_uplink_role BridgeMemberRole.ignored = false

-- The bridge itself and ignored members have no port.
abbrev pub is_left_out : BridgeMemberRole → Bool
is_left_out BridgeMemberRole.unknown = false
is_left_out BridgeMemberRole.uplink = false
is_left_out BridgeMemberRole.access = false
is_left_out BridgeMemberRole.bridge = true
is_left_out BridgeMemberRole.ignored = true

-- The role of a member is that of the uplink, or its name is that of the interface of the uplink.
abbrev pub leads_upstream : Roles → Bytes → Bytes → Bool
leads_upstream roles iface name =
    is_uplink_role (member_role roles name) || is_uplink_device name iface

-- `RemoteMACsByBridgeMember`.
unfoldable pub remote_macs_by_bridge_member : DeviceMacs → Roles → Bytes → RemoteMacs
remote_macs_by_bridge_member [] roles iface = []
remote_macs_by_bridge_member ((name, entries) ∷ members) roles iface =
    let rest = remote_macs_by_bridge_member members roles iface in
    if leads_upstream roles iface name then add_entries entries rest else rest

abbrev pub entries_of : Option (List MacTableEntry) → List MacTableEntry
entries_of none = []
entries_of (some entries) = entries

abbrev pub flattened : DeviceMacs → Roles → RemoteMacs → List Bytes → List MacTableEntry
flattened members roles remote [] = []
flattened members roles remote (name ∷ names) =
    let rest = flattened members roles remote names in
    if is_left_out (member_role roles name)
    then rest
    else filter_remote_mac_entries (entries_of (lookup name members)) remote ++ rest

-- `flattenDeviceMACsByRole`.
unfoldable pub flatten_device_macs_by_role :
    DeviceMacs → Roles → Bytes → Bytes → RemoteMacs → List MacTableEntry
flatten_device_macs_by_role members roles iface bridge_name remote =
    flattened members roles remote (sorted_device_names members iface bridge_name)
