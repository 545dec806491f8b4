-- ===== src/Observe/Classify.antt =====
-- internal/observe/classify.go: the roles of the members of a bridge.
pub mod Marked
pub mod Ignored
use unifi_stubd.Prelude.{
  Bool, true, false, not, ◌&&◌, ◌||◌, Option, none, some, List, [], ◌∷◌, map, if◌then◌else◌,
}
use unifi_stubd.Prelude.Text.{Bytes, codes, same, is_empty, has_prefix, trim_space, lower_byte}
use unifi_stubd.Prelude.Maps.{lookup, put, keys, member}
use unifi_stubd.Device.{MacTableEntry}
use unifi_stubd.Observe.{BridgeMemberRole}

abbrev pub Roles : Type 0
Roles = List (Bytes × BridgeMemberRole)

-- `memberNameKey`.
abbrev pub member_name_key : Bytes → Bytes
member_name_key value = map lower_byte (trim_space value)

abbrev pub has_any_prefix : Bytes → List Bytes → Bool
has_any_prefix name [] = false
has_any_prefix name (p ∷ ps) = has_prefix name p || has_any_prefix name ps

-- `isVirtualAccessMember`.
unfoldable pub is_virtual_access_member : Bytes → Bool
is_virtual_access_member name = has_any_prefix (member_name_key name) (
    codes "tap"
    ∷ codes "veth"
    ∷ codes "fwpr"
    ∷ codes "fwln"
    ∷ codes "fwbr"
    ∷ codes "epair"
    ∷ codes "vnet"
    ∷ [])

-- `isPhysicalMember`.
unfoldable pub is_physical_member : Bytes → Bool
is_physical_member name = has_any_prefix (member_name_key name) (
    codes "eth"
    ∷ codes "eno"
    ∷ codes "ens"
    ∷ codes "enp"
    ∷ codes "enx"
    ∷ codes "bond"
    ∷ codes "team"
    ∷ codes "lagg"
    ∷ codes "em"
    ∷ codes "igb"
    ∷ codes "ix"
    ∷ codes "ixl"
    ∷ codes "ice"
    ∷ codes "bnxt"
    ∷ codes "bge"
    ∷ codes "re"
    ∷ codes "vtnet"
    ∷ [])

-- The name of a member is that of a configured interface.
abbrev pub named_as : Bytes → Bytes → Bool
named_as name configured =
    not (is_empty (member_name_key configured)) && same name (member_name_key configured)

-- `ClassifyMember`.
unfoldable pub classify_member : Bytes → Bytes → Bytes → BridgeMemberRole
classify_member raw bridge_name uplink_interface =
    let name = member_name_key raw in
    if is_empty name
    then BridgeMemberRole.unknown
    else if named_as name bridge_name
    then BridgeMemberRole.bridge
    else if named_as name uplink_interface
    then BridgeMemberRole.uplink
    else if is_virtual_access_member name
    then BridgeMemberRole.access
    else BridgeMemberRole.unknown

abbrev pub is_unknown : BridgeMemberRole → Bool
is_unknown BridgeMemberRole.unknown = true
is_unknown BridgeMemberRole.uplink = false
is_unknown BridgeMemberRole.access = false
is_unknown BridgeMemberRole.bridge = false
is_unknown BridgeMemberRole.ignored = false

-- The loop of `ClassifyMembers` over the names: the roles, and the names that may be the uplink.
unfoldable pub classified : Bytes → Bytes → List Bytes → Roles × List Bytes → Roles × List Bytes
classified bridge_name uplink_interface [] found = found
classified bridge_name uplink_interface (name ∷ names) (roles, candidates) =
    let role = classify_member name bridge_name uplink_interface in
    classified bridge_name uplink_interface names (
      put name role roles,
      if is_empty (trim_space uplink_interface) && is_unknown role && is_physical_member name
          then name ∷ candidates
          else candidates,
    )

abbrev pub with_only_candidate : Bytes → Roles × List Bytes → Roles
with_only_candidate uplink_interface (roles, []) = roles
with_only_candidate uplink_interface (roles, name ∷ []) =
    if is_empty (trim_space uplink_interface) then put name BridgeMemberRole.uplink roles else roles
with_only_candidate uplink_interface (roles, name ∷ other ∷ names) = roles

-- `ClassifyMembers`; a nil map and an empty one are read in the same way.
unfoldable pub classify_members : List (Bytes × List MacTableEntry) → Bytes → Bytes → Roles
classify_members macs bridge_name uplink_interface =
    with_only_candidate uplink_interface
      (classified bridge_name uplink_interface (keys macs) ([], []))

-- The first entry whose key, trimmed and lowered, is a name.
abbrev pub lookup_folded : {V : Type 0} → Bytes → List (Bytes × V) → Option V
lookup_folded name [] = none
lookup_folded name ((k, v) ∷ m) =
    let rest = lookup_folded name m in if same (member_name_key k) name then some v else rest

abbrev pub or_else : {V : Type 0} → Option V → Option V → Option V
or_else none other = other
or_else (some v) other = some v

-- How `memberRole` and `memberPortObservation` find a member.
abbrev pub find_member : {V : Type 0} → Bytes → List (Bytes × V) → Option V
find_member name m = or_else (lookup (trim_space name) m) (lookup_folded (member_name_key name) m)

abbrev pub role_or_unknown : Option BridgeMemberRole → BridgeMemberRole
role_or_unknown none = BridgeMemberRole.unknown
role_or_unknown (some role) = role

-- `memberRole`.
unfoldable pub member_role : Roles → Bytes → BridgeMemberRole
member_role roles name = role_or_unknown (find_member name roles)

-- `ignoredMemberSet`.
unfoldable pub ignored_member_set : List Bytes → List Bytes
ignored_member_set [] = []
ignored_member_set (value ∷ values) =
    let rest = ignored_member_set values in
    let key = member_name_key value in if is_empty key || member key rest then rest else key ∷ rest

-- The first loop of `ApplyIgnoredMembers`.
unfoldable pub mark_ignored : List Bytes → Roles → Roles
mark_ignored hidden [] = []
mark_ignored hidden ((name, role) ∷ roles) =
    let rest = mark_ignored hidden roles in
    (name, if member (member_name_key name) hidden then BridgeMemberRole.ignored else role) ∷ rest

abbrev pub unless_found : Bytes → Option BridgeMemberRole → Roles → Roles
unless_found key none roles = put key BridgeMemberRole.ignored roles
unless_found key (some role) roles = roles

-- The second loop of `ApplyIgnoredMembers`, which looks for a role with `roleByMember`.
unfoldable pub add_ignored : List Bytes → Roles → Roles
add_ignored [] roles = roles
add_ignored (key ∷ hidden) roles =
    add_ignored hidden (unless_found key (lookup_folded (member_name_key key) roles) roles)

abbrev pub no_texts : List Bytes → Bool
no_texts [] = true
no_texts (t ∷ ts) = false

-- `ApplyIgnoredMembers`.
unfoldable pub apply_ignored_members : Roles → List Bytes → Roles
apply_ignored_members roles values =
    let hidden = ignored_member_set values in
    if no_texts hidden then roles else add_ignored hidden (mark_ignored hidden roles)
