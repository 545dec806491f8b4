-- ===== src/Observe/Fdb.antt =====
-- internal/adapters/linuxbridge/fdb.go and internal/observe/snapshot_fdb.go: the forwarding table of a
-- bridge. The input is the list of lines that bufio.Scanner gives, and `strings.Fields` and
-- `strings.ToLower` are those of ASCII texts.
pub mod Table
use unifi_stubd.Prelude.{
  ℕ, suc, Bool, true, false, not, ◌&&◌, ◌||◌, ◌==◌, leb, ◌%◌, List, [], ◌∷◌, ◌++◌, Option, none,
  some, map, if◌then◌else◌,
}
use unifi_stubd.Prelude.Int.{ℤ, pos}
use unifi_stubd.Prelude.Text.{Bytes, codes, same, is_empty, contains, trim_space, lower_byte}
use unifi_stubd.Prelude.Text.Decimal.{atoi}
use unifi_stubd.Prelude.Maps.{lookup, put, member}
use unifi_stubd.Device.{MacTableEntry}
use unifi_stubd.Device.Mac.{parse_mac}
use unifi_stubd.Observe.Macs.{DeviceMacs, entries_of}

pub record FdbEntry : Type 0 where
  pub mac : Bytes
  pub device : Bytes
  pub vlan : ℤ
  pub dynamic : Bool
  pub static : Bool
  pub local : Bool
  pub permanent : Bool
  pub self : Bool

abbrev pub is_field_space : ℕ → Bool
is_field_space c = c == b' ' || (leb 9 c && leb c 13)

-- A field that is begun, if it has a byte, before others.
abbrev pub close_field : Bytes → List Bytes → List Bytes
close_field [] fs = fs
close_field (c ∷ s) fs = (c ∷ s) ∷ fs

-- The field that a text begins with and the fields behind it.
abbrev pub split_fields : Bytes → Bytes × List Bytes
split_fields [] = ([], [])
split_fields (c ∷ s) =
    let (first, rest) = split_fields s in
    if is_field_space c then ([], close_field first rest) else (c ∷ first, rest)

-- `strings.Fields`.
unfoldable pub fields : Bytes → List Bytes
fields s = let (first, rest) = split_fields s in close_field first rest

abbrev pub vlan_or : ℤ → Option ℤ → ℤ
vlan_or old none = old
vlan_or old (some vlan) = vlan

-- A word and the one behind it.
abbrev pub take_pair : Bytes → Bytes → FdbEntry → FdbEntry
take_pair key value e =
    if same key (codes "dev")
    then record e { device = value }
    else if same key (codes "vlan")
    then record e { vlan = vlan_or e.vlan (atoi value) }
    else e

unfoldable pub take_pairs : List Bytes → FdbEntry → FdbEntry
take_pairs [] e = e
take_pairs (key ∷ []) e = e
take_pairs (key ∷ value ∷ words) e = take_pairs (value ∷ words) (take_pair key value e)

abbrev pub take_flag : Bytes → FdbEntry → FdbEntry
take_flag word e =
    if same word (codes "dynamic")
    then record e { dynamic = true }
    else if same word (codes "static")
    then record e { static = true }
    else if same word (codes "local")
    then record e { local = true }
    else if same word (codes "permanent")
    then record e { permanent = true }
    else if same word (codes "self")
    then record e { self = true }
    else e

unfoldable pub take_flags : List Bytes → FdbEntry → FdbEntry
take_flags [] e = e
take_flags (word ∷ words) e = take_flags words (take_flag word e)

abbrev pub entry_of_mac : Bytes → FdbEntry
entry_of_mac mac = record {
  mac = map lower_byte mac;
  device = [];
  vlan = pos 0;
  dynamic = false;
  static = false;
  local = false;
  permanent = false;
  self = false;
}

abbrev pub entry_of_fields : List Bytes → Option FdbEntry
entry_of_fields [] = none
entry_of_fields (mac ∷ words) =
    if contains mac (codes ":")
    then some (take_flags words (take_pairs words (entry_of_mac mac)))
    else none

abbrev pub before_entries : Option FdbEntry → List FdbEntry → List FdbEntry
before_entries none es = es
before_entries (some e) es = e ∷ es

-- `ParseFDB`.
unfoldable pub parse_fdb : List Bytes → List FdbEntry
parse_fdb [] = []
parse_fdb (line ∷ lines) = before_entries (entry_of_fields (fields line)) (parse_fdb lines)

-- The address is read, has a byte and is not one of a group.
abbrev pub is_unicast : Option (List ℕ) → Bool
is_unicast none = false
is_unicast (some []) = false
is_unicast (some (b ∷ bytes)) = b % 2 == 0

-- `learnedFDBEntry`.
unfoldable pub learned_fdb_entry : FdbEntry → Bool
learned_fdb_entry e =
    is_unicast (parse_mac e.mac)
    && not (e.local || e.permanent || e.self)
    && (e.dynamic || e.static || (not e.local && not e.permanent))

abbrev pub learned_entry : FdbEntry → MacTableEntry
learned_entry e = record {
  mac = e.mac;
  hostname = [];
  ip = [];
  age = pos 4;
  uptime = pos 1200;
  vlan = e.vlan;
  static = false;
  type_name = codes "client";
}

abbrev pub seen_key : Bytes → Bytes → Bytes
seen_key device mac = device ++ codes "|" ++ mac

-- The loop of `MACEntriesByDevice`, with `out` and `seen`.
abbrev pub grouped : List FdbEntry → DeviceMacs × List Bytes → DeviceMacs × List Bytes
grouped [] st = st
grouped (e ∷ es) (out, seen) =
    let name = trim_space e.device in
    let key = seen_key name e.mac in
    grouped es (
      if not (learned_fdb_entry e)
      then (out, seen)
      else if member key seen
      then (out, seen)
      else (put name (entries_of (lookup name out) ++ learned_entry e ∷ []) out, key ∷ seen))

-- `MACEntriesByDevice`.
unfoldable pub mac_entries_by_device : List FdbEntry → DeviceMacs
mac_entries_by_device es = let (out, seen) = grouped es ([], []) in out
