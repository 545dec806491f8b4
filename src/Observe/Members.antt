-- ===== src/Observe/Members.antt =====
-- internal/observe/snapshot_members.go: the order in which members get their ports. `sort.Slice` is an
-- insertion sort, which leaves names of the same key in the order of the map.
use unifi_stubd.Prelude.{
  ℕ, Bool, not, ◌&&◌, ◌||◌, ◌==◌, ltb, leb, List, [], ◌∷◌, Option, none, some, if◌then◌else◌,
}
use unifi_stubd.Prelude.Int.{ℤ, pos, ltb_ℤ}
use unifi_stubd.Prelude.Text.{Bytes, codes, same, is_empty, has_prefix, text_less}
use unifi_stubd.Prelude.Text.Decimal.{atoi}
use unifi_stubd.Prelude.Maps.{keys}
use unifi_stubd.Device.{MacTableEntry}
use unifi_stubd.Observe.Classify.{member_name_key}

-- `isUplinkDevice`.
unfoldable pub is_uplink_device : Bytes → Bytes → Bool
is_uplink_device raw iface =
    let name = member_name_key raw in not (is_empty name) && same name (member_name_key iface)

-- `isBridgeDevice`.
unfoldable pub is_bridge_device : Bytes → Bytes → Bool
is_bridge_device raw bridge_name =
    let name = member_name_key raw in not (is_empty name) && same name (member_name_key bridge_name)

abbrev pub is_digit : ℕ → Bool
is_digit c = leb b'0' c && leb c b'9'

abbrev pub leading_digits : Bytes → Bytes
leading_digits [] = []
leading_digits (c ∷ s) = let rest = leading_digits s in if is_digit c then c ∷ rest else []

abbrev pub first_digits : Bytes → Bytes
first_digits [] = []
first_digits (c ∷ s) =
    let rest = first_digits s in if is_digit c then leading_digits (c ∷ s) else rest

abbrev pub number_or_zero : Option ℤ → ℤ
number_or_zero none = pos 0
number_or_zero (some n) = n

-- `firstNumber`.
unfoldable pub first_number : Bytes → ℤ
first_number value = number_or_zero (atoi (first_digits value))

-- `sortKey`.
pub record SortKey : Type 0 where
  pub rank : ℕ
  pub number : ℤ
  pub name : Bytes

-- `deviceSortKey`.
unfoldable pub device_sort_key : Bytes → Bytes → Bytes → SortKey
device_sort_key raw iface bridge_name =
    let name = member_name_key raw in
    let rank =
      if is_uplink_device name iface
      then 0
      else if is_bridge_device name bridge_name
      then 90
      else if has_prefix name (codes "tap")
      then 10
      else if has_prefix name (codes "veth")
      then 20
      else if has_prefix name (codes "fwln")
          || has_prefix name (codes "fwpr")
          || has_prefix name (codes "fwbr")
      then 30
      else 50 in
    record { rank = rank; number = first_number name; name = name }

abbrev pub key_less : SortKey → SortKey → Bool
key_less left right =
    if not (left.rank == right.rank)
    then ltb left.rank right.rank
    else if ltb_ℤ left.number right.number || ltb_ℤ right.number left.number
    then ltb_ℤ left.number right.number
    else text_less left.name right.name

module _ (iface bridge_name : Bytes) where
  abbrev pub insert_name : Bytes → List Bytes → List Bytes
  insert_name name [] = name ∷ []
  insert_name name (other ∷ names) =
      let rest = insert_name name names in
      if key_less (device_sort_key other iface bridge_name) (device_sort_key name iface bridge_name)
      then other ∷ rest
      else name ∷ other ∷ names

  abbrev pub sort_names : List Bytes → List Bytes
  sort_names [] = []
  sort_names (name ∷ names) = insert_name name (sort_names names)

-- `sortedDeviceNames`.
unfoldable pub sorted_device_names : List (Bytes × List MacTableEntry) → Bytes → Bytes → List Bytes
sorted_device_names macs iface bridge_name = sort_names iface bridge_name (keys macs)
