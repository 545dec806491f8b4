-- ===== src/Device/Mac.antt =====
-- `net.ParseMAC` and `net.HardwareAddr.String`, which topology.go and override_fields.go call.
pub mod RoundTrip
use unifi_stubd.Prelude.{
  ℕ, zero, suc, ◌+◌, ◌*◌, ◌/◌, ◌%◌, Bool, true, false, ◌||◌, ◌==◌, List, [], ◌∷◌, Option, none,
  some, length, get_or, ltb, if◌then◌else◌,
}
use unifi_stubd.Prelude.Text.{Bytes}
use unifi_stubd.Prelude.Text.Hex.{hex_value, hex_digit, pair}

abbrev one_byte : Option ℕ → Option ℕ → Option (List ℕ)
one_byte high low = pair high low (some [])

abbrev pub behind : Bool → Option (List ℕ) → Option (List ℕ)
behind true rest = rest
behind false rest = none

-- Pairs of digits with a separator between them.
unfoldable pub mac_groups : ℕ → Bytes → Option (List ℕ)
mac_groups sep [] = none
mac_groups sep (a ∷ []) = none
mac_groups sep (a ∷ b ∷ []) = one_byte (hex_value a) (hex_value b)
mac_groups sep (a ∷ b ∷ c ∷ s) =
    pair (hex_value a) (hex_value b) (behind (c == sep) (mac_groups sep s))

-- Groups of four digits with dots between them.
unfoldable pub dot_groups : Bytes → Option (List ℕ)
dot_groups (a ∷ b ∷ c ∷ d ∷ []) =
    pair (hex_value a) (hex_value b) (one_byte (hex_value c) (hex_value d))
dot_groups (a ∷ b ∷ c ∷ d ∷ e ∷ s) =
    pair (hex_value a) (hex_value b)
      (pair (hex_value c) (hex_value d) (behind (e == b'.') (dot_groups s)))
dot_groups _ = none

abbrev pub is_mac_length : ℕ → Bool
is_mac_length n = n == 6 || n == 8 || n == 20

abbrev pub sized : Option (List ℕ) → Option (List ℕ)
sized none = none
sized (some hw) = if is_mac_length (length hw) then some hw else none

-- `net.ParseMAC`.
unfoldable pub parse_mac : Bytes → Option (List ℕ)
unfolding mac_groups dot_groups
parse_mac s =
    let sep = get_or s 2 0 in
    if ltb (length s) 14
    then none
    else if sep == b':' || sep == b'-'
    then sized (mac_groups sep s)
    else if get_or s 4 0 == b'.'
    then sized (dot_groups s)
    else none

-- `net.HardwareAddr.String`.
unfoldable pub mac_string : List ℕ → Bytes
mac_string [] = []
mac_string (b ∷ []) = hex_digit (b / 16) ∷ hex_digit (b % 16) ∷ []
mac_string (b ∷ c ∷ bs) = hex_digit (b / 16) ∷ hex_digit (b % 16) ∷ b':' ∷ mac_string (c ∷ bs)
