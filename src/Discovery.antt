-- ===== src/Discovery.antt =====
-- internal/discovery/tlv.go: the announcement of a device as a sequence of type-length-value records.
pub mod RoundTrip
use unifi_stubd.Prelude.{
  ℕ, ◌/◌, ◌%◌, ◌+◌, ◌^◌, Bool, true, false, not, ◌&&◌, ◌||◌, Option, none, some, List, [], ◌∷◌,
  ◌++◌, length, ltb, take, drop, replicate, ◌==◌, if◌then◌else◌, Result, ok, err, reject, ◌>>◌,
}
use unifi_stubd.Prelude.Text.{Bytes, codes, same, is_empty, trim_space}
use unifi_stubd.Inform.Packet.{uint16_bytes, uint32_bytes}

abbrev pub tlv_packet_version : ℕ
tlv_packet_version = 0x02

abbrev pub packet_type : ℕ
packet_type = 0x06

pub record Announcement : Type 0 where
  pub mac : Bytes
  pub ip : Bytes
  pub model : Bytes
  pub version : Bytes
  pub hostname : Bytes
  pub is_default : Bool
  pub uptime : ℕ
  pub sequence : ℕ

pub data MarshalError : Type 0 where
  bad_mac : MarshalError
  not_ipv4 : MarshalError
  too_large : MarshalError

-- `net.IP.To4`: the four bytes of an IPv4 address in either of its two forms.
unfoldable pub to4 : Bytes → Option Bytes
to4 ip =
    if length ip == 4
    then some ip
    else if length ip == 16 && same (take 12 ip) (replicate 10 0 ++ 0xff ∷ 0xff ∷ [])
    then some (drop 12 ip)
    else none

-- `writeTLV`.
abbrev pub write_tlv : ℕ → Bytes → Bytes
write_tlv typ value = typ ∷ uint16_bytes (length value % 2 ^ 16) ++ value

abbrev pub upper_hex_digit : ℕ → ℕ
upper_hex_digit v = if ltb v 10 then b'0' + v else 55 + v

-- `serialFromMAC`.
unfoldable pub serial_from_mac : Bytes → Bytes
serial_from_mac [] = []
serial_from_mac (b ∷ mac) =
    upper_hex_digit (b / 16) ∷ upper_hex_digit (b % 16) ∷ serial_from_mac mac

-- The records of an announcement, in their order. There is one for a hostname only if it is set.
abbrev pub records : Announcement → Bytes → List (ℕ × Bytes)
records a ip =
    (0x02, a.mac ++ ip)
      ∷ (0x01, a.mac)
      ∷ (0x0a, uint32_bytes a.uptime)
      ∷ (if is_empty a.hostname then [] else (0x0b, a.hostname) ∷ [])
    ++ ((0x16, a.version)
        ∷ (0x15, a.model)
        ∷ (0x13, serial_from_mac a.mac)
        ∷ (0x12, uint32_bytes a.sequence)
        ∷ (0x17, (if a.is_default then 1 else 0) ∷ [])
        ∷ [])

unfoldable pub write_tlvs : List (ℕ × Bytes) → Bytes
write_tlvs [] = []
write_tlvs ((typ, value) ∷ rs) = write_tlv typ value ++ write_tlvs rs

-- `Announcement.MarshalBinary` with the address that `To4` gives.
unfoldable pub marshal_ipv4 : Announcement → Option Bytes → Result MarshalError Bytes
marshal_ipv4 a none = err MarshalError.not_ipv4
marshal_ipv4 a (some ip) =
    let payload = write_tlvs (records a ip) in
    if ltb 0xffff (length payload)
    then err MarshalError.too_large
    else ok (tlv_packet_version ∷ packet_type ∷ uint16_bytes (length payload % 2 ^ 16) ++ payload)

-- `Announcement.MarshalBinary`.
unfoldable pub marshal_binary : Announcement → Result MarshalError Bytes
marshal_binary a =
    if not (length a.mac == 6) then err MarshalError.bad_mac else marshal_ipv4 a (to4 a.ip)

-- `cleanTargets`.
unfoldable pub clean_targets : List Bytes → List Bytes
clean_targets [] = []
clean_targets (t ∷ ts) =
    let rest = clean_targets ts in if is_empty (trim_space t) then rest else trim_space t ∷ rest
