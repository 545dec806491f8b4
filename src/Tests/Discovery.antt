-- ===== src/Tests/Discovery.antt =====
-- The announcement of one device.
use unifi_stubd.Prelude.{◌≡◌, refl, suc, true, some, [], ◌∷◌, length, ok}
use unifi_stubd.Prelude.Text.{Bytes, codes}
use unifi_stubd.Discovery.{
  Announcement, to4, records, write_tlvs, serial_from_mac, marshal_ipv4, marshal_binary,
}
use unifi_stubd.Discovery.RoundTrip.{IsPacket, read_tlvs, marshal_binary-read}

abbrev pub device : Announcement
device = record {
  mac = 0 ∷ 17 ∷ 34 ∷ 51 ∷ 68 ∷ 85 ∷ [];
  ip = 10 ∷ 0 ∷ 0 ∷ 2 ∷ [];
  model = codes "USW";
  version = codes "7.0";
  hostname = [];
  is_default = true;
  uptime = 5;
  sequence = 1;
}

abbrev packet : Bytes
packet =
    2 ∷ 6 ∷ 0 ∷ 67 ∷ 2 ∷ 0 ∷ 10 ∷ 0 ∷ 17 ∷ 34 ∷ 51 ∷ 68 ∷ 85 ∷ 10 ∷ 0 ∷ 0 ∷ 2 ∷ 1 ∷ 0 ∷ 6 ∷ 0 ∷ 17
    ∷ 34 ∷ 51 ∷ 68 ∷ 85 ∷ 10 ∷ 0 ∷ 4 ∷ 0 ∷ 0 ∷ 0 ∷ 5 ∷ 0x16 ∷ 0 ∷ 3 ∷ b'7' ∷ b'.' ∷ b'0' ∷ 0x15 ∷ 0
    ∷ 3 ∷ b'U' ∷ b'S' ∷ b'W' ∷ 0x13 ∷ 0 ∷ 12 ∷ b'0' ∷ b'0' ∷ b'1' ∷ b'1' ∷ b'2' ∷ b'2' ∷ b'3' ∷ b'3'
    ∷ b'4' ∷ b'4' ∷ b'5' ∷ b'5' ∷ 0x12 ∷ 0 ∷ 4 ∷ 0 ∷ 0 ∷ 0 ∷ 1 ∷ 0x17 ∷ 0 ∷ 1 ∷ 1 ∷ []

packet_made : marshal_binary device ≡ ok packet
unfolding marshal_binary marshal_ipv4 to4 write_tlvs serial_from_mac
packet_made = refl

marshal_binary-read_example :
    (ip : Bytes) × (to4 device.ip ≡ some ip)
    × (length device.mac ≡ 6)
    × (payload : Bytes) × IsPacket packet payload
    × (read_tlvs (suc (length (records device ip))) payload ≡ some (records device ip))
marshal_binary-read_example = marshal_binary-read device packet packet_made
