-- ===== src/Inform/Packet/Header.antt =====
-- The header that `makeHeader` writes is the header that `parsePacket` reads.
use unifi_stubd.Prelude.{
  ℕ, ◌+◌, ◌^◌, ◌≤◌, ◌<◌, ◌≡◌, refl, arith, true, false, ◌&&◌, ◌++◌, ltb, length, take, drop, cells,
  cells-eq, ok,
}
use unifi_stubd.Prelude.Text.{Bytes, same}
use unifi_stubd.Inform.Packet.{
  slice, make_header, parse_packet, uint16_at, uint32_at, uint16_bytes, uint32_bytes,
  flag_encrypted, flag_encrypted_gcm, gcm_tag_size, has_flag, unknown_bits,
  max_encoded_payload_bytes, magic,
}

-- The forty bytes, field by field.
pub make_header_lem :
    (mac : Bytes) (flags : ℕ) (iv : Bytes) (n : ℕ)
    → length mac ≡ 6
    → length iv ≡ 16
    → make_header mac flags iv n
      ≡ magic
        ++ (uint32_bytes 0
            ++ (mac ++ (uint16_bytes flags ++ (iv ++ (uint32_bytes 1 ++ uint32_bytes n)))))
unfolding make_header
make_header_lem mac flags iv n h k = rw (cells-eq 6 0 mac h, cells-eq 16 0 iv k) refl

pub length-make_header :
    (mac : Bytes) (flags : ℕ) (iv : Bytes) (n : ℕ)
    → length mac ≡ 6
    → length iv ≡ 16
    → length (make_header mac flags iv n) ≡ 40
unfolding make_header
length-make_header mac flags iv n h k = rw (cells-eq 6 0 mac h, cells-eq 16 0 iv k) refl

-- The tests of `parsePacket`, on a text whose fields are known.
parse_packet_of_fields :
    (raw mac : Bytes) (flags : ℕ) (iv payload : Bytes)
    → length raw ≡ 40 + length payload
    → same (slice raw 0 4) magic ≡ true
    → uint32_at raw 4 ≡ 0
    → uint32_at raw 32 ≡ 1
    → uint32_at raw 36 ≡ length payload
    → slice raw 8 14 ≡ mac
    → uint16_at raw 14 ≡ flags
    → slice raw 16 32 ≡ iv
    → drop 40 raw ≡ payload
    → length payload ≤ max_encoded_payload_bytes
    → has_flag flags flag_encrypted ≡ true
    → unknown_bits flags ≡ 0
    → (has_flag flags flag_encrypted_gcm && ltb (length payload) gcm_tag_size) ≡ false
    → parse_packet raw
      ≡ ok (record { mac = mac; flags = flags; iv = iv; payload = payload }, take 40 raw)
unfolding parse_packet
parse_packet_of_fields raw mac flags iv payload l m v w n a b c d bound e u g =
    rw (m, v, w, n, a, b, c, d) (ground arith)

-- A packet that `makeHeader` starts is parsed to the values it was made of, if the flags are
-- acceptable and the length is that of the payload.
pub parse_packet-make_header :
    (mac : Bytes) (flags : ℕ) (iv payload : Bytes)
    → length mac ≡ 6
    → length iv ≡ 16
    → flags < 2 ^ 16
    → length payload ≤ max_encoded_payload_bytes
    → has_flag flags flag_encrypted ≡ true
    → unknown_bits flags ≡ 0
    → (has_flag flags flag_encrypted_gcm && ltb (length payload) gcm_tag_size) ≡ false
    → parse_packet (make_header mac flags iv (length payload) ++ payload)
      ≡ ok (
        record { mac = mac; flags = flags; iv = iv; payload = payload },
        make_header mac flags iv (length payload),
      )
unfolding same make_header
parse_packet-make_header mac flags iv payload h k f n e u g =
    let size : length payload < 2 ^ 32 = omega arith in
    let wire = make_header (cells 6 0 mac) flags (cells 16 0 iv) (length payload) ++ payload in
    rw (cells-eq 6 0 mac h, cells-eq 16 0 iv k)
      (parse_packet_of_fields wire _ _ _ payload (omega arith) refl refl refl (omega arith) refl
        (omega arith) refl refl n e u g)
