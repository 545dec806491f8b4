-- ===== src/Inform/Codec/Binding.antt =====
-- What `parsePacket` and `DecodeControllerResponse` let through.
use mathlib.Core.Path.{subst}
use unifi_stubd.Prelude.{
  ◌&&◌, ◌-◌, ◌≤◌, ◌≡◌, refl, arith, Bool, true, false, not, ltb, ◌==◌, length, take, drop, ok,
  reject-eq-ok, bind-eq-ok, wrap_err-bind-eq-ok, length-drop, wrap_err-eq-ok, ok-injective,
}
use unifi_stubd.Prelude.Text.{Bytes, same}
use unifi_stubd.Inform.Packet.{
  Packet, has_flag, unknown_bits, flag_encrypted, flag_zlib, flag_snappy, flag_encrypted_gcm, slice,
  uint16_at, max_decoded_payload_bytes, max_encoded_payload_bytes, validate_envelope_flags,
  gcm_tag_size, parse_packet, inform_header_bytes, magic, packet_version, payload_version,
  uint32_at,
}
use unifi_stubd.Inform.Crypto.{Crypto}
use unifi_stubd.Inform.Codec.{
  differ, decrypt_payload, decode_controller_response, validate_decoded_payload_size,
}

-- The facts of an accepted envelope.
pub record IsEnvelope (raw : Bytes) (p : Packet) (header : Bytes) : Type 0 where
  pub header_is : header ≡ take 40 raw
  pub payload_is : p.payload ≡ drop 40 raw
  pub mac_is : p.mac ≡ slice raw 8 14
  pub iv_is : p.iv ≡ slice raw 16 32
  pub flags_is : p.flags ≡ uint16_at raw 14
  pub long_enough : 40 ≤ length raw
  pub bounded : length raw - 40 ≤ max_encoded_payload_bytes
  pub encrypted : has_flag p.flags flag_encrypted ≡ true
  pub known : unknown_bits p.flags ≡ 0
  pub tagged : has_flag p.flags flag_encrypted_gcm ≡ true → 16 ≤ length raw - 40

abbrev read_packet : Bytes → Packet
read_packet raw = record {
  mac = slice raw 8 14;
  flags = uint16_at raw 14;
  iv = slice raw 16 32;
  payload = drop inform_header_bytes raw;
}

IsEnvelope-of_tests :
    (raw : Bytes)
    → ltb (length raw) inform_header_bytes ≡ false
    → ltb max_encoded_payload_bytes (uint32_at raw 36) ≡ false
    → not (uint32_at raw 36 == length raw - inform_header_bytes) ≡ false
    → validate_envelope_flags (uint16_at raw 14) ≡ ok tt
    → (has_flag (uint16_at raw 14) flag_encrypted_gcm
        && ltb (length (drop inform_header_bytes raw)) gcm_tag_size)
      ≡ false
    → IsEnvelope raw (read_packet raw) (take inform_header_bytes raw)
unfolding validate_envelope_flags
IsEnvelope-of_tests raw a m n v g =
    let (enc, more) = reject-eq-ok (not (has_flag (uint16_at raw 14) flag_encrypted)) _ _ v in
    let (known, _) = reject-eq-ok (not (unknown_bits (uint16_at raw 14) == 0)) _ _ more in
    record {
      header_is = refl;
      payload_is = refl;
      mac_is = refl;
      iv_is = refl;
      flags_is = refl;
      long_enough = ground arith;
      bounded = ground arith;
      encrypted = ground arith;
      known = ground arith;
      tagged = λ t. ground (arith, length-drop inform_header_bytes raw);
    }

-- `parsePacket` accepts only an envelope with known flags, encrypted, of the announced length and
-- with room for a GCM tag.
pub parse_packet-IsEnvelope :
    (raw header : Bytes) (p : Packet) → parse_packet raw ≡ ok (p, header) → IsEnvelope raw p header
unfolding parse_packet
parse_packet-IsEnvelope raw header p h =
    let (a, h1) = reject-eq-ok (ltb (length raw) inform_header_bytes) _ _ h in
    let (b, h2) = reject-eq-ok (not (same (slice raw 0 4) magic)) _ _ h1 in
    let (v, h3) = reject-eq-ok (not (uint32_at raw 4 == packet_version)) _ _ h2 in
    let (w, h4) = reject-eq-ok (not (uint32_at raw 32 == payload_version)) _ _ h3 in
    let (m, h5) = reject-eq-ok (ltb max_encoded_payload_bytes (uint32_at raw 36)) _ _ h4 in
    let (n, h6) =
      reject-eq-ok (not (uint32_at raw 36 == length raw - inform_header_bytes)) _ _ h5 in
    let (u, h7) = wrap_err-eq-ok _ (validate_envelope_flags (uint16_at raw 14)) _ h6 in
    let (g, h8) =
      reject-eq-ok
        (has_flag (uint16_at raw 14) flag_encrypted_gcm
          && ltb (length (drop inform_header_bytes raw)) gcm_tag_size)
        _ _ h7 in
    subst (λ (r : Packet × Bytes). IsEnvelope raw r.0 r.1) (ok-injective h8)
      (IsEnvelope-of_tests raw a m n u g)

equal_of_same : (a b : Bool) → differ a b ≡ false → a ≡ b
equal_of_same a b h = ground arith

module _ (c : Crypto) where
  abbrev pub Accepted : Bytes → Bytes → Bool → Packet → Bytes → Type 0
  Accepted raw key expected p body =
      (header : Bytes) × (parse_packet raw ≡ ok (p, header))
      × (decrypt_payload c p p.payload key header ≡ ok body)
      × (has_flag p.flags flag_encrypted ≡ true)
      × (has_flag p.flags flag_encrypted_gcm ≡ expected)
      × (has_flag p.flags flag_zlib ≡ false)
      × (has_flag p.flags flag_snappy ≡ false)
      × (length body ≤ max_decoded_payload_bytes)

  -- A controller response is returned only if it is encrypted by the cipher of the request, has no
  -- compression flag, is the decryption of the payload under the given key, and fits the limit.
  pub response_is_bound :
      (raw key body : Bytes) (p : Packet) (expected : Bool)
      → decode_controller_response c raw key expected ≡ ok (p, body)
      → Accepted raw key expected p body
  unfolding decode_controller_response validate_decoded_payload_size
  response_is_bound raw key body p expected h =
      let (parsed, e, h1) = bind-eq-ok (parse_packet raw) _ h in
      let q = parsed.0 in
      let (d, h2) = reject-eq-ok (differ (has_flag q.flags flag_encrypted_gcm) expected) _ _ h1 in
      let (text, opened, h3) =
        wrap_err-bind-eq-ok _ (decrypt_payload c q q.payload key parsed.1) _ h2 in
      let (z, h4) = reject-eq-ok (has_flag q.flags flag_zlib) _ _ h3 in
      let (s, h5) = reject-eq-ok (has_flag q.flags flag_snappy) _ _ h4 in
      let (size, h6) = wrap_err-eq-ok _ (validate_decoded_payload_size text) _ h5 in
      let envelope = parse_packet-IsEnvelope raw parsed.1 q e in
      let same : (q, text) ≡ (p, body) = ok-injective h6 in
      let mode : has_flag q.flags flag_encrypted_gcm ≡ expected = equal_of_same _ expected d in
      subst (λ (r : Packet × Bytes). Accepted raw key expected r.0 r.1) same
        (parsed.1, e, opened, envelope.encrypted, mode, z, s, ground arith)
