-- ===== src/Inform/Codec/RoundTrip.antt =====
-- `Decode` undoes `EncodeJSON`.
use unifi_stubd.Prelude.{
  ℕ, ◌+◌, ◌-◌, ◌%◌, ◌^◌, ◌≤◌, ◌<◌, ◌≡◌, refl, ◌∙◌, arith, Bool, true, false, not, ◌&&◌, some, ◌++◌,
  ltb, if◌then◌else◌, length, ok, err, inl, inr, Option-cases,
}
use unifi_stubd.Prelude.Text.{Bytes, is_empty_of_pos}
use unifi_stubd.Inform.Packet.{
  InformError, Options, Packet, has_flag, unknown_bits, flag_encrypted, flag_zlib, flag_snappy,
  flag_encrypted_gcm, gcm_tag_size, max_decoded_payload_bytes, max_encoded_payload_bytes,
  make_header, parse_packet,
}
use unifi_stubd.Inform.Packet.Header.{parse_packet-make_header, length-make_header}
use unifi_stubd.Inform.Padding.{pkcs7_pad}
use unifi_stubd.Inform.Padding.RoundTrip.{pkcs7_unpad-pad, pkcs7_pad_whole}
use unifi_stubd.Inform.Crypto.{Crypto, IsSound}
use unifi_stubd.Inform.Codec.{
  compress_payload, decompress_payload, new_inform_gcm, decrypt_gcm_payload, decrypt_cbc_payload,
  decrypt_payload, validate_decoded_payload_size, decode, decode_controller_response, request_flags,
  request_body, seal, encode_json,
}

abbrev pub options : Bool → Bool → Options
options z g = record { zlib = z; gcm = g }

-- The flags of a request say which of the two transformations were made, and nothing else.
request_flags_lem :
    (z g : Bool)
    → (has_flag (request_flags (options z g)) flag_encrypted ≡ true)
      × (unknown_bits (request_flags (options z g)) ≡ 0)
      × (has_flag (request_flags (options z g)) flag_snappy ≡ false)
      × (has_flag (request_flags (options z g)) flag_zlib ≡ z)
      × (has_flag (request_flags (options z g)) flag_encrypted_gcm ≡ g)
      × (request_flags (options z g) < 2 ^ 16)
request_flags_lem true true = (refl, refl, refl, refl, refl, omega arith)
request_flags_lem true false = (refl, refl, refl, refl, refl, omega arith)
request_flags_lem false true = (refl, refl, refl, refl, refl, omega arith)
request_flags_lem false false = (refl, refl, refl, refl, refl, omega arith)

no_room : (b : Bool) (n : ℕ) → 16 ≤ n → (b && ltb n 16) ≡ false
no_room b n h = ground arith

parse_sealed :
    (z g : Bool) (mac iv text : Bytes) (n : ℕ)
    → length mac ≡ 6
    → length iv ≡ 16
    → n ≡ length text
    → 16 ≤ n
    → n ≤ max_encoded_payload_bytes
    → parse_packet (make_header mac (request_flags (options z g)) iv n ++ text)
      ≡ ok (
        record { mac = mac; flags = request_flags (options z g); iv = iv; payload = text },
        make_header mac (request_flags (options z g)) iv n,
      )
parse_sealed z g mac iv text n h k e lo hi =
    let (enc, unknown, _, _, _, small) = request_flags_lem z g in
    let flags = request_flags (options z g) in
    let tagged : (has_flag flags flag_encrypted_gcm && ltb (length text) gcm_tag_size) ≡ false =
      no_room _ (length text) (omega arith) in
    rw e (parse_packet-make_header mac flags iv text h k small (omega arith) enc unknown tagged)

module _ (c : Crypto) (sound : IsSound c) where
  decrypt_cbc-encrypt :
      (key iv body : Bytes)
      → length key ≡ 16
      → length iv ≡ 16
      → decrypt_cbc_payload c key iv (c.cbc_encrypt key iv (pkcs7_pad body 16)) ≡ ok body
  unfolding decrypt_cbc_payload
  decrypt_cbc-encrypt key iv body h k =
      let padded = pkcs7_pad body 16 in
      let (m, lo, hi) = pkcs7_pad_whole body 16 (omega arith) (omega arith) in
      let size = sound.cbc_length key iv padded m in
      rw
        (
          is_empty_of_pos (c.cbc_encrypt key iv padded) (omega arith),
          size,
          m,
          sound.cbc_inverse key iv padded h k m,
        )
        (pkcs7_unpad-pad body 16 (omega arith) (omega arith))

  decrypt_gcm-seal :
      (key iv body header : Bytes)
      → length key ≡ 16
      → length iv ≡ 16
      → length header ≡ 40
      → decrypt_gcm_payload c key iv (c.gcm_seal key iv body header) header ≡ ok body
  unfolding decrypt_gcm_payload new_inform_gcm
  decrypt_gcm-seal key iv body header h k l =
      rw (l, k, sound.gcm_inverse key iv body header h k)
        (ground (arith, sound.gcm_length key iv body header))

  -- Which of the two ciphers `decryptPayload` takes.
  decrypt_payload_lem :
      (g : Bool) (p : Packet) (body key header : Bytes)
      → has_flag p.flags flag_encrypted ≡ true
      → has_flag p.flags flag_encrypted_gcm ≡ g
      → length key ≡ 16
      → decrypt_payload c p body key header ≡ (
          if g
          then decrypt_gcm_payload c key p.iv body header
          else decrypt_cbc_payload c key p.iv body)
  unfolding decrypt_payload
  decrypt_payload_lem g p body key header e f k = rw (e, f, k)

  abbrev Opens : Bool → Bool → Bytes → Bytes → Bytes → Bytes → Bytes → Type 0
  Opens z g mac key iv body wire =
      (p : Packet) × (header : Bytes) × (parse_packet wire ≡ ok (p, header))
      × (decrypt_payload c p p.payload key header ≡ ok body)
      × (p.mac ≡ mac)
      × (p.flags ≡ request_flags (options z g))

  Opens-of_text :
      (z g : Bool) (mac key iv body text : Bytes) (n : ℕ)
      → length mac ≡ 6
      → length key ≡ 16
      → length iv ≡ 16
      → n ≡ length text
      → 16 ≤ n
      → n ≤ max_encoded_payload_bytes
      → (if g
          then decrypt_gcm_payload c key iv text
              (make_header mac (request_flags (options z g)) iv n)
          else decrypt_cbc_payload c key iv text)
        ≡ ok body
      → Opens z g mac key iv body (make_header mac (request_flags (options z g)) iv n ++ text)
  Opens-of_text z g mac key iv body text n h k l e lo hi d =
      let (enc, _, _, _, gcm, _) = request_flags_lem z g in
      let p : Packet = record {
        mac = mac;
        flags = request_flags (options z g);
        iv = iv;
        payload = text;
      } in
      let header = make_header mac (request_flags (options z g)) iv n in
      (
        p,
        header,
        parse_sealed z g mac iv text n h l e lo hi,
        decrypt_payload_lem g p text key header enc gcm k ∙ d,
        refl,
        refl,
      )

  -- A sealed body is parsed and decrypted to what was sealed.
  seal-Opens :
      (z g : Bool) (mac key iv body : Bytes) {wire : Bytes}
      → length mac ≡ 6
      → length key ≡ 16
      → length iv ≡ 16
      → length body ≤ max_encoded_payload_bytes - 16
      → seal c (options z g) mac key iv body ≡ ok wire
      → Opens z g mac key iv body wire
  unfolding seal new_inform_gcm
  seal-Opens z true mac key iv body {wire} h k l fits s =
      let flags = request_flags (options z true) in
      let n = (length body + 16) % 2 ^ 32 in
      let header = make_header mac flags iv n in
      let text = c.gcm_seal key iv body header in
      let size = sound.gcm_length key iv body header in
      let sent : header ++ text ≡ wire = ground arith in
      rw (← sent) (
        Opens-of_text z true mac key iv body text n h k l (omega arith) (omega arith) (omega arith)
          (decrypt_gcm-seal key iv body header k l (length-make_header mac flags iv n h l)))
  seal-Opens z false mac key iv body {wire} h k l fits s =
      let flags = request_flags (options z false) in
      let padded = pkcs7_pad body 16 in
      let (m, lo, hi) = pkcs7_pad_whole body 16 (omega arith) (omega arith) in
      let text = c.cbc_encrypt key iv padded in
      let size = sound.cbc_length key iv padded m in
      let n = length text % 2 ^ 32 in
      let sent : make_header mac flags iv n ++ text ≡ wire = ground arith in
      rw (← sent) (
        Opens-of_text z false mac key iv body text n h k l (omega arith) (omega arith) (omega arith)
          (decrypt_cbc-encrypt key iv body k l))

module _ (c : Crypto) where
  -- What `EncodeJSON` has tested where it returns a packet.
  abbrev Sent : Bytes → Bytes → Bytes → Options → Bytes → Type 0
  Sent mac key payload opts wire =
      (iv : Bytes) × (c.random 16 ≡ some iv)
      × (length mac ≡ 6)
      × (length key ≡ 16)
      × (length payload ≤ max_decoded_payload_bytes)
      × (length (request_body c opts payload) ≤ max_encoded_payload_bytes - 16)
      × (seal c opts mac key iv (request_body c opts payload) ≡ ok wire)

  encode_tests :
      (mac key payload : Bytes) (z g : Bool) {wire : Bytes}
      → encode_json c mac key payload (options z g) ≡ ok wire
      → Sent mac key payload (options z g) wire
  unfolding encode_json
  encode_tests mac key payload z g h = elim (Option-cases (c.random 16)) [
    | inl fails ↦ absurd (ground arith)
    | inr (iv, e) ↦ (iv, e, ground arith, ground arith, ground arith, ground arith, ground arith)
  ]

  -- The steps of `Decode` and of `DecodeControllerResponse`, one after the other.
  decode_of_parts :
      (raw key header body text : Bytes) (p : Packet)
      → parse_packet raw ≡ ok (p, header)
      → has_flag p.flags flag_snappy ≡ false
      → decrypt_payload c p p.payload key header ≡ ok body
      → (if has_flag p.flags flag_zlib then decompress_payload c body else ok body) ≡ ok text
      → length text ≤ max_decoded_payload_bytes
      → decode c raw key ≡ ok (p, text)
  unfolding decode validate_decoded_payload_size
  decode_of_parts raw key header body text p a b d e f = rw (a, b, d, e) (ground arith)

  response_of_parts :
      (raw key header body : Bytes) (p : Packet) (expected : Bool)
      → parse_packet raw ≡ ok (p, header)
      → has_flag p.flags flag_encrypted_gcm ≡ expected
      → decrypt_payload c p p.payload key header ≡ ok body
      → has_flag p.flags flag_zlib ≡ false
      → has_flag p.flags flag_snappy ≡ false
      → length body ≤ max_decoded_payload_bytes
      → decode_controller_response c raw key expected ≡ ok (p, body)
  unfolding decode_controller_response validate_decoded_payload_size
  response_of_parts raw key header body p true a b d e f k = rw (a, b, d, e, f) (ground arith)
  response_of_parts raw key header body p false a b d e f k = rw (a, b, d, e, f) (ground arith)

  response_of_mismatch :
      (raw key header : Bytes) (p : Packet) (expected : Bool)
      → parse_packet raw ≡ ok (p, header)
      → has_flag p.flags flag_encrypted_gcm ≡ not expected
      → decode_controller_response c raw key expected ≡ err (some p, InformError.cipher_mismatch)
  unfolding decode_controller_response
  response_of_mismatch raw key header p true a b = rw (a, b)
  response_of_mismatch raw key header p false a b = rw (a, b)

module _ (c : Crypto) (sound : IsSound c) where
  -- The optional compression is undone.
  text_of_body :
      (z g : Bool) (flags : ℕ) (payload : Bytes)
      → flags ≡ request_flags (options z g)
      → length payload ≤ max_decoded_payload_bytes
      → (if has_flag flags flag_zlib
          then decompress_payload c (request_body c (options z g) payload)
          else ok (request_body c (options z g) payload))
        ≡ ok payload
  unfolding decompress_payload compress_payload
  text_of_body true g flags payload e fits =
      let (_, _, _, zlib, _, _) = request_flags_lem true g in
      rw e (
        rw zlib (
          rw (sound.zlib_inverse (max_decoded_payload_bytes + 1) payload (omega arith))
            (ground arith)))
  text_of_body false g flags payload e fits =
      let (_, _, _, zlib, _, _) = request_flags_lem false g in rw e (rw zlib)

  -- For every choice of options, `Decode` with the same key returns the payload that `EncodeJSON`
  -- was given, in a packet with the device's address and the flags of the request.
  pub decode-encode_json :
      (mac key payload : Bytes) (z g : Bool) {wire : Bytes}
      → encode_json c mac key payload (options z g) ≡ ok wire
      → (p : Packet) × (decode c wire key ≡ ok (p, payload))
        × (p.mac ≡ mac)
        × (p.flags ≡ request_flags (options z g))
  decode-encode_json mac key payload z g {wire} h =
      let (iv, drawn, m, k, fits, room, s) = encode_tests c mac key payload z g h in
      let size = sound.random_length 16 drawn in
      let body = request_body c (options z g) payload in
      let (p, header, parsed, opened, same_mac, same_flags) =
        seal-Opens c sound z g mac key iv body m k size room s in
      let (_, _, snappy, _, _, _) = request_flags_lem z g in
      (
        p,
        decode_of_parts c wire key header body payload p parsed (rw same_flags snappy) opened
            (text_of_body z g p.flags payload same_flags fits) fits,
        same_mac,
        same_flags,
      )

  -- Sent back by a controller without compression, the packet is accepted in the cipher mode of the
  -- request, and refused with its metadata in the other mode.
  pub response-encode_json :
      (mac key payload : Bytes) (g : Bool) {wire : Bytes}
      → encode_json c mac key payload (options false g) ≡ ok wire
      → (p : Packet) × (decode_controller_response c wire key g ≡ ok (p, payload))
        × (decode_controller_response c wire key (not g)
            ≡ err (some p, InformError.cipher_mismatch))
        × (p.mac ≡ mac)
  unfolding compress_payload
  response-encode_json mac key payload g {wire} h =
      let (iv, drawn, m, k, fits, room, s) = encode_tests c mac key payload false g h in
      let size = sound.random_length 16 drawn in
      let (p, header, parsed, opened, same_mac, same_flags) =
        seal-Opens c sound false g mac key iv payload m k size room s in
      let (_, _, snappy, zlib, gcm, _) = request_flags_lem false g in
      (
        p,
        response_of_parts c wire key header payload p g parsed (rw same_flags gcm) opened
            (rw same_flags zlib) (rw same_flags snappy) fits,
        response_of_mismatch c wire key header p (not g) parsed
            (rw same_flags (gcm ∙ ground arith)),
        same_mac,
      )
