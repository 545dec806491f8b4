-- ===== src/Tests/Inform.antt =====
-- Runs of the packet codec, the schedule and the clock.
use mathlib.Core.Option.{some-injective}
use unifi_stubd.Prelude.{
  ap, sym, ◌∙◌, length-replicate, ℕ, ◌≡◌, ◌↔◌, refl, arith, true, false, some, [], ◌∷◌, ◌++◌,
  length, take, drop, take_all, replicate, ok, err,
}
use unifi_stubd.Prelude.Text.{Bytes, codes, same}
use unifi_stubd.Inform.Packet.{InformError, Packet, parse_packet, make_header}
use unifi_stubd.Inform.Padding.{pkcs7_pad, pkcs7_unpad}
use unifi_stubd.Inform.Padding.RoundTrip.{pkcs7_unpad_iff}
use unifi_stubd.Inform.Crypto.{Crypto, IsSound}
use unifi_stubd.Inform.Codec.{
  seal, encode_json, decode, decode_controller_response, decrypt_payload, decrypt_cbc_payload,
  validate_decoded_payload_size, request_flags,
}
use unifi_stubd.Inform.Codec.RoundTrip.{options, decode-encode_json, response-encode_json}
use unifi_stubd.Inform.Codec.Binding.{Accepted, response_is_bound}

-- A cipher that hides nothing and has the documented behaviour.
abbrev toy : Crypto
toy = record {
  cbc_encrypt = λ key iv text. text;
  cbc_decrypt = λ key iv text. text;
  gcm_seal = λ key nonce text ad. replicate 16 0 ++ text;
  gcm_open = λ key nonce text ad. some (drop 16 text);
  deflate = λ text. text;
  inflate = λ limit text. some (take limit text);
  random = λ n. some (replicate n 7);
}

replicate_drawn : (n : ℕ) {bs : Bytes} → some (replicate n 7) ≡ some bs → length bs ≡ n
replicate_drawn n {bs} h =
    ap (length {A = ℕ}) (sym (some-injective (replicate n 7) bs h)) ∙ length-replicate n 7

toy-IsSound : IsSound toy
toy-IsSound = record {
  cbc_inverse = λ key iv text k l m. refl;
  cbc_length = λ key iv text m. refl;
  gcm_inverse = λ key nonce text ad k l. refl;
  gcm_length = λ key nonce text ad. omega arith;
  zlib_inverse = λ limit text h. ap some (take_all limit text h);
  random_length = replicate_drawn;
}

abbrev mac : Bytes
mac = 0x02 ∷ 0x00 ∷ 0x5e ∷ 0x00 ∷ 0x53 ∷ 0x01 ∷ []

abbrev key : Bytes
key = replicate 16 9

abbrev wire_cbc : Bytes
wire_cbc = make_header mac 1 (replicate 16 7) 16 ++ (codes "{}" ++ replicate 14 14)

encode_cbc : encode_json toy mac key (codes "{}") (options false false) ≡ ok wire_cbc
unfolding encode_json seal pkcs7_pad make_header
encode_cbc = refl

abbrev packet_cbc : Packet
packet_cbc = record {
  mac = mac;
  flags = 1;
  iv = replicate 16 7;
  payload = codes "{}" ++ replicate 14 14;
}

response_cbc : decode_controller_response toy wire_cbc key false ≡ ok (packet_cbc, codes "{}")
unfolding decode_controller_response parse_packet same make_header decrypt_payload
    decrypt_cbc_payload pkcs7_unpad validate_decoded_payload_size
response_cbc = refl

-- A packet whose encryption flag was cleared is refused, with its metadata.
cleared_flag :
    decode_controller_response toy (make_header mac 0 (replicate 16 7) 2 ++ codes "{}") key false
    ≡ err (
      some (record { mac = mac; flags = 0; iv = replicate 16 7; payload = codes "{}" }),
      InformError.unencrypted,
    )
unfolding decode_controller_response parse_packet same make_header
cleared_flag = refl

parse_cbc : parse_packet wire_cbc ≡ ok (packet_cbc, make_header mac 1 (replicate 16 7) 16)
unfolding parse_packet same make_header
parse_cbc = refl

pkcs7_unpad_iff_example :
    (pkcs7_unpad (codes "{}" ++ replicate 14 14) 16 ≡ ok (codes "{}"))
    ↔ ((codes "{}" ++ replicate 14 14) ≡ pkcs7_pad (codes "{}") 16)
pkcs7_unpad_iff_example =
    pkcs7_unpad_iff (codes "{}" ++ replicate 14 14) (codes "{}") 16 (omega arith) (omega arith)

decode-encode_json_example :
    (p : Packet) × (decode toy wire_cbc key ≡ ok (p, codes "{}"))
    × (p.mac ≡ mac)
    × (p.flags ≡ request_flags (options false false))
decode-encode_json_example =
    decode-encode_json toy toy-IsSound mac key (codes "{}") false false encode_cbc

response-encode_json_example :
    (p : Packet) × (decode_controller_response toy wire_cbc key false ≡ ok (p, codes "{}"))
    × (decode_controller_response toy wire_cbc key true ≡ err (some p, InformError.cipher_mismatch))
    × (p.mac ≡ mac)
response-encode_json_example =
    response-encode_json toy toy-IsSound mac key (codes "{}") false encode_cbc

response_is_bound_example : Accepted toy wire_cbc key false packet_cbc (codes "{}")
response_is_bound_example =
    response_is_bound toy wire_cbc key (codes "{}") packet_cbc false response_cbc
