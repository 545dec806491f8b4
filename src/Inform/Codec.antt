-- ===== src/Inform/Codec.antt =====
-- internal/inform/encode.go, decode.go, crypto.go and compression.go.
pub mod RoundTrip
pub mod Binding
use Prim.Native.Nat.{bit_or}
use unifi_stubd.Prelude.{
  ℕ, ◌+◌, ◌-◌, ◌%◌, ◌^◌, Bool, true, false, not, ◌||◌, Option, none, some, ◌++◌, ltb, ◌==◌,
  if◌then◌else◌, length, Result, ok, err, ◌>>=◌, ◌>>◌, reject, wrap_err,
}
use unifi_stubd.Prelude.Text.{Bytes, is_empty}
use unifi_stubd.Inform.Packet.{
  InformError, Failure, Options, Packet, has_flag, flag_encrypted, flag_zlib, flag_snappy,
  flag_encrypted_gcm, gcm_nonce_size, gcm_tag_size, inform_header_bytes, max_decoded_payload_bytes,
  max_encoded_payload_bytes, make_header, parse_packet,
}
use unifi_stubd.Inform.Padding.{pkcs7_pad, pkcs7_unpad}
use unifi_stubd.Inform.Crypto.{Crypto}

abbrev pub block_size : ℕ
block_size = 16

-- Go's `a != b` on Booleans.
abbrev differ : Bool → Bool → Bool
differ true b = not b
differ false b = b

abbrev require : InformError → Option Bytes → Result InformError Bytes
require e none = err e
require e (some bs) = ok bs

-- The flags of a request.
abbrev pub request_flags : Options → ℕ
request_flags opts =
    let flags = if opts.zlib then bit_or flag_encrypted flag_zlib else flag_encrypted in
    if opts.gcm then bit_or flags flag_encrypted_gcm else flags

-- The AEAD of the standard library has the sizes that it was made with.
unfoldable pub new_inform_gcm : Bytes → Result InformError (Unit {0})
new_inform_gcm nonce = reject (not (length nonce == gcm_nonce_size)) InformError.bad_nonce

unfoldable pub validate_decoded_payload_size : Bytes → Result InformError (Unit {0})
validate_decoded_payload_size body =
    reject (ltb max_decoded_payload_bytes (length body)) InformError.decoded_too_long

module _ (c : Crypto) where
  -- Writing to a memory buffer does not fail, so only the text is left.
  unfoldable pub compress_payload : Bytes → Bytes
  compress_payload body = c.deflate body

  unfoldable pub decompress_payload : Bytes → Result InformError Bytes
  decompress_payload body = do
    out ← require InformError.zlib_failed (c.inflate (max_decoded_payload_bytes + 1) body)
    reject (ltb max_decoded_payload_bytes (length out)) InformError.decompressed_too_long
    ok out

  unfoldable pub decrypt_gcm_payload : Bytes → Bytes → Bytes → Bytes → Result InformError Bytes
  decrypt_gcm_payload key nonce body header = do
    reject (not (length header == inform_header_bytes)) InformError.bad_associated_data
    reject (ltb (length body) gcm_tag_size) InformError.gcm_payload_short
    new_inform_gcm nonce
    require InformError.gcm_rejected (c.gcm_open key nonce body header)

  unfoldable pub decrypt_cbc_payload : Bytes → Bytes → Bytes → Result InformError Bytes
  decrypt_cbc_payload key iv body = do
    reject (is_empty body || not (length body % block_size == 0)) InformError.cbc_not_aligned
    pkcs7_unpad (c.cbc_decrypt key iv body) block_size

  unfoldable pub decrypt_payload : Packet → Bytes → Bytes → Bytes → Result InformError Bytes
  decrypt_payload packet body key header =
      if not (has_flag packet.flags flag_encrypted) then ok body else do
        reject (not (length key == 16)) InformError.bad_authkey
        (if has_flag packet.flags flag_encrypted_gcm
            then decrypt_gcm_payload key packet.iv body header
            else decrypt_cbc_payload key packet.iv body)

  -- `Decode`: the packet is returned beside an error only where the last test fails.
  unfoldable pub decode : Bytes → Bytes → Result Failure (Packet × Bytes)
  decode raw key = do
    parsed ← wrap_err (λ f. (none, f.1)) (parse_packet raw)
    let p = parsed.0
    reject (has_flag p.flags flag_snappy) (none, InformError.snappy_unsupported)
    body ← wrap_err (λ e. (none, e)) (decrypt_payload p p.payload key parsed.1)
    text ←
        wrap_err (λ e. (none, e))
          (if has_flag p.flags flag_zlib then decompress_payload body else ok body)
    wrap_err (λ e. (some p, e)) (validate_decoded_payload_size text)
    ok (p, text)

  unfoldable pub decode_controller_response : Bytes → Bytes → Bool → Result Failure (Packet × Bytes)
  decode_controller_response raw key expected_gcm = do
    parsed ← parse_packet raw
    let p = parsed.0
    reject (differ (has_flag p.flags flag_encrypted_gcm) expected_gcm)
        (some p, InformError.cipher_mismatch)
    body ← wrap_err (λ e. (some p, e)) (decrypt_payload p p.payload key parsed.1)
    reject (has_flag p.flags flag_zlib) (some p, InformError.zlib_unsupported)
    reject (has_flag p.flags flag_snappy) (some p, InformError.snappy_unsupported)
    wrap_err (λ e. (some p, e)) (validate_decoded_payload_size body)
    ok (p, body)

  -- The body after the optional compression.
  abbrev pub request_body : Options → Bytes → Bytes
  request_body opts payload = if opts.zlib then compress_payload payload else payload

  -- From the choice of the cipher on, with the initialisation vector drawn.
  unfoldable pub seal : Options → Bytes → Bytes → Bytes → Bytes → Result InformError Bytes
  seal opts mac key iv body =
      let flags = request_flags opts in
      if opts.gcm
      then (do
        new_inform_gcm iv
        let header = make_header mac flags iv ((length body + gcm_tag_size) % 2 ^ 32)
        ok (header ++ c.gcm_seal key iv body header))
      else let padded = c.cbc_encrypt key iv (pkcs7_pad body block_size) in
        ok (make_header mac flags iv (length padded % 2 ^ 32) ++ padded)

  unfoldable pub encode_json : Bytes → Bytes → Bytes → Options → Result InformError Bytes
  encode_json mac key payload opts = do
    reject (not (length mac == 6)) InformError.bad_mac
    reject (not (length key == 16)) InformError.bad_authkey
    reject (ltb max_decoded_payload_bytes (length payload)) InformError.plaintext_too_long
    let body = request_body opts payload
    reject (ltb (max_encoded_payload_bytes - block_size) (length body)) InformError.encoded_too_long
    iv ←
        require InformError.random_failed
          (c.random (if opts.gcm then gcm_nonce_size else block_size))
    seal opts mac key iv body
