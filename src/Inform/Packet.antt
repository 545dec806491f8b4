-- ===== src/Inform/Packet.antt =====
-- internal/inform/packet.go, and `parsePacket` of internal/inform/decode.go.
pub mod Header
use Prim.Native.Nat.{bit_and, bit_or}
use unifi_stubd.Prelude.{
  ℕ, ◌+◌, ◌-◌, ◌*◌, ◌/◌, ◌%◌, ◌^◌, Bool, true, false, not, ◌&&◌, Option, none, some, List, [], ◌∷◌,
  ◌++◌, ltb, ◌==◌, length, get_or, take, drop, replicate, Result, ok, ◌>>=◌, ◌>>◌, reject, wrap_err,
}
use unifi_stubd.Prelude.Text.{Bytes, codes, same}

abbrev pub inform_header_bytes : ℕ
inform_header_bytes = 40

abbrev pub magic : Bytes
magic = codes "TNBU"

abbrev pub packet_version : ℕ
packet_version = 0

abbrev pub payload_version : ℕ
payload_version = 1

abbrev pub flag_encrypted : ℕ
flag_encrypted = 0x01

abbrev pub flag_zlib : ℕ
flag_zlib = 0x02

abbrev pub flag_snappy : ℕ
flag_snappy = 0x04

abbrev pub flag_encrypted_gcm : ℕ
flag_encrypted_gcm = 0x08

abbrev pub gcm_nonce_size : ℕ
gcm_nonce_size = 16

abbrev pub gcm_tag_size : ℕ
gcm_tag_size = 16

abbrev pub max_decoded_payload_bytes : ℕ
max_decoded_payload_bytes = 16 * 1024 * 1024

abbrev pub max_encoded_payload_bytes : ℕ
max_encoded_payload_bytes = max_decoded_payload_bytes + 64 * 1024

pub record Options : Type 0 where
  pub zlib : Bool
  pub gcm : Bool

pub record Packet : Type 0 where
  pub mac : Bytes
  pub flags : ℕ
  pub iv : Bytes
  pub payload : Bytes

-- The errors of the package, one for each message.
pub data InformError : Type 0 where
  too_short invalid_magic unsupported_packet_version unsupported_payload_version : InformError
  payload_too_long length_mismatch unencrypted unknown_flags gcm_payload_short : InformError
  bad_mac bad_authkey plaintext_too_long encoded_too_long random_failed : InformError
  bad_nonce bad_associated_data gcm_rejected cbc_not_aligned : InformError
  bad_padding_length bad_padding bad_padding_byte : InformError
  zlib_failed decompressed_too_long decoded_too_long : InformError
  snappy_unsupported zlib_unsupported cipher_mismatch : InformError

-- A failed decoding keeps the packet once its envelope is known.
abbrev pub Failure : Type 0
Failure = Option Packet × InformError

-- `flags & mask != 0`.
abbrev pub has_flag : ℕ → ℕ → Bool
has_flag flags mask = not (bit_and flags mask == 0)

-- `PutUint16` and `PutUint32` in network byte order.
abbrev pub uint16_bytes : ℕ → Bytes
uint16_bytes v = (v / 256 % 256) ∷ (v % 256) ∷ []

abbrev pub uint32_bytes : ℕ → Bytes
uint32_bytes v = (v / 2 ^ 24 % 256) ∷ (v / 2 ^ 16 % 256) ∷ (v / 256 % 256) ∷ (v % 256) ∷ []

abbrev pub slice : Bytes → ℕ → ℕ → Bytes
slice raw lo hi = take (hi - lo) (drop lo raw)

-- `Uint16` and `Uint32` of a slice that is long enough.
abbrev pub uint16_at : Bytes → ℕ → ℕ
uint16_at raw lo = get_or raw lo 0 * 256 + get_or raw (lo + 1) 0

abbrev pub uint32_at : Bytes → ℕ → ℕ
uint32_at raw lo =
    get_or raw lo 0 * 2 ^ 24
    + get_or raw (lo + 1) 0 * 2 ^ 16
    + get_or raw (lo + 2) 0 * 256
    + get_or raw (lo + 3) 0

-- `copy(dst, src)`: the bytes of `src` over those of `dst`, as many as both have.
abbrev pub overlay : Bytes → Bytes → Bytes
overlay [] src = []
overlay (d ∷ dst) [] = d ∷ dst
overlay (d ∷ dst) (s ∷ src) = s ∷ overlay dst src

-- `copy(dst[lo:hi], src)`.
abbrev pub copy_into : Bytes → ℕ → ℕ → Bytes → Bytes
copy_into dst lo hi src = take lo dst ++ (overlay (slice dst lo hi) src ++ drop hi dst)

unfoldable pub make_header : Bytes → ℕ → Bytes → ℕ → Bytes
make_header mac flags iv payload_len =
    let header0 = replicate inform_header_bytes 0 in
    let header1 = copy_into header0 0 4 magic in
    let header2 = copy_into header1 4 8 (uint32_bytes packet_version) in
    let header3 = copy_into header2 8 14 mac in
    let header4 = copy_into header3 14 16 (uint16_bytes flags) in
    let header5 = copy_into header4 16 32 iv in
    let header6 = copy_into header5 32 36 (uint32_bytes payload_version) in
    copy_into header6 36 40 (uint32_bytes payload_len)

abbrev pub known_flags : ℕ
known_flags = bit_or (bit_or (bit_or flag_encrypted flag_zlib) flag_snappy) flag_encrypted_gcm

-- `flags &^ knownFlags` on 16 bits.
abbrev pub unknown_bits : ℕ → ℕ
unknown_bits flags = bit_and flags (0xffff - known_flags)

unfoldable pub validate_envelope_flags : ℕ → Result InformError (Unit {0})
validate_envelope_flags flags = do
  reject (not (has_flag flags flag_encrypted)) InformError.unencrypted
  reject (not (unknown_bits flags == 0)) InformError.unknown_flags
  ok tt

unfoldable pub parse_packet : Bytes → Result Failure (Packet × Bytes)
unfolding validate_envelope_flags
parse_packet raw = do
  reject (ltb (length raw) inform_header_bytes) (none, InformError.too_short)
  reject (not (same (slice raw 0 4) magic)) (none, InformError.invalid_magic)
  reject (not (uint32_at raw 4 == packet_version)) (none, InformError.unsupported_packet_version)
  reject (not (uint32_at raw 32 == payload_version)) (none, InformError.unsupported_payload_version)
  let payload_len = uint32_at raw 36
  reject (ltb max_encoded_payload_bytes payload_len) (none, InformError.payload_too_long)
  reject (not (payload_len == length raw - inform_header_bytes)) (none, InformError.length_mismatch)
  let p : Packet = record {
    mac = slice raw 8 14;
    flags = uint16_at raw 14;
    iv = slice raw 16 32;
    payload = drop inform_header_bytes raw;
  }
  wrap_err (λ e. (some p, e)) (validate_envelope_flags p.flags)
  reject (has_flag p.flags flag_encrypted_gcm && ltb (length p.payload) gcm_tag_size)
      (some p, InformError.gcm_payload_short)
  ok (p, take inform_header_bytes raw)
