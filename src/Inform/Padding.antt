-- ===== src/Inform/Padding.antt =====
-- internal/inform/padding.go.
pub mod RoundTrip
use unifi_stubd.Prelude.{
  ℕ, ◌-◌, ◌%◌, Bool, true, not, ◌&&◌, ◌||◌, [], ◌∷◌, ◌++◌, ltb, ◌==◌, if◌then◌else◌, length, get_or,
  take, drop, replicate, Result, ok, ◌>>=◌, ◌>>◌, reject,
}
use unifi_stubd.Prelude.Text.{Bytes, is_empty}
use unifi_stubd.Inform.Packet.{InformError}

unfoldable pub pkcs7_pad : Bytes → ℕ → Bytes
pkcs7_pad raw block_size =
    let rest = block_size - length raw % block_size in
    let pad_len = if rest == 0 then block_size else rest in raw ++ replicate pad_len (pad_len % 256)

-- `for _, b := range … { if int(b) != padLen { return … } }` finds no such byte.
abbrev pub all_equal : ℕ → Bytes → Bool
all_equal n [] = true
all_equal n (b ∷ bs) = b == n && all_equal n bs

unfoldable pub pkcs7_unpad : Bytes → ℕ → Result InformError Bytes
pkcs7_unpad raw block_size = do
  reject (is_empty raw || not (length raw % block_size == 0)) InformError.bad_padding_length
  let pad_len = get_or raw (length raw - 1) 0
  reject (pad_len == 0 || ltb block_size pad_len || ltb (length raw) pad_len)
      InformError.bad_padding
  reject (not (all_equal pad_len (drop (length raw - pad_len) raw))) InformError.bad_padding_byte
  ok (take (length raw - pad_len) raw)
