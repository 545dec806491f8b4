-- ===== src/Inform/Crypto.antt =====
-- What the codec takes from crypto/aes, crypto/cipher, crypto/rand and compress/zlib, as the
-- functions that it calls and the documented behaviour that it relies on.
use unifi_stubd.Prelude.{ℕ, ◌+◌, ◌%◌, ◌≤◌, ◌≡◌, Option, some, length}
use unifi_stubd.Prelude.Text.{Bytes}

pub record Crypto : Type 0 where
  -- `cipher.NewCBCEncrypter(block, iv).CryptBlocks`: key, initialisation vector, text.
  pub cbc_encrypt : Bytes → Bytes → Bytes → Bytes
  pub cbc_decrypt : Bytes → Bytes → Bytes → Bytes
  -- `aead.Seal(nil, nonce, text, data)` and `aead.Open`: key, nonce, text, associated data.
  pub gcm_seal : Bytes → Bytes → Bytes → Bytes → Bytes
  pub gcm_open : Bytes → Bytes → Bytes → Bytes → Option Bytes
  -- All that a zlib writer makes of a text, and at most a number of bytes that a reader gives back.
  pub deflate : Bytes → Bytes
  pub inflate : ℕ → Bytes → Option Bytes
  -- `io.ReadFull(rand.Reader, iv)` for a number of bytes; `none` where it fails.
  pub random : ℕ → Option Bytes

-- The documented behaviour: decryption and decompression undo encryption and compression, CBC keeps
-- the length of whole blocks, GCM adds a tag of 16 bytes, and `random` fills its buffer.
pub record IsSound (c : Crypto) : Type 0 where
  pub cbc_inverse :
      (key iv text : Bytes)
      → length key ≡ 16
      → length iv ≡ 16
      → length text % 16 ≡ 0
      → c.cbc_decrypt key iv (c.cbc_encrypt key iv text) ≡ text
  pub cbc_length :
      (key iv text : Bytes)
      → length text % 16 ≡ 0
      → length (c.cbc_encrypt key iv text) ≡ length text
  pub gcm_inverse :
      (key nonce text ad : Bytes)
      → length key ≡ 16
      → length nonce ≡ 16
      → c.gcm_open key nonce (c.gcm_seal key nonce text ad) ad ≡ some text
  pub gcm_length :
      (key nonce text ad : Bytes) → length (c.gcm_seal key nonce text ad) ≡ length text + 16
  pub zlib_inverse :
      (limit : ℕ) (text : Bytes)
      → length text ≤ limit
      → c.inflate limit (c.deflate text) ≡ some text
  pub random_length : (n : ℕ) {bs : Bytes} → c.random n ≡ some bs → length bs ≡ n
