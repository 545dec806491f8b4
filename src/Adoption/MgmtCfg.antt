-- ===== src/Adoption/MgmtCfg.antt =====
-- internal/adoption/mgmtcfg.go: `parseMgmtCFG`, which reads the settings that a controller sends.
pub mod Sanitized
use unifi_stubd.Prelude.{
  ℕ, ◌*◌, Bool, Option, none, some, List, [], ◌∷◌, length, ltb, Result, ok, err, reject, ◌>>◌,
  ◌>>=◌,
}
use unifi_stubd.Prelude.Text.{Bytes, trim_space}
use unifi_stubd.Prelude.Text.Lines.{split_byte, cut_byte}
use unifi_stubd.Adoption.Store.{Store, Field, empty_store, put, store_field_by_mgmt_key}
use unifi_stubd.Adoption.Validate.{Url, StoreError, validate_mgmt_field}

abbrev pub max_mgmt_cfg_bytes : ℕ
max_mgmt_cfg_bytes = 64 * 1024

abbrev pub max_mgmt_cfg_lines : ℕ
max_mgmt_cfg_lines = 256

abbrev pub max_mgmt_cfg_line : ℕ
max_mgmt_cfg_line = 4096

module _ (parse_url : Bytes → Option Url) where
  -- An entry whose key the table has, or another one, which is ignored.
  unfoldable pub mgmt_field : Store → Bytes → Bytes → Option Field → Result StoreError Store
  mgmt_field s key value none = ok s
  mgmt_field s key value (some f) = do validate_mgmt_field parse_url key value; ok (put f value s)

  unfoldable pub mgmt_entry : Store → Option (Bytes × Bytes) → Result StoreError Store
  mgmt_entry s none = ok s
  mgmt_entry s (some (key, value)) =
      mgmt_field s key (trim_space value) (store_field_by_mgmt_key key)

  -- The loop over the lines.
  unfoldable pub mgmt_lines : Store → List Bytes → Result StoreError Store
  mgmt_lines s [] = ok s
  mgmt_lines s (line ∷ lines) = do
    reject (ltb max_mgmt_cfg_line (length line)) StoreError.line_too_long
    next ← mgmt_entry s (cut_byte b'=' (trim_space line))
    mgmt_lines next lines

  -- `parseMgmtCFG`.
  unfoldable pub parse_mgmt_cfg : Bytes → Result StoreError Store
  parse_mgmt_cfg text = do
    reject (ltb max_mgmt_cfg_bytes (length text)) StoreError.too_many_bytes
    let lines = split_byte b'\n' text
    reject (ltb max_mgmt_cfg_lines (length lines)) StoreError.too_many_lines
    mgmt_lines empty_store lines
