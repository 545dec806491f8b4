-- ===== src/Adoption/Validate.antt =====
-- The validation of adoption values: internal/adoption/env.go and mgmtcfg.go. `net/url.Parse` is a
-- parameter.
use unifi_stubd.Prelude.{
  ℕ, ◌+◌, Bool, true, false, not, ◌&&◌, ◌||◌, Option, none, some, List, [], ◌∷◌, length, ltb, ◌==◌,
  if◌then◌else◌, Result, ok, err, reject, ◌>>◌, ◌>>=◌,
}
use unifi_stubd.Prelude.Text.{Bytes, codes, same, is_empty, contains, trim_space, parse_bool}
use unifi_stubd.Prelude.Text.Hex.{decode_hex}
use unifi_stubd.Adoption.State
use unifi_stubd.Adoption.Store.{Store, Field, get, store_fields}

-- What the program reads of a `*url.URL`; `hostname` is the result of the method.
pub record Url : Type 0 where
  pub opaque : Bytes
  pub scheme : Bytes
  pub hostname : Bytes
  pub has_user : Bool
  pub raw_query : Bytes
  pub force_query : Bool
  pub fragment : Bytes

-- The errors, by what is wrong.
pub data StoreError : Type 0 where
  surrounding_space : StoreError
  control_byte : StoreError
  whitespace_line : StoreError
  no_separator : StoreError
  malformed_key : StoreError
  duplicate_field : StoreError
  empty_value : StoreError
  no_fields : StoreError
  unknown_state : StoreError
  key_required : StoreError
  factory_with_key : StoreError
  bad_auth_key : StoreError
  default_auth_key : StoreError
  not_boolean : StoreError
  cfgversion_too_long : StoreError
  url_too_long : StoreError
  not_absolute_url : StoreError
  url_with_user : StoreError
  url_with_query : StoreError
  url_with_fragment : StoreError
  too_many_bytes : StoreError
  too_many_lines : StoreError
  line_too_long : StoreError

-- The MD5 of "ubnt", which every device has before its adoption.
abbrev pub default_key : Bytes
default_key =
    186 ∷ 134 ∷ 242 ∷ 187 ∷ 225 ∷ 7 ∷ 199 ∷ 197 ∷ 126 ∷ 181 ∷ 242 ∷ 105 ∷ 7 ∷ 117 ∷ 199 ∷ 18 ∷ []

unfoldable pub is_default_auth_key : Bytes → Bool
is_default_auth_key key = same key default_key

-- The check of the key behind the choice of its form.
abbrev pub validate_individual_key : Option Bytes → Result StoreError (Unit {0})
validate_individual_key none = err StoreError.bad_auth_key
validate_individual_key (some key) = reject (is_default_auth_key key) StoreError.default_auth_key

-- `validateIndividualAuthKeyText`.
unfoldable pub validate_individual_auth_key_text : Bytes → Bool → Result StoreError (Unit {0})
validate_individual_auth_key_text value allow_raw = validate_individual_key (
    if allow_raw && length value == 16
    then some value
    else if length value == 32
    then decode_hex value
    else none)

-- `_, err := strconv.ParseBool(value)`.
abbrev pub validate_bool : Option Bool → Result StoreError (Unit {0})
validate_bool none = err StoreError.not_boolean
validate_bool (some b) = ok tt

unfoldable pub has_control_byte : Bytes → Bool
has_control_byte [] = false
has_control_byte (c ∷ s) = ltb c 0x20 || c == 0x7f || has_control_byte s

-- `validatePersistedValue`.
unfoldable pub validate_persisted_value : Bytes → Result StoreError (Unit {0})
validate_persisted_value value = do
  reject (not (same value (trim_space value))) StoreError.surrounding_space
  reject (has_control_byte value) StoreError.control_byte

-- The value of `STATE`, as `validatePersistedStore` knows it.
unfoldable pub known_state : Bytes → Bool
known_state s =
    is_empty s
    || same s State.factory
    || same s State.discovered
    || same s State.adopting
    || same s State.provisioning
    || same s State.connected
    || same s State.failed

-- `validatePersistedStore`.
unfoldable pub validate_persisted_store : Store → Result StoreError (Unit {0})
validate_persisted_store s = do
  reject (not (known_state s.state)) StoreError.unknown_state
  reject
      (is_empty s.auth_key
        && (same s.state State.adopting || same s.state State.connected || s.use_aes_gcm))
      StoreError.key_required
  reject (same s.state State.factory && not (is_empty s.auth_key)) StoreError.factory_with_key

module _ (parse_url : Bytes → Option Url) where
  -- The conditions on a URL that `url.Parse` accepts.
  unfoldable pub validate_parsed_url : Bytes → Option Url → Result StoreError (Unit {0})
  validate_parsed_url value none = err StoreError.not_absolute_url
  validate_parsed_url value (some u) = do
    reject
        (not (is_empty u.opaque)
          || (not (same u.scheme (codes "http")) && not (same u.scheme (codes "https")))
          || is_empty u.hostname)
        StoreError.not_absolute_url
    reject u.has_user StoreError.url_with_user
    reject (not (is_empty u.raw_query) || u.force_query) StoreError.url_with_query
    reject (not (is_empty u.fragment) || contains value (codes "#")) StoreError.url_with_fragment

  unfoldable pub validate_inform_url : Bytes → Result StoreError (Unit {0})
  validate_inform_url value = do
    reject (ltb 2048 (length value)) StoreError.url_too_long
    validate_parsed_url value (parse_url value)

  -- `validateMgmtField`.
  unfoldable pub validate_mgmt_field : Bytes → Bytes → Result StoreError (Unit {0})
  validate_mgmt_field key value =
      if same key (codes "authkey")
      then (do
        reject (not (length value == 32)) StoreError.bad_auth_key
        validate_individual_auth_key_text value false)
      else if same key (codes "use_aes_gcm")
      then validate_bool (parse_bool value)
      else if same key (codes "cfgversion")
      then reject (ltb 31 (length value)) StoreError.cfgversion_too_long
      else if same key (codes "inform_url")
      then validate_inform_url value
      else ok tt

  -- `validatePersistedField`, whose key is that of an entry of the table.
  unfoldable pub validate_persisted_field : Field → Bytes → Result StoreError (Unit {0})
  validate_persisted_field Field.auth_key value = validate_individual_auth_key_text value true
  validate_persisted_field Field.cfg_version value = validate_mgmt_field (codes "cfgversion") value
  validate_persisted_field Field.inform_url value = validate_mgmt_field (codes "inform_url") value
  validate_persisted_field Field.use_aes_gcm value = validate_bool (parse_bool value)
  validate_persisted_field Field.state value = ok tt
  validate_persisted_field Field.version value = ok tt

  -- The loop of `validateStoreForPersistence`: how many fields are set.
  unfoldable pub count_fields : Store → List Field → Result StoreError ℕ
  count_fields s [] = ok 0
  count_fields s (f ∷ fs) =
      let rest = count_fields s fs in
      if is_empty (get f s) then rest else do
        validate_persisted_value (get f s)
        validate_persisted_field f (get f s)
        n ← rest
        ok (n + 1)

  -- `validateStoreForPersistence`.
  unfoldable pub validate_store_for_persistence : Store → Result StoreError (Unit {0})
  validate_store_for_persistence s = do
    fields ← count_fields s store_fields
    reject (fields == 0) StoreError.no_fields
    validate_persisted_store s
