-- ===== src/Adoption/Store.antt =====
-- internal/adoption/state.go and fields.go: the store and the table of its fields.
use unifi_stubd.Prelude.{
  ◌≡◌, refl, Bool, false, not, ◌&&◌, Option, none, some, List, [], ◌∷◌, if◌then◌else◌, inl, inr,
  Bool-cases, arith,
}
use mathlib.Core.Path.{subst}
use unifi_stubd.Prelude.Text.{Bytes, codes, same, same_iff, is_empty, parse_bool}

pub record Store : Type 0 where
  pub inform_url : Bytes
  pub auth_key : Bytes
  pub cfg_version : Bytes
  pub use_aes_gcm : Bool
  pub version : Bytes
  pub state : Bytes

abbrev pub empty_store : Store
empty_store = record {
  inform_url = [];
  auth_key = [];
  cfg_version = [];
  use_aes_gcm = false;
  version = [];
  state = [];
}

-- The entries of `storeFields`, named by their variable.
pub data Field : Type 0 where
  state : Field
  inform_url : Field
  auth_key : Field
  cfg_version : Field
  use_aes_gcm : Field
  version : Field

abbrev pub env_key : Field → Bytes
env_key Field.state = codes "STATE"
env_key Field.inform_url = codes "INFORM_URL"
env_key Field.auth_key = codes "AUTHKEY"
env_key Field.cfg_version = codes "CFGVERSION"
env_key Field.use_aes_gcm = codes "USE_AES_GCM"
env_key Field.version = codes "VERSION"

abbrev pub mgmt_key : Field → Bytes
mgmt_key Field.state = []
mgmt_key Field.inform_url = codes "inform_url"
mgmt_key Field.auth_key = codes "authkey"
mgmt_key Field.cfg_version = codes "cfgversion"
mgmt_key Field.use_aes_gcm = codes "use_aes_gcm"
mgmt_key Field.version = []

abbrev pub get : Field → Store → Bytes
get Field.state s = s.state
get Field.inform_url s = s.inform_url
get Field.auth_key s = s.auth_key
get Field.cfg_version s = s.cfg_version
get Field.use_aes_gcm s = if s.use_aes_gcm then codes "true" else []
get Field.version s = s.version

-- `strconv.ParseBool` with its error ignored, which leaves `false`.
abbrev pub parsed_flag : Option Bool → Bool
parsed_flag none = false
parsed_flag (some b) = b

abbrev pub put : Field → Bytes → Store → Store
put Field.state v s = record s { state = v }
put Field.inform_url v s = record s { inform_url = v }
put Field.auth_key v s = record s { auth_key = v }
put Field.cfg_version v s = record s { cfg_version = v }
put Field.use_aes_gcm v s = record s { use_aes_gcm = parsed_flag (parse_bool v) }
put Field.version v s = record s { version = v }

abbrev pub store_fields : List Field
store_fields =
    Field.state ∷ Field.inform_url ∷ Field.auth_key ∷ Field.cfg_version ∷ Field.use_aes_gcm
    ∷ Field.version ∷ []

-- The first field with a key, by either of the two tables.
abbrev by_key : (Field → Bytes) → Bytes → List Field → Option Field
by_key key_of key [] = none
by_key key_of key (f ∷ fs) = if same (key_of f) key then some f else by_key key_of key fs

unfoldable pub store_field_by_env_key : Bytes → Option Field
store_field_by_env_key key = by_key env_key key store_fields

abbrev mgmt_by_key : Bytes → List Field → Option Field
mgmt_by_key key [] = none
mgmt_by_key key (f ∷ fs) =
    if not (is_empty (mgmt_key f)) && same (mgmt_key f) key then some f else mgmt_by_key key fs

unfoldable pub store_field_by_mgmt_key : Bytes → Option Field
store_field_by_mgmt_key key = mgmt_by_key key store_fields

-- A field that is written is found under its key.
pub store_field_by_env_key-env_key : (f : Field) → store_field_by_env_key (env_key f) ≡ some f
unfolding store_field_by_env_key same
store_field_by_env_key-env_key Field.state = refl
store_field_by_env_key-env_key Field.inform_url = refl
store_field_by_env_key-env_key Field.auth_key = refl
store_field_by_env_key-env_key Field.cfg_version = refl
store_field_by_env_key-env_key Field.use_aes_gcm = refl
store_field_by_env_key-env_key Field.version = refl

mgmt_by_key_sound :
    (key : Bytes) (fs : List Field) (f : Field)
    → mgmt_by_key key fs ≡ some f
    → (is_empty (mgmt_key f) ≡ false) × (mgmt_key f ≡ key)
mgmt_by_key_sound key [] f h = cc
mgmt_by_key_sound key (g ∷ fs) f h =
    elim (Bool-cases (not (is_empty (mgmt_key g)) && same (mgmt_key g) key)) [
      | inl e ↦
          let one : g ≡ f = ground arith in
          subst (λ (k : Field). (is_empty (mgmt_key k) ≡ false) × (mgmt_key k ≡ key)) one
            (ground arith, (same_iff (mgmt_key g) key).0 (ground arith))
      | inr e ↦ mgmt_by_key_sound key fs f (ground arith)
    ]

-- A field that is found has that key.
pub store_field_by_mgmt_key_sound :
    (key : Bytes) (f : Field)
    → store_field_by_mgmt_key key ≡ some f
    → (is_empty (mgmt_key f) ≡ false) × (mgmt_key f ≡ key)
unfolding store_field_by_mgmt_key
store_field_by_mgmt_key_sound key f h = mgmt_by_key_sound key store_fields f h
