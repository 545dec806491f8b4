-- ===== src/Tests/Adoption.antt =====
-- Runs of the adoption state: its file, its merge and the answers of a controller.
use unifi_stubd.Prelude.{
  ◌≡◌, ◌↔◌, inl, inr, refl, arith, true, false, Option, none, some, [], ◌∷◌, ok, err, Result,
  if◌then◌else◌,
}
use unifi_stubd.Prelude.Text.{Bytes, codes, same, contains, parse_bool, trim_space}
use unifi_stubd.Prelude.Text.Lines.{split_byte, cut_byte}
use unifi_stubd.Prelude.Text.Hex.{hex_value, decode_hex}
use unifi_stubd.AtomicFile.{Faults, Disk, write_file}
use unifi_stubd.AtomicFile.Law.{Outcome, write_file-Outcome}
use unifi_stubd.Adoption.State
use unifi_stubd.Adoption.Store.{
  Store, empty_store, store_fields, store_field_by_env_key, store_field_by_mgmt_key,
}
use unifi_stubd.Adoption.Validate.{
  Url, StoreError, validate_persisted_value, validate_persisted_field, validate_persisted_store,
  validate_store_for_persistence, validate_mgmt_field, validate_inform_url, validate_parsed_url,
  validate_individual_auth_key_text, is_default_auth_key, count_fields, known_state,
  has_control_byte,
}
use unifi_stubd.Adoption.Env.{
  reading, is_seen, load_field, load_entry, load_line, load_lines, load_text, load_env, render,
  save_env, factory_store, SaveError,
}
use unifi_stubd.Adoption.Env.Saved.{Saved, save_env-Saved, save_env_clean}
use unifi_stubd.Adoption.Merge.{merge, merge_fields, next_state, differs, auth_keys_equal}
use unifi_stubd.Adoption.Merge.Merged.{merge-changed_iff}
use unifi_stubd.Adoption.Merge.Keys.{SameKey, auth_keys_equal_iff}
use unifi_stubd.Adoption.Merge.Lifecycle.{validate_persisted_store-merge}
use unifi_stubd.Adoption.MgmtCfg.{parse_mgmt_cfg, mgmt_lines, mgmt_entry, mgmt_field}
use unifi_stubd.Adoption.MgmtCfg.Sanitized.{IsSanitized, parse_mgmt_cfg-IsSanitized}
use unifi_stubd.Adoption.Update.{load_adoption_state}

abbrev url : Url
url = record {
  opaque = [];
  scheme = codes "http";
  hostname = codes "unifi";
  has_user = false;
  raw_query = [];
  force_query = false;
  fragment = [];
}

-- A parser that knows one URL.
abbrev parse_url : Bytes → Option Url
parse_url s = if same s (codes "http://unifi:8080/inform") then some url else none

abbrev key_text : Bytes
key_text = codes "00112233445566778899aabbccddeeff"

abbrev adopted : Store
adopted = record {
  inform_url = codes "http://unifi:8080/inform";
  auth_key = key_text;
  cfg_version = codes "a1b2";
  use_aes_gcm = true;
  version = [];
  state = State.connected;
}

abbrev faultless : Faults
faultless = record { fails = λ c. false; written = 0 }

abbrev empty_disk : Disk
empty_disk = record { target = none; temp = none }

abbrev state_file : Bytes
state_file = codes "/var/lib/adoption.env"

render-adopted :
    render adopted store_fields
    ≡ codes
        "STATE=connected\nINFORM_URL=http://unifi:8080/inform\nAUTHKEY=00112233445566778899aabbccddeeff\nCFGVERSION=a1b2\nUSE_AES_GCM=true\n"
unfolding render
render-adopted = refl

load_twice : load_text parse_url (codes "VERSION=1\nVERSION=2\n") ≡ err StoreError.duplicate_field
unfolding load_text load_lines load_line load_entry load_field split_byte cut_byte trim_space same
    is_seen store_field_by_env_key validate_persisted_value validate_persisted_field
    has_control_byte
load_twice = refl

adopted_valid : validate_store_for_persistence parse_url adopted ≡ ok tt
unfolding validate_store_for_persistence count_fields validate_persisted_value
    validate_persisted_field validate_persisted_store validate_mgmt_field validate_inform_url
    validate_parsed_url validate_individual_auth_key_text is_default_auth_key known_state
    has_control_byte trim_space same parse_bool decode_hex hex_value contains
adopted_valid = refl

save_env-Saved_example :
    Saved parse_url adopted empty_disk (save_env parse_url faultless state_file adopted empty_disk)
save_env-Saved_example = save_env-Saved parse_url faultless state_file adopted empty_disk

write_file-Outcome_example :
    Outcome (codes "x") empty_disk (write_file faultless state_file (codes "x") empty_disk)
write_file-Outcome_example = write_file-Outcome faultless state_file (codes "x") empty_disk

abbrev saved : Disk × Result SaveError (Unit {0})
saved = save_env parse_url faultless state_file adopted empty_disk

save_env_clean_example :
    (saved.1 ≡ ok tt)
    × (saved.0.temp ≡ none)
    × (load_env parse_url (reading saved.0.target) ≡ ok adopted)
save_env_clean_example =
    save_env_clean parse_url faultless state_file adopted empty_disk (λ c. refl) refl adopted_valid

-- An answer that repeats the cipher changes nothing.
merge-changed_iff_example :
    ((merge adopted (record empty_store { use_aes_gcm = true })).1 ≡ false)
    ↔ ((merge adopted (record empty_store { use_aes_gcm = true })).0 ≡ adopted)
merge-changed_iff_example = merge-changed_iff adopted (record empty_store { use_aes_gcm = true })

adopted_alive : validate_persisted_store adopted ≡ ok tt
unfolding validate_persisted_store known_state same
adopted_alive = refl

-- A new URL leads back to the adopting state.
abbrev moved : Store
moved = record empty_store {
  state = State.connected;
  inform_url = codes "http://unifi:8080/inform";
}

validate_persisted_store-merge_example : validate_persisted_store (merge adopted moved).0 ≡ ok tt
validate_persisted_store-merge_example =
    validate_persisted_store-merge adopted moved adopted_alive (inr (inl refl), refl)

merged_state :
    (merge adopted (record moved { inform_url = codes "http://other/inform" })).0.state
    ≡ State.adopting
unfolding merge merge_fields next_state differs same
merged_state = refl

-- The raw form of a key and its digits.
abbrev raw_key : Bytes
raw_key =
    0 ∷ 17 ∷ 34 ∷ 51 ∷ 68 ∷ 85 ∷ 102 ∷ 119 ∷ 136 ∷ 153 ∷ 170 ∷ 187 ∷ 204 ∷ 221 ∷ 238 ∷ 255 ∷ []

auth_keys_equal_iff_example : (auth_keys_equal raw_key key_text ≡ true) ↔ SameKey raw_key key_text
auth_keys_equal_iff_example = auth_keys_equal_iff raw_key key_text (ground arith) (ground arith)

abbrev settings : Bytes
settings = codes "authkey=00112233445566778899AABBCCDDEEFF\nshell=reboot\ncfgversion= a1b2 "

settings_read :
    parse_mgmt_cfg parse_url settings
    ≡ ok (record empty_store {
      auth_key = codes "00112233445566778899AABBCCDDEEFF";
      cfg_version = codes "a1b2";
    })
unfolding parse_mgmt_cfg mgmt_lines mgmt_entry mgmt_field store_field_by_mgmt_key split_byte
    cut_byte trim_space same validate_mgmt_field validate_individual_auth_key_text
    is_default_auth_key decode_hex hex_value
settings_read = refl

parse_mgmt_cfg-IsSanitized_example : IsSanitized parse_url (record empty_store {
  auth_key = codes "00112233445566778899AABBCCDDEEFF";
  cfg_version = codes "a1b2";
})
parse_mgmt_cfg-IsSanitized_example = parse_mgmt_cfg-IsSanitized parse_url settings _ settings_read

factory_agrees : load_adoption_state parse_url (reading none) ≡ ok factory_store
unfolding load_adoption_state load_env
factory_agrees = refl
