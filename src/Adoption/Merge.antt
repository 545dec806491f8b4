-- ===== src/Adoption/Merge.antt =====
-- internal/adoption/env.go: `Merge` and the comparison of keys that it makes.
pub mod Merged
pub mod Lifecycle
pub mod Keys
use unifi_stubd.Prelude.{
  ℕ, ◌≡◌, Bool, true, false, not, ◌&&◌, ◌||◌, Option, none, some, List, [], ◌∷◌, length, ◌==◌,
  if◌then◌else◌,
}
use unifi_stubd.Prelude.Text.{Bytes, same, is_empty}
use unifi_stubd.Prelude.Text.Hex.{encode_hex, decode_hex}
use unifi_stubd.Adoption.State
use unifi_stubd.Adoption.Store.{Store, Field, get, put, store_fields}

-- The digits of a decoded key, in lower case.
abbrev pub lower_case : Option Bytes → Option Bytes
lower_case none = none
lower_case (some key) = some (encode_hex key)

-- `normalizedAuthKey`: `none` where the second result is false.
unfoldable pub normalized_auth_key : Bytes → Option Bytes
normalized_auth_key value =
    if length value == 16
    then some (encode_hex value)
    else if length value == 32
    then lower_case (decode_hex value)
    else none

abbrev pub same_keys : Option Bytes → Option Bytes → Bool
same_keys (some l) (some r) = same l r
same_keys _ _ = false

-- `authKeysEqual`.
unfoldable pub auth_keys_equal : Bytes → Bytes → Bool
auth_keys_equal left right =
    same left right || same_keys (normalized_auth_key left) (normalized_auth_key right)

-- The first `switch` of `Merge`: the state that is merged.
unfoldable pub next_state : Store → Store → Bytes
next_state base update =
    let controller_key = same update.state State.connected && not (is_empty update.auth_key) in
    let key_changed =
      not (is_empty update.auth_key) && not (auth_keys_equal update.auth_key base.auth_key) in
    let url_changed =
      not (is_empty update.inform_url) && not (same update.inform_url base.inform_url) in
    if controller_key || key_changed || url_changed
    then (if is_empty base.auth_key && is_empty update.auth_key
        then State.provisioning
        else State.adopting)
    else if same update.state State.connected && is_empty base.auth_key && is_empty update.auth_key
    then []
    else if same update.state State.adopting
        || (not (is_empty base.auth_key) && same update.state State.provisioning)
    then []
    else update.state

-- Whether a value is set and not the one that is stored.
unfoldable pub differs : Bytes → Bytes → Bool
differs value old = not (is_empty value) && not (same old value)

-- The loop over the fields, with the flag `changed`.
unfoldable pub merge_fields : Store → List Field → Store → Bool → Store × Bool
merge_fields update [] base changed = (base, changed)
merge_fields update (f ∷ fs) base changed =
    let value = get f update in
    let hit = differs value (get f base) in
    merge_fields update fs (if hit then put f value base else base) (hit || changed)

-- `Merge`.
unfoldable pub merge : Store → Store → Store × Bool
merge base update =
    merge_fields (record update { state = next_state base update }) store_fields base false
