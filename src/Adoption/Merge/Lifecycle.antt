-- ===== src/Adoption/Merge/Lifecycle.antt =====
-- `Merge` keeps the invariant of the lifecycle that `validatePersistedStore` tests.
use unifi_stubd.Prelude.{
  ◌≡◌, refl, ap, ◌∙◌, ◌⊎◌, inl, inr, arith, Bool, true, false, not, ◌&&◌, ◌||◌, [], ◌∷◌,
  Option-cases, ok,
}
use unifi_stubd.Prelude.Text.{Bytes, same, same_iff, is_empty}
use unifi_stubd.Adoption.State
use unifi_stubd.Adoption.Store.{Store}
use unifi_stubd.Adoption.Validate.{validate_persisted_store, known_state}
use unifi_stubd.Adoption.Merge.{differs, merge, next_state, auth_keys_equal, normalized_auth_key}
use unifi_stubd.Adoption.Merge.Merged.{pick, merged, merge_lem}

-- Neither store has a key.
abbrev pub keyless : Store → Store → Bool
keyless base update = is_empty base.auth_key && is_empty update.auth_key

-- The updates that the program makes: of a controller's answer or of an SSH command. The cipher is
-- switched only where there is a key.
abbrev pub IsUpdate : Store → Store → Type 0
IsUpdate base update =
    ((update.state ≡ [])
      ⊎ ((update.state ≡ State.connected)
          ⊎ ((update.state ≡ State.provisioning) ⊎ (update.state ≡ State.adopting))))
    × ((update.use_aes_gcm && keyless base update) ≡ false)

pick_value : (value old : Bytes) → is_empty value ≡ false → pick value old ≡ value
unfolding differs
pick_value value old h = ground (arith, (same_iff old value).0)

is_empty-pick : (value old : Bytes) → is_empty (pick value old) ≡ (is_empty old && is_empty value)
unfolding differs
is_empty-pick [] old = ground arith
is_empty-pick (c ∷ value) old = ap is_empty (pick_value (c ∷ value) old refl) ∙ ground arith

-- A key is not taken for one that is missing.
auth_keys_equal_nil : (key : Bytes) → is_empty key ≡ false → auth_keys_equal key [] ≡ false
unfolding auth_keys_equal normalized_auth_key same
auth_keys_equal_nil [] h = ground arith
auth_keys_equal_nil (c ∷ key) h = elim (Option-cases (normalized_auth_key (c ∷ key))) [
  | inl e ↦ rw e
  | inr (k, e) ↦ rw e
]

-- What the `switch` leaves of the state.
abbrev Next : Store → Store → Type 0
Next base update =
    ((next_state base update ≡ [])
      × ((is_empty update.auth_key ≡ true) ⊎ (is_empty base.auth_key ≡ false)))
    ⊎ (((next_state base update ≡ State.adopting) × (keyless base update ≡ false))
        ⊎ (((next_state base update ≡ State.connected) × (keyless base update ≡ false))
            ⊎ (next_state base update ≡ State.provisioning)))

-- An update whose key is not the same as no key has a key, or there is one already.
known_key :
    (new old : Bytes)
    → (not (is_empty new) && not (auth_keys_equal new old)) ≡ false
    → (is_empty new ≡ true) ⊎ (is_empty old ≡ false)
known_key new (c ∷ old) h = inr refl
known_key [] [] h = inl refl
known_key (c ∷ new) [] h = let other = auth_keys_equal_nil (c ∷ new) refl in ground arith

Next-of_none : (base update : Store) → update.state ≡ [] → Next base update
unfolding next_state same
Next-of_none base update h =
    let known = known_key update.auth_key base.auth_key in rw h (ground arith)

Next-of_connected : (base update : Store) → update.state ≡ State.connected → Next base update
unfolding next_state same
Next-of_connected base update h =
    let known = known_key update.auth_key base.auth_key in rw h (ground arith)

Next-of_provisioning : (base update : Store) → update.state ≡ State.provisioning → Next base update
unfolding next_state same
Next-of_provisioning base update h =
    let known = known_key update.auth_key base.auth_key in rw h (ground arith)

Next-of_adopting : (base update : Store) → update.state ≡ State.adopting → Next base update
unfolding next_state same
Next-of_adopting base update h =
    let known = known_key update.auth_key base.auth_key in rw h (ground arith)

Next-of_update : (base update : Store) → IsUpdate base update → Next base update
Next-of_update base update (inl h, _) = Next-of_none base update h
Next-of_update base update (inr (inl h), _) = Next-of_connected base update h
Next-of_update base update (inr (inr (inl h)), _) = Next-of_provisioning base update h
Next-of_update base update (inr (inr (inr h)), _) = Next-of_adopting base update h

-- What the invariant says of the three fields that it reads.
abbrev pub Lifecycle : Bytes → Bool → Bool → Type 0
Lifecycle state no_key gcm =
    (known_state state ≡ true)
    × ((no_key && (same state State.adopting || same state State.connected || gcm)) ≡ false)
    × ((same state State.factory && not no_key) ≡ false)

Lifecycle-of_valid :
    (s : Store)
    → validate_persisted_store s ≡ ok tt
    → Lifecycle s.state (is_empty s.auth_key) s.use_aes_gcm
unfolding validate_persisted_store
Lifecycle-of_valid s h = (ground arith, ground arith, ground arith)

valid_of_Lifecycle :
    (s : Store)
    → Lifecycle s.state (is_empty s.auth_key) s.use_aes_gcm
    → validate_persisted_store s ≡ ok tt
unfolding validate_persisted_store
valid_of_Lifecycle s (known, keyed, factory) = rw (known, keyed, factory)

Lifecycle-of_Next :
    (base update : Store)
    → Lifecycle base.state (is_empty base.auth_key) base.use_aes_gcm
    → (update.use_aes_gcm && keyless base update) ≡ false
    → Next base update
    → Lifecycle
        (pick (next_state base update) base.state)
        (keyless base update)
        (update.use_aes_gcm || base.use_aes_gcm)
unfolding known_state same differs
Lifecycle-of_Next base update (known, keyed, factory) gcm (inl (next, key)) = rw next (ground arith)
Lifecycle-of_Next base update (known, keyed, factory) gcm (inr (inl (next, key))) =
    rw (next, pick_value State.adopting base.state refl) (ground arith)
Lifecycle-of_Next base update (known, keyed, factory) gcm (inr (inr (inl (next, key)))) =
    rw (next, pick_value State.connected base.state refl) (ground arith)
Lifecycle-of_Next base update (known, keyed, factory) gcm (inr (inr (inr next))) =
    rw (next, pick_value State.provisioning base.state refl) (ground arith)

-- An update of a controller or of an SSH command that switches the cipher only where there is a key
-- keeps the invariant: no adopted or connected state and no AES-GCM without a key, no key in the
-- factory state, and only known states.
pub validate_persisted_store-merge :
    (base update : Store)
    → validate_persisted_store base ≡ ok tt
    → IsUpdate base update
    → validate_persisted_store (merge base update).0 ≡ ok tt
validate_persisted_store-merge base update valid u =
    let next = Next-of_update base update u in
    let kept = Lifecycle-of_Next base update (Lifecycle-of_valid base valid) u.1 next in
    rw (merge_lem base update) (
      valid_of_Lifecycle (merged base update)
        (rw (is_empty-pick update.auth_key base.auth_key) kept))
