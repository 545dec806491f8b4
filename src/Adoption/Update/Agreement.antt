-- ===== src/Adoption/Update/Agreement.antt =====
-- The adoption state in memory and the one in its file stay the same.
use unifi_stubd.Prelude.{
  ◌≡◌, refl, sym, ◌⊎◌, inl, inr, Bool, true, false, not, ◌&&◌, ◌||◌, Option, none, some,
  if◌then◌else◌, Result, ok, err, ◌>>=◌,
}
use mathlib.Core.Path.{subst}
use unifi_stubd.Prelude.Text.{Bytes, is_empty}
use unifi_stubd.AtomicFile.{Faults, Disk}
use unifi_stubd.Adoption.Store.{Store}
use unifi_stubd.Adoption.Validate.{Url}
use unifi_stubd.Adoption.Env.{reading, SaveError, factory_store, load_env, save_env, reset_env}
use unifi_stubd.Adoption.Env.Saved.{Saved, save_env-Saved}
use unifi_stubd.Adoption.Merge.{merge}
use unifi_stubd.Adoption.Merge.Merged.{merge-changed_iff}
use unifi_stubd.Adoption.Response.{ControllerResponse}
use unifi_stubd.Adoption.Update.{
  Updated, after_save, after_reset, load_adoption_state, apply_response, update_adoption_state,
}

module _ (parse_url : Bytes → Option Url) where
  -- The file holds the store in memory.
  abbrev pub Agrees : Store → Disk → Type 0
  Agrees s d = load_adoption_state parse_url (reading d.target) ≡ ok s

  -- Without an error the file holds the new store; with one the store in memory is the old one.
  abbrev pub Settled : Store → Updated → Type 0
  Settled old u =
      ((u.error ≡ none) × Agrees u.store u.disk)
      ⊎ (((e : SaveError) × (u.error ≡ some e)) × (u.store ≡ old))

  Agrees-of_loaded :
      (s : Store) (d : Disk) → load_env parse_url (reading d.target) ≡ ok s → Agrees s d
  unfolding load_adoption_state
  Agrees-of_loaded s d h = rw h

  Settled-after_save :
      (old new : Store) (r : Option ControllerResponse) (d : Disk)
      (saved : Disk × Result SaveError (Unit {0}))
      → Saved parse_url new d saved
      → Settled old (after_save old new r saved)
  Settled-after_save old new r d (after, ok _) (inl (loaded, _)) =
      inl (refl, Agrees-of_loaded new after loaded)
  Settled-after_save old new r d (after, ok _) (inr (_, (e, impossible))) = cc
  Settled-after_save old new r d (after, err e) h = inr ((e, refl), refl)

  Settled-if :
      (old : Store) (b : Bool) (u v : Updated)
      → (b ≡ true → Settled old u)
      → (b ≡ false → Settled old v)
      → Settled old (if b then u else v)
  Settled-if old true u v h k = h refl
  Settled-if old false u v h k = k refl

  Settled-after_reset :
      (old : Store) (r : ControllerResponse) (d : Disk) (saved : Disk × Result SaveError (Unit {0}))
      → Saved parse_url factory_store d saved
      → Settled old (after_reset old r (saved.0, saved.1 >>= λ _. ok factory_store))
  Settled-after_reset old r d (after, ok _) (inl (loaded, _)) =
      inl (refl, Agrees-of_loaded factory_store after loaded)
  Settled-after_reset old r d (after, ok _) (inr (_, (e, impossible))) = cc
  Settled-after_reset old r d (after, err e) h = inr ((e, refl), refl)

  Settled-apply :
      (f : Faults) (path : Bytes) (s : Store) (r : ControllerResponse) (used_gcm : Bool) (d : Disk)
      → Agrees s d
      → Settled s (apply_response parse_url f path s r used_gcm d)
  unfolding apply_response
  Settled-apply f path s r used_gcm d h =
      let with_gcm = record s { use_aes_gcm = true } in
      let merged = merge s (record r.store { use_aes_gcm = used_gcm || r.store.use_aes_gcm }) in
      Settled-if s (not r.has_state_update) _ _
        (λ _.
          Settled-if s (used_gcm && not (is_empty s.auth_key) && not s.use_aes_gcm) _ _
            (λ _.
              Settled-after_save s with_gcm (some r) d _
                (save_env-Saved parse_url f path with_gcm d))
            (λ _. inl (refl, h)))
        (λ _.
          Settled-if s merged.1 _ _
            (λ _.
              Settled-after_save s merged.0 (some r) d _
                (save_env-Saved parse_url f path merged.0 d))
            (λ e. inl (refl, subst (λ t. Agrees t d) (sym ((merge-changed_iff s _).0 e)) h)))

  Settled-reset :
      (f : Faults) (path : Bytes) (s : Store) (r : ControllerResponse) (d : Disk)
      → Settled s (after_reset s r (reset_env parse_url f path d))
  unfolding reset_env
  Settled-reset f path s r d =
      Settled-after_reset s r d (save_env parse_url f path factory_store d)
        (save_env-Saved parse_url f path factory_store d)

  -- If the file holds the store in memory before an answer is applied, then afterwards either there is
  -- no error and the file holds the store that is returned, or there is one and the store in memory is
  -- the old one, whatever the answer and whichever call of the operating system fails.
  pub update_adoption_state-Settled :
      (f : Faults) (path : Bytes) (s : Store) (response : Option ControllerResponse)
      (used_gcm : Bool) (d : Disk)
      → Agrees s d
      → Settled s (update_adoption_state parse_url f path s response used_gcm d)
  unfolding update_adoption_state
  update_adoption_state-Settled f path s none used_gcm d h = inl (refl, h)
  update_adoption_state-Settled f path s (some r) used_gcm d h =
      Settled-if s r.reset_requested _ _ (λ _. Settled-reset f path s r d)
        (λ _. Settled-apply f path s r used_gcm d h)
