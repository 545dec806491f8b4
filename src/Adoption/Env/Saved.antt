-- ===== src/Adoption/Env/Saved.antt =====
-- What a call of `SaveEnv` leaves for the next `LoadEnv`, whichever call of the operating system
-- fails.
use unifi_stubd.Prelude.{
  ◌≡◌, refl, ◌⊎◌, inl, inr, false, Option, some, none, Result, ok, err, wrap_err, Bool-cases,
  Result-cases,
}
use unifi_stubd.Prelude.Text.{Bytes, is_empty}
use unifi_stubd.AtomicFile.{Call, Faults, Disk, WriteError, write_file}
use unifi_stubd.AtomicFile.Law.{Outcome, write_file-Outcome, write_file_clean}
use unifi_stubd.Adoption.Store.{Store, store_fields}
use unifi_stubd.Adoption.Validate.{Url, validate_store_for_persistence}
use unifi_stubd.Adoption.Env.{SaveError, reading, load_env, render, save_valid, save_env}
use unifi_stubd.Adoption.Env.RoundTrip.{load_text-render}

module _ (parse_url : Bytes → Option Url) where
  -- The new store is read back, and an error is one of the directory; or an error is returned and the
  -- file is as it was.
  abbrev pub Saved : Store → Disk → Disk × Result SaveError (Unit {0}) → Type 0
  Saved s d (after, result) =
      ((load_env parse_url (reading after.target) ≡ ok s)
        × ((result ≡ ok tt)
            ⊎ ((result ≡ err (SaveError.write_failed (WriteError.failed Call.open_dir)))
                ⊎ (result ≡ err (SaveError.write_failed (WriteError.failed Call.sync_dir))))))
      ⊎ ((after.target ≡ d.target) × ((e : SaveError) × (result ≡ err e)))

  load_env-render :
      (s : Store) (target : Option Bytes)
      → validate_store_for_persistence parse_url s ≡ ok tt
      → target ≡ some (render s store_fields)
      → load_env parse_url (reading target) ≡ ok s
  unfolding load_env
  load_env-render s target h e = rw (e, load_text-render parse_url s h)

  Saved-of_Outcome :
      (s : Store) (d after : Disk) (result : Result WriteError (Unit {0}))
      → validate_store_for_persistence parse_url s ≡ ok tt
      → Outcome (render s store_fields) d (after, result)
      → Saved s d (after, wrap_err SaveError.write_failed result)
  Saved-of_Outcome s d after result valid (inl (same, (e, failed))) =
      inr (same, (SaveError.write_failed e, rw failed))
  Saved-of_Outcome s d after result valid (inr (new, inl done)) =
      inl (load_env-render s after.target valid new, inl (rw done))
  Saved-of_Outcome s d after result valid (inr (new, inr (inl failed))) =
      inl (load_env-render s after.target valid new, inr (inl (rw failed)))
  Saved-of_Outcome s d after result valid (inr (new, inr (inr failed))) =
      inl (load_env-render s after.target valid new, inr (inr (rw failed)))

  -- Whatever calls of the operating system fail, after `SaveEnv` either `LoadEnv` returns the very
  -- store that was saved, and the only possible errors are those of opening or syncing the directory,
  -- or `SaveEnv` returned an error and the file is as it was.
  pub save_env-Saved :
      (f : Faults) (path : Bytes) (s : Store) (d : Disk) → Saved s d (save_env parse_url f path s d)
  unfolding save_env save_valid
  save_env-Saved f path s d = elim (Bool-cases (is_empty path)) [
    | inl e ↦ rw e (inr (refl, (SaveError.path_required, refl)))
    | inr e ↦ elim (Result-cases (validate_store_for_persistence parse_url s)) [
      | inl (_, valid) ↦
          rw (e, valid)
            (Saved-of_Outcome s d (write_file f path (render s store_fields) d).0 _ valid
              (write_file-Outcome f path (render s store_fields) d))
      | inr (why, invalid) ↦ rw (e, invalid) (inr (refl, (SaveError.invalid why, refl)))
    ]
  ]

  -- A store that passes the validation is saved under a path that is not empty when no call fails:
  -- there is no error, no temporary file is left, and `LoadEnv` returns the store.
  pub save_env_clean :
      (f : Faults) (path : Bytes) (s : Store) (d : Disk)
      → ((c : Call) → f.fails c ≡ false)
      → is_empty path ≡ false
      → validate_store_for_persistence parse_url s ≡ ok tt
      → ((save_env parse_url f path s d).1 ≡ ok tt)
        × ((save_env parse_url f path s d).0.temp ≡ none)
        × (load_env parse_url (reading (save_env parse_url f path s d).0.target) ≡ ok s)
  unfolding save_env save_valid
  save_env_clean f path s d faultless named valid =
      let clean = write_file_clean f path (render s store_fields) d faultless named in
      rw (named, valid) (rw clean (refl, refl, load_env-render s _ valid refl))
