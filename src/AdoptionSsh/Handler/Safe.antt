-- ===== src/AdoptionSsh/Handler/Safe.antt =====
-- No command leaves an adoption file that cannot be read, whatever its arguments and whichever call of
-- the operating system fails.
use unifi_stubd.Prelude.{
  ◌≡◌, refl, sym, ◌⊎◌, inl, inr, Bool, true, false, Option, none, List, if◌then◌else◌, Result, ok,
  err, ◌>>=◌,
}
use mathlib.Core.Path.{subst}
use unifi_stubd.Prelude.Text.{Bytes}
use unifi_stubd.AtomicFile.{Disk}
use unifi_stubd.Adoption.Store.{Store, empty_store}
use unifi_stubd.Adoption.Env.{reading, LoadError, SaveError, factory_store, load_env, reset_env}
use unifi_stubd.Adoption.Env.Saved.{Saved, save_env-Saved}
use unifi_stubd.AdoptionSsh.State.{
  Handler, World, Run, path, accessed, save_into, save_loaded, save_state, reset_state,
}
use unifi_stubd.AdoptionSsh.Handler.{
  said, answered, factory_reset, handle_set_inform, handle_syswrapper, handle_mca, handle_other,
  handle_command,
}

module _ (h : Handler) where
  -- There is no adoption file, or `LoadEnv` reads it.
  abbrev pub IsReadable : Option Bytes → Type 0
  IsReadable target =
      (target ≡ none) ⊎ ((s : Store) × (load_env h.parse_url (reading target) ≡ ok s))

  -- The file stays readable, and nothing is logged.
  abbrev pub Keeps : World → World → Type 0
  Keeps w after = (IsReadable w.disk.target → IsReadable after.disk.target) × (after.log ≡ w.log)

  Keeps-refl : (w : World) → Keeps w w
  Keeps-refl w = (λ r. r, refl)

  -- The same of a command's run.
  pub record RunKeeps (w : World) (r : Run) : Type 0 where
    pub kept : Keeps w r.world

  RunKeeps-if :
      {w : World} (b : Bool) {u v : Run}
      → RunKeeps w u
      → RunKeeps w v
      → RunKeeps w (if b then u else v)
  RunKeeps-if true k l = k
  RunKeeps-if false k l = l

  RunKeeps-said : (text : Bytes) (w : World) → RunKeeps w (said text w)
  RunKeeps-said text w = record { kept = Keeps-refl w }

  Keeps-accessed :
      {A : Type 0} (w : World) (s : Store) (saved : Disk × Result SaveError (Unit {0})) (a : A)
      → Saved h.parse_url s w.disk saved
      → Keeps w (accessed w (saved.0, saved.1 >>= λ _. ok a)).0
  Keeps-accessed w s (after, ok _) a (inl (loaded, _)) = (λ _. inr (s, loaded), refl)
  Keeps-accessed w s (after, err e) a (inl (loaded, _)) = (λ _. inr (s, loaded), refl)
  Keeps-accessed w s (after, ok _) a (inr (same, _)) = (λ r. subst IsReadable (sym same) r, refl)
  Keeps-accessed w s (after, err e) a (inr (same, _)) = (λ r. subst IsReadable (sym same) r, refl)

  Keeps-of_Saved :
      (w : World) (s : Store) (saved : Disk × Result SaveError (Unit {0}))
      → Saved h.parse_url s w.disk saved
      → Keeps w (accessed w saved).0
  Keeps-of_Saved w s (after, ok _) (inl (loaded, _)) = (λ _. inr (s, loaded), refl)
  Keeps-of_Saved w s (after, err e) (inl (loaded, _)) = (λ _. inr (s, loaded), refl)
  Keeps-of_Saved w s (after, ok _) (inr (same, _)) = (λ r. subst IsReadable (sym same) r, refl)
  Keeps-of_Saved w s (after, err e) (inr (same, _)) = (λ r. subst IsReadable (sym same) r, refl)

  Keeps-save_into : (url key : Bytes) (s : Store) (w : World) → Keeps w (save_into h url key s w).0
  unfolding save_into
  Keeps-save_into url key s w =
      Keeps-of_Saved w _ _ (save_env-Saved h.parse_url (h.faults w.accesses) (path h) _ w.disk)

  Keeps-save_loaded :
      (url key : Bytes) (r : Result LoadError Store) (w : World)
      → Keeps w (save_loaded h url key r w).0
  Keeps-save_loaded url key (ok s) w = Keeps-save_into url key s w
  Keeps-save_loaded url key (err LoadError.not_exist) w = Keeps-save_into url key empty_store w
  Keeps-save_loaded url key (err LoadError.read_failed) w = Keeps-refl w
  Keeps-save_loaded url key (err (LoadError.invalid e)) w = Keeps-refl w

  Keeps-either :
      (w : World) (b : Bool) (u v : World × Bool)
      → Keeps w u.0
      → Keeps w v.0
      → Keeps w (if b then u else v).0
  Keeps-either w true u v k l = k
  Keeps-either w false u v k l = l

  Keeps-save_state : (url key : Bytes) (w : World) → Keeps w (save_state h url key w).0
  unfolding save_state
  Keeps-save_state url key w = Keeps-either w _ _ _ (Keeps-refl w) (Keeps-save_loaded url key _ w)

  Keeps-reset_state : (w : World) → Keeps w (reset_state h w).0
  unfolding reset_state reset_env
  Keeps-reset_state w =
      Keeps-accessed w factory_store _ factory_store
        (save_env-Saved h.parse_url (h.faults w.accesses) (path h) factory_store w.disk)

  RunKeeps-answered :
      (w : World) (text : Bytes) (u : World × Bool) → Keeps w u.0 → RunKeeps w (answered text u)
  RunKeeps-answered w text (u, true) k = record { kept = k }
  RunKeeps-answered w text (u, false) k = record { kept = k }

  RunKeeps-factory_reset : (w : World) → RunKeeps w (factory_reset h w)
  RunKeeps-factory_reset w = RunKeeps-answered w _ (reset_state h w) (Keeps-reset_state w)

  RunKeeps-stored :
      (w : World) (text url key : Bytes) → RunKeeps w (answered text (save_state h url key w))
  RunKeeps-stored w text url key =
      RunKeeps-answered w text (save_state h url key w) (Keeps-save_state url key w)

  RunKeeps-handle_set_inform :
      (args : List Bytes) (w : World) → RunKeeps w (handle_set_inform h args w)
  unfolding handle_set_inform
  RunKeeps-handle_set_inform args w = RunKeeps-stored w _ _ _

  RunKeeps-handle_syswrapper :
      (args : List Bytes) (w : World) → RunKeeps w (handle_syswrapper h args w)
  unfolding handle_syswrapper
  RunKeeps-handle_syswrapper args w =
      search
        (
          RunKeeps-if, RunKeeps-said, RunKeeps-stored, RunKeeps-handle_set_inform,
          RunKeeps-factory_reset,
        )
        depth 12

  RunKeeps-handle_mca : (args : List Bytes) (w : World) → RunKeeps w (handle_mca h args w)
  unfolding handle_mca
  RunKeeps-handle_mca args w =
      search (RunKeeps-if, RunKeeps-said, RunKeeps-stored, RunKeeps-handle_set_inform) depth 12

  RunKeeps-handle_other : (args : List Bytes) (w : World) → RunKeeps w (handle_other h args w)
  unfolding handle_other
  RunKeeps-handle_other args w = search (RunKeeps-if, RunKeeps-stored)

  pub RunKeeps-handle_command :
      (name : Bytes) (args : List Bytes) (w : World) → RunKeeps w (handle_command h name args w)
  unfolding handle_command
  RunKeeps-handle_command name args w =
      search
        (
          RunKeeps-if, RunKeeps-said, RunKeeps-stored, RunKeeps-handle_set_inform,
          RunKeeps-factory_reset, RunKeeps-handle_syswrapper, RunKeeps-handle_mca,
          RunKeeps-handle_other,
        )
        depth 20
