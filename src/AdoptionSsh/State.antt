-- ===== src/AdoptionSsh/State.antt =====
-- internal/adoptionssh/types.go and state.go: what the SSH handler knows and changes, which is the
-- adoption file alone.
use unifi_stubd.Prelude.{
  ℕ, ◌+◌, Bool, true, false, ◌&&◌, Option, List, if◌then◌else◌, Result, ok, err,
}
use unifi_stubd.Prelude.Text.{Bytes, codes, is_empty}
use unifi_stubd.AtomicFile.{Faults, Disk}
use unifi_stubd.Adoption.State
use unifi_stubd.Adoption.Store.{Store, empty_store}
use unifi_stubd.Adoption.Validate.{Url}
use unifi_stubd.Adoption.Env.{Reading, reading, LoadError, SaveError, load_env, save_env, reset_env}
use unifi_stubd.Adoption.Merge.{merge}

pub record Identity : Type 0 where
  pub mac : Bytes
  pub ip : Bytes
  pub hostname : Bytes
  pub model : Bytes
  pub version : Bytes
  pub inform_url : Bytes

-- A handler's configuration, and its surroundings: the faults of the operating system in the n-th
-- access to the adoption file, and whether the file cannot be read then.
pub record Handler : Type 0 where
  pub state_path : Bytes
  pub identity : Identity
  pub parse_url : Bytes → Option Url
  pub faults : ℕ → Faults
  pub unreadable : ℕ → Bool

-- The disk, the number of accesses and the audit log, the latest entry first.
pub record World : Type 0 where
  pub disk : Disk
  pub accesses : ℕ
  pub log : List Bytes

-- What a command writes, its exit code, and the world afterwards.
pub record Run : Type 0 where
  pub text : Bytes
  pub code : ℕ
  pub world : World

-- The world after an access, and whether it had no error.
abbrev pub accessed : {A : Type 0} → World → Disk × Result SaveError A → World × Bool
accessed w (d, ok _) = (record w { disk = d; accesses = w.accesses + 1 }, true)
accessed w (d, err _) = (record w { disk = d; accesses = w.accesses + 1 }, false)

abbrev pub or_default : Bytes → Bytes → Bytes
or_default value default = if is_empty value then default else value

module _ (h : Handler) where
  unfoldable pub path : Bytes
  path = or_default h.state_path (codes "/var/lib/unifi-stubd/adoption.env")

  -- `saveState` with the store that it has loaded.
  unfoldable pub save_into : Bytes → Bytes → Store → World → World × Bool
  save_into url key store w =
      let update = record empty_store {
        state = if is_empty key then State.provisioning else State.adopting;
        inform_url = url;
        auth_key = key;
      } in
      accessed w (save_env h.parse_url (h.faults w.accesses) path (merge store update).0 w.disk)

  -- A missing file leaves the empty store, any other error ends the call.
  abbrev pub save_loaded : Bytes → Bytes → Result LoadError Store → World → World × Bool
  save_loaded url key (ok store) w = save_into url key store w
  save_loaded url key (err LoadError.not_exist) w = save_into url key empty_store w
  save_loaded url key (err e) w = (w, false)

  -- `saveState`: the world and whether there was no error.
  unfoldable pub save_state : Bytes → Bytes → World → World × Bool
  save_state url key w =
      if is_empty url && is_empty key
      then (w, true)
      else save_loaded url key
          (load_env h.parse_url
            (if h.unreadable w.accesses then Reading.unreadable else reading w.disk.target))
          w

  -- `resetState`.
  unfoldable pub reset_state : World → World × Bool
  reset_state w = accessed w (reset_env h.parse_url (h.faults w.accesses) path w.disk)
