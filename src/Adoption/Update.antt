-- ===== src/Adoption/Update.antt =====
-- cmd/unifi-stubd/adoption.go: how a controller's answer changes the adoption state in memory and in
-- its file.
pub mod Agreement
use unifi_stubd.Prelude.{
  ℕ, Bool, true, false, not, ◌&&◌, ◌||◌, Option, none, some, List, [], if◌then◌else◌, Result, ok,
  err,
}
use unifi_stubd.Prelude.Text.{Bytes, same, is_empty}
use unifi_stubd.AtomicFile.{Faults, Disk}
use unifi_stubd.Adoption.State
use unifi_stubd.Adoption.Store.{Store}
use unifi_stubd.Adoption.Validate.{Url}
use unifi_stubd.Adoption.Env.{
  Reading, LoadError, SaveError, factory_store, load_env, save_env, reset_env,
}
use unifi_stubd.Adoption.Merge.{merge}
use unifi_stubd.Adoption.Response.{ControllerResponse, Disposition}

-- What `updateAdoptionState` returns and changes.
pub record Updated : Type 0 where
  pub disk : Disk
  pub store : Store
  pub response : Option ControllerResponse
  pub error : Option SaveError

-- `effectiveInformURL`.
unfoldable pub effective_inform_url : Bytes → Store → Bytes
effective_inform_url fallback s = if is_empty s.inform_url then fallback else s.inform_url

-- `adoptionStoreAlreadyFactory`.
unfoldable pub adoption_store_already_factory : Store → Bool
adoption_store_already_factory s =
    is_empty s.auth_key
    && is_empty s.inform_url
    && is_empty s.cfg_version
    && not s.use_aes_gcm
    && is_empty s.version
    && (is_empty s.state || same s.state State.factory)

-- The two ways in which a call of `SaveEnv` ends.
abbrev pub after_save :
    Store → Store → Option ControllerResponse → Disk × Result SaveError (Unit {0}) → Updated
after_save old new response (d, ok _) = record {
  disk = d;
  store = new;
  response = response;
  error = none;
}
after_save old new response (d, err e) = record {
  disk = d;
  store = old;
  response = response;
  error = some e;
}

abbrev pub after_reset : Store → ControllerResponse → Disk × Result SaveError Store → Updated
after_reset old r (d, ok new) = record {
  disk = d;
  store = new;
  response = some (record r {
    reset_applied = true;
    reset_disposition =
        if adoption_store_already_factory old
        then Disposition.already_factory
        else Disposition.applied;
  });
  error = none;
}
after_reset old r (d, err e) = record {
  disk = d;
  store = old;
  response =
      some (record r { reset_applied = false; reset_disposition = Disposition.reset_failed });
  error = some e;
}

abbrev pub or_factory : Result LoadError Store → Result LoadError Store
or_factory (ok s) = ok s
or_factory (err LoadError.not_exist) = ok factory_store
or_factory (err e) = err e

module _ (parse_url : Bytes → Option Url) where
  -- `loadAdoptionState`: a missing file is the factory state.
  unfoldable pub load_adoption_state : Reading → Result LoadError Store
  load_adoption_state r = or_factory (load_env parse_url r)

  -- The part of `updateAdoptionState` behind the reset.
  unfoldable pub apply_response :
      Faults → Bytes → Store → ControllerResponse → Bool → Disk → Updated
  apply_response f path s r used_gcm d =
      let kept : Updated = record { disk = d; store = s; response = some r; error = none } in
      let with_gcm = record s { use_aes_gcm = true } in
      let update = record r.store { use_aes_gcm = used_gcm || r.store.use_aes_gcm } in
      let merged = merge s update in
      if not r.has_state_update
      then (if used_gcm && not (is_empty s.auth_key) && not s.use_aes_gcm
          then after_save s with_gcm (some r) (save_env parse_url f path with_gcm d)
          else kept)
      else if merged.1
      then after_save s merged.0 (some r) (save_env parse_url f path merged.0 d)
      else record kept { store = merged.0 }

  -- `updateAdoptionState`.
  unfoldable pub update_adoption_state :
      Faults → Bytes → Store → Option ControllerResponse → Bool → Disk → Updated
  update_adoption_state f path s none used_gcm d = record {
    disk = d;
    store = s;
    response = none;
    error = none;
  }
  update_adoption_state f path s (some r) used_gcm d =
      if r.reset_requested
      then after_reset s r (reset_env parse_url f path d)
      else apply_response f path s r used_gcm d
