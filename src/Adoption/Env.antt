-- ===== src/Adoption/Env.antt =====
-- internal/adoption/env.go: `LoadEnv`, `SaveEnv` and `ResetEnv`, over the disk of
-- internal/atomicfile.
mod Line
pub mod RoundTrip
pub mod Saved
use unifi_stubd.Prelude.{
  ℕ, ◌+◌, Bool, true, false, not, ◌||◌, Option, none, some, List, [], ◌∷◌, ◌++◌, ◌==◌,
  if◌then◌else◌, Result, ok, err, reject, wrap_err, ◌>>◌, ◌>>=◌,
}
use unifi_stubd.Prelude.Text.{Bytes, codes, same, is_empty, trim_space}
use unifi_stubd.Prelude.Text.Lines.{split_byte, cut_byte}
use unifi_stubd.AtomicFile.{Faults, Disk, WriteError, write_file}
use unifi_stubd.Adoption.State
use unifi_stubd.Adoption.Store.{
  Store, Field, empty_store, env_key, get, put, store_fields, store_field_by_env_key,
}
use unifi_stubd.Adoption.Validate.{
  Url, StoreError, validate_persisted_value, validate_persisted_field, validate_persisted_store,
  validate_store_for_persistence,
}

-- The result of `os.ReadFile`.
pub data Reading : Type 0 where
  missing : Reading
  unreadable : Reading
  content : Bytes → Reading

-- The adoption file of a disk, read without an error of the operating system.
abbrev pub reading : Option Bytes → Reading
reading none = Reading.missing
reading (some text) = Reading.content text

pub data LoadError : Type 0 where
  not_exist : LoadError
  read_failed : LoadError
  invalid : StoreError → LoadError

-- The variables of the loop of `LoadEnv`.
pub record LoadState : Type 0 where
  pub seen : List Bytes
  pub recognized : ℕ
  pub store : Store

abbrev pub start : LoadState
start = record { seen = []; recognized = 0; store = empty_store }

unfoldable pub is_seen : Bytes → List Bytes → Bool
is_seen key [] = false
is_seen key (k ∷ ks) = same k key || is_seen key ks

module _ (parse_url : Bytes → Option Url) where
  -- What is done with the value of a key, by the field that the table has for it.
  unfoldable pub load_field : LoadState → Bytes → Bytes → Option Field → Result StoreError LoadState
  load_field st key value none = ok st
  load_field st key value (some f) = do
    reject (is_seen key st.seen) StoreError.duplicate_field
    reject (is_empty value) StoreError.empty_value
    validate_persisted_value value
    validate_persisted_field parse_url f value
    ok (record {
      seen = key ∷ st.seen;
      recognized = st.recognized + 1;
      store = put f value st.store;
    })

  unfoldable pub load_entry : LoadState → Option (Bytes × Bytes) → Result StoreError LoadState
  load_entry st none = err StoreError.no_separator
  load_entry st (some (key, value)) = do
    reject (is_empty key || not (same key (trim_space key))) StoreError.malformed_key
    load_field st key value (store_field_by_env_key key)

  -- One turn of the loop.
  unfoldable pub load_line : LoadState → Bytes → Result StoreError LoadState
  load_line st line =
      if is_empty (trim_space line)
      then (if is_empty line then ok st else err StoreError.whitespace_line)
      else if not (same line (trim_space line))
      then err StoreError.surrounding_space
      else load_entry st (cut_byte b'=' line)

  unfoldable pub load_lines : LoadState → List Bytes → Result StoreError LoadState
  load_lines st [] = ok st
  load_lines st (line ∷ lines) = load_line st line >>= λ next. load_lines next lines

  -- `LoadEnv` behind the reading of the file.
  unfoldable pub load_text : Bytes → Result StoreError Store
  load_text text = do
    st ← load_lines start (split_byte b'\n' text)
    reject (st.recognized == 0) StoreError.no_fields
    validate_persisted_store st.store
    ok st.store

  -- `LoadEnv`.
  unfoldable pub load_env : Reading → Result LoadError Store
  load_env Reading.missing = err LoadError.not_exist
  load_env Reading.unreadable = err LoadError.read_failed
  load_env (Reading.content text) = wrap_err LoadError.invalid (load_text text)

-- The lines that `SaveEnv` writes.
unfoldable pub render : Store → List Field → Bytes
render s [] = []
render s (f ∷ fs) =
    let rest = render s fs in
    if is_empty (get f s) then rest else (env_key f ++ (b'=' ∷ get f s)) ++ (b'\n' ∷ rest)

pub data SaveError : Type 0 where
  path_required : SaveError
  invalid : StoreError → SaveError
  write_failed : WriteError → SaveError

-- `SaveEnv` behind the validation.
unfoldable pub save_valid :
    Faults
    → Bytes
    → Store
    → Disk
    → Result StoreError (Unit {0})
    → Disk × Result SaveError (Unit {0})
save_valid f path s d (err e) = (d, err (SaveError.invalid e))
save_valid f path s d (ok _) =
    let written = write_file f path (render s store_fields) d in
    (written.0, wrap_err SaveError.write_failed written.1)

abbrev pub factory_store : Store
factory_store = record empty_store { state = State.factory }

module _ (parse_url : Bytes → Option Url) where
  -- `SaveEnv`: the disk afterwards and the error.
  unfoldable pub save_env : Faults → Bytes → Store → Disk → Disk × Result SaveError (Unit {0})
  save_env f path s d =
      if is_empty path
      then (d, err SaveError.path_required)
      else save_valid f path s d (validate_store_for_persistence parse_url s)

  -- `ResetEnv`.
  unfoldable pub reset_env : Faults → Bytes → Disk → Disk × Result SaveError Store
  reset_env f path d =
      let saved = save_env f path factory_store d in (saved.0, saved.1 >>= λ _. ok factory_store)
