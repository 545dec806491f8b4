-- ===== src/Adoption/Env/Line.antt =====
-- One line of the adoption state file: what `SaveEnv` writes is read back by one turn of the loop of
-- `LoadEnv`.
use unifi_stubd.Prelude.{
  ℕ, ◌+◌, ◌<◌, ◌≡◌, refl, sym, ap, ◌∙◌, arith, false, Option, some, [], ◌∷◌, ◌++◌, ok, inl, inr,
}
use mathlib.Core.List.{reverse, reverse-append, append_assoc}
use unifi_stubd.Prelude.Text.{
  Bytes, lead, trail, same_iff, same_refl, is_empty, trim_space, trim_space_fixed, trail-of_fixed,
  trail-append, lead_visible, trail_visible,
}
use unifi_stubd.Prelude.Text.Lines.{Lacks, cut_byte, cut_byte-append}
use unifi_stubd.Adoption.Store.{Field, env_key, put, store_field_by_env_key-env_key}
use unifi_stubd.Adoption.Validate.{
  Url, has_control_byte, validate_persisted_value, validate_persisted_field,
}
use unifi_stubd.Adoption.Env.{LoadState, is_seen, load_field, load_entry, load_line}

pub Lacks-append : (c : ℕ) (s t : Bytes) → Lacks c s → Lacks c t → Lacks c (s ++ t)
Lacks-append c [] t h k = k
Lacks-append c (x ∷ s) t h k = (h.0, Lacks-append c s t h.1 k)

-- The keys are upper case words, which the loop of `LoadEnv` takes apart from the value.
abbrev IsKey : Bytes → Type 0
IsKey key =
    Lacks b'\n' key
    × Lacks b'=' key
    × (is_empty key ≡ false)
    × (trim_space key ≡ key)
    × ((s : Bytes) → lead (key ++ s) ≡ 0)

IsKey-of_ends :
    (c d : ℕ) (key init : Bytes)
    → reverse (c ∷ key) ≡ d ∷ init
    → (32 < c) × (c < 128) × (32 < d) × (d < 128)
    → Lacks b'\n' (c ∷ key)
    → Lacks b'=' (c ∷ key)
    → IsKey (c ∷ key)
IsKey-of_ends c d key init e (lo, hi, lo2, hi2) l k = (
  l,
  k,
  refl,
  trim_space_fixed (c ∷ key) (lead_visible c key lo hi) (ap trail e ∙ trail_visible d init lo2 hi2),
  λ s. lead_visible c (key ++ s) lo hi,
)

env_key-IsKey : (f : Field) → IsKey (env_key f)
env_key-IsKey Field.state = IsKey-of_ends _ _ _ _ refl (ground arith) (ground arith) (ground arith)
env_key-IsKey Field.inform_url =
    IsKey-of_ends _ _ _ _ refl (ground arith) (ground arith) (ground arith)
env_key-IsKey Field.auth_key =
    IsKey-of_ends _ _ _ _ refl (ground arith) (ground arith) (ground arith)
env_key-IsKey Field.cfg_version =
    IsKey-of_ends _ _ _ _ refl (ground arith) (ground arith) (ground arith)
env_key-IsKey Field.use_aes_gcm =
    IsKey-of_ends _ _ _ _ refl (ground arith) (ground arith) (ground arith)
env_key-IsKey Field.version =
    IsKey-of_ends _ _ _ _ refl (ground arith) (ground arith) (ground arith)

value-Lacks : (v : Bytes) → has_control_byte v ≡ false → Lacks b'\n' v
unfolding has_control_byte
value-Lacks [] h = tt
value-Lacks (c ∷ v) h = (ground arith, value-Lacks v (ground arith))

-- `KEY=VALUE` with a value that passes `validatePersistedValue`.
abbrev pub entry : Field → Bytes → Bytes
entry f v = env_key f ++ (b'=' ∷ v)

pub entry-Lacks : (f : Field) (v : Bytes) → has_control_byte v ≡ false → Lacks b'\n' (entry f v)
entry-Lacks f v h =
    Lacks-append b'\n' (env_key f) (b'=' ∷ v) (env_key-IsKey f).0 (refl, value-Lacks v h)

-- The end of an entry is that of its value, or the sign.
reverse-entry :
    (f : Field) (v : Bytes) → reverse (entry f v) ≡ reverse v ++ (b'=' ∷ reverse (env_key f))
reverse-entry f v =
    reverse-append (env_key f) (b'=' ∷ v)
    ∙ ap (λ r. r ++ reverse (env_key f)) (reverse-append (b'=' ∷ []) v)
    ∙ append_assoc (reverse v) (b'=' ∷ []) (reverse (env_key f))

trail_of_value : (r rest : Bytes) → trail r ≡ 0 → trail (r ++ b'=' ∷ rest) ≡ 0
trail_of_value [] rest h = trail_visible b'=' rest (omega arith) (omega arith)
trail_of_value (c ∷ r) rest h = elim (trail-append (c ∷ r) rest b'=' (omega arith) h) [
  | inl e ↦ absurd (omega arith)
  | inr e ↦ e
]

trim_space-entry : (f : Field) (v : Bytes) → trim_space v ≡ v → trim_space (entry f v) ≡ entry f v
trim_space-entry f v h =
    let (_, _, _, _, starts) = env_key-IsKey f in
    trim_space_fixed (entry f v) (starts (b'=' ∷ v)) (
      ap trail (reverse-entry f v)
      ∙ trail_of_value (reverse v) (reverse (env_key f)) (trail-of_fixed v h))

cut_byte-entry : (f : Field) (v : Bytes) → cut_byte b'=' (entry f v) ≡ some (env_key f, v)
cut_byte-entry f v = cut_byte-append b'=' (env_key f) v (env_key-IsKey f).1

pub plain_value :
    (v : Bytes)
    → validate_persisted_value v ≡ ok tt
    → (trim_space v ≡ v) × (has_control_byte v ≡ false)
unfolding validate_persisted_value
plain_value v h = (sym ((same_iff v (trim_space v)).0 (ground arith)), ground arith)

is_empty-entry : (key v : Bytes) → is_empty (key ++ b'=' ∷ v) ≡ false
is_empty-entry [] v = refl
is_empty-entry (c ∷ key) v = refl

-- What `load_line` does with an entry that `SaveEnv` wrote.
pub load_line-entry :
    (parse_url : Bytes → Option Url) (st : LoadState) (f : Field) (v : Bytes)
    → is_seen (env_key f) st.seen ≡ false
    → is_empty v ≡ false
    → validate_persisted_value v ≡ ok tt
    → validate_persisted_field parse_url f v ≡ ok tt
    → load_line parse_url st (entry f v)
      ≡ ok (record {
        seen = env_key f ∷ st.seen;
        recognized = st.recognized + 1;
        store = put f v st.store;
      })
unfolding load_line load_entry load_field
load_line-entry parse_url st f v fresh full plain valid =
    let (fixed, _) = plain_value v plain in
    let (_, _, some_key, key_fixed, _) = env_key-IsKey f in
    rw (
      trim_space-entry f v fixed,
      is_empty-entry (env_key f) v,
      same_refl (entry f v),
      cut_byte-entry f v,
      some_key,
      key_fixed,
      same_refl (env_key f),
      store_field_by_env_key-env_key f,
      fresh,
      full,
      plain,
      valid,
    )
