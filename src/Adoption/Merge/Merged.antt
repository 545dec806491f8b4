-- ===== src/Adoption/Merge/Merged.antt =====
-- The store that `Merge` returns, field by field, and the flag.
use unifi_stubd.Prelude.{
  ◌≡◌, refl, ap, ◌∙◌, ◌↔◌, arith, Bool, true, false, not, ◌&&◌, ◌||◌, List, [], ◌∷◌, if◌then◌else◌,
}
use unifi_stubd.Prelude.Text.{Bytes, codes, same, same_iff, parse_bool}
use unifi_stubd.Adoption.Store.{Store, Field, get, put}
use unifi_stubd.Adoption.Merge.{differs, merge_fields, merge, next_state}

-- The value of a text field afterwards.
abbrev pub pick : Bytes → Bytes → Bytes
pick value old = if differs value old then value else old

abbrev pub merged : Store → Store → Store
merged base update = record {
  inform_url = pick update.inform_url base.inform_url;
  auth_key = pick update.auth_key base.auth_key;
  cfg_version = pick update.cfg_version base.cfg_version;
  use_aes_gcm = update.use_aes_gcm || base.use_aes_gcm;
  version = pick update.version base.version;
  state = pick (next_state base update) base.state;
}

abbrev pub is_changed : Store → Store → Bool
is_changed base update =
    differs update.version base.version
    || ((update.use_aes_gcm && not base.use_aes_gcm)
        || (differs update.cfg_version base.cfg_version
            || (differs update.auth_key base.auth_key
                || (differs update.inform_url base.inform_url
                    || differs (next_state base update) base.state))))

or_false : (b : Bool) → (b || false) ≡ b
or_false true = refl
or_false false = refl

if_put :
    (h : Bool) (value old : Bytes) (set : Bytes → Store)
    → (if h then set value else set old) ≡ set (if h then value else old)
if_put true value old set = refl
if_put false value old set = refl

if_flag :
    (u b : Bool) (s : Store)
    → s.use_aes_gcm ≡ b
    → (if differs (if u then codes "true" else []) (if b then codes "true" else [])
        then put Field.use_aes_gcm (if u then codes "true" else []) s
        else s)
      ≡ record s { use_aes_gcm = u || b }
unfolding differs same parse_bool
if_flag true true s h = rw h
if_flag true false s h = refl
if_flag false true s h = rw h
if_flag false false s h = rw h

differs_flag :
    (u b : Bool)
    → differs (if u then codes "true" else []) (if b then codes "true" else []) ≡ (u && not b)
unfolding differs same
differs_flag true true = refl
differs_flag true false = refl
differs_flag false b = refl

turn :
    (u : Store) (f : Field) (fs : List Field) (b c : Store) (changed hit : Bool)
    → differs (get f u) (get f b) ≡ hit
    → (if differs (get f u) (get f b) then put f (get f u) b else b) ≡ c
    → merge_fields u (f ∷ fs) b changed ≡ merge_fields u fs c (hit || changed)
unfolding merge_fields
turn u f fs b c changed hit h e = rw (← h, ← e)

pub merge_lem :
    (base update : Store) → merge base update ≡ (merged base update, is_changed base update)
unfolding merge merge_fields
merge_lem base update =
    let st = next_state base update in
    let u : Store = record update { state = st } in
    let s1 : Store = record base { state = pick st base.state } in
    let s2 : Store = record s1 { inform_url = pick u.inform_url base.inform_url } in
    let s3 : Store = record s2 { auth_key = pick u.auth_key base.auth_key } in
    let s4 : Store = record s3 { cfg_version = pick u.cfg_version base.cfg_version } in
    let s5 : Store = record s4 { use_aes_gcm = u.use_aes_gcm || base.use_aes_gcm } in
    let s6 : Store = record s5 { version = pick u.version base.version } in
    let f6 : List Field = [] in
    let f5 : List Field = Field.version ∷ f6 in
    let f4 : List Field = Field.use_aes_gcm ∷ f5 in
    let f3 : List Field = Field.cfg_version ∷ f4 in
    let f2 : List Field = Field.auth_key ∷ f3 in
    let f1 : List Field = Field.inform_url ∷ f2 in
    let h1 : Bool = differs st base.state in
    let h2 : Bool = differs u.inform_url base.inform_url || h1 in
    let h3 : Bool = differs u.auth_key base.auth_key || h2 in
    let h4 : Bool = differs u.cfg_version base.cfg_version || h3 in
    let h5 : Bool = (u.use_aes_gcm && not base.use_aes_gcm) || h4 in
    turn u Field.state f1 base s1 false h1 refl
      (if_put _ st base.state (λ v. put Field.state v base))
    ∙ ap (λ b. merge_fields u f1 s1 b) (or_false h1)
    ∙ turn u Field.inform_url f2 s1 s2 h1 _ refl
        (if_put _ u.inform_url base.inform_url (λ v. put Field.inform_url v s1))
    ∙ turn u Field.auth_key f3 s2 s3 h2 _ refl
        (if_put _ u.auth_key base.auth_key (λ v. put Field.auth_key v s2))
    ∙ turn u Field.cfg_version f4 s3 s4 h3 _ refl
        (if_put _ u.cfg_version base.cfg_version (λ v. put Field.cfg_version v s3))
    ∙ turn u Field.use_aes_gcm f5 s4 s5 h4 _ (differs_flag u.use_aes_gcm base.use_aes_gcm)
        (if_flag u.use_aes_gcm base.use_aes_gcm s4 refl)
    ∙ turn u Field.version f6 s5 s6 h5 _ refl
        (if_put _ u.version base.version (λ v. put Field.version v s5))

-- A text field that keeps its value does not differ.
differs_of_pick : (value old : Bytes) → pick value old ≡ old → differs value old ≡ false
unfolding differs
differs_of_pick value old h = ground (arith, (same_iff old value).1)

unchanged : (base update : Store) → is_changed base update ≡ false → merged base update ≡ base
unchanged base update h = ground arith

changed_of_store :
    (base update : Store) → merged base update ≡ base → is_changed base update ≡ false
changed_of_store base update h =
    let state =
      differs_of_pick (next_state base update) base.state (ap (λ (s : Store). s.state) h) in
    let url =
      differs_of_pick update.inform_url base.inform_url (ap (λ (s : Store). s.inform_url) h) in
    let key = differs_of_pick update.auth_key base.auth_key (ap (λ (s : Store). s.auth_key) h) in
    let cfg =
      differs_of_pick update.cfg_version base.cfg_version (ap (λ (s : Store). s.cfg_version) h) in
    let version = differs_of_pick update.version base.version (ap (λ (s : Store). s.version) h) in
    let flag = ap (λ (s : Store). s.use_aes_gcm) h in ground arith

-- `Merge` reports a change exactly if the store that it returns is another one.
pub merge-changed_iff :
    (base update : Store) → ((merge base update).1 ≡ false) ↔ ((merge base update).0 ≡ base)
merge-changed_iff base update =
    rw (merge_lem base update) (unchanged base update, changed_of_store base update)
