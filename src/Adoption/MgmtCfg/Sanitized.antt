-- ===== src/Adoption/MgmtCfg/Sanitized.antt =====
-- What `parseMgmtCFG` lets through of the settings of a controller.
use unifi_stubd.Prelude.{
  ◌≡◌, ◌≤◌, refl, ◌⊎◌, inl, inr, arith, false, Option, none, some, List, [], ◌∷◌, length, ltb, ok,
  Option-cases, bind-eq-ok, reject-eq-ok, ok-injective,
}
use mathlib.Core.Path.{subst}
use unifi_stubd.Prelude.Text.{Bytes, codes, same, is_empty, trim_space}
use unifi_stubd.Prelude.Text.Lines.{split_byte, cut_byte}
use unifi_stubd.Prelude.Text.Hex.{decode_hex}
use unifi_stubd.Adoption.Store.{
  Store, Field, empty_store, mgmt_key, put, store_field_by_mgmt_key, store_field_by_mgmt_key_sound,
}
use unifi_stubd.Adoption.Validate.{
  Url, is_default_auth_key, validate_inform_url, validate_mgmt_field,
  validate_individual_auth_key_text,
}
use unifi_stubd.Adoption.MgmtCfg.{
  mgmt_field, mgmt_entry, mgmt_lines, parse_mgmt_cfg, max_mgmt_cfg_line, max_mgmt_cfg_lines,
  max_mgmt_cfg_bytes,
}

-- No key, or the digits of one that is not the public default key.
abbrev pub IsIndividual : Bytes → Type 0
IsIndividual text =
    (text ≡ [])
    ⊎ ((length text ≡ 32)
        × ((key : Bytes) × (decode_hex text ≡ some key) × (is_default_auth_key key ≡ false)))

module _ (parse_url : Bytes → Option Url) where
  -- Neither the lifecycle nor the version is set, the key is an individual one, the URL is none or
  -- one that passes the check, and the version of the settings is short.
  abbrev pub IsSanitized : Store → Type 0
  IsSanitized s =
      (s.state ≡ [])
      × (s.version ≡ [])
      × IsIndividual s.auth_key
      × (length s.cfg_version ≤ 31)
      × ((s.inform_url ≡ []) ⊎ (validate_inform_url parse_url s.inform_url ≡ ok tt))

  -- What the checks of the four keys say.
  auth_key_checked :
      (value : Bytes)
      → validate_mgmt_field parse_url (codes "authkey") value ≡ ok tt
      → IsIndividual value
  unfolding validate_mgmt_field same validate_individual_auth_key_text
  auth_key_checked value h = elim (Option-cases (decode_hex value)) [
    | inl e ↦ absurd (ground arith)
    | inr (key, e) ↦ inr (ground arith, (key, e, ground arith))
  ]

  cfgversion_checked :
      (value : Bytes)
      → validate_mgmt_field parse_url (codes "cfgversion") value ≡ ok tt
      → length value ≤ 31
  unfolding validate_mgmt_field same
  cfgversion_checked value h = ground arith

  inform_url_checked :
      (value : Bytes)
      → validate_mgmt_field parse_url (codes "inform_url") value ≡ ok tt
      → validate_inform_url parse_url value ≡ ok tt
  unfolding validate_mgmt_field same
  inform_url_checked value h = h

  IsSanitized-put :
      (s : Store) (f : Field) (value : Bytes)
      → is_empty (mgmt_key f) ≡ false
      → validate_mgmt_field parse_url (mgmt_key f) value ≡ ok tt
      → IsSanitized s
      → IsSanitized (put f value s)
  IsSanitized-put s Field.state value e h w = cc
  IsSanitized-put s Field.version value e h w = cc
  IsSanitized-put s Field.inform_url value e h (st, v, k, c, u) =
      (st, v, k, c, inr (inform_url_checked value h))
  IsSanitized-put s Field.auth_key value e h (st, v, k, c, u) =
      (st, v, auth_key_checked value h, c, u)
  IsSanitized-put s Field.cfg_version value e h (st, v, k, c, u) =
      (st, v, k, cfgversion_checked value h, u)
  IsSanitized-put s Field.use_aes_gcm value e h w = w

  IsSanitized-field :
      (s next : Store) (key value : Bytes)
      → mgmt_field parse_url s key value (store_field_by_mgmt_key key) ≡ ok next
      → IsSanitized s
      → IsSanitized next
  unfolding mgmt_field
  IsSanitized-field s next key value h w = elim (Option-cases (store_field_by_mgmt_key key)) [
    | inl e ↦ let kept : s ≡ next = ground arith in subst IsSanitized kept w
    | inr (f, e) ↦
        let (full, named) = store_field_by_mgmt_key_sound key f e in
        let checked : validate_mgmt_field parse_url key value ≡ ok tt = ground arith in
        let is_next : put f value s ≡ next = ground arith in
        subst IsSanitized is_next (IsSanitized-put s f value full (rw named checked) w)
  ]

  IsSanitized-entry :
      (s next : Store) (e : Option (Bytes × Bytes))
      → mgmt_entry parse_url s e ≡ ok next
      → IsSanitized s
      → IsSanitized next
  unfolding mgmt_entry
  IsSanitized-entry s next none h w = subst IsSanitized (ok-injective h) w
  IsSanitized-entry s next (some (key, value)) h w =
      IsSanitized-field s next key (trim_space value) h w

  IsSanitized-lines :
      (s next : Store) (lines : List Bytes)
      → mgmt_lines parse_url s lines ≡ ok next
      → IsSanitized s
      → IsSanitized next
  unfolding mgmt_lines
  IsSanitized-lines s next [] h w = subst IsSanitized (ok-injective h) w
  IsSanitized-lines s next (line ∷ lines) h w =
      let (_, rest) = reject-eq-ok (ltb max_mgmt_cfg_line (length line)) _ _ h in
      let (t, here, there) =
        bind-eq-ok (mgmt_entry parse_url s (cut_byte b'=' (trim_space line))) _ rest in
      IsSanitized-lines t next lines there (IsSanitized-entry s t _ here w)

  -- Whatever a controller sends, what `parseMgmtCFG` returns sets neither the state nor the version,
  -- and holds no key or an individual one, a version of at most 31 bytes, and no URL or one that
  -- passes the check.
  pub parse_mgmt_cfg-IsSanitized :
      (text : Bytes) (s : Store) → parse_mgmt_cfg parse_url text ≡ ok s → IsSanitized s
  unfolding parse_mgmt_cfg
  parse_mgmt_cfg-IsSanitized text s h =
      let (_, rest) = reject-eq-ok (ltb max_mgmt_cfg_bytes (length text)) _ _ h in
      let (_, run) =
        reject-eq-ok (ltb max_mgmt_cfg_lines (length (split_byte b'\n' text))) _ _ rest in
      IsSanitized-lines empty_store s (split_byte b'\n' text) run
        (refl, refl, inl refl, omega arith, inl refl)
