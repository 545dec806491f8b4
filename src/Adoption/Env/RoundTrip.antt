-- ===== src/Adoption/Env/RoundTrip.antt =====
-- `LoadEnv` reads back what `SaveEnv` wrote.
use unifi_stubd.Prelude.{
  ℕ, ◌+◌, ◌≡◌, refl, sym, ap, ◌∙◌, arith, Bool, true, false, not, ◌&&◌, Option, List, [], ◌∷◌, ◌==◌,
  if◌then◌else◌, ok, inl, inr, Bool-cases, bind-eq-ok, reject-eq-ok,
}
use unifi_stubd.Prelude.Text.{Bytes, trim_space_nil, same, is_empty, parse_bool}
use unifi_stubd.Prelude.Text.Lines.{split_byte, split_byte-append}
use unifi_stubd.Adoption.Store.{Store, Field, empty_store, env_key, get, put, store_fields}
use unifi_stubd.Adoption.Validate.{
  Url, validate_persisted_value, validate_persisted_field, validate_persisted_store,
  validate_store_for_persistence, count_fields,
}
use unifi_stubd.Adoption.Env.{LoadState, is_seen, load_line, load_lines, load_text, render, start}
use unifi_stubd.Adoption.Env.Line.{entry, entry-Lacks, load_line-entry, plain_value}

-- A field that is set is put into another store.
unfoldable pub laid : Store → Field → Store → Store
laid s f acc = if is_empty (get f s) then acc else put f (get f s) acc

-- The store that the fields which are set make over another one.
abbrev pub overlay : Store → List Field → Store → Store
overlay s [] acc = acc
overlay s (f ∷ fs) acc = overlay s fs (laid s f acc)

laid_text :
    (v : Bytes) (acc : Store) (set : Bytes → Store)
    → set [] ≡ acc
    → (if is_empty v then acc else set v) ≡ set v
laid_text [] acc set h = sym h
laid_text (c ∷ v) acc set h = refl

laid_flag :
    (s : Store) (b : Bool) (acc : Store)
    → s.use_aes_gcm ≡ b
    → acc.use_aes_gcm ≡ false
    → laid s Field.use_aes_gcm acc ≡ record acc { use_aes_gcm = b }
unfolding laid parse_bool
laid_flag s true acc h k = rw h
laid_flag s false acc h k = rw (h, k)

-- All six of them make the store itself.
overlay_all : (s : Store) → overlay s store_fields empty_store ≡ s
unfolding laid
overlay_all s =
    let s1 : Store = record empty_store { state = s.state } in
    let s2 : Store = record s1 { inform_url = s.inform_url } in
    let s3 : Store = record s2 { auth_key = s.auth_key } in
    let s4 : Store = record s3 { cfg_version = s.cfg_version } in
    let s5 : Store = record s4 { use_aes_gcm = s.use_aes_gcm } in
    let step1 : laid s Field.state empty_store ≡ s1 =
      laid_text s.state empty_store (λ v. put Field.state v empty_store) refl in
    let step2 : laid s Field.inform_url s1 ≡ s2 =
      laid_text s.inform_url s1 (λ v. put Field.inform_url v s1) refl in
    let step3 : laid s Field.auth_key s2 ≡ s3 =
      laid_text s.auth_key s2 (λ v. put Field.auth_key v s2) refl in
    let step4 : laid s Field.cfg_version s3 ≡ s4 =
      laid_text s.cfg_version s3 (λ v. put Field.cfg_version v s3) refl in
    let step5 : laid s Field.use_aes_gcm s4 ≡ s5 = laid_flag s s.use_aes_gcm s4 refl refl in
    let step6 : laid s Field.version s5 ≡ s =
      laid_text s.version s5 (λ v. put Field.version v s5) refl in
    rw (step1, step2, step3, step4, step5, step6)

-- Whichever of the fields are written, none has been seen when it comes.
fresh : List Field → List Bytes → Bool
fresh [] seen = true
fresh (f ∷ fs) seen =
    not (is_seen (env_key f) seen) && (fresh fs (env_key f ∷ seen) && fresh fs seen)

module _ (parse_url : Bytes → Option Url) where
  abbrev Loads : LoadState → Store → List Field → ℕ → Type 0
  Loads st s fs n =
      (seen : List Bytes) × (load_lines parse_url st (split_byte b'\n' (render s fs))
        ≡ ok
            (record { seen = seen; recognized = st.recognized + n; store = overlay s fs st.store }))

  count_fields_cons :
      (s : Store) (f : Field) (fs : List Field) (n : ℕ)
      → count_fields parse_url s (f ∷ fs) ≡ ok n
      → is_empty (get f s) ≡ false
      → (m : ℕ) × (n ≡ m + 1)
        × (count_fields parse_url s fs ≡ ok m)
        × (validate_persisted_value (get f s) ≡ ok tt)
        × (validate_persisted_field parse_url f (get f s) ≡ ok tt)
  unfolding count_fields
  count_fields_cons s f fs n h e = ground arith

  Loads-written :
      (s : Store) (f : Field) (fs : List Field) (st : LoadState) (m : ℕ)
      → is_seen (env_key f) st.seen ≡ false
      → is_empty (get f s) ≡ false
      → validate_persisted_value (get f s) ≡ ok tt
      → validate_persisted_field parse_url f (get f s) ≡ ok tt
      → Loads
          (record {
            seen = env_key f ∷ st.seen;
            recognized = st.recognized + 1;
            store = put f (get f s) st.store;
          })
          s
          fs
          m
      → Loads st s (f ∷ fs) (m + 1)
  unfolding load_lines render laid
  Loads-written s f fs st m unseen full plain valid (seen, rest) =
      let v = get f s in
      let next : LoadState = record {
        seen = env_key f ∷ st.seen;
        recognized = st.recognized + 1;
        store = put f v st.store;
      } in
      let (_, no_break) = plain_value v plain in
      let line : load_line parse_url st (entry f v) ≡ ok next =
        load_line-entry parse_url st f v unseen full plain valid in
      (
        seen,
        rw
            (
              full,
              split_byte-append b'\n' (entry f v) (render s fs) (entry-Lacks f v no_break),
              line,
              rest,
            )
            (ap
              (λ (k : ℕ).
                ok (record { seen = seen; recognized = k; store = overlay s fs next.store }))
              (omega arith)),
      )

  load_lines_end : (st : LoadState) → load_lines parse_url st (split_byte b'\n' []) ≡ ok st
  unfolding load_lines split_byte load_line
  load_lines_end st = rw trim_space_nil

  load_lines-render :
      (s : Store) (fs : List Field) (st : LoadState) (n : ℕ)
      → fresh fs st.seen ≡ true
      → count_fields parse_url s fs ≡ ok n
      → Loads st s fs n
  unfolding fresh render count_fields laid
  load_lines-render s [] st n h c = (st.seen, load_lines_end st ∙ ground arith)
  load_lines-render s (f ∷ fs) st n h c = elim (Bool-cases (is_empty (get f s))) [
    | inl e ↦
        let (seen, rest) = load_lines-render s fs st n (ground arith) (ground arith) in
        (seen, rw e rest)
    | inr e ↦
        let (m, more, rest, plain, valid) = count_fields_cons s f fs n c e in
        rw more (
          Loads-written s f fs st m (ground arith) e plain valid
            (load_lines-render s fs _ m (ground arith) rest))
  ]

  load_text_of_lines :
      (text : Bytes) (seen : List Bytes) (s t : Store) (n : ℕ)
      → load_lines parse_url start (split_byte b'\n' text)
        ≡ ok (record { seen = seen; recognized = 0 + n; store = t })
      → t ≡ s
      → (n == 0) ≡ false
      → validate_persisted_store s ≡ ok tt
      → load_text parse_url text ≡ ok s
  unfolding load_text
  load_text_of_lines text seen s t n loaded same_store some_field lifecycle =
      rw (loaded, same_store, lifecycle) (ground arith)

  -- The text of a store that passes `validateStoreForPersistence` is read back to the store.
  pub load_text-render :
      (s : Store)
      → validate_store_for_persistence parse_url s ≡ ok tt
      → load_text parse_url (render s store_fields) ≡ ok s
  unfolding validate_store_for_persistence fresh is_seen same
  load_text-render s h =
      let (n, counted, rest) = bind-eq-ok (count_fields parse_url s store_fields) _ h in
      let (some_field, lifecycle) = reject-eq-ok (n == 0) _ _ rest in
      let (seen, loaded) = load_lines-render s store_fields start n refl counted in
      load_text_of_lines (render s store_fields) seen s _ n loaded (overlay_all s) some_field
        lifecycle
