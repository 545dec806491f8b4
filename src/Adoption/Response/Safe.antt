-- ===== src/Adoption/Response/Safe.antt =====
-- What `ParseControllerResponseInfo` makes of an answer: an update, a reset, or a command that is
-- ignored.
use unifi_stubd.Prelude.{
  ◌≡◌, refl, sym, ap, ◌∙◌, ◌⊎◌, inl, inr, arith, true, false, Option, none, some, List, [], ok,
  Bool-cases, wrap_err-eq-ok, wrap_err-bind-eq-ok, ok-injective, bind-eq-ok, then_branch,
  else_branch,
}
use mathlib.Core.Path.{subst}
use unifi_stubd.Prelude.Text.{Bytes, codes, same, same_iff, is_empty}
use unifi_stubd.Adoption.State
use unifi_stubd.Adoption.Store.{empty_store}
use unifi_stubd.Adoption.Validate.{Url}
use unifi_stubd.Adoption.MgmtCfg.{parse_mgmt_cfg}
use unifi_stubd.Adoption.MgmtCfg.Sanitized.{IsSanitized, parse_mgmt_cfg-IsSanitized}
use unifi_stubd.Adoption.Json.{
  Json, has_key, member, validate_json_limits, decode_unique_top_level_object, json_string,
  summarize_system_cfg,
}
use unifi_stubd.Adoption.Response.{
  ControllerResponse, ResponseError, typed, connected_store, with_mgmt_cfg, with_system_cfg,
  setparam_response, noop_response, dispatch_response, typed_response, object_response,
  other_response, parse_controller_response_info, known_controller_response_type,
  is_unsafe_controller_command,
}

module _ (parse_url : Bytes → Option Url) where
  -- An update: the connected state, and settings that are checked.
  abbrev pub IsUpdate : ControllerResponse → Type 0
  IsUpdate r =
      ((r.type_name ≡ codes "setparam") ⊎ (r.type_name ≡ codes "noop"))
      × (r.has_state_update ≡ true)
      × (r.reset_requested ≡ false)
      × (r.store.state ≡ State.connected)
      × IsSanitized parse_url (record r.store { state = [] })

-- A reset of the adoption state, which only `setdefault` asks for.
abbrev pub IsReset : ControllerResponse → Type 0
IsReset r =
    (r.type_name ≡ codes "setdefault")
    × (r.reset_requested ≡ true)
    × (r.store ≡ record empty_store { state = State.factory })

-- A command that changes nothing.
abbrev pub IsIgnored : ControllerResponse → Type 0
IsIgnored r =
    ((r.type_name ≡ codes "upgrade")
      ⊎ ((r.type_name ≡ codes "cmd")
          ⊎ ((r.type_name ≡ codes "reboot") ⊎ (r.type_name ≡ codes "geo_ip_update"))))
    × (r.ignored ≡ true)
    × (r.has_state_update ≡ false)
    × (r.reset_requested ≡ false)
    × (r.store ≡ empty_store)

module _ (parse_url : Bytes → Option Url) where
  abbrev pub IsSafe : ControllerResponse → Type 0
  IsSafe r = (IsUpdate parse_url r ⊎ (IsReset r ⊎ IsIgnored r)) × (r.reset_applied ≡ false)

  empty-IsSanitized : IsSanitized parse_url empty_store
  empty-IsSanitized = (refl, refl, inl refl, omega arith, inl refl)

  -- What the three steps of `setparam` keep.
  abbrev IsPending : ControllerResponse → Type 0
  IsPending r =
      (r.type_name ≡ codes "setparam")
      × (r.has_state_update ≡ true)
      × (r.reset_requested ≡ false)
      × (r.reset_applied ≡ false)
      × (r.store.state ≡ State.connected)
      × IsSanitized parse_url (record r.store { state = [] })

  with_mgmt_cfg-IsPending :
      (text : Bytes) (r next : ControllerResponse)
      → with_mgmt_cfg parse_url text r ≡ ok next
      → IsPending r
      → IsPending next
  unfolding with_mgmt_cfg
  with_mgmt_cfg-IsPending text r next h p = elim (Bool-cases (is_empty text)) [
    | inl e ↦ let kept : r ≡ next = ground arith in subst IsPending kept p
    | inr e ↦
        let (s, parsed, made) =
          wrap_err-bind-eq-ok ResponseError.bad_mgmt_cfg (parse_mgmt_cfg parse_url text) _
            (else_branch (is_empty text) _ _ e h) in
        let (name, update, reset, applied, _, _) = p in
        let (_, version, key, cfg, url) = parse_mgmt_cfg-IsSanitized parse_url text s parsed in
        subst IsPending (ok-injective made)
          (name, update, reset, applied, refl, (refl, version, key, cfg, url))
  ]

module _ (parse_url : Bytes → Option Url) (json : Json) where
  with_system_cfg-IsPending :
      (raw : List (Bytes × Bytes)) (r next : ControllerResponse)
      → with_system_cfg json raw r ≡ ok next
      → IsPending parse_url r
      → IsPending parse_url next
  unfolding with_system_cfg
  with_system_cfg-IsPending raw r next h p = elim (Bool-cases (has_key (codes "system_cfg") raw)) [
    | inl e ↦
        let (summary, _, made) =
          wrap_err-bind-eq-ok ResponseError.bad_json
            (summarize_system_cfg json (member (codes "system_cfg") raw)) _
            (then_branch (has_key (codes "system_cfg") raw) _ _ e h) in
        subst (IsPending parse_url) (ok-injective made) p
    | inr e ↦ let kept : r ≡ next = ground arith in subst (IsPending parse_url) kept p
  ]

  setparam-IsSafe :
      (raw : List (Bytes × Bytes)) (r : ControllerResponse)
      → setparam_response parse_url json (codes "setparam") raw ≡ ok r
      → IsSafe parse_url r
  unfolding setparam_response
  setparam-IsSafe raw r h =
      let (s, first, second) =
        bind-eq-ok
          (with_mgmt_cfg parse_url (json_string json (member (codes "mgmt_cfg") raw))
            (record (typed (codes "setparam")) {
              store = connected_store;
              has_state_update = true;
            }))
          _ h in
      let begun =
        with_mgmt_cfg-IsPending parse_url _ _ s first
          (refl, refl, refl, refl, refl, empty-IsSanitized parse_url) in
      let (name, update, reset, applied, state, checked) =
        with_system_cfg-IsPending raw s r second begun in
      (inl (inl name, update, reset, state, checked), applied)

  noop-IsSafe :
      (raw : List (Bytes × Bytes)) → IsSafe parse_url (noop_response json (codes "noop") raw)
  unfolding noop_response
  noop-IsSafe raw = (inl (inr refl, refl, refl, refl, empty-IsSanitized parse_url), refl)

  -- The types that stand behind the tests for the five commands with a branch of their own.
  unsafe_types :
      (name : Bytes)
      → is_unsafe_controller_command name ≡ true
      → same name (codes "upgrade") ≡ false
      → (name ≡ codes "reboot") ⊎ (name ≡ codes "geo_ip_update")
  unfolding is_unsafe_controller_command
  unsafe_types name h e = elim (Bool-cases (same name (codes "reboot"))) [
    | inl t ↦ inl ((same_iff name (codes "reboot")).0 t)
    | inr f ↦ inr ((same_iff name (codes "geo_ip_update")).0 (ground arith))
  ]

  no_other_type :
      (name : Bytes)
      → known_controller_response_type name ≡ true
      → same name (codes "setparam") ≡ false
      → same name (codes "upgrade") ≡ false
      → same name (codes "noop") ≡ false
      → same name (codes "setdefault") ≡ false
      → same name (codes "cmd") ≡ false
      → is_unsafe_controller_command name ≡ false
      → ⊥
  unfolding known_controller_response_type is_unsafe_controller_command
  no_other_type name known a b c d e f = ground arith

  other_response-IsSafe :
      (name : Bytes) (r : ControllerResponse)
      → known_controller_response_type name ≡ true
      → same name (codes "setparam") ≡ false
      → same name (codes "upgrade") ≡ false
      → same name (codes "noop") ≡ false
      → other_response name ≡ ok r
      → IsSafe parse_url r
  unfolding other_response
  other_response-IsSafe name r known a b c h = elim (Bool-cases (same name (codes "setdefault"))) [
    | inl e ↦
        subst (IsSafe parse_url)
          (ok-injective (then_branch (same name (codes "setdefault")) _ _ e h))
          (inr (inl ((same_iff name (codes "setdefault")).0 e, refl, refl)), refl)
    | inr d ↦
        let h1 = else_branch (same name (codes "setdefault")) _ _ d h in
        elim (Bool-cases (same name (codes "cmd"))) [
          | inl e ↦
              subst (IsSafe parse_url)
                (ok-injective (then_branch (same name (codes "cmd")) _ _ e h1))
                (
                  inr (inr (inr (inl ((same_iff name (codes "cmd")).0 e)), refl, refl, refl, refl)),
                  refl,
                )
          | inr f ↦
              let h2 = else_branch (same name (codes "cmd")) _ _ f h1 in
              elim (Bool-cases (is_unsafe_controller_command name)) [
                | inl e ↦
                    subst (IsSafe parse_url)
                      (ok-injective (then_branch (is_unsafe_controller_command name) _ _ e h2))
                      (inr (inr (inr (inr (unsafe_types name e b)), refl, refl, refl, refl)), refl)
                | inr g ↦ absurd (no_other_type name known a b c d f g)
              ]
        ]
  ]

  dispatch-IsSafe :
      (name : Bytes) (raw : List (Bytes × Bytes)) (r : ControllerResponse)
      → known_controller_response_type name ≡ true
      → dispatch_response parse_url json name raw ≡ ok r
      → IsSafe parse_url r
  unfolding dispatch_response
  dispatch-IsSafe name raw r known h = elim (Bool-cases (same name (codes "setparam"))) [
    | inl e ↦
        let named : name ≡ codes "setparam" = (same_iff name (codes "setparam")).0 e in
        setparam-IsSafe raw r (
          subst (λ n. setparam_response parse_url json n raw ≡ ok r) named
            (then_branch (same name (codes "setparam")) _ _ e h))
    | inr a ↦
        let h1 = else_branch (same name (codes "setparam")) _ _ a h in
        elim (Bool-cases (same name (codes "upgrade"))) [
          | inl e ↦
              subst (IsSafe parse_url)
                (ok-injective (then_branch (same name (codes "upgrade")) _ _ e h1))
                (
                  inr (inr (inl ((same_iff name (codes "upgrade")).0 e), refl, refl, refl, refl)),
                  refl,
                )
          | inr b ↦
              let h2 = else_branch (same name (codes "upgrade")) _ _ b h1 in
              elim (Bool-cases (same name (codes "noop"))) [
                | inl e ↦
                    let named : name ≡ codes "noop" = (same_iff name (codes "noop")).0 e in
                    let made = ok-injective (then_branch (same name (codes "noop")) _ _ e h2) in
                    subst (IsSafe parse_url) (ap (λ n. noop_response json n raw) (sym named) ∙ made)
                      (noop-IsSafe raw)
                | inr c ↦
                    other_response-IsSafe name r known a b c
                      (else_branch (same name (codes "noop")) _ _ c h2)
              ]
        ]
  ]

  typed-IsSafe :
      (t : Option (Option Bytes)) (raw : List (Bytes × Bytes)) (r : ControllerResponse)
      → typed_response parse_url json t raw ≡ ok r
      → IsSafe parse_url r
  unfolding typed_response
  typed-IsSafe none raw r h = cc
  typed-IsSafe (some none) raw r h = cc
  typed-IsSafe (some (some name)) raw r h =
      elim (Bool-cases (known_controller_response_type name)) [
        | inl e ↦
            dispatch-IsSafe name raw r e (then_branch (known_controller_response_type name) _ _ e h)
        | inr e ↦ absurd (ground arith)
      ]

  object-IsSafe :
      (o : Option (List (Bytes × Bytes))) (r : ControllerResponse)
      → object_response parse_url json o ≡ ok r
      → IsSafe parse_url r
  unfolding object_response
  object-IsSafe none r h = cc
  object-IsSafe (some raw) r h = elim (Bool-cases (has_key (codes "_type") raw)) [
    | inl e ↦ typed-IsSafe _ raw r (then_branch (has_key (codes "_type") raw) _ _ e h)
    | inr e ↦ absurd (ground arith)
  ]

  -- Whatever bytes a controller sends, a summary that is returned is one of three: an update by
  -- `setparam` or `noop` to the connected state, with a checked key, URL and version;
  -- a reset, which only `setdefault` asks for; or one of the four commands that change firmware or
  -- host, marked as ignored and with nothing to apply. No reset has been applied yet.
  pub parse_controller_response_info-IsSafe :
      (text : Bytes) (r : ControllerResponse)
      → parse_controller_response_info parse_url json text ≡ ok r
      → IsSafe parse_url r
  unfolding parse_controller_response_info
  parse_controller_response_info-IsSafe text r h =
      let (_, rest) = wrap_err-eq-ok ResponseError.bad_json (validate_json_limits json text) _ h in
      let (o, _, made) =
        wrap_err-bind-eq-ok ResponseError.bad_json (decode_unique_top_level_object json text) _
          rest in
      object-IsSafe o r made
