-- ===== src/Device/Override/Legal.antt =====
-- What the validation of an override means.
use unifi_stubd.Prelude.{
  ℕ, ◌≡◌, ◌↔◌, ◌⊎◌, refl, sym, ◌∙◌, arith, Bool, true, false, not, ◌&&◌, ◌||◌, List, [], ◌∷◌, inl,
  inr, ok, reject, reject-eq-ok, Bool-cases, bind-eq-ok, true-false,
}
use unifi_stubd.Prelude.Int.{pos, ◌≤ℤ◌, ◌<ℤ◌, ltb_ℤ}
use unifi_stubd.Prelude.Text.{Bytes, is_empty}
use unifi_stubd.Device.{PortOverride}
use unifi_stubd.Device.Override.{Validator, StringField, string_fields, text_of, normalize}
use unifi_stubd.Device.Override.Validate.{
  OverrideError, port_override_empty, bad_percent, refused_text, validate_texts,
  validate_port_override,
}
use unifi_stubd.Device.Override.Accepts.{
  IsAccepted, InPercent, bad_percent_iff, refused_text-IsAccepted, IsAccepted-refused_text,
}
use unifi_stubd.Device.Override.Effect.{IsEffectless, IsEffectless-of_test, test_of_IsEffectless}

module _ (is_ipv4 : Bytes → Bool) where
  -- The text is missing or is accepted.
  abbrev pub LegalText : Validator → Bytes → Type 0
  LegalText validator value = (is_empty value ≡ true) ⊎ IsAccepted is_ipv4 validator value

  abbrev pub LegalTexts : List StringField → PortOverride → Type 0
  LegalTexts [] o = Unit
  LegalTexts (field ∷ fields) o =
      LegalText field.validator (normalize field.normalizer (text_of field.key o))
      × LegalTexts fields o

  pub record IsLegal (n : ℕ) (o : PortOverride) : Type 0 where
    pub low : pos 0 <ℤ o.port
    pub high : o.port ≤ℤ pos n
    pub speed : pos 0 ≤ℤ o.speed
    pub vlan : pos 0 ≤ℤ o.vlan
    pub percent : InPercent o.wan_uptime_percent
    pub latency : pos 0 ≤ℤ o.wan_latency_ms
    pub downtime : pos 0 ≤ℤ o.wan_downtime_seconds
    pub texts : LegalTexts string_fields o
    pub effective : ¬ IsEffectless o

  text_cases :
      (validator : Validator) (value : Bytes)
      → (not (is_empty value) && refused_text is_ipv4 validator value) ≡ false
      → LegalText validator value
  text_cases validator [] h = inl refl
  text_cases validator (c ∷ value) h = inr (refused_text-IsAccepted is_ipv4 validator (c ∷ value) h)

  legal_of_texts :
      (fields : List StringField) (o : PortOverride)
      → validate_texts is_ipv4 fields o ≡ ok tt
      → LegalTexts fields o
  unfolding validate_texts
  legal_of_texts [] o h = tt
  legal_of_texts (field ∷ fields) o h =
      let (kept, rest) = reject-eq-ok _ _ _ h in
      (text_cases field.validator _ kept, legal_of_texts fields o rest)

  texts_of_legal :
      (fields : List StringField) (o : PortOverride)
      → LegalTexts fields o
      → validate_texts is_ipv4 fields o ≡ ok tt
  unfolding validate_texts
  texts_of_legal [] o h = refl
  texts_of_legal (field ∷ fields) o (inl empty, h) = rw empty (texts_of_legal fields o h)
  texts_of_legal (field ∷ fields) o (inr fine, h) =
      elim (Bool-cases (is_empty (normalize field.normalizer (text_of field.key o)))) [
        | inl empty ↦ rw empty (texts_of_legal fields o h)
        | inr given ↦
            rw (given, IsAccepted-refused_text is_ipv4 field.validator _ fine)
              (texts_of_legal fields o h)
      ]

  not_rejected : (b : Bool) (e : OverrideError) → reject b e ≡ ok tt → b ≡ false
  not_rejected true e h = cc
  not_rejected false e h = refl

  has_effect : (o : PortOverride) → ¬ IsEffectless o → port_override_empty o ≡ false
  has_effect o effective = elim (Bool-cases (port_override_empty o)) [
    | inl nothing ↦ absurd (effective (IsEffectless-of_test o nothing))
    | inr some_effect ↦ some_effect
  ]

  -- ValidatePortOverride accepts an override exactly if its port is one of the ports, its speed, its
  -- VLAN, its latency and its downtime are not negative, its percentage is neither below 0 nor above
  -- 100 (a NaN passes, and counters and rates may be anything), each text that it gives has the form
  -- of its field (an interface without a slash, an address that is read, an IPv4 address and netmask,
  -- one of five roles, a group on one line), and it sets something.
  pub validate_port_override_iff :
      (o : PortOverride) (n : ℕ) → (validate_port_override is_ipv4 o n ≡ ok tt) ↔ IsLegal n o
  unfolding validate_port_override
  validate_port_override_iff o n = (
    λ h.
        let (port, h1) =
          reject-eq-ok (ltb_ℤ o.port (pos 1) || ltb_ℤ (pos n) o.port) OverrideError.bad_port _ h in
        let (speed, h2) = reject-eq-ok (ltb_ℤ o.speed (pos 0)) OverrideError.bad_speed _ h1 in
        let (vlan, h3) = reject-eq-ok (ltb_ℤ o.vlan (pos 0)) OverrideError.bad_vlan _ h2 in
        let (percent, h4) =
          reject-eq-ok (bad_percent o.wan_uptime_percent) OverrideError.bad_uptime _ h3 in
        let (latency, h5) =
          reject-eq-ok (ltb_ℤ o.wan_latency_ms (pos 0)) OverrideError.bad_latency _ h4 in
        let (downtime, h6) =
          reject-eq-ok (ltb_ℤ o.wan_downtime_seconds (pos 0)) OverrideError.bad_downtime _ h5 in
        let (_, texts, last) = bind-eq-ok (validate_texts is_ipv4 string_fields o) _ h6 in
        record {
          low = ground arith;
          high = ground arith;
          speed = ground arith;
          vlan = ground arith;
          percent = (bad_percent_iff o.wan_uptime_percent).0 percent;
          latency = ground arith;
          downtime = ground arith;
          texts = legal_of_texts string_fields o texts;
          effective = λ e. true-false (
              sym (test_of_IsEffectless o e)
              ∙ not_rejected (port_override_empty o) OverrideError.empty_override last);
        },
    λ legal.
        let port : (ltb_ℤ o.port (pos 1) || ltb_ℤ (pos n) o.port) ≡ false =
          ground (arith, legal.low, legal.high) in
        let speed : ltb_ℤ o.speed (pos 0) ≡ false = ground (arith, legal.speed) in
        let vlan : ltb_ℤ o.vlan (pos 0) ≡ false = ground (arith, legal.vlan) in
        let latency : ltb_ℤ o.wan_latency_ms (pos 0) ≡ false = ground (arith, legal.latency) in
        let downtime : ltb_ℤ o.wan_downtime_seconds (pos 0) ≡ false =
          ground (arith, legal.downtime) in
        rw
          (
            port,
            speed,
            vlan,
            (bad_percent_iff o.wan_uptime_percent).1 legal.percent,
            latency,
            downtime,
            texts_of_legal string_fields o legal.texts,
            has_effect o legal.effective,
          )
          refl,
  )
