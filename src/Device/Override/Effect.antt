-- ===== src/Device/Override/Effect.antt =====
-- internal/device/overrides.go: what PortOverrideEmpty asks for.
use unifi_stubd.Prelude.{
  zero, suc, ◌≡◌, refl, Bool, true, false, not, ◌&&◌, List, [], ◌∷◌, Option, none, some, and_left,
  and_right,
}
use unifi_stubd.Prelude.Int.{ℤ, pos, negsuc}
use unifi_stubd.Prelude.Text.{Bytes, is_empty}
use unifi_stubd.Device.{PortOverride}
use unifi_stubd.Device.Override.{StringField, string_fields, text_of, normalize, is_zero, is_nil}
use unifi_stubd.Device.Override.Validate.{other_fields_empty, strings_empty, port_override_empty}

-- Each text is empty in its normal form.
abbrev pub NoTexts : List StringField → PortOverride → Type 0
NoTexts [] o = Unit
NoTexts (field ∷ fields) o =
    (normalize field.normalizer (text_of field.key o) ≡ []) × NoTexts fields o

-- An override that sets nothing, field by field.
pub record IsEffectless (o : PortOverride) : Type 0 where
  pub texts : NoTexts string_fields o
  pub speed : o.speed ≡ pos 0
  pub ipv6 : o.ipv6 ≡ []
  pub up : o.up ≡ none
  pub enabled : o.disabled ≡ false
  pub rx_bytes : o.rx_bytes ≡ pos 0
  pub tx_bytes : o.tx_bytes ≡ pos 0
  pub rx_packets : o.rx_packets ≡ pos 0
  pub tx_packets : o.tx_packets ≡ pos 0
  pub rx_errors : o.rx_errors ≡ pos 0
  pub tx_errors : o.tx_errors ≡ pos 0
  pub no_counters : o.counters_set ≡ false
  pub vlan : o.vlan ≡ pos 0
  pub percent : o.wan_uptime_percent ≡ none
  pub latency : o.wan_latency_ms ≡ pos 0
  pub downtime : o.wan_downtime_seconds ≡ pos 0
  pub connected : o.wan_connected ≡ none
  pub no_rates : o.traffic_rates_set ≡ false

both : (a b : Bool) → (a && b) ≡ true → (a ≡ true) × (b ≡ true)
both a b h = (and_left a b h, and_right a b h)

zero_of_test : (z : ℤ) → is_zero z ≡ true → z ≡ pos 0
zero_of_test (pos zero) h = refl
zero_of_test (pos (suc n)) h = cc
zero_of_test (negsuc n) h = cc

nil_of_test : (xs : List Bytes) → is_nil xs ≡ true → xs ≡ []
nil_of_test [] h = refl
nil_of_test (x ∷ xs) h = cc

none_of_test :
    {A : Type 0} (o : Option A) → (elim o [ none ↦ true | some a ↦ false ]) ≡ true → o ≡ none
none_of_test none h = refl
none_of_test (some a) h = cc

off : (b : Bool) → not b ≡ true → b ≡ false
off true h = cc
off false h = refl

empty_of_test : (s : Bytes) → is_empty s ≡ true → s ≡ []
empty_of_test [] h = refl
empty_of_test (c ∷ s) h = cc

NoTexts-of_test :
    (fields : List StringField) (o : PortOverride)
    → strings_empty fields o ≡ true
    → NoTexts fields o
unfolding strings_empty
NoTexts-of_test [] o h = tt
NoTexts-of_test (field ∷ fields) o h =
    let (here, rest) = both (is_empty (normalize field.normalizer (text_of field.key o))) _ h in
    (empty_of_test _ here, NoTexts-of_test fields o rest)

test_of_NoTexts :
    (fields : List StringField) (o : PortOverride)
    → NoTexts fields o
    → strings_empty fields o ≡ true
unfolding strings_empty
test_of_NoTexts [] o h = refl
test_of_NoTexts (field ∷ fields) o (here, rest) = rw here (test_of_NoTexts fields o rest)

-- An override that PortOverrideEmpty calls empty sets nothing.
pub IsEffectless-of_test : (o : PortOverride) → port_override_empty o ≡ true → IsEffectless o
unfolding port_override_empty
IsEffectless-of_test o h =
    let (texts, h0) = both (strings_empty string_fields o) (other_fields_empty o) h in
    let (h1, no_rates) = both _ (not o.traffic_rates_set) h0 in
    let (h2, connected) =
      both _ (elim o.wan_connected [ none ↦ true | some connected ↦ false ]) h1 in
    let (h3, downtime) = both _ (is_zero o.wan_downtime_seconds) h2 in
    let (h4, latency) = both _ (is_zero o.wan_latency_ms) h3 in
    let (h5, percent) =
      both _ (elim o.wan_uptime_percent [ none ↦ true | some percent ↦ false ]) h4 in
    let (h6, vlan) = both _ (is_zero o.vlan) h5 in
    let (h7, no_counters) = both _ (not o.counters_set) h6 in
    let (h8, tx_errors) = both _ (is_zero o.tx_errors) h7 in
    let (h9, rx_errors) = both _ (is_zero o.rx_errors) h8 in
    let (h10, tx_packets) = both _ (is_zero o.tx_packets) h9 in
    let (h11, rx_packets) = both _ (is_zero o.rx_packets) h10 in
    let (h12, tx_bytes) = both _ (is_zero o.tx_bytes) h11 in
    let (h13, rx_bytes) = both _ (is_zero o.rx_bytes) h12 in
    let (h14, enabled) = both _ (not o.disabled) h13 in
    let (h15, up) = both _ (elim o.up [ none ↦ true | some up ↦ false ]) h14 in
    let (speed, ipv6) = both (is_zero o.speed) (is_nil o.ipv6) h15 in
    record {
      texts = NoTexts-of_test string_fields o texts;
      speed = zero_of_test o.speed speed;
      ipv6 = nil_of_test o.ipv6 ipv6;
      up = none_of_test o.up up;
      enabled = off o.disabled enabled;
      rx_bytes = zero_of_test o.rx_bytes rx_bytes;
      tx_bytes = zero_of_test o.tx_bytes tx_bytes;
      rx_packets = zero_of_test o.rx_packets rx_packets;
      tx_packets = zero_of_test o.tx_packets tx_packets;
      rx_errors = zero_of_test o.rx_errors rx_errors;
      tx_errors = zero_of_test o.tx_errors tx_errors;
      no_counters = off o.counters_set no_counters;
      vlan = zero_of_test o.vlan vlan;
      percent = none_of_test o.wan_uptime_percent percent;
      latency = zero_of_test o.wan_latency_ms latency;
      downtime = zero_of_test o.wan_downtime_seconds downtime;
      connected = none_of_test o.wan_connected connected;
      no_rates = off o.traffic_rates_set no_rates;
    }

-- PortOverrideEmpty calls an override that sets nothing empty.
pub test_of_IsEffectless : (o : PortOverride) → IsEffectless o → port_override_empty o ≡ true
unfolding port_override_empty
test_of_IsEffectless o e =
    rw
      (
        test_of_NoTexts string_fields o e.texts,
        e.speed,
        e.ipv6,
        e.up,
        e.enabled,
        e.rx_bytes,
        e.tx_bytes,
        e.rx_packets,
        e.tx_packets,
        e.rx_errors,
        e.tx_errors,
        e.no_counters,
        e.vlan,
        e.percent,
        e.latency,
        e.downtime,
        e.connected,
        e.no_rates,
      )
      refl
