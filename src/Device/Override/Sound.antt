-- ===== src/Device/Override/Sound.antt =====
-- Validated overrides keep ports sound.
use mathlib.Core.Path.{subst}
use unifi_stubd.Prelude.{
  ℕ, zero, suc, ◌-◌, ◌≡◌, refl, arith, Bool, true, false, ◌||◌, List, [], ◌∷◌, Option, none, some,
  inl, inr, length, get_elem?, set, ok, if◌then◌else◌, Bool-cases,
}
use unifi_stubd.Prelude.Int.{ℤ, pos, pos_part, ◌≤ℤ◌, ltb_ℤ}
use unifi_stubd.Prelude.Text.{Bytes}
use unifi_stubd.Device.{Port, PortOverride}
use unifi_stubd.Device.Layout.{normalize_gateway_role, normalize_network_group}
use unifi_stubd.Device.Override.Accepts.{InPercent}
use unifi_stubd.Device.Override.{
  Validator, normalize, set_non_empty, apply_override, overridden, apply_in_range,
  apply_port_overrides,
}
use unifi_stubd.Device.Override.Applied.{apply_override-IsApplied, linked_speed}
use unifi_stubd.Device.Override.Legal.{LegalText, IsLegal, validate_port_override_iff}
use unifi_stubd.Device.Override.Validate.{validate_port_override}

module _ (is_ipv4 : Bytes → Bool) where
  -- The role is empty or one of the five, the MAC address is empty or one that is read, the IP address
  -- and the netmask are empty or IPv4, the group is empty or on one line, the percentage is neither
  -- below 0 nor above 100, and the speed, the VLAN, the latency and the downtime are not negative.
  pub record IsSound (p : Port) : Type 0 where
    pub role : LegalText is_ipv4 Validator.role_name p.role
    pub mac : LegalText is_ipv4 Validator.mac_address p.mac
    pub ip : LegalText is_ipv4 Validator.ipv4 p.ip
    pub netmask : LegalText is_ipv4 Validator.netmask_value p.netmask
    pub group : LegalText is_ipv4 Validator.group_name p.network_group
    pub percent : InPercent p.wan_uptime_percent
    pub speed : pos 0 ≤ℤ p.speed
    pub vlan : pos 0 ≤ℤ p.vlan
    pub latency : pos 0 ≤ℤ p.wan_latency_ms
    pub downtime : pos 0 ≤ℤ p.wan_downtime_seconds

  abbrev pub AllSound : List Port → Type 0
  AllSound [] = Unit
  AllSound (p ∷ ps) = IsSound p × AllSound ps

linked_speed_nonneg :
    (up : Option Bool) (wanted old : ℤ)
    → pos 0 ≤ℤ wanted
    → pos 0 ≤ℤ old
    → pos 0 ≤ℤ linked_speed up wanted old
linked_speed_nonneg none wanted old h k = ground arith
linked_speed_nonneg (some true) wanted old h k = ground arith
linked_speed_nonneg (some false) wanted old h k = ground arith

-- A text that is given is legal, or the old one stays.
chosen_text :
    (is_ipv4 : Bytes → Bool) (validator : Validator) (value old : Bytes)
    → LegalText is_ipv4 validator value
    → LegalText is_ipv4 validator old
    → LegalText is_ipv4 validator (set_non_empty value old)
chosen_text is_ipv4 validator [] old h k = k
chosen_text is_ipv4 validator (c ∷ value) old h k = h

speed_nonneg :
    (disabled : Bool) (up : Option Bool) (wanted old : ℤ)
    → pos 0 ≤ℤ wanted
    → pos 0 ≤ℤ old
    → pos 0 ≤ℤ (if disabled then pos 0 else linked_speed up wanted old)
speed_nonneg true up wanted old h k = omega arith
speed_nonneg false up wanted old h k = linked_speed_nonneg up wanted old h k

module _ (is_ipv4 : Bytes → Bool) where
  AllSound-set :
      (ports : List Port) (i : ℕ) (q : Port)
      → AllSound is_ipv4 ports
      → IsSound is_ipv4 q
      → AllSound is_ipv4 (set ports i q)
  AllSound-set [] i q h s = tt
  AllSound-set (p ∷ ports) zero q (h, hs) s = (s, hs)
  AllSound-set (p ∷ ports) (suc i) q (h, hs) s = (h, AllSound-set ports i q hs s)

  IsSound-at :
      (ports : List Port) (i : ℕ) (p : Port)
      → AllSound is_ipv4 ports
      → get_elem? ports i ≡ some p
      → IsSound is_ipv4 p
  IsSound-at [] i p h e = cc
  IsSound-at (q ∷ ports) zero p (h, hs) e = let same : q ≡ p = cc in subst (IsSound is_ipv4) same h
  IsSound-at (q ∷ ports) (suc i) p (h, hs) e = IsSound-at ports i p hs e

module _ (is_ipv4 : Bytes → Bool) (n : ℕ) where
  apply_override-IsSound :
      (o : PortOverride) (p : Port)
      → IsLegal is_ipv4 n o
      → IsSound is_ipv4 p
      → IsSound is_ipv4 (apply_override o p)
  unfolding normalize normalize_gateway_role normalize_network_group
  apply_override-IsSound o p legal s =
      let a = apply_override-IsApplied o p in
      record {
        role =
            rw a.texts.role
              (chosen_text is_ipv4 Validator.role_name _ p.role legal.texts.1.1.1.1.1.0 s.role);
        mac =
            rw a.texts.mac
              (chosen_text is_ipv4 Validator.mac_address _ p.mac legal.texts.1.1.0 s.mac);
        ip = rw a.texts.ip (chosen_text is_ipv4 Validator.ipv4 _ p.ip legal.texts.1.1.1.0 s.ip);
        netmask = rw a.texts.netmask (
            chosen_text is_ipv4 Validator.netmask_value _ p.netmask legal.texts.1.1.1.1.0
              s.netmask);
        group = rw a.texts.network_group (
            chosen_text is_ipv4 Validator.group_name _ p.network_group legal.texts.1.1.1.1.1.1.0
              s.group);
        percent = rw a.rest.wan_uptime_percent legal.percent;
        speed = rw a.link.speed (speed_nonneg o.disabled o.up o.speed p.speed legal.speed s.speed);
        vlan = rw a.rest.vlan legal.vlan;
        latency = rw a.rest.wan_latency_ms legal.latency;
        downtime = rw a.rest.wan_downtime_seconds legal.downtime;
      }

  overridden-AllSound :
      (o : PortOverride) (i : ℕ) (ports : List Port) (found : Option Port)
      → IsLegal is_ipv4 n o
      → AllSound is_ipv4 ports
      → get_elem? ports i ≡ found
      → AllSound is_ipv4 (overridden o found i ports)
  overridden-AllSound o i ports none legal h e = h
  overridden-AllSound o i ports (some p) legal h e =
      AllSound-set is_ipv4 ports i (apply_override o p) h
        (apply_override-IsSound o p legal (IsSound-at is_ipv4 ports i p h e))

  apply_in_range-AllSound :
      (o : PortOverride) (ports : List Port)
      → IsLegal is_ipv4 n o
      → AllSound is_ipv4 ports
      → AllSound is_ipv4 (apply_in_range ports o)
  unfolding apply_in_range
  apply_in_range-AllSound o ports legal h =
      elim (Bool-cases (ltb_ℤ o.port (pos 1) || ltb_ℤ (pos (length ports)) o.port)) [
        | inl out ↦ rw out h
        | inr within ↦ rw within (overridden-AllSound o (pos_part o.port - 1) ports _ legal h refl)
      ]

  -- Each override is accepted by ValidatePortOverride.
  abbrev pub AllValid : List PortOverride → Type 0
  AllValid [] = Unit
  AllValid (o ∷ os) = (validate_port_override is_ipv4 o n ≡ ok tt) × AllValid os

  -- If ValidatePortOverride accepts each override, then ApplyPortOverrides keeps the ports sound: each
  -- role is empty or one of the five, each MAC address is empty or can be read, each IP address and
  -- netmask is empty or IPv4, each group is empty or on one line, no percentage is below 0 or above
  -- 100 (a NaN is neither), and no speed, VLAN, latency or downtime is negative. Of counters and rates
  -- it states nothing.
  pub apply_port_overrides-AllSound :
      (ports : List Port) (os : List PortOverride)
      → AllValid os
      → AllSound is_ipv4 ports
      → AllSound is_ipv4 (apply_port_overrides ports os)
  unfolding apply_port_overrides
  apply_port_overrides-AllSound ports [] v h = h
  apply_port_overrides-AllSound ports (o ∷ os) (v, vs) h =
      let legal = (validate_port_override_iff is_ipv4 o n).0 v in
      apply_port_overrides-AllSound (apply_in_range ports o) os vs
        (apply_in_range-AllSound o ports legal h)
