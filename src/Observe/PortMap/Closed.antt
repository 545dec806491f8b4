-- ===== src/Observe/PortMap/Closed.antt =====
-- A mapped port is up only if its interface was seen up.
use mathlib.Core.Path.{subst}
use unifi_stubd.Prelude.{and_right, some-injective}
use unifi_stubd.Prelude.{
  ℕ, ◌≡◌, ◌⊎◌, refl, sym, ap, ◌∙◌, inl, inr, Bool, true, false, not, List, [], ◌∷◌, Option, none,
  some, get_elem?, by_branch, Bool-cases, if◌then◌else◌,
}
use unifi_stubd.Prelude.Int.{ℤ}
use unifi_stubd.Prelude.Text.{is_empty, trim_space}
use unifi_stubd.Device.{Port, PortOverride}
use unifi_stubd.Device.Override.{apply_override, apply_port_overrides}
use unifi_stubd.Device.Override.Applied.{link_or, apply_override-IsApplied}
use unifi_stubd.Device.Override.Each.{map_port, names_port, overrides_at, apply_port_overrides_lem}
use unifi_stubd.Observe.{PortObservation, PortMapping}
use unifi_stubd.Observe.Macs.{is_enabled}
use unifi_stubd.Observe.PortMap.{
  PortMapObservation, observation_of, apply_observation, override_from_observation,
  disabled_override, overrides_from_observation,
}

-- The source saw an interface up that a mapping gives to the port at a place.
abbrev pub SeenUp : ℕ → List PortMapping → PortMapObservation → Type 0
SeenUp i [] observation = ⊥
SeenUp i (m ∷ ms) observation =
    let seen = observation_of m.port observation in
    ((is_empty (trim_space m.interface) ≡ false)
      × (names_port (override_from_observation m.port seen).port i ≡ true)
      × (is_enabled seen.up ≡ true))
    ⊎ SeenUp i ms observation

-- Every override says whether its port is up, and of the port at a place only if `P`.
abbrev Closed : ℕ → Type 0 → List PortOverride → Type 0
Closed i P [] = Unit
Closed i P (o ∷ os) =
    ((b : Bool) × (o.up ≡ some b) × (b ≡ true → names_port o.port i ≡ true → P)) × Closed i P os

Closed-weaken :
    (i : ℕ) (P Q : Type 0) (os : List PortOverride) → (P → Q) → Closed i P os → Closed i Q os
Closed-weaken i P Q [] f h = tt
Closed-weaken i P Q (o ∷ os) f ((b, e, g), h) =
    ((b, e, λ t n. f (g t n)), Closed-weaken i P Q os f h)

up-override_from_observation :
    (port : ℤ) (seen : PortObservation)
    → (override_from_observation port seen).up ≡ some (is_enabled seen.up)
unfolding override_from_observation apply_observation
up-override_from_observation port seen = refl

up-disabled_override : (port : ℤ) → (disabled_override port).up ≡ some false
unfolding disabled_override
up-disabled_override port = refl

not_empty : (b : Bool) → not b ≡ true → b ≡ false
not_empty true h = cc
not_empty false h = refl

overrides_from_observation-Closed :
    (i : ℕ) (ms : List PortMapping) (observation : PortMapObservation)
    → Closed i (SeenUp i ms observation) (overrides_from_observation ms observation)
unfolding overrides_from_observation
overrides_from_observation-Closed i [] observation = tt
overrides_from_observation-Closed i (m ∷ ms) observation =
    let P = SeenUp i (m ∷ ms) observation in
    let rest = overrides_from_observation ms observation in
    let later : Closed i P rest =
      Closed-weaken i (SeenUp i ms observation) P rest (λ h. inr h)
        (overrides_from_observation-Closed i ms observation) in
    let shown = override_from_observation m.port (observation_of m.port observation) in
    let off = disabled_override m.port in
    by_branch (Closed i P) (not (is_empty (trim_space m.interface))) (shown ∷ rest)
      (if m.disabled then off ∷ rest else rest)
      (λ given. (
        (
          is_enabled (observation_of m.port observation).up,
          up-override_from_observation m.port (observation_of m.port observation),
          λ up named. inl (not_empty _ given, named, up),
        ),
        later,
      ))
      (λ missing.
        by_branch (Closed i P) m.disabled (off ∷ rest) rest
          (λ disabled. ((false, up-disabled_override m.port, λ h n. cc), later)) (λ enabled. later))

-- No override names the port.
abbrev pub Unnamed : ℕ → List PortOverride → Type 0
Unnamed i [] = Unit
Unnamed i (o ∷ os) = (names_port o.port i ≡ false) × Unnamed i os

apply_override-up :
    (o : PortOverride) (p : Port) (b : Bool)
    → o.up ≡ some b
    → (apply_override o p).up ≡ true
    → b ≡ true
apply_override-up o p b e h =
    let applied = apply_override-IsApplied o p in
    let link = and_right (not o.disabled) (link_or o.up p.up) (sym applied.link.up ∙ h) in
    subst (λ (l : Option Bool). link_or l p.up ≡ true) e link

overrides_at-Closed :
    (P : Type 0) (i : ℕ) (os : List PortOverride) (p : Port)
    → Closed i P os
    → (overrides_at i os p).up ≡ true
    → P ⊎ (Unnamed i os × (p.up ≡ true))
overrides_at-Closed P i [] p closed h = inr (tt, h)
overrides_at-Closed P i (o ∷ os) p ((b, e, reason), closed) h =
    elim (Bool-cases (names_port o.port i)) [
      | inl hit ↦
          let changed =
            subst
              (λ (c : Bool). (overrides_at i os (if c then apply_override o p else p)).up ≡ true)
              hit h in
          elim (overrides_at-Closed P i os (apply_override o p) closed changed) [
            | inl why ↦ inl why
            | inr (unnamed, up) ↦ inl (reason (apply_override-up o p b e up) hit)
          ]
      | inr miss ↦
          let same =
            subst
              (λ (c : Bool). (overrides_at i os (if c then apply_override o p else p)).up ≡ true)
              miss h in
          elim (overrides_at-Closed P i os p closed same) [
            | inl why ↦ inl why
            | inr (unnamed, up) ↦ inr ((miss, unnamed), up)
          ]
    ]

mapped_port :
    (P : Type 0) (i : ℕ) (os : List PortOverride) (found : Option Port) (p : Port)
    → Closed i P os
    → map_port (overrides_at i os) found ≡ some p
    → p.up ≡ true
    → P ⊎ (Unnamed i os × (q : Port) × (found ≡ some q) × (q.up ≡ true))
mapped_port P i os none p closed e up = cc
mapped_port P i os (some q) p closed e up =
    let same : overrides_at i os q ≡ p = some-injective e in
    elim (overrides_at-Closed P i os q closed (ap (λ (x : Port). x.up) same ∙ up)) [
      | inl why ↦ inl why
      | inr (unnamed, before) ↦ inr (unnamed, q, refl, before)
    ]

-- After the overrides of a port map a port is up only if the source saw an interface up that a mapping
-- gives to this port, or no override names the port and it was up before.
pub mapped_port-is_up :
    (ports : List Port) (ms : List PortMapping) (observation : PortMapObservation) (i : ℕ)
    (p : Port)
    → get_elem? (apply_port_overrides ports (overrides_from_observation ms observation)) i ≡ some p
    → p.up ≡ true
    → SeenUp i ms observation
      ⊎ (Unnamed i (overrides_from_observation ms observation)
          × (q : Port) × (get_elem? ports i ≡ some q)
          × (q.up ≡ true))
mapped_port-is_up ports ms observation i p e up =
    let os = overrides_from_observation ms observation in
    mapped_port (SeenUp i ms observation) i os (get_elem? ports i) p
      (overrides_from_observation-Closed i ms observation)
      (sym (apply_port_overrides_lem ports os i).1 ∙ e) up
