-- ===== src/Device/Override/Health/Samples.antt =====
-- What the overrides of WAN samples make of the ports.
use unifi_stubd.Prelude.{
  ℕ, suc, length, ◌++◌, tests, ◌≡◌, refl, ap, ◌∙◌, true, false, List, [], ◌∷◌, some, inl, inr,
  get_elem?, Bool-cases, arith,
}
use unifi_stubd.Prelude.Int.{ℤ, pos, negsuc, ◌≤ℤ◌, ◌<ℤ◌}
use unifi_stubd.Prelude.Float.{Float64, less, float_zero, float_hundred}
use unifi_stubd.Device.{Port, WanHealthResult}
use unifi_stubd.Device.Override.{apply_port_overrides}
use unifi_stubd.Device.Override.Accepts.{InPercent}
use unifi_stubd.Device.Override.Each.{names_port, map_port, apply_port_overrides_lem}
use unifi_stubd.Device.Override.Health.{
  clamp_float64, non_negative_int, wan_health_overrides, after_sample, measured_at,
  overrides_at-health, map_port_cong,
}

-- A percentage is kept unless it is below 0 or above 100. A NaN is neither, and is kept.
pub data IsCut (x : Float64) : Float64 → Type 0 where
  below : less x float_zero ≡ true → IsCut x float_zero
  above : less x float_zero ≡ false → less float_hundred x ≡ true → IsCut x float_hundred
  within : less x float_zero ≡ false → less float_hundred x ≡ false → IsCut x x

-- A number is kept unless it is negative.
pub data IsFloored (z : ℤ) : ℤ → Type 0 where
  kept : pos 0 ≤ℤ z → IsFloored z z
  raised : z <ℤ pos 0 → IsFloored z (pos 0)

-- The port after a sample: its four WAN values and its VLAN are set and all else is as it was.
pub record IsMeasured (r : WanHealthResult) (p q : Port) : Type 0 where
  pub percent : Float64
  pub latency : ℤ
  pub downtime : ℤ
  pub cut : IsCut r.uptime_percent percent
  pub in_range : InPercent (some percent)
  pub latency_floored : IsFloored r.latency_ms latency
  pub downtime_floored : IsFloored r.downtime_seconds downtime
  pub all_else : q ≡ record p {
    vlan = pos 0;
    wan_connected = some r.connected;
    wan_latency_ms = latency;
    wan_downtime_seconds = downtime;
    wan_uptime_percent = some percent;
  }

-- No sample is for the port at the place `i`.
abbrev pub NoSample : ℕ → List WanHealthResult → Type 0
NoSample i [] = Unit
NoSample i (r ∷ rs) = (r.port ≡ pos (suc i) → ⊥) × NoSample i rs

-- The port at the place `i` is as it was, or is what the last sample for it makes of it.
pub data Sampled (i : ℕ) (rs : List WanHealthResult) (p : Port) : Port → Type 0 where
  untouched : NoSample i rs → Sampled i rs p p
  measured :
      (before : List WanHealthResult) (r : WanHealthResult) (after : List WanHealthResult)
      (q : Port)
      → rs ≡ before ++ (r ∷ after)
      → r.port ≡ pos (suc i)
      → NoSample i after
      → IsMeasured r p q
      → Sampled i rs p q

clamp_float64-IsCut : (x : Float64) → IsCut x (clamp_float64 x float_zero float_hundred)
unfolding clamp_float64
clamp_float64-IsCut x = elim (Bool-cases (less x float_zero)) [
  | inl low ↦ rw low (IsCut.below low)
  | inr fine ↦ elim (Bool-cases (less float_hundred x)) [
    | inl high ↦ rw (fine, high) (IsCut.above fine high)
    | inr fits ↦ rw (fine, fits) (IsCut.within fine fits)
  ]
]

InPercent-cut : (x y : Float64) → IsCut x y → InPercent (some y)
unfolding less
InPercent-cut x _ (IsCut.below h) = (refl, refl)
InPercent-cut x _ (IsCut.above h k) = (refl, refl)
InPercent-cut x _ (IsCut.within h k) = (h, k)

non_negative_int-IsFloored : (z : ℤ) → IsFloored z (non_negative_int z)
non_negative_int-IsFloored (pos n) = IsFloored.kept (omega arith)
non_negative_int-IsFloored (negsuc n) = IsFloored.raised (omega arith)

IsMeasured-after_sample : (r : WanHealthResult) (p : Port) → IsMeasured r p (after_sample r p)
IsMeasured-after_sample r p = record {
  percent = clamp_float64 r.uptime_percent float_zero float_hundred;
  latency = non_negative_int r.latency_ms;
  downtime = non_negative_int r.downtime_seconds;
  cut = clamp_float64-IsCut r.uptime_percent;
  in_range = InPercent-cut r.uptime_percent _ (clamp_float64-IsCut r.uptime_percent);
  latency_floored = non_negative_int-IsFloored r.latency_ms;
  downtime_floored = non_negative_int-IsFloored r.downtime_seconds;
  all_else = refl;
}

-- A later sample hides an earlier one.
IsMeasured-again :
    (r r' : WanHealthResult) (p q : Port) → IsMeasured r' (after_sample r p) q → IsMeasured r' p q
IsMeasured-again r r' p q m = record {
  percent = m.percent;
  latency = m.latency;
  downtime = m.downtime;
  cut = m.cut;
  in_range = m.in_range;
  latency_floored = m.latency_floored;
  downtime_floored = m.downtime_floored;
  all_else = m.all_else;
}

Sampled-skip :
    (i : ℕ) (r : WanHealthResult) (rs : List WanHealthResult) (p q : Port)
    → (r.port ≡ pos (suc i) → ⊥)
    → Sampled i rs p q
    → Sampled i (r ∷ rs) p q
Sampled-skip i r rs p _ other (Sampled.untouched none_left) = Sampled.untouched (other, none_left)
Sampled-skip i r rs p _ other (Sampled.measured before r' after q split at_port rest m) =
    Sampled.measured (r ∷ before) r' after q (ap (◌∷◌ r) split) at_port rest m

Sampled-first :
    (i : ℕ) (r : WanHealthResult) (rs : List WanHealthResult) (p q : Port)
    → r.port ≡ pos (suc i)
    → Sampled i rs (after_sample r p) q
    → Sampled i (r ∷ rs) p q
Sampled-first i r rs p _ at_port (Sampled.untouched none_left) =
    Sampled.measured [] r rs (after_sample r p) refl at_port none_left (IsMeasured-after_sample r p)
Sampled-first i r rs p _ at_port (Sampled.measured before r' after q split at_port' rest m) =
    Sampled.measured (r ∷ before) r' after q (ap (◌∷◌ r) split) at_port' rest
      (IsMeasured-again r r' p q m)

named : (z : ℤ) (i : ℕ) → names_port z i ≡ true → z ≡ pos (suc i)
named z i h = grind tests

other_port : (z : ℤ) (i : ℕ) → names_port z i ≡ false → z ≡ pos (suc i) → ⊥
other_port z i h = grind tests

Sampled-measured_at :
    (i : ℕ) (rs : List WanHealthResult) (p : Port) → Sampled i rs p (measured_at i rs p)
Sampled-measured_at i [] p = Sampled.untouched tt
Sampled-measured_at i (r ∷ rs) p = elim (Bool-cases (names_port r.port i)) [
  | inl here ↦
      rw here (
        Sampled-first i r rs p _ (named r.port i here)
          (Sampled-measured_at i rs (after_sample r p)))
  | inr elsewhere ↦
      rw elsewhere
        (Sampled-skip i r rs p _ (other_port r.port i elsewhere) (Sampled-measured_at i rs p))
]

-- The WAN samples keep the number of ports. A port for which there is no sample stays as it is, and of
-- a port with samples they change only its VLAN, which is 0 afterwards, and its four WAN values, which
-- are those of the last sample for it: a percentage below 0 is 0 and one above 100 is 100 (a NaN
-- stays), and a negative latency or downtime is 0.
pub wan_health_overrides_lem :
    (ports : List Port) (rs : List WanHealthResult) (i : ℕ) (p : Port)
    → get_elem? ports i ≡ some p
    → (length (apply_port_overrides ports (wan_health_overrides rs)) ≡ length ports)
      × ((q : Port) × (get_elem? (apply_port_overrides ports (wan_health_overrides rs)) i ≡ some q)
          × Sampled i rs p q)
wan_health_overrides_lem ports rs i p at_place =
    let (size, made) = apply_port_overrides_lem ports (wan_health_overrides rs) i in
    (
      size,
      (
        measured_at i rs p,
        made
            ∙ map_port_cong _ _ (get_elem? ports i) (overrides_at-health i rs)
            ∙ ap (map_port (measured_at i rs)) at_place,
        Sampled-measured_at i rs p,
      ),
    )
