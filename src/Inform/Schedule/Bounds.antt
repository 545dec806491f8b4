-- ===== src/Inform/Schedule/Bounds.antt =====
-- Every delay that the schedule hands out is within the operator's and the firmware's bounds.
use Prim.Native.Nat.{min}
use unifi_stubd.Prelude.{ℕ, ◌*◌, ◌^◌, ◌≤◌, arith, Bool, true, false, not, ◌||◌, if◌then◌else◌}
use unifi_stubd.Prelude.Int.{
  ℤ, pos, negsuc, ◌≤ℤ◌, ◌<ℤ◌, mul64, quot, max_int64, pos_part, leb_ℤ, ≤ℤ_trans, ≤ℤ_refl,
}
use unifi_stubd.Inform.Schedule.{
  Schedule, Draw, doubled, failure, jitter, clamp_duration, max_ℤ, nonzero,
}
use unifi_stubd.Inform.Schedule.Backoff.{doubled_lem, pow_pos}

-- Between two bounds.
abbrev pub Within : ℤ → ℤ → ℤ → Type 0
Within lo hi z = (lo ≤ℤ z) × (z ≤ℤ hi)

pub clamp_duration-Within : (v lo hi : ℤ) → lo ≤ℤ hi → Within lo hi (clamp_duration v lo hi)
unfolding clamp_duration
clamp_duration-Within v lo hi h = ground arith

pub if-Within :
    (b : Bool) (lo hi x y : ℤ) → Within lo hi x → Within lo hi y → Within lo hi (if b then x else y)
if-Within true lo hi x y p q = p
if-Within false lo hi x y p q = q

-- Even where its arithmetic overflows, jitter stays between its bounds.
jitter-Within :
    (schedule : Schedule) (draw : Draw) (delay lo hi : ℤ)
    → Within lo hi delay
    → Within lo hi (jitter schedule draw delay lo hi)
unfolding jitter
jitter-Within schedule draw delay lo hi p =
    if-Within (not (nonzero schedule.config.jitter_percent) || leb_ℤ delay (pos 0)) lo hi _ _ p (
      if-Within (leb_ℤ (quot (mul64 delay schedule.config.jitter_percent) 100) (pos 0)) lo hi _ _ p
        (clamp_duration-Within _ lo hi (≤ℤ_trans lo delay hi p.0 p.1)))

le-capped : (n d m : ℕ) → d ≤ m → d ≤ min m (d * 2 ^ n)
le-capped n d m h = grind (arith, pow_pos n)

doubled-Within :
    (n : ℕ) (d lo m : ℤ) → pos 0 <ℤ d → m ≤ℤ max_int64 → Within lo m d → Within lo m (doubled n d m)
doubled-Within n (pos d) lo (pos m) h k w = rw (doubled_lem n d m (omega arith) (omega arith)) (
  ≤ℤ_trans lo (pos d) (pos (min m (d * 2 ^ n))) w.0 (omega (arith, le-capped n d m (omega arith))),
  omega arith,
)
doubled-Within n (pos d) lo (negsuc m) h k w = absurd (omega arith)
doubled-Within n (negsuc d) lo m h k w = absurd (omega arith)

pub max_ℤ-ge : (a b : ℤ) → (a ≤ℤ max_ℤ a b) × (b ≤ℤ max_ℤ a b)
max_ℤ-ge a b = ground arith

pub max_ℤ-le : (a b c : ℤ) → a ≤ℤ c → b ≤ℤ c → max_ℤ a b ≤ℤ c
max_ℤ-le a b c h k = ground arith

-- Whatever is drawn, a failure waits at least the normal interval and at most the larger of it and
-- the configured maximum, and it keeps the interval.
pub failure-Within :
    (schedule : Schedule) (draw : Draw)
    → pos 0 <ℤ schedule.effective
    → schedule.effective ≤ℤ max_int64
    → schedule.config.backoff_max ≤ℤ max_int64
    → Within schedule.effective
        (max_ℤ schedule.config.backoff_max schedule.effective)
        (failure schedule draw).1.next_delay
unfolding failure
failure-Within schedule draw h k l =
    let e = schedule.effective in
    let m = max_ℤ schedule.config.backoff_max e in
    let next = (failure schedule draw).0 in
    jitter-Within next draw (doubled (pos_part next.failures) e m) e m (
      doubled-Within (pos_part next.failures) e e m h (max_ℤ-le _ e max_int64 l k)
        (≤ℤ_refl e, (max_ℤ-ge schedule.config.backoff_max e).1))
