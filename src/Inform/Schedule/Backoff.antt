-- ===== src/Inform/Schedule/Backoff.antt =====
-- The doubling loop of `Failure`: a capped power of two, with no overflow on the way.
use Prim.Native.Nat.{min, max}
use native.Mathlib.Nat.{pow-succ'}
use unifi_stubd.Prelude.{
  ℕ, zero, suc, ◌+◌, ◌*◌, ◌^◌, ◌≤◌, ◌<◌, ◌≡◌, refl, ap, ◌∙◌, arith, Bool-cases, true, ◌||◌, inl,
  inr,
}
use unifi_stubd.Prelude.Int.{
  pos, ◌*ℤ◌, mul64, mul64_exact, add64, add64_exact, ◌+ℤ◌, quot, two63, leb_ℤ, ltb_ℤ,
}
use unifi_stubd.Inform.Schedule.{Schedule, Draw, doubled, failure, max_ℤ}

twice_exact : (d : ℕ) → d + d < two63 → mul64 (pos d) (pos 2) ≡ pos (d + d)
unfolding ◌*ℤ◌
twice_exact d h = ground (arith, mul64_exact (pos d) (pos 2))

pub pow_pos : (n : ℕ) → 1 ≤ 2 ^ n
pow_pos zero = omega arith
pow_pos (suc n) = omega (arith, pow_pos n, pow-succ' 2 n)

-- One more round on the closed form.
cap_reached : (d m p : ℕ) → d ≤ m → m < d + d → 1 ≤ p → min m (d * (2 * p)) ≡ m
cap_reached d m p h k l = grind arith

double_pow : (d n : ℕ) → (d + d) * 2 ^ n ≡ d * 2 ^ suc n
double_pow d n = rw pow-succ' (omega arith)

-- The loop gives the first interval times a power of two, cut off at the maximum.
pub doubled_lem :
    (n d m : ℕ) → d ≤ m → m < two63 → doubled n (pos d) (pos m) ≡ pos (min m (d * 2 ^ n))
unfolding doubled quot
doubled_lem zero d m h k = ground arith
doubled_lem (suc n) d m h k =
    elim (Bool-cases (leb_ℤ (pos m) (pos d) || ltb_ℤ (quot (pos m) 2) (pos d))) [
      | inl full ↦
          rw full (ap pos (grind (arith, cap_reached d m (2 ^ n), pow_pos n, pow-succ' 2 n)))
      | inr more ↦
          rw (more, twice_exact d (ground arith))
            (doubled_lem n (d + d) m (ground arith) k
              ∙ ap (λ (t : ℕ). pos (min m t)) (double_pow d n))
    ]

max-pos : (a b : ℕ) → max_ℤ (pos a) (pos b) ≡ pos (max a b)
max-pos a b = ground arith

next_count : (n : ℕ) → n + 1 < two63 → add64 (pos n) (pos 1) ≡ pos (suc n)
unfolding ◌+ℤ◌
next_count n h = ground (arith, add64_exact (pos n) (pos 1))

-- Without jitter the `n + 1`-st failure in a row waits the normal interval times `2 ^ (n + 1)`,
-- cut off at the larger of the configured maximum and the interval, and counts one more failure.
pub failure_exact :
    (schedule : Schedule) (draw : Draw) (e b n : ℕ)
    → schedule.config.jitter_percent ≡ pos 0
    → schedule.effective ≡ pos e
    → schedule.config.backoff_max ≡ pos b
    → schedule.failures ≡ pos n
    → e < two63
    → b < two63
    → n + 1 < two63
    → ((failure schedule draw).1.next_delay ≡ pos (min (max b e) (e * 2 ^ suc n)))
      × ((failure schedule draw).1.consecutive_failures ≡ pos (suc n))
      × ((failure schedule draw).1.backoff ≡ true)
unfolding failure
failure_exact schedule draw e b n no_jitter he hb hn ce cb cn = (
  rw (no_jitter, he, hb, hn, max-pos b e, next_count n cn)
      (doubled_lem (suc n) e (max b e) (omega arith) (omega arith)),
  rw (hn, next_count n cn),
  refl,
)
