-- ===== src/Inform/Schedule.antt =====
-- internal/inform/schedule.go. A `time.Duration` is an `int64` of nanoseconds. The random source is
-- an argument: the numbers that its two calls return.
pub mod Config
pub mod Backoff
pub mod Bounds
pub mod History
use unifi_stubd.Prelude.{
  ℕ, zero, suc, ◌+◌, ◌*◌, ◌^◌, ◌<◌, Bool, true, false, not, ◌&&◌, ◌||◌, ◌==◌, if◌then◌else◌, Result,
  ok, ◌>>=◌, ◌>>◌, reject,
}
use unifi_stubd.Prelude.Int.{ℤ, pos, pos_part, ltb_ℤ, leb_ℤ, add64, sub64, mul64, quot}

abbrev pub millisecond : ℕ
millisecond = 1_000_000

abbrev pub second : ℕ
second = 1_000_000_000

abbrev pub immediate_inform_delay : ℤ
immediate_inform_delay = pos (100 * millisecond)

abbrev pub maximum_controller_inform_interval : ℤ
maximum_controller_inform_interval = pos (300 * second)

pub record ScheduleConfig : Type 0 where
  pub base_interval : ℤ
  pub controller_interval_min : ℤ
  pub controller_interval_max : ℤ
  pub firmware_interval_min : ℤ
  pub controller_hints : Bool
  pub backoff_max : ℤ
  pub jitter_percent : ℤ

pub record ScheduleDecision : Type 0 where
  pub effective_interval : ℤ
  pub next_delay : ℤ
  pub consecutive_failures : ℤ
  pub backoff : Bool
  pub controller_hint_applied : Bool
  pub controller_hint_ignored : Bool
  pub controller_hints : Bool
  pub immediate_applied : Bool
  pub immediate_suppressed : Bool

pub record Schedule : Type 0 where
  pub config : ScheduleConfig
  pub effective : ℤ
  pub failures : ℤ
  pub immediate_latched : Bool

-- `random.Int63n(n)` and `random.Intn(2)` of one call of `jitter`.
pub record Draw : Type 0 where
  pub int63n : ℕ → ℕ
  pub intn2 : ℕ

-- One error for each message of `ValidateScheduleConfig`.
pub data ScheduleError : Type 0 where
  interval_not_positive minimum_not_positive minimum_above_firmware_maximum : ScheduleError
  maximum_below_minimum firmware_minimum_without_hints firmware_minimum_not_positive : ScheduleError
  firmware_minimum_too_long maximum_below_effective backoff_not_positive bad_jitter : ScheduleError

abbrev pub max_ℤ : ℤ → ℤ → ℤ
max_ℤ a b = if ltb_ℤ a b then b else a

-- `a != 0`.
abbrev pub nonzero : ℤ → Bool
nonzero a = ltb_ℤ a (pos 0) || ltb_ℤ (pos 0) a

unfoldable pub validate_schedule_config : ScheduleConfig → Result ScheduleError (Unit {0})
validate_schedule_config config = do
  reject (leb_ℤ config.base_interval (pos 0)) ScheduleError.interval_not_positive
  reject (leb_ℤ config.controller_interval_min (pos 0)) ScheduleError.minimum_not_positive
  reject (ltb_ℤ maximum_controller_inform_interval config.controller_interval_min)
      ScheduleError.minimum_above_firmware_maximum
  reject (ltb_ℤ config.controller_interval_max config.controller_interval_min)
      ScheduleError.maximum_below_minimum
  reject (not config.controller_hints && nonzero config.firmware_interval_min)
      ScheduleError.firmware_minimum_without_hints
  reject (config.controller_hints && leb_ℤ config.firmware_interval_min (pos 0))
      ScheduleError.firmware_minimum_not_positive
  reject
      (config.controller_hints
        && ltb_ℤ maximum_controller_inform_interval config.firmware_interval_min)
      ScheduleError.firmware_minimum_too_long
  let effective_minimum = max_ℤ config.firmware_interval_min config.controller_interval_min
  reject (config.controller_hints && ltb_ℤ config.controller_interval_max effective_minimum)
      ScheduleError.maximum_below_effective
  reject (leb_ℤ config.backoff_max (pos 0)) ScheduleError.backoff_not_positive
  reject (ltb_ℤ config.jitter_percent (pos 0) || ltb_ℤ (pos 100) config.jitter_percent)
      ScheduleError.bad_jitter
  ok tt

unfoldable pub new_schedule : ScheduleConfig → Result ScheduleError Schedule
new_schedule config = do
  validate_schedule_config config
  ok (record {
    config = config;
    effective = config.base_interval;
    failures = pos 0;
    immediate_latched = false;
  })

unfoldable pub clamp_duration : ℤ → ℤ → ℤ → ℤ
clamp_duration value minimum maximum =
    if ltb_ℤ value minimum then minimum else if ltb_ℤ maximum value then maximum else value

unfoldable pub decision : Schedule → ℤ → Bool → Bool → Bool → ScheduleDecision
decision schedule delay backoff hint_applied hint_ignored = record {
  effective_interval = schedule.effective;
  next_delay = delay;
  consecutive_failures = schedule.failures;
  backoff = backoff;
  controller_hint_applied = hint_applied;
  controller_hint_ignored = hint_ignored;
  controller_hints = schedule.config.controller_hints;
  immediate_applied = false;
  immediate_suppressed = false;
}

unfoldable pub current : Schedule → ScheduleDecision
unfolding decision
current schedule = decision schedule schedule.effective false false false

unfoldable pub reset : Schedule → Schedule × ScheduleDecision
unfolding current
reset schedule =
    let next = record schedule {
      effective = schedule.config.base_interval;
      failures = pos 0;
      immediate_latched = false;
    } in
    (next, current next)

-- The interval that a hint leaves, with the bounds of the configuration and of the firmware.
unfoldable pub hinted : ScheduleConfig → ℤ → ℤ
unfolding clamp_duration
hinted config controller_hint =
    let maximum =
      if ltb_ℤ maximum_controller_inform_interval config.controller_interval_max
      then maximum_controller_inform_interval
      else config.controller_interval_max in
    let minimum = max_ℤ config.firmware_interval_min config.controller_interval_min in
    clamp_duration controller_hint minimum maximum

unfoldable pub success_with_options : Schedule → ℤ → Bool → Schedule × ScheduleDecision
unfolding decision
success_with_options schedule controller_hint immediate =
    let hint_applied = schedule.config.controller_hints && ltb_ℤ (pos 0) controller_hint in
    let hint_ignored = not schedule.config.controller_hints && ltb_ℤ (pos 0) controller_hint in
    let effective =
      if hint_applied then hinted schedule.config controller_hint else schedule.effective in
    let grant_immediate = immediate && not schedule.immediate_latched in
    let next = record schedule {
      effective = effective;
      failures = pos 0;
      immediate_latched = immediate;
    } in
    let delay = if grant_immediate then immediate_inform_delay else effective in
    (
      next,
      record (decision next delay false hint_applied hint_ignored) {
        immediate_applied = grant_immediate;
        immediate_suppressed = immediate && not grant_immediate;
      },
    )

unfoldable pub success : Schedule → ℤ → Schedule × ScheduleDecision
unfolding success_with_options
success schedule controller_hint = success_with_options schedule controller_hint false

-- The doubling loop of `Failure`, with the rounds that are left.
unfoldable pub doubled : ℕ → ℤ → ℤ → ℤ
doubled zero delay maximum = delay
doubled (suc rounds) delay maximum =
    let rest = doubled rounds (mul64 delay (pos 2)) maximum in
    if leb_ℤ maximum delay || ltb_ℤ (quot maximum 2) delay then maximum else rest

unfoldable pub jitter : Schedule → Draw → ℤ → ℤ → ℤ → ℤ
jitter schedule draw delay minimum maximum =
    if not (nonzero schedule.config.jitter_percent) || leb_ℤ delay (pos 0)
    then delay
    else let window = quot (mul64 delay schedule.config.jitter_percent) 100 in
      if leb_ℤ window (pos 0)
      then delay
      else let drawn = pos (draw.int63n (pos_part window + 1)) in
        let offset = if draw.intn2 == 0 then sub64 (pos 0) drawn else drawn in
        clamp_duration (add64 delay offset) minimum maximum

unfoldable pub failure : Schedule → Draw → Schedule × ScheduleDecision
unfolding decision jitter doubled
failure schedule draw =
    let next = record schedule {
      failures = add64 schedule.failures (pos 1);
      immediate_latched = false;
    } in
    let maximum = max_ℤ schedule.config.backoff_max schedule.effective in
    let delay = doubled (pos_part next.failures) schedule.effective maximum in
    (next, decision next (jitter next draw delay schedule.effective maximum) true false false)
