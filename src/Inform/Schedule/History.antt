-- ===== src/Inform/Schedule/History.antt =====
-- The schedule over any sequence of heartbeats.
use mathlib.Core.Path.{subst}
use unifi_stubd.Prelude.{
  ◌≡◌, refl, ◌∙◌, arith, Bool, true, false, not, ◌&&◌, if◌then◌else◌, List, [], ◌∷◌, ok, bind-eq-ok,
  ok-injective,
}
use unifi_stubd.Prelude.Int.{ℤ, pos, ◌≤ℤ◌, ◌<ℤ◌, max_int64, ltb_ℤ, ≤ℤ_trans}
use unifi_stubd.Inform.Schedule.{
  ScheduleConfig, Schedule, ScheduleDecision, Draw, failure, clamp_duration, decision, max_ℤ,
  hinted, success_with_options, reset, current, new_schedule, validate_schedule_config,
  maximum_controller_inform_interval, immediate_inform_delay,
}
use unifi_stubd.Inform.Schedule.Config.{IsValid, validate_schedule_config_iff}
use unifi_stubd.Inform.Schedule.Bounds.{failure-Within, max_ℤ-ge, max_ℤ-le}

-- What drives the schedule: the results of the heartbeats, and the resets.
pub data Event : Type 0 where
  succeeded : ℤ → Bool → Event
  failed : Draw → Event
  cleared : Event

abbrev pub on_event : Schedule → Event → Schedule × ScheduleDecision
on_event schedule (succeeded hint immediate) = success_with_options schedule hint immediate
on_event schedule (failed draw) = failure schedule draw
on_event schedule cleared = reset schedule

abbrev pub after : Schedule → List Event → Schedule
after schedule [] = schedule
after schedule (e ∷ es) = after (on_event schedule e).0 es

hinted_bounds :
    (config : ScheduleConfig) (hint : ℤ)
    → IsValid config
    → config.controller_hints ≡ true
    → (config.firmware_interval_min ≤ℤ hinted config hint)
      × (config.controller_interval_min ≤ℤ hinted config hint)
      × (hinted config hint ≤ℤ config.controller_interval_max)
      × (hinted config hint ≤ℤ maximum_controller_inform_interval)
unfolding hinted clamp_duration
hinted_bounds config hint v on = ground arith

-- The configuration is valid, and the interval is the operator's or a hint inside the bounds.
pub record IsReady (schedule : Schedule) : Type 0 where
  pub valid : IsValid schedule.config
  pub positive : pos 0 <ℤ schedule.effective
  pub bounded :
      schedule.effective ≤ℤ max_ℤ schedule.config.base_interval maximum_controller_inform_interval

interval_of_hint :
    (schedule : Schedule) (hint e : ℤ)
    → IsReady schedule
    → e ≡ (
        if schedule.config.controller_hints && ltb_ℤ (pos 0) hint
        then hinted schedule.config hint
        else schedule.effective)
    → (pos 0 <ℤ e) × (e ≤ℤ max_ℤ schedule.config.base_interval maximum_controller_inform_interval)
interval_of_hint schedule hint e r h =
    let top = max_ℤ-ge schedule.config.base_interval maximum_controller_inform_interval in
    ground (arith, hinted_bounds schedule.config hint r.valid, r.valid.min_pos)

pub on_event-config :
    (schedule : Schedule) (e : Event) → (on_event schedule e).0.config ≡ schedule.config
unfolding success_with_options failure reset
on_event-config schedule (succeeded hint immediate) = refl
on_event-config schedule (failed draw) = refl
on_event-config schedule cleared = refl

pub on_event-IsReady :
    (schedule : Schedule) (e : Event) → IsReady schedule → IsReady (on_event schedule e).0
unfolding success_with_options failure reset
on_event-IsReady schedule (succeeded hint immediate) r =
    let (p, b) = interval_of_hint schedule hint _ r refl in
    record { valid = r.valid; positive = p; bounded = b }
on_event-IsReady schedule (failed draw) r = record {
  valid = r.valid;
  positive = r.positive;
  bounded = r.bounded;
}
on_event-IsReady schedule cleared r = record {
  valid = r.valid;
  positive = r.valid.base_pos;
  bounded = (max_ℤ-ge schedule.config.base_interval maximum_controller_inform_interval).0;
}

after-IsReady :
    (schedule : Schedule) (es : List Event)
    → IsReady schedule
    → IsReady (after schedule es) × ((after schedule es).config ≡ schedule.config)
after-IsReady schedule [] r = (r, refl)
after-IsReady schedule (e ∷ es) r =
    let (q, c) = after-IsReady (on_event schedule e).0 es (on_event-IsReady schedule e r) in
    (q, c ∙ on_event-config schedule e)

pub new_schedule-IsReady :
    (config : ScheduleConfig) (schedule : Schedule)
    → new_schedule config ≡ ok schedule
    → IsReady schedule × (schedule.config ≡ config)
unfolding new_schedule
new_schedule-IsReady config schedule h =
    let (_, checked, made) = bind-eq-ok (validate_schedule_config config) _ h in
    let v = (validate_schedule_config_iff config).0 checked in
    subst (λ (t : Schedule). IsReady t × (t.config ≡ config)) (ok-injective made)
      (
        record {
          valid = v;
          positive = v.base_pos;
          bounded = (max_ℤ-ge config.base_interval maximum_controller_inform_interval).0;
        },
        refl,
      )

-- The longest delay that a configuration can lead to.
abbrev pub longest : ScheduleConfig → ℤ
longest config =
    max_ℤ config.backoff_max (max_ℤ config.base_interval maximum_controller_inform_interval)

pub delay_of :
    (grant : Bool) (e base backoff : ℤ)
    → pos 0 <ℤ e
    → e ≤ℤ max_ℤ base maximum_controller_inform_interval
    → (pos 0 <ℤ (if grant then immediate_inform_delay else e))
      × ((if grant then immediate_inform_delay else e)
          ≤ℤ max_ℤ backoff (max_ℤ base maximum_controller_inform_interval))
delay_of grant e base backoff h k = ground arith

pub delay_bounds :
    (schedule : Schedule) (e : Event)
    → IsReady schedule
    → schedule.config.base_interval ≤ℤ max_int64
    → schedule.config.backoff_max ≤ℤ max_int64
    → (pos 0 <ℤ (on_event schedule e).1.next_delay)
      × ((on_event schedule e).1.next_delay ≤ℤ longest schedule.config)
unfolding success_with_options reset current decision
delay_bounds schedule (succeeded hint immediate) r b m =
    let (p, top) = interval_of_hint schedule hint _ r refl in
    delay_of (immediate && not schedule.immediate_latched) _ schedule.config.base_interval
      schedule.config.backoff_max p top
delay_bounds schedule (failed draw) r b m =
    let config = schedule.config in
    let top = max_ℤ config.base_interval maximum_controller_inform_interval in
    let fits =
      max_ℤ-le config.base_interval maximum_controller_inform_interval max_int64 b (omega arith) in
    let (lo, hi) =
      failure-Within schedule draw r.positive
        (≤ℤ_trans schedule.effective top max_int64 r.bounded fits) m in
    let (left, right) = max_ℤ-ge config.backoff_max top in
    let cap =
      max_ℤ-le config.backoff_max schedule.effective (longest config) left
        (≤ℤ_trans schedule.effective top (longest config) r.bounded right) in
    (omega arith, ≤ℤ_trans _ _ (longest config) hi cap)
delay_bounds schedule cleared r b m =
    let config = schedule.config in
    delay_of false config.base_interval config.base_interval config.backoff_max r.valid.base_pos
      (max_ℤ-ge config.base_interval maximum_controller_inform_interval).0

-- After any sequence of successes, hints, failures and resets of a schedule that was accepted, the
-- next delay is positive, at most the longest that the configuration allows, and the configuration
-- is the one that was given.
pub every_delay_bounded :
    (config : ScheduleConfig) (schedule : Schedule) (es : List Event) (e : Event)
    → new_schedule config ≡ ok schedule
    → config.base_interval ≤ℤ max_int64
    → config.backoff_max ≤ℤ max_int64
    → ((after schedule es).config ≡ config)
      × (pos 0 <ℤ (on_event (after schedule es) e).1.next_delay)
      × ((on_event (after schedule es) e).1.next_delay ≤ℤ longest config)
every_delay_bounded config schedule es e h b m =
    let (made, same) = new_schedule-IsReady config schedule h in
    let (ready, kept) = after-IsReady schedule es made in
    let whole = kept ∙ same in
    let (lo, hi) = delay_bounds (after schedule es) e ready (rw whole b) (rw whole m) in
    (whole, lo, rw whole at hi)
