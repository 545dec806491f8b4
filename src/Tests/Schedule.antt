-- ===== src/Tests/Schedule.antt =====
-- Runs of the heartbeat schedule and of the controller clock.
use unifi_stubd.Prelude.{ℕ, ◌*◌, ◌≡◌, refl, arith, true, false, List, [], ◌∷◌, ok}
use unifi_stubd.Prelude.Int.{pos, ◌≤ℤ◌, ◌<ℤ◌}
use unifi_stubd.Inform.Schedule.{
  ScheduleConfig, Schedule, Draw, second, validate_schedule_config, new_schedule, failure,
  success_with_options, hinted,
}
use unifi_stubd.Inform.Schedule.Bounds.{Within, failure-Within}
use unifi_stubd.Inform.Schedule.History.{
  Event, succeeded, failed, on_event, after, longest, every_delay_bounded,
}
use unifi_stubd.Inform.Clock.{Time, ControllerClock}

abbrev settings : ScheduleConfig
settings = record {
  base_interval = pos (10 * second);
  controller_interval_min = pos (5 * second);
  controller_interval_max = pos (60 * second);
  firmware_interval_min = pos (2 * second);
  controller_hints = true;
  backoff_max = pos (300 * second);
  jitter_percent = pos 0;
}

abbrev fresh : Schedule
fresh = record {
  config = settings;
  effective = pos (10 * second);
  failures = pos 0;
  immediate_latched = false;
}

abbrev draw : Draw
draw = record { int63n = λ n. 0; intn2 = 1 }

new_fresh : new_schedule settings ≡ ok fresh
unfolding new_schedule validate_schedule_config
new_fresh = refl

-- A hint above the configured maximum is cut down to it.
hint_cut : (success_with_options fresh (pos (90 * second)) false).1.next_delay ≡ pos (60 * second)
unfolding success_with_options hinted
hint_cut = refl

failure-Within_example :
    Within (pos (10 * second)) (pos (300 * second)) (failure fresh draw).1.next_delay
failure-Within_example = failure-Within fresh draw (omega arith) (omega arith) (omega arith)

abbrev history : List Event
history = failed draw ∷ failed draw ∷ succeeded (pos (7 * second)) true ∷ []

every_delay_bounded_example :
    ((after fresh history).config ≡ settings)
    × (pos 0 <ℤ (on_event (after fresh history) (failed draw)).1.next_delay)
    × ((on_event (after fresh history) (failed draw)).1.next_delay ≤ℤ longest settings)
every_delay_bounded_example =
    every_delay_bounded settings fresh history (failed draw) new_fresh (omega arith) (omega arith)

abbrev at : ℕ → Time
at n = record { unix = pos n; nanosecond = 5 }

abbrev unset : ControllerClock
unset = record { offset_seconds = pos 0; set = false }
