-- ===== src/Tests/Heartbeat.antt =====
-- Runs of a heartbeat and of the loop around it.
use unifi_stubd.Prelude.{◌*◌, ◌-◌, ◌^◌, ◌≡◌, refl, arith, true, false, none, ok, List, [], ◌∷◌}
use unifi_stubd.Prelude.Int.{pos, quot}
use unifi_stubd.Prelude.Text.{codes}
use unifi_stubd.Inform.Schedule.{
  ScheduleConfig, Schedule, Draw, second, new_schedule, validate_schedule_config,
}
use unifi_stubd.Adoption.Env.{reading, load_env, factory_store}
use unifi_stubd.Adoption.Update.{load_adoption_state}
use unifi_stubd.Tests.Answers.{no_url, decoder, answer}
use unifi_stubd.Tests.Discovery.{device}
use unifi_stubd.Heartbeat.{
  Daemon, Exchange, Setting, controller_interval_duration, send_inform_heartbeat,
}
use unifi_stubd.Heartbeat.Presence.{Round, maintain}
use unifi_stubd.Heartbeat.Presence.Served.{Served}
use unifi_stubd.Heartbeat.Presence.Bounded.{maintain-Served}
use unifi_stubd.Heartbeat.Refines.{Refines, send_inform_heartbeat-Refines}

abbrev settings : ScheduleConfig
settings = record {
  base_interval = pos (10 * second);
  controller_interval_min = pos (5 * second);
  controller_interval_max = pos (60 * second);
  firmware_interval_min = pos (2 * second);
  controller_hints = true;
  backoff_max = pos (300 * second);
  jitter_percent = pos 0;
}

abbrev waiting : Schedule
waiting = record {
  config = settings;
  effective = pos (10 * second);
  failures = pos 0;
  immediate_latched = false;
}

abbrev daemon : Daemon
daemon = record {
  disk = record { target = none; temp = none };
  schedule = waiting;
  clock = none;
  blocks = none;
}

abbrev draw : Draw
draw = record { int63n = λ n. 0; intn2 = 1 }

abbrev setting : Setting
setting = record {
  reports_clock = true;
  reports_blocks = true;
  state_path = codes "/state";
  faults = record { fails = λ c. false; written = 0 };
  draw = draw;
  now = record { unix = pos 1700000000; nanosecond = 0 };
}

-- An interval beyond the largest duration is cut off.
interval_cut : controller_interval_duration (pos (2 ^ 62)) ≡ pos (2 ^ 63 - 1)
unfolding controller_interval_duration quot
interval_cut = refl

nothing_stored : load_adoption_state no_url (reading none) ≡ ok factory_store
unfolding load_adoption_state load_env
nothing_stored = refl

-- The controller answers with a reset.
send_inform_heartbeat-Refines_example :
    Refines no_url decoder setting
      (codes "http://c:8080/inform")
      factory_store
      (Exchange.answered 200 96 answer true)
      daemon
      (send_inform_heartbeat no_url decoder setting
        (codes "http://c:8080/inform")
        factory_store
        (Exchange.answered 200 96 answer true)
        daemon)
send_inform_heartbeat-Refines_example =
    send_inform_heartbeat-Refines no_url decoder setting (codes "http://c:8080/inform")
      factory_store (Exchange.answered 200 96 answer true) daemon nothing_stored

-- A reset, then a controller that does not answer, then one that refuses.
abbrev round : Exchange → Round
round exchange = record {
  read_fails = false;
  uptime = 7;
  payload_fails = false;
  setting = setting;
  exchange = exchange;
}

abbrev rounds : List Round
rounds =
    round (Exchange.answered 200 96 answer true)
    ∷ round Exchange.send_failed
    ∷ round (Exchange.answered 404 0 [] false)
    ∷ []

accepted : new_schedule settings ≡ ok waiting
unfolding new_schedule validate_schedule_config
accepted = refl

maintain-Served_example :
    Served settings no_url decoder
      (codes "http://c:8080/inform")
      device
      rounds
      (maintain no_url decoder (codes "http://c:8080/inform") device daemon rounds)
maintain-Served_example =
    maintain-Served no_url decoder (codes "http://c:8080/inform") settings device daemon rounds
      factory_store (omega arith) (omega arith) accepted nothing_stored
