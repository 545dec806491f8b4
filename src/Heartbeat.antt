-- ===== src/Heartbeat.antt =====
-- cmd/unifi-stubd/serve_heartbeat.go: one heartbeat, which joins the exchange with the controller, the
-- adoption state, the schedule, the controller's clock and the selection of blocks.
pub mod Refines
pub mod Presence
use unifi_stubd.Prelude.{
  ℕ, Bool, true, false, not, ◌&&◌, Option, none, some, List, [], ◌==◌, if◌then◌else◌, Result, ok,
  err,
}
use unifi_stubd.Prelude.Int.{ℤ, pos, ltb_ℤ, leb_ℤ, mul64, quot, max_int64}
use unifi_stubd.Prelude.Text.{Bytes, codes, same, is_empty}
use unifi_stubd.AtomicFile.{Faults, Disk}
use unifi_stubd.Inform.Schedule.{
  Schedule, ScheduleDecision, Draw, second, current, success, success_with_options, failure, reset,
}
use unifi_stubd.Inform.Clock.{Time, ControllerClock, update, reset as clear_clock}
use unifi_stubd.Adoption.Store.{Store}
use unifi_stubd.Adoption.Validate.{Url}
use unifi_stubd.Adoption.Env.{SaveError}
use unifi_stubd.Adoption.Json.{Json}
use unifi_stubd.Adoption.Response.{
  ControllerResponse, ResponseError, parse_controller_response_info,
}
use unifi_stubd.Adoption.Update.{Updated, update_adoption_state}

-- `controllerIntervalDuration`, for an `int` of 64 bits.
unfoldable pub controller_interval_duration : ℤ → ℤ
controller_interval_duration seconds =
    if leb_ℤ seconds (pos 0)
    then pos 0
    else if ltb_ℤ (quot max_int64 second) seconds
    then max_int64
    else mul64 seconds (pos second)

-- `adoption.BlockSelection`.
pub record BlockSelection : Type 0 where
  pub include : List Bytes
  pub exclude : List Bytes

abbrev pub no_selection : BlockSelection
no_selection = record { include = []; exclude = [] }

-- What a heartbeat reads and changes, with `none` for a nil pointer.
pub record Daemon : Type 0 where
  pub disk : Disk
  pub schedule : Schedule
  pub clock : Option ControllerClock
  pub blocks : Option BlockSelection

-- The result of `sendInform`: an error, or the status, the length of the raw body, the decoded body
-- and whether the request was sent with AES-GCM.
pub data Exchange : Type 0 where
  send_failed : Exchange
  answered : ℕ → ℕ → Bytes → Bool → Exchange

-- The settings of a heartbeat: the reporting policy of the device, the file, the faults of its
-- replacement, the random draws of a failure, and the time at which an answer is handled.
pub record Setting : Type 0 where
  pub reports_clock : Bool
  pub reports_blocks : Bool
  pub state_path : Bytes
  pub faults : Faults
  pub draw : Draw
  pub now : Time

-- What a heartbeat leaves, its decision and its error.
pub record Beat : Type 0 where
  pub daemon : Daemon
  pub decision : ScheduleDecision
  pub error : Option SaveError

abbrev pub scheduled : Daemon → Schedule × ScheduleDecision → Beat
scheduled d (s, decision) = record {
  daemon = record d { schedule = s };
  decision = decision;
  error = none;
}

-- A heartbeat that failed.
abbrev pub failed_beat : Setting → Daemon → Beat
failed_beat t d = scheduled d (failure d.schedule t.draw)

abbrev pub cleared_blocks : Option BlockSelection → Option BlockSelection
cleared_blocks none = none
cleared_blocks (some b) = some no_selection

abbrev pub updated_clock : Option ControllerClock → ℤ → Time → Option ControllerClock
updated_clock none time now = none
updated_clock (some c) time now = some (update c time now)

abbrev pub replaced_blocks : Option BlockSelection → BlockSelection → Option BlockSelection
replaced_blocks none new = none
replaced_blocks (some old) new = some new

-- The clock and the blocks after an answer that was applied.
unfoldable pub report : Setting → ControllerResponse → Daemon → Daemon
report t r d = record d {
  clock =
      if t.reports_clock && same r.type_name (codes "noop") && r.server_time_set
      then updated_clock d.clock r.server_time_utc t.now
      else d.clock;
  blocks =
      if t.reports_blocks && r.block_selection_set
      then replaced_blocks d.blocks
          (record { include = r.include_blocks; exclude = r.exclude_blocks })
      else d.blocks;
}

-- The schedule of an answer that was applied, and what a reset clears.
unfoldable pub applied_beat : Setting → ControllerResponse → Daemon → Beat
applied_beat t r d =
    let next =
      success_with_options d.schedule (controller_interval_duration r.interval_seconds)
        r.immediate in
    if r.reset_applied
    then (let cleared = clear_clock d.clock in
        let back = reset next.0 in
        record {
          daemon =
              report t r
                (record d { schedule = back.0; clock = cleared; blocks = cleared_blocks d.blocks });
          decision = back.1;
          error = none;
        })
    else record {
      daemon = report t r (record d { schedule = next.0 });
      decision = next.1;
      error = none;
    }

-- `updateAdoptionState` changes the answer in place.
abbrev pub response_or : ControllerResponse → Option ControllerResponse → ControllerResponse
response_or r none = r
response_or r (some changed) = changed

-- From the result of `updateAdoptionState` on.
abbrev pub settle : Setting → Daemon → ControllerResponse → Updated → Beat
settle t d r u = elim u.error [
  | some e ↦ record (failed_beat t (record d { disk = u.disk })) { error = some e }
  | none ↦ applied_beat t (response_or r u.response) (record d { disk = u.disk })
]

-- From the parsing of the answer on.
abbrev pub parsed_beat :
    (Bytes → Option Url)
    → Setting
    → Store
    → Bool
    → Daemon
    → Result ResponseError ControllerResponse
    → Beat
parsed_beat parse_url t s used_gcm d (err e) = failed_beat t d
parsed_beat parse_url t s used_gcm d (ok r) =
    settle t d r (update_adoption_state parse_url t.faults t.state_path s (some r) used_gcm d.disk)

module _ (parse_url : Bytes → Option Url) (json : Json) where
  -- `sendInformHeartbeat`, without the status file and the log.
  unfoldable pub send_inform_heartbeat : Setting → Bytes → Store → Exchange → Daemon → Beat
  send_inform_heartbeat t url s exchange d =
      if is_empty url then scheduled d (d.schedule, current d.schedule) else elim exchange [
        | send_failed ↦ failed_beat t d
        | answered status raw_bytes body used_gcm ↦
            if not (status == 200)
            then failed_beat t d
            else if raw_bytes == 0
            then scheduled d (success d.schedule (pos 0))
            else parsed_beat parse_url t s used_gcm d
                (parse_controller_response_info parse_url json body)
      ]
