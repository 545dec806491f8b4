-- ===== src/Inform/Schedule/Config.antt =====
-- What `ValidateScheduleConfig` accepts.
use unifi_stubd.Prelude.{◌≡◌, ◌↔◌, arith, true, false, ok}
use unifi_stubd.Prelude.Int.{pos, ◌≤ℤ◌, ◌<ℤ◌}
use unifi_stubd.Inform.Schedule.{
  ScheduleConfig, validate_schedule_config, maximum_controller_inform_interval,
}

-- The bounds that an operator has to keep.
pub record IsValid (config : ScheduleConfig) : Type 0 where
  pub base_pos : pos 0 <ℤ config.base_interval
  pub min_pos : pos 0 <ℤ config.controller_interval_min
  pub min_le : config.controller_interval_min ≤ℤ maximum_controller_inform_interval
  pub max_ge : config.controller_interval_min ≤ℤ config.controller_interval_max
  pub no_firmware : config.controller_hints ≡ false → config.firmware_interval_min ≡ pos 0
  pub firmware_pos : config.controller_hints ≡ true → pos 0 <ℤ config.firmware_interval_min
  pub firmware_le :
      config.controller_hints ≡ true
      → config.firmware_interval_min ≤ℤ maximum_controller_inform_interval
  pub firmware_max :
      config.controller_hints ≡ true
      → config.firmware_interval_min ≤ℤ config.controller_interval_max
  pub backoff_pos : pos 0 <ℤ config.backoff_max
  pub jitter_nonneg : pos 0 ≤ℤ config.jitter_percent
  pub jitter_le : config.jitter_percent ≤ℤ pos 100

validate-IsValid :
    (config : ScheduleConfig) → validate_schedule_config config ≡ ok tt → IsValid config
unfolding validate_schedule_config
validate-IsValid config h = ground arith

IsValid-validate :
    (config : ScheduleConfig) → IsValid config → validate_schedule_config config ≡ ok tt
unfolding validate_schedule_config
IsValid-validate config v = ground arith

-- The validation accepts exactly the configurations that keep the bounds.
pub validate_schedule_config_iff :
    (config : ScheduleConfig) → (validate_schedule_config config ≡ ok tt) ↔ IsValid config
validate_schedule_config_iff config = (validate-IsValid config, IsValid-validate config)
