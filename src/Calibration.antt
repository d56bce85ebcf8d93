-- ===== src/Calibration.antt =====
-- The calibration of a valve's own sensor: custom_components/poise/control/calibration.py, and the state
-- and folds of its ownership in runtime/state.py and runtime/zone_runtime.py.  Offsets and temperatures are
-- thousandths of a degree, so the tolerance of 1e-9 of the source decides nothing; the step of a grid is a
-- positive number of thousandths.
pub mod Segments
pub mod Writing
pub mod Ownership
pub mod Handoff
pub mod Evidence
use Prim.Native.String.{String}
use poise_thermostat.Base.{
  ℕ, ◌+◌, ◌*◌, ◌/◌, Bool, true, false, not, ◌&&◌, ◌||◌, Option, none, some, if◌then◌else◌, is_some,
}
use poise_thermostat.Base.Int.{
  ℤ, pos, negsuc, ◌+ℤ◌, ◌-ℤ◌, ◌*ℤ◌, ltb_ℤ, leb_ℤ, eqb_ℤ, max_ℤ, min_ℤ, abs_ℤ, seconds,
}

abbrev pub calibration_deadband_k : ℤ
calibration_deadband_k = pos 300

abbrev pub calibration_min_interval_s : ℤ
calibration_min_interval_s = seconds 300

abbrev pub calibration_unconverged_limit : ℤ
calibration_unconverged_limit = pos 3

unfoldable pub clamp_offset : ℤ → ℤ → ℤ → ℤ
unfolding min_ℤ max_ℤ
clamp_offset value lo hi = min_ℤ (max_ℤ value lo) hi

unfoldable pub local_calibration : ℤ → ℤ → ℤ → ℤ → ℤ → ℤ
unfolding clamp_offset
local_calibration external trv_temp current_offset min_offset max_offset =
    clamp_offset ((external -ℤ trv_temp) +ℤ current_offset) min_offset max_offset

-- `math.floor(a / step)`
unfoldable pub floor_div : ℤ → ℕ → ℤ
floor_div (pos n) step = pos (n / step)
floor_div (negsuc n) step = negsuc (n / step)

-- the key of `min`: nearer to the value, then the larger magnitude, then the smaller number
unfoldable pub beats : ℤ → ℤ → ℤ → Bool
beats value c d =
    let near = abs_ℤ (c -ℤ value) in
    let far = abs_ℤ (d -ℤ value) in
    if eqb_ℤ near far
    then if eqb_ℤ (abs_ℤ c) (abs_ℤ d) then ltb_ℤ c d else ltb_ℤ (abs_ℤ d) (abs_ℤ c)
    else ltb_ℤ near far

unfoldable pub grid_rung : ℤ → ℤ → ℕ → ℤ
grid_rung min_value n step = min_value +ℤ (n *ℤ pos step)

unfoldable pub snap_between : ℤ → ℤ → ℤ → ℤ
snap_between value low high = if beats value high low then high else low

unfoldable pub snap_offset : ℤ → ℕ → ℤ → ℤ → ℤ
unfolding floor_div grid_rung snap_between min_ℤ clamp_offset
snap_offset value step min_value max_value =
    let n_max = floor_div (max_value -ℤ min_value) step in
    let v = clamp_offset value min_value (grid_rung min_value n_max step) in
    let n = floor_div (v -ℤ min_value) step in
    snap_between value (grid_rung min_value n step)
      (grid_rung min_value (min_ℤ (n +ℤ pos 1) n_max) step)

abbrev written_within : Option ℤ → ℤ → ℤ → Bool
written_within none now interval = false
written_within (some ts) now interval = ltb_ℤ (now -ℤ ts) interval

unfoldable pub calibration_write_due : ℤ → ℤ → Option ℤ → ℤ → Bool
calibration_write_due new_offset reported_offset last_write_ts now =
    if written_within last_write_ts now calibration_min_interval_s
    then false
    else leb_ℤ calibration_deadband_k (abs_ℤ (new_offset -ℤ reported_offset))

-- `abs(a - b) <= step / 2`
unfoldable pub within_half_step : ℤ → ℤ → ℕ → Bool
within_half_step a b step = leb_ℤ (pos 2 *ℤ abs_ℤ (a -ℤ b)) (pos step)

unfoldable pub calibration_converged : ℤ → Option ℤ → ℕ → Bool
calibration_converged reported_offset none step = true
calibration_converged reported_offset (some v) step = within_half_step reported_offset v step

unfoldable pub calibration_accumulation_allowed : ℤ → Option ℤ → ℕ → Bool → Bool
unfolding calibration_converged
calibration_accumulation_allowed reported_offset none step updated = true
calibration_accumulation_allowed reported_offset (some v) step updated =
    calibration_converged reported_offset (some v) step && updated

abbrev long_since : Option ℤ → ℤ → Bool
long_since none now = false
long_since (some ts) now =
    leb_ℤ (calibration_unconverged_limit *ℤ calibration_min_interval_s) (now -ℤ ts)

unfoldable pub calibration_diverged : Bool → Option ℤ → ℤ → Bool
calibration_diverged converged last_write_ts now =
    if converged then false else long_since last_write_ts now

-- The fields of `ActuatorRuntime` that belong to the calibration.
pub record CalibrationState : Type 0 where
  pub cal_baseline : Option ℤ
  pub cal_entity : Option String
  pub last_cal_value : Option ℤ
  pub last_cal_write_ts : Option ℤ
  pub last_cal_dispatch_wall_ts : Option ℤ
  pub last_cal_restore_ts : Option ℤ
  pub dirty : Bool

abbrev pub fresh_calibration : CalibrationState
fresh_calibration = record {
  cal_baseline = none;
  cal_entity = none;
  last_cal_value = none;
  last_cal_write_ts = none;
  last_cal_dispatch_wall_ts = none;
  last_cal_restore_ts = none;
  dirty = false;
}

unfoldable pub clear_calibration_ownership : CalibrationState → CalibrationState
clear_calibration_ownership s = record fresh_calibration { dirty = true }

unfoldable pub observe_calibration_restore : CalibrationState → ℤ → ℕ → ℤ → CalibrationState × Bool
unfolding clear_calibration_ownership
observe_calibration_restore s reported step restore_target =
    if not (is_some s.cal_baseline)
    then (s, true)
    else if within_half_step reported restore_target step
    then (clear_calibration_ownership s, true)
    else (s, false)

unfoldable pub observe_calibration_resume : CalibrationState → ℤ → ℤ → CalibrationState × Bool
observe_calibration_resume s reported wall_now =
    if not (is_some s.cal_baseline) || is_some s.last_cal_value then (s, false) else (
      record s { last_cal_value = some reported; last_cal_dispatch_wall_ts = some wall_now },
      true,
    )

unfoldable pub observe_calibration_orphaned : CalibrationState → Bool → CalibrationState × Bool
unfolding clear_calibration_ownership
observe_calibration_orphaned s stored_entity_gone =
    if not (is_some s.cal_baseline) || not stored_entity_gone
    then (s, false)
    else (clear_calibration_ownership s, true)

-- `EffectExecution` of a calibration effect
pub record CalibrationExecution : Type 0 where
  pub success : Bool
  pub pre_write_value : ℤ
  pub commanded_value : ℤ
  pub entity_id : String
  pub dispatch_wall_ts : ℤ

-- the branches `cal_write` and `cal_restore` of `commit_execution`
unfoldable pub commit_cal_write : CalibrationState → CalibrationExecution → ℤ → CalibrationState
commit_cal_write s e now = if not e.success then s else record s {
  cal_baseline = if is_some s.cal_baseline then s.cal_baseline else some e.pre_write_value;
  cal_entity = if is_some s.cal_baseline then s.cal_entity else some e.entity_id;
  dirty = s.dirty || not (is_some s.cal_baseline);
  last_cal_value = some e.commanded_value;
  last_cal_write_ts = some now;
  last_cal_dispatch_wall_ts = some e.dispatch_wall_ts;
}

unfoldable pub commit_cal_restore : CalibrationState → CalibrationExecution → ℤ → CalibrationState
commit_cal_restore s e now =
    if not e.success then s else record s { last_cal_restore_ts = some now }
