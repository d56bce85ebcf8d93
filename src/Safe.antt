-- ===== src/Safe.antt =====
-- The safe state of a zone without a room sensor: custom_components/poise/safety/sensor_watchdog.py and
-- control/lifecycle.py.  Times and temperatures are in thousandths.
pub mod Floor
pub mod Retry
use Prim.Native.String.{String}
use text.Mathlib.Text.{◌==◌ as str_eq}
use poise_thermostat.Base.{
  Bool, true, false, not, ◌&&◌, ◌||◌, Option, none, some, List, [], ◌∷◌, if◌then◌else◌, any_of,
  is_some,
}
use poise_thermostat.Base.Int.{ℤ, pos, ◌-ℤ◌, ltb_ℤ, leb_ℤ, eqb_ℤ, max_ℤ, seconds}
use poise_thermostat.Base.Round.{round1}
use poise_thermostat.Tick.{is_text}

-- `age is not None and threshold > 0 and age >= threshold`, of a stale and of a lost sensor
unfoldable pub is_frozen : Option ℤ → ℤ → Bool
is_frozen none threshold = false
is_frozen (some age) threshold = ltb_ℤ (pos 0) threshold && leb_ℤ threshold age

unfoldable pub unavailable_safe_engaged : Option ℤ → ℤ → Bool
unavailable_safe_engaged none threshold = false
unavailable_safe_engaged (some age) threshold = ltb_ℤ (pos 0) threshold && leb_ℤ threshold age

unfoldable pub frozen_safe_target : ℤ → Option ℤ → ℤ
unfolding max_ℤ
frozen_safe_target frost_floor none = max_ℤ frost_floor frost_floor
frozen_safe_target frost_floor (some mold_min) = max_ℤ frost_floor mold_min

unfoldable pub should_learn : Bool → Bool → Bool → Bool → Bool
should_learn window_open frozen heating_failed cooling_failed =
    not window_open && (not frozen && (not heating_failed && not cooling_failed))

unfoldable pub sensor_at_heat_source : ℤ → Bool → ℤ → Bool
sensor_at_heat_source tau identified min_plausible = identified && ltb_ℤ tau min_plausible

unfoldable pub valve_stuck : Option ℤ → ℤ → Bool
valve_stuck none min_steps = false
valve_stuck (some steps) min_steps = ltb_ℤ steps min_steps

unfoldable pub sensor_age_seconds : ℤ → ℤ → ℤ
sensor_age_seconds now last_changed = now -ℤ last_changed

-- SELECT_HANDBACK_RETRY_S
abbrev pub select_handback_retry_s : ℤ
select_handback_retry_s = seconds 300

unfoldable pub sensor_source_handback_due : Option String → Bool → Bool
sensor_source_handback_due select_state feed_owned = feed_owned && is_text select_state "external"

-- the device has the command of the last attempt
unfoldable pub asserted : Option ℤ → Option ℤ → ℤ → Bool
asserted (some last) (some now) retry = ltb_ℤ (now -ℤ last) retry
asserted _ _ retry = false

pub record Handback : Type 0 where
  pub select_entity_id : Option String
  pub select_state : Option String
  pub configured_feed : Option String
  pub last_fed : Option ℤ

unfoldable pub handback_on : Option String → Bool → Bool → Option String
handback_on none owned recent = none
handback_on (some select) due recent =
    if not due then none else if recent then none else some select

unfoldable pub sensor_source_handback_target : Handback → Option ℤ → Option ℤ → ℤ → Option String
unfolding sensor_source_handback_due asserted handback_on
sensor_source_handback_target h last_attempt now retry =
    handback_on h.select_entity_id
      (sensor_source_handback_due h.select_state (is_some h.configured_feed || is_some h.last_fed))
      (asserted last_attempt now retry)

-- One tick of an outage (the release stage of `write_unavailable_safe_state` in
-- custom_components/poise/ha/phase_actuate.py): the next `last_handback_ts`, and the select that is
-- released.
unfoldable pub release : Option ℤ → Handback → ℤ → Option ℤ × Option String
release last h now =
    let target = sensor_source_handback_target h last (some now) select_handback_retry_s in
    (if is_some target then some now else last, target)

-- control/lifecycle.py
pub record SafeStatePlan : Type 0 where
  pub hvac_mode : String
  pub setpoint : Option ℤ
  pub write_mode : Bool
  pub write_setpoint : Bool

pub record Device : Type 0 where
  pub hvac_modes : List String
  pub device_state : Option String
  pub device_setpoint : Option ℤ
  pub device_min : Option ℤ

abbrev pub can_heat : Device → Bool
can_heat d = any_of (λ m. str_eq "heat" m) d.hvac_modes

abbrev pub at_least : ℤ → Option ℤ → ℤ
at_least v none = v
at_least v (some m) = max_ℤ v m

-- `device_setpoint is None or abs(device_setpoint - target) > 1e-6`
abbrev pub differs : Option ℤ → ℤ → Bool
differs none target = true
differs (some v) target = not (eqb_ℤ v target)

-- `device_state not in ("off", "unavailable", None)`
abbrev pub is_on : Option String → Bool
is_on none = false
is_on (some m) = not (str_eq m "off" || str_eq m "unavailable")

abbrev heat_plan : ℤ → Bool → Bool → Option SafeStatePlan
heat_plan target write_mode write_setpoint =
    if not write_mode && not write_setpoint
    then none
    else some (record {
      hvac_mode = "heat";
      setpoint = some target;
      write_mode = write_mode;
      write_setpoint = write_setpoint;
    })

abbrev off_plan : SafeStatePlan
off_plan = record { hvac_mode = "off"; setpoint = none; write_mode = true; write_setpoint = false }

unfoldable pub resolve_safe_state : Device → ℤ → Option SafeStatePlan
unfolding max_ℤ eqb_ℤ
resolve_safe_state d floor =
    if can_heat d
    then heat_plan (at_least floor d.device_min) (not (is_text d.device_state "heat"))
        (differs d.device_setpoint (at_least floor d.device_min))
    else if is_on d.device_state
    then some off_plan
    else none

pub data ParkKind : Type 0 where
  climate valve : ParkKind

pub record ParkPlan : Type 0 where
  pub kind : ParkKind
  pub hvac_mode : Option String
  pub setpoint : Option ℤ
  pub valve_value : Option ℤ

unfoldable pub resolve_park_command : Bool → List String → Bool → Option ℤ → ℤ → Option ℤ → ParkPlan
unfolding max_ℤ round1
resolve_park_command is_valve hvac_modes heats_for_zone setback floor device_min =
    if is_valve
    then record { kind = valve; hvac_mode = none; setpoint = none; valve_value = some (pos 0) }
    else if heats_for_zone && any_of (λ m. str_eq "heat" m) hvac_modes
    then record {
      kind = climate;
      hvac_mode = some "heat";
      setpoint = some (round1 (at_least (at_least floor setback) device_min));
      valve_value = none;
    }
    else record { kind = climate; hvac_mode = some "off"; setpoint = none; valve_value = none }

unfoldable pub resolve_hub_unload_off : Bool → Bool → Bool → Bool → Bool
resolve_hub_unload_off was_actuating disabled still_actuating target_changed =
    was_actuating && (disabled || (not still_actuating || target_changed))
