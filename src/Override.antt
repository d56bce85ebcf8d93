-- ===== src/Override.antt =====
-- The echo and adoption baselines of one actuator (runtime/state.py, `ExternalOverrideRuntime`), the
-- reasons for which a device-side change is adopted or not (control/override.py), and the tracker
-- over the baselines (control/external_override.py).  All under custom_components/poise.
pub mod Adoption
use Prim.Native.String.{String}
use text.Mathlib.Text.{◌==◌ as str_eq}
use poise_thermostat.Base.{
  ℕ, Bool, true, false, not, ◌&&◌, ◌||◌, Option, none, some, List, [], ◌∷◌, if◌then◌else◌, any_of,
  is_some,
}
use poise_thermostat.Base.Int.{
  ℤ, pos, ◌-ℤ◌, ltb_ℤ, leb_ℤ, abs_ℤ, Float, finite, non_finite, seconds,
}
use poise_thermostat.Tick.{is_text, no_reading, snap_to_step}

-- `AdoptReason`, the vocabulary of both diagnosis channels
pub data AdoptReason : Type 0 where
  none_yet opt_out schedule_active own_echo safety_window safety_frozen hold_resumed : AdoptReason
  no_signal device_aligned unsupported own_command_echo no_baseline echo_window : AdoptReason
  stable_prev command_echo implausible_frost stable_offset adopt : AdoptReason

pub record External : Type 0 where
  pub last_written_sp : Option ℤ
  pub prev_device_sp : Option ℤ
  pub last_commanded_hvac : Option String
  pub prev_device_mode : Option String
  pub last_commanded_fan : Option String
  pub prev_device_fan : Option String
  pub last_sp_write_ts : Option ℤ
  pub last_hvac_cmd_ts : Option ℤ
  pub last_fan_cmd_ts : Option ℤ
  pub pre_write_sp : Option ℤ
  pub own_write_ctx_ids : List String
  pub last_sp_ctx_id : Option String
  pub last_cmd_sp : Option ℤ
  pub cmd_episode_ts : Option ℤ
  pub reasserts_suppressed : ℕ
  pub last_mode_nudge_ts : Option ℤ
  pub mode_reasserts_suppressed : ℕ

-- const.SETPOINT_ADOPT_ECHO_WINDOW_S
abbrev pub adopt_echo_window_s : ℤ
adopt_echo_window_s = seconds 120

-- `round(abs(a - b), 3) < deadband`; a thousandth is the unit, so the rounding is exact
unfoldable pub near : ℤ → ℤ → ℤ → Bool
near a b deadband = ltb_ℤ (abs_ℤ (a -ℤ b)) deadband

abbrev near_opt : ℤ → Option ℤ → ℤ → Bool
near_opt a none deadband = false
near_opt a (some b) deadband = near a b deadband

-- `pre_write_sp is not None and round(abs(device_sp - pre_write_sp), 3) >= deadband`
abbrev moved_from : ℤ → Option ℤ → ℤ → Bool
moved_from a none deadband = false
moved_from a (some b) deadband = not (near a b deadband)

abbrev at_or_below : ℤ → Option ℤ → Bool
at_or_below a none = false
at_or_below a (some f) = leb_ℤ (a -ℤ f) (pos 0)

-- the guards after the baseline is known
unfoldable pub setpoint_reason_on :
    ℤ → ℤ → ℤ → ℤ → ℤ → ℤ → Option ℤ → Option ℤ → Option ℤ → AdoptReason
setpoint_reason_on sp written ts now echo_window_s deadband prev_device_sp pre_write_sp
      frost_floor =
    if near sp written deadband
    then command_echo
    else if at_or_below sp frost_floor
    then implausible_frost
    else if ltb_ℤ (now -ℤ ts) echo_window_s
    then (if moved_from sp pre_write_sp deadband then adopt else echo_window)
    else if near_opt sp prev_device_sp deadband
    then stable_offset
    else adopt

unfoldable pub setpoint_adopt_reason :
    Option ℤ → Option ℤ → Option ℤ → ℤ → ℤ → ℤ → Option ℤ → Option ℤ → Option ℤ → AdoptReason
unfolding setpoint_reason_on
setpoint_adopt_reason none written ts now window deadband prev pre frost = no_baseline
setpoint_adopt_reason (some sp) none ts now window deadband prev pre frost = no_baseline
setpoint_adopt_reason (some sp) (some w) none now window deadband prev pre frost = no_baseline
setpoint_adopt_reason (some sp) (some w) (some ts) now window deadband prev pre frost =
    setpoint_reason_on sp w ts now window deadband prev pre frost

-- `(now - last_cmd_ts) < echo_window_s`
abbrev pub inside : ℤ → ℤ → ℤ → Bool
inside now ts window = ltb_ℤ (now -ℤ ts) window

-- the guards after the device has reported a mode that Poise does not want
unfoldable pub mode_reason_on :
    String → Option String → Option ℤ → ℤ → ℤ → Option String → AdoptReason
mode_reason_on m none ts now window prev = no_baseline
mode_reason_on m (some c) none now window prev =
    if str_eq m c then own_command_echo else no_baseline
mode_reason_on m (some c) (some ts) now window prev =
    if str_eq m c
    then own_command_echo
    else if inside now ts window
    then echo_window
    else if is_text prev m
    then stable_prev
    else adopt

unfoldable pub mode_adopt_reason :
    Option String
    → String
    → Option String
    → Option ℤ
    → ℤ
    → ℤ
    → List String
    → Option String
    → AdoptReason
unfolding mode_reason_on
mode_adopt_reason none desired commanded ts now window supported prev = no_signal
mode_adopt_reason (some m) desired commanded ts now window supported prev =
    if str_eq m "unknown" || str_eq m "unavailable"
    then no_signal
    else if str_eq m desired
    then device_aligned
    else if not (any_of (λ s. str_eq s m) supported) || str_eq m "heat_cool"
    then unsupported
    else mode_reason_on m commanded ts now window prev

abbrev pub is_adopt : AdoptReason → Bool
is_adopt adopt = true
is_adopt _ = false

-- `OverrideObservation`: the reason, and the value to adopt exactly when the reason is `adopt`
pub record OverrideObservation : Type 0 where
  pub reason : AdoptReason
  pub adopt_mode : Option String
  pub adopt_setpoint : Option ℤ

unfoldable pub is_own_write : External → Option String → Bool
is_own_write e none = false
is_own_write e (some c) = any_of (λ i. str_eq i c) e.own_write_ctx_ids

unfoldable pub observe_mode :
    External
    → Option String
    → String
    → ℤ
    → ℤ
    → List String
    → Bool
    → Bool
    → Bool
    → Bool
    → Bool
    → OverrideObservation
observe_mode e device_mode desired now window supported adopt_enabled window_open frozen own_change
      resumed =
    let reason : AdoptReason =
      if not adopt_enabled
      then opt_out
      else if window_open
      then safety_window
      else if frozen
      then safety_frozen
      else if own_change
      then own_echo
      else if resumed
      then hold_resumed
      else mode_adopt_reason device_mode desired e.last_commanded_hvac e.last_hvac_cmd_ts now window
          supported e.prev_device_mode in
    record {
      reason = reason;
      adopt_mode = if is_adopt reason then device_mode else none;
      adopt_setpoint = none;
    }

-- the mode move-guard reference stands still while the echo window is open
unfoldable pub freeze_mode_reference : External → Option String → ℤ → ℤ → External
freeze_mode_reference e device_mode now window =
    let open_window : Bool = elim e.last_hvac_cmd_ts [
      | none ↦ false
      | some t ↦ inside now t window
    ] in
    if open_window then e else record e { prev_device_mode = device_mode }

unfoldable pub rebaseline_own_echo : External → ℤ → External
rebaseline_own_echo e actual_sp = record e { last_written_sp = some actual_sp }

unfoldable pub observe_setpoint :
    External → Option ℤ → ℤ → ℤ → ℤ → ℤ → Bool → Bool → Bool → Bool → Bool → OverrideObservation
observe_setpoint e device_sp now window deadband frost_floor adopt_enabled sched_active own_change
      window_open frozen =
    let reason : AdoptReason =
      if not adopt_enabled
      then opt_out
      else if sched_active
      then schedule_active
      else if own_change
      then own_echo
      else if window_open
      then safety_window
      else if frozen
      then safety_frozen
      else setpoint_adopt_reason device_sp e.last_written_sp e.last_sp_write_ts now window deadband
          e.prev_device_sp e.pre_write_sp (some frost_floor) in
    record {
      reason = reason;
      adopt_mode = none;
      adopt_setpoint = if is_adopt reason then device_sp else none;
    }

unfoldable pub note_device_setpoint : External → Option ℤ → External
note_device_setpoint e actual_sp = record e { prev_device_sp = actual_sp }

abbrev snapped : Float → Option ℤ
snapped (finite v) = some v
snapped non_finite = none

unfoldable pub adopt_setpoint_baselines : External → ℤ → ℤ → ℤ → External
adopt_setpoint_baselines e adopted_sp step now = record e {
  pre_write_sp = e.last_written_sp;
  last_written_sp = snapped (snap_to_step (finite adopted_sp) step);
  last_sp_write_ts = some now;
}

-- ADR-0068: is the observed fan stage a change that a user made?
unfoldable pub observe_fan_foreign : External → Option String → Bool → ℤ → ℤ → Bool
observe_fan_foreign e none own_change now window = false
observe_fan_foreign e (some fan) own_change now window =
    let armed : Bool = elim e.last_fan_cmd_ts [
      | none ↦ false
      | some t ↦ not (inside now t window)
    ] in
    if own_change
    then false
    else if is_text e.last_commanded_fan fan
    then false
    else if not (is_some e.last_commanded_fan)
    then false
    else armed && not (is_text e.prev_device_fan fan)

unfoldable pub note_device_fan : External → Option String → ℤ → ℤ → External
note_device_fan e device_fan now window =
    let open_window : Bool = elim e.last_fan_cmd_ts [
      | none ↦ false
      | some t ↦ inside now t window
    ] in
    if open_window then e else record e { prev_device_fan = device_fan }
