-- ===== src/Hold/Stages.antt =====
-- The stages that turn what the device reports into a hold, and a hold into the desired mode:
-- `stage_hold_routing`, `stage_mode_adoption` and `stage_setpoint_adopt` of
-- custom_components/poise/control/external_override.py over the user's state and the baselines.

use Prim.Native.String.{String}
use poise_thermostat.Base.{
  Bool, true, false, not, ◌&&◌, ◌||◌, Option, none, some, List, [], if◌then◌else◌, is_some,
}
use poise_thermostat.Base.Int.{ℤ, finite}
use poise_thermostat.Tick.{is_text, no_reading, resolve_desired_mode}
use poise_thermostat.Override.{
  AdoptReason, none_yet, opt_out, schedule_active, own_echo, safety_window, safety_frozen,
  hold_resumed, no_signal, device_aligned, unsupported, own_command_echo, no_baseline, echo_window,
  stable_prev, command_echo, implausible_frost, stable_offset, adopt, External, adopt_echo_window_s,
  is_own_write, observe_mode, freeze_mode_reference, note_device_setpoint, adopt_setpoint_baselines,
}
use poise_thermostat.Hold.{
  UserState, OverrideStat, HoldSettings, CommandResult, set_override, set_mode_override, end_hold,
}

pub record HoldRouting : Type 0 where
  pub own_change : Bool
  pub off_held : Bool
  pub resumed : Bool

-- a foreign, usable report of another mode than off
abbrev pub switched_on : Option String → Bool
switched_on mode = not (is_text mode "off" || no_reading mode)

-- The actuator as a tick reads it: its state, and the id of the context of its last change.
pub record ActuatorState : Type 0 where
  pub mode : Option String
  pub context_id : Option String

unfoldable pub stage_hold_routing :
    UserState → External → ActuatorState → HoldRouting × CommandResult
unfolding is_own_write no_reading end_hold
stage_hold_routing u e act =
    let own = is_own_write e act.context_id in
    if is_text u.mode_override "off" && (not own && switched_on act.mode)
    then (record { own_change = own; off_held = false; resumed = true }, end_hold u "user_resume")
    else (
      record { own_change = own; off_held = is_text u.mode_override "off"; resumed = false },
      record { user = u; events = []; dirty = false },
    )

-- What the stage reads of the tick.
pub record ModeInput : Type 0 where
  pub now : ℤ
  pub frozen : Bool
  pub window_open : Bool
  pub can_heat : Bool
  pub can_cool : Bool
  pub idle_park_mode : Option String
  pub final_mode : String
  pub act_modes : List String
  pub adopt_external_mode : Bool
  pub set_at : ℤ
  pub mins : Option ℤ

pub record ModeAdoption : Type 0 where
  pub desired_hvac : String
  pub reason : AdoptReason
  pub external : External
  pub result : CommandResult

abbrev same_mode : Option String → Option String → Bool
same_mode none none = true
same_mode (some a) b = is_text b a
same_mode none (some b) = false

-- `_mode_adopt is not None`, and the escape at the device
unfoldable pub adopt_or_escape :
    HoldSettings
    → UserState
    → ModeInput
    → Bool
    → Option String
    → String
    → Option String
    → CommandResult
unfolding set_mode_override end_hold
adopt_or_escape c u i own mode desired (some m) = set_mode_override c u (some m) i.set_at i.mins
adopt_or_escape c u i own mode desired none =
    if is_some u.mode_override
      && (not own
          && (is_text mode desired
              && (not (same_mode mode u.mode_override) && (not i.window_open && not i.frozen))))
    then end_hold u "user_resume"
    else record { user = u; events = []; dirty = false }

-- a hold pins the desired mode unless a safety layer has taken over
abbrev pub pinned : Option String → Bool → String → String
pinned none safe desired = desired
pinned (some m) safe desired = if safe then desired else m

abbrev pub planned_mode : ModeInput → ActuatorState → String
planned_mode i act =
    resolve_desired_mode i.final_mode act.mode i.can_cool i.can_heat i.idle_park_mode

unfoldable pub stage_mode_adoption :
    HoldSettings → UserState → External → ModeInput → ActuatorState → HoldRouting → ModeAdoption
unfolding adopt_or_escape freeze_mode_reference
stage_mode_adoption c u e i act r =
    let desired = planned_mode i act in
    let o =
      observe_mode e act.mode desired i.now adopt_echo_window_s i.act_modes i.adopt_external_mode
        i.window_open i.frozen r.own_change r.resumed in
    let res = adopt_or_escape c u i r.own_change act.mode desired o.adopt_mode in
    record {
      desired_hvac = pinned res.user.mode_override (i.window_open || i.frozen) desired;
      reason = o.reason;
      external = freeze_mode_reference e act.mode i.now adopt_echo_window_s;
      result = res;
    }

-- SUPPRESSED_ADOPT_REASONS
abbrev pub is_suppressed : AdoptReason → Bool
is_suppressed echo_window = true
is_suppressed own_echo = true
is_suppressed opt_out = true
is_suppressed safety_window = true
is_suppressed safety_frozen = true
is_suppressed hold_resumed = true
is_suppressed stable_prev = true
is_suppressed stable_offset = true
is_suppressed no_baseline = true
is_suppressed unsupported = true
is_suppressed schedule_active = true
is_suppressed _ = false

-- the texts of `AdoptReason`
unfoldable pub reason_text : AdoptReason → String
reason_text none_yet = ""
reason_text opt_out = "opt_out"
reason_text schedule_active = "schedule_active"
reason_text own_echo = "own_echo"
reason_text safety_window = "safety_window"
reason_text safety_frozen = "safety_frozen"
reason_text hold_resumed = "hold_resumed"
reason_text no_signal = "no_signal"
reason_text device_aligned = "device_aligned"
reason_text unsupported = "unsupported"
reason_text own_command_echo = "own_command_echo"
reason_text no_baseline = "no_baseline"
reason_text echo_window = "echo_window"
reason_text stable_prev = "stable_prev"
reason_text command_echo = "command_echo"
reason_text implausible_frost = "implausible_frost"
reason_text stable_offset = "stable_offset"
reason_text adopt = "adopt"

-- `_sup`
abbrev first_suppressed : AdoptReason → AdoptReason → String
first_suppressed mode sp =
    if is_suppressed mode then reason_text mode else if is_suppressed sp then reason_text sp else ""

pub record SetpointInput : Type 0 where
  pub now : ℤ
  pub actual_sp : Option ℤ
  pub step : ℤ
  pub adopted_sp : Option ℤ
  pub mode_reason : AdoptReason
  pub sp_reason : AdoptReason
  pub set_at : ℤ
  pub mins : Option ℤ

unfoldable pub stage_setpoint_adopt :
    HoldSettings
    → UserState
    → External
    → SetpointInput
    → (ℤ → List OverrideStat → List OverrideStat)
    → CommandResult × External
unfolding reason_text note_device_setpoint adopt_setpoint_baselines set_override
stage_setpoint_adopt c u e i stat =
    let u' = record u { last_adopt_log = first_suppressed i.mode_reason i.sp_reason } in
    let e' = note_device_setpoint e i.actual_sp in
    elim i.adopted_sp [
      | none ↦ (record { user = u'; events = []; dirty = false }, e')
      | some sp ↦ (
        set_override c u' (some (finite sp)) (some "device_adopt_setpoint") i.set_at i.mins stat,
        adopt_setpoint_baselines e' sp i.step i.now,
      )
    ]
