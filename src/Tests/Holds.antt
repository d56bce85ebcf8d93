-- ===== src/Tests/Holds.antt =====
-- Runs of holds and boosts over the user's state.
use poise_thermostat.Base.{
  ◌≡◌, refl, inl, inr, Bool, true, false, Option, none, some, List, [], ◌∷◌, arith, length, ◌≤◌,
  ◌↔◌, ◌||◌,
}
use poise_thermostat.Base.Int.{ℤ, pos, ◌≤ℤ◌, ◌+ℤ◌, Float, finite}
use poise_thermostat.Override.{External, is_own_write}
use poise_thermostat.Hold.{
  no_preset, eco, schedule, UserState, fresh_user, HoldSettings, set_override, set_preset,
  set_mode_override,
}
use poise_thermostat.Hold.Stats.{StatInput, record_override_stat}
use poise_thermostat.Hold.Lifecycle.{hold_active}
use poise_thermostat.Hold.Expiry.{Tick, Options, run, run-ends_once, boosted}
use poise_thermostat.Hold.Reach.{Step, Reach, IsUser, Reach-IsUser}
use poise_thermostat.Hold.Refine.{HoldCommand, view, exec_all, spec_all, view-exec_all}
use poise_thermostat.Hold.Stages.{ActuatorState, ModeInput, HoldRouting, stage_mode_adoption}

abbrev settings : HoldSettings
settings = record {
  policy = schedule;
  timer_h = pos 4_000;
  max_h = pos 12_000;
  frost_floor = pos 7_000;
  device_max = pos 30_000;
}

abbrev zone : StatInput
zone = record {
  preset = no_preset;
  presence_level = "comfort";
  window_open = false;
  comfort_base = pos 21_000;
  override_cfg = record {
    eco_offset = pos 2_000;
    boost_offset = pos 2_000;
    away_offset = pos 4_000;
    manual_revert_h = pos 2_000;
  };
  in_comfort = true;
  now = pos 0;
}

-- 23 degrees, asked for at the start of the clock, with a switchpoint in an hour
abbrev held_user : UserState
held_user =
    (set_override settings fresh_user (some (finite (pos 23_000))) none (pos 0) (some (pos 60_000))
      (record_override_stat zone)).user

held_until : held_user.override_expires_at ≡ some (pos 3_600_000)
unfolding set_override poise_thermostat.Base.Int.min_ℤ ◌+ℤ◌ poise_thermostat.Base.Int.◌*ℤ◌
held_until = refl

abbrev options : Options
options = record { end_on_presence = true; boost_min = pos 30_000 }

abbrev tick : ℤ → Tick
tick now = record { home = some true; now = now }

abbrev early : List Tick
early = tick (pos 60_000) ∷ tick (pos 3_599_999) ∷ []

abbrev late : List Tick
late = tick (pos 60_000) ∷ tick (pos 3_600_000) ∷ tick (pos 3_660_000) ∷ []

run-ends_once_example :
    (length (run options held_user (some true) late).1 ≡ 1)
    × (hold_active (run options held_user (some true) late).0 ≡ false)
unfolding set_override poise_thermostat.Base.Int.leb_ℤ poise_thermostat.Base.Int.min_ℤ ◌+ℤ◌
    poise_thermostat.Base.Int.◌*ℤ◌
run-ends_once_example = run-ends_once options held_user (some true) late refl refl

abbrev eco_user : UserState
eco_user = (set_preset fresh_user eco (pos 30_000) (pos 0)).user

abbrev boosting : UserState
boosting = boosted eco_user ((pos 30_000, pos 0) ∷ (pos 60_000, pos 1_000) ∷ [])

abbrev device_mode : UserState
device_mode = (set_mode_override settings held_user (some "cool") (pos 9_000) none).user

reached_user : Reach settings fresh_user device_mode
reached_user =
    Reach.next
      (Reach.next Reach.here (
        Step.overriding fresh_user (some (finite (pos 23_000))) none (pos 0) (some (pos 60_000))
          zone))
      (Step.adopting_mode held_user (some "cool") (pos 9_000) none)

Reach-IsUser_example : IsUser settings device_mode
Reach-IsUser_example = Reach-IsUser settings (omega arith) reached_user

abbrev commands : List HoldCommand
commands =
    HoldCommand.setpoint (some (finite (pos 23_000))) none (pos 0) (some (pos 60_000)) (λ v l. l)
    ∷ HoldCommand.adopt "cool" (pos 9_000) none
    ∷ HoldCommand.unpin (pos 10_000) none
    ∷ HoldCommand.adopt "heat" (pos 11_000) none
    ∷ HoldCommand.check (some true) (some true) true (pos 30_000) (pos 3_600_000)
    ∷ []

view-exec_all_example :
    view (exec_all settings fresh_user commands) ≡ spec_all settings (view fresh_user) commands
view-exec_all_example =
    view-exec_all settings (omega arith) fresh_user commands (refl, refl, refl, refl, refl, tt)

abbrev baselines : External
baselines = record {
  last_written_sp = none;
  prev_device_sp = none;
  last_commanded_hvac = some "off";
  prev_device_mode = some "off";
  last_commanded_fan = none;
  prev_device_fan = none;
  last_sp_write_ts = none;
  last_hvac_cmd_ts = some (pos 0);
  last_fan_cmd_ts = none;
  pre_write_sp = none;
  own_write_ctx_ids = "ours" ∷ [];
  last_sp_ctx_id = none;
  last_cmd_sp = none;
  cmd_episode_ts = none;
  reasserts_suppressed = 0;
  last_mode_nudge_ts = none;
  mode_reasserts_suppressed = 0;
}

abbrev off_user : UserState
off_user = (set_mode_override settings fresh_user (some "off") (pos 0) none).user

abbrev remote : ActuatorState
remote = record { mode = some "cool"; context_id = some "theirs" }

abbrev cooling_tick : Bool → ModeInput
cooling_tick window_open = record {
  now = pos 900_000;
  frozen = false;
  window_open = window_open;
  can_heat = true;
  can_cool = true;
  idle_park_mode = none;
  final_mode = "heat";
  act_modes = "off" ∷ "heat" ∷ "cool" ∷ [];
  adopt_external_mode = true;
  set_at = pos 900_000;
  mins = none;
}

abbrev foreign : HoldRouting
foreign = record { own_change = false; off_held = false; resumed = false }

-- without the open window the remote's mode is adopted
remote_adopted :
    (stage_mode_adoption settings held_user baselines
      (cooling_tick false)
      remote
      foreign).desired_hvac
    ≡ "cool"
unfolding stage_mode_adoption poise_thermostat.Override.observe_mode
    poise_thermostat.Override.mode_adopt_reason poise_thermostat.Tick.resolve_desired_mode
    poise_thermostat.Base.Int.ltb_ℤ poise_thermostat.Base.Int.◌-ℤ◌ set_override
remote_adopted = refl
