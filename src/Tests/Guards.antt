-- ===== src/Tests/Guards.antt =====
-- Runs of the safe state, the window detector, the trust record and the room's absence.
use Prim.Native.String.{String}
use poise_thermostat.Base.{
  ℕ, zero, suc, ◌≡◌, ◌≤◌, refl, Bool, true, false, Option, none, some, List, [], ◌∷◌, ◌++◌, arith,
  length, All, is_some,
}
use poise_thermostat.Base.Int.{◌+ℤ◌, ◌≤ℤ◌, ltb_ℤ, ℤ, pos, negsuc, ◌<ℤ◌, Float, finite}
use poise_thermostat.Activation.{TierTick, fresh_tier, suspended, live, dwell_target_min}
use poise_thermostat.Activation.Dwell.{qualified, live_after_dwell}
use poise_thermostat.Compressor.{
  LifecyclePolicy, DeviceLifecycle, Observation, fresh_device, observe_device, guard_block_reason,
}
use poise_thermostat.Compressor.Rest.{observe_all, start_held_back}
use poise_thermostat.Safe.{Handback, Device, resolve_safe_state}
use poise_thermostat.Safe.Floor.{obey, IsSafe, resolve_safe_state-settles}
use poise_thermostat.Safe.Retry.{OutageTick, release_times}
use poise_thermostat.WindowAuto.{default_config, fresh_window}
use poise_thermostat.WindowAuto.Duration.{total, run-StaysOpen}
use poise_thermostat.WindowAuto.Duration as Duration
use poise_thermostat.Trust.{TauSample}
use poise_thermostat.Presence.Absence.{RoomTick, BeganAt, run-BeganAt}
use poise_thermostat.Presence.Absence as Absence

-- a split unit that cools
abbrev split : Device
split = record {
  hvac_modes = "off" ∷ "heat" ∷ "cool" ∷ [];
  device_state = some "cool";
  device_setpoint = some (pos 24_000);
  device_min = some (pos 16_000);
}

resolve_safe_state-settles_example :
    IsSafe (obey (resolve_safe_state split (pos 7_000)) split) (pos 7_000)
    × (resolve_safe_state (obey (resolve_safe_state split (pos 7_000)) split) (pos 7_000) ≡ none)
resolve_safe_state-settles_example = resolve_safe_state-settles split (pos 7_000)

abbrev external : Handback
external = record {
  select_entity_id = some "select.valve";
  select_state = some "external";
  configured_feed = none;
  last_fed = some (pos 20_000);
}

abbrev outage : List OutageTick
outage =
    record { handback = external; now = pos 0 }
    ∷ record { handback = external; now = pos 60_000 }
    ∷ record { handback = external; now = pos 300_000 }
    ∷ []

released : release_times none outage ≡ pos 0 ∷ pos 300_000 ∷ []
unfolding release_times poise_thermostat.Safe.release
    poise_thermostat.Safe.sensor_source_handback_target poise_thermostat.Base.Int.ltb_ℤ
    poise_thermostat.Base.Int.◌-ℤ◌
released = refl

-- three steep minutes, and two more without a slope
abbrev steep : Duration.Tick
steep = record { slope = some (negsuc 5_999); dt_min = pos 1_000 }

abbrev blind : Duration.Tick
blind = record { slope = none; dt_min = pos 10_000 }

run-StaysOpen_example :
    total
      (Duration.run default_config fresh_window (steep ∷ steep ∷ steep ∷ [])).minutes_open
      (blind ∷ blind ∷ [])
    <ℤ pos 30_000
unfolding Duration.run poise_thermostat.WindowAuto.step_window_auto poise_thermostat.Base.Int.ltb_ℤ
    poise_thermostat.Base.Int.abs_ℤ poise_thermostat.Base.Int.◌+ℤ◌ poise_thermostat.Base.Int.◌*ℤ◌
    poise_thermostat.Base.Int.◌-ℤ◌ poise_thermostat.Base.Int.leb_ℤ
run-StaysOpen_example =
    run-StaysOpen default_config (steep ∷ steep ∷ steep ∷ []) (blind ∷ blind ∷ []) (omega arith)
      refl (refl, (refl, tt))

abbrev sample : TauSample
sample = record { tau = finite (pos 40_000); dt = pos 600_000; reset = false }

abbrev pegged : TauSample
pegged = record { tau = finite (pos 200_000); dt = pos 600_000; reset = false }

abbrev copies : ℕ → List TauSample
copies zero = []
copies (suc n) = sample ∷ copies n

abbrev room : Option Bool → ℤ → Bool → RoomTick
room present now accrue = record { present = present; now = now; accrue = accrue }

abbrev evening : List RoomTick
evening =
    room (some true) (pos 0) true
    ∷ room (some false) (pos 60_000) false
    ∷ room (some false) (pos 120_000) true
    ∷ []

evening-BeganAt : BeganAt (pos 60_000) evening
unfolding Absence.run poise_thermostat.Presence.step_room_absence
evening-BeganAt = run-BeganAt evening (pos 60_000) refl

-- the compressor stops after an hour and rests for three more minutes
abbrev guard_policy : LifecyclePolicy
guard_policy = record {
  min_on_s = pos 120_000;
  min_off_s = pos 300_000;
  min_mode_hold_s = pos 300_000;
  max_starts_per_h = none;
}

abbrev observed : Bool → String → ℤ → Observation
observed conditioning mode now = record {
  conditioning = conditioning;
  mode = some mode;
  now = now;
  health = "ok";
}

abbrev cooling_device : DeviceLifecycle
cooling_device = observe_device fresh_device (observed true "cool" (pos 0))

start_held_back_example :
    is_some (
      guard_block_reason
        (some guard_policy)
        (observe_all cooling_device
          (observed false "off" (pos 3_600_000) ∷ observed false "off" (pos 3_660_000) ∷ []))
        (pos 3_780_000)
        "dry"
        (some "off")
        false)
    ≡ ltb_ℤ (pos 3_780_000) (pos 3_600_000 +ℤ pos 300_000)
unfolding observe_device poise_thermostat.Compressor.compressor_conditioning
start_held_back_example =
    start_held_back guard_policy cooling_device (observed false "off" (pos 3_600_000))
      (observed false "off" (pos 3_660_000) ∷ []) (pos 3_780_000) "dry" (some "off") refl refl
      (refl, tt) refl refl

-- two days of scored ticks of half a day
abbrev scored : TierTick
scored = record {
  ready = true;
  entry_ok = true;
  ppd = pos 7_000;
  signature = "r1|office|+0.00|";
  dt_min = pos 720_000;
  allowed = true;
  next_generation = 1;
  impossible = false;
}

live_after_dwell_example : dwell_target_min ≤ℤ qualified (pos 0) (scored ∷ scored ∷ scored ∷ [])
unfolding poise_thermostat.Activation.Dwell.run poise_thermostat.Activation.step_tier
    poise_thermostat.Base.Int.leb_ℤ ◌+ℤ◌
live_after_dwell_example =
    live_after_dwell (fresh_tier suspended 0) (scored ∷ scored ∷ scored ∷ []) (λ e. cc) (λ e. cc)
      (omega arith) refl
