-- ===== src/Tests/Baselines.antt =====
-- Runs of the adoption of device-side changes.
use Prim.Native.String.{String}
use poise_thermostat.Base.{
  ◌≡◌, refl, Bool, true, false, Option, none, some, List, [], ◌∷◌, arith, ◌↔◌,
}
use poise_thermostat.Base.Int.{ℤ, pos}
use poise_thermostat.Override.{
  External, adopt, command_echo, adopt_echo_window_s, setpoint_adopt_reason, mode_adopt_reason,
  observe_mode, observe_setpoint, adopt_setpoint_baselines, note_device_fan, observe_fan_foreign,
}
use poise_thermostat.Override.Adoption.{adopt_setpoint_baselines-settles}
use poise_thermostat.Tests.Fixtures.{fresh, commanded}

abbrev modes : List String
modes = "heat" ∷ "cool" ∷ "off" ∷ []

-- 23 degrees, set 30 s after 21 were written over 19
in_window :
    setpoint_adopt_reason
      (some (pos 23_000))
      (some (pos 21_000))
      (some (pos 0))
      (pos 30_000)
      adopt_echo_window_s
      (pos 500)
      (some (pos 19_000))
      (some (pos 19_000))
      (some (pos 7000))
    ≡ adopt
unfolding setpoint_adopt_reason poise_thermostat.Override.near poise_thermostat.Base.Int.ltb_ℤ
    poise_thermostat.Base.Int.abs_ℤ poise_thermostat.Base.Int.◌-ℤ◌ poise_thermostat.Base.Int.leb_ℤ
in_window = refl

-- 22.3 degrees snap to 22.5 on a step of half a degree
adopt_setpoint_baselines-settles_example :
    let e' = adopt_setpoint_baselines commanded (pos 22_300) (pos 500) (pos 30_000) in
    setpoint_adopt_reason
      (some (pos 22_300))
      e'.last_written_sp
      e'.last_sp_write_ts
      (pos 90_000)
      adopt_echo_window_s
      (pos 500)
      none
      (some (pos 21_000))
      (some (pos 7000))
    ≡ command_echo
adopt_setpoint_baselines-settles_example =
    adopt_setpoint_baselines-settles commanded (pos 22_300) 50 (pos 30_000) (pos 90_000)
      adopt_echo_window_s (pos 500) none (some (pos 21_000)) (some (pos 7000)) (omega arith)
      (omega arith)

-- "heat" was commanded at 0 s, over "off"
abbrev heating : External
heating = record fresh {
  last_commanded_hvac = some "heat";
  last_hvac_cmd_ts = some (pos 0);
  prev_device_mode = some "off";
}

abbrev seen_inside : List (Option String × ℤ)
seen_inside = (some "cool", pos 60_000) ∷ (some "cool", pos 90_000) ∷ []

abbrev blowing : External
blowing = record fresh {
  last_commanded_fan = some "low";
  last_fan_cmd_ts = some (pos 0);
  prev_device_fan = some "low";
}
