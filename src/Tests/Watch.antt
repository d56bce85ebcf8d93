-- ===== src/Tests/Watch.antt =====
-- Runs of the convergence watchdog.
use poise_thermostat.Base.{
  ◌≡◌, ◌≤◌, refl, Bool, true, false, Option, none, some, List, [], ◌∷◌, arith,
}
use poise_thermostat.Base.Int.{ℤ, pos, seconds}
use poise_thermostat.Convergence.{
  Watchdog, SetpointTick, cleared, observe_setpoint, observe_mode, channel_escalated,
  convergence_tolerance,
}
use poise_thermostat.Convergence.Episode.{run, stuck_device_escalates}

-- 21 degrees were written, and the device reports 19
abbrev stuck : ℤ → SetpointTick
stuck now = record {
  actual_sp = some (pos 19_000);
  last_written_sp = some (pos 21_000);
  tolerance = pos 500;
  wrote = true;
  evidence_fresh = true;
  now = now;
}

abbrev later : List SetpointTick
later =
    stuck (seconds 1200) ∷ stuck (seconds 1800) ∷ stuck (seconds 2400) ∷ stuck (seconds 3000) ∷ []

stuck_device_escalates_example :
    channel_escalated (run cleared (stuck (seconds 600) ∷ later)) (seconds 3060) ≡ true
unfolding poise_thermostat.Convergence.judge poise_thermostat.Base.Int.leb_ℤ
    poise_thermostat.Base.Int.abs_ℤ poise_thermostat.Base.Int.◌-ℤ◌
stuck_device_escalates_example =
    stuck_device_escalates (stuck (seconds 600)) later (seconds 3060) refl (ground arith)
      (omega arith) (ground arith)

abbrev idle : Watchdog
idle = record { sp = cleared; mode = cleared }
