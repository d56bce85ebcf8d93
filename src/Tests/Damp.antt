-- ===== src/Tests/Damp.antt =====
-- Runs of the humidity decision and of the mode of a tick.
use poise_thermostat.Base.{
  ◌≡◌, refl, Bool, true, false, not, ◌&&◌, ◌||◌, Option, none, some, List, [], ◌∷◌, if◌then◌else◌,
  arith,
}
use poise_thermostat.Base.Int.{ℤ, pos, ltb_ℤ, ◌+ℤ◌, ◌-ℤ◌}
use poise_thermostat.Dynamics.{fast_air}
use poise_thermostat.ModeResolution.{ModeTick, stage_mode_resolution, dry_despite_lockout}
use poise_thermostat.Humidity.{
  HumidityTick, category_ii, humidity_step, mode_arbitration, hum_dry_guard, hum_idle, hum_dry,
}
use poise_thermostat.Humidity.Latch.{dry_run, starts_dry, stays_dry, dries_since, dry_mode}

-- an occupied room in its dead band
abbrev damp : ℤ → HumidityTick
damp rh = record {
  block_fails = false;
  rh = some rh;
  room_decide = pos 23_000;
  heat_sp = pos 21_000;
  eff_cool = pos 25_000;
  can_dry = true;
  can_fan_only = false;
  category = some category_ii;
  abs_humidity_gkg = none;
  occupied = true;
  norm_basis = "en16798";
}

latched : dry_run false (damp (pos 61_000) ∷ damp (pos 56_000) ∷ []) ≡ true
unfolding dry_run humidity_step poise_thermostat.Base.Int.ltb_ℤ poise_thermostat.Base.Int.leb_ℤ
    poise_thermostat.Base.Int.◌-ℤ◌
latched = refl

-- between the two limits drying goes on but does not start
never_started : dry_run false (damp (pos 59_000) ∷ []) ≡ false
unfolding dry_run humidity_step poise_thermostat.Base.Int.ltb_ℤ poise_thermostat.Base.Int.leb_ℤ
never_started = refl

released : dry_run false (damp (pos 61_000) ∷ damp (pos 54_000) ∷ damp (pos 59_000) ∷ []) ≡ false
unfolding dry_run humidity_step poise_thermostat.Base.Int.ltb_ℤ poise_thermostat.Base.Int.leb_ℤ
    poise_thermostat.Base.Int.◌-ℤ◌
released = refl

guarded : (humidity_step true (damp (pos 39_000))).action ≡ hum_dry_guard
unfolding humidity_step poise_thermostat.Base.Int.ltb_ℤ
guarded = refl

dry_mode_example :
    mode_arbitration "idle"
      (humidity_step (dry_run false (damp (pos 61_000) ∷ [])) (damp (pos 56_000))).action
      true
      false
    ≡ (if starts_dry (damp (pos 56_000))
          || (dries_since (damp (pos 61_000) ∷ []) && stays_dry (damp (pos 56_000)))
        then "dry"
        else "idle")
dry_mode_example = dry_mode (damp (pos 61_000) ∷ []) (damp (pos 56_000)) false

-- a manual hold of 24 degrees in a room of 26, on a split unit that could also run its fan
abbrev held : ModeTick
held = record {
  enabled = true;
  override = some (pos 24_000);
  mode_override = none;
  climate_mode = "auto";
  dynamics = fast_air;
  frozen = false;
  window_open = false;
  t_out_eff = pos 30_000;
  can_heat = true;
  can_cool = true;
  room_decide = pos 26_000;
  mode = "manual";
  target = pos 24_000;
  hvac_modes = "off" ∷ "cool" ∷ "dry" ∷ "fan_only" ∷ [];
  hum_action = hum_idle;
  cool_min_outdoor = pos 16_000;
  cool_lockout_enabled = true;
  heat_max_outdoor = pos 22_000;
  heat_lockout_enabled = true;
  compressor_guard = "auto";
  comp_min_off_opt = none;
  comp_mode_hold_opt = none;
  fan_first_requested = true;
}

held_cools : (stage_mode_resolution held).final_mode ≡ "cool"
unfolding stage_mode_resolution ltb_ℤ ◌+ℤ◌ ◌-ℤ◌ poise_thermostat.Base.Int.leb_ℤ
held_cools = refl

-- without the hold the fan goes first
fan_goes_first :
    (stage_mode_resolution (record held { override = none; mode = "cool" })).final_mode ≡ "fan_only"
unfolding stage_mode_resolution
fan_goes_first = refl

-- 10 degrees outside, where cooling is locked out
abbrev locked : ModeTick
locked = record held { t_out_eff = pos 10_000; hum_action = hum_dry }

dry_despite_lockout_example : (stage_mode_resolution locked).final_mode ≡ "dry"
unfolding ◌-ℤ◌
dry_despite_lockout_example =
    dry_despite_lockout locked (pos 24_000) refl refl refl refl refl (omega arith) (omega arith)
      refl refl
