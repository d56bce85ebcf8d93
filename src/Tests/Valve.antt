-- ===== src/Tests/Valve.antt =====
-- Runs of the calibration of a valve's sensor.
use poise_thermostat.Base.{
  ◌≡◌, refl, inl, ◌⊎◌, Bool, true, false, Option, none, some, List, [], ◌∷◌, arith,
}
use poise_thermostat.Base.Int.{ℤ, pos, negsuc}
use poise_thermostat.Calibration.{CalibrationState, fresh_calibration}
use poise_thermostat.Calibration.Segments.{
  CalibrationTick, CalibrationMeta, Reading, gone, unreadable, readable, stage_calibration_handoff,
}
use poise_thermostat.Calibration.Writing.{calibration_tick}
use poise_thermostat.Calibration.Ownership.{owner, Taken, calibrate_all, original_offset}
use poise_thermostat.Calibration.Evidence.{Quiet, no_compounding}
use poise_thermostat.Calibration.Handoff.{EndsSafely, Restores, handoff_is_safe}

abbrev dial : ℤ → CalibrationMeta
dial reported = record { reported = reported; lo = negsuc 4_999; hi = pos 5_000; step = 500 }

-- a tick whose valve reads two degrees too warm
abbrev reads : ℤ → ℤ → CalibrationTick
reads offset now = record {
  is_live = true;
  online = true;
  discovered = some "number.offset";
  discovered_meta = readable (dial offset);
  owned_meta = readable (dial offset);
  trv_temp = some (pos 22_000);
  room_decide = pos 20_000;
  now = now;
  wall_now = now;
  last_updated = now;
  dispatch_success = true;
  dispatch_wall_ts = now;
}

-- after the first write
abbrev owned : CalibrationState
owned = record {
  cal_baseline = some (pos 500);
  cal_entity = some "number.offset";
  last_cal_value = some (negsuc 1_499);
  last_cal_write_ts = some (pos 0);
  last_cal_dispatch_wall_ts = some (pos 0);
  last_cal_restore_ts = none;
  dirty = true;
}

first_write : calibrate_all fresh_calibration (reads (pos 500) (pos 0) ∷ []) ≡ owned
unfolding calibrate_all calibration_tick poise_thermostat.Base.Int.leb_ℤ
    poise_thermostat.Base.Int.abs_ℤ poise_thermostat.Base.Int.◌-ℤ◌
    poise_thermostat.Calibration.beats poise_thermostat.Base.Int.eqb_ℤ
    poise_thermostat.Base.Int.◌+ℤ◌ poise_thermostat.Base.Int.◌*ℤ◌
first_write = refl

-- the option was switched off
abbrev off : ℤ → ℤ → CalibrationTick
off offset now = record (reads offset now) { is_live = false }

handed_back :
    owner
      (calibrate_all owned (off (negsuc 1_499) (pos 300_000) ∷ off (pos 500) (pos 600_000) ∷ []))
    ≡ (none, none)
unfolding calibrate_all calibration_tick poise_thermostat.Calibration.within_half_step
    poise_thermostat.Base.Int.leb_ℤ poise_thermostat.Base.Int.◌*ℤ◌ poise_thermostat.Base.Int.abs_ℤ
    poise_thermostat.Base.Int.◌-ℤ◌ poise_thermostat.Calibration.Segments.handback_target
    poise_thermostat.Calibration.beats poise_thermostat.Base.Int.eqb_ℤ
    poise_thermostat.Base.Int.◌+ℤ◌
handed_back = refl

abbrev two_writes : List CalibrationTick
two_writes = reads (pos 500) (pos 0) ∷ reads (negsuc 1_499) (pos 300_000) ∷ []

-- the second write leaves the original offset on record
two_writes_owner :
    owner (calibrate_all fresh_calibration two_writes) ≡ (some (pos 500), some "number.offset")
unfolding calibrate_all calibration_tick poise_thermostat.Base.Int.leb_ℤ
    poise_thermostat.Base.Int.abs_ℤ poise_thermostat.Base.Int.◌-ℤ◌
    poise_thermostat.Calibration.beats poise_thermostat.Base.Int.eqb_ℤ
    poise_thermostat.Base.Int.◌+ℤ◌ poise_thermostat.Base.Int.◌*ℤ◌
    poise_thermostat.Calibration.within_half_step
two_writes_owner = refl

original_offset_example :
    let o = owner (calibrate_all fresh_calibration two_writes) in
    (o ≡ (none, none)) ⊎ Taken o fresh_calibration two_writes
original_offset_example = original_offset two_writes

handoff_is_safe_example :
    EndsSafely owned
      (off (negsuc 1_499) (pos 300_000))
      (pos 500)
      (stage_calibration_handoff owned (off (negsuc 1_499) (pos 300_000)))
    × Restores
        (off (negsuc 1_499) (pos 300_000))
        (pos 500)
        (stage_calibration_handoff owned (off (negsuc 1_499) (pos 300_000))).plan
handoff_is_safe_example =
    handoff_is_safe owned (off (negsuc 1_499) (pos 300_000)) (pos 500) refl refl

-- the store keeps only the baseline and the entity over a restart
abbrev restarted : CalibrationState
restarted = record fresh_calibration {
  cal_baseline = some (pos 500);
  cal_entity = some "number.offset";
}

abbrev unheard : List CalibrationTick
unheard =
    record (reads (negsuc 1_499) (pos 10_000)) { last_updated = pos 9_000 }
    ∷ record (reads (negsuc 1_499) (pos 400_000)) { last_updated = pos 9_500 }
    ∷ []

heard_again :
    (calibration_tick (calibrate_all restarted unheard) (reads (negsuc 1_499) (pos 700_000))).plan
    ≡ some (record { value = some (negsuc 3_499); restore = false })
unfolding calibration_tick calibrate_all poise_thermostat.Calibration.within_half_step
    poise_thermostat.Base.Int.leb_ℤ poise_thermostat.Base.Int.◌*ℤ◌ poise_thermostat.Base.Int.abs_ℤ
    poise_thermostat.Base.Int.◌-ℤ◌ poise_thermostat.Calibration.beats
    poise_thermostat.Base.Int.eqb_ℤ poise_thermostat.Base.Int.◌+ℤ◌
heard_again = refl

no_compounding_example : Quiet restarted unheard
no_compounding_example =
    no_compounding (pos 10_000) restarted unheard (refl, inl refl)
      ((omega arith, omega arith), ((omega arith, omega arith), tt))
