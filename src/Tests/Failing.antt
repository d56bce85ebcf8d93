-- ===== src/Tests/Failing.antt =====
-- Runs of the heating and cooling failure detectors.  A thousandth of an hour is the unit of time.
use poise_thermostat.Base.{
  ◌≡◌, refl, Bool, true, false, Option, none, some, List, [], ◌∷◌, arith, ◌⊎◌, inl, inr,
}
use poise_thermostat.Base.Int.{ℤ, pos, ◌≤ℤ◌, ◌-ℤ◌, ltb_ℤ, leb_ℤ}
use poise_thermostat.Failure.{Limits, Detector, Sample, new_detector, demanded, update}
use poise_thermostat.Failure.Window.{run, window_verdict}

abbrev limits : Limits
limits = record { delay_h = pos 583; cmd_delta = pos 2000; min_rise = pos 200 }

-- heated towards 21 degrees
abbrev heated : ℤ → ℤ → Sample
heated now room = record { now_h = now; room = room; setpoint = pos 21_000; running = true }

abbrev cooled : ℤ → ℤ → Sample
cooled now room = record { now_h = now; room = room; setpoint = pos 23_000; running = true }

-- the reported state flickers to idle
abbrev pause : ℤ → Sample
pause now = record { now_h = now; room = pos 17_100; setpoint = pos 21_000; running = false }

flat_room_fails :
    (run limits new_detector
      (heated (pos 0) (pos 17_000) ∷ heated (pos 600) (pos 17_100) ∷ [])).failed
    ≡ true
unfolding update poise_thermostat.Base.Int.leb_ℤ ◌-ℤ◌ ltb_ℤ
flat_room_fails = refl

window_verdict_example :
    (update limits
      (run limits new_detector (heated (pos 0) (pos 17_000) ∷ heated (pos 300) (pos 17_000) ∷ []))
      (heated (pos 600) (pos 17_100))).failed
    ≡ ltb_ℤ (pos 17_100 -ℤ pos 17_000) (pos 200)
unfolding demanded ◌-ℤ◌ poise_thermostat.Base.Int.leb_ℤ
window_verdict_example =
    window_verdict limits new_detector (heated (pos 0) (pos 17_000)) (heated (pos 600) (pos 17_100))
      (heated (pos 300) (pos 17_000) ∷ []) refl refl (ground arith) refl (ground arith)
      (ground arith)

abbrev failing : Detector
failing = record { start = some (pos 600, pos 17_100); clear_start = none; failed = true }
