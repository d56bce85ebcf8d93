-- ===== src/Tests/Week.antt =====
-- A week of the comfort schedule.
use poise_thermostat.Base.{
  ℕ, ◌+◌, ◌*◌, ◌%◌, ◌/◌, ◌≤◌, ◌<◌, ◌≡◌, refl, Bool, true, false, Option, none, some, List, [], ◌∷◌,
  arith, ◌||◌, any_of,
}
use poise_thermostat.Base.Int.{ℤ, pos}
use poise_thermostat.Schedule.{
  ConfigWindow, ComfortSchedule, ScheduleState, span, clamp_window, clean_windows, from_windows,
  state_at, minutes_to_switchpoint, is_empty, day_minutes, week_minutes,
}
use poise_thermostat.Schedule.Daily.{covers}
use poise_thermostat.Schedule.Verdict.{state_at-covered}
use poise_thermostat.Schedule.Switch.{verdict_at, later, minute_of, state_at-next_comfort}
use poise_thermostat.Schedule.Turn.{IsSwitchpoint, minutes_to_switchpoint-turns}

-- mornings on working days, and every night from Saturday on over the end of the week
abbrev windows : List ConfigWindow
windows =
    record { start_min = pos 360; end_min = pos 540; days = 31 }
    ∷ record { start_min = pos 500; end_min = pos 600; days = 31 }
    ∷ record { start_min = pos 1_320; end_min = pos 360; days = 96 }
    ∷ []

abbrev plan : ComfortSchedule
plan = from_windows windows (pos 3_000)

-- the night of Sunday runs on into the morning of Monday
seam :
    plan.intervals
    ≡ span 1800 2040
      ∷ span 3240 3480
      ∷ span 4680 4920
      ∷ span 6120 6360
      ∷ span 8520 9000
      ∷ span 9960 10680
      ∷ []
unfolding from_windows
seam = refl

abbrev monday_noon : ScheduleState
monday_noon = record {
  is_comfort = false;
  minutes_to_comfort = some 1_080;
  setback_offset = poise_thermostat.Base.Int.negsuc 2_999;
  minutes_to_setback = some 0;
}

noon : state_at plan 720 0 ≡ some monday_noon
unfolding state_at from_windows
noon = refl

state_at-covered_example :
    (s : ScheduleState) × (state_at (from_windows windows (pos 3_000)) 1_380 6 ≡ some s)
    × (s.is_comfort
        ≡ is_empty (clean_windows windows)
          || any_of (λ w. covers (clamp_window w) 6 (1_380 % day_minutes)) windows)
state_at-covered_example = state_at-covered windows (pos 3_000) 1_380 6 (omega arith)

state_at-next_comfort_example :
    (1_080 < week_minutes)
    × ((j : ℕ)
        → j < 1_080
        → (s' : ScheduleState) × (verdict_at plan (later (minute_of 0 720) j) ≡ some s')
          × (s'.is_comfort ≡ false))
    × ((s' : ScheduleState) × (verdict_at plan (later (minute_of 0 720) 1_080) ≡ some s')
        × (s'.is_comfort ≡ true))
state_at-next_comfort_example =
    state_at-next_comfort windows (pos 3_000) 720 0 1_080 monday_noon (omega arith) noon refl refl

-- Sunday at 23:00, in the night that runs on to Monday at 10:00
over_the_seam : minutes_to_switchpoint plan (6, 1_380) ≡ some (some 660)
unfolding minutes_to_switchpoint from_windows
over_the_seam = refl

minutes_to_switchpoint-turns_example :
    (s : ScheduleState) × (r : Option ℕ) × (state_at plan 1_380 6 ≡ some s)
    × (minutes_to_switchpoint plan (6, 1_380) ≡ some r)
    × IsSwitchpoint plan (minute_of 6 1_380) s.is_comfort r
minutes_to_switchpoint-turns_example =
    minutes_to_switchpoint-turns windows (pos 3_000) 1_380 6 (omega arith)
