-- ===== src/Tests/Fan.antt =====
-- Runs of the fan-first automaton.
use Prim.Native.String.{String}
use poise_thermostat.Base.{
  ◌≡◌, refl, ◌⊎◌, inl, inr, Bool, true, false, Option, none, some, List, [], ◌∷◌, arith,
}
use poise_thermostat.Base.Int.{ℤ, pos, seconds}
use poise_thermostat.FanFirst.{
  FanMode, FanFirstState, FanFirstDecision, FanInput, fresh_fan, fan_first_decision, set_stage,
  await_stage, await_fan_only,
}
use poise_thermostat.FanFirst.Run.{Safe, run, last_now, run-Safe}

abbrev modes : List FanMode
modes =
    record { label = "auto"; is_auto = true; velocity = some (pos 300_000) }
    ∷ record { label = "low"; is_auto = false; velocity = some (pos 300_000) }
    ∷ record { label = "mid"; is_auto = false; velocity = some (pos 600_000) }
    ∷ record { label = "turbo"; is_auto = false; velocity = none }
    ∷ []

-- a warm room in which cooling is asked for, the device in the mode `mode`
abbrev warm : ℤ → String → FanInput
warm now mode = record {
  now = now;
  cool_requested = true;
  fan_first_allowed = true;
  fan_only_capable = true;
  observed_hvac_mode = some mode;
  observed_hvac_action = some "idle";
  observed_fan_mode = some "auto";
  advertised_modes = modes;
  operative = pos 26_000;
  room = pos 26_000;
  presence_ok = true;
  window_open = false;
  in_comfort_window = true;
  foreign_fan_change = false;
}

-- the state after the engagement at 0 s
abbrev waiting : FanFirstState
waiting = record fresh_fan {
  phase = await_fan_only;
  engaged_at = some (pos 0);
  phase_at = some (pos 0);
  room_at_entry = some (pos 26_000);
  entry_fan_mode = some "auto";
}

engages : run (warm (pos 0) "cool" ∷ []) fresh_fan ≡ some waiting
unfolding run fan_first_decision poise_thermostat.Base.Int.ltb_ℤ poise_thermostat.Base.Int.leb_ℤ
engages = refl

abbrev staged : FanFirstState
staged = record waiting { phase = await_stage; stage = some "mid"; phase_at = some (seconds 60) }

-- the fan mode is reported after a minute, and the fastest stage in the clamp is commanded
requests_mid :
    fan_first_decision waiting (warm (seconds 60) "fan_only")
    ≡ some (record {
      state = staged;
      command = set_stage;
      reason = "stage_request";
      restore_stage = none;
    })
unfolding fan_first_decision poise_thermostat.Base.Int.leb_ℤ poise_thermostat.Base.Int.ltb_ℤ
    poise_thermostat.Base.Int.◌-ℤ◌
requests_mid = refl

run-Safe_example :
    (s' : FanFirstState) × (run (warm (pos 0) "cool" ∷ warm (seconds 60) "fan_only" ∷ []) fresh_fan
      ≡ some s')
    × Safe s' (last_now (pos 0) (warm (pos 0) "cool" ∷ warm (seconds 60) "fan_only" ∷ []))
run-Safe_example =
    run-Safe fresh_fan (pos 0) (warm (pos 0) "cool" ∷ warm (seconds 60) "fan_only" ∷ []) (inl refl)

abbrev request : FanFirstDecision
request = record {
  state = staged;
  command = set_stage;
  reason = "stage_request";
  restore_stage = none;
}
