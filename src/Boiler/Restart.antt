-- ===== src/Boiler/Restart.antt =====
-- What of the boiler's state survives a restart.
use poise_thermostat.Base.{◌≡◌, refl, Bool, some, arith}
use poise_thermostat.Base.Int.{
  ℤ, pos, ◌≤ℤ◌, ◌+ℤ◌, ◌-ℤ◌, max_ℤ, ltb_ℤ, max_ℤ_bounds, int_laws, -ℤ_parts, eq_of_parts,
}
use poise_thermostat.Boiler.{BoilerState, Payload, boiler_state_to_payload, restore_boiler_state}

max_zero : (a : ℤ) → pos 0 ≤ℤ a → max_ℤ (pos 0) a ≡ a
unfolding max_ℤ
max_zero a h = ground arith

module _ (s : BoilerState) (mono wall mono' wall' : ℤ) (actuated : Bool) where
  abbrev restored : BoilerState × Bool
  restored = restore_boiler_state (some (boiler_state_to_payload s mono wall actuated)) mono' wall'

  -- Storing the boiler's state and restoring it after a restart keeps whether the boiler is on and
  -- whether Poise has actuated it, and the time since the last switch goes on by the wall clock,
  -- where neither clock has gone backwards.
  pub restore-payload :
      s.last_switch_mono ≤ℤ mono
      → wall ≤ℤ wall'
      → (restored.0.on ≡ s.on)
        × (restored.1 ≡ actuated)
        × (mono' -ℤ restored.0.last_switch_mono ≡ (mono -ℤ s.last_switch_mono) +ℤ (wall' -ℤ wall))
  unfolding boiler_state_to_payload restore_boiler_state
  restore-payload h k =
      let a = mono -ℤ s.last_switch_mono in
      let inner = max_zero a (omega int_laws) in
      let outer = max_zero (wall' -ℤ (wall -ℤ a)) (omega int_laws) in
      (refl, refl, rw (inner, outer) (eq_of_parts _ _ (omega int_laws)))

-- Whatever the clocks did in between, the restored switch time is not in the future, so the minimum
-- on and off times are never taken for longer past than they are.
pub restore-not_future :
    (p : Payload) (mono' wall' wall : ℤ)
    → p.last_switch_wall ≡ some wall
    → (restore_boiler_state (some p) mono' wall').0.last_switch_mono ≤ℤ mono'
unfolding restore_boiler_state max_ℤ ltb_ℤ
restore-not_future p mono' wall' wall h =
    let d = -ℤ_parts wall' wall in rw h (omega (int_laws, max_ℤ_bounds (pos 0) (wall' -ℤ wall)))
