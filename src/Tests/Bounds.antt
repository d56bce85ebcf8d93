-- ===== src/Tests/Bounds.antt =====
-- Runs of the constraint resolution and of the corridor arbitration.
use poise_thermostat.Base.{
  ◌≡◌, refl, Bool, true, false, Option, none, some, List, [], ◌∷◌, arith, All, ◌⊎◌, inl, inr,
}
use poise_thermostat.Base.Int.{ℤ, pos, ◌≤ℤ◌, ◌<ℤ◌, ◌-ℤ◌, abs_ℤ}
use poise_thermostat.Constraints.{
  Constraint, floor_at, cap_at, safety, health, comfort, efficiency, resolve_constraints,
}
use poise_thermostat.Constraints.Extrema.{FloorsHold, CapsHold}
use poise_thermostat.Constraints.Resolve.{resolve_constraints_nearest, masked_safety_cap}
use poise_thermostat.Arbitration.{
  ComfortCorridor, ControlRequest, ActuatorPath, setpoint, resolve, Bound, service_call_for,
}
use poise_thermostat.Arbitration.Corridor.{Inside, resolve-Inside}

abbrev room : List Constraint
room =
    floor_at (pos 18_000) "norm_floor" health
    ∷ cap_at (pos 26_000) "norm_cap" comfort
    ∷ cap_at (pos 30_000) "device_max" safety
    ∷ []

-- a mould floor above the norm cap
abbrev damp : List Constraint
damp = floor_at (pos 27_000) "mould" health ∷ cap_at (pos 26_000) "norm_cap" comfort ∷ []

abbrev efficient : List Constraint
efficient = floor_at (pos 27_000) "coast" efficiency ∷ cap_at (pos 26_000) "norm_cap" comfort ∷ []

room-warm : (resolve_constraints (pos 28_000) room).value ≡ pos 26_000
unfolding resolve_constraints poise_thermostat.Constraints.binding_floor
    poise_thermostat.Base.first_best poise_thermostat.Constraints.binding_cap
    poise_thermostat.Base.Int.ltb_ℤ poise_thermostat.Constraints.cap_beats
    poise_thermostat.Base.Int.eqb_ℤ
room-warm = refl

resolve_constraints_nearest_example :
    let v = (resolve_constraints (pos 28_000) room).value in
    FloorsHold room v
    × CapsHold room v
    × (abs_ℤ (v -ℤ pos 28_000) ≤ℤ abs_ℤ (pos 20_000 -ℤ pos 28_000))
resolve_constraints_nearest_example =
    resolve_constraints_nearest (pos 28_000) (pos 20_000) room (ground arith) (ground arith)

masked_safety_cap_example :
    pos 30_000
    <ℤ (resolve_constraints (pos 20_000) (
        floor_at (pos 31_000) "mould" health
        ∷ cap_at (pos 26_000) "norm_cap" comfort
        ∷ cap_at (pos 30_000) "device_max" safety
        ∷ [])).value
masked_safety_cap_example =
    masked_safety_cap (pos 20_000) (pos 31_000) (pos 26_000) (pos 30_000) "mould" "norm_cap"
      "device_max" (omega arith) (omega arith)

abbrev bound : ℤ → Bound
bound v = record { value = v; cause = "edge" }

abbrev comfort_band : ComfortCorridor
comfort_band = record {
  lower = bound (pos 19_000) ∷ bound (pos 7000) ∷ [];
  upper = bound (pos 25_500) ∷ [];
  target = pos 21_000;
}

-- the mould floor lies above the upper edge
abbrev inverted_band : ComfortCorridor
inverted_band = record {
  lower = bound (pos 26_500) ∷ [];
  upper = bound (pos 25_500) ∷ [];
  target = pos 21_000;
}

abbrev request : ℤ → ControlRequest
request v = record {
  actuator_id = "climate.trv";
  path = setpoint;
  target_setpoint = some v;
  reason = "test";
}

command : (resolve comfort_band (request (pos 22_449)) (pos 30_000) "heat").value ≡ pos 22_400
unfolding resolve poise_thermostat.Base.Round.round1 resolve_constraints
    poise_thermostat.Constraints.binding_floor poise_thermostat.Base.first_best
    poise_thermostat.Arbitration.corridor_constraints poise_thermostat.Constraints.binding_cap
    poise_thermostat.Base.Int.ltb_ℤ poise_thermostat.Constraints.cap_beats
    poise_thermostat.Base.Int.eqb_ℤ poise_thermostat.Constraints.floor_beats
command = refl

resolve-Inside_example :
    Inside comfort_band
      (pos 30_000)
      (resolve comfort_band (request (pos 40_000)) (pos 30_000) "heat").value
resolve-Inside_example =
    resolve-Inside comfort_band (request (pos 40_000)) (pos 30_000) (pos 20_000) "heat"
      (ground arith) (ground arith)
