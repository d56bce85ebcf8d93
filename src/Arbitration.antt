-- ===== src/Arbitration.antt =====
-- custom_components/poise/arbitration.py, actuator.py and the contracts that they exchange
-- (contracts.py): one control request, clamped into the comfort corridor, becomes one command.
pub mod Corridor
use Prim.Native.String.{String}
use poise_thermostat.Base.{
  Bool, Option, none, some, List, [], ◌∷◌, ◌++◌, map, if◌then◌else◌, get_or, first_best,
}
use poise_thermostat.Base.Int.{ℤ, ltb_ℤ}
use poise_thermostat.Base.Round.{round1}
use poise_thermostat.Constraints.{
  Constraint, Resolution, floor_at, cap_at, safety, health, comfort, resolve_constraints,
}

pub data ActuatorPath : Type 0 where
  tpi_valve calibration pi_setpoint setpoint : ActuatorPath

pub record Bound : Type 0 where
  pub value : ℤ
  pub cause : String

pub record ComfortCorridor : Type 0 where
  pub lower : List Bound
  pub upper : List Bound
  pub target : ℤ

-- the fields of `ControlRequest` that `resolve` reads
pub record ControlRequest : Type 0 where
  pub actuator_id : String
  pub path : ActuatorPath
  pub target_setpoint : Option ℤ
  pub reason : String

pub record ActuatorCommand : Type 0 where
  pub actuator_id : String
  pub path : ActuatorPath
  pub value : ℤ
  pub hvac_mode : Option String
  pub reason : String
  pub clamped_by : Option String

-- `max(self.lower, key=...)` and `min(self.upper, key=...)`; `none` is the `ValueError` of an empty
-- tuple
unfoldable pub binding_lower : ComfortCorridor → Option Bound
binding_lower c = first_best (λ x b. ltb_ℤ b.value x.value) c.lower

unfoldable pub binding_upper : ComfortCorridor → Option Bound
binding_upper c = first_best (λ x b. ltb_ℤ x.value b.value) c.upper

-- `ComfortCorridor.clamp`
unfoldable pub clamp : ComfortCorridor → ℤ → Option (ℤ × Option String)
clamp c value = elim (binding_lower c) [
  | none ↦ none
  | some lo ↦ elim (binding_upper c) [
    | none ↦ none
    | some hi ↦
        if ltb_ℤ value lo.value
        then some (lo.value, some lo.cause)
        else if ltb_ℤ hi.value value
        then some (hi.value, some hi.cause)
        else some (value, none)
  ]
]

abbrev pub lower_constraint : Bound → Constraint
lower_constraint b = floor_at b.value b.cause health

abbrev pub upper_constraint : Bound → Constraint
upper_constraint b = cap_at b.value b.cause comfort

-- the list `constraints` of `resolve`
unfoldable pub corridor_constraints : ComfortCorridor → ℤ → List Constraint
corridor_constraints corridor device_max =
    map lower_constraint corridor.lower
    ++ (map upper_constraint corridor.upper ++ (cap_at device_max "device_max" safety ∷ []))

abbrev binding_cause : Option Constraint → Option String
binding_cause none = none
binding_cause (some c) = some c.cause

-- `arbitration.resolve`
unfoldable pub resolve : ComfortCorridor → ControlRequest → ℤ → String → ActuatorCommand
resolve corridor request device_max hvac_mode =
    let desired = get_or request.target_setpoint corridor.target in
    let res = resolve_constraints desired (corridor_constraints corridor device_max) in
    record {
      actuator_id = request.actuator_id;
      path = request.path;
      value = round1 res.value;
      hvac_mode = some hvac_mode;
      reason = request.reason;
      clamped_by = binding_cause res.binding;
    }

-- One Home Assistant service call, with its entity and its numeric argument.
pub record ServiceCall : Type 0 where
  pub domain : String
  pub service : String
  pub entity_id : String
  pub key : String
  pub value : ℤ

-- `actuator.service_call_for`; `none` is the `NotImplementedError` of a path that is not wired
unfoldable pub service_call_on : ActuatorPath → ActuatorCommand → Option ServiceCall
service_call_on setpoint c = some (record {
  domain = "climate";
  service = "set_temperature";
  entity_id = c.actuator_id;
  key = "temperature";
  value = c.value;
})
service_call_on tpi_valve c = some (record {
  domain = "number";
  service = "set_value";
  entity_id = c.actuator_id;
  key = "value";
  value = c.value;
})
service_call_on calibration c = some (record {
  domain = "number";
  service = "set_value";
  entity_id = c.actuator_id;
  key = "value";
  value = c.value;
})
service_call_on pi_setpoint c = none

unfoldable pub service_call_for : ActuatorCommand → Option ServiceCall
unfolding service_call_on
service_call_for c = service_call_on c.path c
