-- ===== src/Safe/Floor.antt =====
-- The safe state that a device is brought to (`resolve_safe_state` and `resolve_park_command` of
-- custom_components/poise/control/lifecycle.py).
use Prim.Native.String.{String}
use text.Mathlib.Text.{◌==◌ as str_eq}
use text.Mathlib.TextEquality.{eq_iff}
use mathlib.Core.Path.{subst}
use poise_thermostat.Base.{
  ◌≡◌, refl, sym, ap, ◌∙◌, inl, inr, true, false, Option, none, some, List, arith, if◌then◌else◌,
  Bool-cases, any_of,
}
use poise_thermostat.Base.Int.{ℤ, ◌≤ℤ◌, max_ℤ, eqb_ℤ, max_ℤ_bounds}
use poise_thermostat.Base.Round.{IsTenth, round1-IsTenth}
use poise_thermostat.Tick.{is_text}
use poise_thermostat.Safe.{
  SafeStatePlan, Device, can_heat, at_least, differs, is_on, resolve_safe_state, climate,
  resolve_park_command,
}

-- What a device does that takes the commands of a plan.
unfoldable pub obey : Option SafeStatePlan → Device → Device
obey none d = d
obey (some p) d = record d {
  device_state = if p.write_mode then some p.hvac_mode else d.device_state;
  device_setpoint = if p.write_setpoint then p.setpoint else d.device_setpoint;
}

-- at the floor and at the device's minimum
abbrev pub Reaches : ℤ → Option ℤ → ℤ → Type 0
Reaches floor none v = floor ≤ℤ v
Reaches floor (some m) v = (floor ≤ℤ v) × (m ≤ℤ v)

-- A heating device heats to a setpoint that reaches the floor, any other is off.
abbrev pub IsSafe : Device → ℤ → Type 0
IsSafe d floor =
    (can_heat d ≡ true
      → (d.device_state ≡ some "heat")
        × ((v : ℤ) × (d.device_setpoint ≡ some v) × Reaches floor d.device_min v))
    × (can_heat d ≡ false → is_on d.device_state ≡ false)

at_least-Reaches : (floor : ℤ) (m : Option ℤ) → Reaches floor m (at_least floor m)
unfolding max_ℤ
at_least-Reaches floor none = omega arith
at_least-Reaches floor (some m) = max_ℤ_bounds floor m

is_text-eq : (s : Option String) (t : String) → is_text s t ≡ true → s ≡ some t
is_text-eq none t h = cc
is_text-eq (some s) t h = ap some ((eq_iff s t).0 h)

same_setpoint : (s : Option ℤ) (t : ℤ) → differs s t ≡ false → s ≡ some t
unfolding eqb_ℤ
same_setpoint none t h = cc
same_setpoint (some v) t h = ground (arith, h)

-- what a heating device reports after the plan
obey-heat :
    (d : Device) (floor : ℤ)
    → can_heat d ≡ true
    → ((obey (resolve_safe_state d floor) d).device_state ≡ some "heat")
      × ((obey (resolve_safe_state d floor) d).device_setpoint ≡ some (at_least floor d.device_min))
unfolding obey resolve_safe_state eqb_ℤ
obey-heat d floor h = elim (Bool-cases (is_text d.device_state "heat")) [
  | inl s ↦ elim (Bool-cases (differs d.device_setpoint (at_least floor d.device_min))) [
    | inl p ↦ rw (h, s, p) (is_text-eq d.device_state "heat" s, refl)
    | inr p ↦
        rw (h, s, p)
          (
            is_text-eq d.device_state "heat" s,
            same_setpoint d.device_setpoint (at_least floor d.device_min) p,
          )
  ]
  | inr s ↦ elim (Bool-cases (differs d.device_setpoint (at_least floor d.device_min))) [
    | inl p ↦ rw (h, s, p) (refl, refl)
    | inr p ↦ rw (h, s, p) (refl, same_setpoint d.device_setpoint (at_least floor d.device_min) p)
  ]
]

obey-off :
    (d : Device) (floor : ℤ)
    → can_heat d ≡ false
    → is_on (obey (resolve_safe_state d floor) d).device_state ≡ false
unfolding obey resolve_safe_state
obey-off d floor h = elim (Bool-cases (is_on d.device_state)) [
  | inl e ↦ rw (h, e) refl
  | inr e ↦ rw (h, e) e
]

obey-hvac_modes :
    (p : Option SafeStatePlan) (d : Device)
    → (can_heat (obey p d) ≡ can_heat d) × ((obey p d).device_min ≡ d.device_min)
unfolding obey
obey-hvac_modes none d = (refl, refl)
obey-hvac_modes (some p) d = (refl, refl)

same_value : (v : ℤ) → differs (some v) v ≡ false
unfolding eqb_ℤ
same_value v = ground arith

-- a device that is safe is left alone
resolve-heat :
    (d : Device) (floor : ℤ)
    → can_heat d ≡ true
    → is_text d.device_state "heat" ≡ true
    → differs d.device_setpoint (at_least floor d.device_min) ≡ false
    → resolve_safe_state d floor ≡ none
unfolding resolve_safe_state
resolve-heat d floor h s p = rw (h, s, p) refl

resolve-off :
    (d : Device) (floor : ℤ)
    → can_heat d ≡ false
    → is_on d.device_state ≡ false
    → resolve_safe_state d floor ≡ none
unfolding resolve_safe_state
resolve-off d floor h s = rw (h, s) refl

-- Whatever a device reports, once it has obeyed the plan it is safe and the next plan is empty: a
-- device that can heat is in heat at a setpoint that reaches the floor and its own minimum, any
-- other is off, unavailable or unknown.
pub resolve_safe_state-settles :
    (d : Device) (floor : ℤ)
    → IsSafe (obey (resolve_safe_state d floor) d) floor
      × (resolve_safe_state (obey (resolve_safe_state d floor) d) floor ≡ none)
resolve_safe_state-settles d floor =
    let d' = obey (resolve_safe_state d floor) d in
    let (same, low) = obey-hvac_modes (resolve_safe_state d floor) d in
    let reach = at_least-Reaches floor d.device_min in
    elim (Bool-cases (can_heat d)) [
      | inl h ↦
          let (mode, setpoint) = obey-heat d floor h in
          (
            (
              (λ k. (
                mode,
                (
                  at_least floor d.device_min,
                  setpoint,
                  subst (λ m. Reaches floor m (at_least floor d.device_min)) (sym low) reach,
                ),
              )),
              λ k. cc (same, h, k),
            ),
            resolve-heat d' floor (same ∙ h) (ap (λ m. is_text m "heat") mode) (
                ap (λ v. differs v (at_least floor d'.device_min)) setpoint
                ∙ ap (λ m. differs (some (at_least floor d.device_min)) (at_least floor m)) low
                ∙ same_value (at_least floor d.device_min)),
          )
      | inr h ↦ (
        ((λ k. cc (same, h, k)), λ k. obey-off d floor h),
        resolve-off d' floor (same ∙ h) (obey-off d floor h),
      )
    ]

parked-Reaches :
    (floor : ℤ) (setback device_min : Option ℤ)
    → Reaches floor device_min (at_least (at_least floor setback) device_min)
unfolding max_ℤ
parked-Reaches floor none none = omega arith
parked-Reaches floor (some s) none = ground arith
parked-Reaches floor none (some m) = ground arith
parked-Reaches floor (some s) (some m) = ground arith

-- A heating device is parked in heat at a setpoint that reaches the floor and its own minimum, where
-- the setpoint is a whole tenth.
pub resolve_park_command-safe :
    (hvac_modes : List String) (setback : Option ℤ) (floor : ℤ) (device_min : Option ℤ)
    → IsTenth (at_least (at_least floor setback) device_min)
    → any_of (λ m. str_eq "heat" m) hvac_modes ≡ true
    → (v : ℤ) × (resolve_park_command false hvac_modes true setback floor device_min
        ≡ record { kind = climate; hvac_mode = some "heat"; setpoint = some v; valve_value = none })
      × Reaches floor device_min v
unfolding resolve_park_command
resolve_park_command-safe hvac_modes setback floor device_min t h =
    let v = at_least (at_least floor setback) device_min in
    rw (h, round1-IsTenth v t) (v, refl, parked-Reaches floor setback device_min)
