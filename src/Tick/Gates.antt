-- ===== src/Tick/Gates.antt =====
-- What the small decisions of custom_components/poise/control/tick_resolve.py guarantee.
use Prim.Native.String.{String}
use text.Mathlib.Text.{◌==◌ as str_eq}
use text.Mathlib.TextEquality.{eq_iff}
use mathlib.Core.Path.{subst}
use poise_thermostat.Base.{
  ◌≡◌, refl, ◌⊎◌, inl, inr, Bool, true, false, ◌&&◌, ◌||◌, Option, none, some, arith, Bool-cases,
  List, ◌∷◌, [], any_of, get_or, if◌then◌else◌,
}
use poise_thermostat.Base.Int.{ℤ, pos, ◌≤ℤ◌, ◌-ℤ◌, ltb_ℤ, le→ltb_ℤ, ltb_ℤ→le, int_laws}
use poise_thermostat.Base.Round.{round1}
use poise_thermostat.Tick.{
  health_floor, frost_rescue_target, no_reading, is_text, idle_park, one_of, resolve_desired_mode,
}

-- Where the rescue of a heating device is silent, the device is on and holds a setpoint no more than
-- the deadband below the rounded health floor; where it writes, it writes that floor.
frost_rescue_target-guards :
    (actual : Option ℤ) (state : Option String) (frost : ℤ) (mold : Option ℤ) (deadband : ℤ)
    → let floor = round1 (health_floor frost mold) in
      (frost_rescue_target true actual state frost mold deadband ≡ some floor)
      ⊎ (frost_rescue_target true actual state frost mold deadband ≡ none)
        × (no_reading state || is_text state "off" ≡ false)
        × (a : ℤ) × (actual ≡ some a)
        × (floor -ℤ deadband ≤ℤ a)
unfolding frost_rescue_target
frost_rescue_target-guards none state frost mold deadband = ground arith
frost_rescue_target-guards (some a) state frost mold deadband =
    let floor = round1 (health_floor frost mold) in
    elim (Bool-cases (ltb_ℤ a (floor -ℤ deadband))) [
      | inl e ↦ rw e (ground arith)
      | inr e ↦
          let le = ltb_ℤ→le a (floor -ℤ deadband) e in
          elim (Bool-cases (no_reading state || is_text state "off")) [
            | inl i ↦ rw (e, i) (inl refl)
            | inr i ↦ rw (e, i) (inr (refl, refl, a, refl, le))
          ]
    ]

-- A rescued device that takes the floor and stays on is not written again.
pub frost_rescue_target-settles :
    (can_heat : Bool) (state : Option String) (frost : ℤ) (mold : Option ℤ) (deadband : ℤ)
    → no_reading state || is_text state "off" ≡ false
    → pos 0 ≤ℤ deadband
    → frost_rescue_target can_heat
        (some (round1 (health_floor frost mold)))
        state
        frost
        mold
        deadband
      ≡ none
unfolding frost_rescue_target
frost_rescue_target-settles can_heat state frost mold deadband h k =
    let below =
      le→ltb_ℤ (round1 (health_floor frost mold)) (round1 (health_floor frost mold) -ℤ deadband)
        (omega int_laws) in
    ground (arith, below)

-- Where the room lies between the two edges, the park position asks nothing of the device: a heat
-- park stays at or below the room, and any other park, which only a device that can cool takes,
-- stays at or above it.
idle_park-rests :
    (room heat_sp cool_sp : ℤ) (can_heat can_cool can_fan_only : Bool) (mode : Option String)
    (hysteresis : ℤ)
    → heat_sp ≤ℤ room
    → room ≤ℤ cool_sp
    → let p = idle_park room heat_sp cool_sp can_heat can_cool can_fan_only mode hysteresis in
      (p.0 ≡ "heat") × (p.1 ≤ℤ room)
      ⊎ ((p.0 ≡ "cool") ⊎ (p.0 ≡ "fan_only")) × (room ≤ℤ p.1) × (can_cool ≡ true)
unfolding idle_park
idle_park-rests room heat_sp cool_sp can_heat can_cool can_fan_only mode hysteresis h k =
    ground arith

-- a text among some that are not "off" is not "off"
not_off :
    (s : String) (l : List String)
    → any_of (λ t. str_eq "off" t) l ≡ false
    → any_of (λ t. str_eq s t) l ≡ true
    → str_eq s "off" ≡ false
not_off s l h k = elim (Bool-cases (str_eq s "off")) [
  | inl e ↦ let k' = subst (λ x. any_of (λ t. str_eq x t) l ≡ true) ((eq_iff s "off").0 e) k in cc
  | inr e ↦ e
]

not_off_opt :
    (o : Option String) (l : List String)
    → any_of (λ t. str_eq "off" t) l ≡ false
    → one_of o l ≡ true
    → str_eq (get_or o "heat") "off" ≡ false
not_off_opt none l h k = refl
not_off_opt (some s) l h k = not_off s l h k

if-not_off :
    (b : Bool) (x y : String)
    → (b ≡ true → str_eq x "off" ≡ false)
    → str_eq y "off" ≡ false
    → str_eq (if b then x else y) "off" ≡ false
if-not_off true x y h k = h refl
if-not_off false x y h k = k

and-right : (a b : Bool) → a && b ≡ true → b ≡ true
and-right true b h = h
and-right false b h = cc

-- A device that can heat is never switched off: whatever mode the tick resolves, whatever the device
-- reports and wherever it parks, the mode desired of it is not "off".
resolve_desired_mode-not_off :
    (final : String) (current : Option String) (can_cool : Bool) (park : Option String)
    → str_eq (resolve_desired_mode final current can_cool true park) "off" ≡ false
unfolding resolve_desired_mode
resolve_desired_mode-not_off final current can_cool park =
    let driving = "heat" ∷ "cool" ∷ "dry" ∷ "fan_only" ∷ [] in
    let parking = "heat" ∷ "cool" ∷ "fan_only" ∷ [] in
    let kept = "heat" ∷ "cool" ∷ [] in
    if-not_off (one_of (some final) driving) final _ (λ h. not_off final driving refl h)
      (if-not_off (str_eq final "off") "heat" _ (λ _. refl)
        (if-not_off (str_eq final "idle" && one_of park parking) (get_or park "heat") _
          (λ h. not_off_opt park parking refl (and-right _ _ h))
          (if-not_off (can_cool && one_of current kept) (get_or current "heat") "heat"
            (λ h. not_off_opt current kept refl (and-right _ _ h)) refl)))
