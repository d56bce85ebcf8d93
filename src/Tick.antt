-- ===== src/Tick.antt =====
-- custom_components/poise/control/tick_resolve.py: the pure decisions of one tick.  Temperatures and
-- times are in thousandths; an HVAC mode is the text that Home Assistant reports.
pub mod Gates
pub mod Target
use Prim.Native.String.{String}
use text.Mathlib.Text.{◌==◌ as str_eq}
use poise_thermostat.Base.{
  ℕ, ◌/◌, Bool, true, false, not, ◌&&◌, ◌||◌, Option, none, some, List, [], ◌∷◌, ◌++◌,
  if◌then◌else◌, get_or, any_of,
}
use poise_thermostat.Base.Int.{
  ℤ, pos, negsuc, pos_part, ◌+ℤ◌, ◌-ℤ◌, ltb_ℤ, leb_ℤ, eqb_ℤ, max_ℤ, min_ℤ, abs_ℤ, Float, finite,
  non_finite,
}
use poise_thermostat.Base.Round.{round1, round_to}
use poise_thermostat.Constraints.{
  Precedence, Constraint, Resolution, floor_at, cap_at, safety, health, comfort,
  resolve_constraints,
}

-- const.FROST_FLOOR_C, const.DEVICE_MAX_C, const.WRITE_DEADBAND_C, norm_compliance.ASR_MAX_ROOM_C
abbrev pub frost_floor_c : ℤ
frost_floor_c = pos 7000

abbrev pub device_max_c : ℤ
device_max_c = pos 30000

abbrev pub write_deadband_c : ℤ
write_deadband_c = pos 200

abbrev pub asr_max_room_c : ℤ
asr_max_room_c = pos 26000

-- equality of an optional text with a text, as Python's `==` and `in`
abbrev pub is_text : Option String → String → Bool
is_text none _ = false
is_text (some s) t = str_eq s t

-- `current_mode in (None, "unknown", "unavailable")`
unfoldable pub no_reading : Option String → Bool
no_reading none = true
no_reading (some s) = str_eq s "unknown" || str_eq s "unavailable"

unfoldable pub select_t_rm : Option ℤ → Option ℤ → Option ℤ → Option ℤ × Option String
select_t_rm (some s) internal t_out = (some s, some "sensor")
select_t_rm none (some i) t_out = (some i, some "internal")
select_t_rm none none none = (none, none)
select_t_rm none none (some t) = (some t, some "outdoor")

unfoldable pub should_write : Option ℤ → ℤ → Bool → ℤ → Bool
should_write none target mode_changed deadband = true
should_write (some actual) target mode_changed deadband =
    mode_changed || leb_ℤ deadband (abs_ℤ (target -ℤ actual))

unfoldable pub external_feed_due : Option ℤ → ℤ → ℤ → ℤ → ℤ → ℤ → Bool
unfolding should_write
external_feed_due last_fed fed last_fed_ts now keepalive_s deadband =
    should_write last_fed fed false deadband
    || (ltb_ℤ (pos 0) keepalive_s && leb_ℤ keepalive_s (now -ℤ last_fed_ts))

-- `round(round(value / step) * step, 2)`; a non-finite value passes through
unfoldable pub snap_to_step : Float → ℤ → Float
unfolding round_to
snap_to_step non_finite step = non_finite
snap_to_step (finite v) step =
    if leb_ℤ step (pos 0) then finite v else finite (round_to 10 (round_to (pos_part step) v))

unfoldable pub heat_drive_signal : Option String → Bool → Bool
heat_drive_signal none fallback_heating = fallback_heating
heat_drive_signal (some a) fallback_heating =
    if str_eq a "" then fallback_heating else str_eq a "heating"

unfoldable pub cool_drive_signal : Option String → Bool → Bool
cool_drive_signal none fallback_cooling = fallback_cooling
cool_drive_signal (some a) fallback_cooling =
    if str_eq a "" then fallback_cooling else str_eq a "cooling"

unfoldable pub needs_mode_nudge : Option String → String → Bool → Bool
unfolding no_reading
needs_mode_nudge current desired supported =
    if not supported || no_reading current then false else not (is_text current desired)

abbrev pub one_of : Option String → List String → Bool
one_of none l = false
one_of (some s) l = any_of (λ t. str_eq s t) l

-- the string to fall back to when an optional one is absent
unfoldable pub resolve_desired_mode : String → Option String → Bool → Bool → Option String → String
resolve_desired_mode final_mode current can_cool can_heat idle_park_mode =
    if one_of (some final_mode) ("heat" ∷ "cool" ∷ "dry" ∷ "fan_only" ∷ [])
    then final_mode
    else if str_eq final_mode "off"
    then (if can_heat then "heat" else "off")
    else if str_eq final_mode "idle" && one_of idle_park_mode ("heat" ∷ "cool" ∷ "fan_only" ∷ [])
    then get_or idle_park_mode "heat"
    else if can_cool && one_of current ("heat" ∷ "cool" ∷ [])
    then get_or current "heat"
    else "heat"

-- `round(x / 2.0)` is not taken: the midpoint is compared doubled, `2 * room` with the sum
unfoldable pub idle_park : ℤ → ℤ → ℤ → Bool → Bool → Bool → Option String → ℤ → String × ℤ
idle_park room heat_sp cool_sp can_heat can_cool can_fan_only current_mode hysteresis =
    let sum = heat_sp +ℤ cool_sp in
    let room2 = room +ℤ room in
    let hyst2 = hysteresis +ℤ hysteresis in
    if not can_cool
    then ("heat", heat_sp)
    else if can_fan_only && not (can_heat && ltb_ℤ room2 (sum -ℤ hyst2))
    then ("fan_only", cool_sp)
    else if not can_heat
    then ("cool", cool_sp)
    else if is_text current_mode "cool"
    then ("cool", cool_sp)
    else if ltb_ℤ (sum +ℤ hyst2) room2
    then ("cool", cool_sp)
    else ("heat", heat_sp)

unfoldable pub sanitize_override : Option Float → ℤ → ℤ → Option ℤ
sanitize_override none lo hi = none
sanitize_override (some non_finite) lo hi = none
sanitize_override (some (finite t)) lo hi = some (min_ℤ hi (max_ℤ lo t))

-- `max(frost_floor, mold_min if mold_min is not None else frost_floor)`
unfoldable pub health_floor : ℤ → Option ℤ → ℤ
health_floor frost_floor mold_min = max_ℤ frost_floor (get_or mold_min frost_floor)

unfoldable pub frost_rescue_target : Bool → Option ℤ → Option String → ℤ → Option ℤ → ℤ → Option ℤ
unfolding no_reading health_floor
frost_rescue_target can_heat actual_sp device_state frost_floor mold_min deadband =
    let floor = round1 (health_floor frost_floor mold_min) in
    let inactive = no_reading device_state || is_text device_state "off" in
    let below : Bool = elim actual_sp [ none ↦ true | some a ↦ ltb_ℤ a (floor -ℤ deadband) ] in
    if not can_heat then none else if inactive || below then some floor else none

pub record WriteTarget : Type 0 where
  pub target : ℤ
  pub mode : String
  pub norm_binding : Option String
  pub precedence : Option Precedence
  pub override_clamped : Bool

-- the manual value in the comfort band; a device that cannot cool has no upper edge
unfoldable pub clamp_override : ℤ → ℤ → ℤ → Bool → ℤ
clamp_override override heat_sp cool_sp can_cool =
    let clamped = max_ℤ override heat_sp in if can_cool then min_ℤ clamped cool_sp else clamped

-- target, mode and `override_clamped` before the hard envelope
unfoldable pub pick_target : Bool → Option ℤ → ℤ → ℤ → ℤ → String → ℤ → Bool → ℤ × String × Bool
unfolding clamp_override
pick_target true override heat_sp cool_sp write_setpoint comfort_mode floor can_cool =
    (round1 floor, "off", false)
pick_target false (some o) heat_sp cool_sp write_setpoint comfort_mode floor can_cool =
    let clamped = clamp_override o heat_sp cool_sp can_cool in
    (round1 clamped, "manual", not (eqb_ℤ clamped o))
pick_target false none heat_sp cool_sp write_setpoint comfort_mode floor can_cool =
    (round1 write_setpoint, comfort_mode, false)

-- the list `floors + caps`
unfoldable pub envelope : Bool → ℤ → ℤ → Option ℤ → List Constraint
envelope cooling floor device_max device_min =
    (if cooling then [] else (floor_at floor "norm_floor" health ∷ []))
    ++ (elim device_min [ none ↦ [] | some d ↦ floor_at d "device_min" safety ∷ [] ]
        ++ (cap_at (if cooling then device_max else max_ℤ device_max floor) "device_max" safety
            ∷ (if cooling then [] else (cap_at asr_max_room_c "norm_cap" comfort ∷ []))))

abbrev norm_cause : Option Constraint → Option String
norm_cause none = none
norm_cause (some c) =
    if str_eq c.cause "norm_floor" || str_eq c.cause "norm_cap" then some c.cause else none

abbrev binding_precedence : Option Constraint → Option Precedence
binding_precedence none = none
binding_precedence (some c) = some c.precedence

unfoldable pub resolve_write_target :
    Bool → Option ℤ → ℤ → ℤ → ℤ → String → ℤ → Option ℤ → ℤ → Option ℤ → Bool → WriteTarget
unfolding health_floor pick_target envelope
resolve_write_target window_open override heat_sp cool_sp write_setpoint comfort_mode frost_floor
      mold_min device_max device_min can_cool =
    let floor = health_floor frost_floor mold_min in
    let (t, mode, clamped) =
      pick_target window_open override heat_sp cool_sp write_setpoint comfort_mode floor can_cool in
    let res = resolve_constraints t (envelope (str_eq mode "cool") floor device_max device_min) in
    record {
      target = round1 res.value;
      mode = mode;
      norm_binding = norm_cause res.binding;
      precedence = binding_precedence res.binding;
      override_clamped = clamped;
    }
