-- ===== src/ModeResolution.antt =====
-- The mode of a tick: `stage_mode_resolution` of custom_components/poise/control/pipeline_actuate.py.  It
-- composes the manual direction and the humidity's with the provenance of the intent and the policy of the
-- compressor guard.
use Prim.Native.String.{String}
use text.Mathlib.Text.{◌==◌ as str_eq}
use poise_thermostat.Base.{
  ◌≡◌, refl, ap, ◌∙◌, Bool, true, false, not, ◌&&◌, ◌||◌, Option, none, some, List, if◌then◌else◌,
  is_some, any_of, arith,
}
use poise_thermostat.Base.Int.{ℤ, pos, ltb_ℤ, ◌+ℤ◌, ◌-ℤ◌, ◌<ℤ◌, ◌≤ℤ◌, lt→leb_ℤ, le→ltb_ℤ, int_tests}
use poise_thermostat.Activation.{ModeGates, heat_ok, cool_ok, decide_mode, override_mode}
use poise_thermostat.Compressor.{LifecyclePolicy, resolve_guard_policy}
use poise_thermostat.Dynamics.{DeviceDynamics, profile_of}
use poise_thermostat.Humidity.{HumidityAction, hum_dry, is_dry, mode_arbitration}

pub record ModeTick : Type 0 where
  pub enabled : Bool
  pub override : Option ℤ
  pub mode_override : Option String
  pub climate_mode : String
  pub dynamics : DeviceDynamics
  pub frozen : Bool
  pub window_open : Bool
  pub t_out_eff : ℤ
  pub can_heat : Bool
  pub can_cool : Bool
  pub room_decide : ℤ
  pub mode : String
  pub target : ℤ
  pub hvac_modes : List String
  pub hum_action : HumidityAction
  pub cool_min_outdoor : ℤ
  pub cool_lockout_enabled : Bool
  pub heat_max_outdoor : ℤ
  pub heat_lockout_enabled : Bool
  pub compressor_guard : String
  pub comp_min_off_opt : Option ℤ
  pub comp_mode_hold_opt : Option ℤ
  pub fan_first_requested : Bool

pub data IntentOrigin : Type 0 where
  origin_safety origin_manual origin_normal : IntentOrigin

abbrev pub is_normal : IntentOrigin → Bool
is_normal origin_normal = true
is_normal _ = false

pub record ModeResolution : Type 0 where
  pub final_mode : String
  pub act_modes : List String
  pub guard_pol : Option LifecyclePolicy
  pub g_min_off : ℤ
  pub g_mode_hold : ℤ
  pub intent_origin : IntentOrigin
  pub fan_first_allowed : Bool

-- `limit if lockout_enabled else None`
abbrev limit_if : Bool → ℤ → Option ℤ
limit_if lockout_enabled limit = if lockout_enabled then some limit else none

unfoldable pub manual_gates : ModeTick → ModeGates
manual_gates k = record {
  outdoor = k.t_out_eff;
  climate_mode = k.climate_mode;
  can_heat = k.can_heat;
  can_cool = k.can_cool;
  cool_min_outdoor = limit_if k.cool_lockout_enabled k.cool_min_outdoor;
  heat_max_outdoor = limit_if k.heat_lockout_enabled k.heat_max_outdoor;
}

-- an active manual hold of the setpoint drives the direction
abbrev pub hold_drives : ModeTick → Bool
hold_drives k = k.enabled && (is_some k.override && (not k.window_open && not k.frozen))

unfoldable pub base_mode : ModeTick → String
unfolding override_mode manual_gates
base_mode k =
    if hold_drives k
    then override_mode k.room_decide k.target (pos 500) (manual_gates k)
    else k.mode

unfoldable pub intent_origin_of : ModeTick → IntentOrigin
intent_origin_of k =
    if k.window_open || k.frozen
    then origin_safety
    else if is_some k.override || is_some k.mode_override
    then origin_manual
    else origin_normal

abbrev pub or_profile : Option ℤ → ℤ → ℤ
or_profile none v = v
or_profile (some o) v = o

abbrev pub lists_dry : ModeTick → Bool
lists_dry k = any_of (λ m. str_eq m "dry") k.hvac_modes

unfoldable pub stage_mode_resolution : ModeTick → ModeResolution
unfolding base_mode intent_origin_of mode_arbitration resolve_guard_policy profile_of
stage_mode_resolution k =
    let origin = intent_origin_of k in
    let fan_first = k.fan_first_requested && is_normal origin in
    let final = mode_arbitration (base_mode k) k.hum_action (lists_dry k) fan_first in
    let profile = profile_of k.dynamics in
    let min_off = or_profile k.comp_min_off_opt profile.compressor_min_off_s in
    let mode_hold = or_profile k.comp_mode_hold_opt profile.compressor_mode_hold_s in
    record {
      final_mode = final;
      act_modes = k.hvac_modes;
      guard_pol =
          resolve_guard_policy (not (str_eq k.compressor_guard "off")) (k.can_cool || lists_dry k)
            min_off mode_hold;
      g_min_off = min_off;
      g_mode_hold = mode_hold;
      intent_origin = origin;
      fan_first_allowed = fan_first && str_eq final "fan_only";
    }

band_is_open : (t : ℤ) → ltb_ℤ (t +ℤ pos 500) (t -ℤ pos 500) ≡ false
band_is_open t = grind int_tests

held_direction :
    (k : ModeTick)
    → hold_drives k ≡ true
    → base_mode k ≡ (
        if heat_ok (manual_gates k) && ltb_ℤ k.room_decide (k.target -ℤ pos 500)
        then "heat"
        else if cool_ok (manual_gates k) && ltb_ℤ (k.target +ℤ pos 500) k.room_decide
        then "cool"
        else "idle")
unfolding base_mode override_mode decide_mode
held_direction k h = rw (h, band_is_open k.target) refl

held_origin : (k : ModeTick) → hold_drives k ≡ true → intent_origin_of k ≡ origin_manual
unfolding intent_origin_of
held_origin k h = ground (arith, h)

held_fan_first :
    (k : ModeTick)
    → hold_drives k ≡ true
    → k.fan_first_requested && is_normal (intent_origin_of k) ≡ false
held_fan_first k h = rw (held_origin k h) ground arith

arbitrated :
    (heats cools fans : Bool) (h : HumidityAction) (dry_ok : Bool)
    → fans ≡ false
    → mode_arbitration (if heats then "heat" else if cools then "cool" else "idle") h dry_ok fans
      ≡ (if heats
          then "heat"
          else if cools
          then "cool"
          else if is_dry h && dry_ok
          then "dry"
          else "idle")
unfolding mode_arbitration
arbitrated true cools fans h d e = refl
arbitrated false true fans h d e = rw e refl
arbitrated false false fans h d e = refl

-- In an enabled zone with a manual setpoint hold, no open window and no frozen sensor, the mode
-- follows the held target: heat below it by more than half a degree where heating is open, cool
-- above it by more than that where cooling is open, else dry where the humidity asks and the device
-- lists it, else idle; the intent is manual and the fan does not go first.
held_mode :
    (k : ModeTick)
    → hold_drives k ≡ true
    → ((stage_mode_resolution k).final_mode ≡ (
        if heat_ok (manual_gates k) && ltb_ℤ k.room_decide (k.target -ℤ pos 500)
        then "heat"
        else if cool_ok (manual_gates k) && ltb_ℤ (k.target +ℤ pos 500) k.room_decide
        then "cool"
        else if is_dry k.hum_action && lists_dry k
        then "dry"
        else "idle"))
      × ((stage_mode_resolution k).intent_origin ≡ origin_manual)
      × ((stage_mode_resolution k).fan_first_allowed ≡ false)
unfolding stage_mode_resolution
held_mode k h =
    let no_fan = held_fan_first k h in
    (
      ap
            (λ m.
              mode_arbitration m k.hum_action (lists_dry k)
                (k.fan_first_requested && is_normal (intent_origin_of k)))
            (held_direction k h)
          ∙ arbitrated (heat_ok (manual_gates k) && ltb_ℤ k.room_decide (k.target -ℤ pos 500)) _ _
              k.hum_action (lists_dry k) no_fan,
      held_origin k h,
      ap (λ f. f && str_eq (stage_mode_resolution k).final_mode "fan_only") no_fan,
    )

-- the limit of the lockout closes the cooling gate
locked_out :
    (k : ModeTick)
    → k.cool_lockout_enabled ≡ true
    → k.t_out_eff <ℤ k.cool_min_outdoor
    → cool_ok (manual_gates k) ≡ false
unfolding manual_gates
locked_out k l o = let cold = lt→leb_ℤ k.cool_min_outdoor k.t_out_eff o in rw (l, cold) ground arith

drives :
    (k : ModeTick) (v : ℤ)
    → k.enabled ≡ true
    → k.override ≡ some v
    → k.window_open ≡ false
    → k.frozen ≡ false
    → hold_drives k ≡ true
drives k v on held shut fresh = ground (arith, on, held, shut, fresh)

-- In an enabled zone with a manual setpoint hold, no open window and no frozen sensor, on an outdoor
-- temperature at which cooling is locked out and in a room no more than half a degree below the held
-- target, the mode is dry where the humidity asks for it and the device lists it: the lockout does
-- not hold the compressor back from drying.
pub dry_despite_lockout :
    (k : ModeTick) (v : ℤ)
    → k.enabled ≡ true
    → k.override ≡ some v
    → k.window_open ≡ false
    → k.frozen ≡ false
    → k.cool_lockout_enabled ≡ true
    → k.t_out_eff <ℤ k.cool_min_outdoor
    → k.target -ℤ pos 500 ≤ℤ k.room_decide
    → lists_dry k ≡ true
    → k.hum_action ≡ hum_dry
    → (stage_mode_resolution k).final_mode ≡ "dry"
dry_despite_lockout k v on held shut fresh locked cold warm lists asks =
    let h = drives k v on held shut fresh in
    let no_heat = le→ltb_ℤ k.room_decide (k.target -ℤ pos 500) warm in
    let dry : is_dry k.hum_action ≡ true = rw asks refl in
    (held_mode k h).0 ∙ rw (no_heat, locked_out k locked cold, dry, lists) ground arith
