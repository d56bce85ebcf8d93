-- ===== src/Ventilation.antt =====
-- The rule table of the ventilation advice and the edge on which it is announced:
-- custom_components/poise/comfort/ventilation.py.  Humidities are thousandths of a gram per cubic metre or
-- of a percent point, temperatures thousandths of a degree.
pub mod Airing
pub mod Notice
use Prim.Native.String.{String}
use text.Mathlib.Text.{◌==◌ as str_eq}
use poise_thermostat.Base.{
  Bool, true, false, not, ◌&&◌, ◌||◌, Option, none, some, List, [], ◌∷◌, if◌then◌else◌, is_some,
  any_of,
}
use poise_thermostat.Base.Int.{ℤ, pos, ◌-ℤ◌, neg_ℤ, ltb_ℤ, leb_ℤ}
use poise_thermostat.Base.Round.{round1}

pub record VentConfig : Type 0 where
  pub delta_on_gm3 : ℤ
  pub delta_off_gm3 : ℤ
  pub dry_alert_gm3 : ℤ
  pub dry_warn_gm3 : ℤ
  pub moist_gm3 : ℤ
  pub moist_rh_pct : ℤ
  pub dry_warn_rh_pct : ℤ
  pub surface_limit_pct : ℤ
  pub surface_margin_pp : ℤ
  pub co2_ppm : ℤ
  pub heat_out_dt_on_k : ℤ
  pub heat_out_dt_off_k : ℤ
  pub heat_out_humid_guard_gm3 : ℤ
  pub mold_guard_margin_pp : ℤ

-- `_DEFAULT`
abbrev pub default_vent_config : VentConfig
default_vent_config = record {
  delta_on_gm3 = pos 3_000;
  delta_off_gm3 = pos 1_500;
  dry_alert_gm3 = pos 5_000;
  dry_warn_gm3 = pos 7_000;
  moist_gm3 = pos 8_700;
  moist_rh_pct = pos 50_000;
  dry_warn_rh_pct = pos 35_000;
  surface_limit_pct = pos 80_000;
  surface_margin_pp = pos 5_000;
  co2_ppm = pos 1_000_000;
  heat_out_dt_on_k = pos 2_000;
  heat_out_dt_off_k = pos 1_000;
  heat_out_humid_guard_gm3 = pos 1_000;
  mold_guard_margin_pp = pos 2_000;
}

pub data VentAction : Type 0 where
  action_idle action_open action_close action_discourage : VentAction

abbrev pub is_open : VentAction → Bool
is_open action_open = true
is_open _ = false

abbrev pub is_close : VentAction → Bool
is_close action_close = true
is_close _ = false

abbrev pub is_discourage : VentAction → Bool
is_discourage action_discourage = true
is_discourage _ = false

abbrev pub is_idle : VentAction → Bool
is_idle action_idle = true
is_idle _ = false

pub record VentilationAdvice : Type 0 where
  pub action : VentAction
  pub reason : String
  pub level : String
  pub delta_gm3 : Option ℤ

unfoldable pub advice_active : VentilationAdvice → Bool
advice_active a = is_open a.action

-- The arguments of `ventilation_advise`, its configuration aside.
pub record VentInput : Type 0 where
  pub w_in_gm3 : Option ℤ
  pub w_out_gm3 : Option ℤ
  pub surface_rh_mean_pct : Option ℤ
  pub mold_floor_binding : Bool
  pub mold_capped : Bool
  pub room_at_thermal_floor : Bool
  pub co2_ppm : Option ℤ
  pub window_open : Bool
  pub occupied : Bool
  pub prev_advice_active : Bool
  pub rh_pct : Option ℤ
  pub room_c : Option ℤ
  pub room_decide_c : Option ℤ
  pub cool_edge_c : Option ℤ
  pub t_out_c : Option ℤ
  pub cool_capable : Bool
  pub fan_capable : Bool
  pub prev_heat_out : Bool
  pub prev_moisture_airing : Bool
  pub prev_moisture_protect : Bool
  pub rh_max_safe_pct : Option ℤ
  pub critical_rh_pct : Option ℤ
  pub cool_edge_protected : Bool
  pub surface_needs_warmer : Bool

-- A comparison is false where a side is missing.
abbrev pub reaches_opt : Option ℤ → ℤ → Bool
reaches_opt none limit = false
reaches_opt (some v) limit = leb_ℤ limit v

abbrev pub below_opt : Option ℤ → ℤ → Bool
below_opt none limit = false
below_opt (some v) limit = ltb_ℤ v limit

abbrev pub within_opt : Option ℤ → ℤ → Bool
within_opt none limit = false
within_opt (some v) limit = leb_ℤ v limit

abbrev pub exceeds_opt : Option ℤ → Option ℤ → Bool
exceeds_opt none limit = false
exceeds_opt (some v) none = false
exceeds_opt (some v) (some l) = ltb_ℤ l v

abbrev minus_opt : Option ℤ → Option ℤ → Option ℤ
minus_opt none b = none
minus_opt (some a) none = none
minus_opt (some a) (some b) = some (a -ℤ b)

abbrev lowered : Option ℤ → ℤ → Option ℤ
lowered none d = none
lowered (some v) d = some (v -ℤ d)

abbrev or_opt : Option ℤ → Option ℤ → Option ℤ
or_opt none b = b
or_opt (some a) b = some a

abbrev rounded : Option ℤ → Option ℤ
rounded none = none
rounded (some v) = some (round1 v)

abbrev cooler_outside : Option ℤ → Option ℤ → Bool
cooler_outside none limit = false
cooler_outside (some t) none = false
cooler_outside (some t) (some l) = leb_ℤ t l

unfoldable pub delta : VentInput → Option ℤ
delta k = minus_opt k.w_in_gm3 k.w_out_gm3

unfoldable pub outside_drier : VentInput → Bool
outside_drier k = exceeds_opt (delta k) (some (pos 0))

-- rule 1
unfoldable pub mold_risk : VentConfig → VentInput → Bool
mold_risk cfg k =
    reaches_opt k.surface_rh_mean_pct (cfg.surface_limit_pct -ℤ cfg.surface_margin_pp)
    && outside_drier k

unfoldable pub moisture_comfort_condition : VentConfig → VentInput → Bool
moisture_comfort_condition cfg k =
    k.occupied
    && (reaches_opt (delta k) (if k.prev_advice_active then cfg.delta_off_gm3 else cfg.delta_on_gm3)
        && (exceeds_opt k.w_in_gm3 (some cfg.moist_gm3) && reaches_opt k.rh_pct cfg.moist_rh_pct))

unfoldable pub moisture_reason_valid : VentConfig → VentInput → Bool
moisture_reason_valid cfg k = moisture_comfort_condition cfg k && not k.cool_edge_protected

unfoldable pub protect_reason_valid : VentConfig → VentInput → Bool
protect_reason_valid cfg k =
    exceeds_opt k.rh_pct k.rh_max_safe_pct
    && (reaches_opt (delta k)
          (if k.prev_moisture_protect then cfg.delta_off_gm3 else cfg.delta_on_gm3)
        && not k.cool_edge_protected)

unfoldable pub own_airing_running : VentConfig → VentInput → Bool
own_airing_running cfg k =
    (k.prev_moisture_airing && moisture_reason_valid cfg k)
    || (k.prev_moisture_protect && protect_reason_valid cfg k)

-- rule 1b
unfoldable pub mold_guard : VentConfig → VentInput → Bool
mold_guard cfg k =
    k.window_open
    && (not (own_airing_running cfg k)
        && (k.surface_needs_warmer && exceeds_opt k.rh_pct k.rh_max_safe_pct))

-- rule 2
unfoldable pub too_dry : VentConfig → VentInput → Bool
too_dry cfg k = within_opt k.w_in_gm3 cfg.dry_warn_gm3 || within_opt k.rh_pct cfg.dry_warn_rh_pct

unfoldable pub surface_near_limit : VentConfig → VentInput → Bool
surface_near_limit cfg k = elim (lowered k.critical_rh_pct cfg.mold_guard_margin_pp) [
  | none ↦ false
  | some limit ↦ reaches_opt k.surface_rh_mean_pct limit
]

-- rule 3t
unfoldable pub heat_out : VentConfig → VentInput → Bool
heat_out cfg k =
    (not k.cool_capable && not k.fan_capable)
    && (not k.cool_edge_protected
        && (not (surface_near_limit cfg k)
            && (is_some k.room_c
                && (exceeds_opt (or_opt k.room_decide_c k.room_c) k.cool_edge_c
                    && (cooler_outside k.t_out_c (
                          lowered k.room_c (
                            if k.prev_heat_out
                            then cfg.heat_out_dt_off_k
                            else cfg.heat_out_dt_on_k))
                        && reaches_opt (delta k) (neg_ℤ cfg.heat_out_humid_guard_gm3))))))

unfoldable pub advise : VentAction → String → String → VentInput → VentilationAdvice
advise a r lv k = record { action = a; reason = r; level = lv; delta_gm3 = rounded (delta k) }

unfoldable pub ventilation_advise : VentConfig → VentInput → VentilationAdvice
unfolding advise
ventilation_advise cfg k =
    if mold_risk cfg k
    then advise action_open "mold_risk"
        (if k.mold_floor_binding || k.mold_capped then "alert" else "warn") k
    else if mold_guard cfg k
    then advise action_close "mold_guard" "warn" k
    else if too_dry cfg k && outside_drier k
    then advise (if k.window_open then action_close else action_discourage) "too_dry" "warn" k
    else if k.window_open && k.room_at_thermal_floor
    then advise action_close "thermal_floor" "warn" k
    else if protect_reason_valid cfg k
    then advise action_open "moisture_protect" "warn" k
    else if k.window_open && (k.prev_moisture_protect && not (moisture_reason_valid cfg k))
    then advise action_close "target_reached" "ok" k
    else if heat_out cfg k
    then advise action_open "heat_out" "ok" k
    else if moisture_reason_valid cfg k
    then advise action_open "moisture_out" "ok" k
    else if k.occupied && reaches_opt k.co2_ppm cfg.co2_ppm
    then advise action_open "co2" "ok" k
    else if k.window_open && k.prev_heat_out
    then advise action_close "cooled_off" "ok" k
    else if k.window_open && below_opt (delta k) cfg.delta_off_gm3
    then advise action_close "target_reached" "ok" k
    else advise action_idle (if is_some (delta k) then "no_gain" else "no_data") "ok" k

abbrev notify_reasons : List String
notify_reasons = "mold_guard" ∷ "moisture_protect" ∷ []

unfoldable pub notifies : String → Bool
notifies reason = any_of (λ t. str_eq reason t) notify_reasons

pub record AdviceEmission : Type 0 where
  pub fire_event : Bool
  pub notify_create : Bool
  pub notify_dismiss : Bool

abbrev silent : AdviceEmission
silent = record { fire_event = false; notify_create = false; notify_dismiss = false }

-- What was published; `none` is the cold start, the empty action of the source.
abbrev pub Published : Type 0
Published = Option VentAction × String

abbrev same_action : Option VentAction → VentAction → Bool
same_action none a = false
same_action (some action_idle) a = is_idle a
same_action (some action_open) a = is_open a
same_action (some action_close) a = is_close a
same_action (some action_discourage) a = is_discourage a

-- equality of `reason if reason in NOTIFY_REASONS else ""`
unfoldable pub same_notice : String → String → Bool
unfolding notifies
same_notice prev reason =
    str_eq (if notifies prev then prev else "") (if notifies reason then reason else "")

abbrev was_open : Option VentAction → Bool
was_open none = false
was_open (some a) = is_open a

unfoldable pub advice_transition : Published → VentAction → String → Bool → AdviceEmission
unfolding same_notice notifies
advice_transition (prev_action, prev_reason) action reason notify_opt_in =
    let episode = is_open action || notifies reason in
    let prev_episode = was_open prev_action || notifies prev_reason in
    if (same_action prev_action action && same_notice prev_reason reason)
      || (not (is_some prev_action) && is_idle action)
    then silent
    else record {
      fire_event = true;
      notify_create = notify_opt_in && episode;
      notify_dismiss = notify_opt_in && (prev_episode && not episode);
    }

-- What is remembered of the last announcement, and whether its notification stands.
pub record Announced : Type 0 where
  pub published : Published
  pub shown : Bool

abbrev pub cold_start : Announced
cold_start = record { published = (none, ""); shown = false }

abbrev pub after_emission : AdviceEmission → Bool → Bool
after_emission e shown = if e.notify_create then true else if e.notify_dismiss then false else shown

-- `_announce_vent_advice` of ha/phase_prepare.py, where `vent_notify` is the opt-in of the zone; no advice
-- leaves all as it was.
unfoldable pub announce : Bool → Announced → Option VentilationAdvice → Announced
unfolding advice_transition
announce vent_notify s none = s
announce vent_notify s (some a) = record {
  published = (some a.action, a.reason);
  shown = after_emission (advice_transition s.published a.action a.reason vent_notify) s.shown;
}
