-- ===== src/Humidity.antt =====
-- The humidity decision (custom_components/poise/comfort/humidity.py), its latch over the ticks (the
-- humidity step of ha/phase_prepare.py) and the mode that it yields (comfort/mode_seam.py).  Relative
-- humidity is in thousandths of a percent, the humidity ratio in thousandths of g/kg.  A reason has a
-- name in place of its text.
pub mod Latch
use Prim.Native.String.{String}
use text.Mathlib.Text.{◌==◌ as str_eq}
use poise_thermostat.Base.{
  ℕ, Bool, true, false, not, ◌&&◌, ◌||◌, Option, none, some, if◌then◌else◌, is_some,
}
use poise_thermostat.Base.Int.{ℤ, pos, ltb_ℤ, leb_ℤ, ◌-ℤ◌}

pub data Category : Type 0 where
  category_i category_ii category_iii : Category

pub record HumidityConfig : Type 0 where
  pub rh_high : ℤ
  pub rh_low : ℤ
  pub hysteresis : ℤ
  pub abs_high : ℤ
  pub abs_hysteresis : ℤ

abbrev pub default_humidity_config : HumidityConfig
default_humidity_config = record {
  rh_high = pos 60_000;
  rh_low = pos 40_000;
  hysteresis = pos 5_000;
  abs_high = pos 12_000;
  abs_hysteresis = pos 1_000;
}

unfoldable pub humidity_config_for : String → HumidityConfig
humidity_config_for norm_basis =
    if str_eq norm_basis "na_de"
    then record default_humidity_config { abs_high = pos 11_500 }
    else default_humidity_config

unfoldable pub rh_high_for_category : Option Category → HumidityConfig → ℤ
rh_high_for_category none cfg = cfg.rh_high
rh_high_for_category (some category_i) cfg = pos 50_000
rh_high_for_category (some category_ii) cfg = pos 60_000
rh_high_for_category (some category_iii) cfg = pos 70_000

pub data HumidityAction : Type 0 where
  hum_idle hum_cool hum_dry hum_dry_guard : HumidityAction

pub data HumidityReason : Type 0 where
  no_sensor below_floor cool_covers abs_backstop over_ceiling fan_raises cannot_dry deferred
        within_band block_failed :
      HumidityReason

pub record HumidityDecision : Type 0 where
  pub action : HumidityAction
  pub dry_active : Bool
  pub reason : HumidityReason

pub record HumidityInput : Type 0 where
  pub rh : Option ℤ
  pub too_warm : Bool
  pub in_deadband : Bool
  pub can_dry : Bool
  pub can_fan_only : Bool
  pub category : Option Category
  pub abs_humidity_gkg : Option ℤ
  pub occupied : Bool
  pub cfg : HumidityConfig

-- `w is not None and w >= limit`
abbrev pub has_reached : Option ℤ → ℤ → Bool
has_reached none limit = false
has_reached (some w) limit = leb_ℤ limit w

unfoldable pub rh_over : HumidityInput → ℤ → Bool
unfolding rh_high_for_category
rh_over k rh = k.occupied && leb_ℤ (rh_high_for_category k.category k.cfg) rh

unfoldable pub rh_hold : HumidityInput → ℤ → Bool
unfolding rh_high_for_category
rh_hold k rh = k.occupied && leb_ℤ (rh_high_for_category k.category k.cfg -ℤ k.cfg.hysteresis) rh

unfoldable pub abs_over : HumidityInput → Bool
abs_over k = has_reached k.abs_humidity_gkg k.cfg.abs_high

unfoldable pub abs_hold : HumidityInput → Bool
abs_hold k = has_reached k.abs_humidity_gkg (k.cfg.abs_high -ℤ k.cfg.abs_hysteresis)

unfoldable pub humid_enough : HumidityInput → ℤ → Bool → Bool
unfolding rh_over rh_hold abs_over abs_hold
humid_enough k rh prev = rh_over k rh || abs_over k || (prev && (rh_hold k rh || abs_hold k))

abbrev pub decided : HumidityAction → Bool → HumidityReason → HumidityDecision
decided action dry_active reason = record {
  action = action;
  dry_active = dry_active;
  reason = reason;
}

-- in the dead band of a room that is humid enough
unfoldable pub dehumidify : HumidityInput → ℤ → Bool → HumidityDecision
unfolding rh_over rh_hold
dehumidify k rh prev =
    if k.can_dry
    then if not (rh_over k rh || (prev && rh_hold k rh)) && is_some k.abs_humidity_gkg
      then decided hum_dry true abs_backstop
      else decided hum_dry true over_ceiling
    else if k.can_fan_only
    then decided hum_idle false fan_raises
    else decided hum_idle false cannot_dry

unfoldable pub decide_at : HumidityInput → ℤ → Bool → HumidityDecision
unfolding humid_enough dehumidify rh_high_for_category
decide_at k rh prev =
    if ltb_ℤ rh k.cfg.rh_low
    then decided hum_dry_guard false below_floor
    else if k.too_warm
    then decided hum_cool false cool_covers
    else if k.in_deadband && humid_enough k rh prev
    then dehumidify k rh prev
    else if not k.occupied && leb_ℤ (rh_high_for_category k.category k.cfg) rh
    then decided hum_idle false deferred
    else decided hum_idle false within_band

unfoldable pub humidity_of : HumidityInput → Option ℤ → Bool → HumidityDecision
unfolding decide_at
humidity_of k none prev = decided hum_idle false no_sensor
humidity_of k (some rh) prev = decide_at k rh prev

unfoldable pub humidity_decide : HumidityInput → Bool → HumidityDecision
unfolding humidity_of
humidity_decide k prev = humidity_of k k.rh prev

-- The inputs of the step; `block_fails` says that something in it raises.
pub record HumidityTick : Type 0 where
  pub block_fails : Bool
  pub rh : Option ℤ
  pub room_decide : ℤ
  pub heat_sp : ℤ
  pub eff_cool : ℤ
  pub can_dry : Bool
  pub can_fan_only : Bool
  pub category : Option Category
  pub abs_humidity_gkg : Option ℤ
  pub occupied : Bool
  pub norm_basis : String

unfoldable pub humidity_input : HumidityTick → HumidityInput
unfolding humidity_config_for
humidity_input k = record {
  rh = k.rh;
  too_warm = ltb_ℤ k.eff_cool k.room_decide;
  in_deadband = leb_ℤ k.heat_sp k.room_decide && leb_ℤ k.room_decide k.eff_cool;
  can_dry = k.can_dry;
  can_fan_only = k.can_fan_only;
  category = k.category;
  abs_humidity_gkg = k.abs_humidity_gkg;
  occupied = k.occupied;
  cfg = humidity_config_for k.norm_basis;
}

-- the decision of a tick; its `dry_active` is the latch that it leaves
unfoldable pub humidity_step : Bool → HumidityTick → HumidityDecision
unfolding humidity_decide humidity_input
humidity_step dry_active k =
    if k.block_fails
    then decided hum_idle dry_active block_failed
    else humidity_decide (humidity_input k) dry_active

abbrev pub is_dry : HumidityAction → Bool
is_dry hum_dry = true
is_dry _ = false

unfoldable pub mode_arbitration : String → HumidityAction → Bool → Bool → String
mode_arbitration base_mode humidity_action dry_ok fan_first =
    if str_eq base_mode "cool" && fan_first
    then "fan_only"
    else if str_eq base_mode "idle" && (is_dry humidity_action && dry_ok)
    then "dry"
    else base_mode
