-- ===== src/Activation.antt =====
-- The activation of the comfort blocks (custom_components/poise/control/comfort_activation.py) and the
-- choice between heating and cooling (control/cooling.py).  Durations are thousandths of a minute, PPD
-- values thousandths of a point, temperatures thousandths of a degree.
pub mod Dwell
use Prim.Native.String.{String}
use text.Mathlib.Text.{◌==◌ as str_eq}
use poise_thermostat.Base.{
  ℕ, Bool, true, false, not, ◌&&◌, ◌||◌, Option, none, some, if◌then◌else◌, ltb,
}
use poise_thermostat.Base.Int.{ℤ, pos, ◌+ℤ◌, ◌-ℤ◌, ltb_ℤ, leb_ℤ}
use poise_thermostat.Tick.{is_text}

pub data TierState : Type 0 where
  shadow eligible live suspended : TierState

-- DWELL_TARGET_MIN and PPD_EXIT_TOL_PCT
abbrev pub dwell_target_min : ℤ
dwell_target_min = pos 1_440_000

abbrev pub ppd_exit_tol_pct : ℤ
ppd_exit_tol_pct = pos 2_000

pub record TierActivation : Type 0 where
  pub state : TierState
  pub dwell_min : ℤ
  pub baseline_ppd : Option ℤ
  pub baseline_signature : Option String
  pub generation : ℕ

abbrev pub fresh_tier : TierState → ℕ → TierActivation
fresh_tier state generation = record {
  state = state;
  dwell_min = pos 0;
  baseline_ppd = none;
  baseline_signature = none;
  generation = generation;
}

pub record ComfortActivation : Type 0 where
  pub fan_ce : TierActivation
  pub pmv_offset : TierActivation
  pub generation : ℕ

-- One scored tick.
pub record TierTick : Type 0 where
  pub ready : Bool
  pub entry_ok : Bool
  pub ppd : ℤ
  pub signature : String
  pub dt_min : ℤ
  pub allowed : Bool
  pub next_generation : ℕ
  pub impossible : Bool

abbrev worsened : Option ℤ → ℤ → Bool
worsened none ppd = false
worsened (some base) ppd = ltb_ℤ (base +ℤ ppd_exit_tol_pct) ppd

abbrev pub qualifies : TierTick → Bool
qualifies k = k.ready && (k.entry_ok && k.allowed)

-- a live tier, and one that waits for its dwell
unfoldable pub step_live : TierActivation → TierTick → TierActivation
step_live a k =
    if not k.ready
      || (not (is_text a.baseline_signature k.signature) || worsened a.baseline_ppd k.ppd)
    then fresh_tier suspended a.generation
    else a

unfoldable pub step_eligible : TierActivation → TierTick → TierActivation
step_eligible a k =
    if not (qualifies k)
    then a
    else if leb_ℤ dwell_target_min (a.dwell_min +ℤ k.dt_min)
    then record {
      state = live;
      dwell_min = a.dwell_min +ℤ k.dt_min;
      baseline_ppd = some k.ppd;
      baseline_signature = some k.signature;
      generation = k.next_generation;
    }
    else record a { dwell_min = a.dwell_min +ℤ k.dt_min }

unfoldable pub step_waiting : TierActivation → TierTick → TierActivation
step_waiting a k = if k.ready && k.allowed then fresh_tier eligible a.generation else a

unfoldable pub step_by : TierState → TierActivation → TierTick → TierActivation
unfolding step_live step_eligible step_waiting
step_by live a k = step_live a k
step_by shadow a k = step_waiting a k
step_by suspended a k = step_waiting a k
step_by eligible a k = step_eligible a k

unfoldable pub retire : TierState → TierActivation → TierActivation
retire shadow a = a
retire _ a = fresh_tier shadow a.generation

unfoldable pub step_tier : TierActivation → TierTick → TierActivation
unfolding step_by retire
step_tier a k = if k.impossible then retire a.state a else step_by a.state a k

abbrev is_eligible : TierState → Bool
is_eligible eligible = true
is_eligible _ = false

abbrev is_live : TierState → Bool
is_live live = true
is_live _ = false

unfoldable pub latch_dwelt : TierActivation → TierActivation → Bool
latch_dwelt prev next = is_eligible next.state && ltb_ℤ prev.dwell_min next.dwell_min

-- TIER2_ORDER
pub data Feature : Type 0 where
  fan_ce pmv_offset : Feature

unfoldable pub may_dwell : ComfortActivation → Feature → Bool → Bool
may_dwell c Feature.fan_ce predecessor_impossible = not (is_eligible c.pmv_offset.state)
may_dwell c Feature.pmv_offset predecessor_impossible =
    not (is_eligible c.fan_ce.state) && (predecessor_impossible || is_live c.fan_ce.state)

-- `_drop`
unfoldable pub drop_after : ℕ → TierActivation → TierActivation
drop_after invalidated a =
    if ltb invalidated a.generation && (is_live a.state || is_eligible a.state)
    then fresh_tier suspended a.generation
    else a

unfoldable pub cascade_after_invalidation : ComfortActivation → ℕ → ComfortActivation
unfolding drop_after
cascade_after_invalidation c invalidated = record {
  fan_ce = drop_after invalidated c.fan_ce;
  pmv_offset = drop_after invalidated c.pmv_offset;
  generation = c.generation;
}

-- control/cooling.py
pub record DualSetpoint : Type 0 where
  pub heat : ℤ
  pub cool : ℤ

pub record ModeGates : Type 0 where
  pub outdoor : ℤ
  pub climate_mode : String
  pub can_heat : Bool
  pub can_cool : Bool
  pub cool_min_outdoor : Option ℤ
  pub heat_max_outdoor : Option ℤ

abbrev at_most : ℤ → Option ℤ → Bool
at_most v none = true
at_most v (some m) = leb_ℤ v m

abbrev no_less : ℤ → Option ℤ → Bool
no_less v none = true
no_less v (some m) = leb_ℤ m v

abbrev pub heat_ok : ModeGates → Bool
heat_ok g =
    g.can_heat
    && ((str_eq g.climate_mode "auto" || str_eq g.climate_mode "heat_only")
        && at_most g.outdoor g.heat_max_outdoor)

abbrev pub cool_ok : ModeGates → Bool
cool_ok g =
    g.can_cool
    && ((str_eq g.climate_mode "auto" || str_eq g.climate_mode "cool_only")
        && no_less g.outdoor g.cool_min_outdoor)

unfoldable pub decide_mode : ℤ → DualSetpoint → ModeGates → String
decide_mode room setpoint g =
    if ltb_ℤ setpoint.cool setpoint.heat
    then "idle"
    else if heat_ok g && ltb_ℤ room setpoint.heat
    then "heat"
    else if cool_ok g && ltb_ℤ setpoint.cool room
    then "cool"
    else "idle"

unfoldable pub override_mode : ℤ → ℤ → ℤ → ModeGates → String
unfolding decide_mode
override_mode room override hysteresis g =
    decide_mode room (record { heat = override -ℤ hysteresis; cool = override +ℤ hysteresis }) g

unfoldable pub cooling_intent : Bool → Bool → String → Bool
cooling_intent enabled window_open mode = enabled && (not window_open && str_eq mode "cool")
