-- ===== src/Hold.antt =====
-- Manual holds and the timed boost: the lifecycle functions of control/override.py and the commands of
-- control/override_runtime.py over the user's state (`UserControlState` of runtime/state.py), all under
-- custom_components/poise.  Times are thousandths of a second; durations in hours and minutes are
-- thousandths of these, and temperatures thousandths of a degree.
pub mod Expiry
pub mod Lifecycle
pub mod Stats
pub mod Reach
pub mod Refine
pub mod Stages
pub mod Escape
use Prim.Native.String.{String}
use text.Mathlib.Text.{◌==◌ as str_eq}
use poise_thermostat.Base.{
  ◌*◌, Bool, true, false, not, ◌&&◌, ◌||◌, Option, none, some, List, [], ◌∷◌, if◌then◌else◌, get_or,
  is_some,
}
use poise_thermostat.Base.Int.{
  ℤ, pos, ◌+ℤ◌, ◌-ℤ◌, ◌*ℤ◌, ltb_ℤ, leb_ℤ, min_ℤ, Float, finite, non_finite,
}
use poise_thermostat.Tick.{sanitize_override}

pub data OverrideMode : Type 0 where
  no_preset eco comfort_preset boost away : OverrideMode

pub record OverrideConfig : Type 0 where
  pub eco_offset : ℤ
  pub boost_offset : ℤ
  pub away_offset : ℤ
  pub manual_revert_h : ℤ

unfoldable pub mode_comfort_base : OverrideMode → ℤ → OverrideConfig → ℤ
mode_comfort_base eco base c = base -ℤ c.eco_offset
mode_comfort_base away base c = base -ℤ c.away_offset
mode_comfort_base boost base c = base +ℤ c.boost_offset
mode_comfort_base no_preset base c = base
mode_comfort_base comfort_preset base c = base

-- a number of hours, and one of minutes, in the unit of the clocks
abbrev pub hours : ℤ → ℤ
hours h = pos 3600 *ℤ h

abbrev pub minutes : ℤ → ℤ
minutes m = pos 60 *ℤ m

unfoldable pub manual_override_expired : ℤ → ℤ → OverrideConfig → Bool
manual_override_expired set_at now c = leb_ℤ (hours c.manual_revert_h) (now -ℤ set_at)

-- A policy is one of three texts of the source; every other text counts as "timer".
pub data Policy : Type 0 where
  permanent schedule timer : Policy

unfoldable pub policy_of : String → Policy
policy_of p =
    if str_eq p "permanent" then permanent else if str_eq p "schedule" then schedule else timer

-- `minutes_to_switchpoint is not None and minutes_to_switchpoint > 0`
unfoldable pub upcoming : Option ℤ → Option ℤ
upcoming none = none
upcoming (some m) = if ltb_ℤ (pos 0) m then some m else none

-- `base` of the schedule policy
unfoldable pub schedule_base : ℤ → ℤ → Option ℤ → ℤ
schedule_base set_at timer_h none = set_at +ℤ hours timer_h
schedule_base set_at timer_h (some m) = set_at +ℤ minutes m

unfoldable pub resolve_hold_expiry : Policy → ℤ → ℤ → ℤ → Option ℤ → Option ℤ
unfolding schedule_base upcoming
resolve_hold_expiry permanent set_at timer_h max_h mins = none
resolve_hold_expiry schedule set_at timer_h max_h mins =
    some (min_ℤ (schedule_base set_at timer_h (upcoming mins)) (set_at +ℤ hours max_h))
resolve_hold_expiry timer set_at timer_h max_h mins = some (set_at +ℤ hours timer_h)

abbrev pub reached : Option ℤ → ℤ → Bool
reached none now = false
reached (some t) now = leb_ℤ t now

unfoldable pub hold_expired : Option ℤ → ℤ → Bool → Bool → Bool
hold_expired expires_at now presence_changed end_on_presence =
    (presence_changed && end_on_presence) || reached expires_at now

abbrev is_schedule : Policy → Bool
is_schedule schedule = true
is_schedule _ = false

abbrev warmer : Option ℤ → ℤ → Bool
warmer none held = false
warmer (some t) held = ltb_ℤ held t

unfoldable pub hold_ends_at_preheat : Policy → Bool → Bool → Option ℤ → ℤ → Bool
hold_ends_at_preheat policy preheat_started expiry_is_switchpoint preheat_target held =
    is_schedule policy && (preheat_started && (expiry_is_switchpoint && warmer preheat_target held))

unfoldable pub resolve_boost_expiry : ℤ → ℤ → ℤ
resolve_boost_expiry set_at boost_duration_min = set_at +ℤ minutes boost_duration_min

-- One entry of `override_stats`.
pub record OverrideStat : Type 0 where
  pub ts : ℤ
  pub up : Bool
  pub delta : ℤ
  pub in_comfort : Bool
  pub presence_level : String

-- The fields that the commands of this file read or write.
pub record UserState : Type 0 where
  pub enabled : Bool
  pub preset : OverrideMode
  pub climate_mode : String
  pub window_bypass : Bool
  pub override : Option ℤ
  pub mode_override : Option String
  pub override_set_wall : Option ℤ
  pub override_requested : Option ℤ
  pub override_expires_at : Option ℤ
  pub override_expiry_is_switchpoint : Bool
  pub override_reason : Option String
  pub boost_expires_at : Option ℤ
  pub boost_prev_preset : Option OverrideMode
  pub override_stats : List OverrideStat
  pub last_adopt_log : String

abbrev pub fresh_user : UserState
fresh_user = record {
  enabled = true;
  preset = no_preset;
  climate_mode = "auto";
  window_bypass = false;
  override = none;
  mode_override = none;
  override_set_wall = none;
  override_requested = none;
  override_expires_at = none;
  override_expiry_is_switchpoint = false;
  override_reason = none;
  boost_expires_at = none;
  boost_prev_preset = none;
  override_stats = [];
  last_adopt_log = "";
}

-- `CommandResult` with the state that the command leaves: the reasons of the `OverrideEnded` events.
pub record CommandResult : Type 0 where
  pub user : UserState
  pub events : List String
  pub dirty : Bool

abbrev pub done : UserState → CommandResult
done u = record { user = u; events = []; dirty = true }

unfoldable pub set_enabled : UserState → Bool → CommandResult
set_enabled u value = done (record u { enabled = value })

unfoldable pub set_climate_mode : UserState → String → CommandResult
set_climate_mode u mode = done (record u { climate_mode = mode })

unfoldable pub set_window_bypass : UserState → Bool → CommandResult
set_window_bypass u on = done (record u { window_bypass = on })

-- The zone's settings that the commands take, and what they read from the clock and the schedule.
pub record HoldSettings : Type 0 where
  pub policy : Policy
  pub timer_h : ℤ
  pub max_h : ℤ
  pub frost_floor : ℤ
  pub device_max : ℤ

-- `_announce_hold_expiry`: was the announced expiry the switchpoint itself?
unfoldable pub is_switchpoint : Policy → ℤ → ℤ → Option ℤ → Bool
is_switchpoint schedule set_at max_h (some m) =
    ltb_ℤ (pos 0) m && leb_ℤ (set_at +ℤ minutes m) (set_at +ℤ hours max_h)
is_switchpoint _ set_at max_h _ = false

unfoldable pub announce_hold_expiry : HoldSettings → UserState → ℤ → Option ℤ → UserState
unfolding resolve_hold_expiry is_switchpoint
announce_hold_expiry c u set_at mins = record u {
  override_expires_at = resolve_hold_expiry c.policy set_at c.timer_h c.max_h mins;
  override_expiry_is_switchpoint = is_switchpoint c.policy set_at c.max_h mins;
}

-- `reason or default`
abbrev or_else : Option String → String → String
or_else none d = d
or_else (some r) d = if str_eq r "" then d else r

abbrev pub raw_value : Option Float → Option ℤ
raw_value (some (finite v)) = some v
raw_value _ = none

abbrev event_if : Bool → String → List String
event_if true r = r ∷ []
event_if false r = []

-- `set_override` with the value clamped; `stat` is the effect of `record_stat_fn` on the statistic
unfoldable pub set_override_on :
    HoldSettings
    → UserState
    → Option ℤ
    → Option Float
    → Option String
    → ℤ
    → Option ℤ
    → (ℤ → List OverrideStat → List OverrideStat)
    → CommandResult
unfolding announce_hold_expiry
set_override_on c u (some clamped) value reason set_at mins stat =
    let u' =
      announce_hold_expiry c
        (record u {
          override = some clamped;
          override_set_wall = some set_at;
          override_requested = raw_value value;
        })
        set_at mins in
    done (record u' {
      override_stats = stat clamped u'.override_stats;
      override_reason = some (or_else reason "ui_setpoint");
    })
set_override_on c u none value reason set_at mins stat =
    if is_some u.mode_override
    then done (record u { override = none; override_requested = none })
    else record {
      user = record u {
        override = none;
        override_requested = none;
        override_set_wall = none;
        override_expires_at = none;
        override_expiry_is_switchpoint = false;
        override_reason = none;
      };
      events = event_if (not (is_some value) && is_some u.override) (or_else reason "user_resume");
      dirty = true;
    }

unfoldable pub set_override :
    HoldSettings
    → UserState
    → Option Float
    → Option String
    → ℤ
    → Option ℤ
    → (ℤ → List OverrideStat → List OverrideStat)
    → CommandResult
unfolding set_override_on sanitize_override
set_override c u value reason set_at mins stat =
    set_override_on c u (sanitize_override value c.frost_floor c.device_max) value reason set_at
      mins stat

-- the expiry of a mode-hold that starts the lifecycle
unfoldable pub start_if : HoldSettings → UserState → Option ℤ → ℤ → Option ℤ → UserState
unfolding announce_hold_expiry
start_if c u (some _) set_at mins = u
start_if c u none set_at mins =
    announce_hold_expiry c (record u { override_set_wall = some set_at }) set_at mins

unfoldable pub set_mode_override :
    HoldSettings → UserState → Option String → ℤ → Option ℤ → CommandResult
unfolding start_if
set_mode_override c u none set_at mins = done (record u { mode_override = none })
set_mode_override c u (some mode) set_at mins =
    let u' = record u { mode_override = some mode; override_reason = some "device_adopt_mode" } in
    done (start_if c u' u.override_set_wall set_at mins)

abbrev is_boost : OverrideMode → Bool
is_boost boost = true
is_boost _ = false

unfoldable pub set_preset : UserState → OverrideMode → ℤ → ℤ → CommandResult
unfolding resolve_boost_expiry
set_preset u boost boost_duration_min now = done (record u {
  preset = boost;
  boost_prev_preset = if is_boost u.preset then u.boost_prev_preset else some u.preset;
  boost_expires_at = some (resolve_boost_expiry now boost_duration_min);
})
set_preset u mode boost_duration_min now =
    done (record u { preset = mode; boost_expires_at = none; boost_prev_preset = none })

unfoldable pub end_hold : UserState → String → CommandResult
end_hold u reason = record {
  user = record u {
    override = none;
    mode_override = none;
    override_set_wall = none;
    override_expires_at = none;
    override_requested = none;
    override_reason = none;
    override_expiry_is_switchpoint = false;
  };
  events = reason ∷ [];
  dirty = true;
}

-- `prev_home is not None and home is not None and home != prev_home`
unfoldable pub flipped : Option Bool → Option Bool → Bool
flipped (some a) (some b) = not (if a then b else not b)
flipped _ _ = false

-- the timed boost
unfoldable pub expire_boost : UserState → ℤ → ℤ → UserState × Bool
unfolding set_preset
expire_boost u now boost_duration_min =
    if reached u.boost_expires_at now
    then ((set_preset u (get_or u.boost_prev_preset no_preset) boost_duration_min now).user, true)
    else (u, false)

unfoldable pub expiry_reason : Bool → Bool → String
expiry_reason by_presence is_switchpoint =
    if by_presence
    then "presence_change"
    else if is_switchpoint
    then "schedule_point"
    else "expired_timer"

-- the manual hold, after the boost
unfoldable pub expire_hold : UserState → ℤ → Bool → Bool → Bool → CommandResult
unfolding hold_expired end_hold expiry_reason
expire_hold u now changed end_on_presence dirty =
    if (is_some u.override || is_some u.mode_override)
      && hold_expired u.override_expires_at now changed end_on_presence
    then end_hold u (expiry_reason (changed && end_on_presence) u.override_expiry_is_switchpoint)
    else record { user = u; events = []; dirty = dirty }

-- `expire_timed_states`: the result, and the presence that the next tick compares with
unfoldable pub expire_timed_states :
    UserState → Option Bool → Option Bool → Bool → ℤ → ℤ → CommandResult × Option Bool
unfolding expire_boost expire_hold flipped
expire_timed_states u prev_home home end_on_presence boost_duration_min now =
    let (u', dirty) = expire_boost u now boost_duration_min in
    (expire_hold u' now (flipped prev_home home) end_on_presence dirty, home)
