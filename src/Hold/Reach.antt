-- ===== src/Hold/Reach.antt =====
-- The user's state after any series of the commands of
-- custom_components/poise/control/override_runtime.py.
use Prim.Native.String.{String}
use poise_thermostat.Base.{refl, Bool, Option, arith, ◌≤◌, length}
use poise_thermostat.Base.Int.{ℤ, ◌≤ℤ◌, Float}
use poise_thermostat.Hold.{
  OverrideMode, UserState, fresh_user, HoldSettings, set_enabled, set_climate_mode,
  set_window_bypass, set_override, set_mode_override, set_preset, end_hold, expire_timed_states,
}
use poise_thermostat.Hold.Stats.{
  StatInput, record_override_stat, stats_cap, length-record_override_stat,
}
use poise_thermostat.Hold.Lifecycle.{
  IsHold, IsBoost, set_override-IsHold, set_mode_override-IsHold, set_preset-IsHold,
  expire_timed_states-IsHold, set_preset-IsBoost, expire_boost-IsBoost, expire_hold-IsBoost,
  set_override_on-IsBoost, set_mode_override-IsBoost, set_override-override_stats,
  set_mode_override-override_stats, set_preset-override_stats, expire_timed_states-override_stats,
}

-- One command of the zone, with whatever it is given; a mode is adopted, or dropped on its own.
pub data Step (c : HoldSettings) : UserState → UserState → Type 0 where
  enabling : (u : UserState) (value : Bool) → Step c u (set_enabled u value).user
  choosing_mode : (u : UserState) (mode : String) → Step c u (set_climate_mode u mode).user
  bypassing : (u : UserState) (on : Bool) → Step c u (set_window_bypass u on).user
  overriding :
      (u : UserState) (v : Option Float) (reason : Option String) (now : ℤ) (mins : Option ℤ)
      (zone : StatInput)
      → Step c u (set_override c u v reason now mins (record_override_stat zone)).user
  adopting_mode :
      (u : UserState) (mode : Option String) (now : ℤ) (mins : Option ℤ)
      → Step c u (set_mode_override c u mode now mins).user
  choosing_preset :
      (u : UserState) (mode : OverrideMode) (minutes now : ℤ)
      → Step c u (set_preset u mode minutes now).user
  ending : (u : UserState) (reason : String) → Step c u (end_hold u reason).user
  expiring :
      (u : UserState) (prev home : Option Bool) (on_presence : Bool) (minutes now : ℤ)
      → Step c u (expire_timed_states u prev home on_presence minutes now).0.user

pub data Reach (c : HoldSettings) (s : UserState) : UserState → Type 0 where
  here : Reach c s s
  next : {t u : UserState} → Reach c s t → Step c t u → Reach c s u

abbrev pub IsUser : HoldSettings → UserState → Type 0
IsUser c u = IsHold c u × IsBoost u × (length u.override_stats ≤ stats_cap)

module _ (c : HoldSettings) (order : c.frost_floor ≤ℤ c.device_max) where
  Step-IsUser : {u u' : UserState} → Step c u u' → IsUser c u → IsUser c u'
  unfolding set_enabled set_climate_mode set_window_bypass end_hold set_override expire_timed_states
  Step-IsUser (enabling u value) h = h
  Step-IsUser (choosing_mode u mode) h = h
  Step-IsUser (bypassing u on) h = h
  Step-IsUser (overriding u v reason now mins zone) (h, b, n) = (
    set_override-IsHold c order u v reason now mins (record_override_stat zone) h,
    set_override_on-IsBoost c u _ v reason now mins (record_override_stat zone) b,
    set_override-override_stats c u v reason now mins (record_override_stat zone) stats_cap
        (λ w. length-record_override_stat zone w u.override_stats n) n,
  )
  Step-IsUser (adopting_mode u mode now mins) (h, b, n) = (
    set_mode_override-IsHold c order u mode now mins h,
    set_mode_override-IsBoost c u mode now mins b,
    rw (set_mode_override-override_stats c u mode now mins) n,
  )
  Step-IsUser (choosing_preset u mode minutes now) (h, b, n) = (
    set_preset-IsHold c order u mode minutes now h,
    set_preset-IsBoost u mode minutes now b,
    rw (set_preset-override_stats u mode minutes now) n,
  )
  Step-IsUser (ending u reason) (h, b, n) = ((refl, refl, refl, refl, refl, tt), b, n)
  Step-IsUser (expiring u prev home on_presence minutes now) (h, b, n) = (
    expire_timed_states-IsHold c order u prev home on_presence minutes now h,
    expire_hold-IsBoost _ now _ on_presence _ (expire_boost-IsBoost u minutes now b),
    rw (expire_timed_states-override_stats u prev home on_presence minutes now) n,
  )

  -- After any series of commands of the zone, dropping a mode on its own included, a start is on
  -- record while a setpoint or a mode is held, a reason exactly with a start, an expiry only with a
  -- start, the switchpoint flag only with an expiry, the value asked for exactly with a held
  -- setpoint; a held setpoint lies between the frost floor and the device maximum, the boost fields
  -- are set exactly while the boost is on and never restore a boost, and the log holds at most fifty
  -- entries, where the frost floor does not exceed the device maximum.
  pub Reach-IsUser : {u : UserState} → Reach c fresh_user u → IsUser c u
  Reach-IsUser here = ((refl, refl, refl, refl, refl, tt), (refl, refl, tt), omega arith)
  Reach-IsUser (next r s) = Step-IsUser s (Reach-IsUser r)
