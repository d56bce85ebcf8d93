-- ===== src/Dynamics.antt =====
-- The dynamics classes of actuators: custom_components/poise/control/dynamics.py.  Gains, offsets and
-- hours are in thousandths, seconds in thousandths, and the length of an MPC block is in minutes.
pub mod Throttle
use Prim.Native.String.{String}
use text.Mathlib.Text.{◌==◌ as str_eq}
use poise_thermostat.Base.{
  ℕ, Bool, true, false, ◌&&◌, ◌||◌, Option, none, some, if◌then◌else◌, get_or, is_some,
}
use poise_thermostat.Base.Int.{ℤ, pos, ◌-ℤ◌, ltb_ℤ, leb_ℤ, seconds}

pub data DeviceDynamics : Type 0 where
  fast_air slow_hydronic very_slow : DeviceDynamics

pub record DynamicsProfile : Type 0 where
  pub kind : DeviceDynamics
  pub pi_kp : ℤ
  pub pi_ki : ℤ
  pub offset_max : ℤ
  pub mpc_dt_min : ℕ
  pub mpc_horizon_blocks : ℕ
  pub regulation_period_s : ℤ
  pub self_regulating : Bool
  pub max_lead_h : ℤ
  pub compressor_min_off_s : ℤ
  pub compressor_mode_hold_s : ℤ

abbrev fast_air_profile : DynamicsProfile
fast_air_profile = record {
  kind = fast_air;
  pi_kp = pos 200;
  pi_ki = pos 1_200;
  offset_max = pos 800;
  mpc_dt_min = 2;
  mpc_horizon_blocks = 15;
  regulation_period_s = seconds 300;
  self_regulating = true;
  max_lead_h = pos 4_000;
  compressor_min_off_s = seconds 300;
  compressor_mode_hold_s = seconds 300;
}

abbrev slow_hydronic_profile : DynamicsProfile
slow_hydronic_profile = record {
  kind = slow_hydronic;
  pi_kp = pos 200;
  pi_ki = pos 100;
  offset_max = pos 2_000;
  mpc_dt_min = 5;
  mpc_horizon_blocks = 12;
  regulation_period_s = pos 0;
  self_regulating = false;
  max_lead_h = pos 4_000;
  compressor_min_off_s = seconds 300;
  compressor_mode_hold_s = seconds 300;
}

abbrev very_slow_profile : DynamicsProfile
very_slow_profile = record {
  kind = very_slow;
  pi_kp = pos 200;
  pi_ki = pos 50;
  offset_max = pos 2_000;
  mpc_dt_min = 10;
  mpc_horizon_blocks = 18;
  regulation_period_s = pos 0;
  self_regulating = false;
  max_lead_h = pos 12_000;
  compressor_min_off_s = seconds 300;
  compressor_mode_hold_s = seconds 300;
}

-- `PROFILES[kind]`
unfoldable pub profile_of : DeviceDynamics → DynamicsProfile
profile_of fast_air = fast_air_profile
profile_of slow_hydronic = slow_hydronic_profile
profile_of very_slow = very_slow_profile

-- `DeviceDynamics(override)`, which is no member for "auto", the empty text and an unknown one
unfoldable pub dynamics_named : String → Option DeviceDynamics
dynamics_named s =
    if str_eq s "fast_air"
    then some fast_air
    else if str_eq s "slow_hydronic"
    then some slow_hydronic
    else if str_eq s "very_slow"
    then some very_slow
    else none

abbrev dynamics_chosen : Option String → Option DeviceDynamics
dynamics_chosen none = none
dynamics_chosen (some s) = dynamics_named s

unfoldable pub classify_dynamics : String → Bool → Bool → Option String → DeviceDynamics
unfolding dynamics_named
classify_dynamics domain can_cool can_fan override =
    get_or (dynamics_chosen override)
      (if str_eq domain "climate" && (can_cool || can_fan) then fast_air else slow_hydronic)

unfoldable pub profile_for : String → Bool → Bool → Option String → DynamicsProfile
unfolding profile_of classify_dynamics
profile_for domain can_cool can_fan override =
    profile_of (classify_dynamics domain can_cool can_fan override)

unfoldable pub regulation_throttled : ℤ → Option ℤ → ℤ → Bool
regulation_throttled now none period = false
regulation_throttled now (some t) period =
    if leb_ℤ period (pos 0) then false else ltb_ℤ (now -ℤ t) period
