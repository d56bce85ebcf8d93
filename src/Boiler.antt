-- ===== src/Boiler.antt =====
-- The shared boiler's timing: `gate_min_cycle`, `target_boiler_state`, `step_boiler` and the
-- persistence of the boiler state in custom_components/poise/control/hub_aggregate.py.  All times are
-- thousandths of a second; the monotonic and the wall clock are inputs.
pub mod Cycle
pub mod Restart
use Prim.Native.String.{String}
use text.Mathlib.Text.{◌==◌ as str_eq}
use poise_thermostat.Base.{
  ℕ, Bool, true, false, not, ◌&&◌, ◌||◌, Option, none, some, List, [], ◌∷◌, if◌then◌else◌,
}
use poise_thermostat.Base.Int.{ℤ, pos, negsuc, ◌-ℤ◌, ltb_ℤ, leb_ℤ, max_ℤ, neg_ℤ}

abbrev pub eq_bool : Bool → Bool → Bool
eq_bool true b = b
eq_bool false b = not b

unfoldable pub gate_min_cycle : Bool → Bool → ℤ → ℤ → ℤ → ℤ → Bool
gate_min_cycle desired_on currently_on last_change_mono now_mono min_on_s min_off_s =
    let elapsed = now_mono -ℤ last_change_mono in
    if eq_bool desired_on currently_on
    then currently_on
    else if currently_on
    then ltb_ℤ elapsed min_on_s
    else leb_ℤ min_off_s elapsed

-- `demand_true_since is not None and (now_mono - demand_true_since) >= activation_delay_s`
abbrev waited : Option ℤ → ℤ → ℤ → Bool
waited none now delay = false
waited (some t) now delay = leb_ℤ delay (now -ℤ t)

-- The limits that the hub's options set.
pub record Timing : Type 0 where
  pub activation_delay_s : ℤ
  pub min_on_s : ℤ
  pub min_off_s : ℤ
  pub keepalive_s : ℤ

unfoldable pub target_boiler_state : Timing → Bool → Bool → Option ℤ → ℤ → ℤ → Bool
unfolding gate_min_cycle
target_boiler_state c demand currently_on demand_true_since now_mono last_switch_mono =
    let desired =
      if not currently_on
      then demand && waited demand_true_since now_mono c.activation_delay_s
      else demand in
    gate_min_cycle desired currently_on last_switch_mono now_mono c.min_on_s c.min_off_s

pub record BoilerState : Type 0 where
  pub on : Bool
  pub last_switch_mono : ℤ
  pub demand_true_since : Option ℤ
  pub last_keepalive_mono : ℤ

-- the defaults: the last switch lies 1e9 s in the past
abbrev pub fresh_state : BoilerState
fresh_state = record {
  on = false;
  last_switch_mono = neg_ℤ (pos 1_000_000_000_000);
  demand_true_since = none;
  last_keepalive_mono = pos 0;
}

pub data Call : Type 0 where
  call_on call_off : Call

abbrev pub call_for : Bool → Call
call_for true = call_on
call_for false = call_off

pub record BoilerStep : Type 0 where
  pub state : BoilerState
  pub call : Option Call

-- the activation latch
unfoldable pub latch : Option ℤ → Bool → ℤ → Option ℤ
latch since false now = none
latch none true now = some now
latch (some t) true now = some t

unfoldable pub step_boiler : Timing → BoilerState → Bool → ℤ → Bool → BoilerStep
unfolding latch target_boiler_state
step_boiler c s demand now_mono allow_keepalive =
    let since = latch s.demand_true_since demand now_mono in
    let target = target_boiler_state c demand s.on since now_mono s.last_switch_mono in
    if not (eq_bool target s.on)
    then record {
      state = record {
        on = target;
        last_switch_mono = now_mono;
        demand_true_since = since;
        last_keepalive_mono = now_mono;
      };
      call = some (call_for target);
    }
    else if allow_keepalive
        && (ltb_ℤ (pos 0) c.keepalive_s && leb_ℤ c.keepalive_s (now_mono -ℤ s.last_keepalive_mono))
    then record {
      state = record s { demand_true_since = since; last_keepalive_mono = now_mono };
      call = some (call_for s.on);
    }
    else record { state = record s { demand_true_since = since }; call = none }

-- one min-cycle transition of another shared resource, such as a compressor group
unfoldable pub step_min_cycle : Bool → ℤ → Bool → ℤ → ℤ → ℤ → Bool × ℤ
unfolding gate_min_cycle
step_min_cycle prev_on prev_switch_mono demand now_mono min_on_s min_off_s =
    let on = gate_min_cycle demand prev_on prev_switch_mono now_mono min_on_s min_off_s in
    (on, if eq_bool on prev_on then prev_switch_mono else now_mono)

-- the boiler's real state from its entity, or `none` where that says nothing
unfoldable pub reconcile_boiler_on : Option String → Option Bool
reconcile_boiler_on none = none
reconcile_boiler_on (some s) =
    if str_eq s "unknown" || str_eq s "unavailable" then none else some (not (str_eq s "off"))

-- the stored form; a payload from elsewhere may lack the switch time
pub record Payload : Type 0 where
  pub boiler_on : Bool
  pub last_switch_wall : Option ℤ
  pub has_actuated : Bool

unfoldable pub boiler_state_to_payload : BoilerState → ℤ → ℤ → Bool → Payload
boiler_state_to_payload s now_mono now_wall has_actuated =
    let elapsed = max_ℤ (pos 0) (now_mono -ℤ s.last_switch_mono) in
    record {
      boiler_on = s.on;
      last_switch_wall = some (now_wall -ℤ elapsed);
      has_actuated = has_actuated;
    }

unfoldable pub restore_on : Bool → Option ℤ → ℤ → ℤ → BoilerState
restore_on on none now_mono now_wall = record fresh_state { on = on }
restore_on on (some wall) now_mono now_wall =
    let elapsed = max_ℤ (pos 0) (now_wall -ℤ wall) in
    record fresh_state { on = on; last_switch_mono = now_mono -ℤ elapsed }

unfoldable pub restore_boiler_state : Option Payload → ℤ → ℤ → BoilerState × Bool
unfolding restore_on
restore_boiler_state none now_mono now_wall = (fresh_state, false)
restore_boiler_state (some p) now_mono now_wall =
    (restore_on p.boiler_on p.last_switch_wall now_mono now_wall, p.has_actuated)
