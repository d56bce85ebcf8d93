-- ===== src/Compressor.antt =====
-- The compressor guard: custom_components/poise/multi/lifecycle.py, with `DeviceRuntime` of
-- multi/resolvers.py.  Times are thousandths of a second on the wall clock.
pub mod Rest
use Prim.Native.String.{String}
use text.Mathlib.Text.{◌==◌ as str_eq}
use poise_thermostat.Base.{
  ℕ, Bool, true, false, not, ◌&&◌, ◌||◌, Option, none, some, List, [], ◌∷◌, ◌++◌, map,
  if◌then◌else◌, leb, length, keep, any_of, is_some,
}
use poise_thermostat.Base.Int.{ℤ, pos, ◌+ℤ◌, ◌-ℤ◌, ltb_ℤ, leb_ℤ, max_ℤ, seconds}
use poise_thermostat.Tick.{is_text}

-- DEFAULT_MIN_ON_S of multi/model.py
abbrev pub default_min_on_s : ℤ
default_min_on_s = seconds 120

-- _STARTS_WINDOW_S, _CLOCK_SKEW_TOLERANCE_S
abbrev pub starts_window_s : ℤ
starts_window_s = seconds 3_600

abbrev pub clock_skew_tolerance_s : ℤ
clock_skew_tolerance_s = seconds 120

pub record LifecyclePolicy : Type 0 where
  pub min_on_s : ℤ
  pub min_off_s : ℤ
  pub min_mode_hold_s : ℤ
  pub max_starts_per_h : Option ℕ

-- The values of an echo are texts here.
pub record DeviceLifecycle : Type 0 where
  pub is_on : Bool
  pub last_on_wall : Option ℤ
  pub last_off_wall : Option ℤ
  pub last_mode : Option String
  pub mode_changed_wall : Option ℤ
  pub starts_window : List ℤ
  pub expected_echo : List (String × String)
  pub health : String

abbrev pub fresh_device : DeviceLifecycle
fresh_device = record {
  is_on = false;
  last_on_wall = none;
  last_off_wall = none;
  last_mode = none;
  mode_changed_wall = none;
  starts_window = [];
  expected_echo = [];
  health = "ok";
}

unfoldable pub prune_starts : List ℤ → ℤ → List ℤ
prune_starts starts now = keep (λ t. leb_ℤ (now -ℤ t) starts_window_s) starts

unfoldable pub clamp_future : ℤ → ℤ → ℤ
clamp_future t now = if ltb_ℤ (now +ℤ clock_skew_tolerance_s) t then now else t

-- `mode is not None and mode != state.last_mode`
abbrev pub new_mode : Option String → Option String → Bool
new_mode none last = false
new_mode (some m) last = not (is_text last m)

pub record Observation : Type 0 where
  pub conditioning : Bool
  pub mode : Option String
  pub now : ℤ
  pub health : String

unfoldable pub observe_device : DeviceLifecycle → Observation → DeviceLifecycle
unfolding prune_starts
observe_device s o = record {
  is_on = o.conditioning;
  last_on_wall = if o.conditioning && not s.is_on then some o.now else s.last_on_wall;
  last_off_wall = if not o.conditioning && s.is_on then some o.now else s.last_off_wall;
  last_mode = if new_mode o.mode s.last_mode then o.mode else s.last_mode;
  mode_changed_wall = if new_mode o.mode s.last_mode then some o.now else s.mode_changed_wall;
  starts_window =
      prune_starts
        (if o.conditioning && not s.is_on
          then prune_starts s.starts_window o.now ++ (o.now ∷ [])
          else s.starts_window)
        o.now;
  expected_echo = s.expected_echo;
  health = o.health;
}

-- what is left of `span` since `t`
abbrev left : Option ℤ → ℤ → ℤ → ℤ
left none now span = pos 0
left (some t) now span = max_ℤ (pos 0) (span -ℤ (now -ℤ t))

unfoldable pub min_off_remaining : DeviceLifecycle → ℤ → LifecyclePolicy → ℤ
unfolding max_ℤ
min_off_remaining s now p = if s.is_on then pos 0 else left s.last_off_wall now p.min_off_s

unfoldable pub min_on_remaining : DeviceLifecycle → ℤ → LifecyclePolicy → ℤ
unfolding max_ℤ
min_on_remaining s now p = if not s.is_on then pos 0 else left s.last_on_wall now p.min_on_s

unfoldable pub mode_hold_remaining : DeviceLifecycle → ℤ → LifecyclePolicy → ℤ
unfolding max_ℤ
mode_hold_remaining s now p = left s.mode_changed_wall now p.min_mode_hold_s

unfoldable pub starts_in_last_hour : DeviceLifecycle → ℤ → ℕ
unfolding prune_starts
starts_in_last_hour s now = length (prune_starts s.starts_window now)

abbrev starts_capped : Option ℕ → ℕ → Bool
starts_capped none n = false
starts_capped (some cap) n = leb cap n

unfoldable pub max_starts_blocked : DeviceLifecycle → ℤ → LifecyclePolicy → Bool
unfolding starts_in_last_hour
max_starts_blocked s now p = starts_capped p.max_starts_per_h (starts_in_last_hour s now)

-- `observed_echo.get(k)`
unfoldable pub echo_of : String → List (String × String) → Option String
echo_of k [] = none
echo_of k ((j, v) ∷ l) = if str_eq j k then some v else echo_of k l

unfoldable pub is_external_override : DeviceLifecycle → List (String × String) → Bool
unfolding echo_of
is_external_override s observed =
    any_of (λ e. not (is_text (echo_of e.0 observed) e.1)) s.expected_echo

pub record DeviceRuntime : Type 0 where
  pub health : String
  pub min_off_active : Bool
  pub mode_hold_active : Bool
  pub external_override : Bool

abbrev overridden : DeviceLifecycle → Option (List (String × String)) → Bool
overridden s none = false
overridden s (some observed) = is_external_override s observed

unfoldable pub to_runtime :
    DeviceLifecycle → ℤ → LifecyclePolicy → Option (List (String × String)) → DeviceRuntime
unfolding min_off_remaining max_starts_blocked mode_hold_remaining is_external_override
to_runtime s now p observed = record {
  health = s.health;
  min_off_active = ltb_ℤ (pos 0) (min_off_remaining s now p) || max_starts_blocked s now p;
  mode_hold_active = ltb_ℤ (pos 0) (mode_hold_remaining s now p);
  external_override = overridden s observed;
}

abbrev clamped : Option ℤ → ℤ → Option ℤ
clamped none now = none
clamped (some t) now = some (clamp_future t now)

-- `from_dict`: the stored fields are those of the state
unfoldable pub restore_device : DeviceLifecycle → ℤ → DeviceLifecycle
unfolding clamp_future prune_starts
restore_device d now = record d {
  last_on_wall = clamped d.last_on_wall now;
  last_off_wall = clamped d.last_off_wall now;
  mode_changed_wall = clamped d.mode_changed_wall now;
  starts_window = prune_starts (map (λ t. clamp_future t now) d.starts_window) now;
}

unfoldable pub compressor_conditioning : Option String → Bool
compressor_conditioning mode = is_text mode "cool" || is_text mode "dry"

unfoldable pub compressor_running : Option String → Option String → Bool
compressor_running (some action) intended =
    str_eq action "cooling" || (str_eq action "drying" || str_eq action "heating")
compressor_running none intended =
    is_text intended "cool" || (is_text intended "dry" || is_text intended "heat")

-- The reasons, which the source writes as texts with the seconds that remain.
pub data BlockReason : Type 0 where
  min_off mode_hold : ℤ → BlockReason

unfoldable pub mode_nudge_block_reason : String → Option String → ℤ → ℤ → Bool → Option BlockReason
unfolding compressor_conditioning
mode_nudge_block_reason desired current off_left hold_left is_safety =
    let want = compressor_conditioning (some desired) in
    let have = compressor_conditioning current in
    if is_safety
    then none
    else if want && (not have && ltb_ℤ (pos 0) off_left)
    then some (min_off off_left)
    else if want && (have && (not (is_text current desired) && ltb_ℤ (pos 0) hold_left))
    then some (mode_hold hold_left)
    else none

unfoldable pub resolve_guard_policy : Bool → Bool → ℤ → ℤ → Option LifecyclePolicy
resolve_guard_policy enabled can_condition min_off_s mode_hold_s =
    if not enabled || not can_condition
    then none
    else some (record {
      min_on_s = default_min_on_s;
      min_off_s = min_off_s;
      min_mode_hold_s = mode_hold_s;
      max_starts_per_h = none;
    })

unfoldable pub guard_block_reason :
    Option LifecyclePolicy
    → DeviceLifecycle
    → ℤ
    → String
    → Option String
    → Bool
    → Option BlockReason
unfolding mode_nudge_block_reason min_off_remaining mode_hold_remaining
guard_block_reason none s now desired current is_safety = none
guard_block_reason (some p) s now desired current is_safety =
    mode_nudge_block_reason desired current (min_off_remaining s now p)
      (mode_hold_remaining s now p) is_safety
