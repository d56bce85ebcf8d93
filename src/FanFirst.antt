-- ===== src/FanFirst.antt =====
-- custom_components/poise/control/fan_first.py: the fan before the compressor, as an automaton that
-- waits for the device to report each step.  Times are thousandths of a second, temperatures
-- thousandths of a degree and air speeds millionths of a metre per second.  The phase of the source
-- is a string; an `assert` that fails is `none`.
pub mod Run
pub mod Stage
use Prim.Native.String.{String}
use text.Mathlib.Text.{◌==◌ as str_eq}
use poise_thermostat.Base.{
  ◌*◌, Bool, true, false, not, ◌&&◌, ◌||◌, Option, none, some, List, [], ◌∷◌, if◌then◌else◌, any_of,
  is_some,
}
use poise_thermostat.Base.Int.{ℤ, pos, ◌+ℤ◌, ◌-ℤ◌, ◌*ℤ◌, ltb_ℤ, leb_ℤ, seconds}
use poise_thermostat.Tick.{is_text}

abbrev pub fan_echo_timeout_s : ℤ
fan_echo_timeout_s = seconds 180

abbrev pub fan_dwell_min_s : ℤ
fan_dwell_min_s = seconds 600

abbrev pub fan_first_timeout_s : ℤ
fan_first_timeout_s = seconds 1800

abbrev pub fast_rise_k : ℤ
fast_rise_k = pos 500

abbrev pub heat_limit_c : ℤ
heat_limit_c = pos 35_000

abbrev pub reentry_block_s : ℤ
reentry_block_s = seconds 900

-- `_CLAMP_LOW_MS`
abbrev pub clamp_low_ms : ℤ
clamp_low_ms = pos 200_000

unfoldable pub max_stage_velocity : ℤ → ℤ
max_stage_velocity operative =
    if ltb_ℤ operative (pos 23_000)
    then clamp_low_ms
    else if leb_ℤ (pos 25_500) operative
    then pos 800_000
    else clamp_low_ms +ℤ ((operative -ℤ pos 23_000) *ℤ pos 240)

-- An advertised fan mode: its label, whether `label.lower()` is "auto", and its entry in the table of
-- known velocities.
pub record FanMode : Type 0 where
  pub label : String
  pub is_auto : Bool
  pub velocity : Option ℤ

abbrev velocity_in : ℤ → ℤ → Bool
velocity_in max_velocity v = ltb_ℤ clamp_low_ms v && leb_ℤ v max_velocity

-- the guard of the loop: the velocity of a mode that may be taken
unfoldable pub usable : ℤ → FanMode → Option ℤ
usable max_velocity f = elim f.velocity [
  | none ↦ none
  | some v ↦ if not f.is_auto && velocity_in max_velocity v then some v else none
]

abbrev faster : ℤ → Option (ℤ × String) → Bool
faster v none = true
faster v (some (b, _)) = ltb_ℤ b v

-- one round of the loop, on the best mode so far
unfoldable pub better_stage : ℤ → Option (ℤ × String) → FanMode → Option (ℤ × String)
unfolding usable
better_stage max_velocity best f = elim (usable max_velocity f) [
  | none ↦ best
  | some v ↦ if faster v best then some (v, f.label) else best
]

unfoldable pub best_stage : ℤ → Option (ℤ × String) → List FanMode → Option (ℤ × String)
unfolding better_stage
best_stage max_velocity best [] = best
best_stage max_velocity best (f ∷ fs) =
    best_stage max_velocity (better_stage max_velocity best f) fs

abbrev label_of : Option (ℤ × String) → Option String
label_of none = none
label_of (some (_, l)) = some l

unfoldable pub select_fan_stage : List FanMode → ℤ → Option String
unfolding best_stage
select_fan_stage modes max_velocity = label_of (best_stage max_velocity none modes)

pub data Phase : Type 0 where
  idle await_fan_only await_stage dwell yielded : Phase

pub record FanFirstState : Type 0 where
  pub phase : Phase
  pub engaged_at : Option ℤ
  pub phase_at : Option ℤ
  pub stage : Option String
  pub room_at_entry : Option ℤ
  pub entry_fan_mode : Option String
  pub blocked_until : Option ℤ

abbrev pub fresh_fan : FanFirstState
fresh_fan = record {
  phase = idle;
  engaged_at = none;
  phase_at = none;
  stage = none;
  room_at_entry = none;
  entry_fan_mode = none;
  blocked_until = none;
}

pub data Command : Type 0 where
  no_command fan_only set_stage cool release : Command

-- `FanFirstDecision`, whose reason is a text for the diagnostics
pub record FanFirstDecision : Type 0 where
  pub state : FanFirstState
  pub command : Command
  pub reason : String
  pub restore_stage : Option String

-- What a tick hands to the automaton.
pub record FanInput : Type 0 where
  pub now : ℤ
  pub cool_requested : Bool
  pub fan_first_allowed : Bool
  pub fan_only_capable : Bool
  pub observed_hvac_mode : Option String
  pub observed_hvac_action : Option String
  pub observed_fan_mode : Option String
  pub advertised_modes : List FanMode
  pub operative : ℤ
  pub room : ℤ
  pub presence_ok : Bool
  pub window_open : Bool
  pub in_comfort_window : Bool
  pub foreign_fan_change : Bool

abbrev eq_text : Option String → Option String → Bool
eq_text none none = true
eq_text none (some _) = false
eq_text (some s) o = is_text o s

abbrev entry_or_auto : Option String → Bool → Option String
entry_or_auto (some e) auto = some e
entry_or_auto none auto = if auto then some "auto" else none

unfoldable pub restore_target : FanFirstState → FanInput → Option String
restore_target s i =
    let target = entry_or_auto s.entry_fan_mode (any_of (λ f. f.is_auto) i.advertised_modes) in
    if not (is_some s.stage) || not (eq_text i.observed_fan_mode s.stage)
    then none
    else if not (is_some target) || eq_text target i.observed_fan_mode
    then none
    else target

-- `_released` and `_yielded`
unfoldable pub released : ℤ → String → Option String → FanFirstDecision
released now reason restore = record {
  state = record fresh_fan { blocked_until = some (now +ℤ reentry_block_s) };
  command = release;
  reason = reason;
  restore_stage = restore;
}

unfoldable pub yield_to_cool : FanFirstState → ℤ → String → Option String → FanFirstDecision
yield_to_cool s now reason restore = record {
  state = record s { phase = yielded; phase_at = some now };
  command = cool;
  reason = reason;
  restore_stage = restore;
}

abbrev hold : FanFirstState → String → FanFirstDecision
hold s reason = record { state = s; command = no_command; reason = reason; restore_stage = none }

abbrev chosen : FanInput → Option String
chosen i = select_fan_stage i.advertised_modes (max_stage_velocity i.operative)

abbrev not_cooling : Option String → Bool
not_cooling none = false
not_cooling (some a) = not (str_eq a "cooling")

abbrev unblocked : Option ℤ → ℤ → Bool
unblocked none now = true
unblocked (some b) now = leb_ℤ b now

unfoldable pub entry_ok : FanFirstState → FanInput → Bool
unfolding select_fan_stage max_stage_velocity
entry_ok s i =
    i.cool_requested
    && (i.fan_first_allowed
        && (i.fan_only_capable
            && (i.presence_ok
                && (not i.window_open
                    && (i.in_comfort_window
                        && (ltb_ℤ i.room heat_limit_c
                            && (not_cooling i.observed_hvac_action
                                && (is_some (chosen i) && unblocked s.blocked_until i.now))))))))

unfoldable pub decide_idle : FanFirstState → FanInput → FanFirstDecision
unfolding entry_ok
decide_idle s i = if not (entry_ok s i) then hold s "idle" else record {
  state = record fresh_fan {
    phase = await_fan_only;
    engaged_at = some i.now;
    phase_at = some i.now;
    room_at_entry = some i.room;
    entry_fan_mode = i.observed_fan_mode;
  };
  command = fan_only;
  reason = "engage";
  restore_stage = none;
}

-- the `await_fan_only` phase once `fan_only` has been observed
unfoldable pub on_fan_only :
    FanFirstState → FanInput → Option String → Option String → FanFirstDecision
unfolding yield_to_cool
on_fan_only s i none restore = yield_to_cool s i.now "stage_lost" restore
on_fan_only s i (some stage) restore =
    if is_text i.observed_fan_mode stage
    then hold (record s { phase = dwell; stage = some stage; phase_at = some i.now }) "dwell"
    else record {
      state = record s { phase = await_stage; stage = some stage; phase_at = some i.now };
      command = set_stage;
      reason = "stage_request";
      restore_stage = none;
    }

-- the three phases behind the common exits, `phase_at` and `room_at_entry` read
unfoldable pub advance : Phase → FanFirstState → FanInput → ℤ → ℤ → Option String → FanFirstDecision
unfolding on_fan_only yield_to_cool select_fan_stage max_stage_velocity
advance await_fan_only s i phase_at room_at_entry restore =
    if is_text i.observed_hvac_mode "fan_only"
    then on_fan_only s i (chosen i) restore
    else if ltb_ℤ fan_echo_timeout_s (i.now -ℤ phase_at)
    then yield_to_cool s i.now "echo_timeout" restore
    else hold s "await_echo"
advance await_stage s i phase_at room_at_entry restore =
    if eq_text i.observed_fan_mode s.stage
    then hold (record s { phase = dwell; phase_at = some i.now }) "dwell"
    else if ltb_ℤ fan_echo_timeout_s (i.now -ℤ phase_at)
    then yield_to_cool s i.now "stage_echo_timeout" restore
    else hold s "await_echo"
advance dwell s i phase_at room_at_entry restore =
    if leb_ℤ fan_dwell_min_s (i.now -ℤ phase_at) && leb_ℤ room_at_entry i.room
    then yield_to_cool s i.now "no_progress" restore
    else hold s "dwelling"
advance _ s i phase_at room_at_entry restore = hold s "yielded"

-- the exits that every engaged phase has, then the phase itself
unfoldable pub decide_engaged : FanFirstState → FanInput → ℤ → ℤ → ℤ → FanFirstDecision
unfolding restore_target released yield_to_cool advance
decide_engaged s i engaged_at phase_at room_at_entry =
    let restore = restore_target s i in
    if i.foreign_fan_change
    then released i.now "foreign_fan_change" none
    else if not i.cool_requested
    then released i.now "demand_ended" restore
    else if i.window_open
    then released i.now "window_open" restore
    else if not i.fan_first_allowed
        || (not i.presence_ok || (not i.in_comfort_window || leb_ℤ heat_limit_c i.room))
    then yield_to_cool s i.now "guard_lost" restore
    else if ltb_ℤ fan_first_timeout_s (i.now -ℤ engaged_at)
    then yield_to_cool s i.now "timeout" restore
    else if ltb_ℤ fast_rise_k (i.room -ℤ room_at_entry)
    then yield_to_cool s i.now "fast_rise" restore
    else advance s.phase s i phase_at room_at_entry restore

-- the assertions on an engaged state
unfoldable pub assert_engaged :
    FanFirstState → FanInput → Option ℤ → Option ℤ → Option ℤ → Option FanFirstDecision
unfolding decide_engaged
assert_engaged s i (some e) (some p) (some r) = some (decide_engaged s i e p r)
assert_engaged s i (some e) (some p) none = none
assert_engaged s i (some e) none r = none
assert_engaged s i none p r = none

unfoldable pub decide_yielded : FanFirstState → FanInput → FanFirstDecision
decide_yielded s i =
    if not i.cool_requested
    then record {
      state = record fresh_fan { blocked_until = some (i.now +ℤ reentry_block_s) };
      command = no_command;
      reason = "reset";
      restore_stage = none;
    }
    else hold s "yielded"

abbrev pub engaged : Phase → Bool
engaged idle = false
engaged yielded = false
engaged _ = true

unfoldable pub decide_on : Phase → FanFirstState → FanInput → Option FanFirstDecision
unfolding decide_idle decide_yielded assert_engaged
decide_on idle s i = some (decide_idle s i)
decide_on yielded s i = some (decide_yielded s i)
decide_on _ s i = assert_engaged s i s.engaged_at s.phase_at s.room_at_entry

unfoldable pub fan_first_decision : FanFirstState → FanInput → Option FanFirstDecision
unfolding decide_on
fan_first_decision s i = decide_on s.phase s i
