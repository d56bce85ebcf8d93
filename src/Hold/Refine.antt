-- ===== src/Hold/Refine.antt =====
-- A hold as the user sees it, and what each command of
-- custom_components/poise/control/override_runtime.py does to it: the abstract view of the user's state.
use Prim.Native.String.{String}
use poise_thermostat.Base.{
  ◌≡◌, refl, ◌∙◌, ap, Bool, ◌&&◌, ◌||◌, Option, none, some, List, [], ◌∷◌, arith, if◌then◌else◌,
  is_some, get_or,
}
use poise_thermostat.Base.Int.{ℤ, pos, ◌≤ℤ◌, Float}
use poise_thermostat.Tick.{sanitize_override}
use poise_thermostat.Hold.{
  OverrideMode, OverrideStat, UserState, HoldSettings, set_override, set_override_on,
  set_mode_override, set_preset, end_hold, expire_timed_states, expire_hold, flipped, hold_expired,
  resolve_hold_expiry, or_else,
}
use poise_thermostat.Hold.Lifecycle.{
  IsHold, set_override-IsHold, set_mode_override-IsHold, set_preset-IsHold,
  expire_timed_states-IsHold,
}
use poise_thermostat.Hold.Expiry.{expire_boost-hold}

pub record Held : Type 0 where
  pub value : Option ℤ
  pub mode : Option String
  pub since : ℤ
  pub until : Option ℤ
  pub reason : String

-- A hold runs from its start on, and outlives a mode that is dropped on its own.
unfoldable pub view : UserState → Option Held
view u =
    if is_some u.override_set_wall
    then some (record {
      value = u.override;
      mode = u.mode_override;
      since = get_or u.override_set_wall (pos 0);
      until = u.override_expires_at;
      reason = get_or u.override_reason "";
    })
    else none

-- The commands that bear on a hold, and one that does not.
pub data HoldCommand : Type 0 where
  setpoint :
      Option Float
      → Option String
      → ℤ
      → Option ℤ
      → (ℤ → List OverrideStat → List OverrideStat)
      → HoldCommand
  adopt : String → ℤ → Option ℤ → HoldCommand
  unpin : ℤ → Option ℤ → HoldCommand
  finish : String → HoldCommand
  choose : OverrideMode → ℤ → ℤ → HoldCommand
  check : Option Bool → Option Bool → Bool → ℤ → ℤ → HoldCommand

unfoldable pub exec : HoldSettings → UserState → HoldCommand → UserState
exec c u (setpoint v reason now mins stat) = (set_override c u v reason now mins stat).user
exec c u (adopt mode now mins) = (set_mode_override c u (some mode) now mins).user
exec c u (unpin now mins) = (set_mode_override c u none now mins).user
exec c u (finish reason) = (end_hold u reason).user
exec c u (choose mode dur now) = (set_preset u mode dur now).user
exec c u (check prev home on_presence dur now) =
    (expire_timed_states u prev home on_presence dur now).0.user

-- The same commands on the view.
abbrev mode_held : Option Held → Option String
mode_held none = none
mode_held (some h) = h.mode

abbrev expiry : HoldSettings → ℤ → Option ℤ → Option ℤ
expiry c now mins = resolve_hold_expiry c.policy now c.timer_h c.max_h mins

abbrev without_value : Held → Option Held
without_value h = if is_some h.mode then some (record h { value = none }) else none

abbrev spec_setpoint :
    HoldSettings → Option Held → Option ℤ → Option String → ℤ → Option ℤ → Option Held
spec_setpoint c h (some v) reason now mins = some (record {
  value = some v;
  mode = mode_held h;
  since = now;
  until = expiry c now mins;
  reason = or_else reason "ui_setpoint";
})
spec_setpoint c none none reason now mins = none
spec_setpoint c (some h) none reason now mins = without_value h

abbrev spec_adopt : HoldSettings → Option Held → String → ℤ → Option ℤ → Option Held
spec_adopt c none mode now mins = some (record {
  value = none;
  mode = some mode;
  since = now;
  until = expiry c now mins;
  reason = "device_adopt_mode";
})
spec_adopt c (some h) mode now mins =
    some (record h { mode = some mode; reason = "device_adopt_mode" })

abbrev spec_unpin : Option Held → Option Held
spec_unpin none = none
spec_unpin (some h) = some (record h { mode = none })

abbrev spec_check : Option Held → Bool → Bool → ℤ → Option Held
spec_check none changed on_presence now = none
spec_check (some h) changed on_presence now =
    if (is_some h.value || is_some h.mode) && hold_expired h.until now changed on_presence
    then none
    else some h

unfoldable pub spec : HoldSettings → Option Held → HoldCommand → Option Held
spec c h (setpoint v reason now mins stat) =
    spec_setpoint c h (sanitize_override v c.frost_floor c.device_max) reason now mins
spec c h (adopt mode now mins) = spec_adopt c h mode now mins
spec c h (unpin now mins) = spec_unpin h
spec c h (finish reason) = none
spec c h (choose mode dur now) = h
spec c h (check prev home on_presence dur now) = spec_check h (flipped prev home) on_presence now

module _ (c : HoldSettings) where
  view-set_override_on :
      (u : UserState) (clamped : Option ℤ) (v : Option Float) (reason : Option String) (now : ℤ)
      (mins : Option ℤ) (stat : ℤ → List OverrideStat → List OverrideStat)
      → IsHold c u
      → view (set_override_on c u clamped v reason now mins stat).user
        ≡ spec_setpoint c (view u) clamped reason now mins
  unfolding set_override_on view
  view-set_override_on u (some w) v reason now mins stat h = ground (arith, h)
  view-set_override_on u none v reason now mins stat h = ground (arith, h)

  view-set_mode_override :
      (u : UserState) (mode : String) (now : ℤ) (mins : Option ℤ)
      → IsHold c u
      → view (set_mode_override c u (some mode) now mins).user ≡ spec_adopt c (view u) mode now mins
  unfolding set_mode_override view
  view-set_mode_override u mode now mins h = ground (arith, h)

  view-unpin :
      (u : UserState) (now : ℤ) (mins : Option ℤ)
      → view (set_mode_override c u none now mins).user ≡ spec_unpin (view u)
  unfolding set_mode_override view
  view-unpin u now mins = ground arith

  view-check :
      (u : UserState) (prev home : Option Bool) (on_presence : Bool) (dur now : ℤ)
      → IsHold c u
      → view (expire_timed_states u prev home on_presence dur now).0.user
        ≡ spec_check (view u) (flipped prev home) on_presence now
  unfolding expire_timed_states expire_hold view
  view-check u prev home on_presence dur now h = ground (arith, expire_boost-hold u now dur, h)

  view-set_preset :
      (u : UserState) (mode : OverrideMode) (dur now : ℤ)
      → view (set_preset u mode dur now).user ≡ view u
  unfolding set_preset view
  view-set_preset u mode dur now = ground arith

  view-exec : (u : UserState) (k : HoldCommand) → IsHold c u → view (exec c u k) ≡ spec c (view u) k
  unfolding exec spec set_override end_hold view
  view-exec u (setpoint v reason now mins stat) h =
      view-set_override_on u (sanitize_override v c.frost_floor c.device_max) v reason now mins stat
        h
  view-exec u (adopt mode now mins) h = view-set_mode_override u mode now mins h
  view-exec u (unpin now mins) h = view-unpin u now mins
  view-exec u (finish reason) h = refl
  view-exec u (choose mode dur now) h = view-set_preset u mode dur now
  view-exec u (check prev home on_presence dur now) h = view-check u prev home on_presence dur now h

unfoldable pub exec_all : HoldSettings → UserState → List HoldCommand → UserState
exec_all c u [] = u
exec_all c u (k ∷ ks) = exec_all c (exec c u k) ks

unfoldable pub spec_all : HoldSettings → Option Held → List HoldCommand → Option Held
spec_all c h [] = h
spec_all c h (k ∷ ks) = spec_all c (spec c h k) ks

module _ (c : HoldSettings) (order : c.frost_floor ≤ℤ c.device_max) where
  exec-IsHold : (u : UserState) (k : HoldCommand) → IsHold c u → IsHold c (exec c u k)
  unfolding exec end_hold
  exec-IsHold u (setpoint v reason now mins stat) h =
      set_override-IsHold c order u v reason now mins stat h
  exec-IsHold u (adopt mode now mins) h = set_mode_override-IsHold c order u (some mode) now mins h
  exec-IsHold u (unpin now mins) h = set_mode_override-IsHold c order u none now mins h
  exec-IsHold u (finish reason) h = (refl, refl, refl, refl, refl, tt)
  exec-IsHold u (choose mode dur now) h = set_preset-IsHold c order u mode dur now h
  exec-IsHold u (check prev home on_presence dur now) h =
      expire_timed_states-IsHold c order u prev home on_presence dur now h

  -- Over every series of commands that set or clear a setpoint, adopt a mode, drop it on its own,
  -- end the hold, choose a preset or check the expiry, from a state whose hold fields are
  -- consistent, the running hold is what the abstract commands on one optional hold, with its value,
  -- mode, start, end and reason, make of it; a hold whose mode is dropped runs on without one, and
  -- does not expire while it holds nothing. The frost floor does not exceed the device maximum.
  pub view-exec_all :
      (u : UserState) (ks : List HoldCommand)
      → IsHold c u
      → view (exec_all c u ks) ≡ spec_all c (view u) ks
  unfolding exec_all spec_all
  view-exec_all u [] h = refl
  view-exec_all u (k ∷ ks) h =
      view-exec_all (exec c u k) ks (exec-IsHold u k h)
      ∙ ap (λ s. spec_all c s ks) (view-exec c u k h)
