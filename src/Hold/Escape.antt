-- ===== src/Hold/Escape.antt =====
-- How a hold that the device reported ends at the device again
-- (custom_components/poise/control/external_override.py).
use Prim.Native.String.{String}
use poise_thermostat.Base.{
  ◌≡◌, refl, ap, ◌∙◌, true, false, not, ◌&&◌, ◌||◌, none, some, [], ◌∷◌, arith,
}
use poise_thermostat.Tick.{is_text}
use poise_thermostat.Override.{External, is_own_write, observe_mode}
use poise_thermostat.Hold.{UserState, HoldSettings, end_hold}
use poise_thermostat.Hold.Lifecycle.{hold_active}
use poise_thermostat.Hold.Stages.{
  HoldRouting, ActuatorState, ModeInput, ModeAdoption, switched_on, stage_hold_routing,
  stage_mode_adoption, planned_mode,
}

-- the two stages of a tick in their order
abbrev pub routed_user : UserState → External → ActuatorState → UserState
routed_user u e act = (stage_hold_routing u e act).1.user

abbrev pub mode_tick :
    HoldSettings → UserState → External → ModeInput → ActuatorState → ModeAdoption
mode_tick c u e i act =
    stage_mode_adoption c (routed_user u e act) e i act (stage_hold_routing u e act).0

stage_hold_routing-resumes :
    (u : UserState) (e : External) (act : ActuatorState)
    → is_text u.mode_override "off" && (not (is_own_write e act.context_id) && switched_on act.mode)
      ≡ true
    → ((stage_hold_routing u e act).1 ≡ end_hold u "user_resume")
      × ((stage_hold_routing u e act).0.resumed ≡ true)
unfolding stage_hold_routing
stage_hold_routing-resumes u e act h = rw h (refl, refl)

stage_mode_adoption-resumed :
    (c : HoldSettings) (u : UserState) (e : External) (i : ModeInput) (act : ActuatorState)
    (r : HoldRouting)
    → r.resumed ≡ true
    → u.mode_override ≡ none
    → ((stage_mode_adoption c u e i act r).result.user ≡ u)
      × ((stage_mode_adoption c u e i act r).result.events ≡ [])
      × ((stage_mode_adoption c u e i act r).desired_hvac ≡ planned_mode i act)
unfolding stage_mode_adoption observe_mode
stage_mode_adoption-resumed c u e i act r h m = ground (arith, h, m)

ended : (u : UserState) (reason : String) → hold_active (end_hold u reason).user ≡ false
unfolding end_hold
ended u reason = refl

ended_mode : (u : UserState) (reason : String) → (end_hold u reason).user.mode_override ≡ none
unfolding end_hold
ended_mode u reason = refl

ended_event : (u : UserState) → (end_hold u "user_resume").events ≡ "user_resume" ∷ []
unfolding end_hold
ended_event u = refl

-- Where the zone is held off and the device reports, not under one of our contexts, a usable mode
-- other than off, the tick ends the hold with one event, adopts nothing in its place and wants the
-- planned mode.
mode_tick-resumes :
    (c : HoldSettings) (u : UserState) (e : External) (i : ModeInput) (act : ActuatorState)
    → u.mode_override ≡ some "off"
    → is_own_write e act.context_id ≡ false
    → switched_on act.mode ≡ true
    → (hold_active (mode_tick c u e i act).result.user ≡ false)
      × ((stage_hold_routing u e act).1.events ≡ "user_resume" ∷ [])
      × ((mode_tick c u e i act).result.events ≡ [])
      × ((mode_tick c u e i act).desired_hvac ≡ planned_mode i act)
mode_tick-resumes c u e i act off foreign on =
    let holds : is_text u.mode_override "off" ≡ true = ap (λ m. is_text m "off") off in
    let (routed, resumed) =
      stage_hold_routing-resumes u e act (ground (arith, holds, foreign, on)) in
    let clear : (routed_user u e act).mode_override ≡ none =
      ap (λ z. z.user.mode_override) routed ∙ ended_mode u "user_resume" in
    let (kept, quiet, planned) =
      stage_mode_adoption-resumed c (routed_user u e act) e i act (stage_hold_routing u e act).0
        resumed clear in
    (
      ap hold_active kept ∙ ap (λ z. hold_active z.user) routed ∙ ended u "user_resume",
      ap (λ z. z.events) routed ∙ ended_event u,
      quiet,
      planned,
    )

-- While a window is open, the sensor is frozen or the change is our own, the mode stage leaves the
-- user's state alone and sends no event, and with a window open or the sensor frozen no hold pins
-- the mode.
stage_mode_adoption-keeps :
    (c : HoldSettings) (u : UserState) (e : External) (i : ModeInput) (act : ActuatorState)
    (r : HoldRouting)
    → (i.window_open || i.frozen) || r.own_change ≡ true
    → ((stage_mode_adoption c u e i act r).result.user ≡ u)
      × ((stage_mode_adoption c u e i act r).result.events ≡ [])
      × (i.window_open || i.frozen ≡ true
          → (stage_mode_adoption c u e i act r).desired_hvac ≡ planned_mode i act)
unfolding stage_mode_adoption observe_mode
stage_mode_adoption-keeps c u e i act r h = ground (arith, h)
