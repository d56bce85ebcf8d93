-- ===== src/Episode/Step.antt =====
-- One tick of the airing episode: `episode_step` of custom_components/poise/comfort/vent_episode.py, with
-- a function for each phase.
use text.Mathlib.Text.{◌==◌ as str_eq}
use poise_thermostat.Base.{◌+◌, Bool, true, false, not, ◌&&◌, ◌||◌, if◌then◌else◌}
use poise_thermostat.Base.Int.{pos, ◌+ℤ◌, leb_ℤ}
use poise_thermostat.Episode.{
  EpisodePhase, phase_idle, phase_requested, phase_ventilating, phase_stop_requested,
  phase_cooldown, in_idle, EpisodeConfig, EpisodeState, is_protection, token_in, protection_open,
  reason_airing_done, CooldownCause, emergency, expired, manual, regular, prompt_due, spend, enter,
}
use poise_thermostat.Ventilation.{VentAction, action_open, action_close}
use poise_thermostat.Episode.Moves.{
  EpisodeTick, EpisodeResult, tick_min, openish, closedish, inferred_open, unobserved, wants_open,
  wants_close, protection_abort, resolver_quiet, out, quiet, begin, ring, stop, leftover, settle,
  ventilate,
}

unfoldable pub step_idle : EpisodeConfig → EpisodeTick → EpisodeState → EpisodeResult
unfolding begin ring quiet out
step_idle cfg k s =
    if wants_open k
    then if openish cfg k
      then out cfg k
          (record (begin cfg k s phase_ventilating) {
            reason = k.reason;
            owner = k.reason;
            level = k.level;
            prompts = 0;
            entry_inferred = inferred_open cfg k;
          })
          action_open k.reason k.level false
      else ring cfg k
          (record (begin cfg k s phase_requested) {
            reason = k.reason;
            owner = k.reason;
            level = k.level;
          })
          action_open k.reason k.level
    else if wants_close k && openish cfg k
    then ring cfg k
        (record (begin cfg k s phase_stop_requested) {
          reason = k.reason;
          owner = "";
          level = k.level;
          emergency = protection_abort k;
          entry_inferred = inferred_open cfg k;
        })
        action_close k.reason k.level
    else quiet cfg k s

unfoldable pub wake : EpisodeState → EpisodeState
unfolding enter
wake s = record (enter s phase_idle) {
  reason = "";
  owner = "";
  level = "ok";
  prompts = 0;
  episode_prompts = 0;
  protected = false;
  emergency = false;
  cooldown_scope = "";
  cooldown_for_min = pos 0;
  pending_reason = "";
}

unfoldable pub cooldown_ends : EpisodeTick → EpisodeState → Bool
cooldown_ends k s =
    (wants_open k && token_in k.reason protection_open)
    || (protection_abort k
        || ((wants_open k
              && (not (str_eq s.cooldown_scope "") && not (str_eq k.reason s.cooldown_scope)))
            || leb_ℤ s.cooldown_for_min s.phase_min))

unfoldable pub step_cooldown : EpisodeConfig → EpisodeTick → EpisodeState → EpisodeResult
unfolding step_idle wake quiet out
step_cooldown cfg k s =
    let noted = record s { pending_reason = leftover k } in
    if cooldown_ends k s
    then step_idle cfg k (wake noted)
    else if wants_close k
    then out cfg k noted action_close k.reason k.level false
    else quiet cfg k noted

-- a prompt of the budget, where one is due
unfoldable pub remind : EpisodeConfig → EpisodeTick → EpisodeState → VentAction → EpisodeResult
unfolding spend out
remind cfg k s a =
    if prompt_due s cfg
    then out cfg k (spend s) a s.reason s.level true
    else out cfg k s a s.reason s.level false

unfoldable pub step_requested : EpisodeConfig → EpisodeTick → EpisodeState → EpisodeResult
unfolding ventilate stop settle ring quiet out remind enter
step_requested cfg k s =
    let named = record s { reason = k.reason; owner = k.reason; level = k.level } in
    if openish cfg k
    then if wants_open k
      then out cfg k (ventilate cfg k s) action_open k.reason k.level false
      else if wants_close k
      then ring cfg k (stop cfg k s k.reason (protection_abort k) k.level) action_close k.reason
          k.level
      else ring cfg k (stop cfg k s reason_airing_done false "ok") action_close reason_airing_done
          "ok"
    else if not (wants_open k)
    then if closedish cfg k
      then quiet cfg k
          (record (enter s phase_idle) { reason = ""; owner = ""; level = "ok"; prompts = 0 })
      else ring cfg k (stop cfg k s reason_airing_done false "ok") action_close reason_airing_done
          "ok"
    else if closedish cfg k
        && (leb_ℤ cfg.request_ttl_min s.phase_min && not (is_protection k.reason))
    then quiet cfg k (settle cfg k named expired "")
    else remind cfg k named action_open

unfoldable pub step_ventilating : EpisodeConfig → EpisodeTick → EpisodeState → EpisodeResult
unfolding stop settle ring quiet out
step_ventilating cfg k s =
    if closedish cfg k
    then quiet cfg k (settle cfg k s manual "")
    else if wants_open k
    then out cfg k (record s { reason = k.reason; owner = k.reason; level = k.level }) action_open
        k.reason k.level false
    else if wants_close k
    then ring cfg k (stop cfg k s k.reason (protection_abort k) k.level) action_close k.reason
        k.level
    else ring cfg k (stop cfg k s reason_airing_done false "ok") action_close reason_airing_done
        "ok"

abbrev pub ended : Bool → CooldownCause → CooldownCause
ended abort other = if abort then emergency else other

-- the advice of a stop that stands, after a close of the rule table
unfoldable pub renew_stop : EpisodeTick → EpisodeState → EpisodeState
renew_stop k s =
    if not (wants_close k)
    then s
    else if protection_abort k || not s.emergency
    then record s {
      reason = k.reason;
      level = k.level;
      emergency = s.emergency || protection_abort k;
    }
    else s

-- the close that stands, and its escalation
unfoldable pub insist : EpisodeConfig → EpisodeTick → EpisodeState → EpisodeResult
unfolding renew_stop remind out
insist cfg k s =
    let s' = renew_stop k s in
    if protection_abort k && not s.emergency
    then out cfg k (record s' { escalations = s'.escalations + 1 }) action_close s'.reason s'.level
        true
    else remind cfg k s' action_close

-- a stop that a new reason to open cancels
unfoldable pub reopen : EpisodeConfig → EpisodeTick → EpisodeState → EpisodeResult
unfolding ventilate enter ring out
reopen cfg k s =
    if openish cfg k
    then out cfg k (ventilate cfg k s) action_open k.reason k.level false
    else ring cfg k
        (record (enter s phase_requested) { reason = k.reason; owner = k.reason; level = k.level })
        action_open k.reason k.level

unfoldable pub step_stop : EpisodeConfig → EpisodeTick → EpisodeState → EpisodeResult
unfolding settle reopen quiet out insist
step_stop cfg k s =
    let dwelt = s.unknown_dwell_min +ℤ tick_min cfg k in
    if closedish cfg k
    then quiet cfg k
        (settle cfg k s (ended s.emergency regular) (if s.emergency then "" else s.owner))
    else if wants_open k && not s.emergency
    then reopen cfg k s
    else if unobserved cfg k && resolver_quiet k
    then if leb_ℤ cfg.unknown_stop_release_min dwelt
      then quiet cfg k
          (settle cfg k (record s { unknown_dwell_min = dwelt }) (ended s.emergency expired) "")
      else insist cfg k (record s { unknown_dwell_min = dwelt })
    else insist cfg k (record s { unknown_dwell_min = pos 0 })

-- the state as the tick finds it
unfoldable pub noticed : EpisodeConfig → EpisodeTick → EpisodeState → EpisodeState
noticed cfg k s = record s {
  phase_min = s.phase_min +ℤ tick_min cfg k;
  opened_seen = s.opened_seen || openish cfg k;
  protected = s.protected || (not (in_idle s.phase) && (is_protection k.reason || s.emergency));
}

unfoldable pub step_in : EpisodePhase → EpisodeConfig → EpisodeTick → EpisodeState → EpisodeResult
unfolding step_idle step_requested step_ventilating step_stop step_cooldown
step_in phase_idle cfg k s = step_idle cfg k s
step_in phase_requested cfg k s = step_requested cfg k s
step_in phase_ventilating cfg k s = step_ventilating cfg k s
step_in phase_stop_requested cfg k s = step_stop cfg k s
step_in phase_cooldown cfg k s = step_cooldown cfg k s

unfoldable pub episode_step : EpisodeConfig → EpisodeState → EpisodeTick → EpisodeResult
unfolding step_in noticed
episode_step cfg s k = step_in s.phase cfg k (noticed cfg k s)
