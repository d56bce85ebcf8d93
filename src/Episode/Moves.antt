-- ===== src/Episode/Moves.antt =====
-- The inputs and the result of one tick of the airing episode, and the moves that its phases share: the
-- nested functions of `episode_step` in custom_components/poise/comfort/vent_episode.py and what it reads
-- off the tick.
use Prim.Native.String.{String}
use text.Mathlib.Text.{◌==◌ as str_eq}
use poise_thermostat.Base.{◌+◌, Bool, true, false, not, ◌&&◌, ◌||◌, Option, if◌then◌else◌, leb, ltb}
use poise_thermostat.Base.Int.{ℤ, pos, min_ℤ, max_ℤ}
use poise_thermostat.Episode.{
  Window, window_likely_open, window_unknown, WindowSource, in_openish, in_closedish, EpisodePhase,
  phase_ventilating, phase_stop_requested, phase_cooldown, in_cooldown, EpisodeConfig, EpisodeState,
  effective_window, is_protection, token_in, protection_close, idle_cause, CooldownCause,
  cooldown_len, prompt_cap, episode_cap, enter,
}
use poise_thermostat.Ventilation.{
  VentAction, action_idle, action_discourage, is_open, is_close, is_discourage, is_idle,
}

-- What the rule table said, and what is known about the window.
pub record EpisodeTick : Type 0 where
  pub action : VentAction
  pub reason : String
  pub level : String
  pub window : Window
  pub dt_min : ℤ
  pub window_source : WindowSource
  pub window_age_min : Option ℤ
  pub cool_edge_protected : Bool
  pub room_over_safe : Bool
  pub outside_drier : Bool

pub record EpisodeResult : Type 0 where
  pub state : EpisodeState
  pub action : VentAction
  pub reason : String
  pub level : String
  pub prompt : Bool
  pub idle_cause : String
  pub window_seen : Window
  pub pending_reason : String

abbrev pub is_likely_open : Window → Bool
is_likely_open window_likely_open = true
is_likely_open _ = false

abbrev pub is_unknown : Window → Bool
is_unknown window_unknown = true
is_unknown _ = false

unfoldable pub seen : EpisodeConfig → EpisodeTick → Window
unfolding effective_window
seen cfg k = effective_window k.window k.window_source k.window_age_min cfg

-- `step`, the time that the tick counts
unfoldable pub tick_min : EpisodeConfig → EpisodeTick → ℤ
unfolding min_ℤ max_ℤ
tick_min cfg k = min_ℤ (max_ℤ k.dt_min (pos 0)) cfg.max_tick_min

unfoldable pub openish : EpisodeConfig → EpisodeTick → Bool
openish cfg k = in_openish (seen cfg k)

unfoldable pub closedish : EpisodeConfig → EpisodeTick → Bool
closedish cfg k = in_closedish (seen cfg k)

unfoldable pub inferred_open : EpisodeConfig → EpisodeTick → Bool
inferred_open cfg k = is_likely_open (seen cfg k)

unfoldable pub unobserved : EpisodeConfig → EpisodeTick → Bool
unobserved cfg k = is_unknown (seen cfg k)

unfoldable pub wants_open : EpisodeTick → Bool
wants_open k = is_open k.action

unfoldable pub wants_close : EpisodeTick → Bool
wants_close k = is_close k.action

unfoldable pub protection_abort : EpisodeTick → Bool
protection_abort k = wants_close k && token_in k.reason protection_close

unfoldable pub resolver_quiet : EpisodeTick → Bool
resolver_quiet k =
    (is_idle k.action || is_discourage k.action)
    || (wants_open k && not (str_eq k.reason "mold_risk"))

unfoldable pub out :
    EpisodeConfig → EpisodeTick → EpisodeState → VentAction → String → String → Bool → EpisodeResult
out cfg k s a r lv prompt = record {
  state = s;
  action = a;
  reason = r;
  level = lv;
  prompt = prompt;
  idle_cause =
      if is_idle a
      then if in_cooldown s.phase
        then "cooldown"
        else idle_cause r k.cool_edge_protected k.room_over_safe k.outside_drier
      else "";
  window_seen = seen cfg k;
  pending_reason = s.pending_reason;
}

unfoldable pub quiet : EpisodeConfig → EpisodeTick → EpisodeState → EpisodeResult
unfolding out
quiet cfg k s =
    if is_discourage k.action
    then out cfg k s action_discourage k.reason k.level false
    else out cfg k s action_idle k.reason "ok" false

unfoldable pub begin : EpisodeConfig → EpisodeTick → EpisodeState → EpisodePhase → EpisodeState
unfolding enter
begin cfg k s phase = record (enter s phase) {
  episode_id = s.episode_id + 1;
  episode_prompts = 0;
  escalations = 0;
  protected = is_protection k.reason;
  opened_seen = openish cfg k;
  pending_reason = "";
}

-- the opening prompt of a phase
unfoldable pub ask : EpisodeConfig → EpisodeState → EpisodeState × Bool
ask cfg s =
    if leb (episode_cap s cfg) s.episode_prompts || ltb (prompt_cap s cfg) 1
    then (s, false)
    else (record s { prompts = 1; episode_prompts = s.episode_prompts + 1 }, true)

-- `out` of a state that has been asked
unfoldable pub ring :
    EpisodeConfig → EpisodeTick → EpisodeState → VentAction → String → String → EpisodeResult
unfolding ask out
ring cfg k s a r lv = let (s', due) = ask cfg s in out cfg k s' a r lv due

unfoldable pub stop :
    EpisodeConfig → EpisodeTick → EpisodeState → String → Bool → String → EpisodeState
unfolding enter
stop cfg k s why abort lv = record (enter s phase_stop_requested) {
  reason = why;
  level = lv;
  emergency = abort;
  entry_inferred = inferred_open cfg k;
}

abbrev pub leftover : EpisodeTick → String
leftover k = if wants_open k then k.reason else ""

unfoldable pub settle :
    EpisodeConfig → EpisodeTick → EpisodeState → CooldownCause → String → EpisodeState
unfolding enter cooldown_len
settle cfg k s cause scope = record (enter s phase_cooldown) {
  prompts = 0;
  emergency = false;
  cooldown_for_min = cooldown_len cfg cause;
  cooldown_scope = scope;
  pending_reason = leftover k;
}

-- the entry into `ventilating` of an episode that runs
unfoldable pub ventilate : EpisodeConfig → EpisodeTick → EpisodeState → EpisodeState
unfolding enter
ventilate cfg k s = record (enter s phase_ventilating) {
  reason = k.reason;
  owner = k.reason;
  level = k.level;
  prompts = 0;
  entry_inferred = inferred_open cfg k;
}
