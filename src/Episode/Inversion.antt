-- ===== src/Episode/Inversion.antt =====
-- What an episode publishes against what the rule table says
-- (custom_components/poise/comfort/vent_episode.py).
use poise_thermostat.Base.{◌≡◌, ◌⊎◌, Bool, true, false, ◌&&◌, arith}
use poise_thermostat.Base.Int.{pos}
use poise_thermostat.Episode.{
  EpisodePhase, phase_idle, phase_requested, phase_ventilating, phase_stop_requested,
  phase_cooldown, EpisodeConfig, EpisodeState, in_stop,
}
use poise_thermostat.Episode.Moves.{
  EpisodeTick, openish, closedish, unobserved, wants_open, wants_close, out, quiet, ring,
}
use poise_thermostat.Episode.Step.{
  reopen, remind, insist, wake, step_idle, step_requested, step_ventilating, step_stop,
  step_cooldown, step_in, noticed, episode_step,
}
use poise_thermostat.Ventilation.{VentAction, action_close, is_open, is_close}

-- What may be published: to open only where the table says so, to close only where it does not say
-- open or the stop is latched.
abbrev Agrees : Bool → EpisodeTick → VentAction → Type 0
Agrees latched k a =
    (is_open a ≡ true → (wants_open k ≡ true) × (latched ≡ false))
    × (is_close a ≡ true → (wants_open k ≡ false) ⊎ (latched ≡ true))

quiet-action :
    (cfg : EpisodeConfig) (k : EpisodeTick) (s : EpisodeState) (latched : Bool)
    → Agrees latched k (quiet cfg k s).action
unfolding quiet out
quiet-action cfg k s latched = ground arith

step_idle-Agrees :
    (cfg : EpisodeConfig) (k : EpisodeTick) (s : EpisodeState)
    → Agrees false k (step_idle cfg k s).action
unfolding step_idle ring out wants_open wants_close quiet
step_idle-Agrees cfg k s = ground arith

step_cooldown-Agrees :
    (cfg : EpisodeConfig) (k : EpisodeTick) (s : EpisodeState)
    → Agrees false k (step_cooldown cfg k s).action
unfolding step_cooldown out wants_open wants_close quiet
step_cooldown-Agrees cfg k s = ground (arith, step_idle-Agrees cfg k (wake s))

step_requested-Agrees :
    (cfg : EpisodeConfig) (k : EpisodeTick) (s : EpisodeState)
    → Agrees false k (step_requested cfg k s).action
unfolding step_requested ring out wants_open wants_close quiet remind
step_requested-Agrees cfg k s = ground arith

step_ventilating-Agrees :
    (cfg : EpisodeConfig) (k : EpisodeTick) (s : EpisodeState)
    → Agrees false k (step_ventilating cfg k s).action
unfolding step_ventilating ring out wants_open wants_close quiet
step_ventilating-Agrees cfg k s = ground arith

insist-action :
    (cfg : EpisodeConfig) (k : EpisodeTick) (s : EpisodeState)
    → (insist cfg k s).action ≡ action_close
unfolding insist remind out
insist-action cfg k s = ground arith

step_stop-Agrees :
    (cfg : EpisodeConfig) (k : EpisodeTick) (s : EpisodeState)
    → Agrees s.emergency k (step_stop cfg k s).action
unfolding step_stop reopen ring out wants_open wants_close quiet
step_stop-Agrees cfg k s = ground (arith, insist-action cfg k)

-- a stop of the building's protection that stands
unfoldable pub latched : EpisodeState → Bool
latched s = in_stop s.phase && s.emergency

step_in-Agrees :
    (p : EpisodePhase) (cfg : EpisodeConfig) (k : EpisodeTick) (s : EpisodeState)
    → Agrees (in_stop p && s.emergency) k (step_in p cfg k s).action
unfolding step_in
step_in-Agrees phase_idle cfg k s = step_idle-Agrees cfg k s
step_in-Agrees phase_requested cfg k s = step_requested-Agrees cfg k s
step_in-Agrees phase_ventilating cfg k s = step_ventilating-Agrees cfg k s
step_in-Agrees phase_stop_requested cfg k s = step_stop-Agrees cfg k s
step_in-Agrees phase_cooldown cfg k s = step_cooldown-Agrees cfg k s

episode_step-Agrees :
    (cfg : EpisodeConfig) (k : EpisodeTick) (s : EpisodeState)
    → Agrees (latched s) k (episode_step cfg s k).action
unfolding episode_step noticed latched
episode_step-Agrees cfg k s = step_in-Agrees s.phase cfg k (noticed cfg k s)

-- From every state, two ticks with the same answer of the rule table never have one publish open and
-- the other close, whatever they say about the window.
pub window_never_inverts :
    (cfg : EpisodeConfig) (s : EpisodeState) (k k' : EpisodeTick)
    → k.action ≡ k'.action
    → is_open (episode_step cfg s k).action ≡ true
    → is_close (episode_step cfg s k').action ≡ false
unfolding wants_open
window_never_inverts cfg s k k' e o =
    let (opens, _) = episode_step-Agrees cfg k s in
    let (_, closes) = episode_step-Agrees cfg k' s in ground (arith, opens o, closes)

pub openish-known :
    (cfg : EpisodeConfig) (k : EpisodeTick)
    → openish cfg k ≡ true
    → (closedish cfg k ≡ false) × (unobserved cfg k ≡ false)
unfolding openish closedish unobserved
openish-known cfg k o = ground (arith, o)

pub close-not-open : (k : EpisodeTick) → wants_close k ≡ true → wants_open k ≡ false
unfolding wants_close wants_open
close-not-open k w = ground (arith, w)

step_in-close :
    (p : EpisodePhase) (cfg : EpisodeConfig) (k : EpisodeTick) (s : EpisodeState)
    → wants_close k ≡ true
    → openish cfg k ≡ true
    → (step_in p cfg k s).action ≡ action_close
unfolding step_in step_idle step_requested step_ventilating step_stop step_cooldown ring out
step_in-close phase_idle cfg k s w o =
    ground (arith, w, o, close-not-open k w, openish-known cfg k o)
step_in-close phase_requested cfg k s w o =
    ground (arith, w, o, close-not-open k w, openish-known cfg k o)
step_in-close phase_ventilating cfg k s w o =
    ground (arith, w, o, close-not-open k w, openish-known cfg k o)
step_in-close phase_stop_requested cfg k s w o =
    let (shut, unknown) = openish-known cfg k o in
    rw (shut, close-not-open k w, unknown)
      (insist-action cfg k (record s { unknown_dwell_min = pos 0 }))
step_in-close phase_cooldown cfg k s w o =
    ground (arith, w, o, close-not-open k w, openish-known cfg k o)

-- Where the window is seen open and the rule table asks to close it, that is published from every state.
close_stands :
    (cfg : EpisodeConfig) (s : EpisodeState) (k : EpisodeTick)
    → wants_close k ≡ true
    → openish cfg k ≡ true
    → (episode_step cfg s k).action ≡ action_close
unfolding episode_step noticed
close_stands cfg s k w o = step_in-close s.phase cfg k (noticed cfg k s) w o
