-- ===== src/Episode/Protection.antt =====
-- The protection of the building is heard (custom_components/poise/comfort/vent_episode.py).
use poise_thermostat.Base.{◌≡◌, refl, inl, inr, ◌⊎◌, true, false, ◌&&◌, arith}
use poise_thermostat.Episode.{
  EpisodePhase, phase_idle, phase_requested, phase_ventilating, phase_stop_requested,
  phase_cooldown, in_stop, EpisodeConfig, EpisodeState, token_in, protection_open, is_protection,
  enter,
}
use poise_thermostat.Episode.Moves.{
  EpisodeTick, EpisodeResult, wants_open, out, quiet, ring, settle,
}
use poise_thermostat.Episode.Step.{
  remind, reopen, cooldown_ends, step_idle, step_requested, step_ventilating, step_stop,
  step_cooldown, step_in, noticed, episode_step,
}
use poise_thermostat.Episode.Inversion.{latched}
use poise_thermostat.Ventilation.{action_open}

-- The rule table asks to open for the building's sake.
abbrev pub Protects : EpisodeTick → Type 0
Protects k = (wants_open k ≡ true) × (token_in k.reason protection_open ≡ true)

Protects-is_protection : (k : EpisodeTick) → Protects k → is_protection k.reason ≡ true
unfolding is_protection
Protects-is_protection k (w, t) = rw t refl

-- Open now, or the quiet time begins.
abbrev HeardOrResting : EpisodeResult → Type 0
HeardOrResting r = (r.action ≡ action_open) ⊎ (r.state.phase ≡ phase_cooldown)

step_idle-open :
    (cfg : EpisodeConfig) (k : EpisodeTick) (s : EpisodeState)
    → wants_open k ≡ true
    → (step_idle cfg k s).action ≡ action_open
unfolding step_idle ring out
step_idle-open cfg k s w = ground (arith, w)

cooldown_ends-Protects :
    (k : EpisodeTick) (s : EpisodeState) → Protects k → cooldown_ends k s ≡ true
unfolding cooldown_ends
cooldown_ends-Protects k s (w, t) = rw (w, t) refl

step_cooldown-open :
    (cfg : EpisodeConfig) (k : EpisodeTick) (s : EpisodeState)
    → Protects k
    → (step_cooldown cfg k s).action ≡ action_open
unfolding step_cooldown ring out
step_cooldown-open cfg k s (w, t) = ground (arith, w, cooldown_ends-Protects k s (w, t))

step_in-heard :
    (p : EpisodePhase) (cfg : EpisodeConfig) (k : EpisodeTick) (s : EpisodeState)
    → in_stop p && s.emergency ≡ false
    → Protects k
    → HeardOrResting (step_in p cfg k s)
unfolding step_in step_requested step_ventilating step_stop reopen settle enter remind ring quiet
    out
step_in-heard phase_idle cfg k s m (w, t) = inl (step_idle-open cfg k s w)
step_in-heard phase_requested cfg k s m (w, t) =
    ground (arith, w, t, Protects-is_protection k (w, t))
step_in-heard phase_ventilating cfg k s m (w, t) = ground (arith, w, t)
step_in-heard phase_stop_requested cfg k s m (w, t) = ground (arith, m, w, t)
step_in-heard phase_cooldown cfg k s m (w, t) = inl (step_cooldown-open cfg k s (w, t))

episode_step-rested :
    (cfg : EpisodeConfig) (s : EpisodeState) (k : EpisodeTick)
    → s.phase ≡ phase_cooldown
    → Protects k
    → (episode_step cfg s k).action ≡ action_open
unfolding episode_step step_in noticed
episode_step-rested cfg s k e h = rw e (step_cooldown-open cfg k _ h)

episode_step-heard :
    (cfg : EpisodeConfig) (s : EpisodeState) (k : EpisodeTick)
    → latched s ≡ false
    → Protects k
    → HeardOrResting (episode_step cfg s k)
unfolding episode_step noticed latched
episode_step-heard cfg s k m h = step_in-heard s.phase cfg k (noticed cfg k s) m h

-- Where the rule table asks to open for the building's sake on two ticks in a row, and no stop for
-- its sake stands, at least one of the two publishes open.
pub protection_heard :
    (cfg : EpisodeConfig) (s : EpisodeState) (k k' : EpisodeTick)
    → latched s ≡ false
    → Protects k
    → Protects k'
    → ((episode_step cfg s k).action ≡ action_open)
      ⊎ ((episode_step cfg (episode_step cfg s k).state k').action ≡ action_open)
protection_heard cfg s k k' m h h' = elim (episode_step-heard cfg s k m h) [
  | inl o ↦ inl o
  | inr c ↦ inr (episode_step-rested cfg (episode_step cfg s k).state k' c h')
]
