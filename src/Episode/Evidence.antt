-- ===== src/Episode/Evidence.antt =====
-- What an episode remembers is backed by what it saw
-- (custom_components/poise/comfort/vent_episode.py).
use Prim.Native.String.{String}
use poise_thermostat.Base.{◌≡◌, refl, Bool, true, false, List, arith, if◌then◌else◌}
use poise_thermostat.Episode.{
  EpisodePhase, phase_idle, phase_requested, phase_ventilating, phase_stop_requested,
  phase_cooldown, in_cooldown, CooldownCause, in_stop, EpisodeConfig, EpisodeState, fresh_episode,
  enter, spend,
}
use poise_thermostat.Episode.Moves.{
  EpisodeTick, wants_open, openish, out, quiet, begin, ask, ring, stop, settle, ventilate,
}
use poise_thermostat.Episode.Step.{
  remind, renew_stop, insist, reopen, wake, step_idle, step_requested, step_ventilating, step_stop,
  step_cooldown, step_in, noticed, episode_step,
}
use poise_thermostat.Episode.Run.{step_stop-elim, run_episode, run_episode-keeps}

abbrev in_ventilating : EpisodePhase → Bool
in_ventilating phase_ventilating = true
in_ventilating _ = false

-- An airing was seen to begin; what is pending waits for the end of the quiet time; a latched stop is a
-- stop.
pub record IsBacked (s : EpisodeState) : Type 0 where
  pub seen_open : in_ventilating s.phase ≡ true → s.opened_seen ≡ true
  pub pending : in_cooldown s.phase ≡ false → s.pending_reason ≡ ""
  pub latch : s.emergency ≡ true → in_stop s.phase ≡ true

quiet-state : (cfg : EpisodeConfig) (k : EpisodeTick) (s : EpisodeState) → (quiet cfg k s).state ≡ s
unfolding quiet out
quiet-state cfg k s = ground arith

step_idle-IsBacked :
    (cfg : EpisodeConfig) (k : EpisodeTick) (s : EpisodeState)
    → s.phase ≡ phase_idle
    → IsBacked s
    → IsBacked (step_idle cfg k s).state
unfolding step_idle begin enter ring ask out quiet
step_idle-IsBacked cfg k s e h = ground (arith, e, h)

step_requested-IsBacked :
    (cfg : EpisodeConfig) (k : EpisodeTick) (s : EpisodeState)
    → s.phase ≡ phase_requested
    → (openish cfg k ≡ true → s.opened_seen ≡ true)
    → IsBacked s
    → IsBacked (step_requested cfg k s).state
unfolding step_requested ventilate stop settle enter ring ask remind spend out quiet
step_requested-IsBacked cfg k s e o h = ground (arith, e, o, h)

step_ventilating-IsBacked :
    (cfg : EpisodeConfig) (k : EpisodeTick) (s : EpisodeState)
    → s.phase ≡ phase_ventilating
    → IsBacked s
    → IsBacked (step_ventilating cfg k s).state
unfolding step_ventilating stop settle enter ring ask out quiet
step_ventilating-IsBacked cfg k s e h = ground (arith, e, h)

insist-IsBacked :
    (cfg : EpisodeConfig) (k : EpisodeTick) (s : EpisodeState)
    → s.phase ≡ phase_stop_requested
    → s.pending_reason ≡ ""
    → ((insist cfg k s).state.phase ≡ phase_stop_requested)
      × ((insist cfg k s).state.pending_reason ≡ "")
unfolding insist renew_stop remind spend out
insist-IsBacked cfg k s e p = ground (arith, e, p)

stop-IsBacked :
    (s : EpisodeState) → (s.phase ≡ phase_stop_requested) × (s.pending_reason ≡ "") → IsBacked s
stop-IsBacked s (e, p) = ground (arith, e, p)

reopen-IsBacked :
    (cfg : EpisodeConfig) (k : EpisodeTick) (s : EpisodeState)
    → (openish cfg k ≡ true → s.opened_seen ≡ true)
    → s.emergency ≡ false
    → s.pending_reason ≡ ""
    → IsBacked (reopen cfg k s).state
unfolding reopen ventilate enter ring ask out
reopen-IsBacked cfg k s o m p = ground (arith, o, m, p)

settle-IsBacked :
    (cfg : EpisodeConfig) (k : EpisodeTick) (s : EpisodeState) (cause : CooldownCause)
    (scope : String)
    → IsBacked (quiet cfg k (settle cfg k s cause scope)).state
unfolding settle enter quiet out
settle-IsBacked cfg k s cause scope = ground arith

step_stop-IsBacked :
    (cfg : EpisodeConfig) (k : EpisodeTick) (s : EpisodeState)
    → s.phase ≡ phase_stop_requested
    → (openish cfg k ≡ true → s.opened_seen ≡ true)
    → IsBacked s
    → IsBacked (step_stop cfg k s).state
step_stop-IsBacked cfg k s e o h =
    let p : s.pending_reason ≡ "" = h.pending (rw e refl) in
    step_stop-elim (λ r. IsBacked r.state) cfg k s
      (λ d cause scope. settle-IsBacked cfg k (record s { unknown_dwell_min = d }) cause scope)
      (λ m. reopen-IsBacked cfg k s o m p)
      λ d.
        let t = record s { unknown_dwell_min = d } in
        stop-IsBacked (insist cfg k t).state (insist-IsBacked cfg k t e p)

wake-IsBacked : (s : EpisodeState) → IsBacked (wake s)
unfolding wake enter
wake-IsBacked s = ground arith

step_cooldown-IsBacked :
    (cfg : EpisodeConfig) (k : EpisodeTick) (s : EpisodeState)
    → s.phase ≡ phase_cooldown
    → IsBacked s
    → IsBacked (step_cooldown cfg k s).state
unfolding step_cooldown quiet out
step_cooldown-IsBacked cfg k s e h = ground (
  arith,
  e,
  h,
  step_idle-IsBacked cfg k
      (wake (record s { pending_reason = if wants_open k then k.reason else "" })) refl
      (wake-IsBacked _),
)

step_in-IsBacked :
    (p : EpisodePhase) (cfg : EpisodeConfig) (k : EpisodeTick) (s : EpisodeState)
    → s.phase ≡ p
    → (openish cfg k ≡ true → s.opened_seen ≡ true)
    → IsBacked s
    → IsBacked (step_in p cfg k s).state
unfolding step_in
step_in-IsBacked phase_idle cfg k s e o h = step_idle-IsBacked cfg k s e h
step_in-IsBacked phase_requested cfg k s e o h = step_requested-IsBacked cfg k s e o h
step_in-IsBacked phase_ventilating cfg k s e o h = step_ventilating-IsBacked cfg k s e h
step_in-IsBacked phase_stop_requested cfg k s e o h = step_stop-IsBacked cfg k s e o h
step_in-IsBacked phase_cooldown cfg k s e o h = step_cooldown-IsBacked cfg k s e h

noticed-IsBacked :
    (cfg : EpisodeConfig) (k : EpisodeTick) (s : EpisodeState)
    → IsBacked s
    → IsBacked (noticed cfg k s)
unfolding noticed
noticed-IsBacked cfg k s h = ground (arith, h)

noticed-seen :
    (cfg : EpisodeConfig) (k : EpisodeTick) (s : EpisodeState)
    → openish cfg k ≡ true
    → (noticed cfg k s).opened_seen ≡ true
unfolding noticed
noticed-seen cfg k s o = ground (arith, o)

episode_step-IsBacked :
    (cfg : EpisodeConfig) (s : EpisodeState) (k : EpisodeTick)
    → IsBacked s
    → IsBacked (episode_step cfg s k).state
unfolding episode_step noticed
episode_step-IsBacked cfg s k h =
    step_in-IsBacked s.phase cfg k (noticed cfg k s) refl (noticed-seen cfg k s)
      (noticed-IsBacked cfg k s h)

-- After every run from the fresh state, an airing is under way only if the window was seen open in
-- it, a reason is pending only in the quiet time, and a stop is latched only while a stop is
-- requested.
pub run_episode-IsBacked :
    (cfg : EpisodeConfig) (ks : List EpisodeTick) → IsBacked (run_episode cfg fresh_episode ks)
run_episode-IsBacked cfg ks =
    run_episode-keeps IsBacked cfg (episode_step-IsBacked cfg) fresh_episode ks (ground arith)
