-- ===== src/Episode/Release.antt =====
-- How a request to close ends where nobody can see the window, and that it stands where it is seen open
-- (custom_components/poise/comfort/vent_episode.py).
use poise_thermostat.Base.{
  ◌≡◌, refl, sym, ap, ◌∙◌, inl, inr, Bool, true, false, ◌&&◌, ◌||◌, List, [], ◌∷◌, arith,
  Bool-cases, All,
}
use poise_thermostat.Base.Int.{
  ℤ, pos, ◌+ℤ◌, ◌≤ℤ◌, ◌<ℤ◌, ltb_ℤ, leb_ℤ, lt→leb_ℤ, le→leb_ℤ, leb_ℤ→lt, leb_ℤ→le, int_laws, min_ℤ,
  max_ℤ,
}
use poise_thermostat.Episode.{
  phase_stop_requested, phase_cooldown, in_cooldown, EpisodeConfig, EpisodeState, enter, spend,
}
use poise_thermostat.Episode.Moves.{
  EpisodeTick, wants_open, wants_close, openish, closedish, unobserved, resolver_quiet, tick_min,
  protection_abort, out, quiet, settle,
}
use poise_thermostat.Episode.Step.{
  insist, renew_stop, remind, step_stop, step_in, noticed, episode_step,
}
use poise_thermostat.Episode.Inversion.{openish-known}
use poise_thermostat.Ventilation.{action_close, is_close}

-- The window cannot be observed, and the rule table neither opens nor closes.
abbrev pub IsSilent : EpisodeConfig → EpisodeTick → Type 0
IsSilent cfg k = (unobserved cfg k ≡ true) × (wants_open k ≡ false) × (wants_close k ≡ false)

-- whether a run reaches the quiet time
unfoldable pub rests : EpisodeConfig → EpisodeState → List EpisodeTick → Bool
rests cfg s [] = false
rests cfg s (k ∷ ks) =
    in_cooldown (episode_step cfg s k).state.phase || rests cfg (episode_step cfg s k).state ks

-- the time that a run counts, from `t`
unfoldable pub counted : EpisodeConfig → ℤ → List EpisodeTick → ℤ
counted cfg t [] = t
counted cfg t (k ∷ ks) = counted cfg (t +ℤ tick_min cfg k) ks

silent-quiet :
    (cfg : EpisodeConfig) (k : EpisodeTick)
    → IsSilent cfg k
    → (resolver_quiet k ≡ true) × (closedish cfg k ≡ false)
unfolding resolver_quiet closedish unobserved wants_open wants_close
silent-quiet cfg k h = ground (arith, h)

insist-silent :
    (cfg : EpisodeConfig) (k : EpisodeTick) (s : EpisodeState)
    → wants_close k ≡ false
    → ((insist cfg k s).state.phase ≡ s.phase)
      × ((insist cfg k s).state.unknown_dwell_min ≡ s.unknown_dwell_min)
unfolding insist renew_stop remind spend out protection_abort
insist-silent cfg k s w = ground (arith, w)

step-released :
    (cfg : EpisodeConfig) (s : EpisodeState) (k : EpisodeTick)
    → s.phase ≡ phase_stop_requested
    → IsSilent cfg k
    → leb_ℤ cfg.unknown_stop_release_min (s.unknown_dwell_min +ℤ tick_min cfg k) ≡ true
    → (episode_step cfg s k).state.phase ≡ phase_cooldown
unfolding episode_step step_in noticed step_stop settle enter quiet out
step-released cfg s k e h l =
    let (q, c) = silent-quiet cfg k h in rw (e, c, h.1, h.0, q, l) (ground arith)

step-waits :
    (cfg : EpisodeConfig) (s : EpisodeState) (k : EpisodeTick)
    → s.phase ≡ phase_stop_requested
    → IsSilent cfg k
    → leb_ℤ cfg.unknown_stop_release_min (s.unknown_dwell_min +ℤ tick_min cfg k) ≡ false
    → ((episode_step cfg s k).state.phase ≡ phase_stop_requested)
      × ((episode_step cfg s k).state.unknown_dwell_min ≡ s.unknown_dwell_min +ℤ tick_min cfg k)
unfolding episode_step step_in noticed step_stop
step-waits cfg s k e h l =
    let (q, c) = silent-quiet cfg k h in rw (e, c, h.1, h.0, q, l) (insist-silent cfg k _ h.2)

tick_min-positive :
    (cfg : EpisodeConfig) (k : EpisodeTick) → pos 0 ≤ℤ cfg.max_tick_min → pos 0 ≤ℤ tick_min cfg k
unfolding tick_min min_ℤ max_ℤ ltb_ℤ
tick_min-positive cfg k m = ground (arith, m)

counted-grows :
    (cfg : EpisodeConfig) (t : ℤ) (ks : List EpisodeTick)
    → pos 0 ≤ℤ cfg.max_tick_min
    → t ≤ℤ counted cfg t ks
unfolding counted
counted-grows cfg t [] m = omega arith
counted-grows cfg t (k ∷ ks) m =
    omega (int_laws, tick_min-positive cfg k m, counted-grows cfg (t +ℤ tick_min cfg k) ks m)

-- Where nobody can observe the window and the rule table neither opens nor closes, a request to
-- close reaches the quiet time in a run exactly when the time of its ticks adds up to the release
-- time, where less of it had passed before and the limit on a tick is not negative.
pub stop_released :
    (cfg : EpisodeConfig) (s : EpisodeState) (ks : List EpisodeTick)
    → s.phase ≡ phase_stop_requested
    → pos 0 ≤ℤ cfg.max_tick_min
    → s.unknown_dwell_min <ℤ cfg.unknown_stop_release_min
    → All (IsSilent cfg) ks
    → rests cfg s ks ≡ leb_ℤ cfg.unknown_stop_release_min (counted cfg s.unknown_dwell_min ks)
unfolding rests counted
stop_released cfg s [] e m d h = sym (lt→leb_ℤ _ _ d)
stop_released cfg s (k ∷ ks) e m d (h, hs) =
    let dwelt = s.unknown_dwell_min +ℤ tick_min cfg k in
    let t = (episode_step cfg s k).state in
    elim (Bool-cases (leb_ℤ cfg.unknown_stop_release_min dwelt)) [
      | inl l ↦
          rw (step-released cfg s k e h l)
            (sym (le→leb_ℤ _ _ (omega (arith, leb_ℤ→le _ _ l, counted-grows cfg dwelt ks m))))
      | inr l ↦
          let (p, w) = step-waits cfg s k e h l in
          let rest = stop_released cfg t ks p m (rw w (leb_ℤ→lt _ _ l)) hs in
          rw p (rest ∙ ap (λ d. leb_ℤ cfg.unknown_stop_release_min (counted cfg d ks)) w)
    ]

-- The window is seen open, and the rule table does not open.
abbrev pub IsStanding : EpisodeConfig → EpisodeTick → Type 0
IsStanding cfg k = (openish cfg k ≡ true) × (wants_open k ≡ false)

insist-phase :
    (cfg : EpisodeConfig) (k : EpisodeTick) (s : EpisodeState)
    → ((insist cfg k s).state.phase ≡ s.phase) × ((insist cfg k s).action ≡ action_close)
unfolding insist renew_stop remind spend out
insist-phase cfg k s = ground arith

step-stands :
    (cfg : EpisodeConfig) (s : EpisodeState) (k : EpisodeTick)
    → s.phase ≡ phase_stop_requested
    → IsStanding cfg k
    → ((episode_step cfg s k).state.phase ≡ phase_stop_requested)
      × ((episode_step cfg s k).action ≡ action_close)
unfolding episode_step step_in noticed step_stop
step-stands cfg s k e (o, w) =
    let (c, u) = openish-known cfg k o in rw (e, c, w, u) (insist-phase cfg k _)

-- every tick of a run asks to close
unfoldable pub keeps_closing : EpisodeConfig → EpisodeState → List EpisodeTick → Bool
keeps_closing cfg s [] = true
keeps_closing cfg s (k ∷ ks) =
    is_close (episode_step cfg s k).action && keeps_closing cfg (episode_step cfg s k).state ks

-- A request to close is repeated on every tick of a run that sees the window open and in which the
-- rule table does not open.
pub stop_stands :
    (cfg : EpisodeConfig) (s : EpisodeState) (ks : List EpisodeTick)
    → s.phase ≡ phase_stop_requested
    → All (IsStanding cfg) ks
    → keeps_closing cfg s ks ≡ true
unfolding keeps_closing
stop_stands cfg s [] e h = refl
stop_stands cfg s (k ∷ ks) e (h, hs) =
    let (p, a) = step-stands cfg s k e h in
    rw a (stop_stands cfg (episode_step cfg s k).state ks p hs)
