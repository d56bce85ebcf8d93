-- ===== src/Episode/Run.antt =====
-- Runs of the airing episode (custom_components/poise/comfort/vent_episode.py).
use Prim.Native.String.{String}
use poise_thermostat.Base.{
  ◌≡◌, inl, inr, false, not, ◌&&◌, List, [], ◌∷◌, arith, Bool-cases, if◌then◌else◌,
}
use poise_thermostat.Base.Int.{ℤ, pos, ◌+ℤ◌, leb_ℤ}
use poise_thermostat.Episode.{EpisodeConfig, EpisodeState, CooldownCause, expired, regular}
use poise_thermostat.Episode.Moves.{
  EpisodeTick, EpisodeResult, quiet, settle, tick_min, closedish, unobserved, resolver_quiet,
  wants_open,
}
use poise_thermostat.Episode.Step.{episode_step, reopen, insist, step_stop, ended}

unfoldable pub run_episode : EpisodeConfig → EpisodeState → List EpisodeTick → EpisodeState
run_episode cfg s [] = s
run_episode cfg s (k ∷ ks) = run_episode cfg (episode_step cfg s k).state ks

-- what every tick keeps, a run keeps
pub run_episode-keeps {ℓ} :
    (P : EpisodeState → Type ℓ) (cfg : EpisodeConfig)
    → ((s : EpisodeState) (k : EpisodeTick) → P s → P (episode_step cfg s k).state)
    → (s : EpisodeState) (ks : List EpisodeTick) → P s
    → P (run_episode cfg s ks)
unfolding run_episode
run_episode-keeps P cfg keep s [] h = h
run_episode-keeps P cfg keep s (k ∷ ks) h =
    run_episode-keeps P cfg keep (episode_step cfg s k).state ks (keep s k h)

-- What holds of each way in which a stop goes on.
pub step_stop-elim {ℓ} :
    (P : EpisodeResult → Type ℓ) (cfg : EpisodeConfig) (k : EpisodeTick) (s : EpisodeState)
    → ((d : ℤ) (cause : CooldownCause) (scope : String)
        → P (quiet cfg k (settle cfg k (record s { unknown_dwell_min = d }) cause scope)))
    → (s.emergency ≡ false → P (reopen cfg k s))
    → ((d : ℤ) → P (insist cfg k (record s { unknown_dwell_min = d })))
    → P (step_stop cfg k s)
unfolding step_stop
step_stop-elim P cfg k s settled reopened insisted =
    let dwelt = s.unknown_dwell_min +ℤ tick_min cfg k in
    elim (Bool-cases (closedish cfg k)) [
      | inl c ↦ rw c (
          settled s.unknown_dwell_min (ended s.emergency regular)
            (if s.emergency then "" else s.owner))
      | inr c ↦ elim (Bool-cases (wants_open k && not s.emergency)) [
        | inl w ↦ rw (c, w) (reopened (ground (arith, w)))
        | inr w ↦ elim (Bool-cases (unobserved cfg k && resolver_quiet k)) [
          | inl u ↦ elim (Bool-cases (leb_ℤ cfg.unknown_stop_release_min dwelt)) [
            | inl d ↦ rw (c, w, u, d) (settled dwelt (ended s.emergency expired) "")
            | inr d ↦ rw (c, w, u, d) (insisted dwelt)
          ]
          | inr u ↦ rw (c, w, u) (insisted (pos 0))
        ]
      ]
    ]
