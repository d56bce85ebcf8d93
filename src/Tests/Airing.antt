-- ===== src/Tests/Airing.antt =====
-- Runs of the ventilation advice and of the airing episode.
use Prim.Native.String.{String}
use poise_thermostat.Base.{
  ℕ, ◌≡◌, ◌≤◌, ◌+◌, refl, Bool, true, false, Option, none, some, List, [], ◌∷◌, arith, ◌⊎◌, ◌&&◌,
}
use poise_thermostat.Base.Int.{ℤ, pos, leb_ℤ}
use poise_thermostat.Ventilation.{
  VentInput, VentAction, action_idle, action_open, action_close, is_close, default_vent_config,
  ventilation_advise, cold_start,
}
use poise_thermostat.Ventilation.Airing.{opened, airing_kept, co2_retracted}
use poise_thermostat.Ventilation.Notice.{announce_all, episode_was, notification_tracks}
use poise_thermostat.Episode.{
  Window, window_open, window_closed, window_unknown, source_contact, phase_stop_requested,
  EpisodeState, fresh_episode, default_episode_config,
}
use poise_thermostat.Episode.Moves.{EpisodeTick}
use poise_thermostat.Episode.Step.{episode_step}
use poise_thermostat.Episode.Run.{run_episode}
use poise_thermostat.Episode.Inversion.{window_never_inverts}
use poise_thermostat.Episode.Budget.{ceiling, rung, episode_rings}
use poise_thermostat.Episode.Evidence.{IsBacked, run_episode-IsBacked}
use poise_thermostat.Episode.Release.{rests, counted, keeps_closing, stop_released, stop_stands}
use poise_thermostat.Episode.Protection.{protection_heard}

-- a tick of two minutes
abbrev said : VentAction → String → Window → EpisodeTick
said action reason window = record {
  action = action;
  reason = reason;
  level = "ok";
  window = window;
  dt_min = pos 2_000;
  window_source = source_contact;
  window_age_min = none;
  cool_edge_protected = false;
  room_over_safe = false;
  outside_drier = true;
}

abbrev stale_air : Window → EpisodeTick
stale_air = said action_open "co2"

abbrev wet_wall : Window → EpisodeTick
wet_wall = said action_open "mold_risk"

abbrev fresh_air : Window → EpisodeTick
fresh_air = said action_idle "no_gain"

window_never_inverts_example :
    is_close (episode_step default_episode_config fresh_episode (stale_air window_open)).action
    ≡ false
unfolding episode_step poise_thermostat.Episode.Moves.wants_open
    poise_thermostat.Episode.Moves.openish poise_thermostat.Episode.Moves.seen
window_never_inverts_example =
    window_never_inverts default_episode_config fresh_episode (stale_air window_closed)
      (stale_air window_open) refl refl

-- a request over eight minutes rings at once and once more
abbrev ignored : List EpisodeTick
ignored =
    stale_air window_closed
    ∷ stale_air window_closed
    ∷ stale_air window_closed
    ∷ stale_air window_closed
    ∷ stale_air window_closed
    ∷ []

request_rings : rung default_episode_config fresh_episode ignored ≡ 2
unfolding rung episode_step poise_thermostat.Episode.Moves.wants_open
    poise_thermostat.Episode.Moves.openish poise_thermostat.Episode.Moves.seen
    poise_thermostat.Episode.episode_cap poise_thermostat.Episode.episode_protected
    poise_thermostat.Episode.is_protection poise_thermostat.Episode.prompt_cap
    poise_thermostat.Episode.Moves.closedish leb_ℤ poise_thermostat.Base.Int.◌+ℤ◌
    poise_thermostat.Episode.Moves.tick_min poise_thermostat.Episode.prompt_due
    poise_thermostat.Base.Int.◌*ℤ◌
request_rings = refl

episode_rings_example :
    rung default_episode_config
      (run_episode default_episode_config fresh_episode (stale_air window_closed ∷ []))
      ignored
    ≤ ceiling default_episode_config + 1
unfolding run_episode episode_step poise_thermostat.Episode.Moves.wants_open
    poise_thermostat.Episode.Moves.wants_close poise_thermostat.Episode.Moves.openish
    poise_thermostat.Episode.Moves.closedish poise_thermostat.Episode.Moves.unobserved
    poise_thermostat.Episode.Moves.seen poise_thermostat.Episode.Moves.tick_min
    poise_thermostat.Episode.Moves.protection_abort poise_thermostat.Episode.Moves.ask
    poise_thermostat.Episode.Moves.resolver_quiet poise_thermostat.Episode.episode_cap
    poise_thermostat.Episode.prompt_cap poise_thermostat.Episode.episode_protected
    poise_thermostat.Episode.is_protection poise_thermostat.Episode.token_in
    poise_thermostat.Episode.prompt_due poise_thermostat.Base.Int.◌+ℤ◌
    poise_thermostat.Base.Int.◌*ℤ◌ leb_ℤ
episode_rings_example =
    episode_rings default_episode_config (stale_air window_closed ∷ []) ignored refl

run_episode-IsBacked_example : IsBacked (
    run_episode default_episode_config fresh_episode
      (stale_air window_closed ∷ stale_air window_open ∷ []))
run_episode-IsBacked_example =
    run_episode-IsBacked default_episode_config
      (stale_air window_closed ∷ stale_air window_open ∷ [])

-- asked to close, and the contact is lost
abbrev asked : EpisodeState
asked =
    run_episode default_episode_config fresh_episode
      (stale_air window_open ∷ fresh_air window_open ∷ [])

abbrev lost : List EpisodeTick
lost = fresh_air window_unknown ∷ fresh_air window_unknown ∷ fresh_air window_unknown ∷ []

stop_released_example :
    rests default_episode_config asked lost
    ≡ leb_ℤ (pos 5_000) (counted default_episode_config asked.unknown_dwell_min lost)
unfolding run_episode episode_step poise_thermostat.Episode.Moves.wants_open
    poise_thermostat.Episode.Moves.wants_close poise_thermostat.Episode.Moves.openish
    poise_thermostat.Episode.Moves.closedish poise_thermostat.Episode.Moves.unobserved
    poise_thermostat.Episode.Moves.seen poise_thermostat.Episode.Moves.tick_min
    poise_thermostat.Episode.Moves.protection_abort poise_thermostat.Episode.Moves.ask
    poise_thermostat.Episode.Moves.resolver_quiet poise_thermostat.Episode.episode_cap
    poise_thermostat.Episode.prompt_cap poise_thermostat.Episode.episode_protected
    poise_thermostat.Episode.is_protection poise_thermostat.Episode.token_in
    poise_thermostat.Episode.prompt_due poise_thermostat.Base.Int.◌+ℤ◌
    poise_thermostat.Base.Int.◌*ℤ◌ leb_ℤ
stop_released_example =
    stop_released default_episode_config asked lost refl (omega arith) (omega arith)
      ((refl, refl, refl), ((refl, refl, refl), ((refl, refl, refl), tt)))

stop_stands_example :
    keeps_closing default_episode_config asked (fresh_air window_open ∷ fresh_air window_open ∷ [])
    ≡ true
unfolding run_episode episode_step poise_thermostat.Episode.Moves.wants_open
    poise_thermostat.Episode.Moves.wants_close poise_thermostat.Episode.Moves.openish
    poise_thermostat.Episode.Moves.closedish poise_thermostat.Episode.Moves.unobserved
    poise_thermostat.Episode.Moves.seen poise_thermostat.Episode.Moves.tick_min
    poise_thermostat.Episode.Moves.protection_abort poise_thermostat.Episode.Moves.ask
    poise_thermostat.Episode.Moves.resolver_quiet poise_thermostat.Episode.episode_cap
    poise_thermostat.Episode.prompt_cap poise_thermostat.Episode.episode_protected
    poise_thermostat.Episode.is_protection poise_thermostat.Episode.token_in
    poise_thermostat.Episode.prompt_due poise_thermostat.Base.Int.◌+ℤ◌
    poise_thermostat.Base.Int.◌*ℤ◌ leb_ℤ
stop_stands_example =
    stop_stands default_episode_config asked (fresh_air window_open ∷ fresh_air window_open ∷ [])
      refl ((refl, refl), ((refl, refl), tt))

protection_heard_example :
    ((episode_step default_episode_config asked (wet_wall window_closed)).action ≡ action_open)
    ⊎ ((episode_step default_episode_config
          (episode_step default_episode_config asked (wet_wall window_closed)).state
          (wet_wall window_closed)).action
        ≡ action_open)
unfolding poise_thermostat.Episode.Inversion.latched run_episode episode_step
    poise_thermostat.Episode.Moves.wants_open poise_thermostat.Episode.Moves.openish
    poise_thermostat.Episode.Moves.seen poise_thermostat.Episode.Moves.closedish
    poise_thermostat.Episode.Moves.wants_close poise_thermostat.Episode.episode_cap
    poise_thermostat.Episode.episode_protected poise_thermostat.Episode.is_protection
    poise_thermostat.Episode.prompt_cap
protection_heard_example =
    protection_heard default_episode_config asked (wet_wall window_closed) (wet_wall window_closed)
      refl (refl, refl) (refl, refl)

-- a bathroom after a shower, with drier air outside
abbrev bathroom : VentInput
bathroom = record {
  w_in_gm3 = some (pos 13_000);
  w_out_gm3 = some (pos 8_000);
  surface_rh_mean_pct = some (pos 60_000);
  mold_floor_binding = false;
  mold_capped = false;
  room_at_thermal_floor = false;
  co2_ppm = none;
  window_open = false;
  occupied = true;
  prev_advice_active = false;
  rh_pct = some (pos 69_500);
  room_c = some (pos 21_000);
  room_decide_c = none;
  cool_edge_c = some (pos 25_000);
  t_out_c = some (pos 12_000);
  cool_capable = false;
  fan_capable = false;
  prev_heat_out = false;
  prev_moisture_airing = false;
  prev_moisture_protect = false;
  rh_max_safe_pct = some (pos 63_300);
  critical_rh_pct = some (pos 80_000);
  cool_edge_protected = false;
  surface_needs_warmer = true;
}

-- a bedroom without an outdoor reading
abbrev bedroom : VentInput
bedroom = record bathroom { w_out_gm3 = none; co2_ppm = some (pos 1_400_000) }

airing_kept_example :
    (ventilation_advise default_vent_config
      (opened (ventilation_advise default_vent_config bathroom).reason bathroom)).action
    ≡ action_open
unfolding poise_thermostat.Ventilation.heat_out poise_thermostat.Ventilation.surface_near_limit
    leb_ℤ poise_thermostat.Base.Int.◌-ℤ◌ poise_thermostat.Base.Int.ltb_ℤ ventilation_advise
    poise_thermostat.Ventilation.mold_risk poise_thermostat.Ventilation.mold_guard
    poise_thermostat.Ventilation.too_dry poise_thermostat.Ventilation.protect_reason_valid
    poise_thermostat.Ventilation.delta
airing_kept_example =
    airing_kept default_vent_config bathroom (omega arith)
      (record { shut = refl; calm = refl; dry = refl; above_floor = refl }) (refl, refl) refl

co2_retracted_example :
    (ventilation_advise default_vent_config (opened "co2" bedroom)).action ≡ action_close
unfolding ventilation_advise poise_thermostat.Ventilation.mold_risk leb_ℤ
    poise_thermostat.Base.Int.◌-ℤ◌ poise_thermostat.Ventilation.mold_guard
    poise_thermostat.Ventilation.too_dry poise_thermostat.Ventilation.protect_reason_valid
    poise_thermostat.Base.Int.ltb_ℤ poise_thermostat.Ventilation.delta
    poise_thermostat.Ventilation.heat_out poise_thermostat.Ventilation.surface_near_limit
    poise_thermostat.Ventilation.moisture_reason_valid
    poise_thermostat.Ventilation.moisture_comfort_condition
co2_retracted_example = co2_retracted default_vent_config bedroom refl refl refl

notification_tracks_example :
    (announce_all default_vent_config true cold_start (some bathroom ∷ none ∷ [])).shown
    ≡ true
      && episode_was
          (announce_all default_vent_config true cold_start (some bathroom ∷ none ∷ [])).published
notification_tracks_example =
    notification_tracks default_vent_config true (some bathroom ∷ none ∷ [])
