-- ===== src/Episode.antt =====
-- The airing episode of custom_components/poise/comfort/vent_episode.py: its state, what a window
-- reading is worth, and the budgets of its prompts.  Minutes are in thousandths.  Reasons and levels
-- are texts, as in the source.
pub mod Moves
pub mod Step
pub mod Inversion
pub mod Run
pub mod Budget
pub mod Evidence
pub mod Release
pub mod Protection
use Prim.Native.String.{String}
use text.Mathlib.Text.{◌==◌ as str_eq}
use poise_thermostat.Base.{
  ℕ, ◌+◌, Bool, true, false, not, ◌&&◌, ◌||◌, Option, none, some, List, [], ◌∷◌, if◌then◌else◌, leb,
  any_of,
}
use poise_thermostat.Base.Int.{ℤ, pos, ◌*ℤ◌, ltb_ℤ, leb_ℤ}

-- `reason in tokens`
unfoldable pub token_in : String → List String → Bool
token_in reason tokens = any_of (λ t. str_eq reason t) tokens

abbrev pub protection_open : List String
protection_open = "mold_risk" ∷ "moisture_protect" ∷ []

abbrev pub protection_close : List String
protection_close = "mold_guard" ∷ "thermal_floor" ∷ []

abbrev pub reason_airing_done : String
reason_airing_done = "airing_done"

pub data Window : Type 0 where
  window_open window_closed window_likely_open window_likely_closed window_unknown : Window

pub data WindowSource : Type 0 where
  source_contact source_slope source_bypass source_none : WindowSource

abbrev pub in_openish : Window → Bool
in_openish window_open = true
in_openish window_likely_open = true
in_openish _ = false

abbrev pub in_closedish : Window → Bool
in_closedish window_closed = true
in_closedish window_likely_closed = true
in_closedish _ = false

abbrev proves_closed : WindowSource → Bool
proves_closed source_contact = true
proves_closed _ = false

pub data EpisodePhase : Type 0 where
  phase_idle phase_requested phase_ventilating phase_stop_requested phase_cooldown : EpisodePhase

abbrev pub in_idle : EpisodePhase → Bool
in_idle phase_idle = true
in_idle _ = false

abbrev pub in_cooldown : EpisodePhase → Bool
in_cooldown phase_cooldown = true
in_cooldown _ = false

abbrev pub in_stop : EpisodePhase → Bool
in_stop phase_stop_requested = true
in_stop _ = false

-- the phases in which an episode runs
abbrev pub in_running : EpisodePhase → Bool
in_running phase_idle = false
in_running phase_cooldown = false
in_running _ = true

pub record EpisodeConfig : Type 0 where
  pub request_ttl_min : ℤ
  pub reminder_every_min : ℤ
  pub max_prompts_per_phase : ℕ
  pub max_prompts_per_phase_protection : ℕ
  pub max_prompts_per_episode : ℕ
  pub max_prompts_per_episode_protection : ℕ
  pub window_stale_after_min : ℤ
  pub cooldown_min : ℤ
  pub cooldown_manual_min : ℤ
  pub cooldown_expired_min : ℤ
  pub cooldown_emergency_min : ℤ
  pub unknown_stop_release_min : ℤ
  pub max_tick_min : ℤ

-- `_DEFAULT_CFG`
abbrev pub default_episode_config : EpisodeConfig
default_episode_config = record {
  request_ttl_min = pos 15_000;
  reminder_every_min = pos 7_000;
  max_prompts_per_phase = 2;
  max_prompts_per_phase_protection = 6;
  max_prompts_per_episode = 4;
  max_prompts_per_episode_protection = 10;
  window_stale_after_min = pos 30_000;
  cooldown_min = pos 10_000;
  cooldown_manual_min = pos 10_000;
  cooldown_expired_min = pos 20_000;
  cooldown_emergency_min = pos 45_000;
  unknown_stop_release_min = pos 5_000;
  max_tick_min = pos 10_000;
}

abbrev older_than : Option ℤ → ℤ → Bool
older_than none limit = false
older_than (some age) limit = ltb_ℤ limit age

unfoldable pub effective_window : Window → WindowSource → Option ℤ → EpisodeConfig → Window
effective_window state source age_min cfg =
    if older_than age_min cfg.window_stale_after_min
    then window_unknown
    else if in_closedish state && not (proves_closed source)
    then window_unknown
    else state

pub record EpisodeState : Type 0 where
  pub phase : EpisodePhase
  pub reason : String
  pub level : String
  pub episode_id : ℕ
  pub episode_prompts : ℕ
  pub protected : Bool
  pub opened_seen : Bool
  pub escalations : ℕ
  pub owner : String
  pub phase_min : ℤ
  pub prompts : ℕ
  pub unknown_dwell_min : ℤ
  pub entry_inferred : Bool
  pub emergency : Bool
  pub cooldown_for_min : ℤ
  pub cooldown_scope : String
  pub pending_reason : String

abbrev pub fresh_episode : EpisodeState
fresh_episode = record {
  phase = phase_idle;
  reason = "";
  level = "ok";
  episode_id = 0;
  episode_prompts = 0;
  protected = false;
  opened_seen = false;
  escalations = 0;
  owner = "";
  phase_min = pos 0;
  prompts = 0;
  unknown_dwell_min = pos 0;
  entry_inferred = false;
  emergency = false;
  cooldown_for_min = pos 0;
  cooldown_scope = "";
  pending_reason = "";
}

unfoldable pub is_protection : String → Bool
unfolding token_in
is_protection reason = token_in reason protection_open || token_in reason protection_close

abbrev pub oracle_window_open : Window → Bool
oracle_window_open window = in_openish window

pub record OracleFlags : Type 0 where
  pub prev_advice_active : Bool
  pub prev_moisture_airing : Bool
  pub prev_moisture_protect : Bool
  pub prev_heat_out : Bool

abbrev airing : EpisodePhase → Bool
airing phase_requested = true
airing phase_ventilating = true
airing _ = false

unfoldable pub oracle_flags : EpisodeState → OracleFlags
oracle_flags state = record {
  prev_advice_active = airing state.phase;
  prev_moisture_airing =
      airing state.phase && (str_eq state.owner "moisture_out" || str_eq state.owner "mold_risk");
  prev_moisture_protect = airing state.phase && str_eq state.owner "moisture_protect";
  prev_heat_out = airing state.phase && str_eq state.owner "heat_out";
}

unfoldable pub idle_cause : String → Bool → Bool → Bool → String
idle_cause reason cool_edge_protected room_over_safe outside_drier =
    if str_eq reason "no_data"
    then "no_data"
    else if room_over_safe && cool_edge_protected
    then "fabric_heated"
    else if room_over_safe && not outside_drier
    then "outside_not_drier"
    else "all_good"

-- Why an episode ended.
pub data CooldownCause : Type 0 where
  emergency expired manual regular : CooldownCause

unfoldable pub cooldown_len : EpisodeConfig → CooldownCause → ℤ
cooldown_len cfg CooldownCause.emergency = cfg.cooldown_emergency_min
cooldown_len cfg expired = cfg.cooldown_expired_min
cooldown_len cfg manual = cfg.cooldown_manual_min
cooldown_len cfg regular = cfg.cooldown_min

unfoldable pub episode_protected : EpisodeState → Bool
episode_protected s =
    s.protected || (s.emergency || (is_protection s.reason || is_protection s.owner))

unfoldable pub prompt_cap : EpisodeState → EpisodeConfig → ℕ
prompt_cap s cfg =
    if episode_protected s then cfg.max_prompts_per_phase_protection else cfg.max_prompts_per_phase

unfoldable pub episode_cap : EpisodeState → EpisodeConfig → ℕ
episode_cap s cfg =
    if episode_protected s
    then cfg.max_prompts_per_episode_protection
    else cfg.max_prompts_per_episode

unfoldable pub prompt_due : EpisodeState → EpisodeConfig → Bool
prompt_due s cfg =
    if leb (episode_cap s cfg) s.episode_prompts
    then false
    else if leb (prompt_cap s cfg) s.prompts
    then false
    else leb_ℤ (pos s.prompts *ℤ cfg.reminder_every_min) s.phase_min

unfoldable pub spend : EpisodeState → EpisodeState
spend s = record s { prompts = s.prompts + 1; episode_prompts = s.episode_prompts + 1 }

-- `_enter`, the fields of its caller aside
unfoldable pub enter : EpisodeState → EpisodePhase → EpisodeState
enter s phase = record s {
  phase = phase;
  phase_min = pos 0;
  unknown_dwell_min = pos 0;
  entry_inferred = false;
}
