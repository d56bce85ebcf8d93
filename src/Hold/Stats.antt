-- ===== src/Hold/Stats.antt =====
-- `record_override_stat` of custom_components/poise/control/override_runtime.py: the rolling log of
-- setpoint changes that users make.
use Prim.Native.String.{String}
use text.Mathlib.Text.{◌==◌ as str_eq}
use poise_thermostat.Base.{
  ℕ, ◌≤◌, inl, inr, Bool, true, false, ◌||◌, List, [], ◌∷◌, ◌++◌, arith, leb, length, if◌then◌else◌,
  Bool-cases,
}
use poise_thermostat.Base.Int.{ℤ, pos, ◌-ℤ◌, leb_ℤ}
use poise_thermostat.Base.Round.{round_to}
use poise_thermostat.Hold.{OverrideMode, away, OverrideConfig, OverrideStat, mode_comfort_base}

abbrev pub stats_cap : ℕ
stats_cap = 50

-- `del stats[:-cap]`
unfoldable pub newest : ℕ → List OverrideStat → List OverrideStat
newest cap [] = []
newest cap (x ∷ xs) = let rest = newest cap xs in if leb (length (x ∷ xs)) cap then x ∷ xs else rest

abbrev is_away : OverrideMode → Bool
is_away away = true
is_away _ = false

-- What the log takes from the zone: `in_comfort` is the verdict of the schedule.
pub record StatInput : Type 0 where
  pub preset : OverrideMode
  pub presence_level : String
  pub window_open : Bool
  pub comfort_base : ℤ
  pub override_cfg : OverrideConfig
  pub in_comfort : Bool
  pub now : ℤ

unfoldable pub observation : StatInput → ℤ → OverrideStat
unfolding mode_comfort_base
observation i clamped =
    let delta = clamped -ℤ mode_comfort_base i.preset i.comfort_base i.override_cfg in
    record {
      ts = i.now;
      up = leb_ℤ (pos 0) delta;
      delta = round_to 10 delta;
      in_comfort = i.in_comfort;
      presence_level = i.presence_level;
    }

-- the gate: such a change is not representative
unfoldable pub skipped : StatInput → Bool
skipped i = is_away i.preset || (str_eq i.presence_level "away" || i.window_open)

unfoldable pub record_override_stat : StatInput → ℤ → List OverrideStat → List OverrideStat
unfolding newest observation skipped
record_override_stat i clamped stats =
    if skipped i then stats else newest stats_cap (stats ++ (observation i clamped ∷ []))

length-newest : (cap : ℕ) (xs : List OverrideStat) → length (newest cap xs) ≤ cap
unfolding newest
length-newest cap [] = omega arith
length-newest cap (x ∷ xs) = elim (Bool-cases (leb (length (x ∷ xs)) cap)) [
  | inl e ↦ rw e (ground (arith, e))
  | inr e ↦ rw e (length-newest cap xs)
]

pub length-record_override_stat :
    (i : StatInput) (clamped : ℤ) (stats : List OverrideStat)
    → length stats ≤ stats_cap
    → length (record_override_stat i clamped stats) ≤ stats_cap
unfolding record_override_stat
length-record_override_stat i clamped stats h = elim (Bool-cases (skipped i)) [
  | inl e ↦ rw e h
  | inr e ↦ rw e (length-newest stats_cap (stats ++ (observation i clamped ∷ [])))
]
