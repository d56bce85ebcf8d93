-- ===== src/Tests/Targets.antt =====
-- Runs of the write target and of the small decisions of a tick.
use poise_thermostat.Base.{
  ◌≡◌, refl, Bool, true, false, not, ◌&&◌, ◌||◌, Option, none, some, List, [], ◌∷◌, arith, ◌⊎◌, inl,
  inr,
}
use poise_thermostat.Base.Int.{ℤ, pos, ◌≤ℤ◌, max_ℤ, ltb_ℤ, eqb_ℤ}
use poise_thermostat.Base.Round.{round1}
use poise_thermostat.Tick.{
  resolve_write_target, health_floor, clamp_override, frost_rescue_target, no_reading,
}
use poise_thermostat.Tick.Target.{
  resolve_write_target-health, clamp_override-changes, ReachesMin, written,
}
use poise_thermostat.Tick.Gates.{frost_rescue_target-settles}

-- a manual value of 5 degrees in a band from 19 to 24 with a mould floor of 16
abbrev tick_target : ℤ → Bool → ℤ
tick_target manual opened =
    (written opened (some (pos 5000)) (pos 19_000) (pos 24_000) manual "heating" (pos 7000)
      (some (pos 16_000)) (pos 30_000) (some (pos 5000)) true).target

open_window : tick_target (pos 21_000) true ≡ pos 16_000
unfolding resolve_write_target round1 poise_thermostat.Constraints.resolve_constraints
    poise_thermostat.Constraints.binding_floor poise_thermostat.Base.first_best
    poise_thermostat.Constraints.binding_cap ltb_ℤ poise_thermostat.Constraints.cap_beats max_ℤ
    poise_thermostat.Constraints.floor_beats eqb_ℤ
open_window = refl

resolve_write_target-health_example :
    (health_floor (pos 7000) (some (pos 16_000)) ≤ℤ tick_target (pos 21_000) false)
    × ReachesMin (some (pos 5000)) (tick_target (pos 21_000) false)
unfolding resolve_write_target max_ℤ
resolve_write_target-health_example =
    resolve_write_target-health false (some (pos 5000)) (pos 19_000) (pos 24_000) (pos 21_000)
      "heating" (pos 7000) (some (pos 16_000)) (pos 30_000) (some (pos 5000)) true refl refl refl

clamp_override-changes_example :
    eqb_ℤ (clamp_override (pos 26_000) (pos 19_000) (pos 24_000) true) (pos 26_000)
    ≡ not (ltb_ℤ (pos 26_000) (pos 19_000) || (true && ltb_ℤ (pos 24_000) (pos 26_000)))
clamp_override-changes_example =
    clamp_override-changes (pos 26_000) (pos 19_000) (pos 24_000) true (omega arith)

rescue : frost_rescue_target true none (some "off") (pos 7000) none (pos 200) ≡ some (pos 7000)
unfolding frost_rescue_target round1 max_ℤ
rescue = refl

frost_rescue_target-settles_example :
    frost_rescue_target true
      (some (round1 (health_floor (pos 7000) none)))
      (some "heat")
      (pos 7000)
      none
      (pos 200)
    ≡ none
unfolding no_reading
frost_rescue_target-settles_example =
    frost_rescue_target-settles true (some "heat") (pos 7000) none (pos 200) refl (omega arith)
