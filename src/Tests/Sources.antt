-- ===== src/Tests/Sources.antt =====
-- Runs of the groups of shared sources and of the dynamics classes.
use poise_thermostat.Base.{◌≡◌, refl, Bool, true, false, Option, none, some, List, [], ◌∷◌}
use poise_thermostat.Base.Int.{ℤ, pos}
use poise_thermostat.Demand.{ZoneRequest}
use poise_thermostat.Demand.Groups.{group_call_for_heat, resolve_source_policy}
use poise_thermostat.Dynamics.{fast_air, slow_hydronic, very_slow, classify_dynamics}
use poise_thermostat.Dynamics.Throttle.{nudge_times}
use poise_thermostat.Tests.Fixtures.{zone}

abbrev members : List ZoneRequest
members =
    record (zone "attic" (pos 500) (pos 1_000_000)) {
      heating = true;
      compressor_group = some "outdoor";
      source_pref = some "heat_pump";
    }
    ∷ record (zone "study" (pos 500) (pos 1_000_000)) {
      heating = false;
      compressor_group = some "outdoor";
    }
    ∷ record (zone "cellar" (pos 500) (pos 1_000_000)) {
      heating = true;
      compressor_group = none;
      source_pref = some "auto";
    }
    ∷ []

-- a zone that rests does not end the call of its group
outdoor_calls : group_call_for_heat members ≡ ("outdoor", true) ∷ []
unfolding group_call_for_heat
outdoor_calls = refl

sources_granted :
    resolve_source_policy (λ s. s) members "radiator"
    ≡ ("attic", "heat_pump") ∷ ("cellar", "radiator") ∷ []
unfolding resolve_source_policy
sources_granted = refl

-- an override wins, and "auto" reads the capabilities
floor_chosen : classify_dynamics "climate" true true (some "very_slow") ≡ very_slow
unfolding classify_dynamics
floor_chosen = refl

air_detected : classify_dynamics "climate" true false (some "auto") ≡ fast_air
unfolding classify_dynamics
air_detected = refl

valve_detected : classify_dynamics "switch" true true none ≡ slow_hydronic
unfolding classify_dynamics
valve_detected = refl

nudges_throttled :
    nudge_times (pos 300_000) none (pos 0 ∷ pos 60_000 ∷ pos 300_000 ∷ pos 360_000 ∷ [])
    ≡ pos 0 ∷ pos 300_000 ∷ []
unfolding nudge_times poise_thermostat.Dynamics.regulation_throttled poise_thermostat.Base.Int.leb_ℤ
    poise_thermostat.Base.Int.ltb_ℤ poise_thermostat.Base.Int.◌-ℤ◌
nudges_throttled = refl
