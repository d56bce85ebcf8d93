-- ===== src/Tests/Hub.antt =====
-- Runs of the boiler, the load shedding and the flow temperature.
use poise_thermostat.Base.{
  ℕ, ◌≡◌, refl, Bool, true, false, not, Option, none, some, List, [], ◌∷◌, ◌++◌, arith, ◌⊎◌, inl,
  inr, All, map, keep,
}
use poise_thermostat.Base.Int.{ℤ, pos, negsuc, ◌≤ℤ◌, ◌<ℤ◌, ◌+ℤ◌, ◌-ℤ◌, neg_ℤ, seconds, finite}
use poise_thermostat.Boiler.{
  Timing, BoilerState, fresh_state, step_boiler, restore_boiler_state, boiler_state_to_payload,
}
use poise_thermostat.Boiler.Cycle.{
  BoilerTick, switch_times, Dwells, switch_times-Dwells, after, run, heat_is_served,
}
use poise_thermostat.Boiler.Restart.{restore-payload}
use poise_thermostat.Demand.{
  ZoneRequest, aggregate_boiler_demand, resolve_load_shedding, flow_requests,
  resolve_flow_temperature, frost_heat_request,
}
use poise_thermostat.Demand.Boiler.{aggregate-frost_heat_request}
use poise_thermostat.Demand.Shedding.{Sheds, resolve_load_shedding-IsShedding}
use poise_thermostat.Demand.Flow.{FlowServes, resolve_flow_temperature-serves}
use poise_thermostat.Tests.Fixtures.{zone}

abbrev limits : Timing
limits = record {
  activation_delay_s = seconds 60;
  min_on_s = seconds 300;
  min_off_s = seconds 300;
  keepalive_s = pos 0;
}

abbrev day : List BoilerTick
day =
    (true, seconds 10, true)
    ∷ (true, seconds 80, true)
    ∷ (false, seconds 100, true)
    ∷ (false, seconds 400, true)
    ∷ []

day_switches : switch_times limits fresh_state day ≡ seconds 80 ∷ seconds 400 ∷ []
unfolding switch_times step_boiler poise_thermostat.Base.Int.leb_ℤ ◌-ℤ◌
    poise_thermostat.Base.Int.ltb_ℤ
day_switches = refl

switch_times-Dwells_example :
    Dwells limits fresh_state.on fresh_state.last_switch_mono (switch_times limits fresh_state day)
unfolding switch_times
switch_times-Dwells_example = switch_times-Dwells limits fresh_state day

heat_is_served_example :
    (after limits
      (run limits (after limits fresh_state (true, seconds 10, true)) [])
      (true, seconds 80, false)).on
    ≡ true
unfolding ◌-ℤ◌
heat_is_served_example =
    heat_is_served limits fresh_state (seconds 10) (seconds 80) true false [] refl refl tt
      (ground arith) (ground arith)

-- a state that was switched on at 80 s, stored at 100 s and restored an hour later
abbrev running : BoilerState
running = record fresh_state { on = true; last_switch_mono = seconds 80 }

abbrev rebooted : BoilerState × Bool
rebooted =
    restore_boiler_state
      (some (boiler_state_to_payload running (seconds 100) (seconds 50_000) true)) (seconds 20)
      (seconds 53_600)

restore-payload_example :
    (rebooted.0.on ≡ true)
    × (rebooted.1 ≡ true)
    × (seconds 20 -ℤ rebooted.0.last_switch_mono
        ≡ (seconds 100 -ℤ seconds 80) +ℤ (seconds 53_600 -ℤ seconds 50_000))
unfolding restore_boiler_state
restore-payload_example =
    restore-payload running (seconds 100) (seconds 50_000) (seconds 20) (seconds 53_600) true
      (omega arith) (omega arith)

abbrev zones : List ZoneRequest
zones =
    zone "living" (pos 1500) (pos 2_000_000)
    ∷ zone "bath" (pos 300) (pos 1_000_000)
    ∷ zone "study" (pos 900) (pos 1_500_000)
    ∷ []

-- the two zones nearest to their setpoints cover two kilowatts
two_shed : (resolve_load_shedding zones (finite (negsuc 1_999_999))).shed ≡ "bath" ∷ "study" ∷ []
unfolding resolve_load_shedding poise_thermostat.Base.Int.leb_ℤ poise_thermostat.Base.Int.eqb_ℤ
    poise_thermostat.Base.Int.ltb_ℤ ◌+ℤ◌
two_shed = refl

resolve_load_shedding-IsShedding_example :
    Sheds zones (pos 2_000_000) (resolve_load_shedding zones (finite (negsuc 1_999_999)))
resolve_load_shedding-IsShedding_example =
    resolve_load_shedding-IsShedding zones (negsuc 1_999_999) (omega arith)

aggregate-frost_heat_request_example :
    (aggregate_boiler_demand (zones ++ frost_heat_request "lost" (pos 0) none ∷ []) 9 none).active
    ≡ true
aggregate-frost_heat_request_example =
    aggregate-frost_heat_request zones [] "lost" (pos 0) none 9 none

resolve_flow_temperature-serves_example :
    FlowServes
      (flow_requests zones)
      (pos 55_000)
      (pos 2000)
      (resolve_flow_temperature zones (some (pos 44_000)) (pos 55_000) (pos 2000)).target
resolve_flow_temperature-serves_example =
    resolve_flow_temperature-serves zones (some (pos 44_000)) (pos 55_000) (pos 2000) (omega arith)
