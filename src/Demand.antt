-- ===== src/Demand.antt =====
-- The zones' shared resources in custom_components/poise/control/hub_aggregate.py: the boiler demand,
-- load shedding, the flow temperature, and the groups and sources.  Temperatures, powers and demands
-- are in thousandths; a power times a demand is in millionths.
pub mod Boiler
pub mod Shedding
pub mod Flow
pub mod Groups
use Prim.Native.String.{String}
use text.Mathlib.Text.{◌==◌ as str_eq}
use poise_thermostat.Base.{
  ℕ, ◌*◌, leb, Bool, true, false, not, ◌&&◌, ◌||◌, Option, none, some, List, [], ◌∷◌, if◌then◌else◌,
  get_or, is_some, keep, first_best, length, map,
}
use poise_thermostat.Base.Int.{
  ℤ, pos, negsuc, ◌+ℤ◌, ◌-ℤ◌, ◌*ℤ◌, ltb_ℤ, leb_ℤ, eqb_ℤ, max_ℤ, min_ℤ, neg_ℤ, abs_ℤ, Float, finite,
  non_finite,
}
use poise_thermostat.Base.Round.{round_to}
use poise_thermostat.Tick.{frost_floor_c}

pub record ZoneRequest : Type 0 where
  pub zone_id : String
  pub heating : Bool
  pub hvac_action : String
  pub heat_demand : ℤ
  pub comfort_gap : ℤ
  pub frost_active : Bool
  pub controls_boiler : Bool
  pub mono_ts : ℤ
  pub declared_power : Option ℤ
  pub flow_temp_request : Option ℤ
  pub source_pref : Option String
  pub compressor_group : Option String
  pub health_active : Bool
  pub frozen : Bool

unfoldable pub clamp01 : ℤ → ℤ
clamp01 v = min_ℤ (max_ℤ v (pos 0)) (pos 1000)

-- `_num` on a value that has been read as a float; `none` is a value that is no number
unfoldable pub num : Option Float → Option ℤ
num none = none
num (some (finite v)) = some v
num (some non_finite) = none

abbrev one_or_zero : Bool → ℤ
one_or_zero true = pos 1000
one_or_zero false = pos 0

unfoldable pub zone_heat_demand : Bool → Option ℤ → Bool → ℤ
zone_heat_demand heating tpi_duty frozen =
    if frozen then pos 0 else get_or tpi_duty (one_or_zero heating)

-- The keys of a zone's published data that the hub reads.  `cause_mould` stands for the test that the
-- binding lower cause names mould.
pub record ZoneData : Type 0 where
  pub sensor_frozen : Bool
  pub heating : Bool
  pub cause_mould : Bool
  pub tpi_duty : Option Float
  pub current_temperature : Option Float
  pub heat_sp : Option Float

-- The zone's configuration beside its data.
pub record ZoneConfig : Type 0 where
  pub controls_boiler : Bool
  pub declared_power : Option ℤ
  pub compressor_group : Option String
  pub flow_temp_request : Option ℤ
  pub source_pref : Option String

-- `_FROST_PLAUSIBLE_MIN_C <= room <= FROST_FLOOR_C + _FROST_MARGIN_C`
unfoldable pub frost_reading : Option ℤ → Bool
frost_reading none = false
frost_reading (some room) = leb_ℤ (neg_ℤ (pos 20_000)) room && leb_ℤ room (frost_floor_c +ℤ pos 500)

abbrev gap_of : Option ℤ → Option ℤ → ℤ
gap_of none sp = pos 0
gap_of (some room) none = pos 0
gap_of (some room) (some sp) = sp -ℤ room

unfoldable pub zone_request_from_data : String → ZoneData → ZoneConfig → ℤ → ZoneRequest
unfolding num zone_heat_demand frost_reading
zone_request_from_data zone_id d c mono_ts =
    let heating = d.heating && not d.sensor_frozen in
    let room = num d.current_temperature in
    record {
      zone_id = zone_id;
      heating = heating;
      hvac_action = if heating then "heating" else "idle";
      heat_demand = zone_heat_demand heating (num d.tpi_duty) d.sensor_frozen;
      comfort_gap = gap_of room (num d.heat_sp);
      frost_active = frost_reading room;
      controls_boiler = c.controls_boiler;
      mono_ts = mono_ts;
      declared_power = c.declared_power;
      flow_temp_request = c.flow_temp_request;
      source_pref = c.source_pref;
      compressor_group = c.compressor_group;
      health_active = d.cause_mould;
      frozen = d.sensor_frozen;
    }

-- the synthetic call for heat of a zone whose sensor is gone (AR-05)
unfoldable pub frost_heat_request : String → ℤ → Option ℤ → ZoneRequest
frost_heat_request zone_id mono_ts declared_power = record {
  zone_id = zone_id;
  heating = true;
  hvac_action = "heating";
  heat_demand = pos 1000;
  comfort_gap = pos 0;
  frost_active = true;
  controls_boiler = true;
  mono_ts = mono_ts;
  declared_power = declared_power;
  flow_temp_request = none;
  source_pref = none;
  compressor_group = none;
  health_active = false;
  frozen = false;
}

pub record BoilerDemand : Type 0 where
  pub active : Bool
  pub active_count : ℕ
  pub weighted_demand : ℤ
  pub frost_override : Bool
  pub frost_zone_id : Option String
  pub frost_excluded : List String

unfoldable pub weight : ZoneRequest → ℤ
unfolding clamp01
weight r = get_or r.declared_power (pos 0) *ℤ clamp01 r.heat_demand

unfoldable pub sum_weights : List ZoneRequest → ℤ
unfolding weight
sum_weights [] = pos 0
sum_weights (r ∷ rs) = weight r +ℤ sum_weights rs

unfoldable pub calling : List ZoneRequest → List ZoneRequest
calling requests = keep (λ r. r.heating) (keep (λ r. r.controls_boiler) requests)

-- `next((r.zone_id for r in requests if r.frost_active and r.controls_boiler), None)`
unfoldable pub frost_zone : List ZoneRequest → Option String
frost_zone [] = none
frost_zone (r ∷ rs) = if r.frost_active && r.controls_boiler then some r.zone_id else frost_zone rs

abbrev reaches : Option ℤ → ℤ → Bool
reaches none weighted = false
reaches (some threshold) weighted = leb_ℤ (pos 1000 *ℤ threshold) weighted

unfoldable pub aggregate_boiler_demand : List ZoneRequest → ℕ → Option ℤ → BoilerDemand
unfolding calling frost_zone sum_weights
aggregate_boiler_demand requests count_threshold power_threshold =
    let active_count = length (calling requests) in
    let weighted = sum_weights (calling requests) in
    let frost_id = frost_zone requests in
    record {
      active =
          is_some frost_id
          || (leb count_threshold active_count || reaches power_threshold weighted);
      active_count = active_count;
      weighted_demand = round_to 1000 weighted;
      frost_override = is_some frost_id;
      frost_zone_id = frost_id;
      frost_excluded =
          map (λ r. r.zone_id) (keep (λ r. r.frost_active && not r.controls_boiler) requests);
    }

pub record SheddingResult : Type 0 where
  pub shed : List String
  pub freed_power : ℤ
  pub deficit : ℤ

-- a declared power other than 0
abbrev truthy : Option ℤ → Bool
truthy none = false
truthy (some p) = not (eqb_ℤ p (pos 0))

unfoldable pub sheddable : ZoneRequest → Bool
sheddable r = r.heating && (truthy r.declared_power && (not r.frost_active && not r.health_active))

-- `sorted(..., key=comfort_gap)`, which is stable
unfoldable pub insert_by_gap : ZoneRequest → List ZoneRequest → List ZoneRequest
insert_by_gap x [] = x ∷ []
insert_by_gap x (y ∷ ys) =
    let rest = insert_by_gap x ys in
    if ltb_ℤ y.comfort_gap x.comfort_gap then y ∷ rest else x ∷ y ∷ ys

unfoldable pub sort_by_gap : List ZoneRequest → List ZoneRequest
unfolding insert_by_gap
sort_by_gap [] = []
sort_by_gap (x ∷ xs) = insert_by_gap x (sort_by_gap xs)

abbrev pub power : ZoneRequest → ℤ
power r = get_or r.declared_power (pos 0)

-- the loop over the candidates: the zones shed, and the power freed
unfoldable pub shed_from : ℤ → ℤ → List ZoneRequest → List ZoneRequest × ℤ
shed_from deficit freed [] = ([], freed)
shed_from deficit freed (r ∷ rs) =
    let (shed, total) = shed_from deficit (freed +ℤ power r) rs in
    if leb_ℤ deficit freed then ([], freed) else (r ∷ shed, total)

unfoldable pub candidates : List ZoneRequest → List ZoneRequest
unfolding sort_by_gap sheddable
candidates requests = sort_by_gap (keep sheddable requests)

unfoldable pub resolve_load_shedding : List ZoneRequest → Float → SheddingResult
unfolding shed_from candidates
resolve_load_shedding requests non_finite = record {
  shed = [];
  freed_power = pos 0;
  deficit = pos 0;
}
resolve_load_shedding requests (finite available_power) =
    let deficit = neg_ℤ available_power in
    let (shed, freed) = shed_from deficit (pos 0) (candidates requests) in
    if leb_ℤ (pos 0) available_power
    then record { shed = []; freed_power = pos 0; deficit = pos 0 }
    else record { shed = map (λ r. r.zone_id) shed; freed_power = freed; deficit = deficit }

pub record FlowDecision : Type 0 where
  pub target : Option ℤ
  pub requested_max : Option ℤ
  pub changed : Bool

-- `[r.flow_temp_request for r in requests if r.heating and r.flow_temp_request is not None]`
unfoldable pub flow_requests : List ZoneRequest → List ℤ
flow_requests [] = []
flow_requests (r ∷ rs) =
    let rest = flow_requests rs in
    if r.heating then elim r.flow_temp_request [ none ↦ rest | some f ↦ f ∷ rest ] else rest

unfoldable pub flow_on : Option ℤ → Option ℤ → ℤ → ℤ → FlowDecision
flow_on none current max_flow hysteresis = record {
  target = none;
  requested_max = none;
  changed = is_some current;
}
flow_on (some highest) none max_flow hysteresis =
    let requested = min_ℤ highest max_flow in
    record { target = some requested; requested_max = some requested; changed = true }
flow_on (some highest) (some current) max_flow hysteresis =
    let requested = min_ℤ highest max_flow in
    if ltb_ℤ (abs_ℤ (requested -ℤ current)) hysteresis
    then record { target = some current; requested_max = some requested; changed = false }
    else record { target = some requested; requested_max = some requested; changed = true }

unfoldable pub resolve_flow_temperature : List ZoneRequest → Option ℤ → ℤ → ℤ → FlowDecision
unfolding flow_requests flow_on
resolve_flow_temperature requests current max_flow hysteresis =
    flow_on (first_best (λ x b. ltb_ℤ b x) (flow_requests requests)) current max_flow hysteresis
