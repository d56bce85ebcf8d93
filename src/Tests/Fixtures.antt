-- ===== src/Tests/Fixtures.antt =====
-- The baselines, gate inputs and zones on which the tests run.
use Prim.Native.String.{String}
use poise_thermostat.Base.{true, false, none, some, []}
use poise_thermostat.Base.Int.{ℤ, pos, finite}
use poise_thermostat.Override.{External}
use poise_thermostat.WriteEconomy.{GateInput, unknown}
use poise_thermostat.Demand.{ZoneRequest}

-- the baselines after start
abbrev pub fresh : External
fresh = record {
  last_written_sp = none;
  prev_device_sp = none;
  last_commanded_hvac = none;
  prev_device_mode = none;
  last_commanded_fan = none;
  prev_device_fan = none;
  last_sp_write_ts = none;
  last_hvac_cmd_ts = none;
  last_fan_cmd_ts = none;
  pre_write_sp = none;
  own_write_ctx_ids = [];
  last_sp_ctx_id = none;
  last_cmd_sp = none;
  cmd_episode_ts = none;
  reasserts_suppressed = 0;
  last_mode_nudge_ts = none;
  mode_reasserts_suppressed = 0;
}

-- 21 degrees were written at 0 s
abbrev pub commanded : External
commanded = record fresh {
  last_written_sp = some (pos 21_000);
  last_sp_write_ts = some (pos 0);
  last_cmd_sp = some (pos 21_000);
  cmd_episode_ts = some (pos 0);
}

-- a target of 21 degrees on a device that reports 19
abbrev pub wanting : GateInput
wanting = record {
  target = finite (pos 21_000);
  online = true;
  adopted_sp = none;
  mode_override = none;
  mode_nudge_blocked = false;
  reg_throttled = false;
  actual_sp = some (pos 19_000);
  step = pos 500;
  mode_changed = false;
  provenance = unknown;
}

abbrev pub zone : String → ℤ → ℤ → ZoneRequest
zone id gap power = record {
  zone_id = id;
  heating = true;
  hvac_action = "heating";
  heat_demand = pos 1000;
  comfort_gap = gap;
  frost_active = false;
  controls_boiler = true;
  mono_ts = pos 0;
  declared_power = some power;
  flow_temp_request = some (pos 45_000);
  source_pref = none;
  compressor_group = none;
  health_active = false;
  frozen = false;
}

-- a zone in frost protection
abbrev pub frozen_zone : ZoneRequest
frozen_zone = record (zone "cellar" (pos 2000) (pos 1_000_000)) { frost_active = true }
