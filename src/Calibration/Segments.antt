-- ===== src/Calibration/Segments.antt =====
-- The inputs and results of the two calibration segments of a tick, and the first of them:
-- `_stage_calibration_handoff` of custom_components/poise/ha/phase_actuate.py.  Reading an entity and
-- writing to it are inputs of the tick.
use Prim.Native.String.{String}
use poise_thermostat.Base.{
  ℕ, Bool, true, false, not, Option, none, some, List, [], ◌∷◌, if◌then◌else◌,
}
use poise_thermostat.Base.Int.{ℤ, leb_ℤ, ◌-ℤ◌}
use poise_thermostat.Calibration.{
  CalibrationState, CalibrationExecution, calibration_min_interval_s, snap_offset, within_half_step,
  observe_calibration_restore, commit_cal_restore,
}

-- `CalibrationMeta` of ha/input_reader.py
pub record CalibrationMeta : Type 0 where
  pub reported : ℤ
  pub lo : ℤ
  pub hi : ℤ
  pub step : ℕ

-- What reading a calibration entity gives.
pub data Reading : Type 0 where
  gone unreadable : Reading
  readable : CalibrationMeta → Reading

abbrev pub is_gone : Reading → Bool
is_gone gone = true
is_gone _ = false

abbrev pub is_readable : Reading → Bool
is_readable (readable _) = true
is_readable _ = false

-- The inputs of both segments: the path that is live, the device, the discovered entity, the readings of
-- it and of the entity that is owned, and how a dispatch of this tick ends.
pub record CalibrationTick : Type 0 where
  pub is_live : Bool
  pub online : Bool
  pub discovered : Option String
  pub discovered_meta : Reading
  pub owned_meta : Reading
  pub trv_temp : Option ℤ
  pub room_decide : ℤ
  pub now : ℤ
  pub wall_now : ℤ
  pub last_updated : ℤ
  pub dispatch_success : Bool
  pub dispatch_wall_ts : ℤ

pub record CalibrationPlan : Type 0 where
  pub value : Option ℤ
  pub restore : Bool

pub data CalibrationIssue : Type 0 where
  unapplied entity_unsafe entity_mismatch restore_failed restore_clipped : CalibrationIssue

-- the health updates of a segment, in order
abbrev pub Edges : Type 0
Edges = List (CalibrationIssue × Bool)

pub record HandoffResult : Type 0 where
  pub state : CalibrationState
  pub handoff_pending : Bool
  pub health_updates : Edges
  pub plan : Option CalibrationPlan

pub record WriteResult : Type 0 where
  pub state : CalibrationState
  pub plan : Option CalibrationPlan
  pub health_updates : Edges
  pub diverged : Bool

unfoldable pub execution : CalibrationTick → String → ℤ → ℤ → CalibrationExecution
execution k entity pre_write_value value = record {
  success = k.dispatch_success;
  pre_write_value = pre_write_value;
  commanded_value = value;
  entity_id = entity;
  dispatch_wall_ts = k.dispatch_wall_ts;
}

abbrev pub restore_due : Option ℤ → ℤ → Bool
restore_due none now = true
restore_due (some ts) now = leb_ℤ calibration_min_interval_s (now -ℤ ts)

unfoldable pub handback_target : ℤ → CalibrationMeta → ℤ
unfolding snap_offset
handback_target baseline meta = snap_offset baseline meta.step meta.lo meta.hi

-- the segment where the owned entity can be read
unfoldable pub hand_back :
    CalibrationState → CalibrationTick → ℤ → String → CalibrationMeta → HandoffResult
unfolding observe_calibration_restore commit_cal_restore execution
hand_back s k baseline entity meta =
    let target = handback_target baseline meta in
    let (s', confirmed) = observe_calibration_restore s meta.reported meta.step target in
    let edges =
      (restore_failed, false)
      ∷ (restore_clipped, not (within_half_step target baseline meta.step))
      ∷ [] in
    if confirmed
    then record { state = s'; handoff_pending = false; health_updates = edges; plan = none }
    else if restore_due s.last_cal_restore_ts k.now
    then record {
      state = commit_cal_restore s' (execution k entity meta.reported target) k.now;
      handoff_pending = true;
      health_updates = edges;
      plan = some (record { value = some target; restore = true });
    }
    else record { state = s'; handoff_pending = true; health_updates = edges; plan = none }

abbrev pub nothing_to_hand_off : CalibrationState → HandoffResult
nothing_to_hand_off s = record {
  state = s;
  handoff_pending = false;
  health_updates = (restore_failed, false) ∷ (restore_clipped, false) ∷ [];
  plan = none;
}

-- the segment where ownership stands and the path is no longer live
unfoldable pub hand_off :
    CalibrationState → CalibrationTick → ℤ → Option String → Reading → HandoffResult
unfolding hand_back
hand_off s k baseline (some entity) (readable meta) = hand_back s k baseline entity meta
hand_off s k baseline (some entity) unreadable = record {
  state = s;
  handoff_pending = true;
  health_updates = (restore_failed, true) ∷ [];
  plan = none;
}
hand_off s k baseline _ _ = record {
  state = s;
  handoff_pending = false;
  health_updates = (restore_failed, true) ∷ [];
  plan = none;
}

unfoldable pub handoff_of : Option ℤ → CalibrationState → CalibrationTick → HandoffResult
unfolding hand_off
handoff_of none s k = nothing_to_hand_off s
handoff_of (some baseline) s k =
    if k.is_live then nothing_to_hand_off s else hand_off s k baseline s.cal_entity k.owned_meta

unfoldable pub stage_calibration_handoff : CalibrationState → CalibrationTick → HandoffResult
unfolding handoff_of
stage_calibration_handoff s k = handoff_of s.cal_baseline s k
