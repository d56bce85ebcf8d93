-- ===== src/Calibration/Writing.antt =====
-- The second calibration segment, `_stage_calibration_write` of custom_components/poise/ha/phase_actuate.py,
-- and both segments in the order in which ha/tick_orchestrator.py runs them.
use Prim.Native.String.{String}
use text.Mathlib.Text.{◌==◌ as str_eq}
use poise_thermostat.Base.{
  Bool, true, false, not, Option, none, some, [], ◌∷◌, ◌++◌, if◌then◌else◌, is_some,
}
use poise_thermostat.Base.Int.{ℤ, ltb_ℤ}
use poise_thermostat.Calibration.{
  CalibrationState, local_calibration, snap_offset, calibration_write_due, calibration_converged,
  calibration_accumulation_allowed, calibration_diverged, observe_calibration_resume,
  observe_calibration_orphaned, commit_cal_write,
}
use poise_thermostat.Calibration.Segments.{
  CalibrationMeta, Reading, readable, is_gone, is_readable, CalibrationTick, CalibrationPlan,
  unapplied, entity_unsafe, entity_mismatch, Edges, WriteResult, execution,
  stage_calibration_handoff,
}

abbrev pub segment_ended : CalibrationState → Edges → WriteResult
segment_ended s edges = record { state = s; plan = none; health_updates = edges; diverged = false }

abbrev pub newer : Option ℤ → ℤ → Bool
newer none t = true
newer (some anchor) t = ltb_ℤ anchor t

unfoldable pub new_offset : CalibrationTick → CalibrationMeta → ℤ → ℤ
unfolding local_calibration snap_offset
new_offset k meta trv_temp =
    snap_offset (local_calibration k.room_decide trv_temp meta.reported meta.lo meta.hi) meta.step
      meta.lo meta.hi

-- the segment after the quarantine
unfoldable pub write_offset :
    CalibrationState → CalibrationTick → String → CalibrationMeta → ℤ → Edges → WriteResult
unfolding calibration_converged calibration_diverged calibration_accumulation_allowed new_offset
    calibration_write_due commit_cal_write execution
write_offset s k entity meta trv_temp edges =
    let converged = calibration_converged meta.reported s.last_cal_value meta.step in
    let diverged = calibration_diverged converged s.last_cal_write_ts k.now in
    let edges' = edges ++ (unapplied, diverged) ∷ [] in
    let new = new_offset k meta trv_temp in
    if not (
      calibration_accumulation_allowed meta.reported s.last_cal_value meta.step
        (newer s.last_cal_dispatch_wall_ts k.last_updated))
    then record { state = s; plan = none; health_updates = edges'; diverged = diverged }
    else if calibration_write_due new meta.reported s.last_cal_write_ts k.now
    then record {
      state = commit_cal_write s (execution k entity meta.reported new) k.now;
      plan = some (record { value = some new; restore = false });
      health_updates = edges';
      diverged = diverged;
    }
    else record {
      state = s;
      plan = some (record { value = none; restore = false });
      health_updates = edges';
      diverged = diverged;
    }

-- the quarantine after a restart
unfoldable pub write_if_resumed :
    CalibrationState → CalibrationTick → String → CalibrationMeta → ℤ → Edges → WriteResult
unfolding observe_calibration_resume write_offset
write_if_resumed s k entity meta trv_temp edges =
    let (s', engaged) = observe_calibration_resume s meta.reported k.wall_now in
    if engaged then segment_ended s' edges else write_offset s' k entity meta trv_temp edges

abbrev pub other_entity : Option String → String → Bool
other_entity none entity = false
other_entity (some owned) entity = not (str_eq owned entity)

unfoldable pub write_measured :
    CalibrationState → CalibrationTick → String → CalibrationMeta → Option ℤ → Edges → WriteResult
unfolding write_if_resumed
write_measured s k entity meta none edges = segment_ended s edges
write_measured s k entity meta (some trv_temp) edges =
    write_if_resumed s k entity meta trv_temp edges

-- the identity gate
unfoldable pub write_identified :
    CalibrationState → CalibrationTick → String → CalibrationMeta → WriteResult
unfolding observe_calibration_orphaned write_measured
write_identified s k entity meta =
    let (s', released) = observe_calibration_orphaned s (is_gone k.owned_meta) in
    if other_entity s.cal_entity entity
    then segment_ended s' ((entity_unsafe, false) ∷ (entity_mismatch, not released) ∷ [])
    else write_measured s k entity meta k.trv_temp
        ((entity_unsafe, false) ∷ (entity_mismatch, false) ∷ [])

unfoldable pub write_readable :
    CalibrationState → CalibrationTick → Option String → Reading → WriteResult
unfolding write_identified
write_readable s k (some entity) (readable meta) = write_identified s k entity meta
write_readable s k _ reading = segment_ended s ((entity_unsafe, not (is_readable reading)) ∷ [])

unfoldable pub stage_calibration_write : CalibrationState → CalibrationTick → WriteResult
unfolding write_readable
stage_calibration_write s k =
    if not k.is_live
    then segment_ended s
        ((unapplied, false) ∷ (entity_unsafe, false) ∷ (entity_mismatch, false) ∷ [])
    else if not k.online
    then segment_ended s []
    else write_readable s k k.discovered k.discovered_meta

-- one enabled tick
pub record CalibrationResult : Type 0 where
  pub state : CalibrationState
  pub handoff_pending : Bool
  pub plan : Option CalibrationPlan

unfoldable pub calibration_tick : CalibrationState → CalibrationTick → CalibrationResult
unfolding stage_calibration_handoff stage_calibration_write
calibration_tick s k =
    let h = stage_calibration_handoff s k in
    let w = stage_calibration_write h.state k in
    record {
      state = w.state;
      handoff_pending = h.handoff_pending;
      plan = if is_some h.plan then h.plan else w.plan;
    }
