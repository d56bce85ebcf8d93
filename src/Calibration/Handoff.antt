-- ===== src/Calibration/Handoff.antt =====
-- Handing the offset back: `_stage_calibration_handoff` of custom_components/poise/ha/phase_actuate.py is
-- fail-closed.
use Prim.Native.String.{String}
use poise_thermostat.Base.{
  ◌≡◌, refl, sym, ◌∙◌, inl, inr, ◌⊎◌, true, false, Option, none, some, is_some, arith, Bool-cases,
  if-elim, ap,
}
use poise_thermostat.Base.Int.{ℤ}
use mathlib.Core.Path.{subst}
use poise_thermostat.Calibration.{
  CalibrationState, observe_calibration_restore, commit_cal_restore, clear_calibration_ownership,
  within_half_step,
}
use poise_thermostat.Calibration.Segments.{
  CalibrationTick, CalibrationMeta, restore_due, nothing_to_hand_off, CalibrationPlan, Reading,
  gone, unreadable, readable, HandoffResult, execution, handback_target, hand_back, hand_off,
  handoff_of, stage_calibration_handoff,
}

-- How a segment that hands `baseline` back may end: it waits, or the entity is gone and the owner stays on
-- record, or the device shows the offset that belongs to the baseline and the ownership is cleared.
abbrev pub EndsSafely : CalibrationState → CalibrationTick → ℤ → HandoffResult → Type 0
EndsSafely s k baseline r =
    (r.handoff_pending ≡ true) × (r.state.cal_baseline ≡ some baseline)
    ⊎ (r.handoff_pending ≡ false)
      × (r.state ≡ s)
      × (r.plan ≡ none)
      × (k.owned_meta ≡ gone ⊎ s.cal_entity ≡ none)
    ⊎ (r.handoff_pending ≡ false)
      × (r.state ≡ clear_calibration_ownership s)
      × (r.plan ≡ none)
      × (meta : CalibrationMeta) × (k.owned_meta ≡ readable meta)
      × (within_half_step meta.reported (handback_target baseline meta) meta.step ≡ true)

-- Every dispatch is the baseline on the present grid.
abbrev pub Restores : CalibrationTick → ℤ → Option CalibrationPlan → Type 0
Restores k baseline none = Unit
Restores k baseline (some p) =
    (meta : CalibrationMeta) × (k.owned_meta ≡ readable meta)
    × (p ≡ record { value = some (handback_target baseline meta); restore = true })

commit_cal_restore-baseline :
    (s : CalibrationState) (k : CalibrationTick) (entity : String) (before target : ℤ)
    → (commit_cal_restore s (execution k entity before target) k.now).cal_baseline ≡ s.cal_baseline
unfolding commit_cal_restore execution
commit_cal_restore-baseline s k entity before target = ground arith

hand_back-ends :
    (s : CalibrationState) (k : CalibrationTick) (b : ℤ) (entity : String) (meta : CalibrationMeta)
    → s.cal_baseline ≡ some b
    → k.owned_meta ≡ readable meta
    → EndsSafely s k b (hand_back s k b entity meta)
      × Restores k b (hand_back s k b entity meta).plan
unfolding hand_back observe_calibration_restore
hand_back-ends s k b entity meta e m =
    let target = handback_target b meta in
    elim (Bool-cases (within_half_step meta.reported target meta.step)) [
      | inl w ↦ rw (ap is_some e, w) (inr (inr (refl, refl, refl, meta, m, w)), tt)
      | inr w ↦ elim (Bool-cases (restore_due s.last_cal_restore_ts k.now)) [
        | inl d ↦
            rw (ap is_some e, w, d)
              (
                inl (refl, commit_cal_restore-baseline s k entity meta.reported target ∙ e),
                (meta, m, refl),
              )
        | inr d ↦ rw (ap is_some e, w, d) (inl (refl, e), tt)
      ]
    ]

hand_off-ends :
    (s : CalibrationState) (k : CalibrationTick) (b : ℤ) (e : Option String) (r : Reading)
    → s.cal_baseline ≡ some b
    → s.cal_entity ≡ e
    → k.owned_meta ≡ r
    → EndsSafely s k b (hand_off s k b e r) × Restores k b (hand_off s k b e r).plan
unfolding hand_off
hand_off-ends s k b none r h e m = (inr (inl (refl, refl, refl, inr e)), tt)
hand_off-ends s k b (some entity) gone h e m = (inr (inl (refl, refl, refl, inl m)), tt)
hand_off-ends s k b (some entity) unreadable h e m = (inl (refl, h), tt)
hand_off-ends s k b (some entity) (readable meta) h e m = hand_back-ends s k b entity meta h m

-- Off the live path, with a baseline on record, the handoff waits with the baseline kept, or ends
-- with nothing changed where the entity is gone or none is on record, or clears the ownership where
-- the device shows the offset that the baseline has on its grid; its only dispatch is that offset.
pub handoff_is_safe :
    (s : CalibrationState) (k : CalibrationTick) (b : ℤ)
    → s.cal_baseline ≡ some b
    → k.is_live ≡ false
    → EndsSafely s k b (stage_calibration_handoff s k)
      × Restores k b (stage_calibration_handoff s k).plan
unfolding stage_calibration_handoff handoff_of
handoff_is_safe s k b h l =
    subst (λ o. EndsSafely s k b (handoff_of o s k) × Restores k b (handoff_of o s k).plan) (sym h)
      (if-elim (λ (r : HandoffResult). EndsSafely s k b r × Restores k b r.plan) k.is_live
        (nothing_to_hand_off s) (hand_off s k b s.cal_entity k.owned_meta)
        (λ t. ground (arith, t, l))
        (λ _. hand_off-ends s k b s.cal_entity k.owned_meta h refl refl))
