-- ===== src/Calibration/Evidence.antt =====
-- The evidence that a further offset needs: the quarantine after a restart and the evidence gate of
-- `_stage_calibration_write` in custom_components/poise/ha/phase_actuate.py, over runs.
use Prim.Native.String.{String}
use poise_thermostat.Base.{
  ◌≡◌, refl, sym, ap, inl, inr, ◌⊎◌, Bool, true, false, not, ◌&&◌, Option, none, some, List, [],
  ◌∷◌, if◌then◌else◌, is_some, arith, Bool-cases, if-elim, All,
}
use poise_thermostat.Base.Int.{ℤ, ◌≤ℤ◌, ltb_ℤ}
use poise_thermostat.Calibration.{
  CalibrationState, observe_calibration_restore, observe_calibration_resume,
  observe_calibration_orphaned, commit_cal_restore, clear_calibration_ownership, within_half_step,
  calibration_accumulation_allowed,
}
use poise_thermostat.Calibration.Segments.{
  CalibrationTick, CalibrationMeta, CalibrationPlan, unapplied, entity_unsafe, entity_mismatch,
  Edges, is_gone, Reading, gone, unreadable, readable, restore_due, nothing_to_hand_off,
  HandoffResult, WriteResult, execution, handback_target, hand_back, hand_off, handoff_of,
  stage_calibration_handoff,
}
use poise_thermostat.Calibration.Writing.{
  segment_ended, newer, other_entity, write_offset, write_if_resumed, write_measured,
  write_identified, write_readable, stage_calibration_write, calibration_tick,
}
use poise_thermostat.Calibration.Ownership.{handoff_on_path}
use mathlib.Core.Path.{subst}

-- the tick dispatches an offset of the regulation
abbrev pub offset_written : Option CalibrationPlan → Bool
offset_written none = false
offset_written (some p) = not p.restore && is_some p.value

-- Ownership stands, and the last command was lost at a restart or dispatched at `t` or later.
abbrev pub Waiting : ℤ → CalibrationState → Type 0
Waiting t s =
    (is_some s.cal_baseline ≡ true)
    × ((s.last_cal_value ≡ none)
        ⊎ (v : ℤ) × (a : ℤ) × (s.last_cal_value ≡ some v)
          × (s.last_cal_dispatch_wall_ts ≡ some a)
          × (t ≤ℤ a))

-- The tick runs at `t` or later on a device that has not reported after `t`.
abbrev pub IsStale : ℤ → CalibrationTick → Type 0
IsStale t k = (k.last_updated ≤ℤ t) × (t ≤ℤ k.wall_now)

abbrev Waits : ℤ → Option CalibrationPlan → CalibrationState → Type 0
Waits t plan s = (offset_written plan ≡ false) × (Waiting t s ⊎ (s.cal_baseline ≡ none))

stale-refused :
    (t : ℤ) (s : CalibrationState) (k : CalibrationTick) (meta : CalibrationMeta) (v a : ℤ)
    → s.last_cal_value ≡ some v
    → s.last_cal_dispatch_wall_ts ≡ some a
    → t ≤ℤ a
    → IsStale t k
    → calibration_accumulation_allowed meta.reported s.last_cal_value meta.step
        (newer s.last_cal_dispatch_wall_ts k.last_updated)
      ≡ false
unfolding calibration_accumulation_allowed ltb_ℤ
stale-refused t s k meta v a l d le stale = rw (l, d) ground arith

write_offset-Waits :
    (t : ℤ) (s : CalibrationState) (k : CalibrationTick) (entity : String) (meta : CalibrationMeta)
    (trv_temp : ℤ) (edges : Edges) (v a : ℤ)
    → is_some s.cal_baseline ≡ true
    → s.last_cal_value ≡ some v
    → s.last_cal_dispatch_wall_ts ≡ some a
    → t ≤ℤ a
    → IsStale t k
    → let w = write_offset s k entity meta trv_temp edges in Waits t w.plan w.state
unfolding write_offset
write_offset-Waits t s k entity meta trv_temp edges v a b l d le stale =
    rw (stale-refused t s k meta v a l d le stale) (refl, inl (b, inr (v, a, l, d, le)))

write_if_resumed-Waits :
    (t : ℤ) (s : CalibrationState) (k : CalibrationTick) (entity : String) (meta : CalibrationMeta)
    (trv_temp : ℤ) (edges : Edges)
    → Waiting t s
    → IsStale t k
    → let w = write_if_resumed s k entity meta trv_temp edges in Waits t w.plan w.state
unfolding write_if_resumed observe_calibration_resume
write_if_resumed-Waits t s k entity meta trv_temp edges (b, inl l) stale =
    rw (b, ap is_some l) (refl, inl (b, inr (meta.reported, k.wall_now, refl, refl, stale.1)))
write_if_resumed-Waits t s k entity meta trv_temp edges (b, inr (v, a, l, d, le)) stale =
    rw (b, ap is_some l) (write_offset-Waits t s k entity meta trv_temp edges v a b l d le stale)

write_measured-Waits :
    (t : ℤ) (s : CalibrationState) (k : CalibrationTick) (entity : String) (meta : CalibrationMeta)
    (trv_temp : Option ℤ) (edges : Edges)
    → Waiting t s
    → IsStale t k
    → let w = write_measured s k entity meta trv_temp edges in Waits t w.plan w.state
unfolding write_measured
write_measured-Waits t s k entity meta none edges h stale = (refl, inl h)
write_measured-Waits t s k entity meta (some trv_temp) edges h stale =
    write_if_resumed-Waits t s k entity meta trv_temp edges h stale

orphaned-Waits :
    (t : ℤ) (s : CalibrationState) (is_gone : Bool)
    → Waiting t s
    → let s' = (observe_calibration_orphaned s is_gone).0 in Waiting t s' ⊎ (s'.cal_baseline ≡ none)
unfolding observe_calibration_orphaned clear_calibration_ownership
orphaned-Waits t s true (b, h) = rw b (inr refl)
orphaned-Waits t s false (b, h) = rw b (inl (b, h))

write_identified-Waits :
    (t : ℤ) (s : CalibrationState) (k : CalibrationTick) (entity : String) (meta : CalibrationMeta)
    → Waiting t s
    → IsStale t k
    → let w = write_identified s k entity meta in Waits t w.plan w.state
unfolding write_identified
write_identified-Waits t s k entity meta h stale =
    elim (Bool-cases (other_entity s.cal_entity entity)) [
      | inl o ↦ rw o (refl, orphaned-Waits t s (is_gone k.owned_meta) h)
      | inr o ↦ rw o (write_measured-Waits t s k entity meta k.trv_temp _ h stale)
    ]

write_readable-Waits :
    (t : ℤ) (s : CalibrationState) (k : CalibrationTick) (e : Option String) (r : Reading)
    → Waiting t s
    → IsStale t k
    → let w = write_readable s k e r in Waits t w.plan w.state
unfolding write_readable
write_readable-Waits t s k none r h stale = (refl, inl h)
write_readable-Waits t s k (some entity) gone h stale = (refl, inl h)
write_readable-Waits t s k (some entity) unreadable h stale = (refl, inl h)
write_readable-Waits t s k (some entity) (readable meta) h stale =
    write_identified-Waits t s k entity meta h stale

stage_calibration_write-Waits :
    (t : ℤ) (s : CalibrationState) (k : CalibrationTick)
    → Waiting t s
    → IsStale t k
    → let w = stage_calibration_write s k in Waits t w.plan w.state
unfolding stage_calibration_write
stage_calibration_write-Waits t s k h stale =
    if-elim (λ (w : WriteResult). Waits t w.plan w.state) (not k.is_live) (segment_ended s _)
      (if not k.online
        then segment_ended s []
        else write_readable s k k.discovered k.discovered_meta)
      (λ _. (refl, inl h))
      λ _.
        if-elim (λ (w : WriteResult). Waits t w.plan w.state) (not k.online) (segment_ended s [])
          (write_readable s k k.discovered k.discovered_meta) (λ _. (refl, inl h))
          λ _. write_readable-Waits t s k k.discovered k.discovered_meta h stale

abbrev off_path : Edges
off_path = (unapplied, false) ∷ (entity_unsafe, false) ∷ (entity_mismatch, false) ∷ []

-- off the live path the write segment ends where it began
write_off_path :
    (s : CalibrationState) (k : CalibrationTick)
    → k.is_live ≡ false
    → stage_calibration_write s k ≡ segment_ended s off_path
unfolding stage_calibration_write
write_off_path s k l =
    ap
      (λ b.
        if not b
        then segment_ended s off_path
        else if not k.online
        then segment_ended s []
        else write_readable s k k.discovered k.discovered_meta)
      l

restore-Waits :
    (t : ℤ) (s : CalibrationState) (k : CalibrationTick) (entity : String) (before target : ℤ)
    → Waiting t s
    → Waiting t (commit_cal_restore s (execution k entity before target) k.now)
unfolding commit_cal_restore execution
restore-Waits t s k entity before target h =
    if-elim (Waiting t) (not k.dispatch_success) s (record s { last_cal_restore_ts = some k.now })
      (λ _. h) (λ _. h)

hand_back-Waits :
    (t : ℤ) (s : CalibrationState) (k : CalibrationTick) (b : ℤ) (entity : String)
    (meta : CalibrationMeta)
    → Waiting t s
    → let r = hand_back s k b entity meta in Waits t r.plan r.state
unfolding hand_back observe_calibration_restore clear_calibration_ownership
hand_back-Waits t s k b entity meta (h, o) =
    let target = handback_target b meta in
    elim (Bool-cases (within_half_step meta.reported target meta.step)) [
      | inl w ↦ rw (h, w) (refl, inr refl)
      | inr w ↦ elim (Bool-cases (restore_due s.last_cal_restore_ts k.now)) [
        | inl d ↦ rw (h, w, d) (refl, inl (restore-Waits t s k entity meta.reported target (h, o)))
        | inr d ↦ rw (h, w, d) (refl, inl (h, o))
      ]
    ]

hand_off-Waits :
    (t : ℤ) (s : CalibrationState) (k : CalibrationTick) (b : ℤ) (e : Option String) (r : Reading)
    → Waiting t s
    → let h = hand_off s k b e r in Waits t h.plan h.state
unfolding hand_off
hand_off-Waits t s k b none r h = (refl, inl h)
hand_off-Waits t s k b (some entity) gone h = (refl, inl h)
hand_off-Waits t s k b (some entity) unreadable h = (refl, inl h)
hand_off-Waits t s k b (some entity) (readable meta) h = hand_back-Waits t s k b entity meta h

handoff_of-Waits :
    (t : ℤ) (b : Option ℤ) (s : CalibrationState) (k : CalibrationTick)
    → Waiting t s
    → let h = handoff_of b s k in Waits t h.plan h.state
unfolding handoff_of
handoff_of-Waits t none s k h = (refl, inl h)
handoff_of-Waits t (some b) s k h =
    if-elim (λ (r : HandoffResult). Waits t r.plan r.state) k.is_live (nothing_to_hand_off s)
      (hand_off s k b s.cal_entity k.owned_meta) (λ _. (refl, inl h))
      λ _. hand_off-Waits t s k b s.cal_entity k.owned_meta h

-- the plan of the handoff goes first
merged :
    (p : Option CalibrationPlan)
    → offset_written p ≡ false
    → offset_written (if is_some p then p else none) ≡ false
merged none h = refl
merged (some p) h = h

calibration_tick-Waits :
    (t : ℤ) (s : CalibrationState) (k : CalibrationTick)
    → Waiting t s
    → IsStale t k
    → let r = calibration_tick s k in Waits t r.plan r.state
unfolding calibration_tick stage_calibration_handoff
calibration_tick-Waits t s k h stale =
    let H = handoff_of s.cal_baseline s k in
    elim (Bool-cases k.is_live) [
      | inl l ↦
          subst
            (λ (r : HandoffResult).
              let w = stage_calibration_write r.state k in
              Waits t (if is_some r.plan then r.plan else w.plan) w.state)
            (sym (handoff_on_path s.cal_baseline s k l))
            (stage_calibration_write-Waits t s k h stale)
      | inr l ↦
          let (n, o) = handoff_of-Waits t s.cal_baseline s k h in
          subst (λ (w : WriteResult). Waits t (if is_some H.plan then H.plan else w.plan) w.state)
            (sym (write_off_path H.state k l)) (merged H.plan n, o)
    ]

-- No tick of the run writes an offset, at least until one gives the ownership up.
abbrev pub Quiet : CalibrationState → List CalibrationTick → Type 0
Quiet s [] = Unit
Quiet s (k ∷ ks) =
    let r = calibration_tick s k in
    (offset_written r.plan ≡ false) × (Quiet r.state ks ⊎ (r.state.cal_baseline ≡ none))

-- While the offset is owned, and its last command was lost at a restart or dispatched at `t` or
-- later, no tick of a run writes an offset, at least until one gives the ownership up, where every
-- tick runs at `t` or later on a device that has not reported after `t`.
pub no_compounding :
    (t : ℤ) (s : CalibrationState) (ks : List CalibrationTick)
    → Waiting t s
    → All (IsStale t) ks
    → Quiet s ks
no_compounding t s [] h stale = tt
no_compounding t s (k ∷ ks) h (stale, rest) =
    let (n, o) = calibration_tick-Waits t s k h stale in
    (
      n,
      elim o [
        | inl w ↦ inl (no_compounding t (calibration_tick s k).state ks w rest)
        | inr e ↦ inr e
      ],
    )
