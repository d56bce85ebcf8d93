-- ===== src/Calibration/Ownership.antt =====
-- Who owns the offset of a valve: the calibration segments of custom_components/poise/ha/phase_actuate.py
-- against their abstract view.
use Prim.Native.String.{String}
use poise_thermostat.Base.{
  ◌≡◌, refl, sym, ◌∙◌, inl, inr, ◌⊎◌, Bool, true, false, not, ◌||◌, Option, none, some, List, [],
  ◌∷◌, if◌then◌else◌, is_some, arith, Bool-cases, ap, if-elim,
}
use poise_thermostat.Base.Int.{ℤ}
use poise_thermostat.Calibration.{
  CalibrationState, fresh_calibration, observe_calibration_restore, observe_calibration_resume,
  observe_calibration_orphaned, commit_cal_write, commit_cal_restore, clear_calibration_ownership,
  calibration_accumulation_allowed, calibration_write_due,
}
use poise_thermostat.Calibration.Segments.{
  CalibrationTick, CalibrationIssue, unapplied, entity_unsafe, entity_mismatch, is_gone,
  CalibrationMeta, Reading, gone, unreadable, readable, WriteResult, execution, hand_back, hand_off,
  handoff_of, nothing_to_hand_off, HandoffResult, stage_calibration_handoff,
}
use poise_thermostat.Calibration.Writing.{
  newer, other_entity, new_offset, write_offset, write_if_resumed, write_measured, write_identified,
  write_readable, stage_calibration_write, calibration_tick,
}
use mathlib.Core.Path.{subst}

-- The abstract view: the offset from before the first write, and the entity that it was read from.
abbrev pub Owner : Type 0
Owner = Option ℤ × Option String

abbrev pub owner : CalibrationState → Owner
owner s = (s.cal_baseline, s.cal_entity)

-- What a segment may do to it: leave it, or give it up.
abbrev KeptOrReleased : CalibrationState → CalibrationState → Type 0
KeptOrReleased s s' = (owner s' ≡ owner s) ⊎ (owner s' ≡ (none, none))

-- The tick writes to the discovered entity, which reported the offset before.
abbrev pub Takes : Owner → CalibrationTick → Type 0
Takes o k =
    (entity : String) × (meta : CalibrationMeta) × (k.is_live ≡ true)
    × (k.discovered ≡ some entity)
    × (k.discovered_meta ≡ readable meta)
    × (o ≡ (some meta.reported, some entity))

hand_back-owner :
    (s : CalibrationState) (k : CalibrationTick) (baseline : ℤ) (entity : String)
    (meta : CalibrationMeta)
    → KeptOrReleased s (hand_back s k baseline entity meta).state
unfolding hand_back observe_calibration_restore clear_calibration_ownership commit_cal_restore
hand_back-owner s k baseline entity meta = ground arith

hand_off-owner :
    (s : CalibrationState) (k : CalibrationTick) (baseline : ℤ) (e : Option String) (r : Reading)
    → KeptOrReleased s (hand_off s k baseline e r).state
unfolding hand_off
hand_off-owner s k baseline none r = inl refl
hand_off-owner s k baseline (some entity) gone = inl refl
hand_off-owner s k baseline (some entity) unreadable = inl refl
hand_off-owner s k baseline (some entity) (readable meta) = hand_back-owner s k baseline entity meta

handoff_of-owner :
    (b : Option ℤ) (s : CalibrationState) (k : CalibrationTick)
    → KeptOrReleased s (handoff_of b s k).state
unfolding handoff_of
handoff_of-owner none s k = inl refl
handoff_of-owner (some b) s k = elim (Bool-cases k.is_live) [
  | inl l ↦ rw l (inl refl)
  | inr l ↦ rw l (hand_off-owner s k b s.cal_entity k.owned_meta)
]

-- on the live path nothing is handed off
pub handoff_on_path :
    (b : Option ℤ) (s : CalibrationState) (k : CalibrationTick)
    → k.is_live ≡ true
    → handoff_of b s k ≡ nothing_to_hand_off s
unfolding handoff_of
handoff_on_path none s k l = refl
handoff_on_path (some b) s k l =
    ap (λ x. if x then nothing_to_hand_off s else hand_off s k b s.cal_entity k.owned_meta) l

-- What the write segment may do to it: leave it, give it up, or take it where there was none.
abbrev Moves : CalibrationTick → CalibrationState → CalibrationState → Type 0
Moves k s s' = KeptOrReleased s s' ⊎ (s.cal_baseline ≡ none) × Takes (owner s') k

commit_cal_write-owner :
    (s : CalibrationState) (k : CalibrationTick) (entity : String) (before new : ℤ)
    → (owner (commit_cal_write s (execution k entity before new) k.now) ≡ owner s)
      ⊎ (s.cal_baseline ≡ none)
        × (owner (commit_cal_write s (execution k entity before new) k.now)
            ≡ (some before, some entity))
unfolding commit_cal_write execution
commit_cal_write-owner s k entity before new = ground arith

abbrev MovesTo : String → CalibrationMeta → CalibrationState → CalibrationState → Type 0
MovesTo entity meta s s' =
    KeptOrReleased s s' ⊎ (s.cal_baseline ≡ none) × (owner s' ≡ (some meta.reported, some entity))

write_offset-owner :
    (s : CalibrationState) (k : CalibrationTick) (entity : String) (meta : CalibrationMeta) (t : ℤ)
    (edges : List (CalibrationIssue × Bool))
    → MovesTo entity meta s (write_offset s k entity meta t edges).state
unfolding write_offset
write_offset-owner s k entity meta t edges =
    let new = new_offset k meta t in
    elim (Bool-cases (
      not (
        calibration_accumulation_allowed meta.reported s.last_cal_value meta.step
          (newer s.last_cal_dispatch_wall_ts k.last_updated)))) [
            | inl a ↦ rw a (inl (inl refl))
            | inr a ↦
                elim (Bool-cases
                  (calibration_write_due new meta.reported s.last_cal_write_ts k.now)) [
                    | inl d ↦
                        rw (a, d)
                          (elim (commit_cal_write-owner s k entity meta.reported new) [
                            | inl e ↦ inl (inl e)
                            | inr e ↦ inr e
                          ])
                    | inr d ↦ rw (a, d) (inl (inl refl))
                  ]
          ]

write_if_resumed-owner :
    (s : CalibrationState) (k : CalibrationTick) (entity : String) (meta : CalibrationMeta) (t : ℤ)
    (edges : List (CalibrationIssue × Bool))
    → MovesTo entity meta s (write_if_resumed s k entity meta t edges).state
unfolding write_if_resumed observe_calibration_resume
write_if_resumed-owner s k entity meta t edges =
    elim (Bool-cases (not (is_some s.cal_baseline) || is_some s.last_cal_value)) [
      | inl e ↦ rw e (write_offset-owner s k entity meta t edges)
      | inr e ↦ rw e (inl (inl refl))
    ]

write_measured-owner :
    (s : CalibrationState) (k : CalibrationTick) (entity : String) (meta : CalibrationMeta)
    (t : Option ℤ) (edges : List (CalibrationIssue × Bool))
    → MovesTo entity meta s (write_measured s k entity meta t edges).state
unfolding write_measured
write_measured-owner s k entity meta none edges = inl (inl refl)
write_measured-owner s k entity meta (some t) edges = write_if_resumed-owner s k entity meta t edges

orphaned-owner :
    (s : CalibrationState) (is_gone : Bool)
    → KeptOrReleased s (observe_calibration_orphaned s is_gone).0
unfolding observe_calibration_orphaned clear_calibration_ownership
orphaned-owner s is_gone = ground arith

write_identified-owner :
    (s : CalibrationState) (k : CalibrationTick) (entity : String) (meta : CalibrationMeta)
    → MovesTo entity meta s (write_identified s k entity meta).state
unfolding write_identified
write_identified-owner s k entity meta = elim (Bool-cases (other_entity s.cal_entity entity)) [
  | inl o ↦ rw o (inl (orphaned-owner s (is_gone k.owned_meta)))
  | inr o ↦ rw o (write_measured-owner s k entity meta k.trv_temp _)
]

write_readable-owner :
    (s : CalibrationState) (k : CalibrationTick) (e : Option String) (r : Reading)
    → k.is_live ≡ true
    → k.discovered ≡ e
    → k.discovered_meta ≡ r
    → Moves k s (write_readable s k e r).state
unfolding write_readable
write_readable-owner s k none r l d m = inl (inl refl)
write_readable-owner s k (some entity) gone l d m = inl (inl refl)
write_readable-owner s k (some entity) unreadable l d m = inl (inl refl)
write_readable-owner s k (some entity) (readable meta) l d m =
    elim (write_identified-owner s k entity meta) [
      | inl h ↦ inl h
      | inr (n, o) ↦ inr (n, (entity, meta, l, d, m, o))
    ]

stage_calibration_write-owner :
    (s : CalibrationState) (k : CalibrationTick) → Moves k s (stage_calibration_write s k).state
unfolding stage_calibration_write
stage_calibration_write-owner s k =
    if-elim (λ (r : WriteResult). Moves k s r.state) (not k.is_live)
      (record {
        state = s;
        plan = none;
        health_updates =
            (unapplied, false) ∷ (entity_unsafe, false) ∷ (entity_mismatch, false) ∷ [];
        diverged = false;
      })
      (if not k.online
        then record { state = s; plan = none; health_updates = []; diverged = false }
        else write_readable s k k.discovered k.discovered_meta)
      (λ l. inl (inl refl))
      λ l.
        if-elim (λ (r : WriteResult). Moves k s r.state) (not k.online)
          (record { state = s; plan = none; health_updates = []; diverged = false })
          (write_readable s k k.discovered k.discovered_meta) (λ o. inl (inl refl))
          λ o. write_readable-owner s k k.discovered k.discovered_meta (ground (arith, l)) refl refl

-- One tick, both segments.
calibration_tick-owner :
    (s : CalibrationState) (k : CalibrationTick) → Moves k s (calibration_tick s k).state
unfolding calibration_tick stage_calibration_handoff
calibration_tick-owner s k =
    let t = (handoff_of s.cal_baseline s k).state in
    elim (stage_calibration_write-owner t k) [
      | inl (inl e) ↦ elim (handoff_of-owner s.cal_baseline s k) [
        | inl f ↦ inl (inl (e ∙ f))
        | inr f ↦ inl (inr (e ∙ f))
      ]
      | inl (inr e) ↦ inl (inr e)
      | inr (n, h) ↦
          let on_path = handoff_on_path s.cal_baseline s k h.2 in
          inr (sym (ap (λ (r : HandoffResult). r.state.cal_baseline) on_path) ∙ n, h)
    ]

unfoldable pub calibrate_all : CalibrationState → List CalibrationTick → CalibrationState
calibrate_all s [] = s
calibrate_all s (k ∷ ks) = calibrate_all (calibration_tick s k).state ks

-- A tick of the run before which nobody owned the offset took it.
abbrev pub Taken : Owner → CalibrationState → List CalibrationTick → Type 0
Taken o s [] = ⊥
Taken o s (k ∷ ks) = (s.cal_baseline ≡ none) × Takes o k ⊎ Taken o (calibration_tick s k).state ks

-- Nobody owns the offset, or the owner stood before or was taken in the run.
calibrate_all-owner :
    (s : CalibrationState) (ks : List CalibrationTick)
    → (owner (calibrate_all s ks) ≡ (none, none))
      ⊎ (owner (calibrate_all s ks) ≡ owner s)
      ⊎ Taken (owner (calibrate_all s ks)) s ks
unfolding calibrate_all
calibrate_all-owner s [] = inr (inl refl)
calibrate_all-owner s (k ∷ ks) = elim (calibrate_all-owner (calibration_tick s k).state ks) [
  | inl e ↦ inl e
  | inr (inl e) ↦ elim (calibration_tick-owner s k) [
    | inl (inl f) ↦ inr (inl (e ∙ f))
    | inl (inr f) ↦ inl (e ∙ f)
    | inr (n, h) ↦ inr (inr (inl (n, subst (λ o. Takes o k) (sym e) h)))
  ]
  | inr (inr h) ↦ inr (inr (inr h))
]

-- After every run of calibration ticks from the fresh state, either nobody owns the offset, or a
-- tick of the run on the live path, before which no baseline was on record, read the present
-- baseline from the discovered entity, and the owner on record is that entity.
pub original_offset :
    (ks : List CalibrationTick)
    → let o = owner (calibrate_all fresh_calibration ks) in
      (o ≡ (none, none)) ⊎ Taken o fresh_calibration ks
original_offset ks = elim (calibrate_all-owner fresh_calibration ks) [
  | inl e ↦ inl e
  | inr (inl e) ↦ inl e
  | inr (inr h) ↦ inr h
]
