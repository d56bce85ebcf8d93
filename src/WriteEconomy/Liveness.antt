-- ===== src/WriteEconomy/Liveness.antt =====
-- When the write gates let a setpoint through, and what a veto rests on.
use poise_thermostat.Base.{
  ◌≡◌, refl, ◌⊎◌, inl, inr, Bool, true, false, not, Option, none, some, arith, if◌then◌else◌,
}
use poise_thermostat.Base.Int.{
  ℤ, ◌≤ℤ◌, ◌<ℤ◌, ◌-ℤ◌, leb_ℤ, le→ltb_ℤ, lt→ltb_ℤ, Float, non_finite, abs_ℤ, finite, seconds,
  -ℤ_self,
}
use poise_thermostat.Tick.{should_write, snap_to_step, write_deadband_c, is_text}
use poise_thermostat.Override.{AdoptReason, External}
use poise_thermostat.WriteEconomy.{
  releasing, detector_ran, same, elapsed, escape_pending, classify_settle, reassert_idempotent,
  GateInput, idempotent_at, throttled_at, plan_on, plan_setpoint_write, reassert_liveness_s,
  min_setpoint_reassert_interval_s, observe_online, setpoint_tick,
}

-- Nothing but the two economy gates stands in the way of a write of `w`.
pub record IsOpen (i : GateInput) (w : ℤ) : Type 0 where
  pub snaps : snap_to_step i.target i.step ≡ finite w
  pub online : i.online ≡ true
  pub not_adopted : i.adopted_sp ≡ none
  pub not_off : is_text i.mode_override "off" ≡ false
  pub not_blocked : i.mode_nudge_blocked ≡ false
  pub not_regulated : i.reg_throttled ≡ false
  pub differs : should_write i.actual_sp w i.mode_changed write_deadband_c ≡ true

-- past both intervals neither gate vetoes
gates_expire :
    (e : External) (i : GateInput) (w t now : ℤ)
    → e.last_sp_write_ts ≡ some t
    → reassert_liveness_s ≤ℤ now -ℤ t
    → (idempotent_at e i w now ≡ false) × (throttled_at e i w now ≡ false)
unfolding idempotent_at throttled_at escape_pending
gates_expire e i w t now ht h =
    let late = le→ltb_ℤ (now -ℤ t) reassert_liveness_s h in
    let later = le→ltb_ℤ (now -ℤ t) min_setpoint_reassert_interval_s (omega arith) in
    ground (arith, late, later)

-- a new target passes both gates
gates_new_target :
    (e : External) (i : GateInput) (w now : ℤ)
    → same (some w) e.last_cmd_sp ≡ false
    → (idempotent_at e i w now ≡ false) × (throttled_at e i w now ≡ false)
unfolding idempotent_at throttled_at
gates_new_target e i w now h = ground arith

gates_mode_changed :
    (e : External) (i : GateInput) (w now : ℤ)
    → i.mode_changed ≡ true
    → (idempotent_at e i w now ≡ false) × (throttled_at e i w now ≡ false)
unfolding idempotent_at throttled_at
gates_mode_changed e i w now h = ground arith

plan_open :
    (e : External) (i : GateInput) (w now : ℤ)
    → IsOpen i w
    → idempotent_at e i w now ≡ false
    → throttled_at e i w now ≡ false
    → plan_setpoint_write e i now ≡ some w
unfolding plan_setpoint_write
plan_open e i w now o h k = rw o.snaps (ground arith)

gates_no_episode :
    (e : External) (i : GateInput) (w now : ℤ)
    → e.cmd_episode_ts ≡ none
    → (idempotent_at e i w now ≡ false) × (throttled_at e i w now ≡ false)
unfolding idempotent_at throttled_at elapsed
gates_no_episode e i w now h = ground arith

plan_offline :
    (e : External) (i : GateInput) (now : ℤ) (f : Float)
    → i.online ≡ false
    → plan_on e i now f ≡ none
unfolding plan_on
plan_offline e i now (finite v) h = rw h
plan_offline e i now non_finite h = refl

tick_offline :
    (e : External) (i : GateInput) (now : ℤ)
    → i.online ≡ false
    → setpoint_tick e i now ≡ observe_online e false
unfolding setpoint_tick
tick_offline e i now h = rw (plan_offline _ i now (snap_to_step i.target i.step) h) (rw h)

-- Where nothing but the economy gates stands in the way, the setpoint is written on a tick that is
-- at least the liveness interval after the last write, changes the target by more than 0.05 K or
-- changes the mode: no command is silenced for good.
pub plan_setpoint_write-live :
    (e : External) (i : GateInput) (w t now : ℤ)
    → IsOpen i w
    → e.last_sp_write_ts ≡ some t
    → (reassert_liveness_s ≤ℤ now -ℤ t)
      ⊎ (same (some w) e.last_cmd_sp ≡ false)
      ⊎ (i.mode_changed ≡ true)
    → plan_setpoint_write e i now ≡ some w
plan_setpoint_write-live e i w t now o ht (inl late) =
    let g = gates_expire e i w t now ht late in plan_open e i w now o g.0 g.1
plan_setpoint_write-live e i w t now o ht (inr (inl new)) =
    let g = gates_new_target e i w now new in plan_open e i w now o g.0 g.1
plan_setpoint_write-live e i w t now o ht (inr (inr changed)) =
    let g = gates_mode_changed e i w now changed in plan_open e i w now o g.0 g.1

-- After an actuator was offline, the first tick on which it is back is written at once, whatever was
-- written before: the offline tick ended the command episode.
write_after_dropout :
    (e : External) (off back : GateInput) (w t now : ℤ)
    → off.online ≡ false
    → IsOpen back w
    → plan_setpoint_write (observe_online (setpoint_tick e off t) back.online) back now ≡ some w
write_after_dropout e off back w t now h o =
    let gone = tick_offline e off t h in
    let e' = observe_online (setpoint_tick e off t) back.online in
    let g = gates_no_episode e' back w now (rw (o.online, gone) (unfold observe_online in refl)) in
    plan_open e' back w now o g.0 g.1

-- Of a reading that has come to rest, the veto's classification asks only whose it is: Poise's own
-- and fresh, or examined by the detector and not adopted.  Its distance from the command in force is
-- not weighed.
pub classify_settle-at_rest :
    (own stale : Bool) (actual : ℤ) (cmd prev : Option ℤ) (tolerance : ℤ) (reason : AdoptReason)
    → same (some actual) prev ≡ true
    → releasing (classify_settle own stale (some actual) cmd prev tolerance reason)
      ≡ (if own then not stale else detector_ran reason)
unfolding classify_settle releasing detector_ran
classify_settle-at_rest own stale actual cmd prev tolerance reason h = ground arith

pub same_self : (a : ℤ) → same (some a) (some a) ≡ true
unfolding same abs_ℤ leb_ℤ
same_self a = rw (-ℤ_self a)

-- A device that rests at any distance from the command in force is not written again before the
-- liveness interval, once the episode has settled and the detector has run without adopting: the
-- reading need not lie within the convergence tolerance.
pub far_settle_vetoed :
    (cmd actual tolerance now episode written : ℤ) (stale : Bool) (reason : AdoptReason)
    → detector_ran reason ≡ true
    → seconds 90 ≤ℤ now -ℤ episode
    → written ≤ℤ now
    → now -ℤ written <ℤ reassert_liveness_s
    → reassert_idempotent cmd
        (some cmd)
        (some actual)
        (some actual)
        (classify_settle false stale (some actual) (some cmd) (some actual) tolerance reason)
        (some episode)
        (some written)
        now
        false
        (seconds 90)
        reassert_liveness_s
      ≡ true
unfolding reassert_idempotent elapsed escape_pending
far_settle_vetoed cmd actual tolerance now episode written stale reason hr he hw hl =
    rw
      (
        same_self cmd,
        same_self actual,
        classify_settle-at_rest false stale actual (some cmd) (some actual) tolerance reason
            (same_self actual),
        hr,
        le→ltb_ℤ (now -ℤ episode) (seconds 90) he,
        le→ltb_ℤ now written hw,
      )
      (lt→ltb_ℤ (now -ℤ written) reassert_liveness_s hl)
