-- ===== src/WriteEconomy/Spacing.antt =====
-- How often one command can be written.
use poise_thermostat.Base.{
  ◌≡◌, refl, Bool, true, false, not, ◌||◌, Option, none, some, List, [], ◌∷◌, arith, if◌then◌else◌,
  Option-cases, inl, inr,
}
use poise_thermostat.Base.Int.{ℤ, ◌≤ℤ◌, ◌-ℤ◌, finite, ltb_ℤ→le, le→ltb_ℤ}
use poise_thermostat.Tick.{snap_to_step}
use poise_thermostat.Override.{External}
use poise_thermostat.WriteEconomy.{
  GateInput, throttled_at, plan_setpoint_write, commit_setpoint, setpoint_tick, observe_online,
  execution_of, known, min_setpoint_reassert_interval_s,
}
use poise_thermostat.WriteEconomy.Liveness.{same_self}

-- The times at which a series of ticks writes the setpoint.
note : Option ℤ → ℤ → List ℤ → List ℤ
note none now rest = rest
note (some _) now rest = now ∷ rest

unfoldable pub write_times : External → List (GateInput × ℤ) → List ℤ
unfolding note
write_times e [] = []
write_times e ((i, now) ∷ ticks) =
    note (plan_setpoint_write (observe_online e i.online) i now) now
      (write_times (setpoint_tick e i now) ticks)

-- Every tick comes with the same snapped target `w`, no change of mode and an actuator that is
-- online, and no tick is earlier than the one before it.
abbrev pub Steady : ℤ → ℤ → List (GateInput × ℤ) → Type 0
Steady w t [] = Unit
Steady w t ((i, now) ∷ ticks) =
    (snap_to_step i.target i.step ≡ finite w)
    × (i.mode_changed ≡ false)
    × (i.online ≡ true)
    × (t ≤ℤ now)
    × Steady w now ticks

-- Each time is at least the interval after the one before it.
abbrev pub Spaced : ℤ → ℤ → List ℤ → Type 0
Spaced interval t [] = Unit
Spaced interval t (u ∷ us) = (interval ≤ℤ u -ℤ t) × Spaced interval u us

-- the command `w` is in force since a write at `t`
pub record InForce (e : External) (w t : ℤ) : Type 0 where
  pub cmd : e.last_cmd_sp ≡ some w
  pub episode : (s : ℤ) × (e.cmd_episode_ts ≡ some s)
  pub written : e.last_sp_write_ts ≡ some t

throttled_early :
    (e : External) (i : GateInput) (w t now : ℤ)
    → InForce e w t
    → i.mode_changed ≡ false
    → t ≤ℤ now
    → throttled_at e i w now ≡ false
    → min_setpoint_reassert_interval_s ≤ℤ now -ℤ t
unfolding throttled_at
throttled_early e i w t now f m le h =
    let same_command = same_self w in
    let anchored = le→ltb_ℤ now t le in
    ltb_ℤ→le (now -ℤ t) min_setpoint_reassert_interval_s
      (ground (arith, same_command, anchored, f.episode))

plan_some :
    (e : External) (i : GateInput) (w v now : ℤ)
    → snap_to_step i.target i.step ≡ finite w
    → plan_setpoint_write e i now ≡ some v
    → (v ≡ w) × (throttled_at e i w now ≡ false)
unfolding plan_setpoint_write
plan_some e i w v now s h = let k = rw s at h in ground arith

online_same : (e : External) (b : Bool) → b ≡ true → observe_online e b ≡ e
unfolding observe_online
online_same e true h = refl
online_same e false h = cc

tick_silent :
    (e : External) (i : GateInput) (now : ℤ)
    → i.online ≡ true
    → plan_setpoint_write e i now ≡ none
    → setpoint_tick e i now ≡ e
unfolding setpoint_tick
tick_silent e i now o h = rw (online_same e i.online o, h) refl

-- a commit leaves the episode anchored, whether it begins one or not
anchored_after :
    (b : Bool) (o : Option ℤ) (now : ℤ)
    → (s : ℤ) × ((if b || not (known o) then some now else o) ≡ some s)
anchored_after true o now = (now, refl)
anchored_after false none now = (now, refl)
anchored_after false (some s) now = (s, refl)

commit_InForce : (e : External) (w now : ℤ) → InForce (commit_setpoint e (execution_of w) now) w now
unfolding commit_setpoint
commit_InForce e w now = record {
  cmd = refl;
  episode = anchored_after _ e.cmd_episode_ts now;
  written = refl;
}

tick_writes :
    (e : External) (i : GateInput) (w now : ℤ)
    → i.online ≡ true
    → plan_setpoint_write e i now ≡ some w
    → InForce (setpoint_tick e i now) w now
unfolding setpoint_tick
tick_writes e i w now o h = rw (online_same e i.online o, h) (commit_InForce e w now)

-- A run of ticks writes a setpoint that is in force since a write at `t` only at times at least ten
-- minutes after `t` and apart, whatever the device reports, where every tick aims at the same
-- snapped target without a change of mode and with the actuator online, no tick is earlier than the
-- one before it, and every dispatch succeeds; `p` is no later than the first tick and no earlier
-- than `t`.
pub write_times-Spaced :
    (e : External) (w t p : ℤ) (ticks : List (GateInput × ℤ))
    → InForce e w t
    → t ≤ℤ p
    → Steady w p ticks
    → Spaced min_setpoint_reassert_interval_s t (write_times e ticks)
unfolding write_times
write_times-Spaced e w t p [] f le s = tt
write_times-Spaced e w t p ((i, now) ∷ ticks) f le s =
    let same_e = online_same e i.online s.2 in
    elim (Option-cases (plan_setpoint_write e i now)) [
      | inl silent ↦
          rw (same_e, silent, tick_silent e i now s.2 silent)
            (write_times-Spaced e w t now ticks f (omega arith) s.4)
      | inr (v, writes) ↦
          let (v_w, free) = plan_some e i w v now s.0 writes in
          rw (same_e, writes)
            (
              throttled_early e i w t now f s.1 (omega arith) free,
              write_times-Spaced (setpoint_tick e i now) w now now ticks
                  (tick_writes e i w now s.2 (rw (← v_w) writes)) (omega arith) s.4,
            )
    ]
