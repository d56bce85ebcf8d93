-- ===== src/Tests/Economy.antt =====
-- Runs of the write gates.
use poise_thermostat.Base.{
  ◌≡◌, refl, Bool, true, false, Option, none, some, List, [], ◌∷◌, arith, ◌⊎◌, inl, inr,
}
use poise_thermostat.Base.Int.{ℤ, pos, ◌≤ℤ◌, ◌<ℤ◌, ◌-ℤ◌, seconds, finite}
use poise_thermostat.Override.{stable_offset}
use poise_thermostat.Tick.{snap_to_step}
use poise_thermostat.WriteEconomy.{
  GateInput, plan_setpoint_write, setpoint_tick, observe_online, min_setpoint_reassert_interval_s,
  reassert_liveness_s, reassert_idempotent, classify_settle, detector_ran, commit_setpoint,
  execution_of,
}
use poise_thermostat.WriteEconomy.Liveness.{IsOpen, plan_setpoint_write-live, far_settle_vetoed}
use poise_thermostat.WriteEconomy.Spacing.{write_times, Steady, Spaced, write_times-Spaced}
use poise_thermostat.Tests.Fixtures.{commanded, wanting}

-- the device rejects the command: it keeps reporting 19 degrees
abbrev pub ticks : List (GateInput × ℤ)
ticks =
    (wanting, seconds 60)
    ∷ (wanting, seconds 700)
    ∷ (wanting, seconds 760)
    ∷ (wanting, seconds 1400)
    ∷ []

two_writes : write_times commanded ticks ≡ seconds 700 ∷ seconds 1400 ∷ []
unfolding write_times plan_setpoint_write poise_thermostat.Tick.snap_to_step
    poise_thermostat.Base.Int.leb_ℤ poise_thermostat.WriteEconomy.idempotent_at
    poise_thermostat.WriteEconomy.same observe_online poise_thermostat.Base.Int.abs_ℤ ◌-ℤ◌
    poise_thermostat.WriteEconomy.elapsed poise_thermostat.Base.Int.ltb_ℤ
    poise_thermostat.WriteEconomy.throttled_at setpoint_tick poise_thermostat.Tick.should_write
two_writes = refl

ticks-Steady : Steady (pos 21_000) (pos 0) ticks
unfolding snap_to_step poise_thermostat.Base.Int.leb_ℤ
ticks-Steady =
    let snaps : snap_to_step wanting.target wanting.step ≡ finite (pos 21_000) = refl in
    ground (arith, snaps)

write_times-Spaced_example :
    Spaced min_setpoint_reassert_interval_s (pos 0) (write_times commanded ticks)
write_times-Spaced_example =
    write_times-Spaced commanded (pos 21_000) (pos 0) (pos 0) ticks
      (record { cmd = refl; episode = (pos 0, refl); written = refl }) (omega arith) ticks-Steady

wanting-IsOpen : IsOpen wanting (pos 21_000)
unfolding poise_thermostat.Tick.snap_to_step poise_thermostat.Base.Int.leb_ℤ
    poise_thermostat.Tick.should_write poise_thermostat.Base.Int.abs_ℤ ◌-ℤ◌
wanting-IsOpen = record {
  snaps = refl;
  online = refl;
  not_adopted = refl;
  not_off = refl;
  not_blocked = refl;
  not_regulated = refl;
  differs = refl;
}

plan_setpoint_write-live_example :
    plan_setpoint_write commanded wanting (seconds 3600) ≡ some (pos 21_000)
unfolding ◌-ℤ◌
plan_setpoint_write-live_example =
    plan_setpoint_write-live commanded wanting (pos 21_000) (pos 0) (seconds 3600) wanting-IsOpen
      refl (inl (ground arith))

abbrev gone : GateInput
gone = record wanting { online = false }

-- The command is 21 degrees and the device rests at 15.
far_settle_vetoed_example :
    reassert_idempotent
      (pos 21_000)
      (some (pos 21_000))
      (some (pos 15_000))
      (some (pos 15_000))
      (classify_settle false false
        (some (pos 15_000))
        (some (pos 21_000))
        (some (pos 15_000))
        (pos 500)
        stable_offset)
      (some (pos 0))
      (some (pos 0))
      (seconds 1800)
      false
      (seconds 90)
      reassert_liveness_s
    ≡ true
unfolding detector_ran ◌-ℤ◌
far_settle_vetoed_example =
    far_settle_vetoed (pos 21_000) (pos 15_000) (pos 500) (seconds 1800) (pos 0) (pos 0) false
      stable_offset refl (ground arith) (omega arith) (ground arith)
