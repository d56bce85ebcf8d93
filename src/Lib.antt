-- ===== src/Lib.antt =====
-- Poise, a thermostat for Home Assistant, verified: the pure core under custom_components/poise.
--
-- Once a minute each zone reads its sensors, resolves a write target, looks at what the device reports,
-- decides whether to write, and folds what was written into its baselines; a hub folds the zones'
-- requests into the demand on a shared boiler.
--
--   * Constraints: constraints.py.  `resolve_constraints` composes floors and caps with precedence.
--   * Arbitration: arbitration.py, actuator.py and their contracts (contracts.py).  One request is
--     clamped into the corridor by the constraints and becomes one service call.
--   * Tick: control/tick_resolve.py.  The write target of a tick with its hard envelope, snapping to
--     the device step, the desired mode, the park position and the frost rescue.
--   * Override: control/override.py, control/external_override.py and `ExternalOverrideRuntime` of
--     runtime/state.py (`External`).  When a change on the device becomes a manual hold.
--   * WriteEconomy: control/write_economy.py, `plan_setpoint_write` and the end of an episode in
--     control/pipeline_actuate.py, and the setpoint and mode branches of `commit_execution` in
--     runtime/zone_runtime.py.  `setpoint_tick` composes them for one tick of the setpoint channel.
--   * Convergence: safety/write_convergence.py.  The watchdog over commands that a device ignores.
--   * Boiler: `step_boiler` and its timing in control/hub_aggregate.py, and its persistence.
--   * Demand: the boiler demand, load shedding, flow temperature, and the compressor groups and sources
--     (Demand.Groups) of control/hub_aggregate.py.
--   * Failure: safety/heating_failure.py.  The detectors of heating or cooling without effect.
--   * FanFirst: control/fan_first.py.  The automaton that tries the fan before the compressor.
--   * Hold: control/override_runtime.py and the lifecycle of control/override.py over
--     `UserControlState` (`UserState`); Hold.Stages has the stages of control/external_override.py that
--     turn an observed change into a hold, and Hold.Refine the abstract view of a hold.
--   * Schedule: comfort/schedule.py.  The windows of a week as a union of spans, the
--     verdict, and the switchpoint that `minutes_to_switchpoint` of control/override_runtime.py reports.
--   * Safe: safety/sensor_watchdog.py and control/lifecycle.py.  The safe state without a sensor.
--   * WindowAuto: control/window_auto.py.  The detector of an open window by the slope.
--   * Trust: estimation/tau_trust.py.  When the learned time constant may be acted on.
--   * Presence: comfort/presence.py.
--   * Compressor: multi/lifecycle.py.  The guard against short cycles of a compressor.
--   * Activation: control/comfort_activation.py, the latches of the comfort blocks, and
--     control/cooling.py, the choice between heating and cooling.
--   * Dynamics: control/dynamics.py.  The dynamics classes of actuators and the regulation throttle.
--   * Ventilation: comfort/ventilation.py, the rule table of the ventilation advice and the edge on which
--     it is announced (`_announce_vent_advice` of ha/phase_prepare.py).
--   * Episode: comfort/vent_episode.py.  The state machine of one airing over the rule table's answers.
--   * Calibration: control/calibration.py, its folds and commits in runtime/zone_runtime.py, and
--     _stage_calibration_handoff and _stage_calibration_write of ha/phase_actuate.py in the order of
--     ha/tick_orchestrator.py.  The offset of a valve's own sensor, who owns it and how it is handed
--     back.  Calibration.Segments and Calibration.Writing have one function per gate of the segments.
--   * Humidity: comfort/humidity.py, comfort/mode_seam.py and the humidity step of ha/phase_prepare.py.
--     The decision to dry, its latch over the ticks, and the mode it yields.
--   * ModeResolution: `stage_mode_resolution` of control/pipeline_actuate.py.  The mode of a tick from the
--     manual direction, the humidity, the fan and the provenance of the intent.
--   * Tests: concrete runs.  Base: shared names, tests, lists, numbers and rounding.
--
-- The parts meet where the source calls across modules: the write target and the arbitration use the
-- constraints; the write gates read the baselines of `External`, snap with the tick's `snap_to_step`
-- and classify a reading with the reasons of the override tracker; the stages of Hold run the commands
-- of Hold on what the tracker observes, with the desired mode of Tick; the
-- mode of a tick uses the directions of Activation, the answer of Humidity, the profiles of Dynamics and
-- the policy of Compressor; a hold's expiry takes the
-- switchpoint of the Schedule as an argument.
--
-- Numbers.  A float of the source is an exact number of thousandths (`ℤ` of Base.Int: degrees,
-- seconds, watts, fractions), and `round(x, n)` rounds the exact value half to even.  The rounding
-- errors of binary floating point are not modelled.  `Float` adds a non-finite value where the source
-- tests `math.isfinite`; elsewhere the inputs are finite.  A product of a power and a fraction is in
-- millionths.  Integers of the source are unbounded, as ℕ is.
--
-- State is passed explicitly: the mutable dataclasses are records, and a method that assigns returns
-- the new record.  Runs over several ticks are folds over lists of inputs, whose clock values are free
-- unless a theorem orders them.  No function needs fuel: every loop is over a list.
-- Exceptions of the source (`ValueError`, `NotImplementedError`, `AssertionError`) are `none`.
--
-- Left out: the asynchronous layer against Home Assistant (coordinator.py, ha/ but for the steps named
-- above, the entities and the configuration flow), the estimators and shadow controllers, which are
-- real arithmetic, diagnostics, traces and the frontend.  Of the commit, the write counters are left
-- out, and outside Calibration the persistence flag.
-- The commands take the clock, the switchpoint and the verdict of the schedule as arguments, where the
-- source is given functions to call.  A calibration tick reads each entity once, and its one dispatch
-- succeeds or fails as its input says.
pub mod Base
pub mod Constraints
pub mod Arbitration
pub mod Tick
pub mod Override
pub mod WriteEconomy
pub mod Convergence
pub mod Boiler
pub mod Demand
pub mod Failure
pub mod FanFirst
pub mod Hold
pub mod ModeResolution
pub mod Humidity
pub mod Schedule
pub mod Safe
pub mod WindowAuto
pub mod Trust
pub mod Presence
pub mod Compressor
pub mod Activation
pub mod Dynamics
pub mod Ventilation
pub mod Episode
pub mod Calibration
pub mod Tests
