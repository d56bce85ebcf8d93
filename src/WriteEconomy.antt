-- ===== src/WriteEconomy.antt =====
-- The write gates of one actuator: custom_components/poise/control/write_economy.py, the plan of
-- control/pipeline_actuate.py, and the two commits of runtime/zone_runtime.py that stamp the clocks.
-- Times are thousandths of a second.
pub mod Liveness
pub mod Spacing
use Prim.Native.String.{String}
use text.Mathlib.Text.{◌==◌ as str_eq}
use poise_thermostat.Base.{
  ℕ, ◌+◌, ◌*◌, ltb, Bool, true, false, not, ◌&&◌, ◌||◌, Option, none, some, List, [], ◌∷◌, ◌++◌,
  if◌then◌else◌, get_or, length,
}
use poise_thermostat.Base.Int.{
  ℤ, pos, ◌+ℤ◌, ◌-ℤ◌, ltb_ℤ, leb_ℤ, max_ℤ, abs_ℤ, Float, finite, non_finite, seconds,
}
use poise_thermostat.Tick.{should_write, snap_to_step, write_deadband_c, is_text}
use poise_thermostat.Override.{
  AdoptReason, adopt, command_echo, echo_window, stable_offset, External,
}

abbrev pub episode_settle_min_s : ℤ
episode_settle_min_s = seconds 90

abbrev pub reassert_liveness_s : ℤ
reassert_liveness_s = seconds 3600

abbrev pub min_setpoint_reassert_interval_s : ℤ
min_setpoint_reassert_interval_s = seconds 600

abbrev pub min_mode_reassert_interval_s : ℤ
min_mode_reassert_interval_s = seconds 600

-- 0.05 K
abbrev pub same_value_eps : ℤ
same_value_eps = pos 50

pub data Provenance : Type 0 where
  proven_own_echo current_command_match accepted_settle stale_own_echo foreign unknown : Provenance

-- membership in `RELEASING`
unfoldable pub releasing : Provenance → Bool
releasing proven_own_echo = true
releasing current_command_match = true
releasing accepted_settle = true
releasing _ = false

-- membership in `_DETECTOR_RAN`
unfoldable pub detector_ran : AdoptReason → Bool
detector_ran command_echo = true
detector_ran echo_window = true
detector_ran stable_offset = true
detector_ran _ = false

abbrev is_adopted : AdoptReason → Bool
is_adopted adopt = true
is_adopted _ = false

-- `abs(a - b) <= _SAME_VALUE_EPS` where both are known
unfoldable pub same : Option ℤ → Option ℤ → Bool
same none b = false
same (some a) none = false
same (some a) (some b) = leb_ℤ (abs_ℤ (a -ℤ b)) same_value_eps

-- `round(abs(a - b), 3) <= tolerance` where both are known
unfoldable pub within : Option ℤ → Option ℤ → ℤ → Bool
within none b tolerance = false
within (some a) none tolerance = false
within (some a) (some b) tolerance = leb_ℤ (abs_ℤ (a -ℤ b)) tolerance

unfoldable pub stale_anchor : ℤ → ℤ → Bool
stale_anchor now anchor = ltb_ℤ now anchor

unfoldable pub classify_settle :
    Bool → Bool → Option ℤ → Option ℤ → Option ℤ → ℤ → AdoptReason → Provenance
classify_settle own_change stale actual_sp last_cmd_sp prev_device_sp match_tolerance adopt_reason =
    if own_change && stale
    then stale_own_echo
    else if own_change
    then proven_own_echo
    else if is_adopted adopt_reason
    then foreign
    else if not (detector_ran adopt_reason)
    then unknown
    else if within actual_sp last_cmd_sp match_tolerance
    then current_command_match
    else if same actual_sp prev_device_sp
    then accepted_settle
    else unknown

-- `ts is not None and not (now - ts) < interval`
unfoldable pub elapsed : Option ℤ → ℤ → ℤ → Bool
elapsed none now interval = false
elapsed (some ts) now interval = not (ltb_ℤ (now -ℤ ts) interval)

-- the last two conditions of `reassert_idempotent`: the write clock and its liveness escape
unfoldable pub escape_pending : Option ℤ → ℤ → ℤ → Bool
unfolding stale_anchor
escape_pending none now liveness_s = true
escape_pending (some ts) now liveness_s =
    if stale_anchor now ts then false else ltb_ℤ (now -ℤ ts) liveness_s

unfoldable pub reassert_idempotent :
    ℤ → Option ℤ → Option ℤ → Option ℤ → Provenance → Option ℤ → Option ℤ → ℤ → Bool → ℤ → ℤ → Bool
reassert_idempotent target_snapped last_cmd_sp actual_sp prev_device_sp provenance cmd_episode_ts
      last_sp_write_ts now mode_changed settle_min_s liveness_s =
    if mode_changed
    then false
    else if not (same (some target_snapped) last_cmd_sp)
    then false
    else if not (elapsed cmd_episode_ts now settle_min_s)
    then false
    else if not (same actual_sp prev_device_sp)
    then false
    else if not (releasing provenance)
    then false
    else escape_pending last_sp_write_ts now liveness_s

abbrev recently : Option ℤ → ℤ → ℤ → Bool
recently none now interval = false
recently (some ts) now interval = if stale_anchor now ts then false else ltb_ℤ (now -ℤ ts) interval

-- `x is not None`
abbrev pub known : Option ℤ → Bool
known none = false
known (some _) = true

unfoldable pub reassert_throttled : ℤ → Option ℤ → Option ℤ → Option ℤ → ℤ → Bool → ℤ → Bool
unfolding stale_anchor
reassert_throttled target_snapped last_cmd_sp cmd_episode_ts last_sp_write_ts now mode_changed
      min_interval_s =
    if mode_changed
    then false
    else if not (same (some target_snapped) last_cmd_sp)
    then false
    else if not (known cmd_episode_ts)
    then false
    else recently last_sp_write_ts now min_interval_s

unfoldable pub mode_reassert_throttled : String → Option String → Option ℤ → ℤ → ℤ → Bool
unfolding stale_anchor
mode_reassert_throttled desired_mode last_commanded_hvac last_mode_nudge_ts now min_interval_s =
    if not (is_text last_commanded_hvac desired_mode)
    then false
    else recently last_mode_nudge_ts now min_interval_s

-- The advisory of a device whose grid is coarser than the step that it declares.
unfoldable pub quantization_settle_delta : Option ℤ → Option ℤ → Option ℤ → ℕ → ℕ → Option ℤ
quantization_settle_delta none last_cmd_sp actual_sp suppressed min_suppressed = none
quantization_settle_delta (some step) none actual_sp suppressed min_suppressed = none
quantization_settle_delta (some step) (some cmd) none suppressed min_suppressed = none
quantization_settle_delta (some step) (some cmd) (some actual) suppressed min_suppressed =
    let delta = abs_ℤ (actual -ℤ cmd) in
    if ltb suppressed min_suppressed
    then none
    else if leb_ℤ step (pos 0)
    then none
    else if ltb_ℤ step (delta +ℤ delta)
    then some delta
    else none

-- What one tick hands to the setpoint gate, beside the baselines.
pub record GateInput : Type 0 where
  pub target : Float
  pub online : Bool
  pub adopted_sp : Option ℤ
  pub mode_override : Option String
  pub mode_nudge_blocked : Bool
  pub reg_throttled : Bool
  pub actual_sp : Option ℤ
  pub step : ℤ
  pub mode_changed : Bool
  pub provenance : Provenance

-- `reassert_idempotent(...)` and `reassert_throttled(...)` of `stage_setpoint_observe`
unfoldable pub idempotent_at : External → GateInput → ℤ → ℤ → Bool
unfolding reassert_idempotent
idempotent_at e i target_snapped now =
    reassert_idempotent target_snapped e.last_cmd_sp i.actual_sp e.prev_device_sp i.provenance
      e.cmd_episode_ts e.last_sp_write_ts now i.mode_changed episode_settle_min_s
      reassert_liveness_s

unfoldable pub throttled_at : External → GateInput → ℤ → ℤ → Bool
unfolding reassert_throttled
throttled_at e i target_snapped now =
    reassert_throttled target_snapped e.last_cmd_sp e.cmd_episode_ts e.last_sp_write_ts now
      i.mode_changed min_setpoint_reassert_interval_s

-- `plan_setpoint_write`: the snapped setpoint of the write that this tick decides, if any.  A
-- target that is not finite is never written.
unfoldable pub plan_on : External → GateInput → ℤ → Float → Option ℤ
plan_on e i now non_finite = none
plan_on e i now (finite target_snapped) =
    if i.online
      && (not (known i.adopted_sp)
          && (not (is_text i.mode_override "off")
              && (not i.mode_nudge_blocked
                  && (not i.reg_throttled
                      && (not (idempotent_at e i target_snapped now)
                          && (not (throttled_at e i target_snapped now)
                              && should_write i.actual_sp target_snapped i.mode_changed
                                  write_deadband_c))))))
    then some target_snapped
    else none

unfoldable pub plan_setpoint_write : External → GateInput → ℤ → Option ℤ
unfolding plan_on
plan_setpoint_write e i now = plan_on e i now (snap_to_step i.target i.step)

-- an actuator that is offline ends the command episode (`stage_setpoint_observe`)
unfoldable pub observe_online : External → Bool → External
observe_online e true = e
observe_online e false = record e { cmd_episode_ts = none; reasserts_suppressed = 0 }

-- the ring of Context ids keeps the newest sixteen
abbrev pub ring_capacity : ℕ
ring_capacity = 16

abbrev drop_oldest : List String → List String
drop_oldest [] = []
drop_oldest (x ∷ xs) = if ltb (length xs) ring_capacity then x ∷ xs else xs

abbrev register : Option String → List String → List String
register none ids = ids
register (some c) ids = drop_oldest (ids ++ (c ∷ []))

-- One dispatched setpoint write, as the commit folds it.
pub record SetpointExecution : Type 0 where
  pub attempted : Bool
  pub success : Bool
  pub context_id : Option String
  pub pre_write_value : Option ℤ
  pub commanded_value : Option ℤ

abbrev eq_opt : Option ℤ → Option ℤ → Bool
eq_opt none none = true
eq_opt none (some _) = false
eq_opt (some _) none = false
eq_opt (some a) (some b) = leb_ℤ a b && leb_ℤ b a

-- the attempt state: it is stamped even when the dispatch failed
unfoldable pub commit_attempt : External → SetpointExecution → External
commit_attempt e x =
    if x.attempted
    then record e {
      pre_write_sp = x.pre_write_value;
      own_write_ctx_ids = register x.context_id e.own_write_ctx_ids;
    }
    else e

-- the success state
unfoldable pub commit_success : External → SetpointExecution → ℤ → External
commit_success e x now =
    let begins = not (eq_opt e.last_cmd_sp x.commanded_value) || not (known e.cmd_episode_ts) in
    record e {
      last_sp_write_ts = some now;
      last_written_sp = x.commanded_value;
      cmd_episode_ts = if begins then some now else e.cmd_episode_ts;
      reasserts_suppressed = if begins then 0 else e.reasserts_suppressed;
      last_cmd_sp = x.commanded_value;
      last_sp_ctx_id = x.context_id;
    }

unfoldable pub commit_setpoint : External → SetpointExecution → ℤ → External
unfolding commit_attempt commit_success
commit_setpoint e x now =
    if x.success then commit_success (commit_attempt e x) x now else commit_attempt e x

-- a write of `w` that was dispatched
abbrev pub execution_of : ℤ → SetpointExecution
execution_of w = record {
  attempted = true;
  success = true;
  context_id = none;
  pre_write_value = none;
  commanded_value = some w;
}

abbrev commit_planned : External → Option ℤ → ℤ → External
commit_planned e none now = e
commit_planned e (some w) now = commit_setpoint e (execution_of w) now

-- the setpoint channel of one tick: observe, plan, dispatch without an exception, commit
unfoldable pub setpoint_tick : External → GateInput → ℤ → External
unfolding observe_online plan_setpoint_write commit_setpoint
setpoint_tick e i now =
    let e' = observe_online e i.online in commit_planned e' (plan_setpoint_write e' i now) now

-- One dispatched mode nudge, and its commit.
pub record ModeExecution : Type 0 where
  pub attempted : Bool
  pub success : Bool
  pub context_id : Option String
  pub mode_changed : Bool
  pub commanded_mode : Option String

unfoldable pub commit_mode : External → ModeExecution → ℤ → External
commit_mode e x now =
    let ids =
      if x.attempted then register x.context_id e.own_write_ctx_ids else e.own_write_ctx_ids in
    if x.success
    then record e {
      own_write_ctx_ids = ids;
      last_hvac_cmd_ts = if x.mode_changed then some now else e.last_hvac_cmd_ts;
      mode_reasserts_suppressed = if x.mode_changed then 0 else e.mode_reasserts_suppressed;
      last_mode_nudge_ts = some now;
      last_commanded_hvac = x.commanded_mode;
    }
    else record e { own_write_ctx_ids = ids }
