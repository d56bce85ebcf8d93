-- ===== src/Convergence.antt =====
-- custom_components/poise/safety/write_convergence.py: the watchdog that counts re-asserts of a
-- command which the device does not apply.  Times are thousandths of a second, temperatures
-- thousandths of a degree.  The two channels of the Python class have the same three fields, which
-- stand here in one record.
pub mod Episode
use poise_thermostat.Base.{
  ℕ, ◌+◌, leb, Bool, true, false, not, ◌&&◌, ◌||◌, Option, none, some, if◌then◌else◌,
}
use poise_thermostat.Base.Int.{ℤ, pos, ◌-ℤ◌, ltb_ℤ, leb_ℤ, max_ℤ, abs_ℤ, seconds}

abbrev pub conv_fail_writes : ℕ
conv_fail_writes = 5

abbrev pub conv_fail_min_s : ℤ
conv_fail_min_s = seconds 600

abbrev pub conv_evidence_ttl_s : ℤ
conv_evidence_ttl_s = seconds 3600

abbrev pub conv_min_tolerance_c : ℤ
conv_min_tolerance_c = pos 500

unfoldable pub convergence_tolerance : ℤ → ℤ
convergence_tolerance step = max_ℤ conv_min_tolerance_c step

-- `*_diverged_writes` or `*_diverged_nudges`, `*_diverged_since`, `*_last_evidence`
pub record Channel : Type 0 where
  pub count : ℕ
  pub since : Option ℤ
  pub last : Option ℤ

abbrev pub cleared : Channel
cleared = record { count = 0; since = none; last = none }

pub record Watchdog : Type 0 where
  pub sp : Channel
  pub mode : Channel

-- a stamp that lies ahead of the clock is moved back to it
unfoldable pub reanchor : Option ℤ → ℤ → Option ℤ
reanchor none now = none
reanchor (some t) now = if ltb_ℤ now t then some now else some t

abbrev expired : Option ℤ → ℤ → Bool
expired none now = false
expired (some t) now = ltb_ℤ conv_evidence_ttl_s (now -ℤ t)

-- `_expire_sp` and `_expire_mode`
unfoldable pub expire : Channel → ℤ → Channel
unfolding reanchor
expire c now =
    let last = reanchor c.last now in
    if expired last now
    then cleared
    else record { count = c.count; since = reanchor c.since now; last = last }

abbrev or_now : Option ℤ → ℤ → Option ℤ
or_now none now = some now
or_now (some t) now = some t

-- one more piece of evidence of divergence
unfoldable pub evidence : Channel → ℤ → Channel
evidence c now = record { count = c.count + 1; since = or_now c.since now; last = some now }

pub record SetpointTick : Type 0 where
  pub actual_sp : Option ℤ
  pub last_written_sp : Option ℤ
  pub tolerance : ℤ
  pub wrote : Bool
  pub evidence_fresh : Bool
  pub now : ℤ

-- what a tick says of a channel: nothing, the end of its episode, or one more divergence
pub data Verdict : Type 0 where
  no_evidence ended diverged : Verdict

unfoldable pub judge_on : Option ℤ → Option ℤ → ℤ → Bool → Bool → Verdict
judge_on none w tolerance wrote fresh = no_evidence
judge_on (some a) none tolerance wrote fresh = no_evidence
judge_on (some a) (some w) tolerance wrote fresh =
    if not fresh
    then no_evidence
    else if leb_ℤ (abs_ℤ (a -ℤ w)) tolerance
    then ended
    else if wrote
    then diverged
    else no_evidence

unfoldable pub judge : SetpointTick → Verdict
unfolding judge_on
judge t = judge_on t.actual_sp t.last_written_sp t.tolerance t.wrote t.evidence_fresh

unfoldable pub fold_verdict : Verdict → Channel → ℤ → Channel
unfolding evidence
fold_verdict no_evidence c now = c
fold_verdict ended c now = cleared
fold_verdict diverged c now = evidence c now

-- `observe_setpoint` on the setpoint channel
unfoldable pub observe_sp : Channel → SetpointTick → Channel
unfolding fold_verdict expire
observe_sp c t = fold_verdict (judge t) (expire c t.now) t.now

unfoldable pub observe_setpoint : Watchdog → SetpointTick → Watchdog
unfolding observe_sp
observe_setpoint w t = record w { sp = observe_sp w.sp t }

-- the mode evidence: a nudge to a new mode is a fresh command and ends the episode too
unfoldable pub judge_mode : Bool → Bool → Bool → Bool → Verdict
judge_mode nudged re_nudge current_matches_desired evidence_fresh =
    if not evidence_fresh
    then no_evidence
    else if current_matches_desired
    then ended
    else if nudged && re_nudge
    then diverged
    else if nudged
    then ended
    else no_evidence

unfoldable pub observe_mode : Watchdog → Bool → Bool → Bool → Bool → ℤ → Watchdog
unfolding judge_mode fold_verdict expire
observe_mode w nudged re_nudge current_matches_desired evidence_fresh now = record w {
  mode =
      fold_verdict (judge_mode nudged re_nudge current_matches_desired evidence_fresh)
        (expire w.mode now) now;
}

unfoldable pub reset : Watchdog → Watchdog
reset w = record { sp = cleared; mode = cleared }

abbrev long_enough : Option ℤ → ℤ → Bool
long_enough none now = false
long_enough (some t) now = leb_ℤ conv_fail_min_s (now -ℤ t)

unfoldable pub channel_escalated : Channel → ℤ → Bool
channel_escalated c now = leb conv_fail_writes c.count && long_enough c.since now

unfoldable pub escalated : Watchdog → ℤ → Bool
unfolding channel_escalated
escalated w now = channel_escalated w.sp now || channel_escalated w.mode now
