-- ===== src/Failure.antt =====
-- custom_components/poise/safety/heating_failure.py: the detector of a room that is heated, or cooled,
-- without effect.  Temperatures are thousandths of a degree and times thousandths of an hour; the
-- limits that the constructor takes are a record.
pub mod Window
pub mod Latch
use Prim.Native.String.{String}
use text.Mathlib.Text.{◌==◌ as str_eq}
use poise_thermostat.Base.{Bool, true, false, not, ◌&&◌, Option, none, some, if◌then◌else◌}
use poise_thermostat.Base.Int.{ℤ, pos, ◌-ℤ◌, ltb_ℤ, leb_ℤ, neg_ℤ}

unfoldable pub actuator_running : Option String → Bool → Bool
actuator_running none fallback = fallback
actuator_running (some a) fallback = str_eq a "heating"

unfoldable pub actuator_cooling : Option String → Bool → Bool
actuator_cooling none fallback = fallback
actuator_cooling (some a) fallback = str_eq a "cooling"

pub record Limits : Type 0 where
  pub delay_h : ℤ
  pub cmd_delta : ℤ
  pub min_rise : ℤ

-- const DEFAULT_CMD_DELTA and DEFAULT_MIN_RISE; the delay of 35 minutes is given by the caller
abbrev pub default_cmd_delta : ℤ
default_cmd_delta = pos 2000

abbrev pub default_min_rise : ℤ
default_min_rise = pos 200

-- `_start`, the time and the room when the window began, `_clear_start` and `_failed`
pub record Detector : Type 0 where
  pub start : Option (ℤ × ℤ)
  pub clear_start : Option ℤ
  pub failed : Bool

abbrev pub new_detector : Detector
new_detector = record { start = none; clear_start = none; failed = false }

-- one call of `update`
pub record Sample : Type 0 where
  pub now_h : ℤ
  pub room : ℤ
  pub setpoint : ℤ
  pub running : Bool

-- F22: an anchor that lies ahead of the clock is set to it
unfoldable pub reanchor_start : Option (ℤ × ℤ) → ℤ → ℤ → Option (ℤ × ℤ)
reanchor_start none now room = none
reanchor_start (some (t, r)) now room = if ltb_ℤ now t then some (now, room) else some (t, r)

unfoldable pub reanchor_clear : Option ℤ → ℤ → Option ℤ
reanchor_clear none now = none
reanchor_clear (some t) now = if ltb_ℤ now t then some now else some t

unfoldable pub demanded : Limits → Sample → Bool
demanded c x = x.running && leb_ℤ c.cmd_delta (x.setpoint -ℤ x.room)

-- `if not demand`
unfoldable pub update_idle : Limits → Option (ℤ × ℤ) → Option ℤ → Bool → ℤ → Detector
update_idle c start none failed now = record {
  start = start;
  clear_start = some now;
  failed = failed;
}
update_idle c start (some t) failed now =
    if leb_ℤ c.delay_h (now -ℤ t)
    then record { start = none; clear_start = none; failed = false }
    else record { start = start; clear_start = some t; failed = failed }

-- the tumbling window
unfoldable pub update_demand : Limits → Option (ℤ × ℤ) → Bool → ℤ → ℤ → Detector
update_demand c none failed now room = record {
  start = some (now, room);
  clear_start = none;
  failed = failed;
}
update_demand c (some (start_h, room0)) failed now room =
    if leb_ℤ c.delay_h (now -ℤ start_h)
    then record {
      start = some (now, room);
      clear_start = none;
      failed = ltb_ℤ (room -ℤ room0) c.min_rise;
    }
    else record { start = some (start_h, room0); clear_start = none; failed = failed }

unfoldable pub update : Limits → Detector → Sample → Detector
unfolding reanchor_start reanchor_clear demanded update_idle update_demand
update c d x =
    let start = reanchor_start d.start x.now_h x.room in
    if demanded c x
    then update_demand c start d.failed x.now_h x.room
    else update_idle c start (reanchor_clear d.clear_start x.now_h) d.failed x.now_h

-- the cooling detector negates room and setpoint
unfoldable pub mirrored : Sample → Sample
mirrored x = record x { room = neg_ℤ x.room; setpoint = neg_ℤ x.setpoint }

unfoldable pub update_cooling : Limits → Detector → Sample → Detector
unfolding update mirrored
update_cooling c d x = update c d (mirrored x)

pub data Notification : Type 0 where
  create dismiss : Notification

unfoldable pub failure_notification_action : Bool → Bool → Option Notification
failure_notification_action true false = some create
failure_notification_action false true = some dismiss
failure_notification_action true true = none
failure_notification_action false false = none
