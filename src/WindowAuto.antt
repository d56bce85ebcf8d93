-- ===== src/WindowAuto.antt =====
-- The detector of an open window by the slope of the room temperature: `step_window_auto` and
-- `effective_window_open` of custom_components/poise/control/window_auto.py.  Slopes are thousandths of
-- a degree per hour and durations thousandths of a minute; the smoothed slope before its rounding is in
-- millionths.
pub mod Duration
use poise_thermostat.Base.{
  ℕ, zero, suc, ◌+◌, ◌-◌, ◌*◌, Bool, true, false, not, ◌&&◌, ◌||◌, Option, none, some, List, [],
  ◌∷◌, if◌then◌else◌, leb,
}
use poise_thermostat.Base.Int.{ℤ, pos, negsuc, ◌+ℤ◌, ◌-ℤ◌, ◌*ℤ◌, ltb_ℤ, leb_ℤ, neg_ℤ, abs_ℤ}
use poise_thermostat.Base.Round.{nearest}

pub record WindowAutoConfig : Type 0 where
  pub open_threshold : ℤ
  pub close_fraction : ℤ
  pub max_duration_min : ℤ
  pub min_points : ℕ
  pub ema_old_weight : ℤ
  pub max_slope : ℤ

abbrev pub default_config : WindowAutoConfig
default_config = record {
  open_threshold = pos 3000;
  close_fraction = pos 200;
  max_duration_min = pos 30_000;
  min_points = 3;
  ema_old_weight = pos 200;
  max_slope = pos 120_000;
}

-- `is_open` is the field `open` of the source.
pub record WindowAutoState : Type 0 where
  pub ema_slope : ℤ
  pub n_points : ℕ
  pub is_open : Bool
  pub minutes_open : ℤ

abbrev pub fresh_window : WindowAutoState
fresh_window = record { ema_slope = pos 0; n_points = 0; is_open = false; minutes_open = pos 0 }

-- `round(x, 3)` of millionths
unfoldable pub round_milli : ℤ → ℤ
unfolding nearest
round_milli (pos n) = pos (nearest 1000 n)
round_milli (negsuc n) = neg_ℤ (pos (nearest 1000 (suc n)))

abbrev pub so_far : WindowAutoState → ℤ → ℤ
so_far s dt_min = if s.is_open then s.minutes_open +ℤ dt_min else pos 0

-- a missing or aberrant slope
unfoldable pub step_without_slope : WindowAutoConfig → WindowAutoState → ℤ → WindowAutoState
step_without_slope c s minutes_open =
    if s.is_open && leb_ℤ c.max_duration_min minutes_open
    then record s { is_open = false; minutes_open = pos 0 }
    else record s { minutes_open = minutes_open }

unfoldable pub smoothed : WindowAutoConfig → WindowAutoState → ℤ → ℤ
smoothed c s slope =
    if leb s.n_points 0
    then pos 1000 *ℤ slope
    else (c.ema_old_weight *ℤ s.ema_slope) +ℤ ((pos 1000 -ℤ c.ema_old_weight) *ℤ slope)

-- steeper than the threshold, and recovered to a fraction of it
abbrev pub steep : WindowAutoConfig → ℤ → Bool
steep c ema = ltb_ℤ ema (neg_ℤ (pos 1000 *ℤ c.open_threshold))

abbrev pub recovered : WindowAutoConfig → ℤ → Bool
recovered c ema = leb_ℤ (neg_ℤ (c.close_fraction *ℤ c.open_threshold)) ema

-- `open_` and `minutes_open` of a usable slope
unfoldable pub verdict : WindowAutoConfig → Bool → ℕ → ℤ → ℤ → Bool × ℤ
verdict c is_open n_points ema minutes_open =
    if not (leb c.min_points n_points)
    then (is_open, minutes_open)
    else if not is_open
    then (if steep c ema then (true, pos 0) else (false, minutes_open))
    else if recovered c ema || leb_ℤ c.max_duration_min minutes_open
    then (false, pos 0)
    else (true, minutes_open)

unfoldable pub step_with_slope : WindowAutoConfig → WindowAutoState → ℤ → ℤ → WindowAutoState
unfolding smoothed verdict round_milli
step_with_slope c s slope minutes_open =
    let ema = smoothed c s slope in
    let v = verdict c s.is_open (s.n_points + 1) ema minutes_open in
    record {
      ema_slope = round_milli ema;
      n_points = s.n_points + 1;
      is_open = v.0;
      minutes_open = v.1;
    }

unfoldable pub step_window_auto :
    WindowAutoConfig → WindowAutoState → Option ℤ → ℤ → WindowAutoState
unfolding step_without_slope step_with_slope
step_window_auto c s none dt_min = step_without_slope c s (so_far s dt_min)
step_window_auto c s (some slope) dt_min =
    if ltb_ℤ c.max_slope (abs_ℤ slope)
    then step_without_slope c s (so_far s dt_min)
    else step_with_slope c s slope (so_far s dt_min)

unfoldable pub effective_window_open : Bool → Bool → Bool → Bool
effective_window_open sensor_open auto_open bypass =
    if bypass then false else sensor_open || auto_open
