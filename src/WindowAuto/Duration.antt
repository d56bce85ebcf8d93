-- ===== src/WindowAuto/Duration.antt =====
-- How long the detector of custom_components/poise/control/window_auto.py holds a window open.
use poise_thermostat.Base.{
  ◌≤◌, ◌≡◌, refl, ap, ◌∙◌, inl, inr, true, false, Option, none, some, List, [], ◌∷◌, arith,
  Bool-cases,
}
use poise_thermostat.Base.Int.{ℤ, pos, ◌<ℤ◌, ◌+ℤ◌, leb_ℤ, ltb_ℤ, abs_ℤ}
use poise_thermostat.WindowAuto.{
  WindowAutoConfig, WindowAutoState, fresh_window, so_far, step_without_slope, step_with_slope,
  verdict, step_window_auto,
}

-- An open window has been so for less than the maximum, on enough points; a closed one for no time.
abbrev pub IsWindow : WindowAutoConfig → WindowAutoState → Type 0
IsWindow c s =
    (s.is_open ≡ true → (s.minutes_open <ℤ c.max_duration_min) × (c.min_points ≤ s.n_points))
    × (s.is_open ≡ false → s.minutes_open ≡ pos 0)

module _ (c : WindowAutoConfig) (positive : pos 0 <ℤ c.max_duration_min) where
  without-IsWindow :
      (s : WindowAutoState) (dt : ℤ)
      → IsWindow c s
      → IsWindow c (step_without_slope c s (so_far s dt))
  unfolding step_without_slope leb_ℤ
  without-IsWindow s dt h = ground (arith, h.0, h.1)

  with-IsWindow :
      (s : WindowAutoState) (slope dt : ℤ)
      → IsWindow c s
      → IsWindow c (step_with_slope c s slope (so_far s dt))
  unfolding step_with_slope verdict leb_ℤ
  with-IsWindow s slope dt h = ground (arith, h.0, h.1)

  step-IsWindow :
      (s : WindowAutoState) (slope : Option ℤ) (dt : ℤ)
      → IsWindow c s
      → IsWindow c (step_window_auto c s slope dt)
  unfolding step_window_auto
  step-IsWindow s none dt h = without-IsWindow s dt h
  step-IsWindow s (some slope) dt h = elim (Bool-cases (ltb_ℤ c.max_slope (abs_ℤ slope))) [
    | inl e ↦ rw e (without-IsWindow s dt h)
    | inr e ↦ rw e (with-IsWindow s slope dt h)
  ]

-- while the window stays open, its time adds up
without-minutes :
    (c : WindowAutoConfig) (s : WindowAutoState) (dt : ℤ)
    → s.is_open ≡ true
    → (step_without_slope c s (so_far s dt)).is_open ≡ true
    → (step_without_slope c s (so_far s dt)).minutes_open ≡ s.minutes_open +ℤ dt
unfolding step_without_slope
without-minutes c s dt e f = ground (arith, e, f)

with-minutes :
    (c : WindowAutoConfig) (s : WindowAutoState) (slope dt : ℤ)
    → s.is_open ≡ true
    → (step_with_slope c s slope (so_far s dt)).is_open ≡ true
    → (step_with_slope c s slope (so_far s dt)).minutes_open ≡ s.minutes_open +ℤ dt
unfolding step_with_slope verdict
with-minutes c s slope dt e f = ground (arith, e, f)

step-minutes :
    (c : WindowAutoConfig) (s : WindowAutoState) (slope : Option ℤ) (dt : ℤ)
    → s.is_open ≡ true
    → (step_window_auto c s slope dt).is_open ≡ true
    → (step_window_auto c s slope dt).minutes_open ≡ s.minutes_open +ℤ dt
unfolding step_window_auto
step-minutes c s none dt e f = without-minutes c s dt e f
step-minutes c s (some slope) dt e f = elim (Bool-cases (ltb_ℤ c.max_slope (abs_ℤ slope))) [
  | inl g ↦ rw g (without-minutes c s dt e (rw g at f))
  | inr g ↦ rw g (with-minutes c s slope dt e (rw g at f))
]

-- A tick: the slope, where one is known, and the minutes since the last tick.
pub record Tick : Type 0 where
  pub slope : Option ℤ
  pub dt_min : ℤ

unfoldable pub run : WindowAutoConfig → WindowAutoState → List Tick → WindowAutoState
run c s [] = s
run c s (k ∷ ks) = run c (step_window_auto c s k.slope k.dt_min) ks

abbrev pub StaysOpen : WindowAutoConfig → WindowAutoState → List Tick → Type 0
StaysOpen c s [] = Unit
StaysOpen c s (k ∷ ks) =
    ((step_window_auto c s k.slope k.dt_min).is_open ≡ true)
    × StaysOpen c (step_window_auto c s k.slope k.dt_min) ks

abbrev pub total : ℤ → List Tick → ℤ
total t [] = t
total t (k ∷ ks) = total (t +ℤ k.dt_min) ks

run-IsWindow :
    (c : WindowAutoConfig) (s : WindowAutoState) (ks : List Tick)
    → pos 0 <ℤ c.max_duration_min
    → IsWindow c s
    → IsWindow c (run c s ks)
unfolding run
run-IsWindow c s [] p h = h
run-IsWindow c s (k ∷ ks) p h =
    run-IsWindow c (step_window_auto c s k.slope k.dt_min) ks p
      (step-IsWindow c p s k.slope k.dt_min h)

open-bounded :
    (c : WindowAutoConfig) (s : WindowAutoState) (ks : List Tick) (t : ℤ)
    → pos 0 <ℤ c.max_duration_min
    → IsWindow c s
    → s.is_open ≡ true
    → s.minutes_open ≡ t
    → StaysOpen c s ks
    → total t ks <ℤ c.max_duration_min
open-bounded c s [] t p h e m o = ground (arith, h.0 e, m)
open-bounded c s (k ∷ ks) t p h e m (o, os) =
    open-bounded c (step_window_auto c s k.slope k.dt_min) ks (t +ℤ k.dt_min) p
      (step-IsWindow c p s k.slope k.dt_min h) o
      (step-minutes c s k.slope k.dt_min e o ∙ ap (λ z. z +ℤ k.dt_min) m) os

-- However the slopes run, and with any of them missing, the detector never holds a window open for
-- the maximum duration: after any run from the fresh state that leaves it open, the minutes so far
-- and those of any further ticks on all of which it stays open add up to less, for a positive
-- maximum.
pub run-StaysOpen :
    (c : WindowAutoConfig) (before ks : List Tick)
    → pos 0 <ℤ c.max_duration_min
    → (run c fresh_window before).is_open ≡ true
    → StaysOpen c (run c fresh_window before) ks
    → total (run c fresh_window before).minutes_open ks <ℤ c.max_duration_min
run-StaysOpen c before ks p e o =
    open-bounded c (run c fresh_window before) ks (run c fresh_window before).minutes_open p
      (run-IsWindow c fresh_window before p ((λ f. cc), λ f. refl)) e refl o
