-- ===== src/Activation/Dwell.antt =====
-- A comfort block goes live only after its dwell
-- (custom_components/poise/control/comfort_activation.py).
use poise_thermostat.Base.{
  ◌≡◌, ◌≢◌, refl, Bool, true, false, List, [], ◌∷◌, arith, if◌then◌else◌, All,
}
use poise_thermostat.Base.Int.{ℤ, pos, ◌+ℤ◌, ◌≤ℤ◌, leb_ℤ}
use poise_thermostat.Activation.{
  TierState, shadow, eligible, live, suspended, TierActivation, TierTick, qualifies, step_tier,
  step_by, retire, dwell_target_min,
}

unfoldable pub run : TierActivation → List TierTick → TierActivation
run a [] = a
run a (k ∷ ks) = run (step_tier a k) ks

-- the minutes of the ticks that qualify
unfoldable pub qualified : ℤ → List TierTick → ℤ
qualified t [] = t
qualified t (k ∷ ks) = qualified (if qualifies k then t +ℤ k.dt_min else t) ks

-- An eligible tier has dwelt for no more than the time `t` that qualified, and for a live one that time
-- reached the target.
abbrev HasDwelt : ℤ → TierActivation → Type 0
HasDwelt t a =
    (pos 0 ≤ℤ t)
    × (a.state ≡ eligible → a.dwell_min ≤ℤ t)
    × (a.state ≡ live → dwell_target_min ≤ℤ t)

abbrev counted : ℤ → TierTick → ℤ
counted t k = if qualifies k then t +ℤ k.dt_min else t

counted-grows : (t : ℤ) (k : TierTick) → pos 0 ≤ℤ k.dt_min → t ≤ℤ counted t k
unfolding ◌+ℤ◌
counted-grows t k d = ground (arith, d)

step_by-HasDwelt :
    (st : TierState) (t : ℤ) (a : TierActivation) (k : TierTick)
    → a.state ≡ st
    → pos 0 ≤ℤ k.dt_min
    → HasDwelt t a
    → HasDwelt (counted t k) (step_by st a k)
unfolding step_by leb_ℤ ◌+ℤ◌
step_by-HasDwelt live t a k e d (z, l, h) = ground (arith, e, d, z, l, h)
step_by-HasDwelt shadow t a k e d (z, l, h) = ground (arith, e, d, z, l, h)
step_by-HasDwelt suspended t a k e d (z, l, h) = ground (arith, e, d, z, l, h)
step_by-HasDwelt eligible t a k e d (z, l, h) = ground (arith, e, d, z, l, h)

retire-HasDwelt :
    (st : TierState) (t : ℤ) (a : TierActivation) (k : TierTick)
    → a.state ≡ st
    → pos 0 ≤ℤ k.dt_min
    → HasDwelt t a
    → HasDwelt (counted t k) (retire st a)
unfolding retire ◌+ℤ◌
retire-HasDwelt live t a k e d (z, l, h) = ground (arith, e, d, z, l, h)
retire-HasDwelt shadow t a k e d (z, l, h) = ground (arith, e, d, z, l, h)
retire-HasDwelt suspended t a k e d (z, l, h) = ground (arith, e, d, z, l, h)
retire-HasDwelt eligible t a k e d (z, l, h) = ground (arith, e, d, z, l, h)

either-HasDwelt :
    (b : Bool) (t : ℤ) (x y : TierActivation)
    → HasDwelt t x
    → HasDwelt t y
    → HasDwelt t (if b then x else y)
either-HasDwelt true t x y h g = h
either-HasDwelt false t x y h g = g

step-HasDwelt :
    (t : ℤ) (a : TierActivation) (k : TierTick)
    → pos 0 ≤ℤ k.dt_min
    → HasDwelt t a
    → HasDwelt (counted t k) (step_tier a k)
unfolding step_tier
step-HasDwelt t a k d h =
    either-HasDwelt k.impossible (counted t k) (retire a.state a) (step_by a.state a k)
      (retire-HasDwelt a.state t a k refl d h) (step_by-HasDwelt a.state t a k refl d h)

-- no tick goes back in time
abbrev pub Forward : List TierTick → Type 0
Forward ks = All (λ k. pos 0 ≤ℤ k.dt_min) ks

run-HasDwelt :
    (t : ℤ) (a : TierActivation) (ks : List TierTick)
    → Forward ks
    → HasDwelt t a
    → HasDwelt (qualified t ks) (run a ks)
unfolding run qualified
run-HasDwelt t a [] f h = h
run-HasDwelt t a (k ∷ ks) (f, fs) h =
    run-HasDwelt (counted t k) (step_tier a k) ks fs (step-HasDwelt t a k f h)

-- A comfort block that starts neither eligible nor live is live at the end of a run only when the
-- ticks of the run that qualify cover at least 24 hours, where no tick goes back in time.
pub live_after_dwell :
    (a : TierActivation) (ks : List TierTick)
    → a.state ≢ eligible
    → a.state ≢ live
    → Forward ks
    → (run a ks).state ≡ live
    → dwell_target_min ≤ℤ qualified (pos 0) ks
live_after_dwell a ks e l f r =
    (run-HasDwelt (pos 0) a ks f (omega arith, (λ h. absurd (e h)), λ h. absurd (l h))).2 r
