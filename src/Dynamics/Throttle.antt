-- ===== src/Dynamics/Throttle.antt =====
-- The spacing of the setpoint nudges that the regulation period admits
-- (custom_components/poise/control/dynamics.py).
use poise_thermostat.Base.{
  ◌≡◌, inl, inr, false, Option, none, some, List, [], ◌∷◌, arith, if◌then◌else◌, Bool-cases,
}
use poise_thermostat.Base.Int.{ℤ, pos, ◌+ℤ◌, ◌-ℤ◌, ◌≤ℤ◌, ◌<ℤ◌, ltb_ℤ, leb_ℤ}
use poise_thermostat.Dynamics.{regulation_throttled}

-- The nudges that are written, for the times of the ticks that want one.
unfoldable pub nudge_times : ℤ → Option ℤ → List ℤ → List ℤ
nudge_times period last [] = []
nudge_times period last (t ∷ ts) =
    if regulation_throttled t last period
    then nudge_times period last ts
    else t ∷ nudge_times period (some t) ts

abbrev pub Apart : ℤ → Option ℤ → ℤ → Type 0
Apart period none t = Unit
Apart period (some s) t = s +ℤ period ≤ℤ t

abbrev pub SpacedBy : ℤ → Option ℤ → List ℤ → Type 0
SpacedBy period last [] = Unit
SpacedBy period last (t ∷ ts) = Apart period last t × SpacedBy period (some t) ts

not_throttled-Apart :
    (period : ℤ) (last : Option ℤ) (t : ℤ)
    → pos 0 <ℤ period
    → regulation_throttled t last period ≡ false
    → Apart period last t
unfolding regulation_throttled ltb_ℤ leb_ℤ ◌+ℤ◌ ◌-ℤ◌
not_throttled-Apart period none t p e = tt
not_throttled-Apart period (some s) t p e = ground (arith, p, e)

-- Under a positive regulation period the nudges that are written come at least the period apart, the
-- first one from the last write that is remembered.
nudge_times-SpacedBy :
    (period : ℤ) (last : Option ℤ) (ts : List ℤ)
    → pos 0 <ℤ period
    → SpacedBy period last (nudge_times period last ts)
unfolding nudge_times
nudge_times-SpacedBy period last [] p = tt
nudge_times-SpacedBy period last (t ∷ ts) p =
    elim (Bool-cases (regulation_throttled t last period)) [
      | inl e ↦ rw e (nudge_times-SpacedBy period last ts p)
      | inr e ↦
          rw e (not_throttled-Apart period last t p e, nudge_times-SpacedBy period (some t) ts p)
    ]
