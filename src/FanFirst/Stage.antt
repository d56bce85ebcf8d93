-- ===== src/FanFirst/Stage.antt =====
-- Which fan stage is chosen.
use Prim.Native.String.{String}
use mathlib.Core.Path.{subst}
use poise_thermostat.Base.{
  ◌≡◌, ◌⊎◌, inl, inr, false, Option, none, some, List, [], ◌∷◌, arith, Option-cases,
}
use poise_thermostat.Base.Int.{ℤ, ◌≤ℤ◌, ◌<ℤ◌, ltb_ℤ, leb_ℤ}
use poise_thermostat.FanFirst.{
  FanMode, usable, better_stage, best_stage, select_fan_stage, clamp_low_ms,
}

-- The mode is no "auto" and its known velocity `v` lies in the clamp.
abbrev pub Fits : ℤ → FanMode → ℤ → Type 0
Fits max_velocity f v =
    (f.is_auto ≡ false) × (f.velocity ≡ some v) × (clamp_low_ms <ℤ v) × (v ≤ℤ max_velocity)

-- Some advertised mode of that label fits.
abbrev pub Offered : ℤ → List FanMode → String → Type 0
Offered max_velocity [] l = ⊥
Offered max_velocity (f ∷ fs) l =
    ((f.label ≡ l) × (v : ℤ) × Fits max_velocity f v) ⊎ Offered max_velocity fs l

usable-Fits : (m : ℤ) (f : FanMode) (v : ℤ) → usable m f ≡ some v → Fits m f v
unfolding usable ltb_ℤ leb_ℤ
usable-Fits m f v h = ground arith

better_stage-Fits :
    (m : ℤ) (best : Option (ℤ × String)) (f : FanMode) (v : ℤ) (l : String)
    → better_stage m best f ≡ some (v, l)
    → (best ≡ some (v, l)) ⊎ ((f.label ≡ l) × (u : ℤ) × Fits m f u)
unfolding better_stage
better_stage-Fits m best f v l h = elim (Option-cases (usable m f)) [
  | inl e ↦ inl (ground (arith, e, h))
  | inr (u, e) ↦
      let taken : (best ≡ some (v, l)) ⊎ (f.label ≡ l) = ground (arith, e, h) in
      elim taken [ inl before ↦ inl before | inr label ↦ inr (label, u, usable-Fits m f u e) ]
]

best_stage-Offered :
    (m : ℤ) (best : Option (ℤ × String)) (fs : List FanMode) (v : ℤ) (l : String)
    → best_stage m best fs ≡ some (v, l)
    → (best ≡ some (v, l)) ⊎ Offered m fs l
unfolding best_stage
best_stage-Offered m best [] v l h = inl h
best_stage-Offered m best (f ∷ fs) v l h =
    elim (best_stage-Offered m (better_stage m best f) fs v l h) [
      | inr later ↦ inr (inr later)
      | inl here ↦ elim (better_stage-Fits m best f v l here) [
        | inl before ↦ inl before
        | inr fits ↦ inr (inl fits)
      ]
    ]

pub select_fan_stage-Offered :
    (m : ℤ) (fs : List FanMode) (l : String) → select_fan_stage fs m ≡ some l → Offered m fs l
unfolding select_fan_stage
select_fan_stage-Offered m fs l h = elim (Option-cases (best_stage m none fs)) [
  | inl e ↦ let h' = rw e at h in cc
  | inr (b, e) ↦ elim (best_stage-Offered m none fs b.0 b.1 e) [
    | inl e' ↦ cc
    | inr offered ↦
        let h' = rw e at h in let label : b.1 ≡ l = cc in subst (λ x. Offered m fs x) label offered
  ]
]
