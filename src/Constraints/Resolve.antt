-- ===== src/Constraints/Resolve.antt =====
-- `resolve_constraints` of custom_components/poise/constraints.py: the value against all floors and
-- caps, with and without an inversion.
use Prim.Native.String.{String}
use poise_thermostat.Base.{
  ◌⊎◌, inl, inr, [], ◌∷◌, first_best, ℕ, ◌≤◌, ◌<◌, ◌≡◌, true, false, Option, none, some, List,
  arith, All,
}
use poise_thermostat.Base.Int.{ℤ, ◌≤ℤ◌, ◌<ℤ◌, ltb_ℤ, eqb_ℤ, ◌-ℤ◌, abs_ℤ, abs_ℤ-between}
use poise_thermostat.Constraints.{
  Constraint, floor_at, cap_at, safety, health, comfort, cap_beats, rank, is_floor, is_cap,
  binding_floor, binding_cap, compose, resolve_constraints,
}
use poise_thermostat.Constraints.Extrema.{
  Above, Below, FloorsHold, CapsHold, Any, FloorsHold-binding_floor, CapsHold-binding_cap,
  binding_floor_keeps, binding_cap_keeps,
}

-- the composition of a satisfiable pair of binding constraints
compose_between :
    (desired l : ℤ) (f c : Option Constraint)
    → Above f l
    → Below c l
    → let v = (compose desired f c).value in
      Above f v × Below c v × ((desired ≤ℤ v) × (v ≤ℤ l) ⊎ (l ≤ℤ v) × (v ≤ℤ desired))
unfolding compose ltb_ℤ
compose_between desired l none none hf hc = ground arith
compose_between desired l none (some c) hf hc = ground arith
compose_between desired l (some f) none hf hc = ground arith
compose_between desired l (some f) (some c) hf hc = ground arith

-- Where some value satisfies every floor and every cap, the resolved value satisfies them all too,
-- and no other such value is closer to the desired one.
pub resolve_constraints_nearest :
    (desired l : ℤ) (cs : List Constraint)
    → FloorsHold cs l
    → CapsHold cs l
    → let v = (resolve_constraints desired cs).value in
      FloorsHold cs v × CapsHold cs v × (abs_ℤ (v -ℤ desired) ≤ℤ abs_ℤ (l -ℤ desired))
unfolding resolve_constraints
resolve_constraints_nearest desired l cs hf hc =
    let n =
      compose_between desired l (binding_floor cs) (binding_cap cs)
        (binding_floor_keeps (λ x. x.value ≤ℤ l) cs hf)
        (binding_cap_keeps (λ x. l ≤ℤ x.value) cs hc) in
    (
      FloorsHold-binding_floor (compose desired (binding_floor cs) (binding_cap cs)).value cs n.0,
      CapsHold-binding_cap (compose desired (binding_floor cs) (binding_cap cs)).value cs n.1,
      abs_ℤ-between desired _ l n.2,
    )

compose-floor_outranks :
    (desired : ℤ) (k : ℕ) (f c : Option Constraint)
    → Any (λ x. rank x.precedence ≤ k) f
    → Any (λ x. k ≤ rank x.precedence) c
    → Above f (compose desired f c).value
unfolding compose ltb_ℤ
compose-floor_outranks desired k none c hf hc = tt
compose-floor_outranks desired k (some f) none hf hc = ground arith
compose-floor_outranks desired k (some f) (some c) hf hc = ground arith

compose-cap_outranks :
    (desired : ℤ) (k : ℕ) (f c : Option Constraint)
    → Any (λ x. k < rank x.precedence) f
    → Any (λ x. rank x.precedence ≤ k) c
    → Below c (compose desired f c).value
unfolding compose ltb_ℤ
compose-cap_outranks desired k f none hf hc = tt
compose-cap_outranks desired k none (some c) hf hc = ground arith
compose-cap_outranks desired k (some f) (some c) hf hc = ground arith

-- Where every floor has at least the priority of every cap, no floor is undercut, whatever the caps
-- say.
resolve_constraints-floors_outrank :
    (desired : ℤ) (k : ℕ) (cs : List Constraint)
    → All (λ c. is_floor c ≡ true → rank c.precedence ≤ k) cs
    → All (λ c. is_cap c ≡ true → k ≤ rank c.precedence) cs
    → FloorsHold cs (resolve_constraints desired cs).value
unfolding resolve_constraints
resolve_constraints-floors_outrank desired k cs hf hc =
    FloorsHold-binding_floor (compose desired (binding_floor cs) (binding_cap cs)).value cs (
      compose-floor_outranks desired k _ _ (binding_floor_keeps _ cs hf)
        (binding_cap_keeps _ cs hc))

compose-floor_safe :
    (desired m : ℤ) (k : ℕ) (f c : Option Constraint)
    → Any (λ x. (rank x.precedence ≡ 0) ⊎ (rank x.precedence ≤ k) × (x.value ≤ℤ m)) f
    → Any (λ x. (k ≤ rank x.precedence) ⊎ (m ≤ℤ x.value)) c
    → Above f (compose desired f c).value
unfolding compose ltb_ℤ
compose-floor_safe desired m k none c hf hc = tt
compose-floor_safe desired m k (some f) none hf hc = ground arith
compose-floor_safe desired m k (some f) (some c) hf hc = ground arith

-- No floor is undercut where every floor is a safety floor or has at least the priority `k` and lies
-- at or below `m`, and every cap has at most the priority `k` or lies at or above `m`.
pub resolve_constraints-floors_safe :
    (desired m : ℤ) (k : ℕ) (cs : List Constraint)
    → All
        (λ c.
          is_floor c ≡ true → (rank c.precedence ≡ 0) ⊎ (rank c.precedence ≤ k) × (c.value ≤ℤ m))
        cs
    → All (λ c. is_cap c ≡ true → (k ≤ rank c.precedence) ⊎ (m ≤ℤ c.value)) cs
    → FloorsHold cs (resolve_constraints desired cs).value
unfolding resolve_constraints
resolve_constraints-floors_safe desired m k cs hf hc =
    FloorsHold-binding_floor (compose desired (binding_floor cs) (binding_cap cs)).value cs
      (compose-floor_safe desired m k _ _ (binding_floor_keeps _ cs hf) (binding_cap_keeps _ cs hc))

compose-cap_or_floor :
    (desired m : ℤ) (f c : Option Constraint)
    → Any (λ x. x.value ≤ℤ m) f
    → let v = (compose desired f c).value in (v ≤ℤ m) ⊎ Below c v
unfolding compose ltb_ℤ
compose-cap_or_floor desired m f none hf = inr tt
compose-cap_or_floor desired m none (some c) hf = ground arith
compose-cap_or_floor desired m (some f) (some c) hf = ground arith

-- Where no floor exceeds `m`, the resolved value satisfies every cap or is at most `m`: a cap is
-- exceeded only for the sake of a floor.
pub resolve_constraints-caps_or_floor :
    (desired m : ℤ) (cs : List Constraint)
    → FloorsHold cs m
    → let v = (resolve_constraints desired cs).value in (v ≤ℤ m) ⊎ CapsHold cs v
unfolding resolve_constraints
resolve_constraints-caps_or_floor desired m cs hf =
    elim (compose-cap_or_floor desired m (binding_floor cs) (binding_cap cs)
      (binding_floor_keeps (λ x. x.value ≤ℤ m) cs hf)) [
        | inl h ↦ inl h
        | inr h ↦
            inr (
              CapsHold-binding_cap (compose desired (binding_floor cs) (binding_cap cs)).value cs h)
      ]

-- Where every cap has a higher priority than every floor, no cap is exceeded, whatever the floors
-- say.
resolve_constraints-caps_outrank :
    (desired : ℤ) (k : ℕ) (cs : List Constraint)
    → All (λ c. is_floor c ≡ true → k < rank c.precedence) cs
    → All (λ c. is_cap c ≡ true → rank c.precedence ≤ k) cs
    → CapsHold cs (resolve_constraints desired cs).value
unfolding resolve_constraints
resolve_constraints-caps_outrank desired k cs hf hc =
    CapsHold-binding_cap (compose desired (binding_floor cs) (binding_cap cs)).value cs
      (compose-cap_outranks desired k _ _ (binding_floor_keeps _ cs hf) (binding_cap_keeps _ cs hc))

higher_cap_loses :
    (c s : ℤ) (y z : String) → c <ℤ s → cap_beats (cap_at s z safety) (cap_at c y comfort) ≡ false
unfolding cap_beats ltb_ℤ eqb_ℤ
higher_cap_loses c s y z h = ground arith

-- A `safety` cap is exceeded where a `comfort` cap is lower and a `health` floor is higher: only the
-- lowest cap is weighed against the floor, and the floor outranks that one.
pub masked_safety_cap :
    (desired f c s : ℤ) (x y z : String)
    → c <ℤ s
    → s <ℤ f
    → let cs = floor_at f x health ∷ cap_at c y comfort ∷ cap_at s z safety ∷ [] in
      s <ℤ (resolve_constraints desired cs).value
unfolding resolve_constraints binding_floor binding_cap first_best compose ltb_ℤ
masked_safety_cap desired f c s x y z h k = rw (higher_cap_loses c s y z h) (ground arith)
