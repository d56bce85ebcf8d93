-- ===== src/Arbitration/Corridor.antt =====
-- What `resolve` guarantees of the command that it emits.
use Prim.Native.String.{String}
use poise_thermostat.Base.{
  ◌⊎◌, inl, inr, ◌≤◌, ◌≡◌, refl, true, List, [], ◌∷◌, ◌++◌, map, arith, All, get_or,
}
use poise_thermostat.Base.Int.{ℤ, ◌≤ℤ◌}
use poise_thermostat.Base.Round.{round1, round1_keeps_lower, round1_keeps_upper, IsTenth}
use poise_thermostat.Constraints.{rank, is_floor, is_cap, resolve_constraints}
use poise_thermostat.Constraints.Extrema.{FloorsHold, CapsHold}
use poise_thermostat.Constraints.Resolve.{
  resolve_constraints_nearest, resolve_constraints-floors_safe,
}
use poise_thermostat.Arbitration.{
  lower_constraint, upper_constraint, Bound, ComfortCorridor, ControlRequest, corridor_constraints,
  resolve,
}

module _ {A : Type 0} (P : A → Type 0) where
  All-append : (xs ys : List A) → All P xs → All P ys → All P (xs ++ ys)
  All-append [] ys h k = k
  All-append (x ∷ xs) ys h k = (h.0, All-append xs ys h.1 k)

  All-append_left : (xs ys : List A) → All P (xs ++ ys) → All P xs
  All-append_left [] ys h = tt
  All-append_left (x ∷ xs) ys h = (h.0, All-append_left xs ys h.1)

  All-append_right : (xs ys : List A) → All P (xs ++ ys) → All P ys
  All-append_right [] ys h = h
  All-append_right (x ∷ xs) ys h = All-append_right xs ys h.1

-- every lower bound is at most `v`, every upper bound and the device maximum at least `v`
abbrev pub Inside : ComfortCorridor → ℤ → ℤ → Type 0
Inside corridor device_max v =
    All (λ b. b.value ≤ℤ v) corridor.lower
    × All (λ b. v ≤ℤ b.value) corridor.upper
    × (v ≤ℤ device_max)

module _ (v : ℤ) where
  floors-map_lower :
      (bs : List Bound) → All (λ b. b.value ≤ℤ v) bs → FloorsHold (map lower_constraint bs) v
  floors-map_lower [] h = tt
  floors-map_lower (b ∷ bs) h = (λ _. h.0, floors-map_lower bs h.1)

  floors-map_upper : (bs : List Bound) → FloorsHold (map upper_constraint bs) v
  floors-map_upper [] = tt
  floors-map_upper (b ∷ bs) = (λ e. cc, floors-map_upper bs)

  caps-map_lower : (bs : List Bound) → CapsHold (map lower_constraint bs) v
  caps-map_lower [] = tt
  caps-map_lower (b ∷ bs) = (λ e. cc, caps-map_lower bs)

  caps-map_upper :
      (bs : List Bound) → All (λ b. v ≤ℤ b.value) bs → CapsHold (map upper_constraint bs) v
  caps-map_upper [] h = tt
  caps-map_upper (b ∷ bs) h = (λ _. h.0, caps-map_upper bs h.1)

  lower_of_floors :
      (bs : List Bound) → FloorsHold (map lower_constraint bs) v → All (λ b. b.value ≤ℤ v) bs
  lower_of_floors [] h = tt
  lower_of_floors (b ∷ bs) h = (h.0 refl, lower_of_floors bs h.1)

  upper_of_caps :
      (bs : List Bound) → CapsHold (map upper_constraint bs) v → All (λ b. v ≤ℤ b.value) bs
  upper_of_caps [] h = tt
  upper_of_caps (b ∷ bs) h = (h.0 refl, upper_of_caps bs h.1)

module _ (corridor : ComfortCorridor) (m v : ℤ) where
  constraints-Inside :
      Inside corridor m v
      → FloorsHold (corridor_constraints corridor m) v
        × CapsHold (corridor_constraints corridor m) v
  unfolding corridor_constraints
  constraints-Inside h = (
    All-append _ (map lower_constraint corridor.lower) _ (floors-map_lower v corridor.lower h.0) (
        All-append _ (map upper_constraint corridor.upper) _ (floors-map_upper v corridor.upper)
          (λ e. cc, tt)),
    All-append _ (map lower_constraint corridor.lower) _ (caps-map_lower v corridor.lower) (
        All-append _ (map upper_constraint corridor.upper) _ (caps-map_upper v corridor.upper h.1)
          (λ _. h.2, tt)),
  )

  Inside-constraints :
      FloorsHold (corridor_constraints corridor m) v
      → CapsHold (corridor_constraints corridor m) v
      → Inside corridor m v
  unfolding corridor_constraints
  Inside-constraints f c =
      let rest = All-append_right _ (map lower_constraint corridor.lower) _ c in
      (
        lower_of_floors v corridor.lower
            (All-append_left _ (map lower_constraint corridor.lower) _ f),
        upper_of_caps v corridor.upper
            (All-append_left _ (map upper_constraint corridor.upper) _ rest),
        (All-append_right _ (map upper_constraint corridor.upper) _ rest).0 refl,
      )

lower-round1 :
    (bs : List Bound) (v : ℤ)
    → All (λ b. IsTenth b.value) bs
    → All (λ b. b.value ≤ℤ v) bs
    → All (λ b. b.value ≤ℤ round1 v) bs
lower-round1 [] v t h = tt
lower-round1 (b ∷ bs) v t h = (round1_keeps_lower b.value v t.0 h.0, lower-round1 bs v t.1 h.1)

upper-round1 :
    (bs : List Bound) (v : ℤ)
    → All (λ b. IsTenth b.value) bs
    → All (λ b. v ≤ℤ b.value) bs
    → All (λ b. round1 v ≤ℤ b.value) bs
upper-round1 [] v t h = tt
upper-round1 (b ∷ bs) v t h = (round1_keeps_upper b.value v t.0 h.0, upper-round1 bs v t.1 h.1)

-- The bounds and the device maximum are whole tenths of a degree.
abbrev pub OnGrid : ComfortCorridor → ℤ → Type 0
OnGrid corridor m =
    All (λ b. IsTenth b.value) corridor.lower
    × All (λ b. IsTenth b.value) corridor.upper
    × IsTenth m

-- Where some value lies in the corridor and under the device maximum, and the bounds are whole
-- tenths, the rounded command does too, whatever the request asks for.
pub resolve-Inside :
    (corridor : ComfortCorridor) (request : ControlRequest) (m l : ℤ) (mode : String)
    → OnGrid corridor m
    → Inside corridor m l
    → Inside corridor m (resolve corridor request m mode).value
unfolding resolve
resolve-Inside corridor request m l mode g h =
    let desired = get_or request.target_setpoint corridor.target in
    let cs = corridor_constraints corridor m in
    let v = (resolve_constraints desired cs).value in
    let both = constraints-Inside corridor m l h in
    let n = resolve_constraints_nearest desired l cs both.0 both.1 in
    let i = Inside-constraints corridor m v n.0 n.1 in
    (
      lower-round1 corridor.lower v g.0 i.0,
      upper-round1 corridor.upper v g.1 i.1,
      round1_keeps_upper m v g.2 i.2,
    )

module _ (m : ℤ) where
  health_floors :
      (bs : List Bound)
      → All (λ b. b.value ≤ℤ m) bs
      → All
          (λ c.
            is_floor c ≡ true → (rank c.precedence ≡ 0) ⊎ (rank c.precedence ≤ 1) × (c.value ≤ℤ m))
          (map lower_constraint bs)
  health_floors [] h = tt
  health_floors (b ∷ bs) h = (λ _. inr (omega arith, h.0), health_floors bs h.1)

  no_caps :
      (bs : List Bound)
      → All
          (λ c. is_cap c ≡ true → (1 ≤ rank c.precedence) ⊎ (m ≤ℤ c.value))
          (map lower_constraint bs)
  no_caps [] = tt
  no_caps (b ∷ bs) = (λ e. cc, no_caps bs)

  no_floors :
      (bs : List Bound)
      → All
          (λ c.
            is_floor c ≡ true → (rank c.precedence ≡ 0) ⊎ (rank c.precedence ≤ 1) × (c.value ≤ℤ m))
          (map upper_constraint bs)
  no_floors [] = tt
  no_floors (b ∷ bs) = (λ e. cc, no_floors bs)

  comfort_caps :
      (bs : List Bound)
      → All
          (λ c. is_cap c ≡ true → (1 ≤ rank c.precedence) ⊎ (m ≤ℤ c.value))
          (map upper_constraint bs)
  comfort_caps [] = tt
  comfort_caps (b ∷ bs) = (λ _. inl (omega arith), comfort_caps bs)

-- Where the device maximum reaches every lower bound, and the lower bounds are whole tenths, the
-- command reaches every lower bound, however low the upper bounds lie: an inverted corridor fails
-- toward warmth.
resolve-lower_wins :
    (corridor : ComfortCorridor) (request : ControlRequest) (m : ℤ) (mode : String)
    → All (λ b. IsTenth b.value) corridor.lower
    → All (λ b. b.value ≤ℤ m) corridor.lower
    → All (λ b. b.value ≤ℤ (resolve corridor request m mode).value) corridor.lower
unfolding resolve corridor_constraints
resolve-lower_wins corridor request m mode g h =
    let desired = get_or request.target_setpoint corridor.target in
    let v = (resolve_constraints desired (corridor_constraints corridor m)).value in
    lower-round1 corridor.lower v g (
      lower_of_floors v corridor.lower (
        All-append_left _ (map lower_constraint corridor.lower) _ (
          resolve_constraints-floors_safe desired m 1 (corridor_constraints corridor m)
            (All-append _ (map lower_constraint corridor.lower) _ (health_floors m corridor.lower h)
              (All-append _ (map upper_constraint corridor.upper) _ (no_floors m corridor.upper)
                (λ e. cc, tt)))
            (All-append _ (map lower_constraint corridor.lower) _ (no_caps m corridor.lower) (
              All-append _ (map upper_constraint corridor.upper) _ (comfort_caps m corridor.upper)
                (λ _. inr (omega arith), tt))))))
