-- ===== src/Base/Snap.antt =====
-- How far rounding to a grid can move a value.
use Prim.Native.Nat.{ℕ, zero, suc, ◌+◌, ◌*◌, ◌/◌, ◌%◌, ◌≤◌, ◌<◌}
use mathlib.Core.Path.{◌≡◌, ap}
use mathlib.Core.Logic.{◌⊎◌, inl, inr}
use native.Mathlib.Omega.{arith}
use native.Mathlib.Nat.{mul_assoc, div-add-mod}
use poise_thermostat.Base.Int.{ℤ, pos, negsuc, pos_part, ◌-ℤ◌, abs_ℤ, neg_ℤ}
use poise_thermostat.Base.Round.{nearest, half_even, round_to}

nearest-cases :
    (u n : ℕ)
    → (2 * (n % u) ≤ u) × (nearest u n ≡ n / u) ⊎ (u ≤ 2 * (n % u)) × (nearest u n ≡ n / u + 1)
unfolding nearest
nearest-cases u n = ground arith

-- twice the distance is at most the unit, on either side
half_even_near :
    (u n : ℕ) → 0 < u → (2 * half_even u n ≤ 2 * n + u) × (2 * n ≤ 2 * half_even u n + u)
unfolding half_even
half_even_near u n h = elim (nearest-cases u n) [
  | inl c ↦ rw c.1 (omega (arith, div-add-mod n u))
  | inr c ↦ rw c.1 (omega (arith, div-add-mod n u))
]

half_even-tens : (m : ℕ) → half_even 10 (10 * m) ≡ 10 * m
unfolding half_even
half_even-tens m = ground arith

-- A multiple of a grid of whole tens is its own rounding to tens.
half_even-half_even : (k n : ℕ) → half_even 10 (half_even (10 * k) n) ≡ half_even (10 * k) n
unfolding half_even
half_even-half_even k n =
    let e = mul_assoc 10 k (nearest (10 * k) n) in
    rw e (unfold half_even in half_even-tens (k * nearest (10 * k) n))

-- `a` lies within half a unit of `b`.
abbrev pub Close : ℕ → ℤ → ℤ → Type 0
Close u a b = 2 * pos_part (abs_ℤ (a -ℤ b)) ≤ u

pub round_to_near : (u : ℕ) (v : ℤ) → 0 < u → Close u (round_to u v) v
unfolding round_to abs_ℤ ◌-ℤ◌
round_to_near u (pos n) h = ground (arith, half_even_near u n h)
round_to_near u (negsuc n) h = ground (arith, half_even_near u (suc n) h)

round_to-neg : (x : ℕ) → half_even 10 x ≡ x → round_to 10 (neg_ℤ (pos x)) ≡ neg_ℤ (pos x)
unfolding round_to
round_to-neg zero h = rw h
round_to-neg (suc x) h = ground (arith, h)

pub round_to-round_to : (k : ℕ) (v : ℤ) → round_to 10 (round_to (10 * k) v) ≡ round_to (10 * k) v
unfolding round_to
round_to-round_to k (pos n) = ap pos (half_even-half_even k n)
round_to-round_to k (negsuc n) =
    round_to-neg (half_even (10 * k) (suc n)) (half_even-half_even k (suc n))
