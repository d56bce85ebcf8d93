-- ===== src/Base/Round.antt =====
-- Python's `round(x, 1)`, half to even, on thousandths: the nearest multiple of a hundred.
use poise_thermostat.Base.Tests.{ltb, if◌then◌else◌}
use poise_thermostat.Base.Int.{ℤ, pos, negsuc, ◌≤ℤ◌, neg_ℤ}
use Prim.Native.Nat.{ℕ, suc, ◌+◌, ◌*◌, ◌/◌, ◌%◌}
use mathlib.Core.Path.{◌≡◌, refl, subst}
use native.Mathlib.Omega.{arith}

-- `n / unit` rounded to a whole number, a tie going to the even one
unfoldable pub nearest : ℕ → ℕ → ℕ
nearest unit n =
    let q = n / unit in
    let r = n % unit in
    if ltb (2 * r) unit then q else if ltb unit (2 * r) then q + 1 else q + q % 2

-- the multiple of `unit` nearest to `n`
unfoldable pub half_even : ℕ → ℕ → ℕ
unfolding nearest
half_even unit n = unit * nearest unit n

-- the same for a signed number
unfoldable pub round_to : ℕ → ℤ → ℤ
unfolding half_even
round_to unit (pos n) = pos (half_even unit n)
round_to unit (negsuc n) = neg_ℤ (pos (half_even unit (suc n)))

unfoldable pub round1 : ℤ → ℤ
unfolding round_to
round1 v = round_to 100 v

-- `v` is a whole number of tenths
abbrev pub IsTenth : ℤ → Type 0
IsTenth (pos n) = n % 100 ≡ 0
IsTenth (negsuc n) = suc n % 100 ≡ 0

pub round1-IsTenth : (v : ℤ) → IsTenth v → round1 v ≡ v
unfolding round1
round1-IsTenth (pos n) h = ground arith
round1-IsTenth (negsuc n) h = ground arith

pub round1_mono : (a b : ℤ) → a ≤ℤ b → round1 a ≤ℤ round1 b
unfolding round1
round1_mono (pos a) (pos b) h = ground arith
round1_mono (pos a) (negsuc b) h = ground arith
round1_mono (negsuc a) (pos b) h = ground arith
round1_mono (negsuc a) (negsuc b) h = ground arith

-- rounding to tenths keeps a value inside bounds that are whole tenths
pub round1_keeps_lower : (b v : ℤ) → IsTenth b → b ≤ℤ v → b ≤ℤ round1 v
round1_keeps_lower b v t h = subst (λ x. x ≤ℤ round1 v) (round1-IsTenth b t) (round1_mono b v h)

pub round1_keeps_upper : (b v : ℤ) → IsTenth b → v ≤ℤ b → round1 v ≤ℤ b
round1_keeps_upper b v t h = subst (λ x. round1 v ≤ℤ x) (round1-IsTenth b t) (round1_mono v b h)

round1-tie : round1 (pos 20050) ≡ pos 20000
unfolding round1
round1-tie = refl

round1-negative : round1 (negsuc 20149) ≡ negsuc 20199
unfolding round1
round1-negative = refl
