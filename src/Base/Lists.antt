-- ===== src/Base/Lists.antt =====
-- List functions of the Python source: comprehensions with a Boolean condition, membership by a
-- Boolean test, and the length over the native numbers.
use Prim.Native.Nat.{ℕ, suc}
use mathlib.Core.Bool.{Bool, true, false, ◌&&◌, ◌||◌}
use mathlib.Core.List.{List, [], ◌∷◌}
use mathlib.Core.Option.{Option, none, some}
use poise_thermostat.Base.Tests.{if◌then◌else◌}

module _ {ℓ} {A : Type ℓ} where
  abbrev pub length : List A → ℕ
  length [] = 0
  length (_ ∷ xs) = suc (length xs)

  -- `[x for x in xs if p(x)]`
  abbrev pub keep : (A → Bool) → List A → List A
  keep p [] = []
  keep p (x ∷ xs) = if p x then x ∷ keep p xs else keep p xs

  -- `any(p(x) for x in xs)`
  abbrev pub any_of : (A → Bool) → List A → Bool
  any_of p [] = false
  any_of p (x ∷ xs) = p x || any_of p xs

  -- `all(p(x) for x in xs)`
  abbrev pub all_of : (A → Bool) → List A → Bool
  all_of p [] = true
  all_of p (x ∷ xs) = p x && all_of p xs

  abbrev pub All {κ} : (A → Type κ) → List A → Type κ
  All P [] = Unit
  All P (x ∷ xs) = P x × All P xs

-- Python's `max(xs, key=k)` and `min(xs, key=k)`: the first of the best elements.  `better x y`
-- says that the key of `x` beats the key of `y`, so a later element has to beat strictly.
module _ {ℓ} {A : Type ℓ} (better : A → A → Bool) where
  unfoldable pub best_from : A → List A → A
  best_from b [] = b
  best_from b (x ∷ xs) = best_from (if better x b then x else b) xs

  unfoldable pub first_best : List A → Option A
  unfolding best_from
  first_best [] = none
  first_best (x ∷ xs) = some (best_from x xs)
