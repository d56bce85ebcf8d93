-- ===== src/Constraints.antt =====
-- custom_components/poise/constraints.py: hard setpoint bounds with an explicit precedence, and
-- the enumeration `Precedence` of contracts.py.  A value is a number of thousandths of a degree.
pub mod Extrema
pub mod Resolve
use Prim.Native.String.{String}
use poise_thermostat.Base.{
  ℕ, Bool, true, false, ◌&&◌, ◌||◌, Option, none, some, List, leb, ltb, if◌then◌else◌, keep,
  first_best,
}
use poise_thermostat.Base.Int.{ℤ, ltb_ℤ, eqb_ℤ}

pub data Precedence : Type 0 where
  safety health comfort efficiency learning operation : Precedence

-- `int(precedence)`: lower value = higher priority
abbrev pub rank : Precedence → ℕ
rank safety = 0
rank health = 1
rank comfort = 2
rank efficiency = 3
rank learning = 4
rank operation = 5

pub data ConstraintKind : Type 0 where
  floor cap : ConstraintKind

pub record Constraint : Type 0 where
  pub value : ℤ
  pub cause : String
  pub kind : ConstraintKind
  pub precedence : Precedence

-- `Constraint(value, cause, FLOOR, precedence)` and `Constraint(value, cause, CAP, precedence)`
abbrev pub floor_at : ℤ → String → Precedence → Constraint
floor_at v c p = record { value = v; cause = c; kind = floor; precedence = p }

abbrev pub cap_at : ℤ → String → Precedence → Constraint
cap_at v c p = record { value = v; cause = c; kind = cap; precedence = p }

pub record Resolution : Type 0 where
  pub value : ℤ
  pub binding : Option Constraint
  pub floor : Option Constraint
  pub cap : Option Constraint

abbrev is_floor_kind : ConstraintKind → Bool
is_floor_kind floor = true
is_floor_kind cap = false

abbrev is_cap_kind : ConstraintKind → Bool
is_cap_kind floor = false
is_cap_kind cap = true

abbrev pub is_floor : Constraint → Bool
is_floor c = is_floor_kind c.kind

abbrev pub is_cap : Constraint → Bool
is_cap c = is_cap_kind c.kind

-- the key `(value, -int(precedence))` of `x` is above that of `y`
unfoldable pub floor_beats : Constraint → Constraint → Bool
floor_beats x y =
    ltb_ℤ y.value x.value || (eqb_ℤ y.value x.value && ltb (rank x.precedence) (rank y.precedence))

-- the key `(value, int(precedence))` of `x` is below that of `y`
unfoldable pub cap_beats : Constraint → Constraint → Bool
cap_beats x y =
    ltb_ℤ x.value y.value || (eqb_ℤ x.value y.value && ltb (rank x.precedence) (rank y.precedence))

unfoldable pub binding_floor : List Constraint → Option Constraint
binding_floor constraints = first_best floor_beats (keep is_floor constraints)

unfoldable pub binding_cap : List Constraint → Option Constraint
binding_cap constraints = first_best cap_beats (keep is_cap constraints)

-- `floor is not None and cap is not None and floor.value > cap.value`
unfoldable pub inverted : Option Constraint → Option Constraint → Bool
inverted none _ = false
inverted (some _) none = false
inverted (some f) (some c) = ltb_ℤ c.value f.value

-- the higher-precedence bound of an inverted pair, ties to the floor
unfoldable pub winner : Constraint → Constraint → Constraint
winner f c = if leb (rank f.precedence) (rank c.precedence) then f else c

-- `if floor is not None and value < floor.value: value, binding = floor.value, floor`
unfoldable pub raise_to : Option Constraint → ℤ × Option Constraint → ℤ × Option Constraint
raise_to none r = r
raise_to (some f) r = if ltb_ℤ r.0 f.value then (f.value, some f) else r

-- `if cap is not None and value > cap.value: value, binding = cap.value, cap`
unfoldable pub lower_to : Option Constraint → ℤ × Option Constraint → ℤ × Option Constraint
lower_to none r = r
lower_to (some c) r = if ltb_ℤ c.value r.0 then (c.value, some c) else r

-- the two branches of `resolve_constraints`, over the binding floor and cap
unfoldable pub compose : ℤ → Option Constraint → Option Constraint → Resolution
unfolding raise_to lower_to winner inverted
compose desired none c =
    let (v, b) = lower_to c (raise_to none (desired, none)) in
    record { value = v; binding = b; floor = none; cap = c }
compose desired (some f) none =
    let (v, b) = lower_to none (raise_to (some f) (desired, none)) in
    record { value = v; binding = b; floor = some f; cap = none }
compose desired (some f) (some c) =
    let (v, b) = lower_to (some c) (raise_to (some f) (desired, none)) in
    if inverted (some f) (some c)
    then record {
      value = (winner f c).value;
      binding = some (winner f c);
      floor = some f;
      cap = some c;
    }
    else record { value = v; binding = b; floor = some f; cap = some c }

unfoldable pub resolve_constraints : ℤ → List Constraint → Resolution
unfolding compose
resolve_constraints desired constraints =
    compose desired (binding_floor constraints) (binding_cap constraints)
