-- ===== src/Presence.antt =====
-- The presence of people in the house and the room: custom_components/poise/comfort/presence.py.
-- Times are thousandths of a second and the hold is in thousandths of a minute.
pub mod Absence
use poise_thermostat.Base.{
  Bool, true, false, not, ◌&&◌, ◌||◌, Option, none, some, List, [], ◌∷◌, if◌then◌else◌, any_of,
}
use poise_thermostat.Base.Int.{ℤ, leb_ℤ}

pub data PresenceLevel : Type 0 where
  comfort room_eco away : PresenceLevel

-- a tri-state that is explicitly `False`, or `True`
abbrev pub is_absent : Option Bool → Bool
is_absent (some false) = true
is_absent _ = false

abbrev pub is_present : Option Bool → Bool
is_present (some true) = true
is_present _ = false

abbrev anchored : Option ℤ → ℤ → ℤ
anchored none now = now
anchored (some t) now = t

unfoldable pub step_room_absence : Option ℤ → Option Bool → ℤ → Bool → Option ℤ
step_room_absence absent_since present now accrue =
    if not (is_absent present)
    then none
    else if not accrue
    then some now
    else some (anchored absent_since now)

unfoldable pub resolve_presence : Option Bool → ℤ → Bool → Bool → ℤ → PresenceLevel
resolve_presence home room_absent_min is_comfort preheating absence_after_min =
    if is_absent home
    then away
    else if preheating
    then comfort
    else if is_comfort && leb_ℤ absence_after_min room_absent_min
    then room_eco
    else comfort

abbrev no_values : List (Option Bool) → Bool
no_values [] = true
no_values _ = false

unfoldable pub any_present : List (Option Bool) → Option Bool
any_present vals =
    if any_of is_present vals
    then some true
    else if not (no_values vals) && not (any_of (λ v. not (is_absent v)) vals)
    then some false
    else none
