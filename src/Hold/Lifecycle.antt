-- ===== src/Hold/Lifecycle.antt =====
-- The invariant of the user's state over every series of commands (control/override_runtime.py).
use Prim.Native.String.{String}
use poise_thermostat.Base.{
  ◌≡◌, refl, inl, inr, Bool, true, false, not, ◌&&◌, ◌||◌, Option, none, some, List, arith,
  Bool-cases, Option-cases, is_some, get_or, ℕ, ◌≤◌, length,
}
use poise_thermostat.Base.Int.{ℤ, ◌≤ℤ◌, max_ℤ, min_ℤ, ltb_ℤ, Float, finite, non_finite}
use poise_thermostat.Tick.{sanitize_override}
use poise_thermostat.Hold.{
  OverrideMode, no_preset, eco, comfort_preset, boost, away, OverrideStat, UserState, HoldSettings,
  set_override, set_override_on, set_mode_override, set_preset, expire_timed_states, expire_boost,
  announce_hold_expiry, raw_value, reached, expire_hold, flipped,
}

abbrev pub hold_active : UserState → Bool
hold_active u = is_some u.override || is_some u.mode_override

abbrev pub is_boosting : OverrideMode → Bool
is_boosting boost = true
is_boosting _ = false

-- No value, or one inside the envelope.
abbrev pub InEnvelope : HoldSettings → Option ℤ → Type 0
InEnvelope c none = Unit
InEnvelope c (some v) = (c.frost_floor ≤ℤ v) × (v ≤ℤ c.device_max)

abbrev pub NotBoost : Option OverrideMode → Type 0
NotBoost none = Unit
NotBoost (some m) = is_boosting m ≡ false

-- A start is on record while a setpoint or a mode is held, a reason exactly with a start, an expiry only
-- with a start, the flag of the switchpoint only with an expiry, the value that was asked for exactly
-- with a held setpoint, which lies in the envelope.
abbrev pub IsHold : HoldSettings → UserState → Type 0
IsHold c u =
    (hold_active u && not (is_some u.override_set_wall) ≡ false)
    × (is_some u.override_reason ≡ is_some u.override_set_wall)
    × (is_some u.override_requested ≡ is_some u.override)
    × (is_some u.override_expires_at && not (is_some u.override_set_wall) ≡ false)
    × (u.override_expiry_is_switchpoint && not (is_some u.override_expires_at) ≡ false)
    × InEnvelope c u.override

-- The boost's expiry and the preset that it restores are set exactly while it is on.
abbrev pub IsBoost : UserState → Type 0
IsBoost u =
    (is_some u.boost_expires_at ≡ is_boosting u.preset)
    × (is_some u.boost_prev_preset ≡ is_boosting u.preset)
    × NotBoost u.boost_prev_preset

module _ (c : HoldSettings) (order : c.frost_floor ≤ℤ c.device_max) where
  pub sanitize-InEnvelope :
      (v : Option Float) → InEnvelope c (sanitize_override v c.frost_floor c.device_max)
  unfolding sanitize_override max_ℤ min_ℤ ltb_ℤ
  sanitize-InEnvelope none = tt
  sanitize-InEnvelope (some non_finite) = tt
  sanitize-InEnvelope (some (finite v)) = ground arith

  sanitize-requested :
      (v : Option Float)
      → is_some (sanitize_override v c.frost_floor c.device_max) ≡ true
      → is_some (raw_value v) ≡ true
  unfolding sanitize_override
  sanitize-requested none h = ground arith
  sanitize-requested (some non_finite) h = ground arith
  sanitize-requested (some (finite v)) h = refl

  set_override_on-IsHold :
      (u : UserState) (clamped : Option ℤ) (v : Option Float) (reason : Option String) (now : ℤ)
      (mins : Option ℤ) (stat : ℤ → List OverrideStat → List OverrideStat)
      → IsHold c u
      → InEnvelope c clamped
      → (is_some clamped ≡ true → is_some (raw_value v) ≡ true)
      → IsHold c (set_override_on c u clamped v reason now mins stat).user
  unfolding set_override_on
  set_override_on-IsHold u none v reason now mins stat h e f = ground arith
  set_override_on-IsHold u (some w) v reason now mins stat h e f = ground (arith, f refl)

  pub set_override-IsHold :
      (u : UserState) (v : Option Float) (reason : Option String) (now : ℤ) (mins : Option ℤ)
      (stat : ℤ → List OverrideStat → List OverrideStat)
      → IsHold c u
      → IsHold c (set_override c u v reason now mins stat).user
  unfolding set_override
  set_override-IsHold u v reason now mins stat h =
      set_override_on-IsHold u (sanitize_override v c.frost_floor c.device_max) v reason now mins
        stat h (sanitize-InEnvelope v) (sanitize-requested v)

  pub set_mode_override-IsHold :
      (u : UserState) (mode : Option String) (now : ℤ) (mins : Option ℤ)
      → IsHold c u
      → IsHold c (set_mode_override c u mode now mins).user
  unfolding set_mode_override
  set_mode_override-IsHold u none now mins h = ground (arith, h)
  set_mode_override-IsHold u (some mode) now mins h = elim (Option-cases u.override_set_wall) [
    | inl e ↦ rw e (ground (arith, e, h))
    | inr (t, e) ↦ rw e (ground (arith, e, h))
  ]

  -- `set_preset` leaves the hold alone
  pub set_preset-IsHold :
      (u : UserState) (mode : OverrideMode) (minutes now : ℤ)
      → IsHold c u
      → IsHold c (set_preset u mode minutes now).user
  unfolding set_preset
  set_preset-IsHold u no_preset minutes now h = h
  set_preset-IsHold u eco minutes now h = h
  set_preset-IsHold u comfort_preset minutes now h = h
  set_preset-IsHold u boost minutes now h = h
  set_preset-IsHold u away minutes now h = h

  expire_boost-IsHold :
      (u : UserState) (minutes now : ℤ) → IsHold c u → IsHold c (expire_boost u now minutes).0
  unfolding expire_boost
  expire_boost-IsHold u minutes now h = elim (Bool-cases (reached u.boost_expires_at now)) [
    | inl e ↦
        let kept = set_preset-IsHold u (get_or u.boost_prev_preset no_preset) minutes now h in
        rw e kept
    | inr e ↦ rw e h
  ]

  expire_hold-IsHold :
      (u : UserState) (now : ℤ) (changed on_presence dirty : Bool)
      → IsHold c u
      → IsHold c (expire_hold u now changed on_presence dirty).user
  unfolding expire_hold
  expire_hold-IsHold u now changed on_presence dirty h = ground (arith, h)

  pub expire_timed_states-IsHold :
      (u : UserState) (prev home : Option Bool) (on_presence : Bool) (minutes now : ℤ)
      → IsHold c u
      → IsHold c (expire_timed_states u prev home on_presence minutes now).0.user
  unfolding expire_timed_states
  expire_timed_states-IsHold u prev home on_presence minutes now h =
      expire_hold-IsHold (expire_boost u now minutes).0 now (flipped prev home) on_presence _
        (expire_boost-IsHold u minutes now h)

-- the boost
pub set_preset-IsBoost :
    (u : UserState) (mode : OverrideMode) (minutes now : ℤ)
    → IsBoost u
    → IsBoost (set_preset u mode minutes now).user
unfolding set_preset
set_preset-IsBoost u no_preset minutes now h = (refl, refl, tt)
set_preset-IsBoost u eco minutes now h = (refl, refl, tt)
set_preset-IsBoost u comfort_preset minutes now h = (refl, refl, tt)
set_preset-IsBoost u boost minutes now h = elim (Bool-cases (is_boosting u.preset)) [
  | inl e ↦ ground (arith, e, h)
  | inr e ↦ ground (arith, e, h)
]
set_preset-IsBoost u away minutes now h = (refl, refl, tt)

pub expire_boost-IsBoost :
    (u : UserState) (minutes now : ℤ) → IsBoost u → IsBoost (expire_boost u now minutes).0
unfolding expire_boost
expire_boost-IsBoost u minutes now h = elim (Bool-cases (reached u.boost_expires_at now)) [
  | inl e ↦
      let kept = set_preset-IsBoost u (get_or u.boost_prev_preset no_preset) minutes now h in
      rw e kept
  | inr e ↦ rw e h
]

pub expire_hold-IsBoost :
    (u : UserState) (now : ℤ) (changed on_presence dirty : Bool)
    → IsBoost u
    → IsBoost (expire_hold u now changed on_presence dirty).user
unfolding expire_hold
expire_hold-IsBoost u now changed on_presence dirty h = ground (arith, h)

pub set_override_on-IsBoost :
    (c : HoldSettings) (u : UserState) (clamped : Option ℤ) (v : Option Float)
    (reason : Option String) (now : ℤ) (mins : Option ℤ)
    (stat : ℤ → List OverrideStat → List OverrideStat)
    → IsBoost u
    → IsBoost (set_override_on c u clamped v reason now mins stat).user
unfolding set_override_on
set_override_on-IsBoost c u none v reason now mins stat h = ground (arith, h)
set_override_on-IsBoost c u (some w) v reason now mins stat h = h

pub set_mode_override-IsBoost :
    (c : HoldSettings) (u : UserState) (mode : Option String) (now : ℤ) (mins : Option ℤ)
    → IsBoost u
    → IsBoost (set_mode_override c u mode now mins).user
unfolding set_mode_override
set_mode_override-IsBoost c u none now mins h = h
set_mode_override-IsBoost c u (some mode) now mins h = elim (Option-cases u.override_set_wall) [
  | inl e ↦ rw e h
  | inr (t, e) ↦ rw e h
]

-- `set_override` is the only command that writes the log.
set_override_on-override_stats :
    (c : HoldSettings) (u : UserState) (clamped : Option ℤ) (v : Option Float)
    (reason : Option String) (now : ℤ) (mins : Option ℤ)
    (stat : ℤ → List OverrideStat → List OverrideStat) (n : ℕ)
    → ((w : ℤ) → length (stat w u.override_stats) ≤ n)
    → length u.override_stats ≤ n
    → length (set_override_on c u clamped v reason now mins stat).user.override_stats ≤ n
unfolding set_override_on announce_hold_expiry
set_override_on-override_stats c u (some w) v reason now mins stat n f h = f w
set_override_on-override_stats c u none v reason now mins stat n f h =
    elim (Bool-cases (is_some u.mode_override)) [ inl e ↦ rw e h | inr e ↦ rw e h ]

pub set_override-override_stats :
    (c : HoldSettings) (u : UserState) (v : Option Float) (reason : Option String) (now : ℤ)
    (mins : Option ℤ) (stat : ℤ → List OverrideStat → List OverrideStat) (n : ℕ)
    → ((w : ℤ) → length (stat w u.override_stats) ≤ n)
    → length u.override_stats ≤ n
    → length (set_override c u v reason now mins stat).user.override_stats ≤ n
unfolding set_override
set_override-override_stats c u v reason now mins stat n f h =
    set_override_on-override_stats c u (sanitize_override v c.frost_floor c.device_max) v reason now
      mins stat n f h

pub set_mode_override-override_stats :
    (c : HoldSettings) (u : UserState) (mode : Option String) (now : ℤ) (mins : Option ℤ)
    → (set_mode_override c u mode now mins).user.override_stats ≡ u.override_stats
unfolding set_mode_override
set_mode_override-override_stats c u none now mins = refl
set_mode_override-override_stats c u (some mode) now mins = ground arith

pub set_preset-override_stats :
    (u : UserState) (mode : OverrideMode) (minutes now : ℤ)
    → (set_preset u mode minutes now).user.override_stats ≡ u.override_stats
unfolding set_preset
set_preset-override_stats u no_preset minutes now = refl
set_preset-override_stats u eco minutes now = refl
set_preset-override_stats u comfort_preset minutes now = refl
set_preset-override_stats u boost minutes now = refl
set_preset-override_stats u away minutes now = refl

pub expire_timed_states-override_stats :
    (u : UserState) (prev home : Option Bool) (on_presence : Bool) (minutes now : ℤ)
    → (expire_timed_states u prev home on_presence minutes now).0.user.override_stats
      ≡ u.override_stats
unfolding expire_timed_states expire_boost
expire_timed_states-override_stats u prev home on_presence minutes now =
    ground (arith, set_preset-override_stats u (get_or u.boost_prev_preset no_preset) minutes now)
