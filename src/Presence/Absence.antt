-- ===== src/Presence/Absence.antt =====
-- What an absence of the room stands for (custom_components/poise/comfort/presence.py).
use poise_thermostat.Base.{
  ◌≡◌, ◌≢◌, Option-cases, refl, ap, inl, inr, ◌⊎◌, Bool, true, false, Option, none, some, List, [],
  ◌∷◌, ◌++◌, arith, Bool-cases, All,
}
use poise_thermostat.Base.Int.{ℤ}
use poise_thermostat.Presence.{is_absent, step_room_absence}

-- A tick of the room sensor.
pub record RoomTick : Type 0 where
  pub present : Option Bool
  pub now : ℤ
  pub accrue : Bool

unfoldable pub run : Option ℤ → List RoomTick → Option ℤ
run since [] = since
run since (k ∷ ks) = run (step_room_absence since k.present k.now k.accrue) ks

-- a tick on which the absence goes on
abbrev pub GoesOn : RoomTick → Type 0
GoesOn k = (is_absent k.present ≡ true) × (k.accrue ≡ true)

-- The absence began at a tick at `t`, and every later tick goes on with it.
abbrev pub BeganAt : ℤ → List RoomTick → Type 0
BeganAt t ks =
    (before : List RoomTick) × (k : RoomTick) × (after : List RoomTick) × (ks
      ≡ before ++ (k ∷ after))
    × (k.now ≡ t)
    × (is_absent k.present ≡ true)
    × All GoesOn after

not_absent :
    (since : Option ℤ) (k : RoomTick) (t : ℤ)
    → is_absent k.present ≡ false
    → step_room_absence since k.present k.now k.accrue ≢ some t
unfolding step_room_absence
not_absent since k t a e = ground (arith, a, e)

began-here :
    (since : Option ℤ) (k : RoomTick) (ks : List RoomTick) (t : ℤ)
    → step_room_absence since k.present k.now k.accrue ≡ some t
    → All GoesOn ks
    → (since ≡ some t) × All GoesOn (k ∷ ks) ⊎ BeganAt t (k ∷ ks)
unfolding step_room_absence
began-here since k ks t e goes = elim (Bool-cases (is_absent k.present)) [
  | inr a ↦ absurd (not_absent since k t a e)
  | inl a ↦ elim (Bool-cases k.accrue) [
    | inr c ↦ inr ([], k, ks, refl, ground (arith, e, a, c), a, goes)
    | inl c ↦ elim (Option-cases since) [
      | inl s ↦ inr ([], k, ks, refl, ground (arith, e, a, c, s), a, goes)
      | inr (t', s) ↦ inl (ground (arith, e, a, c, s), ((a, c), goes))
    ]
  ]
]

run-began :
    (since : Option ℤ) (ks : List RoomTick) (t : ℤ)
    → run since ks ≡ some t
    → (since ≡ some t) × All GoesOn ks ⊎ BeganAt t ks
unfolding run
run-began since [] t h = inl (h, tt)
run-began since (k ∷ ks) t h =
    elim (run-began (step_room_absence since k.present k.now k.accrue) ks t h) [
      | inr (before, k', after, e, at, a, goes) ↦
          inr (k ∷ before, k', after, ap (λ l. k ∷ l) e, at, a, goes)
      | inl (e, goes) ↦ began-here since k ks t e goes
    ]

-- An anchor is the time of an absent tick after which the absence went on without a break.
pub run-BeganAt : (ks : List RoomTick) (t : ℤ) → run none ks ≡ some t → BeganAt t ks
run-BeganAt ks t h = elim (run-began none ks t h) [ inl (e, g) ↦ absurd (cc (e)) | inr b ↦ b ]
