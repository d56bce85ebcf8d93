-- ===== src/Failure/Latch.antt =====
-- What sets and what clears the failure flag.
use poise_thermostat.Base.{
  ◌≡◌, refl, ◌⊎◌, inl, inr, Bool, true, false, Option, none, some, List, [], ◌∷◌, arith, Bool-cases,
}
use poise_thermostat.Base.Int.{
  ℤ, pos, ◌≤ℤ◌, ◌<ℤ◌, ◌-ℤ◌, ltb_ℤ, leb_ℤ, int_laws, le→ltb_ℤ, lt→ltb_ℤ, lt→leb_ℤ, -ℤ_parts, -ℤ_self,
  leb_ℤ→le,
}
use poise_thermostat.Failure.{
  Limits, Detector, Sample, demanded, update, update_idle, update_demand, reanchor_start,
  reanchor_clear,
}
use poise_thermostat.Failure.Window.{run}

-- The window began with a room no colder than `lo`.
abbrev pub FlatStart : ℤ → Option (ℤ × ℤ) → Type 0
FlatStart lo none = Unit
FlatStart lo (some (_, r)) = lo ≤ℤ r

-- Every room reading is at least `lo` and less than the required rise above it.
abbrev pub Flat : Limits → ℤ → List Sample → Type 0
Flat c lo [] = Unit
Flat c lo (x ∷ xs) = (lo ≤ℤ x.room) × (x.room -ℤ lo <ℤ c.min_rise) × Flat c lo xs

-- The tick at `now` comes less than the delay after the pause began.
abbrev pub Pause : ℤ → Option ℤ → ℤ → Type 0
Pause delay none now = Unit
Pause delay (some u) now = (u ≤ℤ now) × (now -ℤ u <ℤ delay)

abbrev pub pause_start : Bool → Option ℤ → ℤ → Option ℤ
pause_start true since now = none
pause_start false none now = some now
pause_start false (some u) now = some u

-- No pause in the demand lasts for the delay; `since` is when the present pause began.
abbrev pub ShortPauses : Limits → Option ℤ → List Sample → Type 0
ShortPauses c since [] = Unit
ShortPauses c since (x ∷ xs) =
    Pause c.delay_h since x.now_h × ShortPauses c (pause_start (demanded c x) since x.now_h) xs

Latched : ℤ → Option ℤ → Detector → Type 0
Latched lo since d = (d.failed ≡ true) × FlatStart lo d.start × (d.clear_start ≡ since)

module _ (c : Limits) (lo : ℤ) where
  reanchored-FlatStart :
      (start : Option (ℤ × ℤ)) (now room : ℤ)
      → lo ≤ℤ room
      → FlatStart lo start
      → FlatStart lo (reanchor_start start now room)
  unfolding reanchor_start
  reanchored-FlatStart none now room h f = tt
  reanchored-FlatStart (some (t, r)) now room h f = ground arith

  idle-Latched :
      (start : Option (ℤ × ℤ)) (since : Option ℤ) (now : ℤ)
      → FlatStart lo start
      → Pause c.delay_h since now
      → Latched lo
          (pause_start false since now)
          (update_idle c start (reanchor_clear since now) true now)
  unfolding Latched update_idle reanchor_clear
  idle-Latched start none now f p = (refl, f, refl)
  idle-Latched start (some u) now f p =
      let anchored = le→ltb_ℤ now u p.0 in
      let early = lt→leb_ℤ c.delay_h (now -ℤ u) p.1 in rw (anchored, early) (refl, f, refl)

  demand-Latched :
      (start : Option (ℤ × ℤ)) (now room : ℤ)
      → FlatStart lo start
      → lo ≤ℤ room
      → room -ℤ lo <ℤ c.min_rise
      → Latched lo none (update_demand c start true now room)
  unfolding Latched update_demand
  demand-Latched none now room f h k = (refl, h, refl)
  demand-Latched (some (t, r)) now room f h k =
      let flat =
        lt→ltb_ℤ (room -ℤ r) c.min_rise (omega (int_laws, -ℤ_parts room r, -ℤ_parts room lo)) in
      elim (Bool-cases (leb_ℤ c.delay_h (now -ℤ t))) [
        | inl e ↦ rw e (flat, h, refl)
        | inr e ↦ rw e (refl, f, refl)
      ]

  update-Latched :
      (d : Detector) (x : Sample) (since : Option ℤ)
      → Latched lo since d
      → lo ≤ℤ x.room
      → x.room -ℤ lo <ℤ c.min_rise
      → Pause c.delay_h since x.now_h
      → Latched lo (pause_start (demanded c x) since x.now_h) (update c d x)
  unfolding update Latched
  update-Latched d x since (l, f, s) h k p =
      let f' = reanchored-FlatStart d.start x.now_h x.room h f in
      let start = reanchor_start d.start x.now_h x.room in
      elim (Bool-cases (demanded c x)) [
        | inl e ↦ rw (e, l) (demand-Latched start x.now_h x.room f' h k)
        | inr e ↦ rw (e, l, s) (idle-Latched start since x.now_h f' p)
      ]

  run-Latched :
      (d : Detector) (xs : List Sample) (since : Option ℤ)
      → Latched lo since d
      → Flat c lo xs
      → ShortPauses c since xs
      → (run c d xs).failed ≡ true
  unfolding Latched
  run-Latched d [] since l f p = l.0
  run-Latched d (x ∷ xs) since l f p =
      run-Latched (update c d x) xs (pause_start (demanded c x) since x.now_h)
        (unfold Latched in update-Latched d x since l f.0 f.1 p.0) f.2 p.1

-- A flagged failure stands over every run in which no reading rises by the required rise above `lo`,
-- which the window's and all later readings reach, and no pause in the demand lasts for the delay: a
-- flicker of the reported state does not mask it.
failure_latched :
    (c : Limits) (d : Detector) (lo : ℤ) (xs : List Sample)
    → d.failed ≡ true
    → FlatStart lo d.start
    → Flat c lo xs
    → ShortPauses c d.clear_start xs
    → (run c d xs).failed ≡ true
failure_latched c d lo xs l s f p =
    run-Latched c lo d xs d.clear_start (unfold Latched in (l, s, refl)) f p

no_time : (delay now : ℤ) → pos 0 <ℤ delay → leb_ℤ delay (now -ℤ now) ≡ false
no_time delay now h = rw (-ℤ_self now) (lt→leb_ℤ delay (pos 0) h)

-- What a tick with demand does to the flag, and what one without.
module _ (c : Limits) (failed : Bool) (now room : ℤ) (positive : pos 0 <ℤ c.delay_h) where
  demand-flips :
      (start : Option (ℤ × ℤ))
      → let d' = update_demand c (reanchor_start start now room) failed now room in
        (d'.failed ≡ failed)
        ⊎ ((t : ℤ) × (r : ℤ) × (start ≡ some (t, r))
            × (c.delay_h ≤ℤ now -ℤ t)
            × (d'.failed ≡ ltb_ℤ (room -ℤ r) c.min_rise))
  unfolding update_demand reanchor_start
  demand-flips none = inl refl
  demand-flips (some (t, r)) = elim (Bool-cases (ltb_ℤ now t)) [
    | inl e ↦ rw (e, no_time c.delay_h now positive) (inl refl)
    | inr e ↦ elim (Bool-cases (leb_ℤ c.delay_h (now -ℤ t))) [
      | inl k ↦ rw (e, k) (inr (t, r, refl, leb_ℤ→le c.delay_h (now -ℤ t) k, refl))
      | inr k ↦ rw (e, k) (inl refl)
    ]
  ]

  idle-flips :
      (start : Option (ℤ × ℤ)) (since : Option ℤ)
      → let d' = update_idle c start (reanchor_clear since now) failed now in
        (d'.failed ≡ failed)
        ⊎ ((t : ℤ) × (since ≡ some t) × (c.delay_h ≤ℤ now -ℤ t) × (d'.failed ≡ false))
  unfolding update_idle reanchor_clear
  idle-flips start none = inl refl
  idle-flips start (some t) = elim (Bool-cases (ltb_ℤ now t)) [
    | inl e ↦ rw (e, no_time c.delay_h now positive) (inl refl)
    | inr e ↦ elim (Bool-cases (leb_ℤ c.delay_h (now -ℤ t))) [
      | inl k ↦ rw (e, k) (inr (t, refl, leb_ℤ→le c.delay_h (now -ℤ t) k, refl))
      | inr k ↦ rw (e, k) (inl refl)
    ]
  ]

-- Where the delay is positive, a tick leaves the flag as it was, or it demands heat, comes at least
-- the delay after the window began and sets the flag to whether the rise was too small, or it
-- demands none, comes at least the delay after the pause began and clears the flag.
update-flips :
    (c : Limits) (d : Detector) (x : Sample)
    → pos 0 <ℤ c.delay_h
    → ((update c d x).failed ≡ d.failed)
      ⊎ ((demanded c x ≡ true)
          × (t : ℤ) × (r : ℤ) × (d.start ≡ some (t, r))
          × (c.delay_h ≤ℤ x.now_h -ℤ t)
          × ((update c d x).failed ≡ ltb_ℤ (x.room -ℤ r) c.min_rise))
      ⊎ ((demanded c x ≡ false)
          × (t : ℤ) × (d.clear_start ≡ some t)
          × (c.delay_h ≤ℤ x.now_h -ℤ t)
          × ((update c d x).failed ≡ false))
unfolding update
update-flips c d x h = elim (Bool-cases (demanded c x)) [
  | inl e ↦ rw e (elim (demand-flips c d.failed x.now_h x.room h d.start) [
    | inl same ↦ inl same
    | inr (t, r, s, late, verdict) ↦ inr (inl (refl, t, r, s, late, verdict))
  ])
  | inr e ↦
      let start = reanchor_start d.start x.now_h x.room in
      rw e (elim (idle-flips c d.failed x.now_h x.room h start d.clear_start) [
        | inl same ↦ inl same
        | inr (t, s, late, cleared) ↦ inr (inr (refl, t, s, late, cleared))
      ])
]
