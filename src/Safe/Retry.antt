-- ===== src/Safe/Retry.antt =====
-- The handback of the sensor source over an outage (`sensor_source_handback_target` of
-- custom_components/poise/safety/sensor_watchdog.py).
use mathlib.Core.Path.{subst}
use poise_thermostat.Base.{
  ◌≡◌, refl, inl, inr, true, false, Option, none, some, List, [], ◌∷◌, arith, if◌then◌else◌,
  Bool-cases, is_some,
}
use poise_thermostat.Base.Int.{ℤ, ◌-ℤ◌, ◌+ℤ◌, ◌≤ℤ◌, ltb_ℤ}
use poise_thermostat.Safe.{
  Handback, sensor_source_handback_target, release, select_handback_retry_s,
}

pub record OutageTick : Type 0 where
  pub handback : Handback
  pub now : ℤ

-- the times of the releases over an outage
unfoldable pub release_times : Option ℤ → List OutageTick → List ℤ
release_times last [] = []
release_times last (k ∷ ks) =
    let (last', target) = release last k.handback k.now in
    let rest = release_times last' ks in if is_some target then k.now ∷ rest else rest

abbrev pub SpacedFrom : Option ℤ → List ℤ → Type 0
SpacedFrom _ [] = Unit
SpacedFrom none (t ∷ ts) = SpacedFrom (some t) ts
SpacedFrom (some last) (t ∷ ts) = (last +ℤ select_handback_retry_s ≤ℤ t) × SpacedFrom (some t) ts

-- a release comes the interval after the last one
release-spaced :
    (last now : ℤ) (h : Handback)
    → is_some (release (some last) h now).1 ≡ true
    → last +ℤ select_handback_retry_s ≤ℤ now
unfolding release sensor_source_handback_target ltb_ℤ ◌-ℤ◌ ◌+ℤ◌
release-spaced last now h e = ground (arith, e)

release-wrote :
    (last : Option ℤ) (h : Handback) (now : ℤ)
    → is_some (release last h now).1 ≡ true
    → (release last h now).0 ≡ some now
unfolding release
release-wrote last h now e = rw e refl

release-silent :
    (last : Option ℤ) (h : Handback) (now : ℤ)
    → is_some (release last h now).1 ≡ false
    → (release last h now).0 ≡ last
unfolding release
release-silent last h now e = rw e refl

SpacedFrom-wrote :
    (last : Option ℤ) (h : Handback) (now : ℤ) (ts : List ℤ)
    → is_some (release last h now).1 ≡ true
    → SpacedFrom (release last h now).0 ts
    → SpacedFrom last (now ∷ ts)
SpacedFrom-wrote none h now ts e g = subst (λ l. SpacedFrom l ts) (release-wrote none h now e) g
SpacedFrom-wrote (some last) h now ts e g = (
  release-spaced last now h e,
  subst (λ l. SpacedFrom l ts) (release-wrote (some last) h now e) g,
)

-- Over every outage, each release of the sensor source comes at least five minutes after the release
-- before it, and the first one at least five minutes after the one that is remembered.
release_times-SpacedFrom :
    (last : Option ℤ) (ks : List OutageTick) → SpacedFrom last (release_times last ks)
unfolding release_times
release_times-SpacedFrom last [] = tt
release_times-SpacedFrom last (k ∷ ks) =
    let next = (release last k.handback k.now).0 in
    let rest = release_times-SpacedFrom next ks in
    elim (Bool-cases (is_some (release last k.handback k.now).1)) [
      | inl e ↦ rw e (SpacedFrom-wrote last k.handback k.now (release_times next ks) e rest)
      | inr e ↦ rw e (
          subst (λ l. SpacedFrom l (release_times next ks)) (release-silent last k.handback k.now e)
            rest)
    ]
