-- ===== src/Demand/Boiler.antt =====
-- When the boiler is asked for: `aggregate_boiler_demand` of
-- custom_components/poise/control/hub_aggregate.py.
use Prim.Native.String.{String}
use poise_thermostat.Base.{
  ◌≡◌, refl, ap, inl, inr, ℕ, Bool, true, ◌&&◌, Option, List, [], ◌∷◌, ◌++◌, is_some, keep,
  Bool-cases,
}
use poise_thermostat.Base.Int.{ℤ}
use poise_thermostat.Demand.{
  ZoneRequest, calling, frost_zone, aggregate_boiler_demand, frost_heat_request,
}

-- The zone takes part in the boiler and is in frost protection.
abbrev pub IsFrozenZone : ZoneRequest → Type 0
IsFrozenZone r = (r.frost_active ≡ true) × (r.controls_boiler ≡ true)

frost_zone-found :
    (xs ys : List ZoneRequest) (r : ZoneRequest)
    → IsFrozenZone r
    → is_some (frost_zone (xs ++ r ∷ ys)) ≡ true
unfolding frost_zone
frost_zone-found [] ys r (f, c) = rw (f, c) refl
frost_zone-found (x ∷ xs) ys r h = elim (Bool-cases (x.frost_active && x.controls_boiler)) [
  | inl e ↦ rw e refl
  | inr e ↦ rw e (frost_zone-found xs ys r h)
]

-- A zone in frost protection that controls the boiler switches it on, wherever it stands among the
-- zones and whatever the two thresholds are.
aggregate-frost :
    (xs ys : List ZoneRequest) (r : ZoneRequest) (count : ℕ) (power : Option ℤ)
    → IsFrozenZone r
    → (aggregate_boiler_demand (xs ++ r ∷ ys) count power).active ≡ true
unfolding aggregate_boiler_demand
aggregate-frost xs ys r count power h = rw (frost_zone-found xs ys r h) refl

-- A zone whose sensor is gone, which the hub replaces by a synthetic request, switches the boiler on.
pub aggregate-frost_heat_request :
    (xs ys : List ZoneRequest) (id : String) (now : ℤ) (declared : Option ℤ) (count : ℕ)
    (power : Option ℤ)
    → (aggregate_boiler_demand (xs ++ frost_heat_request id now declared ∷ ys) count power).active
      ≡ true
unfolding frost_heat_request
aggregate-frost_heat_request xs ys id now declared count power =
    aggregate-frost xs ys (frost_heat_request id now declared) count power (refl, refl)

frost_zone-keep :
    (xs : List ZoneRequest) → frost_zone (keep (λ r. r.controls_boiler) xs) ≡ frost_zone xs
unfolding frost_zone
frost_zone-keep [] = refl
frost_zone-keep (x ∷ xs) = elim (Bool-cases x.controls_boiler) [
  | inl c ↦ elim (Bool-cases x.frost_active) [
    | inl f ↦ rw (c, f) refl
    | inr f ↦ rw (c, f) (frost_zone-keep xs)
  ]
  | inr c ↦ elim (Bool-cases x.frost_active) [
    | inl f ↦ rw (c, f) (frost_zone-keep xs)
    | inr f ↦ rw (c, f) (frost_zone-keep xs)
  ]
]

keep-keep : (p : ZoneRequest → Bool) (xs : List ZoneRequest) → keep p (keep p xs) ≡ keep p xs
keep-keep p [] = refl
keep-keep p (x ∷ xs) = elim (Bool-cases (p x)) [
  | inl e ↦ rw (e, e) (ap (λ l. x ∷ l) (keep-keep p xs))
  | inr e ↦ rw e (keep-keep p xs)
]

-- What is asked of the boiler depends on the participating zones alone: to leave the others out
-- changes neither the request, nor the count, the weighted demand, or the frost zone that is named.
aggregate-participants :
    (xs : List ZoneRequest) (count : ℕ) (power : Option ℤ)
    → let a = aggregate_boiler_demand xs count power in
      let b = aggregate_boiler_demand (keep (λ r. r.controls_boiler) xs) count power in
      (a.active ≡ b.active)
      × (a.active_count ≡ b.active_count)
      × (a.weighted_demand ≡ b.weighted_demand)
      × (a.frost_zone_id ≡ b.frost_zone_id)
unfolding aggregate_boiler_demand calling
aggregate-participants xs count power =
    rw (frost_zone-keep xs, keep-keep (λ r. r.controls_boiler) xs) (refl, refl, refl, refl)
