-- ===== src/Demand/Flow.antt =====
-- The boiler's flow temperature: `resolve_flow_temperature` of
-- custom_components/poise/control/hub_aggregate.py.
use mathlib.Core.Path.{subst}
use poise_thermostat.Base.{
  ◌≡◌, refl, inl, inr, Bool, Option, none, some, List, [], ◌∷◌, arith, first_best, best_from,
  Bool-cases, All,
}
use poise_thermostat.Base.Int.{ℤ, pos, ◌≤ℤ◌, ◌+ℤ◌, ◌-ℤ◌, ltb_ℤ, min_ℤ, abs_ℤ, ltb_ℤ→lt, ltb_ℤ→le}
use poise_thermostat.Demand.{ZoneRequest, flow_requests, flow_on, resolve_flow_temperature}

abbrev higher : ℤ → ℤ → Bool
higher x b = ltb_ℤ b x

best_from-max :
    (b : ℤ) (xs : List ℤ) → (b ≤ℤ best_from higher b xs) × All (λ x. x ≤ℤ best_from higher b xs) xs
unfolding best_from
best_from-max b [] = (omega arith, tt)
best_from-max b (x ∷ xs) = elim (Bool-cases (higher x b)) [
  | inl e ↦
      let (top, rest) = best_from-max x xs in
      let lt = ltb_ℤ→lt b x e in
      let step : best_from higher x xs ≡ best_from higher b (x ∷ xs) = rw e refl in
      subst (λ v. (b ≤ℤ v) × All (λ y. y ≤ℤ v) (x ∷ xs)) step (omega arith, (top, rest))
  | inr e ↦
      let (top, rest) = best_from-max b xs in
      let le = ltb_ℤ→le b x e in
      let step : best_from higher b xs ≡ best_from higher b (x ∷ xs) = rw e refl in
      subst (λ v. (b ≤ℤ v) × All (λ y. y ≤ℤ v) (x ∷ xs)) step (top, (omega arith, rest))
]

-- The zone's request, limited to the highest flow temperature, is at most `t + h`.
abbrev pub Served : ℤ → ℤ → ℤ → ℤ → Type 0
Served max_flow hysteresis t f = min_ℤ f max_flow ≤ℤ t +ℤ hysteresis

-- Every request is served by the flow temperature, which exceeds the maximum by at most the
-- hysteresis; there is none only without requests.
abbrev pub FlowServes : List ℤ → ℤ → ℤ → Option ℤ → Type 0
FlowServes fs max_flow hysteresis none = fs ≡ []
FlowServes fs max_flow hysteresis (some t) =
    All (Served max_flow hysteresis t) fs × (t ≤ℤ max_flow +ℤ hysteresis)

Served-mono :
    (max_flow hysteresis t top f : ℤ)
    → Served max_flow hysteresis t top
    → f ≤ℤ top
    → Served max_flow hysteresis t f
unfolding min_ℤ ltb_ℤ
Served-mono max_flow hysteresis t top f h le = ground arith

Served-by_requested :
    (max_flow hysteresis t top : ℤ) (fs : List ℤ)
    → Served max_flow hysteresis t top
    → All (λ x. x ≤ℤ top) fs
    → All (Served max_flow hysteresis t) fs
Served-by_requested max_flow hysteresis t top [] h all = tt
Served-by_requested max_flow hysteresis t top (f ∷ fs) h all = (
  Served-mono max_flow hysteresis t top f h all.0,
  Served-by_requested max_flow hysteresis t top fs h all.1,
)

module _ (max_flow hysteresis : ℤ) (nonneg : pos 0 ≤ℤ hysteresis) where
  flow_on-near :
      (top : ℤ) (current : Option ℤ)
      → (t : ℤ) × ((flow_on (some top) current max_flow hysteresis).target ≡ some t)
        × (min_ℤ top max_flow ≤ℤ t +ℤ hysteresis)
        × (t ≤ℤ max_flow +ℤ hysteresis)
  unfolding flow_on min_ℤ ltb_ℤ abs_ℤ ◌+ℤ◌ ◌-ℤ◌
  flow_on-near top none = (min_ℤ top max_flow, refl, ground arith, ground arith)
  flow_on-near top (some current) =
      let requested = min_ℤ top max_flow in
      elim (Bool-cases (ltb_ℤ (abs_ℤ (requested -ℤ current)) hysteresis)) [
        | inl e ↦ rw e (current, refl, ground arith, ground arith)
        | inr e ↦ rw e (requested, refl, ground arith, ground arith)
      ]

  flow_on-FlowServes :
      (fs : List ℤ) (current : Option ℤ)
      → FlowServes fs max_flow hysteresis
          (flow_on (first_best higher fs) current max_flow hysteresis).target
  unfolding first_best flow_on
  flow_on-FlowServes [] current = refl
  flow_on-FlowServes (f ∷ fs) current =
      let top = best_from higher f fs in
      let (least, rest) = best_from-max f fs in
      let (t, e, near, high) = flow_on-near top current in
      rw e (Served-by_requested max_flow hysteresis t top (f ∷ fs) near (least, rest), high)

-- Where the hysteresis is not negative, the flow temperature that is held reaches every heating
-- zone's request, limited to the maximum, within the hysteresis, and exceeds the maximum by no more
-- than the hysteresis; none is asked for only if no heating zone requests one.
pub resolve_flow_temperature-serves :
    (requests : List ZoneRequest) (current : Option ℤ) (max_flow hysteresis : ℤ)
    → pos 0 ≤ℤ hysteresis
    → FlowServes
        (flow_requests requests)
        max_flow
        hysteresis
        (resolve_flow_temperature requests current max_flow hysteresis).target
unfolding resolve_flow_temperature
resolve_flow_temperature-serves requests current max_flow hysteresis h =
    flow_on-FlowServes max_flow hysteresis h (flow_requests requests) current
