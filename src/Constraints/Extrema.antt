-- ===== src/Constraints/Extrema.antt =====
-- The binding floor and the binding cap of custom_components/poise/constraints.py, as the extrema of
-- the floors and the caps.
use poise_thermostat.Base.{
  ◌≡◌, inl, inr, Bool, true, false, Option, none, some, List, [], ◌∷◌, arith, if◌then◌else◌, keep,
  All, best_from, first_best, Bool-cases,
}
use poise_thermostat.Base.Int.{ℤ, ◌≤ℤ◌, ltb_ℤ, eqb_ℤ}
use poise_thermostat.Constraints.{
  Constraint, floor_beats, cap_beats, binding_floor, binding_cap, is_floor, is_cap,
}

-- What makes `better` the strict part of a total preorder.
record IsRanking {ℓ} {A : Type ℓ} (better : A → A → Bool) : Type ℓ where
  asym : (x y : A) → better x y ≡ true → better y x ≡ false
  trans : (x y z : A) → better x y ≡ false → better y z ≡ false → better x z ≡ false
  irrefl : (x : A) → better x x ≡ false

module _ {ℓ} {A : Type ℓ} (better : A → A → Bool) (r : IsRanking better) where
  better-round_new : (x b : A) → better x (if better x b then x else b) ≡ false
  better-round_new x b = elim (Bool-cases (better x b)) [
    | inl e ↦ rw e (r.irrefl x)
    | inr e ↦ rw e e
  ]

  better-round_old : (x b : A) → better b (if better x b then x else b) ≡ false
  better-round_old x b = elim (Bool-cases (better x b)) [
    | inl e ↦ rw e (r.asym x b e)
    | inr e ↦ rw e (r.irrefl b)
  ]

  best_from_first : (b : A) (xs : List A) → better b (best_from better b xs) ≡ false
  unfolding best_from
  best_from_first b [] = r.irrefl b
  best_from_first b (x ∷ xs) =
      r.trans b (if better x b then x else b) _ (better-round_old x b)
        (best_from_first (if better x b then x else b) xs)

  best_from_rest : (b : A) (xs : List A) → All (λ x. better x (best_from better b xs) ≡ false) xs
  unfolding best_from
  best_from_rest b [] = tt
  best_from_rest b (x ∷ xs) = (
    r.trans x (if better x b then x else b) _ (better-round_new x b)
        (best_from_first (if better x b then x else b) xs),
    best_from_rest (if better x b then x else b) xs,
  )

-- whatever holds of every element holds of the one chosen
best_from_keeps {ℓ κ} :
    {A : Type ℓ} (P : A → Type κ) (better : A → A → Bool) (b : A) (xs : List A)
    → P b
    → All P xs
    → P (best_from better b xs)
unfolding best_from
best_from_keeps P better b [] pb ps = pb
best_from_keeps P better b (x ∷ xs) pb ps = elim (Bool-cases (better x b)) [
  | inl e ↦ rw e (best_from_keeps P better x xs ps.0 ps.1)
  | inr e ↦ rw e (best_from_keeps P better b xs pb ps.1)
]

floor_beats-IsRanking : IsRanking floor_beats
unfolding floor_beats ltb_ℤ eqb_ℤ
floor_beats-IsRanking = record {
  asym = λ x y h. ground arith;
  trans = λ x y z h k. ground arith;
  irrefl = λ x. ground arith;
}

cap_beats-IsRanking : IsRanking cap_beats
unfolding cap_beats ltb_ℤ eqb_ℤ
cap_beats-IsRanking = record {
  asym = λ x y h. ground arith;
  trans = λ x y z h k. ground arith;
  irrefl = λ x. ground arith;
}

-- What is kept has its property, and what holds of all that is kept holds of the kept elements.
module _ {ℓ} {A : Type ℓ} (p : A → Bool) where
  pub All-keep {κ} :
      (P : A → Type κ) (xs : List A) → All P (keep p xs) → All (λ x. p x ≡ true → P x) xs
  All-keep P [] h = tt
  All-keep P (x ∷ xs) h = elim (Bool-cases (p x)) [
    | inl e ↦ let k = rw e at h in (λ _. k.0, All-keep P xs k.1)
    | inr e ↦ (λ q. cc, All-keep P xs (rw e at h))
  ]

  pub keep-All {κ} :
      (P : A → Type κ) (xs : List A) → All (λ x. p x ≡ true → P x) xs → All P (keep p xs)
  keep-All P [] h = tt
  keep-All P (x ∷ xs) h = elim (Bool-cases (p x)) [
    | inl e ↦ rw e (h.0 e, keep-All P xs h.1)
    | inr e ↦ rw e (keep-All P xs h.1)
  ]

pub All-map {ℓ κ ι} :
    {A : Type ℓ} (P : A → Type κ) (Q : A → Type ι) (f : (a : A) → P a → Q a) (xs : List A)
    → All P xs
    → All Q xs
All-map P Q f [] h = tt
All-map P Q f (x ∷ xs) h = (f x h.0, All-map P Q f xs h.1)

-- A property of the binding constraint, if there is one.
abbrev pub Any : {A : Type 0} → (A → Type 0) → Option A → Type 0
Any P none = Unit
Any P (some x) = P x

-- `v` satisfies the binding floor, and the binding cap.
abbrev pub Above : Option Constraint → ℤ → Type 0
Above o v = Any (λ f. f.value ≤ℤ v) o

abbrev pub Below : Option Constraint → ℤ → Type 0
Below o v = Any (λ c. v ≤ℤ c.value) o

abbrev pub FloorsHold : List Constraint → ℤ → Type 0
FloorsHold cs v = All (λ c. is_floor c ≡ true → c.value ≤ℤ v) cs

abbrev pub CapsHold : List Constraint → ℤ → Type 0
CapsHold cs v = All (λ c. is_cap c ≡ true → v ≤ℤ c.value) cs

module _ (v : ℤ) where
  le-of_floor_beats : (f c : Constraint) → f.value ≤ℤ v → floor_beats c f ≡ false → c.value ≤ℤ v
  unfolding floor_beats ltb_ℤ eqb_ℤ
  le-of_floor_beats f c h k = ground arith

  le-of_cap_beats : (f c : Constraint) → v ≤ℤ f.value → cap_beats c f ≡ false → v ≤ℤ c.value
  unfolding cap_beats ltb_ℤ eqb_ℤ
  le-of_cap_beats f c h k = ground arith

  floors_of_first :
      (cs : List Constraint) → Above (first_best floor_beats cs) v → All (λ c. c.value ≤ℤ v) cs
  unfolding first_best
  floors_of_first [] h = tt
  floors_of_first (x ∷ xs) h =
      let w = best_from floor_beats x xs in
      (
        le-of_floor_beats w x h (best_from_first floor_beats floor_beats-IsRanking x xs),
        All-map _ _ (λ c. le-of_floor_beats w c h) xs
            (best_from_rest floor_beats floor_beats-IsRanking x xs),
      )

  caps_of_first :
      (cs : List Constraint) → Below (first_best cap_beats cs) v → All (λ c. v ≤ℤ c.value) cs
  unfolding first_best
  caps_of_first [] h = tt
  caps_of_first (x ∷ xs) h =
      let w = best_from cap_beats x xs in
      (
        le-of_cap_beats w x h (best_from_first cap_beats cap_beats-IsRanking x xs),
        All-map _ _ (λ c. le-of_cap_beats w c h) xs
            (best_from_rest cap_beats cap_beats-IsRanking x xs),
      )

  pub FloorsHold-binding_floor :
      (cs : List Constraint) → Above (binding_floor cs) v → FloorsHold cs v
  unfolding binding_floor
  FloorsHold-binding_floor cs h = All-keep is_floor _ cs (floors_of_first (keep is_floor cs) h)

  pub CapsHold-binding_cap : (cs : List Constraint) → Below (binding_cap cs) v → CapsHold cs v
  unfolding binding_cap
  CapsHold-binding_cap cs h = All-keep is_cap _ cs (caps_of_first (keep is_cap cs) h)

first_best_keeps :
    {A : Type 0} (P : A → Type 0) (better : A → A → Bool) (xs : List A)
    → All P xs
    → Any P (first_best better xs)
unfolding first_best
first_best_keeps P better [] h = tt
first_best_keeps P better (x ∷ xs) h = best_from_keeps P better x xs h.0 h.1

pub binding_floor_keeps :
    (P : Constraint → Type 0) (cs : List Constraint)
    → All (λ c. is_floor c ≡ true → P c) cs
    → Any P (binding_floor cs)
unfolding binding_floor
binding_floor_keeps P cs h = first_best_keeps P floor_beats _ (keep-All is_floor P cs h)

pub binding_cap_keeps :
    (P : Constraint → Type 0) (cs : List Constraint)
    → All (λ c. is_cap c ≡ true → P c) cs
    → Any P (binding_cap cs)
unfolding binding_cap
binding_cap_keeps P cs h = first_best_keeps P cap_beats _ (keep-All is_cap P cs h)
