-- ===== src/Demand/Shedding.antt =====
-- Which zones are shed, in which order and how many.
use mathlib.Core.Path.{subst}
use mathlib.Core.List.{Perm}
use mathlib.Core.List.Perm
use poise_thermostat.Base.{
  ◌≡◌, ◌≢◌, ap, refl, ◌⊎◌, inl, inr, Bool, true, false, Option, none, some, List, [], ◌∷◌, ◌++◌,
  arith, keep, All, Bool-cases, map, suc, zero, not,
}
use poise_thermostat.Base.Int.{
  ℤ, pos, negsuc, eqb_ℤ, ◌≤ℤ◌, ◌<ℤ◌, ◌+ℤ◌, ltb_ℤ, leb_ℤ, ltb_ℤ→le, ltb_ℤ→lt, leb_ℤ→le, leb_ℤ→lt,
  lt→leb_ℤ, neg_ℤ, Float, finite, non_finite,
}
use poise_thermostat.Demand.{
  ZoneRequest, SheddingResult, sheddable, truthy, insert_by_gap, sort_by_gap, power, shed_from,
  candidates, resolve_load_shedding,
}

-- `x` comes before every one of the rest in gap, all along the list.
abbrev pub ByGap : List ZoneRequest → Type 0
ByGap [] = Unit
ByGap (x ∷ xs) = All (λ y. x.comfort_gap ≤ℤ y.comfort_gap) xs × ByGap xs

module _ (P : ZoneRequest → Type 0) where
  insert-All :
      (x : ZoneRequest) (ys : List ZoneRequest) → P x → All P ys → All P (insert_by_gap x ys)
  unfolding insert_by_gap
  insert-All x [] p h = (p, tt)
  insert-All x (y ∷ ys) p h = elim (Bool-cases (ltb_ℤ y.comfort_gap x.comfort_gap)) [
    | inl e ↦ rw e (h.0, insert-All x ys p h.1)
    | inr e ↦ rw e (p, h)
  ]

  sort-All : (xs : List ZoneRequest) → All P xs → All P (sort_by_gap xs)
  unfolding sort_by_gap
  sort-All [] h = tt
  sort-All (x ∷ xs) h = insert-All x (sort_by_gap xs) h.0 (sort-All xs h.1)

All-weaken :
    {P Q : ZoneRequest → Type 0} (f : (r : ZoneRequest) → P r → Q r) (xs : List ZoneRequest)
    → All P xs
    → All Q xs
All-weaken f [] h = tt
All-weaken f (x ∷ xs) h = (f x h.0, All-weaken f xs h.1)

insert-ByGap : (x : ZoneRequest) (ys : List ZoneRequest) → ByGap ys → ByGap (insert_by_gap x ys)
unfolding insert_by_gap
insert-ByGap x [] h = (tt, tt)
insert-ByGap x (y ∷ ys) h = elim (Bool-cases (ltb_ℤ y.comfort_gap x.comfort_gap)) [
  | inl e ↦
      let lt = ltb_ℤ→lt y.comfort_gap x.comfort_gap e in
      rw e (
        insert-All (λ z. y.comfort_gap ≤ℤ z.comfort_gap) x ys (omega arith) h.0,
        insert-ByGap x ys h.1,
      )
  | inr e ↦
      let le = ltb_ℤ→le y.comfort_gap x.comfort_gap e in
      rw e ((le, All-weaken (λ z (g : y.comfort_gap ≤ℤ z.comfort_gap). omega arith) ys h.0), h)
]

sort-ByGap : (xs : List ZoneRequest) → ByGap (sort_by_gap xs)
unfolding sort_by_gap
sort-ByGap [] = tt
sort-ByGap (x ∷ xs) = insert-ByGap x (sort_by_gap xs) (sort-ByGap xs)

-- the power of the zones shed, on top of `freed`
abbrev pub freed_by : ℤ → List ZoneRequest → ℤ
freed_by freed [] = freed
freed_by freed (r ∷ rs) = freed_by (freed +ℤ power r) rs

-- Each zone was shed while the deficit was not yet covered.
abbrev pub Needed : ℤ → ℤ → List ZoneRequest → Type 0
Needed deficit freed [] = Unit
Needed deficit freed (r ∷ rs) = (freed <ℤ deficit) × Needed deficit (freed +ℤ power r) rs

-- The zones shed are a front part of `cs`, whose rest is `left`; they are needed, and their power
-- covers the deficit or no zone is left.
abbrev pub IsShedding : ℤ → ℤ → List ZoneRequest → List ZoneRequest → Type 0
IsShedding deficit freed cs shed =
    (left : List ZoneRequest) × (cs ≡ shed ++ left)
    × Needed deficit freed shed
    × ((deficit ≤ℤ freed_by freed shed) ⊎ (left ≡ []))

shed_from-IsShedding :
    (deficit freed : ℤ) (cs : List ZoneRequest)
    → IsShedding deficit freed cs (shed_from deficit freed cs).0
unfolding shed_from
shed_from-IsShedding deficit freed [] = ([], refl, tt, inr refl)
shed_from-IsShedding deficit freed (r ∷ rs) = elim (Bool-cases (leb_ℤ deficit freed)) [
  | inl e ↦ rw e (r ∷ rs, refl, tt, inl (leb_ℤ→le deficit freed e))
  | inr e ↦
      let (left, split, needed, covers) = shed_from-IsShedding deficit (freed +ℤ power r) rs in
      rw e (left, ap (λ l. r ∷ l) split, (leb_ℤ→lt deficit freed e, needed), covers)
]

-- the power that the loop adds up
shed_from-freed :
    (deficit freed : ℤ) (cs : List ZoneRequest)
    → (shed_from deficit freed cs).1 ≡ freed_by freed (shed_from deficit freed cs).0
unfolding shed_from
shed_from-freed deficit freed [] = refl
shed_from-freed deficit freed (r ∷ rs) = elim (Bool-cases (leb_ℤ deficit freed)) [
  | inl e ↦ rw e refl
  | inr e ↦ rw e (shed_from-freed deficit (freed +ℤ power r) rs)
]

keep-true : (p : ZoneRequest → Bool) (xs : List ZoneRequest) → All (λ r. p r ≡ true) (keep p xs)
keep-true p [] = tt
keep-true p (x ∷ xs) = elim (Bool-cases (p x)) [
  | inl e ↦ rw e (e, keep-true p xs)
  | inr e ↦ rw e (keep-true p xs)
]

All-front : (P : ZoneRequest → Type 0) (xs ys : List ZoneRequest) → All P (xs ++ ys) → All P xs
All-front P [] ys h = tt
All-front P (x ∷ xs) ys h = (h.0, All-front P xs ys h.1)

-- A heating zone that neither frost nor mould protection needs, with a declared power other than 0.
abbrev pub IsSpare : ZoneRequest → Type 0
IsSpare r =
    (r.heating ≡ true)
    × (r.frost_active ≡ false)
    × (r.health_active ≡ false)
    × ((p : ℤ) × (r.declared_power ≡ some p) × (p ≢ pos 0))

truthy-known : (o : Option ℤ) → truthy o ≡ true → (p : ℤ) × (o ≡ some p) × (p ≢ pos 0)
unfolding eqb_ℤ
truthy-known none h = ground (arith, h)
truthy-known (some p) h =
    (p, refl, λ e. let k = subst (λ q. not (eqb_ℤ q (pos 0)) ≡ true) e h in ground (arith, k))

nonzero : (p : ℤ) → p ≢ pos 0 → truthy (some p) ≡ true
unfolding eqb_ℤ
nonzero (pos zero) h = absurd (h refl)
nonzero (pos (suc n)) h = ground arith
nonzero (negsuc n) h = ground arith

sheddable-IsSpare : (r : ZoneRequest) → sheddable r ≡ true → IsSpare r
unfolding sheddable
sheddable-IsSpare r h =
    let known : truthy r.declared_power ≡ true = ground (arith, h) in
    (ground (arith, h), ground (arith, h), ground (arith, h), truthy-known r.declared_power known)

IsSpare-sheddable : (r : ZoneRequest) → IsSpare r → sheddable r ≡ true
unfolding sheddable
IsSpare-sheddable r (on, frost, health, (p, known, some_power)) =
    rw (on, frost, health, known) (ground (arith, nonzero p some_power))

insert-perm : (x : ZoneRequest) (ys : List ZoneRequest) → Perm (insert_by_gap x ys) (x ∷ ys)
unfolding insert_by_gap
insert-perm x [] = Perm.rfl
insert-perm x (y ∷ ys) = elim (Bool-cases (ltb_ℤ y.comfort_gap x.comfort_gap)) [
  | inl e ↦ rw e (Perm.trans (Perm.cons y (insert-perm x ys)) (Perm.swap x y ys))
  | inr e ↦ rw e Perm.rfl
]

sort-perm : (xs : List ZoneRequest) → Perm (sort_by_gap xs) xs
unfolding sort_by_gap
sort-perm [] = Perm.rfl
sort-perm (x ∷ xs) = Perm.trans (insert-perm x (sort_by_gap xs)) (Perm.cons x (sort-perm xs))

-- The spare zones among the requests and no others, as often as they occur.
pub data SparesOf : List ZoneRequest → List ZoneRequest → Type 0 where
  none_left : SparesOf [] []
  spare :
      {r : ZoneRequest} {rs ss : List ZoneRequest}
      → IsSpare r
      → SparesOf rs ss
      → SparesOf (r ∷ rs) (r ∷ ss)
  needed :
      {r : ZoneRequest} {rs ss : List ZoneRequest}
      → ¬ IsSpare r
      → SparesOf rs ss
      → SparesOf (r ∷ rs) ss

keep-SparesOf : (rs : List ZoneRequest) → SparesOf rs (keep sheddable rs)
keep-SparesOf [] = none_left
keep-SparesOf (r ∷ rs) = elim (Bool-cases (sheddable r)) [
  | inl e ↦ rw e (spare (sheddable-IsSpare r e) (keep-SparesOf rs))
  | inr e ↦ rw e (needed (λ h. let t = IsSpare-sheddable r h in cc) (keep-SparesOf rs))
]

-- The zones shed by `r`, out of the spare zones in order of their gap, and the power that they free.
abbrev pub Sheds : List ZoneRequest → ℤ → SheddingResult → Type 0
Sheds requests deficit r =
    (spares : List ZoneRequest) × (cs : List ZoneRequest) × (shed : List ZoneRequest) × SparesOf
      requests spares
    × Perm cs spares
    × ByGap cs
    × IsShedding deficit (pos 0) cs shed
    × (r.shed ≡ map (λ z. z.zone_id) shed)
    × (r.freed_power ≡ freed_by (pos 0) shed)

-- In an overload the zones shed are a front part, in the order of their gaps, of the spare zones:
-- those among the requests that heat, have a declared power other than 0 and are under neither frost
-- nor mould protection. Each is shed while the powers of those before it fall short of the deficit,
-- the freed power is the sum of their powers, and it covers the deficit unless every spare zone is
-- shed.
pub resolve_load_shedding-IsShedding :
    (requests : List ZoneRequest) (available : ℤ)
    → available <ℤ pos 0
    → Sheds requests (neg_ℤ available) (resolve_load_shedding requests (finite available))
unfolding resolve_load_shedding candidates
resolve_load_shedding-IsShedding requests available h =
    let deficit = neg_ℤ available in
    let spares = keep sheddable requests in
    let cs = sort_by_gap spares in
    rw (lt→leb_ℤ (pos 0) available h) (
      spares,
      cs,
      (shed_from deficit (pos 0) cs).0,
      keep-SparesOf requests,
      sort-perm spares,
      sort-ByGap spares,
      shed_from-IsShedding deficit (pos 0) cs,
      refl,
      shed_from-freed deficit (pos 0) cs,
    )

candidates-IsSpare : (requests : List ZoneRequest) → All IsSpare (candidates requests)
unfolding candidates
candidates-IsSpare requests =
    sort-All IsSpare (keep sheddable requests)
      (All-weaken sheddable-IsSpare (keep sheddable requests) (keep-true sheddable requests))

-- Whatever the power budget, no zone is shed that is not heating, that is in frost protection or at
-- its mould floor, or whose power is not declared.
resolve_load_shedding-IsSpare :
    (requests : List ZoneRequest) (available : Float)
    → (shed : List ZoneRequest) × ((resolve_load_shedding requests available).shed
        ≡ map (λ r. r.zone_id) shed)
      × All IsSpare shed
unfolding resolve_load_shedding
resolve_load_shedding-IsSpare requests non_finite = ([], refl, tt)
resolve_load_shedding-IsSpare requests (finite available) =
    let deficit = neg_ℤ available in
    let cs = candidates requests in
    let (left, split, _, _) = shed_from-IsShedding deficit (pos 0) cs in
    let all = rw split at (candidates-IsSpare requests) in
    let shed = (shed_from deficit (pos 0) cs).0 in
    elim (Bool-cases (leb_ℤ (pos 0) available)) [
      | inl e ↦ rw e ([], refl, tt)
      | inr e ↦ rw e (shed, refl, All-front IsSpare shed left all)
    ]
