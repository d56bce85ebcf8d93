-- ===== src/Schedule/Daily.antt =====
-- One window on the axis of the week (`_expand` of custom_components/poise/comfort/schedule.py) against
-- its meaning on a day.
use poise_thermostat.Base.{
  ℕ, zero, suc, ◌+◌, ◌-◌, ◌*◌, ◌≤◌, ◌<◌, ◌≡◌, refl, ap, ◌∙◌, inl, inr, Bool, ◌&&◌, ◌||◌, List, [],
  ◌∷◌, ◌++◌, arith, if◌then◌else◌, ltb, leb, ◌==◌, any_of, All, Bool-cases,
}
use poise_thermostat.Schedule.{
  ComfortWindow, day_minutes, week_minutes, overnight, on_day, pieces_on, pieces, week, in_span,
  span_end,
}
use poise_thermostat.Schedule.Union.{member, any_of-append}

-- A window as it stands after clamping.
abbrev pub IsDaily : ComfortWindow → Type 0
IsDaily w = (w.start_min ≤ day_minutes) × (w.end_min ≤ day_minutes)

abbrev pub day_before : ℕ → ℕ
day_before k = if k == 0 then 6 else k - 1

-- What a window means: on a day of its mask from its start to its end, an overnight one until its end
-- on the day after.
abbrev pub covers : ComfortWindow → ℕ → ℕ → Bool
covers w k m =
    if overnight w
    then (on_day w.days k && leb w.start_min m) || (on_day w.days (day_before k) && ltb m w.end_min)
    else on_day w.days k && (leb w.start_min m && ltb m w.end_min)

-- the part of day `d` in day `k`
abbrev on_piece : ComfortWindow → ℕ → ℕ → ℕ → Bool
on_piece w k m d =
    ((d == k) && (leb w.start_min m && (overnight w || ltb m w.end_min)))
    || ((d == day_before k) && (overnight w && ltb m w.end_min))

member-pieces_on :
    (w : ComfortWindow) (k m d : ℕ)
    → IsDaily w
    → k ≤ 6
    → m < day_minutes
    → d ≤ 6
    → member (k * day_minutes + m) (pieces_on w d) ≡ on_piece w k m d
unfolding pieces_on
member-pieces_on w k m d h a b c = ground arith

member-pieces :
    (t : ℕ) (w : ComfortWindow) (ds : List ℕ)
    → member t (pieces w ds) ≡ any_of (λ d. on_day w.days d && member t (pieces_on w d)) ds
unfolding pieces
member-pieces t w [] = refl
member-pieces t w (d ∷ ds) = elim (Bool-cases (on_day w.days d)) [
  | inl e ↦ rw e (
      any_of-append (in_span t) (pieces_on w d) (pieces w ds)
      ∙ ground (arith, member-pieces t w ds))
  | inr e ↦ rw e (member-pieces t w ds)
]

-- of all days, only two count
any_week :
    (on : ℕ → Bool) (a b : Bool) (k : ℕ)
    → k ≤ 6
    → any_of (λ d. on d && (((d == k) && a) || ((d == day_before k) && b))) week
      ≡ (on k && a) || (on (day_before k) && b)
any_week on a b zero h = ground arith
any_week on a b (suc zero) h = ground arith
any_week on a b (suc (suc zero)) h = ground arith
any_week on a b (suc (suc (suc zero))) h = ground arith
any_week on a b (suc (suc (suc (suc zero)))) h = ground arith
any_week on a b (suc (suc (suc (suc (suc zero))))) h = ground arith
any_week on a b (suc (suc (suc (suc (suc (suc zero)))))) h = ground arith
any_week on a b (suc (suc (suc (suc (suc (suc (suc k))))))) h = absurd (omega arith)

any_of-week : (p q : ℕ → Bool) → ((d : ℕ) → d ≤ 6 → p d ≡ q d) → any_of p week ≡ any_of q week
any_of-week p q h = rw (
  h 0 (omega arith),
  h 1 (omega arith),
  h 2 (omega arith),
  h 3 (omega arith),
  h 4 (omega arith),
  h 5 (omega arith),
  h 6 (omega arith),
)

pub member-pieces-week :
    (w : ComfortWindow) (k m : ℕ)
    → IsDaily w
    → k ≤ 6
    → m < day_minutes
    → member (k * day_minutes + m) (pieces w week) ≡ covers w k m
member-pieces-week w k m h a b =
    member-pieces (k * day_minutes + m) w week
    ∙ any_of-week (λ d. on_day w.days d && member (k * day_minutes + m) (pieces_on w d))
        (λ d. on_day w.days d && on_piece w k m d)
        (λ d l. ap (λ z. on_day w.days d && z) (member-pieces_on w k m d h a b l))
    ∙ any_week (λ d. on_day w.days d) (leb w.start_min m && (overnight w || ltb m w.end_min))
        (overnight w && ltb m w.end_min) k a
    ∙ ground arith

-- every piece lies within the week
pieces_on-All :
    (w : ComfortWindow) (d : ℕ) → IsDaily w → d ≤ 6 → All (λ x. x.e ≤ week_minutes) (pieces_on w d)
unfolding pieces_on
pieces_on-All w d h l = elim (Bool-cases (ltb week_minutes (span_end w d))) [
  | inl e ↦ rw e (omega arith, (ground arith, tt))
  | inr e ↦ rw e (ground (arith, e), tt)
]

pub All-append {ℓ κ} :
    {A : Type ℓ} (P : A → Type κ) (xs ys : List A) → All P xs → All P ys → All P (xs ++ ys)
All-append P [] ys h g = g
All-append P (x ∷ xs) ys (h, hs) g = (h, All-append P xs ys hs g)

pub pieces-All :
    (w : ComfortWindow) (ds : List ℕ)
    → IsDaily w
    → All (λ d. d ≤ 6) ds
    → All (λ x. x.e ≤ week_minutes) (pieces w ds)
unfolding pieces
pieces-All w [] h l = tt
pieces-All w (d ∷ ds) h (l, ls) = elim (Bool-cases (on_day w.days d)) [
  | inl e ↦
      let first = pieces_on-All w d h l in
      rw e (
        All-append (λ x. x.e ≤ week_minutes) (pieces_on w d) (pieces w ds) first
          (pieces-All w ds h ls))
  | inr e ↦ rw e (pieces-All w ds h ls)
]
