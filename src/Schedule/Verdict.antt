-- ===== src/Schedule/Verdict.antt =====
-- The verdict of the schedule (`state_at` of custom_components/poise/comfort/schedule.py) against the
-- configured windows, each read on its own.
use poise_thermostat.Base.{
  ℕ, ◌+◌, ◌*◌, ◌%◌, ◌≤◌, ◌<◌, ◌≡◌, refl, sym, ap, ◌∙◌, inl, inr, Bool, true, false, ◌&&◌, ◌||◌,
  Option, none, some, List, [], ◌∷◌, ◌++◌, arith, leb, ◌==◌, keep, any_of, All, Bool-cases, is_some,
}
use poise_thermostat.Base.Int.{ℤ}
use poise_thermostat.Schedule.{
  max_ℕ, always, ConfigWindow, ComfortWindow, Span, day_minutes, week_minutes, clamp_window,
  overnight, daily, clean_windows, insert_window, sort_windows, joins, merge_windows,
  merge_all_windows, normalize, expand, ComfortSchedule, from_windows, ScheduleState, find_end,
  is_full_week, state_on, state_at, is_empty,
}
use poise_thermostat.Schedule.Union.{probed, find_end-probed}
use poise_thermostat.Schedule.Daily.{covers}
use poise_thermostat.Schedule.Cover.{normalize-covered, clean_windows-covered, probed-expand}

-- no window is configured, but empty ones
is_empty-append {ℓ} :
    {A : Type ℓ} (xs ys : List A) → is_empty (xs ++ ys) ≡ is_empty xs && is_empty ys
is_empty-append [] ys = refl
is_empty-append (x ∷ xs) ys = refl

merge_windows-is_empty :
    (p : ComfortWindow) (ws : List ComfortWindow) → is_empty (merge_windows p ws) ≡ false
unfolding merge_windows
merge_windows-is_empty p [] = refl
merge_windows-is_empty p (w ∷ ws) = elim (Bool-cases (joins p w)) [
  | inl j ↦ rw j (
      merge_windows-is_empty
        (record { start_min = p.start_min; end_min = max_ℕ p.end_min w.end_min; days = p.days }) ws)
  | inr j ↦ rw j refl
]

insert_window-is_empty :
    (w : ComfortWindow) (ws : List ComfortWindow) → is_empty (insert_window w ws) ≡ false
unfolding insert_window
insert_window-is_empty w [] = refl
insert_window-is_empty w (x ∷ xs) = ground arith

merged-is_empty :
    (ws : List ComfortWindow) → is_empty (merge_all_windows (sort_windows ws)) ≡ is_empty ws
unfolding merge_all_windows sort_windows
merged-is_empty [] = refl
merged-is_empty (w ∷ ws) =
    head (insert_window w (sort_windows ws)) (insert_window-is_empty w (sort_windows ws))
  where
    head : (xs : List ComfortWindow) → is_empty xs ≡ false → is_empty (merge_all_windows xs) ≡ false
    head [] h = h
    head (x ∷ xs) h = merge_windows-is_empty x xs

abbrev Wide : ComfortWindow → Type 0
Wide w = (w.end_min == w.start_min) ≡ false

clean_windows-Wide : (ws : List ConfigWindow) → All Wide (clean_windows ws)
unfolding clean_windows
clean_windows-Wide [] = tt
clean_windows-Wide (w ∷ ws) =
    elim (Bool-cases ((clamp_window w).end_min == (clamp_window w).start_min)) [
      | inl e ↦ rw e (clean_windows-Wide ws)
      | inr e ↦ rw e (e, clean_windows-Wide ws)
    ]

kinds-is_empty :
    (ws : List ComfortWindow)
    → All Wide ws
    → is_empty (keep daily ws) && is_empty (keep overnight ws) ≡ is_empty ws
kinds-is_empty [] h = refl
kinds-is_empty (w ∷ ws) (h, hs) = ground (arith, h)

normalize-is_empty :
    (ws : List ConfigWindow) → is_empty (normalize ws) ≡ is_empty (clean_windows ws)
unfolding normalize
normalize-is_empty ws =
    is_empty-append (merge_all_windows (sort_windows (keep daily (clean_windows ws))))
      (keep overnight (clean_windows ws))
    ∙ ap (λ z. z && is_empty (keep overnight (clean_windows ws)))
        (merged-is_empty (keep daily (clean_windows ws)))
    ∙ kinds-is_empty (clean_windows ws) (clean_windows-Wide ws)

-- The verdict for a schedule and its spans.
pub state_on-is_comfort :
    (c : ComfortSchedule) (t : ℕ) (xs : List Span)
    → (state_on c t xs (find_end t xs)).is_comfort ≡ probed t xs
unfolding state_on
state_on-is_comfort c t [] = refl
state_on-is_comfort c t (x ∷ xs) = found (find_end t (x ∷ xs)) ∙ find_end-probed t (x ∷ xs)
  where
    found : (o : Option ℕ) → (state_on c t (x ∷ xs) o).is_comfort ≡ is_some o
    found none = refl
    found (some m) = refl

pub full_week-probed :
    (t : ℕ) (xs : List Span) → t < week_minutes → is_full_week xs ≡ true → probed t xs ≡ true
full_week-probed t [] l h = cc
full_week-probed t (x ∷ []) l h = ground (arith, h)
full_week-probed t (x ∷ y ∷ xs) l h = cc

le_leb : (k : ℕ) → k ≤ 6 → leb k 6 ≡ true
le_leb k h = ground arith

all_week :
    (c : ComfortSchedule) (t : ℕ)
    → t < week_minutes
    → is_empty c.windows || is_full_week c.intervals ≡ true
    → is_empty c.windows || probed t c.intervals ≡ true
all_week c t l h = elim (Bool-cases (is_full_week c.intervals)) [
  | inl e ↦ ground (arith, full_week-probed t c.intervals l e)
  | inr e ↦ ground (arith, h, e)
]

not_empty :
    (c : ComfortSchedule) (b : Bool)
    → is_empty c.windows || is_full_week c.intervals ≡ false
    → b ≡ is_empty c.windows || b
not_empty c b h = ground (arith, h)

-- the two ways through `state_at`
pub state_at-always :
    (c : ComfortSchedule) (minute weekday : ℕ)
    → weekday ≤ 6
    → is_empty c.windows || is_full_week c.intervals ≡ true
    → state_at c minute weekday ≡ some always
unfolding state_at
state_at-always c minute weekday h e = rw (le_leb weekday h, e) refl

pub state_at-on :
    (c : ComfortSchedule) (minute weekday : ℕ)
    → weekday ≤ 6
    → is_empty c.windows || is_full_week c.intervals ≡ false
    → state_at c minute weekday
      ≡ some (
          state_on c
            (weekday * day_minutes + minute % day_minutes)
            c.intervals
            (find_end (weekday * day_minutes + minute % day_minutes) c.intervals))
unfolding state_at
state_at-on c minute weekday h e = rw (le_leb weekday h, e) refl

pub state_at-probed :
    (c : ComfortSchedule) (minute weekday : ℕ)
    → weekday ≤ 6
    → (s : ScheduleState) × (state_at c minute weekday ≡ some s)
      × (s.is_comfort
          ≡ is_empty c.windows || probed (weekday * day_minutes + minute % day_minutes) c.intervals)
state_at-probed c minute weekday h =
    let t : ℕ = weekday * day_minutes + minute % day_minutes in
    elim (Bool-cases (is_empty c.windows || is_full_week c.intervals)) [
      | inl e ↦ (always, state_at-always c minute weekday h e, sym (all_week c t (omega arith) e))
      | inr e ↦ (
        state_on c t c.intervals (find_end t c.intervals),
        state_at-on c minute weekday h e,
        state_on-is_comfort c t c.intervals ∙ not_empty c (probed t c.intervals) e,
      )
    ]

-- For every configuration, weekday and minute, the schedule gives a verdict, and it is comfort
-- exactly when no window has a length or some window covers the minute by its daily meaning: on a
-- day of its mask from start to end, overnight until its end on the day after. Sorting, merging and
-- the seam of the week change nothing.
pub state_at-covered :
    (ws : List ConfigWindow) (delta : ℤ) (minute weekday : ℕ)
    → weekday ≤ 6
    → (s : ScheduleState) × (state_at (from_windows ws delta) minute weekday ≡ some s)
      × (s.is_comfort
          ≡ is_empty (clean_windows ws)
            || any_of (λ w. covers (clamp_window w) weekday (minute % day_minutes)) ws)
unfolding from_windows
state_at-covered ws delta minute weekday h =
    let (s, e, v) = state_at-probed (from_windows ws delta) minute weekday h in
    let (same, all) = normalize-covered ws weekday (minute % day_minutes) in
    (
      s,
      e,
      v
          ∙ ap
              (λ z.
                z || probed (weekday * day_minutes + minute % day_minutes) (expand (normalize ws)))
              (normalize-is_empty ws)
          ∙ ap (λ z. is_empty (clean_windows ws) || z)
              (probed-expand (normalize ws) weekday (minute % day_minutes) all h (omega arith)
                ∙ same
                ∙ clean_windows-covered ws weekday (minute % day_minutes)),
    )
