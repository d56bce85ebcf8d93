-- ===== src/Schedule/Switch.antt =====
-- The transitions that the schedule reports (`minutes_to_comfort` and `minutes_to_setback` of
-- custom_components/poise/comfort/schedule.py).
use poise_thermostat.Base.{
  ℕ, ◌+◌, ◌-◌, ◌*◌, ◌%◌, ◌/◌, ◌≤◌, ◌<◌, ◌≡◌, refl, sym, ap, ◌∙◌, inl, inr, Bool, true, false, ◌&&◌,
  ◌||◌, Option, none, some, List, [], ◌∷◌, arith, ltb, ◌==◌, All, keep, Bool-cases, is_some,
}
use poise_thermostat.Schedule.{
  ConfigWindow, from_windows, expand, raw_spans, normalize, merge_all_spans, sort_spans, wide, Span,
  day_minutes, week_minutes, in_span, find_end, switchpoint_of, state_on, is_full_week, wait_for,
  to_next, ComfortSchedule, ScheduleState, state_at, is_empty, close_seam, wrap_last, last_span,
}
use poise_thermostat.Schedule.Union.{probed, find_end-probed, IsWithin, spans-IsWithin}
use poise_thermostat.Schedule.Gaps.{IsSpan}
use poise_thermostat.Schedule.Cover.{raw_spans-bounded}
use poise_thermostat.Base.Int.{ℤ}
use poise_thermostat.Schedule.Verdict.{
  state_at-probed, state_at-always, state_at-on, state_on-is_comfort,
}

-- `j` minutes after `t`, on the axis of the week
abbrev pub later : ℕ → ℕ → ℕ
later t j = (t + j) % week_minutes

in_span-later :
    (t j : ℕ) (x : Span)
    → x.e ≤ 2 * week_minutes
    → t < week_minutes
    → in_span t x ≡ true
    → j < x.e - t
    → in_span (later t j) x || in_span (later t j + week_minutes) x ≡ true
in_span-later t j x h l i m = ground (arith, i)

in_span-later_next :
    (t j : ℕ) (x : Span)
    → x.e ≤ 2 * week_minutes
    → t < week_minutes
    → in_span (t + week_minutes) x ≡ true
    → j < x.e - (t + week_minutes)
    → in_span (later t j + week_minutes) x ≡ true
in_span-later_next t j x h l i m = ground (arith, i)

-- in_span a span, until its end
find_end-later :
    (t j n : ℕ) (xs : List Span)
    → All IsSpan xs
    → t < week_minutes
    → find_end t xs ≡ some n
    → j < n
    → probed (later t j) xs ≡ true
unfolding find_end
find_end-later t j n [] h l e m = cc
find_end-later t j n (x ∷ xs) (h, hs) l e m = elim (Bool-cases (in_span t x)) [
  | inl i ↦ ground (arith, e, i, in_span-later t j x h.2 l i)
  | inr i ↦ elim (Bool-cases (in_span (t + week_minutes) x)) [
    | inl i' ↦ ground (arith, e, i, i', in_span-later_next t j x h.2 l i')
    | inr i' ↦ ground (arith, e, i, i', find_end-later t j n xs hs l)
  ]
]

-- outside of a span, until its start
outside-later :
    (t j : ℕ) (x : Span)
    → IsSpan x
    → t < week_minutes
    → in_span t x || in_span (t + week_minutes) x ≡ false
    → j < wait_for t x
    → in_span (later t j) x || in_span (later t j + week_minutes) x ≡ false
outside-later t j x h l i m = ground (arith, i)

in_span-wait :
    (t : ℕ) (x : Span) → IsSpan x → t < week_minutes → in_span (later t (wait_for t x)) x ≡ true
in_span-wait t x h l = ground arith

to_next-lt :
    (t j : ℕ) (x : Span) (xs : List Span)
    → j < to_next t x xs
    → All (λ y. j < wait_for t y) (x ∷ xs)
unfolding to_next
to_next-lt t j x [] l = (l, tt)
to_next-lt t j x (y ∷ ys) l = (ground arith, to_next-lt t j y ys (ground arith))

outside-All :
    (t j : ℕ) (xs : List Span)
    → All IsSpan xs
    → t < week_minutes
    → probed t xs ≡ false
    → All (λ y. j < wait_for t y) xs
    → probed (later t j) xs ≡ false
outside-All t j [] h l p m = refl
outside-All t j (x ∷ xs) (h, hs) l p (m, ms) =
    let (p', ps) = neither (in_span t x || in_span (t + week_minutes) x) (probed t xs) p in
    rw (outside-later t j x h l p' m) (outside-All t j xs hs l ps ms)
  where
    neither : (a b : Bool) → a || b ≡ false → (a ≡ false) × (b ≡ false)
    neither a b h = ground (arith, h)

probed-here : (t : ℕ) (x : Span) (xs : List Span) → in_span t x ≡ true → probed t (x ∷ xs) ≡ true
probed-here t x xs h = rw h refl

probed-there : (t : ℕ) (x : Span) (xs : List Span) → probed t xs ≡ true → probed t (x ∷ xs) ≡ true
probed-there t x xs h = ground (arith, h)

pub to_next-in_span :
    (t : ℕ) (x : Span) (xs : List Span)
    → All IsSpan (x ∷ xs)
    → t < week_minutes
    → probed (later t (to_next t x xs)) (x ∷ xs) ≡ true
unfolding to_next
to_next-in_span t x [] (h, hs) l = probed-here (later t (wait_for t x)) x [] (in_span-wait t x h l)
to_next-in_span t x (y ∷ ys) (h, hs) l = elim (Bool-cases (ltb (to_next t y ys) (wait_for t x))) [
  | inl e ↦
      let pick : to_next t x (y ∷ ys) ≡ to_next t y ys = rw e refl in
      ap (λ n. probed (later t n) (x ∷ y ∷ ys)) pick
      ∙ probed-there (later t (to_next t y ys)) x (y ∷ ys) (to_next-in_span t y ys hs l)
  | inr e ↦
      let pick : to_next t x (y ∷ ys) ≡ wait_for t x = rw e refl in
      ap (λ n. probed (later t n) (x ∷ y ∷ ys)) pick
      ∙ probed-here (later t (wait_for t x)) x (y ∷ ys) (in_span-wait t x h l)
]

-- a wait is less than a week
to_next-bound : (t : ℕ) (x : Span) (xs : List Span) → to_next t x xs < week_minutes
unfolding to_next
to_next-bound t x [] = omega arith
to_next-bound t x (y ∷ ys) = ground (arith, to_next-bound t y ys)

-- The verdict at a minute of the week.
abbrev pub verdict_at : ComfortSchedule → ℕ → Option ScheduleState
verdict_at c t = state_at c (t % day_minutes) (t / day_minutes)

abbrev pub minute_of : ℕ → ℕ → ℕ
minute_of weekday minute = weekday * day_minutes + minute % day_minutes

pub verdict_at-probed :
    (c : ComfortSchedule) (t : ℕ)
    → t < week_minutes
    → (s : ScheduleState) × (verdict_at c t ≡ some s)
      × (s.is_comfort ≡ is_empty c.windows || probed t c.intervals)
verdict_at-probed c t l =
    let (s, e, v) = state_at-probed c (t % day_minutes) (t / day_minutes) (omega arith) in
    let same : (t / day_minutes) * day_minutes + (t % day_minutes) % day_minutes ≡ t =
      omega arith in
    (s, e, v ∙ ap (λ z. is_empty c.windows || probed z c.intervals) same)

-- the spans of a schedule
IsWithin-IsSpan : (xs : List Span) → All IsWithin xs → All IsSpan xs
IsWithin-IsSpan [] h = tt
IsWithin-IsSpan (x ∷ xs) (h, hs) = (omega arith, IsWithin-IsSpan xs hs)

wrap_last-All :
    (n : ℕ) (a : Span) (xs : List Span)
    → n ≤ week_minutes
    → IsWithin a
    → All IsWithin xs
    → All IsSpan (wrap_last (week_minutes + n) a xs)
unfolding wrap_last
wrap_last-All n a [] l h hs = (omega arith, tt)
wrap_last-All n a (b ∷ xs) l h (g, gs) = (omega arith, wrap_last-All n b xs l g gs)

pub close_seam-All : (xs : List Span) → All IsWithin xs → All IsSpan (close_seam xs)
unfolding close_seam
close_seam-All [] h = tt
close_seam-All (a ∷ []) h = IsWithin-IsSpan (a ∷ []) h
close_seam-All (a ∷ b ∷ xs) (h, (g, gs)) =
    elim (Bool-cases ((a.s == 0) && ((last_span b xs).e == week_minutes))) [
      | inl c ↦ rw c (wrap_last-All a.e b xs h.1 g gs)
      | inr c ↦ rw c (IsWithin-IsSpan (a ∷ b ∷ xs) (h, (g, gs)))
    ]

pub from_windows-All :
    (ws : List ConfigWindow) (delta : ℤ) → All IsSpan (from_windows ws delta).intervals
unfolding from_windows expand
from_windows-All ws delta =
    let within = spans-IsWithin (raw_spans (normalize ws)) (raw_spans-bounded ws) in
    close_seam-All (merge_all_spans (sort_spans (keep wide (raw_spans (normalize ws))))) within

state_on-next :
    (c : ComfortSchedule) (t n : ℕ) (xs : List Span) (found : Option ℕ)
    → All IsSpan xs
    → t < week_minutes
    → probed t xs ≡ false
    → (state_on c t xs found).is_comfort ≡ false
    → (state_on c t xs found).minutes_to_comfort ≡ some n
    → (n < week_minutes)
      × ((j : ℕ) → j < n → probed (later t j) xs ≡ false)
      × (probed (later t n) xs ≡ true)
unfolding state_on
state_on-next c t n [] found h l p v m = cc
state_on-next c t n (x ∷ xs) (some left) h l p v m = cc
state_on-next c t n (x ∷ xs) none h l p v m =
    let e : n ≡ to_next t x xs = cc (m) in
    (
      rw e (to_next-bound t x xs),
      (λ j i. outside-All t j (x ∷ xs) h l p (to_next-lt t j x xs (omega (arith, e, i)))),
      ap (λ k. probed (later t k) (x ∷ xs)) e ∙ to_next-in_span t x xs h l,
    )

abbrev comfort_of : Option ScheduleState → Bool
comfort_of none = false
comfort_of (some s) = s.is_comfort

-- what the verdict of a setback says of the schedule
state_at-setback :
    (c : ComfortSchedule) (minute weekday : ℕ) (s : ScheduleState)
    → weekday ≤ 6
    → state_at c minute weekday ≡ some s
    → s.is_comfort ≡ false
    → (is_empty c.windows ≡ false)
      × (probed (minute_of weekday minute) c.intervals ≡ false)
      × (s
          ≡ state_on c
              (minute_of weekday minute)
              c.intervals
              (find_end (minute_of weekday minute) c.intervals))
state_at-setback c minute weekday s h e v =
    let t : ℕ = minute_of weekday minute in
    elim (Bool-cases (is_empty c.windows || is_full_week c.intervals)) [
      | inl i ↦
          let on : s.is_comfort ≡ true =
            ap comfort_of (sym e ∙ state_at-always c minute weekday h i) in
          cc (on, v)
      | inr i ↦
          let q : s ≡ state_on c t c.intervals (find_end t c.intervals) =
            cc (sym e ∙ state_at-on c minute weekday h i) in
          (
            ground (arith, i),
            sym (state_on-is_comfort c t c.intervals) ∙ ap (λ z. z.is_comfort) (sym q) ∙ v,
            q,
          )
    ]

-- what the schedule says of a minute, by its spans
pub verdict_is :
    (c : ComfortSchedule) (t : ℕ) (b : Bool)
    → t < week_minutes
    → is_empty c.windows ≡ false
    → probed t c.intervals ≡ b
    → (s : ScheduleState) × (verdict_at c t ≡ some s) × (s.is_comfort ≡ b)
verdict_is c t b l w p = let (s, e, v) = verdict_at-probed c t l in (s, e, v ∙ rw w p)

-- In a setback with a reported time to comfort, that time is less than a week, the schedule stays in
-- setback at every minute before it and is in comfort at that minute.
pub state_at-next_comfort :
    (ws : List ConfigWindow) (delta : ℤ) (minute weekday n : ℕ) (s : ScheduleState)
    → weekday ≤ 6
    → state_at (from_windows ws delta) minute weekday ≡ some s
    → s.is_comfort ≡ false
    → s.minutes_to_comfort ≡ some n
    → (n < week_minutes)
      × ((j : ℕ)
          → j < n
          → (s' : ScheduleState) × (verdict_at
                (from_windows ws delta)
                (later (minute_of weekday minute) j)
              ≡ some s')
            × (s'.is_comfort ≡ false))
      × ((s' : ScheduleState) × (verdict_at
              (from_windows ws delta)
              (later (minute_of weekday minute) n)
            ≡ some s')
          × (s'.is_comfort ≡ true))
state_at-next_comfort ws delta minute weekday n s h e v m =
    let c = from_windows ws delta in
    let t : ℕ = minute_of weekday minute in
    let (w, p, q) = state_at-setback c minute weekday s h e v in
    let (bound, before, then_on) =
      state_on-next c t n c.intervals (find_end t c.intervals) (from_windows-All ws delta)
        (omega arith) p (ap (λ z. z.is_comfort) (sym q) ∙ v)
        (ap (λ z. z.minutes_to_comfort) (sym q) ∙ m) in
    (
      bound,
      (λ j i. verdict_is c (later t j) false (omega arith) w (before j i)),
      verdict_is c (later t n) true (omega arith) w then_on,
    )

pub state_on-steady :
    (c : ComfortSchedule) (t n j : ℕ) (xs : List Span) (found : Option ℕ)
    → All IsSpan xs
    → t < week_minutes
    → find_end t xs ≡ found
    → switchpoint_of (state_on c t xs found) ≡ some n
    → j < n
    → probed (later t j) xs ≡ (state_on c t xs found).is_comfort
unfolding state_on
state_on-steady c t n j [] found h l f e i = cc
state_on-steady c t n j (x ∷ xs) (some left) h l f e i =
    find_end-later t j left (x ∷ xs) h l f (ground (arith, e, i))
state_on-steady c t n j (x ∷ xs) none h l f e i =
    outside-All t j (x ∷ xs) h l (sym (find_end-probed t (x ∷ xs)) ∙ ap is_some f)
      (to_next-lt t j x xs (ground (arith, e, i)))
