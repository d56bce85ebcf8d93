-- ===== src/Schedule/Turn.antt =====
-- What the schedule does at the switchpoint that it reports (`minutes_to_switchpoint` of
-- custom_components/poise/control/override_runtime.py over comfort/schedule.py).
use poise_thermostat.Base.{
  ℕ, ◌+◌, ◌≤◌, ◌<◌, ◌≡◌, refl, sym, ap, ◌∙◌, inl, inr, Bool, true, false, not, ◌||◌, Option, none,
  some, List, [], ◌∷◌, arith, All, Bool-cases, is_some,
}
use mathlib.Core.Option as Option
use poise_thermostat.Base.Int.{ℤ}
use poise_thermostat.Schedule.{
  ConfigWindow, from_windows, expand, raw_spans, normalize, Span, week_minutes, find_end,
  switchpoint_of, minutes_to_switchpoint, always, state_on, is_full_week, to_next, ComfortSchedule,
  ScheduleState, state_at, is_empty,
}
use poise_thermostat.Schedule.Union.{probed, find_end-probed}
use poise_thermostat.Schedule.Cover.{raw_spans-bounded}
use poise_thermostat.Schedule.Verdict.{
  full_week-probed, state_on-is_comfort, state_at-always, state_at-on,
}
use poise_thermostat.Schedule.Gaps.{IsSpan, AreApart, spans-AreApart, find_end-clear}
use poise_thermostat.Schedule.Switch.{
  later, verdict_at, verdict_at-probed, minute_of, to_next-in_span, from_windows-All, verdict_is,
  state_on-steady,
}

from_windows-AreApart :
    (ws : List ConfigWindow) (delta : ℤ)
    → is_full_week (from_windows ws delta).intervals ≡ false
    → AreApart (from_windows ws delta).intervals
unfolding from_windows expand
from_windows-AreApart ws delta n =
    spans-AreApart (raw_spans (normalize ws)) (raw_spans-bounded ws) n

-- the end of the span that holds a minute lies in none
find_end-off :
    (t n : ℕ) (xs : List Span)
    → All IsSpan xs
    → AreApart xs
    → t < week_minutes
    → find_end t xs ≡ some n
    → probed (later t n) xs ≡ false
unfolding find_end
find_end-off t n [] h g l f = cc
find_end-off t n (x ∷ xs) h g l f =
    let (e, same, _, _, clear) =
      find_end-clear t n x.s (week_minutes + x.s) (x ∷ xs) h g (omega arith) l f in
    ap (λ m. probed m (x ∷ xs)) same ∙ clear

state_on-turns :
    (c : ComfortSchedule) (t n : ℕ) (xs : List Span) (found : Option ℕ)
    → All IsSpan xs
    → AreApart xs
    → t < week_minutes
    → find_end t xs ≡ found
    → switchpoint_of (state_on c t xs found) ≡ some n
    → (0 < n) × (probed (later t n) xs ≡ not (state_on c t xs found).is_comfort)
unfolding state_on
state_on-turns c t n [] found h g l f e = cc
state_on-turns c t n (x ∷ xs) (some left) h g l f e =
    let k : n ≡ left = ground (arith, e) in
    (ground (arith, e), find_end-off t n (x ∷ xs) h g l (f ∙ ap (λ m. some m) (sym k)))
state_on-turns c t n (x ∷ xs) none h g l f e =
    let k : n ≡ to_next t x xs = ground (arith, e) in
    (ground (arith, e), ap (λ m. probed (later t m) (x ∷ xs)) k ∙ to_next-in_span t x xs h l)

-- A switchpoint is missing only where there are no spans.
state_on-none :
    (c : ComfortSchedule) (t : ℕ) (xs : List Span) (found : Option ℕ)
    → All IsSpan xs
    → AreApart xs
    → t < week_minutes
    → find_end t xs ≡ found
    → switchpoint_of (state_on c t xs found) ≡ none
    → xs ≡ []
unfolding state_on
state_on-none c t [] found h g l f e = refl
state_on-none c t (x ∷ xs) (some left) h g l f e =
    let k : left ≡ 0 = ground (arith, e) in
    let off = find_end-off t left (x ∷ xs) h g l f in
    let on = sym (find_end-probed t (x ∷ xs)) ∙ ap is_some f in
    let same : later t left ≡ t = omega (arith, k, l) in
    cc (ap (λ m. probed m (x ∷ xs)) same, off, on)
state_on-none c t (x ∷ xs) none h g l f e =
    let k : to_next t x xs ≡ 0 = ground (arith, e) in
    let on = to_next-in_span t x xs h l in
    let off = sym (find_end-probed t (x ∷ xs)) ∙ ap is_some f in
    let same : later t (to_next t x xs) ≡ t = omega (arith, k, l) in
    cc (ap (λ m. probed m (x ∷ xs)) same, off, on)

-- the verdict at a minute of the week
abbrev pub Says : ComfortSchedule → ℕ → Bool → Type 0
Says c m b = (s : ScheduleState) × (verdict_at c m ≡ some s) × (s.is_comfort ≡ b)

-- What the switchpoint says of a schedule whose verdict at minute `t` of the week is `b`: nothing ever
-- changes, or nothing changes before it and the verdict is the other one at it.
abbrev pub IsSwitchpoint : ComfortSchedule → ℕ → Bool → Option ℕ → Type 0
IsSwitchpoint c t b none = (m : ℕ) → m < week_minutes → Says c m b
IsSwitchpoint c t b (some n) =
    (0 < n) × ((j : ℕ) → j < n → Says c (later t j) b) × Says c (later t n) (not b)

module _ (ws : List ConfigWindow) (delta : ℤ) where
  abbrev c : ComfortSchedule
  c = from_windows ws delta

  constant :
      (m : ℕ)
      → is_empty c.windows || is_full_week c.intervals ≡ true
      → m < week_minutes
      → Says c m true
  constant m w l =
      let (s, e, v) = verdict_at-probed c m l in
      (
        s,
        e,
        v ∙ elim (Bool-cases (is_empty c.windows)) [
          | inl i ↦ rw i refl
          | inr i ↦ ground (arith, full_week-probed m c.intervals l (ground (arith, w, i)))
        ],
      )

  -- the switchpoint of the spans
  state_on-IsSwitchpoint :
      (t : ℕ) (r : Option ℕ)
      → t < week_minutes
      → is_empty c.windows || is_full_week c.intervals ≡ false
      → let s = state_on c t c.intervals (find_end t c.intervals) in
        switchpoint_of s ≡ r → IsSwitchpoint c t s.is_comfort r
  state_on-IsSwitchpoint t none l w e =
      let none_at =
        state_on-none c t c.intervals (find_end t c.intervals) (from_windows-All ws delta)
          (from_windows-AreApart ws delta (ground (arith, w))) l refl e in
      λ m i.
        verdict_is c m (state_on c t c.intervals (find_end t c.intervals)).is_comfort i
          (ground (arith, w))
          (ap (λ xs. probed m xs) none_at
            ∙ sym (ap (λ xs. probed t xs) none_at)
            ∙ sym (state_on-is_comfort c t c.intervals))
  state_on-IsSwitchpoint t (some n) l w e =
      let found = find_end t c.intervals in
      let spans = from_windows-All ws delta in
      let filled : is_empty c.windows ≡ false = ground (arith, w) in
      let (ahead, turned) =
        state_on-turns c t n c.intervals found spans
          (from_windows-AreApart ws delta (ground (arith, w))) l refl e in
      (
        ahead,
        (λ j i.
            verdict_is c (later t j) (state_on c t c.intervals found).is_comfort (omega arith)
              filled (state_on-steady c t n j c.intervals found spans l refl e i)),
        verdict_is c (later t n) (not (state_on c t c.intervals found).is_comfort) (omega arith)
            filled turned,
      )

  -- At every minute of every weekday the schedule gives a verdict and its query for the next
  -- switchpoint an answer: with a switchpoint the verdict stays what it is at every minute before
  -- it, over the end of the week too, and is the other one at it, which lies ahead; without one the
  -- verdict is the same at every minute of the week.
  pub minutes_to_switchpoint-turns :
      (minute weekday : ℕ)
      → weekday ≤ 6
      → (s : ScheduleState) × (r : Option ℕ) × (state_at (from_windows ws delta) minute weekday
          ≡ some s)
        × (minutes_to_switchpoint (from_windows ws delta) (weekday, minute) ≡ some r)
        × IsSwitchpoint (from_windows ws delta) (minute_of weekday minute) s.is_comfort r
  unfolding minutes_to_switchpoint
  minutes_to_switchpoint-turns minute weekday h =
      elim (Bool-cases (is_empty c.windows || is_full_week c.intervals)) [
        | inl w ↦
            let e = state_at-always c minute weekday h w in
            (always, none, e, ap (Option.map switchpoint_of) e, λ m i. constant m w i)
        | inr w ↦
            let t : ℕ = minute_of weekday minute in
            let s = state_on c t c.intervals (find_end t c.intervals) in
            let e = state_at-on c minute weekday h w in
            (
              s,
              switchpoint_of s,
              e,
              ap (Option.map switchpoint_of) e,
              state_on-IsSwitchpoint t (switchpoint_of s) (omega arith) w refl,
            )
      ]
