-- ===== src/Schedule.antt =====
-- The comfort schedule (custom_components/poise/comfort/schedule.py): configured windows, their
-- normal form, the union of their spans on the axis of the week, and the verdict for one minute.
-- Minutes are natural numbers; only the configured ones may be negative.
pub mod Union
pub mod Daily
pub mod Cover
pub mod Verdict
pub mod Gaps
pub mod Switch
pub mod Turn
use poise_thermostat.Base.{
  ℕ, zero, suc, ◌+◌, ◌-◌, ◌*◌, ◌/◌, ◌%◌, Bool, true, false, not, ◌&&◌, ◌||◌, Option, none, some,
  List, [], ◌∷◌, ◌++◌, if◌then◌else◌, ltb, leb, ◌==◌, keep,
}
use mathlib.Core.Option as Option
use poise_thermostat.Base.Int.{ℤ, pos, pos_part, max_ℤ, min_ℤ, neg_ℤ}

abbrev pub day_minutes : ℕ
day_minutes = 1440

abbrev pub week_minutes : ℕ
week_minutes = 10080

-- `ALL_DAYS + 1`
abbrev pub day_masks : ℕ
day_masks = 128

-- A window as configured, and one within a day.
pub record ConfigWindow : Type 0 where
  pub start_min : ℤ
  pub end_min : ℤ
  pub days : ℕ

pub record ComfortWindow : Type 0 where
  pub start_min : ℕ
  pub end_min : ℕ
  pub days : ℕ

abbrev clamp_day : ℤ → ℕ
clamp_day v = pos_part (max_ℤ (pos 0) (min_ℤ v (pos day_minutes)))

unfoldable pub clamp_window : ConfigWindow → ComfortWindow
unfolding max_ℤ min_ℤ
clamp_window w = record {
  start_min = clamp_day w.start_min;
  end_min = clamp_day w.end_min;
  days = w.days % day_masks;
}

abbrev pub overnight : ComfortWindow → Bool
overnight w = ltb w.end_min w.start_min

abbrev pub daily : ComfortWindow → Bool
daily w = ltb w.start_min w.end_min

-- `clean`: the empty windows are dropped
unfoldable pub clean_windows : List ConfigWindow → List ComfortWindow
unfolding clamp_window
clean_windows [] = []
clean_windows (w ∷ ws) =
    if (clamp_window w).end_min == (clamp_window w).start_min
    then clean_windows ws
    else clamp_window w ∷ clean_windows ws

-- `sorted(…, key=lambda w: w.start_min)`
unfoldable pub insert_window : ComfortWindow → List ComfortWindow → List ComfortWindow
insert_window w [] = w ∷ []
insert_window w (x ∷ xs) =
    if leb w.start_min x.start_min then w ∷ x ∷ xs else x ∷ insert_window w xs

unfoldable pub sort_windows : List ComfortWindow → List ComfortWindow
unfolding insert_window
sort_windows [] = []
sort_windows (w ∷ ws) = insert_window w (sort_windows ws)

abbrev pub max_ℕ : ℕ → ℕ → ℕ
max_ℕ a b = if ltb a b then b else a

abbrev pub joins : ComfortWindow → ComfortWindow → Bool
joins p w = (w.days == p.days) && leb w.start_min p.end_min

-- `merged`, from its last window
unfoldable pub merge_windows : ComfortWindow → List ComfortWindow → List ComfortWindow
merge_windows p [] = p ∷ []
merge_windows p (w ∷ ws) =
    let joined =
      merge_windows
        (record { start_min = p.start_min; end_min = max_ℕ p.end_min w.end_min; days = p.days })
        ws in
    let apart = merge_windows w ws in if joins p w then joined else p ∷ apart

unfoldable pub merge_all_windows : List ComfortWindow → List ComfortWindow
unfolding merge_windows
merge_all_windows [] = []
merge_all_windows (w ∷ ws) = merge_windows w ws

unfoldable pub normalize : List ConfigWindow → List ComfortWindow
unfolding clean_windows sort_windows merge_all_windows
normalize ws =
    merge_all_windows (sort_windows (keep daily (clean_windows ws)))
    ++ keep overnight (clean_windows ws)

-- A half-open interval [s, e) of minutes of the week.
pub record Span : Type 0 where
  pub s : ℕ
  pub e : ℕ

abbrev pub span : ℕ → ℕ → Span
span s e = record { s = s; e = e }

-- 2 ^ d
abbrev pub mask_of : ℕ → ℕ
mask_of zero = 1
mask_of (suc d) = 2 * mask_of d

-- `w.days & (1 << d)`
unfoldable pub on_day : ℕ → ℕ → Bool
on_day days d = ((days / mask_of d) % 2) == 1

abbrev pub span_end : ComfortWindow → ℕ → ℕ
span_end w d = (d + (if overnight w then 1 else 0)) * day_minutes + w.end_min

unfoldable pub pieces_on : ComfortWindow → ℕ → List Span
pieces_on w d =
    if ltb week_minutes (span_end w d)
    then span (d * day_minutes + w.start_min) week_minutes
      ∷ span 0 (span_end w d - week_minutes)
      ∷ []
    else span (d * day_minutes + w.start_min) (span_end w d) ∷ []

-- `for d in range(7)`
unfoldable pub pieces : ComfortWindow → List ℕ → List Span
unfolding pieces_on on_day
pieces w [] = []
pieces w (d ∷ ds) = (if on_day w.days d then pieces_on w d else []) ++ pieces w ds

abbrev pub week : List ℕ
week = 0 ∷ 1 ∷ 2 ∷ 3 ∷ 4 ∷ 5 ∷ 6 ∷ []

unfoldable pub raw_spans : List ComfortWindow → List Span
unfolding pieces
raw_spans [] = []
raw_spans (w ∷ ws) = pieces w week ++ raw_spans ws

abbrev pub wide : Span → Bool
wide x = ltb x.s x.e

-- `raw.sort()`: the order of pairs
abbrev pub span_le : Span → Span → Bool
span_le a b = ltb a.s b.s || ((a.s == b.s) && leb a.e b.e)

unfoldable pub insert_span : Span → List Span → List Span
insert_span x [] = x ∷ []
insert_span x (y ∷ ys) = if span_le x y then x ∷ y ∷ ys else y ∷ insert_span x ys

unfoldable pub sort_spans : List Span → List Span
unfolding insert_span
sort_spans [] = []
sort_spans (x ∷ xs) = insert_span x (sort_spans xs)

unfoldable pub merge_spans : Span → List Span → List Span
merge_spans p [] = p ∷ []
merge_spans p (x ∷ xs) =
    let joined = merge_spans (span p.s (max_ℕ p.e x.e)) xs in
    let apart = merge_spans x xs in if leb x.s p.e then joined else p ∷ apart

unfoldable pub merge_all_spans : List Span → List Span
unfolding merge_spans
merge_all_spans [] = []
merge_all_spans (x ∷ xs) = merge_spans x xs

-- `merged[-1]`, and `[*merged[1:-1], wrap]` from the second span on
unfoldable pub last_span : Span → List Span → Span
last_span a [] = a
last_span a (b ∷ xs) = last_span b xs

unfoldable pub wrap_last : ℕ → Span → List Span → List Span
wrap_last e a [] = span a.s e ∷ []
wrap_last e a (b ∷ xs) = a ∷ wrap_last e b xs

unfoldable pub close_seam : List Span → List Span
unfolding last_span wrap_last
close_seam [] = []
close_seam (a ∷ []) = a ∷ []
close_seam (a ∷ b ∷ xs) =
    if (a.s == 0) && ((last_span b xs).e == week_minutes)
    then wrap_last (week_minutes + a.e) b xs
    else a ∷ b ∷ xs

unfoldable pub expand : List ComfortWindow → List Span
unfolding raw_spans sort_spans merge_all_spans close_seam
expand ws = close_seam (merge_all_spans (sort_spans (keep wide (raw_spans ws))))

pub record ComfortSchedule : Type 0 where
  pub windows : List ComfortWindow
  pub setback_delta : ℤ
  pub intervals : List Span

unfoldable pub from_windows : List ConfigWindow → ℤ → ComfortSchedule
unfolding normalize expand
from_windows ws delta = record {
  windows = normalize ws;
  setback_delta = delta;
  intervals = expand (normalize ws);
}

unfoldable pub always_comfort : ComfortSchedule
unfolding expand
always_comfort = record { windows = []; setback_delta = pos 0; intervals = expand [] }

pub record ScheduleState : Type 0 where
  pub is_comfort : Bool
  pub minutes_to_comfort : Option ℕ
  pub setback_offset : ℤ
  pub minutes_to_setback : Option ℕ

abbrev pub in_span : ℕ → Span → Bool
in_span t x = leb x.s t && ltb t x.e

-- the loop over the spans and the two probes: the minutes to the end of the span that holds `wm`
unfoldable pub find_end : ℕ → List Span → Option ℕ
find_end wm [] = none
find_end wm (x ∷ xs) =
    if in_span wm x
    then some (x.e - wm)
    else if in_span (wm + week_minutes) x
    then some (x.e - (wm + week_minutes))
    else find_end wm xs

-- `(start - wm) % WEEK_MINUTES`, for a minute of the week
abbrev pub wait_for : ℕ → Span → ℕ
wait_for wm x = (x.s + week_minutes - wm) % week_minutes

abbrev pub min_ℕ : ℕ → ℕ → ℕ
min_ℕ a b = if ltb b a then b else a

unfoldable pub to_next : ℕ → Span → List Span → ℕ
to_next wm x [] = wait_for wm x
to_next wm x (y ∷ ys) = min_ℕ (wait_for wm x) (to_next wm y ys)

abbrev pub is_full_week : List Span → Bool
is_full_week (x ∷ []) = (x.s == 0) && (x.e == week_minutes)
is_full_week _ = false

abbrev pub always : ScheduleState
always = record {
  is_comfort = true;
  minutes_to_comfort = none;
  setback_offset = pos 0;
  minutes_to_setback = none;
}

abbrev in_comfort : ℕ → ScheduleState
in_comfort left = record {
  is_comfort = true;
  minutes_to_comfort = some 0;
  setback_offset = pos 0;
  minutes_to_setback = some left;
}

unfoldable pub state_on : ComfortSchedule → ℕ → List Span → Option ℕ → ScheduleState
unfolding to_next
state_on c wm [] found = record {
  is_comfort = false;
  minutes_to_comfort = none;
  setback_offset = neg_ℤ c.setback_delta;
  minutes_to_setback = none;
}
state_on c wm (x ∷ xs) (some left) = in_comfort left
state_on c wm (x ∷ xs) none = record {
  is_comfort = false;
  minutes_to_comfort = some (to_next wm x xs);
  setback_offset = neg_ℤ c.setback_delta;
  minutes_to_setback = some 0;
}

abbrev pub is_empty {ℓ} : {A : Type ℓ} → List A → Bool
is_empty [] = true
is_empty _ = false

-- `none` stands for the ValueError
unfoldable pub state_at : ComfortSchedule → ℕ → ℕ → Option ScheduleState
unfolding state_on find_end
state_at c minute weekday =
    if leb weekday 6
    then if is_empty c.windows || is_full_week c.intervals
      then some always
      else some (
          state_on c (weekday * day_minutes + minute % day_minutes) c.intervals
            (find_end (weekday * day_minutes + minute % day_minutes) c.intervals))
    else none

-- `minutes_to_switchpoint` of custom_components/poise/control/override_runtime.py: `cands`
abbrev candidate : Option ℕ → List ℕ
candidate none = []
candidate (some m) = if ltb 0 m then m ∷ [] else []

abbrev least : List ℕ → Option ℕ
least [] = none
least (m ∷ []) = some m
least (m ∷ n ∷ _) = some (min_ℕ m n)

abbrev pub switchpoint_of : ScheduleState → Option ℕ
switchpoint_of s = least (candidate s.minutes_to_setback ++ candidate s.minutes_to_comfort)

-- the outer `none` stands for the ValueError of `state_at`
unfoldable pub minutes_to_switchpoint : ComfortSchedule → ℕ × ℕ → Option (Option ℕ)
unfolding state_at
minutes_to_switchpoint c (weekday, minute) = Option.map switchpoint_of (state_at c minute weekday)
