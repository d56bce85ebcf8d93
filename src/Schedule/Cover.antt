-- ===== src/Schedule/Cover.antt =====
-- The verdict of the schedule (`state_at` of custom_components/poise/comfort/schedule.py) against the
-- configured windows, each read on its own.
use poise_thermostat.Base.{
  ℕ, ◌+◌, ◌*◌, ◌≤◌, ◌<◌, ◌≡◌, refl, ap, ◌∙◌, inl, inr, Bool, true, ◌&&◌, ◌||◌, List, [], ◌∷◌, arith,
  ltb, leb, ◌==◌, keep, any_of, All, Bool-cases,
}
use poise_thermostat.Schedule.{
  ConfigWindow, ComfortWindow, day_minutes, week_minutes, max_ℕ, clamp_window, overnight, daily,
  clean_windows, insert_window, sort_windows, joins, merge_windows, merge_all_windows, normalize,
  pieces, week, raw_spans, expand,
}
use poise_thermostat.Schedule.Union.{member, probed, any_of-append, probed-spans}
use poise_thermostat.Schedule.Daily.{IsDaily, covers, member-pieces-week, All-append, pieces-All}

abbrev pub covered : List ComfortWindow → ℕ → ℕ → Bool
covered ws k m = any_of (λ w. covers w k m) ws

clamp_window-IsDaily : (w : ConfigWindow) → IsDaily (clamp_window w)
unfolding clamp_window
clamp_window-IsDaily w = ground arith

clean_windows-All : (ws : List ConfigWindow) → All IsDaily (clean_windows ws)
unfolding clean_windows
clean_windows-All [] = tt
clean_windows-All (w ∷ ws) =
    elim (Bool-cases ((clamp_window w).end_min == (clamp_window w).start_min)) [
      | inl e ↦ rw e (clean_windows-All ws)
      | inr e ↦ rw e (clamp_window-IsDaily w, clean_windows-All ws)
    ]

-- a window that is not empty is one of the two kinds
covered-kinds :
    (ws : List ComfortWindow) (k m : ℕ)
    → covered (keep daily ws) k m || covered (keep overnight ws) k m ≡ covered ws k m
covered-kinds [] k m = refl
covered-kinds (w ∷ ws) k m = ground (arith, covered-kinds ws k m)

-- windows in the order of their starts
abbrev InOrder : ℕ → List ComfortWindow → Type 0
InOrder n [] = Unit
InOrder n (w ∷ ws) = (n ≤ w.start_min) × InOrder w.start_min ws

insert_window-covered :
    (w : ComfortWindow) (ws : List ComfortWindow) (k m : ℕ)
    → covered (insert_window w ws) k m ≡ covers w k m || covered ws k m
unfolding insert_window
insert_window-covered w [] k m = refl
insert_window-covered w (x ∷ xs) k m = elim (Bool-cases (leb w.start_min x.start_min)) [
  | inl e ↦ rw e refl
  | inr e ↦
      rw (e, insert_window-covered w xs k m)
        (or_swap (covers x k m) (covers w k m) (covered xs k m))
]
  where
    or_swap : (a b c : Bool) → a || (b || c) ≡ b || (a || c)
    or_swap a b c = ground arith

sort_windows-covered :
    (ws : List ComfortWindow) (k m : ℕ) → covered (sort_windows ws) k m ≡ covered ws k m
unfolding sort_windows
sort_windows-covered [] k m = refl
sort_windows-covered (w ∷ ws) k m =
    insert_window-covered w (sort_windows ws) k m
    ∙ ap (λ z. covers w k m || z) (sort_windows-covered ws k m)

abbrev Daily : ComfortWindow → Type 0
Daily w = IsDaily w × (daily w ≡ true)

insert_window-InOrder :
    (n : ℕ) (w : ComfortWindow) (ws : List ComfortWindow)
    → n ≤ w.start_min
    → InOrder n ws
    → InOrder n (insert_window w ws)
unfolding insert_window
insert_window-InOrder n w [] h hs = (h, tt)
insert_window-InOrder n w (x ∷ xs) h (g, gs) = elim (Bool-cases (leb w.start_min x.start_min)) [
  | inl e ↦ rw e (h, (ground (arith, e), gs))
  | inr e ↦ rw e (g, insert_window-InOrder x.start_min w xs (ground (arith, e)) gs)
]

sort_windows-InOrder : (ws : List ComfortWindow) → InOrder 0 (sort_windows ws)
unfolding sort_windows
sort_windows-InOrder [] = tt
sort_windows-InOrder (w ∷ ws) =
    insert_window-InOrder 0 w (sort_windows ws) (omega arith) (sort_windows-InOrder ws)

insert_window-All :
    (w : ComfortWindow) (ws : List ComfortWindow)
    → Daily w
    → All Daily ws
    → All Daily (insert_window w ws)
unfolding insert_window
insert_window-All w [] h hs = (h, tt)
insert_window-All w (x ∷ xs) h (g, gs) = elim (Bool-cases (leb w.start_min x.start_min)) [
  | inl e ↦ rw e (h, (g, gs))
  | inr e ↦ rw e (g, insert_window-All w xs h gs)
]

sort_windows-All : (ws : List ComfortWindow) → All Daily ws → All Daily (sort_windows ws)
unfolding sort_windows
sort_windows-All [] h = tt
sort_windows-All (w ∷ ws) (h, hs) = insert_window-All w (sort_windows ws) h (sort_windows-All ws hs)

keep-Daily : (ws : List ComfortWindow) → All IsDaily ws → All Daily (keep daily ws)
keep-Daily [] h = tt
keep-Daily (w ∷ ws) (h, hs) = elim (Bool-cases (daily w)) [
  | inl e ↦ rw e ((h, e), keep-Daily ws hs)
  | inr e ↦ rw e (keep-Daily ws hs)
]

-- two windows of a day that meet on the same days
abbrev joined : ComfortWindow → ComfortWindow → ComfortWindow
joined p w = record { start_min = p.start_min; end_min = max_ℕ p.end_min w.end_min; days = p.days }

covers-joined :
    (p w : ComfortWindow) (k m : ℕ)
    → Daily p
    → Daily w
    → p.start_min ≤ w.start_min
    → joins p w ≡ true
    → (covers (joined p w) k m ≡ covers p k m || covers w k m) × Daily (joined p w)
covers-joined p w k m h g l j = ground (arith, j)

InOrder-weaken : (m n : ℕ) (ws : List ComfortWindow) → m ≤ n → InOrder n ws → InOrder m ws
InOrder-weaken m n [] h hs = tt
InOrder-weaken m n (w ∷ ws) h (g, gs) = (omega arith, gs)

or_regroup : (a b c : Bool) → (a || b) || c ≡ a || (b || c)
or_regroup a b c = ground arith

merge_windows-covered :
    (p : ComfortWindow) (ws : List ComfortWindow) (k m : ℕ)
    → Daily p
    → All Daily ws
    → InOrder p.start_min ws
    → covered (merge_windows p ws) k m ≡ covers p k m || covered ws k m
unfolding merge_windows
merge_windows-covered p [] k m d ds o = refl
merge_windows-covered p (w ∷ ws) k m d (e, es) (o, os) = elim (Bool-cases (joins p w)) [
  | inl j ↦
      let meet = covers-joined p w k m d e o j in
      let ih =
        merge_windows-covered (joined p w) ws k m meet.1 es
          (InOrder-weaken p.start_min w.start_min ws o os) in
      rw j (
        ih
        ∙ ap (λ z. z || covered ws k m) meet.0
        ∙ or_regroup (covers p k m) (covers w k m) (covered ws k m))
  | inr j ↦ rw j (ap (λ z. covers p k m || z) (merge_windows-covered w ws k m e es os))
]

merge_windows-All :
    (p : ComfortWindow) (ws : List ComfortWindow)
    → IsDaily p
    → All IsDaily ws
    → All IsDaily (merge_windows p ws)
unfolding merge_windows
merge_windows-All p [] d ds = (d, tt)
merge_windows-All p (w ∷ ws) d (e, es) = elim (Bool-cases (joins p w)) [
  | inl j ↦
      let d' : IsDaily (joined p w) = ground (arith, d, e) in
      rw j (merge_windows-All (joined p w) ws d' es)
  | inr j ↦ rw j (d, merge_windows-All w ws e es)
]

merge_all_windows-covered :
    (ws : List ComfortWindow) (k m : ℕ)
    → All Daily ws
    → InOrder 0 ws
    → covered (merge_all_windows ws) k m ≡ covered ws k m
unfolding merge_all_windows
merge_all_windows-covered [] k m d o = refl
merge_all_windows-covered (w ∷ ws) k m (d, ds) (o, os) = merge_windows-covered w ws k m d ds os

All-Daily : (ws : List ComfortWindow) → All Daily ws → All IsDaily ws
All-Daily [] h = tt
All-Daily (w ∷ ws) (h, hs) = (h.0, All-Daily ws hs)

merge_all_windows-All :
    (ws : List ComfortWindow) → All IsDaily ws → All IsDaily (merge_all_windows ws)
unfolding merge_all_windows
merge_all_windows-All [] d = tt
merge_all_windows-All (w ∷ ws) (d, ds) = merge_windows-All w ws d ds

keep-IsDaily :
    (p : ComfortWindow → Bool) (ws : List ComfortWindow) → All IsDaily ws → All IsDaily (keep p ws)
keep-IsDaily p [] h = tt
keep-IsDaily p (w ∷ ws) (h, hs) = elim (Bool-cases (p w)) [
  | inl e ↦ rw e (h, keep-IsDaily p ws hs)
  | inr e ↦ rw e (keep-IsDaily p ws hs)
]

-- the normal form covers the same minutes
pub normalize-covered :
    (ws : List ConfigWindow) (k m : ℕ)
    → (covered (normalize ws) k m ≡ covered (clean_windows ws) k m) × All IsDaily (normalize ws)
unfolding normalize
normalize-covered ws k m =
    let clean = clean_windows-All ws in
    let days = keep-Daily (clean_windows ws) clean in
    let sorted = sort_windows-All (keep daily (clean_windows ws)) days in
    let same =
      merge_all_windows-covered (sort_windows (keep daily (clean_windows ws))) k m sorted
        (sort_windows-InOrder (keep daily (clean_windows ws))) in
    let all =
      merge_all_windows-All (sort_windows (keep daily (clean_windows ws)))
        (All-Daily (sort_windows (keep daily (clean_windows ws))) sorted) in
    (
      any_of-append (λ w. covers w k m)
            (merge_all_windows (sort_windows (keep daily (clean_windows ws))))
            (keep overnight (clean_windows ws))
          ∙ ap (λ z. z || covered (keep overnight (clean_windows ws)) k m)
              (same ∙ sort_windows-covered (keep daily (clean_windows ws)) k m)
          ∙ covered-kinds (clean_windows ws) k m,
      All-append IsDaily (merge_all_windows (sort_windows (keep daily (clean_windows ws))))
          (keep overnight (clean_windows ws)) all (keep-IsDaily overnight (clean_windows ws) clean),
    )

-- an empty window covers nothing
pub clean_windows-covered :
    (ws : List ConfigWindow) (k m : ℕ)
    → covered (clean_windows ws) k m ≡ any_of (λ w. covers (clamp_window w) k m) ws
unfolding clean_windows
clean_windows-covered [] k m = refl
clean_windows-covered (w ∷ ws) k m =
    elim (Bool-cases ((clamp_window w).end_min == (clamp_window w).start_min)) [
      | inl e ↦ rw e (ground (arith, e, clean_windows-covered ws k m))
      | inr e ↦ rw e (ap (λ z. covers (clamp_window w) k m || z) (clean_windows-covered ws k m))
    ]

member-raw_spans :
    (ws : List ComfortWindow) (k m : ℕ)
    → All IsDaily ws
    → k ≤ 6
    → m < day_minutes
    → (member (k * day_minutes + m) (raw_spans ws) ≡ covered ws k m)
      × All (λ x. x.e ≤ week_minutes) (raw_spans ws)
unfolding raw_spans
member-raw_spans [] k m h a b = (refl, tt)
member-raw_spans (w ∷ ws) k m (h, hs) a b =
    let (ih, all) = member-raw_spans ws k m hs a b in
    (
      any_of-append (λ x. leb x.s (k * day_minutes + m) && ltb (k * day_minutes + m) x.e)
            (pieces w week) (raw_spans ws)
          ∙ ap (λ z. z || member (k * day_minutes + m) (raw_spans ws))
              (member-pieces-week w k m h a b)
          ∙ ap (λ z. covers w k m || z) ih,
      All-append (λ x. x.e ≤ week_minutes) (pieces w week) (raw_spans ws)
          (pieces-All w week h (omega arith)) all,
    )

-- The spans of the week hold exactly the minutes that a window covers.
pub probed-expand :
    (ws : List ComfortWindow) (k m : ℕ)
    → All IsDaily ws
    → k ≤ 6
    → m < day_minutes
    → probed (k * day_minutes + m) (expand ws) ≡ covered ws k m
unfolding expand
probed-expand ws k m h a b =
    let (same, all) = member-raw_spans ws k m h a b in
    probed-spans (k * day_minutes + m) (raw_spans ws) all (omega arith) ∙ same

pub raw_spans-bounded :
    (ws : List ConfigWindow) → All (λ x. x.e ≤ week_minutes) (raw_spans (normalize ws))
raw_spans-bounded ws =
    let (same, all) = normalize-covered ws 0 0 in
    (member-raw_spans (normalize ws) 0 0 all (omega arith) (omega arith)).1
