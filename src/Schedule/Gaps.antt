-- ===== src/Schedule/Gaps.antt =====
-- The spans of a week lie apart, over the end of the week too (`_expand` of
-- custom_components/poise/comfort/schedule.py), so that the end of a span lies in none.
use poise_thermostat.Base.{
  ℕ, suc, ◌+◌, ◌-◌, ◌*◌, ◌%◌, ◌≤◌, ◌<◌, ◌≡◌, ◌≢◌, refl, inl, inr, false, ◌||◌, some, List, [], ◌∷◌,
  arith, leb, ◌==◌, All, keep, Bool-cases,
}
use poise_thermostat.Schedule.{
  Span, span, week_minutes, wide, sort_spans, merge_spans, merge_all_spans, last_span, wrap_last,
  close_seam, in_span, find_end, is_full_week, max_ℕ,
}
use poise_thermostat.Schedule.Union.{
  probed, IsWithin, SortedFrom, SortedFrom-weaken, sort_spans-SortedFrom, sort_spans-All,
  keep-IsWithin, spans-IsWithin,
}

-- The spans begin at `lo` or later, in order and apart, and end before `hi`.
abbrev pub Gaps : ℕ → ℕ → List Span → Type 0
Gaps lo hi [] = lo ≤ hi
Gaps lo hi (x ∷ xs) = (lo ≤ x.s) × (x.s < x.e) × Gaps (suc x.e) hi xs

-- The last span ends before the first begins again.
abbrev pub AreApart : List Span → Type 0
AreApart [] = Unit
AreApart (x ∷ xs) = Gaps x.s (week_minutes + x.s) (x ∷ xs)

Gaps-le : (lo hi : ℕ) (xs : List Span) → Gaps lo hi xs → lo ≤ hi
Gaps-le lo hi [] g = g
Gaps-le lo hi (x ∷ xs) (a, b, g) = let later = Gaps-le (suc x.e) hi xs g in omega arith

Gaps-from : (lo lo' hi : ℕ) (xs : List Span) → lo' ≤ lo → Gaps lo hi xs → Gaps lo' hi xs
Gaps-from lo lo' hi [] l g = omega arith
Gaps-from lo lo' hi (x ∷ xs) l (a, b, g) = (omega arith, b, g)

Gaps-until : (lo hi hi' : ℕ) (xs : List Span) → hi ≤ hi' → Gaps lo hi xs → Gaps lo hi' xs
Gaps-until lo hi hi' [] l g = omega arith
Gaps-until lo hi hi' (x ∷ xs) l (a, b, g) = (a, b, Gaps-until (suc x.e) hi hi' xs l g)

merge_spans-Gaps :
    (p : Span) (xs : List Span)
    → IsWithin p
    → SortedFrom p.s xs
    → All IsWithin xs
    → Gaps p.s (suc week_minutes) (merge_spans p xs)
unfolding merge_spans
merge_spans-Gaps p [] h s hs = (omega arith, h.0, omega arith)
merge_spans-Gaps p (x ∷ xs) h (s, ss) (g, gs) = elim (Bool-cases (leb x.s p.e)) [
  | inl j ↦
      let w : IsWithin (span p.s (max_ℕ p.e x.e)) = ground arith in
      rw j (merge_spans-Gaps (span p.s (max_ℕ p.e x.e)) xs w (SortedFrom-weaken p.s x.s xs s ss) gs)
  | inr j ↦
      let l : suc p.e ≤ x.s = ground (arith, j) in
      rw j (
        omega arith,
        h.0,
        Gaps-from x.s (suc p.e) (suc week_minutes) (merge_spans x xs) l
            (merge_spans-Gaps x xs g ss gs),
      )
]

abbrev Merged : List Span → Type 0
Merged [] = Unit
Merged (x ∷ xs) = Gaps x.s (suc week_minutes) (x ∷ xs)

Gaps-Merged : (lo : ℕ) (xs : List Span) → Gaps lo (suc week_minutes) xs → Merged xs
Gaps-Merged lo [] g = tt
Gaps-Merged lo (x ∷ xs) (a, b, g) = (omega arith, b, g)

merge_all_spans-Merged :
    (xs : List Span) → SortedFrom 0 xs → All IsWithin xs → Merged (merge_all_spans xs)
unfolding merge_all_spans
merge_all_spans-Merged [] s h = tt
merge_all_spans-Merged (x ∷ xs) (s, ss) (h, hs) =
    Gaps-Merged x.s (merge_spans x xs) (merge_spans-Gaps x xs h ss hs)

-- the last span, prolonged to `e`
wrap_last-Gaps :
    (lo hi hi' e : ℕ) (a : Span) (xs : List Span)
    → week_minutes ≤ e
    → e < hi'
    → All IsWithin (a ∷ xs)
    → Gaps lo hi (a ∷ xs)
    → Gaps lo hi' (wrap_last e a xs)
unfolding wrap_last
wrap_last-Gaps lo hi hi' e a [] l m (h, hs) (f, b, g) = (f, omega arith, m)
wrap_last-Gaps lo hi hi' e a (c ∷ xs) l m (h, hs) (f, b, g) =
    (f, b, wrap_last-Gaps (suc a.e) hi hi' e c xs l m hs g)

-- spans that do not reach the end of the week
Gaps-short :
    (lo : ℕ) (a : Span) (xs : List Span)
    → (last_span a xs).e ≢ week_minutes
    → Gaps lo (suc week_minutes) (a ∷ xs)
    → Gaps lo week_minutes (a ∷ xs)
unfolding last_span
Gaps-short lo a [] n (f, b, g) = (f, b, omega arith)
Gaps-short lo a (c ∷ xs) n (f, b, g) = (f, b, Gaps-short (suc a.e) c xs n g)

wrapped-AreApart :
    (a b : Span) (xs : List Span)
    → All IsWithin (b ∷ xs)
    → Gaps (suc a.e) (suc week_minutes) (b ∷ xs)
    → AreApart (wrap_last (week_minutes + a.e) b xs)
unfolding wrap_last
wrapped-AreApart a b [] (h, hs) (f, l, g) = (omega arith, omega arith, omega arith)
wrapped-AreApart a b (c ∷ xs) (h, hs) (f, l, g) = (
  omega arith,
  l,
  wrap_last-Gaps (suc b.e) (suc week_minutes) (week_minutes + b.s) (week_minutes + a.e) c xs
      (omega arith) (omega arith) hs g,
)

close_seam-AreApart :
    (xs : List Span)
    → All IsWithin xs
    → Merged xs
    → is_full_week (close_seam xs) ≡ false
    → AreApart (close_seam xs)
unfolding close_seam
close_seam-AreApart [] h m n = tt
close_seam-AreApart (a ∷ []) h (f, b, g) n = (omega arith, b, ground (arith, n, g))
close_seam-AreApart (a ∷ b ∷ xs) (h, hs) (f, l, g) n = elim (Bool-cases (a.s == 0)) [
  | inl z ↦ elim (Bool-cases ((last_span b xs).e == week_minutes)) [
    | inl c ↦ rw (z, c) (wrapped-AreApart a b xs hs g)
    | inr c ↦
        let short : (last_span b xs).e ≢ week_minutes = λ e. ground (arith, c, e) in
        rw (z, c)
          (
            omega arith,
            l,
            Gaps-until (suc a.e) week_minutes (week_minutes + a.s) (b ∷ xs) (omega arith)
                (Gaps-short (suc a.e) b xs short g),
          )
  ]
  | inr z ↦ rw z (
    omega arith,
    l,
    Gaps-until (suc a.e) (suc week_minutes) (week_minutes + a.s) (b ∷ xs) (ground (arith, z)) g,
  )
]

-- The spans of a schedule lie apart.
pub spans-AreApart :
    (xs : List Span)
    → All (λ x. x.e ≤ week_minutes) xs
    → is_full_week (close_seam (merge_all_spans (sort_spans (keep wide xs)))) ≡ false
    → AreApart (close_seam (merge_all_spans (sort_spans (keep wide xs))))
spans-AreApart xs h n =
    let sorted = sort_spans (keep wide xs) in
    let within = sort_spans-All (keep wide xs) (keep-IsWithin xs h) in
    close_seam-AreApart (merge_all_spans sorted) (spans-IsWithin xs h)
      (merge_all_spans-Merged sorted (sort_spans-SortedFrom (keep wide xs)) within) n

-- the minute `e` of two weeks lies in no span that ends by it and begins again after it
clear_after :
    (e : ℕ) (x : Span)
    → x.e ≤ e
    → e < week_minutes + x.s
    → e < 2 * week_minutes
    → in_span (e % week_minutes) x || in_span (e % week_minutes + week_minutes) x ≡ false
clear_after e x a b c = ground arith

clear_before :
    (e : ℕ) (x : Span)
    → e < x.s
    → x.s < week_minutes
    → x.e ≤ week_minutes + e
    → in_span (e % week_minutes) x || in_span (e % week_minutes + week_minutes) x ≡ false
clear_before e x a b c = ground arith

-- A span of the week, the last of which may run on into the next week.
abbrev pub IsSpan : Span → Type 0
IsSpan x = (x.s < week_minutes) × (x.s < x.e) × (x.e ≤ 2 * week_minutes)

probed-before :
    (e lo hi : ℕ) (xs : List Span)
    → All IsSpan xs
    → Gaps lo hi xs
    → e < lo
    → hi ≤ week_minutes + e
    → probed (e % week_minutes) xs ≡ false
probed-before e lo hi [] h g l m = refl
probed-before e lo hi (x ∷ xs) (h, hs) (f, b, g) l m =
    let later = Gaps-le (suc x.e) hi xs g in
    rw (clear_before e x (omega arith) h.0 (omega arith))
      (probed-before e (suc x.e) hi xs hs g (omega arith) m)

-- The end that the loop finds, as a minute of two weeks, lies in no span.
pub find_end-clear :
    (t n lo hi : ℕ) (xs : List Span)
    → All IsSpan xs
    → Gaps lo hi xs
    → hi ≤ week_minutes + lo
    → t < week_minutes
    → find_end t xs ≡ some n
    → (e : ℕ) × ((t + n) % week_minutes ≡ e % week_minutes)
      × (lo ≤ e)
      × (e < hi)
      × (probed (e % week_minutes) xs ≡ false)
unfolding find_end
find_end-clear t n lo hi [] h g m l f = cc
find_end-clear t n lo hi (x ∷ xs) (h, hs) (a, b, g) m l f =
    let later = Gaps-le (suc x.e) hi xs g in
    let here : probed (x.e % week_minutes) (x ∷ xs) ≡ false =
      rw (clear_after x.e x (omega arith) (omega arith) (omega arith))
        (probed-before x.e (suc x.e) hi xs hs g (omega arith) (omega arith)) in
    elim (Bool-cases (in_span t x)) [
      | inl i ↦
          let k : n ≡ x.e - t = ground (arith, f, i) in
          (x.e, ground (arith, i, k), omega arith, later, here)
      | inr i ↦ elim (Bool-cases (in_span (t + week_minutes) x)) [
        | inl i' ↦
            let k : n ≡ x.e - (t + week_minutes) = ground (arith, f, i, i') in
            (x.e, ground (arith, i', k), omega arith, later, here)
        | inr i' ↦
            let rest : find_end t xs ≡ some n = ground (arith, f, i, i') in
            let (e, same, from, until, clear) =
              find_end-clear t n (suc x.e) hi xs hs g (omega arith) l rest in
            (
              e,
              same,
              omega arith,
              until,
              rw (clear_after e x (omega arith) (omega arith) (omega arith)) clear,
            )
      ]
    ]
