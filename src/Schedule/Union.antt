-- ===== src/Schedule/Union.antt =====
-- The union of spans (`_expand` of custom_components/poise/comfort/schedule.py): sorting, merging and
-- closing the seam of the week keep what is covered.
use poise_thermostat.Base.{
  ℕ, ◌+◌, ◌≤◌, ◌<◌, ◌≡◌, refl, ◌∙◌, inl, inr, Bool, true, ◌&&◌, ◌||◌, List, [], ◌∷◌, ◌++◌, arith,
  ltb, leb, ◌==◌, keep, any_of, All, Bool-cases, is_some,
}
use poise_thermostat.Schedule.{
  Span, span, week_minutes, max_ℕ, wide, span_le, insert_span, sort_spans, merge_spans,
  merge_all_spans, last_span, wrap_last, close_seam, in_span, find_end,
}

abbrev pub member : ℕ → List Span → Bool
member t xs = any_of (in_span t) xs

-- with both probes of the loop
abbrev pub probed : ℕ → List Span → Bool
probed t xs = any_of (λ x. in_span t x || in_span (t + week_minutes) x) xs

-- A span that is not empty and lies within the week.
abbrev pub IsWithin : Span → Type 0
IsWithin x = (x.s < x.e) × (x.e ≤ week_minutes)

-- sorted, from `n` on
abbrev pub SortedFrom : ℕ → List Span → Type 0
SortedFrom n [] = Unit
SortedFrom n (x ∷ xs) = (n ≤ x.s) × SortedFrom x.s xs

pub any_of-append {ℓ} :
    {A : Type ℓ} (p : A → Bool) (xs ys : List A) → any_of p (xs ++ ys) ≡ any_of p xs || any_of p ys
any_of-append p [] ys = refl
any_of-append p (x ∷ xs) ys = ground (arith, any_of-append p xs ys)

pub member-keep : (t : ℕ) (xs : List Span) → member t (keep wide xs) ≡ member t xs
member-keep t [] = refl
member-keep t (x ∷ xs) = ground (arith, member-keep t xs)

pub keep-IsWithin :
    (xs : List Span) → All (λ x. x.e ≤ week_minutes) xs → All IsWithin (keep wide xs)
keep-IsWithin [] h = tt
keep-IsWithin (x ∷ xs) (h, hs) = elim (Bool-cases (wide x)) [
  | inl w ↦ rw w ((ground (arith, w), h), keep-IsWithin xs hs)
  | inr w ↦ rw w (keep-IsWithin xs hs)
]

member-insert_span :
    (t : ℕ) (x : Span) (xs : List Span) → member t (insert_span x xs) ≡ in_span t x || member t xs
unfolding insert_span
member-insert_span t x [] = refl
member-insert_span t x (y ∷ ys) = ground (arith, member-insert_span t x ys)

pub member-sort_spans : (t : ℕ) (xs : List Span) → member t (sort_spans xs) ≡ member t xs
unfolding sort_spans
member-sort_spans t [] = refl
member-sort_spans t (x ∷ xs) =
    ground (arith, member-insert_span t x (sort_spans xs), member-sort_spans t xs)

insert_span-All :
    (x : Span) (xs : List Span) → IsWithin x → All IsWithin xs → All IsWithin (insert_span x xs)
unfolding insert_span
insert_span-All x [] h hs = (h, tt)
insert_span-All x (y ∷ ys) h (g, gs) = elim (Bool-cases (span_le x y)) [
  | inl e ↦ rw e (h, (g, gs))
  | inr e ↦ rw e (g, insert_span-All x ys h gs)
]

pub sort_spans-All : (xs : List Span) → All IsWithin xs → All IsWithin (sort_spans xs)
unfolding sort_spans
sort_spans-All [] h = tt
sort_spans-All (x ∷ xs) (h, hs) = insert_span-All x (sort_spans xs) h (sort_spans-All xs hs)

insert_span-SortedFrom :
    (n : ℕ) (x : Span) (xs : List Span)
    → n ≤ x.s
    → SortedFrom n xs
    → SortedFrom n (insert_span x xs)
unfolding insert_span
insert_span-SortedFrom n x [] h hs = (h, tt)
insert_span-SortedFrom n x (y ∷ ys) h (g, gs) = elim (Bool-cases (span_le x y)) [
  | inl e ↦ rw e (h, (ground (arith, e), gs))
  | inr e ↦ rw e (g, insert_span-SortedFrom y.s x ys (ground (arith, e)) gs)
]

pub sort_spans-SortedFrom : (xs : List Span) → SortedFrom 0 (sort_spans xs)
unfolding sort_spans
sort_spans-SortedFrom [] = tt
sort_spans-SortedFrom (x ∷ xs) =
    insert_span-SortedFrom 0 x (sort_spans xs) (omega arith) (sort_spans-SortedFrom xs)

pub SortedFrom-weaken : (m n : ℕ) (xs : List Span) → m ≤ n → SortedFrom n xs → SortedFrom m xs
SortedFrom-weaken m n [] h hs = tt
SortedFrom-weaken m n (x ∷ xs) h (g, gs) = (omega arith, gs)

-- two spans that meet
in_span-join :
    (t : ℕ) (p x : Span)
    → p.s ≤ x.s
    → leb x.s p.e ≡ true
    → in_span t (span p.s (max_ℕ p.e x.e)) ≡ in_span t p || in_span t x
in_span-join t p x h j = ground arith

member-merge_spans :
    (t : ℕ) (p : Span) (xs : List Span)
    → SortedFrom p.s xs
    → member t (merge_spans p xs) ≡ in_span t p || member t xs
unfolding merge_spans
member-merge_spans t p [] h = refl
member-merge_spans t p (x ∷ xs) (h, hs) = elim (Bool-cases (leb x.s p.e)) [
  | inl j ↦
      let ih =
        member-merge_spans t (span p.s (max_ℕ p.e x.e)) xs (SortedFrom-weaken p.s x.s xs h hs) in
      rw j (ground (arith, ih, in_span-join t p x h j))
  | inr j ↦ rw j (ground (arith, member-merge_spans t x xs hs))
]

pub member-merge_all_spans :
    (t : ℕ) (xs : List Span) → SortedFrom 0 xs → member t (merge_all_spans xs) ≡ member t xs
unfolding merge_all_spans
member-merge_all_spans t [] h = refl
member-merge_all_spans t (x ∷ xs) (h, hs) = member-merge_spans t x xs hs

merge_spans-All :
    (p : Span) (xs : List Span) → IsWithin p → All IsWithin xs → All IsWithin (merge_spans p xs)
unfolding merge_spans
merge_spans-All p [] h hs = (h, tt)
merge_spans-All p (x ∷ xs) h (g, gs) = elim (Bool-cases (leb x.s p.e)) [
  | inl j ↦
      let w : IsWithin (span p.s (max_ℕ p.e x.e)) = ground arith in
      rw j (merge_spans-All (span p.s (max_ℕ p.e x.e)) xs w gs)
  | inr j ↦ rw j (h, merge_spans-All x xs g gs)
]

pub merge_all_spans-All : (xs : List Span) → All IsWithin xs → All IsWithin (merge_all_spans xs)
unfolding merge_all_spans
merge_all_spans-All [] h = tt
merge_all_spans-All (x ∷ xs) (h, hs) = merge_spans-All x xs h hs

-- A minute of the week lies in a span within the week by the first probe only.
probed-member :
    (t : ℕ) (xs : List Span) → All IsWithin xs → t < week_minutes → probed t xs ≡ member t xs
probed-member t [] h l = refl
probed-member t (x ∷ xs) (h, hs) l = ground (arith, probed-member t xs hs l)

-- the last span of the week, prolonged to `n` minutes into the next
in_span-wrap :
    (t n : ℕ) (x : Span)
    → IsWithin x
    → t < week_minutes
    → x.e ≡ week_minutes
    → (in_span t (span x.s (week_minutes + n))
        || in_span (t + week_minutes) (span x.s (week_minutes + n)))
      ≡ in_span t x || ltb t n
in_span-wrap t n x h l w = ground arith

probed-wrap_last :
    (t n : ℕ) (a : Span) (xs : List Span)
    → IsWithin a
    → All IsWithin xs
    → t < week_minutes
    → (last_span a xs).e ≡ week_minutes
    → probed t (wrap_last (week_minutes + n) a xs) ≡ member t (a ∷ xs) || ltb t n
unfolding last_span wrap_last
probed-wrap_last t n a [] h hs l w = ground (arith, in_span-wrap t n a h l w)
probed-wrap_last t n a (b ∷ xs) h (g, gs) l w = ground (arith, probed-wrap_last t n b xs g gs l w)

-- a span from the start of the week
in_span-head : (t : ℕ) (a : Span) → a.s ≡ 0 → in_span t a ≡ ltb t a.e
in_span-head t a h = ground (arith, h)

probed-close_seam :
    (t : ℕ) (xs : List Span)
    → All IsWithin xs
    → t < week_minutes
    → probed t (close_seam xs) ≡ member t xs
unfolding close_seam
probed-close_seam t [] h l = refl
probed-close_seam t (a ∷ []) h l = probed-member t (a ∷ []) h l
probed-close_seam t (a ∷ b ∷ xs) (h, (g, gs)) l =
    elim (Bool-cases ((a.s == 0) && ((last_span b xs).e == week_minutes))) [
      | inl c ↦
          let (z, w) = both c in
          rw c (ground (arith, probed-wrap_last t a.e b xs g gs l w, in_span-head t a z))
      | inr c ↦ rw c (probed-member t (a ∷ b ∷ xs) (h, (g, gs)) l)
    ]
  where
    both :
        ((a.s == 0) && ((last_span b xs).e == week_minutes)) ≡ true
        → (a.s ≡ 0) × ((last_span b xs).e ≡ week_minutes)
    both c = ground (arith, c)

pub find_end-probed : (t : ℕ) (xs : List Span) → is_some (find_end t xs) ≡ probed t xs
unfolding find_end
find_end-probed t [] = refl
find_end-probed t (x ∷ xs) = ground (arith, find_end-probed t xs)

pub spans-IsWithin :
    (xs : List Span)
    → All (λ x. x.e ≤ week_minutes) xs
    → All IsWithin (merge_all_spans (sort_spans (keep wide xs)))
spans-IsWithin xs h =
    merge_all_spans-All (sort_spans (keep wide xs))
      (sort_spans-All (keep wide xs) (keep-IsWithin xs h))

-- The spans of the schedule cover what the raw spans do.
pub probed-spans :
    (t : ℕ) (xs : List Span)
    → All (λ x. x.e ≤ week_minutes) xs
    → t < week_minutes
    → probed t (close_seam (merge_all_spans (sort_spans (keep wide xs)))) ≡ member t xs
probed-spans t xs h l =
    probed-close_seam t (merge_all_spans (sort_spans (keep wide xs))) (spans-IsWithin xs h) l
    ∙ member-merge_all_spans t (sort_spans (keep wide xs)) (sort_spans-SortedFrom (keep wide xs))
    ∙ member-sort_spans t (keep wide xs)
    ∙ member-keep t xs
