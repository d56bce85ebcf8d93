-- ===== src/Hold/Expiry.antt =====
-- When a hold and a boost end: the expiry that is announced when a hold is set, and runs of
-- `expire_timed_states` (custom_components/poise/control/override_runtime.py).
use Prim.Native.String.{String}
use poise_thermostat.Base.{
  ◌≡◌, refl, ◌↔◌, inl, inr, Bool, true, false, ◌&&◌, Option, none, some, List, [], ◌∷◌, ◌∙◌, ap,
  arith, Bool-cases, get_or, length, ◌++◌, any_of,
}
use poise_thermostat.Base.Int.{ℤ, pos, ◌≤ℤ◌, ◌+ℤ◌, leb_ℤ, min_ℤ, ltb_ℤ, min_ℤ_bounds}
use poise_thermostat.Hold.{
  CommandResult, OverrideMode, no_preset, eco, comfort_preset, boost, away, schedule, UserState,
  HoldSettings, hours, minutes, upcoming, announce_hold_expiry, set_preset, end_hold,
  expire_timed_states, expire_boost, expire_hold, reached, flipped, hold_expired, expiry_reason,
}
use poise_thermostat.Hold.Lifecycle.{hold_active, is_boosting}

min_ℤ_left : (a b : ℤ) → leb_ℤ a b ≡ true → min_ℤ a b ≡ a
unfolding leb_ℤ min_ℤ
min_ℤ_left a b h = ground arith

leb_of_min : (a b : ℤ) → min_ℤ a b ≡ a → leb_ℤ a b ≡ true
unfolding leb_ℤ min_ℤ
leb_of_min a b h = ground arith

-- Under the schedule policy the announced expiry exists and is no later than the maximum duration
-- after the hold was set, and it is marked as the switchpoint exactly when it is the upcoming
-- switchpoint.
announce_hold_expiry_bounds :
    (c : HoldSettings) (u : UserState) (set_at : ℤ) (mins : Option ℤ)
    → c.policy ≡ schedule
    → (t : ℤ) × ((announce_hold_expiry c u set_at mins).override_expires_at ≡ some t)
      × (t ≤ℤ set_at +ℤ hours c.max_h)
      × (((announce_hold_expiry c u set_at mins).override_expiry_is_switchpoint ≡ true)
          ↔ (m : ℤ) × (upcoming mins ≡ some m) × (t ≡ set_at +ℤ minutes m))
unfolding announce_hold_expiry
announce_hold_expiry_bounds c u set_at none h = rw h (
  min_ℤ (set_at +ℤ hours c.timer_h) (set_at +ℤ hours c.max_h),
  refl,
  (min_ℤ_bounds (set_at +ℤ hours c.timer_h) (set_at +ℤ hours c.max_h)).1,
  ((λ e. cc), λ w. cc (w.1)),
)
announce_hold_expiry_bounds c u set_at (some m) h =
    let base = min_ℤ_bounds (set_at +ℤ hours c.timer_h) (set_at +ℤ hours c.max_h) in
    let point = min_ℤ_bounds (set_at +ℤ minutes m) (set_at +ℤ hours c.max_h) in
    rw h (elim (Bool-cases (ltb_ℤ (pos 0) m)) [
      | inr e ↦ rw e (
        min_ℤ (set_at +ℤ hours c.timer_h) (set_at +ℤ hours c.max_h),
        refl,
        base.1,
        ((λ f. cc), λ w. cc (w.1)),
      )
      | inl e ↦ rw e (
        min_ℤ (set_at +ℤ minutes m) (set_at +ℤ hours c.max_h),
        refl,
        point.1,
        (
          (λ f. (m, refl, min_ℤ_left (set_at +ℤ minutes m) (set_at +ℤ hours c.max_h) f)),
          λ w. leb_of_min (set_at +ℤ minutes m) (set_at +ℤ hours c.max_h) (cc (w.1, w.2)),
        ),
      )
    ])

-- A tick of the expiry check: whether anyone is home, where this is known, and the time.
pub record Tick : Type 0 where
  pub home : Option Bool
  pub now : ℤ

-- The zone's options.
pub record Options : Type 0 where
  pub end_on_presence : Bool
  pub boost_min : ℤ

-- one check
abbrev check : Options → UserState → Option Bool → Tick → CommandResult × Option Bool
check o u prev k = expire_timed_states u prev k.home o.end_on_presence o.boost_min k.now

-- The state after a run of ticks, and the reasons of the holds that ended.
unfoldable pub run : Options → UserState → Option Bool → List Tick → UserState × List String
run o u prev [] = (u, [])
run o u prev (k ∷ ks) =
    let (r, prev') = check o u prev k in
    let (u', later) = run o r.user prev' ks in (u', r.events ++ later)

-- the two ways in which a hold ends on its own
abbrev pub due : Options → Option ℤ → Option Bool → Tick → Bool
due o t prev k = hold_expired t k.now (flipped prev k.home) o.end_on_presence

abbrev pub Lasts : Options → Option ℤ → Option Bool → List Tick → Type 0
Lasts o t prev [] = Unit
Lasts o t prev (k ∷ ks) = (due o t prev k ≡ false) × Lasts o t k.home ks

set_preset-hold :
    (u : UserState) (mode : OverrideMode) (dur now : ℤ)
    → ((set_preset u mode dur now).user.override ≡ u.override)
      × ((set_preset u mode dur now).user.mode_override ≡ u.mode_override)
      × ((set_preset u mode dur now).user.override_expires_at ≡ u.override_expires_at)
      × ((set_preset u mode dur now).user.override_expiry_is_switchpoint
          ≡ u.override_expiry_is_switchpoint)
unfolding set_preset
set_preset-hold u no_preset dur now = (refl, refl, refl, refl)
set_preset-hold u eco dur now = (refl, refl, refl, refl)
set_preset-hold u comfort_preset dur now = (refl, refl, refl, refl)
set_preset-hold u boost dur now = (refl, refl, refl, refl)
set_preset-hold u away dur now = (refl, refl, refl, refl)

-- what the boost's expiry leaves alone
pub expire_boost-hold :
    (u : UserState) (now dur : ℤ)
    → ((expire_boost u now dur).0.override ≡ u.override)
      × ((expire_boost u now dur).0.mode_override ≡ u.mode_override)
      × ((expire_boost u now dur).0.override_expires_at ≡ u.override_expires_at)
      × ((expire_boost u now dur).0.override_expiry_is_switchpoint
          ≡ u.override_expiry_is_switchpoint)
unfolding expire_boost
expire_boost-hold u now dur = elim (Bool-cases (reached u.boost_expires_at now)) [
  | inl e ↦ rw e (set_preset-hold u (get_or u.boost_prev_preset no_preset) dur now)
  | inr e ↦ rw e (refl, refl, refl, refl)
]

-- One tick: a hold ends with its one event, or is left as it was.
check-home :
    (o : Options) (u : UserState) (prev : Option Bool) (k : Tick) → (check o u prev k).1 ≡ k.home
unfolding expire_timed_states
check-home o u prev k = refl

check-due :
    (o : Options) (u : UserState) (prev : Option Bool) (k : Tick)
    → hold_active u ≡ true
    → due o u.override_expires_at prev k ≡ true
    → (hold_active (check o u prev k).0.user ≡ false)
      × ((check o u prev k).0.events
          ≡ expiry_reason
              (flipped prev k.home && o.end_on_presence)
              u.override_expiry_is_switchpoint
            ∷ [])
unfolding expire_timed_states expire_hold end_hold
check-due o u prev k a d = ground (arith, expire_boost-hold u k.now o.boost_min, a, d)

check-lasts :
    (o : Options) (u : UserState) (prev : Option Bool) (k : Tick)
    → due o u.override_expires_at prev k ≡ false
    → ((check o u prev k).0.events ≡ [])
      × ((check o u prev k).0.user.override ≡ u.override)
      × ((check o u prev k).0.user.mode_override ≡ u.mode_override)
      × ((check o u prev k).0.user.override_expires_at ≡ u.override_expires_at)
unfolding expire_timed_states expire_hold
check-lasts o u prev k d = ground (arith, expire_boost-hold u k.now o.boost_min, d)

check-idle :
    (o : Options) (u : UserState) (prev : Option Bool) (k : Tick)
    → hold_active u ≡ false
    → ((check o u prev k).0.events ≡ []) × (hold_active (check o u prev k).0.user ≡ false)
unfolding expire_timed_states expire_hold
check-idle o u prev k a = ground (arith, expire_boost-hold u k.now o.boost_min, a)

run-idle :
    (o : Options) (u : UserState) (prev : Option Bool) (ks : List Tick)
    → hold_active u ≡ false
    → ((run o u prev ks).1 ≡ []) × (hold_active (run o u prev ks).0 ≡ false)
unfolding run
run-idle o u prev [] a = (refl, a)
run-idle o u prev (k ∷ ks) a =
    let (e, i) = check-idle o u prev k a in
    let ih = run-idle o (check o u prev k).0.user k.home ks i in rw (check-home o u prev k, e) ih

run-Lasts :
    (o : Options) (u : UserState) (v : Option ℤ) (m : Option String) (t : Option ℤ)
    (prev : Option Bool) (ks : List Tick)
    → u.override ≡ v
    → u.mode_override ≡ m
    → u.override_expires_at ≡ t
    → Lasts o t prev ks
    → ((run o u prev ks).1 ≡ [])
      × ((run o u prev ks).0.override ≡ v)
      × ((run o u prev ks).0.mode_override ≡ m)
      × ((run o u prev ks).0.override_expires_at ≡ t)
unfolding run
run-Lasts o u v m t prev [] ev em et h = (refl, ev, em, et)
run-Lasts o u v m t prev (k ∷ ks) ev em et (h, hs) =
    let (e, v', m', t') = check-lasts o u prev k (rw et h) in
    let ih =
      run-Lasts o (check o u prev k).0.user v m t k.home ks (v' ∙ ev) (m' ∙ em) (t' ∙ et) hs in
    rw (check-home o u prev k, e) ih

-- A run of ticks on none of which the expiry is reached, or presence flips where a flip ends holds,
-- sends no event and leaves the held setpoint, the held mode and the expiry as they were.
run-keeps :
    (o : Options) (u : UserState) (prev : Option Bool) (ks : List Tick)
    → Lasts o u.override_expires_at prev ks
    → ((run o u prev ks).1 ≡ [])
      × ((run o u prev ks).0.override ≡ u.override)
      × ((run o u prev ks).0.mode_override ≡ u.mode_override)
      × ((run o u prev ks).0.override_expires_at ≡ u.override_expires_at)
run-keeps o u prev ks h =
    run-Lasts o u u.override u.mode_override u.override_expires_at prev ks refl refl refl h

-- some tick of the run reaches the expiry
abbrev pub some_reached : Option ℤ → List Tick → Bool
some_reached t ks = any_of (λ k. reached t k.now) ks

rest_reached :
    (o : Options) (u : UserState) (t : Option ℤ) (prev : Option Bool) (k : Tick) (ks : List Tick)
    → u.override_expires_at ≡ t
    → due o u.override_expires_at prev k ≡ false
    → some_reached t (k ∷ ks) ≡ true
    → some_reached t ks ≡ true
unfolding hold_expired
rest_reached o u t prev k ks et d h = ground (arith, et, h, d)

run-ends :
    (o : Options) (u : UserState) (t : Option ℤ) (prev : Option Bool) (ks : List Tick)
    → hold_active u ≡ true
    → u.override_expires_at ≡ t
    → some_reached t ks ≡ true
    → (length (run o u prev ks).1 ≡ 1) × (hold_active (run o u prev ks).0 ≡ false)
unfolding run
run-ends o u t prev [] a et h = cc
run-ends o u t prev (k ∷ ks) a et h = elim (Bool-cases (due o u.override_expires_at prev k)) [
  | inl d ↦
      let (i, e) = check-due o u prev k a d in
      let (es, is) = run-idle o (check o u prev k).0.user k.home ks i in
      rw (check-home o u prev k, e, es) (refl, is)
  | inr d ↦
      let (e, v', m', t') = check-lasts o u prev k d in
      let ih =
        run-ends o (check o u prev k).0.user t k.home ks (rw (v', m') a) (t' ∙ et)
          (rest_reached o u t prev k ks et d h) in
      rw (check-home o u prev k, e) ih
]

-- A hold whose expiry some tick of a run reaches is not active after the run, and over the whole run
-- exactly one event tells of its end, whatever presence does.
pub run-ends_once :
    (o : Options) (u : UserState) (prev : Option Bool) (ks : List Tick)
    → hold_active u ≡ true
    → some_reached u.override_expires_at ks ≡ true
    → (length (run o u prev ks).1 ≡ 1) × (hold_active (run o u prev ks).0 ≡ false)
run-ends_once o u prev ks a h = run-ends o u u.override_expires_at prev ks a refl h

-- Choosing the boost any number of times, each with its duration and time.
unfoldable pub boosted : UserState → List (ℤ × ℤ) → UserState
boosted u [] = u
boosted u ((dur, now) ∷ l) = boosted (set_preset u boost dur now).user l

-- while the boost is on, the preset to restore stays
boosted-prev :
    (u : UserState) (l : List (ℤ × ℤ)) (p : OverrideMode)
    → u.preset ≡ boost
    → u.boost_prev_preset ≡ some p
    → ((boosted u l).preset ≡ boost) × ((boosted u l).boost_prev_preset ≡ some p)
unfolding boosted set_preset
boosted-prev u [] p b h = (b, h)
boosted-prev u ((dur, now) ∷ l) p b h =
    boosted-prev (set_preset u boost dur now).user l p refl (rw b h)

set_preset-leaves :
    (u : UserState) (m : OverrideMode) (dur now : ℤ)
    → is_boosting m ≡ false
    → ((set_preset u m dur now).user.preset ≡ m)
      × ((set_preset u m dur now).user.boost_expires_at ≡ none)
      × ((set_preset u m dur now).user.boost_prev_preset ≡ none)
unfolding set_preset
set_preset-leaves u no_preset dur now h = (refl, refl, refl)
set_preset-leaves u eco dur now h = (refl, refl, refl)
set_preset-leaves u comfort_preset dur now h = (refl, refl, refl)
set_preset-leaves u boost dur now h = cc
set_preset-leaves u away dur now h = (refl, refl, refl)

expire_boost-to :
    (u : UserState) (p : OverrideMode) (now boost_min : ℤ)
    → is_boosting p ≡ false
    → u.boost_prev_preset ≡ some p
    → reached u.boost_expires_at now ≡ true
    → ((expire_boost u now boost_min).0.preset ≡ p)
      × ((expire_boost u now boost_min).0.boost_expires_at ≡ none)
      × ((expire_boost u now boost_min).0.boost_prev_preset ≡ none)
unfolding expire_boost
expire_boost-to u p now boost_min n h r =
    let e : get_or u.boost_prev_preset no_preset ≡ p = cc (ap (λ z. get_or z no_preset) h) in
    let (a, b, c) =
      set_preset-leaves u (get_or u.boost_prev_preset no_preset) boost_min now
        (ground (arith, e, n)) in
    rw r (a ∙ e, b, c)

boosted-first :
    (u : UserState) (dur set_at : ℤ) (more : List (ℤ × ℤ))
    → is_boosting u.preset ≡ false
    → (boosted u ((dur, set_at) ∷ more)).boost_prev_preset ≡ some u.preset
unfolding boosted set_preset
boosted-first u dur set_at more n =
    (boosted-prev (set_preset u boost dur set_at).user more u.preset refl (ground (arith, n))).1

-- However often the boost is chosen again while it is on, its expiry restores the preset from before
-- the first choice and clears the boost fields.
expire_boost-restores :
    (u : UserState) (dur set_at : ℤ) (more : List (ℤ × ℤ)) (now boost_min : ℤ)
    → is_boosting u.preset ≡ false
    → reached (boosted u ((dur, set_at) ∷ more)).boost_expires_at now ≡ true
    → let u' = (expire_boost (boosted u ((dur, set_at) ∷ more)) now boost_min).0 in
      (u'.preset ≡ u.preset) × (u'.boost_expires_at ≡ none) × (u'.boost_prev_preset ≡ none)
expire_boost-restores u dur set_at more now boost_min n r =
    expire_boost-to (boosted u ((dur, set_at) ∷ more)) u.preset now boost_min n
      (boosted-first u dur set_at more n) r
